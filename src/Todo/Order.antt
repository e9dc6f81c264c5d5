-- ===== src/Todo/Order.antt =====
-- What `reorder` of todo_backends.py does to the ids, and when it keeps the items.
use mathlib.Core.Path.{fun_ext}
use serac.Common.{
  ◌≡◌, ◌∷◌, ◌++◌, ◌==◌, [], String, Bool, true, false, not, ◌||◌, none, some, List, keep, refl,
  arith, same_iff, Option-cases, inl, inr, text_key, ap, ap₂, ◌∙◌, contains, All, All-map,
  All-of_map, All-contains, contains-keep, keep-map, keep-agree, map-append,
}
use serac.Common.Dict
use serac.Common.Dict.{Dict, get-put}
use serac.Todo.{TodoItem, ids, id_map, picked}
use serac.Todo.File.{seen_ids, arranged}

-- The map from ids has an entry for each id, under that id.
abbrev pub Keyed : Dict String TodoItem → Type 0
Keyed d = (r : String) (item : TodoItem) → Dict.get r d ≡ some item → item.id ≡ r

put-Keyed : (d : Dict String TodoItem) (item : TodoItem) → Keyed d → Keyed (Dict.put item.id item d)
put-Keyed d item k r other h =
    ground (arith, get-put item.id r item d, same_iff item.id r, k r other)

pub id_map-Keyed :
    (d : Dict String TodoItem) (items : List TodoItem) → Keyed d → Keyed (id_map d items)
unfolding id_map
id_map-Keyed d [] k = k
id_map-Keyed d (item ∷ rest) k = id_map-Keyed (Dict.put item.id item d) rest (put-Keyed d item k)

abbrev pub has : Dict String TodoItem → String → Bool
has d r = elim (Dict.get r d) [ none ↦ false | some _ ↦ true ]

has-id_map :
    (d : Dict String TodoItem) (items : List TodoItem) (r : String)
    → has (id_map d items) r ≡ (contains r (ids items) || has d r)
unfolding id_map
has-id_map d [] r = refl
has-id_map d (item ∷ rest) r =
    ground (arith, has-id_map (Dict.put item.id item d) rest r, get-put item.id r item d)

pub ids-picked :
    (d : Dict String TodoItem) (item_ids : List String)
    → Keyed d
    → ids (picked d item_ids) ≡ keep (has d) item_ids
unfolding picked
ids-picked d [] k = refl
ids-picked d (r ∷ rest) k = elim (Option-cases (Dict.get r d)) [
  | inl gone ↦ rw (gone, picked, has) (ids-picked d rest k)
  | inr (item, found) ↦ rw (found, picked, has) (ap₂ ◌∷◌ (k r item found) (ids-picked d rest k))
]

pub known : (items : List TodoItem) (r : String) → has (id_map [] items) r ≡ contains r (ids items)
unfolding Dict.get
known items r = ground (arith, has-id_map [] items r)

pub unlisted :
    (item_ids : List String) (items : List TodoItem)
    → keep (λ item. not (contains item.id (seen_ids (id_map [] items) item_ids))) items
      ≡ keep (λ item. not (contains item.id item_ids)) items
unfolding seen_ids
unlisted item_ids items = keep-agree _ _ items (
    All-map
      (λ item h.
        ground (arith, contains-keep (has (id_map [] items)) item.id item_ids, known items item.id))
      items (All-of_map _ (λ item. item.id) items (All-contains (ids items))))

pub All-ne :
    (r : String) (items : List TodoItem)
    → contains r (ids items) ≡ false
    → All (λ item. (r == item.id) ≡ false) items
All-ne r [] h = tt
All-ne r (x ∷ rest) h =
    (ground (arith, same_iff x.id r, same_iff r x.id), All-ne r rest (ground arith))

-- `reorder` lists the known ids first, in the order and as often as they are asked for, and then the
-- others in their old order.
pub ids-arranged :
    (item_ids : List String) (items : List TodoItem)
    → ids (arranged item_ids items)
      ≡ keep (λ r. contains r (ids items)) item_ids
        ++ keep (λ i. not (contains i item_ids)) (ids items)
unfolding arranged seen_ids Dict.get
ids-arranged item_ids items =
    let d = id_map [] items in
    let first = ids-picked d item_ids (id_map-Keyed [] items (λ r item h. cc)) in
    let rest = keep-map (λ i. not (contains i item_ids)) (λ item. item.id) items in
    map-append (λ item. item.id) (picked d item_ids) _
    ∙ ap₂ ◌++◌ (first ∙ ap (λ p. keep p item_ids) (fun_ext (known items)))
        (ap ids (unlisted item_ids items) ∙ rest)
