-- ===== src/Todo/Agree.antt =====
-- Where the methods of the two stores of todo_backends.py agree: `update_item` and `reorder`, on lists.
use serac.Common.{
  ◌>>=◌, ◌≡◌, ◌∷◌, ◌++◌, ◌==◌, ◌||◌, [], String, true, false, not, Option, none, some, List, keep,
  refl, sym, ap, ◌∙◌, subst, arith, contains, contains-append, Distinct, All, Result, ok, err,
  same_iff, text_key, keep-agree, All-keep, All-append, map-append, append_assoc, append-nil,
  Bool-cases, Option-cases, inl, inr, All-map,
}
use serac.Common.Dict
use serac.Common.Dict.{Dict, get-put}
use serac.Todo.{TodoItem, ValueError, ids, is_valid_status, id_map, picked}
use serac.Todo.File.{edit_items, edited, arranged, seen_ids}
use serac.Common.Dict.{or_else}
use serac.Todo.Memory.{shared, update_items, append_unlisted, reordered}
use serac.Todo.Order.{ids-picked, id_map-Keyed, All-ne}
use serac.Todo.Refine.{IsStorable}

-- A status that `update_item` accepts.
abbrev pub Accepts : Option String → Type 0
Accepts none = Unit
Accepts (some s) = is_valid_status s ≡ true

unfoldable pub joined :
    Result ValueError (TodoItem × List TodoItem)
    → List TodoItem
    → Result ValueError TodoItem × List TodoItem
joined (err e) items = (err e, items)
joined (ok (item, items)) _ = (ok item, items)

shared-absent :
    (changed : TodoItem) (items : List TodoItem)
    → contains changed.id (ids items) ≡ false
    → shared changed items ≡ items
shared-absent changed [] h = refl
shared-absent changed (item ∷ rest) h =
    ground (arith, same_iff item.id changed.id, shared-absent changed rest)

pub update-joined :
    (item_id : String) (content status : Option String) (items : List TodoItem)
    → Accepts status
    → Distinct (ids items)
    → update_items item_id content status items
      ≡ joined (edit_items item_id content status items) items
unfolding update_items edit_items joined
update-joined item_id content status [] a d = refl
update-joined item_id content none (item ∷ rest) a (n, d) =
    let alone = shared-absent (record item { content = or_else content item.content }) rest n in
    rw alone (ground (arith, update-joined item_id content none rest a d))
update-joined item_id content (some s) (item ∷ rest) a (n, d) =
    let alone =
      shared-absent (record item { content = or_else content item.content; status = s }) rest n in
    rw (a, alone) (ground (arith, update-joined item_id content (some s) rest a d))

-- What a run of `edit_items` would write can be stored.
abbrev pub Fit : Result ValueError (TodoItem × List TodoItem) → Type 0
Fit (err e) = Unit
Fit (ok (item, items)) = All IsStorable items

Fit-cons :
    (x : TodoItem) (r : Result ValueError (TodoItem × List TodoItem))
    → IsStorable x
    → Fit r
    → Fit (do (item, rest) ← r; ok (item, x ∷ rest))
Fit-cons x (err e) h f = tt
Fit-cons x (ok (item, rest)) h f = (h, f)

edited-Fit :
    (content status : Option String) (x : TodoItem) (rest : List TodoItem)
    → Accepts status
    → All IsStorable (x ∷ rest)
    → Fit (do item ← edited content status x; ok (item, item ∷ rest))
unfolding edited
edited-Fit content none x rest a f = f
edited-Fit content (some s) x rest a f = rw a ((f.0.0, a), f.1)

pub edit_items-Fit :
    (item_id : String) (content status : Option String) (items : List TodoItem)
    → Accepts status
    → All IsStorable items
    → Fit (edit_items item_id content status items)
unfolding edit_items
edit_items-Fit item_id content status [] a f = tt
edit_items-Fit item_id content status (x ∷ rest) a f =
    let later =
      Fit-cons x (edit_items item_id content status rest) f.0
        (edit_items-Fit item_id content status rest a f.1) in
    elim (Bool-cases (x.id == item_id)) [
      | inl t ↦ rw t (edited-Fit content status x rest a f)
      | inr t ↦ rw t later
    ]

contains-added :
    (acc : List TodoItem) (x item : TodoItem)
    → contains item.id (ids (acc ++ x ∷ []))
      ≡ (contains item.id (ids acc) || (x.id == item.id || false))
contains-added acc x item =
    ap (contains item.id) (map-append (λ i. i.id) acc (x ∷ []))
    ∙ contains-append item.id (ids acc) (x.id ∷ [])

-- The quadratic loop of the list adds what the comprehension of the file store keeps.
append_unlisted-keep :
    (acc items : List TodoItem)
    → Distinct (ids items)
    → append_unlisted acc items ≡ acc ++ keep (λ item. not (contains item.id (ids acc))) items
unfolding append_unlisted
append_unlisted-keep acc [] d = sym (append-nil acc)
append_unlisted-keep acc (x ∷ rest) d = elim (Bool-cases (contains x.id (ids acc))) [
  | inl t ↦ rw (t, append_unlisted) (append_unlisted-keep acc rest d.1)
  | inr t ↦
      rw (t, append_unlisted)
        (append_unlisted-keep (acc ++ x ∷ []) rest d.1
          ∙ append_assoc acc (x ∷ []) _
          ∙ ap (λ l. acc ++ x ∷ l)
              (keep-agree _ _ rest (
                All-map (λ item n. ground (arith, contains-added acc x item, n)) rest
                  (All-ne x.id rest d.0))))
]

pub reordered-arranged :
    (item_ids : List String) (items : List TodoItem)
    → Distinct (ids items)
    → reordered item_ids items ≡ arranged item_ids items
unfolding reordered arranged seen_ids Dict.get
reordered-arranged item_ids items d =
    let first = ids-picked (id_map [] items) item_ids (id_map-Keyed [] items (λ r item h. cc)) in
    append_unlisted-keep (picked (id_map [] items) item_ids) items d
    ∙ ap (λ l. picked (id_map [] items) item_ids ++ keep (λ item. not (contains item.id l)) items)
        first

-- The entries of a map are storable.
abbrev Stores : Dict String TodoItem → Type 0
Stores d = (r : String) (item : TodoItem) → Dict.get r d ≡ some item → IsStorable item

put-Stores :
    (d : Dict String TodoItem) (item : TodoItem)
    → IsStorable item
    → Stores d
    → Stores (Dict.put item.id item d)
put-Stores d item s k r other h = elim (Bool-cases (item.id == r)) [
  | inl t ↦ subst IsStorable {x = item} {y = other} (ground (arith, get-put item.id r item d)) s
  | inr t ↦ k r other (ground (arith, get-put item.id r item d))
]

id_map-Stores :
    (d : Dict String TodoItem) (items : List TodoItem)
    → All IsStorable items
    → Stores d
    → Stores (id_map d items)
unfolding id_map
id_map-Stores d [] f k = k
id_map-Stores d (item ∷ rest) f k =
    id_map-Stores (Dict.put item.id item d) rest f.1 (put-Stores d item f.0 k)

picked-fit :
    (d : Dict String TodoItem) (item_ids : List String)
    → Stores d
    → All IsStorable (picked d item_ids)
unfolding picked
picked-fit d [] k = tt
picked-fit d (r ∷ rest) k = elim (Option-cases (Dict.get r d)) [
  | inl gone ↦ rw (gone, picked) (picked-fit d rest k)
  | inr (item, found) ↦ rw (found, picked) (k r item found, picked-fit d rest k)
]

pub arranged-fit :
    (item_ids : List String) (items : List TodoItem)
    → All IsStorable items
    → All IsStorable (arranged item_ids items)
unfolding arranged Dict.get
arranged-fit item_ids items f =
    All-append IsStorable _ _
      (picked-fit (id_map [] items) item_ids
        (id_map-Stores [] items f (λ r item h. absurd (unfold Dict.get in cc))))
      (All-keep IsStorable _ items f)
