-- ===== src/Todo/Perm.antt =====
-- `reorder` of todo_backends.py loses and repeats no item where no id repeats.
use mathlib.Core.List.Perm
use mathlib.Core.List.{Perm, perm_middle}
use serac.Common.{
  ◌≡◌, ◌∷◌, ◌++◌, ◌==◌, [], String, Bool, true, false, not, some, List, keep, refl, sym, ap₂, subst,
  arith, same_iff, same_refl, Bool-cases, Option-cases, inl, inr, text_key, contains, Distinct,
  keep_none, All-every,
}
use serac.Common.Dict
use serac.Common.Dict.{Dict, get-put}
use serac.Todo.{TodoItem, ids, id_map, picked}
use serac.Todo.File.{arranged}
use serac.Todo.Order.{has, known, unlisted}

keep-not-perm {ℓ} :
    {A : Type ℓ} (p : A → Bool) (xs : List A) → Perm (keep p xs ++ keep (λ x. not (p x)) xs) xs
keep-not-perm p [] = Perm.refl []
keep-not-perm p (x ∷ xs) = elim (Bool-cases (p x)) [
  | inl t ↦ rw t (Perm.cons x (keep-not-perm p xs))
  | inr t ↦ rw t (Perm.trans (perm_middle (keep p xs) _) (Perm.cons x (keep-not-perm p xs)))
]

-- An entry for `r` is that of the last item with this id, or an old one.
pub get-id_map_absent :
    (d : Dict String TodoItem) (items : List TodoItem) (r : String)
    → contains r (ids items) ≡ false
    → Dict.get r (id_map d items) ≡ Dict.get r d
unfolding id_map
get-id_map_absent d [] r h = refl
get-id_map_absent d (item ∷ rest) r h =
    ground (arith, get-id_map_absent (Dict.put item.id item d) rest r, get-put item.id r item d)

get-id_map_present :
    (d e : Dict String TodoItem) (items : List TodoItem) (r : String)
    → contains r (ids items) ≡ true
    → Dict.get r (id_map d items) ≡ Dict.get r (id_map e items)
unfolding id_map
get-id_map_present d e [] r h = cc
get-id_map_present d e (item ∷ rest) r h = elim (Bool-cases (contains r (ids rest))) [
  | inl t ↦ get-id_map_present (Dict.put item.id item d) (Dict.put item.id item e) rest r t
  | inr t ↦ ground (
    arith,
    get-id_map_absent (Dict.put item.id item d) rest r t,
    get-id_map_absent (Dict.put item.id item e) rest r t,
    get-put item.id r item d,
    get-put item.id r item e,
  )
]

keep_extra :
    (items : List TodoItem) (r : String) (rest : List String)
    → contains r (ids items) ≡ false
    → keep (λ i. contains i.id (r ∷ rest)) items ≡ keep (λ i. contains i.id rest) items
keep_extra [] r rest h = refl
keep_extra (x ∷ items) r rest h =
    ground (arith, keep_extra items r rest, same_iff x.id r, same_iff r x.id)

module _ (x : TodoItem) (items : List TodoItem) (r : String) (item : TodoItem)
    (found : Dict.get r (id_map [] (x ∷ items)) ≡ some item) where
  found_here : r ≡ x.id → contains x.id (ids items) ≡ false → item ≡ x
  unfolding id_map Dict.get Dict.put
  found_here e n = ground (arith, get-id_map_absent ((x.id, x) ∷ []) items x.id n, same_refl x.id)

  found_later : (r == x.id) ≡ false → Dict.get r (id_map [] items) ≡ some item
  unfolding id_map Dict.get Dict.put
  found_later n = ground (
    arith,
    get-id_map_absent ((x.id, x) ∷ []) items r,
    get-id_map_present ((x.id, x) ∷ []) [] items r,
    same_iff r x.id,
    same_iff x.id r,
  )

-- Taking one more id from the list takes its item.
one_more :
    (items : List TodoItem) (r : String) (rest : List String) (item : TodoItem)
    → Distinct (ids items)
    → contains r rest ≡ false
    → Dict.get r (id_map [] items) ≡ some item
    → Perm
        (item ∷ keep (λ i. contains i.id rest) items)
        (keep (λ i. contains i.id (r ∷ rest)) items)
one_more [] r rest item d n h = absurd (unfold id_map Dict.get in cc)
one_more (x ∷ items) r rest item d n h = elim (Bool-cases (r == x.id)) [
  | inl t ↦
      let here = (same_iff r x.id).0 t in
      let skipped : contains x.id rest ≡ false = rw (← here) n in
      let absent : contains r (ids items) ≡ false = rw here d.0 in
      rw (skipped, t)
        (subst (Perm _)
          (ap₂ ◌∷◌ (found_here x items r item h here d.0) (sym (keep_extra items r rest absent)))
          (Perm.refl _))
  | inr t ↦
      let more = one_more items r rest item d.1 n (found_later x items r item h t) in
      elim (Bool-cases (contains x.id rest)) [
        | inl u ↦ rw (t, u) (Perm.trans (Perm.swap x item _) (Perm.cons x more))
        | inr u ↦ rw (t, u) more
      ]
]

picked-perm :
    (items : List TodoItem) (item_ids : List String)
    → Distinct (ids items)
    → Distinct item_ids
    → Perm (picked (id_map [] items) item_ids) (keep (λ i. contains i.id item_ids) items)
unfolding picked
picked-perm items [] d e = rw (keep_none _ items (All-every (λ i. refl) items)) (Perm.refl [])
picked-perm items (r ∷ rest) d e = elim (Option-cases (Dict.get r (id_map [] items))) [
  | inl gone ↦
      rw (gone, picked)
        (rw (keep_extra items r rest (rw (← known items r) (rw (gone, has))))
          (picked-perm items rest d e.1))
  | inr (item, found) ↦
      rw (found, picked)
        (Perm.trans (Perm.cons item (picked-perm items rest d e.1))
          (one_more items r rest item d e.0 found))
]

-- When no id repeats in the list, and none in the request, `reorder` only changes the order.
pub arranged-perm :
    (item_ids : List String) (items : List TodoItem)
    → Distinct (ids items)
    → Distinct item_ids
    → Perm (arranged item_ids items) items
unfolding arranged
arranged-perm item_ids items d e = rw (unlisted item_ids items) (
    Perm.trans (Perm.append_right _ (picked-perm items item_ids d e))
      (keep-not-perm (λ i. contains i.id item_ids) items))
