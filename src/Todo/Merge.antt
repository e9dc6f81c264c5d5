-- ===== src/Todo/Merge.antt =====
-- action='set' with merge=True of todo.py never merges: an entry with the id of an item is given
-- another id before the merge looks for it.
use serac.Common.{
  ◌≡◌, ◌∷◌, ◌++◌, ◌==◌, [], ℕ, suc, ◌+◌, String, true, false, Option, none, some, List, map, refl,
  sym, ap, ap₂, ◌∙◌, arith, contains, Distinct, All, All-map, All-contains, All-of_map, All-every,
  All-both, text_key, same_refl, append_assoc, append-nil,
}
use serac.Common.Dict
use serac.Common.Dict.{Dict, or_else, get-put, put-absent}
use serac.Todo.{TodoItem, ids, id_map, picked}
use serac.Todo.File
use serac.Todo.File.{FileTodoStore}
use serac.Todo.Memory.{MemoryTodoStore}
use serac.Todo.Order.{All-ne}
use serac.Todo.Perm.{get-id_map_absent}
use serac.Todo.Refine.{Shows, read-Shows}
use serac.Todo.Executor.{
  Arguments, set, TodoDict, new_item, merge_one, merge_all, unseen, merged, give_ids, draw_id,
  list_text, todo_executor,
}

get-id_map_each :
    (e : Dict String TodoItem) (items : List TodoItem)
    → Distinct (ids items)
    → All (λ x. Dict.get x.id (id_map e items) ≡ some x) items
unfolding id_map
get-id_map_each e [] d = tt
get-id_map_each e (x ∷ rest) d = (
  ground (
    arith,
    get-id_map_absent (Dict.put x.id x e) rest x.id d.0,
    get-put x.id x.id x e,
    same_refl x.id,
  ),
  get-id_map_each (Dict.put x.id x e) rest d.1,
)

picked_self :
    (d : Dict String TodoItem) (items : List TodoItem)
    → All (λ x. Dict.get x.id d ≡ some x) items
    → picked d (ids items) ≡ items
unfolding picked
picked_self d [] h = refl
picked_self d (x ∷ rest) h = rw (h.0, picked) (ap (λ l. x ∷ l) (picked_self d rest h.1))

abbrev entries : List TodoItem → Dict String TodoItem
entries items = map (λ x. (x.id, x)) items

entries-id_map :
    (d : Dict String TodoItem) (items : List TodoItem)
    → Distinct (ids items)
    → All (λ x. Dict.get x.id d ≡ none) items
    → id_map d items ≡ d ++ entries items
unfolding id_map
entries-id_map d [] e h = sym (append-nil d)
entries-id_map d (x ∷ rest) e h =
    entries-id_map (Dict.put x.id x d) rest e.1 fresh
    ∙ ap (λ l. l ++ entries rest) (put-absent x.id x d h.0)
    ∙ append_assoc d ((x.id, x) ∷ []) (entries rest)
  where
    fresh : All (λ y. Dict.get y.id (Dict.put x.id x d) ≡ none) rest
    fresh =
        All-map (λ y h. ground (arith, get-put x.id y.id x d, h.0, h.1)) rest
          (All-both _ _ rest h.1 (All-ne x.id rest e.0))

unseen-append :
    (seen : List String) (d e : Dict String TodoItem)
    → unseen seen (d ++ e) ≡ unseen seen d ++ unseen seen e
unfolding unseen
unseen-append seen [] e = refl
unseen-append seen ((k, x) ∷ d) e = ground (arith, unseen-append seen d e)

unseen_old :
    (seen : List String) (items : List TodoItem)
    → All (λ x. contains x.id seen ≡ true) items
    → unseen seen (entries items) ≡ []
unfolding unseen
unseen_old seen [] h = refl
unseen_old seen (x ∷ rest) h = ground (arith, unseen_old seen rest h.1)

module _ (items : List TodoItem) (item : TodoItem) (distinct : Distinct (ids items))
    (new : contains item.id (ids items) ≡ false) where
  map_after : Dict String TodoItem
  map_after = Dict.put item.id item (id_map [] items)

  picked_after : picked map_after (ids items) ≡ items
  unfolding map_after
  picked_after = picked_self map_after items (
      All-map (λ x h. ground (arith, get-put item.id x.id item (id_map [] items), h.0, h.1)) items
        (All-both _ _ items (get-id_map_each [] items distinct) (All-ne item.id items new)))

  unseen_after : unseen (ids items) map_after ≡ item ∷ []
  unfolding map_after Dict.get
  unseen_after =
      let absent : Dict.get item.id (id_map [] items) ≡ none =
        get-id_map_absent [] items item.id new in
      let old = entries-id_map [] items distinct (All-every (λ x. refl) items) in
      ap (unseen (ids items))
        (put-absent item.id item (id_map [] items) absent ∙ ap (λ l. l ++ (item.id, item) ∷ []) old)
      ∙ unseen-append (ids items) (entries items) ((item.id, item) ∷ [])
      ∙ ap₂ ◌++◌
          (unseen_old (ids items) items (All-of_map _ (λ x. x.id) items (All-contains (ids items))))
          (unfold unseen in rw new)

merged-append :
    (items : List TodoItem) (k : String) (c t : Option String)
    → Distinct (ids items)
    → contains k (ids items) ≡ false
    → merged items (record { id = some k; content = c; status = t } ∷ [])
      ≡ items ++ new_item (record { id = some k; content = c; status = t }) ∷ []
unfolding merged map_after new_item Dict.get
merged-append items k c t d n =
    let item = new_item (record { id = some k; content = c; status = t }) in
    let absent : Dict.get k (id_map [] items) ≡ none = get-id_map_absent [] items k n in
    rw (absent, merged, merge_all, merge_one)
      (ap₂ ◌++◌ (picked_after items item d n) (unseen_after items item d n))

-- The id of an old item is replaced by the first draw, if that is fresh.
redraw :
    (uuid : ℕ → String) (fuel : ℕ) (taken : List String) (i : String) (c t : Option String)
    (drawn n : ℕ)
    → drawn ≡ n
    → contains i taken ≡ true
    → (uuid n == "") ≡ false
    → contains (uuid n) taken ≡ false
    → give_ids uuid
        (suc (suc fuel))
        taken
        (record { id = some i; content = c; status = t } ∷ [])
        drawn
      ≡ some (record { id = some (uuid n); content = c; status = t } ∷ [], n + 1)
unfolding give_ids draw_id
redraw uuid fuel taken i c t drawn n e old ne new = rw e (ground arith)

-- A call of the tool that merges the entry into the list.
abbrev pub merging : TodoDict → Arguments
merging td = record {
  action = set;
  item_id = "";
  content = "";
  status = "";
  item_ids = [];
  todos = td ∷ [];
  merge = true;
}

-- A merge of one entry that has the id of an item leaves every item as it is, and appends a new item
-- under a fresh id. No id repeats in the list, and the uuid drawn is neither empty nor in use.
pub set_merge-appends :
    {T : Type 0} (uuid : ℕ → String) (fuel : ℕ) (now : T) (i : String) (c t : Option String)
    (s : FileTodoStore T) (m : MemoryTodoStore T)
    → Shows uuid s m
    → Distinct (ids m.items)
    → contains i (ids m.items) ≡ true
    → (uuid m.drawn == "") ≡ false
    → contains (uuid m.drawn) (ids m.items) ≡ false
    → todo_executor uuid
        (suc (suc fuel))
        now
        (merging (record { id = some i; content = c; status = t }))
        s
      ≡ some (
          list_text uuid (suc (suc fuel)) now (
            File.write now
              (m.items
                ++ new_item (record { id = some (uuid m.drawn); content = c; status = t }) ∷ [])
              (record s { drawn = m.drawn + 1 })))
unfolding todo_executor
set_merge-appends uuid fuel now i c t s m shows d old ne new =
    let drew = redraw uuid fuel (ids m.items) i c t s.drawn m.drawn shows.draws old ne new in
    let again =
      read-Shows uuid now (record s { drawn = m.drawn + 1 }) (record m { drawn = m.drawn + 1 })
        (record {
          meta = shows.meta;
          at = shows.at;
          same = shows.same;
          fit = shows.fit;
          draws = refl;
        }) in
    rw (read-Shows uuid now s m shows)
      (rw drew (rw again (rw (merged-append m.items (uuid m.drawn) c t d new))))
