-- ===== src/Todo/Edits.antt =====
-- What the tool of todo.py makes of a partial update and of a merge.
use serac.Common.{
  ◌≡◌, ◌∷◌, ◌==◌, if◌then◌else◌, [], ℕ, String, true, false, Option, some, List, refl, arith,
  contains, ok, err, text_key, same_iff, Bool-cases, inl, inr,
}
use serac.Todo.{TodoItem, invalid_status, not_found, ids, is_valid_status}
use serac.Todo.File
use serac.Todo.File.{FileTodoStore, edit_items, edited}
use serac.Todo.Memory.{MemoryTodoStore}
use serac.Todo.Refine.{Shows, read-Shows}
use serac.Todo.Executor.{Arguments, update, updated, failed, todo_executor}

pub edit_items-found :
    (item_id : String) (c : String) (s : String) (items : List TodoItem)
    → is_valid_status s ≡ true
    → contains item_id (ids items) ≡ true
    → (item : TodoItem) × (items' : List TodoItem) × (edit_items item_id (some c) (some s) items
        ≡ ok (item, items'))
      × (item.id ≡ item_id)
      × (item.content ≡ c)
      × (item.status ≡ s)
unfolding edit_items edited
edit_items-found item_id c s [] v h = absurd (cc)
edit_items-found item_id c s (x ∷ rest) v h = elim (Bool-cases (x.id == item_id)) [
  | inl t ↦ (
    record { id = x.id; content = c; status = s },
    record { id = x.id; content = c; status = s } ∷ rest,
    ground arith,
    (same_iff x.id item_id).0 t,
    refl,
    refl,
  )
  | inr t ↦
      let (item, items', e, same, c', s') = edit_items-found item_id c s rest v (ground arith) in
      (item, x ∷ items', ground arith, same, c', s')
]

edit_items-invalid :
    (item_id : String) (c : Option String) (s : String) (items : List TodoItem)
    → is_valid_status s ≡ false
    → edit_items item_id c (some s) items
      ≡ err (if contains item_id (ids items) then invalid_status s else not_found item_id)
unfolding edit_items edited
edit_items-invalid item_id c s [] v = refl
edit_items-invalid item_id c s (x ∷ rest) v = ground (arith, edit_items-invalid item_id c s rest v)

-- A call of the tool to update the item `i`; what it does not give is empty.
abbrev pub updating : String → String → String → Arguments
updating i content status = record {
  action = update;
  item_id = i;
  content = content;
  status = status;
  item_ids = [];
  todos = [];
  merge = false;
}

module _ {T : Type 0} (uuid : ℕ → String) (fuel : ℕ) (now : T) (i : String) (s : FileTodoStore T)
    (m : MemoryTodoStore T) (shows : Shows uuid s m) (given : (i == "") ≡ false) where
  -- An update by the tool that gives a valid status and no content blanks the content of the item.
  pub update_status-blanks :
      (status : String)
      → (status == "") ≡ false
      → is_valid_status status ≡ true
      → contains i (ids m.items) ≡ true
      → (item : TodoItem) × (s' : FileTodoStore T) × (todo_executor uuid fuel now
            (updating i "" status)
            s
          ≡ some (updated item, s'))
        × (item.id ≡ i)
        × (item.content ≡ "")
        × (item.status ≡ status)
  unfolding todo_executor File.update_item File.saved
  update_status-blanks status n v h =
      let (item, items', e, same, blank, new) = edit_items-found i "" status m.items v h in
      (
        item,
        File.write now items' s,
        rw (given, n) (rw (read-Shows uuid now s m shows) (rw e)),
        same,
        blank,
        new,
      )

  -- An update by the tool that gives content and no status fails, and leaves the file as it is.
  pub update_content-fails :
      (content : String)
      → (content == "") ≡ false
      → todo_executor uuid fuel now (updating i content "") s
        ≡ some (failed (if contains i (ids m.items) then invalid_status "" else not_found i), s)
  unfolding todo_executor File.update_item is_valid_status File.saved
  update_content-fails content n =
      rw (given, n)
        (rw (read-Shows uuid now s m shows)
          (rw (edit_items-invalid i (some content) "" m.items refl)))
