-- ===== src/Todo/Refine.antt =====
-- `FileTodoStore` against `MemoryTodoStore`: over a file whose items are complete, each method of the
-- file store returns what that of the list returns, and leaves the file that holds its list.
use serac.Common.{
  ◌≡◌, ◌∷◌, ◌++◌, ◌==◌, [], ℕ, String, true, false, not, some, List, map, refl, sym, ap, arith, All,
  text_key, ltb, subst, inl, inr, Bool-cases, nat_beq_iff, nat_beq, length, ◌+◌, keep-eq_of_length,
  length-keep-le, All-keep, All-append,
}
use serac.Todo.{TodoItem, without, unfinished, is_valid_status, to_dict, from_dicts}
use serac.Todo.File
use serac.Todo.File.{TodoFile, TodoData, FileTodoStore, stored, read, write, read_raw}
use serac.Todo.Memory
use serac.Todo.Memory.{MemoryTodoStore}

-- An item that the file gives back as it was written.
abbrev pub IsStorable : TodoItem → Type 0
IsStorable item = ((item.id == "") ≡ false) × (is_valid_status item.status ≡ true)

from_dicts-to_dict :
    (uuid : ℕ → String) (drawn : ℕ) (items : List TodoItem)
    → All IsStorable items
    → from_dicts uuid drawn (map to_dict items) ≡ (items, drawn)
unfolding from_dicts to_dict
from_dicts-to_dict uuid drawn [] h = refl
from_dicts-to_dict uuid drawn (item ∷ rest) h =
    ground (arith, from_dicts-to_dict uuid drawn rest h.1)

pending_valid : is_valid_status "pending" ≡ true
unfolding is_valid_status
pending_valid = refl

module _ {T : Type 0} (uuid : ℕ → String) where
  -- Items that each have an id and a valid status are read back as they were written: the same items in
  -- the same order, with no new id, whatever the file held before. The time of the first write is kept
  -- where the file has one.
  pub read-write :
      (now later : T) (items : List TodoItem) (store : FileTodoStore T)
      → All IsStorable items
      → (read uuid (write now items store) later ≡ (items, write now items store))
        × ((read_raw later (write now items store).file).created_at
            ≡ (read_raw now store.file).created_at)
  unfolding read write
  read-write now later items store h = (rw (from_dicts-to_dict uuid store.drawn items h), refl)

  -- The file holds the items of the list.
  pub record Shows (s : FileTodoStore T) (m : MemoryTodoStore T) : Type 0 where
    pub meta : TodoData T
    pub at : s.file ≡ stored meta
    pub same : meta.items ≡ some (map to_dict m.items)
    pub fit : All IsStorable m.items
    pub draws : s.drawn ≡ m.drawn

  pub read-Shows :
      (now : T) (s : FileTodoStore T) (m : MemoryTodoStore T)
      → Shows s m
      → read uuid s now ≡ (m.items, s)
  unfolding read
  read-Shows now s m h =
      let back = from_dicts-to_dict uuid s.drawn m.items h.fit in ground (arith, h.at, h.same, back)

  pub write-Shows :
      (now : T) (items : List TodoItem) (s : FileTodoStore T) (m : MemoryTodoStore T)
      → All IsStorable items
      → s.drawn ≡ m.drawn
      → Shows (write now items s) (record m { items = items })
  unfolding write
  write-Shows now items s m f d = record {
    meta = record (read_raw now s.file) { items = some (map to_dict items); updated_at = some now };
    at = refl;
    same = refl;
    fit = f;
    draws = d;
  }

  pub add-Shows :
      (now : T) (content : String) (s : FileTodoStore T) (m : MemoryTodoStore T)
      → Shows s m
      → (uuid m.drawn == "") ≡ false
      → ((File.add_item uuid now content s).0 ≡ (Memory.add_item uuid content m).0)
        × Shows (File.add_item uuid now content s).1 (Memory.add_item uuid content m).1
  unfolding File.add_item Memory.add_item
  add-Shows now content s m h n =
      let item : ℕ → TodoItem =
        λ d. record { id = uuid d; content = content; status = "pending" } in
      let fit = All-append IsStorable m.items (item m.drawn ∷ []) h.fit ((n, pending_valid), tt) in
      let written =
        write-Shows now (m.items ++ item m.drawn ∷ []) (record s { drawn = s.drawn + 1 })
          (record m { drawn = m.drawn + 1 }) fit (ap (λ (d : ℕ). d + 1) h.draws) in
      rw (read-Shows now s m h) (
        ap item h.draws,
        subst
            (λ d.
              Shows (write now (m.items ++ item d ∷ []) (record s { drawn = s.drawn + 1 }))
                (record m { items = m.items ++ item m.drawn ∷ []; drawn = m.drawn + 1 }))
            (sym h.draws) written,
      )

  pub delete-Shows :
      (now : T) (item_id : String) (s : FileTodoStore T) (m : MemoryTodoStore T)
      → Shows s m
      → ((File.delete_item uuid now item_id s).0 ≡ (Memory.delete_item item_id m).0)
        × Shows (File.delete_item uuid now item_id s).1 (Memory.delete_item item_id m).1
  unfolding File.delete_item Memory.delete_item
  delete-Shows now item_id s m h =
      rw (read-Shows now s m h)
        (elim (Bool-cases (nat_beq (length (without item_id m.items)) (length m.items))) [
          | inl t ↦
              let kept = keep-eq_of_length _ m.items ((nat_beq_iff _ _).0 t) in
              rw t (refl, subst (λ l. Shows s (record m { items = l })) (sym kept) h)
          | inr t ↦ rw t (refl, write-Shows now _ s m (All-keep IsStorable _ m.items h.fit) h.draws)
        ])

  pub clear-Shows :
      (now : T) (s : FileTodoStore T) (m : MemoryTodoStore T)
      → Shows s m
      → ((File.clear_completed uuid now s).0 ≡ (Memory.clear_completed m).0)
        × Shows (File.clear_completed uuid now s).1 (Memory.clear_completed m).1
  unfolding File.clear_completed Memory.clear_completed
  clear-Shows now s m h = rw (read-Shows now s m h) (
    refl,
    (elim (Bool-cases (ltb (length (unfinished m.items)) (length m.items))) [
      | inl t ↦ rw t (write-Shows now _ s m (All-keep IsStorable _ m.items h.fit) h.draws)
      | inr t ↦
          let kept = keep-eq_of_length _ m.items (same_length t) in
          rw t (subst (λ l. Shows s (record m { items = l })) (sym kept) h)
    ]),
  )
    where
      same_length :
          ltb (length (unfinished m.items)) (length m.items) ≡ false
          → length (unfinished m.items) ≡ length m.items
      same_length t =
          ground (arith, length-keep-le (λ item. not (item.status == "completed")) m.items)
