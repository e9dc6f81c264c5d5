-- ===== src/Todo/Steps.antt =====
-- The file store of todo_backends.py refines the one in memory, call by call.
use serac.Common.{
  ◌≡◌, ◌==◌, ℕ, String, false, Option, List, refl, ap, Distinct, Result, ok, err, text_key,
}
use serac.Todo.{TodoItem, ValueError, ids}
use serac.Todo.File
use serac.Todo.File.{FileTodoStore, edit_items, edited, arranged, seen_ids, read, write}
use serac.Todo.Memory
use serac.Todo.Memory.{MemoryTodoStore, update_items, append_unlisted, reordered}
use serac.Todo.Refine.{Shows, read-Shows, write-Shows, add-Shows, delete-Shows, clear-Shows}
use serac.Todo.Agree.{
  Accepts, Fit, joined, update-joined, edit_items-Fit, reordered-arranged, arranged-fit,
}

-- The calls that change a store.
pub data TodoCall : Type 0 where
  adds : String → TodoCall
  updates : String → Option String → Option String → TodoCall
  deletes : String → TodoCall
  reorders : List String → TodoCall
  clears : TodoCall

pub data Reply : Type 0 where
  item : TodoItem → Reply
  items : List TodoItem → Reply
  removed : ℕ → Reply
  done : Reply
  raised : ValueError → Reply

abbrev reply_item : Result ValueError TodoItem → Reply
reply_item (ok i) = item i
reply_item (err e) = raised e

abbrev reply_done : Result ValueError (Unit {0}) → Reply
reply_done (ok _) = done
reply_done (err e) = raised e

module _ {T : Type 0} (uuid : ℕ → String) where
  unfoldable pub file_step : T → TodoCall → FileTodoStore T → Reply × FileTodoStore T
  file_step now (adds content) s = let (r, s') = File.add_item uuid now content s in (item r, s')
  file_step now (updates i c t) s =
      let (r, s') = File.update_item uuid now i c t s in (reply_item r, s')
  file_step now (deletes i) s = let (r, s') = File.delete_item uuid now i s in (reply_done r, s')
  file_step now (reorders is) s = let (r, s') = File.reorder uuid now is s in (items r, s')
  file_step now clears s = let (r, s') = File.clear_completed uuid now s in (removed r, s')

  unfoldable pub memory_step : TodoCall → MemoryTodoStore T → Reply × MemoryTodoStore T
  memory_step (adds content) m = let (r, m') = Memory.add_item uuid content m in (item r, m')
  memory_step (updates i c t) m = let (r, m') = Memory.update_item i c t m in (reply_item r, m')
  memory_step (deletes i) m = let (r, m') = Memory.delete_item i m in (reply_done r, m')
  memory_step (reorders is) m = let (r, m') = Memory.reorder is m in (items r, m')
  memory_step clears m = let (r, m') = Memory.clear_completed m in (removed r, m')

  -- The uuid drawn next is no empty text, the status is a valid one, and no id repeats at an update or a reorder.
  abbrev pub Allowed : TodoCall → MemoryTodoStore T → Type 0
  Allowed (adds content) m = (uuid m.drawn == "") ≡ false
  Allowed (updates i c t) m = Accepts t × Distinct (ids m.items)
  Allowed (reorders is) m = Distinct (ids m.items)
  Allowed (deletes i) m = Unit
  Allowed clears m = Unit

  saved-Shows :
      (now : T) (s : FileTodoStore T) (m : MemoryTodoStore T)
      (r : Result ValueError (TodoItem × List TodoItem))
      → Shows uuid s m
      → Fit r
      → ((File.saved uuid now r s).0 ≡ (joined r m.items).0)
        × Shows uuid (File.saved uuid now r s).1 (record m { items = (joined r m.items).1 })
  unfolding File.saved joined
  saved-Shows now s m (err e) h f = (refl, h)
  saved-Shows now s m (ok (i, is)) h f = (refl, write-Shows uuid now is s m f h.draws)

  update-Shows :
      (now : T) (i : String) (c t : Option String) (s : FileTodoStore T) (m : MemoryTodoStore T)
      → Shows uuid s m
      → Accepts t
      → Distinct (ids m.items)
      → ((File.update_item uuid now i c t s).0 ≡ (Memory.update_item i c t m).0)
        × Shows uuid (File.update_item uuid now i c t s).1 (Memory.update_item i c t m).1
  unfolding File.update_item Memory.update_item
  update-Shows now i c t s m h a d = rw (read-Shows uuid now s m h) (
      rw (update-joined i c t m.items a d)
        (saved-Shows now s m (edit_items i c t m.items) h (edit_items-Fit i c t m.items a h.fit)))

  reorder-Shows :
      (now : T) (is : List String) (s : FileTodoStore T) (m : MemoryTodoStore T)
      → Shows uuid s m
      → Distinct (ids m.items)
      → ((File.reorder uuid now is s).0 ≡ (Memory.reorder is m).0)
        × Shows uuid (File.reorder uuid now is s).1 (Memory.reorder is m).1
  unfolding File.reorder Memory.reorder
  reorder-Shows now is s m h d = rw (read-Shows uuid now s m h) (
      rw (reordered-arranged is m.items d)
        (refl, write-Shows uuid now _ s m (arranged-fit is m.items h.fit) h.draws))

  -- From stores that hold the same items, a call gets the same reply of both and leaves stores that hold
  -- the same items; where an update gives no invalid status, no id repeats in the list at an update or a
  -- reorder, and the uuid that an `add_item` draws is not empty.
  pub file_step-refines :
      (now : T) (call : TodoCall) (s : FileTodoStore T) (m : MemoryTodoStore T)
      → Shows uuid s m
      → Allowed call m
      → ((file_step now call s).0 ≡ (memory_step call m).0)
        × Shows uuid (file_step now call s).1 (memory_step call m).1
  unfolding file_step memory_step
  file_step-refines now (adds content) s m h a =
      let (r, k) = add-Shows uuid now content s m h a in (ap item r, k)
  file_step-refines now (updates i c t) s m h a =
      let (r, k) = update-Shows now i c t s m h a.0 a.1 in (ap reply_item r, k)
  file_step-refines now (deletes i) s m h a =
      let (r, k) = delete-Shows uuid now i s m h in (ap reply_done r, k)
  file_step-refines now (reorders is) s m h a =
      let (r, k) = reorder-Shows now is s m h a in (ap items r, k)
  file_step-refines now clears s m h a =
      let (r, k) = clear-Shows uuid now s m h in (ap removed r, k)
