-- ===== src/Todo/Memory.antt =====
-- `MemoryTodoStore` of todo_backends.py. The list holds the item objects themselves: what a method
-- assigned to an item before it raised stays assigned, and an object that the list holds twice, as it does
-- behind a `reorder` with an id that repeats, changes in both places. Each object is made by `add_item`
-- with a uuid of its own, so that the entries with one id are one object; uuids that are drawn twice are
-- not modelled.
use serac.Common.{
  ◌∷◌, ◌++◌, ◌-◌, ◌+◌, ◌==◌, if◌then◌else◌, [], ℕ, String, Option, none, some, List, length,
  nat_beq, Result, ok, err, text_key, contains,
}
use serac.Common.Dict.{or_else}
use serac.Todo.{
  TodoItem, ValueError, invalid_status, not_found, is_valid_status, ids, id_map, picked, without,
  unfinished, Counts, counts_from, no_counts,
}

pub record MemoryTodoStore (T : Type 0) : Type 0 where
  pub items : List TodoItem
  pub created_at : T
  -- the number of uuids drawn
  pub drawn : ℕ

pub record Summary (T : Type 0) : Type 0 where
  pub total : ℕ
  pub counts : Counts
  pub created_at : Option T
  pub updated_at : Option T

-- The assignments at the item that is found, and how they end.
unfoldable pub assigned :
    Option String → Option String → TodoItem → Result ValueError TodoItem × TodoItem
assigned content none item =
    let item' = record item { content = or_else content item.content } in (ok item', item')
assigned content (some status) item =
    let item' = record item { content = or_else content item.content } in
    if is_valid_status status
    then (ok (record item' { status = status }), record item' { status = status })
    else (err (invalid_status status), item')

-- The list with the object `changed` in each place where it stands.
abbrev pub shared : TodoItem → List TodoItem → List TodoItem
shared changed [] = []
shared changed (item ∷ rest) =
    (if item.id == changed.id then changed else item) ∷ shared changed rest

unfoldable pub update_items :
    String
    → Option String
    → Option String
    → List TodoItem
    → Result ValueError TodoItem × List TodoItem
unfolding assigned is_valid_status
update_items item_id content status [] = (err (not_found item_id), [])
update_items item_id content status (item ∷ rest) =
    let here = assigned content status item in
    let later = update_items item_id content status rest in
    if item.id == item_id then (here.0, here.1 ∷ shared here.1 rest) else (later.0, item ∷ later.1)

-- The second loop of `reorder`.
unfoldable pub append_unlisted : List TodoItem → List TodoItem → List TodoItem
append_unlisted reordered [] = reordered
append_unlisted reordered (item ∷ rest) =
    append_unlisted (if contains item.id (ids reordered) then reordered else reordered ++ item ∷ [])
      rest

unfoldable pub reordered : List String → List TodoItem → List TodoItem
unfolding append_unlisted id_map picked
reordered item_ids items = append_unlisted (picked (id_map [] items) item_ids) items

module _ {T : Type 0} where
  unfoldable pub init : T → MemoryTodoStore T
  init now = record { items = []; created_at = now; drawn = 0 }

  unfoldable pub list_items : MemoryTodoStore T → List TodoItem
  list_items store = store.items

  unfoldable pub add_item : (ℕ → String) → String → MemoryTodoStore T → TodoItem × MemoryTodoStore T
  add_item uuid content store =
      let item : TodoItem = record {
        id = uuid store.drawn;
        content = content;
        status = "pending";
      } in
      (item, record store { items = store.items ++ item ∷ []; drawn = store.drawn + 1 })

  unfoldable pub update_item :
      String
      → Option String
      → Option String
      → MemoryTodoStore T
      → Result ValueError TodoItem × MemoryTodoStore T
  update_item item_id content status store =
      let (result, items) = update_items item_id content status store.items in
      (result, record store { items = items })

  -- The list is replaced before the test.
  unfoldable pub delete_item :
      String → MemoryTodoStore T → Result ValueError (Unit {0}) × MemoryTodoStore T
  delete_item item_id store =
      let items = without item_id store.items in
      (
        (if nat_beq (length items) (length store.items) then err (not_found item_id) else ok tt),
        record store { items = items },
      )

  unfoldable pub reorder : List String → MemoryTodoStore T → List TodoItem × MemoryTodoStore T
  reorder item_ids store =
      let items = reordered item_ids store.items in (items, record store { items = items })

  unfoldable pub clear_completed : MemoryTodoStore T → ℕ × MemoryTodoStore T
  clear_completed store =
      let items = unfinished store.items in
      (length store.items - length items, record store { items = items })

  unfoldable pub summary : T → MemoryTodoStore T → Summary T
  unfolding counts_from
  summary now store = record {
    total = length store.items;
    counts = counts_from no_counts store.items;
    created_at = some store.created_at;
    updated_at = some now;
  }
