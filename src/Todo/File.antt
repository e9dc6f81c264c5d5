-- ===== src/Todo/File.antt =====
-- `FileTodoStore` of todo_backends.py over the one JSON file that it reads and replaces. A read that
-- generates an id for an item without one does not write it back. `os.replace` is atomic, so a
-- method is one step; the time that it reads is its argument `now`.
use serac.Common.{
  ◌∷◌, ◌++◌, ◌-◌, ◌+◌, ◌==◌, if◌then◌else◌, [], ℕ, String, Bool, not, Option, none, some, List, map,
  keep, length, ltb, nat_beq, Result, ok, err, ◌>>=◌, text_key, contains,
}
use serac.Common.Dict.{or_else}
use serac.Todo.{
  TodoItem, ValueError, invalid_status, not_found, is_valid_status, id_map, picked, without,
  unfinished, counts_from, no_counts, RawItem, to_dict, from_dicts,
}
use serac.Todo.Memory.{Summary}
use serac.Common.Dict
use serac.Common.Dict.{Dict}

-- The keys of the JSON object that the store uses.
pub record TodoData (T : Type 0) : Type 0 where
  pub items : Option (List RawItem)
  pub created_at : Option T
  pub updated_at : Option T

pub data TodoFile (T : Type 0) : Type 0 where
  missing : TodoFile T
  corrupted : TodoFile T
  stored : TodoData T → TodoFile T

pub record FileTodoStore (T : Type 0) : Type 0 where
  pub file : TodoFile T
  -- the number of uuids drawn
  pub drawn : ℕ

-- The assignments of `update_item` at the item that is found.
unfoldable pub edited : Option String → Option String → TodoItem → Result ValueError TodoItem
edited content none item = ok (record item { content = or_else content item.content })
edited content (some status) item =
    if is_valid_status status
    then ok (record item { content = or_else content item.content; status = status })
    else err (invalid_status status)

-- The loop of `update_item`: the item and the list that is written.
unfoldable pub edit_items :
    String
    → Option String
    → Option String
    → List TodoItem
    → Result ValueError (TodoItem × List TodoItem)
unfolding edited is_valid_status
edit_items item_id content status [] = err (not_found item_id)
edit_items item_id content status (item ∷ rest) =
    let here = (do item' ← edited content status item; ok (item', item' ∷ rest)) in
    let later = (do
      (item', rest') ← edit_items item_id content status rest
      ok (item', item ∷ rest')) in
    if item.id == item_id then here else later

-- The ids of `item_ids` that the first loop of `reorder` adds to `seen_ids`.
unfoldable pub seen_ids : Dict String TodoItem → List String → List String
seen_ids d item_ids =
    keep (λ rid. elim (Dict.get rid d) [ none ↦ Bool.false | some _ ↦ Bool.true ]) item_ids

unfoldable pub arranged : List String → List TodoItem → List TodoItem
unfolding seen_ids id_map picked
arranged item_ids items =
    let d = id_map [] items in
    let seen = seen_ids d item_ids in
    picked d item_ids ++ keep (λ item. not (contains item.id seen)) items

module _ {T : Type 0} where
  unfoldable pub read_raw : T → TodoFile T → TodoData T
  read_raw now missing = record { items = some []; created_at = some now; updated_at = none }
  read_raw now corrupted = record { items = some []; created_at = some now; updated_at = none }
  read_raw now (stored d) = d

  -- `_ensure_file`, at the construction of a store.
  unfoldable pub ensure_file : T → TodoFile T → TodoFile T
  ensure_file now missing =
      stored (record { items = some []; created_at = some now; updated_at = none })
  ensure_file now corrupted = corrupted
  ensure_file now (stored d) = stored d

  unfoldable pub open_store : T → FileTodoStore T → FileTodoStore T
  unfolding ensure_file
  open_store now store = record store { file = ensure_file now store.file }

  unfoldable pub write : T → List TodoItem → FileTodoStore T → FileTodoStore T
  unfolding read_raw to_dict
  write now items store = record store {
    file = stored (record (read_raw now store.file) {
      items = some (map to_dict items);
      updated_at = some now;
    });
  }

  module _ (uuid : ℕ → String) where
    unfoldable pub read : FileTodoStore T → T → List TodoItem × FileTodoStore T
    unfolding read_raw from_dicts
    read store now =
        let (items, drawn) =
          from_dicts uuid store.drawn (or_else (read_raw now store.file).items []) in
        (items, record store { drawn = drawn })

    unfoldable pub add_item : T → String → FileTodoStore T → TodoItem × FileTodoStore T
    add_item now content store =
        let (items, store') = read store now in
        let item : TodoItem = record {
          id = uuid store'.drawn;
          content = content;
          status = "pending";
        } in
        (item, write now (items ++ item ∷ []) (record store' { drawn = store'.drawn + 1 }))

    -- A raise leaves the file as it is.
    unfoldable pub saved :
        T
        → Result ValueError (TodoItem × List TodoItem)
        → FileTodoStore T
        → Result ValueError TodoItem × FileTodoStore T
    saved now (err e) store = (err e, store)
    saved now (ok (item, items)) store = (ok item, write now items store)

    unfoldable pub update_item :
        T
        → String
        → Option String
        → Option String
        → FileTodoStore T
        → Result ValueError TodoItem × FileTodoStore T
    unfolding saved
    update_item now item_id content status store =
        let (items, store') = read store now in
        saved now (edit_items item_id content status items) store'

    unfoldable pub delete_item :
        T → String → FileTodoStore T → Result ValueError (Unit {0}) × FileTodoStore T
    delete_item now item_id store =
        let (items, store') = read store now in
        let items' = without item_id items in
        if nat_beq (length items') (length items)
        then (err (not_found item_id), store')
        else (ok tt, write now items' store')

    unfoldable pub reorder : T → List String → FileTodoStore T → List TodoItem × FileTodoStore T
    reorder now item_ids store =
        let (items, store') = read store now in
        let items' = arranged item_ids items in (items', write now items' store')

    unfoldable pub clear_completed : T → FileTodoStore T → ℕ × FileTodoStore T
    clear_completed now store =
        let (items, store') = read store now in
        let items' = unfinished items in
        (
          length items - length items',
          if ltb (length items') (length items) then write now items' store' else store',
        )

    unfoldable pub summary : T → FileTodoStore T → Summary T × FileTodoStore T
    unfolding counts_from
    summary now store =
        let (items, store') = read store now in
        let raw = read_raw now store.file in
        (
          record {
            total = length items;
            counts = counts_from no_counts items;
            created_at = raw.created_at;
            updated_at = raw.updated_at;
          },
          store',
        )
