-- ===== src/Todo/Executor.antt =====
-- `_todo_executor` of todo.py over the store that it opens by default, `FileTodoStore`.
-- An argument left out is an empty text or list, as in the source. The texts that it returns are the
-- constructors of `Text`. The loop that draws ids takes fuel: `none` means that it ran out.
use serac.Common.{
  ◌∷◌, ◌++◌, ◌+◌, ◌==◌, ◌||◌, ◌&&◌, if◌then◌else◌, [], ℕ, zero, suc, String, Bool, true, false,
  Option, none, some, List, map, Result, ok, err, text_key, contains,
}
use serac.Common.Dict
use serac.Common.Dict.{Dict, or_else}
use serac.Todo.{TodoItem, ValueError, ids, id_map, picked}
use serac.Todo.Memory.{Summary}
use serac.Todo.File
use serac.Todo.File.{FileTodoStore}

pub data Action : Type 0 where
  list add update delete reorder clear set summary : Action
  other : String → Action

-- An entry of `todos`: the keys that it has.
pub record TodoDict : Type 0 where
  pub id : Option String
  pub content : Option String
  pub status : Option String

pub record Arguments : Type 0 where
  pub action : Action
  pub item_id : String
  pub content : String
  pub status : String
  pub item_ids : List String
  pub todos : List TodoDict
  pub merge : Bool

pub data Text (T : Type 0) : Type 0 where
  empty_list content_required item_id_required change_required ids_required todos_required : Text T
  listed : List TodoItem → Text T
  added : TodoItem → Text T
  updated : TodoItem → Text T
  deleted : String → Text T
  reordered : List TodoItem → Text T
  cleared : ℕ → Text T
  summarised : Summary T → Text T
  failed : ValueError → Text T
  unknown_action : String → Text T

abbrev is_empty {ℓ} : {A : Type ℓ} → List A → Bool
is_empty [] = true
is_empty (x ∷ xs) = false

module _ (uuid : ℕ → String) where
  -- while not td.get("id") or td["id"] in all_existing_ids: td["id"] = str(uuid.uuid4())[:8]
  unfoldable pub draw_id : ℕ → List String → String → ℕ → Option (String × ℕ)
  draw_id zero taken id drawn = none
  draw_id (suc fuel) taken id drawn =
      let again = draw_id fuel taken (uuid drawn) (drawn + 1) in
      if id == "" || contains id taken then again else some (id, drawn)

  -- The loop over `todos` that gives each an id.
  unfoldable pub give_ids : ℕ → List String → List TodoDict → ℕ → Option (List TodoDict × ℕ)
  give_ids fuel taken [] drawn = some ([], drawn)
  give_ids fuel taken (td ∷ rest) drawn = elim (draw_id fuel taken (or_else td.id "") drawn) [
    | none ↦ none
    | some (id, drawn') ↦ elim (give_ids fuel (id ∷ taken) rest drawn') [
      | none ↦ none
      | some (more, drawn'') ↦ some (record td { id = some id } ∷ more, drawn'')
    ]
  ]

-- The item of an entry that stands for none.
unfoldable pub new_item : TodoDict → TodoItem
new_item td = record {
  id = or_else td.id "";
  content = or_else td.content "";
  status = or_else td.status "pending";
}

-- The body of the merging loop: `id_map` with the entry put in.
unfoldable pub merge_one : Dict String TodoItem → TodoDict → Dict String TodoItem
unfolding new_item
merge_one d td =
    let tid = or_else td.id "" in
    elim (Dict.get tid d) [
      | none ↦ Dict.put tid (new_item td) d
      | some item ↦
          Dict.put tid
            (if tid == "" then new_item td else record item {
              content = or_else td.content item.content;
              status = or_else td.status item.status;
            })
            d
    ]

unfoldable pub merge_all : Dict String TodoItem → List TodoDict → Dict String TodoItem
unfolding merge_one
merge_all d [] = d
merge_all d (td ∷ rest) = merge_all (merge_one d td) rest

-- The items of the map whose id is not in `seen`.
unfoldable pub unseen : List String → Dict String TodoItem → List TodoItem
unseen seen [] = []
unseen seen ((k, item) ∷ rest) =
    let more = unseen seen rest in if contains item.id seen then more else item ∷ more

-- `ordered`: the old items in their order, then the new ones.
unfoldable pub merged : List TodoItem → List TodoDict → List TodoItem
unfolding merge_all unseen
merged existing todos =
    let d = merge_all (id_map [] existing) todos in
    picked d (ids existing) ++ unseen (ids existing) d

module _ {T : Type 0} (uuid : ℕ → String) (fuel : ℕ) (now : T) where
  unfoldable pub list_text : FileTodoStore T → Text T × FileTodoStore T
  list_text store =
      let (items, store') = File.read uuid store now in
      (if is_empty items then empty_list else listed items, store')

  unfoldable pub item_text : Result ValueError TodoItem × FileTodoStore T → Text T × FileTodoStore T
  item_text (ok item, store) = (updated item, store)
  item_text (err e, store) = (failed e, store)

  unfoldable pub delete_text :
      String → Result ValueError (Unit {0}) × FileTodoStore T → Text T × FileTodoStore T
  delete_text item_id (ok _, store) = (deleted item_id, store)
  delete_text item_id (err e, store) = (failed e, store)

  -- The full replace, once the entries have their ids.
  unfoldable pub write_new :
      FileTodoStore T → Option (List TodoDict × ℕ) → Option (Text T × FileTodoStore T)
  write_new store none = none
  write_new store (some (todos, drawn)) =
      some (list_text (File.write now (map new_item todos) (record store { drawn = drawn })))

  unfoldable pub write_merged :
      List TodoDict → List TodoItem × FileTodoStore T → Option (Text T × FileTodoStore T)
  write_merged todos (existing, store) =
      some (list_text (File.write now (merged existing todos) store))

  -- The merge: the items are read a second time.
  unfoldable pub merge_new :
      FileTodoStore T → Option (List TodoDict × ℕ) → Option (Text T × FileTodoStore T)
  unfolding write_merged
  merge_new store none = none
  merge_new store (some (todos, drawn)) =
      write_merged todos (File.read uuid (record store { drawn = drawn }) now)

  -- action == "set" with `todos`.
  unfoldable pub set_items :
      Bool → List TodoDict → FileTodoStore T → Option (Text T × FileTodoStore T)
  unfolding write_new merge_new
  set_items false todos store = write_new store (give_ids uuid fuel [] todos store.drawn)
  set_items true todos store =
      let (items, store') = File.read uuid store now in
      merge_new store' (give_ids uuid fuel (ids items) todos store'.drawn)

  unfoldable pub todo_action :
      Action → Arguments → FileTodoStore T → Option (Text T × FileTodoStore T)
  unfolding item_text delete_text set_items
  todo_action list args store = some (list_text store)
  todo_action add args store =
      if args.content == ""
      then some (content_required, store)
      else (let (item, store') = File.add_item uuid now args.content store in
          some (added item, store'))
  todo_action update args store =
      if args.item_id == ""
      then some (item_id_required, store)
      else if args.content == "" && args.status == ""
      then some (change_required, store)
      else some (
          item_text
            (File.update_item uuid now args.item_id (some args.content) (some args.status) store))
  todo_action delete args store =
      if args.item_id == ""
      then some (item_id_required, store)
      else some (delete_text args.item_id (File.delete_item uuid now args.item_id store))
  todo_action reorder args store =
      if is_empty args.item_ids
      then some (ids_required, store)
      else (let (items, store') = File.reorder uuid now args.item_ids store in
          some (reordered items, store'))
  todo_action clear args store =
      let (n, store') = File.clear_completed uuid now store in some (cleared n, store')
  todo_action set args store =
      if is_empty args.todos
      then some (todos_required, store)
      else set_items args.merge args.todos store
  todo_action summary args store =
      let (s, store') = File.summary uuid now store in some (summarised s, store')
  todo_action (other name) args store = some (unknown_action name, store)

  unfoldable pub todo_executor : Arguments → FileTodoStore T → Option (Text T × FileTodoStore T)
  unfolding todo_action
  todo_executor args store = todo_action args.action args store
