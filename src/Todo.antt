-- ===== src/Todo.antt =====
-- agent_framework/todo_backends.py and todo.py: the shared task list.
-- `TodoItem`, the parts that the two stores share, and what JSON leaves of an item. The stores are in
-- Todo/Memory and Todo/File, the tool in Todo/Executor. `str(uuid.uuid4())[:8]` is the parameter
-- `uuid`: its n-th draw, where a state counts the draws made. A status is a text, as in the source.
pub mod Memory
pub mod File
pub mod Order
pub mod Perm
pub mod Refine
pub mod Agree
pub mod Steps
pub mod Executor
pub mod Edits
pub mod Merge
mod Tests
use serac.Common.{
  ◌||◌, ◌&&◌, ◌∷◌, ◌==◌, if◌then◌else◌, [], ℕ, zero, suc, ◌+◌, String, Bool, true, false, not,
  Option, none, some, List, map, keep, Result, ok, err, nat_key, text_key,
}
use serac.Common.Dict
use serac.Common.Dict.{Dict, or_else}

pub record TodoItem : Type 0 where
  pub id : String
  pub content : String
  pub status : String

-- ValueError with its message.
pub data ValueError : Type 0 where
  invalid_status : String → ValueError
  not_found : String → ValueError

-- status in VALID_STATUSES
unfoldable pub is_valid_status : String → Bool
is_valid_status s = s == "pending" || s == "in_progress" || s == "completed" || s == "cancelled"

abbrev pub ids : List TodoItem → List String
ids items = map (λ item. item.id) items

-- {item.id: item for item in items}, added to `d`
unfoldable pub id_map : Dict String TodoItem → List TodoItem → Dict String TodoItem
id_map d [] = d
id_map d (item ∷ rest) = id_map (Dict.put item.id item d) rest

-- [id_map[rid] for rid in item_ids if rid in id_map]
unfoldable pub picked : Dict String TodoItem → List String → List TodoItem
picked d [] = []
picked d (rid ∷ rest) =
    let more = picked d rest in elim (Dict.get rid d) [ none ↦ more | some item ↦ item ∷ more ]

-- [item for item in items if item.id != item_id]
abbrev pub without : String → List TodoItem → List TodoItem
without item_id items = keep (λ item. not (item.id == item_id)) items

-- [item for item in items if item.status != "completed"]
abbrev pub unfinished : List TodoItem → List TodoItem
unfinished items = keep (λ item. not (item.status == "completed")) items

-- The counts of `summary`.
pub record Counts : Type 0 where
  pub pending : ℕ
  pub in_progress : ℕ
  pub completed : ℕ
  pub cancelled : ℕ

unfoldable pub count_one : String → Counts → Counts
count_one s c =
    if s == "pending"
    then record c { pending = c.pending + 1 }
    else if s == "in_progress"
    then record c { in_progress = c.in_progress + 1 }
    else if s == "completed"
    then record c { completed = c.completed + 1 }
    else if s == "cancelled"
    then record c { cancelled = c.cancelled + 1 }
    else c

unfoldable pub counts_from : Counts → List TodoItem → Counts
unfolding count_one
counts_from c [] = c
counts_from c (item ∷ rest) = counts_from (count_one item.status c) rest

abbrev pub no_counts : Counts
no_counts = record { pending = 0; in_progress = 0; completed = 0; cancelled = 0 }

-- An item as the JSON file has it: a key that is absent, or null, is `none`.
pub record RawItem : Type 0 where
  pub id : Option String
  pub content : Option String
  pub status : Option String

unfoldable pub to_dict : TodoItem → RawItem
to_dict item = record { id = some item.id; content = some item.content; status = some item.status }

module _ (uuid : ℕ → String) where
  -- The item, and the number of draws made by then.
  unfoldable pub from_dict : ℕ → RawItem → TodoItem × ℕ
  from_dict drawn raw =
      let item_id = or_else raw.id "" in
      let status = or_else raw.status "pending" in
      (
        record {
          id = if item_id == "" then uuid drawn else item_id;
          content = or_else raw.content "";
          status = if is_valid_status status then status else "pending";
        },
        if item_id == "" then drawn + 1 else drawn,
      )

  unfoldable pub from_dicts : ℕ → List RawItem → List TodoItem × ℕ
  unfolding from_dict
  from_dicts drawn [] = ([], drawn)
  from_dicts drawn (raw ∷ rest) =
      let (item, drawn') = from_dict drawn raw in
      let more = from_dicts drawn' rest in (item ∷ more.0, more.1)
