-- ===== src/Queue.antt =====
-- agent_framework/sandbox/task_queue.py: ideas in a markdown table, with a journal in JSON lines. The
-- table is a text, character by character; a line of the journal is the entry that json.loads gives, or
-- garbled. The lock makes each method one step, and both files exist once the queue is made. Parameters
-- are Python's int() of a text, the format 03d and the date.
pub mod Table
pub mod Cells
pub mod RoundTrip
pub mod Board
pub mod Refine
pub mod Fresh
pub mod Steps
pub mod Lives
pub mod Decimal
pub mod Tests
use serac.Common.{
  ℕ, ◌+◌, max, Bool, true, false, Option, none, some, List, [], ◌∷◌, ◌++◌, ◌&&◌, not, if◌then◌else◌,
  map, drop, keep, ◌==◌,
}
use serac.Common.Dict
use serac.Common.Dict.{Dict, or_else}
use serac.Common.Chars.{Text, codes, codes_key, is_empty}
use serac.Queue.Table.{Row, read_rows, write_rows}

pub record Task : Type 0 where
  pub row : Row
  pub asset : Text

-- A line of the JSONL sidecar: a task and what was done to it.
pub data JournalLine : Type 0 where
  entry : Task → Text → JournalLine
  garbled : JournalLine

pub record TaskQueue : Type 0 where
  pub table : Text
  pub journal : Option (List JournalLine)

pub record Formats : Type 0 where
  -- int(s), none where it raises or is negative
  pub int_of : Text → Option ℕ
  -- f"{n:03d}"
  pub padded : ℕ → Text

-- _hydrate_assets: the last entry of an id that has an asset
unfoldable pub assets_from : List JournalLine → Dict Text Text → Dict Text Text
assets_from [] assets = assets
assets_from (garbled ∷ lines) assets = assets_from lines assets
assets_from (entry t action ∷ lines) assets = assets_from lines (
    if is_empty t.row.id
    then assets
    else (if is_empty t.asset then assets else Dict.put t.row.id t.asset assets))

unfoldable pub hydrate : Option (List JournalLine) → Row → Task
hydrate none r = record { row = r; asset = [] }
hydrate (some lines) r = record {
  row = r;
  asset = or_else (Dict.get r.id (assets_from lines [])) (codes "stocks");
}

-- _read_queue
unfoldable pub read_queue : TaskQueue → List Task
read_queue q = map (hydrate q.journal) (read_rows q.table)

abbrev pub rows : List Task → List Row
rows tasks = map (λ t. t.row) tasks

-- _write_queue and _write_jsonl
unfoldable pub write_queue : List Task → Task → Text → TaskQueue → TaskQueue
write_queue tasks t action q = record {
  table = write_rows (rows tasks);
  journal = some (or_else q.journal [] ++ entry t action ∷ []);
}

-- __init__, where neither file exists
unfoldable pub init : TaskQueue
init = record { table = write_rows []; journal = none }

module _ (formats : Formats) where
  unfoldable pub max_number : List Row → ℕ
  max_number [] = 0
  max_number (r ∷ rest) = max (or_else (formats.int_of (drop 1 r.id)) 0) (max_number rest)

  unfoldable pub next_id : List Row → Text
  next_id [] = codes "S001"
  next_id (r ∷ rest) = codes "S" ++ formats.padded (max_number (r ∷ rest) + 1)

  unfoldable pub add : Text → Text → Text → TaskQueue → Text × TaskQueue
  add today idea asset q =
      let tasks = read_queue q in
      let task_id = next_id (rows tasks) in
      let new_task : Task = record {
        row = record {
          id = task_id;
          status = codes "pending";
          idea = idea;
          date = today;
          agent = [];
          result = [];
        };
        asset = asset;
      } in
      (task_id, write_queue (tasks ++ new_task ∷ []) new_task (codes "add") q)

abbrev pub behind : Task → Option (Task × List Task) → Option (Task × List Task)
behind t none = none
behind t (some (found, rest)) = some (found, t ∷ rest)

-- The first task with the id and in the status, changed in its place.
unfoldable pub advance : Text → Text → (Row → Row) → List Task → Option (Task × List Task)
advance task_id status change [] = none
advance task_id status change (t ∷ rest) =
    let found : Task = record t { row = change t.row } in
    let later = advance task_id status change rest in
    if t.row.id == task_id && t.row.status == status
    then some (found, found ∷ rest)
    else behind t later

unfoldable pub saved : Text → Option (Task × List Task) → TaskQueue → Option Task × TaskQueue
saved action none q = (none, q)
saved action (some (t, tasks)) q = (some t, write_queue tasks t action q)

unfoldable pub claimed : Text → Row → Row
claimed agent_id r = record r { status = codes "testing"; agent = agent_id }

unfoldable pub claim : Text → Text → TaskQueue → Option Task × TaskQueue
claim task_id agent_id q =
    saved (codes "claim") (advance task_id (codes "pending") (claimed agent_id) (read_queue q)) q

unfoldable pub finished : Text → Text → Row → Row
finished status result_path r = record r { status = status; result = result_path }

unfoldable pub complete : Text → Text → TaskQueue → Option Task × TaskQueue
complete task_id result_path q =
    saved (codes "complete")
      (advance task_id (codes "testing") (finished (codes "validated") result_path) (read_queue q))
      q

unfoldable pub reject : Text → Text → TaskQueue → Option Task × TaskQueue
reject task_id reason_path q =
    saved (codes "reject")
      (advance task_id (codes "testing") (finished (codes "rejected") reason_path) (read_queue q)) q

unfoldable pub list_tasks : Option Text → TaskQueue → List Task
list_tasks none q = read_queue q
list_tasks (some status) q =
    if is_empty status then read_queue q else keep (λ t. t.row.status == status) (read_queue q)
