-- ===== src/Queue/Board.antt =====
-- What the queue of agent_framework/sandbox/task_queue.py promises: a board of rows, on which a task is
-- moved by its id; and the operations on the files as steps.
use serac.Common.{
  ℕ, ◌≡◌, ◌&&◌, List, [], ◌∷◌, ◌++◌, if◌then◌else◌, ◌==◌, All, Bool, true, false, some, leb,
}
use serac.Common.Chars.{Text, codes, codes_key, Without, has_part}
use serac.Queue.Table.{Row}
use serac.Queue.RoundTrip.{IsLine}
use serac.Queue.{Formats, TaskQueue, next_id, add, claim, complete, reject, claimed, finished}

pub data Op : Type 0 where
  -- the date, the idea and the asset
  adds : Text → Text → Text → Op
  claims completes rejects : Text → Text → Op

-- Every row with the id and in the status is changed.
abbrev pub moved : Text → Text → (Row → Row) → List Row → List Row
moved id status change [] = []
moved id status change (r ∷ rest) =
    (if r.id == id && r.status == status then change r else r) ∷ moved id status change rest

module _ (formats : Formats) where
  abbrev pub new_row : Text → Text → List Row → Row
  new_row today idea rows = record {
    id = next_id formats rows;
    status = codes "pending";
    idea = idea;
    date = today;
    agent = [];
    result = [];
  }

  abbrev pub on_board : List Row → Op → List Row
  on_board rows (adds today idea asset) = rows ++ new_row today idea rows ∷ []
  on_board rows (claims id agent) = moved id (codes "pending") (claimed agent) rows
  on_board rows (completes id path) =
      moved id (codes "testing") (finished (codes "validated") path) rows
  on_board rows (rejects id path) =
      moved id (codes "testing") (finished (codes "rejected") path) rows

  abbrev pub on_files : TaskQueue → Op → TaskQueue
  on_files q (adds today idea asset) = (add formats today idea asset q).1
  on_files q (claims id agent) = (claim id agent q).1
  on_files q (completes id path) = (complete id path q).1
  on_files q (rejects id path) = (reject id path q).1

  abbrev pub board_after : List Row → List Op → List Row
  board_after rows [] = rows
  board_after rows (op ∷ ops) = board_after (on_board rows op) ops

  abbrev pub files_after : TaskQueue → List Op → TaskQueue
  files_after q [] = q
  files_after q (op ∷ ops) = files_after (on_files q op) ops

-- Texts that the table keeps: on one line, without spaces at the ends, and without a bar in a column
-- that is not escaped, or the escape itself in one that is.
abbrev pub Plain : Text → Type 0
Plain s = IsLine s × Without 124 s

abbrev pub Escapable : Text → Type 0
Escapable s = IsLine s × (has_part (codes "&#124;") s ≡ false)

abbrev pub Allowed : Op → Type 0
Allowed (adds today idea asset) = Plain today × Escapable idea
Allowed (claims id agent) = Plain agent
Allowed (completes id path) = Escapable path
Allowed (rejects id path) = Escapable path

abbrev pub is_digit : ℕ → Bool
is_digit c = leb 48 c && leb c 57

-- What is documented of int() and of the format 03d.
pub record Numbers (formats : Formats) : Type 0 where
  pub reads_back : (n : ℕ) → formats.int_of (formats.padded n) ≡ some n
  pub digits : (n : ℕ) → All (λ c. is_digit c ≡ true) (formats.padded n)
  pub one : formats.padded 1 ≡ codes "001"
