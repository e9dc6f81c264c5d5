-- ===== src/Queue/Table.antt =====
-- The markdown table of agent_framework/sandbox/task_queue.py: its rows written and read.
use serac.Common.{
  false, Option, none, some, List, [], ◌∷◌, ◌++◌, ◌||◌, not, if◌then◌else◌, map, ◌==◌,
}
use serac.Common.Chars.{
  Text, codes, codes_key, strip, split, starts_with, replace, newlines_from, is_empty,
}

-- The columns.
pub record Row : Type 0 where
  pub id : Text
  pub status : Text
  pub idea : Text
  pub date : Text
  pub agent : Text
  pub result : Text

unfoldable pub escape_cell : Text → Text
escape_cell s = replace (codes "|") (codes "&#124;") s

unfoldable pub unescape_cell : Text → Text
unescape_cell s = replace (codes "&#124;") (codes "|") s

-- The row of the cells behind the first "|".
unfoldable pub row_of : List Text → Option Row
row_of (before ∷ id ∷ status ∷ idea ∷ date ∷ agent ∷ result ∷ more) =
    if id == codes "ID"
      || is_empty id
      || starts_with (codes "-") id
      || not (starts_with (codes "S") id)
    then none
    else some (record {
      id = id;
      status = status;
      idea = unescape_cell idea;
      date = date;
      agent = agent;
      result = unescape_cell result;
    })
row_of _ = none

unfoldable pub read_line : Text → Option Row
read_line line = if starts_with (codes "|") line then row_of (map strip (split 124 line)) else none

abbrev pub with_row : Option Row → List Row → List Row
with_row none rows = rows
with_row (some r) rows = r ∷ rows

unfoldable pub read_lines : List Text → List Row
read_lines [] = []
read_lines (line ∷ rest) = with_row (read_line line) (read_lines rest)

-- _read_queue, before the assets are filled in
unfoldable pub read_rows : Text → List Row
read_rows content = read_lines (split 10 (newlines_from false content))

-- " {cell} |"
abbrev pub cell : Text → Text → Text
cell c rest = 32 ∷ ((c ++ 32 ∷ []) ++ 124 ∷ rest)

unfoldable pub row_line : Row → Text
row_line r =
    124
    ∷ cell r.id (
        cell r.status
          (cell (escape_cell r.idea) (cell r.date (cell r.agent (cell (escape_cell r.result) [])))))

unfoldable pub row_lines : List Row → Text
row_lines [] = []
row_lines (r ∷ rest) = row_line r ++ 10 ∷ row_lines rest

-- _write_queue
unfoldable pub write_rows : List Row → Text
write_rows rows =
    codes "# Research Queue\n"
    ++ codes "\n| ID | Status | Idea | Date | Agent | Result |\n"
    ++ codes "|----|--------|------|------|-------|--------|\n"
    ++ row_lines rows
