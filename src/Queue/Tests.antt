-- ===== src/Queue/Tests.antt =====
-- Runs of task_queue.py on a concrete queue with decimal numbers.
use serac.Common.{◌≡◌, ◌∷◌, ◌++◌, [], some, none, refl, All, All-append, List, inl}
use serac.Common.Dict
use serac.Common.Chars.{
  codes, codes_key, Text, starts_with, strip, rstrip, lstrip, split, split_first, has_part, replace,
  replace_from, newlines_from,
}
use serac.Queue.{
  TaskQueue, init, rows, read_queue, add, claim, complete, list_tasks, next_id, hydrate,
  assets_from, write_queue, max_number, advance, saved, claimed, finished, reject,
}
use serac.Queue.Table.{
  Row, escape_cell, unescape_cell, row_of, read_line, read_lines, read_rows, row_line, row_lines,
  write_rows,
}
use serac.Queue.Board.{Op, adds, claims, completes, rejects, board_after, files_after, Allowed}
use serac.Queue.RoundTrip.{read_rows-write_rows}
use serac.Queue.Lives.{files_refine, files-Lives, files-ended, Has, Lives}
use serac.Queue.Decimal.{decimal, decimal-Numbers, printed, three_digits, read_from, number_of}

abbrev today : Text
today = codes "2026-01-05"

abbrev idea : Text
idea = codes "gold | oil spread"

abbrev started : TaskQueue
started = (add decimal today idea (codes "metals") init).1

abbrev testing : TaskQueue
testing = (claim (codes "S001") (codes "agent-1") started).1

abbrev tested : TaskQueue
tested = (complete (codes "S001") (codes "reports/1.md") testing).1

program : Unit {0}
unfolding lstrip rstrip strip split_first split starts_with has_part replace_from replace
    newlines_from escape_cell unescape_cell row_of read_line read_lines read_rows row_line row_lines
    write_rows assets_from hydrate read_queue write_queue init max_number next_id add advance saved
    claimed claim finished complete reject list_tasks Dict.get Dict.put printed three_digits
    read_from number_of
program = tt

first_id : (add decimal today idea (codes "metals") init).0 ≡ codes "S001"
unfolding program
first_id = refl

second_id : (add decimal today idea [] started).0 ≡ codes "S002"
unfolding program
second_id = refl

the_task :
    read_queue tested
    ≡ record {
      row = record {
        id = codes "S001";
        status = codes "validated";
        idea = idea;
        date = today;
        agent = codes "agent-1";
        result = codes "reports/1.md";
      };
      asset = codes "metals";
    }
      ∷ []
unfolding program
the_task = refl

no_second_claim : (claim (codes "S001") (codes "agent-2") testing).0 ≡ none
unfolding program
no_second_claim = refl

no_early_end : (complete (codes "S001") (codes "x") started).0 ≡ none
unfolding program
no_early_end = refl

-- A task whose idea has a line break is lost.
loses_line_break : read_queue (add decimal today (codes "one\ntwo") [] init).1 ≡ []
unfolding program
loses_line_break = refl

-- The name of an agent with a bar goes over into the next column.
shifts_columns :
    rows (read_queue (claim (codes "S001") (codes "a|b") started).1)
    ≡ record {
      id = codes "S001";
      status = codes "testing";
      idea = idea;
      date = today;
      agent = codes "a";
      result = codes "b";
    }
      ∷ []
unfolding program
shifts_columns = refl

-- A text that holds the escape comes back as a bar.
not_lossless : unescape_cell (escape_cell (codes "a &#124; b")) ≡ codes "a | b"
unfolding program
not_lossless = refl

not_lost : list_tasks (some (codes "testing")) testing ≡ read_queue testing
unfolding program
not_lost = refl

abbrev first_row : Row
first_row = record {
  id = codes "S001";
  status = codes "pending";
  idea = idea;
  date = today;
  agent = [];
  result = [];
}

abbrev until_test : List Op
until_test = adds today idea (codes "metals") ∷ claims (codes "S001") (codes "agent-1") ∷ []

abbrev until_end : List Op
until_end =
    completes (codes "S001") (codes "reports/1.md")
    ∷ rejects (codes "S001") (codes "reports/2.md")
    ∷ []

until_test-Allowed : All Allowed until_test
unfolding program
until_test-Allowed = (
  (
    (record { stripped = refl; no_newline = refl; no_return = refl }, refl),
    (record { stripped = refl; no_newline = refl; no_return = refl }, refl),
  ),
  ((record { stripped = refl; no_newline = refl; no_return = refl }, refl), tt),
)

until_end-Allowed : All Allowed until_end
unfolding program
until_end-Allowed = (
  (record { stripped = refl; no_newline = refl; no_return = refl }, refl),
  ((record { stripped = refl; no_newline = refl; no_return = refl }, refl), tt),
)

read_rows-write_rows_example : read_rows (write_rows (first_row ∷ [])) ≡ first_row ∷ []
unfolding program
read_rows-write_rows_example = read_rows-write_rows (first_row ∷ []) (
  record {
    starts_s = refl;
    id_line = record { stripped = refl; no_newline = refl; no_return = refl };
    id_bar = refl;
    status_line = record { stripped = refl; no_newline = refl; no_return = refl };
    status_bar = refl;
    idea_line = record { stripped = refl; no_newline = refl; no_return = refl };
    idea_mark = refl;
    date_line = record { stripped = refl; no_newline = refl; no_return = refl };
    date_bar = refl;
    agent_line = record { stripped = refl; no_newline = refl; no_return = refl };
    agent_bar = refl;
    result_line = record { stripped = refl; no_newline = refl; no_return = refl };
    result_mark = refl;
  },
  tt,
)

files_refine_example :
    rows (read_queue (files_after decimal init (until_test ++ until_end)))
    ≡ board_after decimal [] (until_test ++ until_end)
files_refine_example =
    files_refine decimal decimal-Numbers (until_test ++ until_end)
      (All-append Allowed until_test until_end until_test-Allowed until_end-Allowed)

files-Lives_example :
    Lives
      (rows (read_queue (files_after decimal init until_test)))
      (rows (read_queue (files_after decimal (files_after decimal init until_test) until_end)))
files-Lives_example =
    files-Lives decimal decimal-Numbers until_test until_end until_test-Allowed until_end-Allowed

abbrev ended : Row
ended = record first_row {
  status = codes "validated";
  agent = codes "agent-1";
  result = codes "reports/1.md";
}

files-ended_example : Has ended (
    rows (
      read_queue
        (files_after decimal (files_after decimal init (until_test ++ until_end)) until_end)))
unfolding program
files-ended_example =
    files-ended decimal decimal-Numbers (until_test ++ until_end) until_end
      (All-append Allowed until_test until_end until_test-Allowed until_end-Allowed)
      until_end-Allowed ended (inl refl) (inl refl)
