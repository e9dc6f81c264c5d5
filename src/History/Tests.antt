-- ===== src/History/Tests.antt =====
-- Runs of code_history.py: cells that are recorded, a restart, and an export.
use serac.Common.{
  ◌≡◌, ◌≢◌, ◌∷◌, [], ℕ, map, zero, suc, none, some, refl, true, String, List, ok, err, ◌+◌, ◌-◌,
  ◌≤◌, ◌↔◌, ◌==◌, if◌then◌else◌, text_key, nat_key, contains, leb, arith, nat_beq,
}
use serac.Common.Dict
use serac.Common.Chars.{Text, codes, split, split_first, strip, rstrip, lstrip}
use serac.Common.Sorting.{sorted, insert_by, IsSorted}
use serac.History.{
  CellId, number, named, load_as, list_range, with_texts, Json, whole, cut, line_of, lines_in,
  CodeEntry, Line, entry, garbled, CodeHistory, Cell, entry_of, load_entry, load_lines,
  load_from_disk, init, append_to_disk, record_cell, entries_at, list_entries, get_source,
  cell_lines, export_text, export_to_file, value_error, keys,
}
use serac.History.Restart.{recorded, Printable, init-recorded, get_source-record}
use serac.History.Listing.{list_entries_range}

program : Unit {0}
unfolding split split_first strip rstrip lstrip line_of lines_in Dict.get Dict.put sorted insert_by
    load_as list_range with_texts load_entry load_lines load_from_disk init append_to_disk
    record_cell entries_at list_entries get_source cell_lines export_text export_to_file
program = tt

abbrev load_data : Cell
load_data = record { code = "x = 1"; entry_type = "execute"; result_preview = []; success = true }

abbrev show_data : Cell
show_data = record { code = "x"; entry_type = "eval"; result_preview = codes "1"; success = true }

-- A print of the entries of these tests: braces around the id, plus 200, and a sign for the cell.
abbrev sign : String → ℕ
sign code = if code == "x" then 120 else 61

abbrev number_of : CellId → ℕ
number_of (number n) = n
number_of (named t) = 0

abbrev read_entry : Text → Line
read_entry (_ ∷ n ∷ k ∷ _ ∷ []) =
    if nat_beq k 120
    then entry (entry_of (n - 200) "11:00" show_data)
    else if nat_beq k 63
    then entry (record (entry_of 0 "11:00" show_data) { cell_id = named "a" })
    else entry (entry_of (n - 200) "11:05" load_data)
read_entry _ = garbled

abbrev json : Json
json = record {
  loads = read_entry;
  dumps = λ e. 123 ∷ (number_of e.cell_id + 200) ∷ sign e.code ∷ 125 ∷ [];
}

-- A file with a line that is not JSON, and an entry with a later id.
abbrev old_file : Text
old_file = 91 ∷ 10 ∷ 123 ∷ 204 ∷ 61 ∷ 125 ∷ 10 ∷ []

abbrev cells : List (String × Cell)
cells = ("11:00", show_data) ∷ ("11:05", load_data) ∷ []

abbrev history : CodeHistory
history = recorded json cells (init json (some old_file))

abbrev numeral : ℕ → String
numeral zero = "0"
numeral (suc n) = "1"

ids_go_on : keys history.entries ≡ 4 ∷ 5 ∷ 6 ∷ []
unfolding program
ids_go_on = refl

first_id : (record_cell json whole "09:00" load_data (init json none)).0 ≡ 1
unfolding program
first_id = refl

nothing_to_export :
    export_to_file numeral "12:00" none none none (init json none)
    ≡ some (err (value_error "No entries to export"))
unfolding program
nothing_to_export = refl

one_cell :
    export_to_file numeral "12:00" none none none
      (record_cell json whole "09:00" load_data (init json none)).1
    ≡ some (
        ok
          "# Sandbox code export — 1 cell(s)\n# Generated: 12:00\n\n# --- Cell 1 (09:00) ---\nx = 1\n")
unfolding program
one_cell = refl

from_five :
    list_entries none (some 5) none history
    ≡ some (entry_of 5 "11:00" show_data ∷ entry_of 6 "11:05" load_data ∷ [])
unfolding program
from_five = refl

-- An entry that is written behind a line without its "\n" is glued to it, and both are lost at a restart.
abbrev cut_file : Text
cut_file = 123 ∷ 204 ∷ 61 ∷ 125 ∷ []

glued : keys (init json (some cut_file)).entries ≡ 4 ∷ []
unfolding program
glued = refl

lost :
    keys (init json (recorded json cells (init json (some cut_file))).history_file).entries ≡ 6 ∷ []
unfolding program
lost = refl

-- A write that is cut leaves such a line.
left_open :
    (record_cell json (cut 3) "11:00" show_data (init json (some []))).1.history_file
    ≡ some (123 ∷ 201 ∷ 120 ∷ [])
unfolding program
left_open = refl

show-Printable : Printable json ("11:00", show_data)
unfolding program
show-Printable cell_id = record {
  one_line = ground arith;
  bare = ground arith;
  filled = refl;
  back = ground arith;
}

load-Printable : Printable json ("11:05", load_data)
unfolding program
load-Printable cell_id = record {
  one_line = ground arith;
  bare = ground arith;
  filled = refl;
  back = ground arith;
}

init-recorded_example : init json history.history_file ≡ history
init-recorded_example =
    init-recorded json old_file cells refl (show-Printable, (load-Printable, tt))

get_source-record_example :
    (get_source 7 history ≡ none)
    × (get_source 7 (record_cell json (cut 0) "12:00" show_data history).1 ≡ some "x")
    × ((i : ℕ)
        → i ≢ 7
        → get_source i (record_cell json (cut 0) "12:00" show_data history).1
          ≡ get_source i history)
unfolding program
get_source-record_example = get_source-record json (some old_file) cells (cut 0) "12:00" show_data

-- An id that is a text stays in the history, and listing a range with it raises.
abbrev odd_file : Text
odd_file = 123 ∷ 204 ∷ 63 ∷ 125 ∷ 10 ∷ []

odd_kept : keys (init json (some odd_file)).others ≡ "a" ∷ []
unfolding program
odd_kept = refl

odd_raises : list_entries none none none (recorded json cells (init json (some odd_file))) ≡ none
unfolding program
odd_raises = refl

list_entries_range_example :
    (ids : List ℕ) × (es : List CodeEntry) × (list_entries none (some 5) (some 6) history ≡ some es)
    × (map some es ≡ map (λ i. Dict.get i history.entries) ids)
    × (map (λ e. e.cell_id) es ≡ map number ids)
    × ((i : ℕ)
        → (contains i ids ≡ true)
          ↔ ((contains i (keys history.entries) ≡ true) × (5 ≤ i) × (i ≤ 6)))
    × IsSorted leb ids
unfolding program
list_entries_range_example = list_entries_range json (some old_file) cells (some 5) (some 6) refl
