-- ===== src/History.antt =====
-- agent_framework/sandbox/code_history.py: the code that was run, cell by cell, with its file of JSON
-- lines. The file is its text as it is read, with "\n" behind each line; its last line may lack it, and
-- a new entry is then glued to that line. A file that is missing is as an empty one. The JSON of entries is
-- a parameter. An id is a natural number, or in a file a text; a cell_id of another type is not modelled. Previews of results are texts of characters, since they are cut.
pub mod Pieces
pub mod Restart
pub mod Listing
pub mod Tests
use Prim.Native.String.{compare}
use Prim.Native.Nat.{Ordering}
use serac.Common.{
  ℕ, zero, suc, ◌+◌, ◌-◌, max, ltb, leb, Bool, true, false, Option, none, some, List, [], ◌∷◌, ◌++◌,
  if◌then◌else◌, map, keep, take, length, nat_key, text_key, Key, String, Result, ok, err,
}
use serac.Common.Dict.{Dict, get, put}
use serac.Common.Chars.{Text, is_empty, strip, split}
use serac.Common.Sorting.{sorted}
use serac.Common.Text.{concat, join}

-- An id in a line of the file may be a text; those that `record` gives are numbers.
pub data CellId : Type 0 where
  number : ℕ → CellId
  named : String → CellId

pub record CodeEntry : Type 0 where
  pub cell_id : CellId
  pub timestamp : String
  pub code : String
  pub entry_type : String
  pub result_preview : Text
  pub success : Bool

pub data Line : Type 0 where
  entry : CodeEntry → Line
  garbled : Line

-- json.loads of a line with CodeEntry(**data) of its value, garbled where they raise; and json.dumps of the
-- dictionary of an entry.
pub record Json : Type 0 where
  pub loads : Text → Line
  pub dumps : CodeEntry → Text

-- How the write of a text ends: it all gets to the file, or an OSError leaves its first characters there,
-- none of them where the file cannot be opened.
pub data Writing : Type 0 where
  whole : Writing
  cut : ℕ → Writing

abbrev pub written : Writing → Text → Text
written whole text = text
written (cut n) text = take n text

pub record CodeHistory : Type 0 where
  pub next_id : ℕ
  -- _entries, by numbers and by texts
  pub entries : Dict ℕ CodeEntry
  pub others : Dict String CodeEntry
  pub history_file : Option Text

pub data Error : Type 0 where
  value_error : String → Error

-- The entry is kept, and then its id compared: for a text this raises a TypeError, and the loop goes on.
unfoldable pub load_as : CellId → CodeEntry → CodeHistory → CodeHistory
load_as (number cell_id) e h = record h {
  entries = put cell_id e h.entries;
  next_id = if leb h.next_id cell_id then cell_id + 1 else h.next_id;
}
load_as (named cell_id) e h = record h { others = put cell_id e h.others }

unfoldable pub load_entry : CodeEntry → CodeHistory → CodeHistory
load_entry e h = load_as e.cell_id e h

unfoldable pub load_lines : List Line → CodeHistory → CodeHistory
load_lines [] h = h
load_lines (garbled ∷ lines) h = load_lines lines h
load_lines (entry e ∷ lines) h = load_lines lines (load_entry e h)

-- A line, without the blanks around it; an empty one is skipped, as a garbled one.
unfoldable pub line_of : Json → Text → Line
line_of j line = if is_empty (strip line) then garbled else j.loads (strip line)

unfoldable pub lines_in : Json → Text → List Line
lines_in j text = map (line_of j) (split 10 text)

-- _load_from_disk
unfoldable pub load_from_disk : Json → Option Text → CodeHistory → CodeHistory
load_from_disk j none h = h
load_from_disk j (some text) h = load_lines (lines_in j text) h

unfoldable pub init : Json → Option Text → CodeHistory
init j history_file =
    load_from_disk j history_file
      (record { next_id = 1; entries = []; others = []; history_file = history_file })

-- _append_to_disk
unfoldable pub append_to_disk : Json → Writing → CodeEntry → Option Text → Option Text
append_to_disk j w e none = none
append_to_disk j w e (some text) = some (text ++ written w (j.dumps e ++ 10 ∷ []))

-- What a call of `record` gives.
pub record Cell : Type 0 where
  pub code : String
  pub entry_type : String
  pub result_preview : Text
  pub success : Bool

abbrev pub entry_of : ℕ → String → Cell → CodeEntry
entry_of cell_id now c = record {
  cell_id = number cell_id;
  timestamp = now;
  code = c.code;
  entry_type = c.entry_type;
  result_preview = take 200 c.result_preview;
  success = c.success;
}

unfoldable pub record_cell : Json → Writing → String → Cell → CodeHistory → ℕ × CodeHistory
record_cell j w now c h = (
  h.next_id,
  record {
    next_id = h.next_id + 1;
    entries = put h.next_id (entry_of h.next_id now c) h.entries;
    others = h.others;
    history_file = append_to_disk j w (entry_of h.next_id now c) h.history_file;
  },
)

abbrev pub at_least : Option ℕ → List ℕ → List ℕ
at_least none ids = ids
at_least (some start_id) ids = keep (λ i. leb start_id i) ids

abbrev pub at_most : Option ℕ → List ℕ → List ℕ
at_most none ids = ids
at_most (some end_id) ids = keep (λ i. leb i end_id) ids

abbrev pub with_entry : Option CodeEntry → Option (List CodeEntry) → Option (List CodeEntry)
with_entry (some e) (some es) = some (e ∷ es)
with_entry (some e) none = none
with_entry none es = none

-- The entries of the ids, none where one is missing, which raises KeyError.
unfoldable pub entries_at :
    {K : Type 0} ⦃key : Key K⦄ → List K → Dict K CodeEntry → Option (List CodeEntry)
entries_at [] d = some []
entries_at (i ∷ ids) d = with_entry (get i d) (entries_at ids d)

abbrev pub list_of : Option CodeEntry → List CodeEntry
list_of none = []
list_of (some e) = e ∷ []

abbrev pub keys : {K : Type 0} → Dict K CodeEntry → List K
keys d = map (λ e. e.0) d

-- s <= t of two texts
abbrev text_leb : String → String → Bool
text_leb s t = elim (compare s t) [ Ordering.gt ↦ false | _ ↦ true ]

-- Where an id is a text, it is neither compared with a number nor sorted with numbers: none for the
-- TypeError.
unfoldable pub with_texts :
    Option ℕ → Option ℕ → List ℕ → Dict String CodeEntry → Option (List CodeEntry)
with_texts none none [] others = entries_at (sorted text_leb (keys others)) others
with_texts none none (i ∷ ids) others = none
with_texts none (some end_id) ids others = none
with_texts (some start_id) end_id ids others = none

unfoldable pub list_range :
    Option ℕ → Option ℕ → Dict String CodeEntry → Dict ℕ CodeEntry → Option (List CodeEntry)
list_range start_id end_id [] entries =
    entries_at (at_most end_id (at_least start_id (sorted leb (keys entries)))) entries
list_range start_id end_id (o ∷ os) entries = with_texts start_id end_id (keys entries) (o ∷ os)

unfoldable pub list_entries : Option ℕ → Option ℕ → Option ℕ → CodeHistory → Option (List CodeEntry)
list_entries (some cell_id) start_id end_id h = some (list_of (get cell_id h.entries))
list_entries none start_id end_id h = list_range start_id end_id h.others h.entries

abbrev pub source_of : Option CodeEntry → Option String
source_of none = none
source_of (some e) = some e.code

unfoldable pub get_source : ℕ → CodeHistory → Option String
get_source cell_id h = source_of (get cell_id h.entries)

module _ (str_of : ℕ → String) where
  abbrev pub id_text : CellId → String
  id_text (number n) = str_of n
  id_text (named t) = t

  unfoldable pub cell_lines : List CodeEntry → List String
  cell_lines [] = []
  cell_lines (e ∷ es) =
      concat ("# --- Cell " ∷ id_text e.cell_id ∷ " (" ∷ e.timestamp ∷ ") ---" ∷ [])
      ∷ e.code
      ∷ ""
      ∷ cell_lines es

  -- The text that the file gets.
  unfoldable pub export_text : String → List CodeEntry → Result Error String
  export_text now [] = err (value_error "No entries to export")
  export_text now (e ∷ es) = ok (
      join "\n" (
        concat ("# Sandbox code export — " ∷ str_of (length (e ∷ es)) ∷ " cell(s)" ∷ [])
        ∷ concat ("# Generated: " ∷ now ∷ [])
        ∷ ""
        ∷ cell_lines (e ∷ es)))

  abbrev pub exported : String → Option (List CodeEntry) → Option (Result Error String)
  exported now none = none
  exported now (some es) = some (export_text now es)

  -- none where list_entries raises
  unfoldable pub export_to_file :
      String → Option ℕ → Option ℕ → Option ℕ → CodeHistory → Option (Result Error String)
  export_to_file now cell_id start_id end_id h =
      exported now (list_entries cell_id start_id end_id h)
