-- ===== src/History/Restart.antt =====
-- A history of agent_framework/sandbox/code_history.py that is started again from its file.
use serac.Common.{
  ℕ, ◌≡◌, ◌+◌, ◌≢◌, ◌≤◌, refl, sym, ap, ◌∙◌, Bool, true, Option, none, some, List, [], ◌∷◌, ◌++◌,
  if◌then◌else◌, leb, All, arith, nat_key, same_iff, same_refl, String,
}
use serac.Common.Dict.{get, put, get-put}
use serac.Common.{subst, append_assoc}
use serac.Common.Chars.{Text}
use serac.History.{
  CellId, number, named, load_as, Json, Writing, whole, lines_in, CodeEntry, Line, entry, garbled,
  CodeHistory, Cell, entry_of, load_entry, load_lines, load_from_disk, init, append_to_disk,
  record_cell, get_source, source_of,
}
use serac.History.Pieces.{is_terminated, Prints, is_terminated-append, load_lines-dumps}

-- Cells that are recorded one after the other, each with its time, where each write to the file succeeds.
abbrev pub recorded : Json → List (String × Cell) → CodeHistory → CodeHistory
recorded j [] h = h
recorded j ((now, c) ∷ cells) h = recorded j cells ((record_cell j whole now c h).1)

abbrev with_file : Option Text → CodeHistory → CodeHistory
with_file f h = record h { history_file = f }

load_as-file :
    (i : CellId) (e : CodeEntry) (h : CodeHistory) (g : Option Text)
    → with_file g (load_as i e h) ≡ load_as i e (with_file g h)
unfolding load_as
load_as-file (number n) e h g = refl
load_as-file (named t) e h g = refl

-- Loading does not look at the file of the history.
load_lines-file :
    (xs : List Line) (h : CodeHistory) (g : Option Text)
    → with_file g (load_lines xs h) ≡ load_lines xs (with_file g h)
unfolding load_lines load_entry
load_lines-file [] h g = refl
load_lines-file (garbled ∷ xs) h g = load_lines-file xs h g
load_lines-file (entry e ∷ xs) h g =
    load_lines-file xs (load_entry e h) g ∙ ap (load_lines xs) (load_as-file e.cell_id e h g)

-- What the file holds is what the history knows, and its last line has its "\n".
abbrev IsSaved : Json → CodeHistory → Type 0
IsSaved j h =
    (text : Text) × (h.history_file ≡ some text)
    × (init j (some text) ≡ h)
    × (is_terminated text ≡ true)

load-IsSaved : (j : Json) (text : Text) → is_terminated text ≡ true → IsSaved j (init j (some text))
unfolding init load_from_disk
load-IsSaved j text t = (
  text,
  sym (
      ap (λ h. h.history_file)
        (load_lines-file (lines_in j text)
          (record { next_id = 1; entries = []; others = []; history_file = some text })
          (some text))),
  refl,
  t,
)

record-IsSaved :
    (j : Json) (now : String) (c : Cell) (h : CodeHistory)
    → Prints j (entry_of h.next_id now c)
    → IsSaved j h
    → IsSaved j ((record_cell j whole now c h).1)
unfolding init load_from_disk record_cell append_to_disk load_entry load_as
record-IsSaved j now c h p (text, f, e, t) = (
  later,
  rw f refl,
  load_lines-dumps j new text _ t p
      ∙ ap (load_entry new)
          (sym (load_lines-file (lines_in j text) _ _) ∙ ap (with_file (some later)) e)
      ∙ rw f (next_one (leb h.next_id h.next_id) (ground arith)),
  subst (λ s. is_terminated s ≡ true) (append_assoc text (j.dumps new) (10 ∷ []))
      (is_terminated-append (text ++ j.dumps new)),
)
  where
    new : CodeEntry
    new = entry_of h.next_id now c

    later : Text
    later = text ++ (j.dumps new ++ 10 ∷ [])

    next_one :
        (b : Bool)
        → b ≡ true
        → ◌≡◌ {A = CodeHistory}
            (record {
              next_id = if b then h.next_id + 1 else h.next_id;
              entries = put h.next_id new h.entries;
              others = h.others;
              history_file = some later;
            })
            (record {
              next_id = h.next_id + 1;
              entries = put h.next_id new h.entries;
              others = h.others;
              history_file = some later;
            })
    next_one b t = rw t refl

-- The entries that the cells may get are printed on a line each, and read back.
abbrev pub Printable : Json → String × Cell → Type 0
Printable j (now, c) = (cell_id : ℕ) → Prints j (entry_of cell_id now c)

recorded-IsSaved :
    (j : Json) (cells : List (String × Cell)) (h : CodeHistory)
    → All (Printable j) cells
    → IsSaved j h
    → IsSaved j (recorded j cells h)
recorded-IsSaved j [] h p s = s
recorded-IsSaved j ((now, c) ∷ cells) h (p, ps) s =
    recorded-IsSaved j cells _ ps (record-IsSaved j now c h (p h.next_id) s)

-- A history that was started from a file whose last line is not cut off, and whose cells could all be
-- written, is the same when it is started again from the file that it has left; where json.dumps prints
-- each of the cells' entries on a line without blanks around it that json.loads reads back.
pub init-recorded :
    (j : Json) (text : Text) (cells : List (String × Cell))
    → is_terminated text ≡ true
    → All (Printable j) cells
    → init j (recorded j cells (init j (some text))).history_file
      ≡ recorded j cells (init j (some text))
init-recorded j text cells t p =
    let (left, f, e, _) = recorded-IsSaved j cells (init j (some text)) p (load-IsSaved j text t) in
    rw f e

-- Every id is below the next one.
abbrev pub IsBelow : CodeHistory → Type 0
IsBelow h = (i : ℕ) → h.next_id ≤ i → get i h.entries ≡ none

load_lines-IsBelow :
    (lines : List Line) (h : CodeHistory) → IsBelow h → IsBelow (load_lines lines h)
unfolding load_lines load_entry load_as
load_lines-IsBelow [] h b = b
load_lines-IsBelow (garbled ∷ lines) h b = load_lines-IsBelow lines h b
load_lines-IsBelow (entry e ∷ lines) h b =
    load_lines-IsBelow lines (load_as e.cell_id e h) (by_id e.cell_id)
  where
    by_id : (n : CellId) → IsBelow (load_as n e h)
    by_id (number n) i k = get-put n i e h.entries ∙ ground (arith, same_iff n i, b i)
    by_id (named t) i k = b i k

init-IsBelow : (j : Json) (history_file : Option Text) → IsBelow (init j history_file)
unfolding init load_from_disk get
init-IsBelow j none = λ i k. refl
init-IsBelow j (some text) = load_lines-IsBelow (lines_in j text) _ (λ i k. refl)

record-IsBelow :
    (j : Json) (w : Writing) (now : String) (c : Cell) (h : CodeHistory)
    → IsBelow h
    → IsBelow ((record_cell j w now c h).1)
unfolding record_cell
record-IsBelow j w now c h b i k =
    get-put h.next_id i _ h.entries ∙ ground (arith, same_iff h.next_id i, b i)

recorded-IsBelow :
    (j : Json) (cells : List (String × Cell)) (h : CodeHistory)
    → IsBelow h
    → IsBelow (recorded j cells h)
recorded-IsBelow j [] h b = b
recorded-IsBelow j ((now, c) ∷ cells) h b =
    recorded-IsBelow j cells _ (record-IsBelow j whole now c h b)

source_step :
    (j : Json) (w : Writing) (now : String) (c : Cell) (h : CodeHistory)
    → IsBelow h
    → let after = record_cell j w now c h in
      (get_source after.0 h ≡ none)
      × (get_source after.0 after.1 ≡ some c.code)
      × ((i : ℕ) → i ≢ after.0 → get_source i after.1 ≡ get_source i h)
unfolding record_cell get_source
source_step j w now c h b = (
  ap source_of (b h.next_id (omega arith)),
  ap source_of (get-put h.next_id h.next_id new h.entries) ∙ rw (same_refl h.next_id) refl,
  λ i k. ap source_of (get-put h.next_id i new h.entries ∙ ground (arith, k, same_iff h.next_id i)),
)
  where
    new : CodeEntry
    new = entry_of h.next_id now c

-- In a history that was started from any file or none, and has recorded any cells, one more cell gets an
-- id that no entry has, is found under it, and leaves the source of every other id as it was.
pub get_source-record :
    (j : Json) (history_file : Option Text) (cells : List (String × Cell)) (w : Writing)
    (now : String) (c : Cell)
    → let h = recorded j cells (init j history_file) in
      let after = record_cell j w now c h in
      (get_source after.0 h ≡ none)
      × (get_source after.0 after.1 ≡ some c.code)
      × ((i : ℕ) → i ≢ after.0 → get_source i after.1 ≡ get_source i h)
get_source-record j history_file cells w now c =
    source_step j w now c (recorded j cells (init j history_file))
      (recorded-IsBelow j cells (init j history_file) (init-IsBelow j history_file))
