-- ===== src/History/Listing.antt =====
-- The entries that `list_entries` of agent_framework/sandbox/code_history.py gives.
use serac.Common.{
  ℕ, ◌≡◌, refl, sym, ap, ap₂, ◌∙◌, Bool, true, false, Option, none, some, List, [], ◌∷◌,
  if◌then◌else◌, leb, arith, nat_key, ◌==◌, same_iff, String, contains, map, All, All-contains,
  All-keep, keep, contains-keep, ◌↔◌, ◌≤◌, Bool-cases, inl, inr,
}
use serac.Common.Dict.{Dict, get, put, get-put}
use serac.Common.Chars.{Text}
use serac.Common.Sorting.{sorted, All-sorted, contains-sorted, IsSorted, sorted-IsSorted}
use serac.History.{
  CellId, number, named, load_as, list_range, Json, lines_in, CodeEntry, Line, entry, garbled,
  CodeHistory, Cell, entry_of, load_entry, load_lines, load_from_disk, init, record_cell, at_least,
  at_most, keys, entries_at, list_entries,
}
use serac.History.Restart.{recorded}

-- Each entry stands under its own id.
abbrev IsKeyed : CodeHistory → Type 0
IsKeyed h = (i : ℕ) (e : CodeEntry) → get i h.entries ≡ some e → e.cell_id ≡ number i

abbrev id_of : Option CodeEntry → CellId
id_of none = named ""
id_of (some e) = e.cell_id

put-IsKeyed :
    (d : Dict ℕ CodeEntry) (n : ℕ) (e : CodeEntry)
    → e.cell_id ≡ number n
    → ((i : ℕ) (f : CodeEntry) → get i d ≡ some f → f.cell_id ≡ number i)
    → (i : ℕ) (f : CodeEntry) → get i (put n e d) ≡ some f
    → f.cell_id ≡ number i
put-IsKeyed d n e own h i f g = there (n == i) (same_iff n i).0 (sym (get-put n i e d) ∙ g)
  where
    there :
        (b : Bool)
        → (b ≡ true → n ≡ i)
        → (if b then some e else get i d) ≡ some f
        → f.cell_id ≡ number i
    there true k g = sym (ap id_of g) ∙ own ∙ ap number (k refl)
    there false k g = h i f g

load_as-IsKeyed :
    (i : CellId) (e : CodeEntry) (h : CodeHistory)
    → e.cell_id ≡ i
    → IsKeyed h
    → IsKeyed (load_as i e h)
unfolding load_as
load_as-IsKeyed (number n) e h own k = put-IsKeyed h.entries n e own k
load_as-IsKeyed (named t) e h own k = k

load_lines-IsKeyed :
    (lines : List Line) (h : CodeHistory) → IsKeyed h → IsKeyed (load_lines lines h)
unfolding load_lines load_entry
load_lines-IsKeyed [] h k = k
load_lines-IsKeyed (garbled ∷ lines) h k = load_lines-IsKeyed lines h k
load_lines-IsKeyed (entry e ∷ lines) h k =
    load_lines-IsKeyed lines (load_entry e h) (load_as-IsKeyed e.cell_id e h refl k)

empty_keyed :
    (i : ℕ) (e : CodeEntry) → ◌≡◌ {A = Option CodeEntry} none (some e) → e.cell_id ≡ number i
empty_keyed i e h = absurd (ground (arith, h))

init-IsKeyed : (j : Json) (history_file : Option Text) → IsKeyed (init j history_file)
unfolding init load_from_disk get
init-IsKeyed j none = empty_keyed
init-IsKeyed j (some text) = load_lines-IsKeyed (lines_in j text) _ empty_keyed

recorded-IsKeyed :
    (j : Json) (cells : List (String × Cell)) (h : CodeHistory)
    → IsKeyed h
    → IsKeyed (recorded j cells h)
unfolding record_cell
recorded-IsKeyed j [] h k = k
recorded-IsKeyed j ((now, c) ∷ cells) h k =
    recorded-IsKeyed j cells _ (put-IsKeyed h.entries h.next_id (entry_of h.next_id now c) refl k)

get-contains :
    (i : ℕ) (d : Dict ℕ CodeEntry)
    → contains i (keys d) ≡ true
    → (e : CodeEntry) × (get i d ≡ some e)
unfolding get
get-contains i [] h = absurd (ground (arith, h))
get-contains i ((j, e) ∷ d) h = elim (Bool-cases (j == i)) [
  | inl t ↦ (e, rw t refl)
  | inr t ↦ rw t (get-contains i d (rw t at h))
]

-- Under ids that are there no entry is missing.
entries_at-some :
    (h : CodeHistory)
    → IsKeyed h
    → (ids : List ℕ) → All (λ i. contains i (keys h.entries) ≡ true) ids
    → (es : List CodeEntry) × (entries_at ids h.entries ≡ some es)
      × (map some es ≡ map (λ i. get i h.entries) ids)
      × (map (λ e. e.cell_id) es ≡ map number ids)
unfolding entries_at
entries_at-some h k [] a = ([], refl, refl, refl)
entries_at-some h k (i ∷ ids) (c, a) =
    let (e, g) = get-contains i h.entries c in
    let (es, found, own, same) = entries_at-some h k ids a in
    (
      e ∷ es,
      rw (g, found) refl,
      ap₂ (λ x xs. x ∷ xs) (sym g) own,
      ap₂ (λ x xs. x ∷ xs) (k i e g) same,
    )

module _ (P : ℕ → Type 0) where
  All-at_least : (start_id : Option ℕ) (ids : List ℕ) → All P ids → All P (at_least start_id ids)
  All-at_least none ids a = a
  All-at_least (some start_id) ids a = All-keep P (λ i. leb start_id i) ids a

  All-at_most : (end_id : Option ℕ) (ids : List ℕ) → All P ids → All P (at_most end_id ids)
  All-at_most none ids a = a
  All-at_most (some end_id) ids a = All-keep P (λ i. leb i end_id) ids a

-- The range that is asked for, where an end that is not given is no bound.
abbrev pub From : Option ℕ → ℕ → Type 0
From none i = Unit
From (some start_id) i = start_id ≤ i

abbrev pub UpTo : Option ℕ → ℕ → Type 0
UpTo none i = Unit
UpTo (some end_id) i = i ≤ end_id

contains-at_least :
    (start_id : Option ℕ) (i : ℕ) (ids : List ℕ)
    → (contains i (at_least start_id ids) ≡ true) ↔ ((contains i ids ≡ true) × From start_id i)
contains-at_least none i ids = (λ h. (h, tt), λ h. h.0)
contains-at_least (some start_id) i ids =
    rw (contains-keep (λ j. leb start_id j) i ids) (ground arith)

contains-at_most :
    (end_id : Option ℕ) (i : ℕ) (ids : List ℕ)
    → (contains i (at_most end_id ids) ≡ true) ↔ ((contains i ids ≡ true) × UpTo end_id i)
contains-at_most none i ids = (λ h. (h, tt), λ h. h.0)
contains-at_most (some end_id) i ids = rw (contains-keep (λ j. leb j end_id) i ids) (ground arith)

-- The ids that the code selects are those of the dictionary within the range.
contains-range :
    (start_id end_id : Option ℕ) (i : ℕ) (ids : List ℕ)
    → (contains i (at_most end_id (at_least start_id ids)) ≡ true)
      ↔ ((contains i ids ≡ true) × From start_id i × UpTo end_id i)
contains-range start_id end_id i ids = (
  λ h.
      let (h', upto) = (contains-at_most end_id i (at_least start_id ids)).0 h in
      let (there, from) = (contains-at_least start_id i ids).0 h' in (there, from, upto),
  λ (there, from, upto).
      (contains-at_most end_id i (at_least start_id ids)).1
        ((contains-at_least start_id i ids).1 (there, from), upto),
)

keep-IsSorted : (p : ℕ → Bool) (ids : List ℕ) → IsSorted leb ids → IsSorted leb (keep p ids)
keep-IsSorted p [] h = tt
keep-IsSorted p (i ∷ ids) (a, h) = elim (Bool-cases (p i)) [
  | inl e ↦ rw e (All-keep (λ j. leb i j ≡ true) p ids a, keep-IsSorted p ids h)
  | inr e ↦ rw e (keep-IsSorted p ids h)
]

range-IsSorted :
    (start_id end_id : Option ℕ) (ids : List ℕ)
    → IsSorted leb ids
    → IsSorted leb (at_most end_id (at_least start_id ids))
range-IsSorted none none ids h = h
range-IsSorted none (some e) ids h = keep-IsSorted _ ids h
range-IsSorted (some s) none ids h = keep-IsSorted _ ids h
range-IsSorted (some s) (some e) ids h = keep-IsSorted _ _ (keep-IsSorted _ ids h)

map_same : (xs : List ℕ) → map (λ x. x) xs ≡ xs
map_same [] = refl
map_same (x ∷ xs) = ap (λ ys. x ∷ ys) (map_same xs)

contains-sorted_ids : (i : ℕ) (ids : List ℕ) → contains i (sorted leb ids) ≡ contains i ids
contains-sorted_ids i ids =
    ap (contains i) (sym (map_same (sorted leb ids)))
    ∙ contains-sorted leb (λ x. x) i ids
    ∙ ap (contains i) (map_same ids)

-- In a history that was started from any file or none, and has recorded any cells, and where no id in
-- the file is a text, list_entries of a range never misses an entry: it gives the history's entries under
-- just those of its ids that are no less than the start and no more than the end, where these are given,
-- in the order of their ids.
pub list_entries_range :
    (j : Json) (history_file : Option Text) (cells : List (String × Cell))
    (start_id end_id : Option ℕ)
    → (recorded j cells (init j history_file)).others ≡ []
    → let h = recorded j cells (init j history_file) in
      (ids : List ℕ) × (es : List CodeEntry) × (list_entries none start_id end_id h ≡ some es)
      × (map some es ≡ map (λ i. get i h.entries) ids)
      × (map (λ e. e.cell_id) es ≡ map number ids)
      × ((i : ℕ)
          → (contains i ids ≡ true)
            ↔ ((contains i (keys h.entries) ≡ true) × From start_id i × UpTo end_id i))
      × IsSorted leb ids
unfolding list_entries list_range
list_entries_range j history_file cells start_id end_id numbers =
    let (es, found, own, same) =
      entries_at-some h
        (recorded-IsKeyed j cells (init j history_file) (init-IsKeyed j history_file)) _
        (All-at_most there end_id _ (
          All-at_least there start_id ids
            (All-sorted leb there (keys h.entries) (All-contains (keys h.entries))))) in
    (
      at_most end_id (at_least start_id ids),
      es,
      rw numbers found,
      own,
      same,
      λ i. rw (sym (contains-sorted_ids i (keys h.entries))) (contains-range start_id end_id i ids),
      range-IsSorted start_id end_id ids (
          sorted-IsSorted leb (λ x y e. ground (arith, e)) (λ x y z e k. ground (arith, e, k))
            (keys h.entries)),
    )
  where
    h : CodeHistory
    h = recorded j cells (init j history_file)

    ids : List ℕ
    ids = sorted leb (keys h.entries)

    there : ℕ → Type 0
    there i = contains i (keys h.entries) ≡ true
