-- ===== src/Queue/RoundTrip.antt =====
-- The table of agent_framework/sandbox/task_queue.py, written and read back.
use serac.Common.{
  ℕ, ◌≡◌, true, false, refl, ap, ◌∙◌, List, [], ◌∷◌, ◌++◌, ◌||◌, not, none, some, nat_key, arith,
  contains, contains-append, map, ◌==◌, All,
}
use serac.Common.Chars.{
  Text, codes, codes_key, Without, is_empty, strip, rstrip, lstrip, strip_padded, split,
  split_first, split-append, starts_with, has_part, newlines_from,
}
use serac.Queue.Table.{
  Row, escape_cell, row_of, read_line, read_lines, read_rows, cell, row_line, row_lines, write_rows,
}
use serac.Queue.Cells.{unescape-escape, strip-escape, Without-escape, Without-escape_bar}

-- A text that stays on its line and has no space at its ends.
pub record IsLine (s : Text) : Type 0 where
  pub stripped : strip s ≡ s
  pub no_newline : Without 10 s
  pub no_return : Without 13 s

-- What the columns of a row may hold: the id starts with "S", the columns that are not escaped have no
-- bar, and those that are do not have the escape itself.
pub record IsClean (r : Row) : Type 0 where
  pub starts_s : starts_with (codes "S") r.id ≡ true
  pub id_line : IsLine r.id
  pub id_bar : Without 124 r.id
  pub status_line : IsLine r.status
  pub status_bar : Without 124 r.status
  pub idea_line : IsLine r.idea
  pub idea_mark : has_part (codes "&#124;") r.idea ≡ false
  pub date_line : IsLine r.date
  pub date_bar : Without 124 r.date
  pub agent_line : IsLine r.agent
  pub agent_bar : Without 124 r.agent
  pub result_line : IsLine r.result
  pub result_mark : has_part (codes "&#124;") r.result ≡ false

split-cell :
    (c rest : Text)
    → Without 124 c
    → split 124 (cell c rest) ≡ (32 ∷ (c ++ 32 ∷ [])) ∷ split 124 rest
split-cell c rest h =
    split-append 124 (32 ∷ (c ++ 32 ∷ [])) rest (rw (contains-append 124 c (32 ∷ []), h) refl)

strip_cell : (c : Text) → IsLine c → strip (32 ∷ (c ++ 32 ∷ [])) ≡ c
strip_cell c h = strip_padded c ∙ h.stripped

strip_escaped : (c : Text) → IsLine c → strip (32 ∷ (escape_cell c ++ 32 ∷ [])) ≡ escape_cell c
strip_escaped c h = strip_padded (escape_cell c) ∙ strip-escape c ∙ ap escape_cell h.stripped

only_end : read_lines (split 10 []) ≡ []
unfolding read_lines read_line split split_first starts_with
only_end = refl

split_nothing : split 124 [] ≡ [] ∷ []
unfolding split split_first
split_nothing = refl

strip_nothing : strip [] ≡ []
unfolding strip rstrip lstrip
strip_nothing = refl

starts_bar : (r : Row) → starts_with (codes "|") (row_line r) ≡ true
unfolding row_line starts_with
starts_bar r = refl

cells :
    (r : Row)
    → IsClean r
    → map strip (split 124 (row_line r))
      ≡ []
        ∷ r.id
        ∷ r.status
        ∷ escape_cell r.idea
        ∷ r.date
        ∷ r.agent
        ∷ escape_cell r.result
        ∷ []
        ∷ []
unfolding row_line
cells r h =
    rw
      (
        split-append 124 [] _ refl,
        split-cell r.id _ h.id_bar,
        split-cell r.status _ h.status_bar,
        split-cell (escape_cell r.idea) _ (Without-escape_bar r.idea),
        split-cell r.date _ h.date_bar,
        split-cell r.agent _ h.agent_bar,
        split-cell (escape_cell r.result) _ (Without-escape_bar r.result),
        strip_cell r.id h.id_line,
        strip_cell r.status h.status_line,
        strip_escaped r.idea h.idea_line,
        strip_cell r.date h.date_line,
        strip_cell r.agent h.agent_line,
        strip_escaped r.result h.result_line,
        split_nothing,
        strip_nothing,
      )
      refl

is_task_id :
    (id : Text)
    → starts_with (codes "S") id ≡ true
    → (id == codes "ID"
        || is_empty id
        || starts_with (codes "-") id
        || not (starts_with (codes "S") id))
      ≡ false
unfolding starts_with
is_task_id [] h = ground (arith, h)
is_task_id (c ∷ s) h = ground (arith, h)

read-row_line : (r : Row) → IsClean r → read_line (row_line r) ≡ some r
unfolding read_line row_of
read-row_line r h =
    rw
      (
        starts_bar r,
        cells r h,
        is_task_id r.id h.starts_s,
        unescape-escape r.idea h.idea_mark,
        unescape-escape r.result h.result_mark,
      )
      refl

Without-cell :
    (d : ℕ) (c rest : Text)
    → contains d (32 ∷ 124 ∷ []) ≡ false
    → Without d c
    → Without d rest
    → Without d (cell c rest)
Without-cell d c rest e h k =
    rw (contains-append d (c ++ 32 ∷ []) (124 ∷ rest), contains-append d c (32 ∷ []), h)
      (ground (arith, e, k))

Without-row_line :
    (d : ℕ) (r : Row)
    → contains d (32 ∷ 124 ∷ []) ≡ false
    → Without d (codes "&#124;")
    → Without d r.id
    → Without d r.status
    → Without d r.idea
    → Without d r.date
    → Without d r.agent
    → Without d r.result
    → Without d (row_line r)
unfolding row_line
Without-row_line d r e m i s p q a t =
    let inside = Without-cell d r.id (cell r.status from_idea) e i (
      Without-cell d r.status from_idea e s (
        Without-cell d (escape_cell r.idea) from_date e (Without-escape d r.idea m p) (
          Without-cell d r.date from_agent e q (
            Without-cell d r.agent from_result e a (
              Without-cell d (escape_cell r.result) [] e (Without-escape d r.result m t)
                refl))))) in
    ground (arith, e, inside)
  where
    from_result : Text
    from_result = cell (escape_cell r.result) []

    from_agent : Text
    from_agent = cell r.agent from_result

    from_date : Text
    from_date = cell r.date from_agent

    from_idea : Text
    from_idea = cell (escape_cell r.idea) from_date

no_newline : (r : Row) → IsClean r → Without 10 (row_line r)
no_newline r h =
    Without-row_line 10 r refl refl h.id_line.no_newline h.status_line.no_newline
      h.idea_line.no_newline h.date_line.no_newline h.agent_line.no_newline h.result_line.no_newline

no_return : (r : Row) → IsClean r → Without 13 (row_line r)
no_return r h =
    Without-row_line 13 r refl refl h.id_line.no_return h.status_line.no_return
      h.idea_line.no_return h.date_line.no_return h.agent_line.no_return h.result_line.no_return

row_lines-no_return : (rows : List Row) → All IsClean rows → Without 13 (row_lines rows)
unfolding row_lines
row_lines-no_return [] h = refl
row_lines-no_return (r ∷ rows) (h, k) =
    rw (contains-append 13 (row_line r) (10 ∷ row_lines rows), no_return r h)
      (row_lines-no_return rows k)

newlines-Without : (s : Text) → Without 13 s → newlines_from false s ≡ s
unfolding newlines_from
newlines-Without [] h = refl
newlines-Without (c ∷ s) h = ground (arith, h, newlines-Without s)

read_nothing : read_line [] ≡ none
unfolding read_line starts_with
read_nothing = refl

read-row_lines :
    (rows : List Row) → All IsClean rows → read_lines (split 10 (row_lines rows)) ≡ rows
unfolding row_lines read_lines
read-row_lines [] h = only_end
read-row_lines (r ∷ rows) (h, k) =
    rw
      (
        split-append 10 (row_line r) (row_lines rows) (no_newline r h),
        read-row_line r h,
        read-row_lines rows k,
      )
      refl

abbrev head_lines : Text
head_lines =
    codes "# Research Queue\n"
    ++ codes "\n| ID | Status | Idea | Date | Agent | Result |\n"
    ++ codes "|----|--------|------|------|-------|--------|\n"

read-head_lines :
    (rest : Text) → read_lines (split 10 (head_lines ++ rest)) ≡ read_lines (split 10 rest)
unfolding read_lines read_line row_of split split_first starts_with strip rstrip lstrip
read-head_lines rest = refl

-- A table of clean rows is read back as it was written.
pub read_rows-write_rows : (rows : List Row) → All IsClean rows → read_rows (write_rows rows) ≡ rows
unfolding read_rows write_rows
read_rows-write_rows rows h =
    ap (λ s. read_lines (split 10 s))
      (newlines-Without (head_lines ++ row_lines rows) no_return_there)
    ∙ read-head_lines (row_lines rows)
    ∙ read-row_lines rows h
  where
    no_return_there : Without 13 (head_lines ++ row_lines rows)
    no_return_there =
        rw (contains-append 13 head_lines (row_lines rows)) (row_lines-no_return rows h)
