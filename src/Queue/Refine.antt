-- ===== src/Queue/Refine.antt =====
-- The files of agent_framework/sandbox/task_queue.py show the board, through every operation.
use serac.Common.{
  ◌≡◌, true, false, refl, sym, ap, ap₂, ◌∙◌, List, [], ◌∷◌, ◌&&◌, Option, none, some, nat_key,
  arith, Bool-cases, inl, inr, contains, map, ◌==◌, same_iff, All, Distinct, and_true,
}
use serac.Common.Chars.{Text, codes_key}
use serac.Queue.Table.{Row, write_rows}
use serac.Queue.RoundTrip.{IsClean, read_rows-write_rows}
use serac.Queue.Board.{moved}
use serac.Queue.{
  JournalLine, behind, Task, TaskQueue, hydrate, read_queue, rows, write_queue, advance, saved,
}

abbrev pub ids : List Row → List Text
ids rows = map (λ r. r.id) rows

-- The table holds the rows of the board, which are clean and have different ids.
pub record Shows (q : TaskQueue) (board : List Row) : Type 0 where
  pub table : q.table ≡ write_rows board
  pub clean : All IsClean board
  pub distinct : Distinct (ids board)

row-hydrate : (journal : Option (List JournalLine)) (r : Row) → (hydrate journal r).row ≡ r
unfolding hydrate
row-hydrate none r = refl
row-hydrate (some lines) r = refl

rows-hydrate :
    (journal : Option (List JournalLine)) (board : List Row)
    → rows (map (hydrate journal) board) ≡ board
rows-hydrate journal [] = refl
rows-hydrate journal (r ∷ board) =
    ap₂ (λ b bs. b ∷ bs) (row-hydrate journal r) (rows-hydrate journal board)

-- The tasks that are read from files that show a board are its rows.
pub rows-read_queue :
    (q : TaskQueue) (board : List Row) → Shows q board → rows (read_queue q) ≡ board
unfolding read_queue
rows-read_queue q board h =
    rw (h.table, read_rows-write_rows board h.clean) (rows-hydrate q.journal board)

module _ (id status : Text) (change : Row → Row) where
  moved-absent :
      (board : List Row) → contains id (ids board) ≡ false → moved id status change board ≡ board
  moved-absent [] h = refl
  moved-absent (r ∷ board) h =
      ap₂ (λ b bs. b ∷ bs) (ground (arith, h)) (moved-absent board (ground (arith, h)))

  abbrev AfterAdvance : List Task → Option (Task × List Task) → Type 0
  AfterAdvance ts none = moved id status change (rows ts) ≡ rows ts
  AfterAdvance ts (some (t, ts')) = rows ts' ≡ moved id status change (rows ts)

  behind-AfterAdvance :
      (t : Task) (rest : List Task) (o : Option (Task × List Task))
      → (t.row.id == id && t.row.status == status) ≡ false
      → AfterAdvance rest o
      → AfterAdvance (t ∷ rest) (behind t o)
  behind-AfterAdvance t rest none e h = rw e (ap (λ bs. t.row ∷ bs) h)
  behind-AfterAdvance t rest (some (found, ts)) e h = rw e (ap (λ bs. t.row ∷ bs) h)

  advance-AfterAdvance :
      (ts : List Task) → Distinct (ids (rows ts)) → AfterAdvance ts (advance id status change ts)
  unfolding advance
  advance-AfterAdvance [] d = refl
  advance-AfterAdvance (t ∷ rest) (a, d) =
      elim (Bool-cases (t.row.id == id && t.row.status == status)) [
        | inl e ↦
            rw (e, e) (ap (λ bs. change t.row ∷ bs) (sym (moved-absent (rows rest) (others e))))
        | inr e ↦ rw e (behind-AfterAdvance t rest _ e (advance-AfterAdvance rest d))
      ]
    where
      others :
          (t.row.id == id && t.row.status == status) ≡ true → contains id (ids (rows rest)) ≡ false
      others e = rw (← (same_iff t.row.id id).0 (and_true _ _ e).0) a

  ids-moved :
      ((r : Row) → (change r).id ≡ r.id)
      → (board : List Row) → ids (moved id status change board) ≡ ids board
  ids-moved k [] = refl
  ids-moved k (r ∷ board) =
      ap₂ (λ b bs. b ∷ bs)
        (elim (Bool-cases (r.id == id && r.status == status)) [
          | inl e ↦ rw e (k r)
          | inr e ↦ rw e refl
        ])
        (ids-moved k board)

  moved-IsClean :
      ((r : Row) → IsClean r → IsClean (change r))
      → (board : List Row) → All IsClean board
      → All IsClean (moved id status change board)
  moved-IsClean k [] h = tt
  moved-IsClean k (r ∷ board) (c, h) = (
    elim (Bool-cases (r.id == id && r.status == status)) [ inl e ↦ rw e (k r c) | inr e ↦ rw e c ],
    moved-IsClean k board h,
  )

  -- A change of one task, saved, shows the changed board.
  pub saved-Shows :
      (action : Text) (q : TaskQueue) (board : List Row)
      → ((r : Row) → (change r).id ≡ r.id)
      → ((r : Row) → IsClean r → IsClean (change r))
      → Shows q board
      → Shows
          (saved action (advance id status change (read_queue q)) q).1
          (moved id status change board)
  unfolding saved write_queue
  saved-Shows action q board k c h =
      by_result (advance id status change (read_queue q))
        (advance-AfterAdvance (read_queue q) (rw shown h.distinct))
    where
      shown : rows (read_queue q) ≡ board
      shown = rows-read_queue q board h

      changed :
          Shows
            (record q { table = write_rows (moved id status change board) })
            (moved id status change board)
      changed = record {
        table = refl;
        clean = moved-IsClean c board h.clean;
        distinct = rw (ids-moved k board) h.distinct;
      }

      by_result :
          (o : Option (Task × List Task))
          → AfterAdvance (read_queue q) o
          → Shows (saved action o q).1 (moved id status change board)
      by_result none a = record {
        table = h.table ∙ ap write_rows (sym (rw shown at a));
        clean = changed.clean;
        distinct = changed.distinct;
      }
      by_result (some (t, ts)) a = record {
        table = ap write_rows (a ∙ ap (moved id status change) shown);
        clean = changed.clean;
        distinct = changed.distinct;
      }
