-- ===== src/Queue/Lives.antt =====
-- Whole runs of agent_framework/sandbox/task_queue.py: the files show the board, and each task lives
-- from pending over testing to an end.
use serac.Common.{
  subst, ◌≡◌, ◌⊎◌, refl, sym, ◌∙◌, List, [], ◌∷◌, ◌++◌, ◌&&◌, Bool-cases, inl, inr, ◌==◌, same_iff,
  and_true, All, arith, false,
}
use serac.Common.Chars.{Text, codes, codes_key}
use serac.Queue.Table.{Row}
use serac.Queue.Board.{
  Op, adds, claims, completes, rejects, moved, on_board, board_after, files_after, Allowed, Numbers,
}
use serac.Queue.Refine.{Shows, rows-read_queue}
use serac.Queue.Steps.{step-Shows}
use serac.Queue.{Formats, TaskQueue, init, rows, read_queue, claimed, finished}

-- One move of a task.
pub data Moves : Row → Row → Type 0 where
  is_claimed : (agent : Text) (r : Row) → r.status ≡ codes "pending" → Moves r (claimed agent r)
  ends :
      (status path : Text) (r : Row)
      → r.status ≡ codes "testing"
      → (status ≡ codes "validated") ⊎ (status ≡ codes "rejected")
      → Moves r (finished status path r)

pub data Life (r : Row) : Row → Type 0 where
  stays : Life r r
  then_moves : {s t : Row} → Life r s → Moves s t → Life r t

-- Each of the first rows lives on at its place; new rows stand behind.
abbrev pub Lives : List Row → List Row → Type 0
Lives [] after = Unit
Lives (r ∷ before) [] = ⊥
Lives (r ∷ before) (s ∷ after) = Life r s × Lives before after

-- The task is validated or rejected.
abbrev pub IsEnded : Row → Type 0
IsEnded r = (r.status ≡ codes "validated") ⊎ (r.status ≡ codes "rejected")

abbrev pub Has : Row → List Row → Type 0
Has r [] = ⊥
Has r (s ∷ rest) = (r ≡ s) ⊎ Has r rest

Life-trans : {r s t : Row} → Life r s → Life s t → Life r t
Life-trans l stays = l
Life-trans l (then_moves k m) = then_moves (Life-trans l k) m

Lives-refl : (rs : List Row) → Lives rs rs
Lives-refl [] = tt
Lives-refl (r ∷ rs) = (stays, Lives-refl rs)

Lives-append : (rs more : List Row) → Lives rs (rs ++ more)
Lives-append [] more = tt
Lives-append (r ∷ rs) more = (stays, Lives-append rs more)

Lives-trans : (rs ss ts : List Row) → Lives rs ss → Lives ss ts → Lives rs ts
Lives-trans [] ss ts h k = tt
Lives-trans (r ∷ rs) [] ts h k = absurd h
Lives-trans (r ∷ rs) (s ∷ ss) [] h k = absurd k
Lives-trans (r ∷ rs) (s ∷ ss) (t ∷ ts) (l, h) (m, k) = (Life-trans l m, Lives-trans rs ss ts h k)

moved-Lives :
    (id status : Text) (change : Row → Row)
    → ((r : Row) → r.status ≡ status → Moves r (change r))
    → (rs : List Row) → Lives rs (moved id status change rs)
moved-Lives id status change m [] = tt
moved-Lives id status change m (r ∷ rs) = (
  elim (Bool-cases (r.id == id && r.status == status)) [
    | inl e ↦ rw e (then_moves stays (m r ((same_iff r.status status).0 (and_true _ _ e).1)))
    | inr e ↦ rw e stays
  ],
  moved-Lives id status change m rs,
)

not_same : (s t : Text) → (s == t) ≡ false → s ≡ t → ⊥
not_same s t h e = ground (arith, h, (same_iff s t).1 e)

module _ (formats : Formats) where
  on_board-Lives : (rs : List Row) (op : Op) → Lives rs (on_board formats rs op)
  on_board-Lives rs (adds today idea asset) = Lives-append rs _
  on_board-Lives rs (claims id agent) = moved-Lives id _ _ (λ r h. is_claimed agent r h) rs
  on_board-Lives rs (completes id path) = moved-Lives id _ _ (λ r h. ends _ path r h (inl refl)) rs
  on_board-Lives rs (rejects id path) = moved-Lives id _ _ (λ r h. ends _ path r h (inr refl)) rs

  board_after-Lives : (rs : List Row) (ops : List Op) → Lives rs (board_after formats rs ops)
  board_after-Lives rs [] = Lives-refl rs
  board_after-Lives rs (op ∷ ops) =
      Lives-trans rs (on_board formats rs op) _ (on_board-Lives rs op)
        (board_after-Lives (on_board formats rs op) ops)

Moves-ended : {r s : Row} → Moves r s → IsEnded r → ⊥
Moves-ended (is_claimed agent r h) (inl e) =
    not_same (codes "pending") (codes "validated") refl (sym h ∙ e)
Moves-ended (is_claimed agent r h) (inr e) =
    not_same (codes "pending") (codes "rejected") refl (sym h ∙ e)
Moves-ended (ends status path r h k) (inl e) =
    not_same (codes "testing") (codes "validated") refl (sym h ∙ e)
Moves-ended (ends status path r h k) (inr e) =
    not_same (codes "testing") (codes "rejected") refl (sym h ∙ e)

Life-ended : {r s : Row} → IsEnded r → Life r s → r ≡ s
Life-ended e stays = refl
Life-ended e (then_moves l m) = absurd (Moves-ended m (rw (Life-ended e l) at e))

Lives-ended : (r : Row) (rs ss : List Row) → IsEnded r → Has r rs → Lives rs ss → Has r ss
Lives-ended r [] ss e h k = absurd h
Lives-ended r (s ∷ rs) [] e h k = absurd k
Lives-ended r (s ∷ rs) (t ∷ ss) e (inl h) (l, k) = inl (h ∙ Life-ended (subst IsEnded h e) l)
Lives-ended r (s ∷ rs) (t ∷ ss) e (inr h) (l, k) = inr (Lives-ended r rs ss e h k)

module _ (formats : Formats) (numbers : Numbers formats) where
  files_after-Shows :
      (ops : List Op) (q : TaskQueue) (board : List Row)
      → All Allowed ops
      → Shows q board
      → Shows (files_after formats q ops) (board_after formats board ops)
  files_after-Shows [] q board a h = h
  files_after-Shows (op ∷ ops) q board (a, rest) h =
      files_after-Shows ops _ _ rest (step-Shows formats numbers q board op a h)

  init-Shows : Shows init []
  unfolding init
  init-Shows = record { table = refl; clean = tt; distinct = tt }

  -- The queue implements the board: after any operations with allowed texts on a new queue, the rows
  -- that are read from the table are those of the board.
  pub files_refine :
      (ops : List Op)
      → All Allowed ops
      → rows (read_queue (files_after formats init ops)) ≡ board_after formats [] ops
  files_refine ops a =
      rows-read_queue (files_after formats init ops) _ (files_after-Shows ops init [] a init-Shows)

  -- Between any two points of such a run, each task that is read at the first is read at the same place
  -- at the second, and there is a chain of moves between: a claim only of a pending task, a validation or
  -- a rejection only of a task under test.
  pub files-Lives :
      (ops more : List Op)
      → All Allowed ops
      → All Allowed more
      → let q = files_after formats init ops in
        Lives (rows (read_queue q)) (rows (read_queue (files_after formats q more)))
  files-Lives ops more a b =
      let first = files_after-Shows ops init [] a init-Shows in
      let second = files_after-Shows more (files_after formats init ops) _ b first in
      rw
        (
          rows-read_queue (files_after formats init ops) _ first,
          rows-read_queue (files_after formats (files_after formats init ops) more) _ second,
        )
        (board_after-Lives formats (board_after formats [] ops) more)

  -- A validated or rejected task that is read at one point of such a run is read, with the same columns,
  -- at every later point.
  pub files-ended :
      (ops more : List Op)
      → All Allowed ops
      → All Allowed more
      → (r : Row) → IsEnded r
      → Has r (rows (read_queue (files_after formats init ops)))
      → Has r (rows (read_queue (files_after formats (files_after formats init ops) more)))
  files-ended ops more a b r e h = Lives-ended r _ _ e h (files-Lives ops more a b)
