-- ===== src/Queue/Steps.antt =====
-- Every operation of agent_framework/sandbox/task_queue.py as a step of the board, and the lives of its
-- tasks.
use serac.Common.{
  ◌+◌, ◌≡◌, true, false, refl, List, [], ◌∷◌, ◌++◌, arith, contains, map-append, same_iff, All,
  All-append, Distinct-append,
}
use serac.Common.Chars.{Text, codes, codes_key, starts_with, has_part, strip, rstrip, lstrip}
use serac.Queue.Table.{Row}
use serac.Queue.RoundTrip.{IsClean, IsLine}
use serac.Queue.Board.{
  Op, adds, claims, completes, rejects, new_row, on_board, on_files, Allowed, Plain, Escapable,
  Numbers,
}
use serac.Queue.Refine.{ids, Shows, saved-Shows, rows-read_queue}
use serac.Queue.Fresh.{numbered-IsLine, numbered_bar, next_id-numbered, next_id-absent}
use serac.Queue.{
  Formats, TaskQueue, write_queue, max_number, next_id, add, claimed, claim, finished, complete,
  reject,
}

empty-IsLine : IsLine []
unfolding strip rstrip lstrip
empty-IsLine = record { stripped = refl; no_newline = refl; no_return = refl }

pending-IsLine : IsLine (codes "pending")
unfolding strip rstrip lstrip
pending-IsLine = record { stripped = refl; no_newline = refl; no_return = refl }

testing-IsLine : IsLine (codes "testing")
unfolding strip rstrip lstrip
testing-IsLine = record { stripped = refl; no_newline = refl; no_return = refl }

validated-IsLine : IsLine (codes "validated")
unfolding strip rstrip lstrip
validated-IsLine = record { stripped = refl; no_newline = refl; no_return = refl }

rejected-IsLine : IsLine (codes "rejected")
unfolding strip rstrip lstrip
rejected-IsLine = record { stripped = refl; no_newline = refl; no_return = refl }

claimed-IsClean : (agent : Text) → Plain agent → (r : Row) → IsClean r → IsClean (claimed agent r)
unfolding claimed
claimed-IsClean agent (a, b) r h = record {
  starts_s = h.starts_s;
  id_line = h.id_line;
  id_bar = h.id_bar;
  status_line = testing-IsLine;
  status_bar = refl;
  idea_line = h.idea_line;
  idea_mark = h.idea_mark;
  date_line = h.date_line;
  date_bar = h.date_bar;
  agent_line = a;
  agent_bar = b;
  result_line = h.result_line;
  result_mark = h.result_mark;
}

finished-IsClean :
    (status path : Text)
    → Plain status
    → Escapable path
    → (r : Row) → IsClean r
    → IsClean (finished status path r)
unfolding finished
finished-IsClean status path (a, b) (c, d) r h = record {
  starts_s = h.starts_s;
  id_line = h.id_line;
  id_bar = h.id_bar;
  status_line = a;
  status_bar = b;
  idea_line = h.idea_line;
  idea_mark = h.idea_mark;
  date_line = h.date_line;
  date_bar = h.date_bar;
  agent_line = h.agent_line;
  agent_bar = h.agent_bar;
  result_line = c;
  result_mark = d;
}

claimed-id : (agent : Text) (r : Row) → (claimed agent r).id ≡ r.id
unfolding claimed
claimed-id agent r = refl

finished-id : (status path : Text) (r : Row) → (finished status path r).id ≡ r.id
unfolding finished
finished-id status path r = refl

no_mark : has_part (codes "&#124;") [] ≡ false
unfolding has_part starts_with
no_mark = refl

starts_numbered : (s : Text) → starts_with (codes "S") (83 ∷ s) ≡ true
unfolding starts_with
starts_numbered s = refl

module _ (formats : Formats) (numbers : Numbers formats) where
  new_row-IsClean :
      (today idea : Text) (board : List Row)
      → Plain today
      → Escapable idea
      → IsClean (new_row formats today idea board)
  new_row-IsClean today idea board (a, b) (c, d) =
      let n = max_number formats board + 1 in
      let e = next_id-numbered formats numbers board in
      record {
        starts_s = rw e (starts_numbered (formats.padded n));
        id_line = rw e (numbered-IsLine formats numbers n);
        id_bar = rw e (numbered_bar formats numbers n);
        status_line = pending-IsLine;
        status_bar = refl;
        idea_line = c;
        idea_mark = d;
        date_line = a;
        date_bar = b;
        agent_line = empty-IsLine;
        agent_bar = refl;
        result_line = empty-IsLine;
        result_mark = no_mark;
      }

  -- A list of texts none of which is `x`.
  apart :
      (x : Text) (xs : List Text)
      → contains x xs ≡ false
      → All (λ y. contains y (x ∷ []) ≡ false) xs
  apart x [] h = tt
  apart x (y ∷ xs) h =
      (ground (arith, h, same_iff x y, same_iff y x), apart x xs (ground (arith, h)))

  add-Shows :
      (today idea asset : Text) (q : TaskQueue) (board : List Row)
      → Allowed (adds today idea asset)
      → Shows q board
      → Shows (add formats today idea asset q).1 (board ++ new_row formats today idea board ∷ [])
  unfolding add write_queue
  add-Shows today idea asset q board (a, b) h = record {
    table = rw (map-append, rows-read_queue q board h) refl;
    clean = All-append IsClean board _ h.clean (new_row-IsClean today idea board a b, tt);
    distinct = rw map-append (
        Distinct-append (ids board) (next_id formats board ∷ []) h.distinct (refl, tt)
          (apart (next_id formats board) (ids board) (next_id-absent formats numbers board)));
  }

  -- Each operation with allowed texts changes the files as it changes the board: the table still holds
  -- the rows of the board, which are clean and have different ids.
  pub step-Shows :
      (q : TaskQueue) (board : List Row) (op : Op)
      → Allowed op
      → Shows q board
      → Shows (on_files formats q op) (on_board formats board op)
  unfolding claim complete reject
  step-Shows q board (adds today idea asset) a h = add-Shows today idea asset q board a h
  step-Shows q board (claims id agent) a h =
      saved-Shows id (codes "pending") (claimed agent) (codes "claim") q board (claimed-id agent)
        (claimed-IsClean agent a) h
  step-Shows q board (completes id path) a h =
      saved-Shows id (codes "testing") (finished (codes "validated") path) (codes "complete") q
        board (finished-id (codes "validated") path)
        (finished-IsClean (codes "validated") path (validated-IsLine, refl) a) h
  step-Shows q board (rejects id path) a h =
      saved-Shows id (codes "testing") (finished (codes "rejected") path) (codes "reject") q board
        (finished-id (codes "rejected") path)
        (finished-IsClean (codes "rejected") path (rejected-IsLine, refl) a) h
