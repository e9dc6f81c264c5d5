-- ===== src/Queue/Fresh.antt =====
-- The ids that agent_framework/sandbox/task_queue.py gives to new tasks.
use serac.Common.{
  ℕ, ◌+◌, ◌<◌, ◌≡◌, true, false, refl, sym, ap, List, [], ◌∷◌, nat_key, arith, Bool-cases, inl, inr,
  contains, ◌==◌, same_iff, All, All-map, drop,
}
use serac.Common.Dict.{or_else}
use serac.Common.Chars.{Text, codes_key, Without, is_space, strip, rstrip, lstrip}
use serac.Queue.Table.{Row}
use serac.Queue.RoundTrip.{IsLine}
use serac.Queue.Board.{is_digit, Numbers}
use serac.Queue.Refine.{ids}
use serac.Queue.{Formats, max_number, next_id}

abbrev Visible : ℕ → Type 0
Visible c = (is_space c ≡ false)

rstrip-Visible : (s : Text) → All Visible s → rstrip s ≡ s
unfolding rstrip
rstrip-Visible [] h = refl
rstrip-Visible (c ∷ s) (v, h) = rw (v, rstrip-Visible s h) refl

lstrip-Visible : (s : Text) → All Visible s → lstrip s ≡ s
unfolding lstrip
lstrip-Visible [] h = refl
lstrip-Visible (c ∷ s) (v, h) = rw v refl

strip-Visible : (s : Text) → All Visible s → strip s ≡ s
unfolding strip
strip-Visible s h = rw (rstrip-Visible s h) (lstrip-Visible s h)

digit-Visible : (c : ℕ) → is_digit c ≡ true → Visible c
digit-Visible c h = ground (arith, h)

digits-Without :
    (d : ℕ) (s : Text) → is_digit d ≡ false → All (λ c. is_digit c ≡ true) s → Without d s
digits-Without d [] e h = refl
digits-Without d (c ∷ s) e (v, h) = ground (arith, e, v, digits-Without d s e h)

module _ (formats : Formats) (numbers : Numbers formats) where
  -- "S" and a number.
  abbrev pub numbered : ℕ → Text
  numbered n = 83 ∷ formats.padded n

  pub numbered-IsLine : (n : ℕ) → IsLine (numbered n)
  numbered-IsLine n = record {
    stripped =
        strip-Visible (numbered n)
          (refl, All-map digit-Visible (formats.padded n) (numbers.digits n));
    no_newline = digits-Without 10 (formats.padded n) refl (numbers.digits n);
    no_return = digits-Without 13 (formats.padded n) refl (numbers.digits n);
  }

  pub numbered_bar : (n : ℕ) → Without 124 (numbered n)
  numbered_bar n = digits-Without 124 (formats.padded n) refl (numbers.digits n)

  pub next_id-numbered :
      (board : List Row) → next_id formats board ≡ numbered (max_number formats board + 1)
  unfolding next_id max_number
  next_id-numbered [] = ap (λ s. 83 ∷ s) (sym numbers.one)
  next_id-numbered (r ∷ board) = refl

  -- A number above all that are used is no row's.
  number-absent :
      (n : ℕ) (board : List Row)
      → max_number formats board < n
      → contains (numbered n) (ids board) ≡ false
  unfolding max_number
  number-absent n [] h = refl
  number-absent n (r ∷ board) h = elim (Bool-cases (r.id == numbered n)) [
    | inl e ↦ absurd (
        too_large
          (ap (λ s. or_else (formats.int_of (drop 1 s)) 0) ((same_iff r.id (numbered n)).0 e)))
    | inr e ↦ rw e (number-absent n board (ground (arith, h)))
  ]
    where
      too_large : ¬ (
          or_else (formats.int_of (drop 1 r.id)) 0 ≡ or_else (formats.int_of (formats.padded n)) 0)
      too_large e = ground (arith, rw (numbers.reads_back n) at e, h)

  -- No row has the id of the next task.
  pub next_id-absent : (board : List Row) → contains (next_id formats board) (ids board) ≡ false
  next_id-absent board =
      rw (next_id-numbered board) (number-absent (max_number formats board + 1) board (omega arith))
