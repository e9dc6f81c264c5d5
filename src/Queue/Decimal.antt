-- ===== src/Queue/Decimal.antt =====
-- Decimal numbers, which show that int() and the format 03d of agent_framework/sandbox/task_queue.py
-- can be as they are documented.
use serac.Common.{
  ℕ, zero, suc, ◌≡◌, ◌<◌, ◌+◌, ◌-◌, ◌*◌, ◌/◌, ◌%◌, refl, arith, Option, none, some, [], ◌∷◌, ◌++◌,
  All, All-append, if◌then◌else◌, ltb, true, Bool-cases, inl, inr, ap, ◌∙◌,
}
use serac.Common.Chars.{Text}
use serac.Queue.{Formats}
use serac.Queue.Board.{is_digit, Numbers}

-- The number of the digits behind the number n.
unfoldable pub read_from : ℕ → Text → Option ℕ
read_from n [] = some n
read_from n (c ∷ s) =
    let rest = read_from (n * 10 + (c - 48)) s in if is_digit c then rest else none

unfoldable pub number_of : Text → Option ℕ
number_of [] = none
number_of (c ∷ s) = read_from 0 (c ∷ s)

-- The digits of n, for n < 10 ^ (suc places).
unfoldable pub printed : ℕ → ℕ → Text
printed zero n = (48 + n) ∷ []
printed (suc places) n =
    let front = printed places (n / 10) in
    if ltb n 10 then (48 + n) ∷ [] else front ++ (48 + n % 10) ∷ []

-- f"{n:03d}"
unfoldable pub three_digits : ℕ → Text
three_digits n =
    if ltb n 10
    then 48 ∷ 48 ∷ printed n n
    else (if ltb n 100 then 48 ∷ printed n n else printed n n)

read_from-append :
    (n m d : ℕ) (s : Text)
    → d < 10
    → read_from n s ≡ some m
    → read_from n (s ++ (48 + d) ∷ []) ≡ some (m * 10 + d)
unfolding read_from
read_from-append n m d [] h e = ground (arith, h, e)
read_from-append n m d (c ∷ s) h e =
    let rest = read_from-append (n * 10 + (c - 48)) m d s h in ground (arith, rest, e)

is_short : (places n : ℕ) → n < 10 + suc places → n / 10 < 10 + places
is_short places n h = omega arith

read_digit : (n : ℕ) → n < 10 → read_from 0 ((48 + n) ∷ []) ≡ some n
unfolding read_from
read_digit n h = ground (arith, h)

read-printed : (places n : ℕ) → n < 10 + places → read_from 0 (printed places n) ≡ some n
unfolding printed
read-printed zero n h = read_digit n h
read-printed (suc places) n h = elim (Bool-cases (ltb n 10)) [
  | inl e ↦ rw e (read_digit n (ground (arith, e)))
  | inr e ↦ rw e (
      read_from-append 0 (n / 10) (n % 10) (printed places (n / 10)) (omega arith)
        (read-printed places (n / 10) (is_short places n h))
      ∙ ap some (omega arith))
]

number-append : (s : Text) (d : ℕ) → number_of (s ++ d ∷ []) ≡ read_from 0 (s ++ d ∷ [])
unfolding number_of
number-append [] d = refl
number-append (c ∷ s) d = refl

number-printed : (places n : ℕ) → number_of (printed places n) ≡ read_from 0 (printed places n)
unfolding printed
number-printed zero n = number-append [] (48 + n)
number-printed (suc places) n = elim (Bool-cases (ltb n 10)) [
  | inl e ↦ rw e (number-append [] (48 + n))
  | inr e ↦ rw e (number-append (printed places (n / 10)) (48 + n % 10))
]

one_digit : (n : ℕ) → n < 10 → is_digit (48 + n) ≡ true
one_digit n h = ground (arith, h)

printed-digits : (places n : ℕ) → n < 10 + places → All (λ c. is_digit c ≡ true) (printed places n)
unfolding printed
printed-digits zero n h = (one_digit n h, tt)
printed-digits (suc places) n h = elim (Bool-cases (ltb n 10)) [
  | inl e ↦ rw e (one_digit n (ground (arith, e)), tt)
  | inr e ↦ rw e (
      All-append (λ c. is_digit c ≡ true) (printed places (n / 10)) _
        (printed-digits places (n / 10) (is_short places n h))
        (one_digit (n % 10) (omega arith), tt))
]

abbrev pub decimal : Formats
decimal = record { int_of = number_of; padded = three_digits }

zeros :
    (s : Text) → (number_of (48 ∷ 48 ∷ s) ≡ read_from 0 s) × (number_of (48 ∷ s) ≡ read_from 0 s)
unfolding number_of read_from
zeros s = (refl, refl)

number-three_digits : (n : ℕ) → number_of (three_digits n) ≡ some n
unfolding three_digits
number-three_digits n =
    let back = read-printed n n (omega arith) in
    ground (arith, zeros (printed n n), number-printed n n, back)

three_digits-digits : (n : ℕ) → All (λ c. is_digit c ≡ true) (three_digits n)
unfolding three_digits
three_digits-digits n = elim (Bool-cases (ltb n 10)) [
  | inl e ↦ rw e (refl, (refl, there))
  | inr e ↦ elim (Bool-cases (ltb n 100)) [
    | inl k ↦ rw (e, k) (refl, there)
    | inr k ↦ rw (e, k) there
  ]
]
  where
    there : All (λ c. is_digit c ≡ true) (printed n n)
    there = printed-digits n n (omega arith)

pub decimal-Numbers : Numbers decimal
unfolding three_digits printed
decimal-Numbers = record {
  reads_back = number-three_digits;
  digits = three_digits-digits;
  one = refl;
}
