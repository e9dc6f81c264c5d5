-- ===== src/Queue/Cells.antt =====
-- The cells of the table of agent_framework/sandbox/task_queue.py: escaping and padding.
use serac.Common.{
  ℕ, ◌≡◌, true, false, refl, sym, [], ◌∷◌, ◌++◌, ◌&&◌, nat_beq, nat_beq_iff, nat_key, arith,
  Bool-cases, inl, inr, contains-append,
}
use serac.Common.Chars.{
  Text, codes, Without, is_space, is_empty, strip, lstrip, rstrip, starts_with, has_part, replace,
  replace_from,
}
use serac.Queue.Table.{escape_cell, unescape_cell}

abbrev mark : Text
mark = codes "&#124;"

escape_bar : (s : Text) → escape_cell (124 ∷ s) ≡ mark ++ escape_cell s
unfolding escape_cell replace replace_from starts_with
escape_bar s = refl

escape_other : (c : ℕ) (s : Text) → nat_beq c 124 ≡ false → escape_cell (c ∷ s) ≡ c ∷ escape_cell s
unfolding escape_cell replace replace_from starts_with
escape_other c s h = ground (arith, h)

not_bar :
    (p : ℕ) (ps s : Text)
    → Without 38 (p ∷ ps)
    → starts_with (p ∷ ps) (escape_cell (124 ∷ s)) ≡ false
unfolding starts_with
not_bar p ps s w = rw (escape_bar s) (ground (arith, w))

-- A pattern without "&" that starts an escaped text starts the text.
starts_with-escape :
    (p s : Text) → Without 38 p → starts_with p (escape_cell s) ≡ true → starts_with p s ≡ true
unfolding starts_with escape_cell replace replace_from
starts_with-escape [] s w h = refl
starts_with-escape (p ∷ ps) [] w h = h
starts_with-escape (p ∷ ps) (c ∷ s) w h = elim (Bool-cases (nat_beq c 124)) [
  | inl e ↦ absurd (false_here (rw ((nat_beq_iff c 124).0 e) at h))
  | inr e ↦
      let later = starts_with-escape ps s in ground (arith, rw (escape_other c s e) at h, later)
]
  where
    false_here : ¬ (starts_with (p ∷ ps) (escape_cell (124 ∷ s)) ≡ true)
    false_here g = ground (arith, g, not_bar p ps s w)

unescape-mark : (s : Text) → unescape_cell (mark ++ s) ≡ 124 ∷ unescape_cell s
unfolding unescape_cell replace replace_from starts_with
unescape-mark s = refl

unescape_other :
    (c : ℕ) (s : Text)
    → starts_with mark (c ∷ s) ≡ false
    → unescape_cell (c ∷ s) ≡ c ∷ unescape_cell s
unfolding unescape_cell replace replace_from
unescape_other c s h = rw h refl

escape_empty : escape_cell [] ≡ []
unfolding escape_cell replace replace_from
escape_empty = refl

unescape_empty : unescape_cell (escape_cell []) ≡ []
unfolding unescape_cell escape_cell replace replace_from
unescape_empty = refl

-- A text that does not have the mark itself is read back.
pub unescape-escape : (s : Text) → has_part mark s ≡ false → unescape_cell (escape_cell s) ≡ s
unfolding has_part starts_with
unescape-escape [] h = unescape_empty
unescape-escape (c ∷ s) h =
    let later = unescape-escape s (ground (arith, h)) in
    elim (Bool-cases (nat_beq c 124)) [
      | inl e ↦
          rw ((nat_beq_iff c 124).0 e)
            (rw (escape_bar s, unescape-mark (escape_cell s), later) refl)
      | inr e ↦ rw (escape_other c s e, unescape_other c (escape_cell s) (not_mark e), later) refl
    ]
  where
    not_mark : nat_beq c 124 ≡ false → starts_with mark (c ∷ escape_cell s) ≡ false
    not_mark e = ground (arith, h, starts_with-escape (codes "#124;") s refl)

-- Escaping leaves the ends of a text as they are, for stripping.
is_empty-escape : (s : Text) → is_empty (escape_cell s) ≡ is_empty s
is_empty-escape [] = rw escape_empty refl
is_empty-escape (c ∷ s) = elim (Bool-cases (nat_beq c 124)) [
  | inl e ↦ rw ((nat_beq_iff c 124).0 e) (rw (escape_bar s) refl)
  | inr e ↦ rw (escape_other c s e) refl
]

rstrip-mark : (s : Text) → rstrip (mark ++ s) ≡ mark ++ rstrip s
unfolding rstrip
rstrip-mark s = refl

rstrip-escape : (s : Text) → rstrip (escape_cell s) ≡ escape_cell (rstrip s)
unfolding rstrip
rstrip-escape [] = rw escape_empty refl
rstrip-escape (c ∷ s) = elim (Bool-cases (nat_beq c 124)) [
  | inl e ↦
      rw ((nat_beq_iff c 124).0 e)
        (rw (escape_bar s, rstrip-mark, escape_bar, rstrip-escape s) refl)
  | inr e ↦
      rw (escape_other c s e, rstrip-escape s, is_empty-escape)
        (elim (Bool-cases (is_space c && is_empty (rstrip s))) [
          | inl f ↦ rw f (sym escape_empty)
          | inr f ↦ rw f (sym (escape_other c (rstrip s) e))
        ])
]

lstrip-escape : (s : Text) → lstrip (escape_cell s) ≡ escape_cell (lstrip s)
unfolding lstrip
lstrip-escape [] = rw escape_empty refl
lstrip-escape (c ∷ s) = elim (Bool-cases (nat_beq c 124)) [
  | inl e ↦ rw ((nat_beq_iff c 124).0 e) (rw (escape_bar s) refl)
  | inr e ↦ rw (escape_other c s e) (elim (Bool-cases (is_space c)) [
    | inl f ↦ rw f (lstrip-escape s)
    | inr f ↦ rw f (sym (escape_other c s e))
  ])
]

pub strip-escape : (s : Text) → strip (escape_cell s) ≡ escape_cell (strip s)
unfolding strip
strip-escape s = rw (rstrip-escape s) (lstrip-escape (rstrip s))

pub Without-escape : (d : ℕ) (s : Text) → Without d mark → Without d s → Without d (escape_cell s)
Without-escape d [] w h = rw escape_empty refl
Without-escape d (c ∷ s) w h =
    let later = Without-escape d s w (ground (arith, h)) in
    elim (Bool-cases (nat_beq c 124)) [
      | inl e ↦
          rw ((nat_beq_iff c 124).0 e)
            (rw (escape_bar s, contains-append d mark (escape_cell s), w) later)
      | inr e ↦ rw (escape_other c s e) (ground (arith, h, later))
    ]

pub Without-escape_bar : (s : Text) → Without 124 (escape_cell s)
Without-escape_bar [] = rw escape_empty refl
Without-escape_bar (c ∷ s) =
    let later = Without-escape_bar s in
    elim (Bool-cases (nat_beq c 124)) [
      | inl e ↦
          rw ((nat_beq_iff c 124).0 e)
            (rw (escape_bar s, contains-append 124 mark (escape_cell s)) later)
      | inr e ↦ rw (escape_other c s e) (ground (arith, e, later))
    ]
