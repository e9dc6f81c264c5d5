-- ===== src/Security/Markers.antt =====
-- What the boundary markers of agent_framework/tool_security.py do.
use serac.Common.{
  ℕ, Bool, false, ◌≡◌, ◌≢◌, ◌+◌, ◌-◌, refl, sym, ap, ap₂, ◌∙◌, true, false, some, List, [], ◌∷◌,
  ◌++◌, append_assoc, not, keep, take, drop, length, length-append, All, All-map, All-keep,
  keep_everything, nat_key, nat_beq, nat_beq_iff, Bool-cases, inl, inr, arith, ltb,
}
use serac.Common.Chars.{
  Text, strip, rstrip, lstrip, split, split_first, split-append, starts_with, has_part, Without,
}
use serac.Security.{
  find, rfind, ends_with, join_lines, marker_open, marker_close, is_marker, strip_attacker_markers,
  wrap_untrusted, unwrap, between,
}

-- The pieces of a split do not hold the separator.
split_first-Without :
    (sep : ℕ) (s : Text)
    → Without sep (split_first sep s).0 × All (Without sep) (split_first sep s).1
unfolding split_first
split_first-Without sep [] = (refl, tt)
split_first-Without sep (c ∷ s) =
    let (h, k) = split_first-Without sep s in
    elim (Bool-cases (nat_beq c sep)) [
      | inl e ↦ rw e (refl, (h, k))
      | inr e ↦ rw e (rw (e, h) refl, k)
    ]

split-Without : (sep : ℕ) (s : Text) → All (Without sep) (split sep s)
unfolding split
split-Without sep s = split_first-Without sep s

split_first-nothing : (sep : ℕ) (s : Text) → Without sep s → split_first sep s ≡ (s, [])
unfolding split_first
split_first-nothing sep [] h = refl
split_first-nothing sep (c ∷ s) h = let rest = split_first-nothing sep s in ground (arith, rest, h)

split-nothing : (sep : ℕ) (s : Text) → Without sep s → split sep s ≡ s ∷ []
unfolding split
split-nothing sep s h = rw (split_first-nothing sep s h) refl

-- Lines that are put together are found again.
split-join_lines :
    (line : Text) (lines : List Text)
    → All (Without 10) (line ∷ lines)
    → split 10 (join_lines (line ∷ lines)) ≡ line ∷ lines
unfolding join_lines
split-join_lines line [] (h, k) = split-nothing 10 line h
split-join_lines line (next ∷ rest) (h, k) =
    split-append 10 line (join_lines (next ∷ rest)) h
    ∙ ap (λ ls. line ∷ ls) (split-join_lines next rest k)

join_lines-cons :
    (c : ℕ) (line : Text) (lines : List Text)
    → join_lines ((c ∷ line) ∷ lines) ≡ c ∷ join_lines (line ∷ lines)
unfolding join_lines
join_lines-cons c line [] = refl
join_lines-cons c line (next ∷ rest) = refl

join_one : (line : Text) → join_lines (line ∷ []) ≡ line
unfolding join_lines
join_one line = refl

join_empty :
    (line : Text) (lines : List Text)
    → join_lines ([] ∷ line ∷ lines) ≡ 10 ∷ join_lines (line ∷ lines)
unfolding join_lines
join_empty line lines = refl

join_lines-split_first : (s : Text) → join_lines ((split_first 10 s).0 ∷ (split_first 10 s).1) ≡ s
unfolding split_first
join_lines-split_first [] = join_one []
join_lines-split_first (c ∷ s) = elim (Bool-cases (nat_beq c 10)) [
  | inl e ↦ rw e (
      join_empty _ _
      ∙ ap₂ (λ x xs. x ∷ xs) (sym ((nat_beq_iff c 10).0 e)) (join_lines-split_first s))
  | inr e ↦ rw e (join_lines-cons c _ _ ∙ ap (λ xs. c ∷ xs) (join_lines-split_first s))
]

join_lines-split : (s : Text) → join_lines (split 10 s) ≡ s
unfolding split
join_lines-split s = join_lines-split_first s

no_lines : split 10 (join_lines []) ≡ [] ∷ []
unfolding join_lines split split_first
no_lines = refl

empty_line : (upper : Text → Text) → is_marker upper [] ≡ false
unfolding is_marker strip rstrip lstrip starts_with
empty_line upper = refl

module _ (upper : Text → Text) where
  cleans :
      (text : Text)
      → strip_attacker_markers upper text
        ≡ join_lines (keep (λ l. not (is_marker upper l)) (split 10 text))
  unfolding strip_attacker_markers
  cleans text = refl

  All-kept :
      (lines : List Text)
      → All (λ l. is_marker upper l ≡ false) (keep (λ l. not (is_marker upper l)) lines)
  All-kept [] = tt
  All-kept (l ∷ lines) = elim (Bool-cases (is_marker upper l)) [
    | inl e ↦ rw e (All-kept lines)
    | inr e ↦ rw e (e, All-kept lines)
  ]

  -- No line of what is put between the markers is like a marker.
  strip_attacker_markers-is_marker :
      (text : Text)
      → All (λ line. is_marker upper line ≡ false) (split 10 (strip_attacker_markers upper text))
  unfolding strip_attacker_markers
  strip_attacker_markers-is_marker text =
      without (keep (λ l. not (is_marker upper l)) (split 10 text)) (All-kept (split 10 text))
        (All-keep (Without 10) _ (split 10 text) (split-Without 10 text))
    where
      without :
          (lines : List Text)
          → All (λ l. is_marker upper l ≡ false) lines
          → All (Without 10) lines
          → All (λ l. is_marker upper l ≡ false) (split 10 (join_lines lines))
      without [] a w = rw no_lines (empty_line upper, tt)
      without (l ∷ lines) a w = rw (split-join_lines l lines w) a

  open-is_marker :
      (line : Text)
      → strip line ≡ marker_open
      → upper marker_open ≡ marker_open
      → is_marker upper line ≡ true
  unfolding is_marker starts_with ends_with has_part
  open-is_marker line e u = rw (e, u) refl

  close-is_marker :
      (line : Text)
      → strip line ≡ marker_close
      → upper marker_close ≡ marker_close
      → is_marker upper line ≡ true
  unfolding is_marker starts_with ends_with has_part
  close-is_marker line e u = rw (e, u) refl

  -- No line of what is put between the markers is one of the markers, with or without blanks around it;
  -- for a str.upper that leaves the two markers, which have no lower-case letter, as they are.
  pub strip_attacker_markers_lines :
      upper marker_open ≡ marker_open
      → upper marker_close ≡ marker_close
      → (text : Text)
      → All
          (λ line. (strip line ≢ marker_open) × (strip line ≢ marker_close))
          (split 10 (strip_attacker_markers upper text))
  strip_attacker_markers_lines u v text =
      All-map
        (λ line h.
          (λ e. differ (open-is_marker line e u) h, λ e. differ (close-is_marker line e v) h))
        (split 10 (strip_attacker_markers upper text)) (strip_attacker_markers-is_marker text)
    where
      differ : {b : Bool} → b ≡ true → b ≡ false → ⊥
      differ e f = ground (arith, e, f)

  -- What was cleaned once is not changed by cleaning it again.
  pub strip_attacker_markers_twice :
      (text : Text)
      → strip_attacker_markers upper (strip_attacker_markers upper text)
        ≡ strip_attacker_markers upper text
  strip_attacker_markers_twice text =
      again
      ∙ ap join_lines (
          keep_everything _ (split 10 cleaned) (
            All-map (λ l e. ground (arith, e)) (split 10 cleaned)
              (strip_attacker_markers-is_marker text)))
      ∙ join_lines-split cleaned
    where
      cleaned : Text
      cleaned = strip_attacker_markers upper text

      again :
          strip_attacker_markers upper cleaned
          ≡ join_lines (keep (λ l. not (is_marker upper l)) (split 10 cleaned))
      again = cleans cleaned

-- A part at the end is the last one.
rfind-append : (p s : Text) → rfind p p ≡ some 0 → rfind p (s ++ p) ≡ some (length s)
unfolding rfind
rfind-append p [] h = h
rfind-append p (c ∷ s) h = rw (rfind-append p s h) refl

drop-append : (xs ys : Text) → drop (length xs) (xs ++ ys) ≡ ys
drop-append [] ys = refl
drop-append (x ∷ xs) ys = drop-append xs ys

pub take-append : (xs ys : Text) → take (length xs) (xs ++ ys) ≡ xs
take-append [] ys = refl
take-append (x ∷ xs) ys = ap (λ zs. x ∷ zs) (take-append xs ys)

rstrip-newline : (s : Text) → rstrip (s ++ 10 ∷ []) ≡ rstrip s
unfolding rstrip
rstrip-newline [] = refl
rstrip-newline (c ∷ s) = rw (rstrip-newline s) refl

close_found : rfind marker_close marker_close ≡ some 0
unfolding rfind starts_with
close_found = refl

open_found :
    (s : Text)
    → (find marker_open (marker_open ++ s) ≡ some 0)
      × (has_part marker_open (marker_open ++ s) ≡ true)
unfolding find has_part starts_with
open_found s = (refl, refl)

pub strip-newline : (s : Text) → strip (s ++ 10 ∷ []) ≡ strip s
unfolding strip
strip-newline s = ap lstrip (rstrip-newline s)

slice :
    (start end : ℕ) (front inner rest : Text)
    → length front ≡ start
    → length front + length inner ≡ end
    → take (end - start) (drop start (front ++ (inner ++ rest))) ≡ inner
slice start end front inner rest h k =
    ap₂ (λ m n. take m (drop n (front ++ (inner ++ rest)))) (omega (arith, h, k)) (sym h)
    ∙ ap (λ s. take (length inner) s) (drop-append front (inner ++ rest))
    ∙ take-append inner rest

-- Between two markers on lines of their own, the second of which is found last.
framed :
    (o c inner : Text)
    → rfind c c ≡ some 0
    → between (length o + 1) (rfind c (o ++ 10 ∷ (inner ++ 10 ∷ c))) (o ++ 10 ∷ (inner ++ 10 ∷ c))
      ≡ strip inner
framed o c inner h =
    rw (whole, rfind-append c (front ++ back) h)
      (rw
        (
          in_order,
          append_assoc front back c,
          slice (length o + 1) (length (front ++ back)) front back c front_length
              (sym (length-append front back)),
        )
        (strip-newline inner))
  where
    front : Text
    front = o ++ 10 ∷ []

    back : Text
    back = inner ++ 10 ∷ []

    front_length : length front ≡ length o + 1
    front_length = length-append o (10 ∷ [])

    whole : o ++ 10 ∷ (inner ++ 10 ∷ c) ≡ (front ++ back) ++ c
    whole = sym (
        append_assoc front back c
        ∙ append_assoc o (10 ∷ []) (back ++ c)
        ∙ ap (λ s. o ++ 10 ∷ s) (append_assoc inner (10 ∷ []) c))

    in_order : ltb (length o + 1) (length (front ++ back)) ≡ true
    in_order = ground (arith, front_length, length-append front back, length-append inner (10 ∷ []))

unwrap_marked :
    (inner : Text) → unwrap (marker_open ++ 10 ∷ (inner ++ 10 ∷ marker_close)) ≡ strip inner
unfolding unwrap
unwrap_marked inner =
    rw
      (
        (open_found (10 ∷ (inner ++ 10 ∷ marker_close))).0,
        (open_found (10 ∷ (inner ++ 10 ∷ marker_close))).1,
      )
      (framed marker_open marker_close inner close_found)

module _ (upper : Text → Text) where
  -- Unwrapping what was wrapped gives the cleaned text, without the spaces at its ends.
  pub unwrap-wrap_untrusted :
      (text : Text) → unwrap (wrap_untrusted upper text) ≡ strip (strip_attacker_markers upper text)
  unfolding wrap_untrusted
  unwrap-wrap_untrusted text = unwrap_marked (strip_attacker_markers upper text)
