-- ===== src/Common/Chars.antt =====
-- Texts that a program walks character by character: lists of code points, with the methods of
-- Python's `str` that the sources call on them.
use Prim.Native.Char.{code}
use Prim.Native.String.{String}
use Prim.Native.Nat.{ℕ, zero, suc, ◌-◌}
use mathlib.Core.Path.{◌≡◌, refl, ap₂}
use mathlib.Core.Logic.{◌↔◌}
use mathlib.Core.Bool.{Bool, true, false, ◌&&◌, ◌||◌}
use mathlib.Core.List.{List, [], ◌∷◌, ◌++◌}
use native.Mathlib.Omega.{arith}
use serac.Common.Tests.{Key, nat_beq, nat_beq_iff, leb, if◌then◌else◌, nat_key}
use serac.Common.Lists.{length}
use serac.Common.Members.{contains}

abbrev pub codes : String → List ℕ
codes String.[] = []
codes (String.◌∷◌ c s) = code c ∷ codes s

abbrev pub Text : Type 0
Text = List ℕ

abbrev pub same_text : Text → Text → Bool
same_text [] [] = true
same_text [] (_ ∷ _) = false
same_text (_ ∷ _) [] = false
same_text (c ∷ s) (d ∷ t) = nat_beq c d && same_text s t

-- str.isspace of one character
abbrev pub is_space : ℕ → Bool
is_space c =
    leb 9 c && leb c 13
    || leb 28 c && leb c 32
    || nat_beq c 133
    || nat_beq c 160
    || nat_beq c 5760
    || leb 8192 c && leb c 8202
    || nat_beq c 8232
    || nat_beq c 8233
    || nat_beq c 8239
    || nat_beq c 8287
    || nat_beq c 12288

-- not s
abbrev pub is_empty : Text → Bool
is_empty [] = true
is_empty (_ ∷ _) = false

unfoldable pub lstrip : Text → Text
lstrip [] = []
lstrip (c ∷ s) = let rest = lstrip s in if is_space c then rest else c ∷ s

unfoldable pub rstrip : Text → Text
rstrip [] = []
rstrip (c ∷ s) = let rest = rstrip s in if is_space c && is_empty rest then [] else c ∷ rest

unfoldable pub strip : Text → Text
strip s = lstrip (rstrip s)

-- s.split(sep), for a separator of one character: the piece before the first, and the others
unfoldable pub split_first : ℕ → Text → Text × List Text
split_first sep [] = ([], [])
split_first sep (c ∷ s) =
    let (piece, others) = split_first sep s in
    if nat_beq c sep then ([], piece ∷ others) else (c ∷ piece, others)

unfoldable pub split : ℕ → Text → List Text
split sep s = let (piece, others) = split_first sep s in piece ∷ others

-- s.startswith(prefix)
unfoldable pub starts_with : Text → Text → Bool
starts_with [] s = true
starts_with (p ∷ ps) [] = false
starts_with (p ∷ ps) (c ∷ s) = nat_beq p c && starts_with ps s

-- part in s
unfoldable pub has_part : Text → Text → Bool
has_part part [] = starts_with part []
has_part part (c ∷ s) = starts_with part (c ∷ s) || has_part part s

-- s.replace(old, new) behind `skip` more characters of an occurrence
unfoldable pub replace_from : ℕ → Text → Text → Text → Text
replace_from skip old new [] = []
replace_from (suc skip) old new (c ∷ s) = replace_from skip old new s
replace_from zero old new (c ∷ s) =
    let found = replace_from (length old - 1) old new s in
    let kept = replace_from zero old new s in
    if starts_with old (c ∷ s) then new ++ found else c ∷ kept

-- s.replace(old, new), for a text `old` that is not empty
unfoldable pub replace : Text → Text → Text → Text
replace old new s = replace_from zero old new s

-- No character of the text is `c`.
abbrev pub Without : ℕ → Text → Type 0
Without c s = contains c s ≡ false

pub same_text_refl : (s : Text) → same_text s s ≡ true
same_text_refl [] = refl
same_text_refl (c ∷ s) = ground (arith, same_text_refl s)

pub split_first-append :
    (sep : ℕ) (s rest : Text)
    → Without sep s
    → split_first sep (s ++ sep ∷ rest) ≡ (s, split sep rest)
unfolding split_first split
split_first-append sep [] rest h = ground (arith, nat_beq_iff sep sep)
split_first-append sep (c ∷ s) rest h =
    let later = split_first-append sep s rest in ground (arith, later)

pub split-append :
    (sep : ℕ) (s rest : Text) → Without sep s → split sep (s ++ sep ∷ rest) ≡ s ∷ split sep rest
unfolding split
split-append sep s rest h = rw (split_first-append sep s rest h) refl

rstrip_space : (s : Text) → rstrip (s ++ 32 ∷ []) ≡ rstrip s
unfolding rstrip
rstrip_space [] = refl
rstrip_space (c ∷ s) = rw (rstrip_space s) refl

-- A cell is printed with a space on either side.
pub strip_padded : (s : Text) → strip (32 ∷ (s ++ 32 ∷ [])) ≡ strip s
unfolding strip rstrip lstrip
strip_padded s = rw (rstrip_space s) (by_rest (rstrip s))
  where
    by_rest : (r : Text) → lstrip (if is_empty r then [] else 32 ∷ r) ≡ lstrip r
    by_rest [] = refl
    by_rest (c ∷ r) = refl

-- Universal newlines, as a text file is read: "\r\n" and "\r" become "\n".
unfoldable pub newlines_from : Bool → Text → Text
newlines_from after_cr [] = []
newlines_from after_cr (c ∷ s) =
    if nat_beq c 13
    then 10 ∷ newlines_from true s
    else (if nat_beq c 10 && after_cr then newlines_from false s else c ∷ newlines_from false s)

pub same_text_iff : (s t : Text) → (same_text s t ≡ true) ↔ (s ≡ t)
same_text_iff s t = (equal s t, λ e. rw e (same_text_refl t))
  where
    equal : (s t : Text) → same_text s t ≡ true → s ≡ t
    equal [] [] h = refl
    equal [] (d ∷ t) h = ground (arith, h)
    equal (c ∷ s) [] h = ground (arith, h)
    equal (c ∷ s) (d ∷ t) h =
        ap₂ (λ x xs. x ∷ xs) (ground (arith, h)) (equal s t (ground (arith, h)))

instance abbrev pub codes_key : Key Text
codes_key = record { test_iff = same_text_iff; test = same_text }
