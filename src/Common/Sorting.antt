-- ===== src/Common/Sorting.antt =====
-- Python's sorted: stable, by a test that says whether one element may stand before another.
use Prim.Native.Nat.{ℕ, zero, suc}
use mathlib.Core.Path.{◌≡◌, refl, ap, ◌∙◌}
use mathlib.Core.Bool.{Bool, true, false, ◌||◌}
use mathlib.Core.Logic.{inl, inr}
use mathlib.Core.List.{List, [], ◌∷◌, map}
use native.Mathlib.Omega.{arith}
use serac.Common.Tests.{Key, ◌==◌, same_iff, if◌then◌else◌, Bool-cases}
use serac.Common.Lists.{length, keep, take, drop, All}
use serac.Common.Members.{contains, Distinct}

module _ {ℓ} {A : Type ℓ} where
  unfoldable pub insert_by : (A → A → Bool) → A → List A → List A
  insert_by before x [] = x ∷ []
  insert_by before x (y ∷ ys) = if before x y then x ∷ y ∷ ys else y ∷ insert_by before x ys

  unfoldable pub sorted : (A → A → Bool) → List A → List A
  sorted before [] = []
  sorted before (x ∷ xs) = insert_by before x (sorted before xs)

  -- Each element may stand before all that follow.
  abbrev pub IsSorted : (A → A → Bool) → List A → Type ℓ
  IsSorted before [] = Unit
  IsSorted before (x ∷ xs) = All (λ y. before x y ≡ true) xs × IsSorted before xs

  module _ (before : A → A → Bool) where
    pub length-insert :
        (p : A → Bool) (x : A) (xs : List A)
        → length (keep p (insert_by before x xs)) ≡ length (keep p (x ∷ xs))
    unfolding insert_by
    length-insert p x [] = refl
    length-insert p x (y ∷ ys) = ground (arith, length-insert p x ys)

    pub length-keep-sorted :
        (p : A → Bool) (xs : List A) → length (keep p (sorted before xs)) ≡ length (keep p xs)
    unfolding sorted
    length-keep-sorted p [] = refl
    length-keep-sorted p (x ∷ xs) =
        ground (arith, length-insert p x (sorted before xs), length-keep-sorted p xs)

    length-insert_by : (x : A) (xs : List A) → length (insert_by before x xs) ≡ suc (length xs)
    unfolding insert_by
    length-insert_by x [] = refl
    length-insert_by x (y ∷ ys) = ground (arith, length-insert_by x ys)

    pub length-sorted : (xs : List A) → length (sorted before xs) ≡ length xs
    unfolding sorted
    length-sorted [] = refl
    length-sorted (x ∷ xs) = length-insert_by x (sorted before xs) ∙ ap suc (length-sorted xs)

    All-drop {κ} : (P : A → Type κ) (n : ℕ) (xs : List A) → All P xs → All P (drop n xs)
    All-drop P zero xs h = h
    All-drop P (suc n) [] h = tt
    All-drop P (suc n) (x ∷ xs) h = All-drop P n xs h.1

    -- What a slice takes from the front of a sorted list may stand before what it leaves.
    pub take-IsSorted :
        (n : ℕ) (xs : List A)
        → IsSorted before xs
        → All (λ x. All (λ y. before x y ≡ true) (drop n xs)) (take n xs)
    take-IsSorted zero xs h = tt
    take-IsSorted (suc n) [] h = tt
    take-IsSorted (suc n) (x ∷ xs) (a, h) =
        (All-drop (λ y. before x y ≡ true) n xs a, take-IsSorted n xs h)

    All-insert {κ} :
        (P : A → Type κ) (x : A) (xs : List A) → P x → All P xs → All P (insert_by before x xs)
    unfolding insert_by
    All-insert P x [] h k = (h, tt)
    All-insert P x (y ∷ ys) h k = elim (Bool-cases (before x y)) [
      | inl e ↦ rw e (h, k)
      | inr e ↦ rw e (k.0, All-insert P x ys h k.1)
    ]

    pub All-sorted {κ} : (P : A → Type κ) (xs : List A) → All P xs → All P (sorted before xs)
    unfolding sorted
    All-sorted P [] h = tt
    All-sorted P (x ∷ xs) (h, k) = All-insert P x (sorted before xs) h (All-sorted P xs k)

    All-of_insert {κ} :
        (P : A → Type κ) (x : A) (xs : List A) → All P (insert_by before x xs) → P x × All P xs
    unfolding insert_by
    All-of_insert P x [] h = h
    All-of_insert P x (y ∷ ys) h = elim (Bool-cases (before x y)) [
      | inl e ↦ rw e at h
      | inr e ↦ let h' = rw e at h in let (k, rest) = All-of_insert P x ys h'.1 in (k, (h'.0, rest))
    ]

    pub All-of_sorted {κ} : (P : A → Type κ) (xs : List A) → All P (sorted before xs) → All P xs
    unfolding sorted
    All-of_sorted P [] h = tt
    All-of_sorted P (x ∷ xs) h =
        let (k, rest) = All-of_insert P x (sorted before xs) h in (k, All-of_sorted P xs rest)

    module _ {κ} {K : Type κ} ⦃key : Key K⦄ (f : A → K) where
      contains-insert :
          (k : K) (x : A) (xs : List A)
          → contains k (map f (insert_by before x xs)) ≡ (f x == k || contains k (map f xs))
      unfolding insert_by
      contains-insert k x [] = refl
      contains-insert k x (y ∷ ys) = ground (arith, contains-insert k x ys)

      pub contains-sorted :
          (k : K) (xs : List A) → contains k (map f (sorted before xs)) ≡ contains k (map f xs)
      unfolding sorted
      contains-sorted k [] = refl
      contains-sorted k (x ∷ xs) =
          ground (arith, contains-insert k x (sorted before xs), contains-sorted k xs)

      Distinct-insert :
          (x : A) (xs : List A)
          → contains (f x) (map f xs) ≡ false
          → Distinct (map f xs)
          → Distinct (map f (insert_by before x xs))
      unfolding insert_by
      Distinct-insert x [] h d = (refl, tt)
      Distinct-insert x (y ∷ ys) h d = elim (Bool-cases (before x y)) [
        | inl e ↦ rw e (h, d)
        | inr e ↦ rw e (
          rw (contains-insert (f y) x ys)
              (ground (arith, h, d.0, same_iff (f x) (f y), same_iff (f y) (f x))),
          Distinct-insert x ys (ground (arith, h)) d.1,
        )
      ]

      pub Distinct-sorted :
          (xs : List A) → Distinct (map f xs) → Distinct (map f (sorted before xs))
      unfolding sorted
      Distinct-sorted [] d = tt
      Distinct-sorted (x ∷ xs) (h, d) =
          Distinct-insert x (sorted before xs) (contains-sorted (f x) xs ∙ h) (Distinct-sorted xs d)

    module _ (total : (x y : A) → before x y ≡ false → before y x ≡ true)
        (trans : (x y z : A) → before x y ≡ true → before y z ≡ true → before x z ≡ true) where
      All-before :
          (x y : A) (xs : List A)
          → before x y ≡ true
          → All (λ z. before y z ≡ true) xs
          → All (λ z. before x z ≡ true) xs
      All-before x y [] h a = tt
      All-before x y (z ∷ xs) h (e, a) = (trans x y z h e, All-before x y xs h a)

      IsSorted-insert :
          (x : A) (xs : List A) → IsSorted before xs → IsSorted before (insert_by before x xs)
      unfolding insert_by
      IsSorted-insert x [] h = (tt, tt)
      IsSorted-insert x (y ∷ ys) (a, h) = elim (Bool-cases (before x y)) [
        | inl e ↦ rw e ((e, All-before x y ys e a), (a, h))
        | inr e ↦
            rw e (All-insert (λ z. before y z ≡ true) x ys (total x y e) a, IsSorted-insert x ys h)
      ]

      pub sorted-IsSorted : (xs : List A) → IsSorted before (sorted before xs)
      unfolding sorted
      sorted-IsSorted [] = tt
      sorted-IsSorted (x ∷ xs) = IsSorted-insert x (sorted before xs) (sorted-IsSorted xs)
