-- ===== src/Common/Members.antt =====
-- Python's `x in xs` on lists, and lists without repeats.
use mathlib.Core.Path.{◌≡◌, refl}
use mathlib.Core.Bool.{Bool, true, false, ◌||◌, ◌&&◌}
use mathlib.Core.List.{List, [], ◌∷◌, ◌++◌}
use native.Mathlib.Omega.{arith}
use serac.Common.Tests.{Key, ◌==◌, same_iff, same_refl}
use serac.Common.Lists.{keep, All}

module _ {ℓ} {K : Type ℓ} ⦃key : Key K⦄ where
  abbrev pub contains : K → List K → Bool
  contains x [] = false
  contains x (y ∷ ys) = y == x || contains x ys

  -- No key twice.
  abbrev pub Distinct : List K → Type 0
  Distinct [] = Unit
  Distinct (x ∷ xs) = (contains x xs ≡ false) × Distinct xs

  pub contains-append :
      (x : K) (xs ys : List K) → contains x (xs ++ ys) ≡ (contains x xs || contains x ys)
  contains-append x [] ys = refl
  contains-append x (y ∷ xs) ys = ground (arith, contains-append x xs ys)

  pub contains-keep :
      (p : K → Bool) (x : K) (xs : List K) → contains x (keep p xs) ≡ (p x && contains x xs)
  contains-keep p x [] = ground arith
  contains-keep p x (y ∷ xs) = ground (arith, contains-keep p x xs, same_iff y x)

  pub Distinct-keep : (p : K → Bool) (xs : List K) → Distinct xs → Distinct (keep p xs)
  Distinct-keep p [] d = tt
  Distinct-keep p (x ∷ xs) d = ground (arith, Distinct-keep p xs d.1, contains-keep p x xs)

  pub Distinct-append :
      (xs ys : List K)
      → Distinct xs
      → Distinct ys
      → All (λ x. contains x ys ≡ false) xs
      → Distinct (xs ++ ys)
  Distinct-append [] ys d e a = e
  Distinct-append (x ∷ xs) ys d e a =
      (ground (arith, contains-append x xs ys), Distinct-append xs ys d.1 e a.1)

  pub All-contains : (xs : List K) → All (λ x. contains x xs ≡ true) xs
  All-contains xs = within xs xs (λ x h. h)
    where
      within :
          (ys xs : List K)
          → ((x : K) → contains x ys ≡ true → contains x xs ≡ true)
          → All (λ x. contains x xs ≡ true) ys
      within [] xs h = tt
      within (y ∷ ys) xs h =
          (h y (ground (arith, same_refl y)), within ys xs (λ x k. h x (ground arith)))
