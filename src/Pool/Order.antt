-- ===== src/Pool/Order.antt =====
-- The slots stay ordered by priority, cheapest first.
use serac.Common.{◌∷◌, [], List, arith, All}
use serac.Common.Int.{◌≤ℤ◌}
use serac.Pool.{ProviderSlot, insert_slot}

module _ {ℓ} {P C : Type ℓ} where
  -- Priorities do not fall along the list.
  abbrev pub IsSorted : List (ProviderSlot P C) → Type 0
  IsSorted [] = Unit
  IsSorted (s ∷ rest) = All (λ t. s.priority ≤ℤ t.priority) rest × IsSorted rest

  All-mono :
      (s t : ProviderSlot P C) (rest : List (ProviderSlot P C))
      → s.priority ≤ℤ t.priority
      → All (λ u. t.priority ≤ℤ u.priority) rest
      → All (λ u. s.priority ≤ℤ u.priority) rest
  All-mono s t [] h a = tt
  All-mono s t (u ∷ rest) h a = (omega arith, All-mono s t rest h a.1)

  insert-All :
      (s slot : ProviderSlot P C) (rest : List (ProviderSlot P C))
      → s.priority ≤ℤ slot.priority
      → All (λ u. s.priority ≤ℤ u.priority) rest
      → All (λ u. s.priority ≤ℤ u.priority) (insert_slot slot rest)
  unfolding insert_slot
  insert-All s slot [] h a = (h, tt)
  insert-All s slot (u ∷ rest) h a = ground (arith, insert-All s slot rest h a.1)

  pub insert-IsSorted :
      (slot : ProviderSlot P C) (slots : List (ProviderSlot P C))
      → IsSorted slots
      → IsSorted (insert_slot slot slots)
  unfolding insert_slot
  insert-IsSorted slot [] h = (tt, tt)
  insert-IsSorted slot (t ∷ rest) h =
      ground (arith, insert-IsSorted slot rest h.1, All-mono slot t rest, insert-All t slot rest)
