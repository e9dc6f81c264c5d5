-- ===== src/Pool/Capacity.antt =====
-- Capacity of model_pool.py: the counts of workers that the pool records, and the limits of its slots.
use serac.Common.{
  ◌≡◌, ◌+◌, ◌-◌, ◌≤◌, ◌<◌, ◌↔◌, ◌∷◌, ◌==◌, if◌then◌else◌, [], ℕ, zero, suc, refl, inl, inr, Option,
  none, some, List, arith, ltb, same_iff, Bool-cases, length, ok, err, nat_key, text_key,
}
use serac.Common.Dict
use serac.Common.Dict.{Dict, get-put, or_else}
use serac.Pool.{
  ProviderSlot, PoolRoutingResult, ModelPool, at_capacity, active, zero_counts, insert_slot,
  add_slot, route_from, routed, route, release, capacity_of, total_capacity,
}

pub active-put :
    (i j v : ℕ) (counts : Dict ℕ ℕ)
    → active (Dict.put i v counts) j ≡ (if i == j then v else active counts j)
active-put i j v counts = simp get-put (ground arith)

pub active-zero_counts : (i n j : ℕ) → active (zero_counts i n) j ≡ 0
unfolding zero_counts Dict.get
active-zero_counts i zero j = refl
active-zero_counts i (suc n) j = ground (arith, active-zero_counts (suc i) n j)

module _ {ℓ} {P C : Type ℓ} where
  -- The counts of the slots from index `idx` on are within the limits.
  abbrev pub Within : ℕ → List (ProviderSlot P C) → Dict ℕ ℕ → Type 0
  Within idx [] counts = Unit
  Within idx (s ∷ rest) counts =
      (active counts idx ≤ s.max_concurrent) × Within (suc idx) rest counts

  -- The sum of the counts of the slots from index `idx` on.
  abbrev pub used_from : ℕ → List (ProviderSlot P C) → Dict ℕ ℕ → ℕ
  used_from idx [] counts = 0
  used_from idx (s ∷ rest) counts = active counts idx + used_from (suc idx) rest counts

  abbrev pub IsWithin : ModelPool P C → Type 0
  IsWithin pool = Within 0 pool.slots pool.active_counts

  abbrev pub used : ModelPool P C → ℕ
  used pool = used_from 0 pool.slots pool.active_counts

  -- A write below the range is not seen in it.
  Within-put_below :
      (i v idx : ℕ) (slots : List (ProviderSlot P C)) (counts : Dict ℕ ℕ)
      → i < idx
      → Within idx slots counts
      → Within idx slots (Dict.put i v counts)
  Within-put_below i v idx [] counts h w = tt
  Within-put_below i v idx (s ∷ rest) counts h w = (
    ground (arith, active-put i idx v counts, same_iff i idx),
    Within-put_below i v (suc idx) rest counts (omega arith) w.1,
  )

  used-put_below :
      (i v idx : ℕ) (slots : List (ProviderSlot P C)) (counts : Dict ℕ ℕ)
      → i < idx
      → used_from idx slots (Dict.put i v counts) ≡ used_from idx slots counts
  used-put_below i v idx [] counts h = refl
  used-put_below i v idx (s ∷ rest) counts h = ground (
    arith,
    active-put i idx v counts,
    same_iff i idx,
    used-put_below i v (suc idx) rest counts (omega arith),
  )

  Within-zero : (i n idx : ℕ) (slots : List (ProviderSlot P C)) → Within idx slots (zero_counts i n)
  Within-zero i n idx [] = tt
  Within-zero i n idx (s ∷ rest) =
      (omega (arith, active-zero_counts i n idx), Within-zero i n (suc idx) rest)

  -- A lowered count keeps the bound.
  Within-lower :
      (i v idx : ℕ) (slots : List (ProviderSlot P C)) (counts : Dict ℕ ℕ)
      → v ≤ active counts i
      → Within idx slots counts
      → Within idx slots (Dict.put i v counts)
  Within-lower i v idx [] counts h w = tt
  Within-lower i v idx (s ∷ rest) counts h w = (
    ground (arith, active-put i idx v counts, same_iff i idx),
    Within-lower i v (suc idx) rest counts h w.1,
  )

  -- What the loop of `route` writes.
  pub route_from-put :
      (idx : ℕ) (slots : List (ProviderSlot P C)) (counts : Dict ℕ ℕ) (r : PoolRoutingResult P C)
      (counts' : Dict ℕ ℕ)
      → route_from idx slots counts ≡ some (r, counts')
      → (idx ≤ r.slot_id) × (counts' ≡ Dict.put r.slot_id (active counts r.slot_id + 1) counts)
  unfolding route_from
  route_from-put idx [] counts r counts' e = cc
  route_from-put idx (s ∷ rest) counts r counts' e =
      ground (arith, route_from-put (suc idx) rest counts r counts')

  -- An inversion of the end of `route`.
  pub routed-eq-ok :
      (pool pool' : ModelPool P C) (r : PoolRoutingResult P C)
      (o : Option (PoolRoutingResult P C × Dict ℕ ℕ))
      → routed pool o ≡ ok (r, pool')
      → (o ≡ some (r, pool'.active_counts)) × (pool'.slots ≡ pool.slots)
  unfolding routed
  routed-eq-ok pool pool' r none e = cc
  routed-eq-ok pool pool' r (some x) e = ground arith

  -- What the loop of `route` does to the counts.
  route_from_step :
      (idx : ℕ) (slots : List (ProviderSlot P C)) (counts : Dict ℕ ℕ) (r : PoolRoutingResult P C)
      (counts' : Dict ℕ ℕ)
      → route_from idx slots counts ≡ some (r, counts')
      → Within idx slots counts
      → Within idx slots counts' × (used_from idx slots counts' ≡ used_from idx slots counts + 1)
  unfolding route_from
  route_from_step idx [] counts r counts' e w = cc
  route_from_step idx (s ∷ rest) counts r counts' e w =
      elim (Bool-cases (ltb (active counts idx) s.max_concurrent)) [
        | inl t ↦ ground (
          arith,
          used-put_below idx (active counts idx + 1) (suc idx) rest counts (omega arith),
          Within-put_below idx (active counts idx + 1) (suc idx) rest counts (omega arith) w.1,
          active-put idx idx (active counts idx + 1) counts,
        )
        | inr t ↦ ground (
          arith,
          route_from_step (suc idx) rest counts r counts',
          route_from-put (suc idx) rest counts r counts',
          active-put r.slot_id idx (active counts r.slot_id + 1) counts,
        )
      ]

  used_from-le :
      (idx : ℕ) (slots : List (ProviderSlot P C)) (counts : Dict ℕ ℕ)
      → Within idx slots counts
      → used_from idx slots counts ≤ capacity_of slots
  unfolding capacity_of
  used_from-le idx [] counts w = omega arith
  used_from-le idx (s ∷ rest) counts w = omega (arith, used_from-le (suc idx) rest counts w.1)

  -- The loop of `route` finds no slot exactly when all are full.
  route_from_full :
      (idx : ℕ) (slots : List (ProviderSlot P C)) (counts : Dict ℕ ℕ)
      → Within idx slots counts
      → (route_from idx slots counts ≡ none) ↔ (capacity_of slots ≤ used_from idx slots counts)
  unfolding route_from capacity_of
  route_from_full idx [] counts w = (λ _. omega arith, λ _. refl)
  route_from_full idx (s ∷ rest) counts w =
      ground
        (arith, route_from_full (suc idx) rest counts w.1, used_from-le (suc idx) rest counts w.1)

  one_more :
      (pool pool' : ModelPool P C) (r : PoolRoutingResult P C)
      → route_from 0 pool.slots pool.active_counts ≡ some (r, pool'.active_counts)
      → (j : ℕ)
      → active pool'.active_counts j
        ≡ active pool.active_counts j + (if r.slot_id == j then 1 else 0)
  one_more pool pool' r found j = ground (
    arith,
    route_from-put 0 pool.slots pool.active_counts r pool'.active_counts found,
    active-put r.slot_id j (active pool.active_counts r.slot_id + 1) pool.active_counts,
  )

  -- A successful `route` keeps every slot within its limit, keeps the slots, and counts exactly one
  -- more worker, in the slot that it returns.
  pub route-IsWithin :
      (pool pool' : ModelPool P C) (r : PoolRoutingResult P C)
      → route pool ≡ ok (r, pool')
      → IsWithin pool
      → IsWithin pool'
        × (used pool' ≡ used pool + 1)
        × (pool'.slots ≡ pool.slots)
        × ((j : ℕ)
            → active pool'.active_counts j
              ≡ active pool.active_counts j + (if r.slot_id == j then 1 else 0))
  unfolding route
  route-IsWithin pool pool' r e w =
      let (found, same) = routed-eq-ok pool pool' r _ e in
      let step = route_from_step 0 pool.slots pool.active_counts r _ found w in
      (rw same step.0, rw same step.1, same, λ j. one_more pool pool' r found j)

  -- In a pool whose recorded counts are within the limits, `route` raises exactly when these counts reach
  -- in sum what the slots allow in total.
  pub route-at_capacity_iff :
      (pool : ModelPool P C)
      → IsWithin pool
      → (route pool ≡ err at_capacity) ↔ (total_capacity pool ≤ used pool)
  unfolding route total_capacity
  route-at_capacity_iff pool w = ground (arith, route_from_full 0 pool.slots pool.active_counts w)

  pub release-IsWithin :
      (slot_id : ℕ) (pool : ModelPool P C) → IsWithin pool → IsWithin (release slot_id pool)
  unfolding release
  release-IsWithin slot_id pool w = ground (
    arith,
    Within-lower slot_id (active pool.active_counts slot_id - 1) 0 pool.slots pool.active_counts,
  )

  -- Releasing the slot that `route` returned gives every slot its count back.
  pub release-route :
      (pool pool' : ModelPool P C) (r : PoolRoutingResult P C)
      → route pool ≡ ok (r, pool')
      → (j : ℕ) → active (release r.slot_id pool').active_counts j ≡ active pool.active_counts j
  unfolding release route
  release-route pool pool' r e j =
      let (found, same) =
        routed-eq-ok pool pool' r (route_from 0 pool.slots pool.active_counts) e in
      ground (
        arith,
        one_more pool pool' r found j,
        one_more pool pool' r found r.slot_id,
        active-put r.slot_id j (active pool'.active_counts r.slot_id - 1) pool'.active_counts,
      )

  used-zero :
      (i n idx : ℕ) (slots : List (ProviderSlot P C)) → used_from idx slots (zero_counts i n) ≡ 0
  used-zero i n idx [] = refl
  used-zero i n idx (s ∷ rest) =
      omega (arith, active-zero_counts i n idx, used-zero i n (suc idx) rest)

  capacity-insert :
      (slot : ProviderSlot P C) (slots : List (ProviderSlot P C))
      → capacity_of (insert_slot slot slots) ≡ slot.max_concurrent + capacity_of slots
  unfolding insert_slot capacity_of
  capacity-insert slot [] = refl
  capacity-insert slot (s ∷ rest) = ground (arith, capacity-insert slot rest)

  pub add_slot-IsWithin :
      (slot : ProviderSlot P C) (pool : ModelPool P C) → IsWithin (add_slot slot pool)
  unfolding add_slot
  add_slot-IsWithin slot pool =
      Within-zero 0 (length (insert_slot slot pool.slots)) 0 (insert_slot slot pool.slots)

  -- Adding a slot sets every count to 0.
  pub add_slot-idle :
      (slot : ProviderSlot P C) (pool : ModelPool P C)
      → (used (add_slot slot pool) ≡ 0)
        × (total_capacity (add_slot slot pool) ≡ slot.max_concurrent + total_capacity pool)
  unfolding add_slot total_capacity
  add_slot-idle slot pool =
      (used-zero 0 (length (insert_slot slot pool.slots)) 0 _, capacity-insert slot pool.slots)
