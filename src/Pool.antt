-- ===== src/Pool.antt =====
-- agent_framework/model_pool.py: cost-aware routing of workers to provider slots.
-- `ModelPool` is the record `Pool`, `_active_counts` a dictionary from slot index to count; a method
-- returns the new pool. The lock makes each method one step. `Provider` and the float cost are
-- carried and never inspected, so they are type parameters. A count is a ℕ, a priority any integer.
pub mod Order
pub mod Capacity
pub mod Routing
pub mod Running
mod Tests
use serac.Common.{
  ◌+◌, ◌-◌, ◌∷◌, if◌then◌else◌, [], ℕ, zero, suc, String, Option, none, some, List, ltb, length,
  Result, ok, err, nat_key, text_key,
}
use serac.Common.Dict
use serac.Common.Dict.{Dict, or_else}
use serac.Common.Int.{ℤ, ltb_ℤ, sub_ℕ}

pub record ProviderSlot {ℓ} (P C : Type ℓ) : Type ℓ where
  pub provider : P
  pub max_concurrent : ℕ
  pub priority : ℤ
  pub model_name : String
  pub cost_per_token : C

pub record PoolRoutingResult {ℓ} (P C : Type ℓ) : Type ℓ where
  pub provider : P
  pub model_name : String
  pub slot_id : ℕ
  pub cost_per_token : C

pub record ModelPool {ℓ} (P C : Type ℓ) : Type ℓ where
  pub slots : List (ProviderSlot P C)
  pub active_counts : Dict ℕ ℕ

-- ValueError("All provider slots at capacity")
pub data PoolError : Type 0 where
  at_capacity : PoolError

-- self._active_counts.get(idx, 0)
abbrev pub active : Dict ℕ ℕ → ℕ → ℕ
active counts idx = or_else (Dict.get idx counts) 0

-- {i: 0 for i in range(n)}, from index `i` on
pub zero_counts : ℕ → ℕ → Dict ℕ ℕ
zero_counts i zero = []
zero_counts i (suc n) = (i, 0) ∷ zero_counts (suc i) n

module _ {ℓ} {P C : Type ℓ} where
  pub init : ModelPool P C
  init = record { slots = []; active_counts = [] }

  -- The loop of `add_slot`: before the first slot of a higher priority value, or at the end.
  pub insert_slot : ProviderSlot P C → List (ProviderSlot P C) → List (ProviderSlot P C)
  insert_slot slot [] = slot ∷ []
  insert_slot slot (existing ∷ rest) =
      if ltb_ℤ slot.priority existing.priority
      then slot ∷ existing ∷ rest
      else existing ∷ insert_slot slot rest

  pub add_slot : ProviderSlot P C → ModelPool P C → ModelPool P C
  unfolding insert_slot zero_counts
  add_slot slot pool =
      let slots' = insert_slot slot pool.slots in
      record { slots = slots'; active_counts = zero_counts 0 (length slots') }

  -- The loop of `route` from index `idx` on: the result and the counts that it leaves.
  pub route_from :
      ℕ → List (ProviderSlot P C) → Dict ℕ ℕ → Option (PoolRoutingResult P C × Dict ℕ ℕ)
  route_from idx [] counts = none
  route_from idx (slot ∷ rest) counts =
      if ltb (active counts idx) slot.max_concurrent
      then some (
        record {
          provider = slot.provider;
          model_name = slot.model_name;
          slot_id = idx;
          cost_per_token = slot.cost_per_token;
        },
        Dict.put idx (active counts idx + 1) counts,
      )
      else route_from (suc idx) rest counts

  pub routed :
      ModelPool P C
      → Option (PoolRoutingResult P C × Dict ℕ ℕ)
      → Result PoolError (PoolRoutingResult P C × ModelPool P C)
  routed pool none = err at_capacity
  routed pool (some (result, counts)) = ok (result, record pool { active_counts = counts })

  pub route : ModelPool P C → Result PoolError (PoolRoutingResult P C × ModelPool P C)
  unfolding route_from routed
  route pool = routed pool (route_from 0 pool.slots pool.active_counts)

  pub release : ℕ → ModelPool P C → ModelPool P C
  release slot_id pool =
      let current = active pool.active_counts slot_id in
      if ltb 0 current
      then record pool { active_counts = Dict.put slot_id (current - 1) pool.active_counts }
      else pool

  -- The loop of `available_capacity`: slots of one name overwrite one another.
  pub available_from : ℕ → List (ProviderSlot P C) → Dict ℕ ℕ → Dict String ℤ → Dict String ℤ
  available_from idx [] counts result = result
  available_from idx (slot ∷ rest) counts result =
      available_from (suc idx) rest counts
        (Dict.put slot.model_name (sub_ℕ slot.max_concurrent (active counts idx)) result)

  pub available_capacity : ModelPool P C → Dict String ℤ
  unfolding available_from
  available_capacity pool = available_from 0 pool.slots pool.active_counts []

  pub capacity_of : List (ProviderSlot P C) → ℕ
  capacity_of [] = 0
  capacity_of (s ∷ rest) = s.max_concurrent + capacity_of rest

  pub total_capacity : ModelPool P C → ℕ
  unfolding capacity_of
  total_capacity pool = capacity_of pool.slots
