-- ===== src/Pool/Running.antt =====
-- The workers that run in the slots of model_pool.py, where slots are added only while none runs.
use serac.Common.{
  ◌≡◌, ◌+◌, ◌-◌, ◌≤◌, ◌∷◌, ◌++◌, ◌==◌, if◌then◌else◌, [], ℕ, zero, suc, refl, some, List, arith,
  get_elem?, ok, nat_key, same_iff,
}
use serac.Common.Dict
use serac.Common.Dict.{Dict}
use serac.Pool.Order.{IsSorted, insert-IsSorted}
use serac.Pool.Capacity.{
  Within, IsWithin, active-put, active-zero_counts, route-IsWithin, release-IsWithin,
  add_slot-IsWithin,
}
use serac.Pool.{ProviderSlot, PoolRoutingResult, ModelPool, active, init, add_slot, route, release}

-- How many of the workers run in slot `i`.
abbrev pub running_in : ℕ → List ℕ → ℕ
running_in i [] = 0
running_in i (j ∷ running) = (if j == i then 1 else 0) + running_in i running

-- The pools that clients come to, with the slots of the workers that run: slots are added while no worker
-- runs, a worker starts with a `route` that succeeds, and releases that slot when it ends.
pub data Serving {ℓ} {P C : Type ℓ} : ModelPool P C → List ℕ → Type ℓ where
  fresh : Serving init []
  adds :
      {pool : ModelPool P C} (slot : ProviderSlot P C)
      → Serving pool []
      → Serving (add_slot slot pool) []
  starts :
      {pool pool' : ModelPool P C} {running : List ℕ} (r : PoolRoutingResult P C)
      → Serving pool running
      → route pool ≡ ok (r, pool')
      → Serving pool' (r.slot_id ∷ running)
  ends :
      {pool : ModelPool P C} (before : List ℕ) (slot_id : ℕ) (after : List ℕ)
      → Serving pool (before ++ slot_id ∷ after)
      → Serving (release slot_id pool) (before ++ after)

running_in-append :
    (i j : ℕ) (xs ys : List ℕ)
    → running_in i (xs ++ j ∷ ys) ≡ (if j == i then 1 else 0) + running_in i (xs ++ ys)
running_in-append i j [] ys = refl
running_in-append i j (x ∷ xs) ys = omega (arith, running_in-append i j xs ys)

module _ {ℓ} {P C : Type ℓ} where
  -- The recorded counts are those of the workers that run, within the limits, and the slots are in order.
  record IsTrue (pool : ModelPool P C) (running : List ℕ) : Type 0 where
    pub counts : (i : ℕ) → active pool.active_counts i ≡ running_in i running
    pub within : IsWithin pool
    pub sorted : IsSorted pool.slots

  add_slot-IsTrue :
      (slot : ProviderSlot P C) (pool : ModelPool P C)
      → IsTrue pool []
      → IsTrue (add_slot slot pool) []
  unfolding add_slot
  add_slot-IsTrue slot pool h = record {
    counts = λ i. active-zero_counts 0 _ i;
    within = add_slot-IsWithin slot pool;
    sorted = insert-IsSorted slot pool.slots h.sorted;
  }

  route-IsTrue :
      (pool pool' : ModelPool P C) (running : List ℕ) (r : PoolRoutingResult P C)
      → route pool ≡ ok (r, pool')
      → IsTrue pool running
      → IsTrue pool' (r.slot_id ∷ running)
  route-IsTrue pool pool' running r e h =
      let (within, more, same, counts) = route-IsWithin pool pool' r e h.within in
      record {
        counts = λ i. omega (arith, counts i, h.counts i);
        within = within;
        sorted = rw same h.sorted;
      }

  release-IsTrue :
      (pool : ModelPool P C) (before after : List ℕ) (slot_id : ℕ)
      → IsTrue pool (before ++ slot_id ∷ after)
      → IsTrue (release slot_id pool) (before ++ after)
  unfolding release
  release-IsTrue pool before after slot_id h = record {
    counts = λ i. ground (
      arith,
      h.counts i,
      h.counts slot_id,
      running_in-append i slot_id before after,
      running_in-append slot_id slot_id before after,
      same_iff slot_id i,
      active-put slot_id i (active pool.active_counts slot_id - 1) pool.active_counts,
    );
    within = release-IsWithin slot_id pool h.within;
    sorted = ground (arith, h.sorted);
  }

  Serving-IsTrue :
      {pool : ModelPool P C} {running : List ℕ} → Serving pool running → IsTrue pool running
  unfolding init Dict.get
  Serving-IsTrue fresh = record { counts = λ i. refl; within = tt; sorted = tt }
  Serving-IsTrue (adds {pool} slot s) = add_slot-IsTrue slot pool (Serving-IsTrue s)
  Serving-IsTrue (starts {pool} {pool'} {running} r s e) =
      route-IsTrue pool pool' running r e (Serving-IsTrue s)
  Serving-IsTrue (ends {pool} before slot_id after s) =
      release-IsTrue pool before after slot_id (Serving-IsTrue s)

  Within-at :
      (idx i : ℕ) (slots : List (ProviderSlot P C)) (counts : Dict ℕ ℕ) (s : ProviderSlot P C)
      → Within idx slots counts
      → get_elem? slots i ≡ some s
      → active counts (idx + i) ≤ s.max_concurrent
  Within-at idx i [] counts s w e = cc
  Within-at idx zero (x ∷ slots) counts s w e = ground (arith, w.0, e)
  Within-at idx (suc i) (x ∷ slots) counts s w e =
      let rest = Within-at (suc idx) i slots counts s w.1 e in ground (arith, rest)

  -- Where slots are added only while no worker runs, and each worker releases the slot that it was routed
  -- to when it ends: a slot never runs more workers than its limit, the pool's count of a slot is the
  -- number of the workers that run there, and the slots stay ordered by priority.
  pub Serving-running_in :
      {pool : ModelPool P C} {running : List ℕ}
      → Serving pool running
      → (i : ℕ) (s : ProviderSlot P C) → get_elem? pool.slots i ≡ some s
      → (running_in i running ≤ s.max_concurrent)
        × (active pool.active_counts i ≡ running_in i running)
        × IsSorted pool.slots
  Serving-running_in {pool = pool} h i s e =
      let t = Serving-IsTrue h in
      let below = Within-at 0 i pool.slots pool.active_counts s t.within e in
      let start : 0 + i ≡ i = omega arith in
      (omega (arith, rw start at below, t.counts i), t.counts i, t.sorted)
