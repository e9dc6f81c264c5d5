-- ===== src/Pool/Routing.antt =====
-- Which slot `route` of model_pool.py chooses, and what holds after any history of calls.
use serac.Common.{
  ◌≡◌, ◌+◌, ◌≤◌, ◌<◌, ◌∷◌, [], ℕ, zero, suc, refl, subst, inl, inr, false, some, List, arith, ltb,
  Bool-cases, get_elem?, All, Result, ok, err, nat_key, text_key,
}
use serac.Common.Dict.{Dict}
use serac.Common.Int.{◌≤ℤ◌}
use serac.Pool.Order.{IsSorted, insert-IsSorted}
use serac.Pool.Capacity.{
  IsWithin, routed-eq-ok, route-IsWithin, release-IsWithin, add_slot-IsWithin,
}
use serac.Pool.{
  ProviderSlot, PoolRoutingResult, ModelPool, PoolError, active, init, add_slot, route_from, route,
  release,
}

-- The calls that clients make.
pub data Call {ℓ} (P C : Type ℓ) : Type ℓ where
  adds : ProviderSlot P C → Call P C
  routes : Call P C
  releases : ℕ → Call P C

module _ {ℓ} {P C : Type ℓ} where
  -- Slot `i` of the list that starts at index `idx` has no room.
  abbrev IsFull : Dict ℕ ℕ → ℕ → ProviderSlot P C → Type 0
  IsFull counts idx s = s.max_concurrent ≤ active counts idx

  -- The `n` slots from index `idx` on are full.
  abbrev FullBelow : ℕ → ℕ → List (ProviderSlot P C) → Dict ℕ ℕ → Type 0
  FullBelow zero idx slots counts = Unit
  FullBelow (suc n) idx [] counts = Unit
  FullBelow (suc n) idx (s ∷ rest) counts = IsFull counts idx s × FullBelow n (suc idx) rest counts

  -- What `route` returns names a slot with room, and every slot before it is full.
  pub record FirstFit (slots : List (ProviderSlot P C)) (counts : Dict ℕ ℕ)
      (r : PoolRoutingResult P C) (idx : ℕ) : Type ℓ where
    pub slot : ProviderSlot P C
    pub offset : ℕ
    pub at : get_elem? slots offset ≡ some slot
    pub here : r.slot_id ≡ idx + offset
    pub provider : r.provider ≡ slot.provider
    pub name : r.model_name ≡ slot.model_name
    pub room : active counts r.slot_id < slot.max_concurrent
    pub full : FullBelow offset idx slots counts

  route_from-FirstFit :
      (idx : ℕ) (slots : List (ProviderSlot P C)) (counts : Dict ℕ ℕ) (r : PoolRoutingResult P C)
      (counts' : Dict ℕ ℕ)
      → route_from idx slots counts ≡ some (r, counts')
      → FirstFit slots counts r idx
  unfolding route_from
  route_from-FirstFit idx [] counts r counts' e = cc
  route_from-FirstFit idx (s ∷ rest) counts r counts' e =
      elim (Bool-cases (ltb (active counts idx) s.max_concurrent)) [
        | inl t ↦ record {
          slot = s;
          offset = 0;
          at = refl;
          here = ground arith;
          provider = ground arith;
          name = ground arith;
          room = ground arith;
          full = tt;
        }
        | inr t ↦ later (route_from-FirstFit (suc idx) rest counts r counts' (ground arith)) t
      ]
    where
      later :
          FirstFit rest counts r (suc idx)
          → ltb (active counts idx) s.max_concurrent ≡ false
          → FirstFit (s ∷ rest) counts r idx
      later f t = record {
        slot = f.slot;
        offset = suc f.offset;
        at = f.at;
        here = omega (arith, f.here);
        provider = f.provider;
        name = f.name;
        room = f.room;
        full = (ground arith, f.full);
      }

  -- A successful `route` takes the first slot in the list with room: the returned index names it, it
  -- has room, and all the slots before it are full.
  pub route-FirstFit :
      (pool pool' : ModelPool P C) (r : PoolRoutingResult P C)
      → route pool ≡ ok (r, pool')
      → FirstFit pool.slots pool.active_counts r 0
  unfolding route
  route-FirstFit pool pool' r e =
      route_from-FirstFit 0 pool.slots pool.active_counts r pool'.active_counts
        (routed-eq-ok pool pool' r _ e).0

  All-at :
      (Q : ProviderSlot P C → Type 0) (xs : List (ProviderSlot P C)) (j : ℕ) (t : ProviderSlot P C)
      → All Q xs
      → get_elem? xs j ≡ some t
      → Q t
  All-at Q [] j t a e = cc
  All-at Q (x ∷ xs) zero t a e = subst Q (ground arith) a.0
  All-at Q (x ∷ xs) (suc j) t a e = All-at Q xs j t a.1 e

  cheapest_from :
      (idx n j k : ℕ) (slots : List (ProviderSlot P C)) (counts : Dict ℕ ℕ) (s t : ProviderSlot P C)
      → IsSorted slots
      → FullBelow n idx slots counts
      → get_elem? slots n ≡ some s
      → get_elem? slots j ≡ some t
      → k ≡ idx + j
      → active counts k < t.max_concurrent
      → s.priority ≤ℤ t.priority
  cheapest_from idx n j k [] counts s t o f e g eq room = cc
  cheapest_from idx zero zero k (x ∷ rest) counts s t o f e g eq room = ground arith
  cheapest_from idx zero (suc j) k (x ∷ rest) counts s t o f e g eq room =
      let below = All-at (λ u. x.priority ≤ℤ u.priority) rest j t o.0 g in ground arith
  cheapest_from idx (suc n) zero k (x ∷ rest) counts s t o f e g eq room =
      let here : k ≡ idx = omega arith in let room' = rw here at room in absurd (ground arith)
  cheapest_from idx (suc n) (suc j) k (x ∷ rest) counts s t o f e g eq room =
      cheapest_from (suc idx) n j k rest counts s t o.1 f.1 e g (omega arith) room

  -- With the slots in order, no slot that still has room is cheaper than the one that `route` takes.
  pub route_cheapest :
      (pool pool' : ModelPool P C) (r : PoolRoutingResult P C) (s t : ProviderSlot P C) (j : ℕ)
      → IsSorted pool.slots
      → route pool ≡ ok (r, pool')
      → get_elem? pool.slots r.slot_id ≡ some s
      → get_elem? pool.slots j ≡ some t
      → active pool.active_counts j < t.max_concurrent
      → s.priority ≤ℤ t.priority
  route_cheapest pool pool' r s t j o e at_s at_t room =
      let f = route-FirstFit pool pool' r e in
      let here : r.slot_id ≡ f.offset = omega (arith, f.here) in
      cheapest_from 0 f.offset j j pool.slots pool.active_counts s t o f.full (rw here at at_s) at_t
        (omega arith) room

  pub after :
      ModelPool P C → Result PoolError (PoolRoutingResult P C × ModelPool P C) → ModelPool P C
  after pool (err _) = pool
  after pool (ok (_, pool')) = pool'

  pub step : Call P C → ModelPool P C → ModelPool P C
  unfolding after
  step (adds slot) pool = add_slot slot pool
  step routes pool = after pool (route pool)
  step (releases slot_id) pool = release slot_id pool

  pub run : List (Call P C) → ModelPool P C → ModelPool P C
  unfolding step
  run [] pool = pool
  run (c ∷ calls) pool = run calls (step c pool)

  pub record IsValid (pool : ModelPool P C) : Type 0 where
    pub within : IsWithin pool
    pub sorted : IsSorted pool.slots

  release-slots : (slot_id : ℕ) (pool : ModelPool P C) → (release slot_id pool).slots ≡ pool.slots
  unfolding release
  release-slots slot_id pool = ground arith

  add_slot-IsSorted :
      (slot : ProviderSlot P C) (pool : ModelPool P C)
      → IsSorted pool.slots
      → IsSorted (add_slot slot pool).slots
  unfolding add_slot
  add_slot-IsSorted slot pool h = insert-IsSorted slot pool.slots h

  after-IsValid :
      (pool : ModelPool P C) (o : Result PoolError (PoolRoutingResult P C × ModelPool P C))
      → IsValid pool
      → route pool ≡ o
      → IsValid (after pool o)
  unfolding after
  after-IsValid pool (err _) v e = v
  after-IsValid pool (ok (r, pool')) v e =
      let kept = route-IsWithin pool pool' r e v.within in
      record { within = kept.0; sorted = rw kept.2 v.sorted }

  step-IsValid : (c : Call P C) (pool : ModelPool P C) → IsValid pool → IsValid (step c pool)
  unfolding step
  step-IsValid (adds slot) pool v = record {
    within = add_slot-IsWithin slot pool;
    sorted = add_slot-IsSorted slot pool v.sorted;
  }
  step-IsValid routes pool v = after-IsValid pool (route pool) v refl
  step-IsValid (releases slot_id) pool v = record {
    within = release-IsWithin slot_id pool v.within;
    sorted = rw (release-slots slot_id pool) v.sorted;
  }

  run-IsValid :
      (calls : List (Call P C)) (pool : ModelPool P C) → IsValid pool → IsValid (run calls pool)
  unfolding run
  run-IsValid [] pool v = v
  run-IsValid (c ∷ calls) pool v = run-IsValid calls (step c pool) (step-IsValid c pool v)

  -- Whatever calls are made on a fresh pool, in whatever order, and releases of idle or unknown slots
  -- among them: no recorded count is above the limit of its slot, and the slots stay ordered by priority.
  pub run-init-IsValid : (calls : List (Call P C)) → IsValid (run calls init)
  unfolding init
  run-init-IsValid calls = run-IsValid calls init (record { within = tt; sorted = tt })
