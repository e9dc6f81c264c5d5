-- ===== src/Pool/Tests.antt =====
-- Runs of model_pool.py at concrete pools, and the theorems at inputs that meet their hypotheses.
use serac.Common.{◌≡◌, ◌≤◌, ◌↔◌, ◌∷◌, [], ℕ, String, refl, arith, ok, err, nat_key, text_key}
use serac.Common.Dict
use serac.Common.Int.{pos}
use serac.Pool.{
  active, ProviderSlot, PoolRoutingResult, ModelPool, at_capacity, init, add_slot, route, release,
  total_capacity, available_capacity,
}
use serac.Pool.Capacity.{IsWithin, used, route-at_capacity_iff}
use serac.Pool.Order.{IsSorted}
use serac.Pool.Running.{Serving, fresh, adds, starts, ends, running_in, Serving-running_in}

abbrev Slot : Type 0
Slot = ProviderSlot String ℕ

abbrev vllm : Slot
vllm = record {
  provider = "vllm";
  max_concurrent = 1;
  priority = pos 0;
  model_name = "vllm-local";
  cost_per_token = 0;
}

abbrev sonnet : Slot
sonnet = record {
  provider = "anthropic";
  max_concurrent = 2;
  priority = pos 1;
  model_name = "sonnet";
  cost_per_token = 3;
}

abbrev idle : ModelPool String ℕ
idle = record { slots = vllm ∷ sonnet ∷ []; active_counts = (0, 0) ∷ (1, 0) ∷ [] }

abbrev busy : ModelPool String ℕ
busy = record idle { active_counts = (0, 1) ∷ (1, 0) ∷ [] }

abbrev to_sonnet : PoolRoutingResult String ℕ
to_sonnet = record {
  provider = "anthropic";
  model_name = "sonnet";
  slot_id = 1;
  cost_per_token = 3;
}

abbrev to_vllm : PoolRoutingResult String ℕ
to_vllm = record { provider = "vllm"; model_name = "vllm-local"; slot_id = 0; cost_per_token = 0 }

abbrev both : ModelPool String ℕ
both = record idle { active_counts = (0, 1) ∷ (1, 1) ∷ [] }

program : Unit {0}
unfolding add_slot route release total_capacity available_capacity init Dict.get Dict.put
program = tt

slots_sorted : add_slot vllm (add_slot sonnet init) ≡ idle
unfolding program
slots_sorted = refl

overflow : route busy ≡ ok (to_sonnet, both)
unfolding program
overflow = refl

room_left : available_capacity both ≡ ("vllm-local", pos 0) ∷ ("sonnet", pos 1) ∷ []
unfolding program
room_left = refl

abbrev full : ModelPool String ℕ
full = record idle { active_counts = (0, 1) ∷ (1, 2) ∷ [] }

full-IsWithin : IsWithin full
unfolding program
full-IsWithin = omega arith

-- All slots are full: both sides hold.
refused : (route full ≡ err at_capacity) × (total_capacity full ≤ used full)
unfolding program
refused = (refl, omega arith)

route-at_capacity_iff_example : (route full ≡ err at_capacity) ↔ (total_capacity full ≤ used full)
route-at_capacity_iff_example = route-at_capacity_iff full full-IsWithin

-- Two slots are added, three workers start, and the first one ends.
two_left :
    Serving {P = String} {C = ℕ} (record idle { active_counts = (0, 0) ∷ (1, 2) ∷ [] }) (1 ∷ 1 ∷ [])
unfolding program
two_left = ends (1 ∷ 1 ∷ []) 0 [] (
    starts to_sonnet (starts to_sonnet (starts to_vllm (adds vllm (adds sonnet fresh)) refl) refl)
      refl)

Serving-running_in_example :
    (running_in 1 (1 ∷ 1 ∷ []) ≤ 2)
    × (active ((0, 0) ∷ (1, 2) ∷ []) 1 ≡ running_in 1 (1 ∷ 1 ∷ []))
    × IsSorted (vllm ∷ sonnet ∷ [])
Serving-running_in_example = Serving-running_in two_left 1 sonnet refl
