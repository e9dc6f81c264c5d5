-- ===== src/Worker/Restore.antt =====
-- The slot of a worker of agent_framework/worker_manager.py.
use serac.Common.{◌≡◌, ℕ, String, refl, Result, ok, err, text_key}
use serac.Common.Dict.{Dict}
use serac.Pool.{ModelPool, PoolRoutingResult, PoolError, at_capacity, route, active}
use serac.Pool.Capacity.{release-route}
use serac.Tools.{ToolDef}
use serac.Worker.{WorkerTask, Setting, routed_worker, execute_worker}

module _ {P C J I : Type 0} (e : Setting P J I) (tools : Dict String (ToolDef J))
    (task : WorkerTask) where
  routed-restores :
      (pool : ModelPool P C) (o : Result PoolError (PoolRoutingResult P C × ModelPool P C))
      → route pool ≡ o
      → (j : ℕ)
      → active (routed_worker e tools task pool o).1.active_counts j ≡ active pool.active_counts j
  unfolding routed_worker
  routed-restores pool (err at_capacity) h j = refl
  routed-restores pool (ok (routing, pool')) h j = release-route pool pool' routing h j

  -- However a worker ends — its answer, no free slot, a refused choice of tools or an exception of the
  -- provider — each slot of the pool counts as many workers as before it.
  pub execute_worker-restores :
      (pool : ModelPool P C) (j : ℕ)
      → active (execute_worker e tools task pool).1.active_counts j ≡ active pool.active_counts j
  unfolding execute_worker
  execute_worker-restores pool j = routed-restores pool (route pool) refl j
