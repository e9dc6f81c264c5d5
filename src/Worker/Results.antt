-- ===== src/Worker/Results.antt =====
-- The results of a batch of agent_framework/worker_manager.py.
use serac.Common.{
  ℕ, suc, ◌≡◌, refl, sym, ap, ap₂, ◌∙◌, String, Bool, true, false, Option, none, some, List, [],
  ◌∷◌, ◌||◌, Result, ok, err, map, All, All-map, All-contains, text_key, ◌==◌, same_iff, contains,
  if◌then◌else◌, leb, Bool-cases, inl, inr, arith,
}
use serac.Common.Dict.{Dict, get, put, get-put}
use serac.Common.Sorting.{sorted, All-sorted, contains-sorted}
use serac.Pool.{ModelPool, PoolRoutingResult, PoolError, at_capacity, route}
use serac.Tools.{ToolDef, RegistryError}
use serac.Agent.{LoopState}
use serac.Agent.Final.{Outcome, gives, raises}
use serac.Worker.{
  WorkerTask, WorkerResult, Setting, finished, run_with, routed_worker, execute_worker,
  filter_tools,
}
use serac.Worker.Batch.{
  Ended, returned, raised, submitted, result_of, coalesce, results_at, ordered, execute, text_leb,
}

module _ {P J I : Type 0} (e : Setting P J I) (tools : Dict String (ToolDef J))
    (task : WorkerTask) where
  finished-task_id : (o : Outcome × LoopState) → (finished e tools task o).task_id ≡ task.task_id
  unfolding finished
  finished-task_id (raises error, s) = refl
  finished-task_id (gives output, s) = refl

  run_with-task_id :
      (provider : P) (r : Result RegistryError (Dict String (ToolDef J)))
      → (run_with e tools task provider r).task_id ≡ task.task_id
  unfolding run_with
  run_with-task_id provider (err error) = refl
  run_with-task_id provider (ok worker_tools) = finished-task_id _

  module _ {C : Type 0} where
    routed-task_id :
        (pool : ModelPool P C) (o : Result PoolError (PoolRoutingResult P C × ModelPool P C))
        → (routed_worker e tools task pool o).0.task_id ≡ task.task_id
    unfolding routed_worker
    routed-task_id pool (err at_capacity) = refl
    routed-task_id pool (ok (routing, pool')) =
        run_with-task_id routing.provider (filter_tools tools task.tool_names)

    -- A worker that returns a result, of whatever kind, returns it under the id of its task.
    pub execute_worker-task_id :
        (pool : ModelPool P C) → (execute_worker e tools task pool).0.task_id ≡ task.task_id
    unfolding execute_worker
    execute_worker-task_id pool = routed-task_id pool (route pool)

abbrev pub ids_of : List WorkerTask → List String
ids_of tasks = map (λ t. t.task_id) tasks

map_same : (xs : List String) → map (λ x. x) xs ≡ xs
map_same [] = refl
map_same (x ∷ xs) = ap (λ ys. x ∷ ys) (map_same xs)

contains-sorted_ids :
    (id : String) (ids : List String) → contains id (sorted text_leb ids) ≡ contains id ids
contains-sorted_ids id ids =
    ap (contains id) (sym (map_same (sorted text_leb ids)))
    ∙ contains-sorted text_leb (λ x. x) id ids
    ∙ ap (contains id) (map_same ids)

contains-submitted :
    (id : String) (tasks : List WorkerTask)
    → contains id (ids_of (submitted tasks)) ≡ contains id (ids_of tasks)
unfolding submitted
contains-submitted id tasks = contains-sorted _ (λ t. t.task_id) id tasks

or_false : (b : Bool) → (b || false) ≡ b
or_false b = ground arith

room : (n : ℕ) → leb (suc n) 0 ≡ false
room n = ground arith

module _ {I : Type 0} where
  abbrev pub result_ids : List (WorkerResult I) → List String
  result_ids rs = map (λ r. r.task_id) rs

  -- A result that a worker returns has the id of its task, as `execute_worker-task_id` shows of the worker.
  abbrev pub IsOwn : WorkerTask × Ended I → Type 0
  IsOwn (task, returned r) = r.task_id ≡ task.task_id
  IsOwn (task, raised error) = Unit {0}

  result_of-task_id :
      (task : WorkerTask) (end : Ended I)
      → IsOwn (task, end)
      → (result_of task end).task_id ≡ task.task_id
  unfolding result_of
  result_of-task_id task (returned r) h = h
  result_of-task_id task (raised error) h = refl

  -- The futures that as_completed gives are those that were submitted, and a result that a worker returns
  -- has the id of its task.
  pub record Completes (completed : List WorkerTask → List (WorkerTask × Ended I)) : Type 0 where
    pub same :
        (tasks : List WorkerTask) (id : String)
        → contains id (map (λ c. c.0.task_id) (completed tasks)) ≡ contains id (ids_of tasks)
    pub own : (tasks : List WorkerTask) → All IsOwn (completed tasks)

  -- Each result stands under its own id.
  abbrev IsKeyed : Dict String (WorkerResult I) → Type 0
  IsKeyed d = (id : String) (r : WorkerResult I) → get id d ≡ some r → r.task_id ≡ id

  abbrev id_or : String → Option (WorkerResult I) → String
  id_or id none = id
  id_or id (some r) = r.task_id

  put-IsKeyed :
      (r : WorkerResult I) (d : Dict String (WorkerResult I))
      → IsKeyed d
      → IsKeyed (put r.task_id r d)
  put-IsKeyed r d h id f g =
      there (r.task_id == id) (same_iff r.task_id id).0 (sym (get-put r.task_id id r d) ∙ g)
    where
      there :
          (b : Bool)
          → (b ≡ true → r.task_id ≡ id)
          → (if b then some r else get id d) ≡ some f
          → f.task_id ≡ id
      there true k g = sym (ap (id_or id) g) ∙ k refl
      there false k g = h id f g

  coalesce-IsKeyed :
      (cs : List (WorkerTask × Ended I)) (d : Dict String (WorkerResult I))
      → IsKeyed d
      → IsKeyed (coalesce cs d)
  unfolding coalesce
  coalesce-IsKeyed [] d h = h
  coalesce-IsKeyed ((task, end) ∷ cs) d h =
      coalesce-IsKeyed cs _ (put-IsKeyed (result_of task end) d h)

  keys-put :
      (k id : String) (r : WorkerResult I) (d : Dict String (WorkerResult I))
      → contains id (map (λ e. e.0) (put k r d)) ≡ (k == id || contains id (map (λ e. e.0) d))
  unfolding put
  keys-put k id r [] = refl
  keys-put k id r ((j, v) ∷ d) =
      ground (arith, keys-put k id r d, same_iff j k, same_iff k id, same_iff j id)

  keys-coalesce :
      (id : String) (cs : List (WorkerTask × Ended I)) (d : Dict String (WorkerResult I))
      → All (λ c. (result_of c.0 c.1).task_id ≡ c.0.task_id) cs
      → contains id (map (λ e. e.0) (coalesce cs d))
        ≡ (contains id (map (λ c. c.0.task_id) cs) || contains id (map (λ e. e.0) d))
  unfolding coalesce
  keys-coalesce id [] d a = refl
  keys-coalesce id ((task, end) ∷ cs) d (o, a) =
      keys-coalesce id cs _ a
      ∙ rw (keys-put (result_of task end).task_id id (result_of task end) d, o) (ground arith)

  get-contains :
      (id : String) (d : Dict String (WorkerResult I))
      → contains id (map (λ e. e.0) d) ≡ true
      → (r : WorkerResult I) × (get id d ≡ some r)
  unfolding get
  get-contains id [] h = absurd (ground (arith, h))
  get-contains id ((j, r) ∷ d) h = elim (Bool-cases (j == id)) [
    | inl t ↦ (r, rw t refl)
    | inr t ↦ rw t (get-contains id d (rw t at h))
  ]

  results_at-some :
      (d : Dict String (WorkerResult I))
      → IsKeyed d
      → (ids : List String) → All (λ id. contains id (map (λ e. e.0) d) ≡ true) ids
      → (rs : List (WorkerResult I)) × (results_at ids d ≡ some rs) × (result_ids rs ≡ ids)
  unfolding results_at
  results_at-some d k [] a = ([], refl, refl)
  results_at-some d k (id ∷ ids) (c, a) =
      let (r, g) = get-contains id d c in
      let (rs, found, same) = results_at-some d k ids a in
      (r ∷ rs, rw (g, found) refl, ap₂ (λ x xs. x ∷ xs) (k id r g) same)

  ordered-some :
      (d : Dict String (WorkerResult I))
      → IsKeyed d
      → (rs : List (WorkerResult I)) × (ordered d ≡ some rs)
        × (result_ids rs ≡ sorted text_leb (map (λ e. e.0) d))
  unfolding ordered
  ordered-some d k = results_at-some d k (sorted text_leb (map (λ e. e.0) d)) (
      All-sorted text_leb (λ id. contains id (map (λ e. e.0) d) ≡ true) (map (λ e. e.0) d)
        (All-contains (map (λ e. e.0) d)))

  empty-IsKeyed : IsKeyed []
  unfolding get
  empty-IsKeyed id r h = absurd (ground (arith, h))

  -- With room for at least one worker a batch gives results, and never misses one: an id has a result just
  -- where a task has it, in whatever order the workers ended, with an exception or with a result; where the
  -- ended futures are those of the submitted tasks and a returned result has the id of its task.
  pub execute-ids :
      (completed : List WorkerTask → List (WorkerTask × Ended I))
      → Completes completed
      → (n : ℕ) (tasks : List WorkerTask)
      → (rs : List (WorkerResult I)) × (execute completed (suc n) tasks ≡ ok (some rs))
        × ((id : String) → contains id (result_ids rs) ≡ contains id (ids_of tasks))
  unfolding execute
  execute-ids completed c n [] = ([], refl, λ id. refl)
  execute-ids completed c n (task ∷ tasks) =
      let (rs, found, same) =
        ordered-some results (coalesce-IsKeyed (completed order) [] empty-IsKeyed) in
      (
        rs,
        rw (room n, found) refl,
        λ id.
            ap (contains id) same
            ∙ contains-sorted_ids id (map (λ e. e.0) results)
            ∙ keys-coalesce id (completed order) []
                (All-map (λ f. result_of-task_id f.0 f.1) (completed order) (c.own order))
            ∙ or_false (contains id (map (λ c. c.0.task_id) (completed order)))
            ∙ c.same order id
            ∙ contains-submitted id (task ∷ tasks),
      )
    where
      order : List WorkerTask
      order = submitted (task ∷ tasks)

      results : Dict String (WorkerResult I)
      results = coalesce (completed order) []
