-- ===== src/Worker/Batch.antt =====
-- A batch of tasks, `WorkerManager.execute` of agent_framework/worker_manager.py. How the threads of the
-- pool end is a parameter: it gives the tasks that were submitted with their ends, as they complete.
use Prim.Native.String.{compare}
use Prim.Native.Nat.{Ordering}
use serac.Common.{
  ℕ, String, Bool, true, false, not, Option, none, some, List, [], ◌∷◌, Result, ok, err, map,
  text_key, if◌then◌else◌, leb,
}
use serac.Common.Dict.{Dict, get, put}
use serac.Common.Int.{ltb_ℤ}
use serac.Common.Sorting.{sorted}
use serac.Agent.{no_usage}
use serac.Worker.{WorkerTask, WorkerResult}

-- s <= t of two texts
abbrev pub text_leb : String → String → Bool
text_leb s t = elim (compare s t) [ Ordering.gt ↦ false | _ ↦ true ]

-- How a future ends.
pub data Ended (I : Type 0) : Type 0 where
  returned : WorkerResult I → Ended I
  raised : String → Ended I

pub data Error : Type 0 where
  value_error : String → Error

-- sorted by priority
unfoldable pub submitted : List WorkerTask → List WorkerTask
submitted tasks = sorted (λ a b. not (ltb_ℤ b.priority a.priority)) tasks

module _ {I : Type 0} where
  unfoldable pub result_of : WorkerTask → Ended I → WorkerResult I
  result_of task (returned result) = result
  result_of task (raised error) = record {
    task_id = task.task_id;
    success = false;
    output = "";
    error = error;
    duration = 0;
    turns_used = 0;
    usage = no_usage;
    todo_state = [];
  }

  unfoldable pub coalesce :
      List (WorkerTask × Ended I) → Dict String (WorkerResult I) → Dict String (WorkerResult I)
  coalesce [] results = results
  coalesce ((task, end) ∷ rest) results =
      coalesce rest (put (result_of task end).task_id (result_of task end) results)

  abbrev pub with_result :
      Option (WorkerResult I) → Option (List (WorkerResult I)) → Option (List (WorkerResult I))
  with_result (some r) (some rs) = some (r ∷ rs)
  with_result (some r) none = none
  with_result none rs = none

  -- results[tid] for each id, none for a KeyError
  unfoldable pub results_at :
      List String → Dict String (WorkerResult I) → Option (List (WorkerResult I))
  results_at [] results = some []
  results_at (id ∷ ids) results = with_result (get id results) (results_at ids results)

  unfoldable pub ordered : Dict String (WorkerResult I) → Option (List (WorkerResult I))
  ordered results = results_at (sorted text_leb (map (λ e. e.0) results)) results

  -- ThreadPoolExecutor asks for at least one worker.
  unfoldable pub execute :
      (List WorkerTask → List (WorkerTask × Ended I))
      → ℕ
      → List WorkerTask
      → Result Error (Option (List (WorkerResult I)))
  execute completed max_parallel [] = ok (some [])
  execute completed max_parallel (task ∷ tasks) =
      if leb max_parallel 0
      then err (value_error "max_workers must be greater than 0")
      else ok (ordered (coalesce (completed (submitted (task ∷ tasks))) []))
