-- ===== src/Worker/Tests.antt =====
-- The model of agent_framework/worker_manager.py at concrete inputs.
use serac.Common.{
  List, map, contains, All, ap, some, ok, err, ◌++◌, ◌||◌, ◌==◌, if◌then◌else◌, nat_key, ℕ, ◌≡◌,
  String, true, false, none, [], ◌∷◌, refl, leb, text_key,
}
use serac.Common.Dict
use serac.Common.Dict.{Dict}
use serac.Common.Sorting.{sorted, insert_by}
use serac.Common.Chars.{codes, codes_key, strip, rstrip, lstrip, starts_with}
use serac.Security.{ends_with}
use serac.Worker.Batch.{
  Ended, returned, raised, result_of, coalesce, results_at, ordered, submitted, execute,
  value_error,
}
use serac.Worker.Results.{Completes, IsOwn, ids_of, result_ids, execute-ids}
use serac.Worker.Decompose.{
  Model, decompose, answered, tasks_of, tasks_from, task_of, without_fence, without_end,
  without_first_line, after_line, without_fence-fenced,
}
use serac.Common.Int.{pos}
use serac.Pool.{ModelPool, ProviderSlot, active}
use serac.Tools.{ToolDef, returns}
use serac.Tools.Names.{is_tool_name, are_name_chars}
use serac.Tools.Registry.{IsValid}
use serac.Agent.{World, throws, no_usage}
use serac.Worker.{WorkerTask, WorkerResult, Setting, execute_worker}
use serac.Worker.Restore.{execute_worker-restores}

abbrev look_up : ToolDef String
look_up = record {
  name = "look_up";
  description = "looks up";
  required = [];
  executor = λ d. returns none;
  role = none;
  execution_mode = "host";
  requires_sandbox = false;
}

abbrev tools : Dict String (ToolDef String)
tools = ("look_up", look_up) ∷ []

-- A provider that cannot be reached.
abbrev silent : World
silent = record {
  chat = λ before r. throws "no route";
  execute = λ n calls ms. [];
  has_tools = true;
  provider_coalesces = true;
  max_tokens = none;
  clock = λ p n. n;
  call_length = λ call. 0;
  dumps = λ ms. none;
  decimal = λ n. "";
}

abbrev setting : Setting ℕ String String
setting = record {
  world = λ provider tools. silent;
  over_threshold = λ n. leb 96000 n;
  start = 3;
  end = 8;
  registry_text = λ e. "refused";
  todo_state = [];
}

abbrev task : WorkerTask
task = record {
  task_id = "t1";
  goal = "find it";
  context = "";
  system_prompt = "";
  tool_names = none;
  max_turns = 4;
  priority = pos 0;
}

abbrev slot : ProviderSlot ℕ ℕ
slot = record {
  provider = 0;
  max_concurrent = 2;
  priority = pos 1;
  model_name = "m";
  cost_per_token = 0;
}

abbrev pool : ModelPool ℕ ℕ
pool = record { slots = slot ∷ []; active_counts = (0, 1) ∷ [] }

execute_worker-restores_example :
    active (execute_worker setting tools task pool).1.active_counts 0 ≡ active pool.active_counts 0
execute_worker-restores_example = execute_worker-restores setting tools task pool 0

one-IsValid : IsValid tools
unfolding is_tool_name are_name_chars
one-IsValid = record { distinct = (refl, tt); named = ((refl, refl), tt) }

abbrev found : WorkerTask → WorkerResult String
found t = record {
  task_id = t.task_id;
  success = true;
  output = "it";
  error = "";
  duration = 2;
  turns_used = 1;
  usage = no_usage;
  todo_state = [];
}

-- The first worker returns a result, and the others raise, one after the other.
abbrev all_raise : List WorkerTask → List (WorkerTask × Ended String)
all_raise [] = []
all_raise (t ∷ tasks) = (t, raised "no slot") ∷ all_raise tasks

abbrev one_returns : List WorkerTask → List (WorkerTask × Ended String)
one_returns [] = []
one_returns (t ∷ tasks) = (t, returned (found t)) ∷ all_raise tasks

one_returns-Completes : Completes one_returns
one_returns-Completes = record { same = same_ids; own = each }
  where
    every :
        (tasks : List WorkerTask) (id : String)
        → contains id (map (λ c. c.0.task_id) (all_raise tasks)) ≡ contains id (ids_of tasks)
    every [] id = refl
    every (t ∷ tasks) id = ap (λ b. t.task_id == id || b) (every tasks id)

    same_ids :
        (tasks : List WorkerTask) (id : String)
        → contains id (map (λ c. c.0.task_id) (one_returns tasks)) ≡ contains id (ids_of tasks)
    same_ids [] id = refl
    same_ids (t ∷ tasks) id = ap (λ b. t.task_id == id || b) (every tasks id)

    raising : (tasks : List WorkerTask) → All IsOwn (all_raise tasks)
    raising [] = tt
    raising (t ∷ tasks) = (tt, raising tasks)

    each : (tasks : List WorkerTask) → All IsOwn (one_returns tasks)
    each [] = tt
    each (t ∷ tasks) = (refl, raising tasks)

abbrev second_task : WorkerTask
second_task = record task { task_id = "t0" }

batch : Unit {0}
unfolding result_of coalesce results_at ordered submitted sorted insert_by execute Dict.get Dict.put
batch = tt

by_id :
    (rs : List (WorkerResult String)) × (execute one_returns 2 (task ∷ second_task ∷ [])
      ≡ ok (some rs))
    × (result_ids rs ≡ "t0" ∷ task.task_id ∷ [])
unfolding batch
by_id = (_, refl, refl)

no_workers :
    execute one_returns 0 (task ∷ []) ≡ err (value_error "max_workers must be greater than 0")
unfolding batch
no_workers = refl

-- Of two tasks with one id a single result is left.
one_id :
    (rs : List (WorkerResult String)) × (execute one_returns 2 (task ∷ task ∷ []) ≡ ok (some rs))
    × (result_ids rs ≡ task.task_id ∷ [])
unfolding batch
one_id = (_, refl, refl)

execute-ids_example :
    (rs : List (WorkerResult String)) × (execute one_returns 2 (task ∷ second_task ∷ [])
      ≡ ok (some rs))
    × ((id : String) → contains id (result_ids rs) ≡ contains id (ids_of (task ∷ second_task ∷ [])))
execute-ids_example = execute-ids one_returns one_returns-Completes 1 (task ∷ second_task ∷ [])

abbrev splitter : Model
splitter = record {
  chat = λ messages. ok (codes "```json\n[...]\n```");
  loads = λ text.
      if text == codes "[...]"
      then some (
          record { goal = some "read"; system_prompt = none; tool_names = none; priority = none }
          ∷ record { goal = none; system_prompt = none; tool_names = none; priority = none }
          ∷ [])
      else none;
  uuid = λ n. if leb n 0 then "u0" else "u1";
  str_of = λ n. "2";
}

two_tasks :
    (tasks : List WorkerTask) × (decompose splitter 0 "all" "here" 2 ≡ ok tasks)
    × (map (λ t. t.goal) tasks ≡ "read" ∷ "Subtask 2" ∷ [])
unfolding decompose answered tasks_of tasks_from task_of without_fence without_end
    without_first_line after_line strip rstrip lstrip starts_with ends_with
two_tasks = (_, refl, refl)

without_fence-fenced_example :
    without_fence (codes "```" ++ (codes "json" ++ 10 ∷ (codes "[...]" ++ 10 ∷ codes "```")))
    ≡ strip (codes "[...]")
without_fence-fenced_example = without_fence-fenced (codes "json") (codes "[...]") refl
