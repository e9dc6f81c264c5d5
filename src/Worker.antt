-- ===== src/Worker.antt =====
-- agent_framework/worker_manager.py: one worker, from the model pool to its result. The pool, the
-- registry of tools and the agent's loop are those of the modules Pool, Tools and Agent. `P` is the
-- type of providers, `C` of costs, `J` of JSON values, `I` of the items of a todo list.
pub mod Restore
pub mod Filter
pub mod Batch
pub mod Results
pub mod Decompose
pub mod Tests
use Prim.Native.String.{count}
use serac.Common.{
  ℕ, ◌-◌, String, Bool, Option, none, some, List, [], ◌∷◌, if◌then◌else◌, ltb, Result, ok, err,
  ◌>>=◌, text_key,
}
use serac.Common.Dict
use serac.Common.Dict.{Dict}
use serac.Common.Int.{ℤ}
use serac.Common.Text.{concat}
use serac.Pool.{ModelPool, PoolRoutingResult, PoolError, at_capacity, route, release}
use serac.Tools.{ToolDef, RegistryError, register}
use serac.Agent.{UsageStats, no_usage, World, Config, LoopState}
use serac.Agent.Final.{Outcome, gives, raises}
use serac.Agent.Turn.{run}

pub record WorkerTask : Type 0 where
  pub task_id : String
  pub goal : String
  pub context : String
  pub system_prompt : String
  pub tool_names : Option (List String)
  pub max_turns : ℕ
  pub priority : ℤ

pub record WorkerResult (I : Type 0) : Type 0 where
  pub task_id : String
  pub success : Bool
  pub output : String
  pub error : String
  pub duration : ℕ
  pub turns_used : ℕ
  pub usage : UsageStats
  pub todo_state : List I

-- What a worker's thread meets: how the loop sees a provider and a registry of tools, the threshold
-- of its compactions, the start and the end of the worker on the clock, the text of an exception of
-- the registry, and the todo list that is in the workspace when the loop has ended.
pub record Setting (P J I : Type 0) : Type 0 where
  pub world : P → Dict String (ToolDef J) → World
  pub over_threshold : ℕ → Bool
  pub start : ℕ
  pub end : ℕ
  pub registry_text : RegistryError → String
  pub todo_state : List I

abbrev pub default_system_prompt : String
default_system_prompt =
    "You are a focused worker agent. Complete the task described below. Be concise and return your final result clearly."

abbrev pub default_finalization_prompt : String
default_finalization_prompt =
    "The read-only tool results are complete. Return the final answer now as content only in the requested format. Use only the information already in this conversation. Do not call tools."

module _ {J : Type 0} where
  unfoldable pub add_each :
      Dict String (ToolDef J)
      → Dict String (ToolDef J)
      → Result RegistryError (Dict String (ToolDef J))
  add_each [] filtered = ok filtered
  add_each ((name, t) ∷ tools) filtered = register t filtered >>= λ more. add_each tools more

  unfoldable pub add_known :
      Option (ToolDef J) → Dict String (ToolDef J) → Result RegistryError (Dict String (ToolDef J))
  add_known none filtered = ok filtered
  add_known (some t) filtered = register t filtered

  unfoldable pub add_named :
      Dict String (ToolDef J)
      → List String
      → Dict String (ToolDef J)
      → Result RegistryError (Dict String (ToolDef J))
  add_named tools [] filtered = ok filtered
  add_named tools (name ∷ rest) filtered =
      add_known (Dict.get name tools) filtered >>= λ more. add_named tools rest more

  -- _filter_tools
  unfoldable pub filter_tools :
      Dict String (ToolDef J)
      → Option (List String)
      → Result RegistryError (Dict String (ToolDef J))
  filter_tools tools none = add_each tools []
  filter_tools tools (some names) = add_named tools names []

unfoldable pub user_message : WorkerTask → String
user_message task =
    if ltb 0 (count task.context)
    then concat ("[CONTEXT]\n" ∷ task.context ∷ "\n\n[TASK]\n" ∷ task.goal ∷ [])
    else task.goal

unfoldable pub loop_config : (ℕ → Bool) → WorkerTask → Config
loop_config over_threshold task = record {
  system_prompt =
      if ltb 0 (count task.system_prompt) then task.system_prompt else default_system_prompt;
  max_turns = task.max_turns;
  coalesce_results = Bool.true;
  finalize_empty_tool_response = Bool.false;
  finalization_prompt = default_finalization_prompt;
  over_threshold = over_threshold;
  max_total_tokens = 0;
  max_wall_clock = 0;
}

-- AgentLoop.__init__, with no steering queue
abbrev pub new_loop : LoopState
new_loop = record {
  messages = [];
  total_usage = no_usage;
  turn_count = 0;
  finalization_attempted = Bool.false;
  last_response_rejected = Bool.false;
  last_rejection_reason = none;
  steering = [];
  requests = [];
}

module _ {P J I : Type 0} (e : Setting P J I) (tools : Dict String (ToolDef J))
    (task : WorkerTask) where
  -- The result of the `except` block.
  abbrev pub failed : String → WorkerResult I
  failed error = record {
    task_id = task.task_id;
    success = Bool.false;
    output = "";
    error = error;
    duration = e.end - e.start;
    turns_used = 0;
    usage = no_usage;
    todo_state = [];
  }

  unfoldable pub finished : Outcome × LoopState → WorkerResult I
  finished (raises error, s) = failed error
  finished (gives output, s) = record {
    task_id = task.task_id;
    success = Bool.true;
    output = output;
    error = "";
    duration = e.end - e.start;
    turns_used = s.turn_count;
    usage = s.total_usage;
    todo_state = e.todo_state;
  }

  unfoldable pub run_with : P → Result RegistryError (Dict String (ToolDef J)) → WorkerResult I
  run_with provider (err error) = failed (e.registry_text error)
  run_with provider (ok worker_tools) = finished (
      run (e.world provider worker_tools) (loop_config e.over_threshold task) e.start
        (user_message task) new_loop)

  module _ {C : Type 0} where
    -- Behind `route`: the `finally` block releases the slot that was routed.
    unfoldable pub routed_worker :
        ModelPool P C
        → Result PoolError (PoolRoutingResult P C × ModelPool P C)
        → WorkerResult I × ModelPool P C
    routed_worker pool (err at_capacity) = (failed "All provider slots at capacity", pool)
    routed_worker pool (ok (routing, pool')) = (
      run_with routing.provider (filter_tools tools task.tool_names),
      release routing.slot_id pool',
    )

    -- _execute_worker
    unfoldable pub execute_worker : ModelPool P C → WorkerResult I × ModelPool P C
    execute_worker pool = routed_worker pool (route pool)
