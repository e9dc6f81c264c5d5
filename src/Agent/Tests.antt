-- ===== src/Agent/Tests.antt =====
-- Runs of the model of agent_framework/loop.py, and the theorems at concrete inputs.
use serac.Common.{
  suc, ◌+◌, ◌≤◌, ◌≡◌, ◌∷◌, [], true, false, String, refl, List, none, some, length, leb, All,
}
use serac.Agent.{
  Message, system, tool, ToolCall, World, Config, LoopState, Request, turn, compaction,
  finalization, Reply, answers, message, no_usage, reset, add_usage,
}
use serac.Agent.Compact.{
  steer, steering_text, calls_length, characters, estimate_tokens, compact_prompt, carryover,
  compaction_request, compacted, hard_truncate, self_compact, maybe_compact,
}
use serac.Agent.Final.{
  gives, reject, assistant_message, final_max_tokens, final_request, judge_tools, judge_error,
  judge, after_reply, ask_final, finalize,
}
use serac.Agent.Turn.{
  result_block, coalesce_results, result_messages, finalized, no_calls, dispatch, guarded,
  unless_error, answered, turn_request, ask, prepared, run_turn, turns, still_calls, wants_final,
  replaced, ended, finish, started, run,
}
use serac.Agent.Calls.{tally, is_turn, is_compaction, is_final, misused}
use serac.Agent.Run.{run-Calls}
use serac.Agent.Budget.{Settled, finalize-Settled}
use serac.Agent.History.{Headed, Good, run-Headed}

abbrev look_up : ToolCall
look_up = record { id = "c1"; name = "look_up"; arguments = "{}" }

abbrev reply : String → List ToolCall → Reply
reply text calls = answers (record {
  text = text;
  reasoning_content = "";
  tool_calls = calls;
  finish_reason = some "stop";
  usage = record { prompt_tokens = 10; completion_tokens = 5; cost = 1 };
  error = none;
})

-- Asks for a tool first, then answers nothing; the summary and the final answer have a text.
abbrev provider : List Request → Request → Reply
provider before r = elim r.purpose [
  | turn ↦ elim before [ [] ↦ reply "" (look_up ∷ []) | _ ∷ _ ↦ reply "" [] ]
  | compaction ↦ reply "short" []
  | finalization ↦ reply "done" []
]

abbrev found : Message
found = record {
  role = tool;
  content = some "42";
  tool_calls = [];
  tool_call_id = some "c1";
  tool_name = some "look_up";
}

abbrev world : World
world = record {
  chat = provider;
  execute = λ n calls ms. found ∷ [];
  has_tools = true;
  provider_coalesces = true;
  max_tokens = some 100;
  clock = λ p n. n;
  call_length = λ call. 20;
  dumps = λ ms. some "[]";
  decimal = λ n. "2";
}

abbrev config : Config
config = record {
  system_prompt = "You are an agent.";
  max_turns = 3;
  coalesce_results = true;
  finalize_empty_tool_response = true;
  finalization_prompt = "Answer now.";
  over_threshold = λ n. leb 1000 n;
  max_total_tokens = 60;
  max_wall_clock = 0;
}

abbrev idle : LoopState
idle = record {
  messages = [];
  total_usage = no_usage;
  turn_count = 0;
  finalization_attempted = false;
  last_response_rejected = false;
  last_rejection_reason = none;
  steering = "be brief" ∷ [];
  requests = [];
}

-- What a run goes through.
program : Unit {0}
unfolding steer steering_text calls_length characters estimate_tokens compact_prompt carryover
    compaction_request compacted hard_truncate self_compact maybe_compact reject assistant_message
    final_max_tokens final_request judge_tools judge_error judge after_reply ask_final finalize
    result_block coalesce_results result_messages finalized no_calls dispatch guarded unless_error
    answered turn_request ask prepared run_turn turns still_calls wants_final replaced ended finish
    started run reset add_usage
program = tt

run_text : (run world config 0 "hello" idle).0 ≡ gives "done"
unfolding program
run_text = refl

run_requests : length (run world config 0 "hello" idle).1.requests ≡ 3
unfolding program
run_requests = refl

run-Calls_example :
    let after = (run world config 0 "hello" idle).1.requests in
    (tally is_turn after ≤ tally is_turn [] + 3)
    × (tally is_compaction after ≤ tally is_compaction [] + 3)
    × (tally is_final after ≤ suc (tally is_final []))
    × (tally misused after ≡ tally misused [])
run-Calls_example = run-Calls world config 0 "hello" idle

run-Headed_example :
    let s' = (run world config 0 "hello" idle).1 in
    Headed config s'.messages × All (Good config) s'.requests
run-Headed_example = run-Headed world config 0 "hello" idle tt

finalize-Settled_example :
    Settled world config 0 idle (finalize world config 0 idle).0 (finalize world config 0 idle).1
finalize-Settled_example = finalize-Settled world config 0 idle

abbrev prompt : Message
prompt = message system "You are an agent."
