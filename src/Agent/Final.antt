-- ===== src/Agent/Final.antt =====
-- `_finalize_empty_tool_response` of agent_framework/loop.py: one tool-free call for a final answer.
use Prim.Native.String.{count}
use serac.Common.{
  ℕ, ◌-◌, ◌&&◌, min, String, true, false, Option, none, some, List, [], ◌∷◌, ◌++◌, if◌then◌else◌,
  length, ltb, leb,
}
use serac.Retry.{ProviderError}
use serac.Agent.{
  Message, user, assistant, message, World, Config, LoopState, Request, finalization, Reply,
  answers, throws, ChatResponse, Rejection, token_budget_exhausted, wall_clock_exhausted,
  token_budget_exceeded, provider_failed, unexpected_tool_calls, used, add_usage, ToolCall,
}

-- What a call that may let an exception of the provider through gives: the exception, or a text.
pub data Outcome : Type 0 where
  gives : String → Outcome
  raises : String → Outcome

unfoldable pub reject : Rejection → LoopState → LoopState
reject reason s = record s { last_response_rejected = true; last_rejection_reason = some reason }

-- The assistant's message; an empty text or list is left out.
unfoldable pub assistant_message : String → List ToolCall → Message
assistant_message text calls = record {
  role = assistant;
  content = if ltb 0 (count text) then some text else none;
  tool_calls = calls;
  tool_call_id = none;
  tool_name = none;
}

-- provider.max_tokens for the final call: what is left of the token budget, if that is less.
unfoldable pub final_max_tokens : World → Config → LoopState → Option ℕ
final_max_tokens w c s = elim w.max_tokens [
  | none ↦ none
  | some original ↦
      if ltb 0 c.max_total_tokens
      then some (min original (c.max_total_tokens - used s.total_usage))
      else some original
]

unfoldable pub final_request : World → Config → LoopState → Request
final_request w c s = record {
  purpose = finalization;
  messages = s.messages ++ message user c.finalization_prompt ∷ [];
  with_tools = false;
  max_tokens = final_max_tokens w c s;
}

-- The response, with its usage counted: the tests in the order of the source.
unfoldable pub judge_tools : ChatResponse → List ToolCall → LoopState → String × LoopState
judge_tools resp [] s =
    (resp.text, record s { messages = s.messages ++ assistant_message resp.text [] ∷ [] })
judge_tools resp (_ ∷ _) s = ("", reject unexpected_tool_calls s)

unfoldable pub judge_error : ChatResponse → Option ProviderError → LoopState → String × LoopState
judge_error resp (some _) s = ("", reject provider_failed s)
judge_error resp none s = judge_tools resp resp.tool_calls s

unfoldable pub judge : Config → ChatResponse → LoopState → String × LoopState
judge c resp s =
    let later = judge_error resp resp.error s in
    if ltb 0 c.max_total_tokens && ltb c.max_total_tokens (used s.total_usage)
    then ("", reject token_budget_exceeded s)
    else later

unfoldable pub after_reply : Config → Reply → LoopState → Outcome × LoopState
after_reply c (throws e) s = (raises e, s)
after_reply c (answers resp) s =
    let (text, s') = judge c resp (record s { total_usage = add_usage s.total_usage resp.usage }) in
    (gives text, s')

unfoldable pub ask_final : World → Config → LoopState → Outcome × LoopState
ask_final w c s =
    let request = final_request w c s in
    after_reply c (w.chat s.requests request)
      (record s { messages = request.messages; requests = s.requests ++ request ∷ [] })

unfoldable pub finalize : World → Config → ℕ → LoopState → Outcome × LoopState
finalize w c start_time s0 =
    let s = record s0 { finalization_attempted = true } in
    if ltb 0 c.max_total_tokens && leb c.max_total_tokens (used s.total_usage)
    then (gives "", reject token_budget_exhausted s)
    else if ltb 0 c.max_wall_clock
        && leb c.max_wall_clock (w.clock finalization (length s.requests) - start_time)
    then (gives "", reject wall_clock_exhausted s)
    else ask_final w c s
