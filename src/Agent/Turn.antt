-- ===== src/Agent/Turn.antt =====
-- `run` and `_run_loop` of agent_framework/loop.py: the turns, and the attempt of a final answer.
use Prim.Native.String.{count}
use serac.Common.{
  ℕ, zero, suc, ◌-◌, ◌&&◌, String, Bool, true, false, not, Option, none, some, List, [], ◌∷◌, ◌++◌,
  map, if◌then◌else◌, length, ltb, leb, ◌==◌, text_key, nat_beq,
}
use serac.Common.Dict.{or_else}
use serac.Common.Text.{concat, join}
use serac.Retry.{ProviderError}
use serac.Agent.{
  Message, system, user, message, ToolCall, World, Config, LoopState, Request, turn, Reply, answers,
  throws, ChatResponse, truncated, used, add_usage, reset,
}
use serac.Agent.Compact.{steer, maybe_compact}
use serac.Agent.Final.{Outcome, gives, raises, reject, assistant_message, finalize}

-- The variables of `_run_loop`.
pub record Locals : Type 0 where
  pub final_text : String
  pub tools_executed : Bool
  pub response : Option ChatResponse

-- How a turn ends: the loop goes on, it is left, or an exception of the provider ends the run.
pub data Next : Type 0 where
  continues : Next
  breaks : Next
  fails : String → Next

abbrev pub Stepped : Type 0
Stepped = Next × Locals × LoopState

unfoldable pub result_block : Message → String
result_block r = concat (
    "## "
    ∷ or_else r.tool_name "unknown"
    ∷ " (id="
    ∷ or_else r.tool_call_id "no-id"
    ∷ ")\n"
    ∷ or_else r.content ""
    ∷ [])

unfoldable pub coalesce_results : World → List Message → Message
coalesce_results w results = message user (
    concat (
      "[TOOL_RESULTS — batch of "
      ∷ w.decimal (length results)
      ∷ "]\n\n"
      ∷ join "\n\n---\n\n" (map result_block results)
      ∷ []))

-- The messages that the results of the tools become.
unfoldable pub result_messages : World → Config → List Message → List Message
result_messages w c results =
    if c.coalesce_results && w.provider_coalesces && ltb 1 (length results)
    then coalesce_results w results ∷ []
    else results

-- No tool calls: the loop is left, after a final attempt if the text is empty and tools have run.
unfoldable pub finalized : Locals → Outcome × LoopState → Stepped
finalized l (gives text, s) = (breaks, record l { final_text = text }, s)
finalized l (raises e, s) = (fails e, l, s)

unfoldable pub no_calls : World → Config → ℕ → ChatResponse → Locals → LoopState → Stepped
no_calls w c start_time resp l s =
    if nat_beq (count resp.text) 0
      && l.tools_executed
      && c.finalize_empty_tool_response
      && not s.finalization_attempted
    then finalized l (finalize w c start_time s)
    else (breaks, l, s)

-- Behind the guards: the assistant's message, and the tools that it calls.
unfoldable pub dispatch :
    World → Config → ℕ → ChatResponse → List ToolCall → Locals → LoopState → Stepped
dispatch w c start_time resp [] l s =
    no_calls w c start_time resp l
      (record s { messages = s.messages ++ assistant_message resp.text [] ∷ [] })
dispatch w c start_time resp (call ∷ calls) l s =
    let said = s.messages ++ assistant_message resp.text (call ∷ calls) ∷ [] in
    let results = w.execute s.turn_count (call ∷ calls) said in
    (
      continues,
      record l { tools_executed = true },
      record s { messages = said ++ result_messages w c results },
    )

-- The guards behind a response with no error, in their order.
unfoldable pub guarded : World → Config → ℕ → ChatResponse → Locals → LoopState → Stepped
guarded w c start_time resp l s =
    let l' = record l { final_text = resp.text } in
    let next = dispatch w c start_time resp resp.tool_calls l' s in
    if or_else resp.finish_reason "" == "length"
    then (
      breaks,
      record l { final_text = "" },
      reject (truncated (ltb 0 (count resp.reasoning_content))) s,
    )
    else if ltb 0 c.max_total_tokens && leb c.max_total_tokens (used s.total_usage)
    then (breaks, l', s)
    else if ltb 0 c.max_wall_clock
        && leb c.max_wall_clock (w.clock turn (length s.requests) - start_time)
    then (breaks, l', s)
    else next

unfoldable pub unless_error :
    World → Config → ℕ → Option ProviderError → ChatResponse → Locals → LoopState → Stepped
unless_error w c start_time (some _) resp l s = (breaks, l, s)
unless_error w c start_time none resp l s = guarded w c start_time resp l s

unfoldable pub answered : World → Config → ℕ → Reply → Locals → LoopState → Stepped
answered w c start_time (throws e) l s = (fails e, l, s)
answered w c start_time (answers resp) l s =
    let s' = record s { total_usage = add_usage s.total_usage resp.usage } in
    let l' = record l { response = some resp } in unless_error w c start_time resp.error resp l' s'

unfoldable pub turn_request : World → LoopState → Request
turn_request w s = record {
  purpose = turn;
  messages = s.messages;
  with_tools = w.has_tools;
  max_tokens = w.max_tokens;
}

-- The state in which turn `n` asks the provider.
unfoldable pub prepared : World → Config → ℕ → LoopState → LoopState
prepared w c n s = let s' = record s { turn_count = n } in maybe_compact w c (steer s'.steering s')

unfoldable pub ask : World → Config → ℕ → Locals → LoopState → Stepped
ask w c start_time l s =
    let request = turn_request w s in
    answered w c start_time (w.chat s.requests request) l
      (record s { requests = s.requests ++ request ∷ [] })

-- Turn `n`.
unfoldable pub run_turn : World → Config → ℕ → ℕ → Locals → LoopState → Stepped
run_turn w c start_time n l s = ask w c start_time l (prepared w c n s)

-- The loop from turn `n` on, with `left` turns to go.
unfoldable pub turns : World → Config → ℕ → ℕ → ℕ → Stepped → Stepped
turns w c start_time zero n (next, l, s) = (next, l, s)
turns w c start_time (suc left) n (continues, l, s) =
    turns w c start_time left (suc n) (run_turn w c start_time n l s)
turns w c start_time (suc left) n (breaks, l, s) = (breaks, l, s)
turns w c start_time (suc left) n (fails e, l, s) = (fails e, l, s)

-- Behind the loop: the last response still asks for tools, and no final answer was tried.
unfoldable pub still_calls : Option ChatResponse → Bool
still_calls none = false
still_calls (some resp) =
    ltb 0 (length resp.tool_calls) && (elim resp.error [ none ↦ true | some _ ↦ false ])

unfoldable pub wants_final : Config → Locals → LoopState → Bool
wants_final c l s =
    still_calls l.response && c.finalize_empty_tool_response && not s.finalization_attempted

-- A final text that is empty leaves the last one.
unfoldable pub replaced : String → Outcome × LoopState → Outcome × LoopState
replaced text (raises e, s) = (raises e, s)
replaced text (gives final, s) = (gives (if ltb 0 (count final) then final else text), s)

unfoldable pub ended : World → Config → ℕ → Locals → LoopState → Outcome × LoopState
ended w c start_time l s =
    if wants_final c l s
    then replaced l.final_text (finalize w c start_time s)
    else (gives l.final_text, s)

unfoldable pub finish : World → Config → ℕ → Stepped → Outcome × LoopState
finish w c start_time (fails e, l, s) = (raises e, s)
finish w c start_time (continues, l, s) = ended w c start_time l s
finish w c start_time (breaks, l, s) = ended w c start_time l s

abbrev pub fresh_locals : Locals
fresh_locals = record { final_text = ""; tools_executed = false; response = none }

-- The state in which the first turn starts.
unfoldable pub started : Config → String → LoopState → LoopState
started c user_message s = record (reset s) {
  messages = message system c.system_prompt ∷ message user user_message ∷ [];
}

unfoldable pub run : World → Config → ℕ → String → LoopState → Outcome × LoopState
run w c start_time user_message s =
    finish w c start_time
      (turns w c start_time c.max_turns 1 (continues, fresh_locals, started c user_message s))
