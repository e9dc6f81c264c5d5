-- ===== src/Agent/Budget.antt =====
-- The attempt of a final answer in agent_framework/loop.py: how it ends.
use serac.Common.{
  ◌&&◌, ◌-◌, ◌<◌, subst, ap, ℕ, Option, length, ◌≡◌, ◌≤◌, text_key, ◌⊎◌, inl, inr, ◌∷◌, ◌++◌, [],
  String, Bool, true, refl, List, some, none, arith, Bool-cases, ltb, leb,
}
use serac.Retry.{ProviderError}
use serac.Agent.{
  message, user, World, Config, LoopState, Rejection, finalization, ChatResponse, Reply, answers,
  throws, used, ToolCall, add_usage, token_budget_exhausted, wall_clock_exhausted,
  token_budget_exceeded, provider_failed, unexpected_tool_calls,
}
use serac.Agent.Final.{
  Outcome, gives, raises, reject, judge_tools, judge_error, judge, after_reply, ask_final,
  final_request, final_max_tokens, finalize, assistant_message,
}

-- No budget is set, or no more than it is used.
abbrev pub Within : Config → LoopState → Type 0
Within c s = (c.max_total_tokens ≡ 0) ⊎ (used s.total_usage ≤ c.max_total_tokens)

abbrev pub Exceeded : Config → ℕ → Type 0
Exceeded c n = (0 < c.max_total_tokens) × (c.max_total_tokens < n)

-- The request for the final answer, and the reply to it.
abbrev pub asked : World → Config → LoopState → Reply
asked w c s = w.chat s.requests (final_request w c s)

-- Why no answer is accepted: before the request a budget is used up; behind it the tokens exceed the
-- budget, or the response has an error or calls tools.
pub data Refused (w : World) (c : Config) (start_time : ℕ) (s : LoopState)
    : Rejection → Type 0 where
  exhausted :
      0 < c.max_total_tokens
      → c.max_total_tokens ≤ used s.total_usage
      → Refused w c start_time s token_budget_exhausted
  late :
      Within c s
      → 0 < c.max_wall_clock
      → c.max_wall_clock ≤ w.clock finalization (length s.requests) - start_time
      → Refused w c start_time s wall_clock_exhausted
  exceeded :
      (resp : ChatResponse)
      → asked w c s ≡ answers resp
      → Exceeded c (used (add_usage s.total_usage resp.usage))
      → Refused w c start_time s token_budget_exceeded
  with_error :
      (resp : ChatResponse) (e : ProviderError)
      → asked w c s ≡ answers resp
      → resp.error ≡ some e
      → Refused w c start_time s provider_failed
  with_calls :
      (resp : ChatResponse) (call : ToolCall) (calls : List ToolCall)
      → asked w c s ≡ answers resp
      → resp.tool_calls ≡ call ∷ calls
      → Refused w c start_time s unexpected_tool_calls

-- How the attempt of a final answer from the state `s` ends: the answer is refused and the text is
-- empty; or the text of the provider's response is accepted, within the budget and as the last message;
-- or the provider raises, and its exception leaves the attempt.
pub data Settled (w : World) (c : Config) (start_time : ℕ) (s : LoopState)
    : Outcome → LoopState → Type 0 where
  refused :
      (reason : Rejection) (s' : LoopState)
      → Refused w c start_time s reason
      → s'.last_response_rejected ≡ true
      → s'.last_rejection_reason ≡ some reason
      → Settled w c start_time s (gives "") s'
  accepted :
      (resp : ChatResponse) (s' : LoopState)
      → asked w c s ≡ answers resp
      → resp.error ≡ none
      → resp.tool_calls ≡ []
      → s'.total_usage ≡ add_usage s.total_usage resp.usage
      → Within c s'
      → s'.messages
        ≡ (s.messages ++ message user c.finalization_prompt ∷ [])
          ++ assistant_message resp.text [] ∷ []
      → s'.last_response_rejected ≡ s.last_response_rejected
      → Settled w c start_time s (gives resp.text) s'
  failed :
      (e : String) (s' : LoopState)
      → asked w c s ≡ throws e
      → s'.messages ≡ s.messages ++ message user c.finalization_prompt ∷ []
      → Settled w c start_time s (raises e) s'

module _ (w : World) (c : Config) (start_time : ℕ) (s : LoopState) where
  abbrev Asked : ChatResponse → LoopState → Type 0
  Asked resp s' =
      (asked w c s ≡ answers resp)
      × (s'.messages ≡ s.messages ++ message user c.finalization_prompt ∷ [])
      × (s'.last_response_rejected ≡ s.last_response_rejected)
      × (s'.total_usage ≡ add_usage s.total_usage resp.usage)

  reject-Settled :
      (reason : Rejection) (s' : LoopState)
      → Refused w c start_time s reason
      → Settled w c start_time s (gives "") (reject reason s')
  unfolding reject
  reject-Settled reason s' why = refused reason _ why refl refl

  judge_tools-Settled :
      (resp : ChatResponse) (calls : List ToolCall) (s' : LoopState)
      → resp.tool_calls ≡ calls
      → resp.error ≡ none
      → Asked resp s'
      → Within c s'
      → Settled w c start_time s (gives (judge_tools resp calls s').0) (judge_tools resp calls s').1
  unfolding judge_tools
  judge_tools-Settled resp [] s' t n (a, m, r, u) h = accepted resp _ a n t u h (rw m refl) r
  judge_tools-Settled resp (call ∷ calls) s' t n (a, m, r, u) h =
      reject-Settled _ s' (with_calls resp call calls a t)

  judge_error-Settled :
      (resp : ChatResponse) (e : Option ProviderError) (s' : LoopState)
      → resp.error ≡ e
      → Asked resp s'
      → Within c s'
      → Settled w c start_time s (gives (judge_error resp e s').0) (judge_error resp e s').1
  unfolding judge_error
  judge_error-Settled resp none s' n a h = judge_tools-Settled resp resp.tool_calls s' refl n a h
  judge_error-Settled resp (some e) s' n (a, m, r, u) h =
      reject-Settled _ s' (with_error resp e a n)

  judge-Settled :
      (resp : ChatResponse) (s' : LoopState)
      → Asked resp s'
      → Settled w c start_time s (gives (judge c resp s').0) (judge c resp s').1
  unfolding judge
  judge-Settled resp s' a = elim (Bool-cases over) [
    | inl e ↦ rw e (reject-Settled _ s' (exceeded resp a.0 (ground (arith, e), over_budget e)))
    | inr e ↦ rw e (judge_error-Settled resp resp.error s' refl a (ground (arith, e)))
  ]
    where
      over : Bool
      over = ltb 0 c.max_total_tokens && ltb c.max_total_tokens (used s'.total_usage)

      over_budget : over ≡ true → c.max_total_tokens < used (add_usage s.total_usage resp.usage)
      over_budget e = subst (λ u. c.max_total_tokens < used u) a.3 (ground (arith, e))

  after_reply-Settled :
      (r : Reply) (s' : LoopState)
      → asked w c s ≡ r
      → s'.messages ≡ s.messages ++ message user c.finalization_prompt ∷ []
      → s'.last_response_rejected ≡ s.last_response_rejected
      → s'.total_usage ≡ s.total_usage
      → Settled w c start_time s (after_reply c r s').0 (after_reply c r s').1
  unfolding after_reply
  after_reply-Settled (throws e) s' a m r u = failed e s' a m
  after_reply-Settled (answers resp) s' a m r u =
      judge-Settled resp _ (a, m, r, ap (λ t. add_usage t resp.usage) u)

-- An attempt of a final answer ends in one of three ways. It is refused, with a reason that holds and an
-- empty text: the token budget or the time is used up before the request, or the response exceeds the
-- budget, reports an error or calls tools. Or the text of the response is accepted, which has neither an
-- error nor tool calls and is within the budget, and the messages are the old ones with the prompt and the
-- answer. Or the provider raises on the request, and that exception is passed on.
pub finalize-Settled :
    (w : World) (c : Config) (start_time : ℕ) (s : LoopState)
    → Settled w c start_time s (finalize w c start_time s).0 (finalize w c start_time s).1
unfolding finalize ask_final final_request final_max_tokens
finalize-Settled w c start_time s =
    let tried : LoopState = record s { finalization_attempted = true } in
    elim (Bool-cases spent) [
      | inl e ↦ rw e (
          reject-Settled w c start_time s _ tried
            (exhausted (ground (arith, e)) (ground (arith, e))))
      | inr e ↦ elim (Bool-cases behind) [
        | inl f ↦
            rw (e, f)
              (reject-Settled w c start_time s _ tried
                (late (ground (arith, e)) (ground (arith, f)) (ground (arith, f))))
        | inr f ↦ rw (e, f) (after_reply-Settled w c start_time s _ _ refl refl refl refl)
      ]
    ]
  where
    spent : Bool
    spent = ltb 0 c.max_total_tokens && leb c.max_total_tokens (used s.total_usage)

    behind : Bool
    behind =
        ltb 0 c.max_wall_clock
        && leb c.max_wall_clock (w.clock finalization (length s.requests) - start_time)
