-- ===== src/Agent/History.antt =====
-- The conversation of agent_framework/loop.py: its system message, and what compaction makes of it.
use serac.Common.{
  ℕ, zero, suc, ◌≡◌, ◌⊎◌, inl, inr, ◌∷◌, ◌++◌, [], true, String, refl, List, Option, none, some,
  arith, All, All-append, Bool-cases, ltb, text_key,
}
use Prim.Native.String.{count}
use serac.Retry.{ProviderError}
use serac.Agent.{
  Message, system, ToolCall, World, Config, LoopState, Request, ChatResponse, Reply, answers,
  throws, message, reset,
}
use serac.Agent.Compact.{
  hard_truncate, take_last, compacted, self_compact, compaction_request, maybe_compact, steer,
}
use serac.Agent.Final.{
  Outcome, gives, raises, reject, judge_tools, judge_error, judge, after_reply, ask_final,
  final_request, finalize,
}
use serac.Agent.Turn.{
  Locals, continues, breaks, fails, Stepped, finalized, no_calls, dispatch, guarded, unless_error,
  answered, turn_request, ask, prepared, run_turn, turns, ended, finish, replaced, run, started,
  fresh_locals,
}
use serac.Agent.Calls.{is_compaction}

module _ (c : Config) where
  -- The first message is the system prompt of the configuration.
  abbrev pub Headed : List Message → Type 0
  Headed ms = (rest : List Message) × (ms ≡ message system c.system_prompt ∷ rest)

  -- A request for a summary, or one whose first message is the system prompt.
  abbrev pub Good : Request → Type 0
  Good r = (is_compaction r ≡ true) ⊎ Headed r.messages

  record Kept (s : LoopState) : Type 0 where
    head : Headed s.messages
    asked : All Good s.requests

  Headed-append : (ms ys : List Message) → Headed ms → Headed (ms ++ ys)
  Headed-append ms ys (rest, e) = (rest ++ ys, rw e refl)

  All-asked : (rs : List Request) (r : Request) → All Good rs → Good r → All Good (rs ++ r ∷ [])
  All-asked rs r a g = All-append Good rs (r ∷ []) a (g, tt)

  hard_truncate-Headed : (ms : List Message) → Headed ms → Headed (hard_truncate ms)
  unfolding hard_truncate
  hard_truncate-Headed ms (rest, e) = rw e (_, refl)

  compacted-Headed : (r : Reply) (ms : List Message) → Headed ms → Headed (compacted r ms)
  unfolding compacted
  compacted-Headed (throws e) ms h = h
  compacted-Headed (answers resp) ms (rest, e) = rw e (_, refl)

  self_compact-Kept :
      (w : World) (o : Option String) (s : LoopState) → Kept s → Kept (self_compact w o s)
  unfolding self_compact compaction_request
  self_compact-Kept w none s h = record {
    head = hard_truncate-Headed s.messages h.head;
    asked = h.asked;
  }
  self_compact-Kept w (some history) s h = record {
    head = compacted-Headed _ s.messages h.head;
    asked = All-asked s.requests _ h.asked (inl refl);
  }

  maybe_compact-Kept : (w : World) (s : LoopState) → Kept s → Kept (maybe_compact w c s)
  unfolding maybe_compact
  maybe_compact-Kept w s h =
      let done = self_compact-Kept w (w.dumps (take_last 30 s.messages)) s h in ground (arith, done)

  steer-Kept : (waiting : List String) (s : LoopState) → Kept s → Kept (steer waiting s)
  unfolding steer
  steer-Kept [] s h = h
  steer-Kept (msg ∷ rest) s h = elim (Bool-cases (ltb 0 (count msg))) [
    | inl e ↦ rw e (record { head = Headed-append s.messages _ h.head; asked = h.asked })
    | inr e ↦ rw e (record { head = h.head; asked = h.asked })
  ]

  prepared-Kept : (w : World) (n : ℕ) (s : LoopState) → Kept s → Kept (prepared w c n s)
  unfolding prepared
  prepared-Kept w n s h = maybe_compact-Kept w _ (
      steer-Kept s.steering (record s { turn_count = n })
        (record { head = h.head; asked = h.asked }))

  judge_tools-Kept :
      (resp : ChatResponse) (calls : List ToolCall) (s : LoopState)
      → Kept s
      → Kept (judge_tools resp calls s).1
  unfolding judge_tools reject
  judge_tools-Kept resp [] s h = record {
    head = Headed-append s.messages _ h.head;
    asked = h.asked;
  }
  judge_tools-Kept resp (_ ∷ _) s h = record { head = h.head; asked = h.asked }

  judge_error-Kept :
      (resp : ChatResponse) (e : Option ProviderError) (s : LoopState)
      → Kept s
      → Kept (judge_error resp e s).1
  unfolding judge_error reject
  judge_error-Kept resp none s h = judge_tools-Kept resp resp.tool_calls s h
  judge_error-Kept resp (some _) s h = record { head = h.head; asked = h.asked }

  judge-Kept : (resp : ChatResponse) (s : LoopState) → Kept s → Kept (judge c resp s).1
  unfolding judge reject
  judge-Kept resp s h = let j = judge_error-Kept resp resp.error s h in ground (arith, j)

  after_reply-Kept : (r : Reply) (s : LoopState) → Kept s → Kept (after_reply c r s).1
  unfolding after_reply
  after_reply-Kept (throws e) s h = h
  after_reply-Kept (answers resp) s h =
      judge-Kept resp _ (record { head = h.head; asked = h.asked })

  module _ (w : World) (start_time : ℕ) where
    ask_final-Kept : (s : LoopState) → Kept s → Kept (ask_final w c s).1
    unfolding ask_final final_request
    ask_final-Kept s h =
        let longer = Headed-append s.messages _ h.head in
        after_reply-Kept _ _
          (record { head = longer; asked = All-asked s.requests _ h.asked (inr longer) })

    finalize-Kept : (s : LoopState) → Kept s → Kept (finalize w c start_time s).1
    unfolding finalize reject
    finalize-Kept s h =
        let f =
          ask_final-Kept (record s { finalization_attempted = true })
            (record { head = h.head; asked = h.asked }) in
        ground (arith, f)

    finalized-Kept : (l : Locals) (r : Outcome × LoopState) → Kept r.1 → Kept (finalized l r).2
    unfolding finalized
    finalized-Kept l (gives text, s) h = h
    finalized-Kept l (raises e, s) h = h

    no_calls-Kept :
        (resp : ChatResponse) (l : Locals) (s : LoopState)
        → Kept s
        → Kept (no_calls w c start_time resp l s).2
    unfolding no_calls
    no_calls-Kept resp l s h =
        let f = finalized-Kept l (finalize w c start_time s) (finalize-Kept s h) in
        ground (arith, f)

    dispatch-Kept :
        (resp : ChatResponse) (calls : List ToolCall) (l : Locals) (s : LoopState)
        → Kept s
        → Kept (dispatch w c start_time resp calls l s).2
    unfolding dispatch
    dispatch-Kept resp [] l s h =
        no_calls-Kept resp l _
          (record { head = Headed-append s.messages _ h.head; asked = h.asked })
    dispatch-Kept resp (call ∷ calls) l s h = record {
      head = Headed-append _ _ (Headed-append s.messages _ h.head);
      asked = h.asked;
    }

    guarded-Kept :
        (resp : ChatResponse) (l : Locals) (s : LoopState)
        → Kept s
        → Kept (guarded w c start_time resp l s).2
    unfolding guarded reject
    guarded-Kept resp l s h =
        let d = dispatch-Kept resp resp.tool_calls (record l { final_text = resp.text }) s h in
        ground (arith, d)

    unless_error-Kept :
        (e : Option ProviderError) (resp : ChatResponse) (l : Locals) (s : LoopState)
        → Kept s
        → Kept (unless_error w c start_time e resp l s).2
    unfolding unless_error
    unless_error-Kept none resp l s h = guarded-Kept resp l s h
    unless_error-Kept (some _) resp l s h = h

    answered-Kept :
        (r : Reply) (l : Locals) (s : LoopState) → Kept s → Kept (answered w c start_time r l s).2
    unfolding answered
    answered-Kept (throws e) l s h = h
    answered-Kept (answers resp) l s h =
        unless_error-Kept resp.error resp _ _ (record { head = h.head; asked = h.asked })

    run_turn-Kept :
        (n : ℕ) (l : Locals) (s : LoopState) → Kept s → Kept (run_turn w c start_time n l s).2
    unfolding run_turn ask turn_request
    run_turn-Kept n l s h =
        let p = prepared-Kept w n s h in
        answered-Kept _ l _ (record { head = p.head; asked = All-asked _ _ p.asked (inr p.head) })

    turns-Kept : (left n : ℕ) (r : Stepped) → Kept r.2 → Kept (turns w c start_time left n r).2
    unfolding turns
    turns-Kept zero n (next, l, s) h = h
    turns-Kept (suc left) n (continues, l, s) h =
        turns-Kept left (suc n) (run_turn w c start_time n l s) (run_turn-Kept n l s h)
    turns-Kept (suc left) n (breaks, l, s) h = h
    turns-Kept (suc left) n (fails e, l, s) h = h

    replaced-Kept : (text : String) (r : Outcome × LoopState) → Kept r.1 → Kept (replaced text r).1
    unfolding replaced
    replaced-Kept text (gives final, s) h = h
    replaced-Kept text (raises e, s) h = h

    ended-Kept : (l : Locals) (s : LoopState) → Kept s → Kept (ended w c start_time l s).1
    unfolding ended
    ended-Kept l s h =
        let f = replaced-Kept l.final_text (finalize w c start_time s) (finalize-Kept s h) in
        ground (arith, f, h)

    finish-Kept : (r : Stepped) → Kept r.2 → Kept (finish w c start_time r).1
    unfolding finish
    finish-Kept (fails e, l, s) h = h
    finish-Kept (continues, l, s) h = ended-Kept l s h
    finish-Kept (breaks, l, s) h = ended-Kept l s h

-- Through turns, steering, tools, compactions and the final attempt, a run keeps the system prompt
-- as the first message of the conversation, and each request but one for a summary starts with it,
-- if the requests made before did.
pub run-Headed :
    (w : World) (c : Config) (start_time : ℕ) (user_message : String) (s : LoopState)
    → All (Good c) s.requests
    → let s' = (run w c start_time user_message s).1 in
      Headed c s'.messages × All (Good c) s'.requests
unfolding run started reset
run-Headed w c start_time user_message s a =
    let h = finish-Kept c w start_time _ (
      turns-Kept c w start_time c.max_turns 1 (continues, fresh_locals, started c user_message s)
        (record { head = (_, refl); asked = a })) in
    (h.head, h.asked)
