-- ===== src/Agent/Calls.antt =====
-- How often a run of agent_framework/loop.py asks the provider, and for what.
use serac.Common.{
  ◌≡◌, ◌+◌, ◌≤◌, ◌∷◌, ◌++◌, ◌&&◌, inl, inr, if◌then◌else◌, not, [], ℕ, Bool, true, false, refl,
  Option, none, some, List, arith, Bool-cases,
}
use serac.Agent.{
  ToolCall, World, Config, LoopState, Request, turn, compaction, finalization, add_usage, Reply,
  answers, throws, ChatResponse,
}
use serac.Retry.{ProviderError}
use serac.Agent.Final.{
  Outcome, gives, raises, reject, judge_tools, judge_error, judge, after_reply, ask_final,
  final_request, finalize,
}
use serac.Agent.Turn.{
  Locals, Stepped, no_calls, finalized, dispatch, guarded, unless_error, answered,
}

abbrev pub tally : (Request → Bool) → List Request → ℕ
tally p [] = 0
tally p (r ∷ rest) = (if p r then 1 else 0) + tally p rest

pub tally-append :
    (p : Request → Bool) (xs ys : List Request) → tally p (xs ++ ys) ≡ tally p xs + tally p ys
tally-append p [] ys = omega arith
tally-append p (x ∷ xs) ys = omega (arith, tally-append p xs ys)

abbrev pub is_turn : Request → Bool
is_turn r = elim r.purpose [ turn ↦ true | _ ↦ false ]

abbrev pub is_compaction : Request → Bool
is_compaction r = elim r.purpose [ compaction ↦ true | _ ↦ false ]

abbrev pub is_final : Request → Bool
is_final r = elim r.purpose [ finalization ↦ true | _ ↦ false ]

-- A request other than a turn's that offers tools.
abbrev pub misused : Request → Bool
misused r = r.with_tools && not (is_turn r)

-- The parts of the state that count.
record Same (s s' : LoopState) : Type 0 where
  requests : s'.requests ≡ s.requests
  attempted : s'.finalization_attempted ≡ s.finalization_attempted
  turn_count : s'.turn_count ≡ s.turn_count

judge_tools-Same :
    (resp : ChatResponse) (calls : List ToolCall) (s : LoopState)
    → Same s (judge_tools resp calls s).1
unfolding judge_tools reject
judge_tools-Same resp [] s = record { requests = refl; attempted = refl; turn_count = refl }
judge_tools-Same resp (_ ∷ _) s = record { requests = refl; attempted = refl; turn_count = refl }

judge_error-Same :
    (resp : ChatResponse) (e : Option ProviderError) (s : LoopState)
    → Same s (judge_error resp e s).1
unfolding judge_error reject
judge_error-Same resp none s = judge_tools-Same resp resp.tool_calls s
judge_error-Same resp (some _) s = record { requests = refl; attempted = refl; turn_count = refl }

judge-Same : (c : Config) (resp : ChatResponse) (s : LoopState) → Same s (judge c resp s).1
unfolding judge reject
judge-Same c resp s = ground (arith, judge_error-Same resp resp.error s)

after_reply-Same : (c : Config) (r : Reply) (s : LoopState) → Same s (after_reply c r s).1
unfolding after_reply
after_reply-Same c (throws e) s = record { requests = refl; attempted = refl; turn_count = refl }
after_reply-Same c (answers resp) s =
    let j = judge-Same c resp (record s { total_usage = add_usage s.total_usage resp.usage }) in
    record { requests = j.requests; attempted = j.attempted; turn_count = j.turn_count }

-- Since the requests `base`, at most `t` turns and `k` compactions have asked the provider, and a
-- final answer was asked for only if the state says so; none but a turn offered tools.
pub record Calls (base : List Request) (t k : ℕ) (s : LoopState) : Type 0 where
  pub turns : tally is_turn s.requests ≤ tally is_turn base + t
  pub compactions : tally is_compaction s.requests ≤ tally is_compaction base + k
  pub finals :
      tally is_final s.requests ≤ tally is_final base + (if s.finalization_attempted then 1 else 0)
  pub clean : tally misused s.requests ≡ tally misused base

module _ (base : List Request) where
  Calls-Same : (t k : ℕ) (s s' : LoopState) → Calls base t k s → Same s s' → Calls base t k s'
  Calls-Same t k s s' h e = record {
    turns = rw e.requests h.turns;
    compactions = rw e.requests h.compactions;
    finals = rw (e.requests, e.attempted) h.finals;
    clean = rw e.requests h.clean;
  }

  -- One more request.
  Calls-asked :
      (t k t' k' : ℕ) (s s' : LoopState) (r : Request)
      → Calls base t k s
      → s'.requests ≡ s.requests ++ r ∷ []
      → t + (if is_turn r then 1 else 0) ≡ t'
      → k + (if is_compaction r then 1 else 0) ≡ k'
      → (if s.finalization_attempted then 1 else 0) + (if is_final r then 1 else 0)
        ≤ (if s'.finalization_attempted then 1 else 0)
      → misused r ≡ false
      → Calls base t' k' s'
  Calls-asked t k t' k' s s' r h e ht hk hf hm = record {
    turns = rw (e, tally-append) (omega (arith, h.turns));
    compactions = rw (e, tally-append) (omega (arith, h.compactions));
    finals = rw (e, tally-append) (omega (arith, h.finals));
    clean = rw (e, tally-append, hm) (omega (arith, h.clean));
  }

  module _ (w : World) (c : Config) (start_time t k : ℕ) where
    abbrev AfterFinal : Outcome × LoopState → Type 0
    AfterFinal r = Calls base t k r.1

    abbrev AfterStep : Stepped → Type 0
    AfterStep r = Calls base t k r.2

    ask_final-Calls :
        (s : LoopState)
        → Calls base t k s
        → s.finalization_attempted ≡ true
        → tally is_final s.requests ≤ tally is_final base
        → AfterFinal (ask_final w c s)
    unfolding ask_final final_request
    ask_final-Calls s h a f =
        Calls-Same t k _ _
          (record {
            turns = rw tally-append (omega (arith, h.turns));
            compactions = rw tally-append (omega (arith, h.compactions));
            finals = rw (tally-append, a) (omega (arith, f));
            clean = rw tally-append (omega (arith, h.clean));
          })
          (after_reply-Same c _ _)

    pub finalize-Calls :
        (s : LoopState)
        → s.finalization_attempted ≡ false
        → Calls base t k s
        → AfterFinal (finalize w c start_time s)
    unfolding finalize reject
    finalize-Calls s a h =
        let s' : LoopState = record s { finalization_attempted = true } in
        let asked = ask_final-Calls s' (tried s' refl refl) refl none_before in
        ground (arith, asked)
      where
        none_before : tally is_final s.requests ≤ tally is_final base
        none_before = ground (arith, h.finals)

        tried :
            (s' : LoopState)
            → s'.requests ≡ s.requests
            → s'.finalization_attempted ≡ true
            → Calls base t k s'
        tried s' e b = record {
          turns = rw e h.turns;
          compactions = rw e h.compactions;
          finals = rw (e, b) (omega (arith, none_before));
          clean = rw e h.clean;
        }

    finalized-Calls :
        (l : Locals) (r : Outcome × LoopState) → AfterFinal r → AfterStep (finalized l r)
    unfolding finalized
    finalized-Calls l (gives text, s) h = h
    finalized-Calls l (raises e, s) h = h

    no_calls-Calls :
        (resp : ChatResponse) (l : Locals) (s : LoopState)
        → Calls base t k s
        → AfterStep (no_calls w c start_time resp l s)
    unfolding no_calls
    no_calls-Calls resp l s h = elim (Bool-cases s.finalization_attempted) [
      | inl e ↦ ground arith
      | inr e ↦
          let f = finalized-Calls l (finalize w c start_time s) (finalize-Calls s e h) in
          ground (arith, f)
    ]

    dispatch-Calls :
        (resp : ChatResponse) (calls : List ToolCall) (l : Locals) (s : LoopState)
        → Calls base t k s
        → AfterStep (dispatch w c start_time resp calls l s)
    unfolding dispatch
    dispatch-Calls resp [] l s h =
        no_calls-Calls resp l _
          (Calls-Same t k s _ h (record { requests = refl; attempted = refl; turn_count = refl }))
    dispatch-Calls resp (call ∷ calls) l s h =
        Calls-Same t k s _ h (record { requests = refl; attempted = refl; turn_count = refl })

    guarded-Calls :
        (resp : ChatResponse) (l : Locals) (s : LoopState)
        → Calls base t k s
        → AfterStep (guarded w c start_time resp l s)
    unfolding guarded reject
    guarded-Calls resp l s h =
        let d = dispatch-Calls resp resp.tool_calls (record l { final_text = resp.text }) s h in
        ground (arith, d)

    unless_error-Calls :
        (e : Option ProviderError) (resp : ChatResponse) (l : Locals) (s : LoopState)
        → Calls base t k s
        → AfterStep (unless_error w c start_time e resp l s)
    unfolding unless_error
    unless_error-Calls none resp l s h = guarded-Calls resp l s h
    unless_error-Calls (some _) resp l s h = h

    pub answered-Calls :
        (r : Reply) (l : Locals) (s : LoopState)
        → Calls base t k s
        → AfterStep (answered w c start_time r l s)
    unfolding answered
    answered-Calls (throws e) l s h = h
    answered-Calls (answers resp) l s h =
        let s' : LoopState = record s { total_usage = add_usage s.total_usage resp.usage } in
        let l' : Locals = record l { response = some resp } in
        let counted =
          Calls-Same t k s s' h (record { requests = refl; attempted = refl; turn_count = refl }) in
        unless_error-Calls resp.error resp l' s' counted
