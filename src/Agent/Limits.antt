-- ===== src/Agent/Limits.antt =====
-- The token budget in the turns of agent_framework/loop.py.
use Prim.Native.String.{count}
use serac.Common.Dict.{or_else}
use serac.Common.{
  ◌&&◌, ◌-◌, ℕ, Option, length, ◌≡◌, ◌<◌, not, nat_beq, ◌==◌, text_key, ◌⊎◌, inl, inr, ◌∷◌, [],
  Bool, List, some, none, arith, Bool-cases, ltb, leb,
}
use serac.Retry.{ProviderError}
use serac.Agent.{
  World, Config, LoopState, turn, ChatResponse, Reply, answers, throws, used, ToolCall,
}
use serac.Agent.Final.{Outcome, gives, raises, finalize}
use serac.Agent.Turn.{
  Locals, Next, continues, breaks, fails, unless_error, finalized, no_calls, dispatch, guarded,
  answered, ask, run_turn,
}

-- What a turn that goes on has left of the token budget.
abbrev pub GoesOn : Config → Next → LoopState → Type 0
GoesOn c continues s = (c.max_total_tokens ≡ 0) ⊎ (used s.total_usage < c.max_total_tokens)
GoesOn c breaks s = Unit
GoesOn c (fails e) s = Unit

module _ (w : World) (c : Config) (start_time : ℕ) where
  finalized-GoesOn :
      (l : Locals) (r : Outcome × LoopState) → GoesOn c (finalized l r).0 (finalized l r).2
  unfolding finalized
  finalized-GoesOn l (gives text, s) = tt
  finalized-GoesOn l (raises e, s) = tt

  no_calls-GoesOn :
      (resp : ChatResponse) (l : Locals) (s : LoopState)
      → GoesOn c (no_calls w c start_time resp l s).0 (no_calls w c start_time resp l s).2
  unfolding no_calls
  no_calls-GoesOn resp l s = elim (Bool-cases tries) [
    | inl e ↦ rw e (finalized-GoesOn l (finalize w c start_time s))
    | inr e ↦ rw e tt
  ]
    where
      tries : Bool
      tries =
          nat_beq (count resp.text) 0
          && l.tools_executed
          && c.finalize_empty_tool_response
          && not s.finalization_attempted

  dispatch-GoesOn :
      (resp : ChatResponse) (calls : List ToolCall) (l : Locals) (s : LoopState)
      → (c.max_total_tokens ≡ 0) ⊎ (used s.total_usage < c.max_total_tokens)
      → GoesOn c
          (dispatch w c start_time resp calls l s).0
          (dispatch w c start_time resp calls l s).2
  unfolding dispatch
  dispatch-GoesOn resp [] l s h = no_calls-GoesOn resp l _
  dispatch-GoesOn resp (call ∷ calls) l s h = h

  guarded-GoesOn :
      (resp : ChatResponse) (l : Locals) (s : LoopState)
      → GoesOn c (guarded w c start_time resp l s).0 (guarded w c start_time resp l s).2
  unfolding guarded
  guarded-GoesOn resp l s = elim (Bool-cases cut) [
    | inl e ↦ rw e tt
    | inr e ↦ elim (Bool-cases spent) [
      | inl f ↦ rw (e, f) tt
      | inr f ↦ elim (Bool-cases late) [
        | inl g ↦ rw (e, f, g) tt
        | inr g ↦ rw (e, f, g) (dispatch-GoesOn resp resp.tool_calls _ s (ground (arith, f)))
      ]
    ]
  ]
    where
      cut : Bool
      cut = or_else resp.finish_reason "" == "length"

      spent : Bool
      spent = ltb 0 c.max_total_tokens && leb c.max_total_tokens (used s.total_usage)

      late : Bool
      late =
          ltb 0 c.max_wall_clock
          && leb c.max_wall_clock (w.clock turn (length s.requests) - start_time)

  failed_or-GoesOn :
      (e : Option ProviderError) (resp : ChatResponse) (l : Locals) (s : LoopState)
      → GoesOn c
          (unless_error w c start_time e resp l s).0
          (unless_error w c start_time e resp l s).2
  unfolding unless_error
  failed_or-GoesOn none resp l s = guarded-GoesOn resp l s
  failed_or-GoesOn (some _) resp l s = tt

  answered-GoesOn :
      (r : Reply) (l : Locals) (s : LoopState)
      → GoesOn c (answered w c start_time r l s).0 (answered w c start_time r l s).2
  unfolding answered
  answered-GoesOn (throws e) l s = tt
  answered-GoesOn (answers resp) l s = failed_or-GoesOn resp.error resp _ _

  -- Where a turn lets the loop go on, no token budget is set or the tokens used so far, this
  -- turn's included, are fewer than it.
  pub run_turn-GoesOn :
      (n : ℕ) (l : Locals) (s : LoopState)
      → GoesOn c (run_turn w c start_time n l s).0 (run_turn w c start_time n l s).2
  unfolding run_turn ask
  run_turn-GoesOn n l s = answered-GoesOn _ l _
