-- ===== src/Agent/Run.antt =====
-- A whole run of agent_framework/loop.py: how often it asks the provider, and for what.
use serac.Common.{
  ◌≡◌, ◌+◌, ◌≤◌, ◌∷◌, [], ℕ, zero, suc, String, true, false, refl, Option, none, some, List, arith,
  Bool-cases, ltb, inl, inr,
}
use serac.Agent.{LoopState, World, Config, Request, reset}
use Prim.Native.String.{count}
use serac.Agent.Compact.{steer, take_last, maybe_compact, self_compact, compaction_request}
use serac.Agent.Final.{Outcome, gives, raises, finalize}
use serac.Agent.Turn.{
  Locals, continues, breaks, fails, Stepped, ask, turn_request, prepared, run_turn, turns, finish,
  replaced, wants_final, ended, run, started, fresh_locals,
}
use serac.Agent.Calls.{
  Calls, tally, tally-append, is_turn, is_compaction, is_final, misused, answered-Calls,
  finalize-Calls,
}

module _ (base : List Request) (w : World) (c : Config) (start_time : ℕ) where
  compacted-Calls :
      (t k : ℕ) (history : Option String) (s : LoopState)
      → Calls base t k s
      → Calls base t (suc k) (self_compact w history s)
  unfolding self_compact compaction_request
  compacted-Calls t k none s h = record {
    turns = h.turns;
    compactions = omega (arith, h.compactions);
    finals = h.finals;
    clean = h.clean;
  }
  compacted-Calls t k (some history) s h = record {
    turns = rw tally-append (omega (arith, h.turns));
    compactions = rw tally-append (omega (arith, h.compactions));
    finals = rw tally-append (omega (arith, h.finals));
    clean = rw tally-append (omega (arith, h.clean));
  }

  Calls-weaken : (t k : ℕ) (s : LoopState) → Calls base t k s → Calls base t (suc k) s
  Calls-weaken t k s h = record {
    turns = h.turns;
    compactions = omega (arith, h.compactions);
    finals = h.finals;
    clean = h.clean;
  }

  maybe_compact-Calls :
      (t k : ℕ) (s : LoopState) → Calls base t k s → Calls base t (suc k) (maybe_compact w c s)
  unfolding maybe_compact
  maybe_compact-Calls t k s h =
      let done = compacted-Calls t k (w.dumps (take_last 30 s.messages)) s h in
      let kept = Calls-weaken t k s h in ground (arith, done, kept)

  steer-Calls :
      (t k : ℕ) (waiting : List String) (s : LoopState)
      → Calls base t k s
      → Calls base t k (steer waiting s)
  unfolding steer
  steer-Calls t k [] s h = h
  steer-Calls t k (msg ∷ rest) s h = elim (Bool-cases (ltb 0 (count msg))) [
    | inl e ↦ rw e (record {
      turns = h.turns;
      compactions = h.compactions;
      finals = h.finals;
      clean = h.clean;
    })
    | inr e ↦ rw e (record {
      turns = h.turns;
      compactions = h.compactions;
      finals = h.finals;
      clean = h.clean;
    })
  ]

  prepared-Calls :
      (t k n : ℕ) (s : LoopState) → Calls base t k s → Calls base t (suc k) (prepared w c n s)
  unfolding prepared
  prepared-Calls t k n s h = maybe_compact-Calls t k _ (
      steer-Calls t k s.steering (record s { turn_count = n })
        (record {
          turns = h.turns;
          compactions = h.compactions;
          finals = h.finals;
          clean = h.clean;
        }))

  ask-Calls :
      (t k : ℕ) (l : Locals) (s : LoopState)
      → Calls base t k s
      → Calls base (suc t) k (ask w c start_time l s).2
  unfolding ask turn_request
  ask-Calls t k l s h = answered-Calls base w c start_time (suc t) k _ l _ (record {
    turns = rw tally-append (omega (arith, h.turns));
    compactions = rw tally-append (omega (arith, h.compactions));
    finals = rw tally-append (omega (arith, h.finals));
    clean = rw tally-append (ground (arith, h.clean));
  })

  run_turn-Calls :
      (t k n : ℕ) (l : Locals) (s : LoopState)
      → Calls base t k s
      → Calls base (suc t) (suc k) (run_turn w c start_time n l s).2
  unfolding run_turn
  run_turn-Calls t k n l s h = ask-Calls t (suc k) l (prepared w c n s) (prepared-Calls t k n s h)

  more_Calls :
      (left t k : ℕ) (s : LoopState) → Calls base t k s → Calls base (left + t) (left + k) s
  more_Calls left t k s h = record {
    turns = omega (arith, h.turns);
    compactions = omega (arith, h.compactions);
    finals = h.finals;
    clean = h.clean;
  }

  turns-Calls :
      (left t k n : ℕ) (r : Stepped)
      → Calls base t k r.2
      → Calls base (left + t) (left + k) (turns w c start_time left n r).2
  unfolding turns
  turns-Calls zero t k n (next, l, s) h = more_Calls 0 t k s h
  turns-Calls (suc left) t k n (continues, l, s) h = later (
      turns-Calls left (suc t) (suc k) (suc n) (run_turn w c start_time n l s)
        (run_turn-Calls t k n l s h))
    where
      later :
          {s' : LoopState}
          → Calls base (left + suc t) (left + suc k) s'
          → Calls base (suc left + t) (suc left + k) s'
      later h' = record {
        turns = omega (arith, h'.turns);
        compactions = omega (arith, h'.compactions);
        finals = h'.finals;
        clean = h'.clean;
      }
  turns-Calls (suc left) t k n (breaks, l, s) h = more_Calls (suc left) t k s h
  turns-Calls (suc left) t k n (fails e, l, s) h = more_Calls (suc left) t k s h

  replaced-Calls :
      (t k : ℕ) (text : String) (r : Outcome × LoopState)
      → Calls base t k r.1
      → Calls base t k (replaced text r).1
  unfolding replaced
  replaced-Calls t k text (gives final, s) h = h
  replaced-Calls t k text (raises e, s) h = h

  not_again :
      (l : Locals) (s : LoopState) → s.finalization_attempted ≡ true → wants_final c l s ≡ false
  unfolding wants_final
  not_again l s e = ground (arith, e)

  ended-Calls :
      (t k : ℕ) (l : Locals) (s : LoopState)
      → Calls base t k s
      → Calls base t k (ended w c start_time l s).1
  unfolding ended
  ended-Calls t k l s h = elim (Bool-cases s.finalization_attempted) [
    | inl e ↦ rw (not_again l s e) h
    | inr e ↦
        let final =
          replaced-Calls t k l.final_text (finalize w c start_time s)
            (finalize-Calls base w c start_time t k s e h) in
        ground (arith, final, h)
  ]

  finish-Calls :
      (t k : ℕ) (r : Stepped) → Calls base t k r.2 → Calls base t k (finish w c start_time r).1
  unfolding finish
  finish-Calls t k (fails e, l, s) h = h
  finish-Calls t k (continues, l, s) h = ended-Calls t k l s h
  finish-Calls t k (breaks, l, s) h = ended-Calls t k l s h

-- A run asks the provider at most max_turns times for a turn, at most max_turns times for a
-- compaction and at most once for a final answer, and offers no tools but in a turn's request.
pub run-Calls :
    (w : World) (c : Config) (start_time : ℕ) (user_message : String) (s : LoopState)
    → let after = (run w c start_time user_message s).1.requests in
      (tally is_turn after ≤ tally is_turn s.requests + c.max_turns)
      × (tally is_compaction after ≤ tally is_compaction s.requests + c.max_turns)
      × (tally is_final after ≤ suc (tally is_final s.requests))
      × (tally misused after ≡ tally misused s.requests)
unfolding run started reset
run-Calls w c start_time user_message s =
    let h = finish-Calls s.requests w c start_time (c.max_turns + 0) (c.max_turns + 0) _ (
      turns-Calls s.requests w c start_time c.max_turns 0 0 1
        (continues, fresh_locals, started c user_message s)
        (record {
          turns = omega arith;
          compactions = omega arith;
          finals = omega arith;
          clean = refl;
        })) in
    (omega (arith, h.turns), omega (arith, h.compactions), ground (arith, h.finals), h.clean)
