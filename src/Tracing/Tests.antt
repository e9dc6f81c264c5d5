-- ===== src/Tracing/Tests.antt =====
-- Runs of tracing.py. Times and values are natural numbers.
use serac.Common.{
  ℕ, zero, suc, ◌≡◌, ◌+◌, ◌-◌, ◌∷◌, [], List, map, String, true, false, Option, none, some, refl,
}
use serac.Common.Dict
use serac.Common.Int.{ℤ, pos, negsuc}
use serac.Tracing.{
  Setting, Span, Tracer, Outcome, returned, raised, trace_id, entered, start_span, finish, emit,
  span, record_span, record_model_call, record_tool_call, record_compaction, close, set_trace_id,
  clear_trace, summary,
}
use serac.Tracing.Nesting.{record_span-Grows, span-finished, error_of}

abbrev number : ℤ → ℕ
number (pos n) = n
number (negsuc n) = 0

abbrev id : ℕ → String
id zero = "a"
id (suc zero) = "b"
id (suc (suc zero)) = "c"
id (suc (suc (suc n))) = "d"

abbrev setting : Setting ℕ ℕ
setting = record {
  elapsed = λ start end. end - start;
  uuid_8 = id;
  uuid_12 = id;
  text = λ s. 0;
  int = number;
  minus = λ a b. a;
  nil = 0;
  plus = λ a b. some (a + b);
}

abbrev tracer : Tracer ℕ ℕ
tracer = record {
  current_trace_id = some "run";
  current_span_id = none;
  drawn = 0;
  run_id = "r";
  enable = true;
  file = some [];
  spans = [];
}

abbrev nothing : Tracer ℕ ℕ → Outcome × Tracer ℕ ℕ
nothing t = (returned, t)

abbrev one_call : Tracer ℕ ℕ → Outcome × Tracer ℕ ℕ
one_call t = (raised "late", record_span setting "tool.look" "tool" [] none 5 6 t)

abbrev nested : Outcome × Tracer ℕ ℕ
nested = span setting "turn" "internal" [] 1 9 one_call tracer

program : Unit {0}
unfolding Dict.get trace_id entered start_span finish emit span record_span record_model_call
    record_tool_call record_compaction close set_trace_id clear_trace summary
program = tt

abbrev parents : Tracer ℕ ℕ → List (Option String)
parents t = map (λ s. s.parent_span_id) t.spans

child_of_turn : parents nested.1 ≡ none ∷ some "a" ∷ []
unfolding program
child_of_turn = refl

one_error : (summary setting nested.1).errors ≡ 1
unfolding program
one_error = refl

-- A span that has ended stays the current one: the next span is its child.
sibling_is_child :
    parents (span setting "next" "internal" [] 10 11 nothing nested.1).1
    ≡ none ∷ some "a" ∷ some "a" ∷ []
unfolding program
sibling_is_child = refl

totals :
    (summary setting
      (record_model_call setting "m" (pos 3) (pos 4) 7 1 none 1 2 tracer)).total_tokens
    ≡ some 7
unfolding program
totals = refl

disabled :
    (record_tool_call setting "look" 1 none 1 2 (record tracer { enable = false })).spans ≡ []
unfolding program
disabled = refl

span-finished_example :
    (s : Span ℕ ℕ) × (more : List (Span ℕ ℕ)) × (nested.1.spans ≡ s ∷ more)
    × (s.parent_span_id ≡ none)
    × (s.end_time ≡ some 9)
    × (s.error ≡ error_of nested.0)
span-finished_example =
    span-finished setting "turn" "internal" [] 1 9 one_call
      (record_span-Grows setting "tool.look" "tool" [] none 5 6) tracer refl
