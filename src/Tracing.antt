-- ===== src/Tracing.antt =====
-- agent_framework/tracing.py: spans of one context, which a tracer keeps and writes to its file. The state
-- is that of a Tracer with the two context variables and the number of uuids drawn. Parameters are the
-- times, the values of attributes and their sums, and uuid4. The body of a span does not change the Span
-- object that it is given.
pub mod Nesting
pub mod Tests
use serac.Common.{
  ℕ, zero, suc, ◌+◌, String, Bool, true, false, Option, none, some, List, [], ◌∷◌, ◌++◌,
  if◌then◌else◌, keep, length, text_key, ◌==◌,
}
use serac.Common.Dict.{Dict, get, or_else}
use serac.Common.Int.{ℤ}
use serac.Common.Text.{concat}

module _ (T V : Type 0) where
  pub record Setting : Type 0 where
    -- round((end - start) * 1000, 2)
    pub elapsed : T → T → T
    pub uuid_8 : ℕ → String
    pub uuid_12 : ℕ → String
    pub text : String → V
    pub int : ℤ → V
    pub minus : ℤ → ℤ → ℤ
    pub nil : V
    -- +, none where it raises
    pub plus : V → V → Option V

  pub record Span : Type 0 where
    pub trace_id : String
    pub span_id : String
    pub parent_span_id : Option String
    pub operation : String
    pub kind : String
    pub attributes : Dict String V
    pub start_time : T
    pub end_time : Option T
    pub duration_ms : Option T
    pub status : String
    pub error : Option String

module _ (T V : Type 0) where
  pub record Tracer : Type 0 where
    pub current_trace_id : Option String
    pub current_span_id : Option String
    pub drawn : ℕ
    pub run_id : String
    pub enable : Bool
    -- the spans that were written, none where no file is open
    pub file : Option (List (Span T V))
    pub spans : List (Span T V)

-- A total is none where the sum raises.
pub record Summary (V : Type 0) : Type 0 where
  pub run_id : String
  pub total_spans : ℕ
  pub model_calls : ℕ
  pub tool_calls : ℕ
  pub total_tokens : Option V
  pub total_cost : Option V
  pub errors : ℕ

-- How the body of a span ends: with an Exception, or another exception such as KeyboardInterrupt.
pub data Outcome : Type 0 where
  returned : Outcome
  raised : String → Outcome
  interrupted : Outcome

abbrev pub is_set : Option String → Bool
is_set none = false
is_set (some s) = if s == "" then false else true

-- xs[n] = x
abbrev pub set_at {ℓ} : {A : Type ℓ} → ℕ → A → List A → List A
set_at n x [] = []
set_at zero x (y ∷ ys) = x ∷ ys
set_at (suc n) x (y ∷ ys) = y ∷ set_at n x ys

module _ {T V : Type 0} (e : Setting T V) where
  -- The property trace_id: the current id, or a new one that is then current.
  unfoldable pub trace_id : Tracer T V → String × Tracer T V
  trace_id t = if is_set t.current_trace_id then (or_else t.current_trace_id "", t) else (
    e.uuid_12 t.drawn,
    record t { current_trace_id = some (e.uuid_12 t.drawn); drawn = t.drawn + 1 },
  )

  abbrev pub new_span :
      String → String → Option String → String → String → Dict String V → T → Span T V
  new_span trace span parent operation kind attributes now = record {
    trace_id = trace;
    span_id = span;
    parent_span_id = parent;
    operation = operation;
    kind = kind;
    attributes = attributes;
    start_time = now;
    end_time = none;
    duration_ms = none;
    status = "ok";
    error = none;
  }

  -- A span of an enabled tracer, with its place in the list.
  unfoldable pub entered :
      String → String → Dict String V → T → Tracer T V → (Span T V × Option ℕ) × Tracer T V
  entered operation kind attributes now t =
      let span_id = e.uuid_8 t.drawn in
      let (trace, u) =
        trace_id (record t { current_span_id = some span_id; drawn = t.drawn + 1 }) in
      let s = new_span trace span_id t.current_span_id operation kind attributes now in
      ((s, some (length t.spans)), record u { spans = u.spans ++ s ∷ [] })

  unfoldable pub start_span :
      String → String → Dict String V → T → Tracer T V → (Span T V × Option ℕ) × Tracer T V
  start_span operation kind attributes now t =
      if t.enable
      then entered operation kind attributes now t
      else ((new_span "" "" none operation kind [] now, none), t)

  unfoldable pub finish : T → Span T V → Span T V
  finish now s = record s { end_time = some now; duration_ms = some (e.elapsed s.start_time now) }

  -- _emit: to the file, or to the logger
  abbrev pub with_line : Span T V → Option (List (Span T V)) → Option (List (Span T V))
  with_line s none = none
  with_line s (some lines) = some (lines ++ s ∷ [])

  unfoldable pub emit : Span T V → Tracer T V → Tracer T V
  emit s t = record t { file = with_line s t.file }

  abbrev pub marked : Outcome → Span T V → Span T V
  marked returned s = s
  marked (raised error) s = record s { status = "error"; error = some error }
  marked interrupted s = s

  abbrev pub replaced : Option ℕ → Span T V → List (Span T V) → List (Span T V)
  replaced none s spans = spans
  replaced (some n) s spans = set_at n s spans

  abbrev pub left : T → (Span T V × Option ℕ) → Outcome × Tracer T V → Outcome × Tracer T V
  left later (s, place) (o, t) =
      let final = finish later (marked o s) in
      (o, emit final (record t { spans = replaced place final t.spans }))

  -- The context manager `span` around a body.
  unfoldable pub span :
      String
      → String
      → Dict String V
      → T
      → T
      → (Tracer T V → Outcome × Tracer T V)
      → Tracer T V
      → Outcome × Tracer T V
  span operation kind attributes now later body t =
      let (begun, u) = start_span operation kind attributes now t in left later begun (body u)

  -- What the three methods record_* do with a span of their own.
  abbrev pub status_of : Option String → String
  status_of error = if is_set error then "error" else "ok"

  abbrev pub own_span :
      String → String → Dict String V → Option String → T → T → Tracer T V → Span T V
  own_span operation kind attributes error now later t =
      let (trace, u) = trace_id t in
      finish later
        (record (new_span trace (e.uuid_8 u.drawn) u.current_span_id operation kind attributes
          now) { status = status_of error; error = error })

  unfoldable pub record_span :
      String → String → Dict String V → Option String → T → T → Tracer T V → Tracer T V
  record_span operation kind attributes error now later t =
      let u = (trace_id t).1 in
      let s = own_span operation kind attributes error now later t in
      if t.enable then emit s (record u { spans = u.spans ++ s ∷ []; drawn = u.drawn + 1 }) else t

  unfoldable pub record_model_call :
      String → ℤ → ℤ → V → V → Option String → T → T → Tracer T V → Tracer T V
  record_model_call model prompt_tokens completion_tokens cost latency_ms error now later t =
      record_span (concat ("model." ∷ model ∷ [])) "model"
        (("model", e.text model)
          ∷ ("prompt_tokens", e.int prompt_tokens)
          ∷ ("completion_tokens", e.int completion_tokens)
          ∷ ("cost", cost)
          ∷ ("latency_ms", latency_ms)
          ∷ [])
        error now later t

  unfoldable pub record_tool_call : String → V → Option String → T → T → Tracer T V → Tracer T V
  record_tool_call tool_name latency_ms error now later t =
      record_span (concat ("tool." ∷ tool_name ∷ [])) "tool"
        (("tool", e.text tool_name) ∷ ("latency_ms", latency_ms) ∷ []) error now later t

  unfoldable pub record_compaction : ℤ → ℤ → String → T → T → Tracer T V → Tracer T V
  record_compaction messages_before messages_after method now later t =
      record_span "compaction" "compaction"
        (("messages_before", e.int messages_before)
          ∷ ("messages_after", e.int messages_after)
          ∷ ("method", e.text method)
          ∷ ("reduction", e.int (e.minus messages_before messages_after))
          ∷ [])
        none now later t

  unfoldable pub close : Tracer T V → Tracer T V
  close t = record t { file = none }

  unfoldable pub set_trace_id : String → Tracer T V → Tracer T V
  set_trace_id id t = record t { current_trace_id = some id; current_span_id = none }

  unfoldable pub clear_trace : Tracer T V → Tracer T V
  clear_trace t = record t { current_trace_id = none; current_span_id = none }

  -- value + rest, none where either raises
  abbrev pub plus_each : Option V → Option V → Option V
  plus_each none b = none
  plus_each (some a) none = none
  plus_each (some a) (some b) = e.plus a b

  abbrev pub attribute : String → Span T V → V
  attribute name s = or_else (get name s.attributes) e.nil

  -- sum, from the left and from 0
  abbrev pub sum_from : Option V → List (Option V) → Option V
  sum_from total [] = total
  sum_from total (x ∷ xs) = sum_from (plus_each total x) xs

  abbrev pub costs : List (Span T V) → List (Option V)
  costs [] = []
  costs (s ∷ rest) = some (attribute "cost" s) ∷ costs rest

  abbrev pub tokens : List (Span T V) → List (Option V)
  tokens [] = []
  tokens (s ∷ rest) =
      e.plus (attribute "prompt_tokens" s) (attribute "completion_tokens" s) ∷ tokens rest

  unfoldable pub summary : Tracer T V → Summary V
  summary t =
      let model_spans = keep (λ s. s.kind == "model") t.spans in
      record {
        run_id = t.run_id;
        total_spans = length t.spans;
        model_calls = length model_spans;
        tool_calls = length (keep (λ s. s.kind == "tool") t.spans);
        total_tokens = sum_from (some e.nil) (tokens model_spans);
        total_cost = sum_from (some e.nil) (costs model_spans);
        errors = length (keep (λ s. s.status == "error") t.spans);
      }
