-- ===== src/Tracing/Nesting.antt =====
-- How spans of agent_framework/tracing.py nest.
use serac.Common.{
  ◌≡◌, refl, sym, ap, ◌∙◌, String, Bool, true, false, Option, none, some, List, [], ◌∷◌, ◌++◌,
  append_assoc, append-nil, if◌then◌else◌, length, Bool-cases, inl, inr,
}
use serac.Common.Dict.{Dict}
use serac.Tracing.{
  Setting, Span, Tracer, Outcome, returned, raised, interrupted, trace_id, new_span, own_span,
  entered, start_span, finish, emit, marked, set_at, span, record_span, is_set,
}

set_at-append {ℓ} :
    {A : Type ℓ} (xs ys : List A) (x y : A) → set_at (length xs) y (xs ++ x ∷ ys) ≡ xs ++ y ∷ ys
set_at-append [] ys x y = refl
set_at-append (z ∷ xs) ys x y = ap (λ zs. z ∷ zs) (set_at-append xs ys x y)

-- The text of the Exception, if the body raised one.
abbrev pub error_of : Outcome → Option String
error_of (raised error) = some error
error_of _ = none

module _ {T V : Type 0} (e : Setting T V) where
  trace_id-same :
      (t : Tracer T V)
      → ((trace_id e t).1.spans ≡ t.spans)
        × ((trace_id e t).1.file ≡ t.file)
        × ((trace_id e t).1.enable ≡ t.enable)
        × ((trace_id e t).1.current_span_id ≡ t.current_span_id)
  unfolding trace_id
  trace_id-same t = elim (Bool-cases (is_set t.current_trace_id)) [
    | inl b ↦ rw b (refl, refl, refl, refl)
    | inr b ↦ rw b (refl, refl, refl, refl)
  ]

  -- Calls that only put spans behind those that are there.
  abbrev pub Grows : (Tracer T V → Tracer T V) → Type 0
  Grows f = (t : Tracer T V) → (more : List (Span T V)) × ((f t).spans ≡ t.spans ++ more)

  if_grows :
      (b : Bool) (x t : Tracer T V)
      → (more : List (Span T V)) × (x.spans ≡ t.spans ++ more)
      → (more : List (Span T V)) × ((if b then x else t).spans ≡ t.spans ++ more)
  if_grows true x t h = h
  if_grows false x t h = ([], sym (append-nil t.spans))

  pub record_span-Grows :
      (operation kind : String) (attributes : Dict String V) (error : Option String) (now later : T)
      → Grows (record_span e operation kind attributes error now later)
  unfolding record_span emit
  record_span-Grows operation kind attributes error now later t = if_grows t.enable _ t (
    own_span e operation kind attributes error now later t ∷ [],
    ap (λ xs. xs ++ own_span e operation kind attributes error now later t ∷ [])
        (trace_id-same t).0,
  )

  start_span-enabled :
      (operation kind : String) (attributes : Dict String V) (now : T) (t : Tracer T V)
      → t.enable ≡ true
      → start_span e operation kind attributes now t ≡ entered e operation kind attributes now t
  unfolding start_span
  start_span-enabled operation kind attributes now t b = when_true t.enable b _ _
    where
      when_true : {A : Type 0} (b : Bool) → b ≡ true → (x y : A) → (if b then x else y) ≡ x
      when_true b h x y = rw h refl

  finished-span :
      (later : T) (o : Outcome) (s : Span T V)
      → s.error ≡ none
      → ((finish e later (marked e o s)).parent_span_id ≡ s.parent_span_id)
        × ((finish e later (marked e o s)).end_time ≡ some later)
        × ((finish e later (marked e o s)).error ≡ error_of o)
  unfolding finish
  finished-span later returned s h = (refl, refl, h)
  finished-span later (raised error) s h = (refl, refl, refl)
  finished-span later interrupted s h = (refl, refl, h)

  -- The context manager of an enabled tracer, around a body that only adds spans: the span stands behind
  -- those that were there and before those of the body; it has the current span as its parent, an end time,
  -- and the error of the body if it raised an Exception.
  pub span-finished :
      (operation kind : String) (attributes : Dict String V) (now later : T)
      → (body : Tracer T V → Outcome × Tracer T V) → Grows (λ t. (body t).1)
      → (t : Tracer T V) → t.enable ≡ true
      → (s : Span T V) × (more : List (Span T V)) × ((span e operation kind attributes now later
            body t).1.spans
          ≡ t.spans ++ s ∷ more)
        × (s.parent_span_id ≡ t.current_span_id)
        × (s.end_time ≡ some later)
        × (s.error ≡ error_of (span e operation kind attributes now later body t).0)
  unfolding span emit entered
  span-finished operation kind attributes now later body grows t b =
      rw (start_span-enabled operation kind attributes now t b) (
        let begun = entered e operation kind attributes now t in
        let after = body begun.1 in
        let (more, g) = grows begun.1 in
        let (parent, ended, error) = finished-span later after.0 begun.0.0 refl in
        (
          finish e later (marked e after.0 begun.0.0),
          more,
          ap (set_at (length t.spans) _) (
                g
                ∙ ap (λ xs. xs ++ more) (ap (λ xs. xs ++ begun.0.0 ∷ []) (trace_id-same _).0)
                ∙ append_assoc t.spans (begun.0.0 ∷ []) more)
              ∙ set_at-append t.spans more begun.0.0 _,
          parent,
          ended,
          error,
        ))

  start_span-disabled :
      (operation kind : String) (attributes : Dict String V) (now : T) (t : Tracer T V)
      → t.enable ≡ false
      → start_span e operation kind attributes now t
        ≡ ((new_span e "" "" none operation kind [] now, none), t)
  unfolding start_span
  start_span-disabled operation kind attributes now t b = when_false t.enable b _ _
    where
      when_false : {A : Type 0} (b : Bool) → b ≡ false → (x y : A) → (if b then x else y) ≡ y
      when_false b h x y = rw h refl

  -- A span around calls that only add spans only adds spans itself, so that spans nest to any depth.
  pub span-Grows :
      (operation kind : String) (attributes : Dict String V) (now later : T)
      → (body : Tracer T V → Outcome × Tracer T V) → Grows (λ t. (body t).1)
      → Grows (λ t. (span e operation kind attributes now later body t).1)
  unfolding span emit
  span-Grows operation kind attributes now later body grows t = elim (Bool-cases t.enable) [
    | inl b ↦
        let (s, more, same, _, _, _) =
          span-finished operation kind attributes now later body grows t b in
        (s ∷ more, same)
    | inr b ↦ rw (start_span-disabled operation kind attributes now t b) (grows t)
  ]
