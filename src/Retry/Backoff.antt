-- ===== src/Retry/Backoff.antt =====
-- How `retry_call` of retry.py ends, and the delays that it sleeps.
use serac.Common.{
  ◌≡◌, ◌+◌, ◌-◌, sym, ap, ◌≢◌, ◌⊎◌, ◌≤◌, ◌<◌, ◌↔◌, ◌∷◌, [], ℕ, zero, suc, String, true, false, List,
  arith, subst, All, length, refl, inl, inr, Result, ok, err,
}
use serac.Common.Int.{ℤ, pos, negsuc}
use serac.Retry.{Exception, ProviderError, TypeError, is_retryable, classify_exception}
use serac.Retry.Call.{
  Floats, RetryConfig, Outcome, returns, raises, interrupts, Ending, returned, reraised,
  interrupted, refused, loop_exited, min_f, max_f, jittered, delay_for_attempt, tried, handled,
  retry_from, retry_call, rounds, below,
}

below-rounds :
    (z : ℤ) (left attempt : ℕ) → 0 < left → rounds z ≡ suc left + attempt → below attempt z ≡ true
unfolding rounds below
below-rounds (pos n) left attempt h r = ground arith
below-rounds (negsuc n) left attempt h r = ground arith

below-rounds_last : (z : ℤ) (attempt : ℕ) → rounds z ≡ 1 + attempt → below attempt z ≡ false
unfolding rounds below
below-rounds_last (pos n) attempt r = ground arith
below-rounds_last (negsuc n) attempt r = ground arith

module _ (floats : Floats) where
  open floats use {F, lt, tenth, zero_f, lt_asym, le_trans}

  lt_irrefl : (a : F) → lt a a ≡ false
  lt_irrefl a = ground (arith, lt_asym a a)

  max_ge : (a b : F) → lt (max_f floats a b) b ≡ false
  max_ge a b = ground (arith, lt_irrefl b)

  min_le : (a b : F) → lt b (min_f floats a b) ≡ false
  min_le a b = ground (arith, lt_irrefl b)

  max_mono : (a b t : F) → lt b a ≡ false → lt (max_f floats b t) (max_f floats a t) ≡ false
  max_mono a b t h = ground (arith, lt_irrefl t, lt_asym b t, le_trans a b t)

  delay_ge_tenth :
      (c : RetryConfig floats) (attempt : ℕ) → lt (delay_for_attempt floats c attempt) tenth ≡ false
  unfolding delay_for_attempt
  delay_ge_tenth c attempt = max_ge _ tenth

  -- With no jitter a delay is at least 0.1 and at most the larger of `max_delay` and 0.1.
  pub delay_bounds :
      (c : RetryConfig floats) (attempt : ℕ)
      → lt zero_f c.jitter ≡ false
      → (lt (delay_for_attempt floats c attempt) tenth ≡ false)
        × (lt (max_f floats c.max_delay tenth) (delay_for_attempt floats c attempt) ≡ false)
  unfolding delay_for_attempt jittered
  delay_bounds c attempt h =
      (max_ge _ tenth, rw h (max_mono _ c.max_delay tenth (min_le _ c.max_delay)))

  module _ (lower : String → String) {A : Type 0} (func : ℕ → Outcome A)
      (config : RetryConfig floats) where
    -- The delays before the attempts `attempt + 1`, …, `attempt + n`.
    abbrev pub delays : ℕ → ℕ → List F
    delays attempt zero = []
    delays attempt (suc n) = delay_for_attempt floats config (attempt + 1) ∷ delays (suc attempt) n

    -- The call failed in a way that is worth a retry.
    pub record Transient (o : Outcome A) : Type 0 where
      pub exc : Exception
      pub error : ProviderError
      pub raised : o ≡ raises exc
      pub classified : classify_exception lower exc ≡ ok error
      pub again : is_retryable error ≡ true

    -- How `retry_call` ends at an outcome that is not worth a retry.
    pub data Settles : Outcome A → Ending A → Type 0 where
      by_value : (a : A) → Settles (returns a) (returned a)
      by_interrupt : Settles interrupts interrupted
      by_refusal :
          {exc : Exception} {e : TypeError}
          → classify_exception lower exc ≡ err e
          → Settles (raises exc) (refused e)
      by_error :
          {exc : Exception} {error : ProviderError}
          → classify_exception lower exc ≡ ok error
          → is_retryable error ≡ false
          → Settles (raises exc) (reraised exc error)

    step_again :
        (left attempt : ℕ)
        → below attempt config.max_retries ≡ true
        → Transient (func attempt)
        → retry_from floats lower func config (suc left) attempt ≡ (
          (retry_from floats lower func config left (suc attempt)).0,
          delay_for_attempt floats config (attempt + 1)
              ∷ (retry_from floats lower func config left (suc attempt)).1,
        )
    unfolding retry_from
    step_again left attempt b t = ground (arith, t.raised, t.classified, t.again)

    step_last :
        (attempt : ℕ) {exc : Exception} {error : ProviderError}
        → below attempt config.max_retries ≡ false
        → func attempt ≡ raises exc
        → classify_exception lower exc ≡ ok error
        → retry_from floats lower func config 1 attempt ≡ (reraised exc error, [])
    unfolding retry_from
    step_last attempt b f c = ground arith

    step_settled :
        (left attempt : ℕ) {end : Ending A}
        → Settles (func attempt) end
        → retry_from floats lower func config (suc left) attempt ≡ (end, [])
    unfolding retry_from
    step_settled left attempt s = by_cases (func attempt) s
      where
        by_cases :
            (o : Outcome A) {end : Ending A}
            → Settles o end
            → tried floats lower func config attempt o
                (retry_from floats lower func config left (suc attempt))
              ≡ (end, [])
        by_cases _ (by_value a) = refl
        by_cases _ by_interrupt = refl
        by_cases _ (by_refusal c) = ground arith
        by_cases _ (by_error c n) = ground arith

    retry_from-Settles :
        (k left attempt m : ℕ) {end : Ending A}
        → m ≡ attempt + k
        → k < left
        → rounds config.max_retries ≡ left + attempt
        → ((j : ℕ) → attempt ≤ j → j < m → Transient (func j))
        → Settles (func m) end
        → retry_from floats lower func config left attempt ≡ (end, delays attempt k)
    retry_from-Settles zero zero attempt m e h r t s = elim h [ ]
    retry_from-Settles (suc k) zero attempt m e h r t s = elim h [ ]
    retry_from-Settles zero (suc left) attempt m {end} e h r t s =
        step_settled left attempt (subst (λ i. Settles (func i) end) (omega arith) s)
    retry_from-Settles (suc k) (suc left) attempt m e h r t s =
        rw
          (step_again left attempt (below-rounds config.max_retries left attempt (omega arith) r)
            (t attempt (omega arith) (omega arith)))
          (rw (
            retry_from-Settles k left (suc attempt) m (omega arith) (omega arith) (omega arith)
              (λ j p q. t j (omega arith) q) s))

    -- The first outcome that is not a transient error ends the call, if it comes within the retries:
    -- a value is returned, and any other error or an interrupt is passed on. Between the attempts the
    -- delays of the attempts 1, 2, … are slept.
    pub retry_call-Settles :
        (k : ℕ) {end : Ending A}
        → k < rounds config.max_retries
        → ((j : ℕ) → j < k → Transient (func j))
        → Settles (func k) end
        → retry_call floats lower func config ≡ (end, delays 0 k)
    unfolding retry_call
    retry_call-Settles k h t s =
        retry_from-Settles k (rounds config.max_retries) 0 k (omega arith) h (omega arith)
          (λ j p q. t j q) s

    retry_from-exhausted :
        (n attempt m : ℕ) {exc : Exception} {error : ProviderError}
        → m ≡ attempt + n
        → rounds config.max_retries ≡ suc n + attempt
        → ((j : ℕ) → attempt ≤ j → j < m → Transient (func j))
        → func m ≡ raises exc
        → classify_exception lower exc ≡ ok error
        → retry_from floats lower func config (suc n) attempt
          ≡ (reraised exc error, delays attempt n)
    retry_from-exhausted zero attempt m {exc} e r t f c =
        step_last attempt (below-rounds_last config.max_retries attempt r)
          (subst (λ i. func i ≡ raises exc) (omega arith) f) c
    retry_from-exhausted (suc n) attempt m e r t f c =
        rw
          (step_again (suc n) attempt
            (below-rounds config.max_retries (suc n) attempt (omega arith) r)
            (t attempt (omega arith) (omega arith)))
          (rw (
            retry_from-exhausted n (suc attempt) m (omega arith) (omega arith)
              (λ j p q. t j (omega arith) q) f c))

    -- After `max_retries` transient failures the next error ends the call, whatever its kind: it is
    -- raised again with its classification, after `max_retries` delays.
    pub retry_call-exhausted :
        (n : ℕ) {exc : Exception} {error : ProviderError}
        → config.max_retries ≡ pos n
        → ((j : ℕ) → j < n → Transient (func j))
        → func n ≡ raises exc
        → classify_exception lower exc ≡ ok error
        → retry_call floats lower func config ≡ (reraised exc error, delays 0 n)
    unfolding retry_call rounds
    retry_call-exhausted n {exc} {error} m t f c =
        let r : rounds config.max_retries ≡ suc n = ap rounds m in
        subst (λ l. retry_from floats lower func config l 0 ≡ (reraised exc error, delays 0 n))
          (sym r) (retry_from-exhausted n 0 n (omega arith) (omega (arith, r)) (λ j p q. t j q) f c)

    -- A round either ends the call, or sleeps and goes on.
    abbrev Ends : ℕ → Ending A × List F → Ending A × List F → Type 0
    Ends attempt run rest =
        ((run.1 ≡ []) × (run.0 ≢ loop_exited))
        ⊎ ((below attempt config.max_retries ≡ true)
            × (run ≡ (rest.0, delay_for_attempt floats config (attempt + 1) ∷ rest.1)))

    handled-Ends :
        (attempt : ℕ) (exc : Exception) (r : Result TypeError ProviderError)
        (rest : Ending A × List F)
        → Ends attempt (handled floats lower func config attempt exc r rest) rest
    unfolding handled
    handled-Ends attempt exc (err e) rest = inl (refl, λ h. cc)
    handled-Ends attempt exc (ok e) rest = ground arith

    tried-Ends :
        (attempt : ℕ) (o : Outcome A) (rest : Ending A × List F)
        → Ends attempt (tried floats lower func config attempt o rest) rest
    unfolding tried
    tried-Ends attempt (returns a) rest = inl (refl, λ h. cc)
    tried-Ends attempt interrupts rest = inl (refl, λ h. cc)
    tried-Ends attempt (raises exc) rest =
        handled-Ends attempt exc (classify_exception lower exc) rest

    -- What the loop keeps, with `left` rounds to go.
    abbrev Bounded : ℕ → Ending A × List F → Type 0
    Bounded left run =
        (length run.1 ≤ left - 1)
        × All (λ d. lt d tenth ≡ false) run.1
        × ((run.0 ≡ loop_exited) ↔ (left ≡ 0))

    Bounded-step :
        (left attempt : ℕ) (run rest : Ending A × List F)
        → rounds config.max_retries ≡ suc left + attempt
        → Bounded left rest
        → Ends attempt run rest
        → Bounded (suc left) run
    Bounded-step left attempt run rest r b (inl (none_slept, ended)) = (
      rw none_slept (omega arith),
      rw none_slept tt,
      (λ h. absurd (ended h), λ h. absurd (omega arith)),
    )
    Bounded-step zero attempt run rest r b (inr (more, same)) =
        absurd (ground (arith, below-rounds_last config.max_retries attempt))
    Bounded-step (suc left) attempt run rest r b (inr (more, same)) = rw same (
      omega arith,
      (delay_ge_tenth config (attempt + 1), b.1),
      (λ h. absurd (omega (arith, b.2.0 h)), λ h. absurd (omega arith)),
    )

    retry_from-Bounded :
        (left attempt : ℕ)
        → rounds config.max_retries ≡ left + attempt
        → Bounded left (retry_from floats lower func config left attempt)
    unfolding retry_from
    retry_from-Bounded zero attempt r = (omega arith, tt, (λ _. refl, λ _. refl))
    retry_from-Bounded (suc left) attempt r =
        Bounded-step left attempt _ (retry_from floats lower func config left (suc attempt)) r
          (retry_from-Bounded left (suc attempt) (omega arith))
          (tried-Ends attempt (func attempt) _)

    -- A call never sleeps more often than `max_retries`, never shorter than 0.1, and it reaches the
    -- RuntimeError behind the loop exactly if `max_retries` is negative.
    pub retry_call_bounds :
        (length (retry_call floats lower func config).1 ≤ rounds config.max_retries - 1)
        × All (λ d. lt d tenth ≡ false) (retry_call floats lower func config).1
        × (((retry_call floats lower func config).0 ≡ loop_exited)
            ↔ (rounds config.max_retries ≡ 0))
    unfolding retry_call
    retry_call_bounds = retry_from-Bounded (rounds config.max_retries) 0 (omega arith)
