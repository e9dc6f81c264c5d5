-- ===== src/Retry/Call.antt =====
-- agent_framework/retry.py, `RetryConfig` and `retry_call`.
-- The n-th call of `func` has the outcome `func n`. A run is how the call ends, with the delays that
-- it slept, in order. Floats, their operations and `random.uniform` are the parameter `Floats`.
use serac.Common.{
  ◌≡◌, ◌+◌, ◌-◌, ◌∷◌, ◌&&◌, if◌then◌else◌, [], ℕ, zero, suc, String, Bool, true, false, List, ltb,
  Result, ok, err,
}
use serac.Common.Int.{ℤ, pos, negsuc}
use serac.Retry.{Exception, ProviderError, TypeError, is_retryable, classify_exception}

-- Python floats other than NaN: their order is total.
pub record Floats : Type 1 where
  pub F : Type 0
  pub lt : F → F → Bool
  pub add : F → F → F
  pub mul : F → F → F
  pub neg : F → F
  pub power : F → ℕ → F
  pub zero_f : F
  pub tenth : F
  -- The draw of random.uniform before the given attempt.
  pub uniform : ℕ → F → F → F
  pub lt_asym : (a b : F) → lt a b ≡ true → lt b a ≡ false
  pub le_trans : (a b c : F) → lt b a ≡ false → lt c b ≡ false → lt c a ≡ false

module _ (floats : Floats) where
  open floats use {F, lt, add, mul, neg, power, zero_f, tenth, uniform}

  pub record RetryConfig : Type 0 where
    pub max_retries : ℤ
    pub base_delay : F
    pub max_delay : F
    pub jitter : F
    pub backoff_factor : F

  -- min(a, b) and max(a, b)
  abbrev pub min_f : F → F → F
  min_f a b = if lt b a then b else a

  abbrev pub max_f : F → F → F
  max_f a b = if lt a b then b else a

  unfoldable pub jittered : ℕ → F → F → F
  jittered attempt jitter delay =
      let spread = mul jitter delay in
      if lt zero_f jitter then add delay (uniform attempt (neg spread) spread) else delay

-- What a call of `func` does. An interrupt is what `except Exception` lets through.
pub data Outcome (A : Type 0) : Type 0 where
  returns : A → Outcome A
  raises : Exception → Outcome A
  interrupts : Outcome A

-- How `retry_call` ends: `refused` is an error raised by the classification itself, and
-- `loop_exited` is the RuntimeError behind the loop.
pub data Ending (A : Type 0) : Type 0 where
  returned : A → Ending A
  reraised : Exception → ProviderError → Ending A
  interrupted : Ending A
  refused : TypeError → Ending A
  loop_exited : Ending A

-- The number of rounds of range(max_retries + 1).
unfoldable pub rounds : ℤ → ℕ
rounds (pos n) = suc n
rounds (negsuc n) = 0

-- attempt < max_retries
unfoldable pub below : ℕ → ℤ → Bool
below attempt (pos n) = ltb attempt n
below attempt (negsuc n) = false

module _ (floats : Floats) where
  open floats use {F, mul, power, tenth}

  unfoldable pub delay_for_attempt : RetryConfig floats → ℕ → F
  unfolding jittered
  delay_for_attempt c attempt =
      let delay = mul c.base_delay (power c.backoff_factor (attempt - 1)) in
      max_f floats (jittered floats attempt c.jitter (min_f floats delay c.max_delay)) tenth

  module _ (lower : String → String) {A : Type 0} (func : ℕ → Outcome A)
      (config : RetryConfig floats) where
    -- After the sleep the loop goes on: `rest` is the run from the next attempt.
    unfoldable pub handled :
        ℕ → Exception → Result TypeError ProviderError → Ending A × List F → Ending A × List F
    handled attempt exc (err e) rest = (refused e, [])
    handled attempt exc (ok last_err) rest =
        if below attempt config.max_retries && is_retryable last_err
        then (rest.0, delay_for_attempt config (attempt + 1) ∷ rest.1)
        else (reraised exc last_err, [])

    unfoldable pub tried : ℕ → Outcome A → Ending A × List F → Ending A × List F
    unfolding handled
    tried attempt (returns a) rest = (returned a, [])
    tried attempt interrupts rest = (interrupted, [])
    tried attempt (raises exc) rest = handled attempt exc (classify_exception lower exc) rest

    -- The loop from `attempt` on, with `left` rounds to go.
    unfoldable pub retry_from : ℕ → ℕ → Ending A × List F
    unfolding tried below
    retry_from zero attempt = (loop_exited, [])
    retry_from (suc left) attempt =
        let rest = retry_from left (suc attempt) in tried attempt (func attempt) rest

    unfoldable pub retry_call : Ending A × List F
    unfolding retry_from rounds
    retry_call = retry_from (rounds config.max_retries) 0
