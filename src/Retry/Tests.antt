-- ===== src/Retry/Tests.antt =====
-- Runs of retry.py at concrete inputs, and the theorems at inputs that meet their hypotheses.
-- Floats are whole tenths here, and the draws of `random.uniform` are its upper bound.
use serac.Common.{
  ◌≡◌, ◌<◌, ◌+◌, ◌*◌, ◌/◌, ◌^◌, ◌∷◌, [], ℕ, zero, suc, String, true, false, refl, some, arith, ltb,
  ok, nat_key, text_key,
}
use serac.Common.Dict
use serac.Common.Int.{pos}
use serac.Retry.{
  Exception, ProviderError, rate_limited, missing, number, object, is_retryable, classify_exception,
}
use serac.Retry.Call.{
  Floats, RetryConfig, Outcome, returns, raises, returned, reraised, delay_for_attempt, retry_call,
  rounds,
}
use serac.Retry.Backoff.{delays, Transient, by_value, retry_call-Settles, retry_call-exhausted}

ltb_asym : (a b : ℕ) → ltb a b ≡ true → ltb b a ≡ false
ltb_asym a b h = ground arith

leb_trans : (a b c : ℕ) → ltb b a ≡ false → ltb c b ≡ false → ltb c a ≡ false
leb_trans a b c h k = ground arith

abbrev tenths : Floats
tenths = record {
  F = ℕ;
  lt = ltb;
  add = λ a b. a + b;
  mul = λ a b. a * b / 10;
  neg = λ a. 0;
  power = λ a n. 10 * a ^ n / 10 ^ n;
  zero_f = 0;
  tenth = 1;
  uniform = λ n lo hi. hi;
  lt_asym = ltb_asym;
  le_trans = leb_trans;
}

abbrev config : RetryConfig tenths
config = record {
  max_retries = pos 2;
  base_delay = 10;
  max_delay = 300;
  jitter = 0;
  backoff_factor = 20;
}

-- A constant function that lowers nothing: the texts below are in lower case.
abbrev same : String → String
same s = s

abbrev too_many : Exception
too_many = record {
  status_code = number 429;
  response = missing;
  text = "slow down";
  type_name = "ratelimiterror";
}

abbrev limited : ProviderError
limited = record {
  kind = rate_limited;
  message = "slow down";
  status_code = some 429;
  raw = too_many;
}

-- An exception that carries a response object and no status code.
abbrev http_error : Exception
http_error = record {
  status_code = missing;
  response = object;
  text = "429";
  type_name = "httperror";
}

abbrev flaky : ℕ → Outcome ℕ
flaky zero = raises too_many
flaky (suc n) = returns 7

abbrev failing : ℕ → Outcome ℕ
failing n = raises too_many

program : Unit {0}
unfolding classify_exception is_retryable retry_call delay_for_attempt Dict.get
program = tt

classify_limited : classify_exception same too_many ≡ ok limited
unfolding program
classify_limited = refl

retryable_limited : is_retryable limited ≡ true
unfolding program
retryable_limited = refl

run_failing : retry_call tenths same failing config ≡ (reraised too_many limited, 10 ∷ 20 ∷ [])
unfolding program
run_failing = refl

too_many-Transient : (j : ℕ) → Transient tenths same failing config (raises too_many)
too_many-Transient j = record {
  exc = too_many;
  error = limited;
  raised = refl;
  classified = classify_limited;
  again = retryable_limited;
}

flaky-Transient : (j : ℕ) → j < 1 → Transient tenths same flaky config (flaky j)
flaky-Transient zero h = record {
  exc = too_many;
  error = limited;
  raised = refl;
  classified = classify_limited;
  again = retryable_limited;
}
flaky-Transient (suc j) h = absurd (omega arith)

retry_call-Settles_example :
    retry_call tenths same flaky config ≡ (returned 7, delays tenths same flaky config 0 1)
unfolding rounds
retry_call-Settles_example =
    retry_call-Settles tenths same flaky config 1 (omega arith) flaky-Transient (by_value 7)

retry_call-exhausted_example :
    retry_call tenths same failing config
    ≡ (reraised too_many limited, delays tenths same failing config 0 2)
retry_call-exhausted_example =
    retry_call-exhausted tenths same failing config 2 refl (λ j h. too_many-Transient j) refl
      classify_limited
