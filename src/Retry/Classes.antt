-- ===== src/Retry/Classes.antt =====
-- What the classification of retry.py promises.
use serac.Common.{
  ◌≡◌, ◌<◌, ◌↔◌, ◌⊎◌, ◌||◌, ◌∷◌, ◌==◌, if◌then◌else◌, [], ℕ, zero, suc, String, refl, Bool, some,
  arith, ok, err, nat_key, text_key,
}
use serac.Retry.{
  ProviderError, is_retryable, Exception, Attribute, missing, number, mapping, object,
  kind_of_status, classify_exception, int_of_object, classified, from_mapping, is_truthy,
}

abbrev pub transient : ℕ → Bool
transient n = n == 429 || n == 500 || n == 502 || n == 503 || n == 504

module _ (lower : String → String) where
  -- An exception with an int `status_code` other than 0 is always classified, its message and status
  -- are kept, and it is retryable exactly for the statuses 429, 500, 502, 503 and 504.
  pub classify-status :
      (exc : Exception) (n : ℕ)
      → exc.status_code ≡ number n
      → 0 < n
      → (e : ProviderError) × (classify_exception lower exc ≡ ok e)
        × (e.message ≡ exc.text)
        × (e.status_code ≡ some n)
        × (e.raw ≡ exc)
        × (is_retryable e ≡ transient n)
  unfolding classify_exception kind_of_status is_retryable
  classify-status exc n h p = (
    record { kind = kind_of_status n; message = exc.text; status_code = some n; raw = exc },
    ground arith,
    refl,
    refl,
    refl,
    ground arith,
  )

  abbrev Refused : Attribute → Attribute → Type 0
  Refused status response =
      (status ≡ object)
      ⊎ ((response ≡ object) × ((status ≡ missing) ⊎ (status ≡ number 0) ⊎ (status ≡ mapping [])))

  classified-raises_iff :
      (exc : Exception) (a b : Attribute)
      → (classified lower exc (from_mapping (if is_truthy a then a else b)) ≡ err int_of_object)
        ↔ Refused a b
  unfolding classified from_mapping is_truthy
  classified-raises_iff exc missing missing = ground arith
  classified-raises_iff exc missing (number n) = ground arith
  classified-raises_iff exc missing (mapping d) = ground arith
  classified-raises_iff exc missing object = ground arith
  classified-raises_iff exc (number zero) missing = ground arith
  classified-raises_iff exc (number zero) (number n) = ground arith
  classified-raises_iff exc (number zero) (mapping d) = ground arith
  classified-raises_iff exc (number zero) object = ground arith
  classified-raises_iff exc (number (suc n)) b = ground arith
  classified-raises_iff exc (mapping []) missing = ground arith
  classified-raises_iff exc (mapping []) (number n) = ground arith
  classified-raises_iff exc (mapping []) (mapping d) = ground arith
  classified-raises_iff exc (mapping []) object = ground arith
  classified-raises_iff exc (mapping (x ∷ d)) b = ground arith
  classified-raises_iff exc object b = ground arith

  -- Classification itself raises exactly when there is no `status_code` and `response` is an object
  -- that is neither an int nor a dict, or `status_code` is such an object.
  pub classify_raises_iff :
      (exc : Exception)
      → (classify_exception lower exc ≡ err int_of_object) ↔ (
          (exc.status_code ≡ object)
          ⊎ ((exc.response ≡ object)
              × ((exc.status_code ≡ missing)
                  ⊎ (exc.status_code ≡ number 0)
                  ⊎ (exc.status_code ≡ mapping []))))
  unfolding classify_exception
  classify_raises_iff exc = classified-raises_iff exc exc.status_code exc.response
