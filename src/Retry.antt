-- ===== src/Retry.antt =====
-- agent_framework/retry.py: error kinds, and the classification of what a provider call raised.
-- An exception is seen through the attributes that `classify_exception` reads: `status_code`,
-- `response`, `str(exc)` and the name of its type. An int is a natural number here, and an object
-- counts as true in an `or`. `str.lower` is a parameter.
pub mod Call
pub mod Backoff
pub mod Classes
mod Tests
use serac.Common.{
  ◌||◌, ◌∷◌, if◌then◌else◌, [], ℕ, String, Bool, true, false, Option, none, some, ltb, Result, ok,
  err, nat_key, text_key,
}
use text.Mathlib.Text.{find?}
use serac.Common.Dict
use serac.Common.Dict.{Dict}

pub data ErrorKind : Type 0 where
  rate_limited server_error timeout connection_error : ErrorKind
  bad_request unauthorized forbidden not_found invalid_input unknown : ErrorKind

-- kind in _RETRYABLE
pub retryable_kind : ErrorKind → Bool
retryable_kind rate_limited = true
retryable_kind server_error = true
retryable_kind timeout = true
retryable_kind connection_error = true
retryable_kind _ = false

abbrev pub status_to_kind : Dict ℕ ErrorKind
status_to_kind =
    (400, bad_request)
    ∷ (401, unauthorized)
    ∷ (403, forbidden)
    ∷ (404, not_found)
    ∷ (429, rate_limited)
    ∷ (500, server_error)
    ∷ (502, server_error)
    ∷ (503, server_error)
    ∷ (504, timeout)
    ∷ []

-- The value of an attribute: absent or None, an int, a dict, or an object that `int` refuses.
pub data Attribute : Type 0 where
  missing : Attribute
  number : ℕ → Attribute
  mapping : Dict String ℕ → Attribute
  object : Attribute

pub record Exception : Type 0 where
  pub status_code : Attribute
  pub response : Attribute
  pub text : String
  pub type_name : String

pub record ProviderError : Type 0 where
  pub kind : ErrorKind
  pub message : String
  pub status_code : Option ℕ
  pub raw : Exception

unfoldable pub is_retryable : ProviderError → Bool
unfolding retryable_kind
is_retryable e = retryable_kind e.kind

-- What Python's `or` tests.
pub is_truthy : Attribute → Bool
is_truthy missing = false
is_truthy (number n) = ltb 0 n
is_truthy (mapping []) = false
is_truthy (mapping (_ ∷ _)) = true
is_truthy object = true

-- `status` before the `is not None` test: a dict is replaced by its "status_code" entry.
pub from_mapping : Attribute → Attribute
from_mapping (mapping d) = elim (Dict.get "status_code" d) [ none ↦ missing | some n ↦ number n ]
from_mapping a = a

pub status_of : Exception → Attribute
unfolding is_truthy from_mapping
status_of exc = from_mapping (if is_truthy exc.status_code then exc.status_code else exc.response)

-- needle in text
abbrev pub contains : String → String → Bool
contains needle text = elim (find? text needle) [ none ↦ false | some _ ↦ true ]

-- The heuristics on the message and the type name, both in lower case.
pub guess_kind : String → String → ErrorKind
guess_kind msg typ =
    if contains "rate limit" msg || contains "429" msg || contains "ratelimit" typ
    then rate_limited
    else if contains "timeout" msg || contains "timed out" msg || contains "readtimeout" typ
    then timeout
    else if contains "connection" msg || contains "refused" msg || contains "connectionerror" typ
    then connection_error
    else if contains "500" msg || contains "502" msg || contains "503" msg || contains "server" msg
    then server_error
    else if contains "400" msg || contains "bad request" msg
    then bad_request
    else if contains "401" msg || contains "unauthorized" msg
    then unauthorized
    else if contains "invalid" msg || contains "schema" msg || contains "validation" msg
    then invalid_input
    else unknown

-- _STATUS_TO_KIND.get(int(status), ErrorKind.UNKNOWN)
pub kind_of_status : ℕ → ErrorKind
unfolding Dict.get
kind_of_status n = elim (Dict.get n status_to_kind) [ none ↦ unknown | some k ↦ k ]

-- The TypeError of `int(status)`.
pub data TypeError : Type 0 where
  int_of_object : TypeError

module _ (lower : String → String) where
  unfoldable pub classified : Exception → Attribute → Result TypeError ProviderError
  classified exc missing = ok (record {
    kind = guess_kind (lower exc.text) (lower exc.type_name);
    message = exc.text;
    status_code = none;
    raw = exc;
  })
  classified exc (number n) =
      ok (record { kind = kind_of_status n; message = exc.text; status_code = some n; raw = exc })
  classified exc (mapping _) = err int_of_object
  classified exc object = err int_of_object

  unfoldable pub classify_exception : Exception → Result TypeError ProviderError
  unfolding classified status_of kind_of_status guess_kind
  classify_exception exc = classified exc (status_of exc)
