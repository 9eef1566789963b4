-- ===== src/Dlq.antt =====
-- Reason codes, the retry decision and the jittered backoff (src/quidz/dlq.py).
pub mod Laws
use quidz.Prelude.{
  ℕ, ◌*◌, ◌^◌, ◌≤◌, ◌==◌, String, Bool, true, false, ◌||◌, Option, none, some, List, [], ◌∷◌, ltb,
  leb, min, if◌then◌else◌,
}
use quidz.Prelude.Int.{ℤ, pos, negsuc, leb_ℤ}
use quidz.Errors.{
  Exn, signature_error, malformed_header, bad_signature, stale_timestamp, event_error,
  malformed_event, unknown_event_type, currency_mismatch, amount_invariant_violation,
  illegal_transition, premature_event, value_error, key_error, json_decode_error,
  unicode_decode_error, runtime_error, operational_error, integrity_error, overflow_error, other,
  Result, ok, raise, ◌>>=◌, ◌>>◌, raise_if,
}

pub record ReasonCode : Type 0 where
  pub code : String
  pub retryable : Bool
  pub max_attempts : Option ℕ

abbrev pub permanent : String → ReasonCode
permanent code = record { code = code; retryable = false; max_attempts = none }

abbrev pub transient : String → ℕ → ReasonCode
transient code cap = record { code = code; retryable = true; max_attempts = some cap }

-- The class of an exception, and the classes that the handlers of the package name. Each class is
-- named as the exceptions of exactly that class are.
abbrev exn_tag : Exn → ℕ
exn_tag signature_error = 0
exn_tag malformed_header = 1
exn_tag bad_signature = 2
exn_tag stale_timestamp = 3
exn_tag event_error = 4
exn_tag malformed_event = 5
exn_tag unknown_event_type = 6
exn_tag currency_mismatch = 7
exn_tag amount_invariant_violation = 8
exn_tag illegal_transition = 9
exn_tag premature_event = 10
exn_tag value_error = 11
exn_tag key_error = 12
exn_tag json_decode_error = 13
exn_tag unicode_decode_error = 14
exn_tag runtime_error = 15
exn_tag operational_error = 16
exn_tag integrity_error = 17
exn_tag overflow_error = 18
exn_tag other = 19

-- The base class, where it is one that a handler names; every other base is `Exception`.
abbrev base_class : Exn → Option Exn
base_class malformed_header = some signature_error
base_class bad_signature = some signature_error
base_class stale_timestamp = some signature_error
base_class malformed_event = some event_error
base_class unknown_event_type = some event_error
base_class currency_mismatch = some value_error
base_class json_decode_error = some value_error
base_class unicode_decode_error = some value_error
base_class _ = none

-- `isinstance(exc, cls)`
unfoldable pub is_instance : Exn → Exn → Bool
is_instance exc cls =
    exn_tag exc == exn_tag cls
    || elim (base_class exc) [ none ↦ false | some b ↦ exn_tag b == exn_tag cls ]

abbrev pub unknown : ReasonCode
unknown = transient "unknown" 3

-- `_CLASSIFIERS`, each code already looked up in `REASON_CODES`.
abbrev pub classifiers : List (Exn × ReasonCode)
classifiers =
    (stale_timestamp, permanent "stale_timestamp")
    ∷ (bad_signature, permanent "signature_invalid")
    ∷ (malformed_header, permanent "signature_invalid")
    ∷ (signature_error, permanent "signature_invalid")
    ∷ (unknown_event_type, transient "unknown_event_type" 3)
    ∷ (malformed_event, permanent "schema_invalid")
    ∷ (json_decode_error, permanent "schema_invalid")
    ∷ (unicode_decode_error, permanent "schema_invalid")
    ∷ (currency_mismatch, permanent "currency_mismatch")
    ∷ (amount_invariant_violation, permanent "amount_invariant")
    ∷ (illegal_transition, permanent "illegal_transition")
    ∷ (operational_error, transient "downstream_unavailable" 5)
    ∷ []

unfoldable pub classify_by : List (Exn × ReasonCode) → Exn → ReasonCode
unfolding is_instance
classify_by [] exc = unknown
classify_by ((cls, reason) ∷ rest) exc =
    if is_instance exc cls then reason else classify_by rest exc

unfoldable pub classify : Exn → ReasonCode
unfolding classify_by
classify exc = classify_by classifiers exc

-- Durations are whole ticks of the clock, as every time of the model is.
pub record RetryPolicy : Type 0 where
  pub base_seconds : ℕ
  pub max_seconds : ℕ
  pub max_attempts : ℕ
  pub budget_per_minute : ℕ
  pub seed : Option ℤ

-- The random number generators, of which the package relies on the range of `uniform`.
pub record Random : Type 1 where
  pub Gen : Type 0
  pub system_random : Gen
  pub seeded : ℤ → Gen
  pub uniform : Gen → ℕ → ℕ × Gen
  pub uniform-le : (g : Gen) (ceiling : ℕ) → (uniform g ceiling).0 ≤ ceiling

module _ (random : Random) where
  open random use {Gen, system_random, seeded, uniform}

  unfoldable pub jitter_source : RetryPolicy → Gen
  jitter_source policy = elim policy.seed [ none ↦ system_random | some n ↦ seeded n ]

  unfoldable pub next_delay : RetryPolicy → ℤ → Gen → Result (ℕ × Gen)
  next_delay policy (negsuc _) rng = raise value_error
  next_delay policy (pos attempt) rng =
      ok (uniform rng (min policy.max_seconds (policy.base_seconds * 2 ^ attempt)))

unfoldable pub retry_cap : RetryPolicy → ReasonCode → ℕ
retry_cap policy reason = elim reason.max_attempts [
  | none ↦ policy.max_attempts
  | some m ↦ min policy.max_attempts m
]

unfoldable pub should_retry : RetryPolicy → ReasonCode → ℕ → ℤ → Bool
unfolding retry_cap
should_retry policy reason attempt budget_used =
    if reason.retryable
    then (if leb_ℤ (pos policy.budget_per_minute) budget_used
        then false
        else ltb attempt (retry_cap policy reason))
    else false
