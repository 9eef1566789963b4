-- ===== src/Dlq/Laws.antt =====
-- What the classification promises: each rejection of its own kind, and a cap on every retry.
use quidz.Prelude.{ℕ, ◌*◌, ◌^◌, ◌≤◌, ◌≡◌, refl, ◌&&◌, ltb, arith, min}
use quidz.Prelude.Int.{ℤ, pos, ltb_ℤ}
use quidz.Errors.{
  Exn, signature_error, malformed_header, bad_signature, stale_timestamp, malformed_event,
  unknown_event_type, currency_mismatch, amount_invariant_violation, illegal_transition,
  json_decode_error, unicode_decode_error, operational_error, ok,
}
use quidz.Dlq.{
  ReasonCode, permanent, transient, classify, RetryPolicy, Random, next_delay, should_retry,
}

-- The reason that each class of exception is recorded under.
abbrev pub reason_of : Exn → ReasonCode
reason_of stale_timestamp = permanent "stale_timestamp"
reason_of bad_signature = permanent "signature_invalid"
reason_of malformed_header = permanent "signature_invalid"
reason_of signature_error = permanent "signature_invalid"
reason_of malformed_event = permanent "schema_invalid"
reason_of json_decode_error = permanent "schema_invalid"
reason_of unicode_decode_error = permanent "schema_invalid"
reason_of currency_mismatch = permanent "currency_mismatch"
reason_of amount_invariant_violation = permanent "amount_invariant"
reason_of illegal_transition = permanent "illegal_transition"
reason_of unknown_event_type = transient "unknown_event_type" 3
reason_of operational_error = transient "downstream_unavailable" 5
reason_of _ = transient "unknown" 3

-- Whatever the order of the classifiers and the subclassing among the exceptions, each class gets
-- the reason of its own: a stale timestamp is not an invalid signature, and what no classifier
-- names is unknown, which is retried up to three attempts.
pub classify-eq : (e : Exn) → classify e ≡ reason_of e
unfolding classify
classify-eq signature_error = refl
classify-eq _ = refl

-- The attempts that a delivery may make when its handling keeps raising this exception.
abbrev pub attempt_limit : Exn → ℕ
attempt_limit operational_error = 5
attempt_limit signature_error = 0
attempt_limit bad_signature = 0
attempt_limit malformed_header = 0
attempt_limit stale_timestamp = 0
attempt_limit malformed_event = 0
attempt_limit json_decode_error = 0
attempt_limit unicode_decode_error = 0
attempt_limit currency_mismatch = 0
attempt_limit amount_invariant_violation = 0
attempt_limit illegal_transition = 0
attempt_limit _ = 3

retry_by_reason :
    (policy : RetryPolicy) (e : Exn) (attempt : ℕ) (budget_used : ℤ)
    → should_retry policy (reason_of e) attempt budget_used ≡ (
        ltb_ℤ budget_used (pos policy.budget_per_minute)
        && ltb attempt (min policy.max_attempts (attempt_limit e)))
unfolding should_retry
retry_by_reason policy signature_error attempt budget_used = ground arith
retry_by_reason policy _ attempt budget_used = ground arith

-- A failure is retried exactly while the budget of the minute is not used up and the attempts stay
-- below both the policy's cap and the limit of the exception: none for a permanent rejection, five
-- for an unavailable database, three for everything else.
pub should_retry-classify :
    (policy : RetryPolicy) (e : Exn) (attempt : ℕ) (budget_used : ℤ)
    → should_retry policy (classify e) attempt budget_used ≡ (
        ltb_ℤ budget_used (pos policy.budget_per_minute)
        && ltb attempt (min policy.max_attempts (attempt_limit e)))
should_retry-classify policy e attempt budget_used =
    rw classify-eq (retry_by_reason policy e attempt budget_used)

-- The delay drawn for an attempt that is not negative is at most the policy's maximum, and at most the base doubled for each attempt.
pub next_delay_bounds :
    (random : Random) (policy : RetryPolicy) (attempt : ℕ) (g : random.Gen) {r : ℕ × random.Gen}
    → next_delay random policy (pos attempt) g ≡ ok r
    → (r.0 ≤ policy.max_seconds) × (r.0 ≤ policy.base_seconds * 2 ^ attempt)
unfolding next_delay
next_delay_bounds random policy attempt g h =
    ground (arith, random.uniform-le g (min policy.max_seconds (policy.base_seconds * 2 ^ attempt)))
