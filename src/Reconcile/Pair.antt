-- ===== src/Reconcile/Pair.antt =====
-- The collector, and the comparison of one payment on both sides (`_Collector`, `_direction` and
-- `_compare_pair` of src/quidz/reconcile.py). Ages are in ticks.
pub mod Agreement
use quidz.Prelude.{
  ℕ, String, str_eq, Bool, true, false, not, ◌&&◌, Option, none, some, List, [], ◌∷◌, ◌++◌, ltb,
  ◌==◌, if◌then◌else◌,
}
use quidz.Prelude.Int.{ℤ, pos, ◌-ℤ◌, ltb_ℤ, eqb_ℤ}
use quidz.Errors.{Result, ok, raise}
use quidz.Model.{PaymentState, derive_status, state_rank, status_text}
use quidz.Reconcile.Details.{other_currency, young, split_disagrees, net_differs, other_status}
use quidz.Reconcile.{
  Severity, Direction, DriftKind, default_severity, RemotePayment, GatePolicy, Evidence, Finding,
}

abbrev pub chosen : Option Severity → Severity → Severity
chosen none base = base
chosen (some s) base = s

-- `_Collector.add` with a severity given, every other argument at its default.
abbrev pub raised : GatePolicy → DriftKind → String → Severity → Finding
raised policy kind detail base = record {
  kind = kind;
  severity = chosen (policy.severity_overrides kind) base;
  direction = Direction.aligned;
  payment_id = none;
  provider_ref = none;
  local = none;
  remote = none;
  delta_minor = none;
  currency = none;
  age_seconds = none;
  detail = detail;
}

-- `_Collector.add` without a severity.
abbrev pub drift : GatePolicy → DriftKind → String → Finding
drift policy kind detail = raised policy kind detail (default_severity kind)

abbrev pub local_vector : PaymentState → Evidence
local_vector s = Evidence.vector s.authorized_minor s.captured_minor s.refunded_minor

abbrev pub remote_vector : RemotePayment → Evidence
remote_vector r = Evidence.vector r.authorized_minor r.captured_minor r.refunded_minor

-- `_rank_or_none`
abbrev rank_of : Result ℕ → Option ℕ
rank_of (ok r) = some r
rank_of (raise _) = none

unfoldable pub rank_or_none : String → Option ℕ
rank_or_none status = rank_of (state_rank status)

abbrev pub ahead : Option ℕ → Option ℕ → Direction
ahead none remote_rank = Direction.aligned
ahead (some local_rank) none = Direction.aligned
ahead (some local_rank) (some remote_rank) =
    if local_rank == remote_rank
    then Direction.aligned
    else if ltb remote_rank local_rank
    then Direction.local_ahead
    else Direction.remote_ahead

-- `_direction`
unfoldable pub direction : String → String → Direction
direction local_status remote_status =
    ahead (rank_or_none local_status) (rank_or_none remote_status)

abbrev pub same_vector : PaymentState → RemotePayment → Bool
same_vector s r =
    eqb_ℤ s.authorized_minor r.authorized_minor
    && (eqb_ℤ s.captured_minor r.captured_minor && eqb_ℤ s.refunded_minor r.refunded_minor)

abbrev pub same_status : PaymentState → RemotePayment → Bool
same_status s r = str_eq (status_text (derive_status s)) r.status

abbrev pub local_net : PaymentState → ℤ
local_net s = s.captured_minor -ℤ s.refunded_minor

abbrev pub remote_net : RemotePayment → ℤ
remote_net r = r.captured_minor -ℤ r.refunded_minor

-- The same money in another composition.
abbrev pub partial : PaymentState → RemotePayment → Bool
partial s r = eqb_ℤ (local_net s) (remote_net r) && eqb_ℤ s.authorized_minor r.authorized_minor

-- A finding about a payment that both sides have.
abbrev about : GatePolicy → DriftKind → String → PaymentState → RemotePayment → ℤ → Finding
about policy kind detail s r age = record (drift policy kind detail) {
  payment_id = some s.payment_id;
  provider_ref = some r.provider_ref;
  currency = some s.currency;
  age_seconds = some age;
}

abbrev pub amount_detail : PaymentState → RemotePayment → String
amount_detail s r =
    if partial s r
    then split_disagrees s.payment_id
    else net_differs s.payment_id (local_net s -ℤ remote_net r) s.currency

-- `if local_vector != remote_vector`
abbrev pub amount_findings : GatePolicy → PaymentState → RemotePayment → ℤ → List Finding
amount_findings policy s r age =
    if same_vector s r
    then []
    else record (about policy
        (if partial s r then DriftKind.partial_state_divergence else DriftKind.amount_mismatch)
        (amount_detail s r) s r age) {
          local = some (local_vector s);
          remote = some (remote_vector r);
          delta_minor = some (if partial s r then pos 0 else local_net s -ℤ remote_net r);
        }
      ∷ []

-- `if local_status != remote.status`
abbrev pub status_findings : GatePolicy → PaymentState → RemotePayment → ℤ → List Finding
status_findings policy s r age =
    if same_status s r
    then []
    else record (about policy DriftKind.status_mismatch
        (other_status s.payment_id (status_text (derive_status s)) r.status) s r age) {
          direction = direction (status_text (derive_status s)) r.status;
          local = some (Evidence.status (status_text (derive_status s)));
          remote = some (Evidence.status r.status);
        }
      ∷ []

-- `_compare_pair`
unfoldable pub compare_pair : GatePolicy → PaymentState → RemotePayment → ℤ → ℤ → List Finding
compare_pair policy s r age grace =
    if not (str_eq s.currency r.currency)
    then about policy DriftKind.currency_mismatch
        (other_currency s.payment_id s.currency r.currency) s r age
      ∷ []
    else if same_vector s r && same_status s r
    then []
    else if ltb_ℤ age grace
    then about policy DriftKind.in_flight (young s.payment_id age grace) s r age ∷ []
    else amount_findings policy s r age ++ status_findings policy s r age
