-- ===== src/Reconcile/Report.antt =====
-- The exception report (`reconcile` of src/quidz/reconcile.py).
pub mod Order
pub mod Blocking
use quidz.Prelude.{
  ℕ, ◌+◌, ◌-◌, String, str_eq, Bool, ◌&&◌, ◌||◌, Option, none, some, List, [], ◌∷◌, ◌++◌, map, keep,
  length, not, ltb, ◌==◌, if◌then◌else◌,
}
use quidz.Prelude.Int.{ℤ, pos, ◌-ℤ◌, ltb_ℤ, leb_ℤ, max_ℤ}
use quidz.Prelude.Order.{sort_by, str_leb, str_ltb}
use quidz.Events.{whole_seconds}
use quidz.Store.{upsert_counter}
use quidz.Model.{PaymentState}
use quidz.Reconcile.Details.{long_parked}
use quidz.Reconcile.{
  Severity, info, warn, break, critical, severity_order, same_severity, DriftKind, RemotePayment,
  SettlementRow, GatePolicy, Finding,
}
use quidz.Reconcile.Pair.{drift}
use quidz.Reconcile.Payments.{joinable, unjoinable_findings, reconcile_events}
use quidz.Reconcile.Settlement.{reconcile_settlement}

pub record ExceptionReport : Type 0 where
  pub generated_at : ℤ
  pub findings : List Finding
  pub counts_by_severity : Severity → ℕ
  pub counters : List (String × ℤ)

-- `str(kind)`
abbrev pub kind_text : DriftKind → String
kind_text DriftKind.missing_locally = "missing_locally"
kind_text DriftKind.missing_remotely = "missing_remotely"
kind_text DriftKind.duplicate_local = "duplicate_local"
kind_text DriftKind.duplicate_remote = "duplicate_remote"
kind_text DriftKind.amount_mismatch = "amount_mismatch"
kind_text DriftKind.partial_state_divergence = "partial_state_divergence"
kind_text DriftKind.status_mismatch = "status_mismatch"
kind_text DriftKind.currency_mismatch = "currency_mismatch"
kind_text DriftKind.in_flight = "in_flight"
kind_text DriftKind.unknown_remote_row = "unknown_remote_row"
kind_text DriftKind.fee_gross_net = "fee_gross_net"
kind_text DriftKind.unsettled_past_sla = "unsettled_past_sla"
kind_text DriftKind.parked_stale = "parked_stale"

-- A delivery that is still parked: its payment, and the time it was received.
abbrev pub parked_before : String × ℤ → String × ℤ → Bool
parked_before (i, a) (j, b) = str_ltb i j || (str_eq i j && leb_ℤ a b)

abbrev pub parked_finding : GatePolicy → ℤ → String × ℤ → Finding
parked_finding policy now (payment_id, parked_since) =
    record (drift policy
      (if ltb_ℤ policy.park_max_age_seconds (now -ℤ parked_since)
        then DriftKind.parked_stale
        else DriftKind.in_flight)
      (long_parked payment_id (now -ℤ parked_since) policy.park_max_age_seconds)) {
        payment_id = some payment_id;
        age_seconds = some (now -ℤ parked_since);
      }

-- Everything that the collector holds before the findings are sorted.
unfoldable pub collected :
    GatePolicy
    → ℤ
    → List PaymentState
    → List RemotePayment
    → List SettlementRow
    → List (String × ℤ)
    → List Finding
collected policy now local remote settlement parked =
    unjoinable_findings policy now remote
    ++ (reconcile_events policy now local (joinable remote)
        ++ (reconcile_settlement policy now local (joinable remote) settlement
            ++ map (parked_finding policy now) (sort_by parked_before parked)))

-- `f.payment_id or ""`
abbrev pub text_or_empty : Option String → String
text_or_empty none = ""
text_or_empty (some s) = s

-- A lexicographic step of the sort key.
abbrev pub then_by : String → String → Bool → Bool
then_by a b rest = str_ltb a b || (str_eq a b && rest)

-- The key of a finding comes before the other's, or is the same.
unfoldable pub finding_before : Finding → Finding → Bool
finding_before f g =
    ltb (severity_order g.severity) (severity_order f.severity)
    || (severity_order f.severity == severity_order g.severity
        && then_by (kind_text f.kind) (kind_text g.kind) (
            then_by (text_or_empty f.payment_id) (text_or_empty g.payment_id)
              (str_leb (text_or_empty f.provider_ref) (text_or_empty g.provider_ref))))

abbrev pub counts : List Finding → Severity → ℕ
counts findings severity = length (keep (λ f. same_severity f.severity severity) findings)

abbrev pub age_or_zero : Option ℤ → ℤ
age_or_zero none = pos 0
age_or_zero (some age) = age

-- `max(unresolved, default=0.0)`
abbrev pub oldest_of : List ℤ → ℤ
oldest_of [] = pos 0
oldest_of (a ∷ []) = a
oldest_of (a ∷ b ∷ rest) = max_ℤ a (oldest_of (b ∷ rest))

abbrev pub unresolved : List Finding → List ℤ
unresolved findings =
    map (λ f. age_or_zero f.age_seconds) (keep (λ f. not (same_severity f.severity info)) findings)

abbrev pub put : String → ℤ → List (String × ℤ) → List (String × ℤ)
put name value = upsert_counter name value (λ _. value)

-- `merged.update(...)`
unfoldable pub merged_counters : List Finding → List (String × ℤ) → List (String × ℤ)
merged_counters findings counters =
    put "oldest_unresolved_drift_seconds" (whole_seconds (oldest_of (unresolved findings))) (
      put "drift_critical" (pos (counts findings critical)) (
        put "drift_break" (pos (counts findings break)) (
          put "drift_warn" (pos (counts findings warn))
            (put "drift_info" (pos (counts findings info)) counters))))

unfoldable pub reconcile :
    List PaymentState
    → List RemotePayment
    → List SettlementRow
    → List (String × ℤ)
    → ℤ
    → GatePolicy
    → List (String × ℤ)
    → ExceptionReport
reconcile local remote settlement parked now policy counters =
    let findings = sort_by finding_before (collected policy now local remote settlement parked) in
    record {
      generated_at = now;
      findings = findings;
      counts_by_severity = counts findings;
      counters = merged_counters findings counters;
    }
