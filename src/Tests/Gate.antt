-- ===== src/Tests/Gate.antt =====
-- A gate with one critical finding and a break glass (src/quidz/reconcile.py).
use quidz.Prelude.{List, ◌≡◌, ◌≢◌, refl, eq_iff, not, some, none, [], ◌∷◌, String}
use quidz.Prelude.Int.{ℤ, pos, negsuc}
use quidz.Reconcile.{Severity, Direction, DriftKind, Scope, BreakGlass, GatePolicy, Finding}
use quidz.Reconcile.Gate.{is_material, effective, in_list, gate}
use quidz.Reconcile.Gate.Decision.{gate_blocks_payment, released_by}
use mathlib.Core.Bool.{false≢true}

abbrev drift : String → Severity → ℤ → Finding
drift payment_id severity delta = record {
  kind = DriftKind.amount_mismatch;
  severity = severity;
  direction = Direction.local_ahead;
  payment_id = some payment_id;
  provider_ref = none;
  local = none;
  remote = none;
  delta_minor = some delta;
  currency = some "EUR";
  age_seconds = none;
  detail = "";
}

abbrev findings : List Finding
findings = drift "pay1" Severity.critical (pos 5) ∷ drift "pay2" Severity.break (negsuc 6) ∷ []

abbrev rules : GatePolicy
rules = record {
  in_flight_grace_seconds = pos 900;
  settlement_sla_seconds = pos 432000;
  park_max_age_seconds = pos 3600;
  fee_tolerance_bps = pos 100;
  materiality_count = pos 1;
  materiality_value_minor = pos 1000;
  scope = Scope.payment;
  break_glass = none;
  severity_overrides = λ _. none;
}

abbrev glass : BreakGlass
glass = record {
  approver = "ops";
  reason = "refund";
  expires_at = pos 100;
  expires_text = "100.0";
  scope_ids = "pay1" ∷ [];
}

pay2-ne : ◌≢◌ {A = String} "pay2" ""
pay2-ne e = false≢true ((eq_iff "pay2" "").1 e)

gate_blocks_payment_example :
    in_list (gate findings (record rules { break_glass = some glass }) (pos 50)).blocked_ids "pay2"
    ≡ not (released_by (some glass) (pos 50) "pay2")
unfolding effective is_material
gate_blocks_payment_example =
    gate_blocks_payment findings (record rules { break_glass = some glass }) (pos 50) "pay2" refl
      pay2-ne refl

eur-ne : ◌≢◌ {A = String} "EUR" ""
eur-ne e = false≢true ((eq_iff "EUR" "").1 e)
