-- ===== src/Tests/Reconcile.antt =====
-- A reconciliation of a payment that the ledger lacks and of one authorized twice
-- (src/quidz/reconcile.py).
use mathlib.Core.Bool.{false≢true}
use quidz.Prelude.{◌↔◌, String, eq_iff, ◌≡◌, ◌≢◌, refl, not, none, List, [], ◌∷◌}
use quidz.Prelude.Int.{pos}
use quidz.Model.{PaymentState, opened}
use quidz.Reconcile.{RemotePayment, Scope, GatePolicy}
use quidz.Reconcile.Pair.{compare_pair}
use quidz.Reconcile.Pair.Agreement.{Agree, compare_pair-Agree}
use quidz.Reconcile.Gate.{in_list, gate}
use quidz.Reconcile.Gate.Decision.{released_by}
use quidz.Reconcile.Report.{reconcile}
use quidz.Reconcile.Report.Blocking.{double_authorization_blocks}

abbrev reported : String → RemotePayment
reported payment_id = record {
  payment_id = payment_id;
  provider_ref = "ref";
  currency = "EUR";
  authorized_minor = pos 1000;
  captured_minor = pos 0;
  refunded_minor = pos 0;
  status = "authorized";
  created_at = pos 100;
}

abbrev held : PaymentState
held = record (opened "pay" "EUR") { authorized_minor = pos 1000; rank = 10 }

abbrev provider_list : List RemotePayment
provider_list = reported "lost" ∷ reported "pay" ∷ reported "twice" ∷ reported "twice" ∷ []

abbrev rules : GatePolicy
rules = record {
  in_flight_grace_seconds = pos 900;
  settlement_sla_seconds = pos 432000;
  park_max_age_seconds = pos 3600;
  fee_tolerance_bps = pos 100;
  materiality_count = pos 5;
  materiality_value_minor = pos 10000;
  scope = Scope.payment;
  break_glass = none;
  severity_overrides = λ _. none;
}

twice-ne : ◌≢◌ {A = String} "twice" ""
twice-ne e = false≢true ((eq_iff "twice" "").1 e)

double_authorization_blocks_example :
    in_list
      (gate
        (reconcile (held ∷ []) provider_list [] [] (pos 200) rules []).findings
        rules
        (pos 200)).blocked_ids
      "twice"
    ≡ not (released_by none (pos 200) "twice")
double_authorization_blocks_example =
    double_authorization_blocks (held ∷ []) provider_list [] [] (pos 200) rules [] "twice" twice-ne
      refl refl refl

compare_pair-Agree_example :
    (compare_pair rules held (reported "pay") (pos 4900) (pos 900) ≡ [])
    ↔ Agree held (reported "pay")
compare_pair-Agree_example = compare_pair-Agree rules held (reported "pay") (pos 4900) (pos 900)
