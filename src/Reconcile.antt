-- ===== src/Reconcile.antt =====
-- Findings, their severities and the policy of the reconciler (src/quidz/reconcile.py).
pub mod Details
pub mod Pair
pub mod Payments
pub mod Settlement
pub mod Report
pub mod Render
pub mod Gate
use quidz.Prelude.{
  ℕ, String, Option, none, some, List, [], ◌∷◌, ◌++◌, Bool, true, false, ◌==◌, ltb, if◌then◌else◌,
}
use quidz.Prelude.Int.{ℤ}

pub data Severity : Type 0 where
  info warn break critical : Severity

pub data Direction : Type 0 where
  aligned local_ahead remote_ahead : Direction

pub data DriftKind : Type 0 where
  missing_locally missing_remotely duplicate_local duplicate_remote amount_mismatch : DriftKind
  partial_state_divergence status_mismatch currency_mismatch in_flight unknown_remote_row :
      DriftKind
  fee_gross_net unsettled_past_sla parked_stale : DriftKind

-- `DEFAULT_SEVERITIES`
abbrev pub default_severity : DriftKind → Severity
default_severity missing_locally = critical
default_severity missing_remotely = break
default_severity duplicate_local = break
default_severity duplicate_remote = critical
default_severity amount_mismatch = break
default_severity partial_state_divergence = warn
default_severity status_mismatch = break
default_severity currency_mismatch = critical
default_severity in_flight = info
default_severity unknown_remote_row = warn
default_severity fee_gross_net = info
default_severity unsettled_past_sla = break
default_severity parked_stale = break

-- `_SEVERITY_ORDER`
abbrev pub severity_order : Severity → ℕ
severity_order info = 0
severity_order warn = 1
severity_order break = 2
severity_order critical = 3

abbrev pub same_severity : Severity → Severity → Bool
same_severity a b = severity_order a == severity_order b

pub record RemotePayment : Type 0 where
  pub payment_id : String
  pub provider_ref : String
  pub currency : String
  pub authorized_minor : ℤ
  pub captured_minor : ℤ
  pub refunded_minor : ℤ
  pub status : String
  pub created_at : ℤ

pub record SettlementRow : Type 0 where
  pub psp_reference : String
  pub gross_minor : ℤ
  pub fee_minor : ℤ
  pub net_minor : ℤ
  pub currency : String
  pub payout_date : String
  pub journal_type : String

pub record BreakGlass : Type 0 where
  pub approver : String
  pub reason : String
  pub expires_at : ℤ
  -- `str(expires_at)`, of the float that the ticks stand for.
  pub expires_text : String
  pub scope_ids : List String

pub data Scope : Type 0 where
  payment currency batch : Scope

pub record GatePolicy : Type 0 where
  pub in_flight_grace_seconds : ℤ
  pub settlement_sla_seconds : ℤ
  pub park_max_age_seconds : ℤ
  pub fee_tolerance_bps : ℤ
  pub materiality_count : ℤ
  pub materiality_value_minor : ℤ
  pub scope : Scope
  pub break_glass : Option BreakGlass
  pub severity_overrides : DriftKind → Option Severity

-- What a finding shows of one side: a vector of amounts, or a few named values.
pub data Evidence : Type 0 where
  vector : ℤ → ℤ → ℤ → Evidence
  status : String → Evidence
  settled : ℤ → String → Evidence
  captured : ℤ → Evidence
  net_and_fee : ℤ → ℤ → Evidence

pub record Finding : Type 0 where
  pub kind : DriftKind
  pub severity : Severity
  pub direction : Direction
  pub payment_id : Option String
  pub provider_ref : Option String
  pub local : Option Evidence
  pub remote : Option Evidence
  pub delta_minor : Option ℤ
  pub currency : Option String
  pub age_seconds : Option ℤ
  pub detail : String
