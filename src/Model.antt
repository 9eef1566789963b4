-- ===== src/Model.antt =====
-- The payment aggregate and its transition rules (src/quidz/model.py).
mod Inversion
pub mod Bounds
pub mod Ranks
pub mod Totals
pub mod Guards
pub mod Keys
pub mod Order
mod Tests
use quidz.Prelude.{
  ℕ, String, str_eq, Bool, true, false, not, ◌&&◌, ◌||◌, Option, none, some, ltb, max,
  if◌then◌else◌,
}
use quidz.Prelude.Int.{ℤ, pos, negsuc, ◌+ℤ◌, ◌-ℤ◌, ltb_ℤ, leb_ℤ, eqb_ℤ, max_ℤ}
use quidz.Errors.{
  Result, ok, raise, ◌>>=◌, ◌>>◌, raise_if, currency_mismatch, amount_invariant_violation,
  illegal_transition, premature_event, value_error,
}
use quidz.Kind.{
  EffectKind, authorize, authorize_fail, adjust_auth, capture, capture_fail, void, expire, refund,
  refund_fail, refund_reverse, same_kind, kind_rank, prerequisite_rank, regressive, needs_amount,
  moves_money,
}
use quidz.Event.{Money, CanonicalEvent}

pub record PaymentState : Type 0 where
  pub payment_id : String
  pub currency : String
  pub authorized_minor : ℤ
  pub captured_minor : ℤ
  pub capture_failed_minor : ℤ
  pub refunded_minor : ℤ
  pub refund_failed_minor : ℤ
  pub voided : Bool
  pub expired : Bool
  pub rank : ℕ
  pub last_sequence : ℤ

-- `PaymentState(payment_id=..., currency=...)` with the defaults of the other fields.
abbrev pub opened : String → String → PaymentState
opened payment_id currency = record {
  payment_id = payment_id;
  currency = currency;
  authorized_minor = pos 0;
  captured_minor = pos 0;
  capture_failed_minor = pos 0;
  refunded_minor = pos 0;
  refund_failed_minor = pos 0;
  voided = false;
  expired = false;
  rank = 0;
  last_sequence = negsuc 0;
}

-- `STATUSES`: the names that the code spells as text.
pub data Status : Type 0 where
  pending authorized capture_failed voided expired : Status
  partially_captured captured partially_refunded refunded : Status

unfoldable pub status_text : Status → String
status_text Status.pending = "pending"
status_text Status.authorized = "authorized"
status_text Status.capture_failed = "capture_failed"
status_text Status.voided = "voided"
status_text Status.expired = "expired"
status_text Status.partially_captured = "partially_captured"
status_text Status.captured = "captured"
status_text Status.partially_refunded = "partially_refunded"
status_text Status.refunded = "refunded"

unfoldable pub derive_status : PaymentState → Status
derive_status s =
    if ltb_ℤ (pos 0) s.captured_minor
    then (if leb_ℤ s.captured_minor s.refunded_minor
        then Status.refunded
        else if ltb_ℤ (pos 0) s.refunded_minor
        then Status.partially_refunded
        else if leb_ℤ s.authorized_minor s.captured_minor
        then Status.captured
        else Status.partially_captured)
    else if s.expired
    then Status.expired
    else if s.voided
    then Status.voided
    else if ltb_ℤ (pos 0) s.capture_failed_minor
    then Status.capture_failed
    else if ltb_ℤ (pos 0) s.authorized_minor
    then Status.authorized
    else Status.pending

-- `_STATUS_RANK`, and `ValueError` for a status that it does not hold.
unfoldable pub state_rank : String → Result ℕ
state_rank status =
    if str_eq status "pending"
    then ok 0
    else if str_eq status "authorized"
    then ok 10
    else if str_eq status "capture_failed"
    then ok 20
    else if str_eq status "voided"
    then ok 30
    else if str_eq status "expired"
    then ok 30
    else if str_eq status "partially_captured"
    then ok 40
    else if str_eq status "captured"
    then ok 50
    else if str_eq status "partially_refunded"
    then ok 60
    else if str_eq status "refunded"
    then ok 70
    else raise value_error

unfoldable pub amount_minor : Option Money → PaymentState → Result ℤ
amount_minor none s = raise illegal_transition
amount_minor (some amount) s = do
  raise_if (not (str_eq amount.currency s.currency)) currency_mismatch
  raise_if (ltb_ℤ amount.minor (pos 0)) amount_invariant_violation
  ok amount.minor

-- The guards in front of the stale adjustment.
unfoldable pub check_order : EffectKind → PaymentState → Result (Unit {0})
check_order kind s = do
  raise_if (moves_money kind && (s.voided || s.expired)) illegal_transition
  let ruled_out = ltb_ℤ (pos 0) s.capture_failed_minor || (s.voided || s.expired)
  raise_if (same_kind kind refund && (eqb_ℤ s.captured_minor (pos 0) && ruled_out))
      illegal_transition
  raise_if (elim (prerequisite_rank kind) [ none ↦ false | some p ↦ ltb s.rank p ]) premature_event

-- The guards of amount conservation.
unfoldable pub check_amounts : EffectKind → PaymentState → ℤ → Result (Unit {0})
check_amounts kind s minor = do
  raise_if (same_kind kind capture && ltb_ℤ s.authorized_minor (s.captured_minor +ℤ minor))
      amount_invariant_violation
  raise_if (same_kind kind refund && ltb_ℤ s.captured_minor (s.refunded_minor +ℤ minor))
      amount_invariant_violation
  raise_if
      ((same_kind kind refund_fail || same_kind kind refund_reverse)
        && ltb_ℤ s.refunded_minor minor)
      amount_invariant_violation
  raise_if (same_kind kind adjust_auth && ltb_ℤ minor s.captured_minor) amount_invariant_violation

-- One capture, one authorization, and no regression of the rank.
unfoldable pub check_single : EffectKind → PaymentState → Result (Unit {0})
check_single kind s = do
  raise_if (same_kind kind capture && ltb_ℤ (pos 0) s.captured_minor) illegal_transition
  raise_if (same_kind kind authorize && ltb_ℤ (pos 0) s.authorized_minor) illegal_transition
  raise_if (not (regressive kind) && ltb (kind_rank kind) s.rank) illegal_transition

-- `_fold`
unfoldable pub fold : PaymentState → EffectKind → ℤ → PaymentState
fold s authorize minor = record s { authorized_minor = minor }
fold s adjust_auth minor = record s { authorized_minor = minor }
fold s authorize_fail minor = s
fold s capture minor = record s { captured_minor = s.captured_minor +ℤ minor }
fold s capture_fail minor = record s { capture_failed_minor = s.capture_failed_minor +ℤ minor }
fold s void minor = record s { voided = true }
fold s expire minor = record s { expired = true }
fold s refund minor = record s { refunded_minor = s.refunded_minor +ℤ minor }
fold s refund_fail minor = record s {
  refunded_minor = s.refunded_minor -ℤ minor;
  refund_failed_minor = s.refund_failed_minor +ℤ minor;
}
fold s refund_reverse minor = record s {
  refunded_minor = s.refunded_minor -ℤ minor;
  refund_failed_minor = s.refund_failed_minor +ℤ minor;
}

-- The rank that the aggregate carries after the fold.
unfoldable pub next_rank : EffectKind → PaymentState → ℕ → ℕ
next_rank kind s derived =
    if regressive kind
    then max (kind_rank kind) derived
    else max (max s.rank (kind_rank kind)) derived

-- `apply_effect`, with `event.kind` as an argument of its own.
unfoldable pub apply_kind : EffectKind → PaymentState → CanonicalEvent → Result PaymentState
apply_kind kind s event = do
  minor ← if needs_amount kind then amount_minor event.amount s else ok (pos 0)
  check_order kind s
  if same_kind kind adjust_auth && ltb_ℤ event.sequence s.last_sequence then ok s else do
    check_amounts kind s minor
    check_single kind s
    let updated = fold s kind minor
    derived ← state_rank (status_text (derive_status updated))
    ok (record updated {
      rank = next_rank kind s derived;
      last_sequence = max_ℤ s.last_sequence event.sequence;
    })

unfoldable pub apply_effect : PaymentState → CanonicalEvent → Result PaymentState
unfolding apply_kind
apply_effect s event = apply_kind event.kind s event
