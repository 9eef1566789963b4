-- ===== src/Model/Bounds.antt =====
-- The amounts of an aggregate stay within one another under every effect.
use quidz.Prelude.{String, ◌≡◌, inl, inr, arith}
use quidz.Prelude.Int.{ℤ, pos, ◌≤ℤ◌, int_laws}
use quidz.Errors.{ok}
use quidz.Kind.{EffectKind, authorize}
use quidz.Event.{CanonicalEvent}
use quidz.Model.{opened, PaymentState, check_amounts, check_single, fold, apply_effect}
use quidz.Model.Inversion.{Accepted, read_minor_nonneg, apply_kind_inv}

-- Refunds never exceed captures, captures never exceed the authorization, nothing is negative.
pub record IsValid (s : PaymentState) : Type 0 where
  pub refunded_nonneg : pos 0 ≤ℤ s.refunded_minor
  pub refunded_le : s.refunded_minor ≤ℤ s.captured_minor
  pub captured_le : s.captured_minor ≤ℤ s.authorized_minor
  pub capture_failed_nonneg : pos 0 ≤ℤ s.capture_failed_minor
  pub refund_failed_nonneg : pos 0 ≤ℤ s.refund_failed_minor

fold-IsValid :
    (kind : EffectKind) (s : PaymentState) (minor : ℤ)
    → IsValid s
    → pos 0 ≤ℤ minor
    → check_amounts kind s minor ≡ ok tt
    → check_single kind s ≡ ok tt
    → IsValid (fold s kind minor)
unfolding fold check_amounts check_single
fold-IsValid authorize s minor v p a c = grind int_laws
fold-IsValid _ s minor v p a c = grind int_laws

Accepted-IsValid :
    (kind : EffectKind) (s : PaymentState) (event : CanonicalEvent) {t : PaymentState}
    → IsValid s
    → Accepted kind s event t
    → IsValid t
Accepted-IsValid kind s event v a =
    let w =
      fold-IsValid kind s a.minor v (read_minor_nonneg kind event.amount s a.amount_ok) a.amounts_ok
        a.single_ok in
    rw a.result (record {
      refunded_nonneg = w.refunded_nonneg;
      refunded_le = w.refunded_le;
      captured_le = w.captured_le;
      capture_failed_nonneg = w.capture_failed_nonneg;
      refund_failed_nonneg = w.refund_failed_nonneg;
    })

-- Every effect that is applied to a valid aggregate leaves a valid one: nothing is negative,
-- refunds stay within captures and captures within the authorization.
pub apply_effect-IsValid :
    (s : PaymentState) (event : CanonicalEvent) {t : PaymentState}
    → IsValid s
    → apply_effect s event ≡ ok t
    → IsValid t
unfolding apply_effect
apply_effect-IsValid s event v h = elim (apply_kind_inv event.kind s event h) [
  | inl stale ↦ rw (stale.1) v
  | inr a ↦ Accepted-IsValid event.kind s event v a
]

pub opened-IsValid : (payment_id currency : String) → IsValid (opened payment_id currency)
opened-IsValid payment_id currency = omega arith
