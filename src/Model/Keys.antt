-- ===== src/Model/Keys.antt =====
-- The columns of an aggregate that no effect changes.
use quidz.Prelude.{◌≡◌, refl, inl, inr}
use quidz.Prelude.Int.{ℤ}
use quidz.Errors.{ok}
use quidz.Kind.{EffectKind, authorize}
use quidz.Event.{CanonicalEvent}
use quidz.Model.{PaymentState, fold, apply_effect}
use quidz.Model.Inversion.{Accepted, apply_kind_inv}

fold_key :
    (kind : EffectKind) (s : PaymentState) (minor : ℤ)
    → ((fold s kind minor).payment_id ≡ s.payment_id) × ((fold s kind minor).currency ≡ s.currency)
unfolding fold
fold_key authorize s minor = (refl, refl)
fold_key _ s minor = (refl, refl)

Accepted-key :
    (kind : EffectKind) (s : PaymentState) (e : CanonicalEvent) {t : PaymentState}
    → Accepted kind s e t
    → (t.payment_id ≡ s.payment_id) × (t.currency ≡ s.currency)
Accepted-key kind s e a = rw a.result (fold_key kind s a.minor)

-- An effect leaves the payment's id and currency.
pub apply_effect_key :
    (s : PaymentState) (e : CanonicalEvent) {t : PaymentState}
    → apply_effect s e ≡ ok t
    → (t.payment_id ≡ s.payment_id) × (t.currency ≡ s.currency)
unfolding apply_effect
apply_effect_key s e h = elim (apply_kind_inv e.kind s e h) [
  | inl stale ↦ rw (stale.1) (refl, refl)
  | inr a ↦ Accepted-key e.kind s e a
]
