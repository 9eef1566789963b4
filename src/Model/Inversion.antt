-- ===== src/Model/Inversion.antt =====
-- What an accepted effect tells: it was a stale adjustment, or every guard passed.
use quidz.Prelude.{
  ℕ, ◌≡◌, refl, Bool, true, ◌&&◌, Option, ◌⊎◌, inl, inr, arith, if◌then◌else◌, Bool-cases,
}
use quidz.Prelude.Int.{ℤ, pos, ◌≤ℤ◌, ltb_ℤ, max_ℤ}
use quidz.Errors.{Result, ok, >>=-eq-ok}
use quidz.Kind.{EffectKind, adjust_auth, same_kind, needs_amount}
use quidz.Event.{Money, CanonicalEvent}
use quidz.Model.{
  PaymentState, derive_status, status_text, state_rank, amount_minor, check_order, check_amounts,
  check_single, fold, next_rank, apply_kind,
}

-- `amount_minor` read where the kind needs it.
abbrev pub read_minor : EffectKind → Option Money → PaymentState → Result ℤ
read_minor kind amount s = if needs_amount kind then amount_minor amount s else ok (pos 0)

-- The effect passed every guard, and `t` is the aggregate that it leaves.
pub record Accepted (kind : EffectKind) (s : PaymentState) (event : CanonicalEvent)
    (t : PaymentState) : Type 0 where
  pub minor : ℤ
  pub derived : ℕ
  pub amount_ok : read_minor kind event.amount s ≡ ok minor
  pub order_ok : check_order kind s ≡ ok tt
  pub amounts_ok : check_amounts kind s minor ≡ ok tt
  pub single_ok : check_single kind s ≡ ok tt
  pub derived_ok : state_rank (status_text (derive_status (fold s kind minor))) ≡ ok derived
  pub result : t ≡ record (fold s kind minor) {
    rank = next_rank kind s derived;
    last_sequence = max_ℤ s.last_sequence event.sequence;
  }

-- A read amount is not negative.
pub read_minor_nonneg :
    (kind : EffectKind) (amount : Option Money) (s : PaymentState) {minor : ℤ}
    → read_minor kind amount s ≡ ok minor
    → pos 0 ≤ℤ minor
unfolding amount_minor
read_minor_nonneg kind amount s h = ground arith

unit_path : (u : Unit {0}) → u ≡ tt
unit_path tt = refl

abbrev pub is_stale : EffectKind → PaymentState → CanonicalEvent → Bool
is_stale kind s event = same_kind kind adjust_auth && ltb_ℤ event.sequence s.last_sequence

pub apply_kind_inv :
    (kind : EffectKind) (s : PaymentState) (event : CanonicalEvent) {t : PaymentState}
    → apply_kind kind s event ≡ ok t
    → (((is_stale kind s event ≡ true) × (t ≡ s)) ⊎ Accepted kind s event t)
unfolding apply_kind
apply_kind_inv kind s event h =
    let (minor, e₁, h₁) = >>=-eq-ok (read_minor kind event.amount s) _ h in
    let (u₂, e₂, h₂) = >>=-eq-ok (check_order kind s) _ h₁ in
    elim (Bool-cases (is_stale kind s event)) [
      | inl stale ↦ inl (stale, ground (arith))
      | inr fresh ↦
          let h₃ = rw fresh at h₂ in
          let (u₄, e₄, h₄) = >>=-eq-ok (check_amounts kind s minor) _ h₃ in
          let (u₅, e₅, h₅) = >>=-eq-ok (check_single kind s) _ h₄ in
          let (d, e₆, h₆) =
            >>=-eq-ok (state_rank (status_text (derive_status (fold s kind minor)))) _ h₅ in
          inr (record {
            minor = minor;
            derived = d;
            amount_ok = e₁;
            order_ok = cc (unit_path u₂);
            amounts_ok = cc (unit_path u₄);
            single_ok = cc (unit_path u₅);
            derived_ok = e₆;
            result = cc;
          })
    ]
