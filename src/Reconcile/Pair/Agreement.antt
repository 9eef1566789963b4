-- ===== src/Reconcile/Pair/Agreement.antt =====
-- When the comparison of a pair is silent, and what it may ignore.
use quidz.Prelude.{
  ℕ, String, str_eq, true, ◌≡◌, ◌↔◌, refl, ap, eq_iff, [], Bool-cases, inl, inr, arith, Option,
  none, some,
}
use quidz.Prelude.Int.{ℤ, pos_part, neg_part, eq_of_parts, ltb_ℤ}
use quidz.Model.{PaymentState, derive_status, status_text}
use quidz.Reconcile.{Direction, RemotePayment, GatePolicy}
use quidz.Reconcile.Pair.{same_vector, same_status, rank_or_none, ahead, direction, compare_pair}

-- The two sides agree: in currency, in each of the three amounts, and in the text of the status.
pub record Agree (s : PaymentState) (r : RemotePayment) : Type 0 where
  pub currency : s.currency ≡ r.currency
  pub authorized : s.authorized_minor ≡ r.authorized_minor
  pub captured : s.captured_minor ≡ r.captured_minor
  pub refunded : s.refunded_minor ≡ r.refunded_minor
  pub status : status_text (derive_status s) ≡ r.status

-- The tests of the code, as the agreement that they decide.
agreed :
    (s : PaymentState) (r : RemotePayment)
    → str_eq s.currency r.currency ≡ true
    → same_vector s r ≡ true
    → same_status s r ≡ true
    → Agree s r
agreed s r c v t = record {
  currency = (eq_iff s.currency r.currency).0 c;
  authorized = eq_of_parts s.authorized_minor r.authorized_minor (ground arith);
  captured = eq_of_parts s.captured_minor r.captured_minor (ground arith);
  refunded = eq_of_parts s.refunded_minor r.refunded_minor (ground arith);
  status = (eq_iff (status_text (derive_status s)) r.status).0 t;
}

same_amounts : (s : PaymentState) (r : RemotePayment) → Agree s r → same_vector s r ≡ true
same_amounts s r a =
    let p = ap pos_part a.authorized in
    let n = ap neg_part a.authorized in
    let p' = ap pos_part a.captured in
    let n' = ap neg_part a.captured in
    let p'' = ap pos_part a.refunded in let n'' = ap neg_part a.refunded in ground arith

silent_pair :
    (policy : GatePolicy) (s : PaymentState) (r : RemotePayment) (age grace : ℤ)
    → Agree s r
    → compare_pair policy s r age grace ≡ []
unfolding compare_pair
silent_pair policy s r age grace a =
    rw
      (
        (eq_iff s.currency r.currency).1 a.currency,
        same_amounts s r a,
        (eq_iff (status_text (derive_status s)) r.status).1 a.status,
      )
      refl

silence-Agree :
    (policy : GatePolicy) (s : PaymentState) (r : RemotePayment) (age grace : ℤ)
    → compare_pair policy s r age grace ≡ []
    → Agree s r
unfolding compare_pair
silence-Agree policy s r age grace h = elim (Bool-cases (str_eq s.currency r.currency)) [
  | inr c ↦ (let h' = rw c at h in cc)
  | inl c ↦
      (let h₁ = rw c at h in
        elim (Bool-cases (same_vector s r)) [
          | inl v ↦
              (let h₂ = rw v at h₁ in
                elim (Bool-cases (same_status s r)) [
                  | inl t ↦ agreed s r c v t
                  | inr t ↦
                      (let h₃ = rw t at h₂ in
                        elim (Bool-cases (ltb_ℤ age grace)) [
                          | inl y ↦ (let h₄ = rw y at h₃ in cc)
                          | inr y ↦ (let h₄ = rw y at h₃ in cc)
                        ])
                ])
          | inr v ↦
              (let h₂ = rw v at h₁ in
                elim (Bool-cases (ltb_ℤ age grace)) [
                  | inl y ↦ (let h₃ = rw y at h₂ in cc)
                  | inr y ↦ (let h₃ = rw y at h₂ in cc)
                ])
        ])
]

-- A pair is passed over in silence exactly when the two sides agree in the currency, in the
-- authorized, the captured and the refunded amount, and in the status: no disagreement goes
-- unreported, however young it is, and no agreement is reported.
pub compare_pair-Agree :
    (policy : GatePolicy) (s : PaymentState) (r : RemotePayment) (age grace : ℤ)
    → (compare_pair policy s r age grace ≡ []) ↔ Agree s r
compare_pair-Agree policy s r age grace =
    (silence-Agree policy s r age grace, silent_pair policy s r age grace)

abbrev pub turned : Direction → Direction
turned Direction.aligned = Direction.aligned
turned Direction.local_ahead = Direction.remote_ahead
turned Direction.remote_ahead = Direction.local_ahead

ahead-turned : (a b : Option ℕ) → ahead b a ≡ turned (ahead a b)
ahead-turned none none = refl
ahead-turned none (some b) = refl
ahead-turned (some a) none = refl
ahead-turned (some a) (some b) = ground arith

-- Seen from the other side, the direction of a status mismatch is turned round.
pub direction_turned : (a b : String) → direction b a ≡ turned (direction a b)
unfolding direction
direction_turned a b = ahead-turned (rank_or_none a) (rank_or_none b)
