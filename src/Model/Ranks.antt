-- ===== src/Model/Ranks.antt =====
-- The rank of an aggregate: it covers the derived status, and falls only when money comes back.
use quidz.Prelude.{String, ℕ, ◌≤◌, ◌≡◌, refl, true, false, ◌||◌, inl, inr, arith}
use quidz.Prelude.Int.{ℤ, pos, ◌≤ℤ◌}
use quidz.Errors.{ok}
use quidz.Kind.{EffectKind, authorize, adjust_auth, regressive}
use quidz.Event.{CanonicalEvent}
use quidz.Model.{
  Status, PaymentState, opened, derive_status, status_text, state_rank, check_order, check_single,
  fold, next_rank, apply_effect,
}
use quidz.Model.Inversion.{Accepted, is_stale, apply_kind_inv}

-- The rank of each status, and no other text has one of these.
abbrev pub status_rank : Status → ℕ
status_rank Status.pending = 0
status_rank Status.authorized = 10
status_rank Status.capture_failed = 20
status_rank Status.voided = 30
status_rank Status.expired = 30
status_rank Status.partially_captured = 40
status_rank Status.captured = 50
status_rank Status.partially_refunded = 60
status_rank Status.refunded = 70

-- Every derived status has a rank, so folding never meets the unknown status.
pub state_rank-status_text : (st : Status) → state_rank (status_text st) ≡ ok (status_rank st)
unfolding state_rank status_text
state_rank-status_text Status.pending = refl
state_rank-status_text _ = refl

captured_rank : (s : PaymentState) → pos 1 ≤ℤ s.captured_minor → 40 ≤ status_rank (derive_status s)
unfolding derive_status
captured_rank s p = ground arith

-- The rank is at least that of the derived status, and a voided or expired payment holds no
-- captured amount.
pub record IsRanked (s : PaymentState) : Type 0 where
  pub covered : status_rank (derive_status s) ≤ s.rank
  pub released : (s.voided || s.expired) ≡ true → s.captured_minor ≤ℤ pos 0

fold_released :
    (kind : EffectKind) (s : PaymentState) (minor : ℤ)
    → (pos 1 ≤ℤ s.captured_minor → 40 ≤ s.rank)
    → ((s.voided || s.expired) ≡ true → s.captured_minor ≤ℤ pos 0)
    → check_order kind s ≡ ok tt
    → check_single kind s ≡ ok tt
    → ((fold s kind minor).voided || (fold s kind minor).expired) ≡ true
    → (fold s kind minor).captured_minor ≤ℤ pos 0
unfolding fold check_order check_single
fold_released authorize s minor cr re o c e = ground (arith, re, cr)
fold_released _ s minor cr re o c e = ground (arith, re, cr)

next_rank-ge :
    (kind : EffectKind) (s : PaymentState) (derived : ℕ) → derived ≤ next_rank kind s derived
unfolding next_rank
next_rank-ge kind s derived = ground arith

-- The derived status does not look at the rank or the sequence.
derive_status-rank :
    (s : PaymentState) (r : ℕ) (q : ℤ)
    → derive_status (record s { rank = r; last_sequence = q }) ≡ derive_status s
unfolding derive_status
derive_status-rank s r q = refl

derived_value : (st : Status) {d : ℕ} → state_rank (status_text st) ≡ ok d → status_rank st ≡ d
derived_value st h = cc (state_rank-status_text st)

Accepted-IsRanked :
    (kind : EffectKind) (s : PaymentState) (event : CanonicalEvent) {t : PaymentState}
    → IsRanked s
    → Accepted kind s event t
    → IsRanked t
Accepted-IsRanked kind s event r a = rw a.result (record {
  covered = rw (derive_status-rank (fold s kind a.minor) _ _) (
      omega (
        arith,
        derived_value (derive_status (fold s kind a.minor)) a.derived_ok,
        next_rank-ge kind s a.derived,
      ));
  released =
      fold_released kind s a.minor (λ p. omega (arith, captured_rank s p, r.covered)) r.released
        a.order_ok a.single_ok;
})

-- Where the rank is at or above the derived status's, and a voided or expired payment holds no
-- captured money, every effect that is applied keeps both so.
pub apply_effect-IsRanked :
    (s : PaymentState) (event : CanonicalEvent) {t : PaymentState}
    → IsRanked s
    → apply_effect s event ≡ ok t
    → IsRanked t
unfolding apply_effect
apply_effect-IsRanked s event r h = elim (apply_kind_inv event.kind s event h) [
  | inl stale ↦ rw (stale.1) r
  | inr a ↦ Accepted-IsRanked event.kind s event r a
]

next_rank_mono :
    (kind : EffectKind) (s : PaymentState) (derived : ℕ)
    → (regressive kind ≡ false → s.rank ≤ next_rank kind s derived)
      × (regressive kind ≡ true → 60 ≤ next_rank kind s derived)
unfolding next_rank
next_rank_mono authorize s derived = ground arith
next_rank_mono _ s derived = ground arith

stale_ranks :
    (kind : EffectKind) (s : PaymentState) (event : CanonicalEvent)
    → is_stale kind s event ≡ true
    → (regressive kind ≡ false → s.rank ≤ s.rank) × (regressive kind ≡ true → 60 ≤ s.rank)
stale_ranks authorize s event h = cc
stale_ranks adjust_auth s event h = ground arith
stale_ranks _ s event h = cc

-- An applied effect never lowers the rank unless it is a failed or reversed refund, and one of
-- those leaves a rank of 60 at least.
pub apply_effect_ratchet :
    (s : PaymentState) (event : CanonicalEvent) {t : PaymentState}
    → apply_effect s event ≡ ok t
    → (regressive event.kind ≡ false → s.rank ≤ t.rank)
      × (regressive event.kind ≡ true → 60 ≤ t.rank)
unfolding apply_effect
apply_effect_ratchet s event h = elim (apply_kind_inv event.kind s event h) [
  | inl stale ↦ rw (stale.1) (stale_ranks event.kind s event stale.0)
  | inr a ↦ rw a.result (next_rank_mono event.kind s a.derived)
]

pub opened-IsRanked : (payment_id currency : String) → IsRanked (opened payment_id currency)
unfolding derive_status
opened-IsRanked payment_id currency = ground arith
