-- ===== src/Model/Guards.antt =====
-- Exactly when each kind of money movement is accepted, and why it is refused otherwise.
use quidz.Prelude.{
  str_eq, ◌≡◌, ◌≢◌, refl, Bool, Bool-cases, true, false, not, ◌||◌, ◌&&◌, Option, none, some, leb,
  ltb, arith, Option-cases, inl, inr,
}
use quidz.Prelude.Int.{ℤ, pos, ◌+ℤ◌, ltb_ℤ, leb_ℤ, eqb_ℤ, max_ℤ}
use quidz.Errors.{Result, ok, raise, premature_event, ◌>>=◌, >>=-eq-raise, ◌>>◌, Result-cases}
use quidz.Kind.{EffectKind, capture, refund, prerequisite_rank}
use quidz.Event.{Money, CanonicalEvent}
use quidz.Model.{
  PaymentState, fold, apply_effect, apply_kind, amount_minor, check_order, check_amounts,
  check_single, derive_status, status_text, state_rank, next_rank,
}
use quidz.Model.Inversion.{read_minor, is_stale}
use quidz.Model.Ranks.{state_rank-status_text}

-- Whether a call returned.
abbrev pub returned {ℓ} : {A : Type ℓ} → Result A → Bool
returned (ok _) = true
returned (raise _) = false

-- When a capture of an amount is due.
abbrev pub capture_allowed : PaymentState → Option Money → Bool
capture_allowed s none = false
capture_allowed s (some m) =
    str_eq m.currency s.currency
    && leb_ℤ (pos 0) m.minor
    && not (s.voided || s.expired)
    && leb 10 s.rank
    && leb s.rank 40
    && leb_ℤ s.captured_minor (pos 0)
    && leb_ℤ (s.captured_minor +ℤ m.minor) s.authorized_minor

capture_returned :
    (s : PaymentState) (e : CanonicalEvent)
    → returned (apply_kind capture s e) ≡ capture_allowed s e.amount
unfolding apply_kind amount_minor check_order check_amounts check_single
capture_returned s e = elim (Option-cases e.amount) [
  | inl h ↦ rw h (ground arith)
  | inr (m, h) ↦
      rw h (ground (arith, state_rank-status_text (derive_status (fold s capture m.minor))))
]

-- A capture is accepted exactly when it is in the payment's currency and not negative, the
-- payment has rank 10 to 40, is neither voided nor expired and holds no captured amount, and the
-- amount fits the authorization.
pub apply_effect-capture :
    (s : PaymentState) (e : CanonicalEvent)
    → e.kind ≡ capture
    → returned (apply_effect s e) ≡ capture_allowed s e.amount
unfolding apply_effect
apply_effect-capture s e k = rw k (capture_returned s e)

-- When a refund of an amount is due.
abbrev pub refund_allowed : PaymentState → Option Money → Bool
refund_allowed s none = false
refund_allowed s (some m) =
    str_eq m.currency s.currency
    && leb_ℤ (pos 0) m.minor
    && not (s.voided || s.expired)
    && not (eqb_ℤ s.captured_minor (pos 0) && ltb_ℤ (pos 0) s.capture_failed_minor)
    && leb 40 s.rank
    && leb s.rank 60
    && leb_ℤ (s.refunded_minor +ℤ m.minor) s.captured_minor

refund_returned :
    (s : PaymentState) (e : CanonicalEvent)
    → returned (apply_kind refund s e) ≡ refund_allowed s e.amount
unfolding apply_kind amount_minor check_order check_amounts check_single
refund_returned s e = elim (Option-cases e.amount) [
  | inl h ↦ rw h (ground arith)
  | inr (m, h) ↦
      rw h (ground (arith, state_rank-status_text (derive_status (fold s refund m.minor))))
]

-- A refund is accepted exactly when it is in the payment's currency and not negative, the payment
-- has rank 40 to 60, is neither voided nor expired, its capture has not failed outright, and the
-- refunds with it stay within the captured amount.
pub apply_effect-refund :
    (s : PaymentState) (e : CanonicalEvent)
    → e.kind ≡ refund
    → returned (apply_effect s e) ≡ refund_allowed s e.amount
unfolding apply_effect
apply_effect-refund s e k = rw k (refund_returned s e)

-- Whether the rank is below what the kind requires.
abbrev pub premature : EffectKind → PaymentState → Bool
premature kind s = elim (prerequisite_rank kind) [ none ↦ false | some p ↦ ltb s.rank p ]

amount_not_premature :
    (kind : EffectKind) (amount : Option Money) (s : PaymentState)
    → read_minor kind amount s ≢ raise premature_event
unfolding amount_minor
amount_not_premature kind amount s h = ground arith

order_premature :
    (kind : EffectKind) (s : PaymentState)
    → check_order kind s ≡ raise premature_event
    → premature kind s ≡ true
unfolding check_order
order_premature kind s h = ground arith

amounts_not_premature :
    (kind : EffectKind) (s : PaymentState) (minor : ℤ)
    → check_amounts kind s minor ≢ raise premature_event
unfolding check_amounts
amounts_not_premature kind s minor h = ground arith

single_not_premature :
    (kind : EffectKind) (s : PaymentState) → check_single kind s ≢ raise premature_event
unfolding check_single
single_not_premature kind s h = ground arith

-- What the guards and the fold behind the stale adjustment do.
abbrev settle : EffectKind → PaymentState → CanonicalEvent → ℤ → Result PaymentState
settle kind s event minor = do
  check_amounts kind s minor
  check_single kind s
  derived ← state_rank (status_text (derive_status (fold s kind minor)))
  ok (record (fold s kind minor) {
    rank = next_rank kind s derived;
    last_sequence = max_ℤ s.last_sequence event.sequence;
  })

settle_not_premature :
    (kind : EffectKind) (s : PaymentState) (event : CanonicalEvent) (minor : ℤ)
    → settle kind s event minor ≢ raise premature_event
settle_not_premature kind s event minor h = ground (
  arith,
  amounts_not_premature kind s minor,
  single_not_premature kind s,
  state_rank-status_text (derive_status (fold s kind minor)),
)

premature_only :
    (kind : EffectKind) (s : PaymentState) (e : CanonicalEvent)
    → apply_kind kind s e ≡ raise premature_event
    → premature kind s ≡ true
unfolding apply_kind
premature_only kind s e h = elim (>>=-eq-raise (read_minor kind e.amount s) _ h) [
  | inl r ↦ absurd (amount_not_premature kind e.amount s r)
  | inr (minor, _, h₁) ↦ elim (>>=-eq-raise (check_order kind s) _ h₁) [
    | inl r ↦ order_premature kind s r
    | inr (_, _, h₂) ↦ elim (Bool-cases (is_stale kind s e)) [
      | inl stale ↦ (let h₃ = rw stale at h₂ in cc)
      | inr fresh ↦ (let h₃ = rw fresh at h₂ in absurd (settle_not_premature kind s e minor h₃))
    ]
  ]
]

order_refused :
    (kind : EffectKind) (s : PaymentState)
    → premature kind s ≡ true
    → returned (check_order kind s) ≡ false
unfolding check_order
order_refused kind s h = ground arith

premature_refused :
    (kind : EffectKind) (s : PaymentState) (e : CanonicalEvent)
    → premature kind s ≡ true
    → returned (apply_kind kind s e) ≡ false
unfolding apply_kind
premature_refused kind s e h = elim (Result-cases (read_minor kind e.amount s)) [
  | inl (x, r) ↦ rw r refl
  | inr (minor, r) ↦ elim (Result-cases (check_order kind s)) [
    | inl (x, o) ↦ rw (r, o) refl
    | inr (u, o) ↦ (let bad = order_refused kind s h in cc)
  ]
]

-- An effect is refused as premature only below the rank that its kind requires, and below that
-- rank it is never applied.
pub apply_effect-premature :
    (s : PaymentState) (e : CanonicalEvent)
    → (apply_effect s e ≡ raise premature_event → premature e.kind s ≡ true)
      × (premature e.kind s ≡ true → returned (apply_effect s e) ≡ false)
unfolding apply_effect
apply_effect-premature s e = (premature_only e.kind s e, premature_refused e.kind s e)
