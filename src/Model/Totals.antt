-- ===== src/Model/Totals.antt =====
-- The amounts of an aggregate are the totals of the events folded into it.
use quidz.Prelude.{
  ◌≡◌, ap, Bool, true, false, ◌||◌, Option, none, some, List, [], ◌∷◌, inl, inr, arith,
  if◌then◌else◌,
}
use quidz.Prelude.Int.{ℤ, pos, ◌+ℤ◌, pos_part, neg_part, int_laws}
use quidz.Errors.{Result, ok, ◌>>=◌, >>=-eq-ok}
use quidz.Kind.{
  EffectKind, authorize, adjust_auth, capture, capture_fail, void, expire, refund, refund_fail,
  refund_reverse, same_kind, needs_amount,
}
use quidz.Event.{Money, CanonicalEvent}
use quidz.Model.{PaymentState, fold, apply_effect, amount_minor}
use quidz.Model.Inversion.{Accepted, is_stale, apply_kind_inv, read_minor}

-- Folding the events in order, all of which must be accepted.
unfoldable pub replay : PaymentState → List CanonicalEvent → Result PaymentState
replay s [] = ok s
replay s (e ∷ es) = do t ← apply_effect s e; replay t es

abbrev pub minor_of : Option Money → ℤ
minor_of none = pos 0
minor_of (some m) = m.minor

-- What an event of kind `at` adds to the total of the kind `of`.
abbrev pub share : EffectKind → EffectKind → Option Money → ℤ
share of at amount = if same_kind at of then minor_of amount else pos 0

-- The total of the events of one kind.
abbrev pub total : EffectKind → List CanonicalEvent → ℤ
total of [] = pos 0
total of (e ∷ es) = share of e.kind e.amount +ℤ total of es

abbrev pub seen : EffectKind → List CanonicalEvent → Bool
seen of [] = false
seen of (e ∷ es) = same_kind e.kind of || seen of es

-- What the events move from one aggregate to another.
pub record Moved (s t : PaymentState) (captured failed refunded returned : ℤ)
    (voided expired : Bool) : Type 0 where
  pub captured_by : t.captured_minor ≡ s.captured_minor +ℤ captured
  pub failed_by : t.capture_failed_minor ≡ s.capture_failed_minor +ℤ failed
  pub refunded_by : t.refunded_minor +ℤ returned ≡ s.refunded_minor +ℤ refunded
  pub returned_by : t.refund_failed_minor ≡ s.refund_failed_minor +ℤ returned
  pub voided_by : t.voided ≡ (voided || s.voided)
  pub expired_by : t.expired ≡ (expired || s.expired)

abbrev MovedByEvent : PaymentState → PaymentState → EffectKind → Option Money → Type 0
MovedByEvent s t kind amount =
    Moved s t (share capture kind amount) (share capture_fail kind amount)
      (share refund kind amount) (share refund_fail kind amount +ℤ share refund_reverse kind amount)
      (same_kind kind void) (same_kind kind expire)

abbrev pub MovedByAll : PaymentState → PaymentState → List CanonicalEvent → Type 0
MovedByAll s t es =
    Moved s t (total capture es) (total capture_fail es) (total refund es)
      (total refund_fail es +ℤ total refund_reverse es) (seen void es) (seen expire es)

read_minor_value :
    (kind : EffectKind) (amount : Option Money) (s : PaymentState) {minor : ℤ}
    → read_minor kind amount s ≡ ok minor
    → needs_amount kind ≡ true
    → minor ≡ minor_of amount
unfolding amount_minor
read_minor_value kind amount s h n = ground arith

fold-Moved :
    (kind : EffectKind) (s : PaymentState) (amount : Option Money) (minor : ℤ)
    → (needs_amount kind ≡ true → minor ≡ minor_of amount)
    → MovedByEvent s (fold s kind minor) kind amount
unfolding fold
fold-Moved authorize s amount minor h = grind int_laws
fold-Moved _ s amount minor h = grind int_laws

stale-Moved :
    (kind : EffectKind) (s : PaymentState) (event : CanonicalEvent) (amount : Option Money)
    → is_stale kind s event ≡ true
    → MovedByEvent s s kind amount
stale-Moved authorize s event amount h = cc
stale-Moved adjust_auth s event amount h = grind int_laws
stale-Moved _ s event amount h = cc

Accepted-Moved :
    (kind : EffectKind) (s : PaymentState) (event : CanonicalEvent) {t : PaymentState}
    → Accepted kind s event t
    → MovedByEvent s t kind event.amount
Accepted-Moved kind s event a =
    let m =
      fold-Moved kind s event.amount a.minor (read_minor_value kind event.amount s a.amount_ok) in
    rw a.result (record {
      captured_by = m.captured_by;
      failed_by = m.failed_by;
      refunded_by = m.refunded_by;
      returned_by = m.returned_by;
      voided_by = m.voided_by;
      expired_by = m.expired_by;
    })

pub apply_effect-Moved :
    (s : PaymentState) (event : CanonicalEvent) {t : PaymentState}
    → apply_effect s event ≡ ok t
    → MovedByEvent s t event.kind event.amount
unfolding apply_effect
apply_effect-Moved s event h = elim (apply_kind_inv event.kind s event h) [
  | inl stale ↦ rw (stale.1) (stale-Moved event.kind s event event.amount stale.0)
  | inr a ↦ Accepted-Moved event.kind s event a
]

chain :
    (s t u r₁ b₁ r₂ b₂ : ℤ)
    → t +ℤ b₁ ≡ s +ℤ r₁
    → u +ℤ b₂ ≡ t +ℤ r₂
    → u +ℤ (b₁ +ℤ b₂) ≡ s +ℤ (r₁ +ℤ r₂)
chain s t u r₁ b₁ r₂ b₂ h k =
    omega (int_laws, ap pos_part h, ap neg_part h, ap pos_part k, ap neg_part k)

or_swap : (a b c d e : Bool) → a ≡ (b || c) → c ≡ (d || e) → a ≡ ((d || b) || e)
or_swap a b c d e h k = ground arith

module _ {s t u : PaymentState} {c₁ f₁ r₁ b₁ c₂ f₂ r₂ b₂ : ℤ} {v₁ e₁ v₂ e₂ : Bool}
    (m : Moved s t c₁ f₁ r₁ b₁ v₁ e₁) (n : Moved t u c₂ f₂ r₂ b₂ v₂ e₂) where
  trans-Moved : Moved s u (c₁ +ℤ c₂) (f₁ +ℤ f₂) (r₁ +ℤ r₂) (b₁ +ℤ b₂) (v₁ || v₂) (e₁ || e₂)
  trans-Moved = record {
    captured_by = rw (n.captured_by, m.captured_by) (omega int_laws);
    failed_by = rw (n.failed_by, m.failed_by) (omega int_laws);
    refunded_by =
        chain s.refunded_minor t.refunded_minor u.refunded_minor r₁ b₁ r₂ b₂ m.refunded_by
          n.refunded_by;
    returned_by = rw (n.returned_by, m.returned_by) (omega int_laws);
    voided_by = or_swap _ _ _ _ _ n.voided_by m.voided_by;
    expired_by = or_swap _ _ _ _ _ n.expired_by m.expired_by;
  }

exchange : (a b c d : ℤ) → (a +ℤ b) +ℤ (c +ℤ d) ≡ (a +ℤ c) +ℤ (b +ℤ d)
exchange a b c d = omega int_laws

ok_value :
    (s : PaymentState) {t : PaymentState} → (let r : Result PaymentState = ok s in r ≡ ok t) → s ≡ t
ok_value s h = cc

-- The amounts after any sequence of accepted events have moved by the events' totals: captures
-- and failed captures add up, refunds less the returned ones add up, and a void or an expiry is
-- remembered.
pub replay-Moved :
    (s : PaymentState) (es : List CanonicalEvent) {t : PaymentState}
    → replay s es ≡ ok t
    → MovedByAll s t es
unfolding replay
replay-Moved s [] h = rw (← ok_value s h) (grind int_laws)
replay-Moved s (e ∷ es) h =
    let (m, first, rest) = >>=-eq-ok (apply_effect s e) _ h in
    rw
      (exchange (share refund_fail e.kind e.amount) (total refund_fail es)
        (share refund_reverse e.kind e.amount) (total refund_reverse es))
      (trans-Moved (apply_effect-Moved s e first) (replay-Moved m es rest))
