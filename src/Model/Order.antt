-- ===== src/Model/Order.antt =====
-- The amounts of a payment do not depend on the order in which its events were accepted.
use mathlib.Core.List.{Perm, Permᴰ}
use mathlib.Core.Logic.{∥∥₁_elim}
use quidz.Prelude.{◌≡◌, refl, sym, ap, ◌∙◌, Bool, ◌||◌, List, arith}
use quidz.Prelude.Int.{ℤ, ◌+ℤ◌, pos_part, neg_part, int_laws}
use quidz.Errors.{ok}
use quidz.Kind.{
  EffectKind, capture, capture_fail, refund, refund_fail, refund_reverse, void, expire, same_kind,
}
use quidz.Event.{CanonicalEvent}
use quidz.Model.{PaymentState}
use quidz.Model.Totals.{replay, total, seen, share, replay-Moved}

exchange : (a b c : ℤ) → a +ℤ (b +ℤ c) ≡ b +ℤ (a +ℤ c)
exchange a b c = omega int_laws

or_exchange : (a b c : Bool) → (a || (b || c)) ≡ (b || (a || c))
or_exchange a b c = ground arith

total-Permᴰ : (k : EffectKind) {es fs : List CanonicalEvent} → Permᴰ es fs → total k es ≡ total k fs
total-Permᴰ k Permᴰ.nil = refl
total-Permᴰ k (Permᴰ.cons {a = a} {b = b} {l₁ = l₁} {l₂ = l₂} h p) =
    ap (λ e. share k e.kind e.amount +ℤ total k l₁) h
    ∙ ap (λ n. share k b.kind b.amount +ℤ n) (total-Permᴰ k p)
total-Permᴰ k (Permᴰ.swap {a = a} {b = b} {a' = a'} {b' = b'} {l = l} h g) =
    exchange (share k a.kind a.amount) (share k b.kind b.amount) (total k l)
    ∙ ap (λ e. share k e.kind e.amount +ℤ (share k a.kind a.amount +ℤ total k l)) g
    ∙ ap (λ e. share k a'.kind a'.amount +ℤ (share k e.kind e.amount +ℤ total k l)) h
total-Permᴰ k (Permᴰ.trans p q) = total-Permᴰ k p ∙ total-Permᴰ k q

seen-Permᴰ : (k : EffectKind) {es fs : List CanonicalEvent} → Permᴰ es fs → seen k es ≡ seen k fs
seen-Permᴰ k Permᴰ.nil = refl
seen-Permᴰ k (Permᴰ.cons {a = a} {b = b} {l₁ = l₁} h p) =
    ap (λ e. same_kind e.kind k || seen k l₁) h ∙ ap (λ n. same_kind b.kind k || n) (seen-Permᴰ k p)
seen-Permᴰ k (Permᴰ.swap {a = a} {b = b} {a' = a'} {b' = b'} {l = l} h g) =
    or_exchange (same_kind a.kind k) (same_kind b.kind k) (seen k l)
    ∙ ap (λ e. same_kind e.kind k || (same_kind a.kind k || seen k l)) g
    ∙ ap (λ e. same_kind a'.kind k || (same_kind e.kind k || seen k l)) h
seen-Permᴰ k (Permᴰ.trans p q) = seen-Permᴰ k p ∙ seen-Permᴰ k q

total-Perm : (k : EffectKind) {es fs : List CanonicalEvent} → Perm es fs → total k es ≡ total k fs
total-Perm k p = ∥∥₁_elim p (hlevel) (total-Permᴰ k)

seen-Perm : (k : EffectKind) {es fs : List CanonicalEvent} → Perm es fs → seen k es ≡ seen k fs
seen-Perm k p = ∥∥₁_elim p (hlevel) (seen-Permᴰ k)

-- Two aggregates that hold the same amounts and flags.
pub record SameAmounts (t u : PaymentState) : Type 0 where
  pub same_captured : t.captured_minor ≡ u.captured_minor
  pub same_failed : t.capture_failed_minor ≡ u.capture_failed_minor
  pub same_refunded : t.refunded_minor ≡ u.refunded_minor
  pub same_returned : t.refund_failed_minor ≡ u.refund_failed_minor
  pub same_voided : t.voided ≡ u.voided
  pub same_expired : t.expired ≡ u.expired

cancel : (a b c d : ℤ) → a +ℤ c ≡ d → b +ℤ c ≡ d → a ≡ b
cancel a b c d h k = omega (int_laws, ap pos_part h, ap neg_part h, ap pos_part k, ap neg_part k)

-- Late and reordered webhooks end in the same money: when one collection of events is accepted in
-- two orders, both leave the same captured, failed, refunded and returned amounts, and the
-- payment voided or expired alike.
pub replay-Perm :
    (s : PaymentState) (es fs : List CanonicalEvent) {t u : PaymentState}
    → Perm es fs
    → replay s es ≡ ok t
    → replay s fs ≡ ok u
    → SameAmounts t u
replay-Perm s es fs p h k =
    let m = replay-Moved s es h in
    let n = replay-Moved s fs k in
    record {
      same_captured =
          m.captured_by
          ∙ ap (λ z. s.captured_minor +ℤ z) (total-Perm capture p)
          ∙ sym n.captured_by;
      same_failed =
          m.failed_by
          ∙ ap (λ z. s.capture_failed_minor +ℤ z) (total-Perm capture_fail p)
          ∙ sym n.failed_by;
      same_refunded =
          cancel _ _ (total refund_fail es +ℤ total refund_reverse es)
            (s.refunded_minor +ℤ total refund es) m.refunded_by
            (rw (total-Perm refund_fail p, total-Perm refund_reverse p, total-Perm refund p)
              n.refunded_by);
      same_returned =
          m.returned_by
          ∙ ap (λ z. s.refund_failed_minor +ℤ (z +ℤ total refund_reverse es))
              (total-Perm refund_fail p)
          ∙ ap (λ z. s.refund_failed_minor +ℤ (total refund_fail fs +ℤ z))
              (total-Perm refund_reverse p)
          ∙ sym n.returned_by;
      same_voided = m.voided_by ∙ ap (λ b. b || s.voided) (seen-Perm void p) ∙ sym n.voided_by;
      same_expired =
          m.expired_by ∙ ap (λ b. b || s.expired) (seen-Perm expire p) ∙ sym n.expired_by;
    }
