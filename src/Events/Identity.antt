-- ===== src/Events/Identity.antt =====
-- The identity of an Adyen delivery rests on its stable fields alone.
use Prim.Native.String.{◌++◌ as append}
use quidz.Prelude.{String, ◌≡◌, refl, ap, ◌∙◌, Bool}
use quidz.Errors.{ok, >>=-eq-ok, ok_value, ok_unique}
use quidz.Event.{CanonicalEvent}
use quidz.Python.{Fields, get, Python}
use quidz.Events.{require_str, adyen_kind, adyen_success, adyen_moment, adyen_amount, from_adyen}

-- What a decoded item tells of its fields.
pub record Decoded (python : Python) (item : Fields) (e : CanonicalEvent) : Type 0 where
  pub code : String
  pub success : Bool
  pub reference : require_str item "pspReference" ≡ ok e.provider_ref
  pub coded : require_str item "eventCode" ≡ ok code
  pub succeeded : adyen_success python (get item "success") ≡ ok success
  pub kinded : adyen_kind code success ≡ ok e.kind
  pub merchant : require_str item "merchantReference" ≡ ok e.payment_id
  pub identified : e.identity ≡ append e.provider_ref (append ":" code)

module _ (python : Python) where
  pub from_adyen-Decoded :
      (item : Fields) {e : CanonicalEvent} → from_adyen python item ≡ ok e → Decoded python item e
  unfolding from_adyen
  from_adyen-Decoded item {e} h =
      let (ref, h₁, k₁) = >>=-eq-ok (require_str item "pspReference") _ h in
      let (code, h₂, k₂) = >>=-eq-ok (require_str item "eventCode") _ k₁ in
      let (success, h₃, k₃) = >>=-eq-ok (adyen_success python (get item "success")) _ k₂ in
      let (kind, h₄, k₄) = >>=-eq-ok (adyen_kind code success) _ k₃ in
      let (at, h₅, k₅) = >>=-eq-ok (adyen_moment python item) _ k₄ in
      let (raw, h₆, k₆) = >>=-eq-ok (adyen_amount python item) _ k₅ in
      let (merchant, h₇, k₇) = >>=-eq-ok (require_str item "merchantReference") _ k₆ in
      let same = ok_value k₇ in
      record {
        code = code;
        success = success;
        reference = h₁ ∙ ap (λ z. ok z.provider_ref) same;
        coded = h₂;
        succeeded = h₃;
        kinded = h₄ ∙ ap (λ z. ok z.kind) same;
        merchant = h₇ ∙ ap (λ z. ok z.payment_id) same;
        identified = cc (
          ap (λ (z : CanonicalEvent). z.identity) same,
          ap (λ (z : CanonicalEvent). z.provider_ref) same,
        );
      }

-- The four fields that a duplicate of a notification repeats.
pub record SameDelivery (a b : Fields) : Type 0 where
  pub same_reference : get a "pspReference" ≡ get b "pspReference"
  pub same_code : get a "eventCode" ≡ get b "eventCode"
  pub same_success : get a "success" ≡ get b "success"
  pub same_merchant : get a "merchantReference" ≡ get b "merchantReference"

same_require :
    (a b : Fields) (key : String) → get a key ≡ get b key → require_str a key ≡ require_str b key
unfolding require_str
same_require a b key h = rw h refl

-- Two notifications that agree on the reference, the event code, the success field and the
-- merchant's reference are one delivery: whatever else differs, their dates and amounts included,
-- the decoded events have the same identity and the same key of the effects table.
pub from_adyen_stable :
    (python : Python) (a b : Fields) {d e : CanonicalEvent}
    → SameDelivery a b
    → from_adyen python a ≡ ok d
    → from_adyen python b ≡ ok e
    → (d.identity ≡ e.identity)
      × (d.payment_id ≡ e.payment_id)
      × (d.kind ≡ e.kind)
      × (d.provider_ref ≡ e.provider_ref)
from_adyen_stable python a b s p q =
    let x = from_adyen-Decoded python a p in
    let y = from_adyen-Decoded python b q in
    let ref =
      ok_unique x.reference (same_require a b "pspReference" s.same_reference ∙ y.reference) in
    let code = ok_unique x.coded (same_require a b "eventCode" s.same_code ∙ y.coded) in
    let success = ok_unique x.succeeded (ap (adyen_success python) s.same_success ∙ y.succeeded) in
    let merchant =
      ok_unique x.merchant (same_require a b "merchantReference" s.same_merchant ∙ y.merchant) in
    (
      cc (x.identified, y.identified, ref, code),
      merchant,
      ok_unique x.kinded (cc (y.kinded, code, success)),
      ref,
    )
