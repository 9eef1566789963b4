-- ===== src/Ledger/Priced.antt =====
-- The currencies of the stored payments, from the adapters of src/quidz/events.py to
-- `apply_delivery` of src/quidz/ledger.py.
use mathlib.Core.Path.{subst}
use quidz.Prelude.{
  String, str_eq, ◌≡◌, refl, sym, ap, Bool-cases, inl, inr, ◌||◌, Option, none, some, List, [], ◌∷◌,
}
use quidz.Prelude.Int.{ℤ}
use quidz.Errors.{Result, ok, ◌>>=◌, >>=-eq-ok}
use quidz.Event.{Money, CanonicalEvent}
use quidz.Kind.{EffectKind, same_kind}
use quidz.Python.{Python, Fields, get, int}
use quidz.Money.{validate_currency, make_money}
use quidz.Events.{
  RawAmount, require_int, require_str, amount_field, stripe_object, stripe_kind, adyen_success,
  adyen_kind, adyen_moment, mapping, stripe_amount, float_seconds, from_stripe, nested_amount,
  adyen_amount, from_adyen,
}
use quidz.Model.{PaymentState}
use quidz.Model.Keys.{apply_effect_key}
use quidz.Store.{Payment, Db, find_payment, upsert_payment}
use quidz.Ledger.{load_payment, apply_delivery}
use quidz.Ledger.Once.{apply_delivery_atomic, base_found_inv}
use quidz.Ledger.Steps.{base_state}

-- Three upper case letters.
pub record IsCurrency (currency : String) : Type 0 where
  pub valid : validate_currency currency ≡ ok tt

-- The amount of an event, if there is one, is in a currency.
abbrev pub IsPriced : Option Money → Type 0
IsPriced none = Unit {0}
IsPriced (some m) = IsCurrency m.currency

abbrev pub AllPriced : List Payment → Type 0
AllPriced [] = Unit {0}
AllPriced (p ∷ ps) = IsCurrency p.state.currency × AllPriced ps

make_money-IsCurrency :
    (minor : ℤ) (currency : String) {m : Money}
    → make_money minor currency ≡ ok m
    → IsCurrency m.currency
unfolding make_money
make_money-IsCurrency minor currency {m} h =
    let (u, v, k) = >>=-eq-ok (validate_currency currency) _ h in
    let same : currency ≡ m.currency = cc in subst IsCurrency same (record { valid = v })

find_payment-IsCurrency :
    (payment_id : String) (ps : List Payment) {s : PaymentState}
    → AllPriced ps
    → find_payment payment_id ps ≡ some s
    → IsCurrency s.currency
find_payment-IsCurrency payment_id [] a h = cc
find_payment-IsCurrency payment_id (p ∷ ps) {s} (c, cs) h =
    elim (Bool-cases (str_eq p.state.payment_id payment_id)) [
      | inl e ↦
          (let h' = rw e at h in
            let same : p.state ≡ s = cc in subst (λ t. IsCurrency t.currency) same c)
      | inr e ↦ find_payment-IsCurrency payment_id ps cs (rw e at h)
    ]

upsert_payment-AllPriced :
    (s : PaymentState) (occurred_at : ℤ) (ps : List Payment)
    → IsCurrency s.currency
    → AllPriced ps
    → AllPriced (upsert_payment s occurred_at ps)
unfolding upsert_payment
upsert_payment-AllPriced s occurred_at [] c a = (c, tt)
upsert_payment-AllPriced s occurred_at (p ∷ ps) c (d, ds) =
    elim (Bool-cases (str_eq p.state.payment_id s.payment_id)) [
      | inl e ↦ rw e (d, ds)
      | inr e ↦ rw e (d, upsert_payment-AllPriced s occurred_at ps c ds)
    ]

base-IsCurrency :
    (db : Db) (e : CanonicalEvent) {s : PaymentState}
    → AllPriced db.payments
    → IsPriced e.amount
    → base_state db e ≡ some s
    → IsCurrency s.currency
unfolding load_payment
base-IsCurrency db e {s} a p h = elim (base_found_inv e (load_payment db e.payment_id) h) [
  | inl stored ↦ find_payment-IsCurrency e.payment_id db.payments a stored
  | inr (_, (m, priced, same)) ↦
      subst (λ t. IsCurrency t.currency) (sym same) (subst IsPriced priced p)
]

-- An event in a currency keeps every stored currency one.
pub apply_delivery-AllPriced :
    (did : String) (e : CanonicalEvent) (db : Db)
    → IsPriced e.amount
    → AllPriced db.payments
    → AllPriced (apply_delivery did e db).1.payments
apply_delivery-AllPriced did e db p a = elim (apply_delivery_atomic did e db refl) [
  | inl (same, _) ↦ subst (λ d. AllPriced d.payments) (sym same) a
  | inr (_, w) ↦
      (let start = base-IsCurrency db e a p w.started in
        let kept = (apply_effect_key w.start e w.folds).1 in
        subst (λ d. AllPriced d.payments) (sym w.written)
          (upsert_payment-AllPriced w.updated e.occurred_at db.payments
            (subst IsCurrency (sym kept) start) a))
]

ok_amount :
    {e e' : CanonicalEvent} → ◌≡◌ {A = Result CanonicalEvent} (ok e) (ok e') → e.amount ≡ e'.amount
ok_amount {e} {e'} h = let same : e ≡ e' = cc in ap (λ x. x.amount) same

module _ (python : Python) where
  read_amount-IsPriced :
      (kind : EffectKind) (carried : Fields) {raw : RawAmount}
      → (do
        minor ← require_int carried (amount_field kind carried)
        currency ← require_str carried "currency"
        money ← make_money minor (python.upper currency)
        ok (record {
          raw_value = some (python.to_str (int minor));
          raw_currency = some currency;
          amount = some money;
        }))
        ≡ ok raw
      → IsPriced raw.amount
  read_amount-IsPriced kind carried {raw} h =
      let (minor, _, h₁) = >>=-eq-ok (require_int carried (amount_field kind carried)) _ h in
      let (currency, _, h₂) = >>=-eq-ok (require_str carried "currency") _ h₁ in
      let (money, made, h₃) = >>=-eq-ok (make_money minor (python.upper currency)) _ h₂ in
      let same : some money ≡ raw.amount = cc in
      subst IsPriced same (make_money-IsCurrency minor (python.upper currency) made)

  stripe_amount-IsPriced :
      (kind : EffectKind) (carried : Fields) {raw : RawAmount}
      → stripe_amount python kind carried ≡ ok raw
      → IsPriced raw.amount
  unfolding stripe_amount
  stripe_amount-IsPriced kind carried {raw} h =
      elim (Bool-cases (same_kind kind EffectKind.void || same_kind kind EffectKind.expire)) [
        | inl e ↦
            (let h' = rw e at h in let same : none ≡ raw.amount = cc in subst IsPriced same tt)
        | inr e ↦ read_amount-IsPriced kind carried (rw e at h)
      ]

  nested_amount-IsPriced :
      (amount : Option Fields) {raw : RawAmount}
      → nested_amount python amount ≡ ok raw
      → IsPriced raw.amount
  nested_amount-IsPriced none {raw} h = let same : none ≡ raw.amount = cc in subst IsPriced same tt
  nested_amount-IsPriced (some amount) {raw} h =
      let (minor, _, h₁) = >>=-eq-ok (require_int amount "value") _ h in
      let (currency, _, h₂) = >>=-eq-ok (require_str amount "currency") _ h₁ in
      let (money, made, h₃) = >>=-eq-ok (make_money minor currency) _ h₂ in
      let same : some money ≡ raw.amount = cc in
      subst IsPriced same (make_money-IsCurrency minor currency made)

  -- Whatever the adapters return is in a currency, if it has an amount.
  pub from_stripe-IsPriced :
      (payload : Fields) {e : CanonicalEvent}
      → from_stripe python payload ≡ ok e
      → IsPriced e.amount
  unfolding from_stripe
  from_stripe-IsPriced payload {e} h =
      let (identity, _, h₁) = >>=-eq-ok (require_str payload "id") _ h in
      let (event_type, _, h₂) = >>=-eq-ok (require_str payload "type") _ h₁ in
      let (created, _, h₃) = >>=-eq-ok (require_int payload "created") _ h₂ in
      let (carried, _, h₄) = >>=-eq-ok (stripe_object payload) _ h₃ in
      let (kind, _, h₅) = >>=-eq-ok (stripe_kind event_type carried) _ h₄ in
      let (ref, _, h₆) = >>=-eq-ok (require_str carried "id") _ h₅ in
      let (raw, read, h₇) = >>=-eq-ok (stripe_amount python kind carried) _ h₆ in
      let (at, _, h₈) = >>=-eq-ok (float_seconds created) _ h₇ in
      let same : raw.amount ≡ e.amount = ok_amount h₈ in
      subst IsPriced same (stripe_amount-IsPriced kind carried read)

  pub from_adyen-IsPriced :
      (item : Fields) {e : CanonicalEvent} → from_adyen python item ≡ ok e → IsPriced e.amount
  unfolding from_adyen adyen_amount
  from_adyen-IsPriced item {e} h =
      let (reference, _, h₁) = >>=-eq-ok (require_str item "pspReference") _ h in
      let (code, _, h₂) = >>=-eq-ok (require_str item "eventCode") _ h₁ in
      let (success, _, h₃) = >>=-eq-ok (adyen_success python (get item "success")) _ h₂ in
      let (kind, _, h₄) = >>=-eq-ok (adyen_kind code success) _ h₃ in
      let (at, _, h₅) = >>=-eq-ok (adyen_moment python item) _ h₄ in
      let (raw, read, h₆) = >>=-eq-ok (adyen_amount python item) _ h₅ in
      let (payment, _, h₇) = >>=-eq-ok (require_str item "merchantReference") _ h₆ in
      let same : raw.amount ≡ e.amount = ok_amount h₇ in
      subst IsPriced same (nested_amount-IsPriced (mapping (get item "amount")) read)
