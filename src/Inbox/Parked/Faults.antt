-- ===== src/Inbox/Parked/Faults.antt =====
-- What decoding a body may raise: faults of the body, and the OverflowError of `float(created)`.
use quidz.Prelude.{
  ℕ, String, str_eq, Bool, true, false, ◌||◌, ◌≡◌, refl, Option, none, some, List, if◌then◌else◌,
  ◌⊎◌, inl, inr, ap, Bool-cases,
}
use mathlib.Core.Path.{subst}
use quidz.Prelude.Int.{ℤ}
use quidz.Errors.{
  Result, ok, raise, ◌>>=◌, raise_if, value_error, overflow_error, Result-cases, ok_value,
}
use quidz.Kind.{EffectKind, same_kind, void, expire}
use quidz.Event.{Provider, stripe, adyen}
use quidz.Python.{Value, Fields, null, bool, int, float, str, arr, obj, get, Python}
use quidz.Money.{make_money, validate_currency}
use quidz.Dlq.{is_instance}
use quidz.Events.{
  str_or_malformed, int_or_malformed, require_str, require_int, mapping, mapping_or_malformed,
  kind_or_unknown, stripe_object, stripe_kind, adyen_kind, success_text, adyen_success, moment,
  adyen_moment, nested_amount, adyen_amount, amount_field, stripe_amount, from_stripe, from_adyen,
  no_amount, float_overflows, float_seconds, seconds,
}
use quidz.Inbox.{as_mapping, payload_of, decode}
use quidz.Inbox.Parked.{body_fault}

module _ {A : Type 0} where
  abbrev readable : Result A → Bool
  readable (ok a) = true
  readable (raise exc) = body_fault exc

  -- A result, or one of the exceptions that a bad body causes.
  pub record Readable (r : Result A) : Type 0 where
    pub holds : readable r ≡ true

  Readable-ok : (a : A) → Readable (ok a)
  Readable-ok a = record { holds = refl }

  Readable-if :
      {x y : Result A} (c : Bool) → Readable x → Readable y → Readable (if c then x else y)
  Readable-if true h k = h
  Readable-if false h k = k

module _ {A B : Type 0} where
  Readable-bind :
      (first : Result A) {next : A → Result B}
      → Readable first
      → ((a : A) → Readable (next a))
      → Readable (first >>= next)
  Readable-bind (ok a) h k = k a
  Readable-bind (raise exc) h k = record { holds = h.holds }

-- The `created` of a payload is an integer that no float can hold.
pub record TooLarge (payload : Fields) : Type 0 where
  pub created : ℤ
  pub given : get payload "created" ≡ int created
  pub overflows : float_overflows created ≡ true

module _ (payload : Fields) where
  -- An adapter has returned, has refused a bad body, or has met such an integer.
  abbrev Told : {A : Type 0} → Result A → Type 0
  Told r = Readable r ⊎ ((r ≡ raise overflow_error) × TooLarge payload)

  Told-bind :
      {A B : Type 0} (first : Result A) {next : A → Result B}
      → Readable first
      → ((a : A) → first ≡ ok a → Told (next a))
      → Told (first >>= next)
  Told-bind (ok a) h k = k a refl
  Told-bind (raise exc) h k = inl (record { holds = h.holds })

  float_seconds-Told :
      {B : Type 0} (created : ℤ) (next : ℤ → B)
      → get payload "created" ≡ int created
      → Told (float_seconds created >>= λ at. ok (next at))
  float_seconds-Told created next given = elim (Bool-cases (float_overflows created)) [
    | inl e ↦ inr (rw e refl, record { created = created; given = given; overflows = e })
    | inr e ↦ inl (rw e (Readable-ok (next (seconds created))))
  ]

int_or_malformed-eq : (v : Value) {n : ℤ} → int_or_malformed v ≡ ok n → v ≡ int n
int_or_malformed-eq (int m) h = ap int (ok_value h)
int_or_malformed-eq null h = cc
int_or_malformed-eq (bool b) h = cc
int_or_malformed-eq (float t) h = cc
int_or_malformed-eq (str s) h = cc
int_or_malformed-eq (arr xs) h = cc
int_or_malformed-eq (obj fs) h = cc

require_int-eq :
    (fs : Fields) (key : String) {n : ℤ} → require_int fs key ≡ ok n → get fs key ≡ int n
unfolding require_int
require_int-eq fs key h = int_or_malformed-eq (get fs key) h

text-Readable : (v : Value) → Readable (str_or_malformed v)
unfolding body_fault is_instance
text-Readable (str s) = Readable-if (str_eq s "") (record { holds = refl }) (Readable-ok s)
text-Readable _ = record { holds = refl }

int-Readable : (v : Value) → Readable (int_or_malformed v)
unfolding body_fault is_instance
int-Readable (int n) = record { holds = refl }
int-Readable _ = record { holds = refl }

require_str-Readable : (fs : Fields) (key : String) → Readable (require_str fs key)
unfolding require_str
require_str-Readable fs key = text-Readable (get fs key)

require_int-Readable : (fs : Fields) (key : String) → Readable (require_int fs key)
unfolding require_int
require_int-Readable fs key = int-Readable (get fs key)

mapping-Readable : (v : Value) → Readable (mapping_or_malformed v)
unfolding body_fault is_instance
mapping-Readable (obj fs) = record { holds = refl }
mapping-Readable _ = record { holds = refl }

currency-Readable : (c : Bool) → Readable (raise_if c value_error)
unfolding body_fault is_instance
currency-Readable true = record { holds = refl }
currency-Readable false = record { holds = refl }

make_money-Readable : (minor : ℤ) (currency : String) → Readable (make_money minor currency)
unfolding make_money validate_currency
make_money-Readable minor currency =
    Readable-bind (validate_currency currency) (currency-Readable _) (λ _. record { holds = refl })

kind-Readable : (k : Option EffectKind) → Readable (kind_or_unknown k)
unfolding body_fault is_instance
kind-Readable none = record { holds = refl }
kind-Readable (some k) = record { holds = refl }

stripe_kind-Readable :
    (event_type : String) (carried : Fields) → Readable (stripe_kind event_type carried)
unfolding stripe_kind
stripe_kind-Readable event_type carried =
    Readable-if (str_eq event_type "charge.refund.updated") (record { holds = refl })
      (kind-Readable _)

adyen_kind-Readable : (code : String) (success : Bool) → Readable (adyen_kind code success)
unfolding adyen_kind
adyen_kind-Readable code success = kind-Readable _

stripe_object-Readable : (payload : Fields) → Readable (stripe_object payload)
unfolding stripe_object
stripe_object-Readable payload =
    Readable-bind (mapping_or_malformed (get payload "data")) (mapping-Readable _)
      (λ carried. mapping-Readable _)

module _ (python : Python) where
  open python use {to_str, strip_lower, upper, Datetime, fromisoformat}

  stripe_amount-Readable :
      (kind : EffectKind) (carried : Fields) → Readable (stripe_amount python kind carried)
  unfolding stripe_amount
  stripe_amount-Readable kind carried =
      Readable-if {x = ok no_amount} (same_kind kind void || same_kind kind expire)
        (Readable-ok no_amount)
        (Readable-bind (require_int carried (amount_field kind carried))
          (require_int-Readable carried _)
          (λ minor.
            Readable-bind (require_str carried "currency") (require_str-Readable carried _)
              (λ currency.
                Readable-bind (make_money minor (upper currency)) (make_money-Readable minor _)
                  (λ money. record { holds = refl }))))

  from_stripe-Told : (payload : Fields) → Told payload (from_stripe python payload)
  unfolding from_stripe
  from_stripe-Told payload =
      Told-bind payload (require_str payload "id") (require_str-Readable payload _) (λ identity _.
        Told-bind payload (require_str payload "type") (require_str-Readable payload _)
          (λ event_type _.
            Told-bind payload (require_int payload "created") (require_int-Readable payload _)
              (λ created given.
                Told-bind payload (stripe_object payload) (stripe_object-Readable payload)
                  (λ carried _.
                    Told-bind payload (stripe_kind event_type carried)
                      (stripe_kind-Readable event_type carried)
                      (λ kind _.
                        Told-bind payload (require_str carried "id")
                          (require_str-Readable carried _)
                          (λ ref _.
                            Told-bind payload (stripe_amount python kind carried)
                              (stripe_amount-Readable kind carried)
                              (λ raw _.
                                float_seconds-Told payload created _
                                  (require_int-eq payload "created" given))))))))

  success_text-Readable : (s : String) → Readable (success_text python s)
  unfolding body_fault is_instance
  success_text-Readable s =
      Readable-if (str_eq s "true") (Readable-ok true)
        (Readable-if (str_eq s "false") (Readable-ok false) (record { holds = refl }))

  success-Readable : (v : Value) → Readable (adyen_success python v)
  unfolding adyen_success
  success-Readable (bool b) = Readable-ok b
  success-Readable null = success_text-Readable (strip_lower (to_str null))
  success-Readable (int n) = success_text-Readable (strip_lower (to_str (int n)))
  success-Readable (float t) = success_text-Readable (strip_lower (to_str (float t)))
  success-Readable (str s) = success_text-Readable (strip_lower s)
  success-Readable (arr xs) = success_text-Readable (strip_lower (to_str (arr xs)))
  success-Readable (obj fs) = success_text-Readable (strip_lower (to_str (obj fs)))

  moment-Readable : (d : Option Datetime) → Readable (moment python d)
  unfolding body_fault is_instance
  moment-Readable none = record { holds = refl }
  moment-Readable (some d) = Readable-ok _

  adyen_moment-Readable : (item : Fields) → Readable (adyen_moment python item)
  unfolding adyen_moment
  adyen_moment-Readable item =
      Readable-bind (require_str item "eventDate") (require_str-Readable item _)
        (λ text. moment-Readable (fromisoformat text))

  nested_amount-Readable : (amount : Option Fields) → Readable (nested_amount python amount)
  nested_amount-Readable none = Readable-ok _
  nested_amount-Readable (some amount) =
      Readable-bind (require_int amount "value") (require_int-Readable amount _) (λ minor.
        Readable-bind (require_str amount "currency") (require_str-Readable amount _) (λ currency.
          Readable-bind (make_money minor currency) (make_money-Readable minor currency)
            (λ money. Readable-ok _)))

  adyen_amount-Readable : (item : Fields) → Readable (adyen_amount python item)
  unfolding adyen_amount
  adyen_amount-Readable item = nested_amount-Readable (mapping (get item "amount"))

  from_adyen-Readable : (item : Fields) → Readable (from_adyen python item)
  unfolding from_adyen
  from_adyen-Readable item =
      Readable-bind (require_str item "pspReference") (require_str-Readable item _) (λ psp.
        Readable-bind (require_str item "eventCode") (require_str-Readable item _) (λ code.
          Readable-bind (adyen_success python (get item "success")) (success-Readable _) (λ success.
            Readable-bind (adyen_kind code success) (adyen_kind-Readable code success) (λ kind.
              Readable-bind (adyen_moment python item) (adyen_moment-Readable item) (λ at.
                Readable-bind (adyen_amount python item) (adyen_amount-Readable item) (λ raw.
                  Readable-bind (require_str item "merchantReference") (require_str-Readable item _)
                    (λ merchant. Readable-ok _)))))))

  as_mapping-Readable : (v : Value) → Readable (as_mapping v)
  unfolding body_fault is_instance
  as_mapping-Readable (obj fs) = Readable-ok fs
  as_mapping-Readable _ = record { holds = refl }

  -- The body of a Stripe delivery whose `created` is such an integer.
  pub record Overlarge (provider : Provider) (raw : List ℕ) : Type 0 where
    pub of_stripe : provider ≡ stripe
    pub payload : Fields
    pub parsed : payload_of python raw ≡ ok payload
    pub created : TooLarge payload

  -- A body that decodes, that is bad, or whose `created` overflows.
  abbrev pub Decodes : Provider → List ℕ → Type 0
  Decodes provider raw =
      Readable (decode python provider raw)
      ⊎ ((decode python provider raw ≡ raise overflow_error) × Overlarge provider raw)

  adapted :
      (provider : Provider) (raw : List ℕ) (payload : Fields)
      → payload_of python raw ≡ ok payload
      → Decodes provider raw
  unfolding decode
  adapted stripe raw payload h = elim (from_stripe-Told payload) [
    | inl r ↦ inl (rw h r)
    | inr (e, t) ↦
        inr (rw h e, record { of_stripe = refl; payload = payload; parsed = h; created = t })
  ]
  adapted adyen raw payload h = inl (rw h (from_adyen-Readable payload))

  -- Where parsing fails only on the body, so does decoding it, but for such a `created`.
  pub decode-Decodes :
      ((raw : List ℕ) → Readable (python.loads raw))
      → (provider : Provider) (raw : List ℕ) → Decodes provider raw
  unfolding decode payload_of
  decode-Decodes loads provider raw = elim (Result-cases (payload_of python raw)) [
    | inr (payload, h) ↦ adapted provider raw payload h
    | inl (e, h) ↦
        (let read = Readable-bind (python.loads raw) (loads raw) as_mapping-Readable in
          let bad : Readable (raise e) = subst Readable h read in
          inl (rw h (record { holds = bad.holds })))
  ]
