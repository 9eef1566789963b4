-- ===== src/Events.antt =====
-- Provider payloads to one canonical event (src/quidz/events.py).
pub mod Identity
use quidz.Prelude.{
  ℕ, ◌+◌, ◌-◌, ◌^◌, leb, ◌*◌, ◌/◌, String, str_eq, Bool, true, false, not, ◌&&◌, ◌||◌, Option, none,
  some, List, [], ◌∷◌, if◌then◌else◌,
}
use quidz.Prelude.Int.{ℤ, pos, negsuc, pos_part, neg_part, sub_ℕ}
use Prim.Native.String.{◌++◌ as append}
use quidz.Errors.{
  Result, ok, raise, ◌>>=◌, ◌>>◌, malformed_event, unknown_event_type, value_error, overflow_error,
}
use quidz.Kind.{
  EffectKind, authorize, authorize_fail, adjust_auth, capture, capture_fail, void, expire, refund,
  refund_fail, refund_reverse, same_kind,
}
use quidz.Event.{Money, Provider, stripe, adyen, CanonicalEvent}
use quidz.Money.{make_money}
use quidz.Python.{Value, Fields, null, bool, int, float, str, arr, obj, get, has_key, Python}

-- `_require_str`
abbrev pub str_or_malformed : Value → Result String
str_or_malformed (str s) = if str_eq s "" then raise malformed_event else ok s
str_or_malformed _ = raise malformed_event

unfoldable pub require_str : Fields → String → Result String
require_str source key = str_or_malformed (get source key)

-- `_require_int`: a bool is no integer.
abbrev pub int_or_malformed : Value → Result ℤ
int_or_malformed (int n) = ok n
int_or_malformed _ = raise malformed_event

unfoldable pub require_int : Fields → String → Result ℤ
require_int source key = int_or_malformed (get source key)

-- `isinstance(value, Mapping)`
abbrev pub mapping : Value → Option Fields
mapping (obj fs) = some fs
mapping _ = none

abbrev pub mapping_or_malformed : Value → Result Fields
mapping_or_malformed (obj fs) = ok fs
mapping_or_malformed _ = raise malformed_event

abbrev table_get : String → List (String × EffectKind) → Option EffectKind
table_get key [] = none
table_get key ((k, v) ∷ rest) = if str_eq k key then some v else table_get key rest

abbrev pub kind_or_unknown : Option EffectKind → Result EffectKind
kind_or_unknown none = raise unknown_event_type
kind_or_unknown (some k) = ok k

abbrev pub stripe_kinds : List (String × EffectKind)
stripe_kinds =
    ("payment_intent.amount_capturable_updated", authorize)
    ∷ ("payment_intent.payment_failed", authorize_fail)
    ∷ ("payment_intent.canceled", void)
    ∷ ("charge.captured", capture)
    ∷ ("charge.expired", expire)
    ∷ []

abbrev pub adyen_kinds : List (String × EffectKind)
adyen_kinds =
    ("AUTHORISATION", authorize)
    ∷ ("AUTHORISATION_ADJUSTMENT", adjust_auth)
    ∷ ("CANCELLATION", void)
    ∷ ("CAPTURE", capture)
    ∷ ("CAPTURE_FAILED", capture_fail)
    ∷ ("REFUND", refund)
    ∷ ("REFUND_FAILED", refund_fail)
    ∷ ("REFUNDED_REVERSED", refund_reverse)
    ∷ ("EXPIRE", expire)
    ∷ []

abbrev pub adyen_failure_kinds : List (String × EffectKind)
adyen_failure_kinds =
    ("AUTHORISATION", authorize_fail) ∷ ("CAPTURE", capture_fail) ∷ ("REFUND", refund_fail) ∷ []

-- Times are in ticks, of which a second has this many.
abbrev pub ticks_per_second : ℕ
ticks_per_second = 1000000

-- The integers whose nearest double is out of range: those from halfway between the largest double
-- and 2^1024 on.
unfoldable pub float_overflows : ℤ → Bool
float_overflows n = leb (2 ^ 1024 - 2 ^ 970) (pos_part n + neg_part n)

-- Whole seconds, in ticks.
abbrev pub seconds : ℤ → ℤ
seconds n = sub_ℕ (pos_part n * ticks_per_second) (neg_part n * ticks_per_second)

-- `float(created)`
abbrev pub float_seconds : ℤ → Result ℤ
float_seconds n = if float_overflows n then raise overflow_error else ok (seconds n)

-- `int(occurred_at)`, which rounds toward zero.
abbrev pub whole_seconds : ℤ → ℤ
whole_seconds t = sub_ℕ (pos_part t / ticks_per_second) (neg_part t / ticks_per_second)

-- `_adyen_kind`
unfoldable pub adyen_kind : String → Bool → Result EffectKind
adyen_kind event_code success =
    kind_or_unknown (table_get event_code (if success then adyen_kinds else adyen_failure_kinds))

-- `_stripe_object`
unfoldable pub stripe_object : Fields → Result Fields
stripe_object payload = do
  carried ← mapping_or_malformed (get payload "data")
  mapping_or_malformed (get carried "object")

-- `value == text`
abbrev pub is_text : Value → String → Bool
is_text (str s) text = str_eq s text
is_text _ text = false

-- The kind of a Stripe event, from its type and the object that it carries.
unfoldable pub stripe_kind : String → Fields → Result EffectKind
stripe_kind event_type carried =
    if str_eq event_type "charge.refund.updated"
    then ok (if is_text (get carried "status") "failed" then refund_fail else refund)
    else kind_or_unknown (table_get event_type stripe_kinds)

-- The field that holds the amount.
unfoldable pub amount_field : EffectKind → Fields → String
amount_field kind carried =
    if same_kind kind authorize && has_key carried "amount_capturable"
    then "amount_capturable"
    else if same_kind kind capture && has_key carried "amount_captured"
    then "amount_captured"
    else "amount"

-- The verbatim value and currency, and the amount.
pub record RawAmount : Type 0 where
  pub raw_value : Option String
  pub raw_currency : Option String
  pub amount : Option Money

abbrev pub no_amount : RawAmount
no_amount = record { raw_value = none; raw_currency = none; amount = none }

-- `payment_intent if isinstance(payment_intent, str) else provider_ref`
abbrev pub text_or : Value → String → String
text_or (str s) fallback = s
text_or _ fallback = fallback

module _ (python : Python) where
  open python use {
    to_str, strip_lower, upper, Datetime, fromisoformat, has_tzinfo, replace_utc, timestamp,
  }

  -- `_stripe_amount`
  unfoldable pub stripe_amount : EffectKind → Fields → Result RawAmount
  stripe_amount kind carried =
      if same_kind kind void || same_kind kind expire then ok no_amount else do
        minor ← require_int carried (amount_field kind carried)
        currency ← require_str carried "currency"
        money ← make_money minor (upper currency)
        ok (record {
          raw_value = some (to_str (int minor));
          raw_currency = some currency;
          amount = some money;
        })

  unfoldable pub from_stripe : Fields → Result CanonicalEvent
  from_stripe payload = do
    identity ← require_str payload "id"
    event_type ← require_str payload "type"
    created ← require_int payload "created"
    carried ← stripe_object payload
    kind ← stripe_kind event_type carried
    provider_ref ← require_str carried "id"
    raw ← stripe_amount kind carried
    occurred_at ← float_seconds created
    ok (record {
      provider = stripe;
      identity = identity;
      payment_id = text_or (get carried "payment_intent") provider_ref;
      kind = kind;
      provider_ref = provider_ref;
      amount = raw.amount;
      occurred_at = occurred_at;
      sequence = created;
      raw_amount_value = raw.raw_value;
      raw_currency = raw.raw_currency;
    })

  -- The text of a success field that is no bool.
  abbrev pub success_text : String → Result Bool
  success_text text =
      if str_eq text "true"
      then ok true
      else if str_eq text "false"
      then ok false
      else raise malformed_event

  -- `_adyen_success`
  unfoldable pub adyen_success : Value → Result Bool
  adyen_success (bool b) = ok b
  adyen_success null = success_text (strip_lower (to_str null))
  adyen_success (int n) = success_text (strip_lower (to_str (int n)))
  adyen_success (float t) = success_text (strip_lower (to_str (float t)))
  adyen_success (str s) = success_text (strip_lower s)
  adyen_success (arr xs) = success_text (strip_lower (to_str (arr xs)))
  adyen_success (obj fs) = success_text (strip_lower (to_str (obj fs)))

  -- The moment of a date: UTC where the text names no zone.
  abbrev pub moment : Option Datetime → Result ℤ
  moment none = raise malformed_event
  moment (some d) = ok (timestamp (if has_tzinfo d then d else replace_utc d))

  -- `_adyen_moment`
  unfoldable pub adyen_moment : Fields → Result ℤ
  adyen_moment item = do text ← require_str item "eventDate"; moment (fromisoformat text)

  abbrev pub nested_amount : Option Fields → Result RawAmount
  nested_amount none = ok no_amount
  nested_amount (some amount) = do
    minor ← require_int amount "value"
    currency ← require_str amount "currency"
    money ← make_money minor currency
    ok (record {
      raw_value = some (to_str (int minor));
      raw_currency = some currency;
      amount = some money;
    })

  -- `_adyen_amount`
  unfoldable pub adyen_amount : Fields → Result RawAmount
  adyen_amount item = nested_amount (mapping (get item "amount"))

  unfoldable pub from_adyen : Fields → Result CanonicalEvent
  from_adyen item = do
    psp_reference ← require_str item "pspReference"
    event_code ← require_str item "eventCode"
    success ← adyen_success (get item "success")
    kind ← adyen_kind event_code success
    occurred_at ← adyen_moment item
    raw ← adyen_amount item
    payment_id ← require_str item "merchantReference"
    ok (record {
      provider = adyen;
      identity = append psp_reference (append ":" event_code);
      payment_id = payment_id;
      kind = kind;
      provider_ref = psp_reference;
      amount = raw.amount;
      occurred_at = occurred_at;
      sequence = whole_seconds occurred_at;
      raw_amount_value = raw.raw_value;
      raw_currency = raw.raw_currency;
    })
