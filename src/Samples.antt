-- ===== src/Samples.antt =====
-- Small inputs that the tests share: a library of Python functions, a generator, digests, a policy, an
-- authorization with its delivery, and a provider's notification.
use quidz.Prelude.{refl, ℕ, String, ◌≤◌, none, some, true, List, [], ◌∷◌, min, arith}
use quidz.Prelude.Int.{pos}
use quidz.Errors.{Result, ok, raise, json_decode_error}
use quidz.Kind.{authorize}
use quidz.Event.{adyen, CanonicalEvent}
use quidz.Signatures.{Crypto}
use quidz.Python.{Value, Fields, int, str, obj, end, field, Python}
use quidz.Dlq.{RetryPolicy, Random}
use quidz.Store.{DeliveryState, Delivery, Db, empty}
use quidz.Ledger.{load_payment}
use quidz.Ledger.History.{IsFaithful}

-- An item of a notification, as dated by the provider.
abbrev pub item : String → Fields
item date = field "pspReference" (str "psp1") (
    field "eventCode" (str "AUTHORISATION") (
      field "success" (str "true") (
        field "eventDate" (str date) (
          field "merchantReference" (str "pay") (
            field "amount" (obj (field "value" (int (pos 1000)) (field "currency" (str "EUR") end)))
              end)))))

-- The empty body is no JSON; every other one is the item.
abbrev pub parse_body : List ℕ → Result Value
parse_body [] = raise json_decode_error
parse_body (_ ∷ _) = ok (obj (item "2024-05-01"))

abbrev pub python : Python
python = record {
  loads = parse_body;
  to_str = λ _. "1000";
  strip_lower = λ s. s;
  upper = λ s. s;
  Datetime = ℕ;
  fromisoformat = λ _. some 7000000;
  has_tzinfo = λ _. true;
  replace_utc = λ d. d;
  timestamp = λ d. pos d;
}

pub min-le : (a c : ℕ) → min a c ≤ c
min-le a c = omega arith

-- A generator that always draws 3, or the ceiling.
abbrev pub random : Random
random = record {
  Gen = ℕ;
  system_random = 0;
  seeded = λ _. 1;
  uniform = λ g c. (min 3 c, g);
  uniform-le = λ g c. min-le 3 c;
}

abbrev pub policy : RetryPolicy
policy = record {
  base_seconds = 10;
  max_seconds = 300;
  max_attempts = 5;
  budget_per_minute = 100;
  seed = none;
}

abbrev pub authorization : CanonicalEvent
authorization = record {
  provider = adyen;
  identity = "psp1:AUTHORISATION";
  payment_id = "pay";
  kind = authorize;
  provider_ref = "psp1";
  amount = some (record { minor = pos 1000; currency = "EUR" });
  occurred_at = pos 7000000;
  sequence = pos 7;
  raw_amount_value = some "1000";
  raw_currency = some "EUR";
}

abbrev pub delivery : String → List ℕ → Delivery
delivery delivery_id raw = record {
  delivery_id = delivery_id;
  provider = adyen;
  raw = raw;
  headers = [];
  received_at = 1;
  state = DeliveryState.claimed;
  attempts = 0;
  next_attempt_at = some 1;
  lease_expires_at = some 31;
  parked_until = none;
  reason_code = none;
}

-- An inbox with one good delivery and one whose body is no JSON.
abbrev pub inbox : Db
inbox = record empty {
  deliveries = delivery "adyen:good" (123 ∷ []) ∷ delivery "adyen:bad" [] ∷ [];
}

pub inbox-IsFaithful : IsFaithful inbox
unfolding load_payment
inbox-IsFaithful = record { at = λ pid. refl }

-- Digests are the keys, and hexadecimal digits name one byte.
abbrev pub crypto : Crypto
crypto = record {
  lower = λ s. s;
  strip = λ s. s;
  isdigit = λ _. true;
  parse_int = λ _. some 100;
  print_int = λ _. "100";
  encode = λ _. [];
  fromhex = λ _. some (1 ∷ []);
  b64decode = λ _. some (2 ∷ []);
  digest = λ key _. key;
  to_str = λ _. "x";
}
