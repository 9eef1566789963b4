-- ===== src/Cli/Snapshot.antt =====
-- The provider's payment list beside a database (`_write_snapshot` and `_read_snapshot` of
-- src/quidz/cli.py). JSON and floats are parameters. `RemotePayment(**row)` keeps whatever values
-- a row has: a row with a value of another type than the field's is outside the model.
pub mod Written
use quidz.Prelude.{
  ℕ, String, str_eq, Bool, true, false, ◌&&◌, Option, none, some, List, [], ◌∷◌, suc, ◌==◌,
  if◌then◌else◌,
}
use quidz.Prelude.Int.{ℤ}
use quidz.Errors.{Result, ok, raise, value_error}
use quidz.Python.{
  Value, Fields, Items, int, float, str, obj, arr, end, field, nil, cons, get, has_key,
}
use quidz.Dlq.{is_instance}
use quidz.Reconcile.{RemotePayment}
use quidz.Cli.{SnapshotFile, unreadable, holding}

pub record Json : Type 1 where
  -- A text that is written to a file and read from it.
  pub Text : Type 0
  -- `json.dumps(..., indent=2, sort_keys=True)` and `json.loads`.
  pub dumps : Fields → Text
  pub loads : Text → Result Value
  -- `repr` of the float that so many ticks are, and `float(value)` in ticks, with `None` for its
  -- ValueError and its TypeError.
  pub float_text : ℤ → String
  pub to_float : Value → Option ℤ

module _ (json : Json) where
  open json use {Text, dumps, loads, float_text, to_float}

  -- `asdict(payment)`, its keys sorted.
  abbrev pub payment_json : RemotePayment → Fields
  payment_json r = field "authorized_minor" (int r.authorized_minor) (
      field "captured_minor" (int r.captured_minor) (
        field "created_at" (float (float_text r.created_at)) (
          field "currency" (str r.currency) (
            field "payment_id" (str r.payment_id) (
              field "provider_ref" (str r.provider_ref) (
                field "refunded_minor" (int r.refunded_minor)
                  (field "status" (str r.status) end)))))))

  abbrev pub payments_json : List RemotePayment → Items
  payments_json [] = nil
  payments_json (r ∷ rs) = cons (obj (payment_json r)) (payments_json rs)

  abbrev pub snapshot_fields : ℤ → ℤ → String → List RemotePayment → Fields
  snapshot_fields as_of seed scenario payments = field "as_of" (float (float_text as_of)) (
      field "payments" (arr (payments_json payments))
        (field "scenario" (str scenario) (field "seed" (int seed) end)))

  unfoldable pub write_snapshot : ℤ → ℤ → String → List RemotePayment → Text
  write_snapshot as_of seed scenario payments = dumps (snapshot_fields as_of seed scenario payments)

-- What reading comes to: a value, one of the exceptions that are caught, or a case that is not
-- modelled.
pub data Reading (A : Type 0) : Type 0 where
  readable : A → Reading A
  refused untyped : Reading A

module _ {A B : Type 0} where
  infixl 5 ◌>>=◌
  abbrev pub ◌>>=◌ : Reading A → (A → Reading B) → Reading B
  readable a >>= next = next a
  refused >>= next = refused
  untyped >>= next = untyped

abbrev pub key_count : Fields → ℕ
key_count end = 0
key_count (field _ _ rest) = suc (key_count rest)

abbrev pub payment_keys : List String
payment_keys =
    "authorized_minor" ∷ "captured_minor" ∷ "created_at" ∷ "currency" ∷ "payment_id"
    ∷ "provider_ref" ∷ "refunded_minor" ∷ "status" ∷ []

abbrev pub has_all : Fields → List String → Bool
has_all row [] = true
has_all row (key ∷ keys) = has_key row key && has_all row keys

-- The arguments that `RemotePayment` takes, no more and no fewer.
abbrev pub takes : Fields → Bool
takes row = key_count row == 8 && has_all row payment_keys

abbrev pub int_value : Value → Reading ℤ
int_value (int n) = readable n
int_value _ = untyped

abbrev pub str_value : Value → Reading String
str_value (str s) = readable s
str_value _ = untyped

abbrev pub read_or : {A : Type 0} → Reading A → Option A → Reading A
read_or other none = other
read_or other (some a) = readable a

module _ (json : Json) where
  open json use {Text, dumps, loads, float_text, to_float}

  -- A number, as a time.
  abbrev pub time_value : Value → Reading ℤ
  time_value (int n) = read_or untyped (to_float (int n))
  time_value (float s) = read_or untyped (to_float (float s))
  time_value _ = untyped

  abbrev pub typed_payment : Fields → Reading RemotePayment
  typed_payment row = do
    authorized_minor ← int_value (get row "authorized_minor")
    captured_minor ← int_value (get row "captured_minor")
    created_at ← time_value (get row "created_at")
    currency ← str_value (get row "currency")
    payment_id ← str_value (get row "payment_id")
    provider_ref ← str_value (get row "provider_ref")
    refunded_minor ← int_value (get row "refunded_minor")
    status ← str_value (get row "status")
    readable (record {
      payment_id = payment_id;
      provider_ref = provider_ref;
      currency = currency;
      authorized_minor = authorized_minor;
      captured_minor = captured_minor;
      refunded_minor = refunded_minor;
      status = status;
      created_at = created_at;
    })

  abbrev pub read_payment : Value → Reading RemotePayment
  read_payment (obj row) = if takes row then typed_payment row else refused
  read_payment _ = refused

  abbrev pub read_rows : Items → Reading (List RemotePayment)
  read_rows nil = readable []
  read_rows (cons row rows) = do
    payment ← read_payment row
    payments ← read_rows rows
    readable (payment ∷ payments)

  -- What iterates like a list: an empty object and an empty text do as well.
  abbrev pub read_payments : Value → Reading (List RemotePayment)
  read_payments (arr rows) = read_rows rows
  read_payments (obj end) = readable []
  read_payments (str s) = if str_eq s "" then readable [] else refused
  read_payments _ = refused

  -- `payload[key]`
  abbrev pub item : Fields → String → Reading Value
  item payload key = if has_key payload key then readable (get payload key) else refused

  abbrev pub read_payload : Value → Reading (ℤ × List RemotePayment)
  read_payload (obj payload) = do
    taken ← item payload "as_of"
    as_of ← read_or refused (to_float taken)
    rows ← item payload "payments"
    payments ← read_payments rows
    readable (as_of, payments)
  read_payload _ = refused

  abbrev pub read_loaded : Result Value → Reading (ℤ × List RemotePayment)
  read_loaded (ok value) = read_payload value
  read_loaded (raise exc) = if is_instance exc value_error then refused else untyped

  abbrev pub file_of : Reading (ℤ × List RemotePayment) → Option SnapshotFile
  file_of (readable (as_of, payments)) = some (holding as_of payments)
  file_of refused = some unreadable
  file_of untyped = none

  -- `_read_snapshot` of a file that is there and is UTF-8.
  unfoldable pub parse_snapshot : Text → Option SnapshotFile
  parse_snapshot text = file_of (read_loaded (loads text))
