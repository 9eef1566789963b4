-- ===== src/Cli/Log.antt =====
-- The delivery log (`_write_log` and `_read_log` of src/quidz/cli.py), line by line. JSON and base64
-- are parameters, and so is `dict` on what JSON gives, with its values as texts.
pub mod Written
pub mod Total
use quidz.Prelude.{
  ℕ, String, str_eq, Bool, true, false, Option, none, some, List, [], ◌∷◌, ◌++◌, map, if◌then◌else◌,
}
use quidz.Prelude.Order.{sort_by}
use quidz.Errors.{Exn, Result, ok, raise, ◌>>=◌, other, value_error}
use quidz.Event.{Provider, stripe, adyen}
use quidz.Python.{Value, Fields, str, obj, end, field, get, has_key}
use quidz.Dlq.{is_instance}
use quidz.Model.{status_text}
use quidz.Signatures.{partition}
use quidz.Store.{Delivery, Db}
use quidz.Inbox.{provider_text}
use quidz.Inbox.Drain.{earlier}
use quidz.Cli.{Command, done, cli_error, crash, terminal}

pub record Codec : Type 0 where
  -- `json.dumps(..., sort_keys=True)` and `json.loads`.
  pub dumps : Fields → String
  pub loads : String → Result Value
  -- `base64.b64encode(...).decode()` and `base64.b64decode(..., validate=True)`, with `None` for
  -- its exceptions.
  pub b64encode : List ℕ → String
  pub b64decode : String → Option (List ℕ)
  -- `dict(value)`, with `None` for its exceptions.
  pub dict_of : Value → Option (List (String × String))
  -- `not line.strip()`, and `str(value)`.
  pub blank : String → Bool
  pub to_str : Value → String

-- A record of the log as it is replayed.
pub record Entry : Type 0 where
  pub provider : Provider
  pub identity : String
  pub raw : List ℕ
  pub headers : List (String × String)

abbrev pub text_fields : List (String × String) → Fields
text_fields [] = end
text_fields ((key, value) ∷ rest) = field key (str value) (text_fields rest)

-- `split(":", 1)[1]`, which raises IndexError where there is no colon.
abbrev pub after_colon : Option (String × String) → Result String
after_colon none = raise other
after_colon (some (before, rest)) = ok rest

-- The texts of the enumeration, which anything else is no member of.
abbrev pub provider_of : Value → Option Provider
provider_of (str s) =
    if str_eq s "stripe" then some stripe else if str_eq s "adyen" then some adyen else none
provider_of _ = none

-- `kind == "terminal"`
abbrev pub is_terminal : Value → Bool
is_terminal (str s) = str_eq s "terminal"
is_terminal _ = false

-- What the loop has read: the deliveries, and what the log expects of the ledger.
pub record Read : Type 0 where
  pub entries : List Entry
  pub expected : Option (List (String × String))

-- `states.get(payment_id)`, of a dict of texts.
abbrev pub state_of : List (String × String) → String → Option String
state_of [] payment_id = none
state_of ((key, status) ∷ rest) payment_id =
    if str_eq key payment_id then some status else state_of rest payment_id

infixl 5 ◌>?=◌
abbrev pub ◌>?=◌ {ℓ κ} : {A : Type ℓ} {B : Type κ} → Option A → (A → Option B) → Option B
none >?= next = none
some a >?= next = next a

-- `record[key]`, or the KeyError.
abbrev pub item_of : Fields → String → Option Value
item_of fs key = if has_key fs key then some (get fs key) else none

abbrev pub nothing_read : Read
nothing_read = record { entries = []; expected = none }

abbrev pub after_record : (Read → Command Read) → Option Read → Command Read
after_record rest none = cli_error
after_record rest (some r) = rest r

-- `if not deliveries`
abbrev pub if_any : List Entry → Read → Command Read
if_any [] r = cli_error
if_any (_ ∷ _) r = done r

abbrev pub with_deliveries : Command Read → Command Read
with_deliveries (done r) = if_any r.entries r
with_deliveries cli_error = cli_error
with_deliveries (crash exc) = crash exc

module _ (codec : Codec) where
  open codec use {dumps, loads, b64encode, b64decode, dict_of, blank, to_str}

  abbrev pub delivery_fields : Delivery → String → Fields
  delivery_fields d identity = field "headers" (obj (text_fields d.headers)) (
      field "identity" (str identity) (
        field "kind" (str "delivery") (
          field "provider" (str (provider_text d.provider))
            (field "raw_b64" (str (b64encode d.raw)) end))))

  abbrev pub delivery_line : Delivery → Result String
  delivery_line d = do
    identity ← after_colon (partition b':' d.delivery_id)
    ok (dumps (delivery_fields d identity))

  abbrev pub terminal_line : List (String × String) → String
  terminal_line payments =
      dumps (field "kind" (str "terminal") (field "payments" (obj (text_fields payments)) end))

  -- The rows in the order of receipt, and the terminal states last.
  abbrev pub log_lines : List Delivery → List (String × String) → Result (List String)
  log_lines [] payments = ok (terminal_line payments ∷ [])
  log_lines (d ∷ ds) payments = do
    line ← delivery_line d
    rest ← log_lines ds payments
    ok (line ∷ rest)

  unfoldable pub write_log : Db → Result (List String)
  write_log db =
      log_lines (sort_by earlier db.deliveries) (map (λ p. (p.0, status_text p.1)) (terminal db))

  -- The text of an identity, as the key of a delivery is formatted from it.
  abbrev pub identity_text : Value → String
  identity_text (str s) = s
  identity_text v = to_str v

  abbrev pub bytes_of : Value → Option (List ℕ)
  bytes_of (str s) = b64decode s
  bytes_of _ = none

  abbrev pub entry_of : Fields → Option Entry
  entry_of fs = item_of fs "provider" >?= provider_of >?= λ provider.
      item_of fs "identity" >?= λ identity. item_of fs "raw_b64" >?= bytes_of >?= λ raw.
      item_of fs "headers" >?= dict_of >?= λ headers. some (record {
        provider = provider;
        identity = identity_text identity;
        raw = raw;
        headers = headers;
      })

  abbrev pub read_kind : Fields → Read → Value → Option Read
  read_kind fs r kind =
      if is_terminal kind
      then (item_of fs "payments" >?= dict_of >?= λ payments.
          some (record r { expected = some payments }))
      else (entry_of fs >?= λ e. some (record r { entries = r.entries ++ e ∷ [] }))

  -- One record, or one of the exceptions that make a line invalid.
  abbrev pub read_record : Read → Value → Option Read
  read_record r (obj fs) = item_of fs "kind" >?= read_kind fs r
  read_record r _ = none

  abbrev pub after_loads : (Read → Command Read) → Read → Result Value → Command Read
  after_loads rest r (ok value) = after_record rest (read_record r value)
  after_loads rest r (raise exc) = if is_instance exc value_error then cli_error else crash exc

  abbrev pub read_lines : List String → Read → Command Read
  read_lines [] r = done r
  read_lines (line ∷ lines) r =
      if blank line then read_lines lines r else after_loads (read_lines lines) r (loads line)

  -- `_read_log`, once the text is read and split into lines.
  unfoldable pub read_log : List String → Command Read
  read_log lines = with_deliveries (read_lines lines nothing_read)
