-- ===== src/Tests/Log.antt =====
-- A delivery log of two deliveries (src/quidz/cli.py).
use quidz.Prelude.{
  ℕ, String, str_eq, ◌≡◌, refl, Option, none, some, List, [], ◌∷◌, map, if◌then◌else◌, inl, inr,
  false, sym, Bool-cases, arith,
}
use quidz.Prelude.Order.{sort_by}
use quidz.Errors.{Result, ok}
use quidz.Python.{Value, Fields, str, obj, null, end, field, get, has_key}
use quidz.Prelude.{ap}
use quidz.Prelude.Int.{pos}
use quidz.Model.{opened, derive_status, status_text}
use quidz.Store.{Db}
use quidz.Inbox.{delivery_key}
use quidz.Inbox.Drain.{earlier}
use quidz.Ledger.Listing.{list_payments}
use quidz.Cli.{done, terminal}
use quidz.Cli.Log.{
  Codec, Read, item_of, state_of, text_fields, delivery_fields, write_log, read_log,
}
use quidz.Cli.Log.Written.{Reads, Logged, entry_key, row_key, terminal_fields, write_log-read_log}
use quidz.Samples.{delivery, inbox}

-- The inbox of both deliveries, with one payment that has been opened.
abbrev logged : Db
logged = record inbox { payments = record { state = opened "pay" "EUR"; updated_at = pos 0 } ∷ [] }

abbrev stated_states : List (String × String)
stated_states = ("pay", "pending") ∷ []

-- A line is the identity of its delivery, or `t`.
abbrev line_of : Value → String
line_of (str s) = s
line_of _ = "t"

abbrev read_fields : String → String → Fields
read_fields identity body = field "headers" (obj end) (
    field "identity" (str identity) (
      field "kind" (str "delivery")
        (field "provider" (str "adyen") (field "raw_b64" (str body) end))))

abbrev read_terminal : Fields
read_terminal =
    field "kind" (str "terminal") (field "payments" (obj (text_fields stated_states)) end)

abbrev loads_line : String → Result Value
loads_line s =
    if str_eq s "t"
    then ok (obj read_terminal)
    else if str_eq s "good"
    then ok (obj (read_fields "good" "ew=="))
    else ok (obj (read_fields "bad" ""))

abbrev encode_body : List ℕ → String
encode_body [] = ""
encode_body (_ ∷ _) = "ew=="

abbrev dict_of_texts : Fields → List (String × String)
dict_of_texts end = []
dict_of_texts (field key value rest) = (key, line_of value) ∷ dict_of_texts rest

abbrev dict_of_fields : Value → Option (List (String × String))
dict_of_fields (obj fs) = some (dict_of_texts fs)
dict_of_fields _ = none

abbrev pub codec : Codec
codec = record {
  dumps = λ fs. line_of (get fs "identity");
  loads = loads_line;
  b64encode = encode_body;
  b64decode = λ s. some (if str_eq s "" then [] else 123 ∷ []);
  dict_of = dict_of_fields;
  blank = λ s. str_eq s "";
  to_str = line_of;
}

item_of-get :
    (fs : Fields) (key : String) (v : Value)
    → get fs key ≡ v
    → (v ≡ null → ⊥)
    → item_of fs key ≡ some v
unfolding get has_key
item_of-get end key v e given = absurd (given (sym e))
item_of-get (field k w rest) key v e given = elim (Bool-cases (str_eq k key)) [
  | inl same ↦ (let found = rw same at e in rw (same, found) refl)
  | inr other ↦ (let later = rw other at e in rw other (item_of-get rest key v later given))
]

texts_kept :
    (fs : Fields) (key s : String) → get fs key ≡ str s → state_of (dict_of_texts fs) key ≡ some s
unfolding get
texts_kept end key s e = absurd (ground arith)
texts_kept (field k v rest) key s e = elim (Bool-cases (str_eq k key)) [
  | inl same ↦ (let found : v ≡ str s = rw same at e in rw same (ap (λ w. some (line_of w)) found))
  | inr other ↦
      (let later : get rest key ≡ str s = rw other at e in rw other (texts_kept rest key s later))
]

only_keys :
    (fs : Fields) (key : String) → has_key fs key ≡ false → state_of (dict_of_texts fs) key ≡ none
unfolding has_key
only_keys end key e = refl
only_keys (field k v rest) key e = elim (Bool-cases (str_eq k key)) [
  | inl same ↦ absurd (ground arith)
  | inr other ↦
      (let later : has_key rest key ≡ false = rw other at e in rw other (only_keys rest key later))
]

-- An object that a line reads back as without a change.
Reads-kept :
    (fs : Fields)
    → codec.blank (codec.dumps fs) ≡ false
    → codec.loads (codec.dumps fs) ≡ ok (obj fs)
    → Reads codec fs
Reads-kept fs filled loaded = record {
  back = fs;
  filled = filled;
  loaded = loaded;
  texts = λ key s e. item_of-get fs key (str s) e (λ bad. absurd (ground arith));
  dicts = λ key gs e. (
    obj gs,
    dict_of_texts gs,
    item_of-get fs key (obj gs) e (λ bad. absurd (ground arith)),
    refl,
    record { texts = texts_kept gs; only = only_keys gs },
  );
}

good_row-Logged : Logged codec (delivery "adyen:good" (123 ∷ []))
unfolding get delivery_key
good_row-Logged = record {
  identity = "good";
  keyed = refl;
  line = Reads-kept (delivery_fields codec (delivery "adyen:good" (123 ∷ [])) "good") refl refl;
  body = refl;
}

bad_row-Logged : Logged codec (delivery "adyen:bad" [])
unfolding get delivery_key
bad_row-Logged = record {
  identity = "bad";
  keyed = refl;
  line = Reads-kept (delivery_fields codec (delivery "adyen:bad" []) "bad") refl refl;
  body = refl;
}

terminal-Reads : Reads codec (terminal_fields stated_states)
unfolding get
terminal-Reads = Reads-kept read_terminal refl refl

write_log-read_log_example :
    (lines : List String) × (r : Read) × (stated : List (String × String)) × (write_log codec logged
      ≡ ok lines)
    × (read_log codec lines ≡ done r)
    × (map entry_key r.entries ≡ map row_key (sort_by earlier logged.deliveries))
    × (r.expected ≡ some stated)
    × ((payment_id : String) → state_of stated payment_id ≡ state_of stated_states payment_id)
unfolding terminal list_payments derive_status status_text
write_log-read_log_example =
    write_log-read_log codec logged (delivery "adyen:bad" [])
      (delivery "adyen:good" (123 ∷ []) ∷ []) refl (bad_row-Logged, (good_row-Logged, tt))
      terminal-Reads
