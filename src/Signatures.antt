-- ===== src/Signatures.antt =====
-- The two webhook signature schemes (src/quidz/verify.py). HMAC-SHA256, hexadecimal, base64 and the
-- functions on text are the standard library's, and parameters of the model.
pub mod Stripe
pub mod Authentic
pub mod Escaping
pub mod Splitting
use Prim.Native.Char.{code, Char}
use Prim.Native.String.{◌++◌ as append}
use quidz.Prelude.{
  ℕ, ◌+◌, ◌*◌, String, str_eq, Bool, true, false, not, ◌&&◌, ◌||◌, Option, none, some, List, [],
  ◌∷◌, ◌++◌, map, any, leb, ltb, ◌==◌, if◌then◌else◌,
}
use quidz.Prelude.Int.{ℤ, pos, leb_ℤ}
use quidz.Errors.{
  Result, ok, raise, ◌>>=◌, ◌>>◌, raise_if, value_error, malformed_header, bad_signature,
  stale_timestamp,
}
use quidz.Python.{Value, Fields, null, bool, int, float, str, arr, obj, get}
use quidz.Events.{mapping, ticks_per_second}

-- What the module calls: `int` and `str` on numbers, tests and trims of texts, and digests.
pub record Crypto : Type 0 where
  pub lower : String → String
  pub strip : String → String
  pub isdigit : String → Bool
  -- `int(text)`, with `None` for its ValueError, and `str(n)`.
  pub parse_int : String → Option ℕ
  pub print_int : ℕ → String
  -- `text.encode()`, `bytes.fromhex` and `base64.b64decode(..., validate=True)`.
  pub encode : String → List ℕ
  pub fromhex : String → Option (List ℕ)
  pub b64decode : String → Option (List ℕ)
  -- `hmac.new(key, message, sha256).digest()`.
  pub digest : List ℕ → List ℕ → List ℕ
  pub to_str : Value → String

-- `hmac.compare_digest`
abbrev pub same_bytes : List ℕ → List ℕ → Bool
same_bytes [] [] = true
same_bytes [] (b ∷ bs) = false
same_bytes (a ∷ rest) [] = false
same_bytes (a ∷ rest) (b ∷ bs) = a == b && same_bytes rest bs

abbrev on_first : Char → List String → List String
on_first c [] = []
on_first c (s ∷ ss) = String.◌∷◌ c s ∷ ss

-- `text.split(sep)` at a separator of one character.
abbrev pub split : ℕ → String → List String
split sep String.[] = "" ∷ []
split sep (String.◌∷◌ c s) =
    let rest = split sep s in if code c == sep then "" ∷ rest else on_first c rest

abbrev in_front : Char → Option (String × String) → Option (String × String)
in_front c none = none
in_front c (some (a, b)) = some (String.◌∷◌ c a, b)

-- `text.partition(sep)`: what is before and after the first separator, if there is one.
abbrev pub partition : ℕ → String → Option (String × String)
partition sep String.[] = none
partition sep (String.◌∷◌ c s) =
    let rest = partition sep s in if code c == sep then some ("", s) else in_front c rest

-- `str.replace` of one character by a text.
unfoldable pub replace : ℕ → String → String → String
replace old by String.[] = ""
replace old by (String.◌∷◌ c s) =
    let rest = replace old by s in if code c == old then append by rest else String.◌∷◌ c rest

-- `adyen_escape`
unfoldable pub adyen_escape : String → String
adyen_escape value = replace b':' "\\:" (replace b'\\' "\\\\" value)

module _ (crypto : Crypto) where
  open crypto use {
    lower, strip, isdigit, parse_int, print_int, encode, fromhex, b64decode, digest, to_str,
  }

  -- `_header`
  unfoldable pub header : List (String × String) → String → Option String
  header [] name = none
  header ((key, value) ∷ rest) name =
      if str_eq (lower key) (lower name) then some value else header rest name

  -- One part of the header: a scheme and its value.
  abbrev pub scan_part :
      Option (String × String) → Option String × List String → Option String × List String
  scan_part none s = s
  scan_part (some (scheme, raw)) (timestamp, signatures) =
      if str_eq scheme "t"
      then (some raw, signatures)
      else if str_eq scheme "v1"
      then (timestamp, signatures ++ raw ∷ [])
      else (timestamp, signatures)

  abbrev pub scan : List String → Option String × List String → Option String × List String
  scan [] s = s
  scan (part ∷ parts) s = scan parts (scan_part (partition b'=' (strip part)) s)

  -- `int(timestamp)`
  abbrev int_or_raise : Option ℕ → Result ℕ
  int_or_raise none = raise value_error
  int_or_raise (some n) = ok n

  -- A timestamp that is there, is of digits, and is written as `str` would write it.
  unfoldable pub canonical_timestamp : Option String → Result ℕ
  canonical_timestamp none = raise malformed_header
  canonical_timestamp (some timestamp) = do
    raise_if (not (isdigit timestamp)) malformed_header
    n ← int_or_raise (parse_int timestamp)
    raise_if (not (str_eq timestamp (print_int n))) malformed_header
    ok n

  abbrev pub nonempty {ℓ} : {A : Type ℓ} → List A → Bool
  nonempty [] = false
  nonempty (_ ∷ _) = true

  unfoldable pub parse_stripe_signature_header : String → Result (ℕ × List String)
  parse_stripe_signature_header value = do
    let (timestamp, signatures) = scan (split b',' value) (none, [])
    n ← canonical_timestamp timestamp
    raise_if (not (nonempty signatures)) malformed_header
    ok (n, signatures)

  abbrev pub given : List ℕ → Option (List ℕ) → Bool
  given expected none = false
  given expected (some bytes) = same_bytes expected bytes

  -- One of the candidates is the digest under this secret.
  abbrev pub matches : List ℕ → List String → List ℕ → Bool
  matches payload candidates secret =
      any (λ c. given (digest secret payload) (fromhex c)) candidates

  -- `f"{timestamp}.".encode() + raw`
  abbrev pub signed_payload : ℕ → List ℕ → List ℕ
  signed_payload timestamp raw = encode (append (print_int timestamp) ".") ++ raw

  abbrev pub header_or_raise : Option String → Result String
  header_or_raise none = raise malformed_header
  header_or_raise (some h) = ok h

  -- `now - timestamp > tolerance_seconds`, in ticks; other tolerances were refused before.
  abbrev pub too_old : ℕ → ℕ → ℤ → Bool
  too_old now timestamp (pos tolerance) = ltb ((timestamp + tolerance) * ticks_per_second) now
  too_old now timestamp _ = true

  unfoldable pub verify_stripe : List ℕ → List (String × String) → List (List ℕ) → ℕ → ℤ → Result ℕ
  verify_stripe raw headers secrets now tolerance = do
    raise_if (leb_ℤ tolerance (pos 0)) value_error
    raise_if (not (nonempty secrets)) value_error
    value ← header_or_raise (header headers "Stripe-Signature")
    (timestamp, candidates) ← parse_stripe_signature_header value
    raise_if (not (any (matches (signed_payload timestamp raw) candidates) secrets)) bad_signature
    raise_if (too_old now timestamp tolerance) stale_timestamp
    ok timestamp

  -- `_text`
  unfoldable pub text : Value → String
  text null = ""
  text (bool b) = if b then "true" else "false"
  text (str s) = s
  text (int n) = to_str (int n)
  text (float t) = to_str (float t)
  text (arr xs) = to_str (arr xs)
  text (obj fs) = to_str (obj fs)

  abbrev text_in : String → Option Fields → String
  text_in key none = ""
  text_in key (some fs) = text (get fs key)

  -- A field that may stand under `amount` instead.
  abbrev pub lifted : Fields → String → String
  lifted item key =
      let direct = text (get item key) in
      if str_eq direct "" then text_in key (mapping (get item "amount")) else direct

  -- `adyen_signing_fields`, in the order of ADYEN_SIGNED_FIELDS.
  unfoldable pub adyen_signing_fields : Fields → List String
  adyen_signing_fields item =
      text (get item "pspReference")
      ∷ text (get item "originalReference")
      ∷ text (get item "merchantAccountCode")
      ∷ text (get item "merchantReference")
      ∷ lifted item "value"
      ∷ lifted item "currency"
      ∷ text (get item "eventCode")
      ∷ text (get item "success")
      ∷ []

  -- `":".join(...)`
  abbrev pub join : List String → String
  join [] = ""
  join (s ∷ []) = s
  join (s ∷ t ∷ rest) = append s (append ":" (join (t ∷ rest)))

  -- `adyen_signing_string`
  unfoldable pub adyen_signing_string : List String → String
  adyen_signing_string fields = join (map adyen_escape fields)

  abbrev key_or_raise : Option (List ℕ) → Result (List ℕ)
  key_or_raise none = raise value_error
  key_or_raise (some key) = ok key

  unfoldable pub verify_adyen : Fields → String → String → Result (Unit {0})
  verify_adyen item signature hmac_key_hex = do
    key ← key_or_raise (fromhex hmac_key_hex)
    let message = encode (adyen_signing_string (adyen_signing_fields item))
    raise_if (not (given (digest key message) (b64decode signature))) bad_signature
