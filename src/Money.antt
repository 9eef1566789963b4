-- ===== src/Money.antt =====
-- Amounts in integer minor units (src/quidz/money.py).
pub mod Laws
pub mod Format
use Prim.Native.Char.{code}
use Prim.Native.String.{count}
use quidz.Prelude.{
  ℕ, zero, suc, String, str_eq, Bool, true, false, not, ◌&&◌, Option, List, [], ◌∷◌, any, leb, ◌==◌,
  ◌+◌, ◌-◌, if◌then◌else◌,
}
use quidz.Prelude.Int.{ℤ, pos, negsuc, ◌+ℤ◌, ◌-ℤ◌, nat_abs}
use quidz.Errors.{Result, ok, raise, ◌>>=◌, ◌>>◌, raise_if, value_error, currency_mismatch}
use quidz.Event.{Money}
use quidz.Text.{decimal, rjust, concat, take_chars, drop_chars}

-- The code points of a text.
abbrev pub codes : String → List ℕ
codes String.[] = []
codes (String.◌∷◌ c s) = code c ∷ codes s

-- An ASCII letter that is upper case.
abbrev pub upper_ascii : ℕ → Bool
upper_ascii c = leb b'A' c && leb c b'Z'

abbrev pub three_upper : List ℕ → Bool
three_upper (a ∷ b ∷ c ∷ []) = upper_ascii a && (upper_ascii b && upper_ascii c)
three_upper _ = false

-- `_validate_currency` of a text: three characters, all of them ASCII upper case letters.
unfoldable pub validate_currency : String → Result (Unit {0})
validate_currency currency = raise_if (not (three_upper (codes currency))) value_error

-- `Money(minor, currency)` with its `__post_init__`.
unfoldable pub make_money : ℤ → String → Result Money
make_money minor currency = do
  validate_currency currency
  ok (record { minor = minor; currency = currency })

abbrev pub zero_decimal : List String
zero_decimal =
    "BIF" ∷ "CLP" ∷ "DJF" ∷ "GNF" ∷ "ISK" ∷ "JPY" ∷ "KMF" ∷ "KRW" ∷ "PYG" ∷ "RWF" ∷ "UGX" ∷ "VND"
    ∷ "VUV" ∷ "XAF" ∷ "XOF" ∷ "XPF" ∷ []

abbrev pub three_decimal : List String
three_decimal = "BHD" ∷ "IQD" ∷ "JOD" ∷ "KWD" ∷ "LYD" ∷ "OMR" ∷ "TND" ∷ []

unfoldable pub exponent : String → Result ℕ
exponent currency = do
  validate_currency currency
  ok (
      if any (str_eq currency) zero_decimal
      then 0
      else if any (str_eq currency) three_decimal
      then 3
      else 2)

unfoldable pub add : Money → Money → Result Money
add a b = do
  raise_if (not (str_eq a.currency b.currency)) currency_mismatch
  make_money (a.minor +ℤ b.minor) a.currency

unfoldable pub sub : Money → Money → Result Money
sub a b = do
  raise_if (not (str_eq a.currency b.currency)) currency_mismatch
  make_money (a.minor -ℤ b.minor) a.currency

-- `ADYEN_EXPONENT`, where Adyen's table disagrees with ISO 4217.
abbrev pub adyen_exponent : List (String × ℕ)
adyen_exponent = ("CLP", 2) ∷ ("CVE", 0) ∷ ("IDR", 0) ∷ ("ISK", 2) ∷ []

-- `"-" if m.minor < 0 else ""`
abbrev pub sign_text : ℤ → String
sign_text (pos _) = ""
sign_text (negsuc _) = "-"

-- The text of so many digits, with this many decimal places.
abbrev pub placed : ℕ → ℤ → String → String → String
placed places minor digits currency =
    if places == 0
    then concat (sign_text minor ∷ digits ∷ " " ∷ currency ∷ [])
    else concat (
        sign_text minor
        ∷ take_chars (count digits - places) digits
        ∷ "."
        ∷ drop_chars (count digits - places) digits
        ∷ " "
        ∷ currency
        ∷ [])

unfoldable pub format_major : Money → Result String
format_major m = do
  places ← exponent m.currency
  ok (placed places m.minor (rjust (places + 1) "0" (decimal (nat_abs m.minor))) m.currency)
