-- ===== src/Cli/Listing.antt =====
-- The ledger that a demonstration and a replay print (`_ledger_lines` of src/quidz/cli.py).
use quidz.Prelude.{String, List, [], ◌∷◌}
use quidz.Prelude.Int.{ℤ}
use quidz.Errors.{Result, ok, ◌>>=◌}
use quidz.Text.{ljust, rjust, concat}
use quidz.Money.{make_money, format_major}
use quidz.Model.{PaymentState, derive_status, status_text}
use quidz.Store.{Db}
use quidz.Ledger.Listing.{list_payments}

-- The three amounts of a payment, or what `Money` or `exponent` raises.
abbrev pub amount_text : ℤ → String → Result String
amount_text minor currency = do amount ← make_money minor currency; format_major amount

abbrev pub payment_line : PaymentState → Result String
payment_line s = do
  authorized ← amount_text s.authorized_minor s.currency
  captured ← amount_text s.captured_minor s.currency
  refunded ← amount_text s.refunded_minor s.currency
  ok (
      concat (
        "  "
        ∷ ljust 22 " " s.payment_id
        ∷ rjust 16 " " authorized
        ∷ rjust 16 " " captured
        ∷ rjust 16 " " refunded
        ∷ "  "
        ∷ status_text (derive_status s)
        ∷ []))

abbrev pub payment_lines : List PaymentState → Result (List String)
payment_lines [] = ok []
payment_lines (s ∷ ss) = do line ← payment_line s; rest ← payment_lines ss; ok (line ∷ rest)

abbrev pub ledger_header : String
ledger_header = concat (
    "  "
    ∷ ljust 22 " " "PAYMENT"
    ∷ rjust 16 " " "AUTHORIZED"
    ∷ rjust 16 " " "CAPTURED"
    ∷ rjust 16 " " "REFUNDED"
    ∷ "  STATUS"
    ∷ [])

-- The lines of `_ledger_lines`.
unfoldable pub ledger_lines : Db → Result (List String)
ledger_lines db = do lines ← payment_lines (list_payments db); ok ("LEDGER" ∷ ledger_header ∷ lines)
