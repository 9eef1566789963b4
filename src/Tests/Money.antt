-- ===== src/Tests/Money.antt =====
-- Amounts of src/quidz/money.py.
use quidz.Prelude.{◌/◌, ◌%◌, ◌^◌, ◌≡◌, ◌≢◌, refl, eq_iff}
use quidz.Prelude.Int.{pos, negsuc, ◌+ℤ◌}
use quidz.Errors.{ok}
use quidz.Event.{Money}
use quidz.Money.{validate_currency, make_money, exponent, add, format_major}
use quidz.Money.Format.{printed, format_major-digits}
use Prim.Native.String.{count}
use quidz.Text.{decimal}
use quidz.Text.Numbers.{number}
use quidz.Text.Padding.{low_digits}
use mathlib.Core.Bool.{false≢true}

abbrev euros : Money
euros = record { minor = pos 250; currency = "EUR" }

abbrev more_euros : Money
more_euros = record { minor = pos 1000; currency = "EUR" }

abbrev yen : Money
yen = record { minor = pos 250; currency = "JPY" }

sum_of_euros : add euros more_euros ≡ ok (record { minor = pos 1250; currency = "EUR" })
unfolding add make_money validate_currency ◌+ℤ◌
sum_of_euros = refl

yen_exponent : exponent "JPY" ≡ ok 0
unfolding exponent validate_currency
yen_exponent = refl

euros-ne-yen : euros.currency ≢ yen.currency
euros-ne-yen e = false≢true ((eq_iff "EUR" "JPY").1 e)

three_places : exponent "KWD" ≡ ok 3
unfolding exponent validate_currency
three_places = refl

format_major-digits_example :
    (format_major (record { minor = negsuc 6; currency = "KWD" })
      ≡ ok (printed 3 (negsuc 6) (decimal (7 / 10 ^ 3)) (low_digits 3 7) "KWD"))
    × (count (low_digits 3 7) ≡ 3)
    × (number (low_digits 3 7) ≡ 7 % 10 ^ 3)
format_major-digits_example =
    format_major-digits (record { minor = negsuc 6; currency = "KWD" }) three_places
