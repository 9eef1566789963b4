-- ===== src/Money/Laws.antt =====
-- Addition and subtraction of amounts undo one another, and refuse to mix currencies.
use quidz.Prelude.{eq_iff, ◌≡◌, ◌≢◌, arith}
use quidz.Prelude.Int.{ℤ, ◌+ℤ◌, ◌-ℤ◌, int_laws}
use quidz.Errors.{ok, raise, currency_mismatch}
use quidz.Event.{Money}
use quidz.Money.{validate_currency, make_money, add, sub}

add_sub_minor : (a b : ℤ) → (a +ℤ b) -ℤ b ≡ a
add_sub_minor a b = omega int_laws

-- What was added can be subtracted again: if the sum of two amounts is formed, taking the second
-- off it gives the first.
pub sub-add : (a b : Money) {c : Money} → add a b ≡ ok c → sub c b ≡ ok a
unfolding add sub make_money validate_currency
sub-add a b {c} h = ground (arith, add_sub_minor a.minor b.minor)

-- Amounts in two currencies are never combined.
pub mixed_currencies :
    (a b : Money)
    → a.currency ≢ b.currency
    → (add a b ≡ raise currency_mismatch) × (sub a b ≡ raise currency_mismatch)
unfolding add sub
mixed_currencies a b h = ground (arith, eq_iff a.currency b.currency)
