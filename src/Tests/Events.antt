-- ===== src/Tests/Events.antt =====
-- Two notifications of one event, dated differently (src/quidz/events.py).
use quidz.Prelude.{◌≡◌, refl}
use quidz.Errors.{ok}
use quidz.Python.{get}
use quidz.Money.{make_money, validate_currency}
use quidz.Events.{
  require_str, require_int, adyen_kind, adyen_success, adyen_moment, adyen_amount, from_adyen,
}
use quidz.Samples.{python, item, authorization}

decoded : from_adyen python (item "2024-05-01") ≡ ok authorization
unfolding from_adyen require_str require_int adyen_kind adyen_success adyen_moment adyen_amount
    make_money validate_currency get
decoded = refl

decoded_again : from_adyen python (item "2024-05-02") ≡ ok authorization
unfolding from_adyen require_str require_int adyen_kind adyen_success adyen_moment adyen_amount
    make_money validate_currency get
decoded_again = refl
