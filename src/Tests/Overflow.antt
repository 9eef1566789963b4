-- ===== src/Tests/Overflow.antt =====
-- A parked Stripe delivery whose `created` no float can hold (src/quidz/events.py and inbox.py).
use quidz.Prelude.{◌-◌, ◌^◌, ◌≡◌, refl, true, false, [], ◌∷◌}
use quidz.Prelude.Int.{pos, negsuc}
use quidz.Errors.{ok, raise, overflow_error}
use quidz.Event.{stripe}
use quidz.Python.{Python, Fields, int, str, obj, end, field, get, has_key}
use quidz.Dlq.{is_instance}
use quidz.Money.{make_money, validate_currency}
use quidz.Events.{
  float_overflows, from_stripe, require_str, require_int, stripe_object, stripe_kind, stripe_amount,
  amount_field,
}
use quidz.Store.{DeliveryState, Db, empty}
use quidz.Inbox.{payload_of, decode}
use quidz.Inbox.Parked.{body_fault, parked_rows, parked_events}
use quidz.Samples.{python, delivery}

first_overflow : float_overflows (pos (2 ^ 1024 - 2 ^ 970)) ≡ true
unfolding float_overflows
first_overflow = refl

last_float : float_overflows (negsuc (2 ^ 1024 - 2 ^ 970 - 2)) ≡ false
unfolding float_overflows
last_float = refl

abbrev charge : Fields
charge = field "id" (str "ch_1") (
    field "amount" (int (pos 5))
      (field "amount_captured" (int (pos 5)) (field "currency" (str "EUR") end)))

abbrev late_body : Fields
late_body = field "id" (str "evt_1") (
    field "type" (str "charge.captured") (
      field "created" (int (pos (2 ^ 1024)))
        (field "data" (obj (field "object" (obj charge) end)) end)))

abbrev reader : Python
reader = record python { loads = λ _. ok (obj late_body) }

abbrev parked_inbox : Db
parked_inbox = record empty {
  deliveries =
      record (delivery "stripe:evt_1" (123 ∷ [])) {
        provider = stripe;
        state = DeliveryState.parked;
      }
      ∷ [];
}

unlisted : parked_events reader parked_inbox ≡ raise overflow_error
unfolding parked_events parked_rows body_fault is_instance decode payload_of from_stripe require_str
    require_int stripe_object stripe_kind stripe_amount amount_field float_overflows get has_key
    make_money validate_currency
unlisted = refl
