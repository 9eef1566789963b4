-- ===== src/Inbox/Parked.antt =====
-- The reconciler's view of the park (`parked_events` of src/quidz/inbox.py).
pub mod Faults
pub mod Listed
pub mod Fitting
use quidz.Prelude.{ℕ, String, Bool, ◌||◌, List, [], ◌∷◌, keep, if◌then◌else◌}
use quidz.Prelude.Order.{sort_by, str_leb}
use quidz.Errors.{Exn, Result, ok, raise, ◌>>=◌, event_error, value_error}
use quidz.Event.{CanonicalEvent}
use quidz.Python.{Python}
use quidz.Dlq.{is_instance}
use quidz.Store.{DeliveryState, Delivery, Db}
use quidz.Inbox.{same_state, decode}

abbrev pub by_id : Delivery → Delivery → Bool
by_id a b = str_leb a.delivery_id b.delivery_id

-- The rows of the SELECT, in the order of their ids.
unfoldable pub parked_rows : Db → List Delivery
parked_rows db = sort_by by_id (keep (λ d. same_state d.state DeliveryState.parked) db.deliveries)

-- `except (ValueError, EventError)`
unfoldable pub body_fault : Exn → Bool
body_fault exc = is_instance exc value_error || is_instance exc event_error

-- The payment of a row, or its own id where the body cannot be read.
abbrev pub payment_or_id : Delivery → Result CanonicalEvent → Result String
payment_or_id d (ok event) = ok event.payment_id
payment_or_id d (raise exc) = if body_fault exc then ok d.delivery_id else raise exc

module _ (python : Python) where
  abbrev pub parked_from : List Delivery → Result (List (String × ℕ))
  parked_from [] = ok []
  parked_from (d ∷ ds) = do
    payment_id ← payment_or_id d (decode python d.provider d.raw)
    rest ← parked_from ds
    ok ((payment_id, d.received_at) ∷ rest)

  unfoldable pub parked_events : Db → Result (List (String × ℕ))
  parked_events db = parked_from (parked_rows db)
