-- ===== src/Tests/App.antt =====
-- One notification and one event at the webhooks (src/quidz/app.py).
use quidz.Prelude.{ℕ, ◌≡◌, refl, String, some, List, [], ◌∷◌}
use quidz.Errors.{ok, ◌>>=◌}
use quidz.Python.{Fields, str, obj, end, field, get, has_key, Python}
use quidz.Clock.{FakeClock, fake}
use quidz.Events.{require_str}
use quidz.Metrics.{bump, check}
use quidz.Signatures.{
  Crypto, header, canonical_timestamp, parse_stripe_signature_header, verify_stripe, verify_adyen,
}
use quidz.Store.{Connection, empty, write_tx, insert_delivery}
use quidz.Store.Transactions.{closed}
use quidz.Inbox.{delivery_key, identity_of, payload_of, claim_body, claim}
use quidz.Inbox.Receive.{receive_stripe, receive_adyen}
use quidz.App.{adyen_items, stripe_webhook, receive_items, adyen_webhook}
use quidz.App.Receipts.{StoredEvent}
use quidz.App.Acknowledged.{AllStored, adyen_webhook-stored, stripe_webhook-StoredEvent}
use quidz.Samples.{python, crypto}

-- The signature of every item is the digest.
abbrev signed_items : Crypto
signed_items = record crypto { b64decode = λ _. some (1 ∷ []) }

abbrev dumps : Fields → List ℕ
dumps _ = 123 ∷ []

abbrev start : FakeClock
start = record { t = 100000000; slept = [] }

abbrev notified : Connection
notified = (adyen_webhook python signed_items fake dumps "00" (123 ∷ []) start (closed empty)).1

accepted_notification :
    adyen_webhook python signed_items fake dumps "00" (123 ∷ []) start (closed empty)
    ≡ (ok 200, notified)
unfolding adyen_webhook receive_items receive_adyen bump check payload_of verify_adyen identity_of
    require_str get has_key claim write_tx claim_body insert_delivery delivery_key adyen_items
accepted_notification = refl

adyen_webhook-stored_example :
    (items : List Fields) × ((python.loads (123 ∷ []) >>= adyen_items) ≡ ok items)
    × AllStored python signed_items fake dumps "00" items notified.db
adyen_webhook-stored_example =
    adyen_webhook-stored python signed_items fake dumps "00" (123 ∷ []) start (closed empty)
      accepted_notification refl

abbrev headers : List (String × String)
headers = ("Stripe-Signature", "t=100,v0=ff,v1=01") ∷ []

-- Every body is one event with an id.
abbrev events : Python
events = record python { loads = λ _. ok (obj (field "id" (str "evt_1") end)) }

abbrev received : Connection
received =
    (stripe_webhook events crypto ((1 ∷ []) ∷ []) (123 ∷ []) headers 101000000 (closed empty)).1

accepted_event :
    stripe_webhook events crypto ((1 ∷ []) ∷ []) (123 ∷ []) headers 101000000 (closed empty)
    ≡ (ok 200, received)
unfolding stripe_webhook receive_stripe bump check verify_stripe header
    parse_stripe_signature_header canonical_timestamp payload_of identity_of require_str get claim
    write_tx claim_body insert_delivery delivery_key
accepted_event = refl

stripe_webhook-StoredEvent_example :
    StoredEvent events crypto ((1 ∷ []) ∷ []) (123 ∷ []) headers 101000000 received.db
stripe_webhook-StoredEvent_example =
    stripe_webhook-StoredEvent events crypto ((1 ∷ []) ∷ []) (123 ∷ []) headers 101000000
      (closed empty) accepted_event refl
