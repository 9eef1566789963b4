-- ===== src/App.antt =====
-- The routes (src/quidz/app.py), each from the body of a request to the status of its
-- response. `json.dumps` with sorted keys is a parameter, and an exception that leaves a handler is
-- the framework's to answer.
pub mod Stored
pub mod Receipts
pub mod Acknowledged
use quidz.Prelude.{
  Option, none, some, ℕ, String, Bool, true, false, ◌||◌, List, [], ◌∷◌, if◌then◌else◌,
}
use quidz.Prelude.Int.{ℤ, pos}
use quidz.Errors.{Exn, Result, ok, raise, ◌>>=◌, signature_error, event_error, value_error}
use quidz.Python.{
  Value, Fields, Items, null, int, str, arr, obj, end, field, nil, cons, get, Python,
}
use quidz.Clock.{Clock}
use quidz.Dlq.{is_instance}
use quidz.Signatures.{Crypto}
use quidz.Store.{Db, Connection}
use quidz.Reconcile.{RemotePayment}
use quidz.Reconcile.Report.{ExceptionReport}
use quidz.Reconcile.Gate.{GateDecision}
use quidz.Reconcile.Render.{to_json}
use quidz.Cli.{SnapshotFile, holding, default_policy, run_reconcile}
use quidz.Inbox.{ClaimReason, in_progress, ClaimResult}
use quidz.Inbox.Receive.{Session, receive_stripe, receive_adyen}

-- The default arguments of `receive_stripe` and `receive_adyen`, in ticks and in seconds.
abbrev pub lease_seconds : ℕ
lease_seconds = 30000000

abbrev pub tolerance_seconds : ℤ
tolerance_seconds = pos 300

abbrev pub is_in_progress : ClaimReason → Bool
is_in_progress in_progress = true
is_in_progress _ = false

-- The item of one entry of a notification.
abbrev pub wrapped_item : Value → Result Fields
wrapped_item (obj entry) = elim (get entry "NotificationRequestItem") as (λ _. Result Fields) [
  | obj item ↦ ok item
  | _ ↦ raise event_error
]
wrapped_item _ = raise event_error

abbrev pub wrapped_items : Items → Result (List Fields)
wrapped_items nil = ok []
wrapped_items (cons entry rest) = do
  item ← wrapped_item entry
  items ← wrapped_items rest
  ok (item ∷ items)

abbrev pub items_under : Fields → Value → Result (List Fields)
items_under payload null = ok (payload ∷ [])
items_under payload (arr entries) = wrapped_items entries
items_under payload _ = raise event_error

-- `_adyen_items`
unfoldable pub adyen_items : Value → Result (List Fields)
adyen_items (obj payload) = items_under payload (get payload "notificationItems")
adyen_items _ = raise event_error

-- The answer of the Stripe route to what `receive_stripe` did.
abbrev pub stripe_reply : Result ClaimResult × Connection → Result ℕ × Connection
stripe_reply (ok result, conn) = (ok (if is_in_progress result.reason then 409 else 200), conn)
stripe_reply (raise exc, conn) =
    if is_instance exc signature_error
      || (is_instance exc event_error || is_instance exc value_error)
    then (ok 400, conn)
    else (raise exc, conn)

module _ (python : Python) (crypto : Crypto) where
  unfoldable pub stripe_webhook :
      List (List ℕ) → List ℕ → List (String × String) → ℕ → Connection → Result ℕ × Connection
  stripe_webhook secrets raw headers now conn =
      stripe_reply
        (receive_stripe python crypto raw headers secrets now lease_seconds tolerance_seconds conn)

  module _ (clock : Clock) (dumps : Fields → List ℕ) (adyen_hmac_key_hex : String) where
    abbrev pub Route : Type 0
    Route = Bool → clock.Time → Connection → Result ℕ × Connection

    -- The rest of the loop, or the response to a refusal.
    abbrev pub after_item :
        Route → Bool → clock.Time → Result ClaimResult × Connection → Result ℕ × Connection
    after_item rest busy time (ok result, conn) =
        rest (busy || is_in_progress result.reason) time conn
    after_item rest busy time (raise exc, conn) =
        if is_instance exc signature_error
        then (ok 401, conn)
        else if is_instance exc event_error
        then (ok 400, conn)
        else (raise exc, conn)

    -- The loop over the items; the flag says that one of them was in progress.
    unfoldable pub receive_items : List Fields → Route
    receive_items [] busy time conn = (ok (if busy then 409 else 200), conn)
    receive_items (item ∷ items) busy time conn =
        let (now, time') = clock.now time in
        after_item (receive_items items) busy time'
          (receive_adyen python crypto (dumps item) adyen_hmac_key_hex now lease_seconds conn)

    abbrev pub with_items : Result (List Fields) → clock.Time → Connection → Result ℕ × Connection
    with_items (ok items) time conn = receive_items items false time conn
    with_items (raise exc) time conn =
        if is_instance exc value_error || is_instance exc event_error
        then (ok 400, conn)
        else (raise exc, conn)

    unfoldable pub adyen_webhook : List ℕ → clock.Time → Connection → Result ℕ × Connection
    adyen_webhook raw = with_items (do payload ← python.loads raw; adyen_items payload)

-- `_provider_snapshot`: a file that cannot be read counts as absent.
abbrev pub provider_snapshot : SnapshotFile → Option (ℤ × List RemotePayment)
provider_snapshot (holding as_of payments) = some (as_of, payments)
provider_snapshot _ = none

-- The status of the report, and what it carries.
abbrev pub Report : Type 0
Report = ℕ × Option (ExceptionReport × GateDecision)

abbrev pub report_from : Python → Db → Option (ℤ × List RemotePayment) → Result Report
report_from python db none = ok (503, none)
report_from python db (some (now, remote)) = do
  outcome ← run_reconcile python remote now default_policy db
  ok (200, some outcome)

unfoldable pub reconcile_report : Python → SnapshotFile → Db → Result Report
reconcile_report python file db = report_from python db (provider_snapshot file)

-- The content of the report, which is rendered as for `--json`; the error is the framework's to
-- encode.
abbrev pub report_content : (ℤ → String) → (Fields → String) → Report → Option String
report_content float_text dumps (status, none) = none
report_content float_text dumps (status, some (report, decision)) =
    some (to_json float_text dumps report decision)

-- `SCHEMA_VERSION` of src/quidz/store.py.
abbrev pub schema_version : ℤ
schema_version = pos 1

-- `healthz`
abbrev pub healthz : ℕ × Fields
healthz = (200, field "status" (str "ok") (field "schema_version" (int schema_version) end))
