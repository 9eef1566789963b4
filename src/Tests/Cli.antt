-- ===== src/Tests/Cli.antt =====
-- One reconciliation, one settlement file and one receipt (src/quidz/cli.py).
use mathlib.Core.Bool.{false≢true}
use quidz.Prelude.{◌+◌, ◌*◌, String, ◌≡◌, ◌≢◌, eq_iff, refl, some, none, [], ◌∷◌, length, ◌⊎◌, ℕ}
use quidz.Prelude.Int.{pos, ◌-ℤ◌}
use quidz.Errors.{ok, overflow_error}
use quidz.Event.{adyen}
use quidz.Python.{get, has_key}
use quidz.Clock.{FakeClock}
use quidz.Events.{require_str}
use quidz.Metrics.{bump, check}
use quidz.Signatures.{Crypto, verify_adyen}
use quidz.Store.{Connection, empty, write_tx, insert_delivery}
use quidz.Store.Transactions.{closed}
use quidz.Ledger.{load_payment}
use quidz.Inbox.{delivery_key, identity_of, payload_of, claim_body, claim}
use quidz.Inbox.Receive.{receive_adyen}
use quidz.Inbox.Receive.Inserted.{size}
use quidz.Reconcile.{RemotePayment}
use quidz.Sim.{Delivery}
use quidz.Inbox.Parked.{parked_rows}
use quidz.Inbox.Parked.Listed.{HasOverlarge}
use quidz.Cli.{Command, holding, done, crash, exit_status, reconcile_command, main}
use quidz.Cli.Exit.{reconcile_command-missing}
use quidz.Cli.Receipt.{empty_tally, receipt_interval, Intake, receive_in_process}
use quidz.Cli.Receipt.Accounts.{counted, receive_in_process-Accounted}
use quidz.Tests.Queue.{loads-Readable}
use quidz.Samples.{python, crypto, inbox}

abbrev lost : RemotePayment
lost = record {
  payment_id = "lost";
  provider_ref = "ref";
  currency = "EUR";
  authorized_minor = pos 1000;
  captured_minor = pos 0;
  refunded_minor = pos 0;
  status = "authorized";
  created_at = pos 100;
}

lost-ne : ◌≢◌ {A = String} "lost" ""
lost-ne e = false≢true ((eq_iff "lost" "").1 e)

abbrev missing_reported : Command ℕ
missing_reported =
    reconcile_command python (some inbox) (holding (pos 9000000000) (lost ∷ [])) none none

reconcile_command-missing_example :
    (exit_status (main missing_reported) ≡ 1)
    × ((main missing_reported ≡ done 1)
        ⊎ ((main missing_reported ≡ crash overflow_error)
            × HasOverlarge python (parked_rows inbox)))
unfolding load_payment ◌-ℤ◌
reconcile_command-missing_example =
    reconcile_command-missing python inbox (pos 9000000000) (lost ∷ []) none "lost" loads-Readable
      lost-ne refl refl refl

-- The signature of every item is the digest.
abbrev signed_items : Crypto
signed_items = record crypto { b64decode = λ _. some (1 ∷ []) }

abbrev sent : Delivery
sent = record { provider = adyen; identity = "psp1:AUTHORISATION"; raw = 123 ∷ []; headers = [] }

abbrev start : FakeClock
start = record { t = 7; slept = [] }

-- The second delivery finds the lease of the first still live.
abbrev taken : Intake
taken = record {
  tally = record empty_tally { new = 1; in_progress = 1 };
  clock = record start { t = 100007 };
}

abbrev stored : Connection
stored = (receive_in_process python signed_items [] "00" (sent ∷ sent ∷ []) start (closed empty)).1

receives :
    receive_in_process python signed_items [] "00" (sent ∷ sent ∷ []) start (closed empty)
    ≡ (ok taken, stored)
unfolding receive_in_process receive_adyen bump check payload_of verify_adyen identity_of
    require_str get has_key claim write_tx claim_body insert_delivery delivery_key
receives = refl

receive_in_process-Accounted_example :
    (counted taken.tally ≡ length (sent ∷ sent ∷ []))
    × (size stored.db ≡ 0 + taken.tally.new)
    × (taken.clock.t ≡ 7 + length (sent ∷ sent ∷ []) * receipt_interval)
receive_in_process-Accounted_example =
    receive_in_process-Accounted python signed_items [] "00" (sent ∷ sent ∷ []) start (closed empty)
      receives
