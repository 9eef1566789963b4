-- ===== src/Cli/Receipt.antt =====
-- The receipt of a demonstration's deliveries (`_receive_in_process` of src/quidz/cli.py).
pub mod Accounts
pub mod Kept
pub mod Returned
use quidz.Prelude.{ℕ, ◌+◌, String, Bool, List, [], ◌∷◌, if◌then◌else◌}
use quidz.Errors.{Exn, Result, ok, raise, stale_timestamp, signature_error}
use quidz.Event.{Provider, stripe, adyen}
use quidz.Python.{Python}
use quidz.Clock.{FakeClock, advance}
use quidz.Dlq.{is_instance}
use quidz.Signatures.{Crypto}
use quidz.Store.{Connection}
use quidz.Inbox.{ClaimReason, new, duplicate, in_progress, lease_reclaimed, ClaimResult}
use quidz.Inbox.Receive.{receive_stripe, receive_adyen}
use quidz.Sim.{Delivery}
use quidz.App.{lease_seconds, tolerance_seconds}

pub record Tally : Type 0 where
  pub new : ℕ
  pub duplicate : ℕ
  pub in_progress : ℕ
  pub lease_reclaimed : ℕ
  pub signature_invalid : ℕ
  pub stale_timestamp : ℕ

-- `_empty_tally`
abbrev pub empty_tally : Tally
empty_tally = record {
  new = 0;
  duplicate = 0;
  in_progress = 0;
  lease_reclaimed = 0;
  signature_invalid = 0;
  stale_timestamp = 0;
}

-- `tally[result.reason] += 1`
abbrev pub count_reason : ClaimReason → Tally → Tally
count_reason new t = record t { new = t.new + 1 }
count_reason duplicate t = record t { duplicate = t.duplicate + 1 }
count_reason in_progress t = record t { in_progress = t.in_progress + 1 }
count_reason lease_reclaimed t = record t { lease_reclaimed = t.lease_reclaimed + 1 }

-- `_RECEIPT_INTERVAL`, in ticks.
abbrev pub receipt_interval : ℕ
receipt_interval = 50000

-- What the loop carries besides the connection.
pub record Intake : Type 0 where
  pub tally : Tally
  pub clock : FakeClock

-- The clock moves on after every delivery that is counted, rejected ones included.
abbrev pub count_receipt : Intake → Result ClaimResult × Connection → Result Intake × Connection
count_receipt w (ok result, conn) = (
  ok (record {
    tally = count_reason result.reason w.tally;
    clock = advance receipt_interval w.clock;
  }),
  conn,
)
count_receipt w (raise exc, conn) =
    if is_instance exc stale_timestamp
    then (
      ok (record {
        tally = record w.tally { stale_timestamp = w.tally.stale_timestamp + 1 };
        clock = advance receipt_interval w.clock;
      }),
      conn,
    )
    else if is_instance exc signature_error
    then (
      ok (record {
        tally = record w.tally { signature_invalid = w.tally.signature_invalid + 1 };
        clock = advance receipt_interval w.clock;
      }),
      conn,
    )
    else (raise exc, conn)

module _ (python : Python) (crypto : Crypto) (secrets : List (List ℕ)) (hmac_key_hex : String) where
  abbrev pub receive_from : Provider → Delivery → ℕ → Connection → Result ClaimResult × Connection
  receive_from stripe d now =
      receive_stripe python crypto d.raw d.headers secrets now lease_seconds tolerance_seconds
  receive_from adyen d now = receive_adyen python crypto d.raw hmac_key_hex now lease_seconds

  -- The loop; an exception that is no rejection leaves it.
  abbrev pub receive_all : List Delivery → Result Intake × Connection → Result Intake × Connection
  receive_all [] s = s
  receive_all (d ∷ ds) (ok w, conn) =
      receive_all ds (count_receipt w (receive_from d.provider d w.clock.t conn))
  receive_all (d ∷ ds) (raise exc, conn) = (raise exc, conn)

  unfoldable pub receive_in_process :
      List Delivery → FakeClock → Connection → Result Intake × Connection
  receive_in_process deliveries clock conn =
      receive_all deliveries (ok (record { tally = empty_tally; clock = clock }), conn)
