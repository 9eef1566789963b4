-- ===== src/Cli/Demo.antt =====
-- The demonstration (`_demo` of src/quidz/cli.py), its printing aside: the whole pipeline on the
-- deliveries of the synthetic provider, in process.
pub mod Ended
pub mod Listed
pub mod Reproduced
use Prim.Native.Char.{Char}
use quidz.Prelude.{ℕ, zero, suc, String, Bool, true, false, Option, none, some, List, [], ◌∷◌, map}
use quidz.Prelude.Int.{ℤ, pos}
use quidz.Errors.{Exn, Result, ok, raise, ◌>>=◌}
use quidz.Event.{Money}
use quidz.Python.{Python}
use quidz.Text.{ljust, rjust, concat}
use quidz.Money.{codes, make_money, format_major}
use quidz.Clock.{FakeClock, fake, advance}
use quidz.Dlq.{RetryPolicy, Random}
use quidz.Model.{PaymentState, derive_status, status_text}
use quidz.Store.{Db, Connection}
use quidz.Ledger.Listing.{list_payments}
use quidz.Inbox.Receive.{Session, go_on}
use quidz.Inbox.Drain.{DrainReport}
use quidz.Inbox.Idle.{Watch, drain_until_idle}
use quidz.Reconcile.Report.{ExceptionReport}
use quidz.Reconcile.Gate.{GateDecision}
use quidz.Sim.{BreakMode, Booked, Rng, build_book, Delivery}
use quidz.Sim.Reports.{remote_payments, settlement_report}
use quidz.Sim.Deliveries.{Signer}
use quidz.Sim.Batches.{modes_of, deliveries}
use quidz.Cli.{Command, done, crash, default_policy, store_settlement, run_reconcile}
use quidz.Cli.Receipt.{Tally, Intake, receive_in_process}
use quidz.Cli.Listing.{ledger_lines}
use quidz.Cli.Log.{Codec, write_log}
use quidz.Cli.Replay.{retry_policy, max_passes}
use quidz.Cli.Snapshot.{Json, write_snapshot}

-- `_RECONCILE_AFTER`, in ticks.
abbrev pub reconcile_after : ℕ
reconcile_after = 1200000000

-- The defaults of a `Simulator`; its times are in ticks.
abbrev pub stripe_secrets : List (List ℕ)
stripe_secrets = codes "whsec_synthetic_primary" ∷ codes "whsec_synthetic_previous" ∷ []

abbrev pub adyen_hmac_key_hex : String
adyen_hmac_key_hex = "0000000000000000000000000000000000000000000000000000000000000000"

abbrev pub zero_bytes : ℕ → List ℕ
zero_bytes zero = []
zero_bytes (suc n) = 0 ∷ zero_bytes n

abbrev pub started_at : ℕ
started_at = 1787011200000000

-- What a demonstration has come to: its tallies, what it prints, and the two files that it leaves
-- beside the database.
pub record Outcome (Text : Type 0) : Type 0 where
  pub receipts : Tally
  pub drained : DrainReport
  pub report : ExceptionReport
  pub decision : GateDecision
  pub ledger : List String
  pub log : List String
  pub snapshot : Text

module _ (python : Python) (random : Random) (rng : Rng) (signer : Signer) (iso_day : ℕ → String)
    (codec : Codec) (json : Json) (seed : ℤ) (scenario : String) where
  open signer use {crypto}

  abbrev pub book : List Booked
  book = build_book rng seed started_at

  -- From the reconciliation on, which only reads the database.
  abbrev pub finish :
      List BreakMode → Intake → Watch python random fake → Db → Result (Outcome json.Text)
  finish modes intake w db =
      let now = pos (advance reconcile_after w.time).t in
      let remote = remote_payments modes book in
      do
        outcome ← run_reconcile python remote now default_policy db
        ledger ← ledger_lines db
        log ← write_log codec db
        ok (record {
          receipts = intake.tally;
          drained = w.sum;
          report = outcome.0;
          decision = outcome.1;
          ledger = ledger;
          log = log;
          snapshot = write_snapshot json now seed scenario remote;
        })

  abbrev pub settle_and_finish :
      List BreakMode → Intake → Watch python random fake → Session (Outcome json.Text)
  settle_and_finish modes intake w conn =
      go_on (store_settlement (settlement_report iso_day scenario started_at book) conn)
        (λ _ conn'. (finish modes intake w conn'.db, conn'))

  abbrev pub drain_and_finish : List BreakMode → Intake → Session (Outcome json.Text)
  drain_and_finish modes intake conn =
      go_on
        (drain_until_idle python random fake (record retry_policy { seed = some seed }) max_passes
          intake.clock conn)
        (settle_and_finish modes intake)

  abbrev pub receive_and_finish : List BreakMode → List Delivery → Session (Outcome json.Text)
  receive_and_finish modes sent conn =
      go_on
        (receive_in_process python crypto stripe_secrets adyen_hmac_key_hex sent
          (record { t = started_at; slept = [] }) conn)
        (drain_and_finish modes)

  abbrev pub run_on :
      Connection → Result (List BreakMode × List Delivery) → Result (Outcome json.Text) × Connection
  run_on conn (ok (modes, sent)) = receive_and_finish modes sent conn
  run_on conn (raise exc) = (raise exc, conn)

  -- The body of `_demo`.
  unfoldable pub run_demo : List BreakMode → Session (Outcome json.Text)
  run_demo breaks conn = run_on conn (do
    modes ← modes_of scenario breaks
    sent ← deliveries signer stripe_secrets (zero_bytes 32) started_at rng seed scenario breaks
    ok (modes, sent))

  -- A demonstration exits with code 0, whatever it shows.
  abbrev pub demo_exit : Result (Outcome json.Text) → Command ℕ
  demo_exit (ok outcome) = done 0
  demo_exit (raise exc) = crash exc

  unfoldable pub demo : List BreakMode → Connection → Command ℕ × Connection
  demo breaks conn = let (outcome, conn') = run_demo breaks conn in (demo_exit outcome, conn')
