-- ===== src/Cli/Demo/Ended.antt =====
-- How a demonstration ends (`_demo` of src/quidz/cli.py).
use quidz.Prelude.{ℕ, String, ◌≡◌, refl, sym, ap, ◌∙◌, some, List, []}
use quidz.Prelude.Int.{ℤ, pos}
use quidz.Errors.{>>=-eq-ok, Returns, bind-Returns, Result, ok, raise}
use quidz.Python.{Python}
use quidz.Clock.{FakeClock, fake, advance}
use quidz.Dlq.{Random}
use quidz.Store.{Db, Connection, write_tx}
use quidz.Store.Transactions.{closed}
use quidz.Ledger.Priced.{AllPriced}
use quidz.Inbox.Keyed.{AllKeyed}
use quidz.Cli.Log.Total.{write_log-Returns}
use quidz.Inbox.Parked.{parked_events}
use quidz.Inbox.Parked.Faults.{Readable}
use quidz.Inbox.Parked.Fitting.{fits, parked_events-fits}
use quidz.Inbox.Receive.{go_on}
use quidz.Inbox.Idle.{Watch}
use quidz.Inbox.Idle.Passes.{drain_until_idle-Ended}
use quidz.Reconcile.{RemotePayment}
use quidz.Sim.{BreakMode, Rng, Delivery}
use quidz.Sim.Reports.{remote_payments, settlement_report}
use quidz.Sim.Deliveries.{Signer}
use quidz.Cli.{default_policy, run_reconcile, store_settlement, replace_all}
use quidz.Cli.Receipt.{Intake, receive_in_process}
use quidz.Cli.Receipt.Returned.{AllReceivable, receive_in_process-Returns}
use quidz.Cli.Receipt.Kept.{AllBodies, receive_in_process-SoundRun}
use quidz.Inbox.Receive.Sound.{SoundRun}
use mathlib.Core.Path.{subst}
use quidz.Sim.Batches.{modes_of, deliveries}
use quidz.Cli.Log.{Codec, write_log}
use quidz.Cli.Replay.{retry_policy, max_passes}
use quidz.Cli.Snapshot.{Json}
use quidz.Cli.Demo.{
  run_demo, stripe_secrets, adyen_hmac_key_hex, zero_bytes, started_at, reconcile_after, Outcome,
  book, finish, settle_and_finish, drain_and_finish,
}
use quidz.Cli.Listing.{ledger_lines}
use quidz.Cli.Demo.Listed.{ledger_lines-total}

run_reconcile-Returns :
    (python : Python) (remote : List RemotePayment) (now : ℤ) (db : Db)
    → ((raw : List ℕ) → Readable (python.loads raw))
    → AllKeyed (fits python) db.deliveries
    → Returns (run_reconcile python remote now default_policy db)
unfolding run_reconcile
run_reconcile-Returns python remote now db loads keyed =
    bind-Returns (parked_events python db) _ (_, parked_events-fits python db loads keyed)
      (λ parked. (_, refl))

module _ (python : Python) (random : Random) (rng : Rng) (signer : Signer) (iso_day : ℕ → String)
    (codec : Codec) (json : Json) (seed : ℤ) (scenario : String)
    (loads : (raw : List ℕ) → Readable (python.loads raw)) where
  open signer use {crypto}

  abbrev Run : Type 0
  Run = Result (Outcome json.Text)

  -- The run has come to its outcome, with no transaction left open.
  record Finished (run : Run × Connection) : Type 0 where
    pub outcome : Outcome json.Text
    pub final : Db
    pub ends : run ≡ (ok outcome, closed final)

  finish-Returns :
      (modes : List BreakMode) (intake : Intake) (w : Watch python random fake) (db : Db)
      → AllPriced db.payments
      → AllKeyed (fits python) db.deliveries
      → Returns (finish python random rng signer iso_day codec json seed scenario modes intake w db)
  finish-Returns modes intake w db priced keyed =
      let now = pos (advance reconcile_after w.time).t in
      let remote =
        remote_payments modes (book python random rng signer iso_day codec json seed scenario) in
      let (lines, prints, _) = ledger_lines-total db priced in
      bind-Returns (run_reconcile python remote now default_policy db) _
        (run_reconcile-Returns python remote now db loads keyed)
        (λ reported.
          bind-Returns (ledger_lines db) _ (lines, prints)
            (λ ledger.
              bind-Returns (write_log codec db) _ (write_log-Returns codec (fits python) db keyed)
                (λ log. (_, refl))))

  settle_and_finish-Finished :
      (modes : List BreakMode) (intake : Intake) (w : Watch python random fake) (db : Db)
      → AllPriced db.payments
      → AllKeyed (fits python) db.deliveries
      → Finished (
          settle_and_finish python random rng signer iso_day codec json seed scenario modes intake w
            (closed db))
  unfolding store_settlement write_tx
  settle_and_finish-Finished modes intake w db priced keyed =
      let rows =
        settlement_report iso_day scenario started_at
          (book python random rng signer iso_day codec json seed scenario) in
      let settled = record db { settlement_rows = replace_all rows db.settlement_rows } in
      let (outcome, shown) = finish-Returns modes intake w settled priced keyed in
      record { outcome = outcome; final = settled; ends = ap (λ r. (r, closed settled)) shown }

  drain_and_finish-Finished :
      (modes : List BreakMode) (intake : Intake) (db : Db)
      → AllPriced db.payments
      → AllKeyed (fits python) db.deliveries
      → Finished (
          drain_and_finish python random rng signer iso_day codec json seed scenario modes intake
            (closed db))
  drain_and_finish-Finished modes intake db priced keyed =
      let e =
        drain_until_idle-Ended python random fake (record retry_policy { seed = some seed })
          max_passes intake.clock db in
      let f =
        settle_and_finish-Finished modes intake e.watch e.left (e.priced priced)
          (e.keyed (fits python) keyed) in
      record {
        outcome = f.outcome;
        final = f.final;
        ends =
            ap
              (λ p. go_on p (
                settle_and_finish python random rng signer iso_day codec json seed scenario modes
                  intake))
              e.ends
            ∙ f.ends;
      }

  received-Finished :
      (modes : List BreakMode) (db : Db) (p : Result Intake × Connection) {intake : Intake}
      → AllPriced db.payments
      → AllKeyed (fits python) db.deliveries
      → SoundRun (fits python) db p
      → p.0 ≡ ok intake
      → Finished (
          go_on p
            (drain_and_finish python random rng signer iso_day codec json seed scenario modes))
  received-Finished modes db (raise e, conn) priced keyed s h = cc
  received-Finished modes db (ok intake, conn) priced keyed s h =
      subst
        (λ c. Finished (
          drain_and_finish python random rng signer iso_day codec json seed scenario modes intake
            c))
        (sym s.left)
        (drain_and_finish-Finished modes intake s.after (subst AllPriced (sym s.payments) priced)
          (s.keyed keyed))

  chosen_modes :
      (breaks : List BreakMode) {sent : List Delivery}
      → deliveries signer stripe_secrets (zero_bytes 32) started_at rng seed scenario breaks
        ≡ ok sent
      → Returns (modes_of scenario breaks)
  unfolding deliveries
  chosen_modes breaks built =
      let (modes, chosen, _) = >>=-eq-ok (modes_of scenario breaks) _ built in (modes, chosen)

  -- A demonstration comes to its end: where `json.loads` raises only its ValueErrors, the deliveries
  -- can be built, which takes a scenario that is known, each of them has a body that names it and a
  -- signature that verification accepts or rejects, and no stored or sent Stripe body has an integer
  -- too large for a float as its `created`, the receipts, the drains, the settlement file, the
  -- reconciliation, the listing of the ledger and the delivery log all return, whatever else the
  -- deliveries decode to, and no transaction is left open. The database may hold earlier runs:
  -- payments in currencies of three upper case letters, and deliveries under the keys of their
  -- provider and an identity.
  pub run_demo-Ended :
      (breaks : List BreakMode) (db : Db) {sent : List Delivery}
      → AllPriced db.payments
      → AllKeyed (fits python) db.deliveries
      → deliveries signer stripe_secrets (zero_bytes 32) started_at rng seed scenario breaks
        ≡ ok sent
      → AllReceivable python crypto stripe_secrets adyen_hmac_key_hex sent
      → AllBodies (fits python) sent
      → (outcome : Outcome json.Text) × (final : Db) × (run_demo python random rng signer iso_day
            codec json seed scenario breaks
            (closed db)
          ≡ (ok outcome, closed final))
  unfolding run_demo
  run_demo-Ended breaks db {sent} priced keyed built receivable bodies =
      let clock : FakeClock = record { t = started_at; slept = [] } in
      let (modes, chosen) = chosen_modes breaks built in
      let (intake, received) =
        receive_in_process-Returns python crypto stripe_secrets adyen_hmac_key_hex sent clock db
          receivable in
      let f =
        received-Finished modes db
          (receive_in_process python crypto stripe_secrets adyen_hmac_key_hex sent clock
            (closed db))
          priced keyed
          (receive_in_process-SoundRun (fits python) python crypto stripe_secrets adyen_hmac_key_hex
            sent clock db bodies)
          received in
      (f.outcome, f.final, rw (chosen, built) (f.ends))
