-- ===== src/Cli/Demo/Reproduced.antt =====
-- `quidz reconcile` and the report route on what a demonstration leaves behind (`_demo` and
-- `_reconcile` of src/quidz/cli.py, `reconcile_report` of src/quidz/app.py).
use mathlib.Core.Path.{subst}
use quidz.Prelude.{ℕ, String, ◌≡◌, refl, ap, ◌∙◌, Option, none, some, List, []}
use quidz.Prelude.Int.{ℤ, pos}
use quidz.Errors.{Result, ok, raise, ◌>>=◌, >>=-eq-ok}
use quidz.Python.{Python, obj}
use quidz.Clock.{fake, advance}
use quidz.Inbox.Drain.{DrainReport}
use quidz.Dlq.{Random}
use quidz.Store.{Db, Connection}
use quidz.App.{reconcile_report}
use quidz.App.Receipts.{go_on-ok}
use quidz.Inbox.Idle.{Watch, drain_until_idle}
use quidz.Cli.Replay.{retry_policy, max_passes}
use quidz.Reconcile.{Severity, RemotePayment}
use quidz.Reconcile.Report.{ExceptionReport}
use quidz.Reconcile.Gate.{GateDecision}
use quidz.Sim.{BreakMode, Rng, Delivery}
use quidz.Sim.Reports.{remote_payments, settlement_report}
use quidz.Sim.Deliveries.{Signer}
use quidz.Cli.{
  done, default_policy, SnapshotFile, holding, exit_code, run_reconcile, store_settlement, reported,
  exit_after, reconciled, reconcile_command,
}
use quidz.Cli.Receipt.{Tally, Intake, receive_in_process}
use quidz.Cli.Log.{Codec, write_log}
use quidz.Cli.Snapshot.{Json, snapshot_fields, write_snapshot, parse_snapshot}
use quidz.Cli.Snapshot.Written.{ReadsFloats, parse_snapshot-write_snapshot}
use quidz.Cli.Demo.{
  reconcile_after, started_at, stripe_secrets, adyen_hmac_key_hex, ledger_lines, Outcome, book,
  finish, settle_and_finish, run_on, run_demo,
}

abbrev built :
    {Text : Type 0}
    → Tally
    → DrainReport
    → ExceptionReport × GateDecision
    → List String
    → List String
    → Text
    → Outcome Text
built receipts drained outcome ledger log snapshot = record {
  receipts = receipts;
  drained = drained;
  report = outcome.0;
  decision = outcome.1;
  ledger = ledger;
  log = log;
  snapshot = snapshot;
}

module _ (python : Python) (random : Random) (rng : Rng) (signer : Signer) (iso_day : ℕ → String)
    (codec : Codec) (json : Json) (seed : ℤ) (scenario : String) where
  -- What a demonstration shows is what the database gives, and the snapshot holds what the
  -- reconciliation was given.
  record Shown (o : Outcome json.Text) (db : Db) : Type 0 where
    pub now : ℤ
    pub remote : List RemotePayment
    pub reports : run_reconcile python remote now default_policy db ≡ ok (o.report, o.decision)
    pub snapshot : o.snapshot ≡ write_snapshot json now seed scenario remote
    pub logged : write_log codec db ≡ ok o.log

  finish-Shown :
      (modes : List BreakMode) (intake : Intake) (w : Watch python random fake) (db : Db)
      {o : Outcome json.Text}
      → finish python random rng signer iso_day codec json seed scenario modes intake w db ≡ ok o
      → Shown o db
  finish-Shown modes intake w db {o} h =
      let now = pos (advance reconcile_after w.time).t in
      let remote =
        remote_payments modes (book python random rng signer iso_day codec json seed scenario) in
      let (outcome, reports, h₁) =
        >>=-eq-ok (run_reconcile python remote now default_policy db) _ h in
      let (ledger, _, h₂) = >>=-eq-ok (ledger_lines db) _ h₁ in
      let (log, logged, h₃) = >>=-eq-ok (write_log codec db) _ h₂ in
      let same : built intake.tally w.sum outcome ledger log
            (write_snapshot json now seed scenario remote)
          ≡ o =
        cc in
      subst (λ x. Shown x db) same
        (record { now = now; remote = remote; reports = reports; snapshot = refl; logged = logged })

  settle-Shown :
      (modes : List BreakMode) (intake : Intake) (w : Watch python random fake) (conn : Connection)
      {o : Outcome json.Text} {conn' : Connection}
      → settle_and_finish python random rng signer iso_day codec json seed scenario modes intake w
          conn
        ≡ (ok o, conn')
      → Shown o conn'.db
  settle-Shown modes intake w conn {o} {conn'} h =
      let (_, c, _, k) =
        go_on-ok
          (store_settlement
            (settlement_report iso_day scenario started_at
              (book python random rng signer iso_day codec json seed scenario))
            conn)
          _ h in
      subst (λ d. Shown o d.db) (ap (λ p. p.1) k)
        (finish-Shown modes intake w c.db (ap (λ p. p.0) k))

  run_on-Shown :
      (conn : Connection) (r : Result (List BreakMode × List Delivery)) {o : Outcome json.Text}
      {conn' : Connection}
      → run_on python random rng signer iso_day codec json seed scenario conn r ≡ (ok o, conn')
      → Shown o conn'.db
  run_on-Shown conn (raise exc) h = absurd (cc)
  run_on-Shown conn (ok (modes, sent)) h =
      let (intake, c₁, _, h₁) =
        go_on-ok
          (receive_in_process python signer.crypto stripe_secrets adyen_hmac_key_hex sent
            (record { t = started_at; slept = [] }) conn)
          _ h in
      let (w, c₂, _, h₂) =
        go_on-ok
          (drain_until_idle python random fake (record retry_policy { seed = some seed }) max_passes
            intake.clock c₁)
          _ h₁ in
      settle-Shown modes intake w c₂ h₂

  run_demo-Shown :
      (breaks : List BreakMode) (conn : Connection) {o : Outcome json.Text} {conn' : Connection}
      → run_demo python random rng signer iso_day codec json seed scenario breaks conn
        ≡ (ok o, conn')
      → Shown o conn'.db
  unfolding run_demo
  run_demo-Shown breaks conn h = run_on-Shown conn _ h

  -- The document of a snapshot reads back from its text.
  pub record ReadsSnapshots : Type 0 where
    pub floats : ReadsFloats json
    pub documents :
        (as_of : ℤ) (remote : List RemotePayment)
        → json.loads (json.dumps (snapshot_fields json as_of seed scenario remote))
          ≡ ok (obj (snapshot_fields json as_of seed scenario remote))

  -- A demonstration can be reconciled again from what it leaves behind: where JSON and floats read
  -- back, the snapshot beside the database of a demonstration that came to an end is a readable
  -- one, `quidz reconcile --db` on the two reports exactly the findings and the decision that the
  -- demonstration showed, its exit code is that of this report, and the report route of the
  -- application answers 200 with the same two.
  pub run_demo-reconciled :
      (breaks : List BreakMode) (conn : Connection) (fail_on : Option Severity)
      {o : Outcome json.Text} {conn' : Connection}
      → ReadsSnapshots
      → run_demo python random rng signer iso_day codec json seed scenario breaks conn
        ≡ (ok o, conn')
      → (file : SnapshotFile) × (parse_snapshot json o.snapshot ≡ some file)
        × (reconciled python (some conn'.db) file none ≡ done (o.report, o.decision))
        × (reconcile_command python (some conn'.db) file none fail_on
            ≡ done (exit_code fail_on (o.report, o.decision)))
        × (reconcile_report python file conn'.db ≡ ok (200, some (o.report, o.decision)))
  unfolding reconciled reconcile_command reconcile_report
  run_demo-reconciled breaks conn fail_on {o} {conn'} reads h =
      let s = run_demo-Shown breaks conn h in
      (
        holding s.now s.remote,
        ap (parse_snapshot json) s.snapshot
            ∙ parse_snapshot-write_snapshot json reads.floats s.now seed scenario s.remote
                (reads.documents s.now s.remote),
        ap reported s.reports,
        ap (λ r. exit_after fail_on (reported r)) s.reports,
        ap (λ r. r >>= λ outcome. ok (200, some outcome)) s.reports,
      )
