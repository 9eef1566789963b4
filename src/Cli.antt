-- ===== src/Cli.antt =====
-- The commands (src/quidz/cli.py), without argument parsing and printing. A command ends with an
-- exit code, with a `CliError`, or with an exception that nothing catches.
pub mod Settlement
pub mod Exit
pub mod Receipt
pub mod Listing
pub mod Log
pub mod Replay
pub mod Snapshot
pub mod Demo
pub mod Output
use quidz.Prelude.{
  ℕ, zero, String, ◌*◌, Bool, true, false, Option, none, some, List, [], ◌∷◌, any, map, leb,
  if◌then◌else◌,
}
use quidz.Prelude.Int.{ℤ, pos}
use quidz.Errors.{Exn, Result, ok, raise, ◌>>=◌}
use quidz.Python.{Python}
use quidz.Model.{PaymentState, Status, derive_status}
use quidz.Metrics.{snapshot}
use quidz.Store.{Db, Exec, ◌>>◌, lift, modify, replace_settlement, Connection, write_tx}
use quidz.Ledger.Listing.{list_payments, list_settlement_rows}
use quidz.Inbox.Parked.{parked_events}
use quidz.Reconcile.{
  Severity, severity_order, DriftKind, RemotePayment, SettlementRow, Scope, GatePolicy, Finding,
}
use quidz.Reconcile.Report.{ExceptionReport, reconcile}
use quidz.Reconcile.Gate.{GateDecision, gate}

-- `GatePolicy()`, in ticks.
abbrev pub default_policy : GatePolicy
default_policy = record {
  in_flight_grace_seconds = pos 3600000000;
  settlement_sla_seconds = pos 259200000000;
  park_max_age_seconds = pos 900000000;
  fee_tolerance_bps = pos 500;
  materiality_count = pos 5;
  materiality_value_minor = pos 10000;
  scope = Scope.payment;
  break_glass = none;
  severity_overrides = λ _. none;
}

-- `_store_settlement`
abbrev pub replace_all : List SettlementRow → List SettlementRow → List SettlementRow
replace_all [] table = table
replace_all (row ∷ rows) table = replace_all rows (replace_settlement row table)

unfoldable pub store_settlement : List SettlementRow → Connection → Result (Unit {0}) × Connection
store_settlement rows =
    write_tx (modify (λ db. record db { settlement_rows = replace_all rows db.settlement_rows }))

-- `_terminal`
unfoldable pub terminal : Db → List (String × Status)
terminal db = map (λ s. (s.payment_id, derive_status s)) (list_payments db)

-- A parked delivery as the reconciler takes it.
abbrev pub parked_entry : String × ℕ → String × ℤ
parked_entry (payment_id, received_at) = (payment_id, pos received_at)

-- `_run_reconcile`, which the report route repeats.
unfoldable pub run_reconcile :
    Python → List RemotePayment → ℤ → GatePolicy → Db → Result (ExceptionReport × GateDecision)
run_reconcile python remote now policy db = do
  parked ← parked_events python db
  let report =
      reconcile (list_payments db) remote (list_settlement_rows db) (map parked_entry parked) now
        policy (snapshot db)
  ok (report, gate report.findings policy now)

-- What stands beside the database under the name of the snapshot, once read and parsed.
pub data SnapshotFile : Type 0 where
  absent unreadable : SnapshotFile
  holding : ℤ → List RemotePayment → SnapshotFile

pub data Command (A : Type 0) : Type 0 where
  done : A → Command A
  cli_error : Command A
  crash : Exn → Command A

-- `_read_snapshot`
abbrev pub read_snapshot : SnapshotFile → Command (Option (ℤ × List RemotePayment))
read_snapshot absent = done none
read_snapshot unreadable = cli_error
read_snapshot (holding as_of payments) = done (some (as_of, payments))

-- `_SEVERITY_ORDER[f.severity] >= _SEVERITY_ORDER[threshold]`
abbrev pub at_or_above : Severity → Finding → Bool
at_or_above threshold f = leb (severity_order threshold) (severity_order f.severity)

abbrev pub findings_exit : Option Severity → List Finding → ℕ
findings_exit none findings = 0
findings_exit (some threshold) findings = if any (at_or_above threshold) findings then 1 else 0

-- The exit code of a report: `fail_on` is the threshold of `--fail-on`, if it is given.
abbrev pub exit_code : Option Severity → ExceptionReport × GateDecision → ℕ
exit_code fail_on (report, decision) =
    if decision.outbound_blocked then 1 else findings_exit fail_on report.findings

abbrev pub or_as_of : Option ℤ → ℤ → ℤ
or_as_of none as_of = as_of
or_as_of (some now) as_of = now

abbrev pub reported :
    Result (ExceptionReport × GateDecision) → Command (ExceptionReport × GateDecision)
reported (ok outcome) = done outcome
reported (raise exc) = crash exc

abbrev pub exit_after : Option Severity → Command (ExceptionReport × GateDecision) → Command ℕ
exit_after fail_on (done outcome) = done (exit_code fail_on outcome)
exit_after fail_on cli_error = cli_error
exit_after fail_on (crash exc) = crash exc

module _ (python : Python) where
  abbrev pub reconcile_against :
      Option ℤ
      → Db
      → Command (Option (ℤ × List RemotePayment))
      → Command (ExceptionReport × GateDecision)
  reconcile_against as_of db (done none) = cli_error
  reconcile_against as_of db (done (some (taken_at, remote))) =
      reported (run_reconcile python remote (or_as_of as_of taken_at) default_policy db)
  reconcile_against as_of db cli_error = cli_error
  reconcile_against as_of db (crash exc) = crash exc

  -- What `_reconcile` prints: the database is that of `--db`, if the option is given and the file
  -- exists.
  unfoldable pub reconciled :
      Option Db → SnapshotFile → Option ℤ → Command (ExceptionReport × GateDecision)
  reconciled none file as_of = cli_error
  reconciled (some db) file as_of = reconcile_against as_of db (read_snapshot file)

  -- `_reconcile`
  unfoldable pub reconcile_command :
      Option Db → SnapshotFile → Option ℤ → Option Severity → Command ℕ
  reconcile_command db file as_of fail_on = exit_after fail_on (reconciled db file as_of)

-- What the process exits with: Python's status after an uncaught exception is 1.
abbrev pub exit_status : Command ℕ → ℕ
exit_status (done code) = code
exit_status cli_error = 2
exit_status (crash exc) = 1

-- `main`: a `CliError` is exit code 2.
abbrev pub main : Command ℕ → Command ℕ
main (done code) = done code
main cli_error = done 2
main (crash exc) = crash exc
