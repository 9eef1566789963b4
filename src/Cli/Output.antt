-- ===== src/Cli/Output.antt =====
-- The lines that the commands print (src/quidz/cli.py). The paths of the files are arguments, and an
-- empty line is the empty text; a text of several lines is the list of its lines.
use quidz.Prelude.{
  ℕ, ◌+◌, String, Bool, true, false, Option, none, some, List, [], ◌∷◌, ◌++◌, map, if◌then◌else◌,
  str_eq,
}
use quidz.Prelude.Int.{ℤ}
use quidz.Text.{decimal, int_text, concat, join, ljust, rjust}
use quidz.Reconcile.Report.{ExceptionReport}
use quidz.Reconcile.Gate.{GateDecision, sorted_set}
use quidz.Reconcile.Render.{or_text, report_lines}
use quidz.Sim.{BreakMode, duplicate, replay, reorder, drop, amount_mismatch, tamper, unmodelled}
use quidz.Inbox.Drain.{DrainReport}
use quidz.Cli.Demo.{Outcome}
use quidz.Cli.Log.{state_of}

-- The text of a mode.
abbrev pub mode_text : BreakMode → String
mode_text duplicate = "duplicate"
mode_text replay = "replay"
mode_text reorder = "reorder"
mode_text drop = "drop"
mode_text amount_mismatch = "amount-mismatch"
mode_text tamper = "tamper"
mode_text unmodelled = "unmodelled"

-- `", ".join(mode.value for mode in simulator.applied_breaks) or "none"`: a sorted set.
abbrev pub modes_text : List BreakMode → String
modes_text modes = or_text (join ", " (sorted_set (map mode_text modes))) "none"

-- `_print_counters`
abbrev pub counter_line : String × ℤ → String
counter_line (name, value) = concat ("  " ∷ ljust 34 " " name ∷ rjust 8 " " (int_text value) ∷ [])

unfoldable pub counter_lines : ExceptionReport → List String
counter_lines report = "COUNTERS" ∷ map counter_line report.counters

abbrev pub transport_text : Bool → String
transport_text true = "in-process ASGI"
transport_text false = "in-process, no socket"

abbrev pub drained_text : DrainReport → String
drained_text drained = concat (
    "  applied "
    ∷ decimal drained.applied
    ∷ "   noop_duplicate "
    ∷ decimal drained.noop_duplicate
    ∷ "   parked "
    ∷ decimal drained.parked
    ∷ "   dead_lettered "
    ∷ decimal drained.dead_lettered
    ∷ [])

module _ {Text : Type 0} where
  -- The three lines below RECEIPT, of so many deliveries.
  abbrev pub receipt_lines : ℕ → Outcome Text → List String
  receipt_lines n o =
      concat ("  deliveries    " ∷ decimal n ∷ [])
      ∷ concat (
          "  accepted      "
          ∷ decimal (o.receipts.new + o.receipts.lease_reclaimed)
          ∷ "   duplicate "
          ∷ decimal o.receipts.duplicate
          ∷ "   in_progress "
          ∷ decimal o.receipts.in_progress
          ∷ [])
      ∷ concat (
          "  rejected      "
          ∷ decimal (o.receipts.signature_invalid + o.receipts.stale_timestamp)
          ∷ "   (signature "
          ∷ decimal o.receipts.signature_invalid
          ∷ ", replay "
          ∷ decimal o.receipts.stale_timestamp
          ∷ ")"
          ∷ [])
      ∷ []

  -- What `_demo` prints.
  unfoldable pub demo_lines :
      String → ℤ → List BreakMode → Bool → String → String → ℕ → Outcome Text → List String
  demo_lines scenario seed modes http db_path log_path n o =
      ("QUIDZ demo"
        ∷ concat ("  scenario      " ∷ scenario ∷ [])
        ∷ concat ("  seed          " ∷ int_text seed ∷ [])
        ∷ concat ("  breaks        " ∷ modes_text modes ∷ [])
        ∷ concat ("  transport     " ∷ transport_text http ∷ [])
        ∷ concat ("  database      " ∷ db_path ∷ [])
        ∷ concat ("  delivery log  " ∷ log_path ∷ [])
        ∷ ""
        ∷ "RECEIPT"
        ∷ receipt_lines n o)
      ++ ((""
            ∷ "DRAIN"
            ∷ concat (drained_text o.drained ∷ "   retried " ∷ decimal o.drained.retried ∷ [])
            ∷ ""
            ∷ o.ledger)
          ++ (("" ∷ report_lines o.report o.decision) ++ ("" ∷ counter_lines o.report)))

-- What `_reconcile` prints.
unfoldable pub reconcile_lines : ExceptionReport × GateDecision → List String
reconcile_lines (report, decision) = report_lines report decision ++ ("" ∷ counter_lines report)

abbrev pub state_or_absent : Option String → String
state_or_absent none = "absent"
state_or_absent (some status) = status

-- The line of a payment that the log and the replay disagree about.
abbrev pub mismatch_line : String → String → String → List String
mismatch_line payment_id want got =
    if str_eq want got
    then []
    else concat ("  " ∷ ljust 22 " " payment_id ∷ "log " ∷ ljust 20 " " want ∷ "replay " ∷ got ∷ [])
      ∷ []

abbrev pub mismatches : List (String × String) → List (String × String) → List String → List String
mismatches expected final [] = []
mismatches expected final (i ∷ ids) =
    mismatch_line i (state_or_absent (state_of expected i)) (state_or_absent (state_of final i))
    ++ mismatches expected final ids

-- The payments of either side that differ, in order.
unfoldable pub mismatch_lines : List (String × String) → List (String × String) → List String
mismatch_lines expected final =
    mismatches expected final (sorted_set (map (λ p. p.0) expected ++ map (λ p. p.0) final))

-- What `_replay` prints before the assertion.
unfoldable pub replay_lines : String → ℕ → DrainReport → List String → List String
replay_lines file n drained ledger =
    "QUIDZ replay"
    ∷ concat ("  log           " ∷ file ∷ [])
    ∷ concat ("  deliveries    " ∷ decimal n ∷ [])
    ∷ drained_text drained
    ∷ ""
    ∷ ledger
