-- ===== src/Reconcile/Render.antt =====
-- The two renderings of a report (`to_json` and `to_text` of src/quidz/reconcile.py). `json.dumps`
-- with sorted keys is a parameter, and so is the `repr` of the float that a time stands for; a float
-- is rounded from the exact number of ticks.
use quidz.Prelude.{
  ℕ, suc, ◌*◌, String, str_eq, Bool, true, false, Option, none, some, List, [], ◌∷◌, map, length,
  if◌then◌else◌,
}
use quidz.Prelude.Int.{ℤ, pos, negsuc, ◌-ℤ◌}
use quidz.Python.{
  Value, Fields, Items, null, bool, int, float, str, obj, arr, end, field, nil, cons,
}
use quidz.Text.{decimal, int_text, concat, join, ljust, rjust}
use quidz.Reconcile.{
  Severity, info, warn, break, critical, Direction, aligned, local_ahead, remote_ahead, BreakGlass,
  Evidence, Finding,
}
use quidz.Reconcile.Settlement.{round_half_even}
use quidz.Reconcile.Report.{ExceptionReport, kind_text}
use quidz.Reconcile.Gate.{GateDecision}

-- `str(severity)`, and `str(severity).upper()`.
abbrev pub severity_text : Severity → String
severity_text info = "info"
severity_text warn = "warn"
severity_text break = "break"
severity_text critical = "critical"

abbrev pub severity_upper : Severity → String
severity_upper info = "INFO"
severity_upper warn = "WARN"
severity_upper break = "BREAK"
severity_upper critical = "CRITICAL"

abbrev pub direction_text : Direction → String
direction_text aligned = "none"
direction_text local_ahead = "local_ahead"
direction_text remote_ahead = "remote_ahead"

abbrev pub or_null {ℓ} : {A : Type ℓ} → (A → Value) → Option A → Value
or_null write none = null
or_null write (some a) = write a

-- `dict(evidence)`
abbrev pub evidence_json : Evidence → Value
evidence_json (Evidence.vector authorized captured refunded) = obj (
    field "authorized_minor" (int authorized)
      (field "captured_minor" (int captured) (field "refunded_minor" (int refunded) end)))
evidence_json (Evidence.status s) = obj (field "status" (str s) end)
evidence_json (Evidence.settled net journal_type) =
    obj (field "net_minor" (int net) (field "journal_type" (str journal_type) end))
evidence_json (Evidence.captured captured) = obj (field "captured_minor" (int captured) end)
evidence_json (Evidence.net_and_fee net fee) =
    obj (field "net_minor" (int net) (field "fee_minor" (int fee) end))

-- `round(age_seconds, 3)`, in ticks.
abbrev pub to_milliseconds : ℤ → ℤ
to_milliseconds (pos n) = pos (round_half_even n 1000 * 1000)
to_milliseconds (negsuc n) = pos 0 -ℤ pos (round_half_even (suc n) 1000 * 1000)

abbrev pub texts_json : List String → Items
texts_json [] = nil
texts_json (s ∷ ss) = cons (str s) (texts_json ss)

abbrev pub counters_json : List (String × ℤ) → Fields
counters_json [] = end
counters_json ((name, value) ∷ rest) = field name (int value) (counters_json rest)

-- `{str(k): v for k, v in report.counts_by_severity.items()}`
abbrev pub counts_json : (Severity → ℕ) → Fields
counts_json counts = field "info" (int (pos (counts info))) (
    field "warn" (int (pos (counts warn))) (
      field "break" (int (pos (counts break)))
        (field "critical" (int (pos (counts critical))) end)))

module _ (float_text : ℤ → String) where
  -- `_finding_json`
  unfoldable pub finding_json : Finding → Fields
  finding_json f = field "kind" (str (kind_text f.kind)) (
      field "severity" (str (severity_text f.severity)) (
        field "direction" (str (direction_text f.direction)) (
          field "payment_id" (or_null str f.payment_id) (
            field "provider_ref" (or_null str f.provider_ref) (
              field "local" (or_null evidence_json f.local) (
                field "remote" (or_null evidence_json f.remote) (
                  field "delta_minor" (or_null int f.delta_minor) (
                    field "currency" (or_null str f.currency) (
                      field "age_seconds"
                        (or_null (λ age. float (float_text (to_milliseconds age))) f.age_seconds)
                        (field "detail" (str f.detail) end))))))))))

  abbrev pub findings_json : List Finding → Items
  findings_json [] = nil
  findings_json (f ∷ fs) = cons (obj (finding_json f)) (findings_json fs)

  abbrev pub glass_json : BreakGlass → Value
  glass_json glass = obj (
      field "approver" (str glass.approver) (
        field "reason" (str glass.reason) (
          field "expires_at" (float glass.expires_text)
            (field "scope_ids" (arr (texts_json glass.scope_ids)) end))))

  abbrev pub gate_json : GateDecision → Fields
  gate_json decision = field "outbound_blocked" (bool decision.outbound_blocked) (
      field "ingest_blocked" (bool decision.ingest_blocked) (
        field "blocked_ids" (arr (texts_json decision.blocked_ids)) (
          field "rationale" (str decision.rationale)
            (field "suppressed_by" (or_null glass_json decision.suppressed_by) end))))

  unfoldable pub payload : ExceptionReport → GateDecision → Fields
  payload report decision = field "generated_at" (float (float_text report.generated_at)) (
      field "counts_by_severity" (obj (counts_json report.counts_by_severity)) (
        field "counters" (obj (counters_json report.counters)) (
          field "findings" (arr (findings_json report.findings))
            (field "gate" (obj (gate_json decision)) end))))

  unfoldable pub to_json : (Fields → String) → ExceptionReport → GateDecision → String
  to_json dumps report decision = dumps (payload report decision)

-- `f"{seconds:.0f}"`, of ticks.
abbrev pub rounded_text : ℤ → String
rounded_text (pos n) = decimal (round_half_even n 1000000)
rounded_text (negsuc n) = concat ("-" ∷ decimal (round_half_even (suc n) 1000000) ∷ [])

abbrev pub count_text : ExceptionReport → Severity → String
count_text report s = concat (severity_upper s ∷ "=" ∷ decimal (report.counts_by_severity s) ∷ [])

abbrev pub blocked_text : Bool → String
blocked_text true = "BLOCKED"
blocked_text false = "open"

-- `text or other`
abbrev pub or_text : String → String → String
or_text text other = if str_eq text "" then other else text

abbrev pub option_or : Option String → String → String
option_or none other = other
option_or (some text) other = or_text text other

abbrev pub delta_text : Option ℤ → String
delta_text none = "-"
delta_text (some delta) = int_text delta

abbrev pub direction_suffix : Direction → String
direction_suffix aligned = ""
direction_suffix local_ahead = " [local_ahead]"
direction_suffix remote_ahead = " [remote_ahead]"

-- The line of a finding.
unfoldable pub finding_line : Finding → String
finding_line f = concat (
    "  "
    ∷ ljust 9 " " (severity_upper f.severity)
    ∷ ljust 26 " " (kind_text f.kind)
    ∷ ljust 18 " " (option_or f.payment_id (option_or f.provider_ref "-"))
    ∷ rjust 10 " " (delta_text f.delta_minor)
    ∷ "  "
    ∷ f.detail
    ∷ direction_suffix f.direction
    ∷ [])

abbrev pub heading : String
heading = concat (
    "  "
    ∷ ljust 9 " " "SEVERITY"
    ∷ ljust 26 " " "KIND"
    ∷ ljust 18 " " "PAYMENT"
    ∷ rjust 10 " " "DELTA"
    ∷ "  DETAIL"
    ∷ [])

-- `if report.findings`
abbrev pub table_lines : List Finding → List String
table_lines [] = []
table_lines (f ∷ fs) = "" ∷ heading ∷ map finding_line (f ∷ fs)

unfoldable pub report_lines : ExceptionReport → GateDecision → List String
report_lines report decision =
    "EXCEPTION REPORT"
    ∷ concat ("  generated_at  " ∷ rounded_text report.generated_at ∷ [])
    ∷ concat (
        "  findings      "
        ∷ decimal (length report.findings)
        ∷ "  ("
        ∷ join " " (map (count_text report) (critical ∷ break ∷ warn ∷ info ∷ []))
        ∷ ")"
        ∷ [])
    ∷ concat ("  outbound      " ∷ blocked_text decision.outbound_blocked ∷ [])
    ∷ concat ("  ingest        " ∷ blocked_text decision.ingest_blocked ∷ [])
    ∷ concat ("  blocked_ids   " ∷ or_text (join ", " decision.blocked_ids) "-" ∷ [])
    ∷ concat ("  rationale     " ∷ decision.rationale ∷ [])
    ∷ table_lines report.findings

unfoldable pub to_text : ExceptionReport → GateDecision → String
to_text report decision = join "\n" (report_lines report decision)
