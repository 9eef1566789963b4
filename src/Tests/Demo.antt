-- ===== src/Tests/Demo.antt =====
-- A demonstration with a small generator (src/quidz/cli.py).
use Prim.Native.Char.{code}
use quidz.Text.{decimal}
use quidz.Text.Numbers.{number, number-decimal}
use mathlib.Core.Bool.{false≢true}
use quidz.Prelude.{
  Bool, true, false, ap, Option, if◌then◌else◌, ◌==◌, String, ◌≡◌, refl, none, some, List, [], ◌∷◌,
  length, ◌+◌,
}
use quidz.Prelude.Int.{ℤ, pos, negsuc}
use quidz.Errors.{Result, ok, raise}
use quidz.Python.{
  Python, get, Value, Fields, Items, null, int, float, str, obj, arr, end, field, nil, cons,
}
use quidz.Store.{Connection, Payment, Db, empty}
use quidz.Store.Transactions.{closed}
use quidz.Cli.{done, SnapshotFile, exit_code, reconciled, reconcile_command}
use quidz.Cli.Log.{Codec}
use quidz.Cli.Receipt.{empty_tally, Intake}
use quidz.Sim.{Delivery}
use quidz.Sim.Batches.{deliveries}
use quidz.Inbox.Drain.{no_report}
use quidz.App.{reconcile_report}
use quidz.Cli.Snapshot.{Json, parse_snapshot}
use quidz.Model.{PaymentState, opened}
use quidz.Money.{validate_currency}
use quidz.Ledger.Priced.{IsCurrency, AllPriced}
use quidz.Inbox.Drain.{drain}
use quidz.Inbox.{payload_of, identity_of}
use quidz.Inbox.Receive.{signature_of}
use quidz.Dlq.{is_instance}
use quidz.Events.{require_str}
use quidz.Signatures.{verify_stripe, verify_adyen}
use quidz.Cli.Demo.Listed.{drain-ledger_lines}
use quidz.Cli.Listing.{ledger_lines}
use quidz.Cli.Demo.{Outcome, run_demo}
use quidz.Cli.Demo.Reproduced.{ReadsSnapshots, run_demo-reconciled}
use quidz.Sim.Deliveries.{Signer}
use quidz.Tests.Sim.{rng, signer}
use quidz.Tests.Log.{codec}
use quidz.Samples.{python, random, policy, inbox, crypto}

-- Stripe's signatures are stale, and Adyen's are the digest.
abbrev pub provider : Signer
provider = record signer { crypto = record crypto { b64decode = λ _. some (1 ∷ []) } }

-- A float reads back by its sign and its digits.
abbrev float_text : ℤ → String
float_text (pos n) = String.◌∷◌ "+" (decimal n)
float_text (negsuc n) = String.◌∷◌ "-" (decimal n)

abbrev signed : String → Option ℤ
signed String.[] = none
signed (String.◌∷◌ c s) = if code c == b'+' then some (pos (number s)) else some (negsuc (number s))

abbrev to_float : Value → Option ℤ
to_float (float s) = signed s
to_float _ = none

-- A document is its own text.
abbrev pub json : Json
json = record {
  Text = Fields;
  dumps = λ fs. fs;
  loads = λ fs. ok (obj fs);
  float_text = float_text;
  to_float = to_float;
}

float_text-signed : (t : ℤ) → to_float (float (float_text t)) ≡ some t
float_text-signed (pos n) = ap (λ m. some (pos m)) (number-decimal n)
float_text-signed (negsuc n) = ap (λ m. some (negsuc m)) (number-decimal n)

reads : ReadsSnapshots python random rng provider (λ _. "2026-08-19") codec json (pos 0) "happy"
reads = record { floats = record { same = float_text-signed }; documents = λ as_of remote. refl }

abbrev outcome_of : Result (Outcome Fields) → Outcome Fields
outcome_of (ok o) = o
outcome_of (raise _) = record {
  receipts = empty_tally;
  drained = no_report;
  report = record {
    generated_at = pos 0;
    findings = [];
    counts_by_severity = λ _. 0;
    counters = [];
  };
  decision = record {
    outbound_blocked = true;
    ingest_blocked = false;
    blocked_ids = [];
    suppressed_by = none;
    rationale = "";
  };
  ledger = [];
  log = [];
  snapshot = end;
}

abbrev shown : Result (Outcome Fields) × Connection
shown =
    run_demo python random rng provider (λ _. "2026-08-19") codec json (pos 0) "happy" []
      (closed empty)

abbrev pub is_ok : {A : Type 0} → Result A → Bool
is_ok (ok _) = true
is_ok (raise _) = false

ok-outcome_of :
    (p : Result (Outcome Fields) × Connection) → is_ok p.0 ≡ true → p ≡ (ok (outcome_of p.0), p.1)
ok-outcome_of (ok o, conn) h = refl
ok-outcome_of (raise e, conn) h = absurd (false≢true h)

shows : is_ok shown.0 ≡ true
unfolding quidz.Sim.book_payment quidz.Sim.build_book quidz.Sim.Batches.payment_deliveries
    quidz.Sim.Batches.build_deliveries quidz.Sim.Batches.deliveries
    quidz.Sim.Deliveries.signature_header quidz.Sim.Deliveries.stripe_delivery
    quidz.Sim.Deliveries.adyen_delivery quidz.Cli.store_settlement quidz.Cli.run_reconcile
    quidz.Cli.Listing.ledger_lines run_demo quidz.Cli.Receipt.receive_in_process
    quidz.Cli.Log.write_log quidz.Inbox.delivery_key quidz.Inbox.claim_body quidz.Inbox.claim
    quidz.Inbox.identity_of quidz.Inbox.payload_of quidz.Inbox.decode
    quidz.Inbox.Receive.receive_stripe quidz.Inbox.Receive.receive_adyen quidz.Inbox.Drain.settle
    quidz.Inbox.Drain.due_rows quidz.Inbox.Drain.process quidz.Inbox.Drain.drain_row
    quidz.Inbox.Drain.drain_rows quidz.Inbox.Drain.drain quidz.Inbox.Idle.rounds
    quidz.Inbox.Idle.drain_until_idle quidz.Inbox.Parked.parked_rows
    quidz.Inbox.Parked.parked_events quidz.Metrics.bump quidz.Signatures.header
    quidz.Signatures.canonical_timestamp quidz.Signatures.parse_stripe_signature_header
    quidz.Signatures.verify_stripe quidz.Signatures.verify_adyen quidz.Dlq.classify_by
    quidz.Store.write_tx quidz.Store.savepoint quidz.Store.insert_effect quidz.Store.upsert_payment
    quidz.Store.insert_delivery quidz.Events.require_str quidz.Events.require_int
    quidz.Events.adyen_kind quidz.Events.adyen_success quidz.Events.adyen_moment
    quidz.Events.adyen_amount quidz.Events.from_adyen quidz.Ledger.load_payment
    quidz.Ledger.apply_to quidz.Ledger.apply_delivery quidz.Ledger.Listing.list_payments
    quidz.Model.status_text quidz.Model.derive_status quidz.Model.state_rank
    quidz.Model.amount_minor quidz.Model.check_order quidz.Model.check_amounts
    quidz.Model.check_single quidz.Model.fold quidz.Model.apply_effect quidz.Money.validate_currency
    quidz.Money.make_money quidz.Money.exponent quidz.Money.format_major quidz.Python.get
shows = refl

run_demo-reconciled_example :
    (file : SnapshotFile) × (parse_snapshot json (outcome_of shown.0).snapshot ≡ some file)
    × (reconciled python (some shown.1.db) file none
        ≡ done ((outcome_of shown.0).report, (outcome_of shown.0).decision))
    × (reconcile_command python (some shown.1.db) file none none
        ≡ done (exit_code none ((outcome_of shown.0).report, (outcome_of shown.0).decision)))
    × (reconcile_report python file shown.1.db
        ≡ ok (200, some ((outcome_of shown.0).report, (outcome_of shown.0).decision)))
run_demo-reconciled_example =
    run_demo-reconciled python random rng provider (λ _. "2026-08-19") codec json (pos 0) "happy" []
      (closed empty) none reads (ok-outcome_of shown shows)

abbrev euros : PaymentState
euros = record (opened "pay0" "EUR") {
  authorized_minor = pos 1250;
  captured_minor = pos 1250;
  rank = 40;
}

abbrev stored : Db
stored = record inbox { payments = record { state = euros; updated_at = pos 1 } ∷ [] }

is_currency : IsCurrency "EUR"
unfolding validate_currency
is_currency = record { valid = refl }

drain-ledger_lines_example :
    let after = (drain python random 2 policy 10 none (closed stored)).1.db in
    AllPriced after.payments
    × ((lines : List String) × (ledger_lines after ≡ ok lines)
        × (length lines ≡ length after.payments + 2))
drain-ledger_lines_example =
    drain-ledger_lines python random 2 policy 10 none stored (is_currency, tt) refl
