-- ===== src/Lib.antt =====
-- Verification of quidz, a payment ledger fed by webhooks (src/quidz).
--
-- A delivery of a provider is verified and claimed into the inbox under a lease. A drain decodes
-- each due delivery into one canonical event and applies it to the ledger, in a transaction of
-- its own: the event becomes an effect row, and is folded into the aggregate of its payment.
-- What fails is classified, and retried with jittered backoff or dead lettered. The reconciler
-- compares ledger, provider and settlement, and the gate decides from its findings whether money
-- may leave. The application puts the inbox and the report behind routes, and the commands run all
-- of it over deliveries that a simulator signs.
--
-- Which file models which part:
--   Errors              the exceptions of the package, and computations that raise them
--   Kind, Event         EffectKind and its tables (src/quidz/model.py); Money, Provider and
--                       CanonicalEvent (src/quidz/money.py, src/quidz/events.py)
--   Text                the formats that Python's texts use: str() of a number, padding, slices and
--                       join; Text/Numbers and Text/Padding hold what their digits are worth
--   Money               validation, exponents, add and sub of src/quidz/money.py, and format_major;
--                       Money/Format is about its digits
--   Prelude             the names, operators and lemmas that the components share
--   Python              JSON values, and the functions of Python's library as parameters
--   Events              from_stripe, from_adyen and their helpers (src/quidz/events.py)
--   Model               PaymentState, derive_status and apply_effect (src/quidz/model.py); below it
--                       Bounds, Ranks, Totals, Order and Guards hold what the transitions keep
--   Store               the tables, the statements, write_tx and the savepoint
--                       (src/quidz/store.py, and the SQL of src/quidz/ledger.py and inbox.py)
--   Metrics             the counters of src/quidz/metrics.py
--   Ledger              apply_delivery of src/quidz/ledger.py; Once is about one delivery, History
--                       about the effect rows as the history of the aggregates, Priced about the
--                       currencies that the adapters let through and the tables hold
--   Dlq                 classify, should_retry and next_delay of src/quidz/dlq.py
--   Signatures          verify_stripe, verify_adyen and what they sign (src/quidz/verify.py);
--                       Signatures/Authentic is about the parts of a Stripe header
--   Inbox, Inbox/Drain  claim, park, decode, drain and _settle of src/quidz/inbox.py; Inbox/Keyed is
--                       about the keys and the bodies of the stored deliveries, Drain/Touches and
--                       Drain/Keeps about what a drain leaves alone, Drain/Budget about its stored
--                       retry budget
--   Inbox/Receive       receive_stripe and receive_adyen of src/quidz/inbox.py
--   Reconcile           findings, severities and policies of src/quidz/reconcile.py
--   Reconcile/Pair      _compare_pair; Reconcile/Payments _reconcile_events;
--                       Reconcile/Settlement _reconcile_settlement; Reconcile/Report reconcile
--   Reconcile/Details   the sentences of the findings; Reconcile/Render is to_json and to_text
--   Reconcile/Gate      gate and _exposure_by_currency of src/quidz/reconcile.py
--   Inbox/Idle          drain_until_idle of src/quidz/inbox.py; Inbox/Parked is parked_events,
--                       with Fitting about the bodies that it can always list
--   Clock               the clock's protocol and FakeClock (src/quidz/clock.py)
--   Ledger/Listing      list_payments and list_settlement_rows of src/quidz/ledger.py
--   Ledger/Books        the abstract ledger that apply_delivery implements
--   App                 the webhooks, the report route and healthz of src/quidz/app.py
--   Cli                 main, _reconcile, _run_reconcile and _store_settlement of src/quidz/cli.py;
--                       Cli/Receipt is _receive_in_process, Cli/Listing _ledger_lines, Cli/Log the
--                       delivery log (_write_log and _read_log), Cli/Replay its replay (_replay),
--                       Cli/Snapshot the snapshot (_write_snapshot and _read_snapshot), Cli/Demo
--                       the demonstration in process (_demo), with Ended and Reproduced below it,
--                       and Cli/Output the lines that the commands print
--   Sim                 the plan and the book of src/quidz/sim.py; Sim/Reports holds its payment list
--                       and settlement file, Sim/Deliveries how it signs, Sim/Batches what it sends
--                       and the break modes
--   Samples, Tests      small inputs, and the theorems at them
--
-- Conventions of the model:
--   Code that raises returns a Result whose exception is named by its class. A function that writes
--   the database takes it and returns it (Exec); what it wrote before an exception is still there
--   until the savepoint or the transaction around it rolls back.
--   A table is the list of its rows in the order of insertion. An insert that violates a primary
--   key, a unique constraint or a foreign key raises integrity_error and writes nothing.
--   Amounts are unbounded integers, as in Python; the 64 bits of an SQLite column are not modelled.
--   Times are whole ticks, 10^6 to the second, and a clock's reading is an argument (now).
--   The float of an integer is that integer, in ticks, and OverflowError where it is too large.
--   Limits, attempts and budgets of a policy are natural numbers, and its durations ticks.
--   The loops run over lists that are fixed when they start, so no fuel is needed; the one loop that
--   waits, drain_until_idle, has the source's own bound, max_passes.
--   A receipt reads the clock once, where receive_stripe reads it for the signature and again for the
--   claim. The simulator's clock starts later than its oldest payment, four days.
--
-- Not modelled: the texts of the exceptions; failures of SQLite itself (busy, disk full) and
-- concurrent connections inside one transaction, since BEGIN IMMEDIATE serialises the writers; the
-- JSON encoding of the headers column; rounding of floats, where round() of a fee is taken of the
-- exact quotient; the texts of the webhooks' responses; argument parsing, and the reading and writing
-- of files and paths, of which the contents are modelled, over parameters for JSON, base64 and the
-- repr of a float; a snapshot whose payments have fields of the wrong type; the HTTP client of the
-- demonstration (_receive_over_http), whose tally reads the texts of exceptions; connect and
-- init_schema.
pub mod Prelude
pub mod Tests
pub mod Samples
pub mod Errors
pub mod Kind
pub mod Event
pub mod Money
pub mod Python
pub mod Events
pub mod Model
pub mod Store
pub mod Metrics
pub mod Ledger
pub mod Dlq
pub mod Signatures
pub mod Text
pub mod Clock
pub mod App
pub mod Cli
pub mod Sim
pub mod Inbox
pub mod Reconcile
