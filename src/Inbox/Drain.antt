-- ===== src/Inbox/Drain.antt =====
-- The queue behind the front door: drain, settle, retry or dead letter (src/quidz/inbox.py).
pub mod Steps
pub mod Budget
pub mod Totals
pub mod Decoded
pub mod Touches
pub mod Keeps
pub mod Poison
use quidz.Prelude.{
  ℕ, zero, suc, ◌+◌, ◌-◌, ◌*◌, ◌/◌, String, str_eq, Bool, true, false, not, ◌&&◌, ◌||◌, Option,
  none, some, List, [], ◌∷◌, map, keep, take, ltb, leb, min, max, ◌==◌, if◌then◌else◌,
}
use quidz.Prelude.Int.{ℤ, pos, ◌+ℤ◌, eqb_ℤ}
use quidz.Prelude.Order.{sort_by, str_leb}
use quidz.Errors.{Exn, Result, ok, raise}
use quidz.Event.{Provider, CanonicalEvent}
use quidz.Python.{Python}
use quidz.Events.{ticks_per_second}
use quidz.Store.{
  DeliveryState, Delivery, Db, Connection, Exec, lift, modify, ◌>>=◌, ◌>>◌, write_tx,
  update_delivery, get_counter, upsert_counter,
}
use quidz.Metrics.{bump}
use quidz.Ledger.{ApplyOutcome, apply_delivery}
use quidz.Dlq.{ReasonCode, RetryPolicy, Random, classify, should_retry, next_delay, jitter_source}
use quidz.Inbox.{same_state, decode}

pub record DrainReport : Type 0 where
  pub applied : ℕ
  pub noop_duplicate : ℕ
  pub parked : ℕ
  pub dead_lettered : ℕ
  pub retried : ℕ

-- `DrainReport()` and the reports of one delivery.
abbrev pub no_report : DrainReport
no_report = record { applied = 0; noop_duplicate = 0; parked = 0; dead_lettered = 0; retried = 0 }

abbrev pub one_applied : DrainReport
one_applied = record no_report { applied = 1 }

abbrev pub one_duplicate : DrainReport
one_duplicate = record no_report { noop_duplicate = 1 }

abbrev pub one_parked : DrainReport
one_parked = record no_report { parked = 1 }

abbrev pub one_dead_lettered : DrainReport
one_dead_lettered = record no_report { dead_lettered = 1 }

abbrev pub one_retried : DrainReport
one_retried = record no_report { retried = 1 }

abbrev pub total : DrainReport → ℕ
total r = r.applied + r.noop_duplicate + r.parked + r.dead_lettered + r.retried

abbrev pub merge : DrainReport → DrainReport → DrainReport
merge a b = record {
  applied = a.applied + b.applied;
  noop_duplicate = a.noop_duplicate + b.noop_duplicate;
  parked = a.parked + b.parked;
  dead_lettered = a.dead_lettered + b.dead_lettered;
  retried = a.retried + b.retried;
}

-- `int(now // 60)`
abbrev pub minute_of : ℕ → ℤ
minute_of now = pos (now / (60 * ticks_per_second))

abbrev pub counter_is : Option ℤ → ℤ → Bool
counter_is none v = false
counter_is (some c) v = eqb_ℤ c v

abbrev pub counter_or_zero : Option ℤ → ℤ
counter_or_zero none = pos 0
counter_or_zero (some c) = c

-- `_budget_used`
unfoldable pub budget_used : Db → ℕ → ℤ
budget_used db now =
    if counter_is (get_counter "retry_budget_minute" db.counters) (minute_of now)
    then counter_or_zero (get_counter "retry_budget_used" db.counters)
    else pos 0

abbrev pub set_counter : String → ℤ → Db → Db
set_counter name value db = record db {
  counters = upsert_counter name value (λ _. value) db.counters;
}

-- `_record_budget`
unfoldable pub record_budget : ℕ → ℤ → Db → Db
record_budget now used db =
    set_counter "retry_budget_used" used (set_counter "retry_budget_minute" (minute_of now) db)

-- The UPDATEs of `_settle`.
abbrev pub set_parked : ℕ → Delivery → Delivery
set_parked until d = record d {
  state = DeliveryState.parked;
  parked_until = some until;
  lease_expires_at = none;
}

abbrev pub set_duplicate : Delivery → Delivery
set_duplicate d = record d {
  state = DeliveryState.duplicate;
  lease_expires_at = none;
  next_attempt_at = none;
}

abbrev pub set_applied : Delivery → Delivery
set_applied d = record d {
  state = DeliveryState.applied;
  parked_until = none;
  lease_expires_at = none;
  next_attempt_at = none;
}

-- `_settle`
unfoldable pub settle : String → DeliveryState → ApplyOutcome → ℕ → RetryPolicy → Exec DrainReport
settle delivery_id was ApplyOutcome.parked now policy = do
  modify (update_delivery delivery_id (set_parked (now + policy.base_seconds)))
  if same_state was DeliveryState.parked
      then lift (ok no_report)
      else do bump "parked" (pos 1); lift (ok one_parked)
settle delivery_id was ApplyOutcome.noop_duplicate now policy = do
  modify (update_delivery delivery_id set_duplicate)
  bump "deduped" (pos 1)
  lift (ok one_duplicate)
settle delivery_id was _ now policy = do
  modify (update_delivery delivery_id set_applied)
  bump "applied" (pos 1)
  lift (ok one_applied)

abbrev pub due_at : Option ℕ → ℕ → Bool
due_at none now = true
due_at (some t) now = leb t now

-- `state IN (claimed, parked)`
abbrev pub waiting : Delivery → Bool
waiting d = same_state d.state DeliveryState.claimed || same_state d.state DeliveryState.parked

abbrev pub is_due : ℕ → Delivery → Bool
is_due now d = waiting d && (due_at d.next_attempt_at now && due_at d.parked_until now)

-- ORDER BY received_at, delivery_id
abbrev pub earlier : Delivery → Delivery → Bool
earlier a b =
    ltb a.received_at b.received_at
    || (a.received_at == b.received_at && str_leb a.delivery_id b.delivery_id)

-- The SELECT of the due deliveries.
unfoldable pub due_rows : ℕ → ℕ → Db → List Delivery
due_rows now limit db = take limit (sort_by earlier (keep (is_due now) db.deliveries))

-- The UPDATEs of the two ways that a failure ends.
abbrev pub set_retry : ℕ → ℕ → String → Delivery → Delivery
set_retry attempts at code d = record d {
  state = DeliveryState.claimed;
  attempts = attempts;
  next_attempt_at = some at;
  reason_code = some code;
  lease_expires_at = none;
}

abbrev pub set_dead_lettered : ℕ → String → Delivery → Delivery
set_dead_lettered attempts code d = record d {
  state = DeliveryState.dead_lettered;
  attempts = attempts;
  reason_code = some code;
  next_attempt_at = none;
  lease_expires_at = none;
}

module _ (python : Python) (random : Random) where
  open random use {Gen}

  -- What a pass carries from one delivery to the next: the generator, the budget and the report.
  pub record Pass : Type 0 where
    pub rng : Gen
    pub used : ℤ
    pub report : DrainReport

  -- The first transaction: decode, apply and settle.
  unfoldable pub process : Delivery → ℕ → RetryPolicy → Exec DrainReport
  process row now policy = do
    event ← lift (decode python row.provider row.raw)
    outcome ← apply_delivery row.delivery_id event
    settle row.delivery_id row.state outcome now policy

  -- The body of the second transaction, once the delay is drawn.
  abbrev reschedule : Delivery → ℕ → ReasonCode → Pass → Result (ℕ × Gen) → Exec Pass
  reschedule row now reason p (raise e) db = (raise e, db)
  reschedule row now reason p (ok (delay, rng)) db = (
    ok (record { rng = rng; used = p.used +ℤ pos 1; report = merge p.report one_retried }),
    record_budget now (p.used +ℤ pos 1) (
        update_delivery row.delivery_id (set_retry (row.attempts + 1) (now + delay) reason.code)
          db),
  )

  unfoldable pub retry : Delivery → ℕ → RetryPolicy → ReasonCode → Pass → Exec Pass
  retry row now policy reason p =
      reschedule row now reason p (next_delay random policy (pos (row.attempts + 1)) p.rng)

  unfoldable pub dead_letter : Delivery → ReasonCode → Pass → Exec Pass
  dead_letter row reason p = do
    modify (update_delivery row.delivery_id (set_dead_lettered (row.attempts + 1) reason.code))
    bump "dead_lettered" (pos 1)
    lift (ok (record p { report = merge p.report one_dead_lettered }))

  -- The handler of an exception from the first transaction.
  unfoldable pub handle :
      Delivery → ℕ → RetryPolicy → Exn → Pass → Connection → Result Pass × Connection
  handle row now policy exc p conn =
      let reason = classify exc in
      if should_retry policy reason (row.attempts + 1) p.used
      then write_tx (retry row now policy reason p) conn
      else write_tx (dead_letter row reason p) conn

  abbrev pub processed :
      Delivery → ℕ → RetryPolicy → Pass → Result DrainReport × Connection → Result Pass × Connection
  processed row now policy p (ok report, conn) =
      (ok (record p { report = merge p.report report }), conn)
  processed row now policy p (raise exc, conn) = handle row now policy exc p conn

  -- One round of the loop of `drain`.
  unfoldable pub drain_row :
      Delivery → ℕ → RetryPolicy → Pass → Connection → Result Pass × Connection
  drain_row row now policy p conn =
      processed row now policy p (write_tx (process row now policy) conn)

  -- The loop; an exception from a handler leaves it.
  unfoldable pub drain_rows :
      List Delivery → ℕ → RetryPolicy → Result Pass × Connection → Result Pass × Connection
  drain_rows [] now policy r = r
  drain_rows (row ∷ rows) now policy (ok p, conn) =
      drain_rows rows now policy (drain_row row now policy p conn)
  drain_rows (row ∷ rows) now policy (raise e, conn) = (raise e, conn)

  abbrev pub generator : RetryPolicy → Option Gen → Gen
  generator policy none = jitter_source random policy
  generator policy (some rng) = rng

  unfoldable pub drain : ℕ → RetryPolicy → ℕ → Option Gen → Connection → Result Pass × Connection
  drain now policy limit rng conn = drain_rows (due_rows now limit conn.db) now policy (
    ok (record { rng = generator policy rng; used = budget_used conn.db now; report = no_report }),
    conn,
  )
