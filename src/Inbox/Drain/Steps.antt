-- ===== src/Inbox/Drain/Steps.antt =====
-- A drain on an idle connection as plain recursion: no exception leaves it.
use quidz.Prelude.{
  ℕ, ◌+◌, ◌*◌, ◌^◌, min, ◌≡◌, refl, Bool-cases, inl, inr, List, [], ◌∷◌, Option, if◌then◌else◌,
}
use quidz.Prelude.Int.{pos, ◌+ℤ◌}
use quidz.Errors.{Exn, Result, ok, raise}
use quidz.Python.{Python}
use quidz.Store.{Delivery, Db, Connection, close_tx, write_tx, update_delivery, upsert_counter}
use quidz.Store.Transactions.{closed}
use quidz.Metrics.{bump}
use quidz.Dlq.{RetryPolicy, Random, classify, should_retry, next_delay, ReasonCode}
use quidz.Inbox.Drain.{
  DrainReport, no_report, merge, one_retried, one_dead_lettered, set_retry, set_dead_lettered,
  record_budget, budget_used, Pass, process, processed, retry, dead_letter, handle, drain_row,
  drain_rows, due_rows, generator, drain,
}

module _ (python : Python) (random : Random) where
  open random use {Gen, uniform}

  -- The delay drawn for the next attempt of a row, and the generator afterwards.
  abbrev pub drawn : Delivery → RetryPolicy → Gen → ℕ × Gen
  drawn row policy rng =
      uniform rng (min policy.max_seconds (policy.base_seconds * 2 ^ (row.attempts + 1)))

  abbrev pub retried :
      Delivery → ℕ → RetryPolicy → ReasonCode → Pass python random → Db → Pass python random × Db
  retried row now policy reason p db = (
    record {
      rng = (drawn row policy p.rng).1;
      used = p.used +ℤ pos 1;
      report = merge p.report one_retried;
    },
    record_budget now (p.used +ℤ pos 1) (
        update_delivery row.delivery_id
          (set_retry (row.attempts + 1) (now + (drawn row policy p.rng).0) reason.code) db),
  )

  abbrev pub dead_lettered :
      Delivery → ReasonCode → Pass python random → Db → Pass python random × Db
  dead_lettered row reason p db = (
    record p { report = merge p.report one_dead_lettered },
    (let db' =
          update_delivery row.delivery_id (set_dead_lettered (row.attempts + 1) reason.code) db in
        record db' {
          counters = upsert_counter "dead_lettered" (pos 1) (λ v. v +ℤ pos 1) db'.counters;
        }),
  )

  abbrev pub failed :
      Delivery → ℕ → RetryPolicy → Exn → Pass python random → Db → Pass python random × Db
  failed row now policy exc p db =
      if should_retry policy (classify exc) (row.attempts + 1) p.used
      then retried row now policy (classify exc) p db
      else dead_lettered row (classify exc) p db

  abbrev pub settled :
      Delivery
      → ℕ
      → RetryPolicy
      → Pass python random
      → Db
      → Result DrainReport × Db
      → Pass python random × Db
  settled row now policy p db (ok report, db') = (record p { report = merge p.report report }, db')
  settled row now policy p db (raise exc, _) = failed row now policy exc p db

  -- One delivery of a pass.
  abbrev pub after_row :
      Delivery → ℕ → RetryPolicy → Pass python random → Db → Pass python random × Db
  after_row row now policy p db =
      settled row now policy p db (process python random row now policy db)

  abbrev pub after_rows :
      List Delivery → ℕ → RetryPolicy → Pass python random × Db → Pass python random × Db
  after_rows [] now policy s = s
  after_rows (row ∷ rows) now policy (p, db) =
      after_rows rows now policy (after_row row now policy p db)

  abbrev returned : Pass python random × Db → Result (Pass python random) × Connection
  returned (p, db) = (ok p, closed db)

  handle-eq :
      (row : Delivery) (now : ℕ) (policy : RetryPolicy) (exc : Exn) (p : Pass python random)
      (db : Db)
      → handle python random row now policy exc p (closed db)
        ≡ returned (failed row now policy exc p db)
  unfolding handle retry dead_letter next_delay bump write_tx
  handle-eq row now policy exc p db =
      elim (Bool-cases (should_retry policy (classify exc) (row.attempts + 1) p.used)) [
        | inl h ↦ rw h refl
        | inr h ↦ rw h refl
      ]

  processed-eq :
      (row : Delivery) (now : ℕ) (policy : RetryPolicy) (p : Pass python random) (db : Db)
      (q : Result DrainReport × Db)
      → processed python random row now policy p (close_tx db q)
        ≡ returned (settled row now policy p db q)
  processed-eq row now policy p db (ok report, db') = refl
  processed-eq row now policy p db (raise exc, db') = handle-eq row now policy exc p db

  pub drain_row-eq :
      (row : Delivery) (now : ℕ) (policy : RetryPolicy) (p : Pass python random) (db : Db)
      → drain_row python random row now policy p (closed db)
        ≡ returned (after_row row now policy p db)
  unfolding drain_row write_tx
  drain_row-eq row now policy p db =
      processed-eq row now policy p db (process python random row now policy db)

  drain_rows-eq :
      (rows : List Delivery) (now : ℕ) (policy : RetryPolicy) (s : Pass python random × Db)
      → drain_rows python random rows now policy (returned s)
        ≡ returned (after_rows rows now policy s)
  unfolding drain_rows
  drain_rows-eq [] now policy (p, db) = refl
  drain_rows-eq (row ∷ rows) now policy (p, db) =
      rw (drain_row-eq row now policy p db)
        (drain_rows-eq rows now policy (after_row row now policy p db))

  -- The pass that `drain` begins with.
  abbrev pub first_pass : ℕ → RetryPolicy → Option Gen → Db → Pass python random
  first_pass now policy rng db = record {
    rng = generator python random policy rng;
    used = budget_used db now;
    report = no_report;
  }

  -- On a connection with no open transaction a drain always returns a report, whatever decoding and
  -- applying raise, and leaves no transaction open: each due delivery in turn is settled, put off or
  -- dead lettered, and none stalls the deliveries behind it.
  pub drain_total :
      (now : ℕ) (policy : RetryPolicy) (limit : ℕ) (rng : Option Gen) (db : Db)
      → let (p, db') =
          after_rows (due_rows now limit db) now policy (first_pass now policy rng db, db) in
        drain python random now policy limit rng (closed db) ≡ (ok p, closed db')
  unfolding drain
  drain_total now policy limit rng db =
      drain_rows-eq (due_rows now limit db) now policy (first_pass now policy rng db, db)
