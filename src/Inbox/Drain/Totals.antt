-- ===== src/Inbox/Drain/Totals.antt =====
-- What the report of a drain counts: at most one outcome for each delivery, and retries inside the budget.
use quidz.Prelude.{
  ℕ, suc, ◌+◌, ◌≤◌, ◌≡◌, refl, ap, sym, ◌∙◌, Bool-cases, true, ◌⊎◌, inl, inr, List, [], ◌∷◌, length,
  length-take-le, Option, String, arith,
}
use quidz.Prelude.Int.{ℤ, pos, ◌+ℤ◌, ◌≤ℤ◌, ◌<ℤ◌, pos_part, neg_part, int_laws}
use mathlib.Core.Path.{subst}
use native.Mathlib.Nat.{add-zero}
use quidz.Errors.{Exn, Result, ok, raise, ok_value}
use quidz.Event.{CanonicalEvent}
use quidz.Python.{Python}
use quidz.Store.{DeliveryState, Delivery, Db, Connection, continue, ◌>>=◌}
use quidz.Store.Transactions.{closed}
use quidz.Metrics.{bump}
use quidz.Ledger.{ApplyOutcome, apply_delivery}
use quidz.Dlq.{RetryPolicy, Random, classify, should_retry, ReasonCode}
use quidz.Inbox.{decode}
use quidz.Inbox.Drain.{DrainReport, total, budget_used, Pass, process, settle, due_rows, drain}
use quidz.Inbox.Drain.Budget.{after_rows-budget}
use quidz.Inbox.Drain.Steps.{after_row, after_rows, settled, failed, first_pass, drain_total}

-- A report of one delivery: at most one count, and no retry.
abbrev pub IsSingle : DrainReport → Type 0
IsSingle r = (total r ≤ 1) × (r.retried ≡ 0)

abbrev pub SingleIf : Result DrainReport × Db → Type 0
SingleIf (ok r, _) = IsSingle r
SingleIf (raise _, _) = Unit

settle-single :
    (did : String) (was : DeliveryState) (o : ApplyOutcome) (now : ℕ) (policy : RetryPolicy)
    (db : Db)
    → SingleIf (settle did was o now policy db)
unfolding settle bump
settle-single did DeliveryState.parked ApplyOutcome.parked now policy db = ground arith
settle-single did _ ApplyOutcome.parked now policy db = ground arith
settle-single did was ApplyOutcome.noop_duplicate now policy db = ground arith
settle-single did was ApplyOutcome.applied now policy db = ground arith
settle-single did was ApplyOutcome.rejected now policy db = ground arith

module _ (python : Python) (random : Random) where
  applied-single :
      (row : Delivery) (now : ℕ) (policy : RetryPolicy) (q : Result ApplyOutcome × Db)
      → SingleIf (continue q (λ outcome. settle row.delivery_id row.state outcome now policy))
  applied-single row now policy (ok o, db) = settle-single row.delivery_id row.state o now policy db
  applied-single row now policy (raise e, db) = tt

  decoded-single :
      (row : Delivery) (now : ℕ) (policy : RetryPolicy) (db : Db) (e : Result CanonicalEvent)
      → SingleIf (
          continue
            (e, db)
            (λ event.
              ◌>>=◌
                (apply_delivery row.delivery_id event)
                (λ outcome. settle row.delivery_id row.state outcome now policy)))
  decoded-single row now policy db (ok e) =
      applied-single row now policy (apply_delivery row.delivery_id e db)
  decoded-single row now policy db (raise x) = tt

  process-single :
      (row : Delivery) (now : ℕ) (policy : RetryPolicy) (db : Db)
      → SingleIf (process python random row now policy db)
  unfolding process
  process-single row now policy db =
      decoded-single row now policy db (decode python row.provider row.raw)

  -- After `n` deliveries of a pass that began with `start` retries used in the minute.
  pub record IsCounted (policy : RetryPolicy) (start : ℤ) (n : ℕ) (p : Pass python random)
      : Type 0 where
    pub used_by : p.used ≡ start +ℤ pos p.report.retried
    pub within : (p.report.retried ≡ 0) ⊎ (p.used ≤ℤ pos policy.budget_per_minute)
    pub counted : total p.report ≤ n

  room_to_retry :
      (policy : RetryPolicy) (reason : ReasonCode) (attempt : ℕ) (used : ℤ)
      → should_retry policy reason attempt used ≡ true
      → used <ℤ pos policy.budget_per_minute
  unfolding should_retry
  room_to_retry policy reason attempt used h = ground arith

  count_retry :
      (start used : ℤ) (r : ℕ) → used ≡ start +ℤ pos r → used +ℤ pos 1 ≡ start +ℤ pos (r + 1)
  count_retry start used r h = omega (int_laws, ap pos_part h, ap neg_part h)

  failed-IsCounted :
      (row : Delivery) (now : ℕ) (policy : RetryPolicy) (exc : Exn) (start : ℤ) (n : ℕ)
      (p : Pass python random) (db : Db)
      → IsCounted policy start n p
      → IsCounted policy start (suc n) (failed python random row now policy exc p db).0
  failed-IsCounted row now policy exc start n p db c =
      elim (Bool-cases (should_retry policy (classify exc) (row.attempts + 1) p.used)) [
        | inl h ↦
            (let room = room_to_retry policy (classify exc) (row.attempts + 1) p.used h in
              rw h (record {
                used_by = count_retry start p.used p.report.retried c.used_by;
                within = inr (omega int_laws);
                counted = omega (arith, c.counted);
              }))
        | inr h ↦ rw h (record {
          used_by = rw (add-zero p.report.retried) c.used_by;
          within = rw (add-zero p.report.retried) c.within;
          counted = omega (arith, c.counted);
        })
      ]

  settled-IsCounted :
      (row : Delivery) (now : ℕ) (policy : RetryPolicy) (start : ℤ) (n : ℕ) (p : Pass python random)
      (db : Db) (q : Result DrainReport × Db)
      → SingleIf q
      → IsCounted policy start n p
      → IsCounted policy start (suc n) (settled python random row now policy p db q).0
  settled-IsCounted row now policy start n p db (ok report, db') s c = record {
    used_by = rw (s.1, add-zero p.report.retried) c.used_by;
    within = rw (s.1, add-zero p.report.retried) c.within;
    counted = omega (arith, s.0, c.counted);
  }
  settled-IsCounted row now policy start n p db (raise exc, db') s c =
      failed-IsCounted row now policy exc start n p db c

  after_rows-IsCounted :
      (rows : List Delivery) (now : ℕ) (policy : RetryPolicy) (start : ℤ) (n : ℕ)
      (p : Pass python random) (db : Db)
      → IsCounted policy start n p
      → IsCounted policy start
          (length rows + n)
          (after_rows python random rows now policy (p, db)).0
  after_rows-IsCounted [] now policy start n p db c = record {
    used_by = c.used_by;
    within = c.within;
    counted = omega (arith, c.counted);
  }
  after_rows-IsCounted (row ∷ rows) now policy start n p db c =
      let (p', db') = after_row python random row now policy p db in
      let ih = after_rows-IsCounted rows now policy start (suc n) p' db' (
        settled-IsCounted row now policy start n p db (process python random row now policy db)
          (process-single row now policy db) c) in
      record { used_by = ih.used_by; within = ih.within; counted = omega (arith, ih.counted) }

plus_zero : (a : ℤ) → a ≡ a +ℤ pos 0
plus_zero a = omega int_laws

due_rows-le : (now limit : ℕ) (db : Db) → length (due_rows now limit db) ≤ limit
unfolding due_rows
due_rows-le now limit db = length-take-le limit _

-- On a connection with no open transaction a drain hands out retries only from what is left of the
-- minute's budget: what the database records as used in this minute has grown by exactly the
-- retries reported, and stands within the budget once there was one. It reports at most one outcome
-- for each of at most `limit` deliveries.
pub drain_budget :
    (python : Python) (random : Random) (now : ℕ) (policy : RetryPolicy) (limit : ℕ)
    (rng : Option random.Gen) (db : Db) {p : Pass python random} {conn' : Connection}
    → drain python random now policy limit rng (closed db) ≡ (ok p, conn')
    → (budget_used conn'.db now ≡ budget_used db now +ℤ pos p.report.retried)
      × ((p.report.retried ≡ 0) ⊎ (budget_used conn'.db now ≤ℤ pos policy.budget_per_minute))
      × (total p.report ≤ limit)
drain_budget python random now policy limit rng db {p} {conn'} h =
    let rows = due_rows now limit db in
    let first = first_pass python random now policy rng db in
    let c =
      after_rows-IsCounted python random rows now policy (budget_used db now) 0 first db (record {
        used_by = plus_zero (budget_used db now);
        within = inl refl;
        counted = omega arith;
      }) in
    let ran = sym (drain_total python random now policy limit rng db) ∙ h in
    let same = ok_value (ap (λ z. z.0) ran) in
    let recorded : budget_used conn'.db now ≡ p.used =
      sym (ap (λ z. budget_used z.1.db now) ran)
      ∙ after_rows-budget python random rows now policy first db refl
      ∙ ap (λ q. q.used) same in
    let c' = subst (IsCounted python random policy (budget_used db now) (length rows + 0)) same c in
    (
      recorded ∙ c'.used_by,
      subst (λ u. (p.report.retried ≡ 0) ⊎ (u ≤ℤ pos policy.budget_per_minute)) (sym recorded)
          c'.within,
      omega (arith, c'.counted, due_rows-le now limit db),
    )
