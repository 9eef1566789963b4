-- ===== src/Inbox/Idle/Passes.antt =====
-- The loop round the drain ends, whatever its deliveries do.
use mathlib.Core.Path.{subst}
use quidz.Prelude.{
  ℕ, zero, suc, ◌+◌, ◌-◌, ◌*◌, ◌≤◌, ◌≡◌, refl, ap, Bool, true, false, List, [], ◌∷◌, some, ltb,
  ◌==◌, if◌then◌else◌, arith,
}
use quidz.Errors.{Result, ok}
use quidz.Python.{Python}
use quidz.Clock.{Clock}
use quidz.Store.{Delivery, Db, Connection}
use quidz.Store.Transactions.{closed}
use quidz.Dlq.{RetryPolicy, Random, jitter_source}
use quidz.Ledger.History.{IsFaithful}
use quidz.Ledger.Priced.{AllPriced}
use quidz.Inbox.Keyed.{Bodies, AllKeyed}
use quidz.Inbox.Drain.{DrainReport, no_report, merge, total, due_rows}
use quidz.Inbox.Drain.Steps.{after_rows, first_pass, drain_total}
use quidz.Inbox.Drain.Totals.{drain_budget}
use quidz.Inbox.Drain.Keeps.{drain-IsFaithful, drain-AllPriced, drain-AllKeyed}
use quidz.Inbox.Idle.{Watch, Rounds, pending, earliest, wait_or_stop, rounds, drain_until_idle}

total-merge : (a b : DrainReport) → total (merge a b) ≡ total a + total b
total-merge a b = omega arith

module _ (python : Python) (random : Random) (clock : Clock) where
  -- The run has returned, with no transaction left open: a faithful ledger is still faithful, its
  -- currencies are still currencies, its inbox is
  -- still keyed with bodies that pass what they passed, and at most `most` outcomes have been reported besides those of `before`.
  pub record Ended (db : Db) (before : DrainReport) (most : ℕ)
      (run : Result (Watch python random clock) × Connection) : Type 0 where
    pub watch : Watch python random clock
    pub left : Db
    pub ends : run ≡ (ok watch, closed left)
    pub kept : IsFaithful db → IsFaithful left
    pub priced : AllPriced db.payments → AllPriced left.payments
    pub keyed : (q : Bodies) → AllKeyed q db.deliveries → AllKeyed q left.deliveries
    pub within : total watch.sum ≤ total before + most

  if-Ended :
      (c : Bool) {db : Db} {before : DrainReport} {most : ℕ}
      {x y : Result (Watch python random clock) × Connection}
      → Ended db before most x
      → Ended db before most y
      → Ended db before most (if c then x else y)
  if-Ended true a b = a
  if-Ended false a b = b

  wait_or_stop-Ended :
      (next : Rounds python random clock) (n : ℕ)
      → ((w : Watch python random clock) (db : Db) → Ended db w.sum n (next w (closed db)))
      → (w : Watch python random clock) (pass_total : ℕ) (db : Db) (rows : List Delivery)
      → Ended db w.sum n (wait_or_stop python random clock next w pass_total (closed db) rows)
  wait_or_stop-Ended next n ih w pass_total db [] = record {
    watch = w;
    left = db;
    ends = refl;
    kept = λ f. f;
    priced = λ f. f;
    keyed = λ q f. f;
    within = omega arith;
  }
  wait_or_stop-Ended next n ih w pass_total db (d ∷ ds) =
      let (t, time) = clock.now w.time in
      if-Ended (ltb t (earliest d ds))
        (ih (record w { time = clock.sleep (earliest d ds - t) time }) db)
        (if-Ended (pass_total == 0)
          (record {
            watch = record w { time = time };
            left = db;
            ends = refl;
            kept = λ f. f;
            priced = λ f. f;
            keyed = λ q f. f;
            within = omega arith;
          })
          (ih (record w { time = time }) db))

  rounds-Ended :
      (policy : RetryPolicy) (n : ℕ) (w : Watch python random clock) (db : Db)
      → Ended db w.sum (n * 100) (rounds python random clock policy n w (closed db))
  unfolding rounds
  rounds-Ended policy zero w db = record {
    watch = w;
    left = db;
    ends = refl;
    kept = λ f. f;
    priced = λ f. f;
    keyed = λ q f. f;
    within = omega arith;
  }
  rounds-Ended policy (suc n) w db =
      let (t, time) = clock.now w.time in
      let (p, db') =
        after_rows python random (due_rows t 100 db) t policy
          (first_pass python random t policy (some w.rng) db, db) in
      let drained = drain_total python random t policy 100 (some w.rng) db in
      let e =
        wait_or_stop-Ended (rounds python random clock policy n) (n * 100) (rounds-Ended policy n)
          (record { time = time; rng = p.rng; sum = merge w.sum p.report }) (total p.report) db'
          (pending db') in
      rw drained (record {
        watch = e.watch;
        left = e.left;
        ends = e.ends;
        kept = λ f. e.kept (
            subst IsFaithful (ap (λ z. z.1.db) drained)
              (drain-IsFaithful python random t policy 100 (some w.rng) db f));
        priced = λ f. e.priced (
            subst (λ d. AllPriced d.payments) (ap (λ z. z.1.db) drained)
              (drain-AllPriced python random t policy 100 (some w.rng) db f));
        keyed = λ q f. e.keyed q (
            subst (λ d. AllKeyed q d.deliveries) (ap (λ z. z.1.db) drained)
              (drain-AllKeyed python random t policy 100 (some w.rng) db q f));
        within = omega (
          arith,
          e.within,
          total-merge w.sum p.report,
          (drain_budget python random t policy 100 (some w.rng) db drained).2,
        );
      })

-- On a connection with no open transaction `drain_until_idle` returns after at most `max_passes`
-- passes, whatever its deliveries decode to, whatever the clock says and whatever the generator
-- draws. It leaves no transaction open, it keeps a faithful ledger faithful, its currencies
-- well-formed and the inbox keyed, and over all of its passes it reports at most a hundred outcomes for each of them.
pub drain_until_idle-Ended :
    (python : Python) (random : Random) (clock : Clock) (policy : RetryPolicy) (max_passes : ℕ)
    (time : clock.Time) (db : Db)
    → Ended python random clock db no_report
        (max_passes * 100)
        (drain_until_idle python random clock policy max_passes time (closed db))
unfolding drain_until_idle
drain_until_idle-Ended python random clock policy max_passes time db =
    rounds-Ended python random clock policy max_passes
      (record { time = time; rng = jitter_source random policy; sum = no_report }) db
