-- ===== src/Inbox/Idle.antt =====
-- Draining until nothing is due (`drain_until_idle` of src/quidz/inbox.py).
pub mod Passes
use quidz.Prelude.{
  ℕ, zero, suc, ◌-◌, Option, none, some, List, [], ◌∷◌, keep, min, max, ltb, ◌==◌, if◌then◌else◌,
}
use quidz.Errors.{Result, ok, raise}
use quidz.Python.{Python}
use quidz.Clock.{Clock}
use quidz.Store.{Delivery, Db, Connection}
use quidz.Dlq.{RetryPolicy, Random, jitter_source}
use quidz.Inbox.Drain.{DrainReport, no_report, merge, total, waiting, Pass, drain}

-- `value or 0.0`
abbrev pub or_zero : Option ℕ → ℕ
or_zero none = 0
or_zero (some t) = t

abbrev pub due_time : Delivery → ℕ
due_time d = max (or_zero d.next_attempt_at) (or_zero d.parked_until)

-- The deliveries that are claimed or parked.
abbrev pub pending : Db → List Delivery
pending db = keep waiting db.deliveries

-- `min(...)` over the pending rows, of which there is one.
abbrev pub earliest : Delivery → List Delivery → ℕ
earliest d [] = due_time d
earliest d (e ∷ es) = min (due_time d) (earliest e es)

module _ (python : Python) (random : Random) (clock : Clock) where
  open clock use {Time}
  open random use {Gen}

  -- What the loop carries: the clock, the generator and the sum of the reports.
  pub record Watch : Type 0 where
    pub time : Time
    pub rng : Gen
    pub sum : DrainReport

  abbrev pub Rounds : Type 0
  Rounds = Watch → Connection → Result Watch × Connection

  -- Sleep until the next delivery is due, go on at once, or stop: `pass_total` is what the pass
  -- has reported.
  abbrev pub wait_or_stop :
      Rounds → Watch → ℕ → Connection → List Delivery → Result Watch × Connection
  wait_or_stop rounds w pass_total conn [] = (ok w, conn)
  wait_or_stop rounds w pass_total conn (d ∷ ds) =
      let (t, time) = clock.now w.time in
      let due = earliest d ds in
      let slept = rounds (record w { time = clock.sleep (due - t) time }) conn in
      let again = rounds (record w { time = time }) conn in
      if ltb t due
      then slept
      else if pass_total == 0
      then (ok (record w { time = time }), conn)
      else again

  abbrev pub after_pass :
      Rounds → Watch → Result (Pass python random) × Connection → Result Watch × Connection
  after_pass rounds w (raise e, conn) = (raise e, conn)
  after_pass rounds w (ok p, conn) =
      wait_or_stop rounds (record w { rng = p.rng; sum = merge w.sum p.report }) (total p.report)
        conn (pending conn.db)

  -- The loop, of at most so many passes.
  unfoldable pub rounds : RetryPolicy → ℕ → Rounds
  rounds policy zero w conn = (ok w, conn)
  rounds policy (suc n) w conn =
      let (t, time) = clock.now w.time in
      after_pass (rounds policy n) (record w { time = time })
        (drain python random t policy 100 (some w.rng) conn)

  unfoldable pub drain_until_idle : RetryPolicy → ℕ → Time → Connection → Result Watch × Connection
  drain_until_idle policy max_passes time conn =
      rounds policy max_passes
        (record { time = time; rng = jitter_source random policy; sum = no_report }) conn
