-- ===== src/Cli/Receipt/Accounts.antt =====
-- The receipt's tally accounts for every delivery, and for every row of the inbox.
use mathlib.Core.Path.{subst}
use quidz.Prelude.{
  ℕ, suc, ◌+◌, ◌*◌, String, ◌≡◌, refl, List, [], ◌∷◌, length, Bool-cases, inl, inr, arith,
}
use quidz.Errors.{Result, ok, raise, stale_timestamp, signature_error}
use quidz.Event.{Provider, stripe, adyen}
use quidz.Python.{Python}
use quidz.Clock.{FakeClock}
use quidz.Dlq.{is_instance}
use quidz.Signatures.{Crypto}
use quidz.Store.{Db, Connection}
use quidz.Inbox.{ClaimReason, new, duplicate, in_progress, lease_reclaimed, ClaimResult}
use quidz.Inbox.Receive.Inserted.{
  size, rows_of, Inserted, Exact, receive_stripe-Exact, receive_adyen-Exact,
}
use quidz.Sim.{Delivery}
use quidz.App.{lease_seconds, tolerance_seconds}
use quidz.Cli.Receipt.{
  Tally, empty_tally, count_reason, receipt_interval, Intake, count_receipt, receive_from,
  receive_all, receive_in_process,
}

abbrev pub counted : Tally → ℕ
counted t =
    t.new + t.duplicate + t.in_progress + t.lease_reclaimed + t.signature_invalid
    + t.stale_timestamp

-- So many deliveries have been counted: the database has grown by those counted as new, and the
-- clock has moved on for each of them.
pub record Accounted (n : ℕ) (w : Intake) (before : Db) (w' : Intake) (after : Db) : Type 0 where
  pub all : counted w'.tally ≡ counted w.tally + n
  pub grown : size after + w.tally.new ≡ size before + w'.tally.new
  pub ticked : w'.clock.t ≡ w.clock.t + n * receipt_interval

counted-reason :
    (reason : ClaimReason) (t : Tally) → counted (count_reason reason t) ≡ counted t + 1
counted-reason new t = omega arith
counted-reason duplicate t = omega arith
counted-reason in_progress t = omega arith
counted-reason lease_reclaimed t = omega arith

new-reason :
    (reason : ClaimReason) (t : Tally) → (count_reason reason t).new ≡ t.new + rows_of reason
new-reason new t = refl
new-reason duplicate t = omega arith
new-reason in_progress t = omega arith
new-reason lease_reclaimed t = omega arith

-- So many receipts, unless an exception has left the loop.
abbrev After : ℕ → Intake → Db → Result Intake × Connection → Type 0
After n w before (ok w', conn) = Accounted n w before w' conn.db
After n w before (raise e, conn) = Unit {0}

After-suc :
    (n : ℕ) (w w₁ : Intake) (before middle : Db) (q : Result Intake × Connection)
    → Accounted n w before w₁ middle
    → After 1 w₁ middle q
    → After (suc n) w before q
After-suc n w w₁ before middle (ok w', conn) a b = record {
  all = omega (arith, a.all, b.all);
  grown = omega (arith, a.grown, b.grown);
  ticked = omega (arith, a.ticked, b.ticked);
}
After-suc n w w₁ before middle (raise e, conn) a b = tt

count_receipt-After :
    (w : Intake) (before : Db) (p : Result ClaimResult × Connection)
    → Inserted before p.0 p.1.db
    → After 1 w before (count_receipt w p)
count_receipt-After w before (ok r, conn) i = record {
  all = counted-reason r.reason w.tally;
  grown = omega (arith, i.grown, new-reason r.reason w.tally);
  ticked = omega arith;
}
count_receipt-After w before (raise e, conn) i = elim (Bool-cases (is_instance e stale_timestamp)) [
  | inl h ↦
      rw h (record { all = omega arith; grown = omega (arith, i.grown); ticked = omega arith })
  | inr h ↦ rw h (elim (Bool-cases (is_instance e signature_error)) [
    | inl k ↦
        rw k (record { all = omega arith; grown = omega (arith, i.grown); ticked = omega arith })
    | inr k ↦ rw k tt
  ])
]

module _ (python : Python) (crypto : Crypto) (secrets : List (List ℕ)) (key : String) where
  receive_from-Exact :
      (provider : Provider) (d : Delivery) (now : ℕ)
      → Exact (receive_from python crypto secrets key provider d now)
  receive_from-Exact stripe d now =
      receive_stripe-Exact python crypto d.raw d.headers secrets now lease_seconds tolerance_seconds
  receive_from-Exact adyen d now = receive_adyen-Exact python crypto d.raw key now lease_seconds

  receive_all-After :
      (ds : List Delivery) (n m : ℕ) (w : Intake) (before : Db) (q : Result Intake × Connection)
      → length ds + n ≡ m
      → After n w before q
      → After m w before (receive_all python crypto secrets key ds q)
  receive_all-After [] n m w before q e a =
      let same : n ≡ m = omega (arith, e) in subst (λ k. After k w before q) same a
  receive_all-After (d ∷ ds) n m w before (raise e, conn) _ a = tt
  receive_all-After (d ∷ ds) n m w before (ok w₁, conn) e a =
      let p = receive_from python crypto secrets key d.provider d w₁.clock.t conn in
      receive_all-After ds (suc n) m w before (count_receipt w₁ p) (omega (arith, e)) (
        After-suc n w w₁ before conn.db (count_receipt w₁ p) a
          (count_receipt-After w₁ conn.db p ((receive_from-Exact d.provider d w₁.clock.t).at conn)))

-- Every delivery of a run is accounted for: when the receipt returns, its six counts add up to the
-- number of deliveries, the inbox has grown by exactly the deliveries counted as new, so that
-- duplicates and rejected deliveries have added nothing, and the clock has moved on once for each.
pub receive_in_process-Accounted :
    (python : Python) (crypto : Crypto) (secrets : List (List ℕ)) (key : String)
    (deliveries : List Delivery) (clock : FakeClock) (conn : Connection) {w : Intake}
    {conn' : Connection}
    → receive_in_process python crypto secrets key deliveries clock conn ≡ (ok w, conn')
    → (counted w.tally ≡ length deliveries)
      × (size conn'.db ≡ size conn.db + w.tally.new)
      × (w.clock.t ≡ clock.t + length deliveries * receipt_interval)
unfolding receive_in_process
receive_in_process-Accounted python crypto secrets key deliveries clock conn {w} {conn'} h =
    let start : Intake = record { tally = empty_tally; clock = clock } in
    let a =
      receive_all-After python crypto secrets key deliveries 0 (length deliveries) start conn.db
        (ok start, conn) (omega arith)
        (record { all = refl; grown = refl; ticked = omega arith }) in
    let b = subst (After (length deliveries) start conn.db) h a in
    (omega (arith, b.all), omega (arith, b.grown), omega (arith, b.ticked))
