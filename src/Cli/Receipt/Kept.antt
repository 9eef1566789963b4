-- ===== src/Cli/Receipt/Kept.antt =====
-- What the receipt of a demonstration leaves behind (`_receive_in_process` of src/quidz/cli.py).
use mathlib.Core.Path.{subst}
use quidz.Prelude.{ℕ, String, ◌≡◌, true, refl, sym, Bool-cases, inl, inr, List, [], ◌∷◌}
use quidz.Errors.{Result, ok, raise, stale_timestamp, signature_error}
use quidz.Event.{Provider, stripe, adyen}
use quidz.Python.{Python}
use quidz.Clock.{FakeClock}
use quidz.Dlq.{is_instance}
use quidz.Signatures.{Crypto}
use quidz.Store.{Db, Connection}
use quidz.Store.Transactions.{closed}
use quidz.Inbox.{ClaimResult}
use quidz.Inbox.Keyed.{Bodies}
use quidz.Inbox.Receive.Sound.{
  SoundRun, Sound, SoundRun-later, receive_stripe-Sound, receive_adyen-Sound,
}
use quidz.Sim.{Delivery}
use quidz.App.{lease_seconds, tolerance_seconds}
use quidz.Cli.Receipt.{Intake, count_receipt, receive_from, receive_all, receive_in_process}

counted_as :
    {q : Bodies} {A B : Type 0} {before : Db} {conn : Connection} {r : Result A} (r' : Result B)
    → SoundRun q before (r, conn)
    → SoundRun q before (r', conn)
counted_as r' s = record { after = s.after; left = s.left; payments = s.payments; keyed = s.keyed }

pub count_receipt-SoundRun :
    (q : Bodies) (w : Intake) (before : Db) (p : Result ClaimResult × Connection)
    → SoundRun q before p
    → SoundRun q before (count_receipt w p)
count_receipt-SoundRun q w before (ok r, conn) s = counted_as _ s
count_receipt-SoundRun q w before (raise e, conn) s =
    elim (Bool-cases (is_instance e stale_timestamp)) [
      | inl h ↦ rw h (counted_as _ s)
      | inr h ↦ rw h (elim (Bool-cases (is_instance e signature_error)) [
        | inl k ↦ rw k (counted_as _ s)
        | inr k ↦ rw k (counted_as _ s)
      ])
    ]

module _ (q : Bodies) where
  -- The bodies of what was sent pass the test.
  abbrev pub AllBodies : List Delivery → Type 0
  AllBodies [] = Unit {0}
  AllBodies (d ∷ ds) = (q d.provider d.raw ≡ true) × AllBodies ds

module _ (q : Bodies) (python : Python) (crypto : Crypto) (secrets : List (List ℕ))
    (key : String) where
  pub receive_from-Sound :
      (provider : Provider) (d : Delivery) (now : ℕ)
      → q provider d.raw ≡ true
      → Sound q (receive_from python crypto secrets key provider d now)
  receive_from-Sound stripe d now fits =
      receive_stripe-Sound q python crypto d.raw d.headers secrets now lease_seconds
        tolerance_seconds fits
  receive_from-Sound adyen d now fits =
      receive_adyen-Sound q python crypto d.raw key now lease_seconds fits

  receive_all-SoundRun :
      (ds : List Delivery) (before : Db) (p : Result Intake × Connection)
      → AllBodies q ds
      → SoundRun q before p
      → SoundRun q before (receive_all python crypto secrets key ds p)
  receive_all-SoundRun [] before p a s = s
  receive_all-SoundRun (d ∷ ds) before (raise e, conn) a s = s
  receive_all-SoundRun (d ∷ ds) before (ok w, conn) (b, bs) s =
      let received = (receive_from-Sound d.provider d w.clock.t b).at s.after in
      let from_here =
        count_receipt-SoundRun q w before
          (receive_from python crypto secrets key d.provider d w.clock.t (closed s.after))
          (SoundRun-later q s.payments s.keyed received) in
      receive_all-SoundRun ds before _ bs (
        subst
          (λ c.
            SoundRun q before
              (count_receipt w (receive_from python crypto secrets key d.provider d w.clock.t c)))
          (sym s.left) from_here)

  -- Whatever is received outside a transaction ends outside one, leaves the payments alone and
  -- stores deliveries under their keys, with bodies that pass what the stored and the sent ones
  -- pass, also where an exception leaves the loop.
  pub receive_in_process-SoundRun :
      (sent : List Delivery) (clock : FakeClock) (db : Db)
      → AllBodies q sent
      → SoundRun q db (receive_in_process python crypto secrets key sent clock (closed db))
  unfolding receive_in_process
  receive_in_process-SoundRun sent clock db bodies =
      receive_all-SoundRun sent db _ bodies
        (record { after = db; left = refl; payments = refl; keyed = λ k. k })
