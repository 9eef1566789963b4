-- ===== src/Inbox/Receive/Sound.antt =====
-- What `receive_stripe` and `receive_adyen` of src/quidz/inbox.py leave behind, outside a transaction.
use mathlib.Core.Path.{subst}
use quidz.Prelude.{
  ℕ, String, ◌≡◌, true, refl, sym, ◌∙◌, Bool-cases, inl, inr, Option, none, some, List, [], ◌∷◌,
  ◌++◌,
}
use quidz.Prelude.Int.{ℤ, pos}
use quidz.Errors.{Result, ok, raise, signature_error, stale_timestamp}
use quidz.Event.{Provider, stripe, adyen}
use quidz.Python.{Python}
use quidz.Dlq.{is_instance}
use quidz.Metrics.{bump}
use quidz.Signatures.{Crypto, verify_stripe, verify_adyen}
use quidz.Store.{DeliveryState, Delivery, Db, Connection, close_tx, find_delivery}
use quidz.Store.Transactions.{closed, write_tx-idle}
use quidz.Inbox.{
  ClaimResult, same_state, live, delivery_key, identity_of, payload_of, claim_body, claim, reclaim,
}
use quidz.Inbox.Claims.{by_row, claim_body-eq}
use quidz.Inbox.Keyed.{Bodies, Keyed, AllKeyed, rekeyed, update_deliveries-AllKeyed}
use quidz.Inbox.Receive.{
  Session, exec, go_on, pure, counted_stripe, counted_adyen, is_duplicate, count_duplicate,
  signature_of, receive_stripe, receive_adyen,
}

module _ (q : Bodies) {A : Type 0} where
  -- What a run from a database has left behind.
  pub record SoundRun (before : Db) (run : Result A × Connection) : Type 0 where
    pub after : Db
    pub left : run.1 ≡ closed after
    pub payments : after.payments ≡ before.payments
    pub keyed : AllKeyed q before.deliveries → AllKeyed q after.deliveries

  pub record Sound (s : Session A) : Type 0 where
    pub at : (db : Db) → SoundRun db (s (closed db))

  pub SoundRun-later :
      {before middle : Db} {run : Result A × Connection}
      → middle.payments ≡ before.payments
      → (AllKeyed q before.deliveries → AllKeyed q middle.deliveries)
      → SoundRun middle run
      → SoundRun before run
  SoundRun-later p k s = record {
    after = s.after;
    left = s.left;
    payments = s.payments ∙ p;
    keyed = λ a. s.keyed (k a);
  }

  -- Nothing but counters.
  Sound-unmoved :
      (s : Session A)
      → ((db : Db)
          → (after : Db) × ((s (closed db)).1 ≡ closed after)
            × (after.payments ≡ db.payments)
            × (after.deliveries ≡ db.deliveries))
      → Sound s
  Sound-unmoved s h = record {
    at = λ db.
        (let (after, left, payments, deliveries) = h db in
          record {
            after = after;
            left = left;
            payments = payments;
            keyed = λ k. subst (AllKeyed q) (sym deliveries) k;
          });
  }

module _ (q : Bodies) {A B : Type 0} where
  go_on-SoundRun :
      (next : A → Session B)
      → ((a : A) → Sound q (next a))
      → (before : Db) (p : Result A × Connection) → SoundRun q before p
      → SoundRun q before (go_on p next)
  go_on-SoundRun next step before (ok a, conn) s =
      SoundRun-later q s.payments s.keyed
        (subst (λ c. SoundRun q s.after (next a c)) (sym s.left) ((step a).at s.after))
  go_on-SoundRun next step before (raise e, conn) s = record {
    after = s.after;
    left = s.left;
    payments = s.payments;
    keyed = s.keyed;
  }

  Sound-then :
      (first : Session A) {next : A → Session B}
      → Sound q first
      → ((a : A) → Sound q (next a))
      → Sound q (λ conn. go_on (first conn) next)
  Sound-then first {next} s step = record {
    at = λ db. go_on-SoundRun next step db (first (closed db)) (s.at db);
  }

received-Sound : (q : Bodies) → Sound q (exec (bump "events_received" (pos 1)))
unfolding bump
received-Sound q = Sound-unmoved q _ (λ db. (_, refl, refl, refl))

module _ (q : Bodies) {A : Type 0} where
  pure-Sound : (r : Result A) → Sound q (pure r)
  pure-Sound r = Sound-unmoved q (pure r) (λ db. (db, refl, refl, refl))

  counted_adyen-Sound : (r : Result A) → Sound q (counted_adyen r)
  unfolding bump
  counted_adyen-Sound (ok a) = pure-Sound (ok a)
  counted_adyen-Sound (raise e) = elim (Bool-cases (is_instance e signature_error)) [
    | inl h ↦ rw h (Sound-unmoved q _ (λ db. (_, refl, refl, refl)))
    | inr h ↦ rw h (pure-Sound (raise e))
  ]

  counted_stripe-Sound : (r : Result A) → Sound q (counted_stripe r)
  unfolding bump
  counted_stripe-Sound (raise stale_timestamp) = Sound-unmoved q _ (λ db. (_, refl, refl, refl))
  counted_stripe-Sound r = counted_adyen-Sound r

count_duplicate-Sound : (q : Bodies) (r : ClaimResult) → Sound q (count_duplicate r)
unfolding bump
count_duplicate-Sound q r = elim (Bool-cases (is_duplicate r.reason)) [
  | inl h ↦ rw h (Sound-unmoved q _ (λ db. (_, refl, refl, refl)))
  | inr h ↦ rw h (pure-Sound q (ok r))
]

snoc-AllKeyed :
    (q : Bodies) (ds : List Delivery) (d : Delivery)
    → Keyed q d
    → AllKeyed q ds
    → AllKeyed q (ds ++ d ∷ [])
snoc-AllKeyed q [] d k a = (k, tt)
snoc-AllKeyed q (x ∷ ds) d k (l, ls) = (l, snoc-AllKeyed q ds d k ls)

module _ (q : Bodies) (provider : Provider) (identity : String) (raw : List ℕ)
    (headers : List (String × String)) (now lease : ℕ) where
  -- What the body of a claim leaves behind, which the transaction commits.
  record Claimed (before : Db) (p : Result ClaimResult × Db) : Type 0 where
    pub payments : p.1.payments ≡ before.payments
    pub keyed : AllKeyed q before.deliveries → AllKeyed q p.1.deliveries

  by_row-Claimed :
      (o : Option Delivery) (db : Db)
      → q provider raw ≡ true
      → Claimed db (by_row provider identity raw headers now lease o db)
  by_row-Claimed none db fits = record {
    payments = refl;
    keyed =
        snoc-AllKeyed q db.deliveries _ (record { identity = identity; key = refl; body = fits });
  }
  by_row-Claimed (some d) db fits = elim (Bool-cases (same_state d.state DeliveryState.claimed)) [
    | inr s ↦ rw s (record { payments = refl; keyed = λ k. k })
    | inl s ↦ rw s (elim (Bool-cases (live d.lease_expires_at now)) [
      | inl l ↦ rw l (record { payments = refl; keyed = λ k. k })
      | inr l ↦ rw l (record {
        payments = refl;
        keyed =
            update_deliveries-AllKeyed q (delivery_key provider identity)
              (reclaim raw headers now lease) db.deliveries
              (rekeyed q provider identity (reclaim raw headers now lease) raw (λ e. refl)
                (λ e. refl) (λ e. refl) fits);
      })
    ])
  ]

  close_tx-SoundRun :
      (before : Db) (p : Result ClaimResult × Db)
      → Claimed before p
      → SoundRun q before (close_tx before p)
  close_tx-SoundRun before (ok r, db) c = record {
    after = db;
    left = refl;
    payments = c.payments;
    keyed = c.keyed;
  }
  close_tx-SoundRun before (raise e, db) c = record {
    after = before;
    left = refl;
    payments = refl;
    keyed = λ k. k;
  }

  claim-Sound : q provider raw ≡ true → Sound q (claim provider identity raw headers now lease)
  unfolding claim
  claim-Sound fits = record {
    at = λ db.
        rw
          (
            write_tx-idle (claim_body provider identity raw headers now lease) db,
            claim_body-eq provider identity raw headers now lease db,
          )
          (close_tx-SoundRun db _ (
            by_row-Claimed (find_delivery (delivery_key provider identity) db.deliveries) db fits));
  }

  claimed-Sound :
      q provider raw ≡ true
      → Sound q (λ conn. go_on (claim provider identity raw headers now lease conn) count_duplicate)
  claimed-Sound fits =
      Sound-then q (claim provider identity raw headers now lease) (claim-Sound fits)
        (count_duplicate-Sound q)

module _ (q : Bodies) (python : Python) (crypto : Crypto) where
  pub receive_stripe-Sound :
      (raw : List ℕ) (headers : List (String × String)) (secrets : List (List ℕ)) (now lease : ℕ)
      (tolerance : ℤ)
      → q stripe raw ≡ true
      → Sound q (receive_stripe python crypto raw headers secrets now lease tolerance)
  unfolding receive_stripe
  receive_stripe-Sound raw headers secrets now lease tolerance fits =
      Sound-then q (exec (bump "events_received" (pos 1))) (received-Sound q) (λ _.
        Sound-then q (counted_stripe (verify_stripe crypto raw headers secrets now tolerance))
          (counted_stripe-Sound q _)
          (λ _. Sound-then q (pure (payload_of python raw)) (pure-Sound q _) (λ payload.
            Sound-then q (pure (identity_of stripe payload)) (pure-Sound q _)
              (λ identity. claimed-Sound q stripe identity raw headers now lease fits))))

  pub receive_adyen-Sound :
      (raw : List ℕ) (key : String) (now lease : ℕ)
      → q adyen raw ≡ true
      → Sound q (receive_adyen python crypto raw key now lease)
  unfolding receive_adyen
  receive_adyen-Sound raw key now lease fits =
      Sound-then q (exec (bump "events_received" (pos 1))) (received-Sound q) (λ _.
        Sound-then q (pure (payload_of python raw)) (pure-Sound q _) (λ item.
          Sound-then q
            (counted_adyen (verify_adyen crypto item (signature_of python crypto item) key))
            (counted_adyen-Sound q _)
            (λ _.
              Sound-then q (pure (identity_of adyen item)) (pure-Sound q _)
                (λ identity. claimed-Sound q adyen identity raw [] now lease fits))))
