-- ===== src/Inbox/Claims.antt =====
-- What a claim promises: one holder of a live lease at a time.
use mathlib.Core.Path.{subst}
use quidz.Store.Transactions.{closed, write_tx-Committed, write_tx-idle}
use quidz.Prelude.{
  ◌==◌, ℕ, ◌+◌, ◌<◌, String, eq_iff, ◌≡◌, refl, ap, sym, ◌∙◌, lt→ltb, Bool, true, false, Option,
  none, some, List, [], ◌∷◌, ◌++◌, Bool-cases, Option-cases, inl, inr, arith,
}
use quidz.Errors.{Result, ok}
use quidz.Event.{Provider}
use quidz.Store.{DeliveryState, Delivery, Db, Connection, insert_delivery, find_delivery}
use quidz.Store.Deliveries.{any_delivery-eq, find_delivery-append, find_delivery-update}
use quidz.Inbox.{
  ClaimReason, new, in_progress, ClaimResult, delivery_key, same_state, live, new_delivery, reclaim,
  claim_existing, claim_body, claim,
}

abbrev pub answer : String → Bool → ClaimReason → ClaimResult
answer key accepted reason = record { delivery_id = key; accepted = accepted; reason = reason }

module _ (provider : Provider) (identity : String) (raw : List ℕ) (headers : List (String × String))
    (now lease : ℕ) where
  -- A claim, by the row that its key has.
  abbrev pub by_row : Option Delivery → Db → Result ClaimResult × Db
  by_row none db = (
    ok (answer (delivery_key provider identity) true new),
    record db {
      deliveries =
          db.deliveries
          ++ new_delivery (delivery_key provider identity) provider raw headers now lease ∷ [];
    },
  )
  by_row (some d) db =
      claim_existing raw headers now lease (delivery_key provider identity) (some d) db

  pub claim_body-eq :
      (db : Db)
      → claim_body provider identity raw headers now lease db
        ≡ by_row (find_delivery (delivery_key provider identity) db.deliveries) db
  unfolding claim_body insert_delivery
  claim_body-eq db =
      elim (Option-cases (find_delivery (delivery_key provider identity) db.deliveries)) [
        | inl h ↦ rw (any_delivery-eq (delivery_key provider identity) db.deliveries, h) refl
        | inr (d, h) ↦
            rw (any_delivery-eq (delivery_key provider identity) db.deliveries, h)
              (ap (λ o. claim_existing raw headers now lease (delivery_key provider identity) o db)
                h)
      ]

-- The row of an accepted claim: claimed, with a lease from this moment on.
pub record Held (key : String) (until : ℕ) (db : Db) : Type 0 where
  pub row : Delivery
  pub found : find_delivery key db.deliveries ≡ some row
  pub holds : row.state ≡ DeliveryState.claimed
  pub leased : row.lease_expires_at ≡ some until

same_claimed :
    (s : DeliveryState) → same_state s DeliveryState.claimed ≡ true → s ≡ DeliveryState.claimed
same_claimed s h = ground arith

module _ (provider : Provider) (identity : String) (raw : List ℕ) (headers : List (String × String))
    (now lease : ℕ) where
  accepted_new :
      (db : Db)
      → find_delivery (delivery_key provider identity) db.deliveries ≡ none
      → Held
          (delivery_key provider identity)
          (now + lease)
          (by_row provider identity raw headers now lease none db).1
  accepted_new db h = record {
    row = new_delivery (delivery_key provider identity) provider raw headers now lease;
    found =
        rw
          (
            find_delivery-append,
            h,
            (eq_iff (delivery_key provider identity) (delivery_key provider identity)).1 refl,
          )
          refl;
    holds = refl;
    leased = refl;
  }

  accepted_existing :
      (db : Db) (d : Delivery)
      → find_delivery (delivery_key provider identity) db.deliveries ≡ some d
      → {r : ClaimResult} {db' : Db}
      → by_row provider identity raw headers now lease (some d) db ≡ (ok r, db')
      → r.accepted ≡ true
      → Held (delivery_key provider identity) (now + lease) db'
  accepted_existing db d h {r} {db'} e a =
      elim (Bool-cases (same_state d.state DeliveryState.claimed)) [
        | inr s ↦ (let e' = rw s at e in cc)
        | inl s ↦
            (let e' = rw s at e in
              elim (Bool-cases (live d.lease_expires_at now)) [
                | inl l ↦ (let e'' = rw l at e' in cc)
                | inr l ↦
                    (let e'' = rw l at e' in
                      record {
                        row = reclaim raw headers now lease d;
                        found = rw (← ap (λ z. z.1) e'') (
                            rw
                              (
                                find_delivery-update,
                                (eq_iff (delivery_key provider identity)
                                      (delivery_key provider identity)).1
                                    refl,
                                h,
                              )
                              refl);
                        holds = same_claimed d.state s;
                        leased = refl;
                      })
              ])
      ]

-- Every accepted claim holds the lease that it was given.
claim_body-Held :
    (provider : Provider) (identity : String) (raw : List ℕ) (headers : List (String × String))
    (now lease : ℕ) (db : Db) {r : ClaimResult} {db' : Db}
    → claim_body provider identity raw headers now lease db ≡ (ok r, db')
    → r.accepted ≡ true
    → Held (delivery_key provider identity) (now + lease) db'
claim_body-Held provider identity raw headers now lease db h a =
    let e = sym (claim_body-eq provider identity raw headers now lease db) ∙ h in
    elim (Option-cases (find_delivery (delivery_key provider identity) db.deliveries)) [
      | inl k ↦
          subst (Held (delivery_key provider identity) (now + lease)) (ap (λ z. z.1) (rw k at e))
            (accepted_new provider identity raw headers now lease db k)
      | inr (d, k) ↦ accepted_existing provider identity raw headers now lease db d k (rw k at e) a
    ]

-- While a lease is live, every further claim of the delivery is told that it is in progress.
Held-claim :
    (provider : Provider) (identity : String) (raw : List ℕ) (headers : List (String × String))
    (now lease until : ℕ) (db : Db)
    → Held (delivery_key provider identity) until db
    → now < until
    → claim_body provider identity raw headers now lease db
      ≡ (ok (answer (delivery_key provider identity) false in_progress), db)
Held-claim provider identity raw headers now lease until db h l =
    rw claim_body-eq (rw (h.found, h.holds, h.leased, lt→ltb now until l) refl)

-- A delivery has one holder at a time: from an accepted claim until its lease runs out, and as long
-- as the row of the delivery is still the one that the claim left, whatever has been written to
-- other rows and tables in between, every other claim of the same provider and identity outside a
-- transaction, whatever its body, is refused as in progress and changes nothing.
pub claim_exclusive :
    (provider : Provider) (identity : String) (raw raw' : List ℕ)
    (headers headers' : List (String × String)) (now now' lease lease' : ℕ) (conn : Connection)
    (later : Db) {r : ClaimResult} {conn' : Connection}
    → claim provider identity raw headers now lease conn ≡ (ok r, conn')
    → r.accepted ≡ true
    → now' < now + lease
    → find_delivery (delivery_key provider identity) later.deliveries
      ≡ find_delivery (delivery_key provider identity) conn'.db.deliveries
    → claim provider identity raw' headers' now' lease' (closed later)
      ≡ (ok (answer (delivery_key provider identity) false in_progress), closed later)
unfolding claim
claim_exclusive provider identity raw raw' headers headers' now now' lease lease' conn later {r}
      {conn'} h a l same =
    let c = write_tx-Committed (claim_body provider identity raw headers now lease) conn h in
    let held = claim_body-Held provider identity raw headers now lease conn.db c.ran a in
    let still : Held (delivery_key provider identity) (now + lease) later = record {
      row = held.row;
      found = same ∙ held.found;
      holds = held.holds;
      leased = held.leased;
    } in
    rw write_tx-idle
      (rw (Held-claim provider identity raw' headers' now' lease' (now + lease) later still l) refl)

-- A row after a redelivery: what the drain has scheduled still stands.
pub record Redelivered (d d' : Delivery) : Type 0 where
  pub same_state_kept : d'.state ≡ d.state
  pub same_attempts : d'.attempts ≡ d.attempts
  pub same_arrival : d'.received_at ≡ d.received_at
  pub same_park : d'.parked_until ≡ d.parked_until
  pub same_schedule : (d.attempts == 0) ≡ false → d'.next_attempt_at ≡ d.next_attempt_at

untouched : (d : Delivery) → Redelivered d d
untouched d = record {
  same_state_kept = refl;
  same_attempts = refl;
  same_arrival = refl;
  same_park = refl;
  same_schedule = λ _. refl;
}

reclaimed :
    (raw : List ℕ) (headers : List (String × String)) (now lease : ℕ) (d : Delivery)
    → Redelivered d (reclaim raw headers now lease d)
reclaimed raw headers now lease d = record {
  same_state_kept = refl;
  same_attempts = refl;
  same_arrival = refl;
  same_park = refl;
  same_schedule = λ h. rw h refl;
}

module _ (provider : Provider) (identity : String) (raw : List ℕ) (headers : List (String × String))
    (now lease : ℕ) where
  by_row-Redelivered :
      (db : Db) (d : Delivery)
      → find_delivery (delivery_key provider identity) db.deliveries ≡ some d
      → (d' : Delivery) × (find_delivery
            (delivery_key provider identity)
            (by_row provider identity raw headers now lease (some d) db).1.deliveries
          ≡ some d')
        × Redelivered d d'
  by_row-Redelivered db d h = elim (Bool-cases (same_state d.state DeliveryState.claimed)) [
    | inr s ↦ rw s (d, h, untouched d)
    | inl s ↦ rw s (elim (Bool-cases (live d.lease_expires_at now)) [
      | inl l ↦ rw l (d, h, untouched d)
      | inr l ↦ rw l (
        reclaim raw headers now lease d,
        rw
            (
              find_delivery-update,
              (eq_iff (delivery_key provider identity) (delivery_key provider identity)).1 refl,
              h,
            )
            refl,
        reclaimed raw headers now lease d,
      )
    ])
  ]

-- A redelivery cannot jump the queue: whatever a claim of a delivery that is already stored
-- answers, the row keeps its state, its attempts, its arrival and its park, and once an attempt
-- has failed it keeps the time of the next one, so no provider can cancel a backoff.
pub claim-Redelivered :
    (provider : Provider) (identity : String) (raw : List ℕ) (headers : List (String × String))
    (now lease : ℕ) (conn : Connection) {d : Delivery} {r : ClaimResult} {conn' : Connection}
    → find_delivery (delivery_key provider identity) conn.db.deliveries ≡ some d
    → claim provider identity raw headers now lease conn ≡ (ok r, conn')
    → (d' : Delivery) × (find_delivery (delivery_key provider identity) conn'.db.deliveries
        ≡ some d')
      × Redelivered d d'
unfolding claim
claim-Redelivered provider identity raw headers now lease conn {d} h e =
    let c = write_tx-Committed (claim_body provider identity raw headers now lease) conn e in
    let ran =
      sym (ap (λ o. by_row provider identity raw headers now lease o conn.db) h)
      ∙ sym (claim_body-eq provider identity raw headers now lease conn.db)
      ∙ c.ran in
    subst
      (λ db.
        (d' : Delivery) × (find_delivery (delivery_key provider identity) db.deliveries ≡ some d')
        × Redelivered d d')
      (ap (λ z. z.1) ran) (by_row-Redelivered provider identity raw headers now lease conn.db d h)
