-- ===== src/Inbox/Drain/Poison.antt =====
-- A poisoned delivery does not stay in the queue for ever.
use quidz.Prelude.{
  ℕ, zero, suc, ◌+◌, ◌<◌, ◌≤◌, min, String, eq_iff, ◌≡◌, refl, sym, ap, ◌∙◌, ◌⊎◌, inl, inr,
  Bool-cases, true, some, ltb, ltb→lt, arith,
}
use quidz.Prelude.Int.{ℤ}
use quidz.Errors.{Exn, raise}
use quidz.Python.{Python}
use quidz.Store.{DeliveryState, Delivery, Db, find_delivery}
use quidz.Store.Transactions.{closed}
use quidz.Store.Deliveries.{find_delivery_key, find_delivery-update}
use quidz.Dlq.{RetryPolicy, Random, classify, should_retry}
use quidz.Dlq.Laws.{attempt_limit, should_retry-classify}
use quidz.Inbox.Drain.{Pass, set_retry, set_dead_lettered, record_budget, process, drain_row}
use quidz.Inbox.Drain.Steps.{drain_row-eq, drawn, failed}

-- A row after one more failed attempt: it is out of the queue, or it has attempts left.
pub record Struck (policy : RetryPolicy) (row d : Delivery) : Type 0 where
  pub counted : d.attempts ≡ row.attempts + 1
  pub ends : (d.state ≡ DeliveryState.dead_lettered) ⊎ (d.attempts < min policy.max_attempts 5)

limit_le : (e : Exn) → attempt_limit e ≤ 5
limit_le e = ground arith

retried_below :
    (policy : RetryPolicy) (e : Exn) (attempt : ℕ) (used : ℤ)
    → should_retry policy (classify e) attempt used ≡ true
    → attempt < min policy.max_attempts 5
retried_below policy e attempt used h =
    let b = sym (should_retry-classify policy e attempt used) ∙ h in
    let c : ltb attempt (min policy.max_attempts (attempt_limit e)) ≡ true = ground (arith, b) in
    omega (arith, ltb→lt attempt (min policy.max_attempts (attempt_limit e)) c, limit_le e)

some_injective : {A : Type 0} {x y : A} → some x ≡ some y → x ≡ y
some_injective h = cc

module _ (python : Python) (random : Random) where
  failed-Struck :
      (row : Delivery) (now : ℕ) (policy : RetryPolicy) (exc : Exn) (p : Pass python random)
      (db : Db)
      → find_delivery row.delivery_id db.deliveries ≡ some row
      → (d : Delivery) × (find_delivery row.delivery_id
            (failed python random row now policy exc p db).1.deliveries
          ≡ some d)
        × Struck policy row d
  unfolding record_budget
  failed-Struck row now policy exc p db found =
      let own = (eq_iff row.delivery_id row.delivery_id).1 refl in
      elim (Bool-cases (should_retry policy (classify exc) (row.attempts + 1) p.used)) [
        | inl h ↦ rw h (
          set_retry (row.attempts + 1) (now + (drawn python random row policy p.rng).0)
              (classify exc).code row,
          rw (find_delivery-update, own, found) refl,
          record {
            counted = refl;
            ends = inr (retried_below policy exc (row.attempts + 1) p.used h);
          },
        )
        | inr h ↦ rw h (
          set_dead_lettered (row.attempts + 1) (classify exc).code row,
          rw (find_delivery-update, own, found) refl,
          record { counted = refl; ends = inl refl },
        )
      ]

  -- So many failed attempts at the delivery, from one state of the database to another: each round
  -- of a drain takes the stored row and finds that handling it raises. What the drains do to other
  -- deliveries in between may change the database, but not this row.
  pub data Failing (policy : RetryPolicy) (key : String) : ℕ → Db → Db → Type 0 where
    never : (db : Db) → Failing policy key 0 db db
    again :
        {n : ℕ} {db middle later : Db} (row : Delivery) (now : ℕ) (p : Pass python random)
        (exc : Exn) (written : Db)
        → find_delivery key db.deliveries ≡ some row
        → process python random row now policy db ≡ (raise exc, written)
        → find_delivery key middle.deliveries
          ≡ find_delivery key (drain_row python random row now policy p (closed db)).1.db.deliveries
        → Failing policy key n middle later
        → Failing policy key (suc n) db later

  one_round :
      (policy : RetryPolicy) (key : String) (db : Db) (row : Delivery) (now : ℕ)
      (p : Pass python random) (exc : Exn) (written : Db)
      → find_delivery key db.deliveries ≡ some row
      → process python random row now policy db ≡ (raise exc, written)
      → (d : Delivery) × (find_delivery key
            (drain_row python random row now policy p (closed db)).1.db.deliveries
          ≡ some d)
        × Struck policy row d
  one_round policy key db row now p exc written found fails =
      let same = find_delivery_key key db.deliveries found in
      let (d, f, st) =
        failed-Struck row now policy exc p db
          (ap (λ k. find_delivery k db.deliveries) same ∙ found) in
      (
        d,
        ap
              (λ k.
                find_delivery k
                  (drain_row python random row now policy p (closed db)).1.db.deliveries)
              (sym same)
            ∙ rw (drain_row-eq python random row now policy p db, fails) f,
        st,
      )

  -- The row has failed before: it is dead lettered, or has attempts left.
  abbrev Ends : RetryPolicy → Delivery → Type 0
  Ends policy d = (d.state ≡ DeliveryState.dead_lettered) ⊎ (d.attempts < min policy.max_attempts 5)

  Failing-Ends :
      (policy : RetryPolicy) (key : String) (n : ℕ) (db later : Db) (row : Delivery)
      → Failing policy key n db later
      → find_delivery key db.deliveries ≡ some row
      → Ends policy row ⊎ (0 < n)
      → (d : Delivery) × (find_delivery key later.deliveries ≡ some d)
        × (d.attempts ≡ row.attempts + n)
        × Ends policy d
  Failing-Ends policy key zero db later row (never _) h (inl e) = (row, h, omega arith, e)
  Failing-Ends policy key zero db later row (never _) h (inr e) = absurd (omega (arith, e))
  Failing-Ends policy key (suc n) db later row
        (again {middle} row' now p exc written found fails other rest) h e =
      let same : row' ≡ row = some_injective (sym found ∙ h) in
      let (d, f, st) = one_round policy key db row' now p exc written found fails in
      let (d', f', count, ends) =
        Failing-Ends policy key n middle later d rest (other ∙ f) (inl st.ends) in
      (d', f', omega (arith, count, st.counted, ap (λ r. r.attempts) same), ends)

-- A poisoned delivery leaves the queue: once every attempt at a stored delivery has failed, whatever
-- exceptions its handling raised and whatever the drains did to other deliveries in between, and
-- five attempts or the policy's maximum have been made in all, the delivery is dead lettered.
pub Failing-dead_lettered :
    (python : Python) (random : Random) (policy : RetryPolicy) (key : String) (n : ℕ)
    (db later : Db) (row : Delivery)
    → Failing python random policy key (suc n) db later
    → find_delivery key db.deliveries ≡ some row
    → min policy.max_attempts 5 ≤ row.attempts + suc n
    → (d : Delivery) × (find_delivery key later.deliveries ≡ some d)
      × (d.state ≡ DeliveryState.dead_lettered)
Failing-dead_lettered python random policy key n db later row fs h spent =
    let (d, f, count, ends) =
      Failing-Ends python random policy key (suc n) db later row fs h (inr (omega arith)) in
    (d, f, elim ends [ inl dead ↦ dead | inr left ↦ absurd (omega (arith, left, count, spent)) ])
