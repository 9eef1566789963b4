-- ===== src/App/Stored.antt =====
-- No request takes a delivery away, and an answered claim is stored.
use quidz.Prelude.{
  ℕ, String, str_eq, eq_iff, ◌≡◌, refl, sym, ap, ◌∙◌, true, Bool-cases, inl, inr, is_some, Option,
  none, some, List, [], ◌∷◌, any, any-append, arith,
}
use quidz.Prelude.Int.{ℤ}
use quidz.Errors.{Result, ok, raise}
use quidz.Event.{Provider}
use quidz.Metrics.{bump, check}
use quidz.Store.{
  DeliveryState, Delivery, Db, Connection, Exec, close_tx, write_tx, has_delivery, find_delivery,
  update_deliveries,
}
use quidz.Store.Transactions.{write_tx-Committed}
use quidz.Store.Deliveries.{any_delivery-eq}
use quidz.Inbox.{same_state, live, ClaimResult, delivery_key, reclaim, claim_body, claim}
use quidz.Inbox.Claims.{by_row, claim_body-eq}
use quidz.Inbox.Receive.{Session, exec, go_on, pure}

-- Every delivery of the first database is in the second.
pub record Grows (a b : Db) : Type 0 where
  pub keeps : (key : String) → has_delivery key a ≡ true → has_delivery key b ≡ true

pub Grows-refl : (a : Db) → Grows a a
Grows-refl a = record { keeps = λ key h. h }

pub Grows-trans : {a b c : Db} → Grows a b → Grows b c → Grows a c
Grows-trans g h = record { keeps = λ key k. h.keeps key (g.keeps key k) }

update-has :
    (id key : String) (change : Delivery → Delivery) (ds : List Delivery)
    → ((d : Delivery) → (change d).delivery_id ≡ d.delivery_id)
    → any (λ d. str_eq d.delivery_id key) (update_deliveries id change ds)
      ≡ any (λ d. str_eq d.delivery_id key) ds
update-has id key change [] keeps = refl
update-has id key change (d ∷ ds) keeps = ground (arith, update-has id key change ds keeps, keeps d)

module _ {A : Type 0} where
  -- A step after which every delivery is still there, whether it raises or not.
  pub record Growing (s : Session A) : Type 0 where
    pub grows : (conn : Connection) → Grows conn.db (s conn).1.db

  pub Growing-pure : (r : Result A) → Growing (pure r)
  Growing-pure r = record { grows = λ conn. Grows-refl conn.db }

module _ {A B : Type 0} where
  go_on-Grows :
      (p : Result A × Connection) (next : A → Session B)
      → ((a : A) → Growing (next a))
      → Grows p.1.db (go_on p next).1.db
  go_on-Grows (ok a, conn) next h = (h a).grows conn
  go_on-Grows (raise e, conn) next h = Grows-refl conn.db

  pub Growing-then :
      (first : Session A) {next : A → Session B}
      → Growing first
      → ((a : A) → Growing (next a))
      → Growing (λ conn. go_on (first conn) next)
  Growing-then first {next} h k = record {
    grows = λ conn. Grows-trans (h.grows conn) (go_on-Grows (first conn) next k);
  }

pub bump-Growing : (name : String) (delta : ℤ) → Growing (exec (bump name delta))
unfolding bump
bump-Growing name delta = record {
  grows = λ conn. elim (Bool-cases (check name)) [
    | inl h ↦ rw h (record { keeps = λ key k. k })
    | inr h ↦ rw h (record { keeps = λ key k. k })
  ];
}

module _ {A : Type 0} where
  close_tx-Grows :
      (before : Db) (p : Result A × Db) → Grows before p.1 → Grows before (close_tx before p).1.db
  close_tx-Grows before (ok a, db) g = record { keeps = g.keeps }
  close_tx-Grows before (raise e, db) g = record { keeps = λ key h. h }

  write_tx-Growing : (body : Exec A) → ((db : Db) → Grows db (body db).1) → Growing (write_tx body)
  unfolding write_tx
  write_tx-Growing body g = record {
    grows = λ conn. elim (Bool-cases conn.in_transaction) [
      | inl h ↦ rw h (Grows-refl conn.db)
      | inr h ↦ rw h (close_tx-Grows conn.db (body conn.db) (g conn.db))
    ];
  }

module _ (provider : Provider) (identity : String) (raw : List ℕ) (headers : List (String × String))
    (now lease : ℕ) where
  reclaim-Grows :
      (db : Db) (d : Delivery)
      → Grows db (by_row provider identity raw headers now lease (some d) db).1
  reclaim-Grows db d = elim (Bool-cases (same_state d.state DeliveryState.claimed)) [
    | inr s ↦ rw s (Grows-refl db)
    | inl s ↦ rw s (elim (Bool-cases (live d.lease_expires_at now)) [
      | inl l ↦ rw l (Grows-refl db)
      | inr l ↦ rw l (record {
        keeps = λ key h.
            update-has (delivery_key provider identity) key (reclaim raw headers now lease)
              db.deliveries (λ d. refl)
            ∙ h;
      })
    ])
  ]

  by_row-Grows :
      (o : Option Delivery) (db : Db)
      → Grows db (by_row provider identity raw headers now lease o db).1
  by_row-Grows none db = record {
    keeps = λ key h. any-append (λ d. str_eq d.delivery_id key) db.deliveries _ ∙ rw h refl;
  }
  by_row-Grows (some d) db = reclaim-Grows db d

  by_row-stores :
      (o : Option Delivery) (db : Db)
      → is_some o ≡ has_delivery (delivery_key provider identity) db
      → has_delivery
          (delivery_key provider identity)
          (by_row provider identity raw headers now lease o db).1
        ≡ true
  by_row-stores (some d) db h =
      (by_row-Grows (some d) db).keeps (delivery_key provider identity) (sym h)
  by_row-stores none db h =
      any-append (λ d. str_eq d.delivery_id (delivery_key provider identity)) db.deliveries _
      ∙ rw (← h, (eq_iff (delivery_key provider identity) (delivery_key provider identity)).1 refl)
          refl

  claim_body-Grows : (db : Db) → Grows db (claim_body provider identity raw headers now lease db).1
  claim_body-Grows db =
      rw (claim_body-eq provider identity raw headers now lease db)
        (by_row-Grows (find_delivery (delivery_key provider identity) db.deliveries) db)

  pub claim-Growing : Growing (claim provider identity raw headers now lease)
  unfolding claim
  claim-Growing =
      write_tx-Growing (claim_body provider identity raw headers now lease) claim_body-Grows

  -- Whatever a claim answers, the delivery is then stored.
  pub claim-stores :
      (conn : Connection) {r : ClaimResult} {conn' : Connection}
      → claim provider identity raw headers now lease conn ≡ (ok r, conn')
      → has_delivery (delivery_key provider identity) conn'.db ≡ true
  unfolding claim
  claim-stores conn h =
      let c = write_tx-Committed (claim_body provider identity raw headers now lease) conn h in
      rw (← ap (λ z. z.1) c.ran) (
        rw (claim_body-eq provider identity raw headers now lease conn.db) (
          by_row-stores (find_delivery (delivery_key provider identity) conn.db.deliveries) conn.db
            (sym (any_delivery-eq (delivery_key provider identity) conn.db.deliveries))))
