-- ===== src/Inbox/Receive/Inserted.antt =====
-- How many rows a receipt inserts: one where it answers `new`, and none otherwise.
use quidz.Prelude.{
  ℕ, ◌+◌, String, ◌≡◌, refl, ap, ◌∙◌, Bool-cases, inl, inr, Option, none, some, List, [], ◌∷◌, ◌++◌,
  length, arith,
}
use quidz.Prelude.Int.{ℤ, pos}
use quidz.Errors.{Result, ok, raise, signature_error, stale_timestamp}
use quidz.Event.{Provider, stripe, adyen}
use quidz.Python.{Python}
use quidz.Dlq.{is_instance}
use quidz.Metrics.{bump}
use quidz.Signatures.{Crypto, verify_stripe, verify_adyen}
use quidz.Store.{
  DeliveryState, Delivery, Db, Connection, close_tx, write_tx, find_delivery, update_deliveries,
}
use quidz.Inbox.{
  ClaimReason, new, ClaimResult, same_state, live, delivery_key, identity_of, payload_of,
  claim_body, claim, reclaim,
}
use quidz.Inbox.Claims.{by_row, claim_body-eq}
use quidz.Inbox.Receive.{
  Session, exec, go_on, pure, counted_stripe, counted_adyen, is_duplicate, count_duplicate,
  signature_of, receive_stripe, receive_adyen,
}

abbrev pub size : Db → ℕ
size db = length db.deliveries

-- How many rows an answer stands for.
abbrev pub rows_of : ClaimReason → ℕ
rows_of new = 1
rows_of _ = 0

abbrev pub rows : Result ClaimResult → ℕ
rows (ok r) = rows_of r.reason
rows (raise e) = 0

-- The deliveries have grown by the rows that the answer stands for.
pub record Inserted (before : Db) (answer : Result ClaimResult) (after : Db) : Type 0 where
  pub grown : size after ≡ size before + rows answer

-- A receipt that inserts as many rows as it says, from any connection.
pub record Exact (s : Session ClaimResult) : Type 0 where
  pub at : (conn : Connection) → Inserted conn.db (s conn).0 (s conn).1.db

module _ {A : Type 0} where
  go_on-Inserted :
      (next : A → Session ClaimResult)
      → ((a : A) → Exact (next a))
      → (before : Db) (p : Result A × Connection) → size p.1.db ≡ size before
      → Inserted before (go_on p next).0 (go_on p next).1.db
  go_on-Inserted next step before (ok a, conn) h = record {
    grown = ((step a).at conn).grown ∙ ap (λ n. n + rows (next a conn).0) h;
  }
  go_on-Inserted next step before (raise e, conn) h = record { grown = omega (arith, h) }

  -- A first step that inserts nothing.
  Exact-then :
      (first : Session A) {next : A → Session ClaimResult}
      → ((conn : Connection) → size (first conn).1.db ≡ size conn.db)
      → ((a : A) → Exact (next a))
      → Exact (λ conn. go_on (first conn) next)
  Exact-then first {next} h step = record {
    at = λ conn. go_on-Inserted next step conn.db (first conn) (h conn);
  }

bump-size :
    (conn : Connection) → size (exec (bump "events_received" (pos 1)) conn).1.db ≡ size conn.db
unfolding bump
bump-size conn = refl

module _ {A : Type 0} where
  counted_adyen-size :
      (r : Result A) (conn : Connection) → size (counted_adyen r conn).1.db ≡ size conn.db
  unfolding bump
  counted_adyen-size (ok a) conn = refl
  counted_adyen-size (raise e) conn = elim (Bool-cases (is_instance e signature_error)) [
    | inl h ↦ rw h refl
    | inr h ↦ rw h refl
  ]

  counted_stripe-size :
      (r : Result A) (conn : Connection) → size (counted_stripe r conn).1.db ≡ size conn.db
  unfolding bump
  counted_stripe-size (raise stale_timestamp) conn = refl
  counted_stripe-size r conn = counted_adyen-size r conn

count_duplicate-Inserted :
    (before : Db) (r : ClaimResult) (conn : Connection)
    → Inserted before (ok r) conn.db
    → Inserted before (count_duplicate r conn).0 (count_duplicate r conn).1.db
unfolding bump
count_duplicate-Inserted before r conn i = elim (Bool-cases (is_duplicate r.reason)) [
  | inl h ↦ rw h (record { grown = i.grown })
  | inr h ↦ rw h (record { grown = i.grown })
]

length-update :
    (key : String) (change : Delivery → Delivery) (ds : List Delivery)
    → length (update_deliveries key change ds) ≡ length ds
length-update key change [] = refl
length-update key change (d ∷ ds) = omega (arith, length-update key change ds)

length-snoc : (ds : List Delivery) (d : Delivery) → length (ds ++ d ∷ []) ≡ length ds + 1
length-snoc [] d = omega arith
length-snoc (x ∷ ds) d = omega (arith, length-snoc ds d)

close_tx-Inserted :
    (before : Db) (p : Result ClaimResult × Db)
    → Inserted before p.0 p.1
    → Inserted before (close_tx before p).0 (close_tx before p).1.db
close_tx-Inserted before (ok r, db) i = record { grown = i.grown }
close_tx-Inserted before (raise e, db) i = record { grown = omega arith }

module _ (provider : Provider) (identity : String) (raw : List ℕ) (headers : List (String × String))
    (now lease : ℕ) where
  by_row-Inserted :
      (o : Option Delivery) (db : Db)
      → Inserted db
          (by_row provider identity raw headers now lease o db).0
          (by_row provider identity raw headers now lease o db).1
  by_row-Inserted none db = record { grown = length-snoc db.deliveries _ }
  by_row-Inserted (some d) db = elim (Bool-cases (same_state d.state DeliveryState.claimed)) [
    | inr s ↦ rw s (record { grown = omega arith })
    | inl s ↦ rw s (elim (Bool-cases (live d.lease_expires_at now)) [
      | inl l ↦ rw l (record { grown = omega arith })
      | inr l ↦ rw l (record {
        grown = omega (
          arith,
          length-update (delivery_key provider identity) (reclaim raw headers now lease)
              db.deliveries,
        );
      })
    ])
  ]

  claim-Inserted :
      (conn : Connection)
      → Inserted conn.db
          (claim provider identity raw headers now lease conn).0
          (claim provider identity raw headers now lease conn).1.db
  unfolding claim write_tx
  claim-Inserted conn = elim (Bool-cases conn.in_transaction) [
    | inl h ↦ rw h (record { grown = omega arith })
    | inr h ↦ rw h (
        close_tx-Inserted conn.db (claim_body provider identity raw headers now lease conn.db) (
          rw (claim_body-eq provider identity raw headers now lease conn.db) (
            by_row-Inserted (find_delivery (delivery_key provider identity) conn.db.deliveries)
              conn.db)))
  ]

  counted-Inserted :
      (before : Db) (p : Result ClaimResult × Connection)
      → Inserted before p.0 p.1.db
      → Inserted before (go_on p count_duplicate).0 (go_on p count_duplicate).1.db
  counted-Inserted before (ok r, c) i = count_duplicate-Inserted before r c i
  counted-Inserted before (raise e, c) i = i

  claimed-Exact :
      Exact (λ conn. go_on (claim provider identity raw headers now lease conn) count_duplicate)
  claimed-Exact = record {
    at = λ conn.
        counted-Inserted conn.db (claim provider identity raw headers now lease conn)
          (claim-Inserted conn);
  }

module _ (python : Python) (crypto : Crypto) where
  pub receive_stripe-Exact :
      (raw : List ℕ) (headers : List (String × String)) (secrets : List (List ℕ)) (now lease : ℕ)
      (tolerance : ℤ)
      → Exact (receive_stripe python crypto raw headers secrets now lease tolerance)
  unfolding receive_stripe
  receive_stripe-Exact raw headers secrets now lease tolerance =
      Exact-then (exec (bump "events_received" (pos 1))) bump-size (λ _.
        Exact-then (counted_stripe (verify_stripe crypto raw headers secrets now tolerance))
          (counted_stripe-size (verify_stripe crypto raw headers secrets now tolerance))
          (λ _.
            Exact-then (pure (payload_of python raw)) (λ conn. refl)
              (λ payload.
                Exact-then (pure (identity_of stripe payload)) (λ conn. refl)
                  (λ identity. claimed-Exact stripe identity raw headers now lease))))

  pub receive_adyen-Exact :
      (raw : List ℕ) (hmac_key_hex : String) (now lease : ℕ)
      → Exact (receive_adyen python crypto raw hmac_key_hex now lease)
  unfolding receive_adyen
  receive_adyen-Exact raw hmac_key_hex now lease =
      Exact-then (exec (bump "events_received" (pos 1))) bump-size (λ _.
        Exact-then (pure (payload_of python raw)) (λ conn. refl)
          (λ item.
            Exact-then
              (counted_adyen
                (verify_adyen crypto item (signature_of python crypto item) hmac_key_hex))
              (counted_adyen-size
                (verify_adyen crypto item (signature_of python crypto item) hmac_key_hex))
              (λ _.
                Exact-then (pure (identity_of adyen item)) (λ conn. refl)
                  (λ identity. claimed-Exact adyen identity raw [] now lease))))
