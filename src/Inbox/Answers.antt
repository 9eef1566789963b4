-- ===== src/Inbox/Answers.antt =====
-- The answer of a claim outside a transaction (`claim` of src/quidz/inbox.py).
use quidz.Prelude.{ℕ, String, ◌≡◌, refl, ap, ◌∙◌, Option, none, some, List, Bool-cases, inl, inr}
use quidz.Errors.{Result, ok}
use quidz.Event.{Provider}
use quidz.Store.{DeliveryState, Delivery, Db, close_tx, find_delivery}
use quidz.Store.Transactions.{closed, write_tx-idle}
use quidz.Inbox.{ClaimResult, same_state, live, delivery_key, claim_body, claim}
use quidz.Inbox.Claims.{by_row, claim_body-eq}
use quidz.Inbox.Drain.Touches.{SameLedger}

-- A step that answers, and writes neither effects nor payments.
record Answers {A : Type 0} (before : Db) (p : Result A × Db) : Type 0 where
  pub answer : A
  pub after : Db
  pub ran : p ≡ (ok answer, after)
  pub same : SameLedger before after

Answers-same :
    {A : Type 0} (before after : Db) (a : A)
    → before.effects ≡ after.effects
    → before.payments ≡ after.payments
    → Answers before (ok a, after)
Answers-same before after a e p = record {
  answer = a;
  after = after;
  ran = refl;
  same = record { same_effects = e; same_payments = p };
}

module _ (provider : Provider) (identity : String) (raw : List ℕ) (headers : List (String × String))
    (now lease : ℕ) where
  by_row-Answers :
      (o : Option Delivery) (db : Db)
      → Answers db (by_row provider identity raw headers now lease o db)
  by_row-Answers none db = Answers-same db _ _ refl refl
  by_row-Answers (some d) db = elim (Bool-cases (same_state d.state DeliveryState.claimed)) [
    | inr s ↦ rw s (Answers-same db _ _ refl refl)
    | inl s ↦ rw s (elim (Bool-cases (live d.lease_expires_at now)) [
      | inl l ↦ rw l (Answers-same db _ _ refl refl)
      | inr l ↦ rw l (Answers-same db _ _ refl refl)
    ])
  ]

  -- A claim outside a transaction always answers.
  pub claim-Answers :
      (db : Db)
      → (r : ClaimResult) × (after : Db) × (claim provider identity raw headers now lease
            (closed db)
          ≡ (ok r, closed after))
        × SameLedger db after
  unfolding claim
  claim-Answers db =
      let a = by_row-Answers (find_delivery (delivery_key provider identity) db.deliveries) db in
      (
        a.answer,
        a.after,
        write_tx-idle (claim_body provider identity raw headers now lease) db
            ∙ ap (close_tx db) (claim_body-eq provider identity raw headers now lease db ∙ a.ran),
        a.same,
      )
