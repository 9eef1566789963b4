-- ===== src/Tests/Inbox.antt =====
-- Claims and a drain of an inbox with a poisoned delivery (src/quidz/inbox.py).
use quidz.Prelude.{◌++◌, some, ◌≡◌, refl, ◌≤◌, ◌⊎◌, true, false, none, [], ◌∷◌, arith}
use quidz.Prelude.Int.{pos, ◌+ℤ◌, ◌≤ℤ◌}
use quidz.Errors.{ok}
use quidz.Event.{adyen}
use quidz.Store.{Delivery, Db, Connection, write_tx, insert_delivery, find_delivery, empty}
use quidz.Store.Transactions.{closed}
use quidz.Ledger.History.{IsFaithful}
use quidz.Inbox.{lease_reclaimed, new, in_progress, delivery_key, claim_body, claim, new_delivery}
use quidz.Inbox.Claims.{answer, claim_exclusive, Redelivered, claim-Redelivered}
use quidz.Inbox.Drain.{budget_used, Pass, total, drain, due_rows}
use quidz.Inbox.Drain.Steps.{after_rows, first_pass, drain_total}
use quidz.Inbox.Drain.Totals.{drain_budget}
use quidz.Inbox.Drain.Keeps.{drain-IsFaithful, drain_isolated}
use quidz.Samples.{python, random, policy, delivery, inbox, inbox-IsFaithful}

abbrev claimed : Connection
claimed =
    closed (record empty { deliveries = new_delivery "adyen:psp1" adyen (1 ∷ []) [] 5 30 ∷ [] })

claims :
    claim adyen "psp1" (1 ∷ []) [] 5 30 (closed empty)
    ≡ (ok (answer "adyen:psp1" true new), claimed)
unfolding claim write_tx claim_body insert_delivery delivery_key
claims = refl

abbrev busier : Db
busier = record claimed.db { deliveries = claimed.db.deliveries ++ inbox.deliveries }

same_row :
    find_delivery (delivery_key adyen "psp1") busier.deliveries
    ≡ find_delivery (delivery_key adyen "psp1") claimed.db.deliveries
unfolding delivery_key
same_row = refl

claim_exclusive_example :
    claim adyen "psp1" (2 ∷ []) [] 34 30 (closed busier)
    ≡ (ok (answer (delivery_key adyen "psp1") false in_progress), closed busier)
claim_exclusive_example =
    claim_exclusive adyen "psp1" (1 ∷ []) (2 ∷ []) [] [] 5 34 30 30 (closed empty) busier claims
      refl (omega arith) same_row

drain_total_example :
    let (p, db') =
      after_rows python random
        (due_rows 2 10 inbox)
        2
        policy
        (first_pass python random 2 policy none inbox, inbox) in
    drain python random 2 policy 10 none (closed inbox) ≡ (ok p, closed db')
drain_total_example = drain_total python random 2 policy 10 none inbox

abbrev drained : Pass python random × Db
drained =
    after_rows python random (due_rows 2 10 inbox) 2 policy
      (first_pass python random 2 policy none inbox, inbox)

drain_budget_example :
    (budget_used drained.1 2 ≡ budget_used inbox 2 +ℤ pos drained.0.report.retried)
    × ((drained.0.report.retried ≡ 0) ⊎ (budget_used drained.1 2 ≤ℤ pos policy.budget_per_minute))
    × (total drained.0.report ≤ 10)
drain_budget_example =
    drain_budget python random 2 policy 10 none inbox
      (drain_total python random 2 policy 10 none inbox)

drain-IsFaithful_example : IsFaithful (drain python random 2 policy 10 none (closed inbox)).1.db
drain-IsFaithful_example = drain-IsFaithful python random 2 policy 10 none inbox inbox-IsFaithful

drain_isolated_example :
    find_delivery "adyen:good" (drain python random 2 policy 1 none (closed inbox)).1.db.deliveries
    ≡ find_delivery "adyen:good" inbox.deliveries
unfolding due_rows
drain_isolated_example = drain_isolated python random 2 policy 1 none inbox "adyen:good" refl

abbrev waiting_row : Delivery
waiting_row = record (delivery "adyen:psp1" (123 ∷ [])) {
  attempts = 2;
  next_attempt_at = some 900;
  lease_expires_at = none;
}

abbrev backing_off : Connection
backing_off = closed (record empty { deliveries = waiting_row ∷ [] })

abbrev reclaimed_row : Delivery
reclaimed_row = record waiting_row { raw = 7 ∷ []; lease_expires_at = some 80 }

reclaims : claim adyen "psp1" (7 ∷ []) [] 50 30 backing_off ≡ (
  ok (answer "adyen:psp1" true lease_reclaimed),
  closed (record empty { deliveries = reclaimed_row ∷ [] }),
)
unfolding claim write_tx claim_body insert_delivery delivery_key
reclaims = refl

held_row : find_delivery (delivery_key adyen "psp1") backing_off.db.deliveries ≡ some waiting_row
unfolding delivery_key
held_row = refl

claim-Redelivered_example :
    (d' : Delivery) × (find_delivery (delivery_key adyen "psp1") (reclaimed_row ∷ []) ≡ some d')
    × Redelivered waiting_row d'
claim-Redelivered_example =
    claim-Redelivered adyen "psp1" (7 ∷ []) [] 50 30 backing_off held_row reclaims
