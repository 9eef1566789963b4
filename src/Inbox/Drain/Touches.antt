-- ===== src/Inbox/Drain/Touches.antt =====
-- What the statements of a drain change (`_settle` and the retries of `drain`, in
-- src/quidz/inbox.py).
use mathlib.Core.Path.{subst}
use quidz.Prelude.{
  ℕ, ◌+◌, ◌≡◌, refl, ap, ◌∙◌, Bool-cases, false, inl, inr, Option, some, none, String, str_eq,
}
use quidz.Errors.{Exn}
use quidz.Model.{PaymentState}
use quidz.Python.{Python}
use quidz.Store.{DeliveryState, Delivery, Db, update_deliveries, find_delivery, find_payment}
use quidz.Store.Deliveries.{find_delivery-update}
use quidz.Metrics.{bump}
use quidz.Ledger.{ApplyOutcome, load_payment}
use quidz.Ledger.History.{IsFaithful, ReplaysTo}
use quidz.Dlq.{RetryPolicy, Random, classify, should_retry}
use quidz.Inbox.Keyed.{Unkeyed}
use quidz.Inbox.Drain.{record_budget, Pass, settle}
use quidz.Inbox.Drain.Steps.{failed}

-- Two databases have the same ledger tables.
pub record SameLedger (a b : Db) : Type 0 where
  pub same_effects : a.effects ≡ b.effects
  pub same_payments : a.payments ≡ b.payments

replays-frame :
    (o : Option PaymentState) (pid : String) (a b : Db)
    → a.effects ≡ b.effects
    → ReplaysTo o pid a
    → ReplaysTo o pid b
replays-frame none pid a b h r = rw (← h) r
replays-frame (some s) pid a b h r = rw (← h) r

pub IsFaithful-frame : {a b : Db} → SameLedger a b → IsFaithful a → IsFaithful b
unfolding load_payment
IsFaithful-frame {a} {b} s f = record {
  at = λ pid.
      subst (λ ps. ReplaysTo (find_payment pid ps) pid b) s.same_payments
        (replays-frame (find_payment pid a.payments) pid a b s.same_effects (f.at pid));
}

-- One row is changed, in what is not its key, and the ledger tables are as they were.
pub record Touches (did : String) (a b : Db) : Type 0 where
  pub ledger : SameLedger a b
  pub change : Delivery → Delivery
  pub rows : b.deliveries ≡ update_deliveries did change a.deliveries
  pub unkeyed : Unkeyed change

touching :
    (did : String) {a b : Db} (change : Delivery → Delivery)
    → Unkeyed change
    → b.deliveries ≡ update_deliveries did change a.deliveries
    → a.effects ≡ b.effects
    → a.payments ≡ b.payments
    → Touches did a b
touching did change u rows effects payments = record {
  ledger = record { same_effects = effects; same_payments = payments };
  change = change;
  rows = rows;
  unkeyed = u;
}

pub Touches-other :
    (did : String) {a b : Db}
    → Touches did a b
    → (k : String) → str_eq did k ≡ false
    → find_delivery k b.deliveries ≡ find_delivery k a.deliveries
Touches-other did {a} {b} t k ne =
    ap (find_delivery k) t.rows
    ∙ rw (find_delivery-update did k t.change a.deliveries t.unkeyed.same_id, ne) refl

kept_key :
    (change : Delivery → Delivery)
    → ((d : Delivery) → (change d).delivery_id ≡ d.delivery_id)
    → ((d : Delivery) → (change d).provider ≡ d.provider)
    → ((d : Delivery) → (change d).raw ≡ d.raw)
    → Unkeyed change
kept_key change i p r = record { same_id = i; same_provider = p; same_raw = r }

pub settle-Touches :
    (did : String) (was : DeliveryState) (o : ApplyOutcome) (now : ℕ) (policy : RetryPolicy)
    (db : Db)
    → Touches did db (settle did was o now policy db).1
unfolding settle bump
settle-Touches did DeliveryState.parked ApplyOutcome.parked now policy db =
    touching did _ (kept_key _ (λ d. refl) (λ d. refl) (λ d. refl)) refl refl refl
settle-Touches did _ ApplyOutcome.parked now policy db =
    touching did _ (kept_key _ (λ d. refl) (λ d. refl) (λ d. refl)) refl refl refl
settle-Touches did was ApplyOutcome.noop_duplicate now policy db =
    touching did _ (kept_key _ (λ d. refl) (λ d. refl) (λ d. refl)) refl refl refl
settle-Touches did was _ now policy db =
    touching did _ (kept_key _ (λ d. refl) (λ d. refl) (λ d. refl)) refl refl refl

module _ (python : Python) (random : Random) where
  pub failed-Touches :
      (row : Delivery) (now : ℕ) (policy : RetryPolicy) (exc : Exn) (p : Pass python random)
      (db : Db)
      → Touches row.delivery_id db (failed python random row now policy exc p db).1
  unfolding record_budget
  failed-Touches row now policy exc p db =
      elim (Bool-cases (should_retry policy (classify exc) (row.attempts + 1) p.used)) [
        | inl h ↦ rw h (
            touching row.delivery_id _ (kept_key _ (λ d. refl) (λ d. refl) (λ d. refl)) refl refl
              refl)
        | inr h ↦ rw h (
            touching row.delivery_id _ (kept_key _ (λ d. refl) (λ d. refl) (λ d. refl)) refl refl
              refl)
      ]
