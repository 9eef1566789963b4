-- ===== src/Ledger.antt =====
-- The transactional application of one canonical event (src/quidz/ledger.py).
mod Tables
mod Steps
pub mod Once
pub mod History
pub mod Books
pub mod Listing
pub mod Priced
use mathlib.Core.Option.{map as opt_map}
use quidz.Prelude.{String, Option, none, some}
use quidz.Prelude.Int.{ℤ}
use quidz.Errors.{Exn, premature_event, integrity_error, Result, ok, raise}
use quidz.Event.{Money, CanonicalEvent}
use quidz.Model.{PaymentState, opened, apply_effect}
use quidz.Store.{
  Effect, Db, Exec, lift, ◌>>◌, savepoint, insert_effect, find_payment, upsert_payment,
}

pub data ApplyOutcome : Type 0 where
  applied noop_duplicate parked rejected : ApplyOutcome

unfoldable pub load_payment : Db → String → Option PaymentState
load_payment db payment_id = find_payment payment_id db.payments

-- The row that an event leaves in `effects`.
abbrev pub effect_row : String → CanonicalEvent → Effect
effect_row delivery_id event = record {
  payment_id = event.payment_id;
  kind = event.kind;
  provider_ref = event.provider_ref;
  amount_minor = opt_map (λ m. m.minor) event.amount;
  currency = opt_map (λ m. m.currency) event.amount;
  occurred_at = event.occurred_at;
  sequence = event.sequence;
  delivery_id = delivery_id;
  raw_amount_value = event.raw_amount_value;
  raw_currency = event.raw_currency;
}

-- The answer to an exception that has unwound the savepoint.
abbrev pub unwound : Exn → Result ApplyOutcome
unwound premature_event = ok parked
unwound integrity_error = ok noop_duplicate
unwound e = raise e

abbrev pub finish : CanonicalEvent → Result PaymentState × Db → Result ApplyOutcome × Db
finish event (raise e, db) = (unwound e, db)
finish event (ok updated, db) =
    (ok applied, record db { payments = upsert_payment updated event.occurred_at db.payments })

-- The insert and the fold under the savepoint, then the upsert of the aggregate.
unfoldable pub apply_to : String → CanonicalEvent → PaymentState → Exec ApplyOutcome
apply_to delivery_id event state db =
    finish event (
      savepoint (insert_effect (effect_row delivery_id event) >> lift (apply_effect state event))
        db)

-- No aggregate yet: an amount opens one in its currency, and an effect without one is parked.
abbrev pub apply_new : String → CanonicalEvent → Option Money → Exec ApplyOutcome
apply_new delivery_id event none db = (ok parked, db)
apply_new delivery_id event (some amount) db =
    apply_to delivery_id event (opened event.payment_id amount.currency) db

abbrev pub apply_found : String → CanonicalEvent → Option PaymentState → Exec ApplyOutcome
apply_found delivery_id event none db = apply_new delivery_id event event.amount db
apply_found delivery_id event (some state) db = apply_to delivery_id event state db

unfoldable pub apply_delivery : String → CanonicalEvent → Exec ApplyOutcome
apply_delivery delivery_id event db =
    apply_found delivery_id event (load_payment db event.payment_id) db
