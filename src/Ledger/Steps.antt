-- ===== src/Ledger/Steps.antt =====
-- `apply_delivery` as one case distinction: what every later proof splits on.
use quidz.Prelude.{
  String, ◌≡◌, refl, Bool, not, ◌||◌, Option, none, some, ◌++◌, ◌∷◌, [], if◌then◌else◌, Bool-cases,
  inl, inr,
}
use quidz.Errors.{Result, ok, raise, Result-cases}
use quidz.Event.{Money, CanonicalEvent}
use quidz.Model.{PaymentState, opened, apply_effect}
use quidz.Store.{Db, has_effect, has_delivery, savepoint, insert_effect, upsert_payment}
use quidz.Ledger.{
  ApplyOutcome, applied, noop_duplicate, parked, unwound, effect_row, load_payment, apply_to,
  apply_new, apply_found, apply_delivery,
}

abbrev pub base_new : CanonicalEvent → Option Money → Option PaymentState
base_new e none = none
base_new e (some a) = some (opened e.payment_id a.currency)

abbrev pub base_found : CanonicalEvent → Option PaymentState → Option PaymentState
base_found e none = base_new e e.amount
base_found e (some s) = some s

-- The aggregate that an event is folded into: the stored one, or a new one in its currency.
abbrev pub base_state : Db → CanonicalEvent → Option PaymentState
base_state db e = base_found e (load_payment db e.payment_id)

-- The insert of the effect row is refused.
abbrev pub refused : String → CanonicalEvent → Db → Bool
refused did e db = has_effect e.payment_id e.kind e.provider_ref db || not (has_delivery did db)

abbrev pub after : String → CanonicalEvent → PaymentState → Db → Db
after did e t db = record db {
  effects = db.effects ++ effect_row did e ∷ [];
  payments = upsert_payment t e.occurred_at db.payments;
}

abbrev pub folded : String → CanonicalEvent → Db → Result PaymentState → Result ApplyOutcome × Db
folded did e db (raise x) = (unwound x, db)
folded did e db (ok t) = (ok applied, after did e t db)

abbrev pub outcome_at :
    String → CanonicalEvent → Db → Option PaymentState → Result ApplyOutcome × Db
outcome_at did e db none = (ok parked, db)
outcome_at did e db (some s) =
    if refused did e db then (ok noop_duplicate, db) else folded did e db (apply_effect s e)

apply_to-eq :
    (did : String) (e : CanonicalEvent) (s : PaymentState) (db : Db)
    → apply_to did e s db ≡ outcome_at did e db (some s)
unfolding apply_to savepoint insert_effect
apply_to-eq did e s db = elim (Bool-cases (refused did e db)) [
  | inl r ↦ rw r refl
  | inr r ↦
      rw r
        (elim (Result-cases (apply_effect s e)) [ inl (x, h) ↦ rw h refl | inr (t, h) ↦ rw h refl ])
]

apply_new-eq :
    (did : String) (e : CanonicalEvent) (a : Option Money) (db : Db)
    → apply_new did e a db ≡ outcome_at did e db (base_new e a)
apply_new-eq did e none db = refl
apply_new-eq did e (some a) db = apply_to-eq did e (opened e.payment_id a.currency) db

apply_found-eq :
    (did : String) (e : CanonicalEvent) (s : Option PaymentState) (db : Db)
    → apply_found did e s db ≡ outcome_at did e db (base_found e s)
apply_found-eq did e none db = apply_new-eq did e e.amount db
apply_found-eq did e (some s) db = apply_to-eq did e s db

pub apply_delivery-eq :
    (did : String) (e : CanonicalEvent) (db : Db)
    → apply_delivery did e db ≡ outcome_at did e db (base_state db e)
unfolding apply_delivery
apply_delivery-eq did e db = apply_found-eq did e (load_payment db e.payment_id) db
