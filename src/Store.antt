-- ===== src/Store.antt =====
-- The tables of the database, its constraints, and the write transaction (src/quidz/store.py).
-- SQLite is modelled as far as the statements of the package go: a table is the list of its rows
-- in the order of insertion, and a statement that violates a constraint raises `IntegrityError`
-- and changes nothing.
pub mod Deliveries
pub mod Transactions
use quidz.Prelude.{
  ℕ, String, str_eq, Bool, true, false, not, ◌&&◌, ◌||◌, Option, none, some, List, [], ◌∷◌, ◌++◌,
  any, keep, if◌then◌else◌,
}
use quidz.Prelude.Int.{ℤ, pos, ◌+ℤ◌, max_ℤ}
use quidz.Errors.{Exn, Result, ok, raise, runtime_error, integrity_error}
use quidz.Kind.{EffectKind, same_kind}
use quidz.Event.{Provider}
use quidz.Model.{PaymentState}
use quidz.Reconcile.{SettlementRow}

-- `DeliveryState` of src/quidz/inbox.py, the type of a column.
pub data DeliveryState : Type 0 where
  claimed applied duplicate parked dead_lettered : DeliveryState

-- A row of `deliveries`. The body is a list of bytes and the times are ticks.
pub record Delivery : Type 0 where
  pub delivery_id : String
  pub provider : Provider
  pub raw : List ℕ
  pub headers : List (String × String)
  pub received_at : ℕ
  pub state : DeliveryState
  pub attempts : ℕ
  pub next_attempt_at : Option ℕ
  pub lease_expires_at : Option ℕ
  pub parked_until : Option ℕ
  pub reason_code : Option String

-- A row of `effects`.
pub record Effect : Type 0 where
  pub payment_id : String
  pub kind : EffectKind
  pub provider_ref : String
  pub amount_minor : Option ℤ
  pub currency : Option String
  pub occurred_at : ℤ
  pub sequence : ℤ
  pub delivery_id : String
  pub raw_amount_value : Option String
  pub raw_currency : Option String

-- A row of `payments`.
pub record Payment : Type 0 where
  pub state : PaymentState
  pub updated_at : ℤ

pub record Db : Type 0 where
  pub deliveries : List Delivery
  pub effects : List Effect
  pub payments : List Payment
  pub counters : List (String × ℤ)
  pub settlement_rows : List SettlementRow

-- `init_schema` on a new file.
abbrev pub empty : Db
empty = record { deliveries = []; effects = []; payments = []; counters = []; settlement_rows = [] }

-- A connection: the database, and whether a transaction is open on it.
pub record Connection : Type 0 where
  pub db : Db
  pub in_transaction : Bool

-- Statements that may raise. What they have written stays until it is rolled back.
abbrev pub Exec : Type 0 → Type 0
Exec A = Db → Result A × Db

module _ {A B : Type 0} where
  abbrev pub continue : Result A × Db → (A → Exec B) → Result B × Db
  continue (ok a, db) f = f a db
  continue (raise e, db) f = (raise e, db)

  infixl 5 ◌>>=◌ ◌>>◌
  abbrev pub ◌>>=◌ : Exec A → (A → Exec B) → Exec B
  ◌>>=◌ m f db = continue (m db) f

  abbrev pub ◌>>◌ : Exec A → Exec B → Exec B
  ◌>>◌ m k db = continue (m db) (λ _. k)

module _ {A : Type 0} where
  abbrev pub lift : Result A → Exec A
  lift r db = (r, db)

abbrev pub modify : (Db → Db) → Exec (Unit {0})
modify f db = (ok tt, f db)

module _ {A : Type 0} where
  -- The end of the transaction: COMMIT keeps what the body wrote, ROLLBACK what was there before.
  abbrev pub close_tx : Db → Result A × Db → Result A × Connection
  close_tx before (ok a, after) = (ok a, record { db = after; in_transaction = false })
  close_tx before (raise e, after) = (raise e, record { db = before; in_transaction = false })

  -- BEGIN IMMEDIATE, the body, then COMMIT or ROLLBACK. Nesting is refused.
  unfoldable pub write_tx : Exec A → Connection → Result A × Connection
  write_tx body conn =
      if conn.in_transaction then (raise runtime_error, conn) else close_tx conn.db (body conn.db)

  -- `SAVEPOINT`, the body, then `RELEASE`, or `ROLLBACK TO` and `RELEASE` under an exception.
  abbrev release : Db → Result A × Db → Result A × Db
  release before (ok a, after) = (ok a, after)
  release before (raise e, after) = (raise e, before)

  unfoldable pub savepoint : Exec A → Exec A
  savepoint body db = release db (body db)

-- The columns of UNIQUE(payment_id, kind, provider_ref) agree.
abbrev pub same_effect : String → EffectKind → String → Effect → Bool
same_effect payment_id kind provider_ref r =
    str_eq r.payment_id payment_id && (same_kind r.kind kind && str_eq r.provider_ref provider_ref)

abbrev pub has_effect : String → EffectKind → String → Db → Bool
has_effect payment_id kind provider_ref db =
    any (same_effect payment_id kind provider_ref) db.effects

abbrev pub has_delivery : String → Db → Bool
has_delivery delivery_id db = any (λ d. str_eq d.delivery_id delivery_id) db.deliveries

-- INSERT INTO effects, under the unique constraint and the reference to `deliveries`.
unfoldable pub insert_effect : Effect → Exec (Unit {0})
insert_effect r db =
    if has_effect r.payment_id r.kind r.provider_ref db || not (has_delivery r.delivery_id db)
    then (raise integrity_error, db)
    else (ok tt, record db { effects = db.effects ++ r ∷ [] })

-- The row of `payments` with this primary key.
abbrev pub find_payment : String → List Payment → Option PaymentState
find_payment payment_id [] = none
find_payment payment_id (p ∷ ps) =
    if str_eq p.state.payment_id payment_id then some p.state else find_payment payment_id ps

-- DO UPDATE of the upsert: the currency and the key of the row stay.
abbrev pub merge_payment : PaymentState → ℤ → Payment → Payment
merge_payment s occurred_at p = record {
  state = record s { payment_id = p.state.payment_id; currency = p.state.currency };
  updated_at = max_ℤ p.updated_at occurred_at;
}

-- INSERT INTO payments ... ON CONFLICT(payment_id) DO UPDATE.
unfoldable pub upsert_payment : PaymentState → ℤ → List Payment → List Payment
upsert_payment s occurred_at [] = record { state = s; updated_at = occurred_at } ∷ []
upsert_payment s occurred_at (p ∷ ps) =
    if str_eq p.state.payment_id s.payment_id
    then merge_payment s occurred_at p ∷ ps
    else p ∷ upsert_payment s occurred_at ps

-- INSERT INTO deliveries, under the primary key.
unfoldable pub insert_delivery : Delivery → Exec (Unit {0})
insert_delivery d db =
    if has_delivery d.delivery_id db
    then (raise integrity_error, db)
    else (ok tt, record db { deliveries = db.deliveries ++ d ∷ [] })

abbrev pub find_delivery : String → List Delivery → Option Delivery
find_delivery delivery_id [] = none
find_delivery delivery_id (d ∷ ds) =
    if str_eq d.delivery_id delivery_id then some d else find_delivery delivery_id ds

-- UPDATE deliveries SET ... WHERE delivery_id = ?
abbrev pub update_deliveries : String → (Delivery → Delivery) → List Delivery → List Delivery
update_deliveries delivery_id change [] = []
update_deliveries delivery_id change (d ∷ ds) =
    (if str_eq d.delivery_id delivery_id then change d else d)
    ∷ update_deliveries delivery_id change ds

abbrev pub update_delivery : String → (Delivery → Delivery) → Db → Db
update_delivery delivery_id change db = record db {
  deliveries = update_deliveries delivery_id change db.deliveries;
}

abbrev pub get_counter : String → List (String × ℤ) → Option ℤ
get_counter name [] = none
get_counter name ((n, v) ∷ cs) = if str_eq n name then some v else get_counter name cs

-- INSERT INTO counters ... ON CONFLICT(name) DO UPDATE SET value = `merge` of the old value.
abbrev pub upsert_counter : String → ℤ → (ℤ → ℤ) → List (String × ℤ) → List (String × ℤ)
upsert_counter name value merge [] = (name, value) ∷ []
upsert_counter name value merge ((n, v) ∷ cs) =
    if str_eq n name then (n, merge v) ∷ cs else (n, v) ∷ upsert_counter name value merge cs

-- INSERT OR REPLACE INTO settlement_rows: the row with the primary key goes, and the new one comes
-- last.
unfoldable pub replace_settlement : SettlementRow → List SettlementRow → List SettlementRow
replace_settlement row rows =
    keep (λ r. not (str_eq r.psp_reference row.psp_reference)) rows ++ row ∷ []
