-- ===== src/Ledger/Tables.antt =====
-- What the upsert of an aggregate and the insert of an effect change in the tables.
use quidz.Prelude.{
  String, str_eq, eq_iff, ◌≡◌, refl, Option, none, some, List, ◌∷◌, [], if◌then◌else◌, arith,
}
use quidz.Prelude.Int.{ℤ}
use quidz.Model.{PaymentState}
use quidz.Store.{Payment, find_payment, upsert_payment}

pub find_payment_key :
    (pid : String) (ps : List Payment) {s : PaymentState}
    → find_payment pid ps ≡ some s
    → s.payment_id ≡ pid
find_payment_key pid [] h = cc
find_payment_key pid (p ∷ ps) {s} h =
    ground (arith, eq_iff p.state.payment_id pid, find_payment_key pid ps {s = s})

-- The aggregate as the upsert stores it.
abbrev pub stored : PaymentState → Option PaymentState → PaymentState
stored s none = s
stored s (some old) = record s { payment_id = old.payment_id; currency = old.currency }

pub stored_self :
    (s old : PaymentState)
    → s.payment_id ≡ old.payment_id
    → s.currency ≡ old.currency
    → stored s (some old) ≡ s
stored_self s old h k = ground arith

pub find_payment-upsert :
    (pid : String) (s : PaymentState) (occurred_at : ℤ) (ps : List Payment)
    → find_payment pid (upsert_payment s occurred_at ps) ≡ (
        if str_eq s.payment_id pid
        then some (stored s (find_payment s.payment_id ps))
        else find_payment pid ps)
unfolding upsert_payment
find_payment-upsert pid s at [] = refl
find_payment-upsert pid s at (p ∷ ps) = ground (
  arith,
  find_payment-upsert pid s at ps,
  eq_iff p.state.payment_id s.payment_id,
  eq_iff p.state.payment_id pid,
  eq_iff s.payment_id pid,
)
