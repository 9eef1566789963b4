-- ===== src/Tests/Store.antt =====
-- Transactions that raise (src/quidz/store.py).
use quidz.Prelude.{◌≡◌, refl}
use quidz.Errors.{raise, malformed_event}
use quidz.Store.{empty, Exec, modify, lift, ◌>>◌, write_tx}
use quidz.Store.Transactions.{closed}
use quidz.Samples.{inbox}

-- It clears the database, and then raises.
abbrev clear_and_raise : Exec (Unit {0})
clear_and_raise = modify (λ _. empty) >> lift (raise malformed_event)

abbrev clear : Exec (Unit {0})
clear = modify (λ _. empty)

rolled_back : write_tx clear_and_raise (closed inbox) ≡ (raise malformed_event, closed inbox)
unfolding write_tx
rolled_back = refl
