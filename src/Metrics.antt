-- ===== src/Metrics.antt =====
-- The operational counters (src/quidz/metrics.py).
use quidz.Prelude.{String, str_eq, Bool, none, some, List, [], ◌∷◌, any, if◌then◌else◌}
use quidz.Prelude.Int.{ℤ, pos, ◌+ℤ◌}
use quidz.Errors.{ok, raise, key_error}
use quidz.Store.{Db, Exec, get_counter, upsert_counter}

abbrev pub counter_names : List String
counter_names =
    "events_received" ∷ "signature_rejected" ∷ "replay_rejected" ∷ "deduped" ∷ "applied" ∷ "parked"
    ∷ "dead_lettered" ∷ "drift_info" ∷ "drift_warn" ∷ "drift_break" ∷ "drift_critical"
    ∷ "oldest_unresolved_drift_seconds" ∷ []

-- `_check`: whether the name is on the allowlist.
unfoldable pub check : String → Bool
check name = any (str_eq name) counter_names

unfoldable pub bump : String → ℤ → Exec (Unit {0})
unfolding check
bump name delta db =
    if check name
    then (ok tt, record db { counters = upsert_counter name delta (λ v. v +ℤ delta) db.counters })
    else (raise key_error, db)

unfoldable pub set_gauge : String → ℤ → Exec (Unit {0})
unfolding check
set_gauge name value db =
    if check name
    then (ok tt, record db { counters = upsert_counter name value (λ _. value) db.counters })
    else (raise key_error, db)

abbrev counter_or_zero : String → List (String × ℤ) → ℤ
counter_or_zero name cs = elim (get_counter name cs) [ none ↦ pos 0 | some v ↦ v ]

abbrev snapshot_of : List (String × ℤ) → List String → List (String × ℤ)
snapshot_of cs [] = []
snapshot_of cs (n ∷ names) = (n, counter_or_zero n cs) ∷ snapshot_of cs names

-- Every name of the allowlist, with 0 for a counter that is not stored.
unfoldable pub snapshot : Db → List (String × ℤ)
snapshot db = snapshot_of db.counters counter_names
