-- ===== src/Reconcile/Details.antt =====
-- The sentence of each finding (the `detail` arguments of src/quidz/reconcile.py). Ages and windows
-- are in ticks, and print as whole seconds.
use quidz.Prelude.{ℕ, String, [], ◌∷◌}
use quidz.Prelude.Int.{ℤ}
use quidz.Text.{decimal, int_text, concat}
use quidz.Events.{whole_seconds}

-- `f"{int(age)}"`
unfoldable pub seconds_text : ℤ → String
seconds_text age = int_text (whole_seconds age)

unfoldable pub other_currency : String → String → String → String
other_currency payment_id local remote = concat (
    "ledger holds " ∷ payment_id ∷ " in " ∷ local ∷ ", the provider reports " ∷ remote
    ∷ "; amounts in different currencies are not comparable" ∷ [])

unfoldable pub young : String → ℤ → ℤ → String
young payment_id age grace = concat (
    payment_id
    ∷ " diverges but is "
    ∷ seconds_text age
    ∷ "s old, inside the "
    ∷ seconds_text grace
    ∷ "s grace window"
    ∷ [])

unfoldable pub split_disagrees : String → String
split_disagrees payment_id =
    concat (payment_id ∷ " capture and refund split disagrees at an equal net position" ∷ [])

unfoldable pub net_differs : String → ℤ → String → String
net_differs payment_id difference currency = concat (
    payment_id
    ∷ " net position differs by "
    ∷ int_text difference
    ∷ " "
    ∷ currency
    ∷ " minor units"
    ∷ [])

unfoldable pub other_status : String → String → String → String
other_status payment_id local remote =
    concat (payment_id ∷ " is " ∷ local ∷ " in the ledger and " ∷ remote ∷ " at the provider" ∷ [])

unfoldable pub many_local : ℕ → String → String
many_local n payment_id =
    concat (decimal n ∷ " local aggregates carry the payment id " ∷ payment_id ∷ [])

unfoldable pub many_remote : ℕ → String → String
many_remote n payment_id = concat (
    decimal n
    ∷ " provider records carry the payment id "
    ∷ payment_id
    ∷ ", which is a double authorization"
    ∷ [])

unfoldable pub only_in_ledger : String → String
only_in_ledger payment_id =
    concat (payment_id ∷ " exists in the ledger and not in the provider payment list" ∷ [])

unfoldable pub only_at_provider : String → ℤ → String
only_at_provider payment_id age =
    concat
      (payment_id ∷ " is at the provider and not in the ledger, " ∷ seconds_text age ∷ "s old" ∷ [])

unfoldable pub joins_nothing : String → String
joins_nothing reference =
    concat ("settlement row " ∷ reference ∷ " joins to no ledger payment" ∷ [])

unfoldable pub settled_in_other : String → String → String → String → String
settled_in_other reference settled payment_id local = concat (
    "settlement row " ∷ reference ∷ " is in " ∷ settled ∷ " and the ledger holds " ∷ payment_id
    ∷ " in " ∷ local ∷ [])

unfoldable pub fee_of_net : ℤ → ℤ → String → ℕ → ℤ → String
fee_of_net net gross payment_id bps tolerance = concat (
    "settlement net "
    ∷ int_text net
    ∷ " against capture gross "
    ∷ int_text gross
    ∷ " on "
    ∷ payment_id
    ∷ " is "
    ∷ decimal bps
    ∷ " bps, tolerance "
    ∷ int_text tolerance
    ∷ " bps"
    ∷ [])

unfoldable pub not_settled : String → ℤ → String → ℤ → String
not_settled payment_id captured currency age = concat (
    payment_id
    ∷ " captured "
    ∷ int_text captured
    ∷ " "
    ∷ currency
    ∷ ", "
    ∷ seconds_text age
    ∷ "s old and absent from the settlement report"
    ∷ [])

unfoldable pub no_payment_id : String → String
no_payment_id reference =
    concat ("provider row " ∷ reference ∷ " carries no payment id to join on" ∷ [])

unfoldable pub long_parked : String → ℤ → ℤ → String
long_parked payment_id age limit = concat (
    "a delivery for "
    ∷ payment_id
    ∷ " has been parked "
    ∷ seconds_text age
    ∷ "s waiting for its prerequisite, limit "
    ∷ seconds_text limit
    ∷ "s"
    ∷ [])
