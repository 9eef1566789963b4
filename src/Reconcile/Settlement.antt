-- ===== src/Reconcile/Settlement.antt =====
-- The join on the provider's reference (`_reconcile_settlement` of src/quidz/reconcile.py). The
-- basis points are rounded from the exact quotient.
pub mod Rounding
use quidz.Prelude.{
  ℕ, ◌+◌, ◌*◌, ◌/◌, ◌%◌, String, str_eq, Bool, true, false, not, ◌&&◌, ◌||◌, Option, none, some,
  List, [], ◌∷◌, ◌++◌, map, keep, any, ltb, ◌==◌, if◌then◌else◌,
}
use quidz.Prelude.Int.{ℤ, pos, ◌-ℤ◌, nat_abs, pos_part, leb_ℤ}
use quidz.Prelude.Order.{sort_by, str_leb}
use quidz.Model.{PaymentState}
use quidz.Reconcile.Details.{joins_nothing, settled_in_other, fee_of_net, not_settled}
use quidz.Reconcile.{
  Severity, info, break, DriftKind, RemotePayment, SettlementRow, GatePolicy, Evidence, Finding,
}
use quidz.Reconcile.Pair.{raised, drift}
use quidz.Reconcile.Payments.{locals_of, remotes_of}
use quidz.Reconcile.Gate.{sorted_set, in_list}

-- The keys of a dictionary in the order of their first use.
abbrev pub in_order : List String → List String
in_order [] = []
in_order (i ∷ ids) = i ∷ keep (λ j. not (str_eq j i)) (in_order ids)

-- `for group in remote_by_id.values() for r in group`
abbrev pub by_group : List RemotePayment → List String → List RemotePayment
by_group remote [] = []
by_group remote (i ∷ ids) = remotes_of i remote ++ by_group remote ids

abbrev pub or_else {ℓ} : {A : Type ℓ} → Option A → Option A → Option A
or_else none o = o
or_else (some a) o = some a

-- The row that a dictionary by reference holds: the last one, and none for an empty reference.
abbrev pub last_by_ref : String → List RemotePayment → Option RemotePayment
last_by_ref ref [] = none
last_by_ref ref (r ∷ rs) =
    or_else (last_by_ref ref rs)
      (if str_eq r.provider_ref ref && not (str_eq r.provider_ref "") then some r else none)

-- `by_ref.get(ref)`
unfoldable pub by_ref : String → List RemotePayment → Option RemotePayment
by_ref ref remote = last_by_ref ref (by_group remote (in_order (map (λ r. r.payment_id) remote)))

abbrev pub locals_behind : Option RemotePayment → List PaymentState → List PaymentState
locals_behind none local = []
locals_behind (some r) local = locals_of r.payment_id local

-- The aggregates that a settlement row joins to.
unfoldable pub joined : SettlementRow → List PaymentState → List RemotePayment → List PaymentState
joined row local remote = locals_behind (by_ref row.psp_reference remote) local

-- `round(n / d)`: to the nearest integer, and a tie to the even one.
unfoldable pub round_half_even : ℕ → ℕ → ℕ
round_half_even n d =
    let q = n / d in
    if ltb (2 * (n % d)) d
    then q
    else if ltb d (2 * (n % d))
    then q + 1
    else if q % 2 == 0
    then q
    else q + 1

-- The distance of net from gross in basis points of gross.
unfoldable pub fee_bps : ℤ → ℤ → ℕ
fee_bps gross net =
    if leb_ℤ gross (pos 0)
    then 10000
    else round_half_even (nat_abs (net -ℤ gross) * 10000) (pos_part gross)

abbrev pub fee_finding : GatePolicy → SettlementRow → PaymentState → Finding
fee_finding policy row s =
    record (raised policy DriftKind.fee_gross_net
      (fee_of_net row.net_minor s.captured_minor s.payment_id
        (fee_bps s.captured_minor row.net_minor) policy.fee_tolerance_bps)
      (if leb_ℤ (pos (fee_bps s.captured_minor row.net_minor)) policy.fee_tolerance_bps
        then info
        else break)) {
          payment_id = some s.payment_id;
          provider_ref = some row.psp_reference;
          local = some (Evidence.captured s.captured_minor);
          remote = some (Evidence.net_and_fee row.net_minor row.fee_minor);
          delta_minor = some (row.net_minor -ℤ s.captured_minor);
          currency = some s.currency;
        }

-- One round of the loop over the settlement rows.
abbrev pub row_finding : GatePolicy → SettlementRow → List PaymentState → Finding
row_finding policy row [] =
    record (drift policy DriftKind.unknown_remote_row (joins_nothing row.psp_reference)) {
      provider_ref = some row.psp_reference;
      remote = some (Evidence.settled row.net_minor row.journal_type);
      currency = some row.currency;
    }
row_finding policy row (s ∷ _) =
    if not (str_eq row.currency s.currency)
    then record (drift policy DriftKind.currency_mismatch
        (settled_in_other row.psp_reference row.currency s.payment_id s.currency)) {
          payment_id = some s.payment_id;
          provider_ref = some row.psp_reference;
          currency = some s.currency;
        }
    else fee_finding policy row s

abbrev pub some_joined : List PaymentState → Bool
some_joined [] = false
some_joined (_ ∷ _) = true

-- The references in `settled` after the loop.
abbrev pub settled_refs : List PaymentState → List RemotePayment → List SettlementRow → List String
settled_refs local remote [] = []
settled_refs local remote (row ∷ rows) =
    let rest = settled_refs local remote rows in
    if some_joined (joined row local remote) then row.psp_reference ∷ rest else rest

-- One round of the loop over the aggregates.
abbrev pub unsettled :
    GatePolicy → ℤ → List String → String → List PaymentState → List RemotePayment → List Finding
unsettled policy now settled payment_id (s ∷ _) (r ∷ _) =
    if leb_ℤ s.captured_minor (pos 0)
      || (in_list settled r.provider_ref
          || leb_ℤ (now -ℤ r.created_at) policy.settlement_sla_seconds)
    then []
    else record (drift policy DriftKind.unsettled_past_sla
        (not_settled payment_id s.captured_minor s.currency (now -ℤ r.created_at))) {
          payment_id = some payment_id;
          provider_ref = some r.provider_ref;
          local = some (Evidence.captured s.captured_minor);
          delta_minor = some s.captured_minor;
          currency = some s.currency;
          age_seconds = some (now -ℤ r.created_at);
        }
      ∷ []
unsettled policy now settled payment_id _ _ = []

abbrev pub each_unsettled :
    GatePolicy
    → ℤ
    → List String
    → List PaymentState
    → List RemotePayment
    → List String
    → List Finding
each_unsettled policy now settled local remote [] = []
each_unsettled policy now settled local remote (i ∷ ids) =
    unsettled policy now settled i (locals_of i local) (remotes_of i remote)
    ++ each_unsettled policy now settled local remote ids

-- `_reconcile_settlement`
unfoldable pub reconcile_settlement :
    GatePolicy → ℤ → List PaymentState → List RemotePayment → List SettlementRow → List Finding
reconcile_settlement policy now local remote settlement =
    let rows = sort_by (λ a b. str_leb a.psp_reference b.psp_reference) settlement in
    map (λ row. row_finding policy row (joined row local remote)) rows
    ++ each_unsettled policy now (settled_refs local remote rows) local remote
        (sorted_set (map (λ s. s.payment_id) local))
