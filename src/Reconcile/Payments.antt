-- ===== src/Reconcile/Payments.antt =====
-- The join on the payment id (`_reconcile_events` and the grouping of `reconcile`,
-- src/quidz/reconcile.py). A dictionary of lists by payment id is the list that it was filled from:
-- the group of an id is what of the list carries it, in order.

use quidz.Prelude.{
  String, str_eq, not, Option, none, some, List, [], ◌∷◌, ◌++◌, map, keep, length, if◌then◌else◌,
}
use quidz.Prelude.Int.{ℤ, ◌-ℤ◌, ltb_ℤ}
use quidz.Model.{PaymentState}
use quidz.Reconcile.Details.{
  many_local, many_remote, only_in_ledger, only_at_provider, no_payment_id,
}
use quidz.Reconcile.{DriftKind, RemotePayment, GatePolicy, Finding}
use quidz.Reconcile.Pair.{drift, local_vector, remote_vector, local_net, remote_net, compare_pair}
use quidz.Reconcile.Gate.{sorted_set}

-- `local_by_id.get(payment_id, [])`
abbrev pub locals_of : String → List PaymentState → List PaymentState
locals_of payment_id = keep (λ s. str_eq s.payment_id payment_id)

-- `remote_by_id.get(payment_id, [])`
abbrev pub remotes_of : String → List RemotePayment → List RemotePayment
remotes_of payment_id = keep (λ r. str_eq r.payment_id payment_id)

-- The rows that have a payment id to join on.
abbrev pub joinable : List RemotePayment → List RemotePayment
joinable = keep (λ r. not (str_eq r.payment_id ""))

-- The findings about those that have none.
abbrev pub unjoinable_findings : GatePolicy → ℤ → List RemotePayment → List Finding
unjoinable_findings policy now [] = []
unjoinable_findings policy now (r ∷ rs) =
    let rest = unjoinable_findings policy now rs in
    if str_eq r.payment_id ""
    then record (drift policy DriftKind.unknown_remote_row (no_payment_id r.provider_ref)) {
      provider_ref = some r.provider_ref;
      remote = some (remote_vector r);
      currency = some r.currency;
      age_seconds = some (now -ℤ r.created_at);
    }
      ∷ rest
    else rest

abbrev pub first_ref : List RemotePayment → Option String
first_ref [] = none
first_ref (r ∷ _) = some r.provider_ref

-- `if len(locals_) > 1`
abbrev pub duplicate_locals :
    GatePolicy → String → List PaymentState → List RemotePayment → List Finding
duplicate_locals policy payment_id (s ∷ t ∷ more) remotes =
    record (drift policy DriftKind.duplicate_local
      (many_local (length (s ∷ t ∷ more)) payment_id)) {
        payment_id = some payment_id;
        provider_ref = first_ref remotes;
        currency = some s.currency;
      }
    ∷ []
duplicate_locals policy payment_id _ remotes = []

-- `if len(remotes) > 1`
abbrev pub duplicate_remotes : GatePolicy → ℤ → String → List RemotePayment → List Finding
duplicate_remotes policy now payment_id (r ∷ q ∷ more) =
    record (drift policy DriftKind.duplicate_remote
      (many_remote (length (r ∷ q ∷ more)) payment_id)) {
        payment_id = some payment_id;
        provider_ref = some r.provider_ref;
        currency = some r.currency;
        age_seconds = some (now -ℤ r.created_at);
      }
    ∷ []
duplicate_remotes policy now payment_id _ = []

abbrev pub missing_remotely : GatePolicy → String → PaymentState → Finding
missing_remotely policy payment_id s =
    record (drift policy DriftKind.missing_remotely (only_in_ledger payment_id)) {
      payment_id = some payment_id;
      local = some (local_vector s);
      delta_minor = some (local_net s);
      currency = some s.currency;
    }

abbrev pub not_in_ledger : GatePolicy → String → RemotePayment → ℤ → Finding
not_in_ledger policy payment_id r age =
    record (drift policy
      (if ltb_ℤ age policy.in_flight_grace_seconds
        then DriftKind.in_flight
        else DriftKind.missing_locally)
      (only_at_provider payment_id age)) {
        payment_id = some payment_id;
        provider_ref = some r.provider_ref;
        remote = some (remote_vector r);
        delta_minor = some (remote_net r);
        currency = some r.currency;
        age_seconds = some age;
      }

-- The first row of each side. An id comes from one of the sides, so never are both empty.
abbrev pub matched : GatePolicy → ℤ → String → List PaymentState → List RemotePayment → List Finding
matched policy now payment_id [] [] = []
matched policy now payment_id (s ∷ _) [] = missing_remotely policy payment_id s ∷ []
matched policy now payment_id [] (r ∷ _) =
    not_in_ledger policy payment_id r (now -ℤ r.created_at) ∷ []
matched policy now payment_id (s ∷ _) (r ∷ _) =
    compare_pair policy s r (now -ℤ r.created_at) policy.in_flight_grace_seconds

-- One round of the loop.
unfoldable pub payment_findings :
    GatePolicy → ℤ → String → List PaymentState → List RemotePayment → List Finding
payment_findings policy now payment_id locals remotes =
    duplicate_locals policy payment_id locals remotes
    ++ (duplicate_remotes policy now payment_id remotes
        ++ matched policy now payment_id locals remotes)

abbrev pub each_payment :
    GatePolicy → ℤ → List PaymentState → List RemotePayment → List String → List Finding
each_payment policy now local remote [] = []
each_payment policy now local remote (i ∷ ids) =
    payment_findings policy now i (locals_of i local) (remotes_of i remote)
    ++ each_payment policy now local remote ids

-- `sorted(set(local_by_id) | set(remote_by_id))`
abbrev pub payment_ids : List PaymentState → List RemotePayment → List String
payment_ids local remote =
    sorted_set (map (λ s. s.payment_id) local ++ map (λ r. r.payment_id) remote)

-- `_reconcile_events`, on the rows that can be joined.
unfoldable pub reconcile_events :
    GatePolicy → ℤ → List PaymentState → List RemotePayment → List Finding
reconcile_events policy now local remote =
    each_payment policy now local remote (payment_ids local remote)
