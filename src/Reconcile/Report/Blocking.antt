-- ===== src/Reconcile/Report/Blocking.antt =====
-- From a payment that the ledger does not hold to the closed gate.
use quidz.Prelude.{
  String, str_eq, eq_iff, Bool, true, false, not, ◌&&◌, ◌||◌, ◌≡◌, ◌≢◌, refl, ◌∙◌, none, List, [],
  ◌∷◌, ◌++◌, any, map, any-append, any-keep, keep-keep, arith,
}
use quidz.Prelude.Int.{ℤ, ◌-ℤ◌, ltb_ℤ}
use quidz.Model.{PaymentState}
use quidz.Reconcile.{
  critical, same_severity, DriftKind, RemotePayment, SettlementRow, Scope, GatePolicy, Finding,
}
use quidz.Reconcile.Payments.{
  locals_of, remotes_of, joinable, unjoinable_findings, duplicate_locals, duplicate_remotes,
  matched, payment_findings, each_payment, payment_ids, reconcile_events,
}
use quidz.Reconcile.Gate.{with_severity, effective, in_list, gate}
use quidz.Reconcile.Gate.Decision.{concerns, released_by, in_list-sorted_set, gate_blocks_payment}
use quidz.Reconcile.Report.{collected, reconcile}
use quidz.Reconcile.Report.Order.{any_reported}

-- A critical finding about this payment.
abbrev pub critical_about : String → Finding → Bool
critical_about i f = same_severity f.severity critical && concerns i f

or_left : (a b : Bool) → a ≡ true → (a || b) ≡ true
or_left a b h = ground arith

or_right : (a b : Bool) → b ≡ true → (a || b) ≡ true
or_right a b h = ground arith

any_left {ℓ} :
    {A : Type ℓ} (p : A → Bool) (xs ys : List A) → any p xs ≡ true → any p (xs ++ ys) ≡ true
any_left p xs ys h = any-append p xs ys ∙ or_left (any p xs) (any p ys) h

any_right {ℓ} :
    {A : Type ℓ} (p : A → Bool) (xs ys : List A) → any p ys ≡ true → any p (xs ++ ys) ≡ true
any_right p xs ys h = any-append p xs ys ∙ or_right (any p xs) (any p ys) h

pub any-effective :
    (i : String) (policy : GatePolicy) (fs : List Finding)
    → any (critical_about i) fs ≡ true
    → any (concerns i) (effective policy fs) ≡ true
unfolding effective
any-effective i policy fs h =
    any_left (concerns i) (with_severity critical fs) _
      (any-keep (λ f. same_severity f.severity critical) (concerns i) fs ∙ h)

each_payment-any :
    (p : Finding → Bool) (policy : GatePolicy) (now : ℤ) (local : List PaymentState)
    (remote : List RemotePayment) (i : String) (ids : List String)
    → in_list ids i ≡ true
    → any p (payment_findings policy now i (locals_of i local) (remotes_of i remote)) ≡ true
    → any p (each_payment policy now local remote ids) ≡ true
each_payment-any p policy now local remote i [] m h = cc
each_payment-any p policy now local remote i (j ∷ ids) m h =
    any-append p (payment_findings policy now j (locals_of j local) (remotes_of j remote))
      (each_payment policy now local remote ids)
    ∙ ground (arith, eq_iff j i, each_payment-any p policy now local remote i ids)

-- A row of the provider that has this payment id puts it among the ids.
listed :
    (i : String) (rs : List RemotePayment) {r : RemotePayment} {rest : List RemotePayment}
    → remotes_of i rs ≡ r ∷ rest
    → in_list (map (λ x. x.payment_id) rs) i ≡ true
listed i [] h = cc
listed i (x ∷ rs) {r} {rest} h = ground (arith, listed i rs {r = r} {rest = rest})

payment_ids-remote :
    (i : String) (local : List PaymentState) (rs : List RemotePayment) {r : RemotePayment}
    {rest : List RemotePayment}
    → remotes_of i rs ≡ r ∷ rest
    → in_list (payment_ids local rs) i ≡ true
payment_ids-remote i local rs h =
    in_list-sorted_set (map (λ s. s.payment_id) local ++ map (λ x. x.payment_id) rs) i
    ∙ any_right (λ j. str_eq j i) (map (λ s. s.payment_id) local) (map (λ x. x.payment_id) rs)
        (listed i rs h)

remotes_of-joinable :
    (i : String) (rs : List RemotePayment) → i ≢ "" → remotes_of i (joinable rs) ≡ remotes_of i rs
remotes_of-joinable i rs ne =
    keep-keep (λ r. str_eq r.payment_id i) (λ r. not (str_eq r.payment_id ""))
      (λ r h. ground (arith, eq_iff r.payment_id i, eq_iff r.payment_id "")) rs

missing_locally_finding :
    (policy : GatePolicy) (now : ℤ) (i : String) (r : RemotePayment) (rest : List RemotePayment)
    → ltb_ℤ (now -ℤ r.created_at) policy.in_flight_grace_seconds ≡ false
    → policy.severity_overrides DriftKind.missing_locally ≡ none
    → any (critical_about i) (payment_findings policy now i [] (r ∷ rest)) ≡ true
unfolding payment_findings
missing_locally_finding policy now i r [] old o =
    rw (old, o) (or_left (str_eq i i) false ((eq_iff i i).1 refl))
missing_locally_finding policy now i r (r' ∷ rest) old o =
    rw (old, o) (or_right _ _ (or_left (str_eq i i) false ((eq_iff i i).1 refl)))

module _ (local : List PaymentState) (remote : List RemotePayment) (settlement : List SettlementRow)
    (parked : List (String × ℤ)) (now : ℤ) (policy : GatePolicy) (counters : List (String × ℤ))
    (i : String) where
  any-collected :
      any (critical_about i) (reconcile_events policy now local (joinable remote)) ≡ true
      → any (critical_about i) (collected policy now local remote settlement parked) ≡ true
  unfolding collected
  any-collected h =
      rw
        (
          any-append (critical_about i) (unjoinable_findings policy now remote),
          any-append (critical_about i) (reconcile_events policy now local (joinable remote)),
          h,
        )
        (ground arith)

  critical_reported :
      {r : RemotePayment} {rest : List RemotePayment}
      → i ≢ ""
      → remotes_of i remote ≡ r ∷ rest
      → any (critical_about i) (payment_findings policy now i (locals_of i local) (r ∷ rest)) ≡ true
      → any
          (critical_about i)
          (reconcile local remote settlement parked now policy counters).findings
        ≡ true
  unfolding reconcile_events
  critical_reported ne h f =
      let same = remotes_of-joinable i remote ne ∙ h in
      any_reported (critical_about i) local remote settlement parked now policy counters
      ∙ any-collected (
          each_payment-any (critical_about i) policy now local (joinable remote) i
            (payment_ids local (joinable remote))
            (payment_ids-remote i local (joinable remote) same) (rw same f))

  critical_blocks :
      {r : RemotePayment} {rest : List RemotePayment}
      → i ≢ ""
      → policy.scope ≡ Scope.payment
      → remotes_of i remote ≡ r ∷ rest
      → any (critical_about i) (payment_findings policy now i (locals_of i local) (r ∷ rest)) ≡ true
      → in_list
          (gate
            (reconcile local remote settlement parked now policy counters).findings
            policy
            now).blocked_ids
          i
        ≡ not (released_by policy.break_glass now i)
  critical_blocks ne s h f =
      let fs = (reconcile local remote settlement parked now policy counters).findings in
      gate_blocks_payment fs policy now i s ne
        (any-effective i policy fs (critical_reported ne h f))

-- Money that moved at the provider without the ledger closes the gate: under the payment scope, a
-- payment with an id that the provider reports, that the ledger does not hold and that has
-- outlived the grace window is blocked, unless a live break glass names it. The severity of
-- missing payments is the default one.
pub missing_payment_blocks :
    (local : List PaymentState) (remote : List RemotePayment) (settlement : List SettlementRow)
    (parked : List (String × ℤ)) (now : ℤ) (policy : GatePolicy) (counters : List (String × ℤ))
    (i : String) {r : RemotePayment} {rest : List RemotePayment}
    → i ≢ ""
    → policy.scope ≡ Scope.payment
    → policy.severity_overrides DriftKind.missing_locally ≡ none
    → locals_of i local ≡ []
    → remotes_of i remote ≡ r ∷ rest
    → ltb_ℤ (now -ℤ r.created_at) policy.in_flight_grace_seconds ≡ false
    → in_list
        (gate
          (reconcile local remote settlement parked now policy counters).findings
          policy
          now).blocked_ids
        i
      ≡ not (released_by policy.break_glass now i)
missing_payment_blocks local remote settlement parked now policy counters i {r} {rest} ne s o l h
      old =
    critical_blocks local remote settlement parked now policy counters i ne s h
      (rw l (missing_locally_finding policy now i r rest old o))

duplicate_finding :
    (policy : GatePolicy) (now : ℤ) (i : String) (locals : List PaymentState) (r r' : RemotePayment)
    (rest : List RemotePayment)
    → policy.severity_overrides DriftKind.duplicate_remote ≡ none
    → any (critical_about i) (payment_findings policy now i locals (r ∷ r' ∷ rest)) ≡ true
unfolding payment_findings
duplicate_finding policy now i locals r r' rest o =
    any_right (critical_about i) (duplicate_locals policy i locals (r ∷ r' ∷ rest))
      (duplicate_remotes policy now i (r ∷ r' ∷ rest)
        ++ matched policy now i locals (r ∷ r' ∷ rest))
      (rw o (
        or_left (str_eq i i) (any (critical_about i) (matched policy now i locals (r ∷ r' ∷ rest)))
          ((eq_iff i i).1 refl)))

-- A double authorization closes the gate at once: under the payment scope, a payment that the
-- provider reports twice is blocked, whatever its age and whatever the ledger holds, unless a
-- live break glass names it. The severity of duplicates at the provider is the default one.
pub double_authorization_blocks :
    (local : List PaymentState) (remote : List RemotePayment) (settlement : List SettlementRow)
    (parked : List (String × ℤ)) (now : ℤ) (policy : GatePolicy) (counters : List (String × ℤ))
    (i : String) {r r' : RemotePayment} {rest : List RemotePayment}
    → i ≢ ""
    → policy.scope ≡ Scope.payment
    → policy.severity_overrides DriftKind.duplicate_remote ≡ none
    → remotes_of i remote ≡ r ∷ r' ∷ rest
    → in_list
        (gate
          (reconcile local remote settlement parked now policy counters).findings
          policy
          now).blocked_ids
        i
      ≡ not (released_by policy.break_glass now i)
double_authorization_blocks local remote settlement parked now policy counters i {r} {r'} {rest} ne
      s o h =
    critical_blocks local remote settlement parked now policy counters i ne s h
      (duplicate_finding policy now i (locals_of i local) r r' rest o)
