-- ===== src/Cli/Exit.antt =====
-- When the `reconcile` command fails a build.
use quidz.Prelude.{
  ℕ, String, str_eq, ◌≡◌, ◌≢◌, refl, ap, ◌∙◌, Bool, true, false, ◌&&◌, Option, none, some, List, [],
  ◌∷◌, any, keep, map, arith, ◌⊎◌, inl, inr,
}
use quidz.Prelude.Int.{ℤ, ◌-ℤ◌, ltb_ℤ}
use quidz.Errors.{overflow_error}
use quidz.Python.{Python}
use quidz.Metrics.{snapshot}
use quidz.Store.{Payment, Db, find_payment}
use quidz.Ledger.{load_payment}
use quidz.Ledger.Listing.{by_payment, list_payments, list_settlement_rows}
use quidz.Inbox.Parked.{parked_rows}
use quidz.Inbox.Parked.Faults.{Readable}
use quidz.Inbox.Parked.Listed.{entry, HasOverlarge, parked_events_listed}
use quidz.Reconcile.{Severity, RemotePayment, Finding}
use quidz.Reconcile.Payments.{locals_of, remotes_of}
use quidz.Reconcile.Report.{ExceptionReport, reconcile}
use quidz.Reconcile.Report.Order.{any-sort_by}
use quidz.Reconcile.Report.Blocking.{missing_payment_blocks}
use quidz.Reconcile.Gate.{
  GateDecision, effective, candidate_ids, scoped_ids, in_list, nonempty, gate,
}
use quidz.Cli.{
  default_policy, parked_entry, run_reconcile, holding, done, crash, exit_status, exit_code,
  reconciled, reconcile_command, main,
}

keep_none : {A : Type 0} (p : A → Bool) (xs : List A) → any p xs ≡ false → keep p xs ≡ []
keep_none p [] h = refl
keep_none p (x ∷ xs) h = ground (arith, keep_none p xs)

unknown_payment :
    (i : String) (ps : List Payment)
    → find_payment i ps ≡ none
    → any (λ s. str_eq s.payment_id i) (map (λ p. p.state) ps) ≡ false
unknown_payment i [] h = refl
unknown_payment i (p ∷ ps) h = ground (arith, unknown_payment i ps)

-- A payment that the ledger does not hold is in no listing of it.
locals_of-list_payments :
    (i : String) (db : Db) → load_payment db i ≡ none → locals_of i (list_payments db) ≡ []
unfolding load_payment list_payments
locals_of-list_payments i db h =
    keep_none (λ s. str_eq s.payment_id i) (list_payments db)
      (any-sort_by by_payment (λ s. str_eq s.payment_id i) (map (λ p. p.state) db.payments)
        ∙ unknown_payment i db.payments h)

in_list-nonempty : (ids : List String) (i : String) → in_list ids i ≡ true → nonempty ids ≡ true
in_list-nonempty [] i h = cc
in_list-nonempty (j ∷ ids) i h = refl

candidates_block :
    (fs : List Finding) (i : String)
    → in_list (candidate_ids default_policy fs) i ≡ true
    → (nonempty fs && nonempty (candidate_ids default_policy fs)) ≡ true
unfolding candidate_ids scoped_ids
candidates_block [] i h = cc
candidates_block (f ∷ fs) i h = in_list-nonempty (candidate_ids default_policy (f ∷ fs)) i h

-- With the default policy an id that is blocked closes the gate.
blocked_id_closes :
    (findings : List Finding) (now : ℤ) (i : String)
    → in_list (gate findings default_policy now).blocked_ids i ≡ true
    → (gate findings default_policy now).outbound_blocked ≡ true
unfolding gate
blocked_id_closes findings now i h = candidates_block (effective default_policy findings) i h

blocked_exit :
    (fail_on : Option Severity) (report : ExceptionReport) (decision : GateDecision)
    → decision.outbound_blocked ≡ true
    → exit_code fail_on (report, decision) ≡ 1
blocked_exit fail_on report decision h = rw h refl

-- A payment that the provider took and the ledger has never heard of fails the build: where
-- `json.loads` raises only its ValueErrors, `quidz reconcile` on a database that holds no payment
-- of an id ends with exit code 1 once the provider's list has carried the id for longer than the
-- grace window, whatever else the database, the list and `--fail-on` are. That is the code that
-- the command returns, or, where a parked Stripe body has an integer too large for a float as its
-- `created`, the status of the OverflowError that nothing catches.
pub reconcile_command-missing :
    (python : Python) (db : Db) (taken_at : ℤ) (remote : List RemotePayment)
    (fail_on : Option Severity) (i : String) {r : RemotePayment} {rest : List RemotePayment}
    → ((raw : List ℕ) → Readable (python.loads raw))
    → i ≢ ""
    → load_payment db i ≡ none
    → remotes_of i remote ≡ r ∷ rest
    → ltb_ℤ (taken_at -ℤ r.created_at) default_policy.in_flight_grace_seconds ≡ false
    → (exit_status
          (main (reconcile_command python (some db) (holding taken_at remote) none fail_on))
        ≡ 1)
      × ((main (reconcile_command python (some db) (holding taken_at remote) none fail_on) ≡ done 1)
          ⊎ ((main (reconcile_command python (some db) (holding taken_at remote) none fail_on)
                ≡ crash overflow_error)
              × HasOverlarge python (parked_rows db)))
unfolding reconcile_command reconciled run_reconcile
reconcile_command-missing python db taken_at remote fail_on i loads ne unknown listed old =
    let parked = map (entry python) (parked_rows db) in
    let report =
      reconcile (list_payments db) remote (list_settlement_rows db) (map parked_entry parked)
        taken_at default_policy (snapshot db) in
    let blocked =
      missing_payment_blocks (list_payments db) remote (list_settlement_rows db)
        (map parked_entry parked) taken_at default_policy (snapshot db) i ne refl refl
        (locals_of-list_payments i db unknown) listed old in
    let code =
      blocked_exit fail_on report (gate report.findings default_policy taken_at)
        (blocked_id_closes report.findings taken_at i blocked) in
    elim (parked_events_listed python db loads) [
      | inl listed_all ↦ (rw listed_all code, inl (rw listed_all (ap done code)))
      | inr (escaped, o) ↦ (rw escaped refl, inr (rw escaped refl, o))
    ]
