-- ===== src/Reconcile/Gate/Decision.antt =====
-- What the gate decides: who is blocked, and what a break glass can release.
use mathlib.Core.Path.{subst}
use quidz.Prelude.{
  ℕ, ◌+◌, String, str_eq, eq_iff, ◌≡◌, ◌≢◌, refl, ap, sym, ◌∙◌, Option, none, some, List, [], ◌∷◌,
  ◌++◌, keep, any, Bool, Bool-cases, true, false, not, ◌&&◌, ◌||◌, if◌then◌else◌, inl, inr, arith,
}
use quidz.Prelude.Int.{ℤ, nat_abs, ltb_ℤ}
use quidz.Reconcile.{critical, same_severity, BreakGlass, Scope, GatePolicy, Finding}
use quidz.Reconcile.Gate.{
  with_severity, add_total, add_measured, add_all, exposure_by_currency, effective, named,
  add_sorted, sorted_set, column, or_star, scoped_ids, fallback_ids, candidate_ids, in_list,
  outside, apply_glass, nonempty, gate,
}

fallback_nonempty :
    (fs : List Finding) (ids : List String)
    → nonempty fs ≡ true
    → nonempty (fallback_ids fs ids) ≡ true
fallback_nonempty [] ids h = cc
fallback_nonempty (f ∷ fs) (i ∷ ids) h = refl
fallback_nonempty (f ∷ fs) [] h = star_nonempty (sorted_set (column (λ g. g.provider_ref) (f ∷ fs)))
  where
    star_nonempty : (ids : List String) → nonempty (or_star ids) ≡ true
    star_nonempty [] = refl
    star_nonempty (i ∷ ids) = refl

and_same : (a b : Bool) → (a ≡ true → b ≡ true) → (a && b) ≡ a
and_same true b h = h refl
and_same false b h = refl

-- Without a break glass the gate blocks outbound exactly when some finding is effective, that is
-- critical, or a break while the breaks are material; and ingest is never blocked.
pub gate_unsuppressed :
    (findings : List Finding) (policy : GatePolicy) (now : ℤ)
    → policy.break_glass ≡ none
    → ((gate findings policy now).outbound_blocked ≡ nonempty (effective policy findings))
      × ((gate findings policy now).ingest_blocked ≡ false)
unfolding gate candidate_ids
gate_unsuppressed findings policy now h =
    let fs = effective policy findings in
    let ids = candidate_ids policy fs in
    (
      subst (λ g. (nonempty fs && nonempty (apply_glass g now ids).0) ≡ nonempty fs) (sym h)
          (and_same (nonempty fs) (nonempty ids)
            (fallback_nonempty fs (scoped_ids policy.scope fs))),
      refl,
    )

nonempty-append {ℓ} :
    {A : Type ℓ} (xs ys : List A) → nonempty xs ≡ true → nonempty (xs ++ ys) ≡ true
nonempty-append [] ys h = cc
nonempty-append (x ∷ xs) ys h = refl

nonempty-keep {ℓ} :
    {A : Type ℓ} (p : A → Bool) (xs : List A) → any p xs ≡ true → nonempty (keep p xs) ≡ true
nonempty-keep p [] h = cc
nonempty-keep p (x ∷ xs) h = ground (arith, nonempty-keep p xs)

-- Without a break glass one critical finding closes the gate, however small and whatever the
-- thresholds.
pub gate_critical :
    (findings : List Finding) (policy : GatePolicy) (now : ℤ)
    → policy.break_glass ≡ none
    → any (λ f. same_severity f.severity critical) findings ≡ true
    → (gate findings policy now).outbound_blocked ≡ true
unfolding effective
gate_critical findings policy now h c =
    (gate_unsuppressed findings policy now h).0
    ∙ nonempty-append (with_severity critical findings) _ (nonempty-keep _ findings c)

-- The glass is there, has not expired, and names the id.
abbrev pub released_by : Option BreakGlass → ℤ → String → Bool
released_by none now i = false
released_by (some glass) now i = ltb_ℤ now glass.expires_at && in_list glass.scope_ids i

in_list-outside :
    (glass : BreakGlass) (ids : List String) (i : String)
    → in_list (outside glass ids) i ≡ (in_list ids i && not (in_list glass.scope_ids i))
in_list-outside glass [] i = refl
in_list-outside glass (j ∷ ids) i = elim (Bool-cases (str_eq j i)) [
  | inl e ↦
      ground (arith, in_list-outside glass ids i, ap (in_list glass.scope_ids) ((eq_iff j i).0 e))
  | inr e ↦ ground (arith, in_list-outside glass ids i)
]

in_list_untouched :
    (glass : BreakGlass) (ids : List String) (i : String)
    → any (in_list glass.scope_ids) ids ≡ false
    → in_list ids i ≡ (in_list ids i && not (in_list glass.scope_ids i))
in_list_untouched glass [] i h = refl
in_list_untouched glass (j ∷ ids) i h = elim (Bool-cases (str_eq j i)) [
  | inl e ↦
      ground (arith, in_list_untouched glass ids i, ap (in_list glass.scope_ids) ((eq_iff j i).0 e))
  | inr e ↦ ground (arith, in_list_untouched glass ids i)
]

and_true : (b : Bool) → b ≡ (b && true)
and_true true = refl
and_true false = refl

apply_glass-ids :
    (g : Option BreakGlass) (now : ℤ) (ids : List String) (i : String)
    → in_list (apply_glass g now ids).0 i ≡ (in_list ids i && not (released_by g now i))
apply_glass-ids none now ids i = and_true (in_list ids i)
apply_glass-ids (some glass) now ids i = elim (Bool-cases (ltb_ℤ now glass.expires_at)) [
  | inr dead ↦ rw dead (and_true (in_list ids i))
  | inl alive ↦ rw alive (elim (Bool-cases (any (in_list glass.scope_ids) ids)) [
    | inl hit ↦ rw hit (in_list-outside glass ids i)
    | inr miss ↦ rw miss (in_list_untouched glass ids i miss)
  ])
]

-- The ids that stay blocked are the candidates but those that a live break glass names: it releases
-- nothing outside its scope, and nothing once it has expired.
pub gate_glass :
    (findings : List Finding) (policy : GatePolicy) (now : ℤ) (i : String)
    → in_list (gate findings policy now).blocked_ids i ≡ (
        in_list (candidate_ids policy (effective policy findings)) i
        && not (released_by policy.break_glass now i))
unfolding gate
gate_glass findings policy now i =
    apply_glass-ids policy.break_glass now (candidate_ids policy (effective policy findings)) i

in_list-add_sorted :
    (s : String) (ts : List String) (i : String)
    → in_list (add_sorted s ts) i ≡ (str_eq s i || in_list ts i)
in_list-add_sorted s [] i = refl
in_list-add_sorted s (t ∷ ts) i =
    ground (arith, in_list-add_sorted s ts i, eq_iff s t, eq_iff s i, eq_iff t i)

pub in_list-sorted_set : (ss : List String) (i : String) → in_list (sorted_set ss) i ≡ in_list ss i
in_list-sorted_set [] i = refl
in_list-sorted_set (s ∷ ss) i =
    in_list-add_sorted s (sorted_set ss) i ∙ ap (λ b. str_eq s i || b) (in_list-sorted_set ss i)

abbrev pub names : Option String → String → Bool
names none i = false
names (some s) i = str_eq s i

-- The finding names this payment.
abbrev pub concerns : String → Finding → Bool
concerns i f = names f.payment_id i

named_first :
    (o : Option String) (rest : List String) (i : String)
    → i ≢ ""
    → in_list (named (o ∷ []) ++ rest) i ≡ (names o i || in_list rest i)
named_first none rest i h = refl
named_first (some s) rest i h = ground (arith, eq_iff s "", eq_iff s i)

in_list-column :
    (fs : List Finding) (i : String)
    → i ≢ ""
    → in_list (column (λ f. f.payment_id) fs) i ≡ any (concerns i) fs
in_list-column [] i h = refl
in_list-column (f ∷ fs) i h =
    named_first f.payment_id (column (λ g. g.payment_id) fs) i h
    ∙ ap (λ b. concerns i f || b) (in_list-column fs i h)

kept_by_fallback :
    (fs : List Finding) (ids : List String) (i : String)
    → in_list ids i ≡ true
    → in_list (fallback_ids fs ids) i ≡ true
kept_by_fallback [] ids i h = h
kept_by_fallback (f ∷ fs) [] i h = cc
kept_by_fallback (f ∷ fs) (j ∷ ids) i h = h

candidate-concerned :
    (policy : GatePolicy) (fs : List Finding) (i : String)
    → policy.scope ≡ Scope.payment
    → i ≢ ""
    → any (concerns i) fs ≡ true
    → in_list (candidate_ids policy fs) i ≡ true
unfolding candidate_ids scoped_ids
candidate-concerned policy fs i s h c = kept_by_fallback fs (scoped_ids policy.scope fs) i (
    subst (λ z. in_list (scoped_ids z fs) i ≡ true) (sym s)
      (in_list-sorted_set (column (λ f. f.payment_id) fs) i ∙ (in_list-column fs i h ∙ c)))

-- Under the payment scope every payment, of an id that is not empty, that an effective finding
-- names is blocked, unless a live break glass names it.
pub gate_blocks_payment :
    (findings : List Finding) (policy : GatePolicy) (now : ℤ) (i : String)
    → policy.scope ≡ Scope.payment
    → i ≢ ""
    → any (concerns i) (effective policy findings) ≡ true
    → in_list (gate findings policy now).blocked_ids i ≡ not (released_by policy.break_glass now i)
gate_blocks_payment findings policy now i s h c =
    gate_glass findings policy now i
    ∙ ap (λ b. b && not (released_by policy.break_glass now i))
        (candidate-concerned policy (effective policy findings) i s h c)

-- What is on the books for one currency.
abbrev pub total_in : String → List (String × ℕ) → ℕ
total_in cur [] = 0
total_in cur ((c, n) ∷ rest) = if str_eq c cur then n else total_in cur rest

abbrev pub drift_in : String → Option ℤ → Option String → ℕ
drift_in cur (some delta) (some c) = if str_eq c cur then nat_abs delta else 0
drift_in cur _ _ = 0

-- The sum of the absolute drifts of the findings in one currency.
abbrev pub drift_of : String → List Finding → ℕ
drift_of cur [] = 0
drift_of cur (f ∷ fs) = drift_in cur f.delta_minor f.currency + drift_of cur fs

total_in-add :
    (cur c : String) (n : ℕ) (ts : List (String × ℕ))
    → total_in cur (add_total c n ts) ≡ total_in cur ts + (if str_eq c cur then n else 0)
total_in-add cur c n [] = ground arith
total_in-add cur c n ((d, m) ∷ ts) =
    ground (arith, total_in-add cur c n ts, eq_iff d c, eq_iff d cur, eq_iff c cur)

total_in-measured :
    (cur : String) (delta : Option ℤ) (c : Option String) (ts : List (String × ℕ))
    → cur ≢ ""
    → total_in cur (add_measured delta c ts) ≡ total_in cur ts + drift_in cur delta c
total_in-measured cur (some delta) (some c) ts h =
    ground (arith, total_in-add cur c (nat_abs delta) ts, eq_iff c "", eq_iff c cur)
total_in-measured cur none c ts h = omega arith
total_in-measured cur (some delta) none ts h = omega arith

total_in-all :
    (cur : String) (fs : List Finding) (ts : List (String × ℕ))
    → cur ≢ ""
    → total_in cur (add_all fs ts) ≡ total_in cur ts + drift_of cur fs
total_in-all cur [] ts h = omega arith
total_in-all cur (f ∷ fs) ts h = omega (
  arith,
  total_in-all cur fs (add_measured f.delta_minor f.currency ts) h,
  total_in-measured cur f.delta_minor f.currency ts h,
)

-- The exposure that the gate reads in a currency, named by a text that is not empty, is the sum of
-- the absolute drifts of that currency's findings: no amount is lost, and none of another currency is added.
pub exposure_by_currency-total :
    (breaks : List Finding) (cur : String)
    → cur ≢ ""
    → total_in cur (exposure_by_currency breaks) ≡ drift_of cur breaks
unfolding exposure_by_currency
exposure_by_currency-total breaks cur h = omega (arith, total_in-all cur breaks [] h)
