-- ===== src/Reconcile/Gate.antt =====
-- The gate on outbound money movement (`gate` of src/quidz/reconcile.py).
pub mod Decision
use quidz.Prelude.{
  ℕ, ◌+◌, String, str_eq, Option, none, some, is_some, List, [], ◌∷◌, ◌++◌, keep, any, length, Bool,
  true, false, not, ◌&&◌, ◌||◌, ◌==◌, leb, ltb, if◌then◌else◌,
}
use quidz.Prelude.Int.{ℤ, pos, nat_abs, leb_ℤ, ltb_ℤ}
use quidz.Prelude.Order.{sort_by, str_leb, str_ltb}
use quidz.Text.{decimal, int_text, concat, join}
use quidz.Reconcile.{
  Severity, break, critical, same_severity, BreakGlass, Scope, GatePolicy, Finding,
}

pub record GateDecision : Type 0 where
  pub outbound_blocked : Bool
  pub ingest_blocked : Bool
  pub blocked_ids : List String
  pub suppressed_by : Option BreakGlass
  pub rationale : String

abbrev pub with_severity : Severity → List Finding → List Finding
with_severity s = keep (λ f. same_severity f.severity s)

-- `totals[currency] = totals.get(currency, 0) + amount`
abbrev pub add_total : String → ℕ → List (String × ℕ) → List (String × ℕ)
add_total currency amount [] = (currency, amount) ∷ []
add_total currency amount ((c, n) ∷ rest) =
    if str_eq c currency then (c, n + amount) ∷ rest else (c, n) ∷ add_total currency amount rest

-- `if finding.delta_minor and finding.currency`
abbrev pub add_measured : Option ℤ → Option String → List (String × ℕ) → List (String × ℕ)
add_measured (some delta) (some currency) totals =
    if nat_abs delta == 0 || str_eq currency ""
    then totals
    else add_total currency (nat_abs delta) totals
add_measured _ _ totals = totals

abbrev pub add_all : List Finding → List (String × ℕ) → List (String × ℕ)
add_all [] totals = totals
add_all (f ∷ fs) totals = add_all fs (add_measured f.delta_minor f.currency totals)

-- `_exposure_by_currency`
unfoldable pub exposure_by_currency : List Finding → List (String × ℕ)
exposure_by_currency breaks = add_all breaks []

-- Whether the BREAK findings clear a threshold, by count or in one currency by value.
unfoldable pub is_material : GatePolicy → List Finding → Bool
is_material policy breaks =
    leb_ℤ policy.materiality_count (pos (length breaks))
    || any (λ t. leb_ℤ policy.materiality_value_minor (pos t.1)) (exposure_by_currency breaks)

-- The findings that block.
unfoldable pub effective : GatePolicy → List Finding → List Finding
effective policy findings =
    let breaks = with_severity break findings in
    with_severity critical findings ++ (if is_material policy breaks then breaks else [])

-- The texts of a list that are there and are not empty.
abbrev pub named : List (Option String) → List String
named [] = []
named (none ∷ rest) = named rest
named (some s ∷ rest) = if str_eq s "" then named rest else s ∷ named rest

abbrev pub add_sorted : String → List String → List String
add_sorted s [] = s ∷ []
add_sorted s (t ∷ ts) =
    if str_eq s t then t ∷ ts else if str_ltb s t then s ∷ t ∷ ts else t ∷ add_sorted s ts

-- `sorted({...})` of texts.
abbrev pub sorted_set : List String → List String
sorted_set [] = []
sorted_set (s ∷ ss) = add_sorted s (sorted_set ss)

abbrev pub column : (Finding → Option String) → List Finding → List String
column f [] = []
column f (x ∷ xs) = named (f x ∷ []) ++ column f xs

abbrev pub or_star : List String → List String
or_star [] = "*" ∷ []
or_star (s ∷ ss) = s ∷ ss

-- The ids under the policy's scope.
unfoldable pub scoped_ids : Scope → List Finding → List String
scoped_ids Scope.batch [] = []
scoped_ids Scope.batch (f ∷ fs) = "*" ∷ []
scoped_ids Scope.currency fs = sorted_set (column (λ f. f.currency) fs)
scoped_ids Scope.payment fs = sorted_set (column (λ f. f.payment_id) fs)

-- `if effective and not ids`
abbrev pub fallback_ids : List Finding → List String → List String
fallback_ids [] ids = ids
fallback_ids (f ∷ fs) [] = or_star (sorted_set (column (λ g. g.provider_ref) (f ∷ fs)))
fallback_ids (f ∷ fs) (i ∷ ids) = i ∷ ids

-- The ids before any break glass.
unfoldable pub candidate_ids : GatePolicy → List Finding → List String
candidate_ids policy fs = fallback_ids fs (scoped_ids policy.scope fs)

abbrev pub in_list : List String → String → Bool
in_list ids i = any (λ j. str_eq j i) ids

-- The ids that a break glass leaves.
abbrev pub outside : BreakGlass → List String → List String
outside glass = keep (λ i. not (in_list glass.scope_ids i))

-- `remaining != ids`: the break glass took an id off.
abbrev pub release : BreakGlass → List String → List String × Option BreakGlass
release glass ids =
    if any (in_list glass.scope_ids) ids then (outside glass ids, some glass) else (ids, none)

abbrev pub apply_glass : Option BreakGlass → ℤ → List String → List String × Option BreakGlass
apply_glass none now ids = (ids, none)
apply_glass (some glass) now ids =
    if ltb_ℤ now glass.expires_at then release glass ids else (ids, none)

abbrev pub nonempty {ℓ} : {A : Type ℓ} → List A → Bool
nonempty [] = false
nonempty (_ ∷ _) = true

-- The totals of the exposure, the largest first.
abbrev pub larger : String × ℕ → String × ℕ → Bool
larger (c, n) (d, m) = ltb m n || (n == m && str_leb c d)

abbrev pub total_texts : List (String × ℕ) → List String
total_texts [] = []
total_texts ((currency, total) ∷ rest) =
    concat (decimal total ∷ " " ∷ currency ∷ []) ∷ total_texts rest

-- `_exposure_text`
unfoldable pub exposure_text : List (String × ℕ) → String
exposure_text [] = "no measured exposure"
exposure_text (t ∷ ts) = join ", " (total_texts (sort_by larger (t ∷ ts)))

abbrev pub scope_text : Scope → String
scope_text Scope.payment = "payment"
scope_text Scope.currency = "currency"
scope_text Scope.batch = "batch"

-- The rationale where no finding blocks.
abbrev pub open_rationale : GatePolicy → List Finding → String
open_rationale policy [] = "no findings at or above break"
open_rationale policy (f ∷ fs) = concat (
    decimal (length (f ∷ fs))
    ∷ " break findings below the materiality thresholds (count "
    ∷ int_text policy.materiality_count
    ∷ ", value "
    ∷ int_text policy.materiality_value_minor
    ∷ ")"
    ∷ [])

abbrev pub blocked_rationale : GatePolicy → List Finding → List String → String
blocked_rationale policy findings ids =
    let breaks = with_severity break findings in
    concat (
      decimal (length (with_severity critical findings))
      ∷ " critical and "
      ∷ decimal (if is_material policy breaks then length breaks else 0)
      ∷ " break findings, exposure "
      ∷ exposure_text (exposure_by_currency breaks)
      ∷ "; outbound blocked for "
      ∷ decimal (length ids)
      ∷ " id(s) under scope="
      ∷ scope_text policy.scope
      ∷ [])

abbrev pub approver_of : Option BreakGlass → String
approver_of none = "unknown"
approver_of (some glass) = glass.approver

abbrev pub until_text : Option BreakGlass → String
until_text none = "0"
until_text (some glass) = glass.expires_text

abbrev pub suppressed_rationale : List Finding → Option BreakGlass → String
suppressed_rationale fs suppressed = concat (
    decimal (length fs)
    ∷ " blocking findings suppressed by break glass from "
    ∷ approver_of suppressed
    ∷ " until "
    ∷ until_text suppressed
    ∷ [])

-- The rationale, of the findings, those of them that block, the ids and the break glass.
unfoldable pub rationale :
    GatePolicy → List Finding → List Finding → List String → Option BreakGlass → String
rationale policy findings [] ids suppressed = open_rationale policy (with_severity break findings)
rationale policy findings (f ∷ fs) [] suppressed = suppressed_rationale (f ∷ fs) suppressed
rationale policy findings (f ∷ fs) (i ∷ ids) suppressed =
    blocked_rationale policy findings (i ∷ ids)

unfoldable pub gate : List Finding → GatePolicy → ℤ → GateDecision
gate findings policy now =
    let fs = effective policy findings in
    let (ids, suppressed) = apply_glass policy.break_glass now (candidate_ids policy fs) in
    record {
      outbound_blocked = nonempty fs && nonempty ids;
      ingest_blocked = false;
      blocked_ids = ids;
      suppressed_by = suppressed;
      rationale = rationale policy findings fs ids suppressed;
    }
