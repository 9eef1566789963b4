-- ===== src/Reconcile/Report/Order.antt =====
-- The order of the report: nothing is lost by sorting, and the most severe findings come first.
use quidz.Prelude.{
  ℕ, String, Bool, true, false, ◌||◌, ◌≤◌, ◌≡◌, refl, ◌∙◌, ap, List, [], ◌∷◌, any, Bool-cases, inl,
  inr, arith,
}
use quidz.Prelude.Int.{ℤ}
use quidz.Prelude.Order.{insert_by, sort_by}
use quidz.Model.{PaymentState}
use quidz.Reconcile.{severity_order, RemotePayment, SettlementRow, GatePolicy, Finding}
use quidz.Reconcile.Report.{collected, finding_before, reconcile}

module _ {ℓ} {A : Type ℓ} (le : A → A → Bool) where
  any-insert_by :
      (p : A → Bool) (x : A) (ys : List A) → any p (insert_by le x ys) ≡ (p x || any p ys)
  any-insert_by p x [] = refl
  any-insert_by p x (y ∷ ys) = ground (arith, any-insert_by p x ys)

  pub any-sort_by : (p : A → Bool) (xs : List A) → any p (sort_by le xs) ≡ any p xs
  any-sort_by p [] = refl
  any-sort_by p (x ∷ xs) = any-insert_by p x (sort_by le xs) ∙ ap (λ b. p x || b) (any-sort_by p xs)

-- The weights never rise along the list.
module _ {ℓ} {A : Type ℓ} (weight : A → ℕ) where
  abbrev pub AtMost : ℕ → List A → Type 0
  AtMost n [] = Unit
  AtMost n (x ∷ _) = weight x ≤ n

  abbrev pub Descending : List A → Type 0
  Descending [] = Unit
  Descending (x ∷ xs) = AtMost (weight x) xs × Descending xs

  module _ (le : A → A → Bool) (yes : (a b : A) → le a b ≡ true → weight b ≤ weight a)
      (no : (a b : A) → le a b ≡ false → weight a ≤ weight b) where
    AtMost-insert_by :
        (n : ℕ) (x : A) (ys : List A) → weight x ≤ n → AtMost n ys → AtMost n (insert_by le x ys)
    AtMost-insert_by n x [] h k = h
    AtMost-insert_by n x (y ∷ ys) h k = elim (Bool-cases (le x y)) [
      | inl e ↦ rw e h
      | inr e ↦ rw e k
    ]

    insert_by-Descending : (x : A) (ys : List A) → Descending ys → Descending (insert_by le x ys)
    insert_by-Descending x [] d = (tt, tt)
    insert_by-Descending x (y ∷ ys) d = elim (Bool-cases (le x y)) [
      | inl e ↦ rw e (yes x y e, d)
      | inr e ↦
          rw e (AtMost-insert_by (weight y) x ys (no x y e) (d.0), insert_by-Descending x ys (d.1))
    ]

    pub sort_by-Descending : (xs : List A) → Descending (sort_by le xs)
    sort_by-Descending [] = tt
    sort_by-Descending (x ∷ xs) = insert_by-Descending x (sort_by le xs) (sort_by-Descending xs)

abbrev pub weight_of : Finding → ℕ
weight_of f = severity_order f.severity

before_heavier : (f g : Finding) → finding_before f g ≡ true → weight_of g ≤ weight_of f
unfolding finding_before
before_heavier f g h = ground arith

after_lighter : (f g : Finding) → finding_before f g ≡ false → weight_of f ≤ weight_of g
unfolding finding_before
after_lighter f g h = ground arith

-- The report opens on what is most severe: along its findings the severity never rises.
pub reconcile-Descending :
    (local : List PaymentState) (remote : List RemotePayment) (settlement : List SettlementRow)
    (parked : List (String × ℤ)) (now : ℤ) (policy : GatePolicy) (counters : List (String × ℤ))
    → Descending weight_of (reconcile local remote settlement parked now policy counters).findings
unfolding reconcile
reconcile-Descending local remote settlement parked now policy counters =
    sort_by-Descending weight_of finding_before before_heavier after_lighter
      (collected policy now local remote settlement parked)

pub any_reported :
    (p : Finding → Bool) (local : List PaymentState) (remote : List RemotePayment)
    (settlement : List SettlementRow) (parked : List (String × ℤ)) (now : ℤ) (policy : GatePolicy)
    (counters : List (String × ℤ))
    → any p (reconcile local remote settlement parked now policy counters).findings
      ≡ any p (collected policy now local remote settlement parked)
unfolding reconcile
any_reported p local remote settlement parked now policy counters =
    any-sort_by finding_before p (collected policy now local remote settlement parked)
