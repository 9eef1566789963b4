-- ===== src/Sim/Fees.antt =====
-- The synthetic acquirer's fees stay within the tolerance of the reconciler, for every seed.
use quidz.Prelude.{
  ℕ, ◌+◌, ◌*◌, ◌/◌, ◌≤◌, ◌≡◌, refl, String, Bool, true, Bool-cases, inl, inr, ◌⊎◌, List, [], ◌∷◌,
  leb, leb→le, arith,
}
use native.Mathlib.Nat.{mod-add-div, mul-le-mul_left}
use quidz.Prelude.Int.{ℤ, pos, ◌-ℤ◌, nat_abs, leb_ℤ}
use quidz.Model.{PaymentState}
use quidz.Reconcile.{info, SettlementRow}
use quidz.Reconcile.Settlement.{round_half_even, fee_bps, fee_finding}
use quidz.Reconcile.Settlement.Rounding.{round_half_even-nearest}
use quidz.Cli.{default_policy}
use quidz.Sim.{Plan, plans, Booked, Rng, book_payment, book_plans, build_book}
use quidz.Sim.Reports.{fee_of, settled_row, unsettled, settled_rows}

-- Of a captured amount that is not too small the fee is at most 500 basis points.
fee_within : (c : ℕ) → 1980 ≤ c → round_half_even (fee_of c * 10000) c ≤ 500
fee_within c h =
    let q = round_half_even (fee_of c * 10000) c in
    let near = (round_half_even-nearest (fee_of c * 10000) c (omega (arith, h))).1 in
    elim (Bool-cases (leb q 500)) [
      | inl e ↦ leb→le q 500 e
      | inr e ↦
          (let big : 501 ≤ q = ground arith in
            absurd (omega (arith, h, near, mod-add-div (c * 290) 10000, mul-le-mul_left c big)))
    ]

fee_back : (c f : ℕ) → nat_abs ((pos c -ℤ pos f) -ℤ pos c) ≡ f
unfolding ◌-ℤ◌
fee_back c f = ground arith

-- The reconciler books this row of the settlement file as a fee within its default tolerance, for
-- any payment of the ledger that was captured in full as the row says.
pub record Tolerated (row : SettlementRow) : Type 0 where
  pub informs :
      (s : PaymentState)
      → s.captured_minor ≡ row.gross_minor
      → (fee_finding default_policy row s).severity ≡ info

abbrev pub AllTolerated : List SettlementRow → Type 0
AllTolerated [] = Unit {0}
AllTolerated (row ∷ rows) = Tolerated row × AllTolerated rows

bps-le : (c : ℕ) → 1980 ≤ c → fee_bps (pos c) (pos c -ℤ pos (fee_of c)) ≤ 500
unfolding fee_bps
bps-le c h = elim (Bool-cases (leb_ℤ (pos c) (pos 0))) [
  | inl e ↦ absurd (let small : c ≤ 0 = ground arith in omega (arith, h, small))
  | inr e ↦ rw (e, fee_back c (fee_of c)) (fee_within c h)
]

within-leb : (n : ℕ) → n ≤ 500 → leb_ℤ (pos n) (pos 500) ≡ true
within-leb n h = ground arith

module _ (iso_day : ℕ → String) where
  settled_row-Tolerated :
      (started_at : ℕ) (booked : Booked)
      → 1980 ≤ booked.captured
      → Tolerated (settled_row iso_day started_at booked)
  settled_row-Tolerated started_at booked h = record {
    informs = λ s e. rw e (rw (within-leb _ (bps-le booked.captured h)) refl);
  }

  abbrev AllLarge : List Booked → Type 0
  AllLarge [] = Unit {0}
  AllLarge (booked ∷ book) = (1980 ≤ booked.captured) × AllLarge book

  settled_rows-Tolerated :
      (adversarial : Bool) (started_at index : ℕ) (book : List Booked)
      → AllLarge book
      → AllTolerated (settled_rows iso_day adversarial started_at index book)
  settled_rows-Tolerated adversarial started_at index [] h = tt
  settled_rows-Tolerated adversarial started_at index (booked ∷ book) (h, hs) =
      let ih = settled_rows-Tolerated adversarial started_at (index + 1) book hs in
      elim (Bool-cases (unsettled iso_day adversarial index booked)) [
        | inl u ↦ rw u ih
        | inr u ↦ rw u (settled_row-Tolerated started_at booked h, ih)
      ]

  module _ (rng : Rng) where
    abbrev Captures : Plan → Type 0
    Captures plan = (plan.capture_pct ≡ 100) ⊎ (plan.capture_pct ≡ 66)

    abbrev AllCapture : List Plan → Type 0
    AllCapture [] = Unit {0}
    AllCapture (plan ∷ rest) = Captures plan × AllCapture rest

    share_large :
        (units pct : ℕ) → 60 ≤ units → (pct ≡ 100) ⊎ (pct ≡ 66) → 1980 ≤ units * 50 * pct / 100
    share_large units pct h (inl e) = rw e (omega (arith, h))
    share_large units pct h (inr e) = rw e (omega (arith, h))

    book_payment-large :
        (started_at index : ℕ) (plan : Plan) (g : rng.Gen)
        → Captures plan
        → 1980 ≤ (book_payment rng started_at index plan g).0.captured
    unfolding book_payment
    book_payment-large started_at index plan g c =
        share_large (rng.randrange 60 400 g).0 plan.capture_pct
          (rng.randrange-range 60 400 g (omega arith)).0 c

    book_plans-large :
        (started_at index : ℕ) (plans : List Plan) (g : rng.Gen)
        → AllCapture plans
        → AllLarge (book_plans rng started_at index plans g)
    book_plans-large started_at index [] g c = tt
    book_plans-large started_at index (plan ∷ rest) g (c, cs) =
        let (booked, g') = book_payment rng started_at index plan g in
        (
          book_payment-large started_at index plan g c,
          book_plans-large started_at (index + 1) rest g' cs,
        )

-- The synthetic acquirer's fees are never a break, for any seed and not only for one: every row
-- that the settlement file has for a payment of the book is booked by the reconciler as
-- information, under its default tolerance, when the ledger has captured what the row says.
pub settled_rows-AllTolerated :
    (rng : Rng) (iso_day : ℕ → String) (seed : ℤ) (started_at : ℕ) (adversarial : Bool)
    → AllTolerated (settled_rows iso_day adversarial started_at 0 (build_book rng seed started_at))
unfolding build_book
settled_rows-AllTolerated rng iso_day seed started_at adversarial =
    settled_rows-Tolerated iso_day adversarial started_at 0 (build_book rng seed started_at) (
      book_plans-large iso_day rng started_at 0 plans (rng.seeded seed)
        (inl refl, (inr refl, (inl refl, (inl refl, (inl refl, (inl refl, tt)))))))
