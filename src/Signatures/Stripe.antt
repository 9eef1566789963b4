-- ===== src/Signatures/Stripe.antt =====
-- What a verified Stripe delivery shows (`verify_stripe` of src/quidz/verify.py).
use quidz.Prelude.{
  ℕ, String, true, false, not, ◌≡◌, refl, ap, ◌∙◌, some, List, [], ◌∷◌, ◌++◌, any, any-append, sym,
  Bool-cases, Option-cases, inl, inr,
}
use quidz.Prelude.Int.{ℤ, pos, leb_ℤ}
use quidz.Errors.{
  Result, ok, raise, ◌>>◌, ok_value, Result-cases, raise_if, stale_timestamp, bad_signature,
}
use quidz.Signatures.{
  Crypto, header, parse_stripe_signature_header, matches, signed_payload, too_old, nonempty,
  verify_stripe,
}

module _ (crypto : Crypto) where
  -- The header of the request is there, parses to this timestamp, and carries a signature that
  -- one of the secrets reproduces over exactly these bytes.
  pub record Signed (raw : List ℕ) (headers : List (String × String)) (secrets : List (List ℕ))
      (timestamp : ℕ) : Type 0 where
    pub value : String
    pub candidates : List String
    pub present : header crypto headers "Stripe-Signature" ≡ some value
    pub parsed : parse_stripe_signature_header crypto value ≡ ok (timestamp, candidates)
    pub signed :
        any (matches crypto (signed_payload crypto timestamp raw) candidates) secrets ≡ true

  -- The guards that come after the header is parsed.
  abbrev pub judged : List ℕ → List (List ℕ) → ℕ → ℤ → Result (ℕ × List String) → Result ℕ
  judged raw secrets now tolerance (raise e) = raise e
  judged raw secrets now tolerance (ok (timestamp, candidates)) = do
    raise_if (not (any (matches crypto (signed_payload crypto timestamp raw) candidates) secrets))
        bad_signature
    raise_if (too_old crypto now timestamp tolerance) stale_timestamp
    ok timestamp

  pub verify_stripe-eq :
      (raw : List ℕ) (headers : List (String × String)) (secrets : List (List ℕ)) (now : ℕ)
      (tolerance : ℤ) (value : String)
      → leb_ℤ tolerance (pos 0) ≡ false
      → nonempty crypto secrets ≡ true
      → header crypto headers "Stripe-Signature" ≡ some value
      → verify_stripe crypto raw headers secrets now tolerance
        ≡ judged raw secrets now tolerance (parse_stripe_signature_header crypto value)
  unfolding verify_stripe
  verify_stripe-eq raw headers secrets now tolerance value t n h =
      rw (t, n, h)
        (elim (Result-cases (parse_stripe_signature_header crypto value)) [
          | inl (e, k) ↦ rw k refl
          | inr (p, k) ↦ rw k refl
        ])

  guards_passed :
      (raw : List ℕ) (headers : List (String × String)) (secrets : List (List ℕ)) (now : ℕ)
      (tolerance : ℤ) {n : ℕ}
      → verify_stripe crypto raw headers secrets now tolerance ≡ ok n
      → (leb_ℤ tolerance (pos 0) ≡ false)
        × (nonempty crypto secrets ≡ true)
        × ((value : String) × (header crypto headers "Stripe-Signature" ≡ some value))
  unfolding verify_stripe
  guards_passed raw headers secrets now tolerance h = elim (Bool-cases (leb_ℤ tolerance (pos 0))) [
    | inl t ↦ (let h' = rw t at h in cc)
    | inr t ↦
        (let h₁ = rw t at h in
          elim (Bool-cases (nonempty crypto secrets)) [
            | inr s ↦ (let h₂ = rw s at h₁ in cc)
            | inl s ↦
                (let h₂ = rw s at h₁ in
                  elim (Option-cases (header crypto headers "Stripe-Signature")) [
                    | inl v ↦ (let h₃ = rw v at h₂ in cc)
                    | inr (value, v) ↦ (t, s, (value, v))
                  ])
          ])
  ]

  judged_ok :
      (raw : List ℕ) (secrets : List (List ℕ)) (now : ℕ) (tolerance : ℤ)
      (p : Result (ℕ × List String)) {n : ℕ}
      → judged raw secrets now tolerance p ≡ ok n
      → (candidates : List String) × (p ≡ ok (n, candidates))
        × (any (matches crypto (signed_payload crypto n raw) candidates) secrets ≡ true)
        × (too_old crypto now n tolerance ≡ false)
  judged_ok raw secrets now tolerance (raise e) h = cc
  judged_ok raw secrets now tolerance (ok (m, candidates)) {n} h =
      elim (Bool-cases (any (matches crypto (signed_payload crypto m raw) candidates) secrets)) [
        | inr s ↦ (let h₁ = rw s at h in cc)
        | inl s ↦
            (let h₁ = rw s at h in
              elim (Bool-cases (too_old crypto now m tolerance)) [
                | inl o ↦ (let h₂ = rw o at h₁ in cc)
                | inr o ↦
                    (let h₂ = rw o at h₁ in
                      let same = ok_value h₂ in
                      (candidates, ap (λ k. ok (k, candidates)) same, rw (← same) s, rw (← same) o))
              ])
      ]

pub verify_stripe-Signed :
    (crypto : Crypto) (raw : List ℕ) (headers : List (String × String)) (secrets : List (List ℕ))
    (now : ℕ) (tolerance : ℤ) {n : ℕ}
    → verify_stripe crypto raw headers secrets now tolerance ≡ ok n
    → Signed crypto raw headers secrets n × (too_old crypto now n tolerance ≡ false)
verify_stripe-Signed crypto raw headers secrets now tolerance {n} h =
    let (t, s, (value, v)) = guards_passed crypto raw headers secrets now tolerance h in
    let (candidates, p, m, o) =
      judged_ok crypto raw secrets now tolerance (parse_stripe_signature_header crypto value)
        (sym (verify_stripe-eq crypto raw headers secrets now tolerance value t s v) ∙ h) in
    (record { value = value; candidates = candidates; present = v; parsed = p; signed = m }, o)

nonempty-append :
    (crypto : Crypto) (xs ys : List (List ℕ))
    → nonempty crypto xs ≡ true
    → nonempty crypto (xs ++ ys) ≡ true
nonempty-append crypto [] ys h = cc
nonempty-append crypto (x ∷ xs) ys h = refl

-- Rotating a secret loses no delivery: what the secrets in use accept is accepted with the same
-- timestamp once further secrets are added behind them.
pub verify_stripe_rotation :
    (crypto : Crypto) (raw : List ℕ) (headers : List (String × String))
    (secrets more : List (List ℕ)) (now : ℕ) (tolerance : ℤ) {n : ℕ}
    → verify_stripe crypto raw headers secrets now tolerance ≡ ok n
    → verify_stripe crypto raw headers (secrets ++ more) now tolerance ≡ ok n
verify_stripe_rotation crypto raw headers secrets more now tolerance {n} h =
    let (t, s, _) = guards_passed crypto raw headers secrets now tolerance h in
    let (d, o) = verify_stripe-Signed crypto raw headers secrets now tolerance h in
    verify_stripe-eq crypto raw headers (secrets ++ more) now tolerance d.value t
      (nonempty-append crypto secrets more s) d.present
    ∙ rw
        (
          d.parsed,
          any-append (matches crypto (signed_payload crypto n raw) d.candidates) secrets more,
          d.signed,
          o,
        )
        refl
