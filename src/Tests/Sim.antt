-- ===== src/Tests/Sim.antt =====
-- A small generator, and one signature (src/quidz/sim.py).
use Prim.Native.Char.{Char}
use quidz.Prelude.{ℕ, ◌≡◌, refl, true, none, [], ◌∷◌, arith}
use quidz.Prelude.Int.{pos}
use quidz.Errors.{ok}
use quidz.Signatures.{verify_stripe}
use quidz.Sim.{Rng, build_book}
use quidz.Sim.Reports.{settled_rows}
use quidz.Sim.Fees.{AllTolerated, settled_rows-AllTolerated}
use quidz.Sim.Deliveries.{Signer, signature_header}
use quidz.Sim.Signed.{signature_header-verifies}
use quidz.Samples.{crypto}

abbrev pub letter : Char
letter = "A"

-- It draws the least number and one letter.
abbrev pub rng : Rng
rng = record {
  Gen = ℕ;
  seeded = λ _. 0;
  randrange = λ low high g. (low, g);
  randrange-range = λ low high g h. (omega arith, h);
  choice = λ letters g. (letter, g);
  upper = λ s. s;
}

settled_rows-AllTolerated_example : AllTolerated (
    settled_rows
      (λ _. "2026-08-19")
      true
      1787011200000000
      0
      (build_book rng (pos 0) 1787011200000000))
settled_rows-AllTolerated_example =
    settled_rows-AllTolerated rng (λ _. "2026-08-19") (pos 0) 1787011200000000 true

abbrev pub signer : Signer
signer = record {
  crypto = crypto;
  hexdigest = λ _. "01";
  b64encode = λ _. "AQ==";
  dumps = λ _. 123 ∷ [];
  b32_digest = λ s. s;
  iso = λ _. "2026-08-19";
  find_amount = λ _. none;
}

signature_header-verifies_example :
    verify_stripe crypto
      (123 ∷ [])
      (("Stripe-Signature", signature_header signer ((1 ∷ []) ∷ []) [] 0 100 (123 ∷ [])) ∷ [])
      ((1 ∷ []) ∷ [])
      101000000
      (pos 300)
    ≡ ok 100
signature_header-verifies_example =
    signature_header-verifies signer (1 ∷ []) [] [] 0 (123 ∷ []) 101000000 100 (pos 300) refl
      (record { trimmed = refl; plain = refl; digits = refl; read = refl })
      (record { trimmed = refl; plain = refl; read = refl }, tt) refl
