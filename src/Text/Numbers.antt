-- ===== src/Text/Numbers.antt =====
-- What the digits of a number are worth.
use Prim.Native.Char.{code}
use Prim.Native.String.{◌++◌ as append}
use text.Mathlib.TextLemmas.{nil-append, cons-append, append_assoc}
use quidz.Prelude.{
  ℕ, zero, suc, ◌+◌, ◌-◌, ◌*◌, ◌/◌, ◌%◌, ◌<◌, ◌≤◌, String, ◌≡◌, refl, sym, ap, ◌∙◌, true, false,
  Bool-cases, inl, inr, ltb, arith,
}
use quidz.Text.{digit, emit, decimal}

-- The number that a text of digits spells behind `n`.
abbrev pub spelled : ℕ → String → ℕ
spelled n String.[] = n
spelled n (String.◌∷◌ c s) = spelled (n * 10 + (code c - b'0')) s

-- `int(text)`, of a text of digits.
abbrev pub number : String → ℕ
number s = spelled 0 s

pub code-digit : (d : ℕ) → d < 10 → code (digit d) ≡ 48 + d
code-digit zero h = refl
code-digit (suc zero) h = refl
code-digit (suc (suc zero)) h = refl
code-digit (suc (suc (suc zero))) h = refl
code-digit (suc (suc (suc (suc zero)))) h = refl
code-digit (suc (suc (suc (suc (suc zero))))) h = refl
code-digit (suc (suc (suc (suc (suc (suc zero)))))) h = refl
code-digit (suc (suc (suc (suc (suc (suc (suc zero))))))) h = refl
code-digit (suc (suc (suc (suc (suc (suc (suc (suc zero)))))))) h = refl
code-digit (suc (suc (suc (suc (suc (suc (suc (suc (suc zero))))))))) h = refl
code-digit (suc (suc (suc (suc (suc (suc (suc (suc (suc (suc n)))))))))) h =
    absurd (omega (arith, h))

spelled-emit :
    (rounds n : ℕ) (out : String) → n < rounds → spelled 0 (emit rounds n out) ≡ spelled n out
unfolding emit
spelled-emit zero n out h = absurd (omega (arith, h))
spelled-emit (suc rounds) n out h =
    let d = code-digit (n % 10) (omega arith) in
    elim (Bool-cases (ltb n 10)) [
      | inl k ↦ rw k (ap (λ m. spelled m out) (rw d (ground arith)))
      | inr k ↦ rw k (
          spelled-emit rounds (n / 10) (String.◌∷◌ (digit (n % 10)) out) (ground arith)
          ∙ ap (λ m. spelled m out) (rw d (omega arith)))
    ]

-- The digits of a number spell it.
pub number-decimal : (n : ℕ) → number (decimal n) ≡ n
unfolding decimal
number-decimal n = spelled-emit (suc n) n "" (omega arith)

-- More rounds than the number make no difference.
emit-rounds : (k m n : ℕ) (out : String) → n < k → n < m → emit k n out ≡ emit m n out
unfolding emit
emit-rounds zero m n out h k = absurd (omega (arith, h))
emit-rounds (suc k) zero n out h l = absurd (omega (arith, l))
emit-rounds (suc k) (suc m) n out h l = elim (Bool-cases (ltb n 10)) [
  | inl b ↦ rw b refl
  | inr b ↦
      rw b
        (emit-rounds k m (n / 10) (String.◌∷◌ (digit (n % 10)) out) (ground arith) (ground arith))
]

emit-append : (k n : ℕ) (out : String) → n < k → emit k n out ≡ append (emit k n "") out
unfolding emit
emit-append zero n out h = absurd (omega (arith, h))
emit-append (suc k) n out h = elim (Bool-cases (ltb n 10)) [
  | inl b ↦ rw b (
      sym (cons-append (digit (n % 10)) "" out ∙ ap (String.◌∷◌ (digit (n % 10))) (nil-append out)))
  | inr b ↦
      (let smaller : n / 10 < k = ground arith in
        rw b (
          emit-append k (n / 10) (String.◌∷◌ (digit (n % 10)) out) smaller
          ∙ sym (
              ap (λ s. append s out)
                (emit-append k (n / 10) (String.◌∷◌ (digit (n % 10)) "") smaller)
              ∙ append_assoc (emit k (n / 10) "") (String.◌∷◌ (digit (n % 10)) "") out
              ∙ ap (append (emit k (n / 10) "")) (
                  cons-append (digit (n % 10)) "" out
                  ∙ ap (String.◌∷◌ (digit (n % 10))) (nil-append out)))))
]

-- The last digit stands behind the digits of a tenth.
pub decimal-last :
    (n : ℕ) → 10 ≤ n → decimal n ≡ append (decimal (n / 10)) (String.◌∷◌ (digit (n % 10)) "")
unfolding decimal emit
decimal-last n h =
    let b : ltb n 10 ≡ false = ground arith in
    rw b (
      emit-append n (n / 10) (String.◌∷◌ (digit (n % 10)) "") (omega arith)
      ∙ ap (λ s. append s (String.◌∷◌ (digit (n % 10)) ""))
          (emit-rounds n (suc (n / 10)) (n / 10) "" (omega arith) (omega arith)))

pub decimal-digit : (n : ℕ) → n < 10 → decimal n ≡ String.◌∷◌ (digit n) ""
unfolding decimal emit
decimal-digit n h =
    let b : ltb n 10 ≡ true = ground arith in rw b (ap (λ d. String.◌∷◌ (digit d) "") (omega arith))
