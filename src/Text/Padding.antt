-- ===== src/Text/Padding.antt =====
-- What padding a number and cutting it into two parts give.
use Prim.Native.Char.{Char, code}
use Prim.Native.String.{◌++◌ as append, count}
use text.Mathlib.TextLemmas.{
  nil-append, cons-append, append-nil, append_assoc, length-append, length-cons, length-nil,
}
use quidz.Prelude.{
  ℕ, zero, suc, ◌+◌, ◌-◌, ◌*◌, ◌/◌, ◌%◌, ◌<◌, ◌≤◌, String, ◌≡◌, sym, ap, ◌∙◌, Bool-cases, inl, inr,
  ltb, arith,
}
use quidz.Text.{digit, decimal, repeat, rjust, take_chars, drop_chars}
use quidz.Text.Numbers.{spelled, number, code-digit, decimal-last, decimal-digit}

abbrev pub zero_digit : Char
zero_digit = "0"

abbrev pub one_char : Char → String
one_char c = String.◌∷◌ c ""

-- The last so many digits of a number, and what is left of it without them.
abbrev pub low_digits : ℕ → ℕ → String
low_digits zero n = ""
low_digits (suc places) n = append (low_digits places (n / 10)) (one_char (digit (n % 10)))

abbrev pub without_digits : ℕ → ℕ → ℕ
without_digits zero n = n
without_digits (suc places) n = without_digits places (n / 10)

count-one_char : (c : Char) → count (one_char c) ≡ 1
count-one_char c = length-cons c "" ∙ ap suc length-nil

count-snoc : (s : String) (c : Char) → count (append s (one_char c)) ≡ count s + 1
count-snoc s c = length-append s (one_char c) ∙ ap (λ n. count s + n) (count-one_char c)

pub count-low_digits : (places n : ℕ) → count (low_digits places n) ≡ places
count-low_digits zero n = length-nil
count-low_digits (suc places) n =
    count-snoc (low_digits places (n / 10)) (digit (n % 10))
    ∙ omega (arith, count-low_digits places (n / 10))

pub take_chars-append : (s t : String) → take_chars (count s) (append s t) ≡ s
take_chars-append String.[] t = ap (λ n. take_chars n (append "" t)) length-nil
take_chars-append (String.◌∷◌ c s) t =
    ap (λ n. take_chars n (append (String.◌∷◌ c s) t)) (length-cons c s)
    ∙ ap (take_chars (suc (count s))) (cons-append c s t)
    ∙ ap (String.◌∷◌ c) (take_chars-append s t)

pub drop_chars-append : (s t : String) → drop_chars (count s) (append s t) ≡ t
drop_chars-append String.[] t = ap (λ n. drop_chars n (append "" t)) length-nil ∙ nil-append t
drop_chars-append (String.◌∷◌ c s) t =
    ap (λ n. drop_chars n (append (String.◌∷◌ c s) t)) (length-cons c s)
    ∙ ap (drop_chars (suc (count s))) (cons-append c s t)
    ∙ drop_chars-append s t

spelled-append : (n : ℕ) (s t : String) → spelled n (append s t) ≡ spelled (spelled n s) t
spelled-append n String.[] t = ap (spelled n) (nil-append t)
spelled-append n (String.◌∷◌ c s) t =
    ap (spelled n) (cons-append c s t) ∙ spelled-append (n * 10 + (code c - b'0')) s t

pub number-low_digits :
    (places n : ℕ)
    → number (low_digits (suc places) n) ≡ number (low_digits places (n / 10)) * 10 + n % 10
number-low_digits places n =
    spelled-append 0 (low_digits places (n / 10)) (one_char (digit (n % 10)))
    ∙ omega (arith, code-digit (n % 10) (omega arith))

repeat-snoc : (n : ℕ) (c : Char) → repeat (suc n) c ≡ append (repeat n c) (one_char c)
repeat-snoc zero c = sym (nil-append (one_char c))
repeat-snoc (suc n) c =
    ap (String.◌∷◌ c) (repeat-snoc n c) ∙ sym (cons-append c (repeat n c) (one_char c))

count-decimal : (n : ℕ) → 1 ≤ count (decimal n)
count-decimal n = elim (Bool-cases (ltb n 10)) [
  | inl h ↦ omega (arith, ap count (decimal-digit n (ground arith)), count-one_char (digit n))
  | inr h ↦ omega (
    arith,
    ap count (decimal-last n (ground arith)),
    count-snoc (decimal (n / 10)) (digit (n % 10)),
  )
]

rjust-by :
    (width missing : ℕ) (s : String)
    → count s + missing ≡ width
    → rjust width zero_digit s ≡ append (repeat missing zero_digit) s
unfolding rjust
rjust-by width missing s h =
    let exact : width - count s ≡ missing = omega (arith, h) in
    ap (λ k. append (repeat k zero_digit) s) exact

padded_longer :
    (places : ℕ) (x : String) (c : Char) (s : String)
    → s ≡ append x (one_char c)
    → rjust (suc (suc places)) zero_digit s ≡ append (rjust (suc places) zero_digit x) (one_char c)
unfolding rjust
padded_longer places x c s h =
    let fewer : suc (suc places) - count (append x (one_char c)) ≡ suc places - count x =
      omega (arith, count-snoc x c) in
    ap (rjust (suc (suc places)) zero_digit) h
    ∙ ap (λ k. append (repeat k zero_digit) (append x (one_char c))) fewer
    ∙ sym (append_assoc (repeat (suc places - count x) zero_digit) x (one_char c))

full_width : (s : String) → 1 ≤ count s → rjust 1 zero_digit s ≡ s
unfolding rjust
full_width s h =
    let none_missing : 1 - count s ≡ 0 = omega (arith, h) in
    ap (λ k. append (repeat k zero_digit) s) none_missing ∙ nil-append s

-- One more place is one more digit of the padded number.
rjust-snoc :
    (places n : ℕ)
    → rjust (suc (suc places)) zero_digit (decimal n)
      ≡ append (rjust (suc places) zero_digit (decimal (n / 10))) (one_char (digit (n % 10)))
rjust-snoc places n = elim (Bool-cases (ltb n 10)) [
  | inl h ↦
      (let small : n < 10 = ground arith in
        let no_tens : n / 10 ≡ 0 = omega (arith, small) in
        let same_digit : n ≡ n % 10 = omega (arith, small) in
        let tens = ap decimal no_tens ∙ decimal-digit 0 (omega arith) in
        ap (rjust (suc (suc places)) zero_digit) (decimal-digit n small)
        ∙ rjust-by (suc (suc places)) (suc places) (one_char (digit n))
            (omega (arith, count-one_char (digit n)))
        ∙ ap (λ s. append s (one_char (digit n))) (repeat-snoc places zero_digit)
        ∙ ap (λ s. append s (one_char (digit n)))
            (sym (
              ap (rjust (suc places) zero_digit) tens
              ∙ rjust-by (suc places) places (one_char zero_digit)
                  (omega (arith, count-one_char zero_digit))))
        ∙ ap (λ k. append (rjust (suc places) zero_digit (decimal (n / 10))) (one_char (digit k)))
            same_digit)
  | inr h ↦
      (let x = decimal (n / 10) in
        padded_longer places x (digit (n % 10)) (decimal n) (decimal-last n (ground arith)))
]

-- A number with enough zeros in front is cut before its last so many digits.
pub rjust-cut :
    (places n : ℕ)
    → rjust (suc places) zero_digit (decimal n)
      ≡ append (decimal (without_digits places n)) (low_digits places n)
rjust-cut zero n = full_width (decimal n) (count-decimal n) ∙ sym (append-nil (decimal n))
rjust-cut (suc places) n =
    rjust-snoc places n
    ∙ ap (λ s. append s (one_char (digit (n % 10)))) (rjust-cut places (n / 10))
    ∙ append_assoc (decimal (without_digits places (n / 10))) (low_digits places (n / 10))
        (one_char (digit (n % 10)))
