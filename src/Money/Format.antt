-- ===== src/Money/Format.antt =====
-- What an amount prints as (`format_major` of src/quidz/money.py).
use Prim.Native.String.{◌++◌ as append, count}
use mathlib.Core.Path.{subst}
use text.Mathlib.TextLemmas.{length-append, length-cons, append-nil}
use quidz.Prelude.{
  ℕ, suc, ◌+◌, ◌-◌, ◌/◌, ◌%◌, ◌^◌, String, str_eq, ◌≡◌, sym, ap, ◌∙◌, true, false, ◌⊎◌, inl, inr,
  Bool, Bool-cases, any, [], ◌∷◌, ◌==◌, if◌then◌else◌, arith,
}
use quidz.Prelude.Int.{ℤ, nat_abs}
use quidz.Errors.{Result, ok, raise, ◌>>=◌}
use quidz.Event.{Money}
use quidz.Text.{decimal, rjust, concat, take_chars, drop_chars}
use quidz.Text.Numbers.{number}
use quidz.Text.Padding.{
  low_digits, without_digits, zero_digit, count-low_digits, take_chars-append, drop_chars-append,
  number-low_digits, rjust-cut,
}
use quidz.Money.{
  validate_currency, exponent, sign_text, placed, format_major, zero_decimal, three_decimal,
}

-- The text of an amount that is made of its parts.
abbrev pub printed : ℕ → ℤ → String → String → String → String
printed places minor whole fraction currency =
    if places == 0
    then concat (sign_text minor ∷ whole ∷ " " ∷ currency ∷ [])
    else concat (sign_text minor ∷ whole ∷ "." ∷ fraction ∷ " " ∷ currency ∷ [])

-- What dividing by this power of ten leaves, and the last so many digits.
record Parts (places n : ℕ) : Type 0 where
  units : without_digits places n ≡ n / 10 ^ places
  rest : number (low_digits places n) ≡ n % 10 ^ places

no_places : (n : ℕ) → Parts 0 n
no_places n = record { units = omega arith; rest = omega arith }

two_places : (n : ℕ) → Parts 2 n
two_places n = record {
  units = omega arith;
  rest = omega (arith, number-low_digits 1 n, number-low_digits 0 (n / 10));
}

three_places : (n : ℕ) → Parts 3 n
three_places n = record {
  units = omega arith;
  rest = omega (
    arith,
    number-low_digits 2 n,
    number-low_digits 1 (n / 10),
    number-low_digits 0 (n / 10 / 10),
  );
}

cut-append :
    (s w f : String) (places : ℕ)
    → s ≡ append w f
    → count f ≡ places
    → (take_chars (count s - places) s ≡ w) × (drop_chars (count s - places) s ≡ f)
cut-append s w f places h k =
    let cut : count s - places ≡ count w = omega (arith, ap count h, length-append w f, k) in
    (
      ap (λ n. take_chars n s) cut ∙ ap (take_chars (count w)) h ∙ take_chars-append w f,
      ap (λ n. drop_chars n s) cut ∙ ap (drop_chars (count w)) h ∙ drop_chars-append w f,
    )

chosen-cases :
    (none three : Bool) {places : ℕ}
    → (if none then 0 else if three then 3 else 2) ≡ places
    → (places ≡ 0) ⊎ ((places ≡ 2) ⊎ (places ≡ 3))
chosen-cases true three h = inl (sym h)
chosen-cases false true h = inr (inr (sym h))
chosen-cases false false h = inr (inl (sym h))

after-ok : (r : Result (Unit {0})) {n places : ℕ} → (r >>= λ _. ok n) ≡ ok places → n ≡ places
after-ok (ok u) h = cc
after-ok (raise e) h = cc

exponent-cases :
    (currency : String) {places : ℕ}
    → exponent currency ≡ ok places
    → (places ≡ 0) ⊎ ((places ≡ 2) ⊎ (places ≡ 3))
unfolding exponent
exponent-cases currency {places} h =
    chosen-cases (any (str_eq currency) zero_decimal) (any (str_eq currency) three_decimal)
      (after-ok (validate_currency currency) h)

nothing_cut : (fraction whole : String) → count fraction ≡ 0 → append whole fraction ≡ whole
nothing_cut String.[] whole h = append-nil whole
nothing_cut (String.◌∷◌ c s) whole h = absurd (omega (arith, h, length-cons c s))

prints_cut :
    (places : ℕ) (minor : ℤ) (currency digits whole fraction : String)
    → digits ≡ append whole fraction
    → count fraction ≡ places
    → placed places minor digits currency ≡ printed places minor whole fraction currency
prints_cut places minor currency digits whole fraction h k =
    let (w, f) = cut-append digits whole fraction places h k in
    elim (Bool-cases (places == 0)) [
      | inl none ↦
          (let uncut = nothing_cut fraction whole (k ∙ ground arith) in
            rw none (ap (λ s. concat (sign_text minor ∷ s ∷ " " ∷ currency ∷ [])) (h ∙ uncut)))
      | inr some ↦ rw some (
          ap
            (λ s. concat (
              sign_text minor
              ∷ s
              ∷ "."
              ∷ drop_chars (count digits - places) digits
              ∷ " "
              ∷ currency
              ∷ []))
            w
          ∙ ap (λ s. concat (sign_text minor ∷ whole ∷ "." ∷ s ∷ " " ∷ currency ∷ [])) f)
    ]

parts : (currency : String) {places : ℕ} (n : ℕ) → exponent currency ≡ ok places → Parts places n
parts currency {places} n h = elim (exponent-cases currency h) [
  | inl e ↦ subst (λ p. Parts p n) (sym e) (no_places n)
  | inr (inl e) ↦ subst (λ p. Parts p n) (sym e) (two_places n)
  | inr (inr e) ↦ subst (λ p. Parts p n) (sym e) (three_places n)
]

-- An amount prints at the scale of its currency: where the currency has an exponent, the text is
-- the sign, the digits of the whole units, which are the minor units divided by ten to the
-- exponent, a point with exactly as many digits as the exponent says, which are worth the
-- remainder, and the currency; where the exponent is zero there is no point.
pub format_major-digits :
    (m : Money) {places : ℕ}
    → exponent m.currency ≡ ok places
    → let n = nat_abs m.minor in
      let fraction = low_digits places n in
      (format_major m ≡ ok (printed places m.minor (decimal (n / 10 ^ places)) fraction m.currency))
      × (count fraction ≡ places)
      × (number fraction ≡ n % 10 ^ places)
unfolding format_major
format_major-digits m {places} h =
    let n = nat_abs m.minor in
    let t = parts m.currency n h in
    let more : places + 1 ≡ suc places = omega arith in
    let digits = rjust (places + 1) zero_digit (decimal n) in
    let cut =
      prints_cut places m.minor m.currency digits (decimal (without_digits places n))
        (low_digits places n) (ap (λ w. rjust w zero_digit (decimal n)) more ∙ rjust-cut places n)
        (count-low_digits places n) in
    (
      ap (λ r. r >>= λ p. ok (placed p m.minor (rjust (p + 1) zero_digit (decimal n)) m.currency)) h
          ∙ ap ok (
              cut
              ∙ ap (λ u. printed places m.minor (decimal u) (low_digits places n) m.currency)
                  t.units),
      count-low_digits places n,
      t.rest,
    )
