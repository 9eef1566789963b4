-- ===== src/Errors.antt =====
-- The exceptions that the package raises or meets, and computations that may raise one.
-- Messages are not modelled: no code of the package reads them.
-- src/quidz: money.py, model.py, events.py, verify.py.
use quidz.Prelude.{◌≡◌, refl, Bool, true, false, ◌⊎◌, inl, inr}

-- The exception that was raised, by its own class. `other` is any exception of another class.
pub data Exn : Type 0 where
  signature_error malformed_header bad_signature stale_timestamp : Exn
  event_error malformed_event unknown_event_type : Exn
  currency_mismatch amount_invariant_violation illegal_transition premature_event : Exn
  value_error key_error json_decode_error unicode_decode_error : Exn
  runtime_error operational_error integrity_error overflow_error other : Exn

pub data Result {ℓ} (A : Type ℓ) : Type ℓ where
  ok : A → Result A
  raise : Exn → Result A

module _ {ℓ κ} {A : Type ℓ} {C : Type κ} where
  infixl 5 ◌>>=◌
  abbrev pub ◌>>=◌ : Result A → (A → Result C) → Result C
  raise exc >>= next = raise exc
  ok a >>= next = next a

  -- A computation that raises, because its first part does or because the rest does.
  pub >>=-eq-raise :
      (first : Result A) (next : A → Result C) {exc : Exn}
      → (first >>= next) ≡ raise exc
      → (first ≡ raise exc) ⊎ ((a : A) × (first ≡ ok a) × (next a ≡ raise exc))
  >>=-eq-raise (raise exc) next h = inl (cc)
  >>=-eq-raise (ok a) next h = inr (a, refl, h)

  pub >>=-eq-ok :
      (first : Result A) (next : A → Result C) {c : C}
      → (first >>= next) ≡ ok c
      → (a : A) × (first ≡ ok a) × (next a ≡ ok c)
  >>=-eq-ok (raise exc) next h = cc
  >>=-eq-ok (ok a) next h = (a, refl, h)

infixl 5 ◌>>◌
abbrev pub ◌>>◌ {ℓ} : {C : Type ℓ} → Result (Unit {0}) → Result C → Result C
first >> next = first >>= λ _. next

-- `if c: raise exc`
abbrev pub raise_if : Bool → Exn → Result (Unit {0})
raise_if false exc = ok tt
raise_if true exc = raise exc

pub Result-cases {ℓ} :
    {A : Type ℓ} (r : Result A) → ((e : Exn) × (r ≡ raise e)) ⊎ ((a : A) × (r ≡ ok a))
Result-cases (ok a) = inr (a, refl)
Result-cases (raise e) = inl (e, refl)

pub ok_value {ℓ} : {A : Type ℓ} {x y : A} → ok x ≡ ok y → x ≡ y
ok_value h = cc

pub ok_unique {ℓ} : {A : Type ℓ} {x y : A} {r : Result A} → r ≡ ok x → r ≡ ok y → x ≡ y
ok_unique h k = cc

-- A computation that returns.
abbrev pub Returns : {A : Type 0} → Result A → Type 0
Returns {A} r = (a : A) × (r ≡ ok a)

pub bind-Returns :
    {A C : Type 0} (r : Result A) (next : A → Result C)
    → Returns r
    → ((a : A) → Returns (next a))
    → Returns (r >>= next)
bind-Returns r next (a, h) k = let (c, e) = k a in (c, rw h e)
