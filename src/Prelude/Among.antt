-- ===== src/Prelude/Among.antt =====
-- Membership of a list, and what a search of it has found.
use quidz.Prelude.{◌≡◌, refl, Bool, true, List, [], ◌∷◌, ◌++◌, any, ◌⊎◌, inl, inr, Bool-cases}

-- Membership of a list.
pub data Among {A : Type 0} (a : A) : List A → Type 0 where
  first : {xs : List A} → Among a (a ∷ xs)
  later : {x : A} {xs : List A} → Among a xs → Among a (x ∷ xs)

pub Among-append :
    {A : Type 0} {a : A} (xs : List A) (x : A) → Among a (xs ++ x ∷ []) → Among a xs ⊎ (a ≡ x)
Among-append [] x first = inr refl
Among-append [] x (later m) = elim m [ ]
Among-append (y ∷ ys) x first = inl first
Among-append (y ∷ ys) x (later m) = elim (Among-append ys x m) [
  | inl k ↦ inl (later k)
  | inr e ↦ inr e
]

pub any-Among :
    {A : Type 0} (p : A → Bool) (xs : List A)
    → any p xs ≡ true
    → (x : A) × Among x xs × (p x ≡ true)
any-Among p [] h = cc
any-Among p (x ∷ xs) h = elim (Bool-cases (p x)) [
  | inl k ↦ (x, first, k)
  | inr k ↦ (let (y, m, q) = any-Among p xs (rw k at h) in (y, later m, q))
]
