-- ===== src/Prelude/Order.antt =====
-- Sorting by a Boolean order, and the order of texts by their characters.
use Prim.Native.String.{String, compare}
use text.Mathlib.Text.{is_le, is_lt}
use mathlib.Core.Bool.{Bool}
use mathlib.Core.List.{List, [], ◌∷◌}
use quidz.Prelude.Tests.{if◌then◌else◌}

abbrev pub str_leb : String → String → Bool
str_leb a b = is_le (compare a b)

abbrev pub str_ltb : String → String → Bool
str_ltb a b = is_lt (compare a b)

module _ {ℓ} {A : Type ℓ} where
  abbrev pub insert_by : (A → A → Bool) → A → List A → List A
  insert_by le x [] = x ∷ []
  insert_by le x (y ∷ ys) = if le x y then x ∷ y ∷ ys else y ∷ insert_by le x ys

  -- A stable sort, as `sorted` and ORDER BY are read.
  abbrev pub sort_by : (A → A → Bool) → List A → List A
  sort_by le [] = []
  sort_by le (x ∷ xs) = insert_by le x (sort_by le xs)
