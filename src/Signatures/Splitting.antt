-- ===== src/Signatures/Splitting.antt =====
-- Where a text is cut at a character (`split` and `partition`, as src/quidz/verify.py uses them).
use Prim.Native.Char.{Char, code}
use Prim.Native.String.{◌++◌ as append}
use quidz.Prelude.{
  ℕ, String, ◌≡◌, refl, ap, ◌∙◌, Bool, true, false, ◌||◌, some, [], ◌∷◌, ◌==◌, arith,
}
use quidz.Signatures.{split, partition}
use quidz.Signatures.Escaping.{cons_append, nil_append}

-- Whether a text has the character.
abbrev pub has_char : ℕ → String → Bool
has_char c String.[] = false
has_char c (String.◌∷◌ d s) = code d == c || has_char c s

pub split-append :
    (sep : ℕ) (a : String) (d : Char) (b : String)
    → has_char sep a ≡ false
    → (code d == sep) ≡ true
    → split sep (append a (append (String.◌∷◌ d "") b)) ≡ a ∷ split sep b
split-append sep String.[] d b h k =
    ap (split sep) (
      nil_append (append (String.◌∷◌ d "") b)
      ∙ cons_append d "" b
      ∙ ap (String.◌∷◌ d) (nil_append b))
    ∙ rw k refl
split-append sep (String.◌∷◌ c a) d b h k =
    let other : (code c == sep) ≡ false = ground arith in
    let rest : has_char sep a ≡ false = ground arith in
    ap (split sep) (cons_append c a (append (String.◌∷◌ d "") b))
    ∙ rw (other, split-append sep a d b rest k) refl

pub split-plain : (sep : ℕ) (a : String) → has_char sep a ≡ false → split sep a ≡ a ∷ []
split-plain sep String.[] h = refl
split-plain sep (String.◌∷◌ c a) h = ground (arith, split-plain sep a)

pub partition-append :
    (sep : ℕ) (a : String) (d : Char) (b : String)
    → has_char sep a ≡ false
    → (code d == sep) ≡ true
    → partition sep (append a (append (String.◌∷◌ d "") b)) ≡ some (a, b)
partition-append sep String.[] d b h k =
    ap (partition sep) (
      nil_append (append (String.◌∷◌ d "") b)
      ∙ cons_append d "" b
      ∙ ap (String.◌∷◌ d) (nil_append b))
    ∙ rw k refl
partition-append sep (String.◌∷◌ c a) d b h k =
    let other : (code c == sep) ≡ false = ground arith in
    let rest : has_char sep a ≡ false = ground arith in
    ap (partition sep) (cons_append c a (append (String.◌∷◌ d "") b))
    ∙ rw (other, partition-append sep a d b rest k) refl
