-- ===== src/Signatures/Escaping.antt =====
-- The signing string of Adyen can be read back (`adyen_signing_string` of src/quidz/verify.py).
use Prim.Native.String.append.{nil, cons}
use Prim.Native.Char.{code, Char}
use Prim.Native.String.{◌++◌ as append}
use text.Mathlib.TextEquality.{Char-path}
use quidz.Prelude.{
  ℕ, String, Bool, true, false, ◌≡◌, refl, ap, sym, ◌∙◌, List, [], ◌∷◌, ◌==◌, if◌then◌else◌,
  Bool-cases, inl, inr, arith,
}
use quidz.Python.{Fields}
use quidz.Signatures.{Crypto, replace, adyen_escape, adyen_signing_string, adyen_signing_fields}

abbrev backslash : Char
backslash = "\\"

abbrev colon : Char
colon = ":"

pub cons_append : (c : Char) (s t : String) → append (String.◌∷◌ c s) t ≡ String.◌∷◌ c (append s t)
cons_append c s t = λ i. cons c s t i

pub nil_append : (s : String) → append "" s ≡ s
nil_append s = λ i. nil s i

append_backslashes : (s : String) → append "\\\\" s ≡ String.◌∷◌ backslash (String.◌∷◌ backslash s)
append_backslashes s =
    cons_append backslash "\\" s
    ∙ ap (String.◌∷◌ backslash)
        (cons_append backslash "" s ∙ ap (String.◌∷◌ backslash) (nil_append s))

append-colon : (s : String) → append "\\:" s ≡ String.◌∷◌ backslash (String.◌∷◌ colon s)
append-colon s =
    cons_append backslash ":" s
    ∙ ap (String.◌∷◌ backslash) (cons_append colon "" s ∙ ap (String.◌∷◌ colon) (nil_append s))

append-nil : (s : String) → append s "" ≡ s
append-nil String.[] = nil_append ""
append-nil (String.◌∷◌ c s) = cons_append c s "" ∙ ap (String.◌∷◌ c) (append-nil s)

replace_same :
    (old : ℕ) (by : String) (c : Char) (s : String)
    → (code c == old) ≡ true
    → replace old by (String.◌∷◌ c s) ≡ append by (replace old by s)
unfolding replace
replace_same old by c s h = rw h refl

replace_other :
    (old : ℕ) (by : String) (c : Char) (s : String)
    → (code c == old) ≡ false
    → replace old by (String.◌∷◌ c s) ≡ String.◌∷◌ c (replace old by s)
unfolding replace
replace_other old by c s h = rw h refl

escape_backslash :
    (c : Char) (s : String)
    → (code c == b'\\') ≡ true
    → adyen_escape (String.◌∷◌ c s) ≡ String.◌∷◌ backslash (String.◌∷◌ backslash (adyen_escape s))
unfolding adyen_escape
escape_backslash c s h =
    let inner = replace b'\\' "\\\\" s in
    ap (replace b':' "\\:") (replace_same b'\\' "\\\\" c s h ∙ append_backslashes inner)
    ∙ replace_other b':' "\\:" backslash (String.◌∷◌ backslash inner) refl
    ∙ ap (String.◌∷◌ backslash) (replace_other b':' "\\:" backslash inner refl)

escape_colon :
    (c : Char) (s : String)
    → (code c == b'\\') ≡ false
    → (code c == b':') ≡ true
    → adyen_escape (String.◌∷◌ c s) ≡ String.◌∷◌ backslash (String.◌∷◌ colon (adyen_escape s))
unfolding adyen_escape
escape_colon c s h k =
    let inner = replace b'\\' "\\\\" s in
    ap (replace b':' "\\:") (replace_other b'\\' "\\\\" c s h)
    ∙ replace_same b':' "\\:" c inner k
    ∙ append-colon (replace b':' "\\:" inner)

escape_other :
    (c : Char) (s : String)
    → (code c == b'\\') ≡ false
    → (code c == b':') ≡ false
    → adyen_escape (String.◌∷◌ c s) ≡ String.◌∷◌ c (adyen_escape s)
unfolding adyen_escape
escape_other c s h k =
    ap (replace b':' "\\:") (replace_other b'\\' "\\\\" c s h)
    ∙ replace_other b':' "\\:" c (replace b'\\' "\\\\" s) k

abbrev put : Char → List String → List String
put c [] = []
put c (x ∷ xs) = String.◌∷◌ c x ∷ xs

-- The fields that a signing string was joined from; the flag says that a backslash was read.
abbrev pub fields_of : Bool → String → List String
fields_of escaped String.[] = "" ∷ []
fields_of true (String.◌∷◌ c s) = put c (fields_of false s)
fields_of false (String.◌∷◌ c s) =
    let quoted = fields_of true s in
    let rest = fields_of false s in
    if code c == b'\\' then quoted else if code c == b':' then "" ∷ rest else put c rest

abbrev put_all : String → List String → List String
put_all s [] = []
put_all s (x ∷ xs) = append s x ∷ xs

put-put_all :
    (c : Char) (s : String) (xs : List String) → put c (put_all s xs) ≡ put_all (String.◌∷◌ c s) xs
put-put_all c s [] = refl
put-put_all c s (x ∷ xs) = ap (λ z. z ∷ xs) (sym (cons_append c s x))

put_all-nil : (xs : List String) → put_all "" xs ≡ xs
put_all-nil [] = refl
put_all-nil (x ∷ xs) = ap (λ z. z ∷ xs) (nil_append x)

quoted :
    (c d : Char) (e t : String)
    → code c ≡ code d
    → fields_of false (append (String.◌∷◌ backslash (String.◌∷◌ d e)) t)
      ≡ put c (fields_of false (append e t))
quoted c d e t h =
    ap (fields_of false)
      (cons_append backslash (String.◌∷◌ d e) t ∙ ap (String.◌∷◌ backslash) (cons_append d e t))
    ∙ ap (λ z. put z (fields_of false (append e t))) (sym (Char-path c d h))

fields_of-escape :
    (s t : String) → fields_of false (append (adyen_escape s) t) ≡ put_all s (fields_of false t)
unfolding adyen_escape replace
fields_of-escape String.[] t =
    ap (fields_of false) (nil_append t) ∙ sym (put_all-nil (fields_of false t))
fields_of-escape (String.◌∷◌ c s) t =
    let ih = ap (put c) (fields_of-escape s t) ∙ put-put_all c s (fields_of false t) in
    elim (Bool-cases (code c == b'\\')) [
      | inl h ↦
          ap (λ z. fields_of false (append z t)) (escape_backslash c s h)
          ∙ quoted c backslash (adyen_escape s) t (ground arith)
          ∙ ih
      | inr h ↦ elim (Bool-cases (code c == b':')) [
        | inl k ↦
            ap (λ z. fields_of false (append z t)) (escape_colon c s h k)
            ∙ quoted c colon (adyen_escape s) t (ground arith)
            ∙ ih
        | inr k ↦
            ap (λ z. fields_of false (append z t)) (escape_other c s h k)
            ∙ ap (fields_of false) (cons_append c (adyen_escape s) t)
            ∙ rw (h, k) ih
      ]
    ]

read_last : (s : String) → fields_of false (adyen_escape s) ≡ s ∷ []
read_last s =
    ap (fields_of false) (sym (append-nil (adyen_escape s)))
    ∙ fields_of-escape s ""
    ∙ ap (λ z. z ∷ []) (append-nil s)

read_next :
    (s t : String)
    → fields_of false (append (adyen_escape s) (append ":" t)) ≡ s ∷ fields_of false t
read_next s t =
    fields_of-escape s (append ":" t)
    ∙ ap (λ z. put_all s (fields_of false z))
        (cons_append colon "" t ∙ ap (String.◌∷◌ colon) (nil_append t))
    ∙ ap (λ z. z ∷ fields_of false t) (append-nil s)

module _ (crypto : Crypto) where
  read_back :
      (f : String) (fs : List String)
      → fields_of false (adyen_signing_string crypto (f ∷ fs)) ≡ f ∷ fs
  unfolding adyen_signing_string
  read_back f [] = read_last f
  read_back f (g ∷ fs) =
      read_next f (adyen_signing_string crypto (g ∷ fs)) ∙ ap (λ z. f ∷ z) (read_back g fs)

-- The string that Adyen signs determines the signed fields: two notifications with one signing
-- string agree in every one of the eight fields, so that no colon or backslash inside a field can
-- shift what was signed into another field.
pub adyen_signing_string_unambiguous :
    (crypto : Crypto) (item item' : Fields)
    → adyen_signing_string crypto (adyen_signing_fields crypto item)
      ≡ adyen_signing_string crypto (adyen_signing_fields crypto item')
    → adyen_signing_fields crypto item ≡ adyen_signing_fields crypto item'
unfolding adyen_signing_fields
adyen_signing_string_unambiguous crypto item item' h =
    sym (read_back crypto _ _) ∙ ap (fields_of false) h ∙ read_back crypto _ _
