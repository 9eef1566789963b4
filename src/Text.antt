-- ===== src/Text.antt =====
-- Numbers and texts as Python formats them: `str(n)`, `rjust`, `ljust`, `join` and slices.
pub mod Numbers
pub mod Padding
use Prim.Native.Char.{Char}
use Prim.Native.String.{◌++◌ as append, count}
use quidz.Prelude.{ℕ, zero, suc, ◌-◌, ◌/◌, ◌%◌, String, List, [], ◌∷◌, ltb, ◌==◌, if◌then◌else◌}
use quidz.Prelude.Int.{ℤ, pos, negsuc}

abbrev pub char_at : ℕ → String → Char
char_at n String.[] = "0"
char_at zero (String.◌∷◌ c s) = c
char_at (suc n) (String.◌∷◌ c s) = char_at n s

abbrev pub digit : ℕ → Char
digit d = char_at d "0123456789"

-- The digits of a number in front of a text. There are fewer rounds than the number.
unfoldable pub emit : ℕ → ℕ → String → String
emit zero n out = out
emit (suc rounds) n out =
    let rest = emit rounds (n / 10) (String.◌∷◌ (digit (n % 10)) out) in
    if ltb n 10 then String.◌∷◌ (digit (n % 10)) out else rest

-- `str(n)`
unfoldable pub decimal : ℕ → String
decimal n = emit (suc n) n ""

unfoldable pub int_text : ℤ → String
int_text (pos n) = decimal n
int_text (negsuc n) = append "-" (decimal (suc n))

abbrev pub repeat : ℕ → Char → String
repeat zero c = ""
repeat (suc n) c = String.◌∷◌ c (repeat n c)

-- `text.rjust(width, c)` and `text.ljust(width, c)`.
unfoldable pub rjust : ℕ → Char → String → String
rjust width c text = append (repeat (width - count text) c) text

unfoldable pub ljust : ℕ → Char → String → String
ljust width c text = append text (repeat (width - count text) c)

-- `text[:n]` and `text[n:]`.
abbrev pub take_chars : ℕ → String → String
take_chars zero text = ""
take_chars (suc n) String.[] = ""
take_chars (suc n) (String.◌∷◌ c text) = String.◌∷◌ c (take_chars n text)

abbrev pub drop_chars : ℕ → String → String
drop_chars zero text = text
drop_chars (suc n) String.[] = ""
drop_chars (suc n) (String.◌∷◌ c text) = drop_chars n text

-- The texts of a formatted string, one after the other.
abbrev pub concat : List String → String
concat [] = ""
concat (s ∷ []) = s
concat (s ∷ t ∷ rest) = append s (concat (t ∷ rest))

-- `sep.join(texts)`
abbrev pub join : String → List String → String
join sep [] = ""
join sep (s ∷ []) = s
join sep (s ∷ t ∷ rest) = append s (append sep (join sep (t ∷ rest)))
