-- ===== src/Cli/Settlement.antt =====
-- The settlement file as it is read back.
use Prim.Native.Nat.{Ordering}
use Prim.Native.String.{compare}
use text.Mathlib.Text.{is_eq, is_le}
use mathlib.Core.List.{append-nil}
use quidz.Prelude.{
  String, str_eq, eq_iff, ◌≡◌, refl, sym, ap, ◌∙◌, Bool, true, not, Option, none, some, List, [],
  ◌∷◌, ◌++◌, keep, keep-append, Bool-cases, inl, inr, if◌then◌else◌, arith,
}
use quidz.Prelude.Order.{insert_by, sort_by, str_leb}
use quidz.Errors.{ok}
use quidz.Reconcile.{SettlementRow}
use quidz.Store.{Db, write_tx, replace_settlement}
use quidz.Store.Transactions.{closed}
use quidz.Ledger.Listing.{by_reference, list_settlement_rows}
use quidz.Cli.{replace_all, store_settlement}

module _ {A : Type 0} (p : A → Bool) (le : A → A → Bool)
    (tie : (x y : A) → p x ≡ true → p y ≡ true → le x y ≡ true) where
  keep-insert_by :
      (x : A) (ys : List A)
      → keep p (insert_by le x ys) ≡ (if p x then x ∷ keep p ys else keep p ys)
  keep-insert_by x [] = refl
  keep-insert_by x (y ∷ ys) = ground (arith, keep-insert_by x ys, tie x y)

  -- A sort moves no two elements past each other that tie.
  keep-sort_by : (xs : List A) → keep p (sort_by le xs) ≡ keep p xs
  keep-sort_by [] = refl
  keep-sort_by (x ∷ xs) =
      keep-insert_by x (sort_by le xs) ∙ ap (λ ys. if p x then x ∷ ys else ys) (keep-sort_by xs)

abbrev pub of : String → SettlementRow → Bool
of reference r = str_eq r.psp_reference reference

-- The last row of a file that has the reference.
abbrev pub last_of : String → List SettlementRow → Option SettlementRow
last_of reference [] = none
last_of reference (row ∷ rows) =
    let later = last_of reference rows in
    elim later [ some r ↦ some r | none ↦ if of reference row then some row else none ]

abbrev pub instead : Option SettlementRow → List SettlementRow → List SettlementRow
instead none before = before
instead (some r) before = r ∷ []

eq-le : (o : Ordering) → is_eq o ≡ true → is_le o ≡ true
eq-le Ordering.lt h = refl
eq-le Ordering.eq h = refl
eq-le Ordering.gt h = cc

str_leb_refl : (a : String) → str_leb a a ≡ true
str_leb_refl a = eq-le (compare a a) ((eq_iff a a).1 refl)

same_reference :
    (reference : String) (x y : SettlementRow)
    → of reference x ≡ true
    → of reference y ≡ true
    → by_reference x y ≡ true
same_reference reference x y h k =
    rw ((eq_iff x.psp_reference reference).0 h, (eq_iff y.psp_reference reference).0 k)
      (str_leb_refl reference)

keep-dropped :
    (reference : String) (row : SettlementRow) (table : List SettlementRow)
    → keep (of reference) (keep (λ r. not (str_eq r.psp_reference row.psp_reference)) table)
      ≡ (if of reference row then [] else keep (of reference) table)
keep-dropped reference row [] = ground arith
keep-dropped reference row (x ∷ xs) = ground (
  arith,
  keep-dropped reference row xs,
  eq_iff x.psp_reference row.psp_reference,
  eq_iff x.psp_reference reference,
  eq_iff row.psp_reference reference,
)

-- One row replaces what was there under its reference.
keep-replace_settlement :
    (reference : String) (row : SettlementRow) (table : List SettlementRow)
    → keep (of reference) (replace_settlement row table)
      ≡ (if of reference row then row ∷ [] else keep (of reference) table)
unfolding replace_settlement
keep-replace_settlement reference row table =
    keep-append (of reference) (keep (λ r. not (str_eq r.psp_reference row.psp_reference)) table)
      (row ∷ [])
    ∙ ap (λ rows. rows ++ keep (of reference) (row ∷ [])) (keep-dropped reference row table)
    ∙ elim (Bool-cases (of reference row)) [
      | inl h ↦ rw h refl
      | inr h ↦ rw h (append-nil (keep (of reference) table))
    ]

instead-last :
    (reference : String) (row : SettlementRow) (later : Option SettlementRow)
    (before : List SettlementRow)
    → instead later (if of reference row then row ∷ [] else before)
      ≡ instead
          (elim later [ some r ↦ some r | none ↦ if of reference row then some row else none ])
          before
instead-last reference row (some r) before = refl
instead-last reference row none before = ground arith

keep-replace_all :
    (reference : String) (rows table : List SettlementRow)
    → keep (of reference) (replace_all rows table)
      ≡ instead (last_of reference rows) (keep (of reference) table)
keep-replace_all reference [] table = refl
keep-replace_all reference (row ∷ rows) table =
    keep-replace_all reference rows (replace_settlement row table)
    ∙ ap (instead (last_of reference rows)) (keep-replace_settlement reference row table)
    ∙ instead-last reference row (last_of reference rows) (keep (of reference) table)

-- A settlement file is read back as it was written: on a connection with no open transaction the
-- rows of a file are stored, and the listing then shows, for every reference, the last row of the
-- file that has it, and no other; a reference that the file does not have keeps the row it had.
pub store_settlement-listed :
    (rows : List SettlementRow) (db : Db) (reference : String)
    → (db' : Db) × (store_settlement rows (closed db) ≡ (ok tt, closed db'))
      × (keep (of reference) (list_settlement_rows db')
          ≡ instead (last_of reference rows) (keep (of reference) (list_settlement_rows db)))
unfolding store_settlement write_tx list_settlement_rows
store_settlement-listed rows db reference =
    let sorted = keep-sort_by (of reference) by_reference (same_reference reference) in
    (
      record db { settlement_rows = replace_all rows db.settlement_rows },
      refl,
      sorted (replace_all rows db.settlement_rows)
          ∙ keep-replace_all reference rows db.settlement_rows
          ∙ ap (instead (last_of reference rows)) (sym (sorted db.settlement_rows)),
    )
