-- ===== src/Cli/Demo/Listed.antt =====
-- The ledger that the commands print (`_ledger_lines` of src/quidz/cli.py), of a database whose
-- payments are in currencies.
use quidz.Prelude.{
  ℕ, suc, ◌+◌, ◌≡◌, refl, sym, ap, ◌∙◌, arith, String, Bool-cases, Option, inl, inr, List, [], ◌∷◌,
  map, length,
}
use quidz.Prelude.Int.{ℤ}
use quidz.Prelude.Order.{insert_by, sort_by}
use quidz.Errors.{Returns, bind-Returns, Result, ok}
use mathlib.Core.Path.{subst}
use quidz.Python.{Python}
use quidz.Dlq.{RetryPolicy, Random}
use quidz.Store.Transactions.{closed}
use quidz.Inbox.Drain.{drain}
use quidz.Inbox.Drain.Keeps.{drain-AllPriced}
use quidz.Model.{PaymentState}
use quidz.Event.{Money}
use quidz.Store.{Payment, Db}
use quidz.Money.{validate_currency, make_money, exponent, format_major}
use quidz.Ledger.Priced.{IsCurrency, AllPriced}
use quidz.Ledger.Listing.{by_payment, list_payments}
use quidz.Cli.Listing.{amount_text, payment_line, payment_lines, ledger_header, ledger_lines}

abbrev EachPriced : List PaymentState → Type 0
EachPriced [] = Unit {0}
EachPriced (s ∷ ss) = IsCurrency s.currency × EachPriced ss

made :
    (minor : ℤ) (currency : String)
    → IsCurrency currency
    → make_money minor currency ≡ ok (record { minor = minor; currency = currency })
unfolding make_money
made minor currency c = rw (c.valid) refl

exponent-Returns : (currency : String) → IsCurrency currency → Returns (exponent currency)
unfolding exponent
exponent-Returns currency c =
    bind-Returns (validate_currency currency) _ (tt, c.valid) (λ _. (_, refl))

format_major-Returns : (m : Money) → IsCurrency m.currency → Returns (format_major m)
unfolding format_major
format_major-Returns m c =
    bind-Returns (exponent m.currency) _ (exponent-Returns m.currency c) (λ places. (_, refl))

amount_text-Returns :
    (minor : ℤ) (currency : String) → IsCurrency currency → Returns (amount_text minor currency)
amount_text-Returns minor currency c =
    rw (made minor currency c)
      (format_major-Returns (record { minor = minor; currency = currency }) c)

payment_line-Returns : (s : PaymentState) → IsCurrency s.currency → Returns (payment_line s)
payment_line-Returns s c =
    bind-Returns (amount_text s.authorized_minor s.currency) _
      (amount_text-Returns s.authorized_minor s.currency c)
      (λ authorized.
        bind-Returns (amount_text s.captured_minor s.currency) _
          (amount_text-Returns s.captured_minor s.currency c)
          (λ captured.
            bind-Returns (amount_text s.refunded_minor s.currency) _
              (amount_text-Returns s.refunded_minor s.currency c) (λ refunded. (_, refl))))

-- So many lines.
abbrev ReturnsLines : ℕ → Result (List String) → Type 0
ReturnsLines n r = (lines : List String) × (r ≡ ok lines) × (length lines ≡ n)

payment_lines-Returns :
    (ss : List PaymentState) → EachPriced ss → ReturnsLines (length ss) (payment_lines ss)
payment_lines-Returns [] a = ([], refl, refl)
payment_lines-Returns (s ∷ ss) (c, cs) =
    let (line, e) = payment_line-Returns s c in
    let (rest, es, n) = payment_lines-Returns ss cs in (line ∷ rest, rw (e, es) refl, rw n refl)

insert-EachPriced :
    (s : PaymentState) (ss : List PaymentState)
    → IsCurrency s.currency
    → EachPriced ss
    → EachPriced (insert_by by_payment s ss)
      × (length (insert_by by_payment s ss) ≡ suc (length ss))
insert-EachPriced s [] c a = ((c, a), refl)
insert-EachPriced s (t ∷ ss) c (d, ds) = elim (Bool-cases (by_payment s t)) [
  | inl e ↦ rw e ((c, (d, ds)), refl)
  | inr e ↦ (let (p, n) = insert-EachPriced s ss c ds in rw e ((d, p), rw n refl))
]

listed-EachPriced :
    (ps : List Payment)
    → AllPriced ps
    → EachPriced (sort_by by_payment (map (λ p. p.state) ps))
      × (length (sort_by by_payment (map (λ p. p.state) ps)) ≡ length ps)
listed-EachPriced [] a = (tt, refl)
listed-EachPriced (p ∷ ps) (c, cs) =
    let (sorted, n) = listed-EachPriced ps cs in
    let (inserted, m) =
      insert-EachPriced p.state (sort_by by_payment (map (λ q. q.state) ps)) c sorted in
    (inserted, m ∙ ap suc n)

-- Where every stored payment is in a currency of three upper case letters, the ledger prints: the
-- listing raises nothing, and its lines are the two of its heading and one for each stored payment.
pub ledger_lines-total :
    (db : Db)
    → AllPriced db.payments
    → (lines : List String) × (ledger_lines db ≡ ok lines) × (length lines ≡ length db.payments + 2)
unfolding ledger_lines list_payments
ledger_lines-total db a =
    let (each, n) = listed-EachPriced db.payments a in
    let (lines, e, m) = payment_lines-Returns (list_payments db) each in
    ("LEDGER" ∷ ledger_header ∷ lines, rw e refl, omega (arith, n, m))

-- No body of a delivery can make the ledger unprintable: where every stored payment is in a currency
-- of three upper case letters, on a connection with no open transaction every payment still is
-- after a drain, whatever the deliveries decode to, so that the ledger then prints without an
-- exception, in two lines of heading and one for each stored payment.
pub drain-ledger_lines :
    (python : Python) (random : Random) (now : ℕ) (policy : RetryPolicy) (limit : ℕ)
    (rng : Option random.Gen) (db : Db) {after : Db}
    → AllPriced db.payments
    → after ≡ (drain python random now policy limit rng (closed db)).1.db
    → AllPriced after.payments
      × ((lines : List String) × (ledger_lines after ≡ ok lines)
          × (length lines ≡ length after.payments + 2))
drain-ledger_lines python random now policy limit rng db {after} priced same =
    let kept =
      subst (λ d. AllPriced d.payments) (sym same)
        (drain-AllPriced python random now policy limit rng db priced) in
    (kept, ledger_lines-total after kept)
