-- ===== src/Tests/Ledger.antt =====
-- One authorization, delivered twice (src/quidz/ledger.py).
use mathlib.Core.Path.{subst}
use quidz.Event.{CanonicalEvent}
use quidz.Prelude.{List, String, ◌≡◌, ◌≢◌, refl, ◌⊎◌, some, [], ◌∷◌}
use quidz.Prelude.Int.{pos, max_ℤ, ◌+ℤ◌}
use quidz.Errors.{ok}
use quidz.Model.{
  PaymentState, opened, derive_status, status_text, state_rank, amount_minor, check_order,
  check_amounts, check_single, fold, next_rank, apply_effect,
}
use quidz.Model.Bounds.{IsValid}
use quidz.Model.Totals.{MovedByAll}
use quidz.Store.{Db, insert_effect, upsert_payment, savepoint}
use quidz.Ledger.{applied, noop_duplicate, effect_row, load_payment, apply_to, apply_delivery}
use quidz.Ledger.Once.{Applied, after_all, apply_delivery_atomic, apply_delivery_again}
use quidz.Ledger.History.{IsFaithful, history, apply_delivery-IsFaithful, stored_totals}
use quidz.Ledger.Books.{book, view, Simulates, apply_delivery-Simulates}
use quidz.Samples.{authorization, inbox, inbox-IsFaithful}

abbrev authorized : PaymentState
authorized = record (opened "pay" "EUR") {
  authorized_minor = pos 1000;
  rank = 10;
  last_sequence = pos 7;
}

abbrev booked : Db
booked = record inbox {
  effects = effect_row "adyen:good" authorization ∷ [];
  payments = record { state = authorized; updated_at = pos 7000000 } ∷ [];
}

books : apply_delivery "adyen:good" authorization inbox ≡ (ok applied, booked)
unfolding apply_delivery load_payment apply_to savepoint insert_effect upsert_payment apply_effect
    amount_minor check_order check_amounts check_single fold next_rank max_ℤ ◌+ℤ◌ state_rank
    status_text derive_status
books = refl

apply_delivery_atomic_example :
    ((booked ≡ inbox) × (ok applied ≢ ok applied))
    ⊎ ((ok applied ≡ ok applied) × Applied "adyen:good" authorization inbox booked)
apply_delivery_atomic_example = apply_delivery_atomic "adyen:good" authorization inbox books

abbrev further : List (String × CanonicalEvent)
further = ("adyen:bad", record authorization { payment_id = "other"; provider_ref = "psp9" }) ∷ []

apply_delivery_again_example :
    apply_delivery "adyen:bad"
      (record authorization {
        identity = "again";
        amount = some (record { minor = pos 5; currency = "JPY" });
      })
      (after_all further booked)
    ≡ (ok noop_duplicate, after_all further booked)
apply_delivery_again_example =
    apply_delivery_again "adyen:good" authorization inbox further "adyen:bad"
      (record authorization {
        identity = "again";
        amount = some (record { minor = pos 5; currency = "JPY" });
      })
      books refl refl refl

apply_delivery-IsFaithful_example : IsFaithful (apply_delivery "adyen:good" authorization inbox).1
apply_delivery-IsFaithful_example =
    apply_delivery-IsFaithful "adyen:good" authorization inbox inbox-IsFaithful

booked-IsFaithful : IsFaithful booked
booked-IsFaithful =
    subst (λ p. IsFaithful p.1) books
      (apply_delivery-IsFaithful "adyen:good" authorization inbox inbox-IsFaithful)

finds : load_payment booked "pay" ≡ some authorized
unfolding load_payment
finds = refl

stored_totals_example :
    IsValid authorized × MovedByAll (opened "pay" "EUR") authorized (history "pay" booked)
stored_totals_example = stored_totals booked "pay" booked-IsFaithful finds

apply_delivery-Simulates_example :
    Simulates (apply_delivery "adyen:good" authorization inbox) (book (view inbox) authorization)
apply_delivery-Simulates_example = apply_delivery-Simulates "adyen:good" authorization inbox refl
