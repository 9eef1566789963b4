-- ===== src/Ledger/Books.antt =====
-- What the ledger promises, without its tables: which effects are booked, and what each payment
-- holds. `apply_delivery` of src/quidz/ledger.py implements it.
use quidz.Prelude.{
  String, str_eq, Bool, true, false, ◌||◌, ◌&&◌, ◌≡◌, refl, Option, none, some, any-append,
  if◌then◌else◌, Bool-cases, inl, inr, arith,
}
use quidz.Errors.{Result, ok, raise, Result-cases}
use quidz.Kind.{EffectKind, same_kind}
use quidz.Event.{CanonicalEvent}
use quidz.Model.{PaymentState, apply_effect}
use quidz.Store.{Db, has_effect, has_delivery}
use quidz.Ledger.{
  ApplyOutcome, applied, noop_duplicate, parked, unwound, load_payment, apply_delivery,
}
use quidz.Ledger.Steps.{base_found, base_state, refused, after, outcome_at, apply_delivery-eq}
use quidz.Ledger.Once.{Applied, Applied-load}

-- The abstract ledger.
pub record Books : Type 0 where
  pub booked : String → EffectKind → String → Bool
  pub balance : String → Option PaymentState

-- The key of an event is this one.
abbrev pub keyed : CanonicalEvent → String → EffectKind → String → Bool
keyed e payment_id kind provider_ref =
    str_eq e.payment_id payment_id && (same_kind e.kind kind && str_eq e.provider_ref provider_ref)

abbrev pub enter : Books → CanonicalEvent → PaymentState → Books
enter b e t = record {
  booked = λ p k r. b.booked p k r || keyed e p k r;
  balance = λ p. if str_eq e.payment_id p then some t else b.balance p;
}

abbrev pub enter_result : Books → CanonicalEvent → Result PaymentState → Result ApplyOutcome × Books
enter_result b e (raise x) = (unwound x, b)
enter_result b e (ok t) = (ok applied, enter b e t)

abbrev pub book_at : Books → CanonicalEvent → Option PaymentState → Result ApplyOutcome × Books
book_at b e none = (ok parked, b)
book_at b e (some s) =
    if b.booked e.payment_id e.kind e.provider_ref
    then (ok noop_duplicate, b)
    else enter_result b e (apply_effect s e)

-- One delivery: a booked effect is a duplicate, and any other is folded once into its payment.
unfoldable pub book : Books → CanonicalEvent → Result ApplyOutcome × Books
book b e = book_at b e (base_found e (b.balance e.payment_id))

-- What the tables say, forgetting the order of the rows and who delivered them.
abbrev pub view : Db → Books
view db = record { booked = λ p k r. has_effect p k r db; balance = load_payment db }

-- The concrete step and the abstract one agree: the same answer, and the same books afterwards.
pub record Simulates (p : Result ApplyOutcome × Db) (q : Result ApplyOutcome × Books) : Type 0 where
  pub same_answer : p.0 ≡ q.0
  pub same_books : view p.1 ≡ q.1

view-after :
    (did : String) (e : CanonicalEvent) (db : Db) (s t : PaymentState)
    → base_state db e ≡ some s
    → apply_effect s e ≡ ok t
    → refused did e db ≡ false
    → view (after did e t db) ≡ enter (view db) e t
view-after did e db s t b f r =
    let a : Applied did e db (after did e t db) = record {
      start = s;
      updated = t;
      started = b;
      folds = f;
      fresh = r;
      written = refl;
    } in
    λ i. record {
      booked = λ p k ref. booked_after p k ref i;
      balance = λ p. Applied-load did e db a p i;
    }
  where
    booked_after :
        (p : String) (k : EffectKind) (ref : String)
        → has_effect p k ref (after did e t db) ≡ (has_effect p k ref db || keyed e p k ref)
    booked_after p k ref = rw any-append (ground arith)

Simulates-at :
    (did : String) (e : CanonicalEvent) (db : Db) (o : Option PaymentState)
    → base_state db e ≡ o
    → has_delivery did db ≡ true
    → Simulates (outcome_at did e db o) (book_at (view db) e o)
Simulates-at did e db none b h = record { same_answer = refl; same_books = refl }
Simulates-at did e db (some s) b h =
    elim (Bool-cases (has_effect e.payment_id e.kind e.provider_ref db)) [
      | inl k ↦ rw k (record { same_answer = refl; same_books = refl })
      | inr k ↦
          rw (k, h)
            (elim (Result-cases (apply_effect s e)) [
              | inl (x, f) ↦ rw f (record { same_answer = refl; same_books = refl })
              | inr (t, f) ↦ rw f (record {
                same_answer = refl;
                same_books = view-after did e db s t b f (rw (k, h) refl);
              })
            ])
    ]

-- The tables implement the abstract ledger: a stored delivery gets the answer that the books give,
-- and leaves tables whose view is the books after it. So the order of the rows, their raw texts
-- and the delivery that brought them never matter.
pub apply_delivery-Simulates :
    (did : String) (e : CanonicalEvent) (db : Db)
    → has_delivery did db ≡ true
    → Simulates (apply_delivery did e db) (book (view db) e)
unfolding book
apply_delivery-Simulates did e db h =
    rw apply_delivery-eq (Simulates-at did e db (base_state db e) refl h)
