-- ===== src/Ledger/History.antt =====
-- The stored aggregates are the replay of the effect rows.
use mathlib.Core.List.{map-append, append-nil}
use mathlib.Core.Option.{map as opt_map}
use mathlib.Core.Path.{subst}
use quidz.Prelude.{
  String, str_eq, eq_iff, ◌≡◌, refl, ap, sym, ◌∙◌, Bool, Bool-cases, false, Option, none, some,
  List, ◌++◌, ◌∷◌, [], map, keep, keep-append, if◌then◌else◌, inl, inr,
}
use quidz.Prelude.Int.{ℤ}
use quidz.Errors.{Result, ok, raise, ◌>>=◌, >>=-eq-ok, Result-cases}
use quidz.Event.{stripe, Money, CanonicalEvent}
use quidz.Model.{PaymentState, opened, apply_effect, apply_kind}
use quidz.Model.Totals.{replay, MovedByAll, replay-Moved}
use quidz.Model.Bounds.{IsValid, apply_effect-IsValid, opened-IsValid}
use quidz.Model.Keys.{apply_effect_key}
use quidz.Store.{Effect, Db, empty}
use quidz.Ledger.{effect_row, load_payment, apply_delivery}
use quidz.Ledger.Steps.{base_found, after}
use quidz.Ledger.Once.{Applied, Applied-load, base_found_inv, apply_delivery_atomic}

abbrev money_of : Option ℤ → Option String → Option Money
money_of (some minor) (some currency) = some (record { minor = minor; currency = currency })
money_of _ _ = none

-- The event that an effect row records, as far as the fold reads it.
abbrev pub event_of : Effect → CanonicalEvent
event_of r = record {
  provider = stripe;
  identity = "";
  payment_id = r.payment_id;
  kind = r.kind;
  provider_ref = r.provider_ref;
  amount = money_of r.amount_minor r.currency;
  occurred_at = r.occurred_at;
  sequence = r.sequence;
  raw_amount_value = r.raw_amount_value;
  raw_currency = r.raw_currency;
}

abbrev pub on_payment : String → Effect → Bool
on_payment pid r = str_eq r.payment_id pid

-- The events recorded for one payment, oldest first.
abbrev pub history : String → Db → List CanonicalEvent
history pid db = map event_of (keep (on_payment pid) db.effects)

-- The aggregate that is stored under an id is the replay of the rows recorded for it.
abbrev pub ReplaysTo : Option PaymentState → String → Db → Type 0
ReplaysTo none pid db = history pid db ≡ []
ReplaysTo (some s) pid db = replay (opened pid s.currency) (history pid db) ≡ ok s

pub record IsFaithful (db : Db) : Type 0 where
  pub at : (pid : String) → ReplaysTo (load_payment db pid) pid db

bind_ok : (r : Result PaymentState) → (r >>= λ t. ok t) ≡ r
bind_ok (ok t) = refl
bind_ok (raise x) = refl

replay-append :
    (s : PaymentState) (es : List CanonicalEvent) (e : CanonicalEvent) {t : PaymentState}
    → replay s es ≡ ok t
    → replay s (es ++ e ∷ []) ≡ apply_effect t e
unfolding replay
replay-append s [] e h = bind_ok (apply_effect s e) ∙ ap (λ z. apply_effect z e) (cc)
replay-append s (x ∷ es) e h = elim (Result-cases (apply_effect s x)) [
  | inl (_, k) ↦ (let h' = rw k at h in cc)
  | inr (u, k) ↦ rw k (replay-append u es e (rw k at h))
]

-- A row keeps all that the fold reads of its event.
money_of_event :
    (a : Option Money) → money_of (opt_map (λ m. m.minor) a) (opt_map (λ m. m.currency) a) ≡ a
money_of_event none = refl
money_of_event (some m) = refl

apply_row :
    (s : PaymentState) (did : String) (e : CanonicalEvent)
    → apply_effect s (event_of (effect_row did e)) ≡ apply_effect s e
unfolding apply_effect apply_kind
apply_row s did e = rw money_of_event refl

history-after :
    (pid did : String) (e : CanonicalEvent) (t : PaymentState) (db : Db)
    → history pid (after did e t db) ≡ (
        if str_eq e.payment_id pid
        then history pid db ++ event_of (effect_row did e) ∷ []
        else history pid db)
history-after pid did e t db = elim (Bool-cases (str_eq e.payment_id pid)) [
  | inl h ↦ rw (keep-append, h, map-append) refl
  | inr h ↦ rw (keep-append, h, append-nil) refl
]

-- The aggregate that the effect is folded into is the replay of its payment's rows.
base_replays :
    (db : Db) (e : CanonicalEvent) (o : Option PaymentState) {s : PaymentState}
    → ReplaysTo o e.payment_id db
    → base_found e o ≡ some s
    → replay (opened e.payment_id s.currency) (history e.payment_id db) ≡ ok s
unfolding replay
base_replays db e (some s) f h =
    subst (λ z. replay (opened e.payment_id z.currency) (history e.payment_id db) ≡ ok z) (cc) f
base_replays db e none f h = elim (base_found_inv e none h) [
  | inl bad ↦ cc
  | inr (_, (m, _, q)) ↦
      rw f (subst (λ z. replay (opened e.payment_id z.currency) [] ≡ ok z) (sym q) refl)
]

folded_payment :
    (did : String) (e : CanonicalEvent) (db : Db) {db' : Db}
    → IsFaithful db
    → (a : Applied did e db db') → ReplaysTo (some a.updated) e.payment_id db'
folded_payment did e db f a =
    let old = base_replays db e (load_payment db e.payment_id) (f.at e.payment_id) a.started in
    let es = history e.payment_id db ++ event_of (effect_row did e) ∷ [] in
    rw (a.written, history-after, (eq_iff e.payment_id e.payment_id).1 refl)
      (subst (λ c. replay (opened e.payment_id c) es ≡ ok a.updated)
        (sym (apply_effect_key a.start e a.folds).1)
        (replay-append (opened e.payment_id a.start.currency) (history e.payment_id db)
            (event_of (effect_row did e)) old
          ∙ (apply_row a.start did e ∙ a.folds)))

unchanged :
    (pid : String) (o : Option PaymentState) (db db' : Db)
    → history pid db' ≡ history pid db
    → ReplaysTo o pid db
    → ReplaysTo o pid db'
unchanged pid none db db' h f = h ∙ f
unchanged pid (some s) db db' h f = rw h f

other_payment :
    (did : String) (e : CanonicalEvent) (db : Db) {db' : Db}
    → IsFaithful db
    → Applied did e db db'
    → (pid : String) → str_eq e.payment_id pid ≡ false
    → ReplaysTo (load_payment db pid) pid db'
other_payment did e db {db'} f a pid h =
    unchanged pid (load_payment db pid) db db' (rw (a.written, history-after, h) refl) (f.at pid)

Applied-replays :
    (did : String) (e : CanonicalEvent) (db : Db) {db' : Db}
    → IsFaithful db
    → Applied did e db db'
    → (pid : String) → ReplaysTo (load_payment db' pid) pid db'
Applied-replays did e db {db'} f a pid =
    rw (Applied-load did e db a pid) (elim (Bool-cases (str_eq e.payment_id pid)) [
      | inl h ↦ rw h (
          subst (λ i. ReplaysTo (some a.updated) i db') ((eq_iff e.payment_id pid).0 h)
            (folded_payment did e db f a))
      | inr h ↦ rw h (other_payment did e db f a pid h)
    ])

-- Whatever a delivery does, applied, duplicate, parked or raising, the stored aggregates stay the
-- replays of the effect rows: no effect is lost, and none is counted twice.
pub apply_delivery-IsFaithful :
    (did : String) (e : CanonicalEvent) (db : Db)
    → IsFaithful db
    → IsFaithful (apply_delivery did e db).1
apply_delivery-IsFaithful did e db f = elim (apply_delivery_atomic did e db refl) [
  | inl (same, _) ↦ rw same f
  | inr (_, a) ↦ record { at = Applied-replays did e db f a }
]

IsValid-replay :
    (s : PaymentState) (es : List CanonicalEvent) {t : PaymentState}
    → IsValid s
    → replay s es ≡ ok t
    → IsValid t
unfolding replay
IsValid-replay s [] v h = subst IsValid (cc) v
IsValid-replay s (e ∷ es) v h =
    let (m, first, rest) = >>=-eq-ok (apply_effect s e) _ h in
    IsValid-replay m es (apply_effect-IsValid s e v first) rest

-- In a faithful ledger every stored aggregate is valid, and its amounts are the totals of the
-- effect rows recorded for its payment.
pub stored_totals :
    (db : Db) (pid : String) {s : PaymentState}
    → IsFaithful db
    → load_payment db pid ≡ some s
    → IsValid s × MovedByAll (opened pid s.currency) s (history pid db)
stored_totals db pid {s} f h =
    let r = subst (λ o. ReplaysTo o pid db) h (f.at pid) in
    (
      IsValid-replay (opened pid s.currency) (history pid db) (opened-IsValid pid s.currency) r,
      replay-Moved (opened pid s.currency) (history pid db) r,
    )

pub empty-IsFaithful : IsFaithful empty
unfolding load_payment
empty-IsFaithful = record { at = λ pid. refl }
