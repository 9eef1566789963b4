-- ===== src/Ledger/Once.antt =====
-- Atomicity and idempotency of one delivery.
use quidz.Prelude.{
  any-append, List, [], ◌∷◌, String, str_eq, eq_iff, ◌≡◌, ◌≢◌, refl, sym, ap, true, false, Option,
  none, some, if◌then◌else◌, Bool-cases, Option-cases, inl, inr, ◌⊎◌, arith,
}
use mathlib.Core.Path.{subst}
use quidz.Errors.{Exn, Result, ok, Result-cases}
use quidz.Kind.{tag}
use quidz.Event.{Money, CanonicalEvent}
use quidz.Model.{PaymentState, opened, apply_effect}
use quidz.Store.{Db, has_effect, find_payment}
use quidz.Ledger.{ApplyOutcome, applied, noop_duplicate, unwound, load_payment, apply_delivery}
use quidz.Model.Keys.{apply_effect_key}
use quidz.Ledger.Tables.{find_payment_key, stored, stored_self, find_payment-upsert}
use quidz.Ledger.Steps.{
  base_found, base_state, refused, after, outcome_at, folded, apply_delivery-eq,
}

unwound-ne-applied : (x : Exn) → unwound x ≢ ok applied
unwound-ne-applied x h = ground arith

-- A delivery that was applied: the aggregate that the fold gave, and the database afterwards.
pub record Applied (did : String) (e : CanonicalEvent) (db db' : Db) : Type 0 where
  pub start : PaymentState
  pub updated : PaymentState
  pub started : base_state db e ≡ some start
  pub folds : apply_effect start e ≡ ok updated
  pub fresh : refused did e db ≡ false
  pub written : db' ≡ after did e updated db

folded-cases :
    (did : String) (e : CanonicalEvent) (db : Db) (s : PaymentState) (r : Result ApplyOutcome)
    (db' : Db)
    → base_state db e ≡ some s
    → refused did e db ≡ false
    → folded did e db (apply_effect s e) ≡ (r, db')
    → ((db' ≡ db) × (r ≢ ok applied)) ⊎ ((r ≡ ok applied) × Applied did e db db')
folded-cases did e db s r db' b f h = elim (Result-cases (apply_effect s e)) [
  | inl (x, k) ↦ (let h' = rw k at h in inl (cc, λ q. unwound-ne-applied x (cc)))
  | inr (t, k) ↦
      (let h' = rw k at h in
        inr
          (cc, record { start = s; updated = t; started = b; folds = k; fresh = f; written = cc }))
]

outcome-cases :
    (did : String) (e : CanonicalEvent) (db : Db) (o : Option PaymentState)
    (r : Result ApplyOutcome) (db' : Db)
    → base_state db e ≡ o
    → outcome_at did e db o ≡ (r, db')
    → ((db' ≡ db) × (r ≢ ok applied)) ⊎ ((r ≡ ok applied) × Applied did e db db')
outcome-cases did e db none r db' b h = inl (cc, λ q. cc)
outcome-cases did e db (some s) r db' b h = elim (Bool-cases (refused did e db)) [
  | inl f ↦ (let h' = rw f at h in inl (cc, λ q. cc))
  | inr f ↦ folded-cases did e db s r db' b f (rw f at h)
]

-- A delivery that is not applied, because it was parked, was a duplicate or raised, leaves every
-- table as it was; one that is applied has passed the constraints, and adds one effect row and
-- one update of the aggregate.
pub apply_delivery_atomic :
    (did : String) (e : CanonicalEvent) (db : Db) {r : Result ApplyOutcome} {db' : Db}
    → apply_delivery did e db ≡ (r, db')
    → ((db' ≡ db) × (r ≢ ok applied)) ⊎ ((r ≡ ok applied) × Applied did e db db')
apply_delivery_atomic did e db {r} {db'} h =
    outcome-cases did e db (base_state db e) r db' refl (rw apply_delivery-eq at h)

pub base_found_inv :
    (e : CanonicalEvent) (o : Option PaymentState) {s : PaymentState}
    → base_found e o ≡ some s
    → (o ≡ some s)
      ⊎ ((o ≡ none) × ((m : Money) × (e.amount ≡ some m) × (s ≡ opened e.payment_id m.currency)))
base_found_inv e (some s) h = inl h
base_found_inv e none h = elim (Option-cases e.amount) [
  | inl k ↦ (let h' = rw k at h in cc)
  | inr (m, k) ↦ (let h' = rw k at h in inr (refl, (m, k, cc)))
]

start_stored :
    (db : Db) (e : CanonicalEvent) (s t : PaymentState)
    → base_state db e ≡ some s
    → t.payment_id ≡ s.payment_id
    → t.currency ≡ s.currency
    → (t.payment_id ≡ e.payment_id) × (stored t (load_payment db e.payment_id) ≡ t)
unfolding load_payment
start_stored db e s t h p c = elim (base_found_inv e (load_payment db e.payment_id) h) [
  | inl k ↦ (cc (p, find_payment_key e.payment_id db.payments k), rw k (stored_self t s p c))
  | inr (k, (m, _, q)) ↦ (cc (p, ap (λ z. z.payment_id) q), rw k refl)
]

pick :
    (f : String → PaymentState) {a b : String} (t : PaymentState) (pid : String)
    (o : Option PaymentState)
    → a ≡ b
    → f b ≡ t
    → (if str_eq a pid then some (f a) else o) ≡ (if str_eq b pid then some t else o)
pick f t pid o p q = rw (p, q) refl

-- An applied delivery stores the folded aggregate under its payment id, and no other changes.
pub Applied-load :
    (did : String) (e : CanonicalEvent) (db : Db) {db' : Db}
    → (a : Applied did e db db') → (pid : String)
    → load_payment db' pid
      ≡ (if str_eq e.payment_id pid then some a.updated else load_payment db pid)
unfolding load_payment
Applied-load did e db a pid =
    let (kp, kc) = apply_effect_key a.start e a.folds in
    let (id, same) = start_stored db e a.start a.updated a.started kp kc in
    rw a.written (
      rw find_payment-upsert (
        pick (λ i. stored a.updated (find_payment i db.payments)) a.updated pid
          (find_payment pid db.payments) id same))

-- The effect of an event has been recorded, and its payment is stored.
record Recorded (e : CanonicalEvent) (db : Db) : Type 0 where
  there : has_effect e.payment_id e.kind e.provider_ref db ≡ true
  state : PaymentState
  loaded : load_payment db e.payment_id ≡ some state

Applied-Recorded :
    (did : String) (e : CanonicalEvent) (db : Db) {db' : Db}
    → Applied did e db db'
    → (e' : CanonicalEvent) → e'.payment_id ≡ e.payment_id
    → tag e'.kind ≡ tag e.kind
    → e'.provider_ref ≡ e.provider_ref
    → Recorded e' db'
Applied-Recorded did e db a e' p k r = record {
  there = rw a.written (
      rw any-append
        (ground (arith, eq_iff e.payment_id e'.payment_id, eq_iff e.provider_ref e'.provider_ref)));
  state = a.updated;
  loaded =
      rw (Applied-load did e db a e'.payment_id)
        (rw (p, (eq_iff e.payment_id e.payment_id).1 refl) refl);
}

-- What another delivery applies takes nothing of it back.
Applied-keeps :
    (did : String) (e : CanonicalEvent) (db : Db) {db' : Db}
    → Applied did e db db'
    → (e' : CanonicalEvent) → Recorded e' db
    → Recorded e' db'
Applied-keeps did e db {db'} a e' r =
    let there : has_effect e'.payment_id e'.kind e'.provider_ref db' ≡ true =
      rw a.written (rw any-append (rw (r.there) refl)) in
    elim (Bool-cases (str_eq e.payment_id e'.payment_id)) [
      | inl h ↦ record {
        there = there;
        state = a.updated;
        loaded = rw (Applied-load did e db a e'.payment_id) (rw h refl);
      }
      | inr h ↦ record {
        there = there;
        state = r.state;
        loaded = rw (Applied-load did e db a e'.payment_id) (rw h (r.loaded));
      }
    ]

-- A sequence of deliveries, one transaction after the other, whatever each is answered.
abbrev pub after_all : List (String × CanonicalEvent) → Db → Db
after_all [] db = db
after_all ((did, e) ∷ more) db = after_all more (apply_delivery did e db).1

after_all-Recorded :
    (more : List (String × CanonicalEvent)) (e' : CanonicalEvent) (db : Db)
    → Recorded e' db
    → Recorded e' (after_all more db)
after_all-Recorded [] e' db r = r
after_all-Recorded ((did, e) ∷ more) e' db r =
    after_all-Recorded more e' (apply_delivery did e db).1
      (elim (apply_delivery_atomic did e db refl) [
        | inl (same, _) ↦ subst (Recorded e') (sym same) r
        | inr (_, a) ↦ Applied-keeps did e db a e' r
      ])

Recorded-noop :
    (did : String) (e : CanonicalEvent) (db : Db)
    → Recorded e db
    → apply_delivery did e db ≡ (ok noop_duplicate, db)
Recorded-noop did e db r = rw apply_delivery-eq (rw (r.loaded, r.there) refl)

-- An effect that has been applied is a no op for ever after: after any further sequence of
-- deliveries, applied, parked, refused or duplicates, a delivery that carries the same payment id,
-- kind and provider reference, whatever else it says, is answered as a duplicate and changes
-- nothing.
pub apply_delivery_again :
    (did : String) (e : CanonicalEvent) (db : Db) {db' : Db} (more : List (String × CanonicalEvent))
    (did' : String) (e' : CanonicalEvent)
    → apply_delivery did e db ≡ (ok applied, db')
    → e'.payment_id ≡ e.payment_id
    → e'.kind ≡ e.kind
    → e'.provider_ref ≡ e.provider_ref
    → apply_delivery did' e' (after_all more db') ≡ (ok noop_duplicate, after_all more db')
apply_delivery_again did e db {db'} more did' e' h p k r = elim (apply_delivery_atomic did e db h) [
  | inl (_, bad) ↦ absurd (bad refl)
  | inr (_, a) ↦
      Recorded-noop did' e' (after_all more db')
        (after_all-Recorded more e' db' (Applied-Recorded did e db a e' p (ap tag k) r))
]
