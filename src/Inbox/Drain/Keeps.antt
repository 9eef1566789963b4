-- ===== src/Inbox/Drain/Keeps.antt =====
-- What a drain leaves alone (`drain` of src/quidz/inbox.py): the ledger, its currencies, the keys of
-- the inbox and the rows of other deliveries.
use quidz.Prelude.{
  ℕ, ◌≡◌, refl, sym, ap, ◌∙◌, false, inl, inr, List, [], ◌∷◌, Option, String, str_eq, any, arith,
}
use mathlib.Core.Path.{subst}
use quidz.Errors.{Exn, Result, ok, raise}
use quidz.Event.{CanonicalEvent}
use quidz.Python.{Python}
use quidz.Store.{Delivery, Db, continue, ◌>>=◌, find_delivery}
use quidz.Ledger.Once.{apply_delivery_atomic}
use quidz.Store.Transactions.{closed}
use quidz.Ledger.{ApplyOutcome, apply_delivery}
use quidz.Ledger.History.{IsFaithful, apply_delivery-IsFaithful}
use quidz.Dlq.{RetryPolicy, Random}
use quidz.Inbox.Keyed.{Bodies, AllKeyed, Unkeyed-Keyed, update_deliveries-AllKeyed}
use quidz.Inbox.Drain.Touches.{
  IsFaithful-frame, Touches, Touches-other, settle-Touches, failed-Touches,
}
use quidz.Ledger.Priced.{IsPriced, AllPriced, apply_delivery-AllPriced}
use quidz.Inbox.{decode}
use quidz.Inbox.Drain.Decoded.{decode-IsPriced}
use quidz.Inbox.Drain.{DrainReport, Pass, process, settle, due_rows, drain}
use quidz.Inbox.Drain.Steps.{after_row, after_rows, settled, failed, first_pass, drain_total}

-- What a delivery does to a database, besides its own answer.
abbrev Keeps : String → Db → Db → Type 0
Keeps did a b =
    (IsFaithful a → IsFaithful b)
    × ((k : String)
        → str_eq did k ≡ false
        → find_delivery k b.deliveries ≡ find_delivery k a.deliveries)
    × (AllPriced a.payments → AllPriced b.payments)
    × ((q : Bodies) → AllKeyed q a.deliveries → AllKeyed q b.deliveries)

Keeps-trans : (did : String) (a b c : Db) → Keeps did a b → Keeps did b c → Keeps did a c
Keeps-trans did a b c (f, o, p, k) (f', o', p', k') =
    (λ x. f' (f x), λ key ne. o' key ne ∙ o key ne, λ x. p' (p x), λ q x. k' q (k q x))

Touches-Keeps : (did : String) (a b : Db) → Touches did a b → Keeps did a b
Touches-Keeps did a b t = (
  IsFaithful-frame t.ledger,
  Touches-other did t,
  λ x. subst AllPriced t.ledger.same_payments x,
  λ q k. subst (AllKeyed q) (sym t.rows) (
      update_deliveries-AllKeyed q did t.change a.deliveries
        (λ d _. Unkeyed-Keyed q t.change t.unkeyed d) k),
)

apply_delivery-deliveries :
    (did : String) (e : CanonicalEvent) (db : Db)
    → (apply_delivery did e db).1.deliveries ≡ db.deliveries
apply_delivery-deliveries did e db = elim (apply_delivery_atomic did e db refl) [
  | inl (same, _) ↦ ap (λ z. z.deliveries) same
  | inr (_, a) ↦ ap (λ z. z.deliveries) a.written
]

apply-Keeps :
    (did : String) (e : CanonicalEvent) (db : Db)
    → IsPriced e.amount
    → Keeps did db (apply_delivery did e db).1
apply-Keeps did e db priced = (
  apply_delivery-IsFaithful did e db,
  λ k ne. ap (find_delivery k) (apply_delivery-deliveries did e db),
  apply_delivery-AllPriced did e db priced,
  λ q k. subst (AllKeyed q) (sym (apply_delivery-deliveries did e db)) k,
)

module _ (python : Python) (random : Random) where
  applied-Keeps :
      (row : Delivery) (now : ℕ) (policy : RetryPolicy) (a : Db) (q : Result ApplyOutcome × Db)
      → Keeps row.delivery_id a q.1
      → Keeps row.delivery_id a
          (continue q (λ outcome. settle row.delivery_id row.state outcome now policy)).1
  applied-Keeps row now policy a (ok o, db) k = Keeps-trans row.delivery_id a db _ k (
      Touches-Keeps row.delivery_id db _ (settle-Touches row.delivery_id row.state o now policy db))
  applied-Keeps row now policy a (raise e, db) k = k

  decoded-Keeps :
      (row : Delivery) (now : ℕ) (policy : RetryPolicy) (db : Db) (e : Result CanonicalEvent)
      → ((ev : CanonicalEvent) → e ≡ ok ev → IsPriced ev.amount)
      → Keeps row.delivery_id db
          (continue
            (e, db)
            (λ event.
              ◌>>=◌
                (apply_delivery row.delivery_id event)
                (λ outcome. settle row.delivery_id row.state outcome now policy))).1
  decoded-Keeps row now policy db (ok e) priced =
      applied-Keeps row now policy db (apply_delivery row.delivery_id e db)
        (apply-Keeps row.delivery_id e db (priced e refl))
  decoded-Keeps row now policy db (raise x) priced = (λ f. f, λ k ne. refl, λ p. p, λ q k. k)

  process-Keeps :
      (row : Delivery) (now : ℕ) (policy : RetryPolicy) (db : Db)
      → Keeps row.delivery_id db (process python random row now policy db).1
  unfolding process
  process-Keeps row now policy db =
      decoded-Keeps row now policy db (decode python row.provider row.raw)
        (λ ev. decode-IsPriced python row.provider row.raw)

  failed-Keeps :
      (row : Delivery) (now : ℕ) (policy : RetryPolicy) (exc : Exn) (p : Pass python random)
      (db : Db)
      → Keeps row.delivery_id db (failed python random row now policy exc p db).1
  failed-Keeps row now policy exc p db =
      Touches-Keeps row.delivery_id db _ (failed-Touches python random row now policy exc p db)

  settled-Keeps :
      (row : Delivery) (now : ℕ) (policy : RetryPolicy) (p : Pass python random) (db : Db)
      (q : Result DrainReport × Db)
      → Keeps row.delivery_id db q.1
      → Keeps row.delivery_id db (settled python random row now policy p db q).1
  settled-Keeps row now policy p db (ok report, db') k = k
  settled-Keeps row now policy p db (raise exc, db') k = failed-Keeps row now policy exc p db

  after_row-Keeps :
      (row : Delivery) (now : ℕ) (policy : RetryPolicy) (p : Pass python random) (db : Db)
      → Keeps row.delivery_id db (after_row python random row now policy p db).1
  after_row-Keeps row now policy p db =
      settled-Keeps row now policy p db (process python random row now policy db)
        (process-Keeps row now policy db)

  after_rows-IsFaithful :
      (rows : List Delivery) (now : ℕ) (policy : RetryPolicy) (p : Pass python random) (db : Db)
      → IsFaithful db
      → IsFaithful (after_rows python random rows now policy (p, db)).1
  after_rows-IsFaithful [] now policy p db f = f
  after_rows-IsFaithful (row ∷ rows) now policy p db f =
      let (p', db') = after_row python random row now policy p db in
      after_rows-IsFaithful rows now policy p' db' ((after_row-Keeps row now policy p db).0 f)

  after_rows-AllPriced :
      (rows : List Delivery) (now : ℕ) (policy : RetryPolicy) (p : Pass python random) (db : Db)
      → AllPriced db.payments
      → AllPriced (after_rows python random rows now policy (p, db)).1.payments
  after_rows-AllPriced [] now policy p db f = f
  after_rows-AllPriced (row ∷ rows) now policy p db f =
      let (p', db') = after_row python random row now policy p db in
      after_rows-AllPriced rows now policy p' db' ((after_row-Keeps row now policy p db).2 f)

  after_rows-AllKeyed :
      (q : Bodies) (rows : List Delivery) (now : ℕ) (policy : RetryPolicy) (p : Pass python random)
      (db : Db)
      → AllKeyed q db.deliveries
      → AllKeyed q (after_rows python random rows now policy (p, db)).1.deliveries
  after_rows-AllKeyed q [] now policy p db f = f
  after_rows-AllKeyed q (row ∷ rows) now policy p db f =
      let (p', db') = after_row python random row now policy p db in
      after_rows-AllKeyed q rows now policy p' db' ((after_row-Keeps row now policy p db).3 q f)

  after_rows-other :
      (rows : List Delivery) (now : ℕ) (policy : RetryPolicy) (p : Pass python random) (db : Db)
      (k : String)
      → any (λ d. str_eq d.delivery_id k) rows ≡ false
      → find_delivery k (after_rows python random rows now policy (p, db)).1.deliveries
        ≡ find_delivery k db.deliveries
  after_rows-other [] now policy p db k ne = refl
  after_rows-other (row ∷ rows) now policy p db k ne =
      let (p', db') = after_row python random row now policy p db in
      after_rows-other rows now policy p' db' k (ground arith)
      ∙ (after_row-Keeps row now policy p db).1 k (ground arith)

-- On a connection with no open transaction a drain keeps a faithful ledger faithful: whatever its deliveries decode to and however they fail, every
-- stored aggregate stays the replay of the effect rows of its payment.
pub drain-IsFaithful :
    (python : Python) (random : Random) (now : ℕ) (policy : RetryPolicy) (limit : ℕ)
    (rng : Option random.Gen) (db : Db)
    → IsFaithful db
    → IsFaithful (drain python random now policy limit rng (closed db)).1.db
drain-IsFaithful python random now policy limit rng db f =
    rw (drain_total python random now policy limit rng db) (
      after_rows-IsFaithful python random (due_rows now limit db) now policy
        (first_pass python random now policy rng db) db f)

-- On a connection with no open transaction a drain changes the rows of the deliveries that it was
-- due to handle, and no other: a delivery that is not due keeps its row as it was.
pub drain_isolated :
    (python : Python) (random : Random) (now : ℕ) (policy : RetryPolicy) (limit : ℕ)
    (rng : Option random.Gen) (db : Db) (k : String)
    → any (λ d. str_eq d.delivery_id k) (due_rows now limit db) ≡ false
    → find_delivery k (drain python random now policy limit rng (closed db)).1.db.deliveries
      ≡ find_delivery k db.deliveries
drain_isolated python random now policy limit rng db k ne =
    rw (drain_total python random now policy limit rng db) (
      after_rows-other python random (due_rows now limit db) now policy
        (first_pass python random now policy rng db) db k ne)

-- On a connection with no open transaction a drain keeps the currencies of the ledger well-formed:
-- where every stored payment is in a currency of three upper case letters, it still is afterwards,
-- whatever the bodies of the deliveries say.
pub drain-AllPriced :
    (python : Python) (random : Random) (now : ℕ) (policy : RetryPolicy) (limit : ℕ)
    (rng : Option random.Gen) (db : Db)
    → AllPriced db.payments
    → AllPriced (drain python random now policy limit rng (closed db)).1.db.payments
drain-AllPriced python random now policy limit rng db priced =
    rw (drain_total python random now policy limit rng db) (
      after_rows-AllPriced python random (due_rows now limit db) now policy
        (first_pass python random now policy rng db) db priced)

-- On a connection with no open transaction a drain keeps the keys of the inbox, and what its bodies
-- pass.
pub drain-AllKeyed :
    (python : Python) (random : Random) (now : ℕ) (policy : RetryPolicy) (limit : ℕ)
    (rng : Option random.Gen) (db : Db) (q : Bodies)
    → AllKeyed q db.deliveries
    → AllKeyed q (drain python random now policy limit rng (closed db)).1.db.deliveries
drain-AllKeyed python random now policy limit rng db q keyed =
    rw (drain_total python random now policy limit rng db) (
      after_rows-AllKeyed python random q (due_rows now limit db) now policy
        (first_pass python random now policy rng db) db keyed)
