-- ===== src/Inbox/Parked/Listed.antt =====
-- The park is listed whole, or a `created` of one of its bodies overflows.
use quidz.Prelude.{ℕ, String, ◌≡◌, refl, List, [], ◌∷◌, map, ◌⊎◌, inl, inr}
use quidz.Prelude.Among.{Among, first, later}
use quidz.Errors.{Result, ok, raise, overflow_error}
use quidz.Dlq.{is_instance}
use quidz.Event.{CanonicalEvent}
use quidz.Python.{Python}
use quidz.Store.{Delivery, Db}
use quidz.Inbox.{decode}
use quidz.Inbox.Parked.{payment_or_id, parked_rows, body_fault, parked_from, parked_events}
use quidz.Inbox.Parked.Faults.{Readable, Overlarge, decode-Decodes}

-- The payment that a row belongs to, where its body tells, and else the row's own id.
abbrev pub named_by : Delivery → Result CanonicalEvent → String
named_by d (ok event) = event.payment_id
named_by d (raise exc) = d.delivery_id

module _ (python : Python) where
  abbrev pub entry : Delivery → String × ℕ
  entry d = (named_by d (decode python d.provider d.raw), d.received_at)

  -- One of these rows has a Stripe body whose `created` is an integer that no float can hold.
  pub record HasOverlarge (ds : List Delivery) : Type 0 where
    pub row : Delivery
    pub among : Among row ds
    pub overlarge : Overlarge python row.provider row.raw

  -- The rows are all listed, or an OverflowError of one of them escapes.
  abbrev pub Lists : List Delivery → Result (List (String × ℕ)) → Type 0
  Lists ds r = (r ≡ ok (map entry ds)) ⊎ ((r ≡ raise overflow_error) × HasOverlarge ds)

  payment_or_id-eq :
      (d : Delivery) (r : Result CanonicalEvent)
      → Readable r
      → payment_or_id d r ≡ ok (named_by d r)
  payment_or_id-eq d (ok event) h = refl
  payment_or_id-eq d (raise exc) h = rw h.holds refl

  escapes : (d : Delivery) → payment_or_id d (raise overflow_error) ≡ raise overflow_error
  unfolding body_fault is_instance
  escapes d = refl

  parked_from-Lists :
      ((raw : List ℕ) → Readable (python.loads raw))
      → (ds : List Delivery) → Lists ds (parked_from python ds)
  parked_from-Lists loads [] = inl refl
  parked_from-Lists loads (d ∷ ds) = elim (decode-Decodes python loads d.provider d.raw) [
    | inr (e, o) ↦ inr (rw (e, escapes d) refl, record { row = d; among = first; overlarge = o })
    | inl r ↦
        (let named = payment_or_id-eq d (decode python d.provider d.raw) r in
          elim (parked_from-Lists loads ds) [
            | inl rest ↦ inl (rw (named, rest) refl)
            | inr (rest, o) ↦ inr (
              rw (named, rest) refl,
              record { row = o.row; among = later o.among; overlarge = o.overlarge },
            )
          ])
  ]

-- Where `json.loads` raises only its ValueErrors, listing the park gives one entry for every parked
-- delivery, in the order of their ids, with the time it was received and the payment that its body
-- names, and a body that cannot be read stands under the id of its delivery. The one exception that
-- escapes is an OverflowError, and then one of the parked rows is a Stripe delivery whose body
-- parses to a `created` that is an integer too large for a float.
pub parked_events_listed :
    (python : Python) (db : Db)
    → ((raw : List ℕ) → Readable (python.loads raw))
    → (parked_events python db ≡ ok (map (entry python) (parked_rows db)))
      ⊎ ((parked_events python db ≡ raise overflow_error) × HasOverlarge python (parked_rows db))
unfolding parked_events
parked_events_listed python db loads = parked_from-Lists python loads (parked_rows db)
