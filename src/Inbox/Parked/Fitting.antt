-- ===== src/Inbox/Parked/Fitting.antt =====
-- Bodies whose `created` a float can hold, with which the park is always listed.
use quidz.Prelude.{arith, ℕ, Bool, true, false, not, ◌≡◌, sym, ◌∙◌, ap, List, map, inl, inr}
use mathlib.Core.Bool.{false≢true}
use quidz.Errors.{Result, ok, raise}
use quidz.Event.{Provider, stripe, adyen}
use quidz.Python.{Value, Fields, Python, int, get}
use quidz.Store.{DeliveryState, Db}
use quidz.Events.{float_overflows}
use quidz.Inbox.{same_state, payload_of}
use quidz.Inbox.Keyed.{Bodies, AllKeyed, keep-AllKeyed, sort_by-AllKeyed, AllKeyed-among}
use quidz.Inbox.Parked.{by_id, parked_rows, parked_events}
use quidz.Inbox.Parked.Faults.{Readable, Overlarge}
use quidz.Inbox.Parked.Listed.{entry, parked_events_listed}

abbrev in_range : Value → Bool
in_range (int n) = not (float_overflows n)
in_range _ = true

abbrev payload_fits : Result Fields → Bool
payload_fits (ok payload) = in_range (get payload "created")
payload_fits (raise exc) = true

-- Where the `created` of a Stripe body is an integer, a float can hold it.
abbrev pub fits : Python → Bodies
fits python stripe raw = payload_fits (payload_of python raw)
fits python adyen raw = true

Overlarge-unfit :
    (python : Python) (provider : Provider) (raw : List ℕ)
    → Overlarge python provider raw
    → fits python provider raw ≡ false
Overlarge-unfit python adyen raw o = absurd (ground (arith, o.of_stripe))
Overlarge-unfit python stripe raw o =
    ap payload_fits o.parsed ∙ ap in_range o.created.given ∙ ap not o.created.overflows

pub parked_events-fits :
    (python : Python) (db : Db)
    → ((raw : List ℕ) → Readable (python.loads raw))
    → AllKeyed (fits python) db.deliveries
    → parked_events python db ≡ ok (map (entry python) (parked_rows db))
unfolding parked_rows
parked_events-fits python db loads keyed = elim (parked_events_listed python db loads) [
  | inl listed ↦ listed
  | inr (_, o) ↦
      (let parked = sort_by-AllKeyed (fits python) by_id _ (
          keep-AllKeyed (fits python) (λ d. same_state d.state DeliveryState.parked) db.deliveries
            keyed) in
        let row = AllKeyed-among (fits python) _ parked o.among in
        let unfit = Overlarge-unfit python o.row.provider o.row.raw o.overlarge in
        absurd (false≢true (sym unfit ∙ row.body)))
]
