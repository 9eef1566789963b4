-- ===== src/Tests/Queue.antt =====
-- The park, the loop round the drain, and a poisoned delivery (src/quidz/inbox.py).
use quidz.Prelude.{ℕ, ◌*◌, ◌≡◌, refl, some, List, [], ◌∷◌, map, arith, ◌⊎◌}
use quidz.Prelude.Int.{pos}
use quidz.Errors.{ok, raise, json_decode_error, overflow_error}
use quidz.Clock.{FakeClock, fake}
use quidz.Dlq.{is_instance}
use quidz.Store.{DeliveryState, Delivery, Db, empty, find_delivery}
use quidz.Store.Transactions.{closed}
use quidz.Inbox.{payload_of, decode}
use quidz.Inbox.Parked.{body_fault, parked_rows, parked_events}
use quidz.Inbox.Parked.Faults.{Readable}
use quidz.Inbox.Parked.Listed.{entry, HasOverlarge, parked_events_listed}
use quidz.Inbox.Drain.{no_report, Pass, process, drain_row}
use quidz.Inbox.Drain.Poison.{Failing, Failing-dead_lettered}
use quidz.Inbox.Idle.{drain_until_idle}
use quidz.Inbox.Idle.Passes.{Ended, drain_until_idle-Ended}
use quidz.Samples.{python, random, policy, delivery, inbox}

pub loads-Readable : (raw : List ℕ) → Readable (python.loads raw)
unfolding body_fault is_instance
loads-Readable [] = record { holds = refl }
loads-Readable (b ∷ bs) = record { holds = refl }

abbrev start : FakeClock
start = record { t = 2; slept = [] }

drain_until_idle-Ended_example :
    Ended python random fake inbox no_report
      (3 * 100)
      (drain_until_idle python random fake policy 3 start (closed inbox))
drain_until_idle-Ended_example = drain_until_idle-Ended python random fake policy 3 start inbox

-- One delivery that waits for another, and one whose body is no JSON.
abbrev parked_inbox : Db
parked_inbox = record empty {
  deliveries =
      record (delivery "adyen:x" (123 ∷ [])) { state = DeliveryState.parked }
      ∷ record (delivery "adyen:bad" []) { state = DeliveryState.parked }
      ∷ [];
}

parked_events_listed_example :
    (parked_events python parked_inbox ≡ ok (map (entry python) (parked_rows parked_inbox)))
    ⊎ ((parked_events python parked_inbox ≡ raise overflow_error)
        × HasOverlarge python (parked_rows parked_inbox))
parked_events_listed_example = parked_events_listed python parked_inbox loads-Readable

abbrev poisoned : Delivery
poisoned = record (delivery "adyen:bad" []) { attempts = 4 }

abbrev poisoned_inbox : Db
poisoned_inbox = record empty { deliveries = poisoned ∷ [] }

abbrev first : Pass python random
first = record { rng = 0; used = pos 0; report = no_report }

abbrev last : Db
last = (drain_row python random poisoned 50 policy first (closed poisoned_inbox)).1.db

fails :
    process python random poisoned 50 policy poisoned_inbox
    ≡ (raise json_decode_error, poisoned_inbox)
unfolding process decode payload_of
fails = refl

fifth_attempt : Failing python random policy "adyen:bad" 1 poisoned_inbox last
fifth_attempt =
    Failing.again poisoned 50 first json_decode_error poisoned_inbox refl fails refl
      (Failing.never last)

Failing-dead_lettered_example :
    (d : Delivery) × (find_delivery "adyen:bad" last.deliveries ≡ some d)
    × (d.state ≡ DeliveryState.dead_lettered)
Failing-dead_lettered_example =
    Failing-dead_lettered python random policy "adyen:bad" 0 poisoned_inbox last poisoned
      fifth_attempt refl (omega arith)
