-- ===== src/Inbox.antt =====
-- The front door of the queue: claims, leases and the park (src/quidz/inbox.py).
pub mod Keyed
pub mod Answers
pub mod Claims
pub mod Drain
pub mod Receive
pub mod Idle
pub mod Parked
use Prim.Native.String.{◌++◌ as append}
use quidz.Prelude.{
  ℕ, ◌+◌, String, str_eq, Bool, true, false, not, ◌&&◌, Option, none, some, List, [], ◌∷◌, map,
  keep, ltb, ◌==◌, if◌then◌else◌,
}
use quidz.Prelude.Order.{sort_by, str_leb}
use quidz.Errors.{Exn, Result, ok, raise, ◌>>=◌, integrity_error, malformed_event, other}
use quidz.Event.{Provider, stripe, adyen, CanonicalEvent}
use quidz.Python.{Value, Fields, obj, get, Python}
use quidz.Events.{from_stripe, from_adyen, require_str}
use quidz.Store.{
  DeliveryState, Delivery, Db, Connection, Exec, write_tx, insert_delivery, find_delivery,
  update_delivery,
}

pub data ClaimReason : Type 0 where
  new duplicate in_progress lease_reclaimed : ClaimReason

pub record ClaimResult : Type 0 where
  pub delivery_id : String
  pub accepted : Bool
  pub reason : ClaimReason

-- `str(provider)`
abbrev pub provider_text : Provider → String
provider_text stripe = "stripe"
provider_text adyen = "adyen"

unfoldable pub delivery_key : Provider → String → String
delivery_key provider identity = append (provider_text provider) (append ":" identity)

abbrev state_tag : DeliveryState → ℕ
state_tag DeliveryState.claimed = 0
state_tag DeliveryState.applied = 1
state_tag DeliveryState.duplicate = 2
state_tag DeliveryState.parked = 3
state_tag DeliveryState.dead_lettered = 4

-- `row["state"] == state`
abbrev pub same_state : DeliveryState → DeliveryState → Bool
same_state a b = state_tag a == state_tag b

-- A lease that has not passed.
abbrev pub live : Option ℕ → ℕ → Bool
live none now = false
live (some lease) now = ltb now lease

-- The row that a first claim inserts.
abbrev pub new_delivery : String → Provider → List ℕ → List (String × String) → ℕ → ℕ → Delivery
new_delivery delivery_id provider raw headers now lease_seconds = record {
  delivery_id = delivery_id;
  provider = provider;
  raw = raw;
  headers = headers;
  received_at = now;
  state = DeliveryState.claimed;
  attempts = 0;
  next_attempt_at = some now;
  lease_expires_at = some (now + lease_seconds);
  parked_until = none;
  reason_code = none;
}

-- The UPDATE of a lease that is taken over.
abbrev pub reclaim : List ℕ → List (String × String) → ℕ → ℕ → Delivery → Delivery
reclaim raw headers now lease_seconds d = record d {
  raw = raw;
  headers = headers;
  lease_expires_at = some (now + lease_seconds);
  next_attempt_at = if d.attempts == 0 then some now else d.next_attempt_at;
}

-- The loser of the unique constraint.
abbrev pub claim_existing :
    List ℕ → List (String × String) → ℕ → ℕ → String → Option Delivery → Exec ClaimResult
claim_existing raw headers now lease_seconds key none db = (raise other, db)
claim_existing raw headers now lease_seconds key (some d) db =
    if not (same_state d.state DeliveryState.claimed)
    then (ok (record { delivery_id = key; accepted = false; reason = duplicate }), db)
    else if live d.lease_expires_at now
    then (ok (record { delivery_id = key; accepted = false; reason = in_progress }), db)
    else (
      ok (record { delivery_id = key; accepted = true; reason = lease_reclaimed }),
      update_delivery key (reclaim raw headers now lease_seconds) db,
    )

-- `except sqlite3.IntegrityError: pass` round the insert.
abbrev pub claim_inserted :
    List ℕ
    → List (String × String)
    → ℕ
    → ℕ
    → String
    → Result (Unit {0}) × Db
    → Result ClaimResult × Db
claim_inserted raw headers now lease_seconds key (ok _, db) =
    (ok (record { delivery_id = key; accepted = true; reason = new }), db)
claim_inserted raw headers now lease_seconds key (raise integrity_error, db) =
    claim_existing raw headers now lease_seconds key (find_delivery key db.deliveries) db
claim_inserted raw headers now lease_seconds key (raise e, db) = (raise e, db)

-- The body of the transaction.
unfoldable pub claim_body :
    Provider → String → List ℕ → List (String × String) → ℕ → ℕ → Exec ClaimResult
claim_body provider identity raw headers now lease_seconds db =
    let key = delivery_key provider identity in
    claim_inserted raw headers now lease_seconds key
      (insert_delivery (new_delivery key provider raw headers now lease_seconds) db)

unfoldable pub claim :
    Provider
    → String
    → List ℕ
    → List (String × String)
    → ℕ
    → ℕ
    → Connection
    → Result ClaimResult × Connection
claim provider identity raw headers now lease_seconds =
    write_tx (claim_body provider identity raw headers now lease_seconds)

unfoldable pub park : String → ℕ → Connection → Result (Unit {0}) × Connection
park delivery_id until = write_tx (λ db. (
  ok tt,
  update_delivery delivery_id
      (λ d. record d {
        state = DeliveryState.parked;
        parked_until = some until;
        lease_expires_at = none;
      })
      db,
))

-- `_payload`, once the body is parsed.
abbrev pub as_mapping : Value → Result Fields
as_mapping (obj fs) = ok fs
as_mapping _ = raise malformed_event

-- `_identity`
unfoldable pub identity_of : Provider → Fields → Result String
identity_of stripe payload = require_str payload "id"
identity_of adyen payload = do
  psp ← require_str payload "pspReference"
  code ← require_str payload "eventCode"
  ok (append psp (append ":" code))

module _ (python : Python) where
  -- `_payload`
  unfoldable pub payload_of : List ℕ → Result Fields
  payload_of raw = do value ← python.loads raw; as_mapping value

  -- `_ADAPTERS[provider]`
  abbrev pub adapter : Provider → Fields → Result CanonicalEvent
  adapter stripe = from_stripe python
  adapter adyen = from_adyen python

  -- `_decode`
  unfoldable pub decode : Provider → List ℕ → Result CanonicalEvent
  decode provider raw = do payload ← payload_of raw; adapter provider payload
