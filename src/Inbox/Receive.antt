-- ===== src/Inbox/Receive.antt =====
-- The entry points of the two webhooks (`receive_stripe` and `receive_adyen` of
-- src/quidz/inbox.py): count, verify, and claim.
pub mod Unsigned
pub mod Inserted
pub mod Sound
use quidz.Prelude.{ℕ, String, Bool, true, false, Option, none, some, List, [], ◌∷◌, if◌then◌else◌}
use quidz.Prelude.Int.{ℤ, pos}
use quidz.Errors.{Exn, Result, ok, raise, signature_error, stale_timestamp}
use quidz.Event.{stripe, adyen}
use quidz.Python.{Value, Fields, get, has_key, Python}
use quidz.Events.{mapping}
use quidz.Store.{Connection, Exec}
use quidz.Metrics.{bump}
use quidz.Dlq.{is_instance}
use quidz.Signatures.{Crypto, verify_stripe, verify_adyen}
use quidz.Inbox.{ClaimReason, duplicate, ClaimResult, identity_of, payload_of, claim}

-- Steps on a connection, each statement outside a transaction committed by itself.
abbrev pub Session : Type 0 → Type 0
Session A = Connection → Result A × Connection

module _ {A B : Type 0} where
  abbrev pub go_on : Result A × Connection → (A → Session B) → Result B × Connection
  go_on (ok a, conn) next = next a conn
  go_on (raise e, conn) next = (raise e, conn)

  infixl 5 ◌>>=◌ ◌>>◌
  abbrev ◌>>=◌ : Session A → (A → Session B) → Session B
  ◌>>=◌ first next conn = go_on (first conn) next

  abbrev ◌>>◌ : Session A → Session B → Session B
  ◌>>◌ first next conn = go_on (first conn) (λ _. next)

module _ {A : Type 0} where
  -- A statement by itself.
  abbrev pub exec : Exec A → Session A
  exec body conn = let (r, db) = body conn.db in (r, record conn { db = db })

  abbrev pub pure : Result A → Session A
  pure r conn = (r, conn)

module _ {A : Type 0} where
  -- The two `except` clauses of `receive_stripe`.
  abbrev pub counted_stripe : Result A → Session A
  counted_stripe (ok a) = pure (ok a)
  counted_stripe (raise stale_timestamp) = do
    exec (bump "replay_rejected" (pos 1))
    pure (raise stale_timestamp)
  counted_stripe (raise e) =
      if is_instance e signature_error
      then (do exec (bump "signature_rejected" (pos 1)); pure (raise e))
      else pure (raise e)

  -- The `except` clause of `receive_adyen`.
  abbrev pub counted_adyen : Result A → Session A
  counted_adyen (ok a) = pure (ok a)
  counted_adyen (raise e) =
      if is_instance e signature_error
      then (do exec (bump "signature_rejected" (pos 1)); pure (raise e))
      else pure (raise e)

abbrev pub is_duplicate : ClaimReason → Bool
is_duplicate duplicate = true
is_duplicate _ = false

-- `if result.reason == "duplicate"`
abbrev pub count_duplicate : ClaimResult → Session ClaimResult
count_duplicate result =
    if is_duplicate result.reason
    then (do exec (bump "deduped" (pos 1)); pure (ok result))
    else pure (ok result)

module _ (python : Python) (crypto : Crypto) where
  unfoldable pub receive_stripe :
      List ℕ → List (String × String) → List (List ℕ) → ℕ → ℕ → ℤ → Session ClaimResult
  receive_stripe raw headers secrets now lease_seconds tolerance_seconds = do
    exec (bump "events_received" (pos 1))
    counted_stripe (verify_stripe crypto raw headers secrets now tolerance_seconds)
    payload ← pure (payload_of python raw)
    identity ← pure (identity_of stripe payload)
    result ← claim stripe identity raw headers now lease_seconds
    count_duplicate result

  abbrev hmac_in : Option Fields → String
  hmac_in none = ""
  hmac_in (some additional) =
      if has_key additional "hmacSignature"
      then crypto.to_str (get additional "hmacSignature")
      else ""

  -- The signature that an item carries.
  abbrev pub signature_of : Fields → String
  signature_of item = hmac_in (mapping (get item "additionalData"))

  unfoldable pub receive_adyen : List ℕ → String → ℕ → ℕ → Session ClaimResult
  receive_adyen raw hmac_key_hex now lease_seconds = do
    exec (bump "events_received" (pos 1))
    item ← pure (payload_of python raw)
    counted_adyen (verify_adyen crypto item (signature_of item) hmac_key_hex)
    identity ← pure (identity_of adyen item)
    result ← claim adyen identity raw [] now lease_seconds
    count_duplicate result
