-- ===== src/Sim/Batches.antt =====
-- The batches of the synthetic provider and the ways in which it breaks them (src/quidz/sim.py).
use mathlib.Core.Option.{map as opt_map}
use quidz.Prelude.{
  ℕ, zero, suc, ◌+◌, ◌-◌, ◌/◌, String, str_eq, Bool, true, false, not, ◌&&◌, ◌||◌, Option, none,
  some, List, [], ◌∷◌, ◌++◌, leb, ◌==◌, if◌then◌else◌,
}
use quidz.Prelude.Int.{ℤ, pos}
use quidz.Errors.{Result, ok, raise, ◌>>=◌, value_error}
use quidz.Event.{Provider, stripe, adyen}
use quidz.Events.{ticks_per_second}
use quidz.Python.{Fields, int, str, end, field}
use quidz.Sim.{
  BreakMode, duplicate, replay, reorder, drop, tamper, unmodelled, Delivery, Booked, Rng,
  build_book, reorder_index, tamper_index, drop_index,
}
use quidz.Sim.Reports.{in_force, all_modes}
use quidz.Sim.Deliveries.{Signer, stripe_delivery, adyen_delivery}

-- A byte whose character `str.isdigit` accepts: the superscripts of Latin-1 are digits to it.
abbrev pub digit_byte : ℕ → Bool
digit_byte b = leb b'0' b && leb b b'9' || (b == 178 || (b == 179 || b == 185))

abbrev pub flipped : ℕ → ℕ
flipped b = if b == b'9' then b'8' else b'9'

-- Flip the first digit, if there is one.
abbrev pub flip_first : List ℕ → Option (List ℕ)
flip_first [] = none
flip_first (b ∷ bs) =
    let rest = flip_first bs in
    if digit_byte b then some (flipped b ∷ bs) else opt_map (λ r. b ∷ r) rest

abbrev pub flip_from : ℕ → List ℕ → Option (List ℕ)
flip_from zero bs = flip_first bs
flip_from (suc n) [] = none
flip_from (suc n) (b ∷ bs) = opt_map (λ r. b ∷ r) (flip_from n bs)

-- Flip the last byte, if it is a digit.
abbrev pub flip_last : List ℕ → Option (List ℕ)
flip_last [] = none
flip_last (b ∷ []) = if digit_byte b then some (flipped b ∷ []) else none
flip_last (b ∷ c ∷ bs) = opt_map (λ r. b ∷ r) (flip_last (c ∷ bs))

abbrev or_else {ℓ} : {A : Type ℓ} → Option A → Option A → Option A
or_else none b = b
or_else (some a) b = some a

-- The search from where `find` says, which is -1, the last byte, where it finds nothing.
abbrev pub flip_at : Option ℕ → List ℕ → Option (List ℕ)
flip_at (some position) body = flip_from position body
flip_at none body = or_else (flip_last body) (flip_first body)

abbrev tampered : Delivery → Option (List ℕ) → Result Delivery
tampered d none = raise value_error
tampered d (some body) = ok (record d { raw = body })

abbrev swap_first : List Delivery → List Delivery
swap_first (a ∷ b ∷ rest) = b ∷ a ∷ rest
swap_first batch = batch

abbrev drop_first : List Delivery → List Delivery
drop_first [] = []
drop_first (_ ∷ rest) = rest

abbrev pub if_listed : Bool → Delivery → List Delivery
if_listed true d = d ∷ []
if_listed false d = []

-- The modes of a scenario; an unknown one raises.
abbrev pub modes_of : String → List BreakMode → Result (List BreakMode)
modes_of scenario breaks =
    if str_eq scenario "happy"
    then ok breaks
    else if str_eq scenario "adversarial"
    then ok (breaks ++ all_modes)
    else raise value_error

module _ (signer : Signer) (secrets : List (List ℕ)) (hmac_key : List ℕ) (started_at : ℕ) where
  open signer use {crypto, find_amount}
  open crypto use {lower}

  -- `_tamper`
  unfoldable pub tamper_delivery : Delivery → Result Delivery
  tamper_delivery d = tampered d (flip_at (find_amount d.raw) d.raw)

  abbrev created_of : Booked → ℕ
  created_of booked = booked.created_at / ticks_per_second

  abbrev intent_fields : Booked → Fields
  intent_fields booked = field "id" (str booked.payment_id) (
      field "object" (str "payment_intent") (
        field "amount" (int (pos booked.authorized)) (
          field "amount_capturable" (int (pos booked.authorized))
            (field "currency" (str (lower booked.currency)) end))))

  abbrev charge_fields : Booked → Fields
  charge_fields booked = field "id" (str booked.capture_ref) (
      field "object" (str "charge") (
        field "payment_intent" (str booked.payment_id) (
          field "amount" (int (pos booked.authorized)) (
            field "amount_captured" (int (pos booked.captured))
              (field "currency" (str (lower booked.currency)) end)))))

  abbrev refund_fields : Booked → Fields
  refund_fields booked = field "id" (str booked.refund_ref) (
      field "object" (str "refund") (
        field "payment_intent" (str booked.payment_id) (
          field "amount" (int (pos booked.refunded)) (
            field "currency" (str (lower booked.currency))
              (field "status" (str "succeeded") end)))))

  abbrev sign : String → ℕ → Fields → String → Option ℕ → Delivery
  sign = stripe_delivery signer secrets hmac_key started_at

  abbrev notify : Booked → String → String → ℕ → ℕ → String → Delivery
  notify = adyen_delivery signer secrets hmac_key started_at

  abbrev captures : Booked → Bool
  captures booked = not (booked.captured == 0) && not booked.capture_webhook_pending

  abbrev batch_of : Provider → Booked → List Delivery
  batch_of stripe booked =
      sign "payment_intent.amount_capturable_updated" (created_of booked) (intent_fields booked) ""
          none
        ∷ if_listed (captures booked)
            (sign "charge.captured" (created_of booked + 120) (charge_fields booked) "" none)
      ++ if_listed (not (booked.refunded == 0))
          (sign "charge.refund.updated" (created_of booked + 7200) (refund_fields booked) "" none)
  batch_of adyen booked =
      notify booked booked.auth_ref "AUTHORISATION" booked.authorized (created_of booked) ""
        ∷ if_listed booked.capture_failed (
            notify booked booked.capture_ref "CAPTURE_FAILED" booked.authorized
              (created_of booked + 300) booked.auth_ref)
      ++ if_listed (captures booked) (
          notify booked booked.capture_ref "CAPTURE" booked.captured (created_of booked + 120)
            booked.auth_ref)
      ++ if_listed (not (booked.refunded == 0)) (
          notify booked booked.refund_ref "REFUND" booked.refunded (created_of booked + 7200)
            booked.capture_ref)

  -- `_payment_deliveries`
  unfoldable pub payment_deliveries : Booked → List Delivery
  payment_deliveries booked = batch_of booked.provider booked

  -- `_duplicate_deliveries` of the payment at `_REORDER_INDEX`.
  unfoldable pub duplicate_deliveries : Booked → List Delivery
  duplicate_deliveries booked =
      sign "charge.captured" (created_of booked + 120) (charge_fields booked) "" none
      ∷ sign "charge.captured" (created_of booked + 121) (charge_fields booked) "dup" none
      ∷ []

  -- `_unmodelled_event`
  unfoldable pub unmodelled_event : Booked → Delivery
  unmodelled_event booked =
      sign "payment_intent.requires_action" (created_of booked + 60)
        (field "id" (str booked.payment_id) (
          field "object" (str "payment_intent") (
            field "amount" (int (pos booked.authorized))
              (field "currency" (str (lower booked.currency)) end))))
        "" none

  -- `_replayed_authorization`
  unfoldable pub replayed_authorization : Booked → Delivery
  replayed_authorization booked =
      sign "payment_intent.amount_capturable_updated" (created_of booked) (intent_fields booked) ""
        (some (started_at / ticks_per_second - 3600))

  abbrev pub reordered : List BreakMode → ℕ → List Delivery → List Delivery
  reordered breaks index batch =
      if in_force reorder breaks && index == reorder_index then swap_first batch else batch

  abbrev pub dropped : List BreakMode → ℕ → List Delivery → List Delivery
  dropped breaks index batch =
      if in_force drop breaks && index == drop_index then drop_first batch else batch

  -- `batch[1] = _tamper(batch[1])`, of a batch of two or more.
  abbrev pub tamper_second : List Delivery → Result (List Delivery)
  tamper_second (a ∷ b ∷ rest) = do b' ← tamper_delivery b; ok (a ∷ b' ∷ rest)
  tamper_second batch = ok batch

  abbrev pub broken : List BreakMode → ℕ → List Delivery → Result (List Delivery)
  broken breaks index batch =
      let sent = dropped breaks index (reordered breaks index batch) in
      if in_force tamper breaks && index == tamper_index then tamper_second sent else ok sent

  abbrev pub batches : List BreakMode → ℕ → List Booked → Result (List Delivery)
  batches breaks index [] = ok []
  batches breaks index (booked ∷ book) = do
    batch ← broken breaks index (payment_deliveries booked)
    rest ← batches breaks (index + 1) book
    ok (batch ++ rest)

  -- What the last three modes add, all about the payment at `_REORDER_INDEX`, the first.
  abbrev pub extras : List BreakMode → List Booked → List Delivery
  extras breaks [] = []
  extras breaks (booked ∷ _) =
      (if in_force duplicate breaks then duplicate_deliveries booked else [])
      ++ if_listed (in_force replay breaks) (replayed_authorization booked)
      ++ if_listed (in_force unmodelled breaks) (unmodelled_event booked)

  -- `_build_deliveries`
  unfoldable pub build_deliveries : List BreakMode → List Booked → Result (List Delivery)
  build_deliveries breaks book = do sent ← batches breaks 0 book; ok (sent ++ extras breaks book)

  -- `deliveries`
  unfoldable pub deliveries : Rng → ℤ → String → List BreakMode → Result (List Delivery)
  deliveries rng seed scenario breaks = do
    modes ← modes_of scenario breaks
    build_deliveries modes (build_book rng seed started_at)
