-- ===== src/Sim/Reports.antt =====
-- What the synthetic provider reports of its book: the payment list and the settlement file
-- (`remote_payments` and `settlement_report` of src/quidz/sim.py).
use quidz.Prelude.{
  ℕ, ◌+◌, ◌*◌, ◌/◌, String, str_eq, Bool, ◌&&◌, ◌||◌, List, [], ◌∷◌, ◌++◌, any, ◌==◌, if◌then◌else◌,
}
use quidz.Prelude.Int.{ℤ, pos, ◌-ℤ◌}
use quidz.Events.{ticks_per_second}
use quidz.Model.{PaymentState, opened, derive_status, status_text}
use quidz.Reconcile.{RemotePayment, SettlementRow}
use quidz.Sim.{
  BreakMode, duplicate, replay, reorder, drop, amount_mismatch, tamper, unmodelled, Booked,
  skew_index, duplicate_index,
}

abbrev mode_tag : BreakMode → ℕ
mode_tag duplicate = 0
mode_tag replay = 1
mode_tag reorder = 2
mode_tag drop = 3
mode_tag amount_mismatch = 4
mode_tag tamper = 5
mode_tag unmodelled = 6

-- `mode in self._breaks`
abbrev pub in_force : BreakMode → List BreakMode → Bool
in_force mode = any (λ m. mode_tag m == mode_tag mode)

abbrev pub all_modes : List BreakMode
all_modes = duplicate ∷ replay ∷ reorder ∷ drop ∷ amount_mismatch ∷ tamper ∷ unmodelled ∷ []

-- `_FEE_BPS` and `_FEE_FIXED_MINOR`
abbrev pub charged_bps : ℕ
charged_bps = 290

abbrev pub fixed_fee_minor : ℕ
fixed_fee_minor = 25

-- What the provider says was captured.
abbrev pub reported_capture : List BreakMode → ℕ → Booked → ℕ
reported_capture breaks index booked =
    if in_force amount_mismatch breaks && index == skew_index
    then booked.captured + 1000
    else booked.captured

abbrev failed_minor : ℕ → Booked → ℤ
failed_minor captured booked =
    if captured == 0
    then (if booked.capture_failed then pos booked.authorized else pos 0)
    else pos 0

abbrev pub remote_state : ℕ → Booked → PaymentState
remote_state captured booked = record (opened booked.payment_id booked.currency) {
  authorized_minor = pos booked.authorized;
  captured_minor = pos captured;
  capture_failed_minor = failed_minor captured booked;
  refunded_minor = pos booked.refunded;
}

abbrev pub remote_payment : ℕ → Booked → RemotePayment
remote_payment captured booked = record {
  payment_id = booked.payment_id;
  provider_ref = if captured == 0 then booked.auth_ref else booked.capture_ref;
  currency = booked.currency;
  authorized_minor = pos booked.authorized;
  captured_minor = pos captured;
  refunded_minor = pos booked.refunded;
  status = status_text (derive_status (remote_state captured booked));
  created_at = pos booked.created_at;
}

abbrev remote_from : List BreakMode → ℕ → List Booked → List RemotePayment
remote_from breaks index [] = []
remote_from breaks index (booked ∷ book) =
    remote_payment (reported_capture breaks index booked) booked
    ∷ remote_from breaks (index + 1) book

-- `remote_payments`, once there is a book.
unfoldable pub remote_payments : List BreakMode → List Booked → List RemotePayment
remote_payments breaks book = remote_from breaks 0 book

abbrev pub fee_of : ℕ → ℕ
fee_of captured = captured * charged_bps / 10000 + fixed_fee_minor

module _ (iso_day : ℕ → String) where
  abbrev pub settled_row : ℕ → Booked → SettlementRow
  settled_row started_at booked = record {
    psp_reference = booked.capture_ref;
    gross_minor = pos booked.captured;
    fee_minor = pos (fee_of booked.captured);
    net_minor = pos booked.captured -ℤ pos (fee_of booked.captured);
    currency = booked.currency;
    payout_date = iso_day (started_at + 86400 * ticks_per_second);
    journal_type = "Settled";
  }

  -- The two `continue`s of the loop.
  abbrev pub unsettled : Bool → ℕ → Booked → Bool
  unsettled adversarial index booked =
      booked.captured == 0
      || booked.capture_webhook_pending
      || (adversarial && index == duplicate_index)

  abbrev pub settled_rows : Bool → ℕ → ℕ → List Booked → List SettlementRow
  settled_rows adversarial started_at index [] = []
  settled_rows adversarial started_at index (booked ∷ book) =
      let rest = settled_rows adversarial started_at (index + 1) book in
      if unsettled adversarial index booked then rest else settled_row started_at booked ∷ rest

  abbrev pub payout_row : ℕ → SettlementRow
  payout_row started_at = record {
    psp_reference = "PAYOUT_BATCH_0001";
    gross_minor = pos 0;
    fee_minor = pos 0;
    net_minor = pos 0;
    currency = "EUR";
    payout_date = iso_day (started_at + 86400 * ticks_per_second);
    journal_type = "MerchantPayout";
  }

  -- `settlement_report`, once there is a book: the day of a moment is `_iso(...)[:10]`.
  unfoldable pub settlement_report : String → ℕ → List Booked → List SettlementRow
  settlement_report scenario started_at book =
      let adversarial = str_eq scenario "adversarial" in
      settled_rows adversarial started_at 0 book
      ++ (if adversarial then payout_row started_at ∷ [] else [])
