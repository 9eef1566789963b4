-- ===== src/Sim.antt =====
-- The synthetic provider (src/quidz/sim.py): its plan and its book. The generator, the digests, the
-- texts of dates and `json.dumps` are the standard library's, and parameters of the model.
pub mod Reports
pub mod Fees
pub mod Deliveries
pub mod Batches
pub mod Signed
use Prim.Native.Char.{Char}
use Prim.Native.String.{◌++◌ as append}
use quidz.Prelude.{
  ℕ, zero, suc, ◌+◌, ◌-◌, ◌*◌, ◌/◌, ◌%◌, ◌≤◌, ◌<◌, String, Bool, true, false, List, [], ◌∷◌, ◌==◌,
  if◌then◌else◌,
}
use quidz.Prelude.Int.{ℤ}
use quidz.Event.{Provider, stripe, adyen}
use quidz.Events.{ticks_per_second}

pub data BreakMode : Type 0 where
  duplicate replay reorder drop amount_mismatch tamper unmodelled : BreakMode

pub record Delivery : Type 0 where
  pub provider : Provider
  pub identity : String
  pub raw : List ℕ
  pub headers : List (String × String)

-- `_Plan`, its age in hundredths of a day.
pub record Plan : Type 0 where
  pub provider : Provider
  pub currency : String
  pub capture_pct : ℕ
  pub refund_pct : ℕ
  pub capture_failed : Bool
  pub age_days : ℕ
  pub capture_webhook_pending : Bool

abbrev planned : Provider → String → ℕ → ℕ → Bool → ℕ → Bool → Plan
planned provider currency capture_pct refund_pct capture_failed age_days pending = record {
  provider = provider;
  currency = currency;
  capture_pct = capture_pct;
  refund_pct = refund_pct;
  capture_failed = capture_failed;
  age_days = age_days;
  capture_webhook_pending = pending;
}

-- `_PLAN`
abbrev pub plans : List Plan
plans =
    planned stripe "EUR" 100 0 false 400 false
    ∷ planned stripe "USD" 66 33 false 400 false
    ∷ planned stripe "JPY" 100 0 false 400 false
    ∷ planned adyen "EUR" 100 0 false 400 false
    ∷ planned adyen "EUR" 100 0 true 2 true
    ∷ planned adyen "GBP" 100 100 false 400 false
    ∷ []

abbrev pub reorder_index : ℕ
reorder_index = 0

abbrev pub skew_index : ℕ
skew_index = 1

abbrev pub tamper_index : ℕ
tamper_index = 2

abbrev pub drop_index : ℕ
drop_index = 3

abbrev pub duplicate_index : ℕ
duplicate_index = 5

-- `_Booked`; times are in ticks.
pub record Booked : Type 0 where
  pub payment_id : String
  pub provider : Provider
  pub currency : String
  pub authorized : ℕ
  pub captured : ℕ
  pub refunded : ℕ
  pub capture_failed : Bool
  pub capture_webhook_pending : Bool
  pub created_at : ℕ
  pub auth_ref : String
  pub capture_ref : String
  pub refund_ref : String

-- `random.Random`, of which the package relies on the range of `randrange`.
pub record Rng : Type 1 where
  pub Gen : Type 0
  pub seeded : ℤ → Gen
  pub randrange : ℕ → ℕ → Gen → ℕ × Gen
  pub randrange-range :
      (low high : ℕ) (g : Gen)
      → low < high
      → (low ≤ (randrange low high g).0) × ((randrange low high g).0 < high)
  pub choice : String → Gen → Char × Gen
  -- `str.upper`
  pub upper : String → String

abbrev pub letters : String
letters = "ABCDEFGHJKLMNPQRSTVWXYZ"

abbrev pub alnum : String
alnum = "ABCDEFGHJKLMNPQRSTVWXYZabcdefghjklmnpqrstvwxyz23456789"

module _ (rng : Rng) where
  open rng use {Gen, seeded, randrange, choice, upper}

  -- The rest of a token, from this position on.
  abbrev pub token_from : ℕ → ℕ → Gen → String × Gen
  token_from zero position g = ("", g)
  token_from (suc n) position g =
      let (c, g') = choice (if position % 4 == 0 then letters else alnum) g in
      let (rest, g'') = token_from n (position + 1) g' in (String.◌∷◌ c rest, g'')

  -- `_token`
  unfoldable pub token : Gen → ℕ → String × Gen
  token g size = token_from size 0 g

  -- `_psp_reference`
  unfoldable pub psp_reference : Gen → String × Gen
  psp_reference g = let (t, g') = token g 16 in (upper t, g')

  -- The ids that a payment of this provider draws: its own, and those of its three operations.
  abbrev pub draw_ids : Provider → ℕ → Gen → (String × String × String × String) × Gen
  draw_ids stripe index g =
      let (t₁, g₁) = token g 16 in
      let (t₂, g₂) = token g₁ 16 in
      let (t₃, g₃) = token g₂ 16 in
      ((append "pi_" t₁, append "pi_" t₁, append "ch_" t₂, append "re_" t₃), g₃)
  draw_ids adyen index g =
      let (t, g₁) = token g 8 in
      let (auth, g₂) = psp_reference g₁ in
      let (capture, g₃) = psp_reference g₂ in
      let (refund, g₄) = psp_reference g₃ in
      let separator = if index == duplicate_index then ":" else "-" in
      ((append "order" (append separator (upper t)), auth, capture, refund), g₄)

  -- One payment of the book.
  unfoldable pub book_payment : ℕ → ℕ → Plan → Gen → Booked × Gen
  book_payment started_at index plan g =
      let (units, g₁) = randrange 60 400 g in
      let authorized = units * 50 in
      let captured = authorized * plan.capture_pct / 100 in
      let ((payment_id, auth_ref, capture_ref, refund_ref), g₂) = draw_ids plan.provider index g₁ in
      (
        record {
          payment_id = payment_id;
          provider = plan.provider;
          currency = plan.currency;
          authorized = authorized;
          captured = captured;
          refunded = captured * plan.refund_pct / 100;
          capture_failed = plan.capture_failed;
          capture_webhook_pending = plan.capture_webhook_pending;
          created_at = started_at - plan.age_days * 864 * ticks_per_second;
          auth_ref = auth_ref;
          capture_ref = capture_ref;
          refund_ref = refund_ref;
        },
        g₂,
      )

  abbrev pub book_plans : ℕ → ℕ → List Plan → Gen → List Booked
  book_plans started_at index [] g = []
  book_plans started_at index (plan ∷ rest) g =
      let (booked, g') = book_payment started_at index plan g in
      booked ∷ book_plans started_at (index + 1) rest g'

  -- `_build_book`
  unfoldable pub build_book : ℤ → ℕ → List Booked
  build_book seed started_at = book_plans started_at 0 plans (seeded seed)
