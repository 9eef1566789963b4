-- ===== src/Model/Tests.antt =====
-- One payment through its life, and the theorems about src/quidz/model.py at it.
use mathlib.Core.List.Perm
use quidz.Prelude.{ℕ, ◌≤◌, ◌≡◌, refl, true, false, some, none, List, [], ◌∷◌, ◌++◌, arith}
use quidz.Prelude.Int.{pos, max_ℤ, ◌+ℤ◌, ◌-ℤ◌}
use quidz.Errors.{ok}
use quidz.Kind.{EffectKind, authorize, capture, refund, refund_fail, regressive}
use quidz.Event.{stripe, CanonicalEvent}
use quidz.Model.{
  PaymentState, opened, derive_status, status_text, state_rank, amount_minor, check_order,
  check_amounts, check_single, fold, next_rank, apply_effect,
}
use quidz.Model.Bounds.{IsValid, apply_effect-IsValid}
use quidz.Model.Ranks.{IsRanked, apply_effect-IsRanked, apply_effect_ratchet}
use quidz.Model.Totals.{MovedByAll, replay, replay-Moved}
use quidz.Model.Order.{SameAmounts, replay-Perm}
use quidz.Model.Guards.{returned, apply_effect-capture}

abbrev moved : EffectKind → ℕ → ℕ → CanonicalEvent
moved kind minor sequence = record {
  provider = stripe;
  identity = "evt";
  payment_id = "pay";
  kind = kind;
  provider_ref = "ref";
  amount = some (record { minor = pos minor; currency = "EUR" });
  occurred_at = pos sequence;
  sequence = pos sequence;
  raw_amount_value = none;
  raw_currency = none;
}

abbrev authorized : PaymentState
authorized = record (opened "pay" "EUR") {
  authorized_minor = pos 1000;
  rank = 10;
  last_sequence = pos 1;
}

abbrev captured : PaymentState
captured = record authorized { captured_minor = pos 600; rank = 40; last_sequence = pos 2 }

abbrev refunded : PaymentState
refunded = record captured { refunded_minor = pos 600; rank = 70; last_sequence = pos 3 }

abbrev returned_half : PaymentState
returned_half = record refunded {
  refunded_minor = pos 300;
  refund_failed_minor = pos 300;
  rank = 60;
  last_sequence = pos 4;
}

life :
    replay (opened "pay" "EUR") (
      moved authorize 1000 1
      ∷ moved capture 600 2
      ∷ moved refund 600 3
      ∷ moved refund_fail 300 4
      ∷ [])
    ≡ ok returned_half
unfolding replay apply_effect derive_status status_text state_rank amount_minor check_order
    check_amounts check_single fold next_rank max_ℤ ◌+ℤ◌ ◌-ℤ◌
life = refl

capture_applies : apply_effect authorized (moved capture 600 2) ≡ ok captured
unfolding apply_effect derive_status status_text state_rank amount_minor check_order check_amounts
    check_single fold next_rank max_ℤ ◌+ℤ◌
capture_applies = refl

refund_fail_applies : apply_effect refunded (moved refund_fail 300 4) ≡ ok returned_half
unfolding apply_effect derive_status status_text state_rank amount_minor check_order check_amounts
    check_single fold next_rank max_ℤ ◌+ℤ◌ ◌-ℤ◌
refund_fail_applies = refl

authorized-IsRanked : IsRanked authorized
unfolding derive_status
authorized-IsRanked = ground arith

apply_effect-IsValid_example : IsValid captured
apply_effect-IsValid_example =
    apply_effect-IsValid authorized (moved capture 600 2) (omega arith) capture_applies

apply_effect-IsRanked_example : IsRanked captured
apply_effect-IsRanked_example =
    apply_effect-IsRanked authorized (moved capture 600 2) authorized-IsRanked capture_applies

apply_effect_ratchet_example :
    (regressive refund_fail ≡ false → 70 ≤ 60) × (regressive refund_fail ≡ true → 60 ≤ 60)
apply_effect_ratchet_example =
    apply_effect_ratchet refunded (moved refund_fail 300 4) refund_fail_applies

replay-Moved_example : MovedByAll (opened "pay" "EUR") returned_half (
    moved authorize 1000 1
    ∷ moved capture 600 2
    ∷ moved refund 600 3
    ∷ moved refund_fail 300 4
    ∷ [])
replay-Moved_example =
    replay-Moved (opened "pay" "EUR")
      (moved authorize 1000 1
        ∷ moved capture 600 2
        ∷ moved refund 600 3
        ∷ moved refund_fail 300 4
        ∷ [])
      life

apply_effect-capture_example : returned (apply_effect captured (moved capture 400 5)) ≡ false
apply_effect-capture_example = apply_effect-capture captured (moved capture 400 5) refl

abbrev twice_refunded : PaymentState
twice_refunded = record captured { refunded_minor = pos 500; rank = 60; last_sequence = pos 4 }

abbrev opening : List CanonicalEvent
opening = moved authorize 1000 1 ∷ moved capture 600 2 ∷ []

in_order :
    replay (opened "pay" "EUR") (opening ++ moved refund 300 3 ∷ moved refund 200 4 ∷ [])
    ≡ ok twice_refunded
unfolding replay apply_effect derive_status status_text state_rank amount_minor check_order
    check_amounts check_single fold next_rank max_ℤ ◌+ℤ◌ ◌-ℤ◌
in_order = refl

out_of_order :
    replay (opened "pay" "EUR") (opening ++ moved refund 200 4 ∷ moved refund 300 3 ∷ [])
    ≡ ok twice_refunded
unfolding replay apply_effect derive_status status_text state_rank amount_minor check_order
    check_amounts check_single fold next_rank max_ℤ ◌+ℤ◌ ◌-ℤ◌
out_of_order = refl

replay-Perm_example : SameAmounts twice_refunded twice_refunded
replay-Perm_example =
    replay-Perm (opened "pay" "EUR") (opening ++ moved refund 300 3 ∷ moved refund 200 4 ∷ [])
      (opening ++ moved refund 200 4 ∷ moved refund 300 3 ∷ [])
      (Perm.cons (moved authorize 1000 1)
        (Perm.cons (moved capture 600 2) (Perm.swap (moved refund 200 4) (moved refund 300 3) [])))
      in_order out_of_order
