-- ===== src/Event.antt =====
-- Amounts and the canonical event (src/quidz/money.py, src/quidz/events.py).
use quidz.Prelude.{String, Option}
use quidz.Prelude.Int.{ℤ}
use quidz.Kind.{EffectKind}

-- An amount in minor units of a currency.
pub record Money : Type 0 where
  pub minor : ℤ
  pub currency : String

pub data Provider : Type 0 where
  stripe adyen : Provider

pub record CanonicalEvent : Type 0 where
  pub provider : Provider
  pub identity : String
  pub payment_id : String
  pub kind : EffectKind
  pub provider_ref : String
  pub amount : Option Money
  pub occurred_at : ℤ
  pub sequence : ℤ
  pub raw_amount_value : Option String
  pub raw_currency : Option String
