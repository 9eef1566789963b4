-- ===== src/Kind.antt =====
-- `EffectKind` and the tables that model.py keys by it (src/quidz/model.py).
use quidz.Prelude.{ℕ, Bool, true, false, ◌==◌, Option, none, some}

pub data EffectKind : Type 0 where
  authorize authorize_fail adjust_auth capture capture_fail : EffectKind
  void expire refund refund_fail refund_reverse : EffectKind

-- The position of a member in the enumeration.
abbrev pub tag : EffectKind → ℕ
tag authorize = 0
tag authorize_fail = 1
tag adjust_auth = 2
tag capture = 3
tag capture_fail = 4
tag void = 5
tag expire = 6
tag refund = 7
tag refund_fail = 8
tag refund_reverse = 9

-- `kind is EffectKind.X`
abbrev pub same_kind : EffectKind → EffectKind → Bool
same_kind a b = tag a == tag b

abbrev pub kind_rank : EffectKind → ℕ
kind_rank authorize_fail = 0
kind_rank authorize = 10
kind_rank adjust_auth = 10
kind_rank capture_fail = 20
kind_rank void = 30
kind_rank expire = 30
kind_rank capture = 40
kind_rank refund = 60
kind_rank refund_fail = 60
kind_rank refund_reverse = 60

abbrev pub prerequisite_rank : EffectKind → Option ℕ
prerequisite_rank authorize = none
prerequisite_rank authorize_fail = none
prerequisite_rank adjust_auth = some 10
prerequisite_rank capture = some 10
prerequisite_rank capture_fail = some 10
prerequisite_rank void = some 10
prerequisite_rank expire = some 10
prerequisite_rank refund = some 40
prerequisite_rank refund_fail = some 60
prerequisite_rank refund_reverse = some 60

-- `kind in _REGRESSIVE`
abbrev pub regressive : EffectKind → Bool
regressive refund_fail = true
regressive refund_reverse = true
regressive _ = false

-- `kind in _NEEDS_AMOUNT`
abbrev pub needs_amount : EffectKind → Bool
needs_amount authorize_fail = false
needs_amount void = false
needs_amount expire = false
needs_amount _ = true

-- `kind in _MOVES_MONEY`
abbrev pub moves_money : EffectKind → Bool
moves_money capture = true
moves_money refund = true
moves_money _ = false
