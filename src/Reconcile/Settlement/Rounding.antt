-- ===== src/Reconcile/Settlement/Rounding.antt =====
-- The rounding of basis points.
use native.Mathlib.Nat.{mod-add-div, mod-lt, mul-suc}
use quidz.Prelude.{ℕ, ◌+◌, ◌*◌, ◌/◌, ◌≤◌, ◌<◌, arith}
use quidz.Reconcile.Settlement.{round_half_even}

-- The rounded quotient by a positive divisor is the nearest integer: it is off by half a unit at
-- most.
pub round_half_even-nearest :
    (n d : ℕ)
    → 0 < d
    → (2 * n ≤ 2 * (d * round_half_even n d) + d) × (2 * (d * round_half_even n d) ≤ 2 * n + d)
unfolding round_half_even
round_half_even-nearest n d h = ground (arith, mod-add-div n d, mod-lt n h, mul-suc d (n / d))
