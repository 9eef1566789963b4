-- ===== src/Clock.antt =====
-- The clock (src/quidz/clock.py), in ticks. `SystemClock` is any clock: what it reads and what a
-- sleep does to it is the machine's.
use quidz.Prelude.{ℕ, ◌+◌, List, [], ◌∷◌, ◌++◌}

-- The protocol. Reading a clock may move it.
pub record Clock : Type 1 where
  pub Time : Type 0
  pub now : Time → ℕ × Time
  pub sleep : ℕ → Time → Time

pub record FakeClock : Type 0 where
  pub t : ℕ
  pub slept : List ℕ

-- `FakeClock.sleep`
abbrev pub sleep : ℕ → FakeClock → FakeClock
sleep seconds c = record { t = c.t + seconds; slept = c.slept ++ seconds ∷ [] }

-- `FakeClock.advance`
abbrev pub advance : ℕ → FakeClock → FakeClock
advance seconds c = record c { t = c.t + seconds }

-- The test double as a clock.
abbrev pub fake : Clock
fake = record { Time = FakeClock; now = λ c. (c.t, c); sleep = sleep }
