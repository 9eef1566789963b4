-- ===== src/Cli/Replay.antt =====
-- The replay of a delivery log (`_replay` of src/quidz/cli.py), its printing aside. A dict of texts
-- is an association list with each of its keys once.
pub mod Ended
use quidz.Prelude.{
  ℕ, String, str_eq, Bool, true, false, Option, none, some, List, [], ◌∷◌, map, length, ◌==◌, ◌&&◌,
  if◌then◌else◌,
}
use quidz.Errors.{Exn, Result, ok, raise}
use quidz.Python.{Python}
use quidz.Clock.{FakeClock, fake, advance}
use quidz.Dlq.{RetryPolicy, Random}
use quidz.Model.{status_text}
use quidz.Store.{Db, Connection}
use quidz.Inbox.{ClaimResult, claim}
use quidz.Inbox.Idle.{Watch, drain_until_idle}
use quidz.App.{lease_seconds}
use quidz.Cli.{Command, done, cli_error, crash, terminal}
use quidz.Cli.Receipt.{receipt_interval}
use quidz.Cli.Listing.{ledger_lines}
use quidz.Cli.Log.{Codec, Entry, Read, state_of, read_log}

-- `RetryPolicy()`, in ticks, and the bound on the passes of `drain_until_idle`.
abbrev pub retry_policy : RetryPolicy
retry_policy = record {
  base_seconds = 1000000;
  max_seconds = 300000000;
  max_attempts = 5;
  budget_per_minute = 100;
  seed = none;
}

abbrev pub max_passes : ℕ
max_passes = 8

abbrev pub start_clock : FakeClock
start_clock = record { t = 0; slept = [] }

-- The terminal states, as the texts of a log.
abbrev pub states : Db → List (String × String)
states db = map (λ p. (p.0, status_text p.1)) (terminal db)

abbrev pub is_status : Option String → String → Bool
is_status none status = false
is_status (some s) status = str_eq s status

abbrev pub all_in : List (String × String) → List (String × String) → Bool
all_in [] b = true
all_in ((key, status) ∷ rest) b = is_status (state_of b key) status && all_in rest b

-- `expected == terminal`, of dicts.
abbrev pub same_states : List (String × String) → List (String × String) → Bool
same_states a b = length a == length b && all_in a b

-- The exit code: `assert_terminal` is the flag `--assert-terminal`.
abbrev pub verdict : Bool → Option (List (String × String)) → List (String × String) → Command ℕ
verdict false expected final = done 0
verdict true none final = cli_error
verdict true (some expected) final = if same_states expected final then done 0 else done 1

-- The ledger is listed before anything is printed or compared.
abbrev pub once_listed : Result (List String) → Command ℕ → Command ℕ
once_listed (ok lines) code = code
once_listed (raise exc) code = crash exc

abbrev pub claim_next :
    (Connection → Result FakeClock × Connection)
    → Result ClaimResult × Connection
    → Result FakeClock × Connection
claim_next rest (ok _, conn) = rest conn
claim_next rest (raise exc, conn) = (raise exc, conn)

-- The clock moves on after every claim.
abbrev pub claim_entries : List Entry → FakeClock → Connection → Result FakeClock × Connection
claim_entries [] clock conn = (ok clock, conn)
claim_entries (e ∷ es) clock conn =
    claim_next (claim_entries es (advance receipt_interval clock))
      (claim e.provider e.identity e.raw e.headers clock.t lease_seconds conn)

module _ (python : Python) (random : Random) where
  abbrev pub drain_claimed :
      Result FakeClock × Connection → Result (Watch python random fake) × Connection
  drain_claimed (ok clock, conn) =
      drain_until_idle python random fake retry_policy max_passes clock conn
  drain_claimed (raise exc, conn) = (raise exc, conn)

  abbrev pub replay_ended :
      Bool
      → Option (List (String × String))
      → Result (Watch python random fake) × Connection
      → Command ℕ × Connection
  replay_ended assert_terminal expected (ok w, conn) =
      (once_listed (ledger_lines conn.db) (verdict assert_terminal expected (states conn.db)), conn)
  replay_ended assert_terminal expected (raise exc, conn) = (crash exc, conn)

  -- `_replay`, once the log is read.
  unfoldable pub replay_log : Bool → Read → Connection → Command ℕ × Connection
  replay_log assert_terminal r conn =
      replay_ended assert_terminal r.expected
        (drain_claimed (claim_entries r.entries start_clock conn))

  abbrev pub replay_read : Bool → Command Read → Connection → Command ℕ × Connection
  replay_read assert_terminal (done r) conn = replay_log assert_terminal r conn
  replay_read assert_terminal cli_error conn = (cli_error, conn)
  replay_read assert_terminal (crash exc) conn = (crash exc, conn)

  unfoldable pub replay : Codec → Bool → List String → Connection → Command ℕ × Connection
  replay codec assert_terminal lines = replay_read assert_terminal (read_log codec lines)
