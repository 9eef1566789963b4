-- ===== src/Cli/Replay/Ended.antt =====
-- A replay comes to an end without an exception, on a ledger that its effects account for.
use mathlib.Core.Path.{subst}
use quidz.Prelude.{
  ℕ, String, str_eq, eq_iff, ◌≡◌, refl, sym, ap, ◌∙◌, Bool, true, Option, none, some, List, [], ◌∷◌,
  Bool-cases, inl, inr, arith,
}
use quidz.Errors.{Result, ok, raise}
use quidz.Python.{Python}
use quidz.Clock.{FakeClock, fake, advance}
use quidz.Dlq.{Random}
use quidz.Store.{Db, Connection}
use quidz.Store.Transactions.{closed}
use quidz.Ledger.History.{IsFaithful}
use quidz.Inbox.Answers.{claim-Answers}
use quidz.Inbox.Drain.Touches.{IsFaithful-frame}
use quidz.Inbox.Idle.Passes.{drain_until_idle-Ended}
use quidz.App.{lease_seconds}
use quidz.Cli.{Command, done}
use quidz.Cli.Receipt.{receipt_interval}
use quidz.Ledger.Priced.{AllPriced}
use quidz.Cli.Listing.{ledger_lines}
use quidz.Cli.Demo.Listed.{ledger_lines-total}
use quidz.Cli.Log.{Entry, Read, state_of}
use quidz.Cli.Replay.{
  retry_policy, max_passes, start_clock, states, is_status, all_in, once_listed, verdict,
  claim_next, claim_entries, drain_claimed, replay_ended, replay_log,
}

-- The claims of a log all answer, and leave the ledger sound.
claim_entries-closed :
    (es : List Entry) (clock : FakeClock) (db : Db)
    → IsFaithful db
    → (clock' : FakeClock) × (after : Db) × (claim_entries es clock (closed db)
        ≡ (ok clock', closed after))
      × IsFaithful after
      × (after.payments ≡ db.payments)
claim_entries-closed [] clock db f = (clock, db, refl, f, refl)
claim_entries-closed (e ∷ es) clock db f =
    let (r, middle, ran, same) =
      claim-Answers e.provider e.identity e.raw e.headers clock.t lease_seconds db in
    let (clock', after, rest, g, payments) =
      claim_entries-closed es (advance receipt_interval clock) middle (IsFaithful-frame same f) in
    (
      clock',
      after,
      ap (claim_next (claim_entries es (advance receipt_interval clock))) ran ∙ rest,
      g,
      payments ∙ sym same.same_payments,
    )

-- What a replay comes to: it lists the ledger that it has built, and then compares.
record Replayed (python : Python) (random : Random) (assert_terminal : Bool) (r : Read) (db : Db)
    : Type 0 where
  pub final : Db
  pub ran : replay_log python random assert_terminal r (closed db) ≡ (
    once_listed (ledger_lines final) (verdict assert_terminal r.expected (states final)),
    closed final,
  )
  pub faithful : IsFaithful final
  pub priced : AllPriced db.payments → AllPriced final.payments

replayed :
    (python : Python) (random : Random) (assert_terminal : Bool) (r : Read) (db : Db)
    → IsFaithful db
    → Replayed python random assert_terminal r db
unfolding replay_log
replayed python random assert_terminal r db f =
    let (clock, claimed, ran, g, payments) = claim_entries-closed r.entries start_clock db f in
    let e = drain_until_idle-Ended python random fake retry_policy max_passes clock claimed in
    record {
      final = e.left;
      ran =
          ap
            (λ p.
              replay_ended python random assert_terminal r.expected (drain_claimed python random p))
            ran
          ∙ ap (replay_ended python random assert_terminal r.expected) e.ends;
      faithful = e.kept g;
      priced = λ a. e.priced (subst AllPriced (sym payments) a);
    }

-- A replay of a log that was read, into a database whose payments are the replay of their effects
-- and are in currencies of three upper case letters, ends without an exception and outside a
-- transaction. Its exit code is the comparison of the states that the log records with those of the
-- ledger it has built. That ledger prints, every payment of it is in such a currency, and every
-- payment of it is again the replay of its effects.
pub replay_log-Ended :
    (python : Python) (random : Random) (assert_terminal : Bool) (r : Read) (db : Db)
    → IsFaithful db
    → AllPriced db.payments
    → (final : Db) × (replay_log python random assert_terminal r (closed db)
        ≡ (verdict assert_terminal r.expected (states final), closed final))
      × IsFaithful final
      × AllPriced final.payments
      × ((lines : List String) × (ledger_lines final ≡ ok lines))
replay_log-Ended python random assert_terminal r db f a =
    let e = replayed python random assert_terminal r db f in
    let (lines, prints, _) = ledger_lines-total e.final (e.priced a) in
    let code = verdict assert_terminal r.expected (states e.final) in
    (
      e.final,
      e.ran ∙ ap (λ l. (once_listed l code, closed e.final)) prints,
      e.faithful,
      e.priced a,
      (lines, prints),
    )

once_listed-done :
    (listed : Result (List String)) (code : Command ℕ) {n : ℕ}
    → once_listed listed code ≡ done n
    → code ≡ done n
once_listed-done (ok lines) code h = h
once_listed-done (raise exc) code h = cc

is_status-some : (o : Option String) (status : String) → is_status o status ≡ true → o ≡ some status
is_status-some none status h = ground arith
is_status-some (some s) status h = ap some ((eq_iff s status).0 h)

all_in-state_of :
    (a b : List (String × String)) (payment_id status : String)
    → all_in a b ≡ true
    → state_of a payment_id ≡ some status
    → state_of b payment_id ≡ some status
all_in-state_of [] b payment_id status h k = ground arith
all_in-state_of ((key, s) ∷ rest) b payment_id status h k =
    let first : is_status (state_of b key) s ≡ true = ground arith in
    let others : all_in rest b ≡ true = ground arith in
    elim (Bool-cases (str_eq key payment_id)) [
      | inl e ↦
          (let found = is_status-some (state_of b key) s first in
            let k' = rw e at k in
            subst (λ p. state_of b p ≡ some status) ((eq_iff key payment_id).0 e) (found ∙ k'))
      | inr e ↦ all_in-state_of rest b payment_id status others (rw e at k)
    ]

verdict-zero :
    (stated final : List (String × String))
    → verdict true (some stated) final ≡ done 0
    → all_in stated final ≡ true
verdict-zero stated final h = ground arith

-- Where a replay with --assert-terminal exits with code 0, from a database whose payments are the
-- replay of their effects and from a log that records terminal states, every payment of those
-- states ends the replay in exactly the state that the log records for it.
pub replay_log_asserted :
    (python : Python) (random : Random) (r : Read) (db : Db) {conn : Connection}
    (stated : List (String × String)) (payment_id status : String)
    → IsFaithful db
    → r.expected ≡ some stated
    → replay_log python random true r (closed db) ≡ (done 0, conn)
    → state_of stated payment_id ≡ some status
    → state_of (states conn.db) payment_id ≡ some status
replay_log_asserted python random r db {conn} stated payment_id status f e h k =
    let final = (replayed python random true r db f).final in
    let same = sym h ∙ (replayed python random true r db f).ran in
    let code =
      once_listed-done (ledger_lines final) (verdict true r.expected (states final))
        (sym (ap (λ p. p.0) same)) in
    let zero =
      verdict-zero stated (states final) (ap (λ o. verdict true o (states final)) (sym e) ∙ code) in
    subst (λ d. state_of (states d) payment_id ≡ some status) (sym (ap (λ p. p.1.db) same))
      (all_in-state_of stated (states final) payment_id status zero k)
