-- ===== src/Tests/Replay.antt =====
-- The replay of a log of one authorization (src/quidz/cli.py).
use quidz.Errors.{ok}
use quidz.Ledger.Priced.{AllPriced}
use quidz.Cli.Listing.{ledger_lines}
use quidz.Prelude.{String, List, ◌≡◌, refl, true, some, [], ◌∷◌}
use quidz.Event.{adyen}
use quidz.Store.{
  Db, Connection, empty, write_tx, insert_delivery, insert_effect, savepoint, upsert_payment,
}
use quidz.Store.Transactions.{closed}
use quidz.Ledger.{load_payment, apply_delivery, apply_to}
use quidz.Ledger.History.{IsFaithful}
use quidz.Cli.{done, terminal}
use quidz.Cli.Log.{Read, state_of}
use quidz.Cli.Replay.{states, verdict, replay_log}
use quidz.Cli.Replay.Ended.{replay_log-Ended, replay_log_asserted}
use quidz.Inbox.{claim, claim_body, decode, payload_of, delivery_key}
use quidz.Inbox.Idle.{drain_until_idle, rounds}
use quidz.Inbox.Drain.{drain, drain_rows, due_rows, drain_row, process, settle}
use quidz.Events.{
  from_adyen, require_str, adyen_success, adyen_amount, adyen_kind, adyen_moment, amount_field,
  require_int,
}
use quidz.Python.{get, has_key}
use quidz.Dlq.{jitter_source}
use quidz.Ledger.Listing.{list_payments}
use quidz.Metrics.{bump, check}
use quidz.Model.{
  amount_minor, apply_effect, apply_kind, check_amounts, check_order, check_single, derive_status,
  fold, next_rank, state_rank, status_text,
}
use quidz.Money.{exponent, format_major, make_money, validate_currency}
use quidz.Prelude.Int.{max_ℤ, ◌+ℤ◌, ◌-ℤ◌}
use quidz.Samples.{python, random, inbox, inbox-IsFaithful}

abbrev read : Read
read = record {
  entries = record { provider = adyen; identity = "new"; raw = 123 ∷ []; headers = [] } ∷ [];
  expected = some (("pay", "authorized") ∷ []);
}

replay_log-Ended_example :
    (final : Db) × (replay_log python random true read (closed inbox)
      ≡ (verdict true read.expected (states final), closed final))
    × IsFaithful final
    × AllPriced final.payments
    × ((lines : List String) × (ledger_lines final ≡ ok lines))
replay_log-Ended_example = replay_log-Ended python random true read inbox inbox-IsFaithful tt

empty-IsFaithful : IsFaithful empty
unfolding load_payment
empty-IsFaithful = record { at = λ pid. refl }

abbrev final : Connection
final = (replay_log python random true read (closed empty)).1

reproduces : replay_log python random true read (closed empty) ≡ (done 0, final)
unfolding replay_log load_payment claim write_tx claim_body insert_delivery drain_until_idle rounds
    drain drain_rows due_rows drain_row process decode payload_of from_adyen require_str get
    adyen_success terminal jitter_source adyen_amount adyen_kind adyen_moment amount_field
    require_int settle delivery_key list_payments apply_delivery apply_to bump check amount_minor
    apply_effect apply_kind check_amounts check_order check_single derive_status fold next_rank
    state_rank status_text make_money validate_currency max_ℤ ◌+ℤ◌ ◌-ℤ◌ has_key insert_effect
    savepoint upsert_payment ledger_lines exponent format_major
reproduces = refl

replay_log_asserted_example : state_of (states final.db) "pay" ≡ some "authorized"
replay_log_asserted_example =
    replay_log_asserted python random read empty (("pay", "authorized") ∷ []) "pay" "authorized"
      empty-IsFaithful refl reproduces refl
