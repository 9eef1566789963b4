-- ===== src/Inbox/Receive/Unsigned.antt =====
-- What an unverified delivery leaves behind.
use quidz.Prelude.{ℕ, String, ◌≡◌, refl, List, Bool-cases, inl, inr}
use quidz.Prelude.Int.{ℤ, pos}
use quidz.Errors.{Exn, Result, ok, raise, signature_error, stale_timestamp}
use quidz.Python.{Fields, Python}
use quidz.Store.{Db, Connection}
use quidz.Metrics.{bump}
use quidz.Dlq.{is_instance}
use quidz.Signatures.{Crypto, verify_stripe, verify_adyen}
use quidz.Inbox.{payload_of, ClaimResult}
use quidz.Inbox.Receive.{
  Session, exec, go_on, counted_stripe, counted_adyen, signature_of, receive_stripe, receive_adyen,
}

-- Only counters have changed.
pub record OnlyCounted (a b : Db) : Type 0 where
  pub same_deliveries : a.deliveries ≡ b.deliveries
  pub same_effects : a.effects ≡ b.effects
  pub same_payments : a.payments ≡ b.payments
  pub same_settlement : a.settlement_rows ≡ b.settlement_rows

-- An attempt that was refused with this exception, and wrote no row besides counters.
pub record Refused (e : Exn) (before : Connection) (p : Result ClaimResult × Connection)
    : Type 0 where
  pub raises : p.0 ≡ raise e
  pub counts : OnlyCounted before.db p.1.db

module _ {A : Type 0} (next : A → Session ClaimResult) where
  counted_adyen-Refused :
      (e : Exn) (conn : Connection) → Refused e conn (go_on (counted_adyen (raise e) conn) next)
  unfolding bump
  counted_adyen-Refused e conn = elim (Bool-cases (is_instance e signature_error)) [
    | inl h ↦ rw h (record {
      raises = refl;
      counts = record {
        same_deliveries = refl;
        same_effects = refl;
        same_payments = refl;
        same_settlement = refl;
      };
    })
    | inr h ↦ rw h (record {
      raises = refl;
      counts = record {
        same_deliveries = refl;
        same_effects = refl;
        same_payments = refl;
        same_settlement = refl;
      };
    })
  ]

  counted_stripe-Refused :
      (e : Exn) (conn : Connection) → Refused e conn (go_on (counted_stripe (raise e) conn) next)
  unfolding bump
  counted_stripe-Refused stale_timestamp conn = record {
    raises = refl;
    counts = record {
      same_deliveries = refl;
      same_effects = refl;
      same_payments = refl;
      same_settlement = refl;
    };
  }
  counted_stripe-Refused e conn = counted_adyen-Refused e conn

-- A Stripe delivery whose signature is refused is never stored: the call raises the very
-- rejection, and besides counters it changes no table, so nothing of it can be drained.
pub receive_stripe-Refused :
    (python : Python) (crypto : Crypto) (raw : List ℕ) (headers : List (String × String))
    (secrets : List (List ℕ)) (now lease_seconds : ℕ) (tolerance : ℤ) (conn : Connection) {e : Exn}
    → verify_stripe crypto raw headers secrets now tolerance ≡ raise e
    → Refused e conn
        (receive_stripe python crypto raw headers secrets now lease_seconds tolerance conn)
unfolding receive_stripe bump
receive_stripe-Refused python crypto raw headers secrets now lease_seconds tolerance conn {e} h =
    rw h (
      let p = counted_stripe-Refused _ e (exec (bump "events_received" (pos 1)) conn).1 in
      record {
        raises = p.raises;
        counts = record {
          same_deliveries = p.counts.same_deliveries;
          same_effects = p.counts.same_effects;
          same_payments = p.counts.same_payments;
          same_settlement = p.counts.same_settlement;
        };
      })

-- An Adyen item whose signature is refused is never stored: the call raises the very rejection,
-- and besides counters it changes no table.
pub receive_adyen-Refused :
    (python : Python) (crypto : Crypto) (raw : List ℕ) (hmac_key_hex : String)
    (now lease_seconds : ℕ) (conn : Connection) {item : Fields} {e : Exn}
    → payload_of python raw ≡ ok item
    → verify_adyen crypto item (signature_of python crypto item) hmac_key_hex ≡ raise e
    → Refused e conn (receive_adyen python crypto raw hmac_key_hex now lease_seconds conn)
unfolding receive_adyen bump
receive_adyen-Refused python crypto raw hmac_key_hex now lease_seconds conn {item} {e} k h =
    rw (k, h)
      (let p = counted_adyen-Refused _ e (exec (bump "events_received" (pos 1)) conn).1 in
        record {
          raises = p.raises;
          counts = record {
            same_deliveries = p.counts.same_deliveries;
            same_effects = p.counts.same_effects;
            same_payments = p.counts.same_payments;
            same_settlement = p.counts.same_settlement;
          };
        })
