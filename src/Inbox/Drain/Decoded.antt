-- ===== src/Inbox/Drain/Decoded.antt =====
-- The currency of what `_decode` of src/quidz/inbox.py returns.
use quidz.Prelude.{ℕ, ◌≡◌, List}
use quidz.Errors.{ok, >>=-eq-ok}
use quidz.Event.{CanonicalEvent, Provider, stripe, adyen}
use quidz.Python.{Python, Fields}
use quidz.Inbox.{payload_of, adapter, decode}
use quidz.Ledger.Priced.{IsPriced, from_stripe-IsPriced, from_adyen-IsPriced}

module _ (python : Python) where
  adapter-IsPriced :
      (provider : Provider) (payload : Fields) {e : CanonicalEvent}
      → adapter python provider payload ≡ ok e
      → IsPriced e.amount
  adapter-IsPriced stripe payload h = from_stripe-IsPriced python payload h
  adapter-IsPriced adyen payload h = from_adyen-IsPriced python payload h

  pub decode-IsPriced :
      (provider : Provider) (raw : List ℕ) {e : CanonicalEvent}
      → decode python provider raw ≡ ok e
      → IsPriced e.amount
  unfolding decode
  decode-IsPriced provider raw h =
      let (payload, _, decoded) = >>=-eq-ok (payload_of python raw) _ h in
      adapter-IsPriced provider payload decoded
