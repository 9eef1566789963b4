-- ===== src/Cli/Receipt/Returned.antt =====
-- When the receipt of a demonstration returns (`_receive_in_process` of src/quidz/cli.py).
use mathlib.Core.Path.{subst}
use quidz.Prelude.{ℕ, String, ◌≡◌, refl, sym, true, not, any, Bool-cases, inl, inr, List, [], ◌∷◌}
use quidz.Prelude.Int.{ℤ, pos, leb_ℤ}
use quidz.Errors.{
  Result, ok, raise, raise_if, ◌>>=◌, value_error, bad_signature, Returns, stale_timestamp,
  signature_error,
}
use quidz.Event.{Provider, stripe, adyen}
use quidz.Python.{Python, Fields}
use quidz.Clock.{FakeClock}
use quidz.Dlq.{is_instance}
use quidz.Metrics.{bump}
use quidz.Signatures.{
  Crypto, too_old, nonempty, header, header_or_raise, parse_stripe_signature_header, matches,
  signed_payload, verify_stripe, verify_adyen,
}
use quidz.Store.{Db, Connection}
use quidz.Store.Transactions.{closed}
use quidz.Inbox.{ClaimResult, payload_of, identity_of, claim}
use quidz.Inbox.Answers.{claim-Answers}
use quidz.Inbox.Receive.{
  go_on, is_duplicate, count_duplicate, counted_adyen, counted_stripe, signature_of, receive_stripe,
  receive_adyen,
}
use quidz.Inbox.Keyed.{anything}
use quidz.Inbox.Receive.Sound.{SoundRun}
use quidz.Sim.{Delivery}
use quidz.App.{lease_seconds, tolerance_seconds}
use quidz.Cli.Receipt.{Intake, count_receipt, receive_from, receive_all, receive_in_process}
use quidz.Cli.Receipt.Kept.{count_receipt-SoundRun, receive_from-Sound}

module _ {A : Type 0} where
  -- An answer, or a rejection.
  abbrev pub Decides : Result A → Type 0
  Decides (ok a) = Unit {0}
  Decides (raise e) = is_instance e signature_error ≡ true

module _ {A B : Type 0} where
  -- What is counted goes on with an answer, and stops at a rejection.
  counted_adyen-Decides :
      (r : Result A) (next : A → Connection → Result B × Connection)
      → Decides r
      → ((a : A) → (db : Db) → Decides (next a (closed db)).0)
      → (db : Db) → Decides (go_on (counted_adyen r (closed db)) next).0
  unfolding bump
  counted_adyen-Decides (ok a) next h step db = step a db
  counted_adyen-Decides (raise e) next h step db =
      elim (Bool-cases (is_instance e signature_error)) [ inl k ↦ rw k h | inr k ↦ rw k h ]

  counted_stripe-Decides :
      (r : Result A) (next : A → Connection → Result B × Connection)
      → Decides r
      → ((a : A) → (db : Db) → Decides (next a (closed db)).0)
      → (db : Db) → Decides (go_on (counted_stripe r (closed db)) next).0
  unfolding bump
  counted_stripe-Decides (raise stale_timestamp) next h step db = h
  counted_stripe-Decides r next h step db = counted_adyen-Decides r next h step db

count_duplicate-Decides : (r : ClaimResult) (conn : Connection) → Decides (count_duplicate r conn).0
unfolding bump
count_duplicate-Decides r conn = elim (Bool-cases (is_duplicate r.reason)) [
  | inl h ↦ rw h tt
  | inr h ↦ rw h tt
]

claimed-Decides :
    (provider : Provider) (identity : String) (raw : List ℕ) (headers : List (String × String))
    (now lease : ℕ) (db : Db)
    → Decides (go_on (claim provider identity raw headers now lease (closed db)) count_duplicate).0
claimed-Decides provider identity raw headers now lease db =
    let (r, after, ran, _) = claim-Answers provider identity raw headers now lease db in
    rw ran (count_duplicate-Decides r (closed after))

module _ {A B C : Type 0} where
  bind-Decides :
      (r : Result A) (f : A → Result B) (g : A → Result C)
      → ((a : A) → Decides (f a) → Decides (g a))
      → Decides (r >>= f)
      → Decides (r >>= g)
  bind-Decides (ok a) f g step h = step a h
  bind-Decides (raise e) f g step h = h

stale-Decides :
    (crypto : Crypto) (now timestamp : ℕ) (tolerance : ℤ)
    → Decides
        (raise_if (too_old crypto now timestamp tolerance) stale_timestamp >>= λ _. ok timestamp)
unfolding is_instance
stale-Decides crypto now timestamp tolerance =
    elim (Bool-cases (too_old crypto now timestamp tolerance)) [
      | inl h ↦ rw h refl
      | inr h ↦ rw h tt
    ]

-- Time only makes a signature stale, which is a rejection.
verify_stripe-later :
    (crypto : Crypto) (raw : List ℕ) (headers : List (String × String)) (secrets : List (List ℕ))
    (now : ℕ) (tolerance : ℤ)
    → Decides (verify_stripe crypto raw headers secrets 0 tolerance)
    → Decides (verify_stripe crypto raw headers secrets now tolerance)
unfolding verify_stripe
verify_stripe-later crypto raw headers secrets now tolerance =
    bind-Decides (raise_if (leb_ℤ tolerance (pos 0)) value_error) _ _ (λ _.
      bind-Decides (raise_if (not (nonempty crypto secrets)) value_error) _ _ (λ _.
        bind-Decides (header_or_raise crypto (header crypto headers "Stripe-Signature")) _ _
          (λ value. bind-Decides (parse_stripe_signature_header crypto value) _ _ (λ p.
            bind-Decides
              (raise_if (not (any (matches crypto (signed_payload crypto p.0 raw) p.1) secrets))
                bad_signature)
              _ _ (λ _ _. stale-Decides crypto now p.0 tolerance)))))

module _ (python : Python) (crypto : Crypto) (secrets : List (List ℕ)) (key : String) where
  -- `verify_stripe` and `verify_adyen` answer or reject.
  abbrev pub Verifies : Provider → Delivery → Fields → Type 0
  Verifies stripe d payload =
      Decides (verify_stripe crypto d.raw d.headers secrets 0 tolerance_seconds)
  Verifies adyen d payload =
      Decides (verify_adyen crypto payload (signature_of python crypto payload) key)

  -- A body that parses and names its delivery, and that verification answers or rejects.
  pub record Receivable (d : Delivery) : Type 0 where
    pub payload : Fields
    pub identity : String
    pub parsed : payload_of python d.raw ≡ ok payload
    pub named : identity_of d.provider payload ≡ ok identity
    pub verifies : Verifies d.provider d payload

  abbrev pub AllReceivable : List Delivery → Type 0
  AllReceivable [] = Unit {0}
  AllReceivable (d ∷ ds) = Receivable d × AllReceivable ds

  receive_from-Decides :
      (provider : Provider) (d : Delivery) (payload : Fields) (identity : String) (now : ℕ)
      (db : Db)
      → payload_of python d.raw ≡ ok payload
      → identity_of provider payload ≡ ok identity
      → Verifies provider d payload
      → Decides (receive_from python crypto secrets key provider d now (closed db)).0
  unfolding receive_stripe receive_adyen bump
  receive_from-Decides stripe d payload identity now db parsed named verifies =
      counted_stripe-Decides (verify_stripe crypto d.raw d.headers secrets now tolerance_seconds) _
        (verify_stripe-later crypto d.raw d.headers secrets now tolerance_seconds verifies)
        (λ timestamp db'.
          rw (parsed, named)
            (claimed-Decides stripe identity d.raw d.headers now lease_seconds db'))
        _
  receive_from-Decides adyen d payload identity now db parsed named verifies = rw parsed (
      counted_adyen-Decides (verify_adyen crypto payload (signature_of python crypto payload) key)
        (λ _ conn.
          go_on (identity_of adyen payload, conn)
            (λ i conn'. go_on (claim adyen i d.raw [] now lease_seconds conn') count_duplicate))
        verifies (λ u db'. rw named (claimed-Decides adyen identity d.raw [] now lease_seconds db'))
        _)

  count_receipt-Returns :
      (w : Intake) (p : Result ClaimResult × Connection)
      → Decides p.0
      → Returns (count_receipt w p).0
  count_receipt-Returns w (ok r, conn) h = (_, refl)
  count_receipt-Returns w (raise e, conn) h = elim (Bool-cases (is_instance e stale_timestamp)) [
    | inl k ↦ rw k (_, refl)
    | inr k ↦ rw (k, h) (_, refl)
  ]

  receive_all-Returns :
      (ds : List Delivery) (before : Db) (q : Result Intake × Connection)
      → AllReceivable ds
      → SoundRun anything before q
      → Returns q.0
      → Returns (receive_all python crypto secrets key ds q).0
  receive_all-Returns [] before q a s r = r
  receive_all-Returns (d ∷ ds) before (raise e, conn) a s r = cc (r.1)
  receive_all-Returns (d ∷ ds) before (ok w, conn) (one, rest) s r =
      let here = receive_from python crypto secrets key d.provider d w.clock.t in
      let decided =
        receive_from-Decides d.provider d one.payload one.identity w.clock.t s.after one.parsed
          one.named one.verifies in
      let sound = count_receipt-SoundRun anything w s.after (here (closed s.after)) (
        (receive_from-Sound anything python crypto secrets key d.provider d w.clock.t refl).at
          s.after) in
      receive_all-Returns ds s.after (count_receipt w (here conn)) rest
        (subst (λ c. SoundRun anything s.after (count_receipt w (here c))) (sym s.left) sound)
        (subst (λ c. Returns (count_receipt w (here c)).0) (sym s.left)
          (count_receipt-Returns w (here (closed s.after)) decided))

  -- A receipt of deliveries that can be received returns.
  pub receive_in_process-Returns :
      (sent : List Delivery) (clock : FakeClock) (db : Db)
      → AllReceivable sent
      → Returns (receive_in_process python crypto secrets key sent clock (closed db)).0
  unfolding receive_in_process
  receive_in_process-Returns sent clock db a =
      receive_all-Returns sent db _ a
        (record { after = db; left = refl; payments = refl; keyed = λ k. k }) (_, refl)
