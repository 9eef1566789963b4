-- ===== src/App/Receipts.antt =====
-- A delivery that an entry point takes is authentic and stored.
use quidz.Prelude.{ℕ, String, ◌≡◌, refl, ap, true, Bool-cases, inl, inr, List, []}
use quidz.Prelude.Int.{pos}
use quidz.Errors.{Result, ok, raise, signature_error, stale_timestamp}
use quidz.Event.{stripe, adyen}
use quidz.Python.{Fields, Python}
use quidz.Dlq.{is_instance}
use quidz.Metrics.{bump}
use quidz.Signatures.{Crypto, verify_stripe, verify_adyen}
use quidz.Store.{Db, Connection, has_delivery}
use quidz.Inbox.{ClaimResult, delivery_key, identity_of, payload_of, claim}
use quidz.Inbox.Receive.{
  Session, exec, go_on, pure, counted_stripe, counted_adyen, count_duplicate, is_duplicate,
  signature_of, receive_stripe, receive_adyen,
}
use quidz.App.{lease_seconds, tolerance_seconds}
use quidz.App.Stored.{
  Grows, Grows-refl, Growing, Growing-pure, Growing-then, bump-Growing, claim-Growing, claim-stores,
}

module _ {A B : Type 0} where
  pub go_on-ok :
      (p : Result A × Connection) (next : A → Session B) {b : B} {conn' : Connection}
      → go_on p next ≡ (ok b, conn')
      → (a : A) × (conn : Connection) × (p ≡ (ok a, conn)) × (next a conn ≡ (ok b, conn'))
  go_on-ok (ok a, conn) next h = (a, conn, refl, h)
  go_on-ok (raise e, conn) next h = cc

module _ {A : Type 0} where
  counted_adyen-Growing : (r : Result A) → Growing (counted_adyen r)
  counted_adyen-Growing (ok a) = record { grows = λ conn. Grows-refl conn.db }
  counted_adyen-Growing (raise e) = elim (Bool-cases (is_instance e signature_error)) [
    | inl h ↦ rw h (
        Growing-then (exec (bump "signature_rejected" (pos 1))) (bump-Growing _ _)
          (λ _. Growing-pure (raise e)))
    | inr h ↦ rw h (Growing-pure (raise e))
  ]

  counted_adyen-ok :
      (r : Result A) (conn : Connection) {a : A} {conn' : Connection}
      → counted_adyen r conn ≡ (ok a, conn')
      → r ≡ ok a
  unfolding bump
  counted_adyen-ok (ok b) conn h = ap (λ z. z.0) h
  counted_adyen-ok (raise e) conn h = elim (Bool-cases (is_instance e signature_error)) [
    | inl k ↦ (let h' = rw k at h in cc)
    | inr k ↦ (let h' = rw k at h in cc)
  ]

  counted_stripe-ok :
      (r : Result A) (conn : Connection) {a : A} {conn' : Connection}
      → counted_stripe r conn ≡ (ok a, conn')
      → r ≡ ok a
  unfolding bump
  counted_stripe-ok (raise stale_timestamp) conn h = cc
  counted_stripe-ok r conn h = counted_adyen-ok r conn h

count_duplicate-Growing : (r : ClaimResult) → Growing (count_duplicate r)
count_duplicate-Growing r = elim (Bool-cases (is_duplicate r.reason)) [
  | inl h ↦
      rw h
        (Growing-then (exec (bump "deduped" (pos 1))) (bump-Growing _ _) (λ _. Growing-pure (ok r)))
  | inr h ↦ rw h (Growing-pure (ok r))
]

count_duplicate-keeps :
    (r : ClaimResult) (conn : Connection) (key : String) {r' : ClaimResult} {conn' : Connection}
    → count_duplicate r conn ≡ (ok r', conn')
    → has_delivery key conn.db ≡ true
    → has_delivery key conn'.db ≡ true
count_duplicate-keeps r conn key h k =
    rw (← ap (λ z. z.1) h) (((count_duplicate-Growing r).grows conn).keeps key k)

module _ (python : Python) (crypto : Crypto) where
  -- The body carries the provider's signature, and its delivery is in the database.
  pub record StoredItem (hmac_key_hex : String) (body : List ℕ) (db : Db) : Type 0 where
    pub item : Fields
    pub identity : String
    pub parsed : payload_of python body ≡ ok item
    pub authentic : verify_adyen crypto item (signature_of python crypto item) hmac_key_hex ≡ ok tt
    pub named : identity_of adyen item ≡ ok identity
    pub stored : has_delivery (delivery_key adyen identity) db ≡ true

  pub StoredItem-grow :
      {key : String} {body : List ℕ} {a b : Db}
      → Grows a b
      → StoredItem key body a
      → StoredItem key body b
  StoredItem-grow g s = record {
    item = s.item;
    identity = s.identity;
    parsed = s.parsed;
    authentic = s.authentic;
    named = s.named;
    stored = g.keeps (delivery_key adyen s.identity) s.stored;
  }

  pub receive_adyen-Growing :
      (raw : List ℕ) (key : String) (now lease : ℕ)
      → Growing (receive_adyen python crypto raw key now lease)
  unfolding receive_adyen
  receive_adyen-Growing raw key now lease =
      Growing-then (exec (bump "events_received" (pos 1))) (bump-Growing _ _) (λ _.
        Growing-then (pure (payload_of python raw)) (Growing-pure _) (λ item.
          Growing-then
            (counted_adyen (verify_adyen crypto item (signature_of python crypto item) key))
            (counted_adyen-Growing _)
            (λ _. Growing-then (pure (identity_of adyen item)) (Growing-pure _) (λ identity.
              Growing-then (claim adyen identity raw [] now lease)
                (claim-Growing adyen identity raw [] now lease) count_duplicate-Growing))))

  pub receive_adyen-StoredItem :
      (raw : List ℕ) (key : String) (now lease : ℕ) (conn : Connection) {r : ClaimResult}
      {conn' : Connection}
      → receive_adyen python crypto raw key now lease conn ≡ (ok r, conn')
      → StoredItem key raw conn'.db
  unfolding receive_adyen
  receive_adyen-StoredItem raw key now lease conn {r} {conn'} h =
      let (_, c₁, h₁, k₁) = go_on-ok (exec (bump "events_received" (pos 1)) conn) _ h in
      let (item, c₂, h₂, k₂) = go_on-ok (pure (payload_of python raw) c₁) _ k₁ in
      let (u, c₃, h₃, k₃) =
        go_on-ok (counted_adyen (verify_adyen crypto item (signature_of python crypto item) key) c₂)
          _ k₂ in
      let (identity, c₄, h₄, k₄) = go_on-ok (pure (identity_of adyen item) c₃) _ k₃ in
      let (result, c₅, h₅, k₅) = go_on-ok (claim adyen identity raw [] now lease c₄) _ k₄ in
      record {
        item = item;
        identity = identity;
        parsed = ap (λ z. z.0) h₂;
        authentic = counted_adyen-ok _ c₂ h₃;
        named = ap (λ z. z.0) h₄;
        stored =
            count_duplicate-keeps result c₅ (delivery_key adyen identity) k₅
              (claim-stores adyen identity raw [] now lease c₄ h₅);
      }

  -- The same of a Stripe delivery, which is signed over the bytes received.
  pub record StoredEvent (secrets : List (List ℕ)) (raw : List ℕ) (headers : List (String × String))
      (now : ℕ) (db : Db) : Type 0 where
    pub payload : Fields
    pub identity : String
    pub timestamp : ℕ
    pub authentic : verify_stripe crypto raw headers secrets now tolerance_seconds ≡ ok timestamp
    pub parsed : payload_of python raw ≡ ok payload
    pub named : identity_of stripe payload ≡ ok identity
    pub stored : has_delivery (delivery_key stripe identity) db ≡ true

  pub receive_stripe-StoredEvent :
      (raw : List ℕ) (headers : List (String × String)) (secrets : List (List ℕ)) (now : ℕ)
      (conn : Connection) {r : ClaimResult} {conn' : Connection}
      → receive_stripe python crypto raw headers secrets now lease_seconds tolerance_seconds conn
        ≡ (ok r, conn')
      → StoredEvent secrets raw headers now conn'.db
  unfolding receive_stripe
  receive_stripe-StoredEvent raw headers secrets now conn {r} {conn'} h =
      let (_, c₁, h₁, k₁) = go_on-ok (exec (bump "events_received" (pos 1)) conn) _ h in
      let verified = verify_stripe crypto raw headers secrets now tolerance_seconds in
      let (timestamp, c₂, h₂, k₂) = go_on-ok (counted_stripe verified c₁) _ k₁ in
      let (payload, c₃, h₃, k₃) = go_on-ok (pure (payload_of python raw) c₂) _ k₂ in
      let (identity, c₄, h₄, k₄) = go_on-ok (pure (identity_of stripe payload) c₃) _ k₃ in
      let (result, c₅, h₅, k₅) =
        go_on-ok (claim stripe identity raw headers now lease_seconds c₄) _ k₄ in
      record {
        payload = payload;
        identity = identity;
        timestamp = timestamp;
        authentic = counted_stripe-ok verified c₁ h₂;
        parsed = ap (λ z. z.0) h₃;
        named = ap (λ z. z.0) h₄;
        stored =
            count_duplicate-keeps result c₅ (delivery_key stripe identity) k₅
              (claim-stores stripe identity raw headers now lease_seconds c₄ h₅);
      }
