-- ===== src/App/Acknowledged.antt =====
-- What a webhook acknowledges is authentic and stored.
use quidz.Prelude.{
  ℕ, String, ◌≡◌, refl, ap, Bool, true, false, ◌||◌, ◌==◌, Bool-cases, inl, inr, List, [], ◌∷◌,
}
use quidz.Errors.{Result, ok, raise, ◌>>=◌, ok_value, signature_error, event_error, value_error}
use quidz.Python.{Fields, Python}
use quidz.Clock.{Clock}
use quidz.Dlq.{is_instance}
use quidz.Signatures.{Crypto}
use quidz.Store.{Db, Connection}
use quidz.Inbox.{ClaimResult}
use quidz.Inbox.Receive.{receive_adyen}
use quidz.App.{
  lease_seconds, is_in_progress, adyen_items, stripe_reply, stripe_webhook, after_item,
  receive_items, with_items, adyen_webhook,
}
use quidz.App.Receipts.{
  StoredItem, StoredItem-grow, receive_adyen-Growing, receive_adyen-StoredItem, StoredEvent,
  receive_stripe-StoredEvent,
}
use quidz.App.Stored.{Grows, Grows-refl, Grows-trans}

module _ (python : Python) (crypto : Crypto) where
  stripe_reply-stored :
      (p : Result ClaimResult × Connection) {status : ℕ} {conn' : Connection}
      → stripe_reply p ≡ (ok status, conn')
      → (status == 400) ≡ false
      → (r : ClaimResult) × (p ≡ (ok r, conn'))
  stripe_reply-stored (ok r, conn) h ne = (r, ap (λ z. (ok r, z.1)) h)
  stripe_reply-stored (raise e, conn) {status} h ne =
      elim (Bool-cases (
        is_instance e signature_error
        || (is_instance e event_error || is_instance e value_error))) [
          | inl k ↦ (let h' = rw k at h in let ne' = rw (← ok_value (ap (λ z. z.0) h')) at ne in cc)
          | inr k ↦ (let h' = rw k at h in cc)
        ]

  -- A Stripe request that is answered with any status but 400 was authentic, and its delivery is in
  -- the database when the response is sent.
  pub stripe_webhook-StoredEvent :
      (secrets : List (List ℕ)) (raw : List ℕ) (headers : List (String × String)) (now : ℕ)
      (conn : Connection) {status : ℕ} {conn' : Connection}
      → stripe_webhook python crypto secrets raw headers now conn ≡ (ok status, conn')
      → (status == 400) ≡ false
      → StoredEvent python crypto secrets raw headers now conn'.db
  unfolding stripe_webhook
  stripe_webhook-StoredEvent secrets raw headers now conn h ne =
      let (r, k) = stripe_reply-stored _ h ne in
      receive_stripe-StoredEvent python crypto raw headers secrets now conn k

  module _ (clock : Clock) (dumps : Fields → List ℕ) (key : String) where
    abbrev pub AllStored : List Fields → Db → Type 0
    AllStored [] db = Unit {0}
    AllStored (item ∷ items) db = StoredItem python crypto key (dumps item) db × AllStored items db

    -- Nothing was refused.
    abbrev pub accepted : ℕ → Bool
    accepted status = status == 200 || status == 409

    after_item-stored :
        (rest : Bool → clock.Time → Connection → Result ℕ × Connection) (items : List Fields)
        → ((busy : Bool) (time : clock.Time) (conn : Connection) (status : ℕ) (conn' : Connection)
            → rest busy time conn ≡ (ok status, conn')
            → accepted status ≡ true
            → Grows conn.db conn'.db × AllStored items conn'.db)
        → (busy : Bool) (time : clock.Time) (body : List ℕ) (p : Result ClaimResult × Connection)
        → ((r : ClaimResult) (c : Connection)
            → p ≡ (ok r, c)
            → StoredItem python crypto key body c.db)
        → {status : ℕ} {conn' : Connection}
        → after_item python crypto clock dumps key rest busy time p ≡ (ok status, conn')
        → accepted status ≡ true
        → Grows p.1.db conn'.db
          × StoredItem python crypto key body conn'.db
          × AllStored items conn'.db
    after_item-stored rest items ih busy time body (ok r, conn) st {status} {conn'} h a =
        let (g, all) = ih (busy || is_in_progress r.reason) time conn status conn' h a in
        (g, StoredItem-grow python crypto g (st r conn refl), all)
    after_item-stored rest items ih busy time body (raise e, conn) st h a =
        elim (Bool-cases (is_instance e signature_error)) [
          | inl k ↦ (let h' = rw k at h in let a' = rw (← ok_value (ap (λ z. z.0) h')) at a in cc)
          | inr k ↦
              (let h' = rw k at h in
                elim (Bool-cases (is_instance e event_error)) [
                  | inl l ↦
                      (let h'' = rw l at h' in
                        let a' = rw (← ok_value (ap (λ z. z.0) h'')) at a in cc)
                  | inr l ↦ (let h'' = rw l at h' in cc)
                ])
        ]

    receive_items-stored :
        (items : List Fields) (busy : Bool) (time : clock.Time) (conn : Connection) {status : ℕ}
        {conn' : Connection}
        → receive_items python crypto clock dumps key items busy time conn ≡ (ok status, conn')
        → accepted status ≡ true
        → Grows conn.db conn'.db × AllStored items conn'.db
    unfolding receive_items
    receive_items-stored [] busy time conn h a = (rw (← ap (λ z. z.1) h) (Grows-refl conn.db), tt)
    receive_items-stored (item ∷ items) busy time conn h a =
        let (now, time') = clock.now time in
        let (g, st, all) =
          after_item-stored (receive_items python crypto clock dumps key items) items
            (λ b t c s c' h' a'. receive_items-stored items b t c h' a') busy time' (dumps item)
            (receive_adyen python crypto (dumps item) key now lease_seconds conn)
            (λ r c k.
              receive_adyen-StoredItem python crypto (dumps item) key now lease_seconds conn k)
            h a in
        (
          Grows-trans
              ((receive_adyen-Growing python crypto (dumps item) key now lease_seconds).grows conn)
              g,
          (st, all),
        )

    with_items-stored :
        (r : Result (List Fields)) (time : clock.Time) (conn : Connection) {status : ℕ}
        {conn' : Connection}
        → with_items python crypto clock dumps key r time conn ≡ (ok status, conn')
        → accepted status ≡ true
        → (items : List Fields) × (r ≡ ok items) × AllStored items conn'.db
    with_items-stored (ok items) time conn h a =
        (items, refl, (receive_items-stored items false time conn h a).1)
    with_items-stored (raise e) time conn h a =
        elim (Bool-cases (is_instance e value_error || is_instance e event_error)) [
          | inl k ↦ (let h' = rw k at h in let a' = rw (← ok_value (ap (λ z. z.0) h')) at a in cc)
          | inr k ↦ (let h' = rw k at h in cc)
        ]

    -- An Adyen notification that is answered 200 or 409 has lost nothing: it was a list of items,
    -- and every one of them, not only the last, carries a valid signature and is in the database
    -- when the response is sent.
    pub adyen_webhook-stored :
        (raw : List ℕ) (time : clock.Time) (conn : Connection) {status : ℕ} {conn' : Connection}
        → adyen_webhook python crypto clock dumps key raw time conn ≡ (ok status, conn')
        → accepted status ≡ true
        → (items : List Fields) × ((python.loads raw >>= adyen_items) ≡ ok items)
          × AllStored items conn'.db
    unfolding adyen_webhook
    adyen_webhook-stored raw time conn h a = with_items-stored _ time conn h a
