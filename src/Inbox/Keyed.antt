-- ===== src/Inbox/Keyed.antt =====
-- The keys that `claim` of src/quidz/inbox.py gives to the deliveries, and a test that their bodies
-- pass, under updates and sorting.
use mathlib.Core.Bool.{false≢true}
use quidz.Prelude.{
  ℕ, String, str_eq, eq_iff, false, refl, Option, none, some, Bool, true, ◌≡◌, sym, ap, ◌∙◌,
  Bool-cases, inl, inr, List, [], ◌∷◌, keep,
}
use quidz.Prelude.Order.{insert_by, sort_by}
use quidz.Prelude.Among.{Among, first, later}
use quidz.Event.{Provider, stripe, adyen}
use quidz.Store.{Delivery, update_deliveries}
use quidz.Signatures.{partition}
use quidz.Signatures.Splitting.{partition-append}
use quidz.Inbox.{provider_text, delivery_key}

-- A test of the bodies of a provider.
abbrev pub Bodies : Type 0
Bodies = Provider → List ℕ → Bool

-- The key of a delivery gives back its identity: no provider's name has a colon.
pub partition-key :
    (p : Provider) (identity : String)
    → partition b':' (delivery_key p identity) ≡ some (provider_text p, identity)
unfolding delivery_key
partition-key stripe identity = partition-append b':' "stripe" ":" identity refl refl
partition-key adyen identity = partition-append b':' "adyen" ":" identity refl refl

abbrev of_stripe : Option (String × String) → Bool
of_stripe none = false
of_stripe (some (name, rest)) = str_eq name "stripe"

same_provider :
    (a b : Provider) → str_eq (provider_text a) "stripe" ≡ str_eq (provider_text b) "stripe" → a ≡ b
same_provider stripe stripe h = refl
same_provider adyen adyen h = refl
same_provider stripe adyen h = absurd (false≢true (sym h))
same_provider adyen stripe h = absurd (false≢true h)

-- So the key of a delivery tells its provider.
delivery_key-provider :
    (a b : Provider) (x y : String) → delivery_key a x ≡ delivery_key b y → a ≡ b
delivery_key-provider a b x y h =
    same_provider a b
      (ap of_stripe (sym (partition-key a x) ∙ ap (partition b':') h ∙ partition-key b y))

-- A change that keeps both halves of the key, and the body.
pub record Unkeyed (change : Delivery → Delivery) : Type 0 where
  pub same_id : (d : Delivery) → (change d).delivery_id ≡ d.delivery_id
  pub same_provider : (d : Delivery) → (change d).provider ≡ d.provider
  pub same_raw : (d : Delivery) → (change d).raw ≡ d.raw

-- The test that every body passes.
abbrev pub anything : Bodies
anything _ _ = true

module _ (q : Bodies) where
  pub record Keyed (d : Delivery) : Type 0 where
    pub identity : String
    pub key : d.delivery_id ≡ delivery_key d.provider identity
    pub body : q d.provider d.raw ≡ true

  abbrev pub AllKeyed : List Delivery → Type 0
  AllKeyed [] = Unit {0}
  AllKeyed (d ∷ ds) = Keyed d × AllKeyed ds

  pub Unkeyed-Keyed :
      (change : Delivery → Delivery) → Unkeyed change → (d : Delivery) → Keyed d → Keyed (change d)
  Unkeyed-Keyed change u d k = record {
    identity = k.identity;
    key = u.same_id d ∙ k.key ∙ ap (λ p. delivery_key p k.identity) (sym (u.same_provider d));
    body =
        ap (λ p. q p (change d).raw) (u.same_provider d)
        ∙ ap (q d.provider) (u.same_raw d)
        ∙ k.body;
  }

  -- A body that passes takes the place of another one under the key of its provider.
  pub rekeyed :
      (provider : Provider) (identity : String) (change : Delivery → Delivery) (raw : List ℕ)
      → ((d : Delivery) → (change d).delivery_id ≡ d.delivery_id)
      → ((d : Delivery) → (change d).provider ≡ d.provider)
      → ((d : Delivery) → (change d).raw ≡ raw)
      → q provider raw ≡ true
      → (d : Delivery) → str_eq d.delivery_id (delivery_key provider identity) ≡ true
      → Keyed d
      → Keyed (change d)
  rekeyed provider identity change raw same_id same_provider same_raw fits d e k =
      let found = (eq_iff d.delivery_id (delivery_key provider identity)).0 e in
      let same =
        delivery_key-provider d.provider provider k.identity identity (sym k.key ∙ found) in
      record {
        identity = k.identity;
        key = same_id d ∙ k.key ∙ ap (λ p. delivery_key p k.identity) (sym (same_provider d));
        body =
            ap (λ p. q p (change d).raw) (same_provider d ∙ same)
            ∙ ap (q provider) (same_raw d)
            ∙ fits;
      }

  pub update_deliveries-AllKeyed :
      (did : String) (change : Delivery → Delivery) (ds : List Delivery)
      → ((d : Delivery) → str_eq d.delivery_id did ≡ true → Keyed d → Keyed (change d))
      → AllKeyed ds
      → AllKeyed (update_deliveries did change ds)
  update_deliveries-AllKeyed did change [] u a = tt
  update_deliveries-AllKeyed did change (d ∷ ds) u (k, ks) =
      elim (Bool-cases (str_eq d.delivery_id did)) [
        | inl e ↦ rw e (u d e k, update_deliveries-AllKeyed did change ds u ks)
        | inr e ↦ rw e (k, update_deliveries-AllKeyed did change ds u ks)
      ]

  insert_by-AllKeyed :
      (le : Delivery → Delivery → Bool) (d : Delivery) (ds : List Delivery)
      → Keyed d
      → AllKeyed ds
      → AllKeyed (insert_by le d ds)
  insert_by-AllKeyed le d [] k a = (k, a)
  insert_by-AllKeyed le d (e ∷ es) k (l, ls) = elim (Bool-cases (le d e)) [
    | inl h ↦ rw h (k, (l, ls))
    | inr h ↦ rw h (l, insert_by-AllKeyed le d es k ls)
  ]

  pub sort_by-AllKeyed :
      (le : Delivery → Delivery → Bool) (ds : List Delivery)
      → AllKeyed ds
      → AllKeyed (sort_by le ds)
  sort_by-AllKeyed le [] a = a
  sort_by-AllKeyed le (d ∷ ds) (k, ks) =
      insert_by-AllKeyed le d (sort_by le ds) k (sort_by-AllKeyed le ds ks)

  pub keep-AllKeyed :
      (p : Delivery → Bool) (ds : List Delivery) → AllKeyed ds → AllKeyed (keep p ds)
  keep-AllKeyed p [] a = a
  keep-AllKeyed p (d ∷ ds) (k, ks) = elim (Bool-cases (p d)) [
    | inl e ↦ rw e (k, keep-AllKeyed p ds ks)
    | inr e ↦ rw e (keep-AllKeyed p ds ks)
  ]

  pub AllKeyed-among : {d : Delivery} (ds : List Delivery) → AllKeyed ds → Among d ds → Keyed d
  AllKeyed-among (x ∷ ds) (k, ks) first = k
  AllKeyed-among (x ∷ ds) (k, ks) (later m) = AllKeyed-among ds ks m
  AllKeyed-among [] a m = elim m [ ]
