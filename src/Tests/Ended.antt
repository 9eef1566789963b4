-- ===== src/Tests/Ended.antt =====
-- A demonstration with a small generator that comes to its end (src/quidz/cli.py).
use mathlib.Core.Bool.{false≢true}
use quidz.Prelude.{Bool, true, String, ◌≡◌, refl, List, [], ◌∷◌, ℕ, ◌&&◌, arith}
use quidz.Prelude.Int.{pos}
use quidz.Errors.{Result, ok, raise, signature_error}
use quidz.Python.{Python, get, Fields, str, obj, field}
use quidz.Store.{Db, empty}
use quidz.Store.Transactions.{closed}
use quidz.Sim.{Delivery}
use quidz.Sim.Batches.{deliveries}
use quidz.App.{tolerance_seconds}
use quidz.Cli.Demo.Ended.{run_demo-Ended}
use quidz.Cli.Receipt.Returned.{Decides, Verifies, AllReceivable}
use quidz.Inbox.{payload_of, identity_of}
use quidz.Inbox.Receive.{signature_of}
use quidz.Inbox.Parked.Faults.{Readable}
use quidz.Inbox.Parked.Fitting.{fits}
use quidz.Cli.Receipt.Kept.{AllBodies}
use quidz.Dlq.{is_instance}
use quidz.Event.{Provider, stripe, adyen}
use quidz.Events.{require_str}
use quidz.Signatures.{verify_stripe, verify_adyen}
use quidz.Cli.Demo.{Outcome, run_demo, stripe_secrets, zero_bytes, adyen_hmac_key_hex, started_at}
use quidz.Sim.Deliveries.{Signer}
use quidz.Tests.Sim.{rng}
use quidz.Tests.Log.{codec}
use quidz.Samples.{python, item, random}
use quidz.Tests.Demo.{provider, json, is_ok}

abbrev ok_of : {A : Type 0} → A → Result A → A
ok_of other (ok a) = a
ok_of other (raise _) = other

ok-ok_of : {A : Type 0} (other : A) (r : Result A) → is_ok r ≡ true → r ≡ ok (ok_of other r)
ok-ok_of other (ok a) h = refl
ok-ok_of other (raise e) h = absurd (false≢true h)

abbrev batch : Result (List Delivery)
batch = deliveries provider stripe_secrets (zero_bytes 32) started_at rng (pos 0) "happy" []

abbrev sent : List Delivery
sent = ok_of [] batch

builds : is_ok batch ≡ true
unfolding quidz.Sim.build_book quidz.Sim.Batches.build_deliveries quidz.Sim.Batches.deliveries
builds = refl

-- Every body is one that both providers' adapters can name.
abbrev both : Fields
both = field "id" (str "evt_1") (item "2024-05-01")

abbrev reader : Python
reader = record python { loads = λ _. ok (obj both) }

reader-Readable : (raw : List ℕ) → Readable (reader.loads raw)
reader-Readable raw = record { holds = refl }

abbrev named_by : Provider → String
named_by stripe = "evt_1"
named_by adyen = "psp1:AUTHORISATION"

identity_of-named_by : (p : Provider) → identity_of p both ≡ ok (named_by p)
unfolding identity_of require_str get
identity_of-named_by stripe = refl
identity_of-named_by adyen = refl

abbrev decides : {A : Type 0} → Result A → Bool
decides (ok a) = true
decides (raise e) = is_instance e signature_error

decides-Decides : {A : Type 0} (r : Result A) → decides r ≡ true → Decides r
decides-Decides (ok a) h = tt
decides-Decides (raise e) h = h

abbrev verified : Provider → Delivery → Bool
verified stripe d =
    decides (verify_stripe provider.crypto d.raw d.headers stripe_secrets 0 tolerance_seconds)
verified adyen d = decides (
    verify_adyen provider.crypto both (signature_of reader provider.crypto both) adyen_hmac_key_hex)

verified-Verifies :
    (p : Provider) (d : Delivery)
    → verified p d ≡ true
    → Verifies reader provider.crypto stripe_secrets adyen_hmac_key_hex p d both
verified-Verifies stripe d h = decides-Decides _ h
verified-Verifies adyen d h = decides-Decides _ h

abbrev all_verified : List Delivery → Bool
all_verified [] = true
all_verified (d ∷ ds) = verified d.provider d && all_verified ds

all_verified-AllReceivable :
    (ds : List Delivery)
    → all_verified ds ≡ true
    → AllReceivable reader provider.crypto stripe_secrets adyen_hmac_key_hex ds
unfolding payload_of
all_verified-AllReceivable [] h = tt
all_verified-AllReceivable (d ∷ ds) h = (
  record {
    payload = both;
    identity = named_by d.provider;
    parsed = refl;
    named = identity_of-named_by d.provider;
    verifies = verified-Verifies d.provider d (ground arith);
  },
  all_verified-AllReceivable ds (ground arith),
)

all_sent : all_verified sent ≡ true
unfolding quidz.Sim.book_payment quidz.Sim.build_book quidz.Sim.Batches.payment_deliveries
    quidz.Sim.Batches.build_deliveries quidz.Sim.Batches.deliveries
    quidz.Sim.Deliveries.signature_header quidz.Sim.Deliveries.stripe_delivery
    quidz.Sim.Deliveries.adyen_delivery quidz.Signatures.header quidz.Signatures.canonical_timestamp
    quidz.Signatures.parse_stripe_signature_header quidz.Signatures.verify_stripe
    quidz.Signatures.verify_adyen quidz.Dlq.classify_by
all_sent = refl

both-fits : (p : Provider) (raw : List ℕ) → fits reader p raw ≡ true
unfolding payload_of get
both-fits stripe raw = refl
both-fits adyen raw = refl

sent-AllBodies : (ds : List Delivery) → AllBodies (fits reader) ds
sent-AllBodies [] = tt
sent-AllBodies (d ∷ ds) = (both-fits d.provider d.raw, sent-AllBodies ds)

run_demo-Ended_example :
    (outcome : Outcome Fields) × (final : Db) × (run_demo reader random rng provider
        (λ _. "2026-08-19")
        codec
        json
        (pos 0)
        "happy"
        []
        (closed empty)
      ≡ (ok outcome, closed final))
run_demo-Ended_example =
    run_demo-Ended reader random rng provider (λ _. "2026-08-19") codec json (pos 0) "happy"
      reader-Readable [] empty tt tt (ok-ok_of [] batch builds)
      (all_verified-AllReceivable sent all_sent) (sent-AllBodies sent)
