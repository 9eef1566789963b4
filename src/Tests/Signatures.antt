-- ===== src/Tests/Signatures.antt =====
-- A signed delivery, a forged one, and two notifications with one signing string
-- (src/quidz/verify.py and src/quidz/inbox.py).
use quidz.Prelude.{ℕ, ◌+◌, ◌*◌, ◌≤◌, String, ◌≡◌, refl, List, [], ◌∷◌}
use quidz.Prelude.Int.{pos}
use quidz.Errors.{ok, raise, bad_signature}
use quidz.Python.{get}
use quidz.Store.{empty}
use quidz.Store.Transactions.{closed}
use quidz.Signatures.{
  header, canonical_timestamp, parse_stripe_signature_header, verify_stripe, verify_adyen,
  adyen_signing_fields,
}
use quidz.Signatures.Authentic.{Authentic, verify_stripe-Authentic}
use quidz.Signatures.Escaping.{adyen_signing_string_unambiguous}
use quidz.Inbox.{payload_of}
use quidz.Inbox.Receive.{receive_stripe, receive_adyen, signature_of}
use quidz.Inbox.Receive.Unsigned.{Refused, receive_stripe-Refused, receive_adyen-Refused}
use quidz.Samples.{python, item, crypto}

abbrev headers : List (String × String)
headers = ("Stripe-Signature", "t=100,v0=ff,v1=01") ∷ []

signed : verify_stripe crypto [] headers ((1 ∷ []) ∷ []) 101000000 (pos 300) ≡ ok 100
unfolding verify_stripe header parse_stripe_signature_header canonical_timestamp
signed = refl

forged : verify_stripe crypto [] headers ((9 ∷ []) ∷ []) 101000000 (pos 300) ≡ raise bad_signature
unfolding verify_stripe header parse_stripe_signature_header canonical_timestamp
forged = refl

verify_stripe-Authentic_example :
    Authentic crypto [] headers ((1 ∷ []) ∷ []) 100
    × ((seconds : ℕ) × (pos 300 ≡ pos seconds) × (101000000 ≤ (100 + seconds) * 1000000))
verify_stripe-Authentic_example =
    verify_stripe-Authentic crypto [] headers ((1 ∷ []) ∷ []) 101000000 (pos 300) signed

adyen_signing_string_unambiguous_example :
    adyen_signing_fields crypto (item "2024-05-01")
    ≡ adyen_signing_fields crypto (item "2024-05-02")
unfolding adyen_signing_fields get
adyen_signing_string_unambiguous_example =
    adyen_signing_string_unambiguous crypto (item "2024-05-01") (item "2024-05-02") refl

receive_stripe-Refused_example :
    Refused bad_signature (closed empty) (
      receive_stripe python crypto [] headers ((9 ∷ []) ∷ []) 101000000 30 (pos 300) (closed empty))
receive_stripe-Refused_example =
    receive_stripe-Refused python crypto [] headers ((9 ∷ []) ∷ []) 101000000 30 (pos 300)
      (closed empty) forged

parsed : payload_of python (1 ∷ []) ≡ ok (item "2024-05-01")
unfolding payload_of
parsed = refl

forged_item :
    verify_adyen crypto (item "2024-05-01") (signature_of python crypto (item "2024-05-01")) "01"
    ≡ raise bad_signature
unfolding verify_adyen
forged_item = refl

receive_adyen-Refused_example :
    Refused bad_signature
      (closed empty)
      (receive_adyen python crypto (1 ∷ []) "01" 5 30 (closed empty))
receive_adyen-Refused_example =
    receive_adyen-Refused python crypto (1 ∷ []) "01" 5 30 (closed empty) parsed forged_item
