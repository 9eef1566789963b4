-- ===== src/Sim/Deliveries.antt =====
-- The signed deliveries of the synthetic provider (src/quidz/sim.py).
use Prim.Native.String.{◌++◌ as append}
use quidz.Prelude.{
  ℕ, ◌+◌, ◌/◌, ◌%◌, String, Bool, ◌&&◌, Option, none, some, List, [], ◌∷◌, map, ◌==◌, if◌then◌else◌,
}
use mathlib.Core.List.{reverse}
use quidz.Prelude.Int.{pos}
use quidz.Event.{stripe, adyen}
use quidz.Events.{ticks_per_second}
use quidz.Python.{Value, Fields, int, str, obj, end, field, get}
use quidz.Signatures.{Crypto, signed_payload, adyen_signing_string}
use quidz.Sim.{Delivery, Booked}

-- What signing uses besides the functions of verification.
pub record Signer : Type 0 where
  pub crypto : Crypto
  -- `bytes.hex`, `base64.b64encode(...).decode()` and `json.dumps(..., sort_keys=True).encode()`.
  pub hexdigest : List ℕ → String
  pub b64encode : List ℕ → String
  pub dumps : Fields → List ℕ
  -- `base64.b32encode(sha256(text))`, its first 16 characters.
  pub b32_digest : String → String
  -- `datetime.fromtimestamp(seconds, UTC).isoformat()`.
  pub iso : ℕ → String
  -- `bytes.find` of the amount's key: the position, if there is one.
  pub find_amount : List ℕ → Option ℕ

-- `",".join(...)`
abbrev pub join_comma : List String → String
join_comma [] = ""
join_comma (s ∷ []) = s
join_comma (s ∷ t ∷ rest) = append s (append "," (join_comma (t ∷ rest)))

abbrev stable_from : (String → Bool) → ℕ → String → String
stable_from isdigit index String.[] = ""
stable_from isdigit index (String.◌∷◌ c s) =
    let rest = stable_from isdigit (index + 1) s in
    if index % 4 == 0 && isdigit (String.◌∷◌ c "") then append "A" rest else String.◌∷◌ c rest

module _ (signer : Signer) (secrets : List (List ℕ)) (hmac_key : List ℕ) (started_at : ℕ) where
  open signer use {crypto, hexdigest, b64encode, dumps, b32_digest, iso}
  open crypto use {print_int, digest, encode, isdigit, lower}

  -- `_stable_token`
  unfoldable pub stable_token : String → String
  stable_token material = stable_from isdigit 0 (b32_digest material)

  abbrev pub signature_part : List ℕ → List ℕ → String
  signature_part signed secret = append "v1=" (hexdigest (digest secret signed))

  -- The value of the header: the timestamp, and a signature for each active secret, newest last.
  unfoldable pub signature_header : ℕ → List ℕ → String
  signature_header timestamp raw = join_comma (
      append "t=" (print_int timestamp)
      ∷ map (signature_part (signed_payload crypto timestamp raw)) (reverse secrets))

  -- `str(obj["id"])`
  abbrev id_text : Value → String
  id_text (str s) = s
  id_text v = crypto.to_str v

  -- `int(self.started_at) if signed_at is None else signed_at`
  abbrev signing_time : Option ℕ → ℕ
  signing_time none = started_at / ticks_per_second
  signing_time (some signed_at) = signed_at

  -- `_stripe`
  unfoldable pub stripe_delivery : String → ℕ → Fields → String → Option ℕ → Delivery
  stripe_delivery event_type created carried salt signed_at =
      let material = append event_type (
        append ":" (
          append (id_text (get carried "id"))
            (append ":" (append (print_int created) (append ":" salt))))) in
      let event_id = append "evt_" (stable_token material) in
      let raw = dumps (
        field "id" (str event_id) (
          field "type" (str event_type) (
            field "created" (int (pos created))
              (field "data" (obj (field "object" (obj carried) end)) end)))) in
      record {
        provider = stripe;
        identity = event_id;
        raw = raw;
        headers = ("Stripe-Signature", signature_header (signing_time signed_at) raw) ∷ [];
      }

  -- `_adyen_signature`
  unfoldable pub adyen_signature : List String → String
  adyen_signature fields = b64encode (digest hmac_key (encode (adyen_signing_string crypto fields)))

  abbrev merchant_account : String
  merchant_account = "QUIDZ_SYNTHETIC"

  -- `_adyen`
  unfoldable pub adyen_delivery : Booked → String → String → ℕ → ℕ → String → Delivery
  adyen_delivery booked psp event_code minor created original_reference =
      let signature = adyen_signature (
        psp
        ∷ original_reference
        ∷ merchant_account
        ∷ booked.payment_id
        ∷ print_int minor
        ∷ booked.currency
        ∷ event_code
        ∷ "true"
        ∷ []) in
      let amount = field "value" (int (pos minor)) (field "currency" (str booked.currency) end) in
      let item = field "pspReference" (str psp) (
        field "originalReference" (str original_reference) (
          field "merchantAccountCode" (str merchant_account) (
            field "merchantReference" (str booked.payment_id) (
              field "amount" (obj amount) (
                field "eventCode" (str event_code) (
                  field "success" (str "true") (
                    field "eventDate" (str (iso created)) (
                      field "paymentMethod" (str "visa") (
                        field "additionalData" (obj (field "hmacSignature" (str signature) end))
                          end))))))))) in
      record {
        provider = adyen;
        identity = append psp (append ":" event_code);
        raw = dumps item;
        headers = [];
      }
