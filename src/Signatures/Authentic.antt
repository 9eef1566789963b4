-- ===== src/Signatures/Authentic.antt =====
-- What a Stripe delivery that passes `verify_stripe` of src/quidz/verify.py has shown, said of the
-- parts of its header and of the digest, without the code's own parser and tests.
use Prim.Native.String.{◌++◌ as append}
use quidz.Prelude.{
  ℕ, ◌+◌, ◌*◌, ◌≤◌, String, str_eq, eq_iff, true, false, ◌≡◌, refl, sym, ap, ◌∙◌, Option,
  Option-cases, none, some, List, [], ◌∷◌, ◌++◌, ◌⊎◌, inl, inr, Bool-cases, arith,
}
use quidz.Prelude.Among.{Among, first, later, Among-append, any-Among}
use mathlib.Core.Path.{subst}
use quidz.Prelude.Int.{ℤ, pos, negsuc}
use quidz.Errors.{ok, >>=-eq-ok, ok_value}
use quidz.Signatures.{
  Crypto, split, partition, header, scan_part, scan, canonical_timestamp, nonempty,
  parse_stripe_signature_header, same_bytes, given, signed_payload, too_old, verify_stripe,
}
use quidz.Signatures.Stripe.{Signed, verify_stripe-Signed}

same_bytes-eq : (a b : List ℕ) → same_bytes a b ≡ true → a ≡ b
same_bytes-eq [] [] h = refl
same_bytes-eq [] (y ∷ ys) h = cc
same_bytes-eq (x ∷ xs) [] h = cc
same_bytes-eq (x ∷ xs) (y ∷ ys) h =
    let head : x ≡ y = ground arith in
    let tail : same_bytes xs ys ≡ true = ground arith in cc (head, same_bytes-eq xs ys tail)

module _ (crypto : Crypto) where
  open crypto use {strip, isdigit, parse_int, print_int, encode, fromhex, digest}

  given-eq :
      (expected : List ℕ) (o : Option (List ℕ)) → given crypto expected o ≡ true → o ≡ some expected
  given-eq expected none h = cc
  given-eq expected (some bytes) h = ap some (sym (same_bytes-eq expected bytes h))

  -- One of these parts of a header has this scheme and this value.
  pub record HasPart (parts : List String) (scheme raw : String) : Type 0 where
    pub part : String
    pub among : Among part parts
    pub reads : partition b'=' (strip part) ≡ some (scheme, raw)

  further :
      {parts : List String} {part scheme raw : String}
      → HasPart parts scheme raw
      → HasPart (part ∷ parts) scheme raw
  further h = record { part = h.part; among = later h.among; reads = h.reads }

  nearest :
      {parts : List String} (part : String) {scheme raw : String}
      → partition b'=' (strip part) ≡ some (scheme, raw)
      → HasPart (part ∷ parts) scheme raw
  nearest part h = record { part = part; among = first; reads = h }

  stamp-part :
      (o : Option (String × String)) (s : Option String × List String) {t : String}
      → (scan_part crypto o s).0 ≡ some t
      → (s.0 ≡ some t) ⊎ (o ≡ some ("t", t))
  stamp-part none s h = inl h
  stamp-part (some (scheme, raw)) (timestamp, signatures) {t} h =
      elim (Bool-cases (str_eq scheme "t")) [
        | inl k ↦
            (let h' = rw k at h in
              let same : raw ≡ t = cc in inr (rw ((eq_iff scheme "t").0 k, same) refl))
        | inr k ↦
            (let h' = rw k at h in
              elim (Bool-cases (str_eq scheme "v1")) [
                | inl v ↦ inl (rw v at h')
                | inr v ↦ inl (rw v at h')
              ])
      ]

  offered-part :
      (o : Option (String × String)) (s : Option String × List String) {c : String}
      → Among c (scan_part crypto o s).1
      → Among c s.1 ⊎ (o ≡ some ("v1", c))
  offered-part none s h = inl h
  offered-part (some (scheme, raw)) (timestamp, signatures) {c} h =
      elim (Bool-cases (str_eq scheme "t")) [
        | inl k ↦ inl (rw k at h)
        | inr k ↦
            (let h' = rw k at h in
              elim (Bool-cases (str_eq scheme "v1")) [
                | inr v ↦ inl (rw v at h')
                | inl v ↦ elim (Among-append signatures raw (rw v at h')) [
                  | inl m ↦ inl m
                  | inr e ↦ inr (rw ((eq_iff scheme "v1").0 v, e) refl)
                ]
              ])
      ]

  scan-stamp :
      (parts : List String) (s : Option String × List String) {t : String}
      → (scan crypto parts s).0 ≡ some t
      → (s.0 ≡ some t) ⊎ HasPart parts "t" t
  scan-stamp [] s h = inl h
  scan-stamp (part ∷ parts) s h =
      elim (scan-stamp parts (scan_part crypto (partition b'=' (strip part)) s) h) [
        | inr p ↦ inr (further p)
        | inl k ↦ elim (stamp-part (partition b'=' (strip part)) s k) [
          | inl m ↦ inl m
          | inr e ↦ inr (nearest part e)
        ]
      ]

  scan-offered :
      (parts : List String) (s : Option String × List String) {c : String}
      → Among c (scan crypto parts s).1
      → Among c s.1 ⊎ HasPart parts "v1" c
  scan-offered [] s h = inl h
  scan-offered (part ∷ parts) s h =
      elim (scan-offered parts (scan_part crypto (partition b'=' (strip part)) s) h) [
        | inr p ↦ inr (further p)
        | inl k ↦ elim (offered-part (partition b'=' (strip part)) s k) [
          | inl m ↦ inl m
          | inr e ↦ inr (nearest part e)
        ]
      ]

  -- The header of the request is there and is separated by commas. One part gives the timestamp in
  -- its canonical digits. Another part is a v1 signature: in hexadecimal, the digest under one of
  -- the secrets of the timestamp, a dot and exactly these bytes.
  pub record Authentic (raw : List ℕ) (headers : List (String × String)) (secrets : List (List ℕ))
      (timestamp : ℕ) : Type 0 where
    pub value : String
    pub secret : List ℕ
    pub signature : String
    pub present : header crypto headers "Stripe-Signature" ≡ some value
    pub stamped : HasPart (split b',' value) "t" (print_int timestamp)
    pub digits : parse_int (print_int timestamp) ≡ some timestamp
    pub known : Among secret secrets
    pub offered : HasPart (split b',' value) "v1" signature
    pub signs :
        fromhex signature ≡ some (digest secret (encode (append (print_int timestamp) ".") ++ raw))

  canonical_timestamp-ok :
      (o : Option String) {n : ℕ}
      → canonical_timestamp crypto o ≡ ok n
      → (o ≡ some (print_int n)) × (parse_int (print_int n) ≡ some n)
  unfolding canonical_timestamp
  canonical_timestamp-ok none h = cc
  canonical_timestamp-ok (some stamp) {n} h = elim (Bool-cases (isdigit stamp)) [
    | inr k ↦ (let h' = rw k at h in cc)
    | inl k ↦
        (let h₁ = rw k at h in
          elim (Option-cases (parse_int stamp)) [
            | inl v ↦ (let h₂ = rw v at h₁ in cc)
            | inr (m, v) ↦
                (let h₂ = rw v at h₁ in
                  elim (Bool-cases (str_eq stamp (print_int m))) [
                    | inr e ↦ (let h₃ = rw e at h₂ in cc)
                    | inl e ↦
                        (let same : m ≡ n = ok_value (rw e at h₂) in
                          let printed = (eq_iff stamp (print_int m)).0 e in
                          let canonical = printed ∙ ap print_int same in
                          (ap some canonical, ap parse_int (sym canonical) ∙ v ∙ ap some same))
                  ])
          ])
  ]

  parse-ok :
      (value : String) {n : ℕ} {candidates : List String}
      → parse_stripe_signature_header crypto value ≡ ok (n, candidates)
      → (canonical_timestamp crypto (scan crypto (split b',' value) (none, [])).0 ≡ ok n)
        × ((scan crypto (split b',' value) (none, [])).1 ≡ candidates)
  unfolding parse_stripe_signature_header
  parse-ok value {n} {candidates} h =
      let scanned = scan crypto (split b',' value) (none, []) in
      let (m, made, h₁) = >>=-eq-ok (canonical_timestamp crypto scanned.0) _ h in
      elim (Bool-cases (nonempty crypto scanned.1)) [
        | inr k ↦ (let h₂ = rw k at h₁ in cc)
        | inl k ↦
            (let same : (m, scanned.1) ≡ (n, candidates) = ok_value (rw k at h₁) in
              (made ∙ ap (λ p. ok p.0) same, ap (λ p. p.1) same))
      ]

  Signed-Authentic :
      (raw : List ℕ) (headers : List (String × String)) (secrets : List (List ℕ)) {n : ℕ}
      → Signed crypto raw headers secrets n
      → Authentic raw headers secrets n
  Signed-Authentic raw headers secrets {n} d =
      let (canonical, collected) = parse-ok d.value d.parsed in
      let (stamp, digits) = canonical_timestamp-ok _ canonical in
      let (secret, known, matched) = any-Among _ secrets d.signed in
      let (signature, among, equal) = any-Among _ d.candidates matched in
      record {
        value = d.value;
        secret = secret;
        signature = signature;
        present = d.present;
        stamped = elim (scan-stamp (split b',' d.value) (none, []) stamp) [
          | inl k ↦ cc
          | inr p ↦ p
        ];
        digits = digits;
        known = known;
        offered =
            elim (scan-offered (split b',' d.value) (none, [])
              (subst (Among signature) (sym collected) among)) [ inl k ↦ elim k [ ] | inr p ↦ p ];
        signs = given-eq (digest secret (signed_payload crypto n raw)) (fromhex signature) equal;
      }

  recent :
      (now timestamp : ℕ) (tolerance : ℤ)
      → too_old crypto now timestamp tolerance ≡ false
      → (seconds : ℕ) × (tolerance ≡ pos seconds) × (now ≤ (timestamp + seconds) * 1000000)
  recent now timestamp (pos t) h = (t, refl, ground arith)
  recent now timestamp (negsuc t) h = cc

-- A Stripe delivery passes only when it is authentic and recent. The header is there, and one of
-- its parts is the returned timestamp in canonical digits. Another part is a v1 signature that
-- decodes to the digest, under one of the secrets, of that timestamp, a dot and exactly the bytes
-- received. The clock, in microseconds, is past the timestamp by no more than the tolerance, which
-- is a number of seconds.
pub verify_stripe-Authentic :
    (crypto : Crypto) (raw : List ℕ) (headers : List (String × String)) (secrets : List (List ℕ))
    (now : ℕ) (tolerance : ℤ) {n : ℕ}
    → verify_stripe crypto raw headers secrets now tolerance ≡ ok n
    → Authentic crypto raw headers secrets n
      × ((seconds : ℕ) × (tolerance ≡ pos seconds) × (now ≤ (n + seconds) * 1000000))
verify_stripe-Authentic crypto raw headers secrets now tolerance {n} h =
    let (d, young) = verify_stripe-Signed crypto raw headers secrets now tolerance h in
    (Signed-Authentic crypto raw headers secrets d, recent crypto now n tolerance young)
