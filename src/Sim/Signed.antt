-- ===== src/Sim/Signed.antt =====
-- What the synthetic provider signs, the front door verifies.
use Prim.Native.Char.{Char}
use Prim.Native.String.{◌++◌ as append}
use mathlib.Core.Path.{subst}
use quidz.Signatures.Stripe.{verify_stripe-eq}
use mathlib.Core.List.{reverse, reverse-cons, append-nil, append_assoc, map-append}
use quidz.Prelude.{
  ℕ, String, eq_iff, ◌≡◌, refl, sym, ap, ◌∙◌, Bool, true, false, ◌||◌, Option, none, some, List, [],
  ◌∷◌, ◌++◌, map, any, any-append, arith,
}
use quidz.Prelude.Int.{ℤ, pos, leb_ℤ}
use quidz.Errors.{ok}
use quidz.Signatures.{
  split, partition, same_bytes, header, scan, scan_part, canonical_timestamp,
  parse_stripe_signature_header, given, matches, signed_payload, too_old, verify_stripe,
}
use quidz.Signatures.Escaping.{cons_append, nil_append}
use quidz.Signatures.Splitting.{has_char, split-append, split-plain}
use quidz.Sim.Deliveries.{Signer, join_comma, signature_header}

same_bytes_refl : (a : List ℕ) → same_bytes a a ≡ true
same_bytes_refl [] = refl
same_bytes_refl (x ∷ xs) = ground (arith, same_bytes_refl xs)

abbrev pub AllFree : List String → Type 0
AllFree [] = Unit {0}
AllFree (s ∷ ss) = (has_char b',' s ≡ false) × AllFree ss

-- Parts without a comma are what splitting their join gives.
split-join_comma :
    (s : String) (ss : List String) → AllFree (s ∷ ss) → split b',' (join_comma (s ∷ ss)) ≡ s ∷ ss
split-join_comma s [] (h, _) = split-plain b',' s h
split-join_comma s (t ∷ rest) (h, hs) =
    split-append b',' s "," (join_comma (t ∷ rest)) h refl
    ∙ ap (λ parts. s ∷ parts) (split-join_comma t rest hs)

abbrev equals : Char
equals = "="

-- A scheme of one or two letters before the first equals sign.
partition-t : (v : String) → partition b'=' (append "t=" v) ≡ some ("t", v)
partition-t v = ap (partition b'=') (
    cons_append "t" "=" v
    ∙ ap (String.◌∷◌ "t") (cons_append equals "" v ∙ ap (String.◌∷◌ equals) (nil_append v)))

partition-v1 : (v : String) → partition b'=' (append "v1=" v) ≡ some ("v1", v)
partition-v1 v = ap (partition b'=') (
    cons_append "v" "1=" v
    ∙ ap (String.◌∷◌ "v") (
        cons_append "1" "=" v
        ∙ ap (String.◌∷◌ "1") (cons_append equals "" v ∙ ap (String.◌∷◌ equals) (nil_append v))))

or_true : (b : Bool) → (b || (true || false)) ≡ true
or_true true = refl
or_true false = refl

module _ (signer : Signer) where
  open signer use {crypto, hexdigest}
  open crypto use {strip, isdigit, parse_int, print_int, fromhex, digest, lower}

  -- A number is read back as it was printed, in digits.
  pub record ReadsNumber (n : ℕ) : Type 0 where
    pub trimmed : strip (append "t=" (print_int n)) ≡ append "t=" (print_int n)
    pub plain : has_char b',' (append "t=" (print_int n)) ≡ false
    pub digits : isdigit (print_int n) ≡ true
    pub read : parse_int (print_int n) ≡ some n

  -- So are the bytes of a digest, in hexadecimal.
  pub record ReadsDigest (d : List ℕ) : Type 0 where
    pub trimmed : strip (append "v1=" (hexdigest d)) ≡ append "v1=" (hexdigest d)
    pub plain : has_char b',' (append "v1=" (hexdigest d)) ≡ false
    pub read : fromhex (hexdigest d) ≡ some d

  scan_v1 :
      (v : String) (ps : List String) (t : Option String) (found : List String)
      → strip (append "v1=" v) ≡ append "v1=" v
      → scan crypto (append "v1=" v ∷ ps) (t, found) ≡ scan crypto ps (t, found ++ v ∷ [])
  scan_v1 v ps t found h =
      ap (λ p. scan crypto ps (scan_part crypto (partition b'=' p) (t, found))) h
      ∙ ap (λ o. scan crypto ps (scan_part crypto o (t, found))) (partition-v1 v)

  scan_t :
      (v : String) (ps : List String) (t : Option String) (found : List String)
      → strip (append "t=" v) ≡ append "t=" v
      → scan crypto (append "t=" v ∷ ps) (t, found) ≡ scan crypto ps (some v, found)
  scan_t v ps t found h =
      ap (λ p. scan crypto ps (scan_part crypto (partition b'=' p) (t, found))) h
      ∙ ap (λ o. scan crypto ps (scan_part crypto o (t, found))) (partition-t v)

  module _ (signed : List ℕ) where
    abbrev pub AllRead : List (List ℕ) → Type 0
    AllRead [] = Unit {0}
    AllRead (secret ∷ rest) = ReadsDigest (digest secret signed) × AllRead rest

    abbrev part : List ℕ → String
    part secret = append "v1=" (hexdigest (digest secret signed))

    abbrev candidate : List ℕ → String
    candidate secret = hexdigest (digest secret signed)

    AllRead-free : (xs : List (List ℕ)) → AllRead xs → AllFree (map (part) xs)
    AllRead-free [] h = tt
    AllRead-free (x ∷ xs) (h, hs) = (h.plain, AllRead-free xs hs)

    scan-parts :
        (xs : List (List ℕ)) (t : Option String) (found : List String)
        → AllRead xs
        → scan crypto (map (part) xs) (t, found) ≡ (t, found ++ map (candidate) xs)
    scan-parts [] t found h = ap (λ z. (t, z)) (sym (append-nil found))
    scan-parts (x ∷ xs) t found (h, hs) =
        scan_v1 (candidate x) (map (part) xs) t found h.trimmed
        ∙ scan-parts xs t (found ++ candidate x ∷ []) hs
        ∙ ap (λ z. (t, z)) (append_assoc found (candidate x ∷ []) (map (candidate) xs))

    last_read :
        (ys : List (List ℕ)) (secret : List ℕ)
        → AllRead (ys ++ secret ∷ [])
        → ReadsDigest (digest secret signed)
    last_read [] secret (h, _) = h
    last_read (y ∷ ys) secret (_, h) = last_read ys secret h

    given_own :
        (secret : List ℕ)
        → ReadsDigest (digest secret signed)
        → given crypto (digest secret signed) (fromhex (candidate secret)) ≡ true
    given_own secret h = rw h.read (same_bytes_refl (digest secret signed))

    -- The last of the signatures is the one of the first secret.
    first-matches :
        (ys : List (List ℕ)) (secret : List ℕ)
        → AllRead (ys ++ secret ∷ [])
        → matches crypto signed (map (candidate) (ys ++ secret ∷ [])) secret ≡ true
    first-matches ys secret h =
        let p : String → Bool = λ c. given crypto (digest secret signed) (fromhex c) in
        ap (any p) (map-append (candidate) ys (secret ∷ []))
        ∙ any-append p (map (candidate) ys) (candidate secret ∷ [])
        ∙ rw (given_own secret (last_read ys secret h)) (or_true (any p (map (candidate) ys)))

  parse_header :
      (timestamp : ℕ) (signed : List ℕ) (x : List ℕ) (xs : List (List ℕ))
      → ReadsNumber timestamp
      → AllRead signed (x ∷ xs)
      → parse_stripe_signature_header crypto
          (join_comma (append "t=" (print_int timestamp) ∷ map (part signed) (x ∷ xs)))
        ≡ ok (timestamp, map (candidate signed) (x ∷ xs))
  unfolding parse_stripe_signature_header canonical_timestamp
  parse_header timestamp signed x xs n h =
      rw
        (
          split-join_comma (append "t=" (print_int timestamp)) (map (part signed) (x ∷ xs))
              (n.plain, AllRead-free signed (x ∷ xs) h),
          scan_t (print_int timestamp) (map (part signed) (x ∷ xs)) none [] n.trimmed,
          scan-parts signed (x ∷ xs) (some (print_int timestamp)) [] h,
          n.digits,
          n.read,
          (eq_iff (print_int timestamp) (print_int timestamp)).1 refl,
        )
        refl

  parse_signed :
      (timestamp : ℕ) (signed : List ℕ) (ys : List (List ℕ)) (secret : List ℕ)
      → ReadsNumber timestamp
      → AllRead signed (ys ++ secret ∷ [])
      → parse_stripe_signature_header crypto
          (join_comma (append "t=" (print_int timestamp) ∷ map (part signed) (ys ++ secret ∷ [])))
        ≡ ok (timestamp, map (candidate signed) (ys ++ secret ∷ []))
  parse_signed timestamp signed [] secret n h = parse_header timestamp signed secret [] n h
  parse_signed timestamp signed (y ∷ ys) secret n h =
      parse_header timestamp signed y (ys ++ secret ∷ []) n h

  module _ (raw : List ℕ) (secret : List ℕ) (rest : List (List ℕ)) (now timestamp : ℕ)
      (tolerance : ℤ) where
    headed : List (List ℕ) → List (String × String)
    headed xs =
        (
          "Stripe-Signature",
          join_comma (
              append "t=" (print_int timestamp)
              ∷ map (part (signed_payload crypto timestamp raw)) xs),
        )
        ∷ []

    headed-verifies :
        (xs ys : List (List ℕ))
        → xs ≡ ys ++ secret ∷ []
        → leb_ℤ tolerance (pos 0) ≡ false
        → ReadsNumber timestamp
        → AllRead (signed_payload crypto timestamp raw) xs
        → too_old crypto now timestamp tolerance ≡ false
        → verify_stripe crypto raw (headed xs) (secret ∷ rest) now tolerance ≡ ok timestamp
    unfolding header headed
    headed-verifies xs ys e tol n h fresh =
        let signed = signed_payload crypto timestamp raw in
        let h' = subst (AllRead signed) e h in
        rw e (
          verify_stripe-eq crypto raw (headed (ys ++ secret ∷ [])) (secret ∷ rest) now tolerance
            (join_comma (append "t=" (print_int timestamp) ∷ map (part signed) (ys ++ secret ∷ [])))
            tol refl
            (rw ((eq_iff (lower "Stripe-Signature") (lower "Stripe-Signature")).1 refl) refl)
          ∙ rw
              (
                parse_signed timestamp signed ys secret n h',
                first-matches signed ys secret h',
                fresh,
              )
              refl)

-- What the synthetic provider signs, the front door accepts: the header of a Stripe delivery that
-- was signed under a list of secrets, one of them at least, is verified against the same secrets
-- and the same bytes and gives back the time of signing, until the tolerance has passed. Texts of
-- numbers and digests are read back as they were printed, and hold neither commas nor spaces.
pub signature_header-verifies :
    (signer : Signer) (secret : List ℕ) (rest : List (List ℕ)) (hmac_key : List ℕ) (started_at : ℕ)
    (raw : List ℕ) (now timestamp : ℕ) (tolerance : ℤ)
    → leb_ℤ tolerance (pos 0) ≡ false
    → ReadsNumber signer timestamp
    → AllRead signer (signed_payload signer.crypto timestamp raw) (reverse (secret ∷ rest))
    → too_old signer.crypto now timestamp tolerance ≡ false
    → verify_stripe signer.crypto raw
        ((
          "Stripe-Signature",
          signature_header signer (secret ∷ rest) hmac_key started_at timestamp raw,
        )
          ∷ [])
        (secret ∷ rest)
        now
        tolerance
      ≡ ok timestamp
unfolding signature_header headed
signature_header-verifies signer secret rest hmac_key started_at raw now timestamp tolerance =
    headed-verifies signer raw secret rest now timestamp tolerance (reverse (secret ∷ rest))
      (reverse rest) (reverse-cons secret rest)
