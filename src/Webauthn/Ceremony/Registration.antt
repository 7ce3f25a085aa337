-- ===== src/Webauthn/Ceremony/Registration.antt =====
-- The conditions under which `verify_registration` passes.
use mathlib.Core.Path.{subst}
use quosh.Webauthn.Cbor.{
  as_bytes, as_text, text_is, map_get, then_as, read_cbor, Cbor, Entries, map,
}
use quosh.Base.{
  ℕ, ◌≡◌, refl, ap, ◌∙◌, ◌↔◌, Bool, true, false, not, Option, none, some, List, arith, length, take,
  drop, slice,
}
use quosh.Webauthn.{and_then, has_flag, Result, attestation_format, err, ok}
use quosh.Webauthn.Ceremony.{
  create_type, fmt_key, none_text, auth_data_key, flag_at, check_client_data, parse_credential,
  credential_of, parse_auth_data, check_auth_data_flags, verify_p256_point, registered_of,
  check_rp_id, check_attested, check_object, verify_registration, Registered, Crypto, AuthData,
}
use quosh.Webauthn.Ceremony.Accepts.{
  and_then-eq-ok, bail_if-eq-ok, not-eq-false, check_client_data-Made, Made-check_client_data, Made,
}
use quosh.Webauthn.Ceremony.Assertion.{
  parse_auth_data-eq-ok, parse_auth_data-parsed_as, checked-Says, Says-check_auth_data_flags, Says,
}
use quosh.Bytes.{of_be}
use quosh.Devices.Search.{same_iff}

abbrev pub IsPoint : List ℕ → Type 0
IsPoint key = (length key ≡ 65) × (of_be (take 1 key) ≡ 4)

verify_p256_point_iff : (key : List ℕ) → (verify_p256_point key ≡ ok tt) ↔ IsPoint key
unfolding verify_p256_point
verify_p256_point_iff key = (λ h. ground arith, λ h. ground arith)

text_is_iff : (key : List ℕ) (o : Option (List ℕ)) → (text_is key o ≡ true) ↔ (o ≡ some key)
text_is_iff key none = (λ h. cc, λ h. cc)
text_is_iff key (some s) = (λ h. ap some ((same_iff s key).0 h), λ h. (same_iff s key).1 (cc))

-- The credential is there, and its key is a point.
registered_of-eq-ok :
    (ad : AuthData) (c : Option (List ℕ × List ℕ)) {r : Registered}
    → registered_of ad c ≡ ok r
    → (c ≡ some (r.credential_id, r.public_key))
      × IsPoint r.public_key
      × (ad.sign_count ≡ r.sign_count)
registered_of-eq-ok ad none h = cc
registered_of-eq-ok ad (some (id, key)) {r} h =
    let (t, valid, e) = and_then-eq-ok (verify_p256_point key) (λ valid. ok built) h in
    let p : built ≡ r = ap (value_or built) e in
    (
      ap (λ (x : Registered). some (x.credential_id, x.public_key)) p,
      subst (λ (x : Registered). IsPoint x.public_key) p ((verify_p256_point_iff key).0 valid),
      ap (λ (x : Registered). x.sign_count) p,
    )
  where
    built : Registered
    built = record { credential_id = id; public_key = key; sign_count = ad.sign_count }

    value_or : Registered → Result Registered → Registered
    value_or d (ok x) = x
    value_or d (err e) = d

-- A credential is there only where the flag says so.
credential_of-some :
    (b : Bool) (p : List ℕ) {c : List ℕ × List ℕ}
    → credential_of b p ≡ ok (some c)
    → (b ≡ true) × (parse_credential p ≡ ok c)
credential_of-some false p h = cc
credential_of-some true p h =
    let (c, parses, e) = and_then-eq-ok (parse_credential p) (λ c. ok (some c)) h in
    (refl, rw parses (cc))

module _ (crypto : Crypto) (rp_id origin challenge client_json : List ℕ) where
  -- The conditions of a registration of `r` by this object.
  pub record Registers (attestation_object : List ℕ) (r : Registered) : Type 0 where
    pub made : Made crypto client_json create_type origin challenge
    pub entries : Entries
    pub rest : List ℕ
    pub decoded : read_cbor attestation_object ≡ ok (map entries, rest)
    pub unattested : then_as (map_get entries fmt_key) as_text ≡ some none_text
    pub raw : List ℕ
    pub auth_data : then_as (map_get entries auth_data_key) as_bytes ≡ some raw
    pub says : Says raw (crypto.sha256 rp_id)
    pub attested : has_flag (of_be (slice raw 32 33)) flag_at ≡ true
    pub credential : parse_credential (drop 37 raw) ≡ ok (r.credential_id, r.public_key)
    pub point : IsPoint r.public_key
    pub counter : of_be (slice raw 33 37) ≡ r.sign_count

  Registers-verify_registration :
      (attestation_object : List ℕ) (r : Registered)
      → Registers attestation_object r
      → verify_registration crypto rp_id origin challenge client_json attestation_object ≡ ok r
  unfolding verify_registration check_attested
  Registers-verify_registration attestation_object r g =
      rw (Made-check_client_data crypto _ _ _ _ g.made) (
        rw g.decoded (
          rw g.unattested (
            rw g.auth_data (
              rw
                (parse_auth_data-parsed_as g.raw {c = some (r.credential_id, r.public_key)}
                  g.says.long (rw g.attested (rw g.credential)))
                (rw
                  (Says-check_auth_data_flags crypto rp_id origin challenge client_json g.raw
                    g.says)
                  (rw ((same_iff _ _).1 g.says.party)
                    (rw ((verify_p256_point_iff _).1 g.point) (rw g.counter))))))))

  -- What the data of an attested object went through.
  pub record Attests (raw : List ℕ) (r : Registered) : Type 0 where
    pub says : Says raw (crypto.sha256 rp_id)
    pub attested : has_flag (of_be (slice raw 32 33)) flag_at ≡ true
    pub credential : parse_credential (drop 37 raw) ≡ ok (r.credential_id, r.public_key)
    pub point : IsPoint r.public_key
    pub counter : of_be (slice raw 33 37) ≡ r.sign_count

  check_attested-Attests :
      (raw : List ℕ) (r : Registered)
      → check_attested crypto rp_id origin challenge client_json (some raw) ≡ ok r
      → Attests raw r
  unfolding check_attested
  check_attested-Attests raw r h =
      let (ad, parses, h2) = and_then-eq-ok (parse_auth_data raw) after_parse h in
      let (long, (c, well_formed, e)) = parse_auth_data-eq-ok raw parses in
      let (t2, flagged, h3) = and_then-eq-ok (check_auth_data_flags ad.flags) (after_flags ad) h2 in
      let (t3, hashed, h4) =
        and_then-eq-ok (hash_checked ad) (λ t. registered_of ad ad.credential) h3 in
      let (has, point, counter) = registered_of-eq-ok ad ad.credential h4 in
      let (attested, credential) =
        credential_of-some _ _
          (well_formed ∙ ap ok (ap (λ (x : AuthData). x.credential) e ∙ has)) in
      record {
        says =
            checked-Says crypto rp_id origin challenge client_json raw c long
              (ap (λ (x : AuthData). check_auth_data_flags x.flags) e ∙ flagged)
              (ap hash_checked e ∙ hashed);
        attested = attested;
        credential = credential;
        point = point;
        counter = ap (λ (x : AuthData). x.sign_count) e ∙ counter;
      }
    where
      hash_checked : AuthData → Result (Unit {0})
      hash_checked ad = check_rp_id crypto rp_id origin challenge client_json ad

      after_flags : AuthData → Unit {0} → Result Registered
      after_flags ad t = and_then (hash_checked ad) (λ t. registered_of ad ad.credential)

      after_parse : AuthData → Result Registered
      after_parse ad = and_then (check_auth_data_flags ad.flags) (after_flags ad)

  by_found :
      (o rest : List ℕ) (es : Entries) (found : Option (List ℕ)) (r : Registered)
      → Made crypto client_json create_type origin challenge
      → read_cbor o ≡ ok (map es, rest)
      → then_as (map_get es fmt_key) as_text ≡ some none_text
      → then_as (map_get es auth_data_key) as_bytes ≡ found
      → check_attested crypto rp_id origin challenge client_json found ≡ ok r
      → Registers o r
  unfolding check_attested
  by_found o rest es none r made decoded fmt e h = cc
  by_found o rest es (some raw) r made decoded fmt e h =
      let a = check_attested-Attests raw r h in
      record {
        made = made;
        entries = es;
        rest = rest;
        decoded = decoded;
        unattested = fmt;
        raw = raw;
        auth_data = e;
        says = a.says;
        attested = a.attested;
        credential = a.credential;
        point = a.point;
        counter = a.counter;
      }

  check_object-Registers :
      (attestation_object : List ℕ) (rest : List ℕ) (c : Cbor) (r : Registered)
      → Made crypto client_json create_type origin challenge
      → read_cbor attestation_object ≡ ok (c, rest)
      → check_object crypto rp_id origin challenge client_json c ≡ ok r
      → Registers attestation_object r
  unfolding check_object
  check_object-Registers o rest (map es) r made decoded h =
      let (fmt, h1) =
        bail_if-eq-ok (not (text_is none_text (then_as (map_get es fmt_key) as_text)))
          attestation_format (check_attested crypto rp_id origin challenge client_json found) h in
      by_found o rest es found r made decoded ((text_is_iff _ _).0 (not-eq-false _ fmt)) refl h1
    where
      found : Option (List ℕ)
      found = then_as (map_get es auth_data_key) as_bytes
  check_object-Registers o rest _ r made decoded h = cc

  verify_registration-Registers :
      (attestation_object : List ℕ) (r : Registered)
      → verify_registration crypto rp_id origin challenge client_json attestation_object ≡ ok r
      → Registers attestation_object r
  unfolding verify_registration
  verify_registration-Registers o r h =
      let (t, made, h1) = and_then-eq-ok checked (λ t. and_then (read_cbor o) object) h in
      let (att, decoded, h2) = and_then-eq-ok (read_cbor o) object h1 in
      check_object-Registers o att.1 att.0 r
        (check_client_data-Made crypto client_json create_type origin challenge made) decoded h2
    where
      checked : Result (Unit {0})
      checked = check_client_data crypto client_json create_type origin challenge

      object : Cbor × List ℕ → Result Registered
      object att = check_object crypto rp_id origin challenge client_json att.0

  -- A registration passes, with its credential, its key and its counter, exactly when its client
  -- data was made for `webauthn.create`, this origin and this challenge and is not of another
  -- origin, its object is a CBOR map of the format "none", the data in it has its 37 bytes, names
  -- the relying party by hash, says that the user was present and verified, and carries that
  -- counter and a credential that parses as this id and this key, and the key has the form of an
  -- uncompressed point: 65 bytes of which the first is 4. That the point is on the curve is no
  -- condition.
  pub verify_registration_iff :
      (attestation_object : List ℕ) (r : Registered)
      → (verify_registration crypto rp_id origin challenge client_json attestation_object ≡ ok r)
        ↔ Registers attestation_object r
  verify_registration_iff o r =
      (verify_registration-Registers o r, Registers-verify_registration o r)
