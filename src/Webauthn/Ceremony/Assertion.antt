-- ===== src/Webauthn/Ceremony/Assertion.antt =====
-- The conditions under which `verify_assertion` passes.
use quosh.Base.{
  ℕ, ◌≤◌, ◌≡◌, refl, ap, ◌∙◌, ◌↔◌, Bool, true, false, not, Option, List, ◌++◌, ltb, le→ltb, ltb→le,
  length, drop, slice,
}
use quosh.Webauthn.{
  and_then, bail_if, has_flag, Result, auth_data_short, user_presence, user_verification,
  rp_id_hash, bad_signature, ok,
}
use quosh.Webauthn.Ceremony.{
  get_type, flag_up, flag_uv, flag_at, check_client_data, credential_of, parse_auth_data,
  check_auth_data_flags, check_rp_id, verify_assertion, Crypto, AuthData,
}
use quosh.Webauthn.Ceremony.Accepts.{
  and_then-eq-ok, bail_if-eq-ok, not-eq-false, check_client_data-Made, Made-check_client_data, Made,
}
use quosh.Bytes.{of_be}
use quosh.Devices.Search.{same, same_iff}

-- What the authenticator's bytes say: the hash of the relying party, that the user was there and
-- was verified, and the counter.
pub record Says (raw rp_hash : List ℕ) : Type 0 where
  pub long : 37 ≤ length raw
  pub party : slice raw 0 32 ≡ rp_hash
  pub present : has_flag (of_be (slice raw 32 33)) flag_up ≡ true
  pub verified : has_flag (of_be (slice raw 32 33)) flag_uv ≡ true

abbrev pub parsed_as : List ℕ → Option (List ℕ × List ℕ) → AuthData
parsed_as raw c = record {
  rp_hash = slice raw 0 32;
  flags = of_be (slice raw 32 33);
  sign_count = of_be (slice raw 33 37);
  credential = c;
}

pub parse_auth_data-eq-ok :
    (raw : List ℕ) {ad : AuthData}
    → parse_auth_data raw ≡ ok ad
    → (37 ≤ length raw)
      × ((c : Option (List ℕ × List ℕ)) × (credential_of
              (has_flag (of_be (slice raw 32 33)) flag_at)
              (drop 37 raw)
            ≡ ok c)
          × (parsed_as raw c ≡ ad))
unfolding parse_auth_data
parse_auth_data-eq-ok raw h =
    let (long, h1) =
      bail_if-eq-ok (ltb (length raw) 37) auth_data_short (and_then parsed build) h in
    let (c, parses, h2) = and_then-eq-ok parsed build h1 in (ltb→le _ _ long, (c, parses, cc))
  where
    parsed : Result (Option (List ℕ × List ℕ))
    parsed = credential_of (has_flag (of_be (slice raw 32 33)) flag_at) (drop 37 raw)

    build : Option (List ℕ × List ℕ) → Result AuthData
    build c = ok (parsed_as raw c)

pub parse_auth_data-parsed_as :
    (raw : List ℕ) {c : Option (List ℕ × List ℕ)}
    → 37 ≤ length raw
    → credential_of (has_flag (of_be (slice raw 32 33)) flag_at) (drop 37 raw) ≡ ok c
    → parse_auth_data raw ≡ ok (parsed_as raw c)
unfolding parse_auth_data
parse_auth_data-parsed_as raw long h = rw (le→ltb _ _ long) (rw h)

check_auth_data_flags_iff :
    (flags : ℕ)
    → (check_auth_data_flags flags ≡ ok tt)
      ↔ ((has_flag flags flag_up ≡ true) × (has_flag flags flag_uv ≡ true))
unfolding check_auth_data_flags
check_auth_data_flags_iff flags =
    (λ h. from_flags (has_flag flags flag_up) (has_flag flags flag_uv) h, λ h. rw (h.0) (rw (h.1)))
  where
    from_flags :
        (up uv : Bool)
        → bail_if (not up) user_presence (bail_if (not uv) user_verification (ok tt)) ≡ ok tt
        → (up ≡ true) × (uv ≡ true)
    from_flags true true h = (refl, refl)
    from_flags true false h = cc
    from_flags false uv h = cc

module _ (crypto : Crypto) (rp_id origin challenge client_json : List ℕ) where
  -- Both checks of the authenticator's data.
  pub checked-Says :
      (raw : List ℕ) (c : Option (List ℕ × List ℕ))
      → 37 ≤ length raw
      → check_auth_data_flags (parsed_as raw c).flags ≡ ok tt
      → check_rp_id crypto rp_id origin challenge client_json (parsed_as raw c) ≡ ok tt
      → Says raw (crypto.sha256 rp_id)
  checked-Says raw c long flagged hashed =
      let (up, uv) = (check_auth_data_flags_iff _).0 flagged in
      record {
        long = long;
        party = same_of (same (slice raw 0 32) (crypto.sha256 rp_id)) refl hashed;
        present = up;
        verified = uv;
      }
    where
      same_of :
          (b : Bool)
          → same (slice raw 0 32) (crypto.sha256 rp_id) ≡ b
          → bail_if (not b) rp_id_hash (ok tt) ≡ ok tt
          → slice raw 0 32 ≡ crypto.sha256 rp_id
      same_of true e h = (same_iff _ _).0 e
      same_of false e h = cc

  pub Says-check_auth_data_flags :
      (raw : List ℕ)
      → Says raw (crypto.sha256 rp_id)
      → check_auth_data_flags (of_be (slice raw 32 33)) ≡ ok tt
  Says-check_auth_data_flags raw s = (check_auth_data_flags_iff _).1 (s.present, s.verified)

  -- The conditions of an assertion with the counter `n`.
  pub record Asserts (raw sig public_key : List ℕ) (n : ℕ) : Type 0 where
    pub made : Made crypto client_json get_type origin challenge
    pub says : Says raw (crypto.sha256 rp_id)
    pub credential : Option (List ℕ × List ℕ)
    pub well_formed :
        credential_of (has_flag (of_be (slice raw 32 33)) flag_at) (drop 37 raw) ≡ ok credential
    pub signed : crypto.verify public_key (raw ++ crypto.sha256 client_json) sig ≡ true
    pub counter : of_be (slice raw 33 37) ≡ n

  verify_assertion-Asserts :
      (raw sig public_key : List ℕ) (n : ℕ)
      → verify_assertion crypto rp_id origin challenge client_json raw sig public_key ≡ ok n
      → Asserts raw sig public_key n
  unfolding verify_assertion
  verify_assertion-Asserts raw sig public_key n h =
      let (t, made, h1) =
        and_then-eq-ok checked (λ t. and_then (parse_auth_data raw) after_parse) h in
      let (ad, parses, h2) = and_then-eq-ok (parse_auth_data raw) after_parse h1 in
      let (long, (c, well_formed, e)) = parse_auth_data-eq-ok raw parses in
      let (t2, flagged, h3) = and_then-eq-ok (check_auth_data_flags ad.flags) (after_flags ad) h2 in
      let (t3, hashed, h4) = and_then-eq-ok (hash_checked ad) (λ t. after_hash ad) h3 in
      let (signed, h5) = bail_if-eq-ok (not valid) bad_signature (ok ad.sign_count) h4 in
      record {
        made = check_client_data-Made crypto client_json get_type origin challenge made;
        says =
            checked-Says raw c long
              (ap (λ (x : AuthData). check_auth_data_flags x.flags) e ∙ flagged)
              (ap hash_checked e ∙ hashed);
        credential = c;
        well_formed = well_formed;
        signed = not-eq-false valid signed;
        counter = cc;
      }
    where
      checked : Result (Unit {0})
      checked = check_client_data crypto client_json get_type origin challenge

      valid : Bool
      valid = crypto.verify public_key (raw ++ crypto.sha256 client_json) sig

      hash_checked : AuthData → Result (Unit {0})
      hash_checked ad = check_rp_id crypto rp_id origin challenge client_json ad

      after_hash : AuthData → Result ℕ
      after_hash ad = bail_if (not valid) bad_signature (ok ad.sign_count)

      after_flags : AuthData → Unit {0} → Result ℕ
      after_flags ad t = and_then (hash_checked ad) (λ t. after_hash ad)

      after_parse : AuthData → Result ℕ
      after_parse ad = and_then (check_auth_data_flags ad.flags) (after_flags ad)

  Asserts-verify_assertion :
      (raw sig public_key : List ℕ) (n : ℕ)
      → Asserts raw sig public_key n
      → verify_assertion crypto rp_id origin challenge client_json raw sig public_key ≡ ok n
  unfolding verify_assertion
  Asserts-verify_assertion raw sig public_key n a =
      rw (Made-check_client_data crypto _ _ _ _ a.made) (
        rw (parse_auth_data-parsed_as raw a.says.long a.well_formed) (
          rw (Says-check_auth_data_flags raw a.says)
            (rw ((same_iff _ _).1 a.says.party) (rw a.signed (ap ok a.counter)))))

  -- An assertion passes, with the counter that is handed on, exactly when its client data was made
  -- for `webauthn.get`, this origin and this challenge and is not of another origin, the data of
  -- the authenticator has its 37 bytes, names the relying party by hash, says that the user was
  -- present and verified, carries that counter and, where it says so, a credential that parses, and
  -- the stored key verifies the signature over that data and the hash of the client data.
  pub verify_assertion_iff :
      (raw sig public_key : List ℕ) (n : ℕ)
      → (verify_assertion crypto rp_id origin challenge client_json raw sig public_key ≡ ok n)
        ↔ Asserts raw sig public_key n
  verify_assertion_iff raw sig public_key n =
      (verify_assertion-Asserts raw sig public_key n, Asserts-verify_assertion raw sig public_key n)
