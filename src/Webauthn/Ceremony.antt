-- ===== src/Webauthn/Ceremony.antt =====
-- The checks of crates/quosh-server/src/webauthn.rs on the two ceremonies of a passkey.
pub mod Accepts
pub mod Assertion
pub mod Registration
pub mod Authenticator
use quosh.Webauthn.{
  and_then, bail_if, has_flag, Result, client_json_malformed, client_type, origin_mismatch,
  cross_origin_set, challenge_mismatch, auth_data_short, credential_truncated, id_truncated,
  user_presence, user_verification, object_not_map, attestation_format, no_auth_data, rp_id_hash,
  no_credential, not_uncompressed, bad_signature, err, ok,
}
use quosh.Webauthn.Cbor.{
  as_bytes, as_text, text_is, map_get, then_as, read_cbor, cose_p256, Cbor, map,
}
use quosh.Base.{
  ℕ, Bool, true, false, ◌||◌, not, Option, none, some, List, [], ◌∷◌, ◌++◌, ltb, ◌==◌, length, take,
  drop, slice,
}
use quosh.Bytes.{of_be}
use quosh.Devices.Search.{same}

pub record Registered : Type 0 where
  pub credential_id : List ℕ
  pub public_key : List ℕ
  pub sign_count : ℕ

pub record ClientData : Type 0 where
  pub typ : List ℕ
  pub challenge : List ℕ
  pub origin : List ℕ
  pub cross_origin : Bool

-- The crates that are used: serde_json into `ClientData`, base64, sha2 and ring, whose `verify` is
-- given the key, the bytes that were signed and the signature.
pub record Crypto : Type 0 where
  pub from_json : List ℕ → Option ClientData
  pub base64 : List ℕ → List ℕ
  pub sha256 : List ℕ → List ℕ
  pub verify : List ℕ → List ℕ → List ℕ → Bool

-- The bytes of a text in ASCII.
abbrev pub create_type : List ℕ
create_type =
    b'w' ∷ b'e' ∷ b'b' ∷ b'a' ∷ b'u' ∷ b't' ∷ b'h' ∷ b'n' ∷ b'.' ∷ b'c' ∷ b'r' ∷ b'e' ∷ b'a' ∷ b't'
    ∷ b'e' ∷ []

abbrev pub get_type : List ℕ
get_type = b'w' ∷ b'e' ∷ b'b' ∷ b'a' ∷ b'u' ∷ b't' ∷ b'h' ∷ b'n' ∷ b'.' ∷ b'g' ∷ b'e' ∷ b't' ∷ []

abbrev pub fmt_key : List ℕ
fmt_key = b'f' ∷ b'm' ∷ b't' ∷ []

abbrev pub none_text : List ℕ
none_text = b'n' ∷ b'o' ∷ b'n' ∷ b'e' ∷ []

abbrev pub auth_data_key : List ℕ
auth_data_key = b'a' ∷ b'u' ∷ b't' ∷ b'h' ∷ b'D' ∷ b'a' ∷ b't' ∷ b'a' ∷ []

abbrev pub flag_up : ℕ
flag_up = 0x01

abbrev pub flag_uv : ℕ
flag_uv = 0x04

abbrev pub flag_at : ℕ
flag_at = 0x40

module _ (crypto : Crypto) where
  unfoldable pub check_parsed : Option ClientData → List ℕ → List ℕ → List ℕ → Result (Unit {0})
  check_parsed none expected_type at challenge_bytes = err client_json_malformed
  check_parsed (some d) expected_type at challenge_bytes =
      bail_if (not (same d.typ expected_type)) client_type (
        bail_if (not (same d.origin at)) origin_mismatch (
          bail_if d.cross_origin cross_origin_set (
            bail_if (not (same d.challenge (crypto.base64 challenge_bytes))) challenge_mismatch
              (ok tt))))

  unfoldable pub check_client_data : List ℕ → List ℕ → List ℕ → List ℕ → Result (Unit {0})
  unfolding check_parsed
  check_client_data raw expected_type at challenge_bytes =
      check_parsed (crypto.from_json raw) expected_type at challenge_bytes

-- The id of the credential and its public key, where the flags say that they follow.
pub record AuthData : Type 0 where
  pub rp_hash : List ℕ
  pub flags : ℕ
  pub sign_count : ℕ
  pub credential : Option (List ℕ × List ℕ)

-- The credential that follows the first 37 bytes.
unfoldable pub parse_credential : List ℕ → Result (List ℕ × List ℕ)
parse_credential p =
    let cred_len = of_be (slice p 16 18) in
    let p' = drop 18 p in
    bail_if (ltb (length p) 18) credential_truncated (
      bail_if (ltb (length p') cred_len) id_truncated (
        and_then (read_cbor (drop cred_len p'))
          λ key. and_then (cose_p256 key.0) λ public_key. ok (take cred_len p', public_key)))

-- Whether the flags say that a credential follows, and if so, what it is.
abbrev pub credential_of : Bool → List ℕ → Result (Option (List ℕ × List ℕ))
credential_of false p = ok none
credential_of true p = and_then (parse_credential p) (λ c. ok (some c))

unfoldable pub parse_auth_data : List ℕ → Result AuthData
parse_auth_data raw = bail_if (ltb (length raw) 37) auth_data_short (
    and_then (credential_of (has_flag (of_be (slice raw 32 33)) flag_at) (drop 37 raw)) λ c.
      ok (record {
        rp_hash = slice raw 0 32;
        flags = of_be (slice raw 32 33);
        sign_count = of_be (slice raw 33 37);
        credential = c;
      }))

unfoldable pub check_auth_data_flags : ℕ → Result (Unit {0})
check_auth_data_flags flags =
    bail_if (not (has_flag flags flag_up)) user_presence
      (bail_if (not (has_flag flags flag_uv)) user_verification (ok tt))

unfoldable pub verify_p256_point : List ℕ → Result (Unit {0})
verify_p256_point point_bytes =
    bail_if (not (length point_bytes == 65) || not (of_be (take 1 point_bytes) == 4))
      not_uncompressed (ok tt)

-- The end of `verify_registration`, once the data of the authenticator passed.
abbrev pub registered_of : AuthData → Option (List ℕ × List ℕ) → Result Registered
registered_of ad none = err no_credential
registered_of ad (some (id, key)) =
    and_then (verify_p256_point key)
      λ valid. ok (record { credential_id = id; public_key = key; sign_count = ad.sign_count })

module _ (crypto : Crypto) (rp_id origin_text challenge_bytes client_json : List ℕ) where
  -- `data.rp_id_hash != Sha256::digest(rp_id)`
  abbrev pub check_rp_id : AuthData → Result (Unit {0})
  check_rp_id ad = bail_if (not (same ad.rp_hash (crypto.sha256 rp_id))) rp_id_hash (ok tt)

  unfoldable pub check_attested : Option (List ℕ) → Result Registered
  check_attested none = err no_auth_data
  check_attested (some raw) = and_then (parse_auth_data raw) λ ad.
      and_then (check_auth_data_flags ad.flags)
        λ flagged. and_then (check_rp_id ad) λ hashed. registered_of ad ad.credential

  unfoldable pub check_object : Cbor → Result Registered
  unfolding check_attested
  check_object (map es) =
      bail_if (not (text_is none_text (then_as (map_get es fmt_key) as_text))) attestation_format
        (check_attested (then_as (map_get es auth_data_key) as_bytes))
  check_object _ = err object_not_map

  unfoldable pub verify_registration : List ℕ → Result Registered
  unfolding check_object
  verify_registration attestation_object =
      and_then (check_client_data crypto client_json create_type origin_text challenge_bytes)
        λ checked. and_then (read_cbor attestation_object) λ att. check_object att.0

  unfoldable pub verify_assertion : List ℕ → List ℕ → List ℕ → Result ℕ
  verify_assertion authenticator_data sig public_key =
      and_then (check_client_data crypto client_json get_type origin_text challenge_bytes)
        λ checked. and_then (parse_auth_data authenticator_data) λ ad.
          and_then (check_auth_data_flags ad.flags) λ flagged. and_then (check_rp_id ad) λ hashed.
            bail_if
              (not (crypto.verify public_key (authenticator_data ++ crypto.sha256 client_json) sig))
              bad_signature (ok ad.sign_count)
