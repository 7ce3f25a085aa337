-- ===== src/Webauthn.antt =====
-- crates/quosh-server/src/webauthn.rs: the check of what a browser's passkey ceremony returned. Here
-- the reasons for a refusal, and the reads of a slice that the decoders are made of. A string is the
-- list of its bytes.
pub mod Cbor
pub mod Ceremony
mod Tests
use quosh.Base.{
  ℕ, ◌/◌, ◌%◌, Bool, true, false, not, List, ltb, ◌==◌, if◌then◌else◌, length, take, drop,
}

-- One for each error that the code makes; `exhausted` is the model's, and is never met.
pub data Failure : Type 0 where
  cbor_empty cbor_byte cbor_u16 cbor_u32 cbor_u64 cbor_info : Failure
  cbor_bytes cbor_text cbor_utf8 exhausted : Failure
  key_not_map kty alg crv key_point : Failure
  client_json_malformed client_type origin_mismatch cross_origin_set challenge_mismatch : Failure
  auth_data_short credential_truncated id_truncated user_presence user_verification : Failure
  object_not_map attestation_format no_auth_data rp_id_hash no_credential : Failure
  not_uncompressed bad_signature : Failure

pub data Result (T : Type 0) : Type 0 where
  err : Failure → Result T
  ok : T → Result T

abbrev pub and_then : {T U : Type 0} → Result T → (T → Result U) → Result U
and_then (err e) f = err e
and_then (ok t) f = f t

-- `if c { bail!(e) }` before the rest.
abbrev pub bail_if : {U : Type 0} → Bool → Failure → Result U → Result U
bail_if true e rest = err e
bail_if false e rest = rest

-- `flags & mask != 0`, where the mask is one bit.
abbrev pub has_flag : ℕ → ℕ → Bool
has_flag flags mask = not (flags / mask % 2 == 0)

-- `&buf[..n]` and `&buf[n..]`, where `buf.get(..n)` is some.
unfoldable pub get_to : Failure → ℕ → List ℕ → Result (List ℕ × List ℕ)
get_to e n buf = if ltb (length buf) n then err e else ok (take n buf, drop n buf)
