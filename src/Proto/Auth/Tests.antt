-- ===== src/Proto/Auth/Tests.antt =====
-- The unit test `auth_frames_round_trip` and the theorems at concrete inputs.
use quosh.Base.{ℕ, refl, List, [], ◌∷◌, arith, replicate}
use quosh.Proto.Msg
use quosh.Proto.Utf8.{is_utf8}
use quosh.Proto.Message.Layout.{Arrives}
use quosh.Proto.Auth.{
  encode_auth_hello, decode_auth_hello, encode_challenge, encode_enroll, encode_assert,
  encode_auth_ok, encode_auth_fail, decode_challenge, decode_enroll, decode_assert, decode_auth_ok,
  decode_auth_fail, AuthHello, Challenge, Enroll, Assert, AuthOk,
}
use quosh.Proto.Auth.RoundTrip.{Sends}
use quosh.Proto.Auth.Limits.{auth_messages-Send}

abbrev hello : AuthHello
hello = record {
  auth_token = replicate 32 1;
  session_id = replicate 16 2;
  session_token = replicate 32 3;
  cols = 100;
  rows = 40;
}

-- "q.dev" and two hashes.
abbrev challenge : Challenge
challenge = record {
  challenge = replicate 32 4;
  rp_id = b'q' ∷ b'.' ∷ b'd' ∷ b'e' ∷ b'v' ∷ [];
  hashes = replicate 32 5 ∷ replicate 32 6 ∷ [];
}

abbrev enrolment : Enroll
enrolment = record {
  nonce = replicate 16 7;
  client_data_json = 123 ∷ 125 ∷ [];
  attestation_object = 0xa0 ∷ [];
}

abbrev assertion : Assert
assertion = record {
  credential_id = 1 ∷ 2 ∷ 3 ∷ [];
  authenticator_data = replicate 37 4;
  client_data_json = 123 ∷ 125 ∷ [];
  signature = replicate 72 9;
}

abbrev success : AuthOk
success = record {
  auth_token = replicate 32 8;
  uid = 1001;
  session_id = replicate 16 9;
  session_token = replicate 32 10;
  hashes = replicate 32 11 ∷ [];
}

abbrev nope : List ℕ
nope = b'n' ∷ b'o' ∷ b'p' ∷ b'e' ∷ []

auth_messages-Send_example :
    Arrives (encode_auth_hello hello) Msg.auth_hello decode_auth_hello hello
    × Sends (encode_challenge challenge) Msg.challenge decode_challenge challenge
    × Sends (encode_enroll enrolment) Msg.enroll decode_enroll enrolment
    × Sends (encode_assert assertion) Msg.assert decode_assert assertion
    × Sends (encode_auth_ok success) Msg.auth_ok decode_auth_ok success
    × Sends (encode_auth_fail nope) Msg.auth_fail decode_auth_fail nope
unfolding is_utf8
auth_messages-Send_example =
    auth_messages-Send hello challenge enrolment assertion success nope (omega arith)
      (record {
        challenge = refl;
        rp_id_length = omega arith;
        rp_id_text = refl;
        hashes = omega arith;
      })
      (omega arith) (omega arith) (omega arith) (omega arith) refl
