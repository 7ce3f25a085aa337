-- ===== src/Proto/Auth.antt =====
-- The authentication messages of crates/quosh-proto/src/lib.rs: `AuthHello`, `Challenge`, `Enroll`,
-- `Assert`, `AuthOk` and `AuthFail`, with the fields that carry their length.
pub mod Fields
pub mod RoundTrip
pub mod Limits
mod Tests
use quosh.Base.{
  ℕ, zero, suc, ◌+◌, ◌-◌, ◌%◌, ◌^◌, not, List, [], ◌∷◌, ◌++◌, ltb, ◌==◌, if◌then◌else◌, length,
  slice, concat,
}
use quosh.Bytes.{le_bytes, of_le}
use quosh.Proto.Reader.{M, ◌>>=◌, ◌>>◌, pure, refuse_if, u8, bytes, n, done, number, text, run}
use quosh.Proto.{max_chain_hashes, Result, frame, too_large, ok, err}
use quosh.Proto.Msg
use quosh.Proto.Frame.{encode_frame}

pub record AuthHello : Type 0 where
  pub auth_token : List ℕ
  pub session_id : List ℕ
  pub session_token : List ℕ
  pub cols : ℕ
  pub rows : ℕ

-- `AuthHello::LEN`
abbrev pub auth_hello_len : ℕ
auth_hello_len = 32 + 16 + 32 + 2 + 2

abbrev pub auth_hello_fields : AuthHello → List (List ℕ)
auth_hello_fields h =
    h.auth_token ∷ h.session_id ∷ h.session_token ∷ le_bytes 2 h.cols ∷ le_bytes 2 h.rows ∷ []

unfoldable pub encode_auth_hello : AuthHello → List ℕ
encode_auth_hello h = encode_frame Msg.auth_hello (concat (auth_hello_fields h))

unfoldable pub decode_auth_hello : List ℕ → Result AuthHello
decode_auth_hello p =
    if not (length p == auth_hello_len)
    then err frame
    else ok (record {
      auth_token = slice p 0 32;
      session_id = slice p 32 48;
      session_token = slice p 48 80;
      cols = of_le (slice p 80 82);
      rows = of_le (slice p 82 84);
    })

-- `put_n`: a length of 16 bits, then the bytes.
unfoldable pub put_n : List ℕ → List ℕ → Result (List ℕ)
put_n out b =
    if ltb (2 ^ 16 - 1) (length b)
    then err too_large
    else ok ((out ++ le_bytes 2 (length b % 2 ^ 16)) ++ b)

-- `put_hashes`: their number in a byte, then each.
unfoldable pub put_hashes : List ℕ → List (List ℕ) → Result (List ℕ)
put_hashes out hashes =
    if ltb max_chain_hashes (length hashes)
    then err too_large
    else ok ((out ++ ((length hashes % 256) ∷ [])) ++ concat hashes)

take_hashes_loop : ℕ → M (List (List ℕ))
take_hashes_loop zero = pure []
take_hashes_loop (suc n) = do h ← bytes 32; hs ← take_hashes_loop n; pure (h ∷ hs)

unfoldable pub take_hashes : M (List (List ℕ))
unfolding take_hashes_loop
take_hashes = do n ← u8; refuse_if (ltb max_chain_hashes n) too_large; take_hashes_loop n

pub record Challenge : Type 0 where
  pub challenge : List ℕ
  pub rp_id : List ℕ
  pub hashes : List (List ℕ)

-- `Ok(encode_frame(typ, &p))`
abbrev pub framed : ℕ → Result (List ℕ) → Result (List ℕ)
framed typ (err e) = err e
framed typ (ok p) = ok (encode_frame typ p)

-- `?` on a `Result` outside a `Reader`.
abbrev pub and_then : Result (List ℕ) → (List ℕ → Result (List ℕ)) → Result (List ℕ)
and_then (err e) f = err e
and_then (ok p) f = f p

unfoldable pub encode_challenge : Challenge → Result (List ℕ)
unfolding put_hashes
encode_challenge c =
    if ltb 255 (length c.rp_id)
    then err too_large
    else framed Msg.challenge
        (put_hashes ((c.challenge ++ ((length c.rp_id % 256) ∷ [])) ++ c.rp_id) c.hashes)

unfoldable pub read_challenge : M Challenge
unfolding take_hashes
read_challenge = do
  challenge ← bytes 32
  k ← u8
  rp_id ← bytes k >>= text
  hashes ← take_hashes
  done
  pure (record { challenge = challenge; rp_id = rp_id; hashes = hashes })

pub record Enroll : Type 0 where
  pub nonce : List ℕ
  pub client_data_json : List ℕ
  pub attestation_object : List ℕ

unfoldable pub encode_enroll : Enroll → Result (List ℕ)
unfolding put_n
encode_enroll e =
    framed Msg.enroll
      (and_then (put_n e.nonce e.client_data_json) (λ p. put_n p e.attestation_object))

unfoldable pub read_enroll : M Enroll
read_enroll = do
  nonce ← bytes 16
  client_data_json ← n
  attestation_object ← n
  done
  pure (record {
    nonce = nonce;
    client_data_json = client_data_json;
    attestation_object = attestation_object;
  })

pub record Assert : Type 0 where
  pub credential_id : List ℕ
  pub authenticator_data : List ℕ
  pub client_data_json : List ℕ
  pub signature : List ℕ

unfoldable pub encode_assert : Assert → Result (List ℕ)
unfolding put_n
encode_assert a = framed Msg.assert (
    and_then
      (and_then (and_then (put_n [] a.credential_id) (λ p. put_n p a.authenticator_data))
        (λ p. put_n p a.client_data_json))
      (λ p. put_n p a.signature))

unfoldable pub read_assert : M Assert
read_assert = do
  credential_id ← n
  authenticator_data ← n
  client_data_json ← n
  signature ← n
  done
  pure (record {
    credential_id = credential_id;
    authenticator_data = authenticator_data;
    client_data_json = client_data_json;
    signature = signature;
  })

pub record AuthOk : Type 0 where
  pub auth_token : List ℕ
  pub uid : ℕ
  pub session_id : List ℕ
  pub session_token : List ℕ
  pub hashes : List (List ℕ)

unfoldable pub encode_auth_ok : AuthOk → Result (List ℕ)
unfolding put_hashes
encode_auth_ok a = framed Msg.auth_ok (
    put_hashes (concat (a.auth_token ∷ le_bytes 4 a.uid ∷ a.session_id ∷ a.session_token ∷ []))
      a.hashes)

unfoldable pub read_auth_ok : M AuthOk
unfolding take_hashes
read_auth_ok = do
  auth_token ← bytes 32
  uid ← number 4
  session_id ← bytes 16
  session_token ← bytes 32
  hashes ← take_hashes
  done
  pure (record {
    auth_token = auth_token;
    uid = uid;
    session_id = session_id;
    session_token = session_token;
    hashes = hashes;
  })

-- The reason of an `AuthFail` is a text.
unfoldable pub encode_auth_fail : List ℕ → Result (List ℕ)
unfolding put_n
encode_auth_fail reason = framed Msg.auth_fail (put_n [] reason)

unfoldable pub read_auth_fail : M (List ℕ)
read_auth_fail = do reason ← n >>= text; done; pure reason

-- `decode` of each message.
abbrev pub decode_challenge : List ℕ → Result Challenge
decode_challenge p = run read_challenge p

abbrev pub decode_enroll : List ℕ → Result Enroll
decode_enroll p = run read_enroll p

abbrev pub decode_assert : List ℕ → Result Assert
decode_assert p = run read_assert p

abbrev pub decode_auth_ok : List ℕ → Result AuthOk
decode_auth_ok p = run read_auth_ok p

abbrev pub decode_auth_fail : List ℕ → Result (List ℕ)
decode_auth_fail p = run read_auth_fail p
