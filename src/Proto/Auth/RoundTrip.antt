-- ===== src/Proto/Auth/RoundTrip.antt =====
-- Each authentication message arrives as it was sent, and is refused if a field is too long.
use quosh.Base.{
  ℕ, ◌%◌, ◌≤◌, ◌≡◌, refl, true, List, [], ◌∷◌, ◌++◌, append-nil, append_assoc, arith, le→ltb,
  length,
}
use quosh.Bytes.{Fits, le_bytes}
use quosh.Proto.Reader.{M, ◌>>=◌, u8, bytes, n, number, text, run}
use quosh.Proto.Reader.Reads.{
  ReadsAll, ReadsAll-bind, bytes-Reads, u8-Reads, number-Reads, n-Reads, text-Reads, done-ReadsAll,
  ReadsAll-run,
}
use quosh.Proto.{Result, ok}
use quosh.Proto.Msg
use quosh.Proto.Frame.{encode_frame}
use quosh.Proto.Frame.RoundTrip.{IsPayload}
use quosh.Proto.Message.Layout.{Arrives, frame-Arrives}
use quosh.Proto.Auth.{
  take_hashes, encode_challenge, read_challenge, encode_enroll, read_enroll, encode_assert,
  read_assert, encode_auth_ok, read_auth_ok, decode_challenge, decode_enroll, decode_assert,
  decode_auth_ok, Challenge, Enroll, Assert, AuthOk,
}
use quosh.Proto.Auth.Fields.{
  field, put_n-field, hashes_field, put_hashes-field, take_hashes-Reads, length-hashes_field,
  length-field, length-concat-le, IsHashes,
}
use quosh.Proto.Utf8.{is_utf8}

-- Encoding succeeds, and the bytes arrive as the message.
abbrev pub Sends {ℓ} : {A : Type ℓ} → Result (List ℕ) → ℕ → (List ℕ → Result A) → A → Type ℓ
Sends encoded typ decode a = (b : List ℕ) × (encoded ≡ ok b) × Arrives b typ decode a

pub payload-Sends {ℓ} :
    {A : Type ℓ} (encoded : Result (List ℕ)) (typ : ℕ) (p : List ℕ) (m : M A) (a : A)
    → encoded ≡ ok (encode_frame typ p)
    → IsPayload p
    → ReadsAll m p a
    → Sends encoded typ (run m) a
payload-Sends encoded typ p m a e h r =
    (encode_frame typ p, e, frame-Arrives typ p (run m) a h (ReadsAll-run m p a r))

pub record IsAssert (a : Assert) : Type 0 where
  pub credential_id : Fits 2 (length a.credential_id)
  pub authenticator_data : Fits 2 (length a.authenticator_data)
  pub client_data_json : Fits 2 (length a.client_data_json)
  pub signature : Fits 2 (length a.signature)

abbrev assert_payload : Assert → List ℕ
assert_payload a =
    field a.credential_id
    ++ (field a.authenticator_data ++ (field a.client_data_json ++ (field a.signature ++ [])))

encode_assert-payload :
    (a : Assert) → IsAssert a → encode_assert a ≡ ok (encode_frame Msg.assert (assert_payload a))
unfolding encode_assert
encode_assert-payload a v =
    rw
      (
        put_n-field [] a.credential_id v.credential_id,
        put_n-field _ a.authenticator_data v.authenticator_data,
        put_n-field _ a.client_data_json v.client_data_json,
        put_n-field _ a.signature v.signature,
        append-nil,
        append_assoc,
      )
      (simp append_assoc)

read_assert-payload : (a : Assert) → IsAssert a → ReadsAll read_assert (assert_payload a) a
unfolding read_assert
read_assert-payload a v =
    ReadsAll-bind n _ (field a.credential_id) _ _ a (n-Reads a.credential_id v.credential_id) (
      ReadsAll-bind n _ (field a.authenticator_data) _ _ a
        (n-Reads a.authenticator_data v.authenticator_data)
        (ReadsAll-bind n _ (field a.client_data_json) _ _ a
          (n-Reads a.client_data_json v.client_data_json)
          (ReadsAll-bind n _ (field a.signature) [] _ a (n-Reads a.signature v.signature)
            (done-ReadsAll a))))

-- A passkey assertion whose fields fit 16-bit lengths is sent and arrives as it was.
pub encode_assert-Sends :
    (a : Assert) → IsAssert a → Sends (encode_assert a) Msg.assert decode_assert a
encode_assert-Sends a v =
    payload-Sends _ _ _ read_assert a (encode_assert-payload a v)
      (omega (
        arith,
        length-concat-le (65537 ∷ 65537 ∷ 65537 ∷ 65537 ∷ [])
            (field a.credential_id
              ∷ field a.authenticator_data
              ∷ field a.client_data_json
              ∷ field a.signature
              ∷ [])
            (
              length-field a.credential_id v.credential_id,
              (
                length-field a.authenticator_data v.authenticator_data,
                (
                  length-field a.client_data_json v.client_data_json,
                  (length-field a.signature v.signature, tt),
                ),
              ),
            ),
      ))
      (read_assert-payload a v)

pub record IsEnroll (e : Enroll) : Type 0 where
  pub nonce : length e.nonce ≡ 16
  pub client_data_json : Fits 2 (length e.client_data_json)
  pub attestation_object : Fits 2 (length e.attestation_object)

abbrev enroll_payload : Enroll → List ℕ
enroll_payload e = e.nonce ++ (field e.client_data_json ++ (field e.attestation_object ++ []))

encode_enroll-payload :
    (e : Enroll) → IsEnroll e → encode_enroll e ≡ ok (encode_frame Msg.enroll (enroll_payload e))
unfolding encode_enroll
encode_enroll-payload e v = rw (
  put_n-field e.nonce e.client_data_json v.client_data_json,
  put_n-field _ e.attestation_object v.attestation_object,
  append-nil,
  append_assoc,
)

read_enroll-payload : (e : Enroll) → IsEnroll e → ReadsAll read_enroll (enroll_payload e) e
unfolding read_enroll
read_enroll-payload e v =
    ReadsAll-bind (bytes 16) _ e.nonce _ _ e (bytes-Reads e.nonce 16 v.nonce) (
      ReadsAll-bind n _ (field e.client_data_json) _ _ e
        (n-Reads e.client_data_json v.client_data_json)
        (ReadsAll-bind n _ (field e.attestation_object) [] _ e
          (n-Reads e.attestation_object v.attestation_object) (done-ReadsAll e)))

-- An enrolment whose fields fit is sent and arrives as it was.
pub encode_enroll-Sends :
    (e : Enroll) → IsEnroll e → Sends (encode_enroll e) Msg.enroll decode_enroll e
encode_enroll-Sends e v =
    payload-Sends _ _ _ read_enroll e (encode_enroll-payload e v)
      (omega (
        arith,
        length-concat-le (16 ∷ 65537 ∷ 65537 ∷ [])
            (e.nonce ∷ field e.client_data_json ∷ field e.attestation_object ∷ [])
            (
              omega (arith, v.nonce),
              (
                length-field e.client_data_json v.client_data_json,
                (length-field e.attestation_object v.attestation_object, tt),
              ),
            ),
      ))
      (read_enroll-payload e v)

pub record IsChallenge (c : Challenge) : Type 0 where
  pub challenge : length c.challenge ≡ 32
  pub rp_id_length : length c.rp_id ≤ 255
  pub rp_id_text : is_utf8 c.rp_id ≡ true
  pub hashes : IsHashes c.hashes

abbrev challenge_payload : Challenge → List ℕ
challenge_payload c =
    c.challenge ++ ((length c.rp_id ∷ []) ++ (c.rp_id ++ (hashes_field c.hashes ++ [])))

encode_challenge-payload :
    (c : Challenge)
    → IsChallenge c
    → encode_challenge c ≡ ok (encode_frame Msg.challenge (challenge_payload c))
unfolding encode_challenge
encode_challenge-payload c v =
    let e : length c.rp_id % 256 ≡ length c.rp_id = omega (arith, v.rp_id_length) in
    rw
      (
        le→ltb 255 (length c.rp_id) v.rp_id_length,
        put_hashes-field ((c.challenge ++ ((length c.rp_id % 256) ∷ [])) ++ c.rp_id) c.hashes
            v.hashes,
        e,
      )
      (simp (append_assoc, append-nil))

read_challenge-payload :
    (c : Challenge) → IsChallenge c → ReadsAll read_challenge (challenge_payload c) c
unfolding read_challenge
read_challenge-payload c v =
    ReadsAll-bind (bytes 32) _ c.challenge _ _ c (bytes-Reads c.challenge 32 v.challenge) (
      ReadsAll-bind u8 _ (length c.rp_id ∷ []) _ _ c (u8-Reads (length c.rp_id)) (
        ReadsAll-bind (bytes (length c.rp_id) >>= text) _ c.rp_id _ _ c
          (text-Reads (bytes (length c.rp_id)) c.rp_id c.rp_id
            (bytes-Reads c.rp_id (length c.rp_id) refl) v.rp_id_text)
          (ReadsAll-bind take_hashes _ (hashes_field c.hashes) [] _ c
            (take_hashes-Reads c.hashes v.hashes) (done-ReadsAll c))))

-- A challenge whose fields fit is sent and arrives as it was.
pub encode_challenge-Sends :
    (c : Challenge) → IsChallenge c → Sends (encode_challenge c) Msg.challenge decode_challenge c
encode_challenge-Sends c v =
    payload-Sends _ _ _ read_challenge c (encode_challenge-payload c v)
      (omega (
        arith,
        length-concat-le (32 ∷ 1 ∷ 255 ∷ 2049 ∷ [])
            (c.challenge ∷ (length c.rp_id ∷ []) ∷ c.rp_id ∷ hashes_field c.hashes ∷ [])
            (
              omega (arith, v.challenge),
              (omega arith, (v.rp_id_length, (length-hashes_field c.hashes v.hashes, tt))),
            ),
      ))
      (read_challenge-payload c v)

pub record IsAuthOk (a : AuthOk) : Type 0 where
  pub auth_token : length a.auth_token ≡ 32
  pub uid : Fits 4 a.uid
  pub session_id : length a.session_id ≡ 16
  pub session_token : length a.session_token ≡ 32
  pub hashes : IsHashes a.hashes

abbrev auth_ok_payload : AuthOk → List ℕ
auth_ok_payload a =
    a.auth_token
    ++ (le_bytes 4 a.uid ++ (a.session_id ++ (a.session_token ++ (hashes_field a.hashes ++ []))))

encode_auth_ok-payload :
    (a : AuthOk) → IsAuthOk a → encode_auth_ok a ≡ ok (encode_frame Msg.auth_ok (auth_ok_payload a))
unfolding encode_auth_ok
encode_auth_ok-payload a v =
    rw (put_hashes-field _ a.hashes v.hashes) (simp (append_assoc, append-nil))

read_auth_ok-payload : (a : AuthOk) → IsAuthOk a → ReadsAll read_auth_ok (auth_ok_payload a) a
unfolding read_auth_ok
read_auth_ok-payload a v =
    ReadsAll-bind (bytes 32) _ a.auth_token _ _ a (bytes-Reads a.auth_token 32 v.auth_token) (
      ReadsAll-bind (number 4) _ (le_bytes 4 a.uid) _ _ a (number-Reads 4 a.uid v.uid) (
        ReadsAll-bind (bytes 16) _ a.session_id _ _ a (bytes-Reads a.session_id 16 v.session_id) (
          ReadsAll-bind (bytes 32) _ a.session_token _ _ a
            (bytes-Reads a.session_token 32 v.session_token)
            (ReadsAll-bind take_hashes _ (hashes_field a.hashes) [] _ a
              (take_hashes-Reads a.hashes v.hashes) (done-ReadsAll a)))))

-- A successful authentication whose fields fit is sent and arrives as it was.
pub encode_auth_ok-Sends :
    (a : AuthOk) → IsAuthOk a → Sends (encode_auth_ok a) Msg.auth_ok decode_auth_ok a
encode_auth_ok-Sends a v =
    payload-Sends _ _ _ read_auth_ok a (encode_auth_ok-payload a v)
      (omega (
        arith,
        length-concat-le (32 ∷ 4 ∷ 16 ∷ 32 ∷ 2049 ∷ [])
            (a.auth_token
              ∷ le_bytes 4 a.uid
              ∷ a.session_id
              ∷ a.session_token
              ∷ hashes_field a.hashes
              ∷ [])
            (
              omega (arith, v.auth_token),
              (
                omega arith,
                (
                  omega (arith, v.session_id),
                  (omega (arith, v.session_token), (length-hashes_field a.hashes v.hashes, tt)),
                ),
              ),
            ),
      ))
      (read_auth_ok-payload a v)
