-- ===== src/Proto/Auth/Limits.antt =====
-- `AuthHello`, `AuthFail`, and the messages that are refused because a field is too long.
use quosh.Base.{
  ℕ, ◌<◌, ◌≡◌, refl, ◌∙◌, ◌↔◌, ◌⊎◌, true, List, [], ◌∷◌, ◌++◌, append-nil, arith, length, concat,
  Cuts, Cuts-concat,
}
use quosh.Bytes.{Fits, of_le}
use quosh.Proto.Reader.{◌>>=◌, n, text}
use quosh.Proto.Reader.Reads.{ReadsAll-bind, n-Reads, text-Reads, done-ReadsAll}
use quosh.Proto.{max_chain_hashes, too_large, err, ok}
use quosh.Proto.Msg
use quosh.Proto.Utf8.{is_utf8}
use quosh.Proto.Frame.{encode_frame}
use quosh.Proto.Message.Layout.{Arrives, frame-Arrives}
use quosh.Proto.Auth.{
  auth_hello_fields, encode_auth_hello, decode_auth_hello, encode_challenge, encode_enroll,
  encode_assert, encode_auth_ok, encode_auth_fail, read_auth_fail, decode_challenge, decode_enroll,
  decode_assert, decode_auth_ok, decode_auth_fail, AuthHello, Challenge, Enroll, Assert, AuthOk,
}
use quosh.Proto.Auth.Fields.{field, put_n-field, length-field, length-concat-le}
use quosh.Proto.Auth.RoundTrip.{
  Sends, payload-Sends, encode_assert-Sends, encode_enroll-Sends, encode_challenge-Sends,
  encode_auth_ok-Sends, IsAssert, IsEnroll, IsChallenge, IsAuthOk,
}

pub record IsAuthHello (h : AuthHello) : Type 0 where
  pub auth_token : length h.auth_token ≡ 32
  pub session_id : length h.session_id ≡ 16
  pub session_token : length h.session_token ≡ 32
  pub cols : Fits 2 h.cols
  pub rows : Fits 2 h.rows

abbrev auth_hello_widths : List ℕ
auth_hello_widths = 32 ∷ 16 ∷ 32 ∷ 2 ∷ 2 ∷ []

decode_auth_hello-Cuts :
    (p a b c d e : List ℕ)
    → Cuts p 0 auth_hello_widths (a ∷ b ∷ c ∷ d ∷ e ∷ [])
    → decode_auth_hello p
      ≡ ok (record {
        auth_token = a;
        session_id = b;
        session_token = c;
        cols = of_le d;
        rows = of_le e;
      })
unfolding decode_auth_hello
decode_auth_hello-Cuts p a b c d e h = rw (h.1.1.1.1.1, h.0, h.1.0, h.1.1.0, h.1.1.1.0, h.1.1.1.1.0)

auth_hello-Cuts :
    (h : AuthHello)
    → IsAuthHello h
    → Cuts (concat (auth_hello_fields h)) 0 auth_hello_widths (auth_hello_fields h)
auth_hello-Cuts h v =
    Cuts-concat [] auth_hello_widths (auth_hello_fields h) 0 refl
      (v.auth_token, (v.session_id, (v.session_token, (refl, (refl, tt)))))

-- An `AuthHello` whose fields fit arrives as it was sent.
pub encode_auth_hello-Arrives :
    (h : AuthHello)
    → IsAuthHello h
    → Arrives (encode_auth_hello h) Msg.auth_hello decode_auth_hello h
unfolding encode_auth_hello
encode_auth_hello-Arrives h v =
    frame-Arrives Msg.auth_hello _ decode_auth_hello h
      (omega (arith, (auth_hello-Cuts h v).1.1.1.1.1))
      (decode_auth_hello-Cuts _ _ _ _ _ _ (auth_hello-Cuts h v) ∙ ground arith)

encode_auth_fail-payload :
    (r : List ℕ)
    → Fits 2 (length r)
    → encode_auth_fail r ≡ ok (encode_frame Msg.auth_fail (field r ++ []))
unfolding encode_auth_fail
encode_auth_fail-payload r h = rw (put_n-field [] r h) (simp append-nil)

-- The reason of a refusal arrives as it was sent, if it is UTF-8 and its length fits 16 bits.
pub encode_auth_fail-Sends :
    (r : List ℕ)
    → Fits 2 (length r)
    → is_utf8 r ≡ true
    → Sends (encode_auth_fail r) Msg.auth_fail decode_auth_fail r
encode_auth_fail-Sends r h u =
    payload-Sends _ _ _ read_auth_fail r (encode_auth_fail-payload r h)
      (omega (arith, length-concat-le (65537 ∷ []) (field r ∷ []) (length-field r h, tt)))
      (unfold read_auth_fail in
        ReadsAll-bind (n >>= text) _ (field r) [] _ r (text-Reads n (field r) r (n-Reads r h) u)
          (done-ReadsAll r))

-- A message is refused, with the error for what is too large, exactly when one of its fields does
-- not fit its length, or there are more than 64 hashes.
pub encode_too_large :
    (a : Assert) (e : Enroll) (c : Challenge)
    → ((encode_assert a ≡ err too_large) ↔ (
        (65535 < length a.credential_id)
        ⊎ (65535 < length a.authenticator_data)
        ⊎ (65535 < length a.client_data_json)
        ⊎ (65535 < length a.signature)))
      × ((encode_enroll e ≡ err too_large)
          ↔ ((65535 < length e.client_data_json) ⊎ (65535 < length e.attestation_object)))
      × ((encode_challenge c ≡ err too_large)
          ↔ ((255 < length c.rp_id) ⊎ (max_chain_hashes < length c.hashes)))
unfolding encode_assert encode_enroll encode_challenge
encode_too_large a e c = (
  (λ h. ground arith, λ h. ground arith),
  (λ h. ground arith, λ h. ground arith),
  (λ h. ground arith, λ h. ground arith),
)

-- Every message of the authentication arrives as it was sent, if its fields fit: the greeting, the
-- challenge, an enrolment, an assertion, the success and the reason of a refusal.
pub auth_messages-Send :
    (h : AuthHello) (c : Challenge) (e : Enroll) (a : Assert) (o : AuthOk) (r : List ℕ)
    → IsAuthHello h
    → IsChallenge c
    → IsEnroll e
    → IsAssert a
    → IsAuthOk o
    → Fits 2 (length r)
    → is_utf8 r ≡ true
    → Arrives (encode_auth_hello h) Msg.auth_hello decode_auth_hello h
      × Sends (encode_challenge c) Msg.challenge decode_challenge c
      × Sends (encode_enroll e) Msg.enroll decode_enroll e
      × Sends (encode_assert a) Msg.assert decode_assert a
      × Sends (encode_auth_ok o) Msg.auth_ok decode_auth_ok o
      × Sends (encode_auth_fail r) Msg.auth_fail decode_auth_fail r
auth_messages-Send h c e a o r ih ic ie ia iok hr u = (
  encode_auth_hello-Arrives h ih,
  encode_challenge-Sends c ic,
  encode_enroll-Sends e ie,
  encode_assert-Sends a ia,
  encode_auth_ok-Sends o iok,
  encode_auth_fail-Sends r hr u,
)
