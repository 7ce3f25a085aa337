-- ===== src/Auth.antt =====
-- crates/quosh-server/src/auth.rs: the handshake of a browser. The text of a refusal is that of a
-- constructor, whose words `describe` gives.
pub mod Authorised
mod Tests
use quosh.Base.{
  ℕ, ◌⊎◌, inl, inr, Bool, true, false, ◌&&◌, Option, none, some, List, [], ◌∷◌, ◌++◌, ◌==◌,
  if◌then◌else◌, replicate,
}
use quosh.Devices.Search.{same, find_by}
use quosh.Devices.{
  register, touched, issue_token, validate_token, rotate_token, find, Registration, Codec,
  DeviceStore,
}
use quosh.Enroll.{consume}
use quosh.Daemon.{with_id, spawn_session, Daemon, Problem, Outside}
use quosh.Transport.Admit.{Registered}
use quosh.Proto.{Error, err, ok}
use quosh.Proto.Msg
use quosh.Proto.Frame.{split_frame}
use quosh.Proto.Auth.{
  decode_auth_hello, encode_challenge, encode_auth_ok, encode_auth_fail, decode_enroll,
  decode_assert, AuthHello, Enroll, Assert,
}
use quosh.Webauthn
use quosh.Webauthn.Ceremony
use quosh.Webauthn.Ceremony.{verify_registration, verify_assertion, Crypto}
use quosh.Proto

pub data Reason : Type 0 where
  frame_error : Error → Reason
  end_of_stream enroll_frame invalid_nonce unknown_credential stored_key not_stored unexpected :
      Reason
  assert_frame : Error → Reason
  refused : Webauthn.Failure → Reason
  not_theirs : Reason
  no_session : Problem → Reason

-- The crates that are used, and the formatting of texts.
pub record Services : Type 0 where
  pub crypto : Crypto
  pub codec : Codec
  pub unhex : List ℕ → Option (List ℕ)
  pub describe : Reason → List ℕ
  pub decimal : ℕ → List ℕ

-- What is outside answered: the clock, the random bytes, the hashes of the certificates, both times,
-- whether the file of the devices could be written, the reads (nothing where one failed), and
-- whether a frame could be written.
pub record Answers : Type 0 where
  pub now : ℕ
  pub fresh_token : List ℕ
  pub challenge : List ℕ
  pub hashes : Option (List (List ℕ))
  pub hashes_then : Option (List (List ℕ))
  pub dropped : Bool
  pub updated : Bool
  pub saved : Bool
  pub reads : List (Option (List ℕ))
  pub challenge_written : Bool
  pub ok_written : Bool
  pub outside : Outside

-- The daemon after it, what was written to the stream, and the user that was authenticated.
pub record Outcome : Type 0 where
  pub daemon : Daemon
  pub sent : List (List ℕ)
  pub authed : Option ℕ

-- A frame that could be encoded is written; whether that went well is not looked at.
abbrev pub written : Proto.Result (List ℕ) → List (List ℕ)
written (ok f) = f ∷ []
written (err e) = []

abbrev pub zeros : ℕ → List ℕ
zeros n = replicate n 0

abbrev pub Next : Type 0
Next = (ℕ × List ℕ) ⊎ Reason

-- A frame that has arrived, or what the reads bring.
abbrev frame_or : Proto.Result (Option (ℕ × List ℕ)) → Next → Next
frame_or (err e) more = inr (frame_error e)
frame_or (ok (some f)) more = inl f
frame_or (ok none) more = more

unfoldable pub next_frame : List ℕ → List (Option (List ℕ)) → Next
next_frame buf [] = frame_or (split_frame buf).0 (inr end_of_stream)
next_frame buf (none ∷ reads) = frame_or (split_frame buf).0 (inr end_of_stream)
next_frame buf (some [] ∷ reads) = frame_or (split_frame buf).0 (inr end_of_stream)
next_frame buf (some (x ∷ chunk) ∷ reads) =
    let more = next_frame (buf ++ (x ∷ chunk)) reads in frame_or (split_frame buf).0 more

abbrev pub sent_fail : (Reason → List ℕ) → Reason → List (List ℕ)
sent_fail describe r = written (encode_auth_fail (describe r))

-- A session that is resumed has to be the user's, and its token the one that was sent.
abbrev pub resumed : ℕ → AuthHello → Option (List ℕ × Registered) → (List ℕ × List ℕ) ⊎ Reason
resumed uid hello none = inr not_theirs
resumed uid hello (some e) =
    if e.1.uid == uid && same e.1.token hello.session_token
    then inl (hello.session_id, hello.session_token)
    else inr not_theirs

abbrev spawned_or : Daemon × ((List ℕ × List ℕ) ⊎ Problem) → Daemon × ((List ℕ × List ℕ) ⊎ Reason)
spawned_or (d, inl s) = (d, inl s)
spawned_or (d, inr e) = (d, inr (no_session e))

unfoldable pub resolve_session :
    ℕ → Daemon → ℕ → AuthHello → ℕ → ℕ → Outside → Daemon × ((List ℕ × List ℕ) ⊎ Reason)
resolve_session max_cell_count d uid hello cols rows o =
    if same hello.session_id (zeros 16)
    then spawned_or (spawn_session max_cell_count d uid cols rows o)
    else (d, resumed uid hello (find_by (with_id hello.session_id) d.sessions))

-- `{name}@{origin}`, or `uid-{uid}@{origin}`
abbrev pub user_name_of : (ℕ → List ℕ) → Option (List ℕ) → ℕ → List ℕ → List ℕ
user_name_of decimal (some name) uid origin = name ++ (b'@' ∷ origin)
user_name_of decimal none uid origin =
    (b'u' ∷ b'i' ∷ b'd' ∷ b'-' ∷ []) ++ (decimal uid ++ (b'@' ∷ origin))

-- The user and the credential of a ceremony.
abbrev pub Proved : Type 0
Proved = (ℕ × List ℕ) ⊎ Reason

abbrev stored : Daemon → ℕ → List ℕ → DeviceStore × Bool → Daemon × Proved
stored d uid id (s, true) = (record d { devices = s }, inl (uid, id))
stored d uid id (s, false) = (record d { devices = s }, inr not_stored)

module _ (v : Services) where
  enroll_verified : Daemon → ℕ → Answers → Webauthn.Result Ceremony.Registered → Daemon × Proved
  enroll_verified d uid a (Webauthn.err e) = (d, inr (refused e))
  enroll_verified d uid a (Webauthn.ok reg) =
      let id = v.codec.hex reg.credential_id in
      stored d uid id (
        register v.codec d.devices
          (record {
            uid = uid;
            credential_id = id;
            public_key = v.codec.hex reg.public_key;
            rp_id = d.rp_id;
            origin = d.origin;
            user_name = user_name_of v.decimal a.outside.unix_name uid d.origin;
            sign_count = reg.sign_count;
            created = a.now;
            last_used = some a.now;
          })
          a.updated)

  enroll_spent : Daemon → Enroll → Answers → Option ℕ → Daemon × Proved
  unfolding enroll_verified
  enroll_spent d e a none = (d, inr invalid_nonce)
  enroll_spent d e a (some uid) = enroll_verified d uid a (
      verify_registration v.crypto d.rp_id d.origin a.challenge e.client_data_json
        e.attestation_object)

  enroll_decoded : Daemon → Answers → Proto.Result Enroll → Daemon × Proved
  unfolding enroll_spent
  enroll_decoded d a (err e) = (d, inr enroll_frame)
  enroll_decoded d a (ok e) =
      let (nonces, uid) = consume d.nonces e.nonce a.now in
      enroll_spent (record d { nonces = nonces }) e a uid

  unfoldable pub do_enroll : Daemon → List ℕ → Answers → Daemon × Proved
  unfolding enroll_decoded
  do_enroll d reply a = enroll_decoded d a (decode_enroll reply)

  assert_verified : Daemon → Registration → List ℕ → Answers → Webauthn.Result ℕ → Daemon × Proved
  assert_verified d reg id a (Webauthn.err e) = (d, inr (refused e))
  assert_verified d reg id a (Webauthn.ok sign_count) =
      stored d reg.uid id (touched v.codec d.devices id sign_count a.now a.updated)

  assert_keyed :
      Daemon → Assert → Registration → List ℕ → Answers → Option (List ℕ) → Daemon × Proved
  unfolding assert_verified
  assert_keyed d s reg id a none = (d, inr stored_key)
  assert_keyed d s reg id a (some key) = assert_verified d reg id a (
      verify_assertion v.crypto d.rp_id d.origin a.challenge s.client_data_json s.authenticator_data
        s.signature key)

  assert_found : Daemon → Assert → List ℕ → Answers → Option Registration → Daemon × Proved
  unfolding assert_keyed
  assert_found d s id a none = (d, inr unknown_credential)
  assert_found d s id a (some reg) = assert_keyed d s reg id a (v.unhex reg.public_key)

  assert_decoded : Daemon → Answers → Proto.Result Assert → Daemon × Proved
  unfolding assert_found
  assert_decoded d a (err e) = (d, inr (assert_frame e))
  assert_decoded d a (ok s) =
      let id = v.codec.hex s.credential_id in assert_found d s id a (find d.devices id)

  unfoldable pub do_assert : Daemon → List ℕ → Answers → Daemon × Proved
  unfolding assert_decoded
  do_assert d reply a = assert_decoded d a (decode_assert reply)

abbrev pub ended : Daemon → List (List ℕ) → Outcome
ended d sent = record { daemon = d; sent = sent; authed = none }

-- `if hello.cols == 0 { 80 }`
abbrev pub or_default : ℕ → ℕ → ℕ
or_default n default = if n == 0 then default else n

send_ok : Daemon → List (List ℕ) → ℕ → Bool → Proto.Result (List ℕ) → Outcome
send_ok d sent uid ok_written (err e) = ended d sent
send_ok d sent uid ok_written (ok f) = record {
  daemon = d;
  sent = sent ++ (f ∷ []);
  authed = if ok_written then some uid else none;
}

module _ (max_cell_count : ℕ) (v : Services) where
  fail_with : Daemon → List (List ℕ) → Reason → Outcome
  fail_with d sent r = ended d (sent ++ sent_fail v.describe r)

  answer :
      List (List ℕ)
      → ℕ
      → List ℕ
      → List (List ℕ)
      → Answers
      → Daemon × ((List ℕ × List ℕ) ⊎ Reason)
      → Outcome
  unfolding fail_with send_ok
  answer sent uid token hashes a (d, inr r) = fail_with d sent r
  answer sent uid token hashes a (d, inl (id, secret)) = send_ok d sent uid a.ok_written (
      encode_auth_ok (record {
        auth_token = token;
        uid = uid;
        session_id = id;
        session_token = secret;
        hashes = hashes;
      }))

  -- The end of both ways, once a token was made.
  conclude :
      Daemon
      → List (List ℕ)
      → ℕ
      → AuthHello
      → Answers
      → Option (List (List ℕ))
      → DeviceStore × Option (List ℕ)
      → Outcome
  unfolding answer
  conclude d sent uid hello a hashes (s, none) = ended (record d { devices = s }) sent
  conclude d sent uid hello a none (s, some token) = ended (record d { devices = s }) sent
  conclude d sent uid hello a (some hashes) (s, some token) = answer sent uid token hashes a (
      resolve_session max_cell_count (record d { devices = s }) uid hello (or_default hello.cols 80)
        (or_default hello.rows 24) a.outside)

  proved : List (List ℕ) → AuthHello → Answers → Daemon × Proved → Outcome
  unfolding conclude
  proved sent hello a (d, inr r) = fail_with d sent r
  proved sent hello a (d, inl (uid, id)) =
      conclude d sent uid hello a a.hashes_then
        (issue_token v.codec d.devices a.fresh_token uid (some id) a.now a.saved)

  replied : Daemon → List (List ℕ) → AuthHello → Answers → Next → Outcome
  unfolding proved
  replied d sent hello a (inr r) = fail_with d sent r
  replied d sent hello a (inl (typ, reply)) = proved sent hello a (
      if typ == Msg.enroll
      then do_enroll v d reply a
      else if typ == Msg.assert
      then do_assert v d reply a
      else (d, inr unexpected))

  challenged : Daemon → List ℕ → AuthHello → Answers → Proto.Result (List ℕ) → Outcome
  unfolding replied
  challenged d buf hello a (err e) = ended d []
  challenged d buf hello a (ok f) =
      if a.challenge_written
      then replied d (f ∷ []) hello a (next_frame buf a.reads)
      else ended d (f ∷ [])

  ceremony : Daemon → List ℕ → AuthHello → Answers → Option (List (List ℕ)) → Outcome
  unfolding challenged
  ceremony d buf hello a none = ended d []
  ceremony d buf hello a (some hashes) =
      challenged d buf hello a
        (encode_challenge (record { challenge = a.challenge; rp_id = d.rp_id; hashes = hashes }))

  by_token : Daemon → List ℕ → AuthHello → Answers → Option ℕ → Outcome
  unfolding ceremony
  by_token d buf hello a none = ceremony d buf hello a a.hashes
  by_token d buf hello a (some uid) = conclude d [] uid hello a a.hashes (
      rotate_token v.codec d.devices (some hello.auth_token) a.fresh_token uid none a.now a.dropped
        a.saved)

  -- The user of a token that is not blank and is live.
  abbrev pub token_user : Daemon → AuthHello → Answers → Option ℕ
  token_user d hello a =
      if same hello.auth_token (zeros 32)
      then none
      else validate_token v.codec d.devices hello.auth_token a.now

  greeted : Daemon → List ℕ → Answers → Proto.Result AuthHello → Outcome
  unfolding by_token
  greeted d buf a (err e) = ended d []
  greeted d buf a (ok hello) = by_token d buf hello a (token_user d hello a)

  unfoldable pub run : Daemon → List ℕ → List ℕ → Answers → Outcome
  unfolding greeted
  run d buf payload a = greeted d buf a (decode_auth_hello payload)
