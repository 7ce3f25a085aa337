-- ===== src/Auth/Authorised.antt =====
-- Who is authenticated by the handshake, and which session is opened.
use quosh.Base.{
  ℕ, ◌≡◌, refl, sym, ap, ◌∙◌, ◌⊎◌, inl, inr, Bool, true, false, Option, none, some, List, [], ◌∷◌,
  ◌++◌, ◌==◌, if◌then◌else◌, ==_iff, Bool-cases,
}
use quosh.Auth.{
  zeros, Next, next_frame, resumed, spawned_or, resolve_session, Proved, stored, enroll_verified,
  enroll_spent, enroll_decoded, do_enroll, assert_verified, assert_keyed, assert_found,
  assert_decoded, do_assert, ended, send_ok, fail_with, answer, conclude, proved, replied,
  challenged, ceremony, by_token, token_user, greeted, run, Reason, Services, Answers, Outcome,
}
use mathlib.Core.Path.{subst}
use quosh.Devices.Search.{same, find_by, same_iff}
use quosh.Devices.{validate_token, find, Registration, DeviceStore}
use quosh.Enroll.{consume}
use quosh.Daemon.{with_id, Daemon, Problem, Outside}
use quosh.Daemon.Spawned.{Started, spawn_session-Started, Theirs}
use quosh.Transport.Admit.{Registered}
use quosh.Proto.{Result, err, ok}
use quosh.Proto.Auth.{
  decode_auth_hello, encode_auth_ok, decode_enroll, decode_assert, AuthHello, Enroll, Assert,
  AuthOk,
}
use quosh.Proto.Msg
use quosh.Webauthn
use quosh.Webauthn.Ceremony
use quosh.Webauthn.Ceremony.{verify_registration, verify_assertion}

-- How a user proved who he is.
pub data Proof (v : Services) (d : Daemon) (a : Answers) (hello : AuthHello) (uid : ℕ)
    : Type 0 where
  -- by a live token that is not blank
  live_token :
      same hello.auth_token (zeros 32) ≡ false
      → validate_token v.codec d.devices hello.auth_token a.now ≡ some uid
      → Proof v d a hello uid
  -- by a nonce that was issued for him, with a new passkey that was verified
  enrolled :
      (e : Enroll) (reg : Ceremony.Registered)
      → (consume d.nonces e.nonce a.now).1 ≡ some uid
      → verify_registration v.crypto d.rp_id d.origin a.challenge e.client_data_json
          e.attestation_object
        ≡ Webauthn.ok reg
      → Proof v d a hello uid
  -- by an assertion that the key verifies which was registered for him
  asserted :
      (s : Assert) (reg : Registration) (key : List ℕ) (n : ℕ)
      → find d.devices (v.codec.hex s.credential_id) ≡ some reg
      → reg.uid ≡ uid
      → v.unhex reg.public_key ≡ some key
      → verify_assertion v.crypto d.rp_id d.origin a.challenge s.client_data_json
          s.authenticator_data s.signature key
        ≡ Webauthn.ok n
      → Proof v d a hello uid

-- The last frame names the user, and a session of his with its token.
pub record Opened (o : Outcome) (uid : ℕ) : Type 0 where
  pub id : List ℕ
  pub secret : List ℕ
  pub auth_token : List ℕ
  pub hashes : List (List ℕ)
  pub theirs : Theirs o.daemon uid id secret
  pub frame : List ℕ
  pub encoded :
      encode_auth_ok (record {
        auth_token = auth_token;
        uid = uid;
        session_id = id;
        session_token = secret;
        hashes = hashes;
      })
      ≡ ok frame
  pub before : List (List ℕ)
  pub answered : o.sent ≡ before ++ (frame ∷ [])

abbrev Resolved : Daemon → ℕ → Daemon × ((List ℕ × List ℕ) ⊎ Reason) → Type 0
Resolved d uid (d', inr r) = Unit
Resolved d uid (d', inl (id, secret)) = Theirs d' uid id secret

module _ (max_cell_count : ℕ) (v : Services) where
  resolve_session-Resolved :
      (d : Daemon) (uid : ℕ) (hello : AuthHello) (cols rows : ℕ) (o : Outside)
      → Resolved d uid (resolve_session max_cell_count d uid hello cols rows o)
  unfolding resolve_session
  resolve_session-Resolved d uid hello cols rows o =
      elim (Bool-cases (same hello.session_id (zeros 16))) [
        | inl t ↦ rw t (by_spawn _ (spawn_session-Started d uid o max_cell_count cols rows))
        | inr f ↦ rw f (by_found (find_by (with_id hello.session_id) d.sessions) refl)
      ]
    where
      by_spawn :
          (r : Daemon × ((List ℕ × List ℕ) ⊎ Problem))
          → Started d uid r
          → Resolved d uid (spawned_or r)
      by_spawn (d', inl (id, secret)) h = h.1
      by_spawn (d', inr e) h = tt

      by_found :
          (e : Option (List ℕ × Registered))
          → find_by (with_id hello.session_id) d.sessions ≡ e
          → Resolved d uid (d, resumed uid hello e)
      by_found none h = tt
      by_found (some e) h = elim (Bool-cases (e.1.uid == uid)) [
        | inr f ↦ rw f tt
        | inl t ↦ elim (Bool-cases (same e.1.token hello.session_token)) [
          | inr f ↦ rw (t, f) tt
          | inl s ↦
              rw (t, s)
                (record {
                  entry = e;
                  found = h;
                  own = (==_iff e.1.uid uid).0 t;
                  token = (same_iff e.1.token hello.session_token).0 s;
                })
        ]
      ]

  -- What `authed` promises of a whole run.
  abbrev Opens : (ℕ → Type 0) → Outcome → Type 0
  Opens P o = (u : ℕ) → o.authed ≡ some u → P u × Opened o u

  answer-Opens :
      (P : ℕ → Type 0) (d : Daemon) (sent : List (List ℕ)) (uid : ℕ) (token : List ℕ)
      (hashes : List (List ℕ)) (a : Answers) (r : Daemon × ((List ℕ × List ℕ) ⊎ Reason))
      → Resolved d uid r
      → P uid
      → Opens P (answer max_cell_count v sent uid token hashes a r)
  unfolding answer fail_with send_ok
  answer-Opens P d sent uid token hashes a (d', inr r) h p = λ u e. cc
  answer-Opens P d sent uid token hashes a (d', inl (id, secret)) h p =
      by_frame (encode_auth_ok ok_message) refl a.ok_written
    where
      ok_message : AuthOk
      ok_message = record {
        auth_token = token;
        uid = uid;
        session_id = id;
        session_token = secret;
        hashes = hashes;
      }

      by_frame :
          (f : Result (List ℕ))
          → encode_auth_ok ok_message ≡ f
          → (w : Bool) → Opens P (send_ok d' sent uid w f)
      by_frame (err x) e w = λ u g. cc
      by_frame (ok f) e false = λ u g. cc
      by_frame (ok f) e true = λ u g.
          let same_user : uid ≡ u = cc in
          subst (λ x. P x × Opened (send_ok d' sent uid true (ok f)) x) same_user
            (
              p,
              record {
                id = id;
                secret = secret;
                auth_token = token;
                hashes = hashes;
                theirs = h;
                frame = f;
                encoded = e;
                before = sent;
                answered = refl;
              },
            )

  conclude-Opens :
      (P : ℕ → Type 0) (d : Daemon) (sent : List (List ℕ)) (uid : ℕ) (hello : AuthHello)
      (a : Answers) (hashes : Option (List (List ℕ))) (r : DeviceStore × Option (List ℕ))
      → P uid
      → Opens P (conclude max_cell_count v d sent uid hello a hashes r)
  unfolding conclude
  conclude-Opens P d sent uid hello a hashes (s, none) p = λ u e. cc
  conclude-Opens P d sent uid hello a none (s, some token) p = λ u e. cc
  conclude-Opens P d sent uid hello a (some hashes) (s, some token) p =
      answer-Opens P (record d { devices = s }) sent uid token hashes a _
        (resolve_session-Resolved (record d { devices = s }) uid hello _ _ a.outside) p

  -- What a ceremony that ended well shows of its user.
  abbrev Shows : (ℕ → Type 0) → Daemon × Proved → Type 0
  Shows P (d, inr r) = Unit
  Shows P (d, inl (uid, id)) = P uid

  proved-Opens :
      (P : ℕ → Type 0) (sent : List (List ℕ)) (hello : AuthHello) (a : Answers)
      (r : Daemon × Proved)
      → Shows P r
      → Opens P (proved max_cell_count v sent hello a r)
  unfolding proved fail_with
  proved-Opens P sent hello a (d, inr r) p = λ u e. cc
  proved-Opens P sent hello a (d, inl (uid, id)) p =
      conclude-Opens P d sent uid hello a a.hashes_then _ p

  stored-Shows :
      (P : ℕ → Type 0) (d : Daemon) (uid : ℕ) (id : List ℕ) (r : DeviceStore × Bool)
      → P uid
      → Shows P (stored d uid id r)
  stored-Shows P d uid id (s, true) p = p
  stored-Shows P d uid id (s, false) p = tt

  module _ (d : Daemon) (hello : AuthHello) (a : Answers) where
    abbrev Proves : Daemon × Proved → Type 0
    Proves r = Shows (Proof v d a hello) r

    do_enroll-Shows : (reply : List ℕ) → Proves (do_enroll v d reply a)
    unfolding do_enroll enroll_decoded enroll_spent enroll_verified consume
    do_enroll-Shows reply = by_decoded (decode_enroll reply)
      where
        by_verified :
            (e : Enroll) (uid : ℕ) (d' : Daemon) (r : Webauthn.Result Ceremony.Registered)
            → (consume d.nonces e.nonce a.now).1 ≡ some uid
            → verify_registration v.crypto d.rp_id d.origin a.challenge e.client_data_json
                e.attestation_object
              ≡ r
            → Proves (enroll_verified v d' uid a r)
        by_verified e uid d' (Webauthn.err x) h k = tt
        by_verified e uid d' (Webauthn.ok reg) h k =
            stored-Shows (Proof v d a hello) d' uid _ _ (enrolled e reg h k)

        by_spent :
            (e : Enroll) (d' : Daemon) (o : Option ℕ)
            → (consume d.nonces e.nonce a.now).1 ≡ o
            → d'.rp_id ≡ d.rp_id
            → d'.origin ≡ d.origin
            → Proves (enroll_spent v d' e a o)
        by_spent e d' none h k l = tt
        by_spent e d' (some uid) h k l = by_verified e uid d' _ h (
            ap
              (λ x.
                verify_registration v.crypto x d.origin a.challenge e.client_data_json
                  e.attestation_object)
              (sym k)
            ∙ ap
                (λ x.
                  verify_registration v.crypto d'.rp_id x a.challenge e.client_data_json
                    e.attestation_object)
                (sym l))

        by_decoded : (r : Result Enroll) → Proves (enroll_decoded v d a r)
        by_decoded (err x) = tt
        by_decoded (ok e) = by_spent e _ (consume d.nonces e.nonce a.now).1 refl refl refl

    do_assert-Shows : (reply : List ℕ) → Proves (do_assert v d reply a)
    unfolding do_assert assert_decoded assert_found assert_keyed assert_verified
    do_assert-Shows reply = by_decoded (decode_assert reply)
      where
        by_verified :
            (s : Assert) (reg : Registration) (key : List ℕ) (r : Webauthn.Result ℕ)
            → find d.devices (v.codec.hex s.credential_id) ≡ some reg
            → v.unhex reg.public_key ≡ some key
            → verify_assertion v.crypto d.rp_id d.origin a.challenge s.client_data_json
                s.authenticator_data s.signature key
              ≡ r
            → Proves (assert_verified v d reg (v.codec.hex s.credential_id) a r)
        by_verified s reg key (Webauthn.err x) f k h = tt
        by_verified s reg key (Webauthn.ok n) f k h =
            stored-Shows (Proof v d a hello) d reg.uid _ _ (asserted s reg key n f refl k h)

        by_key :
            (s : Assert) (reg : Registration) (o : Option (List ℕ))
            → find d.devices (v.codec.hex s.credential_id) ≡ some reg
            → v.unhex reg.public_key ≡ o
            → Proves (assert_keyed v d s reg (v.codec.hex s.credential_id) a o)
        by_key s reg none f k = tt
        by_key s reg (some key) f k = by_verified s reg key _ f k refl

        by_found :
            (s : Assert) (o : Option Registration)
            → find d.devices (v.codec.hex s.credential_id) ≡ o
            → Proves (assert_found v d s (v.codec.hex s.credential_id) a o)
        by_found s none f = tt
        by_found s (some reg) f = by_key s reg (v.unhex reg.public_key) f refl

        by_decoded : (r : Result Assert) → Proves (assert_decoded v d a r)
        by_decoded (err x) = tt
        by_decoded (ok s) = by_found s (find d.devices (v.codec.hex s.credential_id)) refl

    replied-Opens :
        (sent : List (List ℕ)) (r : Next)
        → Opens (Proof v d a hello) (replied max_cell_count v d sent hello a r)
    unfolding replied fail_with
    replied-Opens sent (inr r) = λ u e. cc
    replied-Opens sent (inl (typ, reply)) = proved-Opens (Proof v d a hello) sent hello a _ (
        if_Shows (typ == Msg.enroll) _ _ (do_enroll-Shows reply)
          (if_Shows (typ == Msg.assert) _ _ (do_assert-Shows reply) tt))
      where
        if_Shows :
            (b : Bool) (x y : Daemon × Proved) → Proves x → Proves y → Proves (if b then x else y)
        if_Shows true x y h k = h
        if_Shows false x y h k = k

    challenged-Opens :
        (buf : List ℕ) (r : Result (List ℕ))
        → Opens (Proof v d a hello) (challenged max_cell_count v d buf hello a r)
    unfolding challenged
    challenged-Opens buf (err x) = λ u e. cc
    challenged-Opens buf (ok f) = by_written a.challenge_written
      where
        by_written :
            (b : Bool)
            → Opens (Proof v d a hello) (
                if b
                then replied max_cell_count v d (f ∷ []) hello a (next_frame buf a.reads)
                else ended d (f ∷ []))
        by_written true = replied-Opens (f ∷ []) (next_frame buf a.reads)
        by_written false = λ u e. cc

    ceremony-Opens :
        (buf : List ℕ) (hashes : Option (List (List ℕ)))
        → Opens (Proof v d a hello) (ceremony max_cell_count v d buf hello a hashes)
    unfolding ceremony
    ceremony-Opens buf none = λ u e. cc
    ceremony-Opens buf (some hashes) = challenged-Opens buf _

    by_token-Opens :
        (buf : List ℕ) (o : Option ℕ)
        → token_user max_cell_count v d hello a ≡ o
        → Opens (Proof v d a hello) (by_token max_cell_count v d buf hello a o)
    unfolding by_token
    by_token-Opens buf none h = ceremony-Opens buf a.hashes
    by_token-Opens buf (some uid) h =
        conclude-Opens (Proof v d a hello) d [] uid hello a a.hashes _ (by_test h)
      where
        by_test : token_user max_cell_count v d hello a ≡ some uid → Proof v d a hello uid
        by_test = elim (Bool-cases (same hello.auth_token (zeros 32))) [
          | inl t ↦ rw t (λ g. cc)
          | inr f ↦ rw f (λ g. live_token f g)
        ]

  -- A browser is authenticated as a user only by a live token of that user, by a nonce that was
  -- issued for him with a new passkey that was verified, or by an assertion that the key verifies
  -- which was registered for him; and then the last frame names him and a session of the registry
  -- that is his, with its token.
  pub run-Authorised :
      (d : Daemon) (buf payload : List ℕ) (a : Answers) (uid : ℕ)
      → (run max_cell_count v d buf payload a).authed ≡ some uid
      → (hello : AuthHello) × (decode_auth_hello payload ≡ ok hello)
        × Proof v d a hello uid
        × Opened (run max_cell_count v d buf payload a) uid
  unfolding run greeted
  run-Authorised d buf payload a uid = by_hello (decode_auth_hello payload) refl
    where
      by_hello :
          (r : Result AuthHello)
          → decode_auth_hello payload ≡ r
          → (greeted max_cell_count v d buf a r).authed ≡ some uid
          → (hello : AuthHello) × (decode_auth_hello payload ≡ ok hello)
            × Proof v d a hello uid
            × Opened (greeted max_cell_count v d buf a r) uid
      by_hello (err x) h = λ e. cc
      by_hello (ok hello) h = λ e.
          let (p, o) =
            by_token-Opens d hello a buf (token_user max_cell_count v d hello a) refl uid e in
          (hello, h, p, o)
