-- ===== src/Transport/Admit.antt =====
-- `handle_incoming` of crates/quosh-server/src/transport.rs: which session a first `Hello` opens.
use quosh.Base.{
  ℕ, ◌≡◌, refl, sym, ap, ◌∙◌, ◌↔◌, inl, inr, Bool, true, false, ◌&&◌, not, Option, none, some, List,
  arith, ltb, ◌==◌, if◌then◌else◌, ==_iff, Bool-cases,
}
use quosh.Proto.{protocol_version, Result, err, ok}
use quosh.Proto.Msg
use quosh.Proto.Message.{decode_hello, Hello}
use quosh.Devices.Search.{same, same_iff}
use quosh.Session.Handle.{Session}

-- A session of the registry, with what `Session` holds for good.
pub record Registered : Type 0 where
  pub token : List ℕ
  pub uid : ℕ
  pub sess : Session

pub data Verdict : Type 0 where
  -- `Error` with this code, and the end of the stream
  rejected : ℕ → Verdict
  admitted : Registered → Option (ℕ × ℕ) → Verdict

abbrev pub pending_hello_size : Hello → Option (ℕ × ℕ)
pending_hello_size h = if ltb 0 h.cols && ltb 0 h.rows then some (h.cols, h.rows) else none

abbrev pub foreign : Option ℕ → Registered → Bool
foreign none r = false
foreign (some uid) r = not (r.uid == uid)

admit_session : Option ℕ → Hello → Option Registered → Verdict
admit_session auth_uid h none = rejected 2
admit_session auth_uid h (some r) =
    if not (same r.token h.token)
    then rejected 3
    else if foreign auth_uid r
    then rejected 5
    else admitted r (pending_hello_size h)

admit_hello : (List ℕ → Option Registered) → Option ℕ → Result Hello → Verdict
unfolding admit_session
admit_hello get auth_uid (err e) = rejected 4
admit_hello get auth_uid (ok h) =
    if h.protocol == protocol_version
    then admit_session auth_uid h (get h.session_id)
    else rejected 4

-- `get` looks the registry up; `auth_uid` is the user that a browser's handshake authenticated.
unfoldable pub admit : (List ℕ → Option Registered) → Option ℕ → ℕ → List ℕ → Verdict
unfolding admit_hello
admit get auth_uid typ payload =
    if not (typ == Msg.hello) then rejected 1 else admit_hello get auth_uid (decode_hello payload)

-- The session was asked for by its id and its token, in this version of the protocol, and belongs
-- to the user that was authenticated, if one was.
pub record Opens (get : List ℕ → Option Registered) (auth_uid : Option ℕ) (typ : ℕ)
    (payload : List ℕ) (r : Registered) (size : Option (ℕ × ℕ)) : Type 0 where
  pub hello : Hello
  pub greeted : typ ≡ Msg.hello
  pub decoded : decode_hello payload ≡ ok hello
  pub version : hello.protocol ≡ protocol_version
  pub known : get hello.session_id ≡ some r
  pub secret : r.token ≡ hello.token
  pub own : foreign auth_uid r ≡ false
  pub sized : size ≡ pending_hello_size hello

module _ (get : List ℕ → Option Registered) (auth_uid : Option ℕ) (typ : ℕ) (payload : List ℕ)
    (r : Registered) (size : Option (ℕ × ℕ)) where
  admitted-Opens :
      admit get auth_uid typ payload ≡ admitted r size → Opens get auth_uid typ payload r size
  unfolding admit
  admitted-Opens = elim (Bool-cases (typ == Msg.hello)) [
    | inr n ↦ rw n (λ e. absurd (ground arith))
    | inl t ↦ rw t (by_hello (decode_hello payload) refl ((==_iff typ Msg.hello).0 t))
  ]
    where
      by_session :
          (h : Hello) (o : Option Registered)
          → get h.session_id ≡ o
          → decode_hello payload ≡ ok h
          → typ ≡ Msg.hello
          → h.protocol ≡ protocol_version
          → admit_session auth_uid h o ≡ admitted r size
          → Opens get auth_uid typ payload r size
      by_session h none g d t p = λ e. absurd (ground arith)
      by_session h (some q) g d t p = elim (Bool-cases (same q.token h.token)) [
        | inr n ↦ rw n (λ e. absurd (ground arith))
        | inl s ↦ elim (Bool-cases (foreign auth_uid q)) [
          | inl f ↦ rw (s, f) (λ e. absurd (ground arith))
          | inr f ↦
              rw (s, f)
                λ e.
                  let q_r : q ≡ r = cc in
                  record {
                    hello = h;
                    greeted = t;
                    decoded = d;
                    version = p;
                    known = g ∙ ap some q_r;
                    secret =
                        ap (λ (x : Registered). x.token) (sym q_r) ∙ (same_iff q.token h.token).0 s;
                    own = ap (foreign auth_uid) (sym q_r) ∙ f;
                    sized = cc;
                  }
        ]
      ]

      by_hello :
          (d : Result Hello)
          → decode_hello payload ≡ d
          → typ ≡ Msg.hello
          → admit_hello get auth_uid d ≡ admitted r size
          → Opens get auth_uid typ payload r size
      by_hello (err x) d t = λ e. absurd (ground arith)
      by_hello (ok h) d t = elim (Bool-cases (h.protocol == protocol_version)) [
        | inr n ↦ rw n (λ e. absurd (ground arith))
        | inl p ↦
            rw p
              (by_session h (get h.session_id) refl d t ((==_iff h.protocol protocol_version).0 p))
      ]

  Opens-admitted :
      Opens get auth_uid typ payload r size → admit get auth_uid typ payload ≡ admitted r size
  unfolding admit
  Opens-admitted o =
      let t : (typ == Msg.hello) ≡ true = (==_iff typ Msg.hello).1 o.greeted in
      let p : (o.hello.protocol == protocol_version) ≡ true =
        (==_iff o.hello.protocol protocol_version).1 o.version in
      let s : same r.token o.hello.token ≡ true = (same_iff r.token o.hello.token).1 o.secret in
      simp (t, o.decoded, p, o.known, s, o.own, o.sized)

  -- A connection is admitted to a session exactly when its first message is a `Hello` of this
  -- version with the id and the token of the session, and the session belongs to the user whom the
  -- connection authenticated, if it did.
  pub admit_iff :
      (admit get auth_uid typ payload ≡ admitted r size) ↔ Opens get auth_uid typ payload r size
  admit_iff = (admitted-Opens, Opens-admitted)
