-- ===== src/Daemon.antt =====
-- `Daemon` of crates/quosh-server/src/helper.rs: the registry of sessions, and the requests of the
-- local socket. A map is a list of its entries. The text of an error is a constructor.
pub mod Line
pub mod Limits
pub mod Isolation
pub mod Spawned
mod Tests
use quosh.Base.{
  ℕ, ◌*◌, ◌⊎◌, inl, inr, Bool, true, false, ◌&&◌, not, Option, none, some, List, [], ◌∷◌, map, leb,
  ◌==◌, if◌then◌else◌, length,
}
use quosh.Devices.Search.{same, retain, find_by}
use quosh.Devices.{
  revoke_credential, revoke_all, revoke_sessions, registrations_of, tokens_of, Registration, Codec,
  DeviceStore,
}
use quosh.Enroll.{NonceStore, issue}
use quosh.Session.Handle.{spawned, request_hangup, detached_secs}
use quosh.Transport.Admit.{Registered}
use quosh.Proto.Message.{validate_dims, DimsError}

abbrev pub max_sessions : ℕ
max_sessions = 128

abbrev pub max_per_uid : ℕ
max_per_uid = 32

abbrev pub idle_secs_limit : ℕ
idle_secs_limit = 7 * 24 * 60 * 60

abbrev pub Registry : Type 0
Registry = List (List ℕ × Registered)

-- `ended` are the handles that were told to hang up.
pub record Daemon : Type 0 where
  pub sessions : Registry
  pub ended : List Registered
  pub devices : DeviceStore
  pub nonces : NonceStore
  pub port : ℕ
  pub rp_id : List ℕ
  pub origin : List ℕ

pub record HelperRequest : Type 0 where
  pub op : List ℕ
  pub cols : ℕ
  pub rows : ℕ
  pub kill_idle : Bool
  pub credential : Option (List ℕ)
  pub all : Bool
  pub sessions : Bool

pub data Problem : Type 0 where
  certificate unknown_op bad_dims sessions_full user_full not_spawned : Problem
  no_match several_match nothing_to_revoke not_saved : Problem

pub record IdleInfo : Type 0 where
  pub id : List ℕ
  pub idle_secs : ℕ

pub record DeviceInfo : Type 0 where
  pub credential : List ℕ
  pub user : List ℕ
  pub created : ℕ
  pub last_used : Option ℕ

pub record HelperResponse : Type 0 where
  pub is_ok : Bool
  pub error : Option Problem
  pub session_id : Option (List ℕ)
  pub token : Option (List ℕ)
  pub port : Option ℕ
  pub cert_sha256 : Option (List ℕ)
  pub idle : List IdleInfo
  pub nonce : Option (List ℕ)
  pub user : Option (List ℕ)
  pub devices : List DeviceInfo
  pub sessions : List (List ℕ × ℕ)
  pub revoked : Option ℕ

-- What is outside answered: the certificate's hash, the name of the user, whether the file of the
-- devices could be written, whether the shell could be started, the random bytes and the clocks, in
-- seconds and in milliseconds.
pub record Outside : Type 0 where
  pub cert : Option (List ℕ)
  pub unix_name : Option (List ℕ)
  pub saved : Bool
  pub started : Bool
  pub nonce : List ℕ
  pub id : List ℕ
  pub token : List ℕ
  pub now : ℕ
  pub now_ms : ℕ

abbrev pub default_response : HelperResponse
default_response = record {
  is_ok = false;
  error = none;
  session_id = none;
  token = none;
  port = none;
  cert_sha256 = none;
  idle = [];
  nonce = none;
  user = none;
  devices = [];
  sessions = [];
  revoked = none;
}

abbrev pub fail : Problem → HelperResponse
fail p = record default_response { error = some p }

abbrev pub owned_by : ℕ → List ℕ × Registered → Bool
owned_by uid e = e.1.uid == uid

abbrev pub with_id : List ℕ → List ℕ × Registered → Bool
with_id id e = same e.0 id

-- `HashMap::remove` and `HashMap::insert`
abbrev pub remove : List ℕ → Registry → Registry
remove id g = retain (λ e. not (with_id id e)) g

abbrev pub insert : List ℕ → Registered → Registry → Registry
insert id r g = (id, r) ∷ remove id g

abbrev pub hung_up : Registered → Registered
hung_up r = record r { sess = request_hangup r.sess }

abbrev pub ended_with : Option (List ℕ × Registered) → List Registered → List Registered
ended_with none l = l
ended_with (some e) l = hung_up e.1 ∷ l

-- `if let Some(s) = g.remove(&id) { s.request_hangup(); }`
unfoldable pub destroy : Daemon → List ℕ → Daemon
destroy d id = record d {
  sessions = remove id d.sessions;
  ended = ended_with (find_by (with_id id) d.sessions) d.ended;
}

abbrev pub destroy_all : Daemon → List (List ℕ) → Daemon
destroy_all d [] = d
destroy_all d (id ∷ ids) = destroy_all (destroy d id) ids

-- The seconds for which a session has had no connection, where they are enough to call it idle.
abbrev pub idle_for : Option ℕ → Option ℕ
idle_for none = none
idle_for (some secs) = if leb idle_secs_limit secs then some secs else none

abbrev pub idle_of : ℕ → ℕ → List ℕ × Registered → Option ℕ
idle_of uid now_ms e = if owned_by uid e then idle_for (detached_secs e.1.sess now_ms) else none

abbrev pub listed : Codec → List ℕ → Option ℕ → List IdleInfo → List IdleInfo
listed codec id none l = l
listed codec id (some secs) l = record { id = codec.hex id; idle_secs = secs } ∷ l

unfoldable pub collect_idle : Codec → Registry → ℕ → ℕ → List IdleInfo
collect_idle codec [] uid now_ms = []
collect_idle codec (e ∷ g) uid now_ms =
    listed codec e.0 (idle_of uid now_ms e) (collect_idle codec g uid now_ms)

abbrev pub is_idle : Option ℕ → Bool
is_idle none = false
is_idle (some secs) = true

-- `drop_ids`
abbrev pub idle_ids : Registry → ℕ → ℕ → List (List ℕ)
idle_ids g uid now_ms = map (λ e. e.0) (retain (λ e. is_idle (idle_of uid now_ms e)) g)

module _ (max_cell_count : ℕ) where
  spawn_checked :
      Daemon → ℕ → Outside → (ℕ × ℕ) ⊎ DimsError → Daemon × ((List ℕ × List ℕ) ⊎ Problem)
  spawn_checked d uid o (inr e) = (d, inr bad_dims)
  spawn_checked d uid o (inl (cols, rows)) =
      if leb max_sessions (length d.sessions)
      then (d, inr sessions_full)
      else if leb max_per_uid (length (retain (owned_by uid) d.sessions))
      then (d, inr user_full)
      else if o.started
      then (
        record d {
          sessions =
              insert o.id (record { token = o.token; uid = uid; sess = spawned cols rows o.now_ms })
                d.sessions;
        },
        inl (o.id, o.token),
      )
      else (d, inr not_spawned)

  unfoldable pub spawn_session :
      Daemon → ℕ → ℕ → ℕ → Outside → Daemon × ((List ℕ × List ℕ) ⊎ Problem)
  unfolding spawn_checked
  spawn_session d uid cols rows o = spawn_checked d uid o (validate_dims max_cell_count cols rows)

  abbrev created :
      Codec → List IdleInfo → HelperResponse → (List ℕ × List ℕ) ⊎ Problem → HelperResponse
  created codec idle resp (inl (id, token)) = record resp {
    session_id = some (codec.hex id);
    token = some (codec.hex token);
    idle = idle;
  }
  created codec idle resp (inr e) = record (fail e) { idle = idle }

  -- The idle sessions are collected first, and killed where that was asked for.
  unfoldable pub create :
      Codec → Daemon → ℕ → HelperRequest → HelperResponse → Outside → Daemon × HelperResponse
  unfolding destroy spawn_session
  create codec d uid req resp o =
      let cols = if req.cols == 0 then 80 else req.cols in
      let rows = if req.rows == 0 then 24 else req.rows in
      let idle = collect_idle codec d.sessions uid o.now_ms in
      let d1 = if req.kill_idle then destroy_all d (idle_ids d.sessions uid o.now_ms) else d in
      let (d2, result) = spawn_session d1 uid cols rows o in (d2, created codec idle resp result)

abbrev pub starts_with : List ℕ → List ℕ → Bool
starts_with s [] = true
starts_with [] (x ∷ xs) = false
starts_with (y ∷ ys) (x ∷ xs) = (y == x) && starts_with ys xs

abbrev pub one_of : List Registration → List ℕ ⊎ Problem
one_of [] = inr no_match
one_of (r ∷ []) = inl r.credential_id
one_of (r ∷ (x ∷ l)) = inr several_match

-- A full id, or the start of just one.
unfoldable pub resolve_credential : DeviceStore → ℕ → List ℕ → List ℕ ⊎ Problem
resolve_credential devices uid prefix =
    one_of (retain (λ r. starts_with r.credential_id prefix) (registrations_of devices uid))

-- `ok as usize`
abbrev pub as_usize : Option Bool → Option ℕ
as_usize none = none
as_usize (some true) = some 1
as_usize (some false) = some 0

module _ (codec : Codec) where
  unfoldable pub enroll_nonce : Daemon → ℕ → HelperResponse → Outside → Daemon × HelperResponse
  enroll_nonce d uid resp o =
      let (nonces, nonce) = issue d.nonces o.nonce uid o.now in
      (
        record d { nonces = nonces },
        record resp { nonce = some (codec.hex nonce); user = o.unix_name },
      )

  unfoldable pub list_devices : Daemon → ℕ → HelperResponse → HelperResponse
  list_devices d uid resp = record resp {
    devices =
        map
          (λ (r : Registration). record {
            credential = r.credential_id;
            user = r.user_name;
            created = r.created;
            last_used = r.last_used;
          })
          (registrations_of d.devices uid);
    sessions = tokens_of d.devices uid;
  }

  abbrev revoked_in : Daemon → HelperResponse → DeviceStore × Option ℕ → Daemon × HelperResponse
  revoked_in d resp (s, none) = (record d { devices = s }, fail not_saved)
  revoked_in d resp (s, some n) = (record d { devices = s }, record resp { revoked = some n })

  revoke_one :
      Daemon → ℕ → HelperResponse → Outside → Option (List ℕ ⊎ Problem) → Daemon × HelperResponse
  revoke_one d uid resp o none = (d, fail nothing_to_revoke)
  revoke_one d uid resp o (some (inr e)) = (d, fail e)
  revoke_one d uid resp o (some (inl cred)) =
      let (s, done) = revoke_credential codec d.devices uid cred o.saved in
      revoked_in d resp (s, as_usize done)

  abbrev resolved : DeviceStore → ℕ → Option (List ℕ) → Option (List ℕ ⊎ Problem)
  resolved devices uid none = none
  resolved devices uid (some prefix) = some (resolve_credential devices uid prefix)

  unfoldable pub revoke :
      Daemon → ℕ → HelperRequest → HelperResponse → Outside → Daemon × HelperResponse
  unfolding revoke_one resolve_credential
  revoke d uid req resp o =
      if req.all
      then revoked_in d resp (revoke_all codec d.devices uid o.saved)
      else if req.sessions
      then revoked_in d resp (revoke_sessions codec d.devices uid o.saved)
      else revoke_one d uid resp o (resolved d.devices uid req.credential)

abbrev pub op_idle : List ℕ
op_idle = b'i' ∷ b'd' ∷ b'l' ∷ b'e' ∷ []

abbrev pub op_ping : List ℕ
op_ping = b'p' ∷ b'i' ∷ b'n' ∷ b'g' ∷ []

abbrev pub op_create : List ℕ
op_create = b'c' ∷ b'r' ∷ b'e' ∷ b'a' ∷ b't' ∷ b'e' ∷ []

abbrev pub op_enroll_nonce : List ℕ
op_enroll_nonce =
    b'e' ∷ b'n' ∷ b'r' ∷ b'o' ∷ b'l' ∷ b'l' ∷ b'-' ∷ b'n' ∷ b'o' ∷ b'n' ∷ b'c' ∷ b'e' ∷ []

abbrev pub op_devices : List ℕ
op_devices = b'd' ∷ b'e' ∷ b'v' ∷ b'i' ∷ b'c' ∷ b'e' ∷ b's' ∷ []

abbrev pub op_revoke : List ℕ
op_revoke = b'r' ∷ b'e' ∷ b'v' ∷ b'o' ∷ b'k' ∷ b'e' ∷ []

module _ (max_cell_count : ℕ) (codec : Codec) where
  dispatch_op : Daemon → ℕ → HelperRequest → HelperResponse → Outside → Daemon × HelperResponse
  unfolding create enroll_nonce list_devices revoke
  dispatch_op d uid req base o =
      if same req.op op_idle
      then (d, record base { idle = collect_idle codec d.sessions uid o.now_ms })
      else if same req.op op_ping
      then (d, base)
      else if same req.op op_create
      then create max_cell_count codec d uid req base o
      else if same req.op op_enroll_nonce
      then enroll_nonce codec d uid base o
      else if same req.op op_devices
      then (d, list_devices codec d uid base)
      else if same req.op op_revoke
      then revoke codec d uid req base o
      else (d, fail unknown_op)

  dispatch_with : Daemon → ℕ → HelperRequest → Outside → Option (List ℕ) → Daemon × HelperResponse
  unfolding dispatch_op
  dispatch_with d uid req o none = (d, fail certificate)
  dispatch_with d uid req o (some h) =
      dispatch_op d uid req
        (record default_response {
          is_ok = true;
          port = some d.port;
          cert_sha256 = some (codec.hex h);
        })
        o

  unfoldable pub dispatch : Daemon → ℕ → HelperRequest → Outside → Daemon × HelperResponse
  unfolding dispatch_with
  dispatch d uid req o = dispatch_with d uid req o o.cert
