-- ===== src/Session/Handle.antt =====
-- `Session` of crates/quosh-server/src/session.rs: what the connections of a session share with its
-- owner. A watch channel is the value it holds; the command channel is the outcome of a send.
pub mod Laws
use quosh.Base.{
  ℕ, ◌+◌, ◌-◌, ◌/◌, ◌%◌, ◌^◌, max, inl, inr, Bool, true, false, Option, none, some, List, ltb, ◌==◌,
  if◌then◌else◌, length,
}
use quosh.Proto.Message.{validate_dims}
use quosh.Proto.{max_input_bytes}

pub data OwnerMsg : Type 0 where
  input : ℕ → List ℕ → OwnerMsg
  resize : ℕ → ℕ → OwnerMsg
  ack : ℕ → OwnerMsg

pub record Latest : Type 0 where
  pub version : ℕ
  pub blob : List ℕ

-- Times are milliseconds.
pub record Session : Type 0 where
  pub last_detach : Option ℕ
  pub shutdown : Bool
  pub epoch : ℕ
  pub last_acked : ℕ
  pub latest : Option Latest
  pub size : ℕ × ℕ
  pub exit : Option ℕ
  pub accepted : ℕ

-- The handle that `spawn_pair` makes for a terminal of a checked size.
abbrev pub spawned : ℕ → ℕ → ℕ → Session
spawned cols rows now = record {
  last_detach = some now;
  shutdown = false;
  epoch = 0;
  last_acked = 0;
  latest = none;
  size = (cols, rows);
  exit = none;
  accepted = 0;
}

-- A transport takes the session: the number that tells it from the earlier ones.
unfoldable pub claim_transport : Session → ℕ × Session
claim_transport s =
    let next = (s.epoch + 1) % 2 ^ 64 in (next, record s { epoch = next; last_detach = none })

unfoldable pub detach_if_epoch : Session → ℕ → ℕ → Session
detach_if_epoch s e now = if s.epoch == e then record s { last_detach = some now } else s

unfoldable pub ack_state : Session → ℕ → Session
ack_state s v = record s { last_acked = max s.last_acked v }

unfoldable pub request_hangup : Session → Session
request_hangup s = record s { shutdown = true }

unfoldable pub version : Session → ℕ
version s = elim s.latest [ none ↦ 0 | some l ↦ l.version ]

unfoldable pub detached_secs : Session → ℕ → Option ℕ
detached_secs s now = elim s.last_detach [ none ↦ none | some t ↦ some ((now - t) / 1000) ]

-- What the bounded command channel does with a message.
pub data Sent : Type 0 where
  sent full closed : Sent

pub data QueueResult : Type 0 where
  queued busy empty_input input_too_large bad_size session_closed : QueueResult

abbrev pub outcome : Sent → QueueResult
outcome sent = queued
outcome full = busy
outcome closed = session_closed

unfoldable pub try_input : (OwnerMsg → Sent) → ℕ → List ℕ → QueueResult
try_input try_send seq bytes =
    if length bytes == 0
    then empty_input
    else if ltb max_input_bytes (length bytes)
    then input_too_large
    else outcome (try_send (input seq bytes))

unfoldable pub try_resize : ℕ → (OwnerMsg → Sent) → ℕ → ℕ → QueueResult
try_resize max_cell_count try_send cols rows = elim (validate_dims max_cell_count cols rows) [
  | inl _ ↦ outcome (try_send (resize cols rows))
  | inr _ ↦ bad_size
]

-- The handle takes the version at once, whatever becomes of the message.
unfoldable pub try_ack : (OwnerMsg → Sent) → Session → ℕ → Sent × Session
try_ack try_send s v = (try_send (ack v), ack_state s v)
