-- ===== src/Daemon/Tests.antt =====
-- A registry with an idle session of one user, and requests of two users.
use quosh.Base.{◌≡◌, refl, true, false, none, some, [], ◌∷◌, map, arith, length}
use quosh.Daemon.{
  destroy, collect_idle, spawn_session, create, op_create, dispatch, Daemon, HelperRequest, Outside,
}
use quosh.Daemon.Line.{read_request_line, pieces, read_request_line-pieces, line}
use quosh.Daemon.Limits.{dispatch-WithinLimits, WithinLimits}
use quosh.Daemon.Isolation.{dispatch-Untouched, Untouched}
use quosh.Devices.{Persisted, Codec}
use quosh.Session.Handle.{spawned, detached_secs}
use quosh.Proto.Message.{validate_dims}

abbrev blank : Persisted
blank = record { registrations = []; tokens = [] }

abbrev raw_codec : Codec
raw_codec = record { to_json = λ g. []; from_json = λ b. some blank; hex = λ b. b }

abbrev serving : Daemon
serving = record {
  sessions = (5 ∷ [], record { token = 6 ∷ []; uid = 1000; sess = spawned 80 24 0 }) ∷ [];
  ended = [];
  devices = record { file = none; inner = blank };
  nonces = [];
  port = 7;
  rp_id = [];
  origin = [];
}

-- A week later.
abbrev a_week_on : Outside
a_week_on = record {
  cert = some (1 ∷ []);
  unix_name = none;
  saved = true;
  started = true;
  nonce = 2 ∷ [];
  id = 8 ∷ [];
  token = 9 ∷ [];
  now = 604800;
  now_ms = 604800000;
}

abbrev replacing : HelperRequest
replacing = record {
  op = op_create;
  cols = 0;
  rows = 0;
  kill_idle = true;
  credential = none;
  all = false;
  sessions = false;
}

-- The idle session is named and killed, and the new one has the size of a terminal.
test_create :
    (map (λ e. e.0) (dispatch 262144 raw_codec serving 1000 replacing a_week_on).0.sessions
      ≡ (8 ∷ []) ∷ [])
    × (length (dispatch 262144 raw_codec serving 1000 replacing a_week_on).0.ended ≡ 1)
    × ((dispatch 262144 raw_codec serving 1000 replacing a_week_on).1.idle
        ≡ record { id = 5 ∷ []; idle_secs = 604800 } ∷ [])
unfolding dispatch create collect_idle detached_secs destroy spawn_session validate_dims
test_create = (refl, refl, refl)

within_limits : WithinLimits serving.sessions
within_limits = record { total = omega arith; per_user = λ uid. ground arith }

dispatch-WithinLimits_example :
    WithinLimits (dispatch 262144 raw_codec serving 1000 replacing a_week_on).0.sessions
dispatch-WithinLimits_example =
    dispatch-WithinLimits 262144 raw_codec serving 1000 replacing a_week_on within_limits

dispatch-Untouched_example :
    Untouched 1000 serving (dispatch 262144 raw_codec serving 1001 replacing a_week_on).0
dispatch-Untouched_example =
    dispatch-Untouched 1001 1000 (omega arith) 262144 raw_codec serving replacing a_week_on
      (refl, tt) refl

read_request_line-pieces_example :
    read_request_line 4096 (pieces ((123 ∷ []) ∷ (125 ∷ 10 ∷ 1 ∷ []) ∷ (2 ∷ []) ∷ []))
    ≡ line (123 ∷ 125 ∷ [])
read_request_line-pieces_example =
    read_request_line-pieces 4096 ((123 ∷ []) ∷ (125 ∷ 10 ∷ 1 ∷ []) ∷ (2 ∷ []) ∷ [])
      (123 ∷ 125 ∷ []) (1 ∷ 2 ∷ []) refl (omega arith) (omega arith) refl
