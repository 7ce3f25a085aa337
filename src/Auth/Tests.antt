-- ===== src/Auth/Tests.antt =====
-- A browser that comes back with a live token, and one whose token has expired.
use quosh.Base.{ℕ, ◌≡◌, refl, true, false, none, some, [], ◌∷◌, replicate, concat}
use quosh.Auth.{zeros, next_frame, resolve_session, run, Services, Answers}
use quosh.Auth.Authorised.{run-Authorised, Proof, Opened}
use quosh.Daemon.{spawn_session, Daemon}
use quosh.Devices.{persist, issue_token, validate_token, rotate_token, Persisted}
use quosh.Proto.Frame.{split_frame}
use quosh.Proto.{ok}
use quosh.Proto.Auth.{
  auth_hello_fields, decode_auth_hello, encode_challenge, encode_auth_ok, AuthHello,
}
use quosh.Proto.Message.{validate_dims}

abbrev held : Persisted
held = record {
  registrations = [];
  tokens = record { token = replicate 32 7; uid = 1000; credential_id = none; last_seen = 0 } ∷ [];
}

abbrev services : Services
services = record {
  crypto = record {
    from_json = λ b. none;
    base64 = λ b. b;
    sha256 = λ b. b;
    verify = λ key signed sig. false;
  };
  codec = record { to_json = λ g. []; from_json = λ b. some held; hex = λ b. b };
  unhex = λ b. some b;
  describe = λ r. [];
  decimal = λ n. [];
}

abbrev returning : AuthHello
returning = record {
  auth_token = replicate 32 7;
  session_id = zeros 16;
  session_token = zeros 32;
  cols = 0;
  rows = 0;
}

abbrev answers : ℕ → Answers
answers now = record {
  now = now;
  fresh_token = replicate 32 9;
  challenge = replicate 32 1;
  hashes = some [];
  hashes_then = some [];
  dropped = true;
  updated = true;
  saved = true;
  reads = [];
  challenge_written = true;
  ok_written = true;
  outside = record {
    cert = none;
    unix_name = none;
    saved = true;
    started = true;
    nonce = [];
    id = replicate 16 3;
    token = replicate 32 4;
    now = now;
    now_ms = 0;
  };
}

abbrev quiet : Daemon
quiet = record {
  sessions = [];
  ended = [];
  devices = record { file = none; inner = held };
  nonces = [];
  port = 7;
  rp_id = [];
  origin = [];
}

come_back :
    (run 262144 services quiet [] (concat (auth_hello_fields returning)) (answers 60)).authed
    ≡ some 1000
unfolding run decode_auth_hello validate_token rotate_token issue_token persist resolve_session
    spawn_session validate_dims encode_auth_ok
come_back = refl

-- The challenge is sent, and nothing is answered to it.
test_expired :
    (run 262144 services quiet [] (concat (auth_hello_fields returning)) (answers 3601)).authed
    ≡ none
unfolding run decode_auth_hello validate_token encode_challenge next_frame split_frame
test_expired = refl

run-Authorised_example :
    (hello : AuthHello) × (decode_auth_hello (concat (auth_hello_fields returning)) ≡ ok hello)
    × Proof services quiet (answers 60) hello 1000
    × Opened (run 262144 services quiet [] (concat (auth_hello_fields returning)) (answers 60)) 1000
run-Authorised_example =
    run-Authorised 262144 services quiet [] (concat (auth_hello_fields returning)) (answers 60) 1000
      come_back
