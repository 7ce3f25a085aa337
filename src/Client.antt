-- ===== src/Client.antt =====
-- `Client` of crates/quosh-client/src/lib.rs: the state machine of both clients. An adapter gives it
-- the bytes that arrived and the time in milliseconds, and takes the bytes to send.
pub mod Interfaces
pub mod Events
pub mod Unacked
pub mod Keeps
pub mod Sends
pub mod Runs
pub mod Recv
pub mod Wire
pub mod Delivery
pub mod InOrder
pub mod Rounds
pub mod Progress
mod Tests
use quosh.Base.{
  ℕ, ◌+◌, ◌*◌, max, Bool, true, false, ◌||◌, not, Option, none, some, List, [], ◌∷◌, ltb,
  if◌then◌else◌, length,
}
use quosh.Proto.{protocol_version, Error}
use quosh.Proto.Msg
use quosh.Proto.Message.{encode_hello, encode_input, encode_ack_state}
use quosh.Proto.FrameFeed
use quosh.Proto.FrameFeed.{FrameFeed}
use quosh.Proto.Screen.{apply_newer, Frames, Lz4, Screen}
use quosh.Devices.Search.{find_by}
use quosh.Client.Interfaces.{preference, Predictions, F64}

-- Input messages larger than this are not predicted.
abbrev pub paste_bytes : ℕ
paste_bytes = 100

abbrev pub unacked_cap : ℕ
unacked_cap = 256 * 1024

abbrev pub ping_interval_ms : ℕ
ping_interval_ms = 1000

abbrev pub outage_banner_secs : ℕ
outage_banner_secs = 3

-- What a `Fatal` says.
pub data ClientError : Type 0 where
  protocol_error : Error → ClientError
  invalid_hello_ok : Error → ClientError
  protocol_version_differs : ℕ → ClientError
  invalid_shared_screen : Error → ClientError
  metadata_missing : ClientError
  epoch_regressed : ClientError
  server_error : ℕ → List ℕ → ClientError

pub data Tick : Type 0 where
  alive link_dead : Tick

pub record Client (F P X : Type 0) : Type 0 where
  pub session_id : List ℕ
  pub token : List ℕ
  pub cols : ℕ
  pub rows : ℕ
  pub never : Bool
  pub shared_prediction : Option (ℕ × Bool)
  pub connected : Bool
  pub hello_ok : Bool
  pub feed : FrameFeed
  pub sent_seq : ℕ
  pub pending_ack : Option ℕ
  pub recv_buf : List ℕ
  pub seq : ℕ
  pub unacked : List (ℕ × List ℕ)
  pub last_rx_ms : Option ℕ
  pub last_ping_ms : ℕ
  pub ping_sent_ms : Option ℕ
  pub srtt_ms : Option X
  pub predictor : P
  pub confirmed : Option (Screen F)
  pub display : Option F
  pub outage : Option ℕ
  pub hungup : Bool
  pub exit_code : ℕ

abbrev pub newer_than : ℕ → ℕ × List ℕ → Bool
newer_than n r = ltb n r.0

abbrev pub payload_bytes : List (ℕ × List ℕ) → ℕ
payload_bytes [] = 0
payload_bytes ((seq, bytes) ∷ q) = length bytes + payload_bytes q

module _ {F P X : Type 0} (frames : Frames F) (codec : Lz4) (pred : Predictions P F)
    (f64 : F64 X) where
  abbrev scaled_ms : Option X → X → ℕ
  scaled_ms none factor = 0
  scaled_ms (some s) factor = f64.as_u64 (f64.clamp (f64.mul factor s) (f64.of 0) (f64.of 20000))

  abbrev pub ping_retry_ms : Option X → ℕ
  ping_retry_ms srtt = max 2000 (scaled_ms srtt (f64.of 2))

  abbrev pub link_dead_ms : Option X → ℕ
  link_dead_ms srtt = max 8000 (scaled_ms srtt (f64.of 4))

  abbrev pub new : List ℕ → List ℕ → ℕ → ℕ → Bool → Client F P X
  new session_id token cols rows predict_never = record {
    session_id = session_id;
    token = token;
    cols = cols;
    rows = rows;
    never = predict_never;
    shared_prediction = none;
    connected = false;
    hello_ok = false;
    feed = FrameFeed.default;
    sent_seq = 0;
    pending_ack = none;
    recv_buf = [];
    seq = 0;
    unacked = [];
    last_rx_ms = none;
    last_ping_ms = 0;
    ping_sent_ms = none;
    srtt_ms = none;
    predictor = pred.set_display_preference pred.new (preference predict_never);
    confirmed = none;
    display = none;
    outage = none;
    hungup = false;
    exit_code = 0;
  }

  abbrev pub unacked_bytes : Client F P X → ℕ
  unacked_bytes c = payload_bytes c.unacked

  abbrev pub can_accept_input : Client F P X → Bool
  can_accept_input c = ltb (unacked_bytes c) unacked_cap

  unfoldable pub pump_ack : Client F P X → Option ℕ → Client F P X
  pump_ack c none = c
  pump_ack c (some v) =
      let (feed, fits) = FrameFeed.push_ctrl c.feed (encode_ack_state v) in
      record c { feed = feed; pending_ack = if fits then none else some v }

  unfoldable pub pump_input : Client F P X → Option (ℕ × List ℕ) → Client F P X
  pump_input c none = c
  pump_input c (some (seq, bytes)) =
      let (feed, fits) = FrameFeed.push_ctrl c.feed (encode_input seq bytes) in
      record c { feed = feed; sent_seq = if fits then seq else c.sent_seq }

  -- The first input that was not sent goes out when nothing else is in flight.
  unfoldable pub pump_unsent : Client F P X → Client F P X
  unfolding pump_input
  pump_unsent c =
      if FrameFeed.writing c.feed
      then c
      else pump_input c (find_by (newer_than c.sent_seq) c.unacked)

  unfoldable pub pump : Client F P X → Client F P X
  unfolding pump_ack pump_unsent
  pump c = if not c.connected || c.hungup then c else pump_unsent (pump_ack c c.pending_ack)

  unfoldable pub begin_connection : Client F P X → ℕ → Client F P X
  begin_connection c now_ms = record c {
    connected = true;
    hello_ok = false;
    recv_buf = [];
    feed =
        (FrameFeed.push_ctrl FrameFeed.default (
          encode_hello (record {
            protocol = protocol_version;
            session_id = c.session_id;
            token = c.token;
            cols = c.cols;
            rows = c.rows;
          }))).0;
    sent_seq = 0;
    pending_ack = none;
    ping_sent_ms = none;
    last_ping_ms = now_ms;
    last_rx_ms = some now_ms;
    outage = none;
  }

  abbrev pub end_connection : Client F P X → Client F P X
  end_connection c = record c { connected = false }

  abbrev pub reset : Client F P X → Client F P X
  reset c = record c { predictor = pred.reset c.predictor; display = none }

  abbrev shown : P → Option (Screen F) → Option F
  shown p none = none
  shown p (some s) = some (pred.apply p s.frame)

  unfoldable pub refresh_display : Client F P X → Client F P X
  refresh_display c = record c { display = shown c.predictor c.confirmed }

  unfoldable pub apply_confirmed : Client F P X → ℕ → Option (Screen F) → Client F P X
  unfolding refresh_display
  apply_confirmed c now_ms none = c
  apply_confirmed c now_ms (some applied) =
      let p = pred.set_local_frame_late_acked c.predictor applied.echo_ack in
      refresh_display (record c {
        predictor = pred.cull p applied.frame now_ms;
        pending_ack = some applied.version;
        confirmed = some applied;
        outage = none;
      })

  unfoldable pub apply_screen : Client F P X → Screen F → ℕ → Client F P X
  unfolding apply_confirmed
  apply_screen c incoming now_ms =
      apply_confirmed c now_ms (apply_newer frames c.confirmed incoming)
