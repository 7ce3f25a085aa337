-- ===== src/Transport.antt =====
-- crates/quosh-server/src/transport.rs: what a connection does for its session. The streams, the
-- datagrams and the clock are outside; what they answered comes with the event.
pub mod Cmds
pub mod Admit
pub mod Control
pub mod Busy
pub mod Rounds
mod Tests
use quosh.Base.{
  ℕ, zero, suc, ◌+◌, ◌*◌, ◌&&◌, ◌||◌, not, Option, none, some, List, [], ◌∷◌, ◌++◌, ltb, leb, ◌==◌,
  if◌then◌else◌, length, get_elem?,
}
use quosh.Bytes.{saturating_add}
use quosh.Proto.{◌>>=◌, max_input_bytes, Error, Result, err, ok}
use quosh.Proto.Msg
use quosh.Proto.Frame.{peek_len, split_frame}
use quosh.Proto.Message.{decode_input, decode_resize, encode_pong, decode_u64}
use quosh.Proto.FrameFeed
use quosh.Proto.FrameFeed.{rest, FrameFeed}
use quosh.Session.Handle.{
  request_hangup, try_input, try_ack, Session, QueueResult, input, ack, queued, busy,
}
use quosh.Transport.Cmds.{Channel}

abbrev pub busy_cap : ℕ
busy_cap = 256 * 1024

-- Counted on top of the payload of each record.
abbrev pub input_record_overhead : ℕ
input_record_overhead = 32

abbrev pub Records : Type 0
Records = List (ℕ × List ℕ)

abbrev pub input_record_cost : List ℕ → ℕ
input_record_cost bytes = saturating_add input_record_overhead (length bytes)

abbrev pub busy_bytes : Records → ℕ
busy_bytes [] = 0
busy_bytes ((seq, bytes) ∷ q) = input_record_cost bytes + busy_bytes q

-- The type of the first frame, once it is whole.
unfoldable pub peek_type : List ℕ → Result (Option ℕ)
peek_type buf = peek_len buf >>= λ n. whole n
  where
    whole : Option ℕ → Result (Option ℕ)
    whole none = ok none
    whole (some n) = if ltb (length buf) (4 + n) then ok none else ok (get_elem? buf 4)

pub data TransportError : Type 0 where
  control_frame : Error → TransportError
  input_empty input_too_big : TransportError

-- The handle of the session, the channel to its owner, and the locals of `run_transport`.
pub record Transport (C : Type 0) : Type 0 where
  pub sess : Session
  pub cmds : C
  pub leftover : List ℕ
  pub feed : FrameFeed
  pub busy_input : Records
  pub pending_resize : Option (ℕ × ℕ)
  pub pending_input_ack : Option ℕ

module _ {C : Type 0} (chan : Channel C) where
  -- `try_input` of the session, with the channel as it is afterwards.
  unfoldable pub send_input : C → ℕ → List ℕ → QueueResult × C
  send_input c seq bytes =
      let r = try_input (λ m. (chan.try_send c m).0) seq bytes in
      (
        r,
        if length bytes == 0 || ltb max_input_bytes (length bytes)
            then c
            else (chan.try_send c (input seq bytes)).1,
      )

  -- What becomes of the record `x` in front of `q`; `rest` is the loop for `q`.
  abbrev pub drain_answer : QueueResult → C → ℕ × List ℕ → Records → C × Records → C × Records
  drain_answer queued c x q rest = rest
  drain_answer busy c x q rest = (c, x ∷ q)
  drain_answer _ c x q rest = (c, q)

  abbrev pub drain_busy : C → Records → C × Records
  drain_busy c [] = (c, [])
  drain_busy c ((seq, bytes) ∷ q) =
      let (r, c') = send_input c seq bytes in drain_answer r c' (seq, bytes) q (drain_busy c' q)

  -- `Err` ends the connection.
  on_input : Transport C → ℕ → List ℕ → Transport C × Option TransportError
  on_input t seq bytes =
      if length bytes == 0
      then (t, some input_empty)
      else if ltb max_input_bytes (length bytes)
      then (t, some input_too_big)
      else (record t { busy_input = t.busy_input ++ ((seq, bytes) ∷ []) }, none)

  -- The result of a decoder that is ignored when it fails.
  abbrev decoded {ℓ} :
      {A : Type ℓ}
      → Result A
      → Transport C
      → (A → Transport C × Option TransportError)
      → Transport C × Option TransportError
  decoded (ok a) t f = f a
  decoded (err e) t f = (t, none)

  on_ack : Transport C → ℕ → Transport C × Option TransportError
  on_ack t v = (
    record t {
      sess = (try_ack (λ m. (chan.try_send t.cmds m).0) t.sess v).1;
      cmds = (chan.try_send t.cmds (ack v)).1;
    },
    none,
  )

  dispatch : Transport C → ℕ → List ℕ → Transport C × Option TransportError
  unfolding on_input on_ack
  dispatch t typ payload =
      if typ == Msg.input
      then decoded (decode_input payload) t (λ m. on_input t m.0 m.1)
      else if typ == Msg.resize
      then decoded (decode_resize payload) t (λ d. (record t { pending_resize = some d }, none))
      else if typ == Msg.hangup
      then (record t { sess = request_hangup t.sess }, none)
      else if typ == Msg.ack_state
      then decoded (decode_u64 payload) t (λ v. on_ack t v)
      else if typ == Msg.ping
      then (record t { feed = (FrameFeed.push_ctrl t.feed encode_pong).0 }, none)
      else (t, none)

  -- A transport that was replaced does nothing.
  unfoldable pub on_control : Transport C → ℕ → ℕ → List ℕ → Transport C × Option TransportError
  unfolding dispatch
  on_control t epoch typ payload =
      if not (t.sess.epoch == epoch) then (t, none) else dispatch t typ payload

  abbrev pub drain_next :
      (Transport C → Transport C × Option TransportError)
      → Option TransportError
      → Transport C
      → Transport C × Option TransportError
  drain_next again (some e) t = (t, some e)
  drain_next again none t = again t

  -- What one round does with the frame it took; `again` are the rounds that follow.
  abbrev pub drain_frame :
      (Transport C → Transport C × Option TransportError)
      → ℕ
      → Transport C
      → Result (Option (ℕ × List ℕ)) × List ℕ
      → Transport C × Option TransportError
  drain_frame again epoch t (err e, left) = (record t { leftover = left }, some (control_frame e))
  drain_frame again epoch t (ok none, left) = (record t { leftover = left }, none)
  drain_frame again epoch t (ok (some (typ, payload)), left) =
      let (t', failed) = on_control (record t { leftover = left }) epoch typ payload in
      drain_next again failed t'

  abbrev pub drain_peeked :
      (Transport C → Transport C × Option TransportError)
      → ℕ
      → ℕ
      → Transport C
      → Result (Option ℕ)
      → Transport C × Option TransportError
  drain_peeked again epoch cap t (err e) = (t, some (control_frame e))
  drain_peeked again epoch cap t (ok none) = (t, none)
  drain_peeked again epoch cap t (ok (some typ)) =
      if typ == Msg.input && leb cap (busy_bytes t.busy_input)
      then (t, none)
      else drain_frame again epoch t (split_frame t.leftover)

  abbrev pub drain_round :
      (Transport C → Transport C × Option TransportError)
      → ℕ
      → ℕ
      → Transport C
      → Transport C × Option TransportError
  drain_round again epoch cap t =
      if not (t.sess.epoch == epoch)
      then (t, none)
      else drain_peeked again epoch cap t (peek_type t.leftover)

  -- Each round takes five bytes at least.
  abbrev pub drain_leftover : ℕ → ℕ → ℕ → Transport C → Transport C × Option TransportError
  drain_leftover zero epoch cap t = (t, none)
  drain_leftover (suc k) epoch cap t = drain_round (drain_leftover k epoch cap) epoch cap t
