-- ===== src/Client/Tests.antt =====
-- A client that predicts nothing, and a session of two inputs of which the first connection loses
-- one.
use quosh.Client.Runs.{Runs-Tracks, untouched, queued, pumped, written, connects, ended, answered}
use quosh.Client.Unacked.{new-Tracks, Tracks}
use quosh.Client.Events.{
  on_input_ack, handle_frame, recv_loop, recv_control, predict_input, feed_predict, queue_input,
}
use quosh.Client.{new, pump, begin_connection, end_connection, reset, Client}
use quosh.Client.Interfaces.{Predictions, F64}
use quosh.Base.{
  ℕ, ◌+◌, ◌*◌, ◌/◌, min, max, ◌≡◌, refl, false, none, some, List, [], ◌∷◌, ◌++◌, arith, length,
  replicate,
}
use quosh.Proto.FrameFeed
use quosh.Proto.Msg
use quosh.Bytes.{le_bytes}
use quosh.Proto.Frame.{encode_frame, peek_len, split_frame}
use quosh.Proto.Message.{decode_u64, encode_input_ack}
use quosh.Proto.Screen.Tests.{grids, stored, Grid}
use quosh.Client.Wire.{round, hello_sent}
use quosh.Session.Owner.{started, Emulator, Owner}
use quosh.Session.Handle.{spawned}
use quosh.Client.Recv.{recv_control-Takes, TakesAll}

-- Nothing is predicted.
abbrev silent_predictor : Predictions (Unit {0}) Grid
silent_predictor = record {
  new = tt;
  set_display_preference = λ p d. p;
  set_send_interval = λ p ms. p;
  set_local_frame_sent = λ p n. p;
  set_local_frame_late_acked = λ p n. p;
  reset = λ p. p;
  active = λ p. false;
  cull = λ p f now. p;
  new_user_byte = λ p b f now. p;
  apply = λ p f. f;
}

-- Whole numbers in place of fractions.
abbrev whole_numbers : F64 ℕ
whole_numbers = record {
  of = λ n. n;
  lit = λ n d. n / d;
  add = λ a b. a + b;
  mul = λ a b. a * b;
  div = λ a b. a / b;
  clamp = λ a low high. min high (max low a);
  ceil = λ a. a;
  as_u64 = λ a. a;
  as_u32 = λ a. a;
}

abbrev fresh : Client Grid (Unit {0}) ℕ
fresh =
    new grids stored silent_predictor whole_numbers (replicate 16 1) (replicate 32 2) 80 24 false

abbrev first_key : List ℕ
first_key = 108 ∷ []

abbrev second_key : List ℕ
second_key = 115 ∷ []

abbrev both_typed : Client Grid (Unit {0}) ℕ
both_typed =
    queue_input grids stored silent_predictor whole_numbers
      (queue_input grids stored silent_predictor whole_numbers fresh first_key 0) second_key 1

abbrev online : Client Grid (Unit {0}) ℕ
online = begin_connection grids stored silent_predictor whole_numbers both_typed 2

abbrev flushed : Client Grid (Unit {0}) ℕ
flushed = record online {
  feed = FrameFeed.advance online.feed (length (FrameFeed.rest online.feed));
}

-- The two inputs wait under the numbers one and two.
test_unacked : both_typed.unacked ≡ ((1, first_key) ∷ (2, second_key) ∷ [])
unfolding queue_input feed_predict predict_input
test_unacked = refl

-- The acknowledgement of the first leaves the second.
test_ack :
    (recv_control grids stored silent_predictor whole_numbers both_typed
      (encode_input_ack 1)
      3).0.unacked
    ≡ ((2, second_key) ∷ [])
unfolding queue_input feed_predict predict_input recv_control recv_loop handle_frame on_input_ack
    encode_input_ack encode_frame split_frame peek_len decode_u64
test_ack = refl

-- A connection ends after the first input was acknowledged, and the second is still kept.
Runs-Tracks_example : Tracks 1 (first_key ∷ second_key ∷ []) (
    reset grids stored silent_predictor whole_numbers (
      end_connection grids stored silent_predictor whole_numbers
        (handle_frame grids stored silent_predictor whole_numbers
          (pump grids stored silent_predictor whole_numbers flushed)
          Msg.input_ack
          (le_bytes 8 1)
          3).0))
unfolding decode_u64
Runs-Tracks_example =
    Runs-Tracks grids stored silent_predictor whole_numbers fresh
      (new-Tracks grids stored silent_predictor whole_numbers (replicate 16 1) (replicate 32 2) 80
        24 false)
      (ended (
        answered Msg.input_ack (le_bytes 8 1) 3 (
          pumped (
            written (length (FrameFeed.rest online.feed)) (
              connects 2 (
                queued second_key 1 (omega arith) (queued first_key 0 (omega arith) untouched)))))))

-- An emulator that shows nothing, and the owner of a session that starts.
abbrev blank_emulator : Emulator (Unit {0})
blank_emulator = record {
  process = λ e bs. e;
  take_pty_write = λ e. ([], e);
  resize = λ e rows cols. e;
  flush_sync = λ e. e;
  encode_screen = λ e v ack. (none, e);
}

abbrev first_owner : Owner (Unit {0})
first_owner = started (spawned 80 24 0) tt

-- The first input was written on a connection that was lost with it.
abbrev lost : Client Grid (Unit {0}) ℕ
lost =
    round grids stored silent_predictor whole_numbers
      (hello_sent grids stored silent_predictor whole_numbers both_typed 2)

-- The acknowledgement is taken, and three bytes of the next frame stay.
recv_control-Takes_example :
    TakesAll grids stored silent_predictor whole_numbers 3
      (record both_typed { last_rx_ms = some 3; recv_buf = encode_input_ack 1 ++ (9 ∷ 0 ∷ 0 ∷ []) })
      (encode_input_ack 1 ++ (9 ∷ 0 ∷ 0 ∷ []))
      (recv_control grids stored silent_predictor whole_numbers both_typed
        (encode_input_ack 1 ++ (9 ∷ 0 ∷ 0 ∷ []))
        3)
unfolding queue_input feed_predict predict_input encode_input_ack encode_frame
recv_control-Takes_example =
    recv_control-Takes grids stored silent_predictor whole_numbers both_typed
      (encode_input_ack 1 ++ (9 ∷ 0 ∷ 0 ∷ [])) 3
