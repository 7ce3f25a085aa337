-- ===== src/Transport/Tests.antt =====
-- A connection whose channel takes every command.
use quosh.Base.{ℕ, ◌≡◌, refl, ◌↔◌, inl, none, some, List, [], ◌∷◌, ◌++◌, arith, replicate}
use quosh.Proto.Msg
use quosh.Proto.Frame.{encode_frame, peek_len, split_frame}
use quosh.Proto.Message.{decode_hello, encode_input, decode_input, encode_ping, encode_pong}
use quosh.Proto.FrameFeed
use quosh.Session.Handle.{spawned, try_input, OwnerMsg, input, sent}
use quosh.Transport.Cmds.{Logs, Channel}
use quosh.Transport.{
  busy_cap, Records, peek_type, send_input, drain_busy, on_control, drain_leftover, Transport,
}
use quosh.Transport.Admit.{admit, admit_iff, Registered, Opens, rejected, admitted}
use quosh.Transport.Busy.{drain_busy-Drained, Drained}
use quosh.Transport.Control.{drain_leftover-Rests, Rests, Bounded}
use quosh.Transport.Rounds.Bounds.{most, Serves-Bounded, Serves, start, round}
use quosh.Bytes.{le_bytes}
use quosh.Proto.{protocol_version}
use quosh.Transport.Rounds.{opened, prepare, ready, on_wake, resync}

abbrev open_channel : Channel (List OwnerMsg)
open_channel = record { try_send = λ c m. (sent, c ++ (m ∷ [])); log = λ c. c }

open_channel-Logs : Logs open_channel
open_channel-Logs = λ c m. inl (refl, refl)

abbrev two_records : Records
two_records = (1, 108 ∷ []) ∷ (2, 115 ∷ []) ∷ []

abbrev connected : Transport (List OwnerMsg)
connected =
    opened (spawned 80 24 0) [] (replicate 16 9) 0 (encode_input 1 (108 ∷ []) ++ encode_ping) none

test_drain :
    (drain_leftover open_channel 100 0 busy_cap connected).0.busy_input ≡ ((1, 108 ∷ []) ∷ [])
unfolding encode_input encode_ping encode_frame peek_type peek_len split_frame on_control
    decode_input
test_drain = refl

connected-Bounded : Bounded open_channel busy_cap most connected
unfolding encode_input encode_ping encode_frame
connected-Bounded = omega arith

drain_busy-Drained_example :
    Drained open_channel []
      (drain_busy open_channel [] two_records).0
      two_records
      (drain_busy open_channel [] two_records).1
drain_busy-Drained_example =
    drain_busy-Drained open_channel open_channel-Logs [] two_records
      ((omega arith, omega arith), ((omega arith, omega arith), tt))

drain_leftover-Rests_example :
    Rests open_channel 0 busy_cap (drain_leftover open_channel 100 0 busy_cap connected)
    × Bounded open_channel busy_cap most (drain_leftover open_channel 100 0 busy_cap connected).0
unfolding encode_input encode_ping encode_frame
drain_leftover-Rests_example =
    drain_leftover-Rests open_channel 100 0 busy_cap most connected (omega arith) connected-Bounded

abbrev registered : Registered
registered = record { token = replicate 32 7; uid = 1000; sess = spawned 80 24 0 }

abbrev greeting : List ℕ
greeting =
    le_bytes 2 protocol_version
    ++ (replicate 16 9 ++ (replicate 32 7 ++ (le_bytes 2 80 ++ le_bytes 2 24)))

test_admit :
    (admit (λ id. some registered) (some 1000) Msg.hello greeting
      ≡ admitted registered (some (80, 24)))
    × (admit (λ id. some registered) (some 1001) Msg.hello greeting ≡ rejected 5)
unfolding admit decode_hello
test_admit = (refl, refl)

admit_iff_example :
    (admit (λ id. some registered) (some 1000) Msg.hello greeting
      ≡ admitted registered (some (80, 24)))
    ↔ Opens (λ id. some registered) (some 1000) Msg.hello greeting registered (some (80, 24))
admit_iff_example =
    admit_iff (λ id. some registered) (some 1000) Msg.hello greeting registered (some (80, 24))

-- One round: the frames are taken, the input is sent to the owner, and a screen is due.
abbrev settled : Transport (List OwnerMsg)
settled = record {
  sess = spawned 80 24 0;
  cmds = input 1 (108 ∷ []) ∷ [];
  leftover = [];
  feed = (FrameFeed.push_ctrl connected.feed encode_pong).0;
  busy_input = [];
  pending_resize = none;
  pending_input_ack = none;
}

one_round : Serves open_channel 1000000 1200 0 connected settled
unfolding encode_input encode_ping encode_frame peek_type peek_len split_frame on_control
    decode_input prepare on_wake ready send_input try_input
one_round = round resync none start refl refl tt refl refl

Serves-Bounded_example : Bounded open_channel busy_cap most settled
Serves-Bounded_example =
    Serves-Bounded open_channel 1000000 1200 0 open_channel-Logs connected-Bounded one_round
