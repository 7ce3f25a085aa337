-- ===== src/Client/Events.antt =====
-- The events of a client: bytes and datagrams that arrive, input, a new size, and the tick of its
-- clock.
use quosh.Client.{
  paste_bytes, ping_interval_ms, outage_banner_secs, newer_than, ping_retry_ms, link_dead_ms, pump,
  refresh_display, apply_screen, ClientError, Tick, Client, protocol_error, invalid_hello_ok,
  protocol_version_differs, invalid_shared_screen, metadata_missing, epoch_regressed, server_error,
  alive, link_dead,
}
use quosh.Base.{
  ℕ, zero, suc, ◌+◌, ◌-◌, ◌*◌, ◌%◌, ◌^◌, min, max, Bool, true, false, ◌&&◌, ◌||◌, not, Option, none,
  some, List, [], ◌∷◌, ◌++◌, ltb, leb, ◌==◌, if◌then◌else◌, length, take,
}
use quosh.Proto.{protocol_version, Result, err, ok}
use quosh.Proto.Msg
use quosh.Proto.Frame.{split_frame}
use quosh.Proto.Message.{
  decode_hello_ok, encode_resize, encode_hangup, encode_ping, decode_u64, decode_exit, decode_error,
  HelloOk,
}
use quosh.Proto.FrameFeed
use quosh.Proto.FrameFeed.{FrameFeed}
use quosh.Proto.Screen.{
  shared_screen_magic, apply_newer, decode_compressed, decode_shared, Frames, Lz4, Screen,
  SharedScreen,
}
use quosh.Devices.Search.{same, retain}
use quosh.Client.Interfaces.{preference, Predictions, F64}

module _ {F P X : Type 0} (frames : Frames F) (codec : Lz4) (pred : Predictions P F)
    (f64 : F64 X) where
  abbrev pub Answer : Type 0
  Answer = Client F P X × Option ClientError

  abbrev pub regressed : Option (ℕ × Bool) → ℕ → Bool
  regressed none epoch = false
  regressed (some c) epoch = ltb epoch c.0

  abbrev same_flag : Bool → Bool → Bool
  same_flag true b = b
  same_flag false b = not b

  abbrev pub same_context : Option (ℕ × Bool) → ℕ × Bool → Bool
  same_context none c = false
  same_context (some d) c = d.0 == c.0 && same_flag d.1 c.1

  -- A prediction that was made under another context is dropped.
  unfoldable pub enter_context : Client F P X → ℕ × Bool → Client F P X
  enter_context c context = if same_context c.shared_prediction context then c else record c {
    predictor =
        pred.set_display_preference (pred.reset c.predictor)
          (preference (c.never || not context.1));
    shared_prediction = some context;
  }

  unfoldable pub apply_shared : Client F P X → SharedScreen F → ℕ → Option (Screen F) → Answer
  unfolding enter_context
  apply_shared c incoming now_ms none = (c, none)
  apply_shared c incoming now_ms (some screen) =
      if regressed c.shared_prediction incoming.prediction_epoch
      then (c, some epoch_regressed)
      else (
        apply_screen frames codec pred f64
            (enter_context c (incoming.prediction_epoch, incoming.prediction_allowed)) screen
            now_ms,
        none,
      )

  unfoldable pub apply_shared_screen : Client F P X → SharedScreen F → ℕ → Answer
  unfolding apply_shared
  apply_shared_screen c incoming now_ms =
      apply_shared c incoming now_ms (apply_newer frames c.confirmed incoming.screen)

  unfoldable pub on_hello_ok : Client F P X → Result HelloOk → Answer
  on_hello_ok c (err e) = (c, some (invalid_hello_ok e))
  on_hello_ok c (ok hello) =
      if not (hello.protocol == protocol_version)
      then (c, some (protocol_version_differs hello.protocol))
      else (record c { hello_ok = true }, none)

  unfoldable pub on_shared_screen : Client F P X → ℕ → Result (SharedScreen F) → Answer
  on_shared_screen c now_ms (err e) = (c, some (invalid_shared_screen e))
  on_shared_screen c now_ms (ok s) = apply_shared_screen c s now_ms

  abbrev pub on_decoded : Client F P X → ℕ → Result (Screen F) → Client F P X
  on_decoded c now_ms (err e) = c
  on_decoded c now_ms (ok s) = apply_screen frames codec pred f64 c s now_ms

  unfoldable pub on_screen : Client F P X → ℕ → List ℕ → Option (ℕ × Bool) → Answer
  on_screen c now_ms payload (some context) = (c, some metadata_missing)
  on_screen c now_ms payload none =
      (on_decoded c now_ms (decode_compressed frames codec payload), none)

  unfoldable pub on_input_ack : Client F P X → Result ℕ → Answer
  on_input_ack c (err e) = (c, some (protocol_error e))
  on_input_ack c (ok ack) = (record c { unacked = retain (newer_than ack) c.unacked }, none)

  abbrev smoothed : Option X → X → X
  smoothed none sample = sample
  smoothed (some s) sample = f64.add (f64.mul s (f64.lit 3 4)) (f64.mul sample (f64.lit 1 4))

  unfoldable pub measured : Client F P X → ℕ → Option ℕ → Client F P X
  measured c now_ms none = c
  measured c now_ms (some t) =
      let srtt = smoothed c.srtt_ms (f64.of (now_ms - t)) in
      record c {
        ping_sent_ms = none;
        srtt_ms = some srtt;
        predictor =
            pred.set_send_interval c.predictor
              (min 250 (max 20 (f64.as_u32 (f64.ceil (f64.div srtt (f64.of 2))))));
      }

  unfoldable pub on_exit : Client F P X → Result ℕ → Answer
  on_exit c (err e) = (c, some (protocol_error e))
  on_exit c (ok status) = (record c { exit_code = status; hungup = true }, none)

  unfoldable pub on_error : Client F P X → Result (ℕ × List ℕ) → Answer
  on_error c (err e) = (c, some (protocol_error e))
  on_error c (ok (code, text)) = (c, some (server_error code text))

  unfoldable pub handle_frame : Client F P X → ℕ → List ℕ → ℕ → Answer
  unfolding on_hello_ok on_shared_screen on_screen on_input_ack measured on_exit on_error
  handle_frame c typ payload now_ms =
      if typ == Msg.hello_ok
      then on_hello_ok c (decode_hello_ok payload)
      else if typ == Msg.shared_screen
      then on_shared_screen c now_ms (decode_shared frames codec payload)
      else if typ == Msg.screen
      then on_screen c now_ms payload c.shared_prediction
      else if typ == Msg.input_ack
      then on_input_ack c (decode_u64 payload)
      else if typ == Msg.pong
      then (
        record (measured c now_ms c.ping_sent_ms) { last_rx_ms = some now_ms; outage = none },
        none,
      )
      else if typ == Msg.exit
      then on_exit c (decode_exit payload)
      else if typ == Msg.error
      then on_error c (decode_error payload)
      else (c, none)

  -- What a round does with the frame that it took; `again` are the rounds that follow.
  abbrev pub recv_next : (Client F P X → Answer) → Answer → Answer
  recv_next again (c, some e) = (c, some e)
  recv_next again (c, none) = again c

  abbrev pub recv_frame :
      (Client F P X → Answer) → Client F P X → ℕ → Result (Option (ℕ × List ℕ)) × List ℕ → Answer
  recv_frame again c now_ms (err e, left) = (record c { recv_buf = left }, some (protocol_error e))
  recv_frame again c now_ms (ok none, left) = (record c { recv_buf = left }, none)
  recv_frame again c now_ms (ok (some (typ, payload)), left) =
      recv_next again (handle_frame (record c { recv_buf = left }) typ payload now_ms)

  -- Each round takes five bytes at least.
  unfoldable pub recv_loop : ℕ → ℕ → Client F P X → Answer
  recv_loop zero now_ms c = (c, none)
  recv_loop (suc k) now_ms c = recv_frame (recv_loop k now_ms) c now_ms (split_frame c.recv_buf)

  abbrev pub heard : List ℕ → ℕ → Option ℕ → Option ℕ
  heard [] now_ms last = last
  heard (b ∷ bs) now_ms last = some now_ms

  unfoldable pub recv_control : Client F P X → List ℕ → ℕ → Answer
  unfolding recv_loop
  recv_control c bytes now_ms =
      recv_loop (suc (length (c.recv_buf ++ bytes))) now_ms
        (record c { last_rx_ms = heard bytes now_ms c.last_rx_ms; recv_buf = c.recv_buf ++ bytes })

  abbrev pub on_shared_datagram : Client F P X → ℕ → Result (SharedScreen F) → Client F P X
  on_shared_datagram c now_ms (err e) = c
  on_shared_datagram c now_ms (ok s) = (apply_shared_screen c s now_ms).0

  abbrev pub on_plain_datagram : Client F P X → List ℕ → ℕ → Option (ℕ × Bool) → Client F P X
  on_plain_datagram c bytes now_ms (some context) = c
  on_plain_datagram c bytes now_ms none = on_decoded c now_ms (decode_compressed frames codec bytes)

  unfoldable pub recv_datagram : Client F P X → List ℕ → ℕ → Client F P X
  recv_datagram c bytes now_ms =
      let heard = record c { last_rx_ms = some now_ms } in
      if same (take 4 bytes) shared_screen_magic
      then on_shared_datagram heard now_ms (decode_shared frames codec bytes)
      else on_plain_datagram heard bytes now_ms c.shared_prediction

  abbrev pub forbidden : Option (ℕ × Bool) → Bool
  forbidden none = false
  forbidden (some c) = not c.1

  abbrev basis : Option F → F → F
  basis none f = f
  basis (some d) f = d

  abbrev type_bytes : P → List ℕ → F → ℕ → P
  type_bytes p [] f now_ms = p
  type_bytes p (b ∷ bs) f now_ms = type_bytes (pred.new_user_byte p b f now_ms) bs f now_ms

  -- The input `seq` expires with the checkpoint `seq`, so it is fed as `seq - 1`.
  unfoldable pub predict_input : Client F P X → ℕ → List ℕ → ℕ → Option (Screen F) → Client F P X
  predict_input c seq bytes now_ms none = c
  predict_input c seq bytes now_ms (some screen) = refresh_display frames codec pred f64 (record c {
    predictor =
        type_bytes (pred.set_local_frame_sent c.predictor (seq - 1)) bytes
          (basis c.display screen.frame) now_ms;
  })

  unfoldable pub feed_predict : Client F P X → ℕ → List ℕ → ℕ → Client F P X
  unfolding predict_input
  feed_predict c seq bytes now_ms =
      if forbidden c.shared_prediction
      then c
      else if ltb paste_bytes (length bytes)
      then refresh_display frames codec pred f64 (record c { predictor = pred.reset c.predictor })
      else predict_input c seq bytes now_ms c.confirmed

  unfoldable pub queue_input : Client F P X → List ℕ → ℕ → Client F P X
  unfolding feed_predict
  queue_input c bytes now_ms =
      let seq = (c.seq + 1) % 2 ^ 64 in
      let c' = feed_predict (record c { seq = seq }) seq bytes now_ms in
      record c' { unacked = c'.unacked ++ ((seq, bytes) ∷ []) }

  unfoldable pub set_size : Client F P X → ℕ → ℕ → Client F P X
  set_size c cols rows = record c {
    cols = cols;
    rows = rows;
    feed =
        if c.connected && not c.hungup
        then (FrameFeed.push_ctrl c.feed (encode_resize cols rows)).0
        else c.feed;
  }

  unfoldable pub request_hangup : Client F P X → Client F P X
  request_hangup c = record c { feed = FrameFeed.push_fin c.feed encode_hangup; hungup = true }

  abbrev overdue : Option ℕ → ℕ → ℕ → Bool
  overdue none now_ms after = true
  overdue (some t) now_ms after = leb after (now_ms - t)

  abbrev pub ping_due : Client F P X → ℕ → Bool
  ping_due c now_ms =
      leb ping_interval_ms (now_ms - c.last_ping_ms)
      && overdue c.ping_sent_ms now_ms (ping_retry_ms frames codec pred f64 c.srtt_ms)

  unfoldable pub maybe_ping : Client F P X → ℕ → Client F P X
  maybe_ping c now_ms =
      let (feed, fits) = FrameFeed.push_ctrl c.feed encode_ping in
      if ping_due c now_ms
      then record c {
        feed = feed;
        last_ping_ms = if fits then now_ms else c.last_ping_ms;
        ping_sent_ms = if fits then some now_ms else c.ping_sent_ms;
      }
      else c

  abbrev culled : P → Option (Screen F) → ℕ → P
  culled p none now_ms = p
  culled p (some s) now_ms = pred.cull p s.frame now_ms

  unfoldable pub reconcile : Client F P X → ℕ → Client F P X
  reconcile c now_ms =
      if pred.active c.predictor
      then refresh_display frames codec pred f64
          (record c { predictor = culled c.predictor c.confirmed now_ms })
      else c

  abbrev pub silent : Option ℕ → ℕ → ℕ → Bool
  silent none now_ms after = false
  silent (some last) now_ms after = leb after (now_ms - last)

  abbrev banner : Option ℕ → ℕ → Option ℕ → Option ℕ
  banner none now_ms outage = outage
  banner (some last) now_ms outage =
      if ltb (outage_banner_secs * 1000) (now_ms - last) then some (now_ms - last) else outage

  unfoldable pub tick_online : Client F P X → ℕ → Client F P X × Tick
  tick_online c now_ms =
      let c' = maybe_ping c now_ms in
      if silent c'.last_rx_ms now_ms (link_dead_ms frames codec pred f64 c'.srtt_ms)
      then (c', link_dead)
      else (record c' { outage = banner c'.last_rx_ms now_ms c'.outage }, alive)

  unfoldable pub tick : Client F P X → ℕ → Client F P X × Tick
  unfolding tick_online reconcile
  tick c now_ms =
      let c' = pump frames codec pred f64 (reconcile c now_ms) in
      if c'.connected && not c'.hungup
      then tick_online c' now_ms
      else (record c' { outage = banner c'.last_rx_ms now_ms c'.outage }, alive)
