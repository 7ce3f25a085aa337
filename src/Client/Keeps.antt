-- ===== src/Client/Keeps.antt =====
-- Every operation of a client keeps what it knows of the inputs that it has to deliver.
use quosh.Client.Events.{
  regressed, same_context, enter_context, apply_shared, apply_shared_screen, on_hello_ok,
  on_shared_screen, on_decoded, on_screen, measured, on_exit, on_error, on_shared_datagram,
  on_plain_datagram, recv_datagram, forbidden, predict_input, feed_predict, ping_due, maybe_ping,
  reconcile, silent, tick_online,
}
use quosh.Client.{paste_bytes, link_dead_ms, refresh_display, apply_confirmed, apply_screen, Client}
use quosh.Client.Unacked.{Quiet}
use quosh.Client.Interfaces.{Predictions, F64}
use quosh.Base.{
  ℕ, ◌≡◌, refl, ◌∙◌, Bool, true, false, not, Option, none, some, List, ltb, ◌==◌, if◌then◌else◌,
  length, take,
}
use quosh.Proto.Screen.{
  shared_screen_magic, apply_newer, decode_compressed, decode_shared, Frames, Lz4, Screen,
  SharedScreen,
}
use quosh.Devices.Search.{same}
use quosh.Proto.{protocol_version, Result, err, ok}
use quosh.Proto.Message.{HelloOk}

module _ {F P X : Type 0} where
  -- What an event may not change on its own, the received bytes among it.
  pub record Untouched (c c' : Client F P X) : Type 0 where
    pub unacked : c'.unacked ≡ c.unacked
    pub seq : c'.seq ≡ c.seq
    pub sent_seq : c'.sent_seq ≡ c.sent_seq
    pub recv_buf : c'.recv_buf ≡ c.recv_buf

  pub Untouched-Quiet : {c c' : Client F P X} → Untouched c c' → Quiet c c'
  Untouched-Quiet u = record { unacked = u.unacked; seq = u.seq; sent_seq = u.sent_seq }

  if-Untouched :
      (b : Bool) {c x y : Client F P X}
      → Untouched c x
      → Untouched c y
      → Untouched c (if b then x else y)
  if-Untouched true h k = h
  if-Untouched false h k = k

  if_answer-Untouched :
      (b : Bool) {E : Type 0} {c : Client F P X} (x y : Client F P X × E)
      → Untouched c x.0
      → Untouched c y.0
      → Untouched c (if b then x else y).0
  if_answer-Untouched true x y h k = h
  if_answer-Untouched false x y h k = k

  self : (c : Client F P X) → Untouched c c
  self c = record { unacked = refl; seq = refl; sent_seq = refl; recv_buf = refl }

  then-Untouched : {c d e : Client F P X} → Untouched c d → Untouched d e → Untouched c e
  then-Untouched h k = record {
    unacked = k.unacked ∙ h.unacked;
    seq = k.seq ∙ h.seq;
    sent_seq = k.sent_seq ∙ h.sent_seq;
    recv_buf = k.recv_buf ∙ h.recv_buf;
  }

module _ {F P X : Type 0} (frames : Frames F) (codec : Lz4) (pred : Predictions P F)
    (f64 : F64 X) where
  predict_input-Untouched :
      (c : Client F P X) (seq : ℕ) (bytes : List ℕ) (now_ms : ℕ) (o : Option (Screen F))
      → Untouched c (predict_input frames codec pred f64 c seq bytes now_ms o)
  unfolding predict_input refresh_display
  predict_input-Untouched c seq bytes now_ms none = self c
  predict_input-Untouched c seq bytes now_ms (some screen) = record {
    unacked = refl;
    seq = refl;
    sent_seq = refl;
    recv_buf = refl;
  }

  pub feed_predict-Untouched :
      (c : Client F P X) (seq : ℕ) (bytes : List ℕ) (now_ms : ℕ)
      → Untouched c (feed_predict frames codec pred f64 c seq bytes now_ms)
  unfolding feed_predict refresh_display
  feed_predict-Untouched c seq bytes now_ms =
      if-Untouched (forbidden frames codec pred f64 c.shared_prediction) (self c) (
        if-Untouched (ltb paste_bytes (length bytes))
          (record { unacked = refl; seq = refl; sent_seq = refl; recv_buf = refl })
          (predict_input-Untouched c seq bytes now_ms c.confirmed))

  apply_confirmed-Untouched :
      (c : Client F P X) (now_ms : ℕ) (o : Option (Screen F))
      → Untouched c (apply_confirmed frames codec pred f64 c now_ms o)
  unfolding apply_confirmed refresh_display
  apply_confirmed-Untouched c now_ms none = self c
  apply_confirmed-Untouched c now_ms (some s) = record {
    unacked = refl;
    seq = refl;
    sent_seq = refl;
    recv_buf = refl;
  }

  pub apply_screen-Untouched :
      (c : Client F P X) (s : Screen F) (now_ms : ℕ)
      → Untouched c (apply_screen frames codec pred f64 c s now_ms)
  unfolding apply_screen
  apply_screen-Untouched c s now_ms =
      apply_confirmed-Untouched c now_ms (apply_newer frames c.confirmed s)

  enter_context-Untouched :
      (c : Client F P X) (x : ℕ × Bool) → Untouched c (enter_context frames codec pred f64 c x)
  unfolding enter_context
  enter_context-Untouched c x =
      if-Untouched (same_context frames codec pred f64 c.shared_prediction x) (self c)
        (record { unacked = refl; seq = refl; sent_seq = refl; recv_buf = refl })

  apply_shared-Untouched :
      (c : Client F P X) (s : SharedScreen F) (now_ms : ℕ) (o : Option (Screen F))
      → Untouched c (apply_shared frames codec pred f64 c s now_ms o).0
  unfolding apply_shared
  apply_shared-Untouched c s now_ms none = self c
  apply_shared-Untouched c s now_ms (some screen) =
      if_answer-Untouched (regressed frames codec pred f64 c.shared_prediction s.prediction_epoch) _
        _ (self c)
        (then-Untouched (enter_context-Untouched c (s.prediction_epoch, s.prediction_allowed))
          (apply_screen-Untouched _ screen now_ms))

  pub apply_shared_screen-Untouched :
      (c : Client F P X) (s : SharedScreen F) (now_ms : ℕ)
      → Untouched c (apply_shared_screen frames codec pred f64 c s now_ms).0
  unfolding apply_shared_screen
  apply_shared_screen-Untouched c s now_ms =
      apply_shared-Untouched c s now_ms (apply_newer frames c.confirmed s.screen)

  pub on_shared_screen-Untouched :
      (c : Client F P X) (now_ms : ℕ) (r : Result (SharedScreen F))
      → Untouched c (on_shared_screen frames codec pred f64 c now_ms r).0
  unfolding on_shared_screen
  on_shared_screen-Untouched c now_ms (err e) = self c
  on_shared_screen-Untouched c now_ms (ok s) = apply_shared_screen-Untouched c s now_ms

  pub on_decoded-Untouched :
      (c : Client F P X) (now_ms : ℕ) (r : Result (Screen F))
      → Untouched c (on_decoded frames codec pred f64 c now_ms r)
  on_decoded-Untouched c now_ms (err e) = self c
  on_decoded-Untouched c now_ms (ok s) = apply_screen-Untouched c s now_ms

  pub on_screen-Untouched :
      (c : Client F P X) (now_ms : ℕ) (p : List ℕ) (o : Option (ℕ × Bool))
      → Untouched c (on_screen frames codec pred f64 c now_ms p o).0
  unfolding on_screen
  on_screen-Untouched c now_ms p none =
      on_decoded-Untouched c now_ms (decode_compressed frames codec p)
  on_screen-Untouched c now_ms p (some x) = self c

  pub on_hello_ok-Untouched :
      (c : Client F P X) (r : Result HelloOk)
      → Untouched c (on_hello_ok frames codec pred f64 c r).0
  unfolding on_hello_ok
  on_hello_ok-Untouched c (err e) = self c
  on_hello_ok-Untouched c (ok h) =
      if_answer-Untouched (not (h.protocol == protocol_version)) _ _ (self c)
        (record { unacked = refl; seq = refl; sent_seq = refl; recv_buf = refl })

  pub measured-Untouched :
      (c : Client F P X) (now_ms : ℕ) (o : Option ℕ)
      → Untouched c (measured frames codec pred f64 c now_ms o)
  unfolding measured
  measured-Untouched c now_ms none = self c
  measured-Untouched c now_ms (some t) = record {
    unacked = refl;
    seq = refl;
    sent_seq = refl;
    recv_buf = refl;
  }

  pub on_exit-Untouched :
      (c : Client F P X) (r : Result ℕ) → Untouched c (on_exit frames codec pred f64 c r).0
  unfolding on_exit
  on_exit-Untouched c (err e) = self c
  on_exit-Untouched c (ok status) = record {
    unacked = refl;
    seq = refl;
    sent_seq = refl;
    recv_buf = refl;
  }

  pub on_error-Untouched :
      (c : Client F P X) (r : Result (ℕ × List ℕ))
      → Untouched c (on_error frames codec pred f64 c r).0
  unfolding on_error
  on_error-Untouched c (err e) = self c
  on_error-Untouched c (ok (code, text)) = self c

  on_shared_datagram-Untouched :
      (c : Client F P X) (now_ms : ℕ) (r : Result (SharedScreen F))
      → Untouched c (on_shared_datagram frames codec pred f64 c now_ms r)
  on_shared_datagram-Untouched c now_ms (err e) = self c
  on_shared_datagram-Untouched c now_ms (ok s) = apply_shared_screen-Untouched c s now_ms

  on_plain_datagram-Untouched :
      (c : Client F P X) (b : List ℕ) (now_ms : ℕ) (o : Option (ℕ × Bool))
      → Untouched c (on_plain_datagram frames codec pred f64 c b now_ms o)
  on_plain_datagram-Untouched c b now_ms none =
      on_decoded-Untouched c now_ms (decode_compressed frames codec b)
  on_plain_datagram-Untouched c b now_ms (some x) = self c

  pub recv_datagram-Untouched :
      (c : Client F P X) (b : List ℕ) (now_ms : ℕ)
      → Untouched c (recv_datagram frames codec pred f64 c b now_ms)
  unfolding recv_datagram
  recv_datagram-Untouched c b now_ms =
      let heard : Client F P X = record c { last_rx_ms = some now_ms } in
      then-Untouched {d = heard}
        (record { unacked = refl; seq = refl; sent_seq = refl; recv_buf = refl })
        (if-Untouched (same (take 4 b) shared_screen_magic)
          (on_shared_datagram-Untouched heard now_ms (decode_shared frames codec b))
          (on_plain_datagram-Untouched heard b now_ms c.shared_prediction))

  maybe_ping-Untouched :
      (c : Client F P X) (now_ms : ℕ) → Untouched c (maybe_ping frames codec pred f64 c now_ms)
  unfolding maybe_ping
  maybe_ping-Untouched c now_ms =
      if-Untouched (ping_due frames codec pred f64 c now_ms)
        (record { unacked = refl; seq = refl; sent_seq = refl; recv_buf = refl }) (self c)

  pub reconcile-Untouched :
      (c : Client F P X) (now_ms : ℕ) → Untouched c (reconcile frames codec pred f64 c now_ms)
  unfolding reconcile refresh_display
  reconcile-Untouched c now_ms =
      if-Untouched (pred.active c.predictor)
        (record { unacked = refl; seq = refl; sent_seq = refl; recv_buf = refl }) (self c)

  pub tick_online-Untouched :
      (c : Client F P X) (now_ms : ℕ) → Untouched c (tick_online frames codec pred f64 c now_ms).0
  unfolding tick_online
  tick_online-Untouched c now_ms = then-Untouched (maybe_ping-Untouched c now_ms) (
      if_answer-Untouched
        (silent frames codec pred f64 (maybe_ping frames codec pred f64 c now_ms).last_rx_ms now_ms
          (link_dead_ms frames codec pred f64 (maybe_ping frames codec pred f64 c now_ms).srtt_ms))
        _ _ (self _) (record { unacked = refl; seq = refl; sent_seq = refl; recv_buf = refl }))
