-- ===== src/Client/Runs.antt =====
-- What a client holds over any sequence of its operations.
use quosh.Client.Events.{
  on_input_ack, measured, handle_frame, recv_next, recv_frame, recv_loop, heard, recv_control,
  recv_datagram, queue_input, set_size, request_hangup, reconcile, tick,
}
use quosh.Client.{newer_than, pump, begin_connection, end_connection, reset, ClientError, Client}
use quosh.Client.Unacked.{Quiet-Tracks, Tracks}
use quosh.Client.Keeps.{
  Untouched-Quiet, on_shared_screen-Untouched, on_screen-Untouched, on_hello_ok-Untouched,
  measured-Untouched, on_exit-Untouched, on_error-Untouched, recv_datagram-Untouched,
  reconcile-Untouched, tick_online-Untouched, Untouched,
}
use quosh.Client.Sends.{
  if_answer-Tracks, ack-Tracks, queue_input-Tracks, pump-Tracks, connects-Tracks,
}
use quosh.Client.Interfaces.{Predictions, F64}
use mathlib.Core.Path.{subst}
use quosh.Devices.Search.{retain}
use quosh.Base.{
  ℕ, zero, suc, ◌+◌, ◌-◌, ◌^◌, ◌<◌, min, max, ◌≡◌, refl, sym, inl, inr, false, ◌&&◌, not, Option,
  none, some, List, [], ◌∷◌, ◌++◌, arith, ◌==◌, if◌then◌else◌, ==_iff, Bool-cases, length, drop,
  length-drop,
}
use quosh.Proto.{Result, err, ok}
use quosh.Proto.Msg
use quosh.Proto.Message.{decode_hello_ok, decode_u64, decode_exit, decode_error}
use quosh.Proto.Screen.{decode_shared, Frames, Lz4}
use quosh.Proto.Frame.{split_frame}
use quosh.Proto.FrameFeed

-- What the payload of an acknowledgement says: the number of the last acknowledged input, of `total`
-- inputs, where `a` was the last before it.
abbrev pub acked_by : Result ℕ → ℕ → ℕ → ℕ
acked_by (err e) a total = a
acked_by (ok n) a total = min (max a n) total

-- The same of any frame.
abbrev pub acked_after : ℕ → List ℕ → ℕ → ℕ → ℕ
acked_after typ p a total = if typ == Msg.input_ack then acked_by (decode_u64 p) a total else a

module _ {F P X : Type 0} (frames : Frames F) (codec : Lz4) (pred : Predictions P F)
    (f64 : F64 X) where
  on_input_ack-Tracks :
      {a : ℕ} {typed : List (List ℕ)} (c : Client F P X) (r : Result ℕ)
      → Tracks a typed c
      → Tracks (acked_by r a (length typed)) typed (on_input_ack frames codec pred f64 c r).0
  unfolding on_input_ack
  on_input_ack-Tracks c (err e) v = v
  on_input_ack-Tracks {a} {typed} c (ok n) v =
      subst (λ m. Tracks m typed (record c { unacked = retain (newer_than n) c.unacked }))
        (let e : a + min (n - a) (length (drop a typed)) ≡ min (max a n) (length typed) =
            omega (arith, length-drop a typed, v.within) in
          e)
        (ack-Tracks c n v)

  -- A frame that acknowledges nothing.
  handle_other-Tracks :
      {a : ℕ} {typed : List (List ℕ)} (c : Client F P X) (typ : ℕ) (p : List ℕ) (now_ms : ℕ)
      → (typ == Msg.input_ack) ≡ false
      → Tracks a typed c
      → Tracks a typed (handle_frame frames codec pred f64 c typ p now_ms).0
  unfolding handle_frame
  handle_other-Tracks {a} {typed} c typ p now_ms other v = rw other (
      if_answer-Tracks (typ == Msg.hello_ok) _ _
        (quiet (on_hello_ok-Untouched frames codec pred f64 c (decode_hello_ok p)))
        (if_answer-Tracks (typ == Msg.shared_screen) _ _
          (quiet (
            on_shared_screen-Untouched frames codec pred f64 c now_ms
              (decode_shared frames codec p)))
          (if_answer-Tracks (typ == Msg.screen) _ _
            (quiet (on_screen-Untouched frames codec pred f64 c now_ms p c.shared_prediction))
            (if_answer-Tracks (typ == Msg.pong) _ _
              (Quiet-Tracks {c = measured frames codec pred f64 c now_ms c.ping_sent_ms}
                (record { unacked = refl; seq = refl; sent_seq = refl })
                (quiet (measured-Untouched frames codec pred f64 c now_ms c.ping_sent_ms)))
              (if_answer-Tracks (typ == Msg.exit) _ _
                (quiet (on_exit-Untouched frames codec pred f64 c (decode_exit p)))
                (if_answer-Tracks (typ == Msg.error) _ _
                  (quiet (on_error-Untouched frames codec pred f64 c (decode_error p))) v))))))
    where
      quiet : {d : Client F P X} → Untouched c d → Tracks a typed d
      quiet u = Quiet-Tracks (Untouched-Quiet u) v

  handle_frame-Tracks :
      {a : ℕ} {typed : List (List ℕ)} (c : Client F P X) (typ : ℕ) (p : List ℕ) (now_ms : ℕ)
      → Tracks a typed c
      → Tracks
          (acked_after typ p a (length typed))
          typed
          (handle_frame frames codec pred f64 c typ p now_ms).0
  unfolding handle_frame
  handle_frame-Tracks {a} {typed} c typ p now_ms v = elim (Bool-cases (typ == Msg.input_ack)) [
    | inr other ↦
        subst (λ m. Tracks m typed (handle_frame frames codec pred f64 c typ p now_ms).0)
          (let e : a ≡ acked_after typ p a (length typed) = rw other refl in e)
          (handle_other-Tracks c typ p now_ms other v)
    | inl t ↦
        subst
          (λ n.
            Tracks (acked_after n p a (length typed)) typed
              (handle_frame frames codec pred f64 c n p now_ms).0)
          (sym ((==_iff typ Msg.input_ack).0 t)) (on_input_ack-Tracks c (decode_u64 p) v)
  ]

  tick-Tracks :
      {a : ℕ} {typed : List (List ℕ)} (c : Client F P X) (now_ms : ℕ)
      → Tracks a typed c
      → Tracks a typed (tick frames codec pred f64 c now_ms).0
  unfolding tick
  tick-Tracks {a} {typed} c now_ms v =
      let c' : Client F P X =
        pump frames codec pred f64 (reconcile frames codec pred f64 c now_ms) in
      let v' : Tracks a typed c' =
        pump-Tracks frames codec pred f64 _
          (Quiet-Tracks (Untouched-Quiet (reconcile-Untouched frames codec pred f64 c now_ms)) v) in
      if_answer-Tracks (c'.connected && not c'.hungup) _ _
        (Quiet-Tracks (Untouched-Quiet (tick_online-Untouched frames codec pred f64 c' now_ms)) v')
        (Quiet-Tracks {c = c'} (record { unacked = refl; seq = refl; sent_seq = refl }) v')

  -- The clients that the operations reach, with the inputs that were typed and the number of the
  -- last that a frame of the server acknowledged.
  pub data Runs (c : Client F P X) : List (List ℕ) → ℕ → Client F P X → Type 0 where
    untouched : Runs c [] 0 c
    queued :
        {typed : List (List ℕ)} {a : ℕ} {d : Client F P X} (bytes : List ℕ) (now_ms : ℕ)
        → suc (length typed) < 2 ^ 64
        → Runs c typed a d
        → Runs c (typed ++ (bytes ∷ [])) a (queue_input frames codec pred f64 d bytes now_ms)
    pumped :
        {typed : List (List ℕ)} {a : ℕ} {d : Client F P X}
        → Runs c typed a d
        → Runs c typed a (pump frames codec pred f64 d)
    written :
        {typed : List (List ℕ)} {a : ℕ} {d : Client F P X} (n : ℕ)
        → Runs c typed a d
        → Runs c typed a (record d { feed = FrameFeed.advance d.feed n })
    connects :
        {typed : List (List ℕ)} {a : ℕ} {d : Client F P X} (now_ms : ℕ)
        → Runs c typed a d
        → Runs c typed a (begin_connection frames codec pred f64 d now_ms)
    ended :
        {typed : List (List ℕ)} {a : ℕ} {d : Client F P X}
        → Runs c typed a d
        → Runs c typed a (reset frames codec pred f64 (end_connection frames codec pred f64 d))
    -- Bytes arrive, or are taken from the front.
    buffered :
        {typed : List (List ℕ)} {a : ℕ} {d : Client F P X} (bytes : List ℕ) (heard_ms : Option ℕ)
        → Runs c typed a d
        → Runs c typed a (record d { last_rx_ms = heard_ms; recv_buf = bytes })
    answered :
        {typed : List (List ℕ)} {a : ℕ} {d : Client F P X} (typ : ℕ) (p : List ℕ) (now_ms : ℕ)
        → Runs c typed a d
        → Runs c typed
            (acked_after typ p a (length typed))
            (handle_frame frames codec pred f64 d typ p now_ms).0
    datagram :
        {typed : List (List ℕ)} {a : ℕ} {d : Client F P X} (bytes : List ℕ) (now_ms : ℕ)
        → Runs c typed a d
        → Runs c typed a (recv_datagram frames codec pred f64 d bytes now_ms)
    sized :
        {typed : List (List ℕ)} {a : ℕ} {d : Client F P X} (cols rows : ℕ)
        → Runs c typed a d
        → Runs c typed a (set_size frames codec pred f64 d cols rows)
    hung_up :
        {typed : List (List ℕ)} {a : ℕ} {d : Client F P X}
        → Runs c typed a d
        → Runs c typed a (request_hangup frames codec pred f64 d)
    ticked :
        {typed : List (List ℕ)} {a : ℕ} {d : Client F P X} (now_ms : ℕ)
        → Runs c typed a d
        → Runs c typed a (tick frames codec pred f64 d now_ms).0

  -- `recv_control` is such steps.
  recv_loop-Runs :
      (c : Client F P X) {typed : List (List ℕ)} {a : ℕ} (k now_ms : ℕ) (d : Client F P X)
      → Runs c typed a d
      → (b : ℕ) × Runs c typed b (recv_loop frames codec pred f64 k now_ms d).0
  unfolding recv_loop
  recv_loop-Runs c {a = a} zero now_ms d r = (a, r)
  recv_loop-Runs c {typed} {a} (suc k) now_ms d r =
      by_frame (λ b e q. recv_loop-Runs c k now_ms e q) (split_frame d.recv_buf)
    where
      by_next :
          ((b : ℕ) (e : Client F P X)
            → Runs c typed b e
            → (m : ℕ) × Runs c typed m (recv_loop frames codec pred f64 k now_ms e).0)
          → (b : ℕ) (r : Client F P X × Option ClientError) → Runs c typed b r.0
          → (m : ℕ) × Runs c typed m
              (recv_next frames codec pred f64 (recv_loop frames codec pred f64 k now_ms) r).0
      by_next rest b (e, some x) q = (b, q)
      by_next rest b (e, none) q = rest b e q

      by_frame :
          ((b : ℕ) (e : Client F P X)
            → Runs c typed b e
            → (m : ℕ) × Runs c typed m (recv_loop frames codec pred f64 k now_ms e).0)
          → (r : Result (Option (ℕ × List ℕ)) × List ℕ)
          → (m : ℕ) × Runs c typed m
              (recv_frame frames codec pred f64
                (recv_loop frames codec pred f64 k now_ms)
                d
                now_ms
                r).0
      by_frame rest (err e, l) = (a, buffered l d.last_rx_ms r)
      by_frame rest (ok none, l) = (a, buffered l d.last_rx_ms r)
      by_frame rest (ok (some (typ, p)), l) =
          by_next rest (acked_after typ p a (length typed))
            (handle_frame frames codec pred f64 (record d { recv_buf = l }) typ p now_ms)
            (answered typ p now_ms (buffered l d.last_rx_ms r))

  pub recv_control-Runs :
      (c : Client F P X) {typed : List (List ℕ)} {a : ℕ} {d : Client F P X} (bytes : List ℕ)
      (now_ms : ℕ)
      → Runs c typed a d
      → (b : ℕ) × Runs c typed b (recv_control frames codec pred f64 d bytes now_ms).0
  unfolding recv_control
  recv_control-Runs c {d = d} bytes now_ms r =
      recv_loop-Runs c (suc (length (d.recv_buf ++ bytes))) now_ms _
        (buffered (d.recv_buf ++ bytes) (heard frames codec pred f64 bytes now_ms d.last_rx_ms) r)

  -- Over any operations, reconnects among them, a client keeps, numbered from one without a gap,
  -- exactly the typed inputs behind the last one that a frame of the server acknowledged, and the
  -- number that it marked as sent is of an input that was typed.
  pub Runs-Tracks :
      (c : Client F P X) {typed : List (List ℕ)} {a : ℕ} {d : Client F P X}
      → Tracks 0 [] c
      → Runs c typed a d
      → Tracks a typed d
  unfolding begin_connection set_size request_hangup
  Runs-Tracks c v untouched = v
  Runs-Tracks c v (queued {d} bytes now_ms room r) =
      queue_input-Tracks frames codec pred f64 d bytes now_ms room (Runs-Tracks c v r)
  Runs-Tracks c v (pumped {d} r) = pump-Tracks frames codec pred f64 d (Runs-Tracks c v r)
  Runs-Tracks c v (written {d} n r) =
      Quiet-Tracks {c = d} (record { unacked = refl; seq = refl; sent_seq = refl })
        (Runs-Tracks c v r)
  Runs-Tracks c v (connects {d} now_ms r) =
      connects-Tracks frames codec pred f64 d now_ms (Runs-Tracks c v r)
  Runs-Tracks c v (ended {d} r) =
      Quiet-Tracks {c = d} (record { unacked = refl; seq = refl; sent_seq = refl })
        (Runs-Tracks c v r)
  Runs-Tracks c v (buffered {d} bytes heard_ms r) =
      Quiet-Tracks {c = d} (record { unacked = refl; seq = refl; sent_seq = refl })
        (Runs-Tracks c v r)
  Runs-Tracks c v (answered {d} typ p now_ms r) =
      handle_frame-Tracks d typ p now_ms (Runs-Tracks c v r)
  Runs-Tracks c v (datagram {d} bytes now_ms r) =
      Quiet-Tracks (Untouched-Quiet (recv_datagram-Untouched frames codec pred f64 d bytes now_ms))
        (Runs-Tracks c v r)
  Runs-Tracks c v (sized {d} cols rows r) =
      Quiet-Tracks {c = d} (record { unacked = refl; seq = refl; sent_seq = refl })
        (Runs-Tracks c v r)
  Runs-Tracks c v (hung_up {d} r) =
      Quiet-Tracks {c = d} (record { unacked = refl; seq = refl; sent_seq = refl })
        (Runs-Tracks c v r)
  Runs-Tracks c v (ticked {d} now_ms r) = tick-Tracks d now_ms (Runs-Tracks c v r)
