-- ===== src/Client/Recv.antt =====
-- The loop of `recv_control`: it handles the frames that arrived, and keeps the bytes behind them.
use quosh.Proto.Frame.Stream.{split_frame_cases, Answer, waits, short, fails, takes}
use mathlib.Core.Path.{subst}
use quosh.Proto.Frame.Receive.{
  receive, receive-none, receive-err, receive-some, End, waiting, failed,
}
use quosh.Client.Events.{
  on_input_ack, handle_frame, recv_next, recv_frame, recv_loop, heard, recv_control,
}
use quosh.Proto.{Error, Result, err, ok}
use quosh.Client.{ClientError, Client, protocol_error}
use quosh.Client.Keeps.{
  on_shared_screen-Untouched, on_screen-Untouched, on_hello_ok-Untouched, measured-Untouched,
  on_exit-Untouched, on_error-Untouched,
}
use quosh.Client.Interfaces.{Predictions, F64}
use quosh.Base.{
  ℕ, zero, suc, ◌+◌, ◌<◌, ◌≡◌, refl, ap, Bool, true, false, Option, none, some, List, [], ◌∷◌, ◌++◌,
  arith, ◌==◌, if◌then◌else◌, length, drop, length-drop,
}
use quosh.Proto.Msg
use quosh.Proto.Message.{decode_hello_ok, decode_u64, decode_exit, decode_error}
use quosh.Proto.Screen.{decode_shared, Frames, Lz4}
use quosh.Proto.Frame.{split_frame}

module _ {F P X : Type 0} where
  -- What an event leaves in the buffer.
  if_answer-Left :
      {l : List ℕ} (b : Bool) {E : Type 0} (x y : Client F P X × E)
      → x.0.recv_buf ≡ l
      → y.0.recv_buf ≡ l
      → (if b then x else y).0.recv_buf ≡ l
  if_answer-Left true x y h k = h
  if_answer-Left false x y h k = k

module _ {F P X : Type 0} (frames : Frames F) (codec : Lz4) (pred : Predictions P F)
    (f64 : F64 X) where
  on_input_ack-Left :
      (c : Client F P X) (r : Result ℕ)
      → (on_input_ack frames codec pred f64 c r).0.recv_buf ≡ c.recv_buf
  unfolding on_input_ack
  on_input_ack-Left c (err e) = refl
  on_input_ack-Left c (ok n) = refl

  handle_frame-Left :
      (c : Client F P X) (typ : ℕ) (p : List ℕ) (now_ms : ℕ)
      → (handle_frame frames codec pred f64 c typ p now_ms).0.recv_buf ≡ c.recv_buf
  unfolding handle_frame
  handle_frame-Left c typ p now_ms =
      if_answer-Left (typ == Msg.hello_ok) _ _
        (on_hello_ok-Untouched frames codec pred f64 c (decode_hello_ok p)).recv_buf
        (if_answer-Left (typ == Msg.shared_screen) _ _
          (on_shared_screen-Untouched frames codec pred f64 c now_ms
            (decode_shared frames codec p)).recv_buf
          (if_answer-Left (typ == Msg.screen) _ _
            (on_screen-Untouched frames codec pred f64 c now_ms p c.shared_prediction).recv_buf
            (if_answer-Left (typ == Msg.input_ack) _ _ (on_input_ack-Left c (decode_u64 p)) (
              if_answer-Left (typ == Msg.pong) _ _
                (measured-Untouched frames codec pred f64 c now_ms c.ping_sent_ms).recv_buf
                (if_answer-Left (typ == Msg.exit) _ _
                  (on_exit-Untouched frames codec pred f64 c (decode_exit p)).recv_buf
                  (if_answer-Left (typ == Msg.error) _ _
                    (on_error-Untouched frames codec pred f64 c (decode_error p)).recv_buf
                    refl))))))

  -- From a client, the frames that the stream holds and how it ends: they are handled one after the
  -- other, whatever bytes wait behind each, up to the first that is refused; after them the bytes of
  -- a frame that is not whole stay, or the error of the stream is reported.
  pub data Takes (now_ms : ℕ)
      : Client F P X → List (ℕ × List ℕ) → End → Client F P X × Option ClientError → Type 0 where
    rests :
        {c : Client F P X} {l : List ℕ}
        → Takes now_ms c [] (waiting l) (record c { recv_buf = l }, none)
    breaks :
        {c : Client F P X} (e : Error) (l : List ℕ)
        → Takes now_ms c [] (failed e) (record c { recv_buf = l }, some (protocol_error e))
    refuses :
        {c d : Client F P X} {fs : List (ℕ × List ℕ)} {end_ : End} (typ : ℕ) (p l : List ℕ)
        (e : ClientError)
        → handle_frame frames codec pred f64 (record c { recv_buf = l }) typ p now_ms ≡ (d, some e)
        → Takes now_ms c ((typ, p) ∷ fs) end_ (d, some e)
    accepts :
        {c d : Client F P X} {fs : List (ℕ × List ℕ)} {end_ : End}
        {r : Client F P X × Option ClientError} (typ : ℕ) (p l : List ℕ)
        → handle_frame frames codec pred f64 (record c { recv_buf = l }) typ p now_ms ≡ (d, none)
        → Takes now_ms d fs end_ r
        → Takes now_ms c ((typ, p) ∷ fs) end_ r

  -- The same of the bytes that the stream holds.
  abbrev pub TakesAll : ℕ → Client F P X → List ℕ → Client F P X × Option ClientError → Type 0
  TakesAll now_ms c buf r = Takes now_ms c (receive buf).0 (receive buf).1 r

  recv_loop-Takes :
      (k now_ms : ℕ) (c : Client F P X)
      → length c.recv_buf < k
      → TakesAll now_ms c c.recv_buf (recv_loop frames codec pred f64 k now_ms c)
  unfolding recv_loop
  recv_loop-Takes zero now_ms c h = absurd (omega arith)
  recv_loop-Takes (suc k) now_ms c h =
      by_answer (λ d g. recv_loop-Takes k now_ms d g) (split_frame_cases c.recv_buf)
    where
      again : Client F P X → Client F P X × Option ClientError
      again = recv_loop frames codec pred f64 k now_ms

      by_next :
          ((d : Client F P X) → length d.recv_buf < k → TakesAll now_ms d d.recv_buf (again d))
          → (l : List ℕ) (t : ℕ) (p : List ℕ) (r : Client F P X × Option ClientError)
          → handle_frame frames codec pred f64 (record c { recv_buf = l }) t p now_ms ≡ r
          → r.0.recv_buf ≡ l
          → length l < k
          → Takes now_ms c
              ((t, p) ∷ (receive l).0)
              (receive l).1
              (recv_next frames codec pred f64 again r)
      by_next rest l t p (d, some e) q m g = refuses t p l e q
      by_next rest l t p (d, none) q m g =
          accepts t p l q
            (subst (λ b. TakesAll now_ms d b (again d)) m (rest d (omega (arith, g, ap length m))))

      by_answer :
          ((d : Client F P X) → length d.recv_buf < k → TakesAll now_ms d d.recv_buf (again d))
          → Answer c.recv_buf
          → TakesAll now_ms c c.recv_buf
              (recv_frame frames codec pred f64 again c now_ms (split_frame c.recv_buf))
      by_answer rest (waits e r) = rw (receive-none c.recv_buf c.recv_buf r, r) rests
      by_answer rest (short n e less r) = rw (receive-none c.recv_buf c.recv_buf r, r) rests
      by_answer rest (fails x e r) =
          rw (receive-err c.recv_buf c.recv_buf x r, r) (breaks x c.recv_buf)
      by_answer rest (takes n t p e le d r) =
          let c' : Client F P X = record c { recv_buf = drop (4 + n) c.recv_buf } in
          rw (receive-some c.recv_buf (drop (4 + n) c.recv_buf) (t, p) r, r)
            (by_next rest (drop (4 + n) c.recv_buf) t p
              (handle_frame frames codec pred f64 c' t p now_ms) refl
              (handle_frame-Left c' t p now_ms)
              (omega (arith, h, le, length-drop (4 + n) c.recv_buf)))

  -- `recv_control` handles, in their order, the frames that the stream holds after the bytes that
  -- waited and the ones that arrived, until one is refused, with the error of which it ends. If none
  -- is, it ends with the error of the stream, or keeps exactly the bytes behind the frames and ends
  -- with none.
  pub recv_control-Takes :
      (c : Client F P X) (bytes : List ℕ) (now_ms : ℕ)
      → TakesAll now_ms
          (record c {
            last_rx_ms = heard frames codec pred f64 bytes now_ms c.last_rx_ms;
            recv_buf = c.recv_buf ++ bytes;
          })
          (c.recv_buf ++ bytes)
          (recv_control frames codec pred f64 c bytes now_ms)
  unfolding recv_control
  recv_control-Takes c bytes now_ms =
      recv_loop-Takes (suc (length (c.recv_buf ++ bytes))) now_ms _ (omega arith)
