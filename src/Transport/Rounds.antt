-- ===== src/Transport/Rounds.antt =====
-- The loop of `run_transport` in crates/quosh-server/src/transport.rs: what a round does before it
-- waits, and what each event does.
pub mod Bounds
use quosh.Base.{
  ℕ, zero, suc, ◌+◌, inl, inr, Bool, true, false, ◌&&◌, not, Option, none, some, List, [], ◌∷◌,
  ◌++◌, ltb, leb, ◌==◌, if◌then◌else◌, length,
}
use quosh.Proto.{protocol_version, max_frame}
use quosh.Proto.Msg
use quosh.Proto.Frame.{encode_frame}
use quosh.Proto.Message.{encode_hello_ok, encode_input_ack, encode_exit, validate_dims}
use quosh.Proto.FrameFeed
use quosh.Proto.FrameFeed.{FrameFeed}
use quosh.Session.Handle.{version, try_resize, Latest, Session, resize, busy}
use quosh.Session.Owner.{Io, Next, got, failed, would_block, go, stop}
use quosh.Transport.Cmds.{Channel}
use quosh.Transport.{busy_cap, busy_bytes, drain_busy, drain_leftover, TransportError, Transport}

-- The blob goes out as a datagram where it fits one, else through the feed.
unfoldable pub push_screen : FrameFeed → ℕ → List ℕ → Bool → FrameFeed × Option (List ℕ)
push_screen feed max_datagram blob reliable =
    if not reliable && ltb (length blob + 1) max_datagram
    then (feed, some blob)
    else (FrameFeed.push_screen feed (encode_frame Msg.screen blob), none)

unfoldable pub queue_exit : Session → ℕ → ℕ → FrameFeed → FrameFeed
queue_exit sess epoch status feed =
    if not (sess.epoch == epoch)
    then feed
    else FrameFeed.push_fin
        (elim sess.latest [
          | none ↦ feed
          | some s ↦ FrameFeed.push_screen feed (encode_frame Msg.screen s.blob)
        ])
        (encode_exit status)

-- What a round comes to before it waits.
pub data Prepared (C : Type 0) : Type 0 where
  breaks : TransportError → Transport C → Prepared C
  -- The exit is queued, and what is in the feed is flushed.
  exits : Transport C → Prepared C
  waits : Transport C → Prepared C

pub data Wake : Type 0 where
  epoch_changed : ℕ → Wake
  exit_changed : Wake
  latest_changed : Option Latest → Wake
  accepted_changed : ℕ → Wake
  resync : Wake
  wrote : Io ℕ → Wake
  received : Io (List ℕ) → Wake

abbrev first_screen : Option Latest → FrameFeed → FrameFeed
first_screen none feed = feed
first_screen (some l) feed = FrameFeed.push_screen feed (encode_frame Msg.screen l.blob)

-- What a connection holds before its first round; `leftover` came with the greeting.
abbrev pub opened : {C : Type 0} → Session → C → List ℕ → ℕ → List ℕ → Option (ℕ × ℕ) → Transport C
opened sess cmds id version leftover size = record {
  sess = sess;
  cmds = cmds;
  leftover = leftover;
  feed =
      first_screen sess.latest
        (FrameFeed.push_ctrl FrameFeed.default (
          encode_hello_ok (record {
            protocol = protocol_version;
            session_id = id;
            version = version;
            cols = sess.size.0;
            rows = sess.size.1;
          }))).0;
  busy_input = [];
  pending_resize = size;
  pending_input_ack = if ltb 0 sess.accepted then some sess.accepted else none;
}

module _ {C : Type 0} (chan : Channel C) (max_cell_count : ℕ) (max_datagram : ℕ) where
  -- A resize is tried again while the channel is full.
  retry_resize : Transport C → Option (ℕ × ℕ) → Transport C
  retry_resize t none = t
  retry_resize t (some (cols, rows)) =
      let r = try_resize max_cell_count (λ m. (chan.try_send t.cmds m).0) cols rows in
      let c : C = elim (validate_dims max_cell_count cols rows) [
        | inl _ ↦ (chan.try_send t.cmds (resize cols rows)).1
        | inr _ ↦ t.cmds
      ] in
      record t { cmds = c; pending_resize = elim r [ busy ↦ some (cols, rows) | _ ↦ none ] }

  push_input_ack : Transport C → Option ℕ → Transport C
  push_input_ack t none = t
  push_input_ack t (some n) =
      let (feed, fits) = FrameFeed.push_ctrl t.feed (encode_input_ack n) in
      record t { feed = feed; pending_input_ack = if fits then none else some n }

  exit_or_wait : ℕ → Transport C → Option ℕ → Prepared C
  exit_or_wait epoch t none = waits t
  exit_or_wait epoch t (some st) = exits (record t { feed = queue_exit t.sess epoch st t.feed })

  -- What follows the drained frames.
  settle : ℕ → Transport C → Option TransportError → Prepared C
  unfolding retry_resize push_input_ack exit_or_wait
  settle epoch t (some e) = breaks e t
  settle epoch t none =
      let (c, q) = drain_busy chan t.cmds t.busy_input in
      let t1 : Transport C = record t { cmds = c; busy_input = q } in
      let t2 = retry_resize t1 t1.pending_resize in
      let t3 = push_input_ack t2 t2.pending_input_ack in exit_or_wait epoch t3 t3.sess.exit

  unfoldable pub prepare : ℕ → Transport C → Prepared C
  unfolding settle
  prepare epoch t =
      let (t', failure) = drain_leftover chan (suc (length t.leftover)) epoch busy_cap t in
      settle epoch t' failure

  unfoldable pub ready : Transport C → Wake → Bool
  ready t (wrote r) = FrameFeed.writing t.feed
  ready t (received r) = not (leb busy_cap (busy_bytes t.busy_input))
  ready t _ = true

  -- A screen that was not acknowledged is sent again.
  on_resync : Transport C → Option Latest → Next (Transport C × Option (List ℕ))
  on_resync t none = go (t, none)
  on_resync t (some l) =
      if ltb t.sess.last_acked l.version
      then go (record t { feed = (push_screen t.feed max_datagram l.blob true).0 }, none)
      else go (t, none)

  -- The state and the datagram that goes out, or the end of the loop.
  unfoldable pub on_wake : ℕ → Transport C → Wake → Next (Transport C × Option (List ℕ))
  unfolding on_resync
  on_wake epoch t (epoch_changed e) = if e == epoch then go (t, none) else stop (t, none)
  on_wake epoch t exit_changed = go (t, none)
  on_wake epoch t (latest_changed none) = go (t, none)
  on_wake epoch t (latest_changed (some l)) =
      let (feed, datagram) = push_screen t.feed max_datagram l.blob false in
      go (record t { feed = feed }, datagram)
  on_wake epoch t (accepted_changed n) =
      go (if ltb 0 n then record t { pending_input_ack = some n } else t, none)
  on_wake epoch t resync = on_resync t t.sess.latest
  on_wake epoch t (wrote failed) = stop (t, none)
  on_wake epoch t (wrote would_block) = go (t, none)
  on_wake epoch t (wrote (got zero)) = stop (t, none)
  on_wake epoch t (wrote (got (suc n))) =
      go (record t { feed = FrameFeed.advance t.feed (suc n) }, none)
  on_wake epoch t (received failed) = stop (t, none)
  on_wake epoch t (received would_block) = go (t, none)
  on_wake epoch t (received (got [])) = stop (t, none)
  on_wake epoch t (received (got (b ∷ bs))) =
      if ltb (4 + max_frame) (length t.leftover)
      then stop (t, none)
      else go (record t { leftover = t.leftover ++ (b ∷ bs) }, none)
