-- ===== src/Client/Wire.antt =====
-- The bytes that a client writes when it pumps, and the owner of a session (`Owner::run` of
-- crates/quosh-server/src/session.rs) that is handed the inputs in them.
use quosh.Client.{newer_than, pump_ack, pump_input, pump_unsent, begin_connection, pump, Client}
use quosh.Bytes.{le_bytes, length-le_bytes}
use quosh.Base.{
  ℕ, ◌+◌, ◌^◌, ◌<◌, ◌≡◌, refl, sym, ap, ◌∙◌, inl, inr, true, false, ◌||◌, not, some, List, [], ◌∷◌,
  ◌++◌, append-nil, arith, ◌==◌, if◌then◌else◌, ==_self, Bool-cases, Option-cases, length,
}
use quosh.Proto.FrameFeed
use quosh.Proto.FrameFeed.{FrameFeed}
use quosh.Proto.FrameFeed.Idle.{
  flush, loaded, push_ctrl-idle, writing-idle, flush-loaded, writing-loaded,
}
use quosh.Proto.Frame.{encode_frame, peek_len, split_frame}
use quosh.Proto.Msg
use quosh.Proto.Message.{encode_input, decode_input, encode_ack_state}
use quosh.Proto.Message.Layout.{encode_input-Arrives}
use quosh.Proto.{max_frame, Result, err, ok}
use quosh.Proto.Frame.Receive.{receive, receive-none, receive-some, End, waiting}
use quosh.Proto.Frame.RoundTrip.{split_frame-encode_frame}
use quosh.Session.Owner.{next_seq, on_input, Emulator, Owner, Next, go, stop}
use quosh.Client.Interfaces.{Predictions, F64}
use quosh.Proto.Screen.{Frames, Lz4}
use quosh.Session.Pending.{push_input}
use quosh.Devices.Search.{find_by}

abbrev pub decoded : Result (ℕ × List ℕ) → List (ℕ × List ℕ)
decoded (err e) = []
decoded (ok r) = r ∷ []

abbrev pub input_of : ℕ × List ℕ → List (ℕ × List ℕ)
input_of (typ, p) = if typ == Msg.input then decoded (decode_input p) else []

abbrev pub inputs_of : List (ℕ × List ℕ) → List (ℕ × List ℕ)
inputs_of [] = []
inputs_of (f ∷ fs) = input_of f ++ inputs_of fs

-- The inputs that a server finds in bytes of the control stream.
abbrev pub inputs_in : List ℕ → List (ℕ × List ℕ)
inputs_in bytes = inputs_of (receive bytes).0

receive-nil : receive [] ≡ ([], waiting [])
unfolding split_frame peek_len
receive-nil = receive-none [] [] refl

inputs_in-frame :
    (x p : List ℕ) (typ : ℕ)
    → split_frame (x ++ []) ≡ (ok (some (typ, p)), [])
    → inputs_in x ≡ input_of (typ, p)
inputs_in-frame x p typ h =
    ap (λ b. inputs_in b) (sym (append-nil x))
    ∙ ap (λ (z : List (ℕ × List ℕ) × End). inputs_of z.0) (receive-some (x ++ []) [] (typ, p) h)
    ∙ ap (λ (z : List (ℕ × List ℕ) × End). input_of (typ, p) ++ inputs_of z.0) receive-nil
    ∙ append-nil (input_of (typ, p))

pub inputs_in-input :
    (n : ℕ) (b : List ℕ)
    → n < 2 ^ 64
    → length b + 8 < max_frame
    → inputs_in (encode_input n b) ≡ (n, b) ∷ []
inputs_in-input n b h fits =
    let (p, s, e) = encode_input-Arrives n b (omega arith) fits [] in
    inputs_in-frame (encode_input n b) p Msg.input s ∙ ap decoded e

pub inputs_in-ack : (v : ℕ) → inputs_in (encode_ack_state v) ≡ []
unfolding encode_ack_state
inputs_in-ack v =
    inputs_in-frame (encode_frame Msg.ack_state (le_bytes 8 v)) (le_bytes 8 v) Msg.ack_state (
      split_frame-encode_frame Msg.ack_state (le_bytes 8 v) [] (omega (arith, length-le_bytes 8 v)))

pub inputs_in-nil : inputs_in [] ≡ []
inputs_in-nil = ap (λ (z : List (ℕ × List ℕ) × End). inputs_of z.0) receive-nil

module _ {E : Type 0} (emu : Emulator E) (max_cell_count : ℕ) where
  -- What the owner is after a command, and the payloads that it took: those whose number it moved to.
  abbrev pub next_of : Owner E → List ℕ → List (List ℕ) → Next (Owner E) → Owner E × List (List ℕ)
  next_of o b log (stop p) = (p, log)
  next_of o b log (go p) = (p, if p.last_seq == o.last_seq then log else log ++ (b ∷ []))

  abbrev pub owner_takes : Owner E × List (List ℕ) → ℕ × List ℕ → Owner E × List (List ℕ)
  owner_takes (o, log) (n, b) = next_of o b log (on_input emu max_cell_count o n b)

  abbrev pub owner_reads : Owner E × List (List ℕ) → List (ℕ × List ℕ) → Owner E × List (List ℕ)
  owner_reads s [] = s
  owner_reads s (r ∷ rs) = owner_reads (owner_takes s r) rs

  pub owner_takes-skips :
      (o : Owner E) (log : List (List ℕ)) (n : ℕ) (b : List ℕ)
      → (n == next_seq o.last_seq) ≡ false
      → ((owner_takes (o, log) (n, b)).0.last_seq ≡ o.last_seq)
        × ((owner_takes (o, log) (n, b)).0.pending.unread ≡ o.pending.unread)
        × ((owner_takes (o, log) (n, b)).1 ≡ log)
  unfolding on_input
  owner_takes-skips o log n b f = rw (f, ==_self o.last_seq) (refl, refl, refl)

  pub owner_takes-refuses :
      (o : Owner E) (log : List (List ℕ)) (n : ℕ) (b : List ℕ)
      → (n == next_seq o.last_seq) ≡ true
      → (push_input o.pending n b).1 ≡ false
      → ((owner_takes (o, log) (n, b)).0.last_seq ≡ o.last_seq)
        × ((owner_takes (o, log) (n, b)).1 ≡ log)
  unfolding on_input
  owner_takes-refuses o log n b t r = rw (t, r) (refl, refl)

  pub owner_takes-next :
      (o : Owner E) (log : List (List ℕ)) (n : ℕ) (b : List ℕ)
      → (n == next_seq o.last_seq) ≡ true
      → (n == o.last_seq) ≡ false
      → (push_input o.pending n b).1 ≡ true
      → ((owner_takes (o, log) (n, b)).0.last_seq ≡ n)
        × ((owner_takes (o, log) (n, b)).0.pending ≡ (push_input o.pending n b).0)
        × ((owner_takes (o, log) (n, b)).1 ≡ log ++ (b ∷ []))
  unfolding on_input
  owner_takes-next o log n b t d r = rw (t, r, d) (refl, refl, refl)

ack-writing : (v : ℕ) → FrameFeed.writing (loaded (encode_ack_state v)) ≡ true
unfolding encode_ack_state encode_frame
ack-writing v = writing-loaded _ _

module _ {F P X : Type 0} (frames : Frames F) (codec : Lz4) (pred : Predictions P F)
    (f64 : F64 X) where
  -- What the adapter writes of a client that pumped.
  abbrev pub chunk : Client F P X → List ℕ
  chunk d = FrameFeed.rest (pump frames codec pred f64 d).feed

  -- The client pumps, and the adapter writes what is in flight.
  abbrev pub round : Client F P X → Client F P X
  round d = let c = pump frames codec pred f64 d in record c { feed = flush c.feed }

  -- A new connection whose greeting is written.
  abbrev pub hello_sent : Client F P X → ℕ → Client F P X
  hello_sent d now_ms =
      let c = begin_connection frames codec pred f64 d now_ms in record c { feed = flush c.feed }

  pub hello_sent-idle :
      (d : Client F P X) (now_ms : ℕ) → (hello_sent d now_ms).feed ≡ FrameFeed.default
  unfolding begin_connection
  hello_sent-idle d now_ms = rw (push_ctrl-idle _) (flush-loaded _)

  pub pump-hungup : (d : Client F P X) → (pump frames codec pred f64 d).hungup ≡ d.hungup
  unfolding pump pump_ack pump_unsent pump_input
  pump-hungup d = ground arith

  pub data Pumped (d : Client F P X) : Type 0 where
    says_nothing : (pump frames codec pred f64 d).feed ≡ FrameFeed.default → Pumped d
    says_ack :
        (v : ℕ) → (pump frames codec pred f64 d).feed ≡ loaded (encode_ack_state v) → Pumped d
    says_input :
        (n : ℕ) (b : List ℕ)
        → find_by (newer_than d.sent_seq) d.unacked ≡ some (n, b)
        → (pump frames codec pred f64 d).feed ≡ loaded (encode_input n b)
        → Pumped d

  pub pump-cases : (d : Client F P X) → d.feed ≡ FrameFeed.default → Pumped d
  unfolding pump pump_ack pump_unsent pump_input
  pump-cases d idle = elim (Bool-cases (not d.connected || d.hungup)) [
    | inl t ↦ says_nothing (rw t idle)
    | inr f ↦ elim (Option-cases d.pending_ack) [
      | inr (v, e) ↦
          says_ack v (rw (f, e, idle, push_ctrl-idle (encode_ack_state v), ack-writing v) refl)
      | inl e ↦ elim (Option-cases (find_by (newer_than d.sent_seq) d.unacked)) [
        | inl g ↦ says_nothing (rw (f, e, idle, writing-idle, g) refl)
        | inr ((n, b), g) ↦
            says_input n b g
              (rw (f, e, idle, writing-idle, g, push_ctrl-idle (encode_input n b)) refl)
      ]
    ]
  ]
