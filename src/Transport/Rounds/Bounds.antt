-- ===== src/Transport/Rounds/Bounds.antt =====
-- What a connection holds for its client stays bounded.
use quosh.Base.{
  ℕ, zero, suc, ◌+◌, ◌≤◌, ◌≡◌, refl, sym, ap, ◌∙◌, inl, inr, true, false, Option, none, some, List,
  [], ◌∷◌, ◌++◌, append_assoc, arith, ltb, ◌==◌, if◌then◌else◌, ltb→le, Bool-cases, length, All,
  length-append,
}
use mathlib.Core.Path.{subst}
use quosh.Proto.{max_frame}
use quosh.Session.Owner.{Next, got, failed, would_block, go, stop}
use quosh.Transport.Cmds.{Logs, Channel}
use quosh.Transport.{
  busy_cap, Records, busy_bytes, drain_busy, drain_leftover, TransportError, Transport,
}
use quosh.Transport.Busy.{IsRecord, drain_busy-Drained, Drained}
use quosh.Transport.Control.{busy_bytes-append, drain_leftover-Rests, Bounded}
use quosh.Transport.Rounds.{
  push_screen, retry_resize, push_input_ack, exit_or_wait, settle, prepare, ready, on_resync,
  on_wake, Prepared, Wake, breaks, exits, waits, epoch_changed, exit_changed, latest_changed,
  accepted_changed, resync, wrote, received,
}
use quosh.Session.Handle.{Latest, Session}

-- The bytes that one read returns at most.
abbrev pub read_size : ℕ
read_size = 4096

-- The received bytes that are kept at most.
abbrev pub most : ℕ
most = 4 + max_frame + read_size

abbrev pub Possible : Wake → Type 0
Possible (received (got b)) = length b ≤ read_size
Possible _ = Unit

abbrev pub prepared : {C : Type 0} → Prepared C → Transport C
prepared (breaks e t) = t
prepared (exits t) = t
prepared (waits t) = t

All-suffix : (q r : Records) → All IsRecord (q ++ r) → All IsRecord r
All-suffix [] r h = h
All-suffix (x ∷ q) r h = All-suffix q r h.1

module _ {C : Type 0} (chan : Channel C) (max_cell_count max_datagram : ℕ) where
  -- The states between two rounds of a connection that took the session as `epoch`.
  pub data Serves (epoch : ℕ) (t : Transport C) : Transport C → Type 0 where
    start : Serves epoch t t
    -- Others change the session and take commands from the channel meanwhile.
    shared :
        {u : Transport C} (s : Session) (c : C)
        → Serves epoch t u
        → Serves epoch t (record u { sess = s; cmds = c })
    round :
        {u v w : Transport C} (e : Wake) (d : Option (List ℕ))
        → Serves epoch t u
        → prepare chan max_cell_count max_datagram epoch u ≡ waits v
        → ready chan max_cell_count max_datagram v e ≡ true
        → Possible e
        → on_wake chan max_cell_count max_datagram epoch v e ≡ go (w, d)
        → (w.sess.epoch == epoch) ≡ true
        → Serves epoch t w

  shorter-Bounded :
      (t t' : Transport C) (q : Records)
      → Bounded chan busy_cap most t
      → t'.leftover ≡ t.leftover
      → t.busy_input ≡ q ++ t'.busy_input
      → Bounded chan busy_cap most t'
  shorter-Bounded t t' q v l e = record {
    records = All-suffix q t'.busy_input (subst (All IsRecord) e v.records);
    cost = omega (arith, v.cost, ap busy_bytes e, busy_bytes-append q t'.busy_input);
    held = rw l v.held;
  }

  retry_resize-Bounded :
      (t : Transport C) (o : Option (ℕ × ℕ))
      → Bounded chan busy_cap most t
      → Bounded chan busy_cap most (retry_resize chan max_cell_count max_datagram t o)
  unfolding retry_resize
  retry_resize-Bounded t none v = v
  retry_resize-Bounded t (some d) v = record { records = v.records; cost = v.cost; held = v.held }

  push_input_ack-Bounded :
      (t : Transport C) (o : Option ℕ)
      → Bounded chan busy_cap most t
      → Bounded chan busy_cap most (push_input_ack chan max_cell_count max_datagram t o)
  unfolding push_input_ack
  push_input_ack-Bounded t none v = v
  push_input_ack-Bounded t (some n) v = record { records = v.records; cost = v.cost; held = v.held }

  exit_or_wait-Bounded :
      (epoch : ℕ) (t : Transport C) (o : Option ℕ)
      → Bounded chan busy_cap most t
      → Bounded chan busy_cap most
          (prepared (exit_or_wait chan max_cell_count max_datagram epoch t o))
  unfolding exit_or_wait
  exit_or_wait-Bounded epoch t none v = v
  exit_or_wait-Bounded epoch t (some st) v = record {
    records = v.records;
    cost = v.cost;
    held = v.held;
  }

  settle-Bounded :
      Logs chan
      → (epoch : ℕ) (t : Transport C) (o : Option TransportError) → Bounded chan busy_cap most t
      → Bounded chan busy_cap most (prepared (settle chan max_cell_count max_datagram epoch t o))
  unfolding settle
  settle-Bounded logs epoch t (some e) v = v
  settle-Bounded logs epoch t none v = exit_or_wait-Bounded epoch t3 t3.sess.exit (
      push_input_ack-Bounded t2 t2.pending_input_ack (
        retry_resize-Bounded t1 t1.pending_resize (elim drained.left [
          | inl e ↦ shorter-Bounded t t1 drained.taken v refl e
          | inr (lost, e, why) ↦
              shorter-Bounded t t1 (drained.taken ++ (lost ∷ [])) v refl
                (e ∙ sym (append_assoc drained.taken (lost ∷ []) t1.busy_input))
        ])))
    where
      drained :
          Drained chan t.cmds
            (drain_busy chan t.cmds t.busy_input).0
            t.busy_input
            (drain_busy chan t.cmds t.busy_input).1
      drained = drain_busy-Drained chan logs t.cmds t.busy_input v.records

      t1 : Transport C
      t1 = record t {
        cmds = (drain_busy chan t.cmds t.busy_input).0;
        busy_input = (drain_busy chan t.cmds t.busy_input).1;
      }

      t2 : Transport C
      t2 = retry_resize chan max_cell_count max_datagram t1 t1.pending_resize

      t3 : Transport C
      t3 = push_input_ack chan max_cell_count max_datagram t2 t2.pending_input_ack

  prepare-Bounded :
      Logs chan
      → (epoch : ℕ) (t : Transport C) → Bounded chan busy_cap most t
      → Bounded chan busy_cap most (prepared (prepare chan max_cell_count max_datagram epoch t))
  unfolding prepare
  prepare-Bounded logs epoch t v =
      let r = drain_leftover chan (suc (length t.leftover)) epoch busy_cap t in
      settle-Bounded logs epoch r.0 r.1
        (drain_leftover-Rests chan (suc (length t.leftover)) epoch busy_cap most t (omega arith)
          v).1

  abbrev Goes : Next (Transport C × Option (List ℕ)) → Type 0
  Goes (go s) = Bounded chan busy_cap most s.0
  Goes (stop s) = Unit

  resync-Goes :
      (t : Transport C) (o : Option Latest)
      → Bounded chan busy_cap most t
      → Goes (on_resync chan max_cell_count max_datagram t o)
  unfolding on_resync
  resync-Goes t none v = v
  resync-Goes t (some l) v =
      elim (ltb t.sess.last_acked l.version)
        as (λ b. Goes (
          if b
          then go (record t { feed = (push_screen t.feed max_datagram l.blob true).0 }, none)
          else go (t, none))) [
            | true ↦ record { records = v.records; cost = v.cost; held = v.held }
            | false ↦ v
          ]

  on_wake-Goes :
      (epoch : ℕ) (t : Transport C) (e : Wake)
      → Possible e
      → Bounded chan busy_cap most t
      → Goes (on_wake chan max_cell_count max_datagram epoch t e)
  unfolding on_wake
  on_wake-Goes epoch t (epoch_changed e) w v =
      elim (e == epoch) as (λ b. Goes (if b then go (t, none) else stop (t, none))) [
        | true ↦ v
        | false ↦ tt
      ]
  on_wake-Goes epoch t exit_changed w v = v
  on_wake-Goes epoch t (latest_changed none) w v = v
  on_wake-Goes epoch t (latest_changed (some l)) w v = record {
    records = v.records;
    cost = v.cost;
    held = v.held;
  }
  on_wake-Goes epoch t (accepted_changed n) w v =
      elim (ltb 0 n)
        as (λ b.
          Bounded chan busy_cap most (if b then record t { pending_input_ack = some n } else t)) [
            | true ↦ record { records = v.records; cost = v.cost; held = v.held }
            | false ↦ v
          ]
  on_wake-Goes epoch t resync w v = resync-Goes t t.sess.latest v
  on_wake-Goes epoch t (wrote failed) w v = tt
  on_wake-Goes epoch t (wrote would_block) w v = v
  on_wake-Goes epoch t (wrote (got zero)) w v = tt
  on_wake-Goes epoch t (wrote (got (suc n))) w v = record {
    records = v.records;
    cost = v.cost;
    held = v.held;
  }
  on_wake-Goes epoch t (received failed) w v = tt
  on_wake-Goes epoch t (received would_block) w v = v
  on_wake-Goes epoch t (received (got [])) w v = tt
  on_wake-Goes epoch t (received (got (b ∷ bs))) w v =
      elim (Bool-cases (ltb (4 + max_frame) (length t.leftover))) [
        | inl l ↦ rw l tt
        | inr s ↦ rw s (record {
          records = v.records;
          cost = v.cost;
          held = omega (
            arith,
            length-append t.leftover (b ∷ bs),
            ltb→le (4 + max_frame) (length t.leftover) s,
            w,
          );
        })
      ]

  -- Over any rounds of a connection: the inputs that wait, with 32 bytes for each, cost at most the
  -- limit and one largest record, each is a record that the owner may be sent, and the received
  -- bytes are at most a largest frame and one read.
  pub Serves-Bounded :
      (epoch : ℕ) {t u : Transport C}
      → Logs chan
      → Bounded chan busy_cap most t
      → Serves epoch t u
      → Bounded chan busy_cap most u
  Serves-Bounded epoch logs v start = v
  Serves-Bounded epoch logs v (round {u} {v = u'} e d r p q w h _) = subst Goes h (
      on_wake-Goes epoch u' e w (
        subst (λ x. Bounded chan busy_cap most (prepared x)) p
          (prepare-Bounded logs epoch u (Serves-Bounded epoch logs v r))))
  Serves-Bounded epoch logs v (shared s c r) =
      let w = Serves-Bounded epoch logs v r in
      record { records = w.records; cost = w.cost; held = w.held }
