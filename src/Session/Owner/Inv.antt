-- ===== src/Session/Owner/Inv.antt =====
-- The invariant of the owner's loop.
use quosh.Base.{
  ℕ, zero, suc, ◌+◌, ◌%◌, ◌^◌, ◌≤◌, ◌<◌, ◌≡◌, refl, sym, ap, ◌∙◌, inl, inr, true, false, Option,
  none, some, List, [], ◌∷◌, ◌++◌, append_assoc, arith, ◌==◌, if◌then◌else◌, ==_iff, Bool-cases,
  Option-cases, length,
}
use mathlib.Core.Path.{subst}
use quosh.Bytes.{usize_max}
use quosh.Proto.Message.{validate_dims}
use quosh.Proto.{max_input_bytes}
use quosh.Session.Pending.Contents.{
  contents, push, push_input-Refines, push_generated-Refines, IsValid, Refines,
}
use quosh.Session.Handle.{ack_state, OwnerMsg, input, resize, ack}
use quosh.Session.Owner.{
  next_seq, publish, take_replies, reply_and_publish, on_readable, on_writable, on_input,
  on_command, on_echo, arm, step, Emulator, Owner, Io, Event, Next, got, failed, would_block,
  hung_up, child_exited, readable, writable, command, sync_due, echo_due, go, stop,
}
use quosh.Session.Owner.Order.{
  seqs, waiting, Chain, Chain-snoc, Chain-newest_of, waiting-advance, waiting-push_generated,
  waiting-push_input, push_input-refused,
}
use quosh.Session.Pending.{push_input, advance_echo_ack}
use quosh.Session.Pending.Advance.{advance-Wrote}
use quosh.Session.Pending.Echo.{advance_echo_ack-Settled}

-- What holds between two rounds: the queue is in order, the numbers of the inputs after the
-- checkpoint follow one another up to the last that was taken, and that one is announced.
pub record Inv {E : Type 0} (o : Owner E) : Type 0 where
  pub queue : IsValid o.pending
  pub chained : Chain o.echo_ack (seqs o.history ++ waiting o.pending.chunks) o.last_seq
  pub announced : o.sess.accepted ≡ o.last_seq

-- A message that a handle lets through.
abbrev pub Sendable : OwnerMsg → Type 0
Sendable (input seq bytes) = (0 < length bytes) × (length bytes ≤ max_input_bytes)
Sendable _ = Unit

-- An event that can happen: a received message was sent.
abbrev pub Possible : Event → Type 0
Possible (command (some m)) = Sendable m
Possible _ = Unit

-- The state behind a round.
abbrev pub after : {A : Type 0} → Next A → A
after (go o) = o
after (stop o) = o

module _ {E : Type 0} (emu : Emulator E) (max_cell_count : ℕ)
    -- A vector's length is a `usize`.
    (replies_fit : (e : E) → length (emu.take_pty_write e).0 ≤ usize_max) where
  publish-Inv : (o : Owner E) → Inv o → Inv (publish emu max_cell_count o)
  unfolding publish
  publish-Inv o v =
      elim (Option-cases (emu.encode_screen o.driver ((o.version + 1) % 2 ^ 64) o.echo_ack).0) [
        | inl n ↦
            rw (n, publish)
              (record { queue = v.queue; chained = v.chained; announced = v.announced })
        | inr (b, e) ↦
            rw (e, publish)
              (record { queue = v.queue; chained = v.chained; announced = v.announced })
      ]

  take_replies-Inv : (o : Owner E) → Inv o → Inv (take_replies emu max_cell_count o).0
  unfolding take_replies
  take_replies-Inv o v =
      let r = (emu.take_pty_write o.driver).0 in
      record {
        queue = (push_generated-Refines o.pending r v.queue (replies_fit o.driver)).valid;
        chained = rw (waiting-push_generated o.pending r) v.chained;
        announced = v.announced;
      }

  reply_and_publish-Inv :
      (o : Owner E) → Inv o → Inv (after (reply_and_publish emu max_cell_count o))
  unfolding reply_and_publish
  reply_and_publish-Inv o v =
      let w = take_replies-Inv o v in
      elim (Bool-cases (take_replies emu max_cell_count o).1) [
        | inl t ↦ rw t (publish-Inv (take_replies emu max_cell_count o).0 w)
        | inr f ↦ rw f w
      ]

  on_readable-Inv :
      (o : Owner E) (r : Io (List ℕ)) → Inv o → Inv (after (on_readable emu max_cell_count o r))
  unfolding on_readable
  on_readable-Inv o failed v = v
  on_readable-Inv o would_block v = v
  on_readable-Inv o (got []) v = v
  on_readable-Inv o (got (b ∷ bs)) v =
      reply_and_publish-Inv (record o { driver = emu.process o.driver (b ∷ bs) })
        (record { queue = v.queue; chained = v.chained; announced = v.announced })

  on_writable-Inv :
      (o : Owner E) (r : Io ℕ) (now : ℕ)
      → Inv o
      → Inv (after (on_writable emu max_cell_count o r now))
  unfolding on_writable
  on_writable-Inv o failed now v = v
  on_writable-Inv o would_block now v = v
  on_writable-Inv o (got zero) now v = v
  on_writable-Inv o (got (suc n)) now v = record {
    queue = (advance-Wrote o.pending (suc n) o.history now v.queue).valid;
    chained = rw (waiting-advance o.pending (suc n) o.history now) v.chained;
    announced = v.announced;
  }

  on_input-Inv :
      (o : Owner E) (seq : ℕ) (b : List ℕ)
      → Inv o
      → Sendable (input seq b)
      → Inv (after (on_input emu max_cell_count o seq b))
  unfolding on_input
  on_input-Inv o seq b v w = elim (Bool-cases (seq == next_seq o.last_seq)) [
    | inr n ↦ rw n v
    | inl t ↦ elim (Bool-cases (push_input o.pending seq b).1) [
      | inr f ↦
          rw (t, f)
            (record {
              queue = pushed.valid;
              chained = rw (push_input-refused o.pending seq b f) v.chained;
              announced = v.announced;
            })
      | inl g ↦ rw (t, g) (record { queue = pushed.valid; chained = taken t g; announced = refl })
    ]
  ]
    where
      pushed : Refines (push_input o.pending seq b) (push (contents o.pending.chunks) b)
      pushed = push_input-Refines o.pending seq b v.queue (omega (arith, w.1)) w.0

      taken :
          (seq == next_seq o.last_seq) ≡ true
          → (push_input o.pending seq b).1 ≡ true
          → Chain o.echo_ack (seqs o.history ++ waiting (push_input o.pending seq b).0.chunks) seq
      taken t g =
          let before = seqs o.history ++ waiting o.pending.chunks in
          subst (λ z. Chain o.echo_ack z seq)
            (sym (
              ap (λ w. seqs o.history ++ w) (waiting-push_input o.pending seq b g)
              ∙ sym (append_assoc (seqs o.history) (waiting o.pending.chunks) (seq ∷ []))))
            (subst (λ n. Chain o.echo_ack (before ++ (n ∷ [])) n)
              (sym ((==_iff seq (next_seq o.last_seq)).0 t))
              (Chain-snoc o.echo_ack before o.last_seq v.chained))

  on_command-Inv :
      (o : Owner E) (m : Option OwnerMsg)
      → Inv o
      → Possible (command m)
      → Inv (after (on_command emu max_cell_count o m))
  unfolding on_command ack_state
  on_command-Inv o none v w = v
  on_command-Inv o (some (input seq b)) v w = on_input-Inv o seq b v w
  on_command-Inv o (some (ack a)) v w = record {
    queue = v.queue;
    chained = v.chained;
    announced = v.announced;
  }
  on_command-Inv o (some (resize cols rows)) v w =
      elim (validate_dims max_cell_count cols rows)
        as (λ d.
          Inv (after (elim d [ inl _ ↦ go (publish emu max_cell_count resized) | inr _ ↦ go o ]))) [
            | inl _ ↦
                publish-Inv resized
                  (record { queue = v.queue; chained = v.chained; announced = v.announced })
            | inr _ ↦ v
          ]
    where
      resized : Owner E
      resized = record o {
        driver = emu.resize o.driver rows cols;
        sess = record o.sess { size = (cols, rows) };
      }

  on_echo-Inv : (o : Owner E) (now : ℕ) → Inv o → Inv (after (on_echo emu max_cell_count o now))
  unfolding on_echo
  on_echo-Inv o now v = elim (Bool-cases (advance_echo_ack o.echo_ack o.history now).2) [
    | inl t ↦ rw t (publish-Inv settled settled-Inv)
    | inr f ↦ rw f settled-Inv
  ]
    where
      settled : Owner E
      settled = record o {
        echo_ack = (advance_echo_ack o.echo_ack o.history now).0;
        history = (advance_echo_ack o.echo_ack o.history now).1;
      }

      settled-Inv : Inv settled
      settled-Inv =
          let r = advance_echo_ack-Settled o.echo_ack o.history now in
          record {
            queue = v.queue;
            chained = rw r.newest (
                Chain-newest_of o.echo_ack r.taken settled.history (waiting o.pending.chunks)
                  o.last_seq
                  (subst (λ h. Chain o.echo_ack (seqs h ++ waiting o.pending.chunks) o.last_seq)
                    r.cut v.chained));
            announced = v.announced;
          }

  -- Each round keeps the invariant, whichever event it has.
  pub step-Inv :
      (o : Owner E) (e : Event) → Inv o → Possible e → Inv (after (step emu max_cell_count o e))
  unfolding step
  step-Inv o e v w =
      elim o.sess.shutdown
        as (λ b. Inv (after (if b then stop o else arm emu max_cell_count o e))) [
          | true ↦ v
          | false ↦ by_event e w
        ]
    where
      by_event : (e : Event) → Possible e → Inv (after (arm emu max_cell_count o e))
      by_event hung_up w = v
      by_event (child_exited st) w = v
      by_event (readable r) w = on_readable-Inv o r v
      by_event (writable r now) w = on_writable-Inv o r now v
      by_event (command m) w = on_command-Inv o m v w
      by_event sync_due w =
          reply_and_publish-Inv (record o { driver = emu.flush_sync o.driver })
            (record { queue = v.queue; chained = v.chained; announced = v.announced })
      by_event (echo_due now) w = on_echo-Inv o now v
