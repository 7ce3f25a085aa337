-- ===== src/Session/Owner/Input.antt =====
-- What becomes of an input that the owner receives.
use quosh.Base.{
  ℕ, ◌+◌, ◌≤◌, ◌<◌, ◌≡◌, refl, ◌∙◌, ◌≢◌, ◌⊎◌, inl, inr, true, false, some, List, [], ◌∷◌, ◌++◌,
  arith, leb, ◌==◌, ltb→lt, le→leb, ==_iff, Bool-cases, length,
}
use quosh.Proto.{max_input_bytes}
use quosh.Session.Pending.{max_pending, pending_hard_max, push_input}
use quosh.Session.Pending.Contents.{contents, push_input-Refines}
use quosh.Session.Handle.{input}
use quosh.Session.Owner.{
  next_seq, on_input, on_command, enabled, arm, step, Emulator, Owner, command, go,
}
use quosh.Session.Owner.Order.{waiting, waiting-push_input}
use quosh.Session.Owner.Inv.{Sendable, Inv}

-- The input was taken: it waits behind everything else, and is announced.
pub record Takes {E : Type 0} (o : Owner E) (seq : ℕ) (b : List ℕ) (p : Owner E) : Type 0 where
  pub numbered : p.last_seq ≡ seq
  pub posted : p.sess.accepted ≡ seq
  pub behind : contents p.pending.chunks ≡ contents o.pending.chunks ++ b
  pub last : waiting p.pending.chunks ≡ waiting o.pending.chunks ++ (seq ∷ [])
  pub kept : (p.echo_ack ≡ o.echo_ack) × (p.history ≡ o.history) × (p.version ≡ o.version)

module _ {E : Type 0} (emu : Emulator E) (max_cell_count : ℕ) where
  -- While commands are read there is room for any input.
  room :
      (o : Owner E) (seq : ℕ) (b : List ℕ)
      → Inv o
      → o.pending.unread < max_pending
      → (0 < length b) × (length b ≤ max_input_bytes)
      → ((push_input o.pending seq b).1 ≡ true)
        × (contents (push_input o.pending seq b).0.chunks ≡ contents o.pending.chunks ++ b)
  room o seq b v h w =
      let r = push_input-Refines o.pending seq b v.queue (omega (arith, w.1)) w.0 in
      let fits : leb (length (contents o.pending.chunks) + length b) pending_hard_max ≡ true =
        le→leb (length (contents o.pending.chunks) + length b) pending_hard_max
          (omega (arith, v.queue.counted, w.1, h)) in
      (r.agrees ∙ rw fits refl, r.same ∙ rw fits refl)

  -- Of an owner that runs, has the invariant and reads commands, an input that passed a handle never
  -- ends the loop: it is taken if its number is the next one, and changes nothing if it is not.
  pub step-input :
      (o : Owner E) (seq : ℕ) (b : List ℕ)
      → Inv o
      → o.sess.shutdown ≡ false
      → enabled emu max_cell_count o (command (some (input seq b))) ≡ true
      → Sendable (input seq b)
      → (p : Owner E) × (step emu max_cell_count o (command (some (input seq b))) ≡ go p)
        × (((seq ≢ next_seq o.last_seq) × (p ≡ o))
            ⊎ ((seq ≡ next_seq o.last_seq) × Takes o seq b p))
  unfolding step arm on_command on_input enabled
  step-input o seq b v alive open_ w =
      let (fits, e) = room o seq b v (ltb→lt o.pending.unread max_pending open_) w in
      elim (Bool-cases (seq == next_seq o.last_seq)) [
        | inr n ↦ (o, simp (alive, n), inl (other n, refl))
        | inl t ↦ (
          taken,
          simp (alive, t, fits),
          inr (
            (==_iff seq (next_seq o.last_seq)).0 t,
            record {
              numbered = refl;
              posted = refl;
              behind = e;
              last = waiting-push_input o.pending seq b fits;
              kept = (refl, refl, refl);
            },
          ),
        )
      ]
    where
      taken : Owner E
      taken = record o {
        pending = (push_input o.pending seq b).0;
        last_seq = seq;
        sess = record o.sess { accepted = seq };
      }

      other : (seq == next_seq o.last_seq) ≡ false → seq ≢ next_seq o.last_seq
      other n = ground (arith, ==_iff seq (next_seq o.last_seq))
