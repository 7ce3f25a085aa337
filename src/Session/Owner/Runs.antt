-- ===== src/Session/Owner/Runs.antt =====
-- The states that a session's owner reaches, its connections calling the handle in between.
use quosh.Base.{ℕ, ◌≤◌, ◌≡◌, refl, ◌∙◌, true, false, some, arith, ◌==◌, if◌then◌else◌, length}
use mathlib.Core.Path.{subst}
use quosh.Bytes.{usize_max}
use quosh.Session.Handle.{claim_transport, detach_if_epoch, ack_state, request_hangup, Session}
use quosh.Session.Owner.{started, enabled, step, Emulator, Owner, Event, go}
use quosh.Session.Owner.Inv.{Possible, after, step-Inv, Inv}

-- The calls of a handle that change it.
pub data Call : Type 0 where
  claims : Call
  detaches : ℕ → ℕ → Call
  acks : ℕ → Call
  hangs_up : Call

unfoldable pub call : Session → Call → Session
call s claims = (claim_transport s).1
call s (detaches e now) = detach_if_epoch s e now
call s (acks v) = ack_state s v
call s hangs_up = request_hangup s

-- Calls of the handle never announce an input.
call-accepted : (s : Session) (c : Call) → (call s c).accepted ≡ s.accepted
unfolding call claim_transport detach_if_epoch ack_state request_hangup
call-accepted s claims = refl
call-accepted s (detaches e now) =
    elim (s.epoch == e)
      as (λ b. (if b then record s { last_detach = some now } else s).accepted ≡ s.accepted) [
        | true ↦ refl
        | false ↦ refl
      ]
call-accepted s (acks v) = refl
call-accepted s hangs_up = refl

pub started-Inv : {E : Type 0} (s : Session) (d : E) → s.accepted ≡ 0 → Inv (started s d)
started-Inv s d h = record {
  queue = record { counted = refl; capped = omega arith; unfinished = tt };
  chained = refl;
  announced = h;
}

module _ {E : Type 0} (emu : Emulator E) (max_cell_count : ℕ) where
  pub data Reaches (o : Owner E) : Owner E → Type 0 where
    start : Reaches o o
    round :
        {p q : Owner E} (e : Event)
        → Reaches o p
        → Possible e
        → enabled emu max_cell_count p e ≡ true
        → step emu max_cell_count p e ≡ go q
        → Reaches o q
    called : {p : Owner E} (c : Call) → Reaches o p → Reaches o (record p { sess = call p.sess c })

  -- The invariant holds in every state that is reached from a state where it holds, when the
  -- emulator's replies are no longer than a `usize` counts and received inputs passed a handle: at
  -- most the cap of bytes waits, exactly counted; the inputs
  -- after the checkpoint are numbered one after the other, in the order they came, up to the last
  -- one taken, which is the one announced to the connections.
  pub Reaches-Inv :
      {o p : Owner E}
      → ((e : E) → length (emu.take_pty_write e).0 ≤ usize_max)
      → Inv o
      → Reaches o p
      → Inv p
  Reaches-Inv fit v start = v
  Reaches-Inv fit v (round {p} e r w _ h) =
      subst (λ n. Inv (after n)) h (step-Inv emu max_cell_count fit p e (Reaches-Inv fit v r) w)
  Reaches-Inv fit v (called {p} c r) =
      let w = Reaches-Inv fit v r in
      record {
        queue = w.queue;
        chained = w.chained;
        announced = call-accepted p.sess c ∙ w.announced;
      }
