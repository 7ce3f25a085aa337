-- ===== src/Session/Owner/Tests.antt =====
-- A session whose emulator answers each output with what it read.
use quosh.Base.{ℕ, ◌≡◌, refl, ◌≢◌, ◌⊎◌, some, [], ◌∷◌, arith}
use quosh.Session.Pending.{no_writes, push_input, advance_loop, advance}
use quosh.Session.Handle.{spawned, input}
use quosh.Session.Owner.{
  started, next_seq, on_writable, on_input, on_command, enabled, arm, step, Emulator, Owner, got,
  writable, command, go,
}
use quosh.Session.Owner.Inv.{Inv}
use quosh.Session.Owner.Runs.{started-Inv, Reaches-Inv, Reaches, start, round}
use quosh.Session.Owner.Input.{step-input, Takes}

-- It keeps the last byte that it was given, and answers with that.
abbrev parrot : Emulator ℕ
parrot = record {
  process = λ e bs. elim bs [ [] ↦ e | b ∷ _ ↦ b ];
  take_pty_write = λ e. (e ∷ [], e);
  resize = λ e rows cols. e;
  flush_sync = λ e. e;
  encode_screen = λ e v ack. (some (v ∷ ack ∷ e ∷ []), e);
}

abbrev begun : Owner ℕ
begun = started (spawned 80 24 0) 0

begun-Inv : Inv begun
begun-Inv = started-Inv (spawned 80 24 0) 0 refl

abbrev typed : Owner ℕ
typed = record begun {
  sess = record begun.sess { accepted = 1 };
  last_seq = 1;
  pending = record {
    chunks = record { seq = some 1; bytes = 108 ∷ 115 ∷ []; off = 0 } ∷ [];
    unread = 2;
  };
}

abbrev written : Owner ℕ
written = record typed { pending = no_writes; history = (1, 5) ∷ [] }

types : Reaches parrot 1000000 begun typed
unfolding enabled step arm on_command on_input push_input
types = round (command (some (input 1 (108 ∷ 115 ∷ [])))) start (omega arith, omega arith) refl refl

writes : Reaches parrot 1000000 begun written
unfolding enabled step arm on_writable advance advance_loop
writes = round (writable (got 2) 5) types tt refl refl

Reaches-Inv_example : Inv written
Reaches-Inv_example = Reaches-Inv parrot 1000000 (λ e. omega arith) begun-Inv writes

step-input_example :
    (p : Owner ℕ) × (step parrot 1000000 begun (command (some (input 1 (108 ∷ [])))) ≡ go p)
    × (((1 ≢ next_seq 0) × (p ≡ begun)) ⊎ ((1 ≡ next_seq 0) × Takes begun 1 (108 ∷ []) p))
unfolding enabled
step-input_example =
    step-input parrot 1000000 begun 1 (108 ∷ []) begun-Inv refl refl (omega arith, omega arith)
