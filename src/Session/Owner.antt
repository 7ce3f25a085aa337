-- ===== src/Session/Owner.antt =====
-- `Owner::run`, `publish` and `drain_pty` of crates/quosh-server/src/session.rs: the loop that owns
-- the terminal of a session. The emulator, the terminal and the clock are outside; what they
-- answer comes with the event.
pub mod Order
pub mod Inv
pub mod Runs
pub mod Input
mod Tests
use quosh.Base.{
  ℕ, zero, suc, ◌+◌, ◌%◌, ◌^◌, inl, inr, Bool, true, not, Option, none, some, List, [], ◌∷◌, ltb,
  ◌==◌, if◌then◌else◌,
}
use quosh.Proto.Message.{validate_dims}
use quosh.Session.Pending.{
  max_pending, no_writes, History, push_input, push_generated, advance, advance_echo_ack,
  PendingWrites,
}
use quosh.Session.Handle.{ack_state, OwnerMsg, Session, input, resize, ack}

-- The emulator that the owner drives (crate quosh-terminal), and the encoding of what it shows.
pub record Emulator (E : Type 0) : Type 0 where
  pub process : E → List ℕ → E
  pub take_pty_write : E → List ℕ × E
  pub resize : E → ℕ → ℕ → E
  pub flush_sync : E → E
  -- `snapshot` and `Screen::encode_compressed` of a version and a checkpoint
  pub encode_screen : E → ℕ → ℕ → Option (List ℕ) × E

pub record Owner (E : Type 0) : Type 0 where
  pub sess : Session
  pub driver : E
  pub last_seq : ℕ
  pub version : ℕ
  pub pending : PendingWrites
  pub history : History
  pub echo_ack : ℕ

-- The owner that `spawn_pair` makes, as `run` starts.
abbrev pub started : {E : Type 0} → Session → E → Owner E
started sess driver = record {
  sess = sess;
  driver = driver;
  last_seq = 0;
  version = 0;
  pending = no_writes;
  history = [];
  echo_ack = 0;
}

-- What a call on a descriptor that is not blocking answers.
pub data Io {ℓ} (A : Type ℓ) : Type ℓ where
  got : A → Io A
  failed : Io A
  would_block : Io A

-- The arms of the loop's select, each with what it received.
pub data Event : Type 0 where
  hung_up : Event
  child_exited : ℕ → Event
  readable : Io (List ℕ) → Event
  writable : Io ℕ → ℕ → Event
  command : Option OwnerMsg → Event
  sync_due : Event
  echo_due : ℕ → Event

-- A round of the loop goes on or leaves it.
pub data Next (A : Type 0) : Type 0 where
  go : A → Next A
  stop : A → Next A

abbrev pub next_seq : ℕ → ℕ
next_seq last_seq = if last_seq == 0 then 1 else (last_seq + 1) % 2 ^ 64

module _ {E : Type 0} (emu : Emulator E) (max_cell_count : ℕ) where
  unfoldable pub publish : Owner E → Owner E
  publish o =
      let v = (o.version + 1) % 2 ^ 64 in
      let (blob, driver) = emu.encode_screen o.driver v o.echo_ack in
      elim blob [
        | none ↦ record o { version = v; driver = driver }
        | some b ↦ record o {
          version = v;
          driver = driver;
          sess = record o.sess { latest = some (record { version = v; blob = b }) };
        }
      ]

  -- The emulator's replies join the writes: the tail of three of the arms.
  unfoldable pub take_replies : Owner E → Owner E × Bool
  take_replies o =
      let (replies, driver) = emu.take_pty_write o.driver in
      let (pending, fits) = push_generated o.pending replies in
      (record o { driver = driver; pending = pending }, fits)

  reply_and_publish : Owner E → Next (Owner E)
  unfolding take_replies
  reply_and_publish o = let (o', fits) = take_replies o in if fits then go (publish o') else stop o'

  on_readable : Owner E → Io (List ℕ) → Next (Owner E)
  unfolding reply_and_publish
  on_readable o failed = stop o
  on_readable o would_block = go o
  on_readable o (got []) = stop o
  on_readable o (got (b ∷ bs)) =
      reply_and_publish (record o { driver = emu.process o.driver (b ∷ bs) })

  on_writable : Owner E → Io ℕ → ℕ → Next (Owner E)
  on_writable o failed now = stop o
  on_writable o would_block now = go o
  on_writable o (got zero) now = stop o
  on_writable o (got (suc n)) now =
      let (pending, history) = advance o.pending (suc n) o.history now in
      go (record o { pending = pending; history = history })

  unfoldable pub on_input : Owner E → ℕ → List ℕ → Next (Owner E)
  on_input o seq bytes =
      let (pending, fits) = push_input o.pending seq bytes in
      if not (seq == next_seq o.last_seq)
      then go o
      else if not fits
      then stop (record o { pending = pending })
      else go
          (record o { pending = pending; last_seq = seq; sess = record o.sess { accepted = seq } })

  on_command : Owner E → Option OwnerMsg → Next (Owner E)
  unfolding on_input
  on_command o none = stop o
  on_command o (some (input seq bytes)) = on_input o seq bytes
  on_command o (some (resize cols rows)) = elim (validate_dims max_cell_count cols rows) [
    | inl _ ↦ go (
        publish (record o {
          driver = emu.resize o.driver rows cols;
          sess = record o.sess { size = (cols, rows) };
        }))
    | inr _ ↦ go o
  ]
  on_command o (some (ack v)) = go (record o { sess = ack_state o.sess v })

  on_echo : Owner E → ℕ → Next (Owner E)
  on_echo o now =
      let (echo_ack, history, moved) = advance_echo_ack o.echo_ack o.history now in
      let o' : Owner E = record o { echo_ack = echo_ack; history = history } in
      if moved then go (publish o') else go o'

  -- The arms that wait are those whose guard holds.
  unfoldable pub enabled : Owner E → Event → Bool
  enabled o (writable r now) = ltb 0 o.pending.unread
  enabled o (command m) = ltb o.pending.unread max_pending
  enabled o _ = true

  arm : Owner E → Event → Next (Owner E)
  unfolding on_readable on_writable on_command on_echo
  arm o hung_up = stop o
  arm o (child_exited st) = stop o
  arm o (readable r) = on_readable o r
  arm o (writable r now) = on_writable o r now
  arm o (command m) = on_command o m
  arm o sync_due = reply_and_publish (record o { driver = emu.flush_sync o.driver })
  arm o (echo_due now) = on_echo o now

  -- One round of the loop: the flag is read first.
  unfoldable pub step : Owner E → Event → Next (Owner E)
  unfolding arm
  step o e = if o.sess.shutdown then stop o else arm o e

  -- `drain_pty`: up to `tries` last reads of the terminal.
  unfoldable pub drain_pty : ℕ → Owner E → List (Io (List ℕ)) → Owner E
  drain_pty zero o reads = o
  drain_pty (suc k) o [] = o
  drain_pty (suc k) o (got (b ∷ bs) ∷ reads) =
      let (o', fits) = take_replies (record o { driver = emu.process o.driver (b ∷ bs) }) in
      let rest = drain_pty k o' reads in if fits then rest else o'
  drain_pty (suc k) o (got [] ∷ reads) = o
  drain_pty (suc k) o (failed ∷ reads) = o
  drain_pty (suc k) o (would_block ∷ reads) = o

  -- What follows the loop: the last output is drained and published, and the exit is posted.
  unfoldable pub finish : Owner E → ℕ → List (Io (List ℕ)) → Owner E
  finish o status reads =
      let o' = publish (drain_pty 8 o reads) in
      record o' { sess = record o'.sess { exit = some status } }
