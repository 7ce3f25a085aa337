-- ===== src/Client/Progress.antt =====
-- What a client sends on a new connection, until the owner has taken everything that was typed.
use quosh.Client.Delivery.{standing, InOrder}
use quosh.Client.Rounds.{Room, Ready}
use quosh.Client.{Client}
use quosh.Client.Unacked.{Tracks}
use quosh.Client.Interfaces.{Predictions, F64}
use quosh.Base.{ℕ, suc, ◌^◌, ◌≤◌, ◌<◌, max, ◌≡◌, List, [], length}
use quosh.Proto.Screen.{Frames, Lz4}
use quosh.Proto.FrameFeed
use quosh.Session.Owner.{Emulator, Owner}

module _ {F P X E : Type 0} (frames : Frames F) (codec : Lz4) (pred : Predictions P F) (f64 : F64 X)
    (emu : Emulator E) (max_cell_count : ℕ) where
  -- A client in front of what the owner took, with the inputs behind `a` still to send.
  record Follows (a : ℕ) (typed : List (List ℕ)) (d : Client F P X) (s : Owner E × List (List ℕ))
      : Type 0 where
    ready : Ready frames codec pred f64 emu max_cell_count d
    order : InOrder typed d [] (standing s)
    tracks : Tracks a typed d
    acked : a ≤ s.0.last_seq
    sent : d.sent_seq ≤ s.0.last_seq
    room : suc (length typed) < 2 ^ 64
    queue : Room typed s.0

  -- What a round leads to, and how far it is then.
  abbrev Round : ℕ → List (List ℕ) → Client F P X → Owner E × List (List ℕ) → ℕ → Type 0
  Round a typed d s bound = Follows a typed d s × (bound ≤ max d.sent_seq a)

  abbrev pub AllTaken : List (List ℕ) → Owner E × List (List ℕ) → Type 0
  AllTaken typed s = (s.0.last_seq ≡ length typed) × (s.1 ≡ typed)
