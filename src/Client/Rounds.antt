-- ===== src/Client/Rounds.antt =====
-- One round of a connection that delivers what is written: what the client sends of the inputs that
-- wait, and what the owner makes of it.
use mathlib.Core.Path.{subst}
use quosh.Client.Wire.{
  inputs_in, inputs_in-input, inputs_in-nil, owner_takes, owner_reads, owner_takes-skips,
  owner_takes-next, chunk, round,
}
use quosh.Client.Delivery.{Short}
use quosh.Client.{newer_than, pump_ack, pump_input, pump_unsent, pump, Client}
use quosh.Client.Unacked.{number}
use quosh.Client.Interfaces.{Predictions, F64}
use quosh.Base.{
  ℕ, zero, suc, ◌+◌, ◌^◌, ◌≤◌, ◌<◌, max, ◌≡◌, refl, sym, ap, ◌∙◌, inl, inr, true, false, none, some,
  List, [], ◌∷◌, arith, ltb, ◌==◌, ltb→le, Bool-cases, length, get_elem?, drop, concat,
  length-append,
}
use quosh.Proto.Screen.{Frames, Lz4}
use quosh.Proto.FrameFeed
use quosh.Proto.FrameFeed.{FrameFeed}
use quosh.Proto.FrameFeed.Idle.{
  flush, loaded, push_ctrl-idle, writing-idle, flush-loaded, flush-idle, rest-loaded, rest-idle,
}
use quosh.Session.Owner.{next_seq, Emulator, Owner}
use quosh.Session.Pending.{pending_hard_max, push_input, PendingWrites}
use quosh.Devices.Search.{find_by}
use quosh.Proto.Message.{encode_input}

pub find-none :
    (s a : ℕ) (xs : List (List ℕ))
    → find_by (newer_than s) (number a xs) ≡ none
    → a + length xs ≤ max s a
find-none s a [] h = omega arith
find-none s a (x ∷ xs) h = elim (Bool-cases (ltb s (suc a))) [
  | inl t ↦ let e = rw t at h in absurd (ground arith)
  | inr f ↦ omega (arith, find-none s (suc a) xs (rw f at h), ltb→le s (suc a) f)
]

-- The input at a place, and the bytes behind it.
drop-get :
    (xs : List (List ℕ)) (k : ℕ) (b : List ℕ)
    → get_elem? xs k ≡ some b
    → length (concat (drop k xs)) ≡ length b + length (concat (drop (suc k) xs))
drop-get [] k b h = absurd (ground arith)
drop-get (x ∷ xs) zero b h =
    let e : x ≡ b = cc in length-append x (concat xs) ∙ ap (λ y. length y + length (concat xs)) e
drop-get (x ∷ xs) (suc k) b h = drop-get xs k b h

pub push_input-fits :
    (p : PendingWrites) (n : ℕ) (b : List ℕ)
    → p.unread + length b ≤ pending_hard_max
    → ((push_input p n b).1 ≡ true) × ((push_input p n b).0.unread ≡ p.unread + length b)
unfolding push_input
push_input-fits p n b h = ground (arith, h)

-- The writes of an owner that wait leave room for all inputs that it has not taken.
abbrev pub Room : {E : Type 0} → List (List ℕ) → Owner E → Type 0
Room typed o = o.pending.unread + length (concat (drop o.last_seq typed)) ≤ pending_hard_max

module _ {E : Type 0} (emu : Emulator E) (max_cell_count : ℕ) where
  -- The owner is past an input that it was sent, whether it takes it or has it already.
  pub owner_takes-past :
      (o : Owner E) (log typed : List (List ℕ)) (n m : ℕ) (b : List ℕ)
      → n ≡ suc m
      → get_elem? typed m ≡ some b
      → m ≤ o.last_seq
      → suc o.last_seq < 2 ^ 64
      → Room typed o
      → (n ≤ (owner_takes emu max_cell_count (o, log) (n, b)).0.last_seq)
        × (o.last_seq ≤ (owner_takes emu max_cell_count (o, log) (n, b)).0.last_seq)
        × Room typed (owner_takes emu max_cell_count (o, log) (n, b)).0
  owner_takes-past o log typed n m b e g le fits room =
      elim (Bool-cases (n == next_seq o.last_seq)) [
        | inr f ↦
            let r = owner_takes-skips emu max_cell_count o log n b f in
            (
              omega (arith, r.0, (let q : n ≤ o.last_seq = ground (arith, e, f) in q)),
              omega (arith, r.0),
              subst
                  (λ l.
                    (owner_takes emu max_cell_count (o, log) (n, b)).0.pending.unread
                      + length (concat (drop l typed))
                    ≤ pending_hard_max)
                  (sym r.0) (omega (arith, room, r.1)),
            )
        | inl t ↦
            let at : m ≡ o.last_seq = ground (arith, e, t) in
            let last : n ≡ suc o.last_seq = omega (arith, e, at) in
            let here : get_elem? typed o.last_seq ≡ some b =
              subst (λ j. get_elem? typed j ≡ some b) at g in
            let bytes = drop-get typed o.last_seq b here in
            let p = push_input-fits o.pending n b (omega (arith, room, bytes)) in
            let r =
              owner_takes-next emu max_cell_count o log n b t
                (let q : (n == o.last_seq) ≡ false = ground (arith, last) in q) p.0 in
            (
              omega (arith, r.0),
              omega (arith, r.0, last),
              subst
                  (λ l.
                    (owner_takes emu max_cell_count (o, log) (n, b)).0.pending.unread
                      + length (concat (drop l typed))
                    ≤ pending_hard_max)
                  (sym (r.0 ∙ last)) (omega (arith, room, bytes, p.1, ap (λ w. w.unread) r.1)),
            )
      ]

module _ {F P X E : Type 0} (frames : Frames F) (codec : Lz4) (pred : Predictions P F) (f64 : F64 X)
    (emu : Emulator E) (max_cell_count : ℕ) where
  -- Rounds of a connection whose bytes all arrive: the server finds the inputs in what the client
  -- wrote, and hands them to the owner.
  abbrev pub rounds : ℕ → Client F P X → Owner E × List (List ℕ) → Owner E × List (List ℕ)
  rounds zero d s = s
  rounds (suc k) d s =
      rounds k (round frames codec pred f64 d)
        (owner_reads emu max_cell_count s (inputs_in (chunk frames codec pred f64 d)))

  pub record Ready (d : Client F P X) : Type 0 where
    pub connected : d.connected ≡ true
    pub hungup : d.hungup ≡ false
    pub pending_ack : d.pending_ack ≡ none
    pub feed : d.feed ≡ FrameFeed.default

  pub pump-none :
      (d : Client F P X)
      → Ready d
      → find_by (newer_than d.sent_seq) d.unacked ≡ none
      → pump frames codec pred f64 d ≡ d
  unfolding pump pump_ack pump_unsent pump_input
  pump-none d r h = rw (r.connected, r.hungup, r.pending_ack, r.feed, writing-idle, h) refl

  pump-some :
      (d : Client F P X) (n : ℕ) (b : List ℕ)
      → Ready d
      → find_by (newer_than d.sent_seq) d.unacked ≡ some (n, b)
      → pump frames codec pred f64 d ≡ record d { feed = loaded (encode_input n b); sent_seq = n }
  unfolding pump pump_ack pump_unsent pump_input
  pump-some d n b r h =
      rw
        (
          r.connected,
          r.hungup,
          r.pending_ack,
          r.feed,
          writing-idle,
          h,
          push_ctrl-idle (encode_input n b),
        )
        refl

  pub round-none :
      (d : Client F P X)
      → Ready d
      → find_by (newer_than d.sent_seq) d.unacked ≡ none
      → round frames codec pred f64 d ≡ record d { feed = FrameFeed.default }
  round-none d r h =
      ap (λ (c : Client F P X). record c { feed = flush c.feed }) (pump-none d r h)
      ∙ ap (λ (f : FrameFeed). record d { feed = f }) (ap flush r.feed ∙ flush-idle)

  pub round-some :
      (d : Client F P X) (n : ℕ) (b : List ℕ)
      → Ready d
      → find_by (newer_than d.sent_seq) d.unacked ≡ some (n, b)
      → round frames codec pred f64 d ≡ record d { feed = FrameFeed.default; sent_seq = n }
  round-some d n b r h =
      ap (λ (c : Client F P X). record c { feed = flush c.feed }) (pump-some d n b r h)
      ∙ ap (λ (f : FrameFeed). record d { feed = f; sent_seq = n })
          (flush-loaded (encode_input n b))

  pub chunk-none :
      (d : Client F P X)
      → Ready d
      → find_by (newer_than d.sent_seq) d.unacked ≡ none
      → inputs_in (chunk frames codec pred f64 d) ≡ []
  chunk-none d r h =
      ap inputs_in (
        ap (λ (c : Client F P X). FrameFeed.rest c.feed) (pump-none d r h)
        ∙ ap FrameFeed.rest r.feed
        ∙ rest-idle)
      ∙ inputs_in-nil

  pub chunk-some :
      (d : Client F P X) (n : ℕ) (b : List ℕ)
      → Ready d
      → find_by (newer_than d.sent_seq) d.unacked ≡ some (n, b)
      → n < 2 ^ 64
      → Short b
      → inputs_in (chunk frames codec pred f64 d) ≡ (n, b) ∷ []
  chunk-some d n b r h fits short =
      ap inputs_in (
        ap (λ (c : Client F P X). FrameFeed.rest c.feed) (pump-some d n b r h)
        ∙ rest-loaded (encode_input n b))
      ∙ inputs_in-input n b fits short
