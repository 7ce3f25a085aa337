-- ===== src/Client/InOrder.antt =====
-- The owner of a session takes a prefix of what was typed, in its order, and the client holds the
-- rest: kept by every step of the two.
use mathlib.Core.Path.{subst, ap₂}
use quosh.Client.Wire.{
  inputs_in, owner_takes, owner_reads, owner_takes-skips, owner_takes-refuses, owner_takes-next,
  chunk, hello_sent-idle, pump-cases,
}
use quosh.Client.Delivery.{
  take_input, IsTyped, All-get, Carries, Carries-append, Short, standing, queue_input-feed,
  arrives-InOrder, chunk-Carries, round-idle, InOrder, Delivers, begun, types, sends, arrives,
  serves, acknowledged, reconnects, quiet,
}
use quosh.Client.{pump, begin_connection, Client}
use quosh.Proto.FrameFeed
use quosh.Client.Interfaces.{Predictions, F64}
use quosh.Proto.Screen.{Frames, Lz4}
use quosh.Session.Owner.{next_seq, Emulator, Owner}
use quosh.Session.Pending.{push_input}
use quosh.Base.{
  ℕ, suc, ◌+◌, ◌-◌, ◌^◌, ◌≤◌, ◌<◌, min, ◌≡◌, refl, sym, ◌∙◌, inl, inr, true, false, List, [], ◌∷◌,
  ◌++◌, arith, ◌==◌, Bool-cases, length, drop, All, length-append, take-append_le,
}
use quosh.Client.Unacked.{Quiet-Tracks, Tracks}
use quosh.Client.Sends.{ack-Tracks, queue_input-Tracks, pump-Tracks, connects-Tracks}
use quosh.Client.Events.{on_input_ack, queue_input}

All-snoc :
    {A : Type 0} (Q : A → Type 0) (w : List A) (x : A) → All Q w → Q x → All Q (w ++ (x ∷ []))
All-snoc Q [] x h k = (k, tt)
All-snoc Q (r ∷ w) x h k = (h.0, All-snoc Q w x h.1 k)

module _ {E : Type 0} (emu : Emulator E) (max_cell_count : ℕ) where
  -- The owner takes the next input while it fits, and any other changes nothing.
  pub data Answers (o : Owner E) (log : List (List ℕ)) (n : ℕ) (b : List ℕ) : Type 0 where
    left :
        (owner_takes emu max_cell_count (o, log) (n, b)).0.last_seq ≡ o.last_seq
        → (owner_takes emu max_cell_count (o, log) (n, b)).1 ≡ log
        → Answers o log n b
    moved :
        (n == next_seq o.last_seq) ≡ true
        → (owner_takes emu max_cell_count (o, log) (n, b)).0.last_seq ≡ n
        → (owner_takes emu max_cell_count (o, log) (n, b)).1 ≡ log ++ (b ∷ [])
        → Answers o log n b

  next_differs : (n last : ℕ) → last < 2 ^ 64 → (n == next_seq last) ≡ true → (n == last) ≡ false
  next_differs n last h t = ground (arith, t)

  owner_takes-Answers :
      (o : Owner E) (log : List (List ℕ)) (n : ℕ) (b : List ℕ)
      → o.last_seq < 2 ^ 64
      → Answers o log n b
  owner_takes-Answers o log n b h = elim (Bool-cases (n == next_seq o.last_seq)) [
    | inr f ↦ let r = owner_takes-skips emu max_cell_count o log n b f in left r.0 r.2
    | inl t ↦ elim (Bool-cases (push_input o.pending n b).1) [
      | inr f ↦ let r = owner_takes-refuses emu max_cell_count o log n b t f in left r.0 r.1
      | inl u ↦
          let r =
            owner_takes-next emu max_cell_count o log n b t (next_differs n o.last_seq h t) u in
          moved t r.0 r.2
    ]
  ]

module _ {F P X E : Type 0} (frames : Frames F) (codec : Lz4) (pred : Predictions P F) (f64 : F64 X)
    (emu : Emulator E) (max_cell_count : ℕ) where
  pub owner_takes-InOrder :
      {typed : List (List ℕ)} {d : Client F P X} {wire : List (List ℕ)}
      (s : Owner E × List (List ℕ)) (r : ℕ × List ℕ)
      → IsTyped typed r
      → InOrder typed d wire (standing s)
      → InOrder typed d wire (standing (owner_takes emu max_cell_count s r))
  owner_takes-InOrder {typed} {d} {wire} (o, log) (n, b) h v =
      by_answer (owner_takes-Answers emu max_cell_count o log n b (omega (arith, v.within, v.fits)))
    where
      by_answer :
          Answers emu max_cell_count o log n b
          → InOrder typed d wire (standing (owner_takes emu max_cell_count (o, log) (n, b)))
      by_answer (left e g) = subst (InOrder typed d wire) (ap₂ (λ x y. (x, y)) (sym e) (sym g)) v
      by_answer (moved t e g) =
          subst (InOrder typed d wire)
            ((let q : take_input (o.last_seq, log) (n, b) ≡ (n, log ++ (b ∷ [])) = rw t refl in q)
              ∙ ap₂ (λ x y. (x, y)) (sym e) (sym g))
            (arrives-InOrder frames codec pred f64 o.last_seq log n b h v)

  pub owner_reads-InOrder :
      {typed : List (List ℕ)} {d : Client F P X} {wire : List (List ℕ)}
      (s : Owner E × List (List ℕ)) (rs : List (ℕ × List ℕ))
      → All (IsTyped typed) rs
      → InOrder typed d wire (standing s)
      → InOrder typed d wire (standing (owner_reads emu max_cell_count s rs))
  owner_reads-InOrder s [] h v = v
  owner_reads-InOrder s (r ∷ rs) h v =
      owner_reads-InOrder (owner_takes emu max_cell_count s r) rs h.1
        (owner_takes-InOrder s r h.0 v)

  queued-InOrder :
      {typed : List (List ℕ)} {d : Client F P X} {wire : List (List ℕ)} {taken : ℕ × List (List ℕ)}
      (bytes : List ℕ) (now_ms : ℕ)
      → suc (length typed) < 2 ^ 64
      → Short bytes
      → InOrder typed d wire taken
      → InOrder
          (typed ++ (bytes ∷ []))
          (queue_input frames codec pred f64 d bytes now_ms)
          wire
          taken
  queued-InOrder {typed} {d} {wire} {taken} bytes now_ms room fit v = record {
    acked = v.acked;
    tracks = queue_input-Tracks frames codec pred f64 d bytes now_ms room v.tracks;
    behind = v.behind;
    within = omega (arith, v.within, length-append typed (bytes ∷ []));
    fits = omega (arith, room, length-append typed (bytes ∷ []));
    prefix = v.prefix ∙ sym (take-append_le typed (bytes ∷ []) taken.0 v.within);
    on_wire = Carries-append typed bytes wire v.on_wire;
    short = All-snoc Short typed bytes v.short fit;
    idle = queue_input-feed frames codec pred f64 d bytes now_ms ∙ v.idle;
  }

  -- A client after a step that leaves what was typed and what was taken.
  stepped :
      {typed : List (List ℕ)} {d d' : Client F P X} {wire wire' : List (List ℕ)}
      {taken : ℕ × List (List ℕ)} (v : InOrder typed d wire taken) (a : ℕ)
      → Tracks a typed d'
      → a ≤ taken.0
      → All (Carries typed) wire'
      → d'.feed ≡ FrameFeed.default
      → InOrder typed d' wire' taken
  stepped v a t le w i = record {
    acked = a;
    tracks = t;
    behind = le;
    within = v.within;
    fits = v.fits;
    prefix = v.prefix;
    on_wire = w;
    short = v.short;
    idle = i;
  }

  -- Over any steps of a client and its owner, the owner has taken a prefix of what was typed, each
  -- input once and in its order, and the client still holds every input that was not taken.
  pub Delivers-InOrder :
      (c : Client F P X) (o : Owner E) {typed : List (List ℕ)} {d : Client F P X}
      {wire : List (List ℕ)} {s : Owner E × List (List ℕ)}
      → InOrder [] c [] (standing (o, []))
      → Delivers frames codec pred f64 emu max_cell_count c o typed d wire s
      → InOrder typed d wire (standing s)
  unfolding on_input_ack
  Delivers-InOrder c o v begun = v
  Delivers-InOrder c o v (types bytes now_ms room fit r) =
      queued-InOrder bytes now_ms room fit (Delivers-InOrder c o v r)
  Delivers-InOrder c o {typed} v (sends {d} {wire} r) =
      let w = Delivers-InOrder c o v r in
      let p = pump-cases frames codec pred f64 d w.idle in
      stepped w w.acked
        (Quiet-Tracks {c = pump frames codec pred f64 d}
          (record { unacked = refl; seq = refl; sent_seq = refl })
          (pump-Tracks frames codec pred f64 d w.tracks))
        w.behind
        (All-snoc (Carries typed) wire (chunk frames codec pred f64 d) w.on_wire
          (chunk-Carries frames codec pred f64 d w.tracks w.fits w.short p))
        (round-idle frames codec pred f64 d p)
  Delivers-InOrder c o {typed} v (arrives {wire} {s} i x at r) =
      let w = Delivers-InOrder c o v r in
      owner_reads-InOrder s (inputs_in x) (All-get (Carries typed) wire i x w.on_wire at) w
  Delivers-InOrder c o {typed} {d} {wire} v (serves {s} p e r) =
      let w = Delivers-InOrder c o v r in subst (λ n. InOrder typed d wire (n, s.1)) (sym e) w
  Delivers-InOrder c o {typed} v (acknowledged {d} n le r) =
      let w = Delivers-InOrder c o v r in
      stepped w (w.acked + min (n - w.acked) (length (drop w.acked typed)))
        (ack-Tracks d n w.tracks) (omega (arith, w.behind, le)) w.on_wire w.idle
  Delivers-InOrder c o v (reconnects {d} now_ms r) =
      let w = Delivers-InOrder c o v r in
      stepped w w.acked
        (Quiet-Tracks {c = begin_connection frames codec pred f64 d now_ms}
          (record { unacked = refl; seq = refl; sent_seq = refl })
          (connects-Tracks frames codec pred f64 d now_ms w.tracks))
        w.behind w.on_wire (hello_sent-idle frames codec pred f64 d now_ms)
  Delivers-InOrder c o v (quiet q i r) =
      let w = Delivers-InOrder c o v r in
      stepped w w.acked (Quiet-Tracks q w.tracks) w.behind w.on_wire (i ∙ w.idle)
