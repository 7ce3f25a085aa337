-- ===== src/Client/Delivery.antt =====
-- A client and the owner of its session: what was typed reaches the terminal once and in order, over
-- connections that lose, repeat and reorder what is sent, and over reconnects.
use quosh.Client.Events.{on_input_ack, forbidden, predict_input, feed_predict, queue_input}
use quosh.Client.{paste_bytes, refresh_display, Client}
use quosh.Client.Unacked.{Tracks, Quiet}
use quosh.Client.Sends.{get_elem?-lt, unsent-typed}
use quosh.Client.Interfaces.{Predictions, F64}
use quosh.Client.Wire.{
  inputs_in, inputs_in-input, inputs_in-ack, inputs_in-nil, owner_reads, chunk, round, hello_sent,
  Pumped, says_nothing, says_ack, says_input,
}
use quosh.Proto.FrameFeed.{FrameFeed}
use quosh.Proto.FrameFeed
use quosh.Proto.FrameFeed.Idle.{flush, flush-loaded, flush-idle, rest-loaded, rest-idle}
use quosh.Proto.{max_frame, ok}
use quosh.Session.Owner.{next_seq, Emulator, Owner}
use quosh.Proto.Message.{encode_input, encode_ack_state}
use mathlib.Core.Path.{subst}
use quosh.Base.{
  ℕ, zero, suc, ◌+◌, ◌%◌, ◌^◌, ◌≤◌, ◌<◌, max, ◌≡◌, refl, sym, ap, ◌∙◌, inl, inr, Bool, true, false,
  Option, none, some, List, [], ◌∷◌, ◌++◌, arith, ltb, ◌==◌, if◌then◌else◌, ==_iff, Bool-cases,
  length, get_elem?, take, All,
}
use quosh.Proto.Screen.{Frames, Lz4, Screen}

-- What the owner has taken: the number of the last input, and the payloads.
abbrev pub take_input : ℕ × List (List ℕ) → ℕ × List ℕ → ℕ × List (List ℕ)
take_input (last, log) (n, b) = if n == next_seq last then (n, log ++ (b ∷ [])) else (last, log)

abbrev pub IsTyped : List (List ℕ) → ℕ × List ℕ → Type 0
IsTyped typed r = (k : ℕ) × (r.0 ≡ suc k) × (get_elem? typed k ≡ some r.1)

take-snoc :
    (k : ℕ) (xs : List (List ℕ)) (b : List ℕ)
    → get_elem? xs k ≡ some b
    → take (suc k) xs ≡ take k xs ++ (b ∷ [])
take-snoc k [] b h = absurd (ground arith)
take-snoc zero (x ∷ xs) b h = let e : x ≡ b = cc in ap (λ y. y ∷ []) e
take-snoc (suc k) (x ∷ xs) b h = ap (λ r. x ∷ r) (take-snoc k xs b h)

get_elem?-append_le :
    (xs : List (List ℕ)) (b : List ℕ) (k : ℕ) (c : List ℕ)
    → get_elem? xs k ≡ some c
    → get_elem? (xs ++ (b ∷ [])) k ≡ some c
get_elem?-append_le [] b k c h = absurd (ground arith)
get_elem?-append_le (x ∷ xs) b zero c h = h
get_elem?-append_le (x ∷ xs) b (suc k) c h = get_elem?-append_le xs b k c h

pub All-get {ℓ} :
    {A : Type 0} (Q : A → Type ℓ) (xs : List A) (i : ℕ) (x : A)
    → All Q xs
    → get_elem? xs i ≡ some x
    → Q x
All-get Q [] i x h e = absurd (ground arith)
All-get Q (y ∷ xs) zero x h e = let p : y ≡ x = cc in subst Q p h.0
All-get Q (y ∷ xs) (suc i) x h e = All-get Q xs i x h.1 e

All-IsTyped_append :
    (typed : List (List ℕ)) (b : List ℕ) (w : List (ℕ × List ℕ))
    → All (IsTyped typed) w
    → All (IsTyped (typed ++ (b ∷ []))) w
All-IsTyped_append typed b [] h = tt
All-IsTyped_append typed b (r ∷ w) ((k, e, g), h) =
    ((k, e, get_elem?-append_le typed b k r.1 g), All-IsTyped_append typed b w h)

-- A server finds in the bytes only inputs that were typed, under their numbers.
abbrev pub Carries : List (List ℕ) → List ℕ → Type 0
Carries typed bytes = All (IsTyped typed) (inputs_in bytes)

pub Carries-append :
    (typed : List (List ℕ)) (b : List ℕ) (w : List (List ℕ))
    → All (Carries typed) w
    → All (Carries (typed ++ (b ∷ []))) w
Carries-append typed b [] h = tt
Carries-append typed b (x ∷ w) h =
    (All-IsTyped_append typed b (inputs_in x) h.0, Carries-append typed b w h.1)

-- An input that one frame can hold.
abbrev pub Short : List ℕ → Type 0
Short b = length b + 8 < max_frame

module _ {F P X : Type 0} where
  -- The owner took a prefix of what was typed, and the client still holds all the rest. All that
  -- the client accepted is written.
  pub record InOrder (typed : List (List ℕ)) (d : Client F P X) (wire : List (List ℕ))
      (taken : ℕ × List (List ℕ)) : Type 0 where
    pub acked : ℕ
    pub tracks : Tracks acked typed d
    pub behind : acked ≤ taken.0
    pub within : taken.0 ≤ length typed
    pub fits : length typed < 2 ^ 64
    pub prefix : taken.1 ≡ take taken.0 typed
    pub on_wire : All (Carries typed) wire
    pub short : All Short typed
    pub idle : d.feed ≡ FrameFeed.default

-- The number of the last input that an owner took, and the log of what it took.
abbrev pub standing : {E : Type 0} → Owner E × List (List ℕ) → ℕ × List (List ℕ)
standing (o, log) = (o.last_seq, log)

module _ {F P X E : Type 0} (frames : Frames F) (codec : Lz4) (pred : Predictions P F) (f64 : F64 X)
    (emu : Emulator E) (max_cell_count : ℕ) where
  -- From the client `c` and the owner `o`: the inputs that were typed, the client, the pieces that
  -- were ever written after a greeting, and the owner with what it has taken.
  pub data Delivers (c : Client F P X) (o : Owner E)
      : List (List ℕ) → Client F P X → List (List ℕ) → Owner E × List (List ℕ) → Type 0 where
    begun : Delivers c o [] c [] (o, [])
    types :
        {typed : List (List ℕ)} {d : Client F P X} {wire : List (List ℕ)}
        {s : Owner E × List (List ℕ)} (bytes : List ℕ) (now_ms : ℕ)
        → suc (length typed) < 2 ^ 64
        → Short bytes
        → Delivers c o typed d wire s
        → Delivers c o
            (typed ++ (bytes ∷ []))
            (queue_input frames codec pred f64 d bytes now_ms)
            wire
            s
    sends :
        {typed : List (List ℕ)} {d : Client F P X} {wire : List (List ℕ)}
        {s : Owner E × List (List ℕ)}
        → Delivers c o typed d wire s
        → Delivers c o typed
            (round frames codec pred f64 d)
            (wire ++ (chunk frames codec pred f64 d ∷ []))
            s
    -- The server reads bytes that were written at any time, on this connection or an earlier one,
    -- and hands the owner the inputs in them.
    arrives :
        {typed : List (List ℕ)} {d : Client F P X} {wire : List (List ℕ)}
        {s : Owner E × List (List ℕ)} (i : ℕ) (bytes : List ℕ)
        → get_elem? wire i ≡ some bytes
        → Delivers c o typed d wire s
        → Delivers c o typed d wire (owner_reads emu max_cell_count s (inputs_in bytes))
    -- Whatever else the owner does, such as writing to the terminal.
    serves :
        {typed : List (List ℕ)} {d : Client F P X} {wire : List (List ℕ)}
        {s : Owner E × List (List ℕ)} (p : Owner E)
        → p.last_seq ≡ s.0.last_seq
        → Delivers c o typed d wire s
        → Delivers c o typed d wire (p, s.1)
    -- An acknowledgement names an input that the owner has taken, or an earlier one.
    acknowledged :
        {typed : List (List ℕ)} {d : Client F P X} {wire : List (List ℕ)}
        {s : Owner E × List (List ℕ)} (n : ℕ)
        → n ≤ s.0.last_seq
        → Delivers c o typed d wire s
        → Delivers c o typed (on_input_ack frames codec pred f64 d (ok n)).0 wire s
    reconnects :
        {typed : List (List ℕ)} {d : Client F P X} {wire : List (List ℕ)}
        {s : Owner E × List (List ℕ)} (now_ms : ℕ)
        → Delivers c o typed d wire s
        → Delivers c o typed (hello_sent frames codec pred f64 d now_ms) wire s
    -- Whatever else the client does that sends nothing, such as showing a screen.
    quiet :
        {typed : List (List ℕ)} {d d' : Client F P X} {wire : List (List ℕ)}
        {s : Owner E × List (List ℕ)}
        → Quiet d d'
        → d'.feed ≡ d.feed
        → Delivers c o typed d wire s
        → Delivers c o typed d' wire s

module _ {F P X : Type 0} where
  if-feed :
      {l : FrameFeed} (b : Bool) (x y : Client F P X)
      → x.feed ≡ l
      → y.feed ≡ l
      → (if b then x else y).feed ≡ l
  if-feed true x y h k = h
  if-feed false x y h k = k

module _ {F P X : Type 0} (frames : Frames F) (codec : Lz4) (pred : Predictions P F)
    (f64 : F64 X) where
  predict_input-feed :
      (c : Client F P X) (seq : ℕ) (bytes : List ℕ) (now_ms : ℕ) (o : Option (Screen F))
      → (predict_input frames codec pred f64 c seq bytes now_ms o).feed ≡ c.feed
  unfolding predict_input refresh_display
  predict_input-feed c seq bytes now_ms none = refl
  predict_input-feed c seq bytes now_ms (some screen) = refl

  pub queue_input-feed :
      (c : Client F P X) (bytes : List ℕ) (now_ms : ℕ)
      → (queue_input frames codec pred f64 c bytes now_ms).feed ≡ c.feed
  unfolding queue_input feed_predict refresh_display
  queue_input-feed c bytes now_ms =
      let e : Client F P X = record c { seq = (c.seq + 1) % 2 ^ 64 } in
      if-feed (forbidden frames codec pred f64 c.shared_prediction) e _ refl (
        if-feed (ltb paste_bytes (length bytes)) _ _ refl
          (predict_input-feed e ((c.seq + 1) % 2 ^ 64) bytes now_ms c.confirmed))

  pub arrives-InOrder :
      {typed : List (List ℕ)} {d : Client F P X} {wire : List (List ℕ)} (last : ℕ)
      (log : List (List ℕ)) (n : ℕ) (b : List ℕ)
      → IsTyped typed (n, b)
      → InOrder typed d wire (last, log)
      → InOrder typed d wire (take_input (last, log) (n, b))
  arrives-InOrder {typed} {d} {wire} last log n b (k, e, g) v =
      elim (Bool-cases (n == next_seq last)) [
        | inr f ↦ rw f v
        | inl t ↦
            let here : k ≡ last =
              ground (arith, e, v.within, v.fits, (==_iff n (next_seq last)).0 t) in
            let less : k < length typed = get_elem?-lt typed k b g in
            rw t (record {
              acked = v.acked;
              tracks = v.tracks;
              behind = omega (arith, v.behind, e, here);
              within = omega (arith, e, less);
              fits = v.fits;
              prefix =
                  ap (λ l. l ++ (b ∷ [])) v.prefix
                  ∙ sym (take-snoc last typed b (subst (λ j. get_elem? typed j ≡ some b) here g))
                  ∙ ap (λ m. take m typed) (let q : suc last ≡ n = omega (arith, e, here) in q);
              on_wire = v.on_wire;
              short = v.short;
              idle = v.idle;
            })
      ]

  pub chunk-Carries :
      {a : ℕ} {typed : List (List ℕ)} (d : Client F P X)
      → Tracks a typed d
      → length typed < 2 ^ 64
      → All Short typed
      → Pumped frames codec pred f64 d
      → Carries typed (chunk frames codec pred f64 d)
  chunk-Carries {typed = typed} d v fits short (says_nothing e) =
      subst (All (IsTyped typed))
        (sym (ap inputs_in (ap FrameFeed.rest e ∙ rest-idle) ∙ inputs_in-nil)) tt
  chunk-Carries {typed = typed} d v fits short (says_ack k e) =
      subst (All (IsTyped typed))
        (sym
          (ap inputs_in (ap FrameFeed.rest e ∙ rest-loaded (encode_ack_state k)) ∙ inputs_in-ack k))
        tt
  chunk-Carries {a} {typed} d v fits short (says_input n b g e) =
      let (at, here) = unsent-typed v n b g in
      subst (All (IsTyped typed))
        (sym (
          ap inputs_in (ap FrameFeed.rest e ∙ rest-loaded (encode_input n b))
          ∙ inputs_in-input n b (omega (arith, at, fits, get_elem?-lt typed _ b here))
              (All-get Short typed _ b short here)))
        ((max d.sent_seq a, at, here), tt)

  pub round-idle :
      (d : Client F P X)
      → Pumped frames codec pred f64 d
      → (round frames codec pred f64 d).feed ≡ FrameFeed.default
  round-idle d (says_nothing e) = ap flush e ∙ flush-idle
  round-idle d (says_ack k e) = ap flush e ∙ flush-loaded (encode_ack_state k)
  round-idle d (says_input n b g e) = ap flush e ∙ flush-loaded (encode_input n b)
