-- ===== src/Client/Sends.antt =====
-- What typing, acknowledging and sending do to the inputs that a client keeps.
use quosh.Client.Events.{feed_predict, queue_input}
use quosh.Client.{newer_than, pump_ack, pump_input, pump_unsent, pump, begin_connection, Client}
use quosh.Client.Unacked.{
  number, number-append, retain-number, find-number, Quiet-Tracks, Tracks, Quiet,
}
use quosh.Client.Keeps.{Untouched-Quiet, feed_predict-Untouched}
use quosh.Client.Interfaces.{Predictions, F64}
use quosh.Base.{
  ℕ, zero, suc, ◌+◌, ◌-◌, ◌%◌, ◌^◌, ◌<◌, min, max, ◌≡◌, refl, sym, ap, ◌∙◌, Bool, true, false, ◌||◌,
  not, Option, none, some, List, [], ◌∷◌, ◌++◌, arith, if◌then◌else◌, length, get_elem?, drop,
  length-append, length-drop, drop-nil, drop-drop, drop-append_le,
}
use quosh.Proto.Screen.{Frames, Lz4}
use quosh.Proto.FrameFeed
use quosh.Devices.Search.{retain, find_by}
use mathlib.Core.Path.{ap₂}

drop-min : (n : ℕ) (xs : List (List ℕ)) → drop (min n (length xs)) xs ≡ drop n xs
drop-min zero xs = ap (λ k. drop k xs) (let e : min 0 (length xs) ≡ 0 = omega arith in e)
drop-min (suc n) [] = drop-nil (min (suc n) 0)
drop-min (suc n) (x ∷ xs) =
    ap (λ k. drop k (x ∷ xs))
      (let e : min (suc n) (suc (length xs)) ≡ suc (min n (length xs)) = omega arith in e)
    ∙ drop-min n xs

get_elem?-drop :
    (a : ℕ) (xs : List (List ℕ)) (i : ℕ) → get_elem? (drop a xs) i ≡ get_elem? xs (a + i)
get_elem?-drop zero xs i = ap (get_elem? xs) (let e : i ≡ 0 + i = omega arith in e)
get_elem?-drop (suc a) [] i = refl
get_elem?-drop (suc a) (x ∷ xs) i =
    get_elem?-drop a xs i
    ∙ ap (get_elem? (x ∷ xs)) (let e : suc (a + i) ≡ suc a + i = omega arith in e)

pub get_elem?-lt :
    (xs : List (List ℕ)) (i : ℕ) (b : List ℕ) → get_elem? xs i ≡ some b → i < length xs
get_elem?-lt [] i b h = absurd (ground arith)
get_elem?-lt (x ∷ xs) zero b h = omega arith
get_elem?-lt (x ∷ xs) (suc i) b h = omega (arith, get_elem?-lt xs i b h)

module _ {F P X : Type 0} where
  pub if-Tracks :
      {a : ℕ} {typed : List (List ℕ)} (b : Bool) (x y : Client F P X)
      → Tracks a typed x
      → Tracks a typed y
      → Tracks a typed (if b then x else y)
  if-Tracks true x y h k = h
  if-Tracks false x y h k = k

  pub if_answer-Tracks :
      {a : ℕ} {typed : List (List ℕ)} (b : Bool) {E : Type 0} (x y : Client F P X × E)
      → Tracks a typed x.0
      → Tracks a typed y.0
      → Tracks a typed (if b then x else y).0
  if_answer-Tracks true x y h k = h
  if_answer-Tracks false x y h k = k

  -- An acknowledgement drops what it covers, and nothing else.
  pub ack-Tracks :
      {a : ℕ} {typed : List (List ℕ)} (c : Client F P X) (v : ℕ)
      → Tracks a typed c
      → Tracks
          (a + min (v - a) (length (drop a typed)))
          typed
          (record c { unacked = retain (newer_than v) c.unacked })
  ack-Tracks {a} {typed} c v t = record {
    within = omega (arith, length-drop a typed, t.within);
    pending =
        ap (retain (newer_than v)) t.pending
        ∙ retain-number v a (drop a typed)
        ∙ ap (number (a + min (v - a) (length (drop a typed)))) (
            sym (drop-min (v - a) (drop a typed))
            ∙ drop-drop (min (v - a) (length (drop a typed))) a typed);
    total = t.total;
    sent = t.sent;
  }

  -- The input that `pump` looks for is the one behind the inputs that were sent or acknowledged.
  pub unsent-typed :
      {a : ℕ} {typed : List (List ℕ)} {c : Client F P X} (v : Tracks a typed c) (n : ℕ) (b : List ℕ)
      → find_by (newer_than c.sent_seq) c.unacked ≡ some (n, b)
      → (n ≡ suc (max c.sent_seq a)) × (get_elem? typed (max c.sent_seq a) ≡ some b)
  unsent-typed {a} {typed} {c} v n b h =
      let (at, here) =
        find-number c.sent_seq a (drop a typed) n b
          (ap (find_by (newer_than c.sent_seq)) (sym v.pending) ∙ h) in
      (
        at,
        sym (
              get_elem?-drop a typed (c.sent_seq - a)
              ∙ ap (get_elem? typed)
                  (let e : a + (c.sent_seq - a) ≡ max c.sent_seq a = omega arith in e))
            ∙ here,
      )

module _ {F P X : Type 0} (frames : Frames F) (codec : Lz4) (pred : Predictions P F)
    (f64 : F64 X) where
  -- The client after a queued input is one for the inputs typed with it.
  pub queue_input-Tracks :
      {a : ℕ} {typed : List (List ℕ)} (c : Client F P X) (bytes : List ℕ) (now_ms : ℕ)
      → suc (length typed) < 2 ^ 64
      → Tracks a typed c
      → Tracks a (typed ++ (bytes ∷ [])) (queue_input frames codec pred f64 c bytes now_ms)
  unfolding queue_input
  queue_input-Tracks {a} {typed} c bytes now_ms room v = record {
    within = omega (arith, length-append typed (bytes ∷ []), v.within);
    pending =
        ap₂ (λ u k. u ++ ((k, bytes) ∷ [])) (q.unacked ∙ v.pending)
          (let e : seq' ≡ suc (a + length (drop a typed)) =
              omega (arith, v.total, v.within, length-drop a typed) in
            e)
        ∙ sym (number-append a (drop a typed) bytes)
        ∙ ap (number a) (sym (drop-append_le typed (bytes ∷ []) a v.within));
    total = q.seq ∙ seq_eq;
    sent = omega (arith, q.sent_seq, v.sent, length-append typed (bytes ∷ []));
  }
    where
      seq' : ℕ
      seq' = (c.seq + 1) % 2 ^ 64

      seq_eq : seq' ≡ length (typed ++ (bytes ∷ []))
      seq_eq = omega (arith, v.total, length-append typed (bytes ∷ []))

      q :
          Quiet
            (record c { seq = seq' })
            (feed_predict frames codec pred f64 (record c { seq = seq' }) seq' bytes now_ms)
      q =
          Untouched-Quiet (
            feed_predict-Untouched frames codec pred f64 (record c { seq = seq' }) seq' bytes
              now_ms)

  pump_ack-Quiet : (c : Client F P X) (o : Option ℕ) → Quiet c (pump_ack frames codec pred f64 c o)
  unfolding pump_ack
  pump_ack-Quiet c none = record { unacked = refl; seq = refl; sent_seq = refl }
  pump_ack-Quiet c (some v) = record { unacked = refl; seq = refl; sent_seq = refl }

  pump_input-Tracks :
      {a : ℕ} {typed : List (List ℕ)} (c : Client F P X) (o : Option (ℕ × List ℕ))
      → find_by (newer_than c.sent_seq) c.unacked ≡ o
      → Tracks a typed c
      → Tracks a typed (pump_input frames codec pred f64 c o)
  unfolding pump_input
  pump_input-Tracks c none h v = v
  pump_input-Tracks {a} {typed} c (some (n, b)) h v =
      let (at, here) = unsent-typed v n b h in
      record {
        within = v.within;
        pending = v.pending;
        total = v.total;
        sent = ground (arith, v.sent, at, get_elem?-lt typed (max c.sent_seq a) b here);
      }

  pub pump-Tracks :
      {a : ℕ} {typed : List (List ℕ)} (c : Client F P X)
      → Tracks a typed c
      → Tracks a typed (pump frames codec pred f64 c)
  unfolding pump pump_unsent
  pump-Tracks c v =
      let c' : Client F P X = pump_ack frames codec pred f64 c c.pending_ack in
      let v' = Quiet-Tracks (pump_ack-Quiet c c.pending_ack) v in
      if-Tracks (not c.connected || c.hungup) _ _ v
        (if-Tracks (FrameFeed.writing c'.feed) _ _ v' (pump_input-Tracks c' _ refl v'))

  pub connects-Tracks :
      {a : ℕ} {typed : List (List ℕ)} (c : Client F P X) (now_ms : ℕ)
      → Tracks a typed c
      → Tracks a typed (begin_connection frames codec pred f64 c now_ms)
  unfolding begin_connection
  connects-Tracks c now_ms v = record {
    within = v.within;
    pending = v.pending;
    total = v.total;
    sent = omega arith;
  }
