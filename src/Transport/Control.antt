-- ===== src/Transport/Control.antt =====
-- The frames of a client, up to the one that has to wait.
use quosh.Base.{
  ℕ, zero, suc, ◌+◌, ◌≤◌, ◌<◌, ◌≡◌, refl, sym, ap, ◌∙◌, ◌≢◌, ◌⊎◌, inl, inr, true, false, ◌&&◌, not,
  Option, none, some, List, [], ◌∷◌, ◌++◌, arith, ltb, leb, ◌==◌, if◌then◌else◌, lt→ltb, le→ltb,
  ==_iff, Bool-cases, length, get_elem?, take, drop, All, length-drop,
}
use mathlib.Core.Path.{subst}
use quosh.Proto.{max_input_bytes, Result, err, ok}
use quosh.Proto.Msg
use quosh.Proto.Frame.{split_frame}
use quosh.Proto.Frame.Stream.{split_frame_cases, Answer, waits, short, fails, takes}
use quosh.Transport.Cmds.{Channel}
use quosh.Transport.{
  input_record_overhead, Records, busy_bytes, peek_type, on_input, decoded, on_ack, dispatch,
  on_control, drain_next, drain_frame, drain_peeked, drain_leftover, TransportError, Transport,
  control_frame,
}
use quosh.Transport.Busy.{IsRecord}
use quosh.Proto.Message.{decode_input, decode_resize, decode_u64}

-- The type of the frame that `split_frame` takes.
abbrev pub split_type : Result (Option (ℕ × List ℕ)) → Result (Option ℕ)
split_type (err e) = err e
split_type (ok none) = ok none
split_type (ok (some f)) = ok (some f.0)

get_elem?-drop-take :
    (k m : ℕ) (xs : List ℕ) (t : ℕ) (p : List ℕ)
    → drop k (take m xs) ≡ t ∷ p
    → get_elem? xs k ≡ some t
get_elem?-drop-take zero zero xs t p h = cc
get_elem?-drop-take zero (suc m) [] t p h = cc
get_elem?-drop-take zero (suc m) (x ∷ xs) t p h = cc
get_elem?-drop-take (suc k) zero xs t p h = cc
get_elem?-drop-take (suc k) (suc m) [] t p h = cc
get_elem?-drop-take (suc k) (suc m) (x ∷ xs) t p h = get_elem?-drop-take k m xs t p h

-- `peek_type` says what `split_frame` will take: the same type, and the same refusals.
pub peek_type-split_frame : (buf : List ℕ) → peek_type buf ≡ split_type (split_frame buf).0
unfolding peek_type
peek_type-split_frame buf = by_case (split_frame_cases buf)
  where
    by_case : Answer buf → peek_type buf ≡ split_type (split_frame buf).0
    by_case (waits e r) = rw (e, r) refl
    by_case (short n e less r) =
        let part : ltb (length buf) (4 + n) ≡ true = lt→ltb _ _ less in rw (e, r) (rw part refl)
    by_case (fails x e r) = rw (e, r) refl
    by_case (takes n t p e le d r) =
        let whole : ltb (length buf) (4 + n) ≡ false = le→ltb _ _ le in
        rw (e, r) (rw whole (ap ok (get_elem?-drop-take 4 (4 + n) buf t p d)))

pub busy_bytes-append : (q r : Records) → busy_bytes (q ++ r) ≡ busy_bytes q + busy_bytes r
busy_bytes-append [] r = omega arith
busy_bytes-append ((seq, b) ∷ q) r = omega (arith, busy_bytes-append q r)

All-snoc :
    (q : Records) (x : ℕ × List ℕ) → All IsRecord q → IsRecord x → All IsRecord (q ++ (x ∷ []))
All-snoc [] x h g = (g, tt)
All-snoc (y ∷ q) x h g = (h.0, All-snoc q x h.1 g)

module _ {C : Type 0} (chan : Channel C) where
  -- What a control message may do to the queue and to the received bytes.
  pub record Controlled (t : Transport C) (typ : ℕ) (t' : Transport C) : Type 0 where
    pub received : t'.leftover ≡ t.leftover
    pub queued_more :
        (t'.busy_input ≡ t.busy_input)
        ⊎ ((typ ≡ Msg.input)
            × ((x : ℕ × List ℕ) × IsRecord x × (t'.busy_input ≡ t.busy_input ++ (x ∷ []))))

  on_input-Controlled :
      (t : Transport C) (seq : ℕ) (b : List ℕ) → Controlled t Msg.input (on_input chan t seq b).0
  unfolding on_input
  on_input-Controlled t seq b = elim (Bool-cases (length b == 0)) [
    | inl e ↦ rw e (record { received = refl; queued_more = inl refl })
    | inr e ↦ elim (Bool-cases (ltb max_input_bytes (length b))) [
      | inl g ↦ rw (e, g) (record { received = refl; queued_more = inl refl })
      | inr g ↦
          rw (e, g)
            (record {
              received = refl;
              queued_more = inr (refl, ((seq, b), (ground arith, ground arith), refl));
            })
    ]
  ]

  Controlled-decoded :
      {A : Type 0} (t : Transport C) (typ : ℕ) (r : Result A)
      (f : A → Transport C × Option TransportError)
      → ((a : A) → Controlled t typ (f a).0)
      → Controlled t typ (decoded chan r t f).0
  Controlled-decoded t typ (ok a) f h = h a
  Controlled-decoded t typ (err e) f h = record { received = refl; queued_more = inl refl }

  dispatch-Controlled :
      (t : Transport C) (typ : ℕ) (p : List ℕ) → Controlled t typ (dispatch chan t typ p).0
  unfolding dispatch
  dispatch-Controlled t typ p = elim (Bool-cases (typ == Msg.input)) [
    | inl e ↦ rw e (
        Controlled-decoded t typ (decode_input p) (λ m. on_input chan t m.0 m.1)
          λ m.
            subst (λ y. Controlled t y (on_input chan t m.0 m.1).0)
              (sym ((==_iff typ Msg.input).0 e)) (on_input-Controlled t m.0 m.1))
    | inr e ↦ elim (Bool-cases (typ == Msg.resize)) [
      | inl f ↦
          rw (e, f)
            (Controlled-decoded t typ (decode_resize p)
              (λ d. (record t { pending_resize = some d }, none))
              (λ d. (record { received = refl; queued_more = inl refl })))
      | inr f ↦ elim (Bool-cases (typ == Msg.hangup)) [
        | inl g ↦ rw (e, f, g) (record { received = refl; queued_more = inl refl })
        | inr g ↦ elim (Bool-cases (typ == Msg.ack_state)) [
          | inl h ↦
              rw (e, f, g, h)
                (Controlled-decoded t typ (decode_u64 p) (λ v. on_ack chan t v)
                  (λ v. (record { received = refl; queued_more = inl refl })))
          | inr h ↦ elim (Bool-cases (typ == Msg.ping)) [
            | inl k ↦ rw (e, f, g, h, k) (record { received = refl; queued_more = inl refl })
            | inr k ↦ rw (e, f, g, h, k) (record { received = refl; queued_more = inl refl })
          ]
        ]
      ]
    ]
  ]

  pub on_control-Controlled :
      (t : Transport C) (epoch typ : ℕ) (p : List ℕ)
      → Controlled t typ (on_control chan t epoch typ p).0
  unfolding on_control
  on_control-Controlled t epoch typ p =
      elim (t.sess.epoch == epoch)
        as (λ b. Controlled t typ (if not b then (t, none) else dispatch chan t typ p).0) [
          | true ↦ dispatch-Controlled t typ p
          | false ↦ (record { received = refl; queued_more = inl refl })
        ]

  -- Why the loop stopped, with the queue no longer than `limit` and one record more.
  pub data Rests (epoch limit : ℕ) (r : Transport C × Option TransportError) : Type 0 where
    broken : (e : TransportError) → r.1 ≡ some e → Rests epoch limit r
    replaced : r.1 ≡ none → r.0.sess.epoch ≢ epoch → Rests epoch limit r
    partial : r.1 ≡ none → peek_type r.0.leftover ≡ ok none → Rests epoch limit r
    waiting :
        r.1 ≡ none
        → peek_type r.0.leftover ≡ ok (some Msg.input)
        → limit ≤ busy_bytes r.0.busy_input
        → Rests epoch limit r

  abbrev pub room : ℕ → ℕ
  room limit = limit + input_record_overhead + max_input_bytes

  pub record Bounded (limit size : ℕ) (t : Transport C) : Type 0 where
    pub records : All IsRecord t.busy_input
    pub cost : busy_bytes t.busy_input ≤ room limit
    pub held : length t.leftover ≤ size

  on_control-Bounded :
      (t : Transport C) (epoch limit size typ : ℕ) (p : List ℕ)
      → Bounded limit size t
      → (typ ≡ Msg.input → busy_bytes t.busy_input < limit)
      → Bounded limit size (on_control chan t epoch typ p).0
  on_control-Bounded t epoch limit size typ p v h =
      elim (on_control-Controlled t epoch typ p).queued_more [
        | inl e ↦ record {
          records = rw e v.records;
          cost = rw e v.cost;
          held = rw (on_control-Controlled t epoch typ p).received v.held;
        }
        | inr (i, (x, rec, e)) ↦
            let lt = h i in
            record {
              records = rw e (All-snoc t.busy_input x v.records rec);
              cost = rw e (omega (arith, busy_bytes-append t.busy_input (x ∷ []), rec.1, lt));
              held = rw (on_control-Controlled t epoch typ p).received v.held;
            }
      ]

  abbrev Resting : ℕ → ℕ → ℕ → Transport C × Option TransportError → Type 0
  Resting epoch limit size r = Rests epoch limit r × Bounded limit size r.0

  drain_frame-Rests :
      (k epoch limit size typ : ℕ) (p left : List ℕ) (t : Transport C)
      → length left < k
      → length left ≤ size
      → Bounded limit size t
      → (typ ≡ Msg.input → busy_bytes t.busy_input < limit)
      → ((t' : Transport C)
          → length t'.leftover < k
          → Bounded limit size t'
          → Resting epoch limit size (drain_leftover chan k epoch limit t'))
      → Resting epoch limit size
          (drain_frame chan (drain_leftover chan k epoch limit) epoch t (ok (some (typ, p)), left))
  drain_frame-Rests k epoch limit size typ p left t h less v free ih =
      elim r.1
        as (λ o.
          Resting epoch limit size (drain_next chan (drain_leftover chan k epoch limit) o r.0)) [
            | none ↦ ih r.0 (rw (on_control-Controlled t' epoch typ p).received h) bounded
            | some e ↦ (broken e refl, bounded)
          ]
    where
      t' : Transport C
      t' = record t { leftover = left }

      r : Transport C × Option TransportError
      r = on_control chan t' epoch typ p

      bounded : Bounded limit size r.0
      bounded =
          on_control-Bounded t' epoch limit size typ p
            (record { records = v.records; cost = v.cost; held = less }) free

  drain_peeked-Rests :
      (k epoch limit size : ℕ) (t : Transport C)
      → length t.leftover < suc k
      → Bounded limit size t
      → ((t' : Transport C)
          → length t'.leftover < k
          → Bounded limit size t'
          → Resting epoch limit size (drain_leftover chan k epoch limit t'))
      → Answer t.leftover
      → Resting epoch limit size (
          drain_peeked chan
            (drain_leftover chan k epoch limit)
            epoch
            limit
            t
            (peek_type t.leftover))
  drain_peeked-Rests k epoch limit size t h v ih (waits e r) =
      let q : peek_type t.leftover ≡ ok none =
        peek_type-split_frame t.leftover ∙ ap (λ z. split_type z.0) r in
      simp q (partial refl q, v)
  drain_peeked-Rests k epoch limit size t h v ih (short n e less r) =
      let q : peek_type t.leftover ≡ ok none =
        peek_type-split_frame t.leftover ∙ ap (λ z. split_type z.0) r in
      simp q (partial refl q, v)
  drain_peeked-Rests k epoch limit size t h v ih (fails x e r) =
      let q : peek_type t.leftover ≡ err x =
        peek_type-split_frame t.leftover ∙ ap (λ z. split_type z.0) r in
      simp q (broken (control_frame x) refl, v)
  drain_peeked-Rests k epoch limit size t h v ih (takes n typ p e le d r) =
      let q : peek_type t.leftover ≡ ok (some typ) =
        peek_type-split_frame t.leftover ∙ ap (λ z. split_type z.0) r in
      elim (Bool-cases (typ == Msg.input && leb limit (busy_bytes t.busy_input))) [
        | inl b ↦
            simp (q, b) (waiting refl (q ∙ ap (λ y. ok (some y)) (is_input b)) (at_limit b), v)
        | inr f ↦
            simp (q, f)
              (simp r (
                drain_frame-Rests k epoch limit size typ p (drop (4 + n) t.leftover) t
                  (omega (arith, length-drop (4 + n) t.leftover))
                  (omega (arith, length-drop (4 + n) t.leftover, v.held)) v (below f) ih))
      ]
    where
      is_input : (typ == Msg.input && leb limit (busy_bytes t.busy_input)) ≡ true → typ ≡ Msg.input
      is_input b = ground (arith, ==_iff typ Msg.input)

      at_limit :
          (typ == Msg.input && leb limit (busy_bytes t.busy_input)) ≡ true
          → limit ≤ busy_bytes t.busy_input
      at_limit b = ground arith

      below :
          (typ == Msg.input && leb limit (busy_bytes t.busy_input)) ≡ false
          → typ ≡ Msg.input
          → busy_bytes t.busy_input < limit
      below f e = ground (arith, ==_iff typ Msg.input)

  -- With a round for each received byte the loop ends, within its bounds: with an error, with
  -- another transport in charge, with no whole frame left, or with an input that has to wait.
  pub drain_leftover-Rests :
      (k epoch limit size : ℕ) (t : Transport C)
      → length t.leftover < k
      → Bounded limit size t
      → Rests epoch limit (drain_leftover chan k epoch limit t)
        × Bounded limit size (drain_leftover chan k epoch limit t).0
  drain_leftover-Rests zero epoch limit size t h v = absurd (omega arith)
  drain_leftover-Rests (suc k) epoch limit size t h v = elim (Bool-cases (t.sess.epoch == epoch)) [
    | inr n ↦ rw n (replaced refl (λ e. absurd (differs n e)), v)
    | inl s ↦ rw s (
        drain_peeked-Rests k epoch limit size t h v (drain_leftover-Rests k epoch limit size)
          (split_frame_cases t.leftover))
  ]
    where
      differs : (t.sess.epoch == epoch) ≡ false → t.sess.epoch ≡ epoch → ⊥
      differs n e = ground (arith, ==_iff t.sess.epoch epoch)
