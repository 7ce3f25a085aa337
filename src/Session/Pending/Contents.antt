-- ===== src/Session/Pending/Contents.antt =====
-- `PendingWrites` holds a queue of bytes: what each operation does to it.
use quosh.Base.{
  ℕ, ◌+◌, ◌≤◌, ◌<◌, ◌≡◌, refl, sym, ap, ◌∙◌, ◌↔◌, inl, inr, Bool, true, false, Option, none, some,
  List, [], ◌∷◌, ◌++◌, append-nil, append_assoc, arith, ltb, leb, if◌then◌else◌, leb→le, Bool-cases,
  length, take, drop, length-append, length-drop, take-append, drop-append_le,
}
use quosh.Session.Pending.{
  pending_hard_max, push_input, join_back, extend_back, push_generated, front_bytes, write_buf,
  WriteChunk, PendingWrites,
}
use quosh.Bytes.{usize_max, saturating_add}

-- The bytes that are still to be written, in their order.
abbrev pub contents : List WriteChunk → List ℕ
contents [] = []
contents (c ∷ cs) = drop c.off c.bytes ++ contents cs

-- No chunk is written whole.
abbrev pub Unfinished : List WriteChunk → Type 0
Unfinished [] = Unit
Unfinished (c ∷ cs) = (c.off < length c.bytes) × Unfinished cs

-- The count of unread bytes is exact and capped, and every chunk has bytes left.
pub record IsValid (p : PendingWrites) : Type 0 where
  pub counted : p.unread ≡ length (contents p.chunks)
  pub capped : p.unread ≤ pending_hard_max
  pub unfinished : Unfinished p.chunks

contents-append : (cs ds : List WriteChunk) → contents (cs ++ ds) ≡ contents cs ++ contents ds
contents-append [] ds = refl
contents-append (c ∷ cs) ds = simp (contents-append cs ds, append_assoc)

Unfinished-append :
    (cs : List WriteChunk) (d : WriteChunk)
    → Unfinished cs
    → d.off < length d.bytes
    → Unfinished (cs ++ (d ∷ []))
Unfinished-append [] d u h = (h, tt)
Unfinished-append (c ∷ cs) d u h = (u.0, Unfinished-append cs d u.1 h)

contents-extend_back :
    (cs : List WriteChunk) (b : List ℕ)
    → Unfinished cs
    → 0 < length b
    → (contents (extend_back cs b) ≡ contents cs ++ b) × Unfinished (extend_back cs b)
unfolding extend_back
contents-extend_back [] b u h = (append-nil b, (h, tt))
contents-extend_back (c ∷ []) b u h = by_seq c.seq
  where
    by_seq :
        (s : Option ℕ)
        → (contents (join_back s c b) ≡ contents (c ∷ []) ++ b) × Unfinished (join_back s c b)
    by_seq none = (
      append-nil (drop c.off (c.bytes ++ b))
          ∙ drop-append_le c.bytes b c.off (omega (arith, u.0))
          ∙ ap (λ t. t ++ b) (sym (append-nil (drop c.off c.bytes))),
      (omega (arith, length-append c.bytes b, u.0), tt),
    )
    by_seq (some s) = (
      ap (λ t. drop c.off c.bytes ++ t) (append-nil b)
          ∙ ap (λ t. t ++ b) (sym (append-nil (drop c.off c.bytes))),
      (u.0, (h, tt)),
    )
contents-extend_back (c ∷ d ∷ cs) b u h =
    let (e, v) = contents-extend_back (d ∷ cs) b u.1 h in
    (
      ap (λ t. drop c.off c.bytes ++ t) e
          ∙ sym (append_assoc (drop c.off c.bytes) (contents (d ∷ cs)) b),
      (u.0, v),
    )

-- The queue with room up to the cap: the bytes afterwards and whether they were taken.
abbrev pub push : List ℕ → List ℕ → List ℕ × Bool
push q b = if leb (length q + length b) pending_hard_max then (q ++ b, true) else (q, false)

-- A result of an operation stands for a result of the queue.
pub record Refines (r : PendingWrites × Bool) (s : List ℕ × Bool) : Type 0 where
  pub same : contents r.0.chunks ≡ s.0
  pub agrees : r.1 ≡ s.1
  pub valid : IsValid r.0

-- Both operations refuse what goes past the cap and else put the bytes at the end.
guarded-Refines :
    (p : PendingWrites) (cs : List WriteChunk) (b : List ℕ)
    → IsValid p
    → length b ≤ usize_max
    → contents cs ≡ contents p.chunks ++ b
    → Unfinished cs
    → Refines
        (if ltb pending_hard_max (saturating_add p.unread (length b))
          then (p, false)
          else (record { chunks = cs; unread = p.unread + length b }, true))
        (push (contents p.chunks) b)
guarded-Refines p cs b v cap e u = elim (Bool-cases (leb (p.unread + length b) pending_hard_max)) [
  | inl t ↦
      let room : ltb pending_hard_max (saturating_add p.unread (length b)) ≡ false = ground arith in
      let room' : leb (length (contents p.chunks) + length b) pending_hard_max ≡ true =
        ground (arith, v.counted) in
      rw (room, room')
        (record {
          same = e;
          agrees = refl;
          valid = record {
            counted = omega (arith, v.counted, ap length e, length-append (contents p.chunks) b);
            capped = leb→le (p.unread + length b) pending_hard_max t;
            unfinished = u;
          };
        })
  | inr f ↦
      let full : ltb pending_hard_max (saturating_add p.unread (length b)) ≡ true = ground arith in
      let full' : leb (length (contents p.chunks) + length b) pending_hard_max ≡ false =
        ground (arith, v.counted) in
      rw (full, full') (record { same = refl; agrees = refl; valid = v })
]

-- On valid writes `push_input` of some bytes, no more than a `usize` counts, does what the queue
-- with its cap does, and keeps the writes valid.
pub push_input-Refines :
    (p : PendingWrites) (seq : ℕ) (b : List ℕ)
    → IsValid p
    → length b ≤ usize_max
    → 0 < length b
    → Refines (push_input p seq b) (push (contents p.chunks) b)
unfolding push_input
push_input-Refines p seq b v cap h =
    let c : WriteChunk = record { seq = some seq; bytes = b; off = 0 } in
    guarded-Refines p (p.chunks ++ (c ∷ [])) b v cap
      (contents-append p.chunks (c ∷ []) ∙ ap (λ t. contents p.chunks ++ t) (append-nil b))
      (Unfinished-append p.chunks c v.unfinished h)

-- On valid writes `push_generated` of no more bytes than a `usize` counts does what the queue with
-- its cap does, and keeps the writes valid.
pub push_generated-Refines :
    (p : PendingWrites) (b : List ℕ)
    → IsValid p
    → length b ≤ usize_max
    → Refines (push_generated p b) (push (contents p.chunks) b)
unfolding push_generated
push_generated-Refines p [] v cap =
    let room : leb (length (contents p.chunks) + 0) pending_hard_max ≡ true =
      ground (arith, v.counted, v.capped) in
    rw room (record { same = sym (append-nil (contents p.chunks)); agrees = refl; valid = v })
push_generated-Refines p (b ∷ bs) v cap =
    let (e, u) = contents-extend_back p.chunks (b ∷ bs) v.unfinished (omega arith) in
    guarded-Refines p (extend_back p.chunks (b ∷ bs)) (b ∷ bs) v cap e u

-- What valid writes offer the terminal is the start of the queue, and not empty while bytes wait.
pub write_buf-contents :
    (p : PendingWrites)
    → IsValid p
    → (write_buf p ≡ take (length (write_buf p)) (contents p.chunks))
      × (0 < p.unread ↔ 0 < length (write_buf p))
unfolding write_buf
write_buf-contents p v = by_chunks p.chunks p.unread v.unfinished v.counted
  where
    by_chunks :
        (cs : List WriteChunk) (u : ℕ)
        → Unfinished cs
        → u ≡ length (contents cs)
        → (front_bytes cs ≡ take (length (front_bytes cs)) (contents cs))
          × (0 < u ↔ 0 < length (front_bytes cs))
    by_chunks [] u w e = (refl, (λ h. omega arith, λ h. omega arith))
    by_chunks (c ∷ cs) u w e = (
      sym (take-append (drop c.off c.bytes) (contents cs) (length (drop c.off c.bytes)) refl),
      (
        λ h. omega (arith, w.0, length-drop c.off c.bytes),
        λ h. omega (arith, e, length-append (drop c.off c.bytes) (contents cs)),
      ),
    )
