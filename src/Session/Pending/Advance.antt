-- ===== src/Session/Pending/Advance.antt =====
-- What `PendingWrites::advance` makes of the bytes that the terminal took.
use quosh.Base.{
  ℕ, zero, suc, ◌+◌, ◌-◌, ◌≤◌, min, ◌≡◌, refl, sym, ap, ◌∙◌, inl, inr, true, false, Option, none,
  some, List, [], ◌∷◌, ◌++◌, append-nil, append_assoc, arith, dec_lt, leb, ◌==◌, if◌then◌else◌,
  Bool-cases, length, drop, length-append, length-drop, drop-nil, drop-drop, drop-append_le,
  drop-append_ge,
}
use quosh.Session.Pending.{
  History, stamp, advance_loop, advance, WriteChunk, PendingWrites, Advanced,
}
use quosh.Session.Pending.Contents.{contents, Unfinished, IsValid}

-- Each input with the number of bytes that must be written before it is written whole.
abbrev pub ends : ℕ → List WriteChunk → History
ends base [] = []
ends base (c ∷ cs) = let end = base + (length c.bytes - c.off) in stamp c.seq end ++ ends end cs

-- The inputs that `n` bytes complete, each with the time `now`.
abbrev pub within : ℕ → History → ℕ → History
within n [] now = []
within n ((s, e) ∷ es) now = if leb e n then ((s, now) ∷ within n es now) else within n es now

within-stamp :
    (n e now : ℕ) (s : Option ℕ) (es : History)
    → within n (stamp s e ++ es) now ≡ (if leb e n then stamp s now else []) ++ within n es now
within-stamp n e now none es = elim (Bool-cases (leb e n)) [ inl t ↦ rw t refl | inr f ↦ rw f refl ]
within-stamp n e now (some s) es = elim (Bool-cases (leb e n)) [
  | inl t ↦ rw t refl
  | inr f ↦ rw f refl
]

-- Nothing more is written whole by bytes that are used up.
within-none :
    (n base now : ℕ) (cs : List WriteChunk)
    → Unfinished cs
    → n ≤ base
    → within n (ends base cs) now ≡ []
within-none n base now [] u h = refl
within-none n base now (c ∷ cs) u h =
    let end = base + (length c.bytes - c.off) in
    let late : leb end n ≡ false = ground (arith, u.0) in
    within-stamp n end now c.seq (ends end cs)
    ∙ rw late (within-none n end now cs u.1 (omega arith))

-- The state after `left` of the `n` bytes were still to be taken from these chunks.
record Ran (a : Advanced) (base left : ℕ) (cs : List WriteChunk) (u : ℕ) (h : History) (now : ℕ)
    : Type 0 where
  bytes_left : contents a.chunks ≡ drop left (contents cs)
  counted_left : a.unread ≡ u - min left (length (contents cs))
  unfinished_left : Unfinished a.chunks
  stamped : a.history ≡ h ++ within (base + left) (ends base cs) now

advance_loop-Ran :
    (base left : ℕ) (cs : List WriteChunk) (u : ℕ) (h : History) (now : ℕ)
    → Unfinished cs
    → Ran (advance_loop left cs u h now) base left cs u h now
unfolding advance_loop
advance_loop-Ran base left [] u h now w = record {
  bytes_left = sym (drop-nil left);
  counted_left = omega arith;
  unfinished_left = tt;
  stamped = sym (append-nil h);
}
advance_loop-Ran base zero (c ∷ cs) u h now w = record {
  bytes_left = refl;
  counted_left = omega arith;
  unfinished_left = w;
  stamped =
      sym (append-nil h)
      ∙ ap (λ t. h ++ t) (sym (within-none (base + 0) base now (c ∷ cs) w (omega arith)));
}
advance_loop-Ran base (suc k) (c ∷ cs) u h now w =
    elim (dec_lt (suc k) avail)
      as (λ _. Ran (advance_loop (suc k) (c ∷ cs) u h now) base (suc k) (c ∷ cs) u h now) [
        | yes lt ↦
            let taken : min (suc k) avail ≡ suc k = omega arith in
            let stays : ((c.off + suc k) == length c.bytes) ≡ false = ground arith in
            let late : leb (base + avail) (base + suc k) ≡ false = ground arith in
            rw (more, taken, stays)
              (record {
                bytes_left = sym (
                    drop-append_le front (contents cs) (suc k) (omega (arith, front_length))
                    ∙ ap (λ t. t ++ contents cs) (drop-drop (suc k) c.off c.bytes));
                counted_left = omega (arith, front_length, length-append front (contents cs));
                unfinished_left = (omega arith, w.1);
                stamped =
                    sym (append-nil h)
                    ∙ ap (λ t. h ++ t)
                        (sym (
                          within-stamp (base + suc k) (base + avail) now c.seq
                            (ends (base + avail) cs)
                          ∙ rw late (
                              within-none (base + suc k) (base + avail) now cs w.1 (omega arith))));
              })
        | no ge ↦
            let taken : min (suc k) avail ≡ avail = omega arith in
            let leaves : ((c.off + avail) == length c.bytes) ≡ true = ground (arith, w.0) in
            let done : leb (base + avail) (base + suc k) ≡ true = ground arith in
            let total : base + avail + (suc k - avail) ≡ base + suc k = omega arith in
            let r =
              advance_loop-Ran (base + avail) (suc k - avail) cs (u - avail) (h ++ stamp c.seq now)
                now w.1 in
            rw (more, taken, leaves)
              (record {
                bytes_left =
                    r.bytes_left
                    ∙ ap (λ n. drop (suc k - n) (contents cs)) (sym front_length)
                    ∙ sym
                        (drop-append_ge front (contents cs) (suc k) (omega (arith, front_length)));
                counted_left =
                    omega (arith, r.counted_left, front_length, length-append front (contents cs));
                unfinished_left = r.unfinished_left;
                stamped =
                    r.stamped
                    ∙ append_assoc h (stamp c.seq now)
                        (within (base + avail + (suc k - avail)) (ends (base + avail) cs) now)
                    ∙ ap (λ n. h ++ (stamp c.seq now ++ within n (ends (base + avail) cs) now))
                        total
                    ∙ ap (λ t. h ++ t)
                        (sym (
                          within-stamp (base + suc k) (base + avail) now c.seq
                            (ends (base + avail) cs)
                          ∙ rw done refl));
              })
      ]
  where
    avail : ℕ
    avail = length c.bytes - c.off

    front : List ℕ
    front = drop c.off c.bytes

    front_length : length front ≡ avail
    front_length = length-drop c.off c.bytes

    more : (suc k == 0) ≡ false
    more = ground arith

-- The queue after `n` bytes were written.
pub record Wrote (p : PendingWrites) (n : ℕ) (h : History) (now : ℕ) (r : PendingWrites × History)
    : Type 0 where
  pub left : contents r.0.chunks ≡ drop n (contents p.chunks)
  pub valid : IsValid r.0
  pub recorded : r.1 ≡ h ++ within n (ends 0 p.chunks) now

-- On valid writes `advance` takes the first `n` bytes of the queue, keeps the writes valid, and
-- appends to the history exactly the inputs that these bytes complete.
pub advance-Wrote :
    (p : PendingWrites) (n : ℕ) (h : History) (now : ℕ)
    → IsValid p
    → Wrote p n h now (advance p n h now)
unfolding advance
advance-Wrote p n h now v =
    let here : 0 + n ≡ n = omega arith in
    let r = advance_loop-Ran 0 n p.chunks p.unread h now v.unfinished in
    record {
      left = r.bytes_left;
      valid = record {
        counted = omega (
          arith,
          r.counted_left,
          v.counted,
          ap length r.bytes_left,
          length-drop n (contents p.chunks),
        );
        capped = omega (arith, r.counted_left, v.capped);
        unfinished = r.unfinished_left;
      };
      recorded = r.stamped ∙ ap (λ k. h ++ within k (ends 0 p.chunks) now) here;
    }
