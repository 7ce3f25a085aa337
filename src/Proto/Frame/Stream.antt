-- ===== src/Proto/Frame/Stream.antt =====
-- `split_frame` on a buffer that grows, and the loop that takes frames while there are any.
use quosh.Base.{
  ℕ, ◌+◌, ◌≤◌, ◌<◌, ◌≡◌, refl, ap, inl, inr, false, Option, none, some, List, [], ◌∷◌, ◌++◌,
  append-nil, arith, ltb, le→ltb, ltb→le, Bool-cases, length, take, drop, length-append,
  length-take, length-drop, drop-append_le, take-append_le,
}
use quosh.Proto.Frame.RoundTrip.{IsPayload, length-encode_frame, peek_len-encode_frame}
use quosh.Proto.{Error, Result, ok, err}
use quosh.Proto.Frame.{encode_frame, peek_len, split_frame}

peek_len-append_some :
    (a b : List ℕ) (n : ℕ) → peek_len a ≡ ok (some n) → peek_len (a ++ b) ≡ ok (some n)
unfolding peek_len
peek_len-append_some (w ∷ x ∷ y ∷ z ∷ a) b n h = ground (arith, length-append a b)
peek_len-append_some (w ∷ x ∷ y ∷ []) b n h = ground arith
peek_len-append_some (w ∷ x ∷ []) b n h = ground arith
peek_len-append_some (w ∷ []) b n h = ground arith
peek_len-append_some [] b n h = ground arith

peek_len-append_err : (a b : List ℕ) (e : Error) → peek_len a ≡ err e → peek_len (a ++ b) ≡ err e
unfolding peek_len
peek_len-append_err (w ∷ x ∷ y ∷ z ∷ a) b n h = ground (arith, length-append a b)
peek_len-append_err (w ∷ x ∷ y ∷ []) b n h = ground arith
peek_len-append_err (w ∷ x ∷ []) b n h = ground arith
peek_len-append_err (w ∷ []) b n h = ground arith
peek_len-append_err [] b n h = ground arith

-- The three things that `split_frame` can do with a buffer.
pub data Answer (buf : List ℕ) : Type 0 where
  waits : peek_len buf ≡ ok none → split_frame buf ≡ (ok none, buf) → Answer buf
  short :
      (n : ℕ)
      → peek_len buf ≡ ok (some n)
      → length buf < 4 + n
      → split_frame buf ≡ (ok none, buf)
      → Answer buf
  fails : (e : Error) → peek_len buf ≡ err e → split_frame buf ≡ (err e, buf) → Answer buf
  takes :
      (n t : ℕ) (p : List ℕ)
      → peek_len buf ≡ ok (some n)
      → 4 + n ≤ length buf
      → drop 4 (take (4 + n) buf) ≡ t ∷ p
      → split_frame buf ≡ (ok (some (t, p)), drop (4 + n) buf)
      → Answer buf

peek_len_pos : (buf : List ℕ) (n : ℕ) → peek_len buf ≡ ok (some n) → 0 < n
unfolding peek_len
peek_len_pos buf n h = ground arith

peeked : (buf : List ℕ) (r : Result (Option ℕ)) → peek_len buf ≡ r → Answer buf
unfolding split_frame
peeked buf (err e) h = fails e h (rw h)
peeked buf (ok none) h = waits h (rw h)
peeked buf (ok (some n)) h = elim (Bool-cases (ltb (length buf) (4 + n))) [
  | inl less ↦ short n h (ground arith) (rw (h, less))
  | inr whole ↦ body (drop 4 (take (4 + n) buf)) refl (ltb→le _ _ whole) whole
]
  where
    body :
        (b : List ℕ)
        → drop 4 (take (4 + n) buf) ≡ b
        → 4 + n ≤ length buf
        → ltb (length buf) (4 + n) ≡ false
        → Answer buf
    body [] e le enough = absurd (
        omega (
          arith,
          peek_len_pos buf n h,
          ap length e,
          length-drop 4 (take (4 + n) buf),
          length-take (4 + n) buf,
        ))
    body (t ∷ p) e le enough = takes n t p h le e (rw (h, enough, e))

pub split_frame_cases : (buf : List ℕ) → Answer buf
split_frame_cases buf = peeked buf (peek_len buf) refl

-- More bytes behind a frame, or behind an error, do not change what `split_frame` answers.
pub split_frame-append :
    (a b : List ℕ)
    → ((f : ℕ × List ℕ) (l : List ℕ)
        → split_frame a ≡ (ok (some f), l)
        → split_frame (a ++ b) ≡ (ok (some f), l ++ b))
      × ((e : Error) (l : List ℕ)
          → split_frame a ≡ (err e, l)
          → split_frame (a ++ b) ≡ (err e, l ++ b))
split_frame-append a b = by_case (split_frame_cases a)
  where
    by_case :
        Answer a
        → ((f : ℕ × List ℕ) (l : List ℕ)
            → split_frame a ≡ (ok (some f), l)
            → split_frame (a ++ b) ≡ (ok (some f), l ++ b))
          × ((e : Error) (l : List ℕ)
              → split_frame a ≡ (err e, l)
              → split_frame (a ++ b) ≡ (err e, l ++ b))
    by_case (waits h r) = (λ f l q. cc, λ e l q. cc)
    by_case (short n h less r) = (λ f l q. cc, λ e l q. cc)
    by_case (fails e' h r) =
        (λ f l q. cc, λ e l q. unfold split_frame in rw (peek_len-append_err a b e' h) (cc (r, q)))
    by_case (takes n t p h le e r) = (
      λ f l q.
          unfold split_frame in
          rw
            (
              peek_len-append_some a b n h,
              le→ltb (length (a ++ b)) (4 + n) (omega (arith, length-append a b)),
              take-append_le a b (4 + n) le,
              drop-append_le a b (4 + n) le,
              e,
            )
            (cc (r, q)),
      λ e' l q. cc,
    )

-- While a frame is not whole, `split_frame` asks for more bytes and leaves the buffer as it is.
pub split_frame_partial :
    (t : ℕ) (p front : List ℕ) (x : ℕ) (back : List ℕ)
    → IsPayload p
    → encode_frame t p ≡ front ++ (x ∷ back)
    → split_frame front ≡ (ok none, front)
split_frame_partial t p front x back h e = by_case (split_frame_cases front)
  where
    whole : peek_len (front ++ (x ∷ back)) ≡ ok (some (1 + length p))
    whole = rw (append-nil, e) at (peek_len-encode_frame t p [] h)

    size : length front + (1 + length back) ≡ 5 + length p
    size = omega (arith, ap length e, length-encode_frame t p, length-append front (x ∷ back))

    by_case : Answer front → split_frame front ≡ (ok none, front)
    by_case (waits k r) = r
    by_case (short n k less r) = r
    by_case (fails e' k r) = cc (peek_len-append_err front (x ∷ back) e' k, whole)
    by_case (takes n u q k le d r) =
        absurd (ground (arith, peek_len-append_some front (x ∷ back) n k, whole, size))
