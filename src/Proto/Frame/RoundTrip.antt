-- ===== src/Proto/Frame/RoundTrip.antt =====
-- A frame that was encoded is split off again, and only once it is whole.
use quosh.Base.{
  ℕ, ◌+◌, ◌<◌, ◌≡◌, refl, some, List, ◌++◌, arith, le→ltb, length, drop, length-append, take-append,
  drop-append,
}
use quosh.Proto.{max_frame, ok}
use quosh.Proto.Frame.{encode_frame, peek_len, split_typ, split_body, split_frame}

-- A payload that a frame can carry.
abbrev pub IsPayload : List ℕ → Type 0
IsPayload p = length p < max_frame

pub length-encode_frame : (t : ℕ) (p : List ℕ) → length (encode_frame t p) ≡ 5 + length p
unfolding encode_frame
length-encode_frame t p = omega arith

pub peek_len-encode_frame :
    (t : ℕ) (p more : List ℕ)
    → IsPayload p
    → peek_len (encode_frame t p ++ more) ≡ ok (some (1 + length p))
unfolding peek_len encode_frame
peek_len-encode_frame t p more h = ground (arith, length-append p more)

split_body-append :
    (n : ℕ) (f more : List ℕ)
    → length f ≡ 4 + n
    → split_body n (f ++ more) ≡ split_typ (drop 4 f) more
unfolding split_body
split_body-append n f more h = rw (
  le→ltb (length (f ++ more)) (4 + n) (omega (arith, length-append f more)),
  take-append f more (4 + n) h,
  drop-append f more (4 + n) h,
)

-- `split_frame` gives back the type and the payload of an encoded frame and leaves what follows it.
pub split_frame-encode_frame :
    (t : ℕ) (p more : List ℕ)
    → IsPayload p
    → split_frame (encode_frame t p ++ more) ≡ (ok (some (t, p)), more)
unfolding split_frame
split_frame-encode_frame t p more h =
    rw
      (
        peek_len-encode_frame t p more h,
        split_body-append (1 + length p) (encode_frame t p) more
            (omega (arith, length-encode_frame t p)),
      )
      (unfold encode_frame in refl)
