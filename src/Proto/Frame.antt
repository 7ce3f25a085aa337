-- ===== src/Proto/Frame.antt =====
-- `encode_frame`, `peek_len` and `split_frame` of crates/quosh-proto/src/lib.rs.
pub mod RoundTrip
pub mod Stream
pub mod Receive
mod Tests
use quosh.Base.{
  ℕ, ◌+◌, ◌%◌, ◌^◌, ◌||◌, Option, none, some, List, [], ◌∷◌, ◌++◌, ltb, ◌==◌, if◌then◌else◌, length,
  take, drop, slice,
}
use quosh.Bytes.{le_bytes, of_le}
use quosh.Proto.{max_frame, Result, truncated, too_large, ok, err}

-- The length counts the type byte; `n as u32` keeps its low 32 bits.
unfoldable pub encode_frame : ℕ → List ℕ → List ℕ
encode_frame typ payload = le_bytes 4 ((1 + length payload) % 2 ^ 32) ++ (typ ∷ payload)

unfoldable pub peek_len : List ℕ → Result (Option ℕ)
peek_len buf =
    let n = of_le (slice buf 0 4) in
    if ltb (length buf) 4
    then ok none
    else if n == 0 || ltb max_frame n
    then err too_large
    else ok (some n)

-- The type byte and the payload of a frame's body.
abbrev split_typ : List ℕ → List ℕ → Result (Option (ℕ × List ℕ)) × List ℕ
split_typ [] left = (err truncated, left)
split_typ (typ ∷ payload) left = (ok (some (typ, payload)), left)

split_body : ℕ → List ℕ → Result (Option (ℕ × List ℕ)) × List ℕ
split_body n buf =
    if ltb (length buf) (4 + n)
    then (ok none, buf)
    else split_typ (drop 4 (take (4 + n) buf)) (drop (4 + n) buf)

abbrev split_peeked : Result (Option ℕ) → List ℕ → Result (Option (ℕ × List ℕ)) × List ℕ
split_peeked (err e) buf = (err e, buf)
split_peeked (ok none) buf = (ok none, buf)
split_peeked (ok (some n)) buf = split_body n buf

-- One frame from the front of the buffer, and the buffer that is left.
unfoldable pub split_frame : List ℕ → Result (Option (ℕ × List ℕ)) × List ℕ
unfolding peek_len split_body
split_frame buf = split_peeked (peek_len buf) buf
