-- ===== src/Proto/Message.antt =====
-- The session messages of crates/quosh-proto/src/lib.rs: `Hello`, `HelloOk`, input, resize,
-- acknowledgements, exit and error.
pub mod Layout
mod Tests
use quosh.Base.{
  ℕ, ◌+◌, ◌%◌, ◌^◌, ◌⊎◌, inl, inr, ◌||◌, not, List, [], ◌∷◌, ◌++◌, ltb, ◌==◌, if◌then◌else◌, length,
  drop, slice, concat,
}
use quosh.Bytes.{saturating_mul, le_bytes, of_le}
use quosh.Proto.{
  ◌>>◌, fail_if, max_cols, max_rows, min_cols, min_rows, Result, truncated, frame, ok,
}
use quosh.Proto.Msg
use quosh.Proto.Frame.{encode_frame}
use quosh.Proto.Utf8.{from_utf8_lossy}

pub record Hello : Type 0 where
  pub protocol : ℕ
  pub session_id : List ℕ
  pub token : List ℕ
  pub cols : ℕ
  pub rows : ℕ

pub record HelloOk : Type 0 where
  pub protocol : ℕ
  pub session_id : List ℕ
  pub version : ℕ
  pub cols : ℕ
  pub rows : ℕ

-- The fields in the order in which `p` is extended by them.
abbrev pub hello_fields : Hello → List (List ℕ)
hello_fields h =
    le_bytes 2 h.protocol ∷ h.session_id ∷ h.token ∷ le_bytes 2 h.cols ∷ le_bytes 2 h.rows ∷ []

unfoldable pub encode_hello : Hello → List ℕ
encode_hello h = encode_frame Msg.hello (concat (hello_fields h))

unfoldable pub decode_hello : List ℕ → Result Hello
decode_hello p = do
  fail_if (not (length p == 54)) frame
  ok (record {
    protocol = of_le (slice p 0 2);
    session_id = slice p 2 18;
    token = slice p 18 50;
    cols = of_le (slice p 50 52);
    rows = of_le (slice p 52 54);
  })

abbrev pub hello_ok_fields : HelloOk → List (List ℕ)
hello_ok_fields h =
    le_bytes 2 h.protocol
    ∷ h.session_id
    ∷ le_bytes 8 h.version
    ∷ le_bytes 2 h.cols
    ∷ le_bytes 2 h.rows
    ∷ []

unfoldable pub encode_hello_ok : HelloOk → List ℕ
encode_hello_ok h = encode_frame Msg.hello_ok (concat (hello_ok_fields h))

unfoldable pub decode_hello_ok : List ℕ → Result HelloOk
decode_hello_ok p = do
  fail_if (not (length p == 30)) frame
  ok (record {
    protocol = of_le (slice p 0 2);
    session_id = slice p 2 18;
    version = of_le (slice p 18 26);
    cols = of_le (slice p 26 28);
    rows = of_le (slice p 28 30);
  })

unfoldable pub encode_input : ℕ → List ℕ → List ℕ
encode_input seq bytes = encode_frame Msg.input (le_bytes 8 seq ++ bytes)

unfoldable pub decode_input : List ℕ → Result (ℕ × List ℕ)
decode_input p = do fail_if (ltb (length p) 8) truncated; ok (of_le (slice p 0 8), drop 8 p)

unfoldable pub encode_resize : ℕ → ℕ → List ℕ
encode_resize cols rows = encode_frame Msg.resize (le_bytes 2 cols ++ le_bytes 2 rows)

unfoldable pub decode_resize : List ℕ → Result (ℕ × ℕ)
decode_resize p = do
  fail_if (not (length p == 4)) frame
  ok (of_le (slice p 0 2), of_le (slice p 2 4))

unfoldable pub encode_hangup : List ℕ
encode_hangup = encode_frame Msg.hangup []

unfoldable pub encode_ping : List ℕ
encode_ping = encode_frame Msg.ping []

unfoldable pub encode_pong : List ℕ
encode_pong = encode_frame Msg.pong []

unfoldable pub encode_ack_state : ℕ → List ℕ
encode_ack_state version = encode_frame Msg.ack_state (le_bytes 8 version)

unfoldable pub decode_u64 : List ℕ → Result ℕ
decode_u64 p = do fail_if (not (length p == 8)) frame; ok (of_le p)

unfoldable pub encode_input_ack : ℕ → List ℕ
encode_input_ack seq = encode_frame Msg.input_ack (le_bytes 8 seq)

-- An `i32` is its bit pattern here, a number below 2 ^ 32.
unfoldable pub encode_exit : ℕ → List ℕ
encode_exit status = encode_frame Msg.exit (le_bytes 4 status)

unfoldable pub decode_exit : List ℕ → Result ℕ
decode_exit p = do fail_if (not (length p == 4)) frame; ok (of_le p)

-- A text is its UTF-8 bytes; `b.len() as u16` keeps the low 16 bits of the length.
unfoldable pub encode_error : ℕ → List ℕ → List ℕ
encode_error code msg =
    encode_frame Msg.error (le_bytes 2 code ++ (le_bytes 2 (length msg % 2 ^ 16) ++ msg))

unfoldable pub decode_error : List ℕ → Result (ℕ × List ℕ)
decode_error p = do
  fail_if (ltb (length p) 4) truncated
  let n = of_le (slice p 2 4)
  fail_if (ltb (length p) (4 + n)) truncated
  ok (of_le (slice p 0 2), from_utf8_lossy (slice p 4 (4 + n)))

pub data DimsError : Type 0 where
  too_small too_big : DimsError

-- `MAX_CELL_COUNT` is a constant of blit_remote.
unfoldable pub validate_dims : ℕ → ℕ → ℕ → (ℕ × ℕ) ⊎ DimsError
validate_dims max_cell_count cols rows =
    if ltb cols min_cols || ltb rows min_rows
    then inr too_small
    else if ltb max_cols cols || ltb max_rows rows
    then inr too_big
    else if ltb max_cell_count (saturating_mul cols rows)
    then inr too_big
    else inl (cols, rows)
