-- ===== src/Proto/Screen.antt =====
-- `Screen` and `SharedScreen` of crates/quosh-proto/src/lib.rs. The frame state of blit_remote and
-- the compression of lz4_flex are parameters.
pub mod RoundTrip
pub mod Compressed
pub mod Tests
use quosh.Base.{
  ℕ, zero, suc, ◌+◌, ◌-◌, ◌*◌, ◌%◌, ◌^◌, Bool, true, false, ◌||◌, not, Option, none, some, List, [],
  ◌∷◌, ◌++◌, ltb, leb, ◌==◌, if◌then◌else◌, length, get_elem?, take, drop, slice,
}
use quosh.Bytes.{saturating_mul, le_bytes, of_le}
use quosh.Proto.Reader.{M, ◌>>=◌, ◌>>◌, pure, refuse_if, bytes, n, done, number, run}
use quosh.Proto
use quosh.Proto.{
  max_frame, max_screen_raw, max_cols, max_rows, Result, truncated, magic, lz4, too_large, err, ok,
}
use quosh.Proto.Utf8.{from_utf8_lossy}
use quosh.Devices.Search.{same}

-- `FrameState`, `MAX_CELL_COUNT` and `CELL_SIZE` of blit_remote; a text is its bytes.
pub record Frames (F : Type 0) : Type 0 where
  pub max_cell_count : ℕ
  pub cell_size : ℕ
  -- rows, columns, the row and the column of the cursor, mode, title, cells
  pub from_parts : ℕ → ℕ → ℕ → ℕ → ℕ → List ℕ → List ℕ → F
  pub rows : F → ℕ
  pub cols : F → ℕ
  pub cursor_row : F → ℕ
  pub cursor_col : F → ℕ
  pub mode : F → ℕ
  pub title : F → List ℕ
  pub cells : F → List ℕ
  -- the entries of the map, in the order in which it is iterated
  pub overflow : F → List (ℕ × List ℕ)
  pub insert_overflow : F → ℕ → List ℕ → F

-- `compress_prepend_size` and `decompress_size_prepended` of lz4_flex.
pub record Lz4 : Type 0 where
  pub compress_prepend_size : List ℕ → List ℕ
  pub decompress_size_prepended : List ℕ → Option (List ℕ)

pub record Screen (F : Type 0) : Type 0 where
  pub version : ℕ
  pub echo_ack : ℕ
  pub frame : F

pub record SharedScreen (F : Type 0) : Type 0 where
  pub prediction_epoch : ℕ
  pub prediction_allowed : Bool
  pub screen : Screen F

-- "QS2\0"
abbrev pub screen_magic : List ℕ
screen_magic = 0x51 ∷ 0x53 ∷ 0x32 ∷ 0 ∷ []

-- "QP1!"
abbrev pub shared_screen_magic : List ℕ
shared_screen_magic = 0x51 ∷ 0x50 ∷ 0x31 ∷ 0x21 ∷ []

-- `u16::try_from(n).unwrap_or(u16::MAX)`
abbrev pub clip : ℕ → ℕ
clip n = if ltb (2 ^ 16 - 1) n then 2 ^ 16 - 1 else n

-- A text with its length in 16 bits; what does not fit is cut off.
unfoldable pub clipped : List ℕ → List ℕ
clipped b = le_bytes 2 (clip (length b)) ++ take (clip (length b)) b

abbrev pub encode_entry : ℕ × List ℕ → List ℕ
encode_entry (idx, s) = le_bytes 4 (idx % 2 ^ 32) ++ clipped s

abbrev pub encode_entries : List (ℕ × List ℕ) → List ℕ
encode_entries [] = []
encode_entries (e ∷ es) = encode_entry e ++ encode_entries es

abbrev pub flag : Bool → ℕ
flag true = 1
flag false = 0

abbrev read_flag : Option ℕ → Result Bool
read_flag (some zero) = ok false
read_flag (some (suc zero)) = ok true
read_flag _ = err Proto.frame

module _ {F : Type 0} (frames : Frames F) where
  -- Keeps the incoming screen if it is newer; version 0 never is.
  abbrev pub apply_newer : Option (Screen F) → Screen F → Option (Screen F)
  apply_newer none incoming = if ltb 0 incoming.version then some incoming else none
  apply_newer (some c) incoming = if ltb c.version incoming.version then some incoming else none

  unfoldable pub encode_raw : Screen F → List ℕ
  encode_raw s =
      screen_magic
      ++ (le_bytes 8 s.version
          ++ (le_bytes 8 s.echo_ack
              ++ (le_bytes 2 (frames.rows s.frame)
                  ++ (le_bytes 2 (frames.cols s.frame)
                      ++ (le_bytes 2 (frames.cursor_row s.frame)
                          ++ (le_bytes 2 (frames.cursor_col s.frame)
                              ++ (le_bytes 2 (frames.mode s.frame)
                                  ++ (clipped (frames.title s.frame)
                                      ++ (le_bytes 4 (length (frames.cells s.frame) % 2 ^ 32)
                                          ++ (frames.cells s.frame
                                              ++ (le_bytes 4
                                                    (length (frames.overflow s.frame) % 2 ^ 32)
                                                  ++ encode_entries
                                                      (frames.overflow s.frame))))))))))))

  unfoldable pub read_entry : ℕ → F → M F
  read_entry cell_n f = do
    idx ← number 4
    refuse_if (leb cell_n idx) Proto.frame
    s ← n
    pure (frames.insert_overflow f idx (from_utf8_lossy s))

  unfoldable pub read_entries : ℕ → ℕ → F → M F
  unfolding read_entry
  read_entries zero cell_n f = pure f
  read_entries (suc k) cell_n f = do next ← read_entry cell_n f; read_entries k cell_n next

  -- The part of the screen behind its sizes.
  unfoldable pub read_body : ℕ → ℕ → ℕ → ℕ → ℕ → M F
  unfolding read_entries
  read_body rows cols cursor_row cursor_col mode = do
    title ← n
    clen ← number 4
    refuse_if (not (clen == rows * cols * frames.cell_size)) Proto.frame
    cells ← bytes clen
    ovf_count ← number 4
    refuse_if (ltb (rows * cols) ovf_count) too_large
    read_entries ovf_count (rows * cols)
        (frames.from_parts rows cols cursor_row cursor_col mode (from_utf8_lossy title) cells)

  -- The part of the screen behind its magic word.
  unfoldable pub read_fields : M (Screen F)
  unfolding read_body
  read_fields = do
    version ← number 8
    echo_ack ← number 8
    rows ← number 2
    cols ← number 2
    cursor_row ← number 2
    cursor_col ← number 2
    mode ← number 2
    refuse_if (ltb frames.max_cell_count (saturating_mul rows cols)) too_large
    refuse_if (ltb max_rows rows || ltb max_cols cols) too_large
    refuse_if (ltb rows cursor_row || ltb cols cursor_col) Proto.frame
    f ← read_body rows cols cursor_row cursor_col mode
    done
    pure (record { version = version; echo_ack = echo_ack; frame = f })

  unfoldable pub read_screen : M (Screen F)
  unfolding read_fields
  read_screen = do word ← bytes 4; refuse_if (not (same word screen_magic)) magic; read_fields

  abbrev pub decode_raw : List ℕ → Result (Screen F)
  decode_raw = run read_screen

  module _ (codec : Lz4) where
    abbrev pub encode_compressed : Screen F → List ℕ
    encode_compressed s = codec.compress_prepend_size (encode_raw s)

    abbrev decode_decompressed : Option (List ℕ) → Result (Screen F)
    decode_decompressed none = err lz4
    decode_decompressed (some raw) =
        if ltb max_screen_raw (length raw) then err too_large else decode_raw raw

    unfoldable pub decode_compressed : List ℕ → Result (Screen F)
    decode_compressed input =
        if ltb (length input) 4
        then err truncated
        else if ltb max_screen_raw (of_le (slice input 0 4))
        then err too_large
        else decode_decompressed (codec.decompress_size_prepended input)

    unfoldable pub encode_shared : SharedScreen F → Result (List ℕ)
    encode_shared s =
        let bytes =
          shared_screen_magic
          ++ (le_bytes 8 s.prediction_epoch
              ++ (flag s.prediction_allowed ∷ encode_compressed s.screen)) in
        if ltb max_frame (length bytes + 1) then err too_large else ok bytes

    abbrev with_context : List ℕ → Result Bool → Result (Screen F) → Result (SharedScreen F)
    with_context input (err e) r = err e
    with_context input (ok allowed) (err e) = err e
    with_context input (ok allowed) (ok s) = ok (record {
      prediction_epoch = of_le (slice input 4 12);
      prediction_allowed = allowed;
      screen = s;
    })

    unfoldable pub decode_shared : List ℕ → Result (SharedScreen F)
    unfolding decode_compressed
    decode_shared input =
        if ltb (length input) 13
        then err truncated
        else if ltb max_frame (length input + 1)
        then err too_large
        else if not (same (take 4 input) shared_screen_magic)
        then err magic
        else with_context input (read_flag (get_elem? input 12)) (decode_compressed (drop 13 input))
