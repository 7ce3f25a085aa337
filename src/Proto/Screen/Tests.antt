-- ===== src/Proto/Screen/Tests.antt =====
-- A grid with one byte in each cell, and a codec that stores.
use quosh.Base.{ℕ, ◌%◌, ◌^◌, ◌≡◌, refl, true, none, some, List, [], ◌∷◌, ◌++◌, arith, length, drop}
use quosh.Bytes.{le_bytes}
use quosh.Proto.{frame, err, ok}
use quosh.Proto.Utf8.{from_utf8_lossy, is_utf8}
use quosh.Proto.Reader.{bytes, n, done, number}
use quosh.Proto.Screen.{
  clipped, apply_newer, encode_raw, read_entry, read_entries, read_body, read_fields, read_screen,
  decode_raw, encode_compressed, decode_compressed, encode_shared, decode_shared, Frames, Lz4,
  Screen, SharedScreen,
}
use quosh.Proto.Screen.RoundTrip.{IsScreen}
use quosh.Proto.Screen.Compressed.{screens-Arrive, IsLz4}

pub record Grid : Type 0 where
  pub rows : ℕ
  pub cols : ℕ
  pub cursor_row : ℕ
  pub cursor_col : ℕ
  pub mode : ℕ
  pub title : List ℕ
  pub cells : List ℕ
  pub overflow : List (ℕ × List ℕ)

abbrev pub grids : Frames Grid
grids = record {
  max_cell_count = 65536;
  cell_size = 1;
  from_parts = λ r c cr cc m t d. record {
    rows = r;
    cols = c;
    cursor_row = cr;
    cursor_col = cc;
    mode = m;
    title = t;
    cells = d;
    overflow = [];
  };
  rows = λ g. g.rows;
  cols = λ g. g.cols;
  cursor_row = λ g. g.cursor_row;
  cursor_col = λ g. g.cursor_col;
  mode = λ g. g.mode;
  title = λ g. g.title;
  cells = λ g. g.cells;
  overflow = λ g. g.overflow;
  insert_overflow = λ g i s. record g { overflow = g.overflow ++ ((i, s) ∷ []) };
}

abbrev pub stored : Lz4
stored = record {
  compress_prepend_size = λ raw. le_bytes 4 (length raw % 2 ^ 32) ++ raw;
  decompress_size_prepended = λ b. some (drop 4 b);
}

stored-IsLz4 : IsLz4 stored
stored-IsLz4 = record { prefixed = λ raw. (raw, refl); inverse = λ raw h. refl }

-- Two rows and two columns with the title "sh", and a text in the last cell.
abbrev pub small_grid : Grid
small_grid = record {
  rows = 2;
  cols = 2;
  cursor_row = 1;
  cursor_col = 0;
  mode = 1;
  title = 115 ∷ 104 ∷ [];
  cells = 1 ∷ 2 ∷ 3 ∷ 4 ∷ [];
  overflow = (3, 0xC3 ∷ 0xA9 ∷ []) ∷ [];
}

abbrev small_screen : Screen Grid
small_screen = record { version = 5; echo_ack = 2; frame = small_grid }

abbrev shared : SharedScreen Grid
shared = record { prediction_epoch = 1; prediction_allowed = true; screen = small_screen }

small_screen-IsScreen : IsScreen grids small_screen
unfolding is_utf8
small_screen-IsScreen = record {
  version = omega arith;
  echo_ack = omega arith;
  rows = omega arith;
  cols = omega arith;
  count = omega arith;
  cursor_row = omega arith;
  cursor_col = omega arith;
  mode = omega arith;
  title = omega arith;
  title_text = refl;
  cells = refl;
  cells_fit = omega arith;
  overflow = omega arith;
  entries = ((omega arith, omega arith, omega arith, refl), tt);
}

screens-Arrive_example :
    (decode_compressed grids stored (encode_compressed grids stored small_screen) ≡ ok small_screen)
    × ((bytes : List ℕ) × (encode_shared grids stored shared ≡ ok bytes)
        × (decode_shared grids stored bytes ≡ ok shared))
unfolding encode_raw clipped
screens-Arrive_example =
    screens-Arrive grids stored stored-IsLz4 shared (omega arith) small_screen-IsScreen
      (omega arith) (omega arith)

-- A version 0 and an older version are not applied.
test_apply_newer :
    (apply_newer grids none (record small_screen { version = 0 }) ≡ none)
    × (apply_newer grids (some small_screen) small_screen ≡ none)
test_apply_newer = (refl, refl)

-- A cursor outside the grid is refused, and so is a byte too many.
test_refused :
    (decode_raw grids
        (encode_raw grids (record small_screen { frame = record small_grid { cursor_row = 3 } }))
      ≡ err frame)
    × (decode_raw grids (encode_raw grids small_screen ++ (0 ∷ [])) ≡ err frame)
unfolding encode_raw clipped read_screen read_fields read_body read_entries read_entry bytes n done
    number from_utf8_lossy
test_refused = (refl, refl)
