-- ===== src/Predict.antt =====
-- What `Predictor` of crates/quosh-predict/src/lib.rs shows: its predictions, when they hold against
-- a confirmed frame, and how they are laid over a copy of it.
pub mod Hidden
pub mod Cull
pub mod Keys
mod Tests
use quosh.Base.{
  ℕ, zero, suc, ◌+◌, ◌-◌, ◌*◌, ◌/◌, ◌%◌, ◌^◌, Bool, true, false, ◌&&◌, ◌||◌, not, Option, none,
  some, List, [], ◌∷◌, ◌++◌, ltb, leb, ◌==◌, if◌then◌else◌, length, take, drop, replicate, slice,
}
use quosh.Proto.Utf8.{from_utf8_lossy}
use quosh.Devices.Search.{same}
use quosh.Client.Interfaces.{DisplayPreference, adaptive, always, never}

-- `FrameState` and `CELL_SIZE` of blit_remote, as the overlays use them.
pub record Grids (F : Type 0) : Type 0 where
  pub cell_size : ℕ
  pub rows : F → ℕ
  pub cols : F → ℕ
  pub cursor_row : F → ℕ
  pub cursor_col : F → ℕ
  pub cell_content : F → ℕ → ℕ → List ℕ
  pub cells : F → List ℕ
  pub with_cells : F → List ℕ → F
  pub remove_overflow : F → ℕ → F
  pub set_cursor : F → ℕ → ℕ → F

pub data Validity : Type 0 where
  pending correct correct_no_credit incorrect_or_expired inactive : Validity

-- `u64::MAX` stands for no frame and no time.
abbrev pub no_frame : ℕ
no_frame = 2 ^ 64 - 1

pub record Prediction : Type 0 where
  pub expiration_frame : ℕ
  pub col : ℕ
  pub active : Bool
  pub tentative_until_epoch : ℕ
  pub prediction_time : ℕ

abbrev pub new_prediction : ℕ → ℕ → Prediction
new_prediction col tentative = record {
  expiration_frame = 0;
  col = col;
  active = false;
  tentative_until_epoch = tentative;
  prediction_time = no_frame;
}

abbrev pub is_tentative : Prediction → ℕ → Bool
is_tentative b confirmed_epoch = ltb confirmed_epoch b.tentative_until_epoch

abbrev pub cleared : Prediction → Prediction
cleared b = record b {
  expiration_frame = no_frame;
  tentative_until_epoch = no_frame;
  active = false;
  prediction_time = no_frame;
}

abbrev pub expire : Prediction → ℕ → ℕ → Prediction
expire b expiration_frame now = record b {
  expiration_frame = expiration_frame;
  prediction_time = now;
}

pub record CellOverlay : Type 0 where
  pub base : Prediction
  pub replacement : List ℕ
  pub unknown : Bool
  pub original_contents : List (List ℕ)

pub record CursorOverlay : Type 0 where
  pub base : Prediction
  pub row : ℕ
  pub col : ℕ

pub record Row : Type 0 where
  pub row_num : ℕ
  pub cells : List CellOverlay

pub record Predictor (V : Type 0) : Type 0 where
  pub last_byte : ℕ
  pub parser : V
  pub overlays : List Row
  pub cursors : List CursorOverlay
  pub local_frame_sent : ℕ
  pub local_frame_acked : ℕ
  pub local_frame_late_acked : ℕ
  pub prediction_epoch : ℕ
  pub confirmed_epoch : ℕ
  pub flagging : Bool
  pub srtt_trigger : Bool
  pub glitch_trigger : ℕ
  pub last_quick_confirmation : ℕ
  pub send_interval : ℕ
  pub last_height : ℕ
  pub last_width : ℕ
  pub display_preference : DisplayPreference
  pub predict_overwrite : Bool

-- `Predictor::new()`; `parser` is a new parser of the crate vte.
abbrev pub new_predictor : {V : Type 0} → V → Predictor V
new_predictor parser = record {
  last_byte = 0;
  parser = parser;
  overlays = [];
  cursors = [];
  local_frame_sent = 0;
  local_frame_acked = 0;
  local_frame_late_acked = 0;
  prediction_epoch = 1;
  confirmed_epoch = 0;
  flagging = false;
  srtt_trigger = false;
  glitch_trigger = 0;
  last_quick_confirmation = 0;
  send_interval = 250;
  last_height = 0;
  last_width = 0;
  display_preference = adaptive;
  predict_overwrite = false;
}

-- The byte at `i`; a cell has at least nine.
abbrev pub byte_at : List ℕ → ℕ → ℕ
byte_at [] i = 0
byte_at (b ∷ bs) zero = b
byte_at (b ∷ bs) (suc i) = byte_at bs i

-- The text of a cell: none in the second half of a wide one or where it is held elsewhere.
unfoldable pub cell_text : List ℕ → List ℕ
cell_text cell =
    let f1 = byte_at cell 1 in
    let len = f1 / 8 % 8 in
    if not (f1 / 4 % 2 == 0)
    then []
    else if len == 0
    then 32 ∷ []
    else if ltb 4 len
    then []
    else from_utf8_lossy (slice cell 8 (8 + len))

-- Nothing, a space, or the two bytes of a space that does not break.
abbrev pub is_blank : List ℕ → Bool
is_blank s = length s == 0 || same s (32 ∷ []) || same s (0xC2 ∷ 0xA0 ∷ [])

abbrev pub contents_match : List ℕ → List ℕ → Bool
contents_match a b = (is_blank a && is_blank b) || same a b

abbrev pub any_match : List (List ℕ) → List ℕ → Bool
any_match [] s = false
any_match (o ∷ os) s = contents_match o s || any_match os s

abbrev pub reset_cell : CellOverlay → CellOverlay
reset_cell c = record c { unknown = false; original_contents = []; base = cleared c.base }

abbrev pub reset_with_orig : CellOverlay → CellOverlay
reset_with_orig c = if not c.base.active || c.unknown then reset_cell c else record c {
  original_contents = c.original_contents ++ (cell_text c.replacement ∷ []);
  base = cleared c.base;
}

abbrev pub splice : List ℕ → ℕ → List ℕ → List ℕ
splice cells i cell = take i cells ++ (cell ++ drop (i + length cell) cells)

abbrev pub bytes_or_none : Option (List ℕ) → List ℕ
bytes_or_none none = []
bytes_or_none (some bs) = bs

module _ {F : Type 0} (grid : Grids F) where
  abbrev pub index : ℕ → ℕ → ℕ → ℕ
  index cols row col = (row * cols + col) * grid.cell_size

  abbrev pub inside : F → ℕ → ℕ → Bool
  inside fb row col = ltb row (grid.rows fb) && ltb col (grid.cols fb)

  -- `none` is the panic of a range that leaves the bytes of the frame.
  unfoldable pub try_cell_bytes : F → ℕ → ℕ → Option (List ℕ)
  try_cell_bytes fb row col =
      let i = index (grid.cols fb) row col in
      if not (inside fb row col)
      then some (replicate grid.cell_size 0)
      else if leb (i + grid.cell_size) (length (grid.cells fb))
      then some (slice (grid.cells fb) i (i + grid.cell_size))
      else none

  -- The same for the callers: no byte where it panics.
  unfoldable pub cell_bytes : F → ℕ → ℕ → List ℕ
  cell_bytes fb row col = bytes_or_none (try_cell_bytes fb row col)

  unfoldable pub set_cell : F → ℕ → ℕ → List ℕ → F
  set_cell fb row col cell =
      grid.remove_overflow
        (grid.with_cells fb (splice (grid.cells fb) (index (grid.cols fb) row col) cell))
        (row * grid.cols fb + col)

  -- The highest bit of the first byte.
  unfoldable pub set_underline : F → ℕ → ℕ → F
  set_underline fb row col =
      let i = index (grid.cols fb) row col in
      let b = byte_at (grid.cells fb) i in
      grid.with_cells fb (splice (grid.cells fb) i ((if leb 128 b then b else b + 128) ∷ []))

  unfoldable pub cell_validity : CellOverlay → F → ℕ → ℕ → Validity
  cell_validity c fb row late_ack =
      let replacement = cell_text c.replacement in
      if not c.base.active
      then inactive
      else if not (inside fb row c.base.col)
      then incorrect_or_expired
      else if ltb late_ack c.base.expiration_frame
      then pending
      else if c.unknown
      then correct_no_credit
      else if is_blank replacement
      then correct_no_credit
      else if contents_match (grid.cell_content fb row c.base.col) replacement
      then (if any_match c.original_contents replacement then correct_no_credit else correct)
      else incorrect_or_expired

  unfoldable pub cursor_validity : CursorOverlay → F → ℕ → Validity
  cursor_validity c fb late_ack =
      if not c.base.active
      then inactive
      else if not (inside fb c.row c.col)
      then incorrect_or_expired
      else if leb c.base.expiration_frame late_ack
      then (if (grid.cursor_col fb == c.col) && (grid.cursor_row fb == c.row)
          then correct
          else incorrect_or_expired)
      else pending

  -- The cell is laid over the frame, underlined if `flag` says so.
  unfoldable pub overlay_cell : CellOverlay → F → ℕ → Bool → F
  overlay_cell c fb row flag =
      if c.unknown
      then (if flag && not (c.base.col == grid.cols fb - 1)
          then set_underline fb row c.base.col
          else fb)
      else if same (cell_bytes fb row c.base.col) c.replacement
      then fb
      else if flag
      then set_underline (set_cell fb row c.base.col c.replacement) row c.base.col
      else set_cell fb row c.base.col c.replacement

  unfoldable pub apply_cell : CellOverlay → F → ℕ → ℕ → Bool → F
  apply_cell c fb confirmed_epoch row flag =
      let blank =
        is_blank (cell_text c.replacement) && is_blank (grid.cell_content fb row c.base.col) in
      if not c.base.active || not (inside fb row c.base.col)
      then fb
      else if is_tentative c.base confirmed_epoch
      then fb
      else overlay_cell c fb row (flag && not blank)

  unfoldable pub apply_cursor : CursorOverlay → F → ℕ → F
  apply_cursor c fb confirmed_epoch =
      if not c.base.active || is_tentative c.base confirmed_epoch
      then fb
      else if inside fb c.row c.col
      then grid.set_cursor fb c.row c.col
      else fb

  abbrev pub apply_cursors : List CursorOverlay → F → ℕ → F
  apply_cursors [] fb e = fb
  apply_cursors (c ∷ cs) fb e = apply_cursors cs (apply_cursor c fb e) e

  abbrev pub apply_cells : List CellOverlay → F → ℕ → ℕ → Bool → F
  apply_cells [] fb e row flag = fb
  apply_cells (c ∷ cs) fb e row flag = apply_cells cs (apply_cell c fb e row flag) e row flag

  abbrev pub apply_rows : List Row → F → ℕ → Bool → F
  apply_rows [] fb e flag = fb
  apply_rows (r ∷ rs) fb e flag = apply_rows rs (apply_cells r.cells fb e r.row_num flag) e flag

  module _ {V : Type 0} where
    -- Whether the link is slow enough, or the user asked for it always.
    abbrev pub displays : Predictor V → DisplayPreference → Bool
    displays p never = false
    displays p always = true
    displays p adaptive = p.srtt_trigger || ltb 0 p.glitch_trigger

    unfoldable pub apply : Predictor V → F → F
    apply p frame =
        if displays p p.display_preference
        then apply_rows p.overlays (apply_cursors p.cursors frame p.confirmed_epoch)
            p.confirmed_epoch p.flagging
        else frame

abbrev pub any_active : List CellOverlay → Bool
any_active [] = false
any_active (c ∷ cs) = c.base.active || any_active cs

abbrev pub any_row_active : List Row → Bool
any_row_active [] = false
any_row_active (r ∷ rs) = any_active r.cells || any_row_active rs

abbrev pub has_cursors : List CursorOverlay → Bool
has_cursors [] = false
has_cursors (c ∷ cs) = true

module _ {V : Type 0} where
  abbrev pub become_tentative : Predictor V → Predictor V
  become_tentative p = record p { prediction_epoch = (p.prediction_epoch + 1) % 2 ^ 64 }

  abbrev pub reset : Predictor V → Predictor V
  reset p = become_tentative (record p { cursors = []; overlays = [] })

  abbrev pub active : Predictor V → Bool
  active p = has_cursors p.cursors || any_row_active p.overlays
