-- ===== src/Predict/Tests.antt =====
-- A predictor on a grid of two cells, each of twelve bytes, and the keystrokes of a plain parser.
use quosh.Predict.{
  new_predictor, cell_text, try_cell_bytes, cell_bytes, set_cell, overlay_cell, apply_cell,
  apply_cursor, apply, Grids, Prediction, CellOverlay, Predictor,
}
use quosh.Predict.Hidden.{apply-Unconfirmed}
use quosh.Predict.Keys.{Host, print}
use quosh.Predict.Keys.Press.{
  unsupported_range, init_cursor, shift_cell, newline_from, newline_carriage_return, style_at,
  put_char, place_char, predict_from, predict_char, handle_print, on_act, on_byte,
}
use quosh.Predict.Keys.Fits.{Fits}
use quosh.Predict.Keys.Returns.{Returns}
use quosh.Base.{
  ℕ, ◌≡◌, refl, inr, true, false, Option, none, some, List, [], ◌∷◌, map, arith, replicate,
}

record Pair : Type 0 where
  bytes : List ℕ
  row : ℕ
  col : ℕ

abbrev pairs : Grids Pair
pairs = record {
  cell_size = 12;
  rows = λ g. 1;
  cols = λ g. 2;
  cursor_row = λ g. g.row;
  cursor_col = λ g. g.col;
  cell_content = λ g r c. 32 ∷ [];
  cells = λ g. g.bytes;
  with_cells = λ g b. record g { bytes = b };
  remove_overflow = λ g i. g;
  set_cursor = λ g r c. record g { row = r; col = c };
}

abbrev blank_pair : Pair
blank_pair = record { bytes = replicate 24 0; row = 0; col = 0 }

-- A cell with the letter "l" that waits for the epoch one, and the cursor behind it.
abbrev typed_base : Prediction
typed_base = record {
  expiration_frame = 3;
  col = 0;
  active = true;
  tentative_until_epoch = 1;
  prediction_time = 10;
}

abbrev typed_cell : CellOverlay
typed_cell = record {
  base = typed_base;
  replacement = 0 ∷ 8 ∷ 0 ∷ 0 ∷ 0 ∷ 0 ∷ 0 ∷ 0 ∷ 108 ∷ 0 ∷ 0 ∷ 0 ∷ [];
  unknown = false;
  original_contents = [];
}

abbrev typing : Predictor (Unit {0})
typing = record (new_predictor tt) {
  overlays = record { row_num = 0; cells = typed_cell ∷ [] } ∷ [];
  cursors = record { base = typed_base; row = 0; col = 1 } ∷ [];
  last_height = 1;
  last_width = 2;
  srtt_trigger = true;
}

-- It is shown as soon as its epoch is confirmed, and not before.
test_shown :
    (apply pairs typing blank_pair ≡ blank_pair)
    × ((apply pairs (record typing { confirmed_epoch = 1 }) blank_pair).col ≡ 1)
unfolding apply apply_cursor apply_cell overlay_cell try_cell_bytes cell_bytes set_cell cell_text
test_shown = (refl, refl)

apply-Unconfirmed_example : apply pairs typing blank_pair ≡ blank_pair
apply-Unconfirmed_example =
    apply-Unconfirmed pairs typing blank_pair
      (record { cursors = (inr (omega arith), tt); overlays = ((inr (omega arith), tt), tt) })

abbrev bare_cell : CellOverlay
bare_cell = record typed_cell { replacement = replicate 12 0 }

-- The same with the whole line predicted.
abbrev typed_line : Predictor (Unit {0})
typed_line = record typing {
  overlays = record { row_num = 0; cells = typed_cell ∷ bare_cell ∷ [] } ∷ [];
}

-- A parser for which every byte is a character to print, and characters of width one.
abbrev plain_host : Host Pair (Unit {0})
plain_host = record {
  cell_links = λ f. [];
  advance = λ v b. (v, print b ∷ []);
  char_width = λ c. some 1;
}

abbrev where_to : Option (Predictor (Unit {0})) → List (ℕ × ℕ)
where_to none = []
where_to (some p) = map (λ c. (c.row, c.col)) p.cursors

-- A first "a" moves the cursor one column on; a second one wraps.
test_typed :
    (where_to (on_byte pairs plain_host (new_predictor tt) blank_pair 60 97) ≡ (0, 1) ∷ [])
    × (where_to (on_byte pairs plain_host typed_line blank_pair 60 97) ≡ (0, 1) ∷ (0, 0) ∷ [])
unfolding on_byte on_act handle_print init_cursor predict_char predict_from unsupported_range
    place_char shift_cell put_char style_at newline_carriage_return newline_from try_cell_bytes
    cell_bytes cell_text
test_typed = (refl, refl)
