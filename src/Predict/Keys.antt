-- ===== src/Predict/Keys.antt =====
-- What a keystroke does to the predicted cells and cursors, of crates/quosh-predict/src/lib.rs.
-- `none` stands for a panic, of an index out of range or of a cursor that is not there; the parser
-- is the crate vte's and the widths are unicode-width's.
pub mod Press
pub mod Returns
pub mod Fits
pub mod Lines
pub mod Typed
pub mod Culls
pub mod Total
use quosh.Base.{
  ℕ, zero, suc, ◌+◌, ◌-◌, ◌*◌, ◌/◌, ◌%◌, ◌^◌, Bool, true, false, Option, none, some, List, [], ◌∷◌,
  ◌++◌, ltb, ◌==◌, if◌then◌else◌, length, take, replicate, slice,
}
use quosh.Predict.{
  no_frame, new_prediction, expire, byte_at, cell_text, reset_with_orig, active, CellOverlay,
  CursorOverlay, Row, Predictor,
}

-- What the parser calls of `Collector`, with a character as its code point.
pub data Act : Type 0 where
  print execute csi : ℕ → Act
  esc : Act

-- `cell_links` of a frame, `Parser::advance` by one byte, and `UnicodeWidthChar::width`.
pub record Host (F V : Type 0) : Type 0 where
  pub cell_links : F → List ℕ
  pub advance : V → ℕ → V × List Act
  pub char_width : ℕ → Option ℕ

abbrev pub and_then : {A B : Type 0} → Option A → (A → Option B) → Option B
and_then none f = none
and_then (some a) f = f a

-- `v[i]` changed in place
abbrev pub update_at : {A : Type 0} → List A → ℕ → (A → A) → Option (List A)
update_at [] i f = none
update_at (x ∷ xs) zero f = some (f x ∷ xs)
update_at (x ∷ xs) (suc i) f = and_then (update_at xs i f) (λ ys. some (x ∷ ys))

-- `char::encode_utf8`
abbrev pub encode_utf8 : ℕ → List ℕ
encode_utf8 c =
    if ltb c 0x80
    then c ∷ []
    else if ltb c 0x800
    then (0xC0 + c / 64) ∷ (0x80 + c % 64) ∷ []
    else if ltb c 0x10000
    then (0xE0 + c / 4096) ∷ (0x80 + c / 64 % 64) ∷ (0x80 + c % 64) ∷ []
    else (0xF0 + c / 262144) ∷ (0x80 + c / 4096 % 64) ∷ (0x80 + c / 64 % 64) ∷ (0x80 + c % 64) ∷ []

-- The style of `src` with the text of a character.
abbrev pub make_char_cell : ℕ → List ℕ → ℕ → List ℕ
make_char_cell cell_size src ch =
    let s = encode_utf8 ch in
    take 1 src
    ++ ((byte_at src 1 % 2 + length s * 8)
        ∷ (slice src 2 8 ++ (s ++ replicate (cell_size - 8 - length s) 0)))

abbrev pub make_blank_cell : ℕ → List ℕ → List ℕ
make_blank_cell cell_size src =
    take 1 src ++ ((byte_at src 1 % 2) ∷ (slice src 2 8 ++ replicate (cell_size - 8) 0))

abbrev pub cell_is_overflow : List ℕ → Bool
cell_is_overflow cell = byte_at cell 1 / 8 % 8 == 7

-- `get(i).unwrap_or(0)`
abbrev pub link_of : Option ℕ → ℕ
link_of none = 0
link_of (some l) = l

-- `u16` less one, as an optimised build does it.
abbrev pub minus_one : ℕ → ℕ
minus_one n = (n + 65535) % 2 ^ 16

-- The epoch, the input frame and the time of the predictions that one keystroke makes.
pub record Mark : Type 0 where
  pub epoch : ℕ
  pub exp : ℕ
  pub now : ℕ

abbrev pub stamp : Mark → List ℕ → CellOverlay → CellOverlay
stamp m actual c =
    let r = reset_with_orig c in
    record r {
      base =
          expire (record (r.base) { active = true; tentative_until_epoch = m.epoch }) m.exp m.now;
      original_contents = r.original_contents ++ (cell_text actual ∷ []);
    }

-- A cell takes over what its neighbour shows; the last of a line is not known.
abbrev pub take_over : Option (CellOverlay × List ℕ) → CellOverlay → CellOverlay
take_over none c = record c { unknown = true }
take_over (some (n, actual)) c =
    if n.base.active
    then (if n.unknown
        then record c { unknown = true }
        else record c { unknown = false; replacement = n.replacement })
    else record c { unknown = false; replacement = actual }

-- `(0..num_cols).map(..)` from the column `i` on
abbrev pub new_cells : ℕ → ℕ → ℕ → ℕ → List CellOverlay
new_cells cell_size zero i epoch = []
new_cells cell_size (suc k) i epoch =
    record {
      base = new_prediction i epoch;
      replacement = replicate cell_size 0;
      unknown = false;
      original_contents = [];
    }
    ∷ new_cells cell_size k (suc i) epoch

-- `get_or_make_row`, with what its caller does to the row.
abbrev pub with_row :
    List CellOverlay
    → ℕ
    → (List CellOverlay → Option (List CellOverlay))
    → List Row
    → Option (List Row)
with_row fresh n f [] = and_then (f fresh) (λ cs. some (record { row_num = n; cells = cs } ∷ []))
with_row fresh n f (r ∷ rs) =
    let rest = with_row fresh n f rs in
    if r.row_num == n
    then and_then (f r.cells) (λ cs. some (record r { cells = cs } ∷ rs))
    else and_then rest (λ qs. some (r ∷ qs))

-- `cursors.last_mut().unwrap()` changed in place
abbrev pub modify_last :
    (CursorOverlay → CursorOverlay) → List CursorOverlay → Option (List CursorOverlay)
modify_last f [] = none
modify_last f (c ∷ []) = some (f c ∷ [])
modify_last f (c ∷ d ∷ cs) = and_then (modify_last f (d ∷ cs)) (λ ds. some (c ∷ ds))

abbrev pub expired_at : Mark → ℕ → CursorOverlay → CursorOverlay
expired_at m col c = record c { col = col; base = expire c.base m.exp m.now }

module _ {V : Type 0} where
  abbrev pub next_frame : Predictor V → ℕ
  next_frame p = (p.local_frame_sent + 1) % 2 ^ 64

  abbrev pub mark : Predictor V → ℕ → Mark
  mark p now = record { epoch = p.prediction_epoch; exp = next_frame p; now = now }

  abbrev pub cursor_at : Predictor V → ℕ → ℕ → CursorOverlay
  cursor_at p row col = record {
    base = record {
      expiration_frame = next_frame p;
      col = col;
      active = true;
      tentative_until_epoch = p.prediction_epoch;
      prediction_time = no_frame;
    };
    row = row;
    col = col;
  }

  abbrev pub push_cursor : Predictor V → ℕ → ℕ → Predictor V
  push_cursor p row col = record p { cursors = p.cursors ++ (cursor_at p row col ∷ []) }

  abbrev pub move_last : Predictor V → (CursorOverlay → CursorOverlay) → Option (Predictor V)
  move_last p f = and_then (modify_last f p.cursors) (λ cs. some (record p { cursors = cs }))

  abbrev pub on_row :
      Predictor V
      → List CellOverlay
      → ℕ
      → (List CellOverlay → Option (List CellOverlay))
      → Option (Predictor V)
  on_row p fresh n f =
      and_then (with_row fresh n f p.overlays) (λ rs. some (record p { overlays = rs }))
