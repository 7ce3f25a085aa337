-- ===== src/Predict/Keys/Press.antt =====
-- `new_user_byte` of crates/quosh-predict/src/lib.rs, with the keystrokes it tells apart.
use quosh.Base.{
  ℕ, zero, suc, ◌+◌, ◌-◌, ◌*◌, ◌%◌, ◌^◌, min, Bool, true, false, ◌&&◌, ◌||◌, not, Option, none,
  some, List, [], ◌∷◌, ltb, leb, ◌==◌, if◌then◌else◌, get_elem?,
}
use quosh.Predict.{
  expire, cell_bytes, become_tentative, Grids, CellOverlay, CursorOverlay, Predictor,
}
use quosh.Predict.Cull.{last_cursor, is_never, cull}
use quosh.Predict.Keys.{
  and_then, update_at, make_char_cell, make_blank_cell, cell_is_overflow, link_of, minus_one, stamp,
  take_over, new_cells, expired_at, mark, push_cursor, move_last, on_row, Act, Host, Mark, print,
  execute, csi, esc,
}

module _ {F V : Type 0} (grid : Grids F) (host : Host F V) where
  abbrev pub has_link : F → ℕ → ℕ → Bool
  has_link fb row col =
      not (link_of (get_elem? (host.cell_links fb) (row * grid.cols fb + col)) == 0)

  -- `k` columns from `c` on
  abbrev pub any_unsupported : F → ℕ → ℕ → ℕ → Bool
  any_unsupported fb row zero c = false
  any_unsupported fb row (suc k) c =
      cell_is_overflow (cell_bytes grid fb row c)
      || has_link fb row c
      || any_unsupported fb row k (suc c)

  unfoldable pub unsupported_range : F → ℕ → ℕ → ℕ → Bool
  unsupported_range fb row from to =
      if leb (grid.rows fb) row || ltb to from
      then false
      else any_unsupported fb row (suc (min to (grid.cols fb - 1)) - from) from

  abbrev pub any_link : F → ℕ → ℕ → ℕ → Bool
  any_link fb row zero c = false
  any_link fb row (suc k) c = has_link fb row c || any_link fb row k (suc c)

  abbrev pub row_has_link : F → ℕ → Bool
  row_has_link fb row = any_link fb row (grid.cols fb) 0

  abbrev pub init_from : Predictor V → F → Option CursorOverlay → Predictor V
  init_from p fb none = push_cursor p (grid.cursor_row fb) (grid.cursor_col fb)
  init_from p fb (some c) =
      if c.base.tentative_until_epoch == p.prediction_epoch then p else push_cursor p c.row c.col

  unfoldable pub init_cursor : Predictor V → F → Predictor V
  init_cursor p fb = init_from p fb (last_cursor p.cursors)

  abbrev pub fresh_row : F → ℕ → List CellOverlay
  fresh_row fb epoch = new_cells grid.cell_size (grid.cols fb) 0 epoch

  -- The cell beside `i`, read before `i` changes.
  abbrev pub neighbour :
      F → ℕ → ℕ → Bool → List CellOverlay → Option (Option (CellOverlay × List ℕ))
  neighbour fb row i true cells =
      and_then (get_elem? cells i) (λ n. some (some (n, cell_bytes grid fb row i)))
  neighbour fb row i false cells = some none

  unfoldable pub shift_cell :
      F
      → ℕ
      → Mark
      → ℕ
      → Option (Option (CellOverlay × List ℕ))
      → List CellOverlay
      → Option (List CellOverlay)
  shift_cell fb row m i beside cells =
      and_then beside
        (λ n. update_at cells i (λ c. take_over n (stamp m (cell_bytes grid fb row i) c)))

  -- The loop of `backspace`: `k` columns from `i` on.
  abbrev pub shift_left : F → ℕ → Mark → ℕ → ℕ → List CellOverlay → Option (List CellOverlay)
  shift_left fb row m zero i cells = some cells
  shift_left fb row m (suc k) i cells =
      let beside = neighbour fb row (i + 1) (ltb ((i + 2) % 2 ^ 16) (grid.cols fb)) cells in
      and_then (shift_cell fb row m i beside cells) (shift_left fb row m k (suc i))

  -- The loop of `predict_char`: `k` columns down from `i`.
  abbrev pub shift_right : F → ℕ → Mark → ℕ → ℕ → List CellOverlay → Option (List CellOverlay)
  shift_right fb row m zero i cells = some cells
  shift_right fb row m (suc k) i cells =
      let beside = neighbour fb row (i - 1) (not (i == grid.cols fb - 1)) cells in
      and_then (shift_cell fb row m i beside cells) (shift_right fb row m k (i - 1))

  -- `backspace` with `predict_overwrite`: the cell becomes blank.
  unfoldable pub erase : F → ℕ → Mark → ℕ → List CellOverlay → Option (List CellOverlay)
  erase fb row m col cells =
      let actual = cell_bytes grid fb row col in
      update_at cells col
        (λ c. record (stamp m actual c) { replacement = make_blank_cell grid.cell_size actual })

  unfoldable pub backspace_from : Predictor V → F → ℕ → CursorOverlay → Option (Predictor V)
  backspace_from p fb now c =
      let width = grid.cols fb in
      let col = c.col - 1 in
      let m = mark p now in
      let to = if p.predict_overwrite then col else minus_one width in
      if c.col == 0
      then some p
      else if unsupported_range fb c.row col to
      then some (become_tentative p)
      else and_then (move_last p (expired_at m col)) (λ q.
        on_row q (fresh_row fb p.prediction_epoch) c.row (
          if p.predict_overwrite
          then erase fb c.row m col
          else shift_left fb c.row m (width - col) col))

  unfoldable pub backspace : Predictor V → F → ℕ → Option (Predictor V)
  backspace p fb now = and_then (last_cursor p.cursors) (backspace_from p fb now)

  abbrev pub blank_cells : Mark → List CellOverlay → List CellOverlay
  blank_cells m [] = []
  blank_cells m (c ∷ cs) =
      record c {
        base =
            expire (record (c.base) { active = true; tentative_until_epoch = m.epoch }) m.exp m.now;
        replacement = make_blank_cell grid.cell_size c.replacement;
      }
      ∷ blank_cells m cs

  unfoldable pub newline_from : Predictor V → F → ℕ → CursorOverlay → Option (Predictor V)
  newline_from p fb now c =
      if c.row == minus_one (grid.rows fb)
      then and_then (move_last p (λ d. record d { col = 0 })) (λ q.
        if row_has_link fb c.row
        then some (become_tentative q)
        else on_row q (fresh_row fb p.prediction_epoch) c.row
            (λ cs. some (blank_cells (mark p now) cs)))
      else move_last p (λ d. record d { col = 0; row = (d.row + 1) % 2 ^ 16 })

  unfoldable pub newline_carriage_return : Predictor V → F → ℕ → Option (Predictor V)
  newline_carriage_return p fb now =
      let q = init_cursor p fb in and_then (last_cursor q.cursors) (newline_from q fb now)

  -- The style that a new character takes: that of the cell to the left, as it is predicted.
  unfoldable pub style_at : F → ℕ → ℕ → List CellOverlay → Option (List ℕ)
  style_at fb row zero cells = some (cell_bytes grid fb row 0)
  style_at fb row (suc col) cells = and_then (get_elem? cells col) (λ prev. some (
      if prev.base.active && not prev.unknown
      then prev.replacement
      else cell_bytes grid fb row col))

  unfoldable pub put_char : F → ℕ → Mark → ℕ → ℕ → List CellOverlay → Option (List CellOverlay)
  put_char fb row m col ch cells = and_then (style_at fb row col cells) (λ style.
      update_at cells col (λ c. record (stamp m (cell_bytes grid fb row col) c) {
        replacement = make_char_cell grid.cell_size style ch;
      }))

  -- The rest of `predict_char`, with `tentative` for whether it is in the last column.
  unfoldable pub place_char : Predictor V → F → ℕ → CursorOverlay → ℕ → ℕ → Option (Predictor V)
  place_char p fb now c ch rightmost =
      let at_last_col = leb (grid.cols fb) (c.col + 1) in
      let q = if at_last_col then become_tentative p else p in
      let m = mark q now in
      and_then
        (on_row q (fresh_row fb p.prediction_epoch) c.row (λ cs.
          and_then (shift_right fb c.row m (rightmost - c.col) rightmost cs)
            (put_char fb c.row m c.col ch)))
        (λ r.
          if ltb c.col (grid.cols fb - 1)
          then move_last r (expired_at m (c.col + 1))
          else and_then (move_last r (expired_at m c.col))
              (λ s. newline_carriage_return (become_tentative s) fb now))

  unfoldable pub predict_from : Predictor V → F → ℕ → ℕ → CursorOverlay → Option (Predictor V)
  predict_from p fb now ch c =
      let rightmost = if p.predict_overwrite then c.col else grid.cols fb - 1 in
      if leb (grid.rows fb) c.row || leb (grid.cols fb) c.col
      then some p
      else if unsupported_range fb c.row c.col rightmost
      then some (become_tentative p)
      else place_char p fb now c ch rightmost

  unfoldable pub predict_char : Predictor V → F → ℕ → ℕ → Option (Predictor V)
  predict_char p fb now ch = and_then (last_cursor p.cursors) (predict_from p fb now ch)

  abbrev pub is_narrow : Option ℕ → Bool
  is_narrow none = false
  is_narrow (some w) = w == 1

  unfoldable pub handle_print : Predictor V → F → ℕ → ℕ → Option (Predictor V)
  handle_print p fb now ch =
      let q = init_cursor p fb in
      if ch == 0x7F
      then backspace q fb now
      else if ltb ch 0x20 || not (is_narrow (host.char_width ch))
      then some (become_tentative q)
      else predict_char q fb now ch

  abbrev pub step_right : Predictor V → F → ℕ → CursorOverlay → Option (Predictor V)
  step_right p fb now c =
      if ltb c.col (grid.cols fb - 1)
      then move_last p (expired_at (mark p now) (c.col + 1))
      else some p

  abbrev pub step_left : Predictor V → ℕ → CursorOverlay → Option (Predictor V)
  step_left p now c =
      if ltb 0 c.col then move_last p (expired_at (mark p now) (c.col - 1)) else some p

  -- Carriage return, and the arrows: `C` goes right and `D` left.
  unfoldable pub on_act : Predictor V → F → ℕ → Act → Option (Predictor V)
  on_act p fb now (print ch) = handle_print p fb now ch
  on_act p fb now (execute b) =
      if b == 0x0D
      then newline_carriage_return (become_tentative p) fb now
      else some (become_tentative p)
  on_act p fb now (csi a) =
      let q = init_cursor p fb in
      if a == 67
      then and_then (last_cursor q.cursors) (step_right q fb now)
      else if a == 68
      then and_then (last_cursor q.cursors) (step_left q now)
      else some (become_tentative p)
  on_act p fb now esc = some (become_tentative p)

  abbrev pub on_acts : List Act → F → ℕ → Predictor V → Option (Predictor V)
  on_acts [] fb now p = some p
  on_acts (a ∷ acts) fb now p = and_then (on_act p fb now a) (on_acts acts fb now)

  unfoldable pub on_byte : Predictor V → F → ℕ → ℕ → Option (Predictor V)
  on_byte p fb now byte =
      let b = if (p.last_byte == 0x1B) && (byte == 79) then 91 else byte in
      let fed = host.advance p.parser b in
      if b == 0x7F
      then handle_print (record p { last_byte = b }) fb now 0x7F
      else on_acts fed.1 fb now (record p { last_byte = b; parser = fed.0 })

  unfoldable pub new_user_byte : Predictor V → ℕ → F → ℕ → Option (Predictor V)
  new_user_byte p byte fb now =
      if is_never p.display_preference then some p else on_byte (cull grid p fb now) fb now byte
