-- ===== src/Predict/Keys/Fits.antt =====
-- Predictions of crates/quosh-predict/src/lib.rs that fit a frame, and the parts of a keystroke that
-- keep them so.
use native.Mathlib.Nat.{mul-le-mul_right}
use mathlib.Core.Path.{subst}
use quosh.Base.{
  ℕ, suc, ◌+◌, ◌*◌, ◌≤◌, ◌<◌, ◌≡◌, refl, inl, inr, ◌&&◌, Option, some, List, [], ◌∷◌, arith, ltb,
  ◌==◌, le→leb, Bool-cases, Option-cases, length, All,
}
use quosh.Predict.{index, try_cell_bytes, cell_bytes, Grids, CellOverlay, CursorOverlay, Predictor}
use quosh.Predict.Cull.{last_cursor}
use quosh.Predict.Keys.{with_row, modify_last, cursor_at, push_cursor, move_last, on_row, Host}
use quosh.Predict.Keys.Press.{init_cursor, fresh_row}
use quosh.Predict.Keys.Returns.{
  Returns, and_then-Returns, Wide, WideRow, new_cells-Wide, with_row-Returns, Led, some_inj,
  modify_last-Returns, last_cursor-append, All-append,
}

All-last_cursor :
    (P : CursorOverlay → Type 0) (cs : List CursorOverlay) (c : CursorOverlay)
    → All P cs
    → last_cursor cs ≡ some c
    → P c
All-last_cursor P [] c a e = absurd (ground arith)
All-last_cursor P (d ∷ []) c a e = subst (λ x. P x) (some_inj e) a.0
All-last_cursor P (d ∷ b ∷ cs) c a e = All-last_cursor P (b ∷ cs) c a.1 e

module _ {F : Type 0} (grid : Grids F) where
  abbrev pub Within : F → CursorOverlay → Type 0
  Within fb c = (c.row < grid.rows fb) × (c.col < grid.cols fb)

  -- A frame as blit_remote makes it: as many bytes as its cells have, dimensions below the last
  -- `u16`, and the cursor inside.
  pub record Sound (fb : F) : Type 0 where
    pub whole : length (grid.cells fb) ≡ grid.rows fb * grid.cols fb * grid.cell_size
    pub rows_small : grid.rows fb < 65535
    pub cols_small : grid.cols fb < 65535
    pub row_within : grid.cursor_row fb < grid.rows fb
    pub col_within : grid.cursor_col fb < grid.cols fb

  -- No read of a cell of the frame leaves its bytes.
  abbrev pub Readable : F → Type 0
  Readable fb = (row col : ℕ) → try_cell_bytes grid fb row col ≡ some (cell_bytes grid fb row col)

  cell_end :
      (fb : F) (row col : ℕ)
      → Sound fb
      → row < grid.rows fb
      → col < grid.cols fb
      → index grid (grid.cols fb) row col + grid.cell_size ≤ length (grid.cells fb)
  cell_end fb row col s r c =
      let a : suc row * grid.cols fb ≤ grid.rows fb * grid.cols fb =
        mul-le-mul_right (grid.cols fb) r in
      let b : suc (row * grid.cols fb + col) ≤ grid.rows fb * grid.cols fb = omega (arith, a, c) in
      let d : suc (row * grid.cols fb + col) * grid.cell_size
          ≤ grid.rows fb * grid.cols fb * grid.cell_size =
        mul-le-mul_right grid.cell_size b in
      omega (arith, d, s.whole)

  pub Sound-Readable : (fb : F) → Sound fb → Readable fb
  unfolding try_cell_bytes cell_bytes
  Sound-Readable fb s row col =
      elim (Bool-cases (ltb row (grid.rows fb) && ltb col (grid.cols fb))) [
        | inr f ↦ rw f refl
        | inl t ↦
            let r : row < grid.rows fb = ground arith in
            let c : col < grid.cols fb = ground arith in
            rw
              (
                t,
                le→leb (index grid (grid.cols fb) row col + grid.cell_size) (length (grid.cells fb))
                    (cell_end fb row col s r c),
              )
              refl
      ]

module _ {F V : Type 0} (grid : Grids F) where
  -- Every row is as wide as the frame, and every predicted cursor stands in the frame.
  pub record Fits (fb : F) (p : Predictor V) : Type 0 where
    pub wide : All (WideRow (grid.cols fb)) p.overlays
    pub within : All (Within grid fb) p.cursors

  -- `Fits`, with the last cursor known.
  abbrev pub FitsAt : F → CursorOverlay → Predictor V → Type 0
  FitsAt fb c p = All (WideRow (grid.cols fb)) p.overlays × Led (Within grid fb) c p.cursors

  abbrev pub Ready : F → Predictor V → Type 0
  Ready fb p = (c : CursorOverlay) × FitsAt fb c p

  pub FitsAt-Fits : (fb : F) (c : CursorOverlay) (p : Predictor V) → FitsAt fb c p → Fits fb p
  FitsAt-Fits fb c p h = record { wide = h.0; within = h.1.0 }

  pub FitsAt-Within :
      (fb : F) (c : CursorOverlay) (p : Predictor V) → FitsAt fb c p → Within grid fb c
  FitsAt-Within fb c p h = All-last_cursor (Within grid fb) p.cursors c h.1.0 h.1.1

  push_cursor-Ready :
      (fb : F) (p : Predictor V) (row col : ℕ)
      → Fits fb p
      → row < grid.rows fb
      → col < grid.cols fb
      → Ready fb (push_cursor p row col)
  push_cursor-Ready fb p row col h r c = (
    cursor_at p row col,
    (
      h.wide,
      (
        All-append (Within grid fb) p.cursors (cursor_at p row col ∷ []) h.within ((r, c), tt),
        last_cursor-append p.cursors (cursor_at p row col),
      ),
    ),
  )

  pub move_last-Returns :
      (fb : F) (p : Predictor V) (c : CursorOverlay) (f : CursorOverlay → CursorOverlay)
      → FitsAt fb c p
      → Within grid fb (f c)
      → Returns (FitsAt fb (f c)) (move_last p f)
  move_last-Returns fb p c f h w =
      and_then-Returns (Led (Within grid fb) (f c)) (FitsAt fb (f c)) (modify_last f p.cursors)
        (λ cs. some (record p { cursors = cs }))
        (modify_last-Returns (Within grid fb) f p.cursors c h.1 w)
        (λ cs l. (record p { cursors = cs }, (refl, (h.0, l))))

module _ {F V : Type 0} (grid : Grids F) (host : Host F V) where
  pub init_cursor-Ready :
      (fb : F) (p : Predictor V)
      → Sound grid fb
      → Fits grid fb p
      → Ready grid fb (init_cursor grid host p fb)
  unfolding init_cursor
  init_cursor-Ready fb p s h = elim (Option-cases (last_cursor p.cursors)) [
    | inl e ↦ rw e (
        push_cursor-Ready grid fb p (grid.cursor_row fb) (grid.cursor_col fb) h s.row_within
          s.col_within)
    | inr (c, e) ↦ elim (Bool-cases (c.base.tentative_until_epoch == p.prediction_epoch)) [
      | inl t ↦ rw (e, t) ((c, (h.wide, (h.within, e))))
      | inr t ↦
          let w = All-last_cursor (Within grid fb) p.cursors c h.within e in
          rw (e, t) (push_cursor-Ready grid fb p c.row c.col h w.0 w.1)
    ]
  ]

  pub on_row-Returns :
      (fb : F) (p : Predictor V) (c : CursorOverlay) (epoch n : ℕ)
      (f : List CellOverlay → Option (List CellOverlay))
      → FitsAt grid fb c p
      → ((cs : List CellOverlay) → Wide (grid.cols fb) cs → Returns (Wide (grid.cols fb)) (f cs))
      → Returns (FitsAt grid fb c) (on_row p (fresh_row grid host fb epoch) n f)
  on_row-Returns fb p c epoch n f h k =
      and_then-Returns (All (WideRow (grid.cols fb))) (FitsAt grid fb c)
        (with_row (fresh_row grid host fb epoch) n f p.overlays)
        (λ rs. some (record p { overlays = rs }))
        (with_row-Returns (grid.cols fb) (fresh_row grid host fb epoch) n f
          (new_cells-Wide grid.cell_size (grid.cols fb) 0 epoch) k p.overlays h.0)
        (λ rs a. (record p { overlays = rs }, (refl, (a, h.1))))
