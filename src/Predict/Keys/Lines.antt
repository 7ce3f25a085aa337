-- ===== src/Predict/Keys/Lines.antt =====
-- `backspace` and `newline_carriage_return` of crates/quosh-predict/src/lib.rs on predictions that
-- fit the frame.
use quosh.Base.{
  ℕ, suc, ◌+◌, ◌-◌, ◌%◌, ◌^◌, ◌<◌, ◌≡◌, refl, ap, ◌∙◌, inl, inr, Bool, true, false, Option, some,
  List, [], ◌∷◌, arith, ◌==◌, if◌then◌else◌, Bool-cases, length,
}
use quosh.Predict.{become_tentative, Grids, CellOverlay, CursorOverlay, Predictor}
use quosh.Predict.Keys.{and_then, minus_one, expired_at, mark, move_last, on_row, Host, Mark}
use quosh.Predict.Keys.Press.{
  unsupported_range, row_has_link, init_cursor, fresh_row, shift_left, erase, backspace_from,
  blank_cells, newline_from, newline_carriage_return,
}
use quosh.Predict.Keys.Returns.{
  Returns, and_then-Returns, Wide, Returns-weaken, update_at-Wide, shift_left-Returns,
}
use quosh.Predict.Keys.Fits.{
  FitsAt, Ready, FitsAt-Fits, FitsAt-Within, move_last-Returns, init_cursor-Ready, on_row-Returns,
  Sound, Fits,
}
use quosh.Predict.Cull.{last_cursor}

module _ {F V : Type 0} (grid : Grids F) (host : Host F V) where
  erase-Wide :
      (fb : F) (row : ℕ) (m : Mark) (col : ℕ) (cs : List CellOverlay)
      → col < grid.cols fb
      → Wide (grid.cols fb) cs
      → Returns (Wide (grid.cols fb)) (erase grid host fb row m col cs)
  unfolding erase
  erase-Wide fb row m col cs l e = update_at-Wide (grid.cols fb) cs col (λ c. _) e l

  backspaced-Wide :
      (b : Bool) (fb : F) (row : ℕ) (m : Mark) (col : ℕ) (cs : List CellOverlay)
      → col < grid.cols fb
      → grid.cols fb < 65535
      → Wide (grid.cols fb) cs
      → Returns (Wide (grid.cols fb)) (
          (if b
              then erase grid host fb row m col
              else shift_left grid host fb row m (grid.cols fb - col) col)
            cs)
  backspaced-Wide true fb row m col cs l small e = erase-Wide fb row m col cs l e
  backspaced-Wide false fb row m col cs l small e =
      shift_left-Returns grid host fb row m (grid.cols fb - col) col cs (omega arith) small e

  pub tentative-Fits :
      (fb : F) (c : CursorOverlay) (p : Predictor V)
      → FitsAt grid fb c p
      → Fits grid fb (become_tentative p)
  tentative-Fits fb c p h = record { wide = h.0; within = h.1.0 }

  pub backspace_from-Returns :
      (fb : F) (p : Predictor V) (now : ℕ) (c : CursorOverlay)
      → Sound grid fb
      → FitsAt grid fb c p
      → Returns (Fits grid fb) (backspace_from grid host p fb now c)
  unfolding backspace_from
  backspace_from-Returns fb p now c s h =
      let w = FitsAt-Within grid fb c p h in
      let m = mark p now in
      let d = expired_at m (c.col - 1) c in
      let to = if p.predict_overwrite then c.col - 1 else minus_one (grid.cols fb) in
      let work =
        if p.predict_overwrite
        then erase grid host fb c.row m (c.col - 1)
        else shift_left grid host fb c.row m (grid.cols fb - (c.col - 1)) (c.col - 1) in
      elim (Bool-cases (c.col == 0)) [
        | inl t ↦ rw t (p, (refl, FitsAt-Fits grid fb c p h))
        | inr t ↦ elim (Bool-cases (unsupported_range grid host fb c.row (c.col - 1) to)) [
          | inl u ↦ rw (t, u) (become_tentative p, (refl, tentative-Fits fb c p h))
          | inr u ↦
              rw (t, u)
                (and_then-Returns (FitsAt grid fb d) (Fits grid fb)
                  (move_last p (expired_at m (c.col - 1)))
                  (λ q. on_row q (fresh_row grid host fb p.prediction_epoch) c.row work)
                  (move_last-Returns grid fb p c (expired_at m (c.col - 1)) h (w.0, omega arith))
                  (λ q k.
                    Returns-weaken (FitsAt grid fb d) (Fits grid fb)
                      (on_row q (fresh_row grid host fb p.prediction_epoch) c.row work)
                      (FitsAt-Fits grid fb d)
                      (on_row-Returns grid host fb q d p.prediction_epoch c.row work k (λ cs e.
                        backspaced-Wide p.predict_overwrite fb c.row m (c.col - 1) cs (omega arith)
                          s.cols_small e))))
        ]
      ]

  blank_cells-length :
      (m : Mark) (cs : List CellOverlay) → length (blank_cells grid host m cs) ≡ length cs
  blank_cells-length m [] = refl
  blank_cells-length m (c ∷ cs) = ap suc (blank_cells-length m cs)

  next_row : (a b : ℕ) → a < b → b < 65535 → (a == minus_one b) ≡ false → (a + 1) % 2 ^ 16 < b
  next_row a b l small h = ground arith

  newline_from-Returns :
      (fb : F) (p : Predictor V) (now : ℕ) (c : CursorOverlay)
      → Sound grid fb
      → FitsAt grid fb c p
      → Returns (Fits grid fb) (newline_from grid host p fb now c)
  unfolding newline_from
  newline_from-Returns fb p now c s h =
      let w = FitsAt-Within grid fb c p h in
      let d : CursorOverlay = record c { col = 0 } in
      let blanked : List CellOverlay → Option (List CellOverlay) =
        λ cs. some (blank_cells grid host (mark p now) cs) in
      elim (Bool-cases (c.row == minus_one (grid.rows fb))) [
        | inl t ↦ rw t (
            and_then-Returns (FitsAt grid fb d) (Fits grid fb)
              (move_last p (λ d. record d { col = 0 }))
              (λ q.
                if row_has_link grid host fb c.row
                then some (become_tentative q)
                else on_row q (fresh_row grid host fb p.prediction_epoch) c.row blanked)
              (move_last-Returns grid fb p c (λ d. record d { col = 0 }) h (w.0, omega arith))
              (λ q k. elim (Bool-cases (row_has_link grid host fb c.row)) [
                | inl u ↦ rw u (become_tentative q, (refl, tentative-Fits fb d q k))
                | inr u ↦ rw u (
                    Returns-weaken (FitsAt grid fb d) (Fits grid fb)
                      (on_row q (fresh_row grid host fb p.prediction_epoch) c.row blanked)
                      (FitsAt-Fits grid fb d)
                      (on_row-Returns grid host fb q d p.prediction_epoch c.row blanked k (λ cs e. (
                        blank_cells grid host (mark p now) cs,
                        (refl, blank_cells-length (mark p now) cs ∙ e),
                      ))))
              ]))
        | inr t ↦
            let f : CursorOverlay → CursorOverlay =
              λ d. record d { col = 0; row = (d.row + 1) % 2 ^ 16 } in
            rw t (
              Returns-weaken (FitsAt grid fb (f c)) (Fits grid fb) (move_last p f)
                (FitsAt-Fits grid fb (f c))
                (move_last-Returns grid fb p c f h
                  (next_row c.row (grid.rows fb) w.0 s.rows_small t, omega arith)))
      ]

  -- What is done at the last cursor of predictions that are ready.
  pub at_cursor-Returns :
      (fb : F) (p : Predictor V) (k : CursorOverlay → Option (Predictor V))
      → Ready grid fb p
      → ((c : CursorOverlay) → FitsAt grid fb c p → Returns (Fits grid fb) (k c))
      → Returns (Fits grid fb) (and_then (last_cursor p.cursors) k)
  at_cursor-Returns fb p k (c, h) r = rw (h.1.1) (r c h)

  pub newline-Returns :
      (fb : F) (p : Predictor V) (now : ℕ)
      → Sound grid fb
      → Fits grid fb p
      → Returns (Fits grid fb) (newline_carriage_return grid host p fb now)
  unfolding newline_carriage_return
  newline-Returns fb p now s h =
      let q = init_cursor grid host p fb in
      at_cursor-Returns fb q (newline_from grid host q fb now)
        (init_cursor-Ready grid host fb p s h) (λ c k. newline_from-Returns fb q now c s k)
