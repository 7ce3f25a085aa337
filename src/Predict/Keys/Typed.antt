-- ===== src/Predict/Keys/Typed.antt =====
-- `predict_char` and `handle_print` of crates/quosh-predict/src/lib.rs on predictions that fit the
-- frame.
use quosh.Base.{
  ℕ, zero, suc, ◌+◌, ◌-◌, ◌<◌, ◌≡◌, refl, inl, inr, Bool, true, false, ◌&&◌, ◌||◌, not, Option,
  some, List, arith, ltb, leb, ◌==◌, if◌then◌else◌, ltb→lt, Bool-cases, length, get_elem?,
}
use quosh.Predict.{cell_bytes, become_tentative, Grids, CellOverlay, CursorOverlay, Predictor}
use quosh.Predict.Keys.{
  and_then, update_at, make_char_cell, stamp, expired_at, mark, move_last, on_row, Host, Mark,
}
use quosh.Predict.Keys.Press.{
  unsupported_range, init_cursor, fresh_row, shift_right, backspace_from, backspace,
  newline_carriage_return, style_at, put_char, place_char, predict_from, predict_char, is_narrow,
  handle_print, step_right, step_left,
}
use quosh.Predict.Keys.Returns.{
  Returns, and_then-Returns, get_elem?-Returns, Wide, Returns-weaken, update_at-Wide,
  shift_right-Returns,
}
use quosh.Predict.Keys.Fits.{
  FitsAt, FitsAt-Fits, FitsAt-Within, move_last-Returns, init_cursor-Ready, on_row-Returns, Sound,
  Fits,
}
use quosh.Predict.Keys.Lines.{
  tentative-Fits, backspace_from-Returns, at_cursor-Returns, newline-Returns,
}

le→leb_false : (a b : ℕ) → b < a → leb a b ≡ false
le→leb_false a b h = ground arith

overwritten_lt : (b : Bool) (col w : ℕ) → col < w → (if b then col else w - 1) < w
overwritten_lt true col w h = h
overwritten_lt false col w h = omega arith

module _ {F V : Type 0} (grid : Grids F) (host : Host F V) where
  style_at-Returns :
      (fb : F) (row col : ℕ) (cs : List CellOverlay)
      → col < length cs
      → Returns (λ b. Unit {0}) (style_at grid host fb row col cs)
  unfolding style_at
  style_at-Returns fb row zero cs l = (cell_bytes grid fb row 0, (refl, tt))
  style_at-Returns fb row (suc col) cs l =
      and_then-Returns (λ c. Unit {0}) (λ b. Unit {0}) (get_elem? cs col)
        (λ prev. some (
          if prev.base.active && not prev.unknown
          then prev.replacement
          else cell_bytes grid fb row col))
        (get_elem?-Returns cs col (omega arith))
        (λ prev u. (
          (if prev.base.active && not prev.unknown
              then prev.replacement
              else cell_bytes grid fb row col),
          (refl, tt),
        ))

  put_char-Wide :
      (fb : F) (row : ℕ) (m : Mark) (col ch : ℕ) (cs : List CellOverlay)
      → col < grid.cols fb
      → Wide (grid.cols fb) cs
      → Returns (Wide (grid.cols fb)) (put_char grid host fb row m col ch cs)
  unfolding put_char
  put_char-Wide fb row m col ch cs l e =
      and_then-Returns (λ b. Unit {0}) (Wide (grid.cols fb)) (style_at grid host fb row col cs)
        (λ style. update_at cs col (λ c. record (stamp m (cell_bytes grid fb row col) c) {
          replacement = make_char_cell grid.cell_size style ch;
        }))
        (style_at-Returns fb row col cs (omega arith))
        (λ style u. update_at-Wide (grid.cols fb) cs col (λ c. _) e l)

  typed-Wide :
      (fb : F) (row : ℕ) (m : Mark) (col ch right : ℕ) (cs : List CellOverlay)
      → col < grid.cols fb
      → right < grid.cols fb
      → Wide (grid.cols fb) cs
      → Returns (Wide (grid.cols fb)) (
          and_then
            (shift_right grid host fb row m (right - col) right cs)
            (put_char grid host fb row m col ch))
  typed-Wide fb row m col ch right cs l r e =
      and_then-Returns (Wide (grid.cols fb)) (Wide (grid.cols fb))
        (shift_right grid host fb row m (right - col) right cs) (put_char grid host fb row m col ch)
        (shift_right-Returns grid host fb row m (right - col) right cs (omega arith) r e)
        (λ ds d. put_char-Wide fb row m col ch ds l d)

  -- The cursor after a character: in the next column, or at the start of the next line.
  after-Returns :
      (fb : F) (r : Predictor V) (now : ℕ) (m : Mark) (c : CursorOverlay)
      → Sound grid fb
      → FitsAt grid fb c r
      → Returns (Fits grid fb) (
          if ltb c.col (grid.cols fb - 1)
          then move_last r (expired_at m (c.col + 1))
          else and_then
              (move_last r (expired_at m c.col))
              (λ s. newline_carriage_return grid host (become_tentative s) fb now))
  after-Returns fb r now m c s h =
      let w = FitsAt-Within grid fb c r h in
      elim (Bool-cases (ltb c.col (grid.cols fb - 1))) [
        | inl t ↦
            let u = ltb→lt c.col (grid.cols fb - 1) t in
            rw t (
              Returns-weaken (FitsAt grid fb (expired_at m (c.col + 1) c)) (Fits grid fb)
                (move_last r (expired_at m (c.col + 1)))
                (FitsAt-Fits grid fb (expired_at m (c.col + 1) c))
                (move_last-Returns grid fb r c (expired_at m (c.col + 1)) h (w.0, omega arith)))
        | inr t ↦ rw t (
            and_then-Returns (FitsAt grid fb (expired_at m c.col c)) (Fits grid fb)
              (move_last r (expired_at m c.col))
              (λ s. newline_carriage_return grid host (become_tentative s) fb now)
              (move_last-Returns grid fb r c (expired_at m c.col) h w)
              (λ q k.
                newline-Returns grid host fb (become_tentative q) now s
                  (tentative-Fits grid host fb (expired_at m c.col c) q k)))
      ]

  tentative_if-FitsAt :
      (b : Bool) (fb : F) (c : CursorOverlay) (p : Predictor V)
      → FitsAt grid fb c p
      → FitsAt grid fb c (if b then become_tentative p else p)
  tentative_if-FitsAt true fb c p h = h
  tentative_if-FitsAt false fb c p h = h

  place_char-Returns :
      (fb : F) (p : Predictor V) (now : ℕ) (c : CursorOverlay) (ch right : ℕ)
      → Sound grid fb
      → FitsAt grid fb c p
      → right < grid.cols fb
      → Returns (Fits grid fb) (place_char grid host p fb now c ch right)
  unfolding place_char
  place_char-Returns fb p now c ch right s h r =
      let w = FitsAt-Within grid fb c p h in
      let b = leb (grid.cols fb) (c.col + 1) in
      let q = if b then become_tentative p else p in
      let m = mark q now in
      let work : List CellOverlay → Option (List CellOverlay) = λ cs.
        and_then (shift_right grid host fb c.row m (right - c.col) right cs)
          (put_char grid host fb c.row m c.col ch) in
      and_then-Returns (FitsAt grid fb c) (Fits grid fb)
        (on_row q (fresh_row grid host fb p.prediction_epoch) c.row work)
        (λ r.
          if ltb c.col (grid.cols fb - 1)
          then move_last r (expired_at m (c.col + 1))
          else and_then (move_last r (expired_at m c.col))
              (λ s. newline_carriage_return grid host (become_tentative s) fb now))
        (on_row-Returns grid host fb q c p.prediction_epoch c.row work
          (tentative_if-FitsAt b fb c p h)
          (λ cs e. typed-Wide fb c.row m c.col ch right cs w.1 r e))
        (λ a k. after-Returns fb a now m c s k)

  predict_from-Returns :
      (fb : F) (p : Predictor V) (now ch : ℕ) (c : CursorOverlay)
      → Sound grid fb
      → FitsAt grid fb c p
      → Returns (Fits grid fb) (predict_from grid host p fb now ch c)
  unfolding predict_from
  predict_from-Returns fb p now ch c s h =
      let w = FitsAt-Within grid fb c p h in
      let right = if p.predict_overwrite then c.col else grid.cols fb - 1 in
      let l = overwritten_lt p.predict_overwrite c.col (grid.cols fb) w.1 in
      rw (le→leb_false (grid.rows fb) c.row w.0, le→leb_false (grid.cols fb) c.col w.1)
        (elim (Bool-cases (unsupported_range grid host fb c.row c.col right)) [
          | inl t ↦ rw t (become_tentative p, (refl, tentative-Fits grid host fb c p h))
          | inr t ↦ rw t (place_char-Returns fb p now c ch right s h l)
        ])

  pub handle_print-Returns :
      (fb : F) (p : Predictor V) (now ch : ℕ)
      → Sound grid fb
      → Fits grid fb p
      → Returns (Fits grid fb) (handle_print grid host p fb now ch)
  unfolding handle_print backspace predict_char
  handle_print-Returns fb p now ch s h =
      let q = init_cursor grid host p fb in
      let (c, k) = init_cursor-Ready grid host fb p s h in
      elim (Bool-cases (ch == 0x7F)) [
        | inl t ↦ rw t (
            at_cursor-Returns grid host fb q (backspace_from grid host q fb now) (c, k)
              (λ d l. backspace_from-Returns grid host fb q now d s l))
        | inr t ↦
            elim (Bool-cases (ltb ch 0x20 || not (is_narrow grid host (host.char_width ch)))) [
              | inl u ↦ rw (t, u) (become_tentative q, (refl, tentative-Fits grid host fb c q k))
              | inr u ↦
                  rw (t, u)
                    (at_cursor-Returns grid host fb q (predict_from grid host q fb now ch) (c, k)
                      (λ d l. predict_from-Returns fb q now ch d s l))
            ]
      ]

  pub step_right-Returns :
      (fb : F) (p : Predictor V) (now : ℕ) (c : CursorOverlay)
      → FitsAt grid fb c p
      → Returns (Fits grid fb) (step_right grid host p fb now c)
  step_right-Returns fb p now c h =
      let w = FitsAt-Within grid fb c p h in
      let f = expired_at (mark p now) (c.col + 1) in
      elim (Bool-cases (ltb c.col (grid.cols fb - 1))) [
        | inl t ↦
            let u = ltb→lt c.col (grid.cols fb - 1) t in
            rw t (
              Returns-weaken (FitsAt grid fb (f c)) (Fits grid fb) (move_last p f)
                (FitsAt-Fits grid fb (f c)) (move_last-Returns grid fb p c f h (w.0, omega arith)))
        | inr t ↦ rw t (p, (refl, FitsAt-Fits grid fb c p h))
      ]

  pub step_left-Returns :
      (fb : F) (p : Predictor V) (now : ℕ) (c : CursorOverlay)
      → FitsAt grid fb c p
      → Returns (Fits grid fb) (step_left grid host p now c)
  step_left-Returns fb p now c h =
      let w = FitsAt-Within grid fb c p h in
      let f = expired_at (mark p now) (c.col - 1) in
      elim (Bool-cases (ltb 0 c.col)) [
        | inl t ↦ rw t (
            Returns-weaken (FitsAt grid fb (f c)) (Fits grid fb) (move_last p f)
              (FitsAt-Fits grid fb (f c)) (move_last-Returns grid fb p c f h (w.0, omega arith)))
        | inr t ↦ rw t (p, (refl, FitsAt-Fits grid fb c p h))
      ]
