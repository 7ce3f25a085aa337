-- ===== src/Predict/Keys/Culls.antt =====
-- `cull` of crates/quosh-predict/src/lib.rs: what it leaves fits the frame.
use mathlib.Core.Path.{subst}
use quosh.Devices.Search.{retain}
use quosh.Base.{
  ℕ, zero, suc, ◌-◌, ◌<◌, ◌≡◌, refl, ap, ◌∙◌, inl, inr, Bool, false, ◌&&◌, ◌||◌, not, Option, none,
  some, List, [], ◌∷◌, arith, ltb, ◌==◌, Bool-cases, length, get_elem?, All,
}
use quosh.Predict.{
  is_tentative, cell_bytes, cell_validity, cursor_validity, Grids, Validity, Prediction,
  CellOverlay, Row, Predictor, pending, correct, correct_no_credit, incorrect_or_expired, inactive,
}
use quosh.Predict.Cull.{
  reset_tentative, reset_rows, copy_from, reset_at, modify_row, last_cursor, is_pending, Culled,
  cell_of, is_never, last_wrong, repaired, delayed, on_validity, cull_cell, cull_next, cull_cells,
  cull_rows, resized, triggered, cull_cursors, cull_enabled, cull,
}
use quosh.Predict.Keys.Returns.{WideRow, All-append}
use quosh.Predict.Keys.Fits.{Within, Sound, Fits}

reset_tentative-length :
    (old : ℕ) (cs : List CellOverlay) → length (reset_tentative old cs) ≡ length cs
reset_tentative-length old [] = refl
reset_tentative-length old (c ∷ cs) = ap suc (reset_tentative-length old cs)

reset_rows-WideRow :
    (w old : ℕ) (rs : List Row) → All (WideRow w) rs → All (WideRow w) (reset_rows old rs)
reset_rows-WideRow w old [] a = tt
reset_rows-WideRow w old (r ∷ rs) a =
    (reset_tentative-length old r.cells ∙ a.0, reset_rows-WideRow w old rs a.1)

reset_at-length : (i : ℕ) (cs : List CellOverlay) → length (reset_at i cs) ≡ length cs
reset_at-length i [] = refl
reset_at-length zero (c ∷ cs) = refl
reset_at-length (suc i) (c ∷ cs) = ap suc (reset_at-length i cs)

copy_from-length :
    (i : ℕ) (actual : List ℕ) (cs : List CellOverlay) → length (copy_from i actual cs) ≡ length cs
copy_from-length i actual [] = refl
copy_from-length zero actual (c ∷ cs) = ap suc (copy_from-length zero actual cs)
copy_from-length (suc i) actual (c ∷ cs) = ap suc (copy_from-length i actual cs)

modify_row-WideRow :
    (w i : ℕ) (f : List CellOverlay → List CellOverlay)
    → ((cs : List CellOverlay) → length (f cs) ≡ length cs)
    → (rs : List Row) → All (WideRow w) rs
    → All (WideRow w) (modify_row i f rs)
modify_row-WideRow w i f h [] a = tt
modify_row-WideRow w zero f h (r ∷ rs) a = (h r.cells ∙ a.0, a.1)
modify_row-WideRow w (suc i) f h (r ∷ rs) a = (a.0, modify_row-WideRow w i f h rs a.1)

All-retain :
    {A : Type 0} (P : A → Type 0) (q : A → Bool) (xs : List A) → All P xs → All P (retain q xs)
All-retain P q [] a = tt
All-retain P q (x ∷ xs) a = elim (Bool-cases (q x)) [
  | inl t ↦ rw t (a.0, All-retain P q xs a.1)
  | inr t ↦ rw t (All-retain P q xs a.1)
]

-- Predictions that fit the size of the last frame.
pub record Sized {V : Type 0} (p : Predictor V) : Type 0 where
  pub wide : All (WideRow p.last_width) p.overlays
  pub within : All (λ c. (c.row < p.last_height) × (c.col < p.last_width)) p.cursors

module _ {F V : Type 0} (grid : Grids F) where
  -- The cursors, and the rows that are still looked at.
  abbrev Kept : F → Culled V → Type 0
  Kept fb (p, none) = Fits grid fb p
  Kept fb (p, some rows) = All (WideRow (grid.cols fb)) rows × All (Within grid fb) p.cursors

  repaired-cursors :
      (p : Predictor V) (b : Prediction) (now : ℕ) → (repaired grid p b now).cursors ≡ p.cursors
  unfolding repaired
  repaired-cursors p b now = ground arith

  delayed-cursors :
      (p : Predictor V) (b : Prediction) (now : ℕ) → (delayed grid p b now).cursors ≡ p.cursors
  unfolding delayed
  delayed-cursors p b now = ground arith

  on_validity-Kept :
      (fb : F) (p : Predictor V) (rows : List Row) (ri ci row_num : ℕ) (c : CellOverlay) (now : ℕ)
      (v : Validity)
      → Sound grid fb
      → Kept fb (p, some rows)
      → Kept fb (on_validity grid p rows ri ci row_num c fb now v)
  unfolding on_validity
  on_validity-Kept fb p rows ri ci row_num c now pending s h =
      (h.0, rw (delayed-cursors p c.base now) h.1)
  on_validity-Kept fb p rows ri ci row_num c now inactive s h = h
  on_validity-Kept fb p rows ri ci row_num c now correct_no_credit s h =
      (modify_row-WideRow (grid.cols fb) ri (reset_at ci) (reset_at-length ci) rows h.0, h.1)
  on_validity-Kept fb p rows ri ci row_num c now correct s h = (
    modify_row-WideRow (grid.cols fb) ri
        (λ cs. reset_at ci (copy_from ci (cell_bytes grid fb row_num c.base.col) cs))
        (λ cs.
          reset_at-length ci (copy_from ci (cell_bytes grid fb row_num c.base.col) cs)
          ∙ copy_from-length ci (cell_bytes grid fb row_num c.base.col) cs)
        rows h.0,
    rw (repaired-cursors p c.base now) h.1,
  )
  on_validity-Kept fb p rows ri ci row_num c now incorrect_or_expired s h =
      elim (Bool-cases (is_tentative c.base p.confirmed_epoch)) [
        | inl t ↦ rw t (
          reset_rows-WideRow (grid.cols fb) (c.base.tentative_until_epoch - 1) rows h.0,
          All-append (Within grid fb)
              (retain (λ d. not (is_tentative d.base (c.base.tentative_until_epoch - 1))) p.cursors)
              (_ ∷ [])
              (All-retain (Within grid fb)
                (λ d. not (is_tentative d.base (c.base.tentative_until_epoch - 1))) p.cursors h.1)
              ((s.row_within, s.col_within), tt),
        )
        | inr t ↦ rw t (record { wide = tt; within = tt })
      ]

  cull_cell-Kept :
      (fb : F) (p : Predictor V) (rows : List Row) (ri ci row_num now : ℕ) (o : Option CellOverlay)
      → Sound grid fb
      → Kept fb (p, some rows)
      → Kept fb (cull_cell grid p rows ri ci row_num fb now o)
  cull_cell-Kept fb p rows ri ci row_num now none s h = h
  cull_cell-Kept fb p rows ri ci row_num now (some c) s h =
      on_validity-Kept fb p rows ri ci row_num c now
        (cell_validity grid c fb row_num p.local_frame_late_acked) s h

  cull_next-Kept :
      (fb : F) (x : Culled V) (k : Predictor V → List Row → Culled V)
      → Kept fb x
      → ((p : Predictor V) (rows : List Row) → Kept fb (p, some rows) → Kept fb (k p rows))
      → Kept fb (cull_next grid x k)
  cull_next-Kept fb (p, none) k h r = h
  cull_next-Kept fb (p, some rows) k h r = r p rows h

  cull_cells-Kept :
      (k ci ri row_num : ℕ) (fb : F) (now : ℕ) (p : Predictor V) (rows : List Row)
      → Sound grid fb
      → Kept fb (p, some rows)
      → Kept fb (cull_cells grid k ci ri row_num fb now p rows)
  cull_cells-Kept zero ci ri row_num fb now p rows s h = h
  cull_cells-Kept (suc k) ci ri row_num fb now p rows s h =
      cull_next-Kept fb
        (cull_cell grid p rows ri ci row_num fb now (cell_of (get_elem? rows ri) ci))
        (cull_cells grid k (suc ci) ri row_num fb now)
        (cull_cell-Kept fb p rows ri ci row_num now (cell_of (get_elem? rows ri) ci) s h)
        (λ q qs l. cull_cells-Kept k (suc ci) ri row_num fb now q qs s l)

  cull_rows-Kept :
      (left : List Row) (ri : ℕ) (fb : F) (now : ℕ) (p : Predictor V) (rows : List Row)
      → Sound grid fb
      → Kept fb (p, some rows)
      → Kept fb (cull_rows grid left ri fb now p rows)
  cull_rows-Kept [] ri fb now p rows s h = h
  cull_rows-Kept (r ∷ left) ri fb now p rows s h =
      cull_next-Kept fb (cull_cells grid (length r.cells) 0 ri r.row_num fb now p rows)
        (cull_rows grid left (suc ri) fb now)
        (cull_cells-Kept (length r.cells) 0 ri r.row_num fb now p rows s h)
        (λ q qs l. cull_rows-Kept left (suc ri) fb now q qs s l)

  cull_cursors-Fits : (fb : F) (x : Culled V) → Kept fb x → Fits grid fb (cull_cursors grid fb x)
  unfolding cull_cursors
  cull_cursors-Fits fb (p, none) h = h
  cull_cursors-Fits fb (p, some rows) h =
      elim (Bool-cases (last_wrong grid (last_cursor p.cursors) fb p.local_frame_late_acked)) [
        | inl t ↦ rw t (record { wide = tt; within = tt })
        | inr t ↦ rw t (record {
          wide = h.0;
          within =
              All-retain (Within grid fb)
                (λ c.
                  c.base.active && is_pending (cursor_validity grid c fb p.local_frame_late_acked))
                p.cursors h.1;
        })
      ]

  resized-Fits : (fb : F) (p : Predictor V) → Sized p → Fits grid fb (resized grid p fb)
  unfolding resized
  resized-Fits fb p h =
      elim (Bool-cases
        (not (p.last_height == grid.rows fb) || not (p.last_width == grid.cols fb))) [
          | inl t ↦ rw t (record { wide = tt; within = tt })
          | inr t ↦
              let a : p.last_height ≡ grid.rows fb = ground arith in
              let b : p.last_width ≡ grid.cols fb = ground arith in
              rw t (record {
                wide = subst (λ w. All (WideRow w) p.overlays) b h.wide;
                within =
                    subst (λ w. All (λ c. (c.row < grid.rows fb) × (c.col < w)) p.cursors) b
                      (subst (λ n. All (λ c. (c.row < n) × (c.col < p.last_width)) p.cursors) a
                        h.within);
              })
        ]

  pub cull-Fits :
      (fb : F) (p : Predictor V) (now : ℕ)
      → is_never p.display_preference ≡ false
      → Sound grid fb
      → Sized p
      → Fits grid fb (cull grid p fb now)
  unfolding cull cull_enabled triggered
  cull-Fits fb p now d s h =
      let r = resized-Fits fb p h in
      let q = triggered grid (resized grid p fb) in
      let rows = retain (λ r. ltb r.row_num (grid.rows fb)) q.overlays in
      rw d (
        cull_cursors-Fits fb (cull_rows grid rows 0 fb now q rows) (
          cull_rows-Kept rows 0 fb now q rows s (
            All-retain (WideRow (grid.cols fb)) (λ r. ltb r.row_num (grid.rows fb)) q.overlays
                r.wide,
            r.within,
          )))
