-- ===== src/Predict/Hidden.antt =====
-- When nothing of what a user typed is shown before the server has echoed it.
use quosh.Base.{ℕ, ◌<◌, ◌≡◌, refl, ◌⊎◌, Bool, true, false, List, [], ◌∷◌, arith, if◌then◌else◌, All}
use quosh.Predict.{
  apply_cell, apply_cursor, apply_cursors, apply_cells, apply_rows, displays, apply, Grids,
  Prediction, CellOverlay, CursorOverlay, Row, Predictor,
}

-- A prediction that is not active, or that waits for a later epoch than the confirmed one.
abbrev pub Veiled : ℕ → Prediction → Type 0
Veiled confirmed_epoch b = (b.active ≡ false) ⊎ (confirmed_epoch < b.tentative_until_epoch)

abbrev pub VeiledRow : ℕ → Row → Type 0
VeiledRow e r = All (λ c. Veiled e c.base) r.cells

-- Nothing that the predictor holds is active and of a confirmed epoch.
pub record Unconfirmed {V : Type 0} (p : Predictor V) : Type 0 where
  pub cursors : All (λ c. Veiled p.confirmed_epoch c.base) p.cursors
  pub overlays : All (VeiledRow p.confirmed_epoch) p.overlays

module _ {F : Type 0} (grid : Grids F) where
  apply_cursor-Veiled :
      (c : CursorOverlay) (fb : F) (e : ℕ) → Veiled e c.base → apply_cursor grid c fb e ≡ fb
  unfolding apply_cursor
  apply_cursor-Veiled c fb e v = ground (arith, v)

  apply_cell-Veiled :
      (c : CellOverlay) (fb : F) (e row : ℕ) (flag : Bool)
      → Veiled e c.base
      → apply_cell grid c fb e row flag ≡ fb
  unfolding apply_cell
  apply_cell-Veiled c fb e row flag v = ground (arith, v)

  apply_cursors-Veiled :
      (cs : List CursorOverlay) (fb : F) (e : ℕ)
      → All (λ c. Veiled e c.base) cs
      → apply_cursors grid cs fb e ≡ fb
  apply_cursors-Veiled [] fb e h = refl
  apply_cursors-Veiled (c ∷ cs) fb e h =
      rw (apply_cursor-Veiled c fb e h.0) (apply_cursors-Veiled cs fb e h.1)

  apply_cells-Veiled :
      (cs : List CellOverlay) (fb : F) (e row : ℕ) (flag : Bool)
      → All (λ c. Veiled e c.base) cs
      → apply_cells grid cs fb e row flag ≡ fb
  apply_cells-Veiled [] fb e row flag h = refl
  apply_cells-Veiled (c ∷ cs) fb e row flag h =
      rw (apply_cell-Veiled c fb e row flag h.0) (apply_cells-Veiled cs fb e row flag h.1)

  apply_rows-Veiled :
      (rs : List Row) (fb : F) (e : ℕ) (flag : Bool)
      → All (VeiledRow e) rs
      → apply_rows grid rs fb e flag ≡ fb
  apply_rows-Veiled [] fb e flag h = refl
  apply_rows-Veiled (r ∷ rs) fb e flag h =
      rw (apply_cells-Veiled r.cells fb e r.row_num flag h.0) (apply_rows-Veiled rs fb e flag h.1)

  -- While every active prediction, of a cell or of the cursor, waits for an epoch that was not
  -- confirmed, a frame is shown as it is, whatever the preference and the triggers are: what is not
  -- echoed is not shown.
  pub apply-Unconfirmed :
      {V : Type 0} (p : Predictor V) (frame : F) → Unconfirmed p → apply grid p frame ≡ frame
  unfolding apply
  apply-Unconfirmed p frame u =
      elim (displays grid p p.display_preference)
        as (λ b.
          (if b
            then apply_rows grid p.overlays (apply_cursors grid p.cursors frame p.confirmed_epoch)
                p.confirmed_epoch p.flagging
            else frame)
          ≡ frame) [
            | true ↦
                rw (apply_cursors-Veiled p.cursors frame p.confirmed_epoch u.cursors)
                  (apply_rows-Veiled p.overlays frame p.confirmed_epoch p.flagging u.overlays)
            | false ↦ refl
          ]
