-- ===== src/Predict/Cull.antt =====
-- `kill_epoch` and `cull` of crates/quosh-predict/src/lib.rs: the predictions against a frame that
-- the server confirmed.
use quosh.Predict.{
  no_frame, is_tentative, byte_at, reset_cell, cell_bytes, cell_validity, cursor_validity,
  become_tentative, reset, active, Grids, Validity, Prediction, CellOverlay, CursorOverlay, Row,
  Predictor, pending, correct, correct_no_credit, incorrect_or_expired, inactive,
}
use quosh.Base.{
  ℕ, zero, suc, ◌+◌, ◌-◌, ◌*◌, ◌%◌, ◌^◌, Bool, true, false, ◌&&◌, ◌||◌, not, Option, none, some,
  List, [], ◌∷◌, ◌++◌, ltb, leb, ◌==◌, if◌then◌else◌, length, get_elem?, take, drop, slice,
}
use quosh.Devices.Search.{retain}
use quosh.Client.Interfaces.{DisplayPreference, never}

abbrev pub srtt_trigger_low : ℕ
srtt_trigger_low = 20

abbrev pub srtt_trigger_high : ℕ
srtt_trigger_high = 30

abbrev pub flag_trigger_low : ℕ
flag_trigger_low = 50

abbrev pub flag_trigger_high : ℕ
flag_trigger_high = 80

abbrev pub glitch_threshold : ℕ
glitch_threshold = 250

abbrev pub glitch_repair_count : ℕ
glitch_repair_count = 10

abbrev pub glitch_repair_mininterval : ℕ
glitch_repair_mininterval = 150

abbrev pub glitch_flag_threshold : ℕ
glitch_flag_threshold = 5000

-- The rendition of `src` on the contents of `dst`: all but the length and the flags of its width.
abbrev pub copy_renditions : List ℕ → List ℕ → List ℕ
copy_renditions dst src =
    take 1 src
    ++ ((byte_at dst 1 - byte_at dst 1 % 2 + byte_at src 1 % 2) ∷ (slice src 2 8 ++ drop 8 dst))

abbrev pub reset_tentative : ℕ → List CellOverlay → List CellOverlay
reset_tentative old [] = []
reset_tentative old (c ∷ cs) =
    (if is_tentative c.base old then reset_cell c else c) ∷ reset_tentative old cs

abbrev pub reset_rows : ℕ → List Row → List Row
reset_rows old [] = []
reset_rows old (r ∷ rs) = record r { cells = reset_tentative old r.cells } ∷ reset_rows old rs

-- From the position `i` on, the replacements take the rendition of `actual`.
abbrev pub copy_from : ℕ → List ℕ → List CellOverlay → List CellOverlay
copy_from i actual [] = []
copy_from zero actual (c ∷ cs) =
    record c { replacement = copy_renditions c.replacement actual } ∷ copy_from zero actual cs
copy_from (suc i) actual (c ∷ cs) = c ∷ copy_from i actual cs

abbrev pub reset_at : ℕ → List CellOverlay → List CellOverlay
reset_at i [] = []
reset_at zero (c ∷ cs) = reset_cell c ∷ cs
reset_at (suc i) (c ∷ cs) = c ∷ reset_at i cs

abbrev pub modify_row : ℕ → (List CellOverlay → List CellOverlay) → List Row → List Row
modify_row i f [] = []
modify_row zero f (r ∷ rs) = record r { cells = f r.cells } ∷ rs
modify_row (suc i) f (r ∷ rs) = r ∷ modify_row i f rs

abbrev pub last_cursor : List CursorOverlay → Option CursorOverlay
last_cursor [] = none
last_cursor (c ∷ []) = some c
last_cursor (c ∷ d ∷ cs) = last_cursor (d ∷ cs)

abbrev pub is_pending : Validity → Bool
is_pending pending = true
is_pending _ = false

abbrev pub is_wrong : Validity → Bool
is_wrong incorrect_or_expired = true
is_wrong _ = false

-- The rows after a cell, or none if everything was reset.
abbrev pub Culled : Type 0 → Type 0
Culled V = Predictor V × Option (List Row)

abbrev pub cell_of : Option Row → ℕ → Option CellOverlay
cell_of none ci = none
cell_of (some r) ci = get_elem? r.cells ci

abbrev pub is_never : DisplayPreference → Bool
is_never never = true
is_never _ = false

module _ {F : Type 0} (grid : Grids F) where
  abbrev pub last_wrong : Option CursorOverlay → F → ℕ → Bool
  last_wrong none fb late_ack = false
  last_wrong (some c) fb late_ack = is_wrong (cursor_validity grid c fb late_ack)

module _ {F V : Type 0} (grid : Grids F) where
  unfoldable pub kill_epoch : Predictor V → List Row → ℕ → F → Predictor V × List Row
  kill_epoch p rows epoch fb =
      let old = epoch - 1 in
      let back : CursorOverlay = record {
        base = record {
          expiration_frame = (p.local_frame_sent + 1) % 2 ^ 64;
          col = grid.cursor_col fb;
          active = true;
          tentative_until_epoch = p.prediction_epoch;
          prediction_time = no_frame;
        };
        row = grid.cursor_row fb;
        col = grid.cursor_col fb;
      } in
      (
        become_tentative (record p {
          cursors = retain (λ c. not (is_tentative c.base old)) p.cursors ++ (back ∷ []);
        }),
        reset_rows old rows,
      )

  unfoldable pub repaired : Predictor V → Prediction → ℕ → Predictor V
  repaired p b now =
      let p' : Predictor V = record p {
        confirmed_epoch =
            if ltb p.confirmed_epoch b.tentative_until_epoch
            then b.tentative_until_epoch
            else p.confirmed_epoch;
      } in
      if ltb (now - b.prediction_time) glitch_threshold
        && ltb 0 p.glitch_trigger
        && leb glitch_repair_mininterval (now - p.last_quick_confirmation)
      then record p' { glitch_trigger = p.glitch_trigger - 1; last_quick_confirmation = now }
      else p'

  unfoldable pub delayed : Predictor V → Prediction → ℕ → Predictor V
  delayed p b now =
      if leb glitch_flag_threshold (now - b.prediction_time)
      then record p { glitch_trigger = glitch_repair_count * 2 }
      else if leb glitch_threshold (now - b.prediction_time)
          && ltb p.glitch_trigger glitch_repair_count
      then record p { glitch_trigger = glitch_repair_count }
      else p

  unfoldable pub on_validity :
      Predictor V → List Row → ℕ → ℕ → ℕ → CellOverlay → F → ℕ → Validity → Culled V
  unfolding kill_epoch repaired delayed
  on_validity p rows ri ci row_num c fb now incorrect_or_expired =
      let (killed, kept) = kill_epoch p rows c.base.tentative_until_epoch fb in
      if is_tentative c.base p.confirmed_epoch
      then (killed, some kept)
      else (reset (record p { overlays = [] }), none)
  on_validity p rows ri ci row_num c fb now correct =
      let actual = cell_bytes grid fb row_num c.base.col in
      (
        repaired p c.base now,
        some (modify_row ri (λ cs. reset_at ci (copy_from ci actual cs)) rows),
      )
  on_validity p rows ri ci row_num c fb now correct_no_credit =
      (p, some (modify_row ri (reset_at ci) rows))
  on_validity p rows ri ci row_num c fb now pending = (delayed p c.base now, some rows)
  on_validity p rows ri ci row_num c fb now inactive = (p, some rows)

  abbrev pub cull_cell : Predictor V → List Row → ℕ → ℕ → ℕ → F → ℕ → Option CellOverlay → Culled V
  cull_cell p rows ri ci row_num fb now none = (p, some rows)
  cull_cell p rows ri ci row_num fb now (some c) =
      on_validity p rows ri ci row_num c fb now
        (cell_validity grid c fb row_num p.local_frame_late_acked)

  abbrev pub cull_next : Culled V → (Predictor V → List Row → Culled V) → Culled V
  cull_next (p, none) again = (p, none)
  cull_next (p, some rows) again = again p rows

  -- The cells of the row `ri` from `ci` on, `k` of them.
  abbrev pub cull_cells : ℕ → ℕ → ℕ → ℕ → F → ℕ → Predictor V → List Row → Culled V
  cull_cells zero ci ri row_num fb now p rows = (p, some rows)
  cull_cells (suc k) ci ri row_num fb now p rows =
      cull_next (cull_cell p rows ri ci row_num fb now (cell_of (get_elem? rows ri) ci))
        (cull_cells k (suc ci) ri row_num fb now)

  -- The rows from `ri` on; `left` are the rows as they were, for their numbers and widths.
  abbrev pub cull_rows : List Row → ℕ → F → ℕ → Predictor V → List Row → Culled V
  cull_rows [] ri fb now p rows = (p, some rows)
  cull_rows (r ∷ left) ri fb now p rows =
      cull_next (cull_cells (length r.cells) 0 ri r.row_num fb now p rows)
        (cull_rows left (suc ri) fb now)

  unfoldable pub resized : Predictor V → F → Predictor V
  resized p fb =
      if not (p.last_height == grid.rows fb) || not (p.last_width == grid.cols fb)
      then reset (record p { last_height = grid.rows fb; last_width = grid.cols fb })
      else p

  unfoldable pub triggered : Predictor V → Predictor V
  triggered p = record p {
    srtt_trigger =
        if ltb srtt_trigger_high p.send_interval
        then true
        else if p.srtt_trigger && leb p.send_interval srtt_trigger_low && not (active p)
        then false
        else p.srtt_trigger;
    flagging =
        if ltb glitch_repair_count p.glitch_trigger
        then true
        else if ltb flag_trigger_high p.send_interval
        then true
        else if leb p.send_interval flag_trigger_low
        then false
        else p.flagging;
  }

  unfoldable pub cull_cursors : F → Culled V → Predictor V
  cull_cursors fb (p, none) = p
  cull_cursors fb (p, some rows) =
      if last_wrong grid (last_cursor p.cursors) fb p.local_frame_late_acked
      then reset (record p { overlays = rows })
      else record p {
        overlays = rows;
        cursors =
            retain
              (λ c.
                c.base.active && is_pending (cursor_validity grid c fb p.local_frame_late_acked))
              p.cursors;
      }

  unfoldable pub cull_enabled : Predictor V → F → ℕ → Predictor V
  unfolding resized triggered cull_cursors
  cull_enabled p fb now =
      let p' = triggered (resized p fb) in
      let rows = retain (λ r. ltb r.row_num (grid.rows fb)) p'.overlays in
      cull_cursors fb (cull_rows rows 0 fb now p' rows)

  unfoldable pub cull : Predictor V → F → ℕ → Predictor V
  unfolding cull_enabled
  cull p fb now = if is_never p.display_preference then p else cull_enabled p fb now
