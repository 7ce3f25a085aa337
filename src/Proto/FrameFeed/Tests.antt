-- ===== src/Proto/FrameFeed/Tests.antt =====
-- Runs of `FrameFeed` and the theorems at concrete inputs.
use quosh.Base.{
  ℕ, ◌+◌, ◌≤◌, ◌<◌, ◌≡◌, refl, ◌⊎◌, true, false, none, some, List, [], ◌∷◌, ◌++◌, arith, length,
  concat,
}
use quosh.Proto.OutBuf
use quosh.Proto.OutBuf.{OutBuf}
use quosh.Proto.FrameFeed.{
  ctrl_cap, default, pump, push_screen, push_ctrl, rest, is_empty, advance, FrameFeed,
}
use quosh.Proto.FrameFeed.Inv.{IsValid}
use quosh.Proto.FrameFeed.Moves.{wire, controls, AllSent, Sent}
use quosh.Proto.FrameFeed.Trace.{
  step, run, written_all, accepted_all, Pushes, Within, run_frames, Op, screen, ctrl, write,
}
use quosh.Proto.FrameFeed.Pending.{bytes_of, pending, pending-push_ctrl}

-- A screen in flight, two control frames and a newer screen behind it.
abbrev script : List Op
script =
    screen (7 ∷ 7 ∷ 7 ∷ [])
    ∷ write 1
    ∷ ctrl (1 ∷ [])
    ∷ screen (8 ∷ [])
    ∷ screen (9 ∷ 9 ∷ [])
    ∷ ctrl (2 ∷ [])
    ∷ write 2
    ∷ []

-- Two frames wait behind a screen of which one byte was written.
abbrev mid : FrameFeed
mid = record {
  out = record { buf = 7 ∷ 7 ∷ []; off = 0 };
  screen = some (9 ∷ 9 ∷ []);
  ctrl = (1 ∷ []) ∷ [];
  ctrl_bytes = 1;
  fin = none;
}

script_end : run default script ≡ record {
  out = record { buf = 1 ∷ []; off = 0 };
  screen = some (9 ∷ 9 ∷ []);
  ctrl = (2 ∷ []) ∷ [];
  ctrl_bytes = 1;
  fin = none;
}
unfolding run step push_screen push_ctrl advance pump OutBuf.queue OutBuf.advance OutBuf.rest
    OutBuf.is_empty
script_end = refl

mid-IsValid : IsValid mid
unfolding is_empty OutBuf.is_empty
mid-IsValid = record { sound = omega arith; busy = λ e. cc }

filled : Pushes (λ x. length x ≤ 3) script
filled = omega arith

-- No write of the script passes the frame in flight.
within : Within default script
unfolding run step push_screen push_ctrl advance pump OutBuf.queue OutBuf.advance OutBuf.rest
    OutBuf.is_empty rest
within = omega arith

run_frames_example :
    (sent : List Sent) × (written_all default script ++ rest (run default script) ≡ wire sent)
    × (controls sent ++ (run default script).ctrl ≡ accepted_all default script)
    × AllSent (λ x. length x ≤ 3) sent
run_frames_example = run_frames (λ x. length x ≤ 3) script filled within

pending-push_ctrl_example :
    (((push_ctrl mid (5 ∷ [])).1 ≡ true)
      × (pending (push_ctrl mid (5 ∷ [])).0
          ≡ rest mid
            ++ (concat mid.ctrl ++ ((5 ∷ []) ++ (bytes_of mid.screen ++ bytes_of mid.fin)))))
    ⊎ (((push_ctrl mid (5 ∷ [])).1 ≡ false)
        × ((push_ctrl mid (5 ∷ [])).0 ≡ mid)
        × (ctrl_cap < mid.ctrl_bytes + length {A = ℕ} (5 ∷ [])))
pending-push_ctrl_example = pending-push_ctrl mid (5 ∷ []) mid-IsValid
