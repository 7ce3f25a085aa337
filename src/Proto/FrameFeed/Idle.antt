-- ===== src/Proto/FrameFeed/Idle.antt =====
-- A feed with nothing to send takes a frame at once, and is idle again when the frame is written.
use quosh.Base.{ℕ, suc, ◌+◌, ◌≡◌, refl, true, false, List, [], ◌∷◌, arith, leb, le→leb, length}
use quosh.Proto.OutBuf
use quosh.Proto.OutBuf.{OutBuf}
use quosh.Proto.FrameFeed.{
  default, pump, push_ctrl_pumped, push_ctrl, rest, writing, advance, FrameFeed,
}

-- The adapter writes what is in flight.
abbrev pub flush : FrameFeed → FrameFeed
flush f = advance f (length (rest f))

abbrev pub loaded : List ℕ → FrameFeed
loaded x = record default { out = OutBuf.queue OutBuf.empty x }

pub push_ctrl-idle : (x : List ℕ) → push_ctrl default x ≡ (loaded x, true)
unfolding push_ctrl pump push_ctrl_pumped OutBuf.is_empty
push_ctrl-idle x = refl

pub writing-idle : writing default ≡ false
unfolding writing OutBuf.is_empty
writing-idle = refl

pub flush-loaded : (x : List ℕ) → flush (loaded x) ≡ default
unfolding advance rest pump OutBuf.queue OutBuf.rest OutBuf.advance OutBuf.is_empty
flush-loaded [] = refl
flush-loaded (b ∷ bs) =
    let some_bytes : leb (suc (length bs)) 0 ≡ false = ground arith in
    let all_bytes : leb (suc (length bs)) (0 + suc (length bs)) ≡ true = le→leb _ _ (omega arith) in
    rw (some_bytes, all_bytes) refl

pub flush-idle : flush default ≡ default
unfolding advance rest pump OutBuf.rest OutBuf.advance OutBuf.is_empty
flush-idle = refl

pub rest-loaded : (x : List ℕ) → rest (loaded x) ≡ x
unfolding rest OutBuf.queue OutBuf.rest OutBuf.is_empty
rest-loaded [] = refl
rest-loaded (b ∷ bs) =
    let some_bytes : leb (suc (length bs)) 0 ≡ false = ground arith in rw some_bytes refl

pub rest-idle : rest default ≡ []
unfolding rest OutBuf.rest
rest-idle = refl

pub writing-loaded : (b : ℕ) (bs : List ℕ) → writing (loaded (b ∷ bs)) ≡ true
unfolding writing OutBuf.queue OutBuf.is_empty
writing-loaded b bs =
    let some_bytes : leb (suc (length bs)) 0 ≡ false = ground arith in rw some_bytes refl
