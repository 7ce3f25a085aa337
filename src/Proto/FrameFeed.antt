-- ===== src/Proto/FrameFeed.antt =====
-- `FrameFeed` of crates/quosh-proto/src/lib.rs: one frame in flight, the control frames and the
-- one screen that wait behind it, and a last frame.
pub mod Inv
pub mod Moves
pub mod Trace
pub mod Pending
pub mod Idle
mod Tests
use quosh.Base.{
  ℕ, ◌+◌, ◌-◌, ◌*◌, Bool, true, false, ◌&&◌, not, Option, none, some, List, [], ◌∷◌, ◌++◌, ltb,
  if◌then◌else◌, length,
}
use quosh.Bytes.{saturating_add}
use quosh.Proto.OutBuf
use quosh.Proto.OutBuf.{OutBuf}

pub record FrameFeed : Type 0 where
  pub out : OutBuf
  pub screen : Option (List ℕ)
  pub ctrl : List (List ℕ)
  pub ctrl_bytes : ℕ
  pub fin : Option (List ℕ)

abbrev pub ctrl_cap : ℕ
ctrl_cap = 64 * 1024

-- `FrameFeed::default()`
abbrev pub default : FrameFeed
default = record { out = OutBuf.empty; screen = none; ctrl = []; ctrl_bytes = 0; fin = none }

abbrev pub no_ctrl : List (List ℕ) → Bool
no_ctrl [] = true
no_ctrl (x ∷ xs) = false

abbrev pub is_none : Option (List ℕ) → Bool
is_none none = true
is_none (some x) = false

-- `if let Some(f) = self.fin.take()`
pub pump_fin : Option (List ℕ) → FrameFeed → FrameFeed
pump_fin none f = f
pump_fin (some x) f = record f { out = OutBuf.queue f.out x; fin = none }

pub pump_screen : Option (List ℕ) → FrameFeed → FrameFeed
unfolding pump_fin
pump_screen none f = pump_fin f.fin f
pump_screen (some x) f = record f { out = OutBuf.queue f.out x; screen = none }

pub pump_ctrl : List (List ℕ) → FrameFeed → FrameFeed
unfolding pump_screen
pump_ctrl [] f = pump_screen f.screen f
pump_ctrl (x ∷ xs) f = record f {
  out = OutBuf.queue f.out x;
  ctrl = xs;
  ctrl_bytes = f.ctrl_bytes - length x;
}

-- The next frame goes out when none is in flight: a control frame before the screen, the screen
-- before the last frame.
pub pump : FrameFeed → FrameFeed
unfolding pump_ctrl
pump f = if OutBuf.is_empty f.out then pump_ctrl f.ctrl f else f

pub push_screen : FrameFeed → List ℕ → FrameFeed
push_screen f x = pump (record f { screen = some x })

push_ctrl_pumped : FrameFeed → List ℕ → FrameFeed × Bool
push_ctrl_pumped f x =
    if OutBuf.is_empty f.out && no_ctrl f.ctrl
    then (record f { out = OutBuf.queue f.out x }, true)
    else if ltb ctrl_cap (saturating_add f.ctrl_bytes (length x))
    then (f, false)
    else (record f { ctrl_bytes = f.ctrl_bytes + length x; ctrl = f.ctrl ++ (x ∷ []) }, true)

pub push_ctrl : FrameFeed → List ℕ → FrameFeed × Bool
unfolding push_ctrl_pumped
push_ctrl f x = push_ctrl_pumped (pump f) x

pub push_fin : FrameFeed → List ℕ → FrameFeed
push_fin f x = pump (record f { fin = some x; ctrl = []; ctrl_bytes = 0 })

pub rest : FrameFeed → List ℕ
rest f = OutBuf.rest f.out

pub is_empty : FrameFeed → Bool
is_empty f = OutBuf.is_empty f.out && is_none f.screen && no_ctrl f.ctrl && is_none f.fin

pub writing : FrameFeed → Bool
writing f = not (OutBuf.is_empty f.out)

pub advance : FrameFeed → ℕ → FrameFeed
advance f n = pump (record f { out = OutBuf.advance f.out n })
