-- ===== src/Client/Interfaces.antt =====
-- What the client uses of quosh-predict, and of the numbers of type f64.
use quosh.Base.{ℕ, Bool, if◌then◌else◌}

pub data DisplayPreference : Type 0 where
  adaptive always never : DisplayPreference

abbrev pub preference : Bool → DisplayPreference
preference b = if b then never else adaptive

-- `Predictor`, with `P` for its state and `F` for the frame state.
pub record Predictions (P F : Type 0) : Type 0 where
  pub new : P
  pub set_display_preference : P → DisplayPreference → P
  pub set_send_interval : P → ℕ → P
  pub set_local_frame_sent : P → ℕ → P
  pub set_local_frame_late_acked : P → ℕ → P
  pub reset : P → P
  pub active : P → Bool
  pub cull : P → F → ℕ → P
  pub new_user_byte : P → ℕ → F → ℕ → P
  pub apply : P → F → F

pub record F64 (X : Type 0) : Type 0 where
  -- the number, and `as f64`
  pub of : ℕ → X
  -- the literal of a fraction
  pub lit : ℕ → ℕ → X
  pub add : X → X → X
  pub mul : X → X → X
  pub div : X → X → X
  pub clamp : X → X → X → X
  pub ceil : X → X
  pub as_u64 : X → ℕ
  pub as_u32 : X → ℕ
