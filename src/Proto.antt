-- ===== src/Proto.antt =====
-- crates/quosh-proto/src/lib.rs: the framing, the messages and the outgoing queues. Here its error
-- type, its result and its constants.
pub mod OutBuf
pub mod FrameFeed
pub mod Frame
pub mod Utf8
pub mod Reader
pub mod Auth
pub mod Msg
pub mod Message
pub mod Screen
use quosh.Base.{ℕ, ◌*◌, Bool, true, false}

pub data Error : Type 0 where
  truncated magic frame lz4 too_large io : Error

pub data Result {ℓ} (T : Type ℓ) : Type ℓ where
  err : Error → Result T
  ok : T → Result T

-- Rust's `?`: an error is the result of the whole.
infixl 5 ◌>>=◌
abbrev pub ◌>>=◌ {ℓ κ} : {T : Type ℓ} {U : Type κ} (r : Result T) (next : T → Result U) → Result U
err e >>= next = err e
ok t >>= next = next t

-- A check, and what is done once it passed.
infixl 5 ◌>>◌
abbrev pub ◌>>◌ {κ} : {U : Type κ} (check : Result (Unit {0})) (rest : Result U) → Result U
check >> rest = check >>= λ passed. rest

-- `if c { return Err(e); }`
abbrev pub fail_if : Bool → Error → Result (Unit {0})
fail_if true e = err e
fail_if false e = ok tt

abbrev pub protocol_version : ℕ
protocol_version = 2

abbrev pub max_frame : ℕ
max_frame = 16 * 1024 * 1024

abbrev pub max_screen_raw : ℕ
max_screen_raw = 8 * 1024 * 1024

abbrev pub max_chain_hashes : ℕ
max_chain_hashes = 64

abbrev pub max_cols : ℕ
max_cols = 512

abbrev pub max_rows : ℕ
max_rows = 512

abbrev pub min_cols : ℕ
min_cols = 2

abbrev pub min_rows : ℕ
min_rows = 2

abbrev pub max_input_bytes : ℕ
max_input_bytes = 32 * 1024
