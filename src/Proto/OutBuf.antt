-- ===== src/Proto/OutBuf.antt =====
-- `OutBuf` of crates/quosh-proto/src/lib.rs: the bytes that wait for a framed stream.
pub mod Laws
mod Tests
use quosh.Base.{
  ℕ, ◌+◌, ◌-◌, ◌*◌, Bool, true, false, List, [], ◌++◌, ltb, leb, if◌then◌else◌, length, drop,
}
use quosh.Bytes.{saturating_add}

pub record OutBuf : Type 0 where
  pub buf : List ℕ
  pub off : ℕ

abbrev pub max_unread : ℕ
max_unread = 256 * 1024

-- `OutBuf::default()`
abbrev pub empty : OutBuf
empty = record { buf = []; off = 0 }

unfoldable pub queue : OutBuf → List ℕ → OutBuf
queue b bytes = record b { buf = b.buf ++ bytes }

unfoldable pub rest : OutBuf → List ℕ
rest b = if leb (length b.buf) b.off then [] else drop b.off b.buf

unfoldable pub is_empty : OutBuf → Bool
is_empty b = leb (length b.buf) b.off

unfoldable pub unread : OutBuf → ℕ
unread b = length b.buf - b.off

unfoldable pub try_queue : OutBuf → List ℕ → OutBuf × Bool
unfolding unread queue
try_queue b bytes =
    if ltb max_unread (saturating_add (unread b) (length bytes))
    then (b, false)
    else (queue b bytes, true)

-- What the caller consumed is dropped, and the buffer starts at its first byte again.
unfoldable pub advance : OutBuf → ℕ → OutBuf
advance b n =
    let off = b.off + n in
    if leb (length b.buf) off then empty else record { buf = drop off b.buf; off = 0 }
