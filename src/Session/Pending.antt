-- ===== src/Session/Pending.antt =====
-- `PendingWrites` and `advance_echo_ack` of crates/quosh-server/src/session.rs. Times are
-- milliseconds.
pub mod Contents
pub mod Advance
pub mod Echo
mod Tests
use quosh.Base.{
  ℕ, ◌+◌, ◌-◌, ◌*◌, min, Bool, true, false, not, Option, none, some, List, [], ◌∷◌, ◌++◌, ltb, leb,
  ◌==◌, if◌then◌else◌, length, drop,
}
use quosh.Bytes.{saturating_add}

abbrev pub max_pending : ℕ
max_pending = 1024 * 1024

abbrev pub pending_hard_max : ℕ
pending_hard_max = max_pending + 64 * 1024

abbrev pub echo_timeout : ℕ
echo_timeout = 50

pub record WriteChunk : Type 0 where
  pub seq : Option ℕ
  pub bytes : List ℕ
  pub off : ℕ

pub record PendingWrites : Type 0 where
  pub chunks : List WriteChunk
  pub unread : ℕ

-- `PendingWrites::default()`
abbrev pub no_writes : PendingWrites
no_writes = record { chunks = []; unread = 0 }

abbrev pub History : Type 0
History = List (ℕ × ℕ)

unfoldable pub push_input : PendingWrites → ℕ → List ℕ → PendingWrites × Bool
push_input p seq bytes =
    if ltb pending_hard_max (saturating_add p.unread (length bytes)) then (p, false) else (
      record {
        chunks = p.chunks ++ (record { seq = some seq; bytes = bytes; off = 0 } ∷ []);
        unread = p.unread + length bytes;
      },
      true,
    )

-- Behind an unsequenced last chunk the bytes join it; else they are a chunk of their own.
abbrev pub join_back : Option ℕ → WriteChunk → List ℕ → List WriteChunk
join_back none c bytes = record c { bytes = c.bytes ++ bytes } ∷ []
join_back (some s) c bytes = c ∷ record { seq = none; bytes = bytes; off = 0 } ∷ []

unfoldable pub extend_back : List WriteChunk → List ℕ → List WriteChunk
extend_back [] bytes = record { seq = none; bytes = bytes; off = 0 } ∷ []
extend_back (c ∷ []) bytes = join_back c.seq c bytes
extend_back (c ∷ d ∷ cs) bytes = c ∷ extend_back (d ∷ cs) bytes

unfoldable pub push_generated : PendingWrites → List ℕ → PendingWrites × Bool
unfolding extend_back
push_generated p [] = (p, true)
push_generated p (b ∷ bs) =
    if ltb pending_hard_max (saturating_add p.unread (length (b ∷ bs))) then (p, false) else (
      record { chunks = extend_back p.chunks (b ∷ bs); unread = p.unread + length (b ∷ bs) },
      true,
    )

abbrev front_bytes : List WriteChunk → List ℕ
front_bytes [] = []
front_bytes (c ∷ cs) = drop c.off c.bytes

unfoldable pub write_buf : PendingWrites → List ℕ
write_buf p = front_bytes p.chunks

-- `history.push_back((seq, now))` for a chunk with a sequence number.
abbrev pub stamp : Option ℕ → ℕ → History
stamp none now = []
stamp (some s) now = (s, now) ∷ []

pub record Advanced : Type 0 where
  pub chunks : List WriteChunk
  pub unread : ℕ
  pub history : History

-- A round of the loop takes what is left from the front chunk. A chunk that stays was not written
-- whole, so nothing is left and the loop ends.
unfoldable pub advance_loop : ℕ → List WriteChunk → ℕ → History → ℕ → Advanced
advance_loop left [] unread history now = record { chunks = []; unread = unread; history = history }
advance_loop left (c ∷ cs) unread history now =
    let taken = min left (length c.bytes - c.off) in
    let c' : WriteChunk = record c { off = c.off + taken } in
    let rest = advance_loop (left - taken) cs (unread - taken) (history ++ stamp c.seq now) now in
    if left == 0
    then record { chunks = c ∷ cs; unread = unread; history = history }
    else if c'.off == length c.bytes
    then rest
    else record { chunks = c' ∷ cs; unread = unread - taken; history = history }

-- `PendingWrites::advance`: the writes and the history after `n` bytes were written.
unfoldable pub advance : PendingWrites → ℕ → History → ℕ → PendingWrites × History
unfolding advance_loop
advance p n history now =
    let a = advance_loop n p.chunks p.unread history now in
    (record { chunks = a.chunks; unread = a.unread }, a.history)

-- The history entries that are old enough, taken from the front: the newest of them, and the rest.
echo_loop : ℕ → History → ℕ → ℕ × History
echo_loop newest [] now = (newest, [])
echo_loop newest ((seq, at) ∷ history) now =
    let rest = echo_loop seq history now in
    if leb (at + echo_timeout) now then rest else (newest, (seq, at) ∷ history)

-- The checkpoint, the history and whether the checkpoint moved.
unfoldable pub advance_echo_ack : ℕ → History → ℕ → ℕ × History × Bool
unfolding echo_loop
advance_echo_ack echo_ack history now =
    let (newest, history') = echo_loop echo_ack history now in
    (newest, history', not (newest == echo_ack))
