-- ===== src/Trust.antt =====
-- crates/quosh-trust/src/lib.rs: the chain of certificates that are derived from one key. Times are
-- whole seconds as integers, far from the ends of i64. A certificate is the list of its bytes.
pub mod Windows
pub mod Pinned
mod Tests
use quosh.Base.Int.{ℤ, pos, pos_part, neg_part, sub_ℕ, ◌+ℤ◌, ◌-ℤ◌, leb_ℤ}
use quosh.Base.{
  ℕ, zero, suc, ◌+◌, ◌*◌, ◌/◌, ◌%◌, ◌^◌, min, max, Bool, true, false, not, Option, none, some, List,
  [], ◌∷◌, ltb, ◌==◌, if◌then◌else◌,
}
use quosh.Devices.Search.{retain, find_by}

-- 13 days, 14 days and 5 minutes.
abbrev pub stride : ℕ
stride = 13 * 86400

abbrev pub validity : ℕ
validity = 14 * 86400

abbrev pub slack : ℕ
slack = 5 * 60

-- The certificates that are held, each epoch with its hash, and the files of the directory, each
-- epoch with its certificate.
pub record CertChain : Type 0 where
  pub anchor : ℤ
  pub len : ℕ
  pub entries : List (ℕ × List ℕ)
  pub files : List (ℕ × List ℕ)

-- The crates that are used: SHA-256, and a certificate of a key from one time to another. Signing
-- is random: what a call yields is a part of the answers to it.
pub record Signer : Type 0 where
  pub sha256 : List ℕ → List ℕ
  pub self_signed : ℕ → ℤ → ℤ → Option (List ℕ)
  pub written : ℕ → Bool
  pub now : ℤ

unfoldable pub epoch_at : CertChain → ℤ → ℕ
epoch_at c now = if leb_ℤ now c.anchor then 0 else pos_part (now -ℤ c.anchor) / stride

unfoldable pub window : CertChain → ℕ → ℤ × ℤ
window c epoch =
    let start = c.anchor +ℤ pos (epoch * stride) -ℤ pos slack in (start, start +ℤ pos validity)

abbrev pub of_epoch : ℕ → ℕ × List ℕ → Bool
of_epoch k e = e.0 == k

-- The epochs that can still be served, and the one before.
unfoldable pub prune : ℕ → List (ℕ × List ℕ) → List (ℕ × List ℕ)
prune keep_from files = retain (λ e. not (ltb ((e.0 + 1) % 2 ^ 64) keep_from)) files

-- A new certificate is in the directory before the old ones are removed.
abbrev minted : CertChain → ℕ → ℕ → Bool → Option (List ℕ) → CertChain × Option (List ℕ)
minted c epoch keep_from written none = (c, none)
minted c epoch keep_from false (some der) = (c, none)
minted c epoch keep_from true (some der) =
    (record c { files = prune keep_from ((epoch, der) ∷ c.files) }, some der)

abbrev from_file :
    Option (ℕ × List ℕ) → CertChain → CertChain × Option (List ℕ) → CertChain × Option (List ℕ)
from_file none c made = made
from_file (some e) c made = (c, some e.1)

unfoldable pub load_or_generate_cert : Signer → CertChain → ℕ → CertChain × Option (List ℕ)
unfolding prune
load_or_generate_cert s c epoch =
    let (not_before, not_after) = window c epoch in
    from_file (find_by (of_epoch epoch) c.files) c (
      minted c epoch (epoch_at c s.now) (s.written epoch)
        (s.self_signed epoch not_before not_after))

abbrev held : Signer → ℕ → CertChain × Option (List ℕ) → CertChain × Option (List ℕ)
held s epoch (c, none) = (c, none)
held s epoch (c, some der) =
    (record c { entries = (epoch, s.sha256 der) ∷ c.entries }, some (s.sha256 der))

abbrev cached :
    Option (ℕ × List ℕ) → CertChain → CertChain × Option (List ℕ) → CertChain × Option (List ℕ)
cached none c fresh = fresh
cached (some e) c fresh = (c, some e.1)

-- The hash of the certificate of an epoch.
unfoldable pub entry : Signer → CertChain → ℕ → CertChain × Option (List ℕ)
unfolding load_or_generate_cert
entry s c epoch =
    cached (find_by (of_epoch epoch) c.entries) c (held s epoch (load_or_generate_cert s c epoch))

-- The hashes of `n` epochs from `base` on, up to the first error.
abbrev collected :
    Option (List ℕ)
    → CertChain × Option (List (List ℕ))
    → CertChain
    → CertChain × Option (List (List ℕ))
collected none (c, hs) c1 = (c1, none)
collected (some h) (c, none) c1 = (c, none)
collected (some h) (c, some hs) c1 = (c, some (h ∷ hs))

unfoldable pub hashes_from : Signer → CertChain → ℕ → ℕ → CertChain × Option (List (List ℕ))
unfolding entry
hashes_from s c base zero = (c, some [])
hashes_from s c base (suc n) =
    let (c1, h) = entry s c base in collected h (hashes_from s c1 (base + 1) n) c1

unfoldable pub forward_hashes : Signer → CertChain → CertChain × Option (List (List ℕ))
unfolding hashes_from
forward_hashes s c = hashes_from s c (epoch_at c s.now) c.len

unfoldable pub current_hash : Signer → CertChain → CertChain × Option (List ℕ)
current_hash s c = entry s c (epoch_at c s.now)

-- The window is 1 to 64 certificates wide, and they are made at once.
abbrev loaded : CertChain × Option (List (List ℕ)) → Option CertChain
loaded (c, none) = none
loaded (c, some hs) = some c

unfoldable pub load : Signer → ℤ → ℕ → List (ℕ × List ℕ) → Option CertChain
load s anchor len files = loaded (
    forward_hashes s
      (record { anchor = anchor; len = max 1 (min len 64); entries = []; files = files }))
