-- ===== src/Enroll.antt =====
-- crates/quosh-server/src/enroll.rs: the nonces of enrolment links. The map is a list of its entries,
-- times are whole seconds and not negative.
pub mod Spent
mod Tests
use quosh.Base.{ℕ, ◌+◌, ◌*◌, Bool, not, Option, none, some, List, ◌∷◌, ltb, if◌then◌else◌, length}
use quosh.Devices.Search.{same, retain, find_by}

abbrev pub nonce_ttl_secs : ℕ
nonce_ttl_secs = 10 * 60

pub record Nonce : Type 0 where
  pub uid : ℕ
  pub expires : ℕ

abbrev pub NonceStore : Type 0
NonceStore = List (List ℕ × Nonce)

abbrev pub keyed : List ℕ → List ℕ × Nonce → Bool
keyed k e = same e.0 k

abbrev pub unexpired : ℕ → List ℕ × Nonce → Bool
unexpired now e = ltb now e.1.expires

-- `HashMap::remove`
abbrev pub remove : List ℕ → NonceStore → NonceStore
remove k s = retain (λ e. not (keyed k e)) s

-- `fresh` are the bytes that the generator filled in.
unfoldable pub issue : NonceStore → List ℕ → ℕ → ℕ → NonceStore × List ℕ
issue s fresh uid now = (
  (fresh, record { uid = uid; expires = now + nonce_ttl_secs })
      ∷ remove fresh (retain (unexpired now) s),
  fresh,
)

-- `(n.expires > now).then_some(n.uid)`
abbrev pub spend : ℕ → Option (List ℕ × Nonce) → Option ℕ
spend now none = none
spend now (some e) = if unexpired now e then some e.1.uid else none

unfoldable pub consume : NonceStore → List ℕ → ℕ → NonceStore × Option ℕ
consume s nonce now = (remove nonce s, spend now (find_by (keyed nonce) s))

unfoldable pub len : NonceStore → ℕ
len s = length s
