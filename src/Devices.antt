-- ===== src/Devices.antt =====
-- crates/quosh-server/src/devices.rs: the passkeys that are registered and the session tokens. A
-- string is the list of its bytes. Times are whole seconds and not negative.
pub mod Search
pub mod Tokens
pub mod Revoke
mod Tests
use quosh.Base.{
  ℕ, ◌+◌, ◌*◌, max, Bool, true, false, ◌&&◌, not, Option, none, some, List, [], ◌∷◌, ◌++◌, map, leb,
  ◌==◌, if◌then◌else◌, length,
}
use quosh.Devices.Search.{same, retain, find_by, modify_first}

-- One hour.
abbrev pub session_idle_secs : ℕ
session_idle_secs = 60 * 60

pub record Registration : Type 0 where
  pub uid : ℕ
  pub credential_id : List ℕ
  pub public_key : List ℕ
  pub rp_id : List ℕ
  pub origin : List ℕ
  pub user_name : List ℕ
  pub sign_count : ℕ
  pub created : ℕ
  pub last_used : Option ℕ

pub record SessionToken : Type 0 where
  pub token : List ℕ
  pub uid : ℕ
  pub credential_id : Option (List ℕ)
  pub last_seen : ℕ

pub record Persisted : Type 0 where
  pub registrations : List Registration
  pub tokens : List SessionToken

-- The crates that are used: `serde_json` and `hex`.
pub record Codec : Type 0 where
  pub to_json : Persisted → List ℕ
  pub from_json : List ℕ → Option Persisted
  pub hex : List ℕ → List ℕ

-- The file and what is held of it.
pub record DeviceStore : Type 0 where
  pub file : Option (List ℕ)
  pub inner : Persisted

abbrev pub credential_is : Option (List ℕ) → List ℕ → Bool
credential_is none id = false
credential_is (some c) id = same c id

abbrev pub owns : ℕ → Registration → Bool
owns uid r = r.uid == uid

abbrev pub holds : ℕ → SessionToken → Bool
holds uid t = t.uid == uid

abbrev pub named : List ℕ → Registration → Bool
named id r = same r.credential_id id

abbrev pub from_credential : ℕ → List ℕ → SessionToken → Bool
from_credential uid id t = holds uid t && credential_is t.credential_id id

-- The tokens live for this long after they were last seen.
abbrev pub live : List ℕ → ℕ → SessionToken → Bool
live key now t = same t.token key && leb now (t.last_seen + session_idle_secs)

abbrev pub uid_of : Option SessionToken → Option ℕ
uid_of none = none
uid_of (some t) = some t.uid

-- `Err` when the file was not written; what is held has changed by then.
module _ (codec : Codec) where
  unfoldable pub load : Option (List ℕ) → Option DeviceStore
  load none = some (record { file = none; inner = record { registrations = []; tokens = [] } })
  load (some bytes) = elim (codec.from_json bytes) [
    | none ↦ none
    | some g ↦ some (record { file = some bytes; inner = g })
  ]

  -- The file is replaced at once or not at all; `saved` says whether the system did it.
  unfoldable pub persist : DeviceStore → Bool → DeviceStore × Bool
  persist s saved = (if saved then record s { file = some (codec.to_json s.inner) } else s, saved)

  unfoldable pub register : DeviceStore → Registration → Bool → DeviceStore × Bool
  register s reg saved =
      persist
        (record s {
          inner = record s.inner {
            registrations =
                retain (λ r. not (named reg.credential_id r)) s.inner.registrations ++ (reg ∷ []);
          };
        })
        saved

  unfoldable pub touched : DeviceStore → List ℕ → ℕ → ℕ → Bool → DeviceStore × Bool
  touched s id sign_count now saved =
      persist
        (record s {
          inner = record s.inner {
            registrations =
                modify_first (named id)
                  (λ r. record r { sign_count = max r.sign_count sign_count; last_used = some now })
                  s.inner.registrations;
          };
        })
        saved

  -- `fresh` are the bytes that the generator filled in.
  unfoldable pub issue_token :
      DeviceStore → List ℕ → ℕ → Option (List ℕ) → ℕ → Bool → DeviceStore × Option (List ℕ)
  issue_token s fresh uid id now saved =
      let (s', written) =
        persist
          (record s {
            inner = record s.inner {
              tokens =
                  s.inner.tokens
                  ++ (record {
                    token = codec.hex fresh;
                    uid = uid;
                    credential_id = id;
                    last_seen = now;
                  }
                      ∷ []);
            };
          })
          saved in
      (s', if written then some fresh else none)

  unfoldable pub validate_token : DeviceStore → List ℕ → ℕ → Option ℕ
  validate_token s token now = uid_of (find_by (live (codec.hex token) now) s.inner.tokens)

  unfoldable pub touch_token : DeviceStore → List ℕ → ℕ → Bool → DeviceStore × Bool
  touch_token s token now saved =
      let key = codec.hex token in
      elim (find_by (λ t. same t.token key) s.inner.tokens) [
        | none ↦ (s, true)
        | some _ ↦
            persist
              (record s {
                inner = record s.inner {
                  tokens =
                      modify_first (λ t. same t.token key) (λ t. record t { last_seen = now })
                        s.inner.tokens;
                };
              })
              saved
      ]

  drop_token : DeviceStore → List ℕ → Bool → DeviceStore × Bool
  drop_token s old saved =
      persist
        (record s {
          inner = record s.inner {
            tokens = retain (λ t. not (same t.token (codec.hex old))) s.inner.tokens;
          };
        })
        saved

  unfoldable pub rotate_token :
      DeviceStore
      → Option (List ℕ)
      → List ℕ
      → ℕ
      → Option (List ℕ)
      → ℕ
      → Bool
      → Bool
      → DeviceStore × Option (List ℕ)
  unfolding drop_token
  rotate_token s none fresh uid id now dropped saved = issue_token s fresh uid id now saved
  rotate_token s (some old) fresh uid id now dropped saved =
      let (s', written) = drop_token s old dropped in
      if written then issue_token s' fresh uid id now saved else (s', none)

  unfoldable pub revoke_credential : DeviceStore → ℕ → List ℕ → Bool → DeviceStore × Option Bool
  revoke_credential s uid id saved =
      let kept = retain (λ r. not (owns uid r && named id r)) s.inner.registrations in
      let (s', written) =
        persist
          (record s {
            inner = record {
              registrations = kept;
              tokens = retain (λ t. not (from_credential uid id t)) s.inner.tokens;
            };
          })
          saved in
      (s', if written then some (not (length kept == length s.inner.registrations)) else none)

  unfoldable pub revoke_all : DeviceStore → ℕ → Bool → DeviceStore × Option ℕ
  revoke_all s uid saved =
      let (s', written) =
        persist
          (record s {
            inner = record {
              registrations = retain (λ r. not (owns uid r)) s.inner.registrations;
              tokens = retain (λ t. not (holds uid t)) s.inner.tokens;
            };
          })
          saved in
      (s', if written then some (length (retain (owns uid) s.inner.registrations)) else none)

  unfoldable pub revoke_sessions : DeviceStore → ℕ → Bool → DeviceStore × Option ℕ
  revoke_sessions s uid saved =
      let (s', written) =
        persist
          (record s {
            inner = record s.inner { tokens = retain (λ t. not (holds uid t)) s.inner.tokens };
          })
          saved in
      (s', if written then some (length (retain (holds uid) s.inner.tokens)) else none)

unfoldable pub find : DeviceStore → List ℕ → Option Registration
find s id = find_by (named id) s.inner.registrations

unfoldable pub registrations_of : DeviceStore → ℕ → List Registration
registrations_of s uid = retain (owns uid) s.inner.registrations

-- Each token with the time it was last seen.
unfoldable pub tokens_of : DeviceStore → ℕ → List (List ℕ × ℕ)
tokens_of s uid = map (λ t. (t.token, t.last_seen)) (retain (holds uid) s.inner.tokens)
