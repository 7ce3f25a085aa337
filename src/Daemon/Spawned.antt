-- ===== src/Daemon/Spawned.antt =====
-- The session that was just started is in the registry.
use quosh.Base.{
  ℕ, ◌≡◌, refl, ◌⊎◌, inl, inr, Bool, true, false, some, List, leb, if◌then◌else◌, length,
}
use quosh.Daemon.{
  max_sessions, max_per_uid, owned_by, with_id, insert, spawn_checked, spawn_session, Daemon,
  Problem, Outside,
}
use quosh.Devices.Search.{retain, find_by, same_iff}
use quosh.Transport.Admit.{Registered}
use quosh.Proto.Message.{validate_dims, DimsError}
use quosh.Session.Handle.{spawned}

-- The session is in the registry and the user's, and this is its token.
pub record Theirs (d : Daemon) (uid : ℕ) (id secret : List ℕ) : Type 0 where
  pub entry : List ℕ × Registered
  pub found : find_by (with_id id) d.sessions ≡ some entry
  pub own : entry.1.uid ≡ uid
  pub token : entry.1.token ≡ secret

-- Where a session came of it, it is theirs; the device store is as it was.
abbrev pub Started : Daemon → ℕ → Daemon × ((List ℕ × List ℕ) ⊎ Problem) → Type 0
Started d uid (d', inr e) = d'.devices ≡ d.devices
Started d uid (d', inl (id, secret)) = (d'.devices ≡ d.devices) × Theirs d' uid id secret

module _ (d : Daemon) (uid : ℕ) (o : Outside) where
  if_Started :
      (b : Bool) (x y : Daemon × ((List ℕ × List ℕ) ⊎ Problem))
      → Started d uid x
      → Started d uid y
      → Started d uid (if b then x else y)
  if_Started true x y h k = h
  if_Started false x y h k = k

  spawn_checked-Started :
      (max_cell_count : ℕ) (dims : (ℕ × ℕ) ⊎ DimsError)
      → Started d uid (spawn_checked max_cell_count d uid o dims)
  unfolding spawn_checked
  spawn_checked-Started max_cell_count (inr e) = refl
  spawn_checked-Started max_cell_count (inl (cols, rows)) =
      if_Started (leb max_sessions (length d.sessions)) _ _ refl (
        if_Started (leb max_per_uid (length (retain (owned_by uid) d.sessions))) _ _ refl
          (if_Started o.started _ _ (refl, new) refl))
    where
      made : Registered
      made = record { token = o.token; uid = uid; sess = spawned cols rows o.now_ms }

      new : Theirs (record d { sessions = insert o.id made d.sessions }) uid o.id o.token
      new = record {
        entry = (o.id, made);
        found = rw ((same_iff o.id o.id).1 refl) refl;
        own = refl;
        token = refl;
      }

  pub spawn_session-Started :
      (max_cell_count cols rows : ℕ)
      → Started d uid (spawn_session max_cell_count d uid cols rows o)
  unfolding spawn_session
  spawn_session-Started max_cell_count cols rows =
      spawn_checked-Started max_cell_count (validate_dims max_cell_count cols rows)
