-- ===== src/Daemon/Isolation.antt =====
-- A request of one user leaves the sessions, devices and tokens of every other as they were.
use quosh.Base.{
  ℕ, ◌≡◌, refl, ap, ◌∙◌, ◌≢◌, ◌⊎◌, inl, inr, Bool, true, false, not, Option, none, some, List, [],
  ◌∷◌, map, arith, leb, ◌==◌, if◌then◌else◌, ==_iff, Bool-cases, length, All,
}
use quosh.Daemon.{
  max_sessions, max_per_uid, Registry, owned_by, with_id, remove, insert, destroy, destroy_all,
  idle_of, is_idle, idle_ids, spawn_checked, spawn_session, create, enroll_nonce, revoked_in,
  revoke_one, resolved, revoke, op_idle, op_ping, op_create, op_enroll_nonce, op_devices, op_revoke,
  dispatch_op, dispatch_with, dispatch, Daemon, HelperRequest, Problem, HelperResponse, Outside,
}
use quosh.Devices.Search.{same, retain, find_by, find_by_retained, same_swap}
use quosh.Devices.{owns, registrations_of, tokens_of, Codec, DeviceStore}
use quosh.Transport.Admit.{Registered}
use quosh.Proto.Message.{validate_dims, DimsError}
use quosh.Daemon.Limits.{if_op}
use quosh.Devices.Revoke.{revoke_all-SignsOut, revoke_sessions-SignsOut, revoke_credential-retain}

-- What belongs to `v` is the same in both.
pub record Untouched (v : ℕ) (d d' : Daemon) : Type 0 where
  pub sessions : retain (owned_by v) d'.sessions ≡ retain (owned_by v) d.sessions
  pub registrations : registrations_of d'.devices v ≡ registrations_of d.devices v
  pub tokens : tokens_of d'.devices v ≡ tokens_of d.devices v

-- One entry for each id.
abbrev pub Unique : Registry → Type 0
Unique [] = Unit
Unique (e ∷ g) = (find_by (with_id e.0) g ≡ none) × Unique g

-- Every session of this id is the user's.
abbrev Owns : ℕ → List ℕ → Registry → Type 0
Owns uid id g = All (λ e. with_id id e ≡ true → owned_by uid e ≡ true) g

other_user :
    (uid v : ℕ) (e : List ℕ × Registered) → v ≢ uid → owned_by uid e ≡ true → owned_by v e ≡ false
other_user uid v e ne h =
    ground (arith, ==_iff e.1.uid uid, ==_iff e.1.uid v, (==_iff e.1.uid uid).0 h)

Owns-retain :
    (uid : ℕ) (id : List ℕ) (q : List ℕ × Registered → Bool) (g : Registry)
    → Owns uid id g
    → Owns uid id (retain q g)
Owns-retain uid id q [] h = tt
Owns-retain uid id q (e ∷ g) (h, hs) = elim (Bool-cases (q e)) [
  | inl t ↦ rw t (h, Owns-retain uid id q g hs)
  | inr f ↦ rw f (Owns-retain uid id q g hs)
]

remove-other :
    (uid v : ℕ) (id : List ℕ) (g : Registry)
    → v ≢ uid
    → Owns uid id g
    → retain (owned_by v) (remove id g) ≡ retain (owned_by v) g
remove-other uid v id [] ne h = refl
remove-other uid v id (e ∷ g) ne (h, hs) = elim (Bool-cases (with_id id e)) [
  | inl t ↦ rw (t, other_user uid v e ne (h t)) (remove-other uid v id g ne hs)
  | inr f ↦ rw f (ap (λ r. if owned_by v e then (e ∷ r) else r) (remove-other uid v id g ne hs))
]

destroy_all-other :
    (uid v : ℕ) (ids : List (List ℕ)) (d : Daemon)
    → v ≢ uid
    → All (λ id. Owns uid id d.sessions) ids
    → retain (owned_by v) (destroy_all d ids).sessions ≡ retain (owned_by v) d.sessions
unfolding destroy
destroy_all-other uid v [] d ne h = refl
destroy_all-other uid v (id ∷ ids) d ne (h, hs) =
    destroy_all-other uid v ids (destroy d id) ne (kept ids hs)
    ∙ remove-other uid v id d.sessions ne h
  where
    kept :
        (l : List (List ℕ))
        → All (λ x. Owns uid x d.sessions) l
        → All (λ x. Owns uid x (remove id d.sessions)) l
    kept [] h = tt
    kept (x ∷ l) (h, hs) = (Owns-retain uid x (λ e. not (with_id id e)) d.sessions h, kept l hs)

-- A key that is not found owns nothing.
none-Owns : (uid : ℕ) (id : List ℕ) (g : Registry) → find_by (with_id id) g ≡ none → Owns uid id g
none-Owns uid id [] h = tt
none-Owns uid id (e ∷ g) h = elim (Bool-cases (with_id id e)) [
  | inl t ↦ let n : find_by (with_id id) (e ∷ g) ≡ some e = rw t refl in absurd (ground arith)
  | inr f ↦ (λ t. cc, none-Owns uid id g (rw f at h))
]

-- The other keys are not this one.
keys_other :
    (uid : ℕ) (e : List ℕ × Registered) (q : List ℕ × Registered → Bool) (g : Registry)
    → find_by (with_id e.0) g ≡ none
    → All (λ id. with_id id e ≡ false) (map (λ x. x.0) (retain q g))
keys_other uid e q [] h = tt
keys_other uid e q (x ∷ g) h = elim (Bool-cases (with_id e.0 x)) [
  | inl t ↦ let n : find_by (with_id e.0) (x ∷ g) ≡ some x = rw t refl in absurd (ground arith)
  | inr f ↦ elim (Bool-cases (q x)) [
    | inl t ↦ rw t (same_swap e.0 x.0 ∙ f, keys_other uid e q g (rw f at h))
    | inr n ↦ rw n (keys_other uid e q g (rw f at h))
  ]
]

idle_owned :
    (uid now : ℕ) (e : List ℕ × Registered)
    → is_idle (idle_of uid now e) ≡ true
    → owned_by uid e ≡ true
idle_owned uid now e = elim (Bool-cases (owned_by uid e)) [
  | inl t ↦ λ h. t
  | inr f ↦ rw f (λ h. cc)
]

idle_ids-Owns :
    (uid now : ℕ) (g : Registry) → Unique g → All (λ id. Owns uid id g) (idle_ids g uid now)
idle_ids-Owns uid now [] u = tt
idle_ids-Owns uid now (e ∷ g) (here, u) =
    let rest =
      both (idle_ids g uid now) (keys_other uid e (λ x. is_idle (idle_of uid now x)) g here)
        (idle_ids-Owns uid now g u) in
    elim (Bool-cases (is_idle (idle_of uid now e))) [
      | inl t ↦ rw t ((λ _. idle_owned uid now e t, none-Owns uid e.0 g here), rest)
      | inr f ↦ rw f rest
    ]
  where
    both :
        (l : List (List ℕ))
        → All (λ id. with_id id e ≡ false) l
        → All (λ id. Owns uid id g) l
        → All (λ id. Owns uid id (e ∷ g)) l
    both [] h k = tt
    both (id ∷ l) (h, hs) (k, ks) = ((λ t. cc, k), both l hs ks)

destroy_all-devices : (ids : List (List ℕ)) (d : Daemon) → (destroy_all d ids).devices ≡ d.devices
unfolding destroy
destroy_all-devices [] d = refl
destroy_all-devices (id ∷ ids) d = destroy_all-devices ids (destroy d id)

destroy_all-fresh :
    (ids : List (List ℕ)) (k : List ℕ) (d : Daemon)
    → find_by (with_id k) d.sessions ≡ none
    → find_by (with_id k) (destroy_all d ids).sessions ≡ none
unfolding destroy
destroy_all-fresh [] k d h = h
destroy_all-fresh (id ∷ ids) k d h =
    destroy_all-fresh ids k (destroy d id)
      (find_by_retained (with_id k) (λ e. not (with_id id e)) d.sessions h)

module _ (uid v : ℕ) (ne : v ≢ uid) where
  same_state : (d : Daemon) → Untouched v d d
  same_state d = record { sessions = refl; registrations = refl; tokens = refl }

  Untouched-trans : (a b c : Daemon) → Untouched v a b → Untouched v b c → Untouched v a c
  Untouched-trans a b c h k = record {
    sessions = k.sessions ∙ h.sessions;
    registrations = k.registrations ∙ h.registrations;
    tokens = k.tokens ∙ h.tokens;
  }

  destroy_all-Untouched :
      (ids : List (List ℕ)) (d : Daemon)
      → All (λ id. Owns uid id d.sessions) ids
      → Untouched v d (destroy_all d ids)
  destroy_all-Untouched ids d h = record {
    sessions = destroy_all-other uid v ids d ne h;
    registrations = ap (λ s. registrations_of s v) (destroy_all-devices ids d);
    tokens = ap (λ s. tokens_of s v) (destroy_all-devices ids d);
  }

  insert-other :
      (id : List ℕ) (r : Registered) (g : Registry)
      → r.uid ≡ uid
      → find_by (with_id id) g ≡ none
      → retain (owned_by v) (insert id r g) ≡ retain (owned_by v) g
  insert-other id r g own fresh =
      rw (other_user uid v (id, r) ne ((==_iff r.uid uid).1 own))
        (remove-other uid v id g ne (none-Owns uid id g fresh))

  module _ (max_cell_count : ℕ) (o : Outside) where
    spawn_checked-other :
        (d : Daemon) (dims : (ℕ × ℕ) ⊎ DimsError)
        → find_by (with_id o.id) d.sessions ≡ none
        → Untouched v d (spawn_checked max_cell_count d uid o dims).0
    unfolding spawn_checked
    spawn_checked-other d (inr e) fresh = same_state d
    spawn_checked-other d (inl (cols, rows)) fresh =
        if_op (Untouched v d) (leb max_sessions (length d.sessions)) _ _ (same_state d) (
          if_op (Untouched v d) (leb max_per_uid (length (retain (owned_by uid) d.sessions))) _ _
            (same_state d)
            (if_op (Untouched v d) o.started _ _
              (record {
                sessions = insert-other o.id _ d.sessions refl fresh;
                registrations = refl;
                tokens = refl;
              })
              (same_state d)))

    spawn_session-other :
        (d : Daemon) (cols rows : ℕ)
        → find_by (with_id o.id) d.sessions ≡ none
        → Untouched v d (spawn_session max_cell_count d uid cols rows o).0
    unfolding spawn_session
    spawn_session-other d cols rows fresh =
        spawn_checked-other d (validate_dims max_cell_count cols rows) fresh

    create-other :
        (codec : Codec) (d : Daemon) (req : HelperRequest) (resp : HelperResponse)
        → Unique d.sessions
        → find_by (with_id o.id) d.sessions ≡ none
        → Untouched v d (create max_cell_count codec d uid req resp o).0
    unfolding create
    create-other codec d req resp u fresh = elim (Bool-cases req.kill_idle) [
      | inl t ↦ rw t (
          Untouched-trans d _ _
            (destroy_all-Untouched ids d (idle_ids-Owns uid o.now_ms d.sessions u))
            (spawn_session-other (destroy_all d ids) _ _ (destroy_all-fresh ids o.id d fresh)))
      | inr f ↦ rw f (spawn_session-other d _ _ fresh)
    ]
      where
        ids : List (List ℕ)
        ids = idle_ids d.sessions uid o.now_ms

  module _ (codec : Codec) where
    revoked_in-other :
        (d : Daemon) (resp : HelperResponse) (r : DeviceStore × Option ℕ)
        → registrations_of r.0 v ≡ registrations_of d.devices v
        → tokens_of r.0 v ≡ tokens_of d.devices v
        → Untouched v d (revoked_in codec d resp r).0
    revoked_in-other d resp (s, none) h k = record {
      sessions = refl;
      registrations = h;
      tokens = k;
    }
    revoked_in-other d resp (s, some n) h k = record {
      sessions = refl;
      registrations = h;
      tokens = k;
    }

    other_test : (v == uid) ≡ false
    other_test = ground (arith, ==_iff v uid)

    retain_false :
        {A : Type 0} (p : A → Bool) (l : List A) → ((x : A) → p x ≡ true) → retain p l ≡ l
    retain_false p [] h = refl
    retain_false p (x ∷ l) h = rw (h x) (ap (λ r. x ∷ r) (retain_false p l h))

    revoke_one-other :
        (d : Daemon) (resp : HelperResponse) (o : Outside) (r : Option (List ℕ ⊎ Problem))
        → Untouched v d (revoke_one codec d uid resp o r).0
    unfolding revoke_one tokens_of
    revoke_one-other d resp o none = same_state d
    revoke_one-other d resp o (some (inr e)) = same_state d
    revoke_one-other d resp o (some (inl cred)) =
        let (regs, toks, _) = revoke_credential-retain codec d.devices uid cred o.saved v in
        revoked_in-other d resp _ (regs ∙ retain_false _ _ (λ x. rw other_test refl)) (
          ap (map (λ t. (t.token, t.last_seen)))
            (toks ∙ retain_false _ _ (λ x. rw other_test refl)))

    revoke-other :
        (d : Daemon) (req : HelperRequest) (resp : HelperResponse) (o : Outside)
        → Untouched v d (revoke codec d uid req resp o).0
    unfolding revoke registrations_of
    revoke-other d req resp o =
        let (signed_out, unregistered, _) = revoke_all-SignsOut codec d.devices uid o.saved in
        let (out, kept) = revoke_sessions-SignsOut codec d.devices uid o.saved in
        if_op (Untouched v d) req.all _ _
          (revoked_in-other d resp _ (unregistered.left v ∙ rw other_test refl)
            (signed_out.tokens_left v ∙ rw other_test refl))
          (if_op (Untouched v d) req.sessions _ _
            (revoked_in-other d resp _ (ap (retain (owns v)) kept)
              (out.tokens_left v ∙ rw other_test refl))
            (revoke_one-other d resp o (resolved codec d.devices uid req.credential)))

  module _ (max_cell_count : ℕ) (codec : Codec) (o : Outside) where
    dispatch_op-other :
        (d : Daemon) (req : HelperRequest) (base : HelperResponse)
        → Unique d.sessions
        → find_by (with_id o.id) d.sessions ≡ none
        → Untouched v d (dispatch_op max_cell_count codec d uid req base o).0
    unfolding dispatch_op enroll_nonce
    dispatch_op-other d req base u fresh =
        if_op (Untouched v d) (same req.op op_idle) _ _ (same_state d) (
          if_op (Untouched v d) (same req.op op_ping) _ _ (same_state d) (
            if_op (Untouched v d) (same req.op op_create) _ _
              (create-other max_cell_count o codec d req base u fresh)
              (if_op (Untouched v d) (same req.op op_enroll_nonce) _ _
                (record { sessions = refl; registrations = refl; tokens = refl })
                (if_op (Untouched v d) (same req.op op_devices) _ _ (same_state d) (
                  if_op (Untouched v d) (same req.op op_revoke) _ _
                    (revoke-other codec d req base o) (same_state d))))))

  -- A request of one user leaves the sessions, the registrations and the tokens of every other as
  -- they were, if the registry has one session for each id and the id for a new session is fresh.
  pub dispatch-Untouched :
      (max_cell_count : ℕ) (codec : Codec) (d : Daemon) (req : HelperRequest) (o : Outside)
      → Unique d.sessions
      → find_by (with_id o.id) d.sessions ≡ none
      → Untouched v d (dispatch max_cell_count codec d uid req o).0
  unfolding dispatch dispatch_with
  dispatch-Untouched max_cell_count codec d req o u fresh = by_cert o.cert
    where
      by_cert :
          (c : Option (List ℕ)) → Untouched v d (dispatch_with max_cell_count codec d uid req o c).0
      by_cert none = same_state d
      by_cert (some h) = dispatch_op-other max_cell_count codec o d req _ u fresh
