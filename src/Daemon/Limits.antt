-- ===== src/Daemon/Limits.antt =====
-- The limits on the sessions: of one user, and of all.
use quosh.Base.{
  ℕ, ◌≤◌, ◌<◌, ◌≡◌, refl, sym, ap, ◌⊎◌, inl, inr, Bool, true, false, not, Option, none, some, List,
  [], ◌∷◌, arith, leb, ◌==◌, if◌then◌else◌, ==_iff, Bool-cases, length,
}
use quosh.Daemon.{
  max_sessions, max_per_uid, Registry, owned_by, with_id, remove, insert, destroy, destroy_all,
  idle_ids, spawn_checked, spawn_session, create, enroll_nonce, revoked_in, revoke_one, resolved,
  revoke, op_idle, op_ping, op_create, op_enroll_nonce, op_devices, op_revoke, dispatch_op,
  dispatch_with, dispatch, Daemon, HelperRequest, Problem, HelperResponse, Outside,
}
use quosh.Devices.Search.{same, retain, length-retain_le}
use mathlib.Core.Path.{subst}
use quosh.Devices.{Codec, DeviceStore}
use quosh.Transport.Admit.{Registered}
use quosh.Proto.Message.{validate_dims, DimsError}
use quosh.Session.Handle.{spawned}

pub record WithinLimits (g : Registry) : Type 0 where
  pub total : length g ≤ max_sessions
  pub per_user : (uid : ℕ) → length (retain (owned_by uid) g) ≤ max_per_uid

module _ {A : Type 0} where
  retain_fewer :
      (p q : A → Bool) (xs : List A) → length (retain p (retain q xs)) ≤ length (retain p xs)
  retain_fewer p q [] = omega arith
  retain_fewer p q (x ∷ xs) = elim (Bool-cases (q x)) [
    | inl t ↦ elim (Bool-cases (p x)) [
      | inl u ↦ rw (t, u) (omega (arith, retain_fewer p q xs))
      | inr u ↦ rw (t, u) (retain_fewer p q xs)
    ]
    | inr f ↦ elim (Bool-cases (p x)) [
      | inl u ↦ rw (f, u) (omega (arith, retain_fewer p q xs))
      | inr u ↦ rw (f, u) (retain_fewer p q xs)
    ]
  ]

remove-WithinLimits : (id : List ℕ) (g : Registry) → WithinLimits g → WithinLimits (remove id g)
remove-WithinLimits id g w = record {
  total = omega (arith, w.total, length-retain_le (λ e. not (with_id id e)) g);
  per_user =
      λ uid. omega (arith, w.per_user uid, retain_fewer (owned_by uid) (λ e. not (with_id id e)) g);
}

-- One more of a user who has fewer than the limit.
insert-WithinLimits :
    (id : List ℕ) (r : Registered) (g : Registry)
    → WithinLimits g
    → length g < max_sessions
    → length (retain (owned_by r.uid) g) < max_per_uid
    → WithinLimits (insert id r g)
insert-WithinLimits id r g w all own = record {
  total = omega (arith, all, length-retain_le (λ e. not (with_id id e)) g);
  per_user = λ uid. elim (Bool-cases (r.uid == uid)) [
    | inl t ↦
        let e : r.uid ≡ uid = (==_iff r.uid uid).0 t in
        rw t (
          omega (
            arith,
            ap (λ u. length (retain (owned_by u) g)) e,
            own,
            retain_fewer (owned_by uid) (λ x. not (with_id id x)) g,
          ))
    | inr f ↦
        rw f
          (omega (arith, w.per_user uid, retain_fewer (owned_by uid) (λ x. not (with_id id x)) g))
  ];
}

destroy_all-WithinLimits :
    (ids : List (List ℕ)) (d : Daemon)
    → WithinLimits d.sessions
    → WithinLimits (destroy_all d ids).sessions
unfolding destroy
destroy_all-WithinLimits [] d w = w
destroy_all-WithinLimits (id ∷ ids) d w =
    destroy_all-WithinLimits ids (destroy d id) (remove-WithinLimits id d.sessions w)

module _ (max_cell_count : ℕ) where
  spawn_checked-WithinLimits :
      (d : Daemon) (uid : ℕ) (o : Outside) (dims : (ℕ × ℕ) ⊎ DimsError)
      → WithinLimits d.sessions
      → WithinLimits (spawn_checked max_cell_count d uid o dims).0.sessions
  unfolding spawn_checked
  spawn_checked-WithinLimits d uid o (inr e) w = w
  spawn_checked-WithinLimits d uid o (inl (cols, rows)) w =
      elim (Bool-cases (leb max_sessions (length d.sessions))) [
        | inl a ↦ rw a w
        | inr a ↦
            rw a (elim (Bool-cases (leb max_per_uid (length (retain (owned_by uid) d.sessions)))) [
              | inl b ↦ rw b w
              | inr b ↦ rw b (elim (Bool-cases o.started) [
                | inr c ↦ rw c w
                | inl c ↦ rw c (
                    insert-WithinLimits o.id
                      (record { token = o.token; uid = uid; sess = spawned cols rows o.now_ms })
                      d.sessions w (ground arith) (ground arith))
              ])
            ])
      ]

  spawn_session-WithinLimits :
      (d : Daemon) (uid cols rows : ℕ) (o : Outside)
      → WithinLimits d.sessions
      → WithinLimits (spawn_session max_cell_count d uid cols rows o).0.sessions
  unfolding spawn_session
  spawn_session-WithinLimits d uid cols rows o w =
      spawn_checked-WithinLimits d uid o (validate_dims max_cell_count cols rows) w

  if_killed :
      (b : Bool) (x y : Daemon)
      → WithinLimits x.sessions
      → WithinLimits y.sessions
      → WithinLimits (if b then x else y).sessions
  if_killed true x y h k = h
  if_killed false x y h k = k

  create-WithinLimits :
      (codec : Codec) (d : Daemon) (uid : ℕ) (req : HelperRequest) (resp : HelperResponse)
      (o : Outside)
      → WithinLimits d.sessions
      → WithinLimits (create max_cell_count codec d uid req resp o).0.sessions
  unfolding create
  create-WithinLimits codec d uid req resp o w = spawn_session-WithinLimits _ uid _ _ o (
      if_killed req.kill_idle _ d (destroy_all-WithinLimits (idle_ids d.sessions uid o.now_ms) d w)
        w)

-- What holds of the daemon after either branch.
pub if_op :
    {R : Type 0} (P : Daemon → Type 0) (b : Bool) (x y : Daemon × R)
    → P x.0
    → P y.0
    → P (if b then x else y).0
if_op P true x y h k = h
if_op P false x y h k = k

module _ (codec : Codec) where
  revoked_in-sessions :
      (d : Daemon) (resp : HelperResponse) (r : DeviceStore × Option ℕ)
      → (revoked_in codec d resp r).0.sessions ≡ d.sessions
  revoked_in-sessions d resp (s, none) = refl
  revoked_in-sessions d resp (s, some n) = refl

  revoke_one-sessions :
      (d : Daemon) (uid : ℕ) (resp : HelperResponse) (o : Outside) (r : Option (List ℕ ⊎ Problem))
      → (revoke_one codec d uid resp o r).0.sessions ≡ d.sessions
  unfolding revoke_one
  revoke_one-sessions d uid resp o none = refl
  revoke_one-sessions d uid resp o (some (inr e)) = refl
  revoke_one-sessions d uid resp o (some (inl cred)) = revoked_in-sessions d resp _

  pub revoke-sessions :
      (d : Daemon) (uid : ℕ) (req : HelperRequest) (resp : HelperResponse) (o : Outside)
      → (revoke codec d uid req resp o).0.sessions ≡ d.sessions
  unfolding revoke
  revoke-sessions d uid req resp o =
      if_op (λ x. x.sessions ≡ d.sessions) req.all _ _ (revoked_in-sessions d resp _)
        (if_op (λ x. x.sessions ≡ d.sessions) req.sessions _ _ (revoked_in-sessions d resp _)
          (revoke_one-sessions d uid resp o (resolved codec d.devices uid req.credential)))

module _ (max_cell_count : ℕ) (codec : Codec) where
  dispatch_op-WithinLimits :
      (d : Daemon) (uid : ℕ) (req : HelperRequest) (base : HelperResponse) (o : Outside)
      → WithinLimits d.sessions
      → WithinLimits (dispatch_op max_cell_count codec d uid req base o).0.sessions
  unfolding dispatch_op enroll_nonce
  dispatch_op-WithinLimits d uid req base o w =
      let P = λ (x : Daemon). WithinLimits x.sessions in
      if_op P (same req.op op_idle) _ _ w (
        if_op P (same req.op op_ping) _ _ w (
          if_op P (same req.op op_create) _ _
            (create-WithinLimits max_cell_count codec d uid req base o w)
            (if_op P (same req.op op_enroll_nonce) _ _ w (
              if_op P (same req.op op_devices) _ _ w (
                if_op P (same req.op op_revoke) _ _
                  (subst WithinLimits (sym (revoke-sessions codec d uid req base o)) w) w)))))

  -- No request takes the sessions over 128, or those of one user over 32.
  pub dispatch-WithinLimits :
      (d : Daemon) (uid : ℕ) (req : HelperRequest) (o : Outside)
      → WithinLimits d.sessions
      → WithinLimits (dispatch max_cell_count codec d uid req o).0.sessions
  unfolding dispatch dispatch_with
  dispatch-WithinLimits d uid req o w = by_cert o.cert
    where
      by_cert :
          (c : Option (List ℕ))
          → WithinLimits (dispatch_with max_cell_count codec d uid req o c).0.sessions
      by_cert none = w
      by_cert (some h) = dispatch_op-WithinLimits d uid req _ o w
