-- ===== src/Devices/Revoke.antt =====
-- What the revocations of the store forget, and what they keep.
use quosh.Base.{
  ℕ, ◌≡◌, refl, sym, ap, ◌∙◌, ◌≢◌, inl, inr, Bool, true, false, ◌&&◌, not, none, some, List, [],
  ◌∷◌, map, arith, ◌==◌, if◌then◌else◌, ==_iff, Bool-cases, length,
}
use quosh.Devices.Search.{
  retain, find_by, retain-retain-none, retain-retain, retain-agree, found, found-removed,
}
use quosh.Devices.{
  credential_is, owns, holds, named, from_credential, live, uid_of, persist, validate_token,
  revoke_credential, revoke_all, revoke_sessions, registrations_of, tokens_of, SessionToken, Codec,
  DeviceStore,
}
use quosh.Devices.Tokens.{persist-inner}

-- Nobody is signed in as the user, and the tokens of all others are as they were.
pub record SignsOut (codec : Codec) (uid : ℕ) (s s' : DeviceStore) : Type 0 where
  pub tokens_left : (v : ℕ) → tokens_of s' v ≡ (if v == uid then [] else tokens_of s v)
  pub refused : (token : List ℕ) (now : ℕ) → validate_token codec s' token now ≢ some uid

-- The user's registrations are gone, and those of all others are as they were.
pub record Unregisters (uid : ℕ) (s s' : DeviceStore) : Type 0 where
  pub left : (v : ℕ) → registrations_of s' v ≡ (if v == uid then [] else registrations_of s v)

-- What belongs to the user `v` of a list without the entries of `uid`.
retain_user :
    {A : Type 0} (of : ℕ → A → Bool) (user : A → ℕ) (uid v : ℕ) (xs : List A)
    → ((x : A) (u : ℕ) → of u x ≡ (user x == u))
    → retain (of v) (retain (λ x. not (of uid x)) xs) ≡ (if v == uid then [] else retain (of v) xs)
retain_user {A = A} of user uid v xs h = elim (Bool-cases (v == uid)) [
  | inl t ↦
      let e : v ≡ uid = (==_iff v uid).0 t in
      rw t (
        retain-retain-none (of v) (λ x. not (of uid x)) xs
          (λ x g. ap (λ u. not (of u x)) (sym e) ∙ ap not g))
  | inr f ↦ rw f (
      retain-retain (of v) (λ x. not (of uid x)) xs
        (λ x g. ap not (other_user x f (sym (h x v) ∙ g))))
]
  where
    other_user : (x : A) → (v == uid) ≡ false → (user x == v) ≡ true → of uid x ≡ false
    other_user x f g =
        h x uid ∙ (let e : (user x == uid) ≡ false = ground (arith, ==_iff v uid) in e)

not_held : (uid : ℕ) (t : SessionToken) → holds uid t ≡ false → some t.uid ≢ some uid
not_held uid t f h =
    let e : t.uid ≡ uid = cc in let g : holds uid t ≡ true = (==_iff t.uid uid).1 e in ground arith

-- A token that is found in a list without the user's is not the user's.
find-other :
    (uid : ℕ) (p : SessionToken → Bool) (ts : List SessionToken)
    → uid_of (find_by p (retain (λ t. not (holds uid t)) ts)) ≢ some uid
find-other uid p [] = λ h. ground arith
find-other uid p (t ∷ ts) = elim (Bool-cases (holds uid t)) [
  | inl e ↦ rw e (find-other uid p ts)
  | inr f ↦ elim (Bool-cases (p t)) [
    | inl g ↦ rw (f, g) (not_held uid t f)
    | inr g ↦ rw (f, g) (find-other uid p ts)
  ]
]

unregisters :
    (uid : ℕ) (s s' : DeviceStore)
    → s'.inner.registrations ≡ retain (λ r. not (owns uid r)) s.inner.registrations
    → Unregisters uid s s'
unfolding registrations_of
unregisters uid s s' e = record {
  left = λ v.
      ap (retain (owns v)) e
      ∙ retain_user owns (λ r. r.uid) uid v s.inner.registrations (λ x u. refl);
}

map-if :
    {A B : Type 0} (f : A → B) (b : Bool) (xs : List A)
    → map f (if b then [] else xs) ≡ (if b then [] else map f xs)
map-if f true xs = refl
map-if f false xs = refl

signs_out :
    (codec : Codec) (uid : ℕ) (s s' : DeviceStore)
    → s'.inner.tokens ≡ retain (λ t. not (holds uid t)) s.inner.tokens
    → SignsOut codec uid s s'
unfolding tokens_of validate_token
signs_out codec uid s s' e = record {
  tokens_left = λ v.
      ap (λ ts. map summary (retain (holds v) ts)) e
      ∙ ap (map summary) (retain_user holds (λ t. t.uid) uid v s.inner.tokens (λ x u. refl))
      ∙ map-if summary (v == uid) (retain (holds v) s.inner.tokens);
  refused = λ token now h.
      find-other uid (live (codec.hex token) now) s.inner.tokens
        (sym (ap (λ ts. uid_of (find_by (live (codec.hex token) now) ts)) e) ∙ h);
}
  where
    summary : SessionToken → List ℕ × ℕ
    summary t = (t.token, t.last_seen)

module _ (codec : Codec) where
  -- `revoke_all` forgets the user's registrations and tokens, and keeps those of all others; it
  -- answers with the number of registrations there were, if the file was written.
  pub revoke_all-SignsOut :
      (s : DeviceStore) (uid : ℕ) (saved : Bool)
      → SignsOut codec uid s (revoke_all codec s uid saved).0
        × Unregisters uid s (revoke_all codec s uid saved).0
        × ((revoke_all codec s uid saved).1
            ≡ (if saved then some (length (registrations_of s uid)) else none))
  unfolding revoke_all registrations_of persist
  revoke_all-SignsOut s uid saved = (
    signs_out codec uid s (revoke_all codec s uid saved).0
        (ap (λ g. g.tokens) (persist-inner codec _ saved)),
    unregisters uid s (revoke_all codec s uid saved).0
        (ap (λ g. g.registrations) (persist-inner codec _ saved)),
    refl,
  )

  -- `revoke_sessions` forgets the user's tokens, and keeps those of all others and every
  -- registration.
  pub revoke_sessions-SignsOut :
      (s : DeviceStore) (uid : ℕ) (saved : Bool)
      → SignsOut codec uid s (revoke_sessions codec s uid saved).0
        × ((revoke_sessions codec s uid saved).0.inner.registrations ≡ s.inner.registrations)
  unfolding revoke_sessions
  revoke_sessions-SignsOut s uid saved = (
    signs_out codec uid s (revoke_sessions codec s uid saved).0
        (ap (λ g. g.tokens) (persist-inner codec _ saved)),
    ap (λ g. g.registrations) (persist-inner codec _ saved),
  )

  -- `revoke_credential` forgets, of the user's registrations and tokens, those of the credential,
  -- and keeps those of all others; the answer is whether there was a registration.
  pub revoke_credential-retain :
      (s : DeviceStore) (uid : ℕ) (id : List ℕ) (saved : Bool) (v : ℕ)
      → (registrations_of (revoke_credential codec s uid id saved).0 v
          ≡ retain (λ r. not ((v == uid) && named id r)) (registrations_of s v))
        × (retain (holds v) (revoke_credential codec s uid id saved).0.inner.tokens
            ≡ retain
                (λ t. not ((v == uid) && credential_is t.credential_id id))
                (retain (holds v) s.inner.tokens))
        × ((revoke_credential codec s uid id saved).1 ≡ (
            if saved
            then some (found (find_by (λ r. owns uid r && named id r) s.inner.registrations))
            else none))
  unfolding revoke_credential registrations_of persist
  revoke_credential-retain s uid id saved v = (
    ap (λ g. retain (owns v) g.registrations) (persist-inner codec _ saved)
        ∙ retain-agree (owns v) (λ r. not (owns uid r && named id r))
            (λ r. not ((v == uid) && named id r)) s.inner.registrations
            (λ r h. same_owner r.uid h (named id r)),
    ap (λ g. retain (holds v) g.tokens) (persist-inner codec _ saved)
        ∙ retain-agree (holds v) (λ t. not (from_credential uid id t))
            (λ t. not ((v == uid) && credential_is t.credential_id id)) s.inner.tokens
            (λ t h. same_owner t.uid h (credential_is t.credential_id id)),
    ap (λ b. if saved then some b else none)
        (found-removed (λ r. owns uid r && named id r) s.inner.registrations),
  )
    where
      same_owner :
          (u : ℕ) → (u == v) ≡ true → (b : Bool) → not ((u == uid) && b) ≡ not ((v == uid) && b)
      same_owner u h b = ap (λ w. not ((w == uid) && b)) ((==_iff u v).0 h)
