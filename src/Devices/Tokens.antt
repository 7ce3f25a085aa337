-- ===== src/Devices/Tokens.antt =====
-- What the store promises of a registration and of a token.
use quosh.Base.{
  ℕ, ◌+◌, max, ◌≡◌, refl, sym, ap, ◌∙◌, inl, inr, Bool, true, false, ◌&&◌, not, Option, none, some,
  List, [], ◌∷◌, ◌++◌, leb, if◌then◌else◌, Bool-cases,
}
use quosh.Devices.Search.{
  same, retain, find_by, modify_first, find_by-retain-none, find_by-retain, find_by-snoc,
  find_by-skip, find_by_narrow, find_by_retained, find_by-modify_first, find_by-modify_other,
  same_iff, same_alike, same_other, same_swap,
}
use quosh.Devices.{
  session_idle_secs, named, live, uid_of, load, persist, register, touched, issue_token,
  validate_token, drop_token, rotate_token, find, Registration, SessionToken, Persisted, Codec,
  DeviceStore,
}

-- No token has these bytes yet.
abbrev pub Fresh : Codec → DeviceStore → List ℕ → Type 0
Fresh codec s fresh = find_by (λ t. same t.token (codec.hex fresh)) s.inner.tokens ≡ none

both_true : (a b : Bool) → (a && b) ≡ true → a ≡ true
both_true true b h = refl
both_true false b h = h

pub live_named :
    (key : List ℕ) (now : ℕ) (t : SessionToken) → live key now t ≡ true → same t.token key ≡ true
live_named key now t h = both_true (same t.token key) (leb now (t.last_seen + session_idle_secs)) h

-- What is found with a new token behind the others.
find_live-snoc :
    (ts : List SessionToken) (t : SessionToken) (key : List ℕ) (later : ℕ)
    → find_by (λ x. same x.token t.token) ts ≡ none
    → find_by (live key later) (ts ++ (t ∷ []))
      ≡ (if live key later t then some t else find_by (live key later) ts)
find_live-snoc ts t key later h = elim (Bool-cases (live key later t)) [
  | inl l ↦
      find_by-snoc (live key later) ts t (
        find_by_narrow (λ x. same x.token t.token) (live key later) ts
          (λ x e.
            same_alike x.token t.token key (live_named key later t l) ∙ live_named key later x e)
          h)
      ∙ rw l refl
  | inr f ↦ find_by-skip (live key later) ts t f ∙ sym (rw f refl)
]

uid_of-if :
    (b : Bool) (x y : Option SessionToken)
    → uid_of (if b then x else y) ≡ (if b then uid_of x else uid_of y)
uid_of-if true x y = refl
uid_of-if false x y = refl

module _ (codec : Codec) where
  -- A file that was written is read back as the store that was written, when `serde_json` reads
  -- what it wrote.
  load-persist :
      (s : DeviceStore)
      → ((g : Persisted) → codec.from_json (codec.to_json g) ≡ some g)
      → load codec (persist codec s true).0.file ≡ some (persist codec s true).0
  unfolding load persist
  load-persist s h = rw (h s.inner) refl

  pub persist-inner : (s : DeviceStore) (saved : Bool) → (persist codec s saved).0.inner ≡ s.inner
  unfolding persist
  persist-inner s true = refl
  persist-inner s false = refl

  -- A registration replaces the one with its credential, and no other; it is held whether or not
  -- the file was written.
  pub find-register :
      (s : DeviceStore) (reg : Registration) (saved : Bool) (id : List ℕ)
      → find (register codec s reg saved).0 id
        ≡ (if same reg.credential_id id then some reg else find s id)
  unfolding find register
  find-register s reg saved id =
      ap (λ g. find_by (named id) g.registrations) (persist-inner _ saved)
      ∙ elim (Bool-cases (same reg.credential_id id)) [
        | inl t ↦
            find_by-snoc (named id) kept reg (
              find_by-retain-none (named id) (λ r. not (named reg.credential_id r))
                s.inner.registrations
                (λ x e. ap not (same_alike x.credential_id reg.credential_id id t ∙ e)))
            ∙ rw t refl
        | inr f ↦
            find_by-skip (named id) kept reg f
            ∙ find_by-retain (named id) (λ r. not (named reg.credential_id r)) s.inner.registrations
                (λ x e. ap not (same_other x.credential_id reg.credential_id id e f))
            ∙ rw f refl
      ]
    where
      kept : List Registration
      kept = retain (λ r. not (named reg.credential_id r)) s.inner.registrations

  -- An assertion raises the counter of its credential, never lowers it, and changes no other.
  pub find-touched :
      (s : DeviceStore) (id : List ℕ) (count now : ℕ) (saved : Bool) (other : List ℕ)
      → find (touched codec s id count now saved).0 other ≡ (
          if same id other
          then elim (find s other) [
            | none ↦ none
            | some r ↦ some (record r { sign_count = max r.sign_count count; last_used = some now })
          ]
          else find s other)
  unfolding find touched
  find-touched s id count now saved other =
      ap (λ g. find_by (named other) g.registrations) (persist-inner _ saved)
      ∙ elim (Bool-cases (same id other)) [
        | inl t ↦
            ap (λ k. find_by (named other) (modify_first (named k) bump s.inner.registrations))
              ((same_iff id other).0 t)
            ∙ find_by-modify_first (named other) bump s.inner.registrations (λ x. refl)
            ∙ rw t refl
        | inr f ↦
            find_by-modify_other (named other) (named id) bump s.inner.registrations (λ x. refl)
              (λ x e. same_other x.credential_id other id e (same_swap other id ∙ f))
            ∙ rw f refl
      ]
    where
      bump : Registration → Registration
      bump r = record r { sign_count = max r.sign_count count; last_used = some now }

  -- A fresh token is good for an hour, and the others as before.
  pub validate_token-issue_token :
      (s : DeviceStore) (fresh : List ℕ) (uid : ℕ) (id : Option (List ℕ)) (now : ℕ) (saved : Bool)
      (token : List ℕ) (later : ℕ)
      → Fresh codec s fresh
      → validate_token codec (issue_token codec s fresh uid id now saved).0 token later ≡ (
          if same (codec.hex fresh) (codec.hex token) && leb later (now + session_idle_secs)
          then some uid
          else validate_token codec s token later)
  unfolding validate_token issue_token
  validate_token-issue_token s fresh uid id now saved token later h =
      let t : SessionToken = record {
        token = codec.hex fresh;
        uid = uid;
        credential_id = id;
        last_seen = now;
      } in
      let key = codec.hex token in
      ap (λ g. uid_of (find_by (live key later) g.tokens)) (persist-inner _ saved)
      ∙ ap uid_of (find_live-snoc s.inner.tokens t key later h)
      ∙ uid_of-if (live key later t) (some t) (find_by (live key later) s.inner.tokens)

  -- Once the old token was dropped, rotation leaves the fresh one good for an hour, the old one for
  -- nothing, and the others as before.
  pub validate_token-rotate_token :
      (s : DeviceStore) (old fresh : List ℕ) (uid : ℕ) (id : Option (List ℕ)) (now : ℕ)
      (saved : Bool) (token : List ℕ) (later : ℕ)
      → Fresh codec s fresh
      → validate_token codec
          (rotate_token codec s (some old) fresh uid id now true saved).0
          token
          later
        ≡ (if same (codec.hex fresh) (codec.hex token) && leb later (now + session_idle_secs)
            then some uid
            else if same (codec.hex old) (codec.hex token)
            then none
            else validate_token codec s token later)
  unfolding rotate_token drop_token persist validate_token
  validate_token-rotate_token s old fresh uid id now saved token later h =
      validate_token-issue_token (drop_token codec s old true).0 fresh uid id now saved token later
        fresh_still
      ∙ ap
          (λ r.
            if same (codec.hex fresh) (codec.hex token) && leb later (now + session_idle_secs)
            then some uid
            else r)
          dropped
    where
      kept : SessionToken → Bool
      kept t = not (same t.token (codec.hex old))

      fresh_still : Fresh codec (drop_token codec s old true).0 fresh
      fresh_still = find_by_retained (λ t. same t.token (codec.hex fresh)) kept s.inner.tokens h

      dropped : validate_token codec (drop_token codec s old true).0 token later ≡ (
          if same (codec.hex old) (codec.hex token)
          then none
          else validate_token codec s token later)
      dropped = elim (Bool-cases (same (codec.hex old) (codec.hex token))) [
        | inl t ↦
            ap uid_of (
              find_by-retain-none (live (codec.hex token) later) kept s.inner.tokens (λ x e.
                ap not (
                  same_alike x.token (codec.hex old) (codec.hex token) t
                  ∙ live_named (codec.hex token) later x e)))
            ∙ sym (rw t refl)
        | inr f ↦
            ap uid_of (
              find_by-retain (live (codec.hex token) later) kept s.inner.tokens (λ x e. ap not (
                same_other x.token (codec.hex old) (codec.hex token)
                  (live_named (codec.hex token) later x e) f)))
            ∙ sym (rw f refl)
      ]
