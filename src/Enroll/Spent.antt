-- ===== src/Enroll/Spent.antt =====
-- Over any history of a store whose clock does not run backwards, a nonce is worth what its latest
-- use says.
use quosh.Base.{
  ℕ, ◌+◌, ◌≤◌, ◌≡◌, refl, sym, ap, ◌∙◌, inl, inr, Bool, false, not, Option, none, some, List, [],
  ◌∷◌, arith, ltb, if◌then◌else◌, Bool-cases,
}
use quosh.Enroll.{
  nonce_ttl_secs, NonceStore, keyed, unexpired, remove, issue, spend, consume, Nonce,
}
use quosh.Devices.Search.{
  same, retain, find_by, find_by-retain-none, find_by-retain, find_by_retained, same_iff,
  same_other,
}

pub data Event : Type 0 where
  issued : List ℕ → ℕ → ℕ → Event
  consumed : List ℕ → ℕ → Event

abbrev pub time : Event → ℕ
time (issued k uid now) = now
time (consumed k now) = now

-- The store after a history, the latest event first.
abbrev pub apply : NonceStore → Event → NonceStore
apply s (issued k uid now) = (issue s k uid now).0
apply s (consumed k now) = (consume s k now).0

abbrev pub run : List Event → NonceStore
run [] = []
run (e ∷ h) = apply (run h) e

-- No event is later than `now`, or than the one that follows it.
abbrev pub Ordered : ℕ → List Event → Type 0
Ordered now [] = Unit
Ordered now (e ∷ h) = (time e ≤ now) × Ordered (time e) h

-- The user for whom the nonce was issued when it was last used, if that was less than ten minutes
-- ago and it was not spent since.
abbrev pub worth : List ℕ → ℕ → List Event → Option ℕ
worth k now [] = none
worth k now (issued j uid t ∷ h) =
    let rest = worth k now h in
    if same j k then (if ltb now (t + nonce_ttl_secs) then some uid else none) else rest
worth k now (consumed j t ∷ h) = let rest = worth k now h in if same j k then none else rest

-- One entry for each key.
abbrev Unique : NonceStore → Type 0
Unique [] = Unit
Unique (e ∷ s) = (find_by (keyed e.0) s ≡ none) × Unique s

retain-Unique : (q : List ℕ × Nonce → Bool) (s : NonceStore) → Unique s → Unique (retain q s)
retain-Unique q [] u = tt
retain-Unique q (e ∷ s) (here, u) = elim (Bool-cases (q e)) [
  | inl t ↦ rw t (find_by_retained (keyed e.0) q s here, retain-Unique q s u)
  | inr f ↦ rw f (retain-Unique q s u)
]

find-removed : (k : List ℕ) (s : NonceStore) → find_by (keyed k) (remove k s) ≡ none
find-removed k s = find_by-retain-none (keyed k) (λ e. not (keyed k e)) s (λ e h. ap not h)

find-remove :
    (j k : List ℕ) (s : NonceStore)
    → same j k ≡ false
    → find_by (keyed k) (remove j s) ≡ find_by (keyed k) s
find-remove j k s f =
    find_by-retain (keyed k) (λ e. not (keyed j e)) s (λ e h. ap not (same_other e.0 j k h f))

apply-Unique : (s : NonceStore) (e : Event) → Unique s → Unique (apply s e)
unfolding issue consume
apply-Unique s (issued k uid now) u =
    (find-removed k _, retain-Unique (λ e. not (keyed k e)) _ (retain-Unique (unexpired now) s u))
apply-Unique s (consumed k now) u = retain-Unique (λ e. not (keyed k e)) s u

run-Unique : (h : List Event) → Unique (run h)
run-Unique [] = tt
run-Unique (e ∷ h) = apply-Unique (run h) e (run-Unique h)

-- What had expired by then was worth nothing.
spend-prune :
    (t now : ℕ) (k : List ℕ) (s : NonceStore)
    → t ≤ now
    → Unique s
    → spend now (find_by (keyed k) (retain (unexpired t) s)) ≡ spend now (find_by (keyed k) s)
spend-prune t now k [] le u = refl
spend-prune t now k (e ∷ s) le (here, u) = elim (Bool-cases (unexpired t e)) [
  | inl kept ↦ rw kept (elim (Bool-cases (keyed k e)) [
    | inl hit ↦ rw hit refl
    | inr miss ↦ rw miss (spend-prune t now k s le u)
  ])
  | inr gone ↦ rw gone (elim (Bool-cases (keyed k e)) [
    | inl hit ↦ rw hit (
        spend-prune t now k s le u
        ∙ ap (spend now) (ap (λ x. find_by (keyed x) s) (sym ((same_iff e.0 k).0 hit)) ∙ here)
        ∙ ground arith)
    | inr miss ↦ rw miss (spend-prune t now k s le u)
  ])
]

Ordered-le : {t now : ℕ} (h : List Event) → t ≤ now → Ordered t h → Ordered now h
Ordered-le [] le o = tt
Ordered-le (e ∷ h) le (l, o) = (omega arith, o)

spend-run :
    (h : List Event) (k : List ℕ) (now : ℕ)
    → Ordered now h
    → spend now (find_by (keyed k) (run h)) ≡ worth k now h
unfolding issue consume
spend-run [] k now o = refl
spend-run (issued j uid t ∷ h) k now (le, o) = elim (Bool-cases (same j k)) [
  | inl hit ↦ rw hit refl
  | inr miss ↦ rw miss (
      ap (spend now) (find-remove j k _ miss)
      ∙ spend-prune t now k (run h) le (run-Unique h)
      ∙ spend-run h k now (Ordered-le h le o))
]
spend-run (consumed j t ∷ h) k now (le, o) = elim (Bool-cases (same j k)) [
  | inl hit ↦ rw hit (
      ap (spend now) (
        ap (λ x. find_by (keyed k) (remove x (run h))) ((same_iff j k).0 hit)
        ∙ find-removed k (run h)))
  | inr miss ↦
      rw miss (ap (spend now) (find-remove j k _ miss) ∙ spend-run h k now (Ordered-le h le o))
]

-- Whatever was issued and spent before, while the clock did not run backwards, a nonce yields the
-- user for whom it was last issued if that was less than ten minutes ago and it was not spent
-- since, and no user otherwise.
pub consume-run :
    (h : List Event) (k : List ℕ) (now : ℕ)
    → Ordered now h
    → (consume (run h) k now).1 ≡ worth k now h
unfolding consume
consume-run h k now o = spend-run h k now o
