-- ===== src/Client/Unacked.antt =====
-- The inputs that a client keeps until they are acknowledged: the last ones that were typed, numbered
-- from one without a gap.
use quosh.Client.{newer_than, new, Client}
use quosh.Base.{
  ℕ, suc, ◌+◌, ◌-◌, ◌≤◌, min, max, ◌≡◌, refl, ap, ◌∙◌, inl, inr, Bool, some, List, [], ◌∷◌, ◌++◌,
  arith, ltb, ltb→lt, lt→ltb, ltb→le, Bool-cases, length, get_elem?, drop, drop-nil,
}
use quosh.Devices.Search.{retain, find_by}
use quosh.Client.Interfaces.{Predictions, F64}
use quosh.Proto.Screen.{Frames, Lz4}

-- The inputs that were typed, with the numbers from `a + 1` on.
abbrev pub number : ℕ → List (List ℕ) → List (ℕ × List ℕ)
number a [] = []
number a (b ∷ bs) = (suc a, b) ∷ number (suc a) bs

pub number-append :
    (a : ℕ) (xs : List (List ℕ)) (b : List ℕ)
    → number a (xs ++ (b ∷ [])) ≡ number a xs ++ ((suc (a + length xs), b) ∷ [])
number-append a [] b = ap (λ n. (suc n, b) ∷ []) (omega arith)
number-append a (x ∷ xs) b =
    rw (number-append (suc a) xs b)
      (ap (λ n. (suc a, x) ∷ (number (suc a) xs ++ ((suc n, b) ∷ []))) (omega arith))

retain-number_all :
    (v a : ℕ) (xs : List (List ℕ)) → v ≤ a → retain (newer_than v) (number a xs) ≡ number a xs
retain-number_all v a [] h = refl
retain-number_all v a (x ∷ xs) h =
    rw (lt→ltb v (suc a) (omega arith), retain-number_all v (suc a) xs (omega arith)) refl

-- An acknowledgement drops the inputs up to its number.
pub retain-number :
    (v a : ℕ) (xs : List (List ℕ))
    → retain (newer_than v) (number a xs) ≡ number (a + min (v - a) (length xs)) (drop (v - a) xs)
retain-number v a [] = rw drop-nil refl
retain-number v a (x ∷ xs) = elim (Bool-cases (ltb v (suc a))) [
  | inl t ↦
      let none_left : v - a ≡ 0 = omega (arith, ltb→lt v (suc a) t) in
      rw (t, none_left, retain-number_all v (suc a) xs (omega arith))
        (ap (λ n. number n (x ∷ xs)) (let e : a ≡ a + min 0 (suc (length xs)) = omega arith in e))
  | inr f ↦
      let more : v - a ≡ suc (v - suc a) = omega (arith, ltb→le v (suc a) f) in
      rw (f, more, retain-number v (suc a) xs)
        (ap (λ n. number n (drop (v - suc a) xs)) (omega arith))
]

-- What `pump` looks for: the first input that was not sent.
pub find-number :
    (s a : ℕ) (xs : List (List ℕ)) (n : ℕ) (b : List ℕ)
    → find_by (newer_than s) (number a xs) ≡ some (n, b)
    → (n ≡ suc (max s a)) × (get_elem? xs (s - a) ≡ some b)
find-number s a [] n b h = absurd (ground arith)
find-number s a (x ∷ xs) n b h = elim (Bool-cases (ltb s (suc a))) [
  | inl t ↦
      let e = rw t at h in
      let same_n : suc a ≡ n = cc in
      let same_b : x ≡ b = cc in
      let front : s - a ≡ 0 = omega (arith, ltb→lt s (suc a) t) in
      (omega (arith, ltb→lt s (suc a) t, same_n), rw front (ap some same_b))
  | inr f ↦
      let (here, there) = find-number s (suc a) xs n b (rw f at h) in
      let next : s - a ≡ suc (s - suc a) = omega (arith, ltb→le s (suc a) f) in
      (omega (arith, ltb→le s (suc a) f, here), rw next there)
]

module _ {F P X : Type 0} where
  -- The client holds what was typed from `acked` on.
  pub record Tracks (acked : ℕ) (typed : List (List ℕ)) (c : Client F P X) : Type 0 where
    pub within : acked ≤ length typed
    pub pending : c.unacked ≡ number acked (drop acked typed)
    pub total : c.seq ≡ length typed
    pub sent : c.sent_seq ≤ length typed

  -- What prediction leaves alone.
  pub record Quiet (c c' : Client F P X) : Type 0 where
    pub unacked : c'.unacked ≡ c.unacked
    pub seq : c'.seq ≡ c.seq
    pub sent_seq : c'.sent_seq ≡ c.sent_seq

  pub Quiet-Tracks :
      {a : ℕ} {typed : List (List ℕ)} {c c' : Client F P X}
      → Quiet c c'
      → Tracks a typed c
      → Tracks a typed c'
  Quiet-Tracks q v = record {
    within = v.within;
    pending = q.unacked ∙ v.pending;
    total = q.seq ∙ v.total;
    sent = omega (arith, q.sent_seq, v.sent);
  }

module _ {F P X : Type 0} (frames : Frames F) (codec : Lz4) (pred : Predictions P F)
    (f64 : F64 X) where
  pub new-Tracks :
      (id token : List ℕ) (cols rows : ℕ) (b : Bool)
      → Tracks 0 [] (new frames codec pred f64 id token cols rows b)
  new-Tracks id token cols rows b = record {
    within = omega arith;
    pending = refl;
    total = refl;
    sent = omega arith;
  }
