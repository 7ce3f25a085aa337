-- ===== src/Devices/Search.antt =====
-- Searching a list of entries, as the store does it with iterators.
use quosh.Base.{
  ℕ, suc, ◌≤◌, ◌≡◌, refl, sym, ap, ◌∙◌, ◌↔◌, inl, inr, Bool, true, false, ◌&&◌, not, Option, none,
  some, List, [], ◌∷◌, ◌++◌, arith, ◌==◌, if◌then◌else◌, ==_iff, Bool-cases, length,
}

-- `==` of strings
abbrev pub same : List ℕ → List ℕ → Bool
same [] [] = true
same (x ∷ xs) (y ∷ ys) = (x == y) && same xs ys
same _ _ = false

module _ {A : Type 0} where
  -- `retain`, and `filter` of an iterator
  abbrev pub retain : (A → Bool) → List A → List A
  retain q [] = []
  retain q (x ∷ xs) = if q x then (x ∷ retain q xs) else retain q xs

  -- `iter().find(..)`
  abbrev pub find_by : (A → Bool) → List A → Option A
  find_by q [] = none
  find_by q (x ∷ xs) = if q x then some x else find_by q xs

  -- `iter_mut().find(..)` and a change of what is found
  abbrev pub modify_first : (A → Bool) → (A → A) → List A → List A
  modify_first q f [] = []
  modify_first q f (x ∷ xs) = if q x then (f x ∷ xs) else (x ∷ modify_first q f xs)

  pub find_by-retain-none :
      (p q : A → Bool) (xs : List A)
      → ((x : A) → p x ≡ true → q x ≡ false)
      → find_by p (retain q xs) ≡ none
  find_by-retain-none p q [] h = refl
  find_by-retain-none p q (x ∷ xs) h = elim (Bool-cases (q x)) [
    | inl t ↦ elim (Bool-cases (p x)) [
      | inl u ↦ let e = h x u in absurd (ground arith)
      | inr u ↦ rw (t, u) (find_by-retain-none p q xs h)
    ]
    | inr f ↦ rw f (find_by-retain-none p q xs h)
  ]

  pub find_by-retain :
      (p q : A → Bool) (xs : List A)
      → ((x : A) → p x ≡ true → q x ≡ true)
      → find_by p (retain q xs) ≡ find_by p xs
  find_by-retain p q [] h = refl
  find_by-retain p q (x ∷ xs) h = elim (Bool-cases (q x)) [
    | inl t ↦ rw t (ap (λ r. if p x then some x else r) (find_by-retain p q xs h))
    | inr f ↦ elim (Bool-cases (p x)) [
      | inl u ↦ let e = h x u in absurd (ground arith)
      | inr u ↦ rw (f, u) (find_by-retain p q xs h)
    ]
  ]

  pub find_by-snoc :
      (p : A → Bool) (xs : List A) (y : A)
      → find_by p xs ≡ none
      → find_by p (xs ++ (y ∷ [])) ≡ (if p y then some y else none)
  find_by-snoc p [] y = λ h. refl
  find_by-snoc p (x ∷ xs) y = elim (Bool-cases (p x)) [
    | inl t ↦ rw t (λ h. absurd (ground arith))
    | inr f ↦ rw f (find_by-snoc p xs y)
  ]

  -- An entry at the end that does not match is not found.
  pub find_by-skip :
      (p : A → Bool) (xs : List A) (y : A) → p y ≡ false → find_by p (xs ++ (y ∷ [])) ≡ find_by p xs
  find_by-skip p [] y h = rw h refl
  find_by-skip p (x ∷ xs) y h = ap (λ r. if p x then some x else r) (find_by-skip p xs y h)

  -- What a wider test does not find, a narrower one does not find either.
  pub find_by_narrow :
      (p q : A → Bool) (xs : List A)
      → ((x : A) → q x ≡ true → p x ≡ true)
      → find_by p xs ≡ none
      → find_by q xs ≡ none
  find_by_narrow p q [] h = λ e. refl
  find_by_narrow p q (x ∷ xs) h = elim (Bool-cases (p x)) [
    | inl t ↦ rw t (λ e. absurd (ground arith))
    | inr f ↦ elim (Bool-cases (q x)) [
      | inl u ↦ let e = h x u in absurd (ground arith)
      | inr u ↦ rw (f, u) (find_by_narrow p q xs h)
    ]
  ]

  pub find_by_retained :
      (p q : A → Bool) (xs : List A) → find_by p xs ≡ none → find_by p (retain q xs) ≡ none
  find_by_retained p q [] = λ e. refl
  find_by_retained p q (x ∷ xs) = elim (Bool-cases (p x)) [
    | inl t ↦ rw t (λ e. absurd (ground arith))
    | inr f ↦ elim (Bool-cases (q x)) [
      | inl u ↦ rw (f, u) (λ e. rw f (find_by_retained p q xs e))
      | inr u ↦ rw (f, u) (find_by_retained p q xs)
    ]
  ]

  -- A change that the test does not see changes what is found.
  pub find_by-modify_first :
      (p : A → Bool) (f : A → A) (xs : List A)
      → ((x : A) → p (f x) ≡ p x)
      → find_by p (modify_first p f xs) ≡ elim (find_by p xs) [ none ↦ none | some x ↦ some (f x) ]
  find_by-modify_first p f [] h = refl
  find_by-modify_first p f (x ∷ xs) h = elim (Bool-cases (p x)) [
    | inl t ↦ rw t (rw (h x ∙ t) refl)
    | inr u ↦ rw u (rw u (find_by-modify_first p f xs h))
  ]

  pub find_by-modify_other :
      (p q : A → Bool) (f : A → A) (xs : List A)
      → ((x : A) → p (f x) ≡ p x)
      → ((x : A) → q x ≡ true → p x ≡ false)
      → find_by p (modify_first q f xs) ≡ find_by p xs
  find_by-modify_other p q f [] h g = refl
  find_by-modify_other p q f (x ∷ xs) h g = elim (Bool-cases (q x)) [
    | inl t ↦ rw t (rw (h x ∙ g x t, g x t) refl)
    | inr u ↦ rw u (ap (λ r. if p x then some x else r) (find_by-modify_other p q f xs h g))
  ]

  pub retain-retain-none :
      (p q : A → Bool) (xs : List A)
      → ((x : A) → p x ≡ true → q x ≡ false)
      → retain p (retain q xs) ≡ []
  retain-retain-none p q [] h = refl
  retain-retain-none p q (x ∷ xs) h = elim (Bool-cases (q x)) [
    | inl t ↦ elim (Bool-cases (p x)) [
      | inl u ↦ let e = h x u in absurd (ground arith)
      | inr u ↦ rw (t, u) (retain-retain-none p q xs h)
    ]
    | inr f ↦ rw f (retain-retain-none p q xs h)
  ]

  pub retain-retain :
      (p q : A → Bool) (xs : List A)
      → ((x : A) → p x ≡ true → q x ≡ true)
      → retain p (retain q xs) ≡ retain p xs
  retain-retain p q [] h = refl
  retain-retain p q (x ∷ xs) h = elim (Bool-cases (q x)) [
    | inl t ↦ rw t (ap (λ r. if p x then (x ∷ r) else r) (retain-retain p q xs h))
    | inr f ↦ elim (Bool-cases (p x)) [
      | inl u ↦ let e = h x u in absurd (ground arith)
      | inr u ↦ rw (f, u) (retain-retain p q xs h)
    ]
  ]

  -- Two tests that agree on what a third lets through.
  pub retain-agree :
      (p q r : A → Bool) (xs : List A)
      → ((x : A) → p x ≡ true → q x ≡ r x)
      → retain p (retain q xs) ≡ retain r (retain p xs)
  retain-agree p q r [] h = refl
  retain-agree p q r (x ∷ xs) h = elim (Bool-cases (p x)) [
    | inl t ↦ elim (Bool-cases (r x)) [
      | inl u ↦ rw (t, h x t ∙ u, u) (rw t (ap (λ z. x ∷ z) (retain-agree p q r xs h)))
      | inr u ↦ rw (t, h x t ∙ u, u) (retain-agree p q r xs h)
    ]
    | inr f ↦ elim (Bool-cases (q x)) [
      | inl u ↦ rw (f, u) (rw f (retain-agree p q r xs h))
      | inr u ↦ rw (f, u) (retain-agree p q r xs h)
    ]
  ]

  abbrev pub found : Option A → Bool
  found none = false
  found (some x) = true

  pub length-retain_le : (q : A → Bool) (xs : List A) → length (retain q xs) ≤ length xs
  length-retain_le q [] = omega arith
  length-retain_le q (x ∷ xs) = elim (Bool-cases (q x)) [
    | inl t ↦ rw t (omega (arith, length-retain_le q xs))
    | inr f ↦ rw f (omega (arith, length-retain_le q xs))
  ]

  -- A list gets shorter when there was something to remove.
  pub found-removed :
      (p : A → Bool) (xs : List A)
      → not (length (retain (λ x. not (p x)) xs) == length xs) ≡ found (find_by p xs)
  found-removed p [] = refl
  found-removed p (x ∷ xs) = elim (Bool-cases (p x)) [
    | inl t ↦ rw t (
        shorter (length (retain (λ y. not (p y)) xs)) (length xs)
          (length-retain_le (λ y. not (p y)) xs))
    | inr f ↦ rw f (alike (length (retain (λ y. not (p y)) xs)) (length xs) ∙ found-removed p xs)
  ]
    where
      shorter : (m n : ℕ) → m ≤ n → not (m == suc n) ≡ true
      shorter m n h = ground arith

      alike : (m n : ℕ) → not (suc m == suc n) ≡ not (m == n)
      alike m n = ground arith

pub same_iff : (xs ys : List ℕ) → (same xs ys ≡ true) ↔ (xs ≡ ys)
same_iff [] [] = (λ _. refl, λ _. refl)
same_iff [] (y ∷ ys) = (λ h. ground arith, λ h. ground arith)
same_iff (x ∷ xs) [] = (λ h. ground arith, λ h. ground arith)
same_iff (x ∷ xs) (y ∷ ys) = (
  λ h. ground (arith, ==_iff x y, same_iff xs ys),
  λ h. ground (arith, ==_iff x y, same_iff xs ys),
)

-- Both strings are tested alike by any third.
pub same_alike : (x y z : List ℕ) → same y z ≡ true → same x y ≡ same x z
same_alike x y z h = ap (λ w. same x w) ((same_iff y z).0 h)

pub same_other : (x y z : List ℕ) → same x z ≡ true → same y z ≡ false → same x y ≡ false
same_other x y z h g = elim (Bool-cases (same x y)) [
  | inl t ↦ absurd (clash (ap (λ w. same w z) (sym ((same_iff x y).0 t)) ∙ h))
  | inr f ↦ f
]
  where
    clash : same y z ≡ true → ⊥
    clash e = ground arith

pub same_swap : (x y : List ℕ) → same x y ≡ same y x
same_swap [] [] = refl
same_swap [] (y ∷ ys) = refl
same_swap (x ∷ xs) [] = refl
same_swap (x ∷ xs) (y ∷ ys) =
    let e : (x == y) ≡ (y == x) = ground arith in rw (e, same_swap xs ys) refl
