-- ===== src/Trust/Pinned.antt =====
-- The hashes that a client pinned stay those of the certificates that are served.
use quosh.Base.{
  ℕ, zero, suc, ◌+◌, ◌<◌, ◌≡◌, refl, sym, ap, ◌∙◌, inl, inr, Bool, true, false, Option, none, some,
  List, ◌∷◌, arith, ◌==◌, ==_iff, Bool-cases, get_elem?,
}
use quosh.Trust.{
  epoch_at, window, of_epoch, minted, from_file, load_or_generate_cert, held, cached, entry,
  collected, hashes_from, forward_hashes, CertChain, Signer,
}
use mathlib.Core.Path.{subst}
use quosh.Devices.Search.{find_by}

abbrev hash_of : Option (ℕ × List ℕ) → Option (List ℕ)
hash_of none = none
hash_of (some e) = some e.1

-- The hash that is held of an epoch.
abbrev pub held_of : CertChain → ℕ → Option (List ℕ)
held_of c k = hash_of (find_by (of_epoch k) c.entries)

module _ (s : Signer) where
  -- A certificate that is made leaves what is held.
  load-entries : (c : CertChain) (k : ℕ) → (load_or_generate_cert s c k).0.entries ≡ c.entries
  unfolding load_or_generate_cert
  load-entries c k =
      by_file (find_by (of_epoch k) c.files) (s.written k)
        (s.self_signed k (window c k).0 (window c k).1)
    where
      by_file :
          (f : Option (ℕ × List ℕ)) (w : Bool) (d : Option (List ℕ))
          → (from_file f c (minted c k (epoch_at c s.now) w d)).0.entries ≡ c.entries
      by_file (some e) w d = refl
      by_file none w none = refl
      by_file none true (some d) = refl
      by_file none false (some d) = refl

  entry-held :
      (c : CertChain) (k : ℕ) {h : List ℕ}
      → (entry s c k).1 ≡ some h
      → held_of (entry s c k).0 k ≡ some h
  unfolding entry
  entry-held c k {h} = by_entry (find_by (of_epoch k) c.entries) refl (load_or_generate_cert s c k)
    where
      by_entry :
          (e : Option (ℕ × List ℕ))
          → find_by (of_epoch k) c.entries ≡ e
          → (r : CertChain × Option (List ℕ)) → (cached e c (held s k r)).1 ≡ some h
          → held_of (cached e c (held s k r)).0 k ≡ some h
      by_entry (some e) f r g = ap hash_of f ∙ g
      by_entry none f (c1, none) g = cc
      by_entry none f (c1, some der) g = rw ((==_iff k k).1 refl) g

  entry-keeps :
      (c : CertChain) (j k : ℕ) {h : List ℕ}
      → held_of c j ≡ some h
      → held_of (entry s c k).0 j ≡ some h
  unfolding entry
  entry-keeps c j k {h} g =
      by_entry (find_by (of_epoch k) c.entries) refl (load_or_generate_cert s c k)
        (load-entries c k)
    where
      by_entry :
          (e : Option (ℕ × List ℕ))
          → find_by (of_epoch k) c.entries ≡ e
          → (r : CertChain × Option (List ℕ)) → r.0.entries ≡ c.entries
          → held_of (cached e c (held s k r)).0 j ≡ some h
      by_entry (some e) f r l = g
      by_entry none f (c1, none) l = ap (λ x. hash_of (find_by (of_epoch j) x)) l ∙ g
      by_entry none f (c1, some der) l = elim (Bool-cases (k == j)) [
        | inl t ↦
            let z : find_by (of_epoch j) c.entries ≡ none =
              ap (λ x. find_by (of_epoch x) c.entries) (sym ((==_iff k j).0 t)) ∙ f in
            let n : held_of c j ≡ none = ap hash_of z in absurd (ground arith)
        | inr n ↦ rw n (ap (λ x. hash_of (find_by (of_epoch j) x)) l ∙ g)
      ]

  hashes_from-keeps :
      (n : ℕ) (c : CertChain) (base j : ℕ) {h : List ℕ}
      → held_of c j ≡ some h
      → held_of (hashes_from s c base n).0 j ≡ some h
  unfolding hashes_from
  hashes_from-keeps zero c base j g = g
  hashes_from-keeps (suc n) c base j {h} g =
      by_hash (entry s c base).1 (hashes_from s (entry s c base).0 (base + 1) n)
        (entry-keeps c j base g)
        (hashes_from-keeps n (entry s c base).0 (base + 1) j (entry-keeps c j base g))
    where
      by_hash :
          (o : Option (List ℕ)) (r : CertChain × Option (List (List ℕ)))
          → held_of (entry s c base).0 j ≡ some h
          → held_of r.0 j ≡ some h
          → held_of (collected o r (entry s c base).0).0 j ≡ some h
      by_hash none (c2, hs) k l = k
      by_hash (some x) (c2, none) k l = l
      by_hash (some x) (c2, some hs) k l = l

  -- The hash at the place `i` is that of the epoch.
  abbrev HeldAt : CertChain → ℕ → List (List ℕ) → ℕ → Type 0
  HeldAt c k hs i = (h : List ℕ) × (get_elem? hs i ≡ some h) × (held_of c k ≡ some h)

  collected-HeldAt :
      (n base : ℕ) (c1 : CertChain) (o : Option (List ℕ)) (r : CertChain × Option (List (List ℕ)))
      (i : ℕ) (hs : List (List ℕ))
      → ((x : List ℕ) → o ≡ some x → held_of r.0 base ≡ some x)
      → ((j : ℕ) (l : List (List ℕ)) → r.1 ≡ some l → j < n → HeldAt r.0 (base + 1 + j) l j)
      → (collected o r c1).1 ≡ some hs
      → i < suc n
      → HeldAt (collected o r c1).0 (base + i) hs i
  collected-HeldAt n base c1 none (c2, o) i hs first rest e l = cc
  collected-HeldAt n base c1 (some x) (c2, none) i hs first rest e l = cc
  collected-HeldAt n base c1 (some x) (c2, some t) zero hs first rest e l =
      subst (λ q. HeldAt c2 (base + 0) q 0) {x = x ∷ t} {y = hs} (cc)
        (x, refl, ap (held_of c2) (omega arith) ∙ first x refl)
  collected-HeldAt n base c1 (some x) (c2, some t) (suc i) hs first rest e l =
      let (h, g, k) = rest i t refl (omega arith) in
      subst (λ q. HeldAt c2 (base + suc i) q (suc i)) {x = x ∷ t} {y = hs} (cc)
        (h, g, ap (held_of c2) (omega arith) ∙ k)

  hashes_from-HeldAt :
      (n : ℕ) (c : CertChain) (base i : ℕ) (hs : List (List ℕ))
      → (hashes_from s c base n).1 ≡ some hs
      → i < n
      → HeldAt (hashes_from s c base n).0 (base + i) hs i
  unfolding hashes_from
  hashes_from-HeldAt zero c base i hs e l = absurd (omega arith)
  hashes_from-HeldAt (suc n) c base i hs e l =
      collected-HeldAt n base (entry s c base).0 (entry s c base).1
        (hashes_from s (entry s c base).0 (base + 1) n) i hs
        (λ x g. hashes_from-keeps n (entry s c base).0 (base + 1) base (entry-held c base g))
        (λ j t g lt. hashes_from-HeldAt n (entry s c base).0 (base + 1) j t g lt) e l

  -- A client that pinned the forward hashes recognises, in each of the epochs that they cover, the
  -- certificate that is served then, whatever a new signature would be and whenever it is asked for.
  pub entry-forward_hashes :
      (c : CertChain) (hs : List (List ℕ)) (i : ℕ) (later : Signer)
      → (forward_hashes s c).1 ≡ some hs
      → i < c.len
      → (h : List ℕ) × (get_elem? hs i ≡ some h)
        × (entry later (forward_hashes s c).0 (epoch_at c s.now + i)
            ≡ ((forward_hashes s c).0, some h))
  unfolding forward_hashes entry
  entry-forward_hashes c hs i later e l =
      let (h, g, k) = hashes_from-HeldAt c.len c (epoch_at c s.now) i hs e l in
      (
        h,
        g,
        by_entry (find_by (of_epoch (epoch_at c s.now + i)) (forward_hashes s c).0.entries) h k,
      )
    where
      by_entry :
          (o : Option (ℕ × List ℕ)) (h : List ℕ)
          → hash_of o ≡ some h
          → cached o (forward_hashes s c).0 (
              held later
                (epoch_at c s.now + i)
                (load_or_generate_cert later (forward_hashes s c).0 (epoch_at c s.now + i)))
            ≡ ((forward_hashes s c).0, some h)
      by_entry none h k = cc
      by_entry (some x) h k = rw k refl
