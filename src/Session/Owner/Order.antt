-- ===== src/Session/Owner/Order.antt =====
-- The inputs of a session in the order of their numbers: those written whole and those that wait.
use quosh.Base.{
  ℕ, ◌+◌, ◌-◌, min, ◌≡◌, refl, sym, ap, ◌∙◌, inl, inr, true, false, Option, none, some, List, [],
  ◌∷◌, ◌++◌, append_assoc, arith, ltb, ◌==◌, Bool-cases, length,
}
use quosh.Session.Pending.{
  pending_hard_max, History, push_input, join_back, extend_back, push_generated, stamp,
  advance_loop, advance, WriteChunk, PendingWrites,
}
use quosh.Session.Pending.Echo.{newest_of}
use quosh.Session.Owner.{next_seq}
use quosh.Bytes.{saturating_add}

abbrev pub seqs : History → List ℕ
seqs [] = []
seqs ((s, at) ∷ h) = s ∷ seqs h

-- The inputs that wait to be written whole.
abbrev pub waiting : List WriteChunk → List ℕ
waiting [] = []
waiting (c ∷ cs) = seqs (stamp c.seq 0) ++ waiting cs

-- From `a` on, each number is the one the owner expects next, and the last is `b`.
abbrev pub Chain : ℕ → List ℕ → ℕ → Type 0
Chain a [] b = a ≡ b
Chain a (s ∷ ss) b = (s ≡ next_seq a) × Chain s ss b

pub Chain-snoc :
    (a : ℕ) (ss : List ℕ) (b : ℕ) → Chain a ss b → Chain a (ss ++ (next_seq b ∷ [])) (next_seq b)
Chain-snoc a [] b h = (ap next_seq (sym h), refl)
Chain-snoc a (s ∷ ss) b (e, h) = (e, Chain-snoc s ss b h)

pub seqs-append : (g h : History) → seqs (g ++ h) ≡ seqs g ++ seqs h
seqs-append [] h = refl
seqs-append (e ∷ g) h = ap (λ t. e.0 ∷ t) (seqs-append g h)

pub Chain-newest_of :
    (a : ℕ) (taken rest : History) (ss : List ℕ) (b : ℕ)
    → Chain a (seqs (taken ++ rest) ++ ss) b
    → Chain (newest_of a taken) (seqs rest ++ ss) b
Chain-newest_of a [] rest ss b h = h
Chain-newest_of a ((s, at) ∷ taken) rest ss b (e, h) = Chain-newest_of s taken rest ss b h

pub waiting-append : (cs ds : List WriteChunk) → waiting (cs ++ ds) ≡ waiting cs ++ waiting ds
waiting-append [] ds = refl
waiting-append (c ∷ cs) ds =
    ap (λ t. seqs (stamp c.seq 0) ++ t) (waiting-append cs ds)
    ∙ sym (append_assoc (seqs (stamp c.seq 0)) (waiting cs) (waiting ds))

pub waiting-extend_back :
    (cs : List WriteChunk) (b : List ℕ) → waiting (extend_back cs b) ≡ waiting cs
unfolding extend_back
waiting-extend_back [] b = refl
waiting-extend_back (c ∷ []) b = by_seq c.seq
  where
    by_seq : (s : Option ℕ) → waiting (join_back s c b) ≡ seqs (stamp c.seq 0) ++ []
    by_seq none = refl
    by_seq (some s) = refl
waiting-extend_back (c ∷ d ∷ cs) b =
    ap (λ t. seqs (stamp c.seq 0) ++ t) (waiting-extend_back (d ∷ cs) b)

seqs-stamp : (s : Option ℕ) (now : ℕ) → seqs (stamp s now) ≡ seqs (stamp s 0)
seqs-stamp none now = refl
seqs-stamp (some s) now = refl

-- Writing moves inputs from those that wait to those that are written, and changes no order.
waiting-advance_loop :
    (left : ℕ) (cs : List WriteChunk) (u : ℕ) (h : History) (now : ℕ)
    → seqs (advance_loop left cs u h now).history ++ waiting (advance_loop left cs u h now).chunks
      ≡ seqs h ++ waiting cs
unfolding advance_loop
waiting-advance_loop left [] u h now = refl
waiting-advance_loop left (c ∷ cs) u h now =
    let taken = min left (length c.bytes - c.off) in
    let moved = waiting-advance_loop (left - taken) cs (u - taken) (h ++ stamp c.seq now) now in
    elim (Bool-cases (left == 0)) [
      | inl t ↦ rw t refl
      | inr f ↦ elim (Bool-cases ((c.off + taken) == length c.bytes)) [
        | inl w ↦ rw (f, w) (moved ∙ stamp_moves)
        | inr p ↦ rw (f, p) refl
      ]
    ]
  where
    stamp_moves :
        seqs (h ++ stamp c.seq now) ++ waiting cs ≡ seqs h ++ (seqs (stamp c.seq 0) ++ waiting cs)
    stamp_moves =
        ap (λ t. t ++ waiting cs)
          (seqs-append h (stamp c.seq now) ∙ ap (λ t. seqs h ++ t) (seqs-stamp c.seq now))
        ∙ append_assoc (seqs h) (seqs (stamp c.seq 0)) (waiting cs)

pub waiting-advance :
    (p : PendingWrites) (n : ℕ) (h : History) (now : ℕ)
    → seqs (advance p n h now).1 ++ waiting (advance p n h now).0.chunks
      ≡ seqs h ++ waiting p.chunks
unfolding advance
waiting-advance p n h now = waiting-advance_loop n p.chunks p.unread h now

pub waiting-push_generated :
    (p : PendingWrites) (b : List ℕ) → waiting (push_generated p b).0.chunks ≡ waiting p.chunks
unfolding push_generated
waiting-push_generated p [] = refl
waiting-push_generated p (b ∷ bs) =
    elim (Bool-cases (ltb pending_hard_max (saturating_add p.unread (length (b ∷ bs))))) [
      | inl t ↦ rw t refl
      | inr f ↦ rw f (waiting-extend_back p.chunks (b ∷ bs))
    ]

pub waiting-push_input :
    (p : PendingWrites) (seq : ℕ) (b : List ℕ)
    → (push_input p seq b).1 ≡ true
    → waiting (push_input p seq b).0.chunks ≡ waiting p.chunks ++ (seq ∷ [])
unfolding push_input
waiting-push_input p seq b =
    elim (Bool-cases (ltb pending_hard_max (saturating_add p.unread (length b)))) [
      | inl t ↦ rw t (λ h. ground arith)
      | inr f ↦
          rw f (λ h. waiting-append p.chunks (record { seq = some seq; bytes = b; off = 0 } ∷ []))
    ]

-- What is refused leaves the writes alone.
pub push_input-refused :
    (p : PendingWrites) (seq : ℕ) (b : List ℕ)
    → (push_input p seq b).1 ≡ false
    → (push_input p seq b).0 ≡ p
unfolding push_input
push_input-refused p seq b =
    elim (Bool-cases (ltb pending_hard_max (saturating_add p.unread (length b)))) [
      | inl t ↦ rw t (λ h. refl)
      | inr f ↦ rw f (λ h. ground arith)
    ]
