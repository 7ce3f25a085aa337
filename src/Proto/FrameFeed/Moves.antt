-- ===== src/Proto/FrameFeed/Moves.antt =====
-- How the wire of a `FrameFeed` grows: whole frames, the control frames in order.
use quosh.Base.{
  ℕ, ◌≡◌, refl, sym, ap, ◌∙◌, inl, inr, Option, none, some, List, [], ◌∷◌, ◌++◌, append-nil,
  append_assoc, Bool-cases, All,
}
use quosh.Proto.OutBuf
use quosh.Proto.OutBuf.{OutBuf}
use quosh.Proto.OutBuf.Laws
use quosh.Proto.FrameFeed.{pump_ctrl, pump, rest, FrameFeed}
use quosh.Proto.FrameFeed.Inv.{OnSome, feed}

-- A frame that was put on the wire, with the queue that it came from.
pub data Sent : Type 0 where
  control : List ℕ → Sent
  plain : List ℕ → Sent

abbrev pub payload : Sent → List ℕ
payload (control x) = x
payload (plain x) = x

abbrev pub wire : List Sent → List ℕ
wire [] = []
wire (s ∷ ss) = payload s ++ wire ss

abbrev pub controls : List Sent → List (List ℕ)
controls [] = []
controls (control x ∷ ss) = x ∷ controls ss
controls (plain x ∷ ss) = controls ss

abbrev pub AllSent : (List ℕ → Type 0) → List Sent → Type 0
AllSent P [] = Unit
AllSent P (s ∷ ss) = P (payload s) × AllSent P ss

pub wire-append : (ss ts : List Sent) → wire (ss ++ ts) ≡ wire ss ++ wire ts
wire-append [] ts = refl
wire-append (s ∷ ss) ts = simp (wire-append ss ts, append_assoc)

pub controls-append : (ss ts : List Sent) → controls (ss ++ ts) ≡ controls ss ++ controls ts
controls-append [] ts = refl
controls-append (control x ∷ ss) ts = simp (controls-append ss ts)
controls-append (plain x ∷ ss) ts = controls-append ss ts

pub AllSent-append :
    (P : List ℕ → Type 0) (ss ts : List Sent) → AllSent P ss → AllSent P ts → AllSent P (ss ++ ts)
AllSent-append P [] ts h k = k
AllSent-append P (s ∷ ss) ts h k = (h.0, AllSent-append P ss ts h.1 k)

-- From the unread bytes `r` and the control queue `c` to `r'` and `c'`, `out` was written and the
-- control frames `new` were accepted: whole frames were started, the control frames in their order.
pub record Moves (P : List ℕ → Type 0) (r : List ℕ) (c : List (List ℕ)) (out : List ℕ)
    (new : List (List ℕ)) (r' : List ℕ) (c' : List (List ℕ)) : Type 0 where
  pub frames : List Sent
  pub bytes : out ++ r' ≡ r ++ wire frames
  pub order : controls frames ++ c' ≡ c ++ new
  pub known : AllSent P frames

pub Moves-trans :
    (P : List ℕ → Type 0) (r : List ℕ) (c : List (List ℕ)) (o : List ℕ) (n : List (List ℕ))
    (r' : List ℕ) (c' : List (List ℕ)) (o' : List ℕ) (n' : List (List ℕ)) (r'' : List ℕ)
    (c'' : List (List ℕ))
    → Moves P r c o n r' c'
    → Moves P r' c' o' n' r'' c''
    → Moves P r c (o ++ o') (n ++ n') r'' c''
Moves-trans P r c o n r' c' o' n' r'' c'' p q = record {
  frames = p.frames ++ q.frames;
  bytes =
      append_assoc o o' r''
      ∙ ap (λ t. o ++ t) q.bytes
      ∙ sym (append_assoc o r' (wire q.frames))
      ∙ ap (λ t. t ++ wire q.frames) p.bytes
      ∙ append_assoc r (wire p.frames) (wire q.frames)
      ∙ ap (λ t. r ++ t) (sym (wire-append p.frames q.frames));
  order =
      ap (λ t. t ++ c'') (controls-append p.frames q.frames)
      ∙ append_assoc (controls p.frames) (controls q.frames) c''
      ∙ ap (λ t. controls p.frames ++ t) q.order
      ∙ sym (append_assoc (controls p.frames) c' n')
      ∙ ap (λ t. t ++ n') p.order
      ∙ append_assoc c n n';
  known = AllSent-append P p.frames q.frames p.known q.known;
}

-- What waits in the feed satisfies `P`.
abbrev pub Waiting : (List ℕ → Type 0) → FrameFeed → Type 0
Waiting P f = All P f.ctrl × OnSome P f.screen × OnSome P f.fin

pub still : (P : List ℕ → Type 0) (r : List ℕ) (c : List (List ℕ)) → Moves P r c [] [] r c
still P r c = record {
  frames = [];
  bytes = sym (append-nil r);
  order = sym (append-nil c);
  known = tt;
}

pub start_bytes :
    (o : OutBuf) (x : List ℕ)
    → OutBuf.Laws.IsValid o
    → OutBuf.rest (OutBuf.queue o x) ≡ OutBuf.rest o ++ (x ++ [])
start_bytes o x v = OutBuf.Laws.rest-queue x v ∙ ap (λ t. OutBuf.rest o ++ t) (sym (append-nil x))

pub pump_fields-Moves :
    (P : List ℕ → Type 0) (o : OutBuf) (s : Option (List ℕ)) (c : List (List ℕ)) (n : ℕ)
    (t : Option (List ℕ))
    → OutBuf.Laws.IsValid o
    → Waiting P (feed o s c n t)
    → let g = pump (feed o s c n t) in Moves P (OutBuf.rest o) c [] [] (rest g) g.ctrl × Waiting P g
unfolding pump rest
pump_fields-Moves P o s c n t v w = elim (Bool-cases (OutBuf.is_empty o)) [
  | inr busy ↦ rw busy (still P (OutBuf.rest o) c, w)
  | inl idle ↦ rw idle (starts s c t w)
]
  where
    starts :
        (s : Option (List ℕ)) (c : List (List ℕ)) (t : Option (List ℕ))
        → Waiting P (feed o s c n t)
        → let g = pump_ctrl c (feed o s c n t) in
          Moves P (OutBuf.rest o) c [] [] (OutBuf.rest g.out) g.ctrl × Waiting P g
    starts s (x ∷ xs) t w = (
      record {
        frames = control x ∷ [];
        bytes = start_bytes o x v;
        order = sym (append-nil (x ∷ xs));
        known = (w.0.0, tt);
      },
      (w.0.1, w.1, w.2),
    )
    starts (some x) [] t w = (
      record { frames = plain x ∷ []; bytes = start_bytes o x v; order = refl; known = (w.1, tt) },
      (tt, tt, w.2),
    )
    starts none [] (some x) w = (
      record { frames = plain x ∷ []; bytes = start_bytes o x v; order = refl; known = (w.2, tt) },
      (tt, tt, tt),
    )
    starts none [] none w = (still P (OutBuf.rest o) [], w)

pub pump-Moves :
    (P : List ℕ → Type 0) (f : FrameFeed)
    → OutBuf.Laws.IsValid f.out
    → Waiting P f
    → Moves P (rest f) f.ctrl [] [] (rest (pump f)) (pump f).ctrl × Waiting P (pump f)
unfolding rest
pump-Moves P f v w = pump_fields-Moves P f.out f.screen f.ctrl f.ctrl_bytes f.fin v w
