-- ===== src/Proto/FrameFeed/Pending.antt =====
-- All the bytes that a `FrameFeed` still has to send, in their order.
use quosh.Base.{
  ℕ, ◌+◌, ◌≤◌, ◌<◌, ◌≡◌, refl, sym, ap, ◌∙◌, ◌⊎◌, inl, inr, Bool, true, false, Option, none, some,
  List, [], ◌∷◌, ◌++◌, append-nil, append_assoc, arith, ltb, Bool-cases, length, drop, concat,
  drop-append_le, concat-append,
}
use quosh.Proto.OutBuf
use quosh.Proto.OutBuf.{OutBuf}
use quosh.Proto.OutBuf.Laws
use quosh.Proto.FrameFeed.{
  ctrl_cap, no_ctrl, pump_ctrl, pump, push_screen, push_ctrl, push_fin, rest, is_empty, advance,
  FrameFeed,
}
use quosh.Proto.FrameFeed.Inv.{IsBusy, feed, IsValid}

abbrev pub bytes_of : Option (List ℕ) → List ℕ
bytes_of none = []
bytes_of (some x) = x

abbrev pub pending : FrameFeed → List ℕ
pending f = rest f ++ (concat f.ctrl ++ (bytes_of f.screen ++ bytes_of f.fin))

pump_fields-pending :
    (o : OutBuf) (s : Option (List ℕ)) (c : List (List ℕ)) (n : ℕ) (t : Option (List ℕ))
    → OutBuf.Laws.IsValid o
    → pending (pump (feed o s c n t)) ≡ pending (feed o s c n t)
unfolding pump rest
pump_fields-pending o s c n t v = elim (Bool-cases (OutBuf.is_empty o)) [
  | inr busy ↦ rw busy
  | inl idle ↦ rw idle (starts s c t)
]
  where
    starts :
        (s : Option (List ℕ)) (c : List (List ℕ)) (t : Option (List ℕ))
        → pending (pump_ctrl c (feed o s c n t)) ≡ pending (feed o s c n t)
    starts s (x ∷ xs) t = simp (OutBuf.Laws.rest-queue x v, append_assoc)
    starts (some x) [] t = simp (OutBuf.Laws.rest-queue x v, append_assoc)
    starts none [] (some x) = simp (OutBuf.Laws.rest-queue x v, append_assoc, append-nil)
    starts none [] none = refl

pending-pump : (f : FrameFeed) → OutBuf.Laws.IsValid f.out → pending (pump f) ≡ pending f
pending-pump f v = pump_fields-pending f.out f.screen f.ctrl f.ctrl_bytes f.fin v

-- Writing `n` bytes of the frame in flight takes exactly the first `n` bytes that were pending.
pub pending-advance :
    (f : FrameFeed) (n : ℕ)
    → IsValid f
    → n ≤ length (rest f)
    → pending (advance f n) ≡ drop n (pending f)
unfolding advance rest
pending-advance f n v h =
    pending-pump (record f { out = OutBuf.advance f.out n }) (OutBuf.Laws.advance-IsValid f.out n)
    ∙ ap (λ t. t ++ waiting) (OutBuf.Laws.rest-advance f.out n)
    ∙ sym (drop-append_le (rest f) waiting n h)
  where
    waiting : List ℕ
    waiting = concat f.ctrl ++ (bytes_of f.screen ++ bytes_of f.fin)

-- A new screen replaces the one that waits.
pub pending-push_screen :
    (f : FrameFeed) (x : List ℕ)
    → IsValid f
    → pending (push_screen f x) ≡ rest f ++ (concat f.ctrl ++ (x ++ bytes_of f.fin))
unfolding push_screen rest
pending-push_screen f x v = pending-pump (record f { screen = some x }) v.sound.out_valid

-- A last frame drops the control frames that wait, and goes behind the screen.
pub pending-push_fin :
    (f : FrameFeed) (x : List ℕ)
    → IsValid f
    → pending (push_fin f x) ≡ rest f ++ (bytes_of f.screen ++ x)
unfolding push_fin rest
pending-push_fin f x v =
    pending-pump (record f { fin = some x; ctrl = []; ctrl_bytes = 0 }) v.sound.out_valid

pump_fields-idle :
    (o : OutBuf) (s : Option (List ℕ)) (c : List (List ℕ)) (n : ℕ) (t : Option (List ℕ))
    → IsBusy (feed o s c n t)
    → pump (feed o s c n t) ≡ feed o s c n t
unfolding pump is_empty
pump_fields-idle o s (x ∷ xs) n t b = ground arith
pump_fields-idle o (some x) [] n t b = ground arith
pump_fields-idle o none [] n (some x) b = ground arith
pump_fields-idle o none [] n none b = ground arith

-- In a valid feed there is nothing left to start.
pub pump-idle : (f : FrameFeed) → IsValid f → pump f ≡ f
pump-idle f v = pump_fields-idle f.out f.screen f.ctrl f.ctrl_bytes f.fin v.busy

concat-one : (xs : List (List ℕ)) (x : List ℕ) → concat (xs ++ (x ∷ [])) ≡ concat xs ++ x
concat-one xs x = simp (concat-append xs (x ∷ []), append-nil)

-- What `push_ctrl` does to a valid feed: it starts the frame if nothing is left to send, refuses it
-- if the queued bytes would pass the cap, and queues it otherwise.
pub data Pushed (f : FrameFeed) (x : List ℕ) (g : FrameFeed) (done : Bool) : Type 0 where
  started :
      OutBuf.is_empty f.out ≡ true
      → g ≡ record f { out = OutBuf.queue f.out x }
      → done ≡ true
      → Pushed f x g done
  refused : ctrl_cap < f.ctrl_bytes + length x → g ≡ f → done ≡ false → Pushed f x g done
  queued :
      f.ctrl_bytes + length x ≤ ctrl_cap
      → g ≡ record f { ctrl = f.ctrl ++ (x ∷ []); ctrl_bytes = f.ctrl_bytes + length x }
      → done ≡ true
      → Pushed f x g done

pub push_ctrl-Pushed :
    (f : FrameFeed) (x : List ℕ) → IsValid f → Pushed f x (push_ctrl f x).0 (push_ctrl f x).1
unfolding push_ctrl is_empty
push_ctrl-Pushed f x v = rw (pump-idle f v) (elim (Bool-cases (OutBuf.is_empty f.out)) [
  | inl idle ↦ started idle (ground (arith, v.busy idle)) (ground (arith, v.busy idle))
  | inr busy ↦ elim (Bool-cases (ltb ctrl_cap (f.ctrl_bytes + length x))) [
    | inl full ↦ refused (ground arith) (ground arith) (ground arith)
    | inr room ↦ queued (ground arith) (ground arith) (ground arith)
  ]
])

no_ctrl→nil : (c : List (List ℕ)) → no_ctrl c ≡ true → c ≡ []
no_ctrl→nil [] h = refl
no_ctrl→nil (x ∷ xs) h = cc

-- A valid feed with no frame in flight holds nothing.
pub idle_parts :
    (f : FrameFeed)
    → IsValid f
    → OutBuf.is_empty f.out ≡ true
    → (f.ctrl ≡ []) × (f.screen ≡ none) × (f.fin ≡ none)
unfolding is_empty
idle_parts f v idle =
    let e = v.busy idle in
    (no_ctrl→nil f.ctrl (ground (arith, e)), ground (arith, e), ground (arith, e))

-- `push_ctrl` puts an accepted frame behind the control frames and before the screen and the last
-- frame; it refuses only a frame that would pass the cap, and then changes nothing.
pub pending-push_ctrl :
    (f : FrameFeed) (x : List ℕ)
    → IsValid f
    → (((push_ctrl f x).1 ≡ true)
        × (pending (push_ctrl f x).0
            ≡ rest f ++ (concat f.ctrl ++ (x ++ (bytes_of f.screen ++ bytes_of f.fin)))))
      ⊎ (((push_ctrl f x).1 ≡ false)
          × ((push_ctrl f x).0 ≡ f)
          × (ctrl_cap < f.ctrl_bytes + length x))
unfolding rest
pending-push_ctrl f x v = by_case (push_ctrl f x).0 (push_ctrl f x).1 (push_ctrl-Pushed f x v)
  where
    by_case :
        (g : FrameFeed) (done : Bool)
        → Pushed f x g done
        → ((done ≡ true)
            × (pending g
                ≡ rest f ++ (concat f.ctrl ++ (x ++ (bytes_of f.screen ++ bytes_of f.fin)))))
          ⊎ ((done ≡ false) × (g ≡ f) × (ctrl_cap < f.ctrl_bytes + length x))
    by_case g done (started idle e d) =
        let (ec, es, et) = idle_parts f v idle in
        inl
          (d, rw (e, ec, es, et) (simp (OutBuf.Laws.rest-queue x v.sound.out_valid, append_assoc)))
    by_case g done (refused full e d) = inr (d, e, full)
    by_case g done (queued room e d) = inl (d, rw (e, concat-one) (simp append_assoc))

-- A new screen replaces the one that waits, behind the control frames; a last frame goes behind the
-- screen, and the control frames that wait are dropped.
pub pending-push_latest :
    (f : FrameFeed) (x : List ℕ)
    → IsValid f
    → (pending (push_screen f x) ≡ rest f ++ (concat f.ctrl ++ (x ++ bytes_of f.fin)))
      × (pending (push_fin f x) ≡ rest f ++ (bytes_of f.screen ++ x))
pending-push_latest f x v = (pending-push_screen f x v, pending-push_fin f x v)
