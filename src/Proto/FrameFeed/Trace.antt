-- ===== src/Proto/FrameFeed/Trace.antt =====
-- What leaves a `FrameFeed` over any sequence of calls: whole frames, the control frames in order.
use quosh.Base.{
  ℕ, ◌≤◌, ◌≡◌, refl, sym, ap, ◌∙◌, Bool, some, List, [], ◌∷◌, ◌++◌, append-nil, append_assoc,
  if◌then◌else◌, length, take, All, take-append-drop,
}
use quosh.Proto.OutBuf
use quosh.Proto.OutBuf.{OutBuf}
use quosh.Proto.OutBuf.Laws
use quosh.Proto.FrameFeed.{default, push_screen, push_ctrl, rest, advance, FrameFeed}
use quosh.Proto.FrameFeed.Pending.{push_ctrl-Pushed, idle_parts, Pushed, started, refused, queued}
use quosh.Proto.FrameFeed.Inv.{
  IsFilled, default-IsValid, push_screen-IsValid, advance-IsValid, push_ctrl-IsValid, IsValid,
}
use quosh.Proto.FrameFeed.Moves.{
  wire, controls, AllSent, Moves-trans, Waiting, still, start_bytes, pump-Moves, Sent, Moves,
  control,
}

-- A call that queues or writes; `push_fin`, which drops the control queue, is not among them.
pub data Op : Type 0 where
  screen : List ℕ → Op
  ctrl : List ℕ → Op
  write : ℕ → Op

unfoldable pub step : FrameFeed → Op → FrameFeed
step f (screen x) = push_screen f x
step f (ctrl x) = (push_ctrl f x).0
step f (write n) = advance f n

-- The bytes that a call takes from the feed, and the control frame that it accepts.
unfoldable pub written : FrameFeed → Op → List ℕ
written f (screen x) = []
written f (ctrl x) = []
written f (write n) = take n (rest f)

unfoldable pub accepted : FrameFeed → Op → List (List ℕ)
accepted f (screen x) = []
accepted f (ctrl x) = if (push_ctrl f x).1 then x ∷ [] else []
accepted f (write n) = []

unfoldable pub run : FrameFeed → List Op → FrameFeed
run f [] = f
run f (o ∷ os) = run (step f o) os

unfoldable pub written_all : FrameFeed → List Op → List ℕ
written_all f [] = []
written_all f (o ∷ os) = written f o ++ written_all (step f o) os

unfoldable pub accepted_all : FrameFeed → List Op → List (List ℕ)
accepted_all f [] = []
accepted_all f (o ∷ os) = accepted f o ++ accepted_all (step f o) os

-- Every frame of the calls is filled and satisfies `P`.
abbrev pub Pushes : (List ℕ → Type 0) → List Op → Type 0
Pushes P [] = Unit
Pushes P (screen x ∷ os) = IsFilled x × P x × Pushes P os
Pushes P (ctrl x ∷ os) = IsFilled x × P x × Pushes P os
Pushes P (write n ∷ os) = Pushes P os

-- No write takes more than the frame in flight.
abbrev pub Within : FrameFeed → List Op → Type 0
Within f [] = Unit
Within f (write n ∷ os) = (n ≤ length (rest f)) × Within (step f (write n)) os
Within f (o ∷ os) = Within (step f o) os

All-append_P :
    (P : List ℕ → Type 0) (xs : List (List ℕ)) (x : List ℕ)
    → All P xs
    → P x
    → All P (xs ++ (x ∷ []))
All-append_P P [] x h hx = (hx, tt)
All-append_P P (y ∷ ys) x h hx = (h.0, All-append_P P ys x h.1 hx)

Pushed-Moves :
    (P : List ℕ → Type 0) (f : FrameFeed) (x : List ℕ) (g : FrameFeed) (done : Bool)
    → IsValid f
    → P x
    → Waiting P f
    → Pushed f x g done
    → Moves P (rest f) f.ctrl [] (if done then x ∷ [] else []) (rest g) g.ctrl × Waiting P g
unfolding rest
Pushed-Moves P f x g done v px w (started idle e d) =
    let (ec, es, et) = idle_parts f v idle in
    rw (e, d, ec, es, et)
      (
        record {
          frames = control x ∷ [];
          bytes = start_bytes f.out x v.sound.out_valid;
          order = refl;
          known = (px, tt);
        },
        (tt, tt, tt),
      )
Pushed-Moves P f x g done v px w (refused full e d) =
    rw (e, d) (still P (OutBuf.rest f.out) f.ctrl, w)
Pushed-Moves P f x g done v px w (queued room e d) =
    rw (e, d)
      (
        record { frames = []; bytes = sym (append-nil _); order = refl; known = tt },
        (All-append_P P f.ctrl x w.0 px, w.1, w.2),
      )

step-Moves :
    (P : List ℕ → Type 0) (f : FrameFeed) (o : Op)
    → IsValid f
    → Pushes P (o ∷ [])
    → Within f (o ∷ [])
    → Waiting P f
    → Moves P (rest f) f.ctrl (written f o) (accepted f o) (rest (step f o)) (step f o).ctrl
      × Waiting P (step f o)
unfolding step written accepted
step-Moves P f (screen x) v p h w =
    unfold push_screen rest in
    pump-Moves P (record f { screen = some x }) v.sound.out_valid (w.0, p.1, w.2)
step-Moves P f (ctrl x) v p h w =
    Pushed-Moves P f x (push_ctrl f x).0 (push_ctrl f x).1 v p.1 w (push_ctrl-Pushed f x v)
step-Moves P f (write n) v p h w =
    unfold advance rest in
    let g : FrameFeed = record f { out = OutBuf.advance f.out n } in
    let (m, w') = pump-Moves P g (OutBuf.Laws.advance-IsValid f.out n) w in
    let whole : take n (rest f) ++ rest g ≡ rest f =
      ap (λ t. take n (rest f) ++ t) (OutBuf.Laws.rest-advance f.out n)
      ∙ take-append-drop n (rest f) in
    (
      record {
        frames = m.frames;
        bytes =
            ap (λ t. take n (rest f) ++ t) m.bytes
            ∙ sym (append_assoc (take n (rest f)) (rest g) (wire m.frames))
            ∙ ap (λ t. t ++ wire m.frames) whole;
        order = m.order;
        known = m.known;
      },
      w',
    )

step-IsValid :
    (f : FrameFeed) (P : List ℕ → Type 0) (o : Op)
    → IsValid f
    → Pushes P (o ∷ [])
    → IsValid (step f o)
unfolding step
step-IsValid f P (screen x) v p = push_screen-IsValid x v p.0
step-IsValid f P (ctrl x) v p = push_ctrl-IsValid x v p.0
step-IsValid f P (write n) v p = advance-IsValid n v

run-Moves :
    (P : List ℕ → Type 0) (f : FrameFeed) (os : List Op)
    → IsValid f
    → Pushes P os
    → Within f os
    → Waiting P f
    → Moves P
        (rest f)
        f.ctrl
        (written_all f os)
        (accepted_all f os)
        (rest (run f os))
        (run f os).ctrl
unfolding run written_all accepted_all
run-Moves P f [] v p h w = still P (rest f) f.ctrl
run-Moves P f (o ∷ os) v p h w =
    let (here, more) = split o p in
    let (now, later) = split_within o h in
    let (m, w') = step-Moves P f o v here now w in
    Moves-trans P _ _ _ _ _ _ _ _ _ _ m
      (run-Moves P (step f o) os (step-IsValid f P o v here) more later w')
  where
    split : (o : Op) → Pushes P (o ∷ os) → Pushes P (o ∷ []) × Pushes P os
    split (screen x) p = ((p.0, p.1, tt), p.2)
    split (ctrl x) p = ((p.0, p.1, tt), p.2)
    split (write n) p = (tt, p)

    split_within : (o : Op) → Within f (o ∷ os) → Within f (o ∷ []) × Within (step f o) os
    split_within (screen x) h = (tt, h)
    split_within (ctrl x) h = (tt, h)
    split_within (write n) h = ((h.0, tt), h.1)

-- Over any calls of `push_screen`, `push_ctrl` and `advance` from the empty feed, with filled frames
-- and no write past the frame in flight: what was written and what is left of the frame in flight
-- are whole frames one after the other, each with any property that all pushed frames have, and the
-- control frames among them, then those that wait, are exactly the accepted ones in their order.
pub run_frames :
    (P : List ℕ → Type 0) (os : List Op)
    → Pushes P os
    → Within default os
    → (sent : List Sent) × (written_all default os ++ rest (run default os) ≡ wire sent)
      × (controls sent ++ (run default os).ctrl ≡ accepted_all default os)
      × AllSent P sent
run_frames P os p h =
    let m = run-Moves P default os default-IsValid p h (tt, tt, tt) in
    (m.frames, m.bytes ∙ unfold rest OutBuf.rest in refl, m.order, m.known)
