-- ===== src/Proto/FrameFeed/Inv.antt =====
-- The invariant of `FrameFeed`, and that each operation keeps it.
use quosh.Base.{
  ℕ, ◌+◌, ◌≤◌, ◌<◌, ◌≡◌, true, Option, none, some, List, [], ◌∷◌, ◌++◌, arith, length, All,
}
use quosh.Proto.OutBuf
use quosh.Proto.OutBuf.{OutBuf}
use quosh.Proto.OutBuf.Laws
use quosh.Proto.FrameFeed.{
  ctrl_cap, default, pump, push_screen, push_ctrl_pumped, push_ctrl, push_fin, is_empty, advance,
  FrameFeed,
}

-- A frame with a byte at least; `encode_frame` writes no other.
abbrev pub IsFilled : List ℕ → Type 0
IsFilled x = 0 < length x

abbrev pub OnSome : (List ℕ → Type 0) → Option (List ℕ) → Type 0
OnSome P none = Unit
OnSome P (some x) = P x

abbrev pub total : List (List ℕ) → ℕ
total [] = 0
total (x ∷ xs) = length x + total xs

-- The byte count of the control queue is right and capped, and what waits is filled.
pub record IsSound (f : FrameFeed) : Type 0 where
  pub out_valid : OutBuf.Laws.IsValid f.out
  pub counted : f.ctrl_bytes ≡ total f.ctrl
  pub capped : f.ctrl_bytes ≤ ctrl_cap
  pub ctrl_filled : All IsFilled f.ctrl
  pub screen_filled : OnSome IsFilled f.screen
  pub fin_filled : OnSome IsFilled f.fin

-- Nothing waits while no frame is in flight.
abbrev pub IsBusy : FrameFeed → Type 0
IsBusy f = OutBuf.is_empty f.out ≡ true → is_empty f ≡ true

pub record IsValid (f : FrameFeed) : Type 0 where
  pub sound : IsSound f
  pub busy : IsBusy f

total-append : (xs : List (List ℕ)) (x : List ℕ) → total (xs ++ (x ∷ [])) ≡ total xs + length x
total-append [] x = omega arith
total-append (y ∷ ys) x = omega (arith, total-append ys x)

All-append_one :
    (xs : List (List ℕ)) (x : List ℕ) → All IsFilled xs → IsFilled x → All IsFilled (xs ++ (x ∷ []))
All-append_one [] x h hx = (hx, tt)
All-append_one (y ∷ ys) x h hx = (h.0, All-append_one ys x h.1 hx)

-- A feed by its fields, to split on what waits.
abbrev pub feed : OutBuf → Option (List ℕ) → List (List ℕ) → ℕ → Option (List ℕ) → FrameFeed
feed o s c n t = record { out = o; screen = s; ctrl = c; ctrl_bytes = n; fin = t }

pump_fields :
    (o : OutBuf) (s : Option (List ℕ)) (c : List (List ℕ)) (n : ℕ) (t : Option (List ℕ))
    → IsSound (feed o s c n t)
    → IsSound (pump (feed o s c n t)) × IsBusy (pump (feed o s c n t))
unfolding pump is_empty
pump_fields o s (x ∷ xs) n t h =
    let v = OutBuf.Laws.queue-IsValid x h.out_valid in
    let e = OutBuf.Laws.is_empty-queue o x h.out_valid h.ctrl_filled.0 in ground (arith, v, e)
pump_fields o (some x) [] n t h =
    let v = OutBuf.Laws.queue-IsValid x h.out_valid in
    let e = OutBuf.Laws.is_empty-queue o x h.out_valid h.screen_filled in ground (arith, v, e)
pump_fields o none [] n (some x) h =
    let v = OutBuf.Laws.queue-IsValid x h.out_valid in
    let e = OutBuf.Laws.is_empty-queue o x h.out_valid h.fin_filled in ground (arith, v, e)
pump_fields o none [] n none h = ground arith

pub pump-IsValid : {f : FrameFeed} → IsSound f → IsValid (pump f)
pump-IsValid {f} h =
    let (s, b) = pump_fields f.out f.screen f.ctrl f.ctrl_bytes f.fin h in
    record { sound = s; busy = b }

pub default-IsValid : IsValid default
unfolding is_empty OutBuf.is_empty
default-IsValid = record { sound = omega arith; busy = λ e. e }

pub push_screen-IsValid :
    {f : FrameFeed} (x : List ℕ) → IsValid f → IsFilled x → IsValid (push_screen f x)
unfolding push_screen
push_screen-IsValid {f} x v h = pump-IsValid (ground (arith, v.sound))

pub push_fin-IsValid :
    {f : FrameFeed} (x : List ℕ) → IsValid f → IsFilled x → IsValid (push_fin f x)
unfolding push_fin
push_fin-IsValid {f} x v h = pump-IsValid (ground (arith, v.sound))

pub advance-IsValid : {f : FrameFeed} (n : ℕ) → IsValid f → IsValid (advance f n)
unfolding advance
advance-IsValid {f} n v =
    pump-IsValid (ground (arith, v.sound, OutBuf.Laws.advance-IsValid f.out n))

push_ctrl_pumped-IsValid :
    (g : FrameFeed) (x : List ℕ) → IsValid g → IsFilled x → IsValid (push_ctrl_pumped g x).0
unfolding push_ctrl_pumped is_empty
push_ctrl_pumped-IsValid g x v h = ground (
  arith,
  v.sound,
  v.busy,
  OutBuf.Laws.queue-IsValid x v.sound.out_valid,
  OutBuf.Laws.is_empty-queue g.out x v.sound.out_valid h,
  total-append g.ctrl x,
  All-append_one g.ctrl x v.sound.ctrl_filled h,
)

pub push_ctrl-IsValid :
    {f : FrameFeed} (x : List ℕ) → IsValid f → IsFilled x → IsValid (push_ctrl f x).0
unfolding push_ctrl
push_ctrl-IsValid {f} x v h = push_ctrl_pumped-IsValid (pump f) x (pump-IsValid v.sound) h

-- Every operation keeps the invariant: the byte count of the control queue is exact and at most the
-- cap, the frames are filled, and nothing waits while no frame is in flight.
pub feed-IsValid :
    (f : FrameFeed) (x : List ℕ) (k : ℕ)
    → IsValid f
    → IsFilled x
    → IsValid (push_screen f x)
      × IsValid (push_ctrl f x).0
      × IsValid (push_fin f x)
      × IsValid (advance f k)
feed-IsValid f x k v h = (
  push_screen-IsValid x v h,
  push_ctrl-IsValid x v h,
  push_fin-IsValid x v h,
  advance-IsValid k v,
)
