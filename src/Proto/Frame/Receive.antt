-- ===== src/Proto/Frame/Receive.antt =====
-- The loop `while let Some(..) = split_frame(..)?` of `recv_control` in
-- crates/quosh-client/src/lib.rs, with what it hands on kept as a list.
use quosh.Base.{
  ℕ, zero, suc, ◌+◌, ◌≤◌, ◌<◌, ◌≡◌, refl, ap, ◌∙◌, Option, none, some, List, [], ◌∷◌, ◌++◌,
  append_assoc, arith, length, drop, length-drop,
}
use quosh.Proto.Frame.RoundTrip.{IsPayload, split_frame-encode_frame}
use quosh.Proto.Frame.Stream.{
  split_frame_cases, split_frame-append, Answer, waits, short, fails, takes,
}
use quosh.Proto.{Error, Result, ok, err}
use quosh.Proto.Frame.{encode_frame, split_frame}

-- The loop ends with a buffer that holds no whole frame, or with an error.
pub data End : Type 0 where
  waiting : List ℕ → End
  failed : Error → End

-- One round, with the rounds that follow it.
abbrev drained :
    (List ℕ → List (ℕ × List ℕ) × End)
    → Result (Option (ℕ × List ℕ)) × List ℕ
    → List (ℕ × List ℕ) × End
drained again (err e, left) = ([], failed e)
drained again (ok none, left) = ([], waiting left)
drained again (ok (some f), left) = (f ∷ (again left).0, (again left).1)

-- Each round takes five bytes at least, so fuel above the length of the buffer is enough.
pub drain : ℕ → List ℕ → List (ℕ × List ℕ) × End
drain zero buf = ([], waiting buf)
drain (suc fuel) buf = drained (drain fuel) (split_frame buf)

pub receive : List ℕ → List (ℕ × List ℕ) × End
receive buf = drain (suc (length buf)) buf

-- The fuel of `receive` does not show in its result.
drain-receive :
    (k j : ℕ) (buf : List ℕ) → length buf < k → length buf < j → drain k buf ≡ drain j buf
unfolding drain
drain-receive zero j buf h g = absurd (omega arith)
drain-receive (suc k) zero buf h g = absurd (omega arith)
drain-receive (suc k) (suc j) buf h g =
    by_case
      (λ n le.
        drain-receive k j (drop (4 + n) buf) (omega (arith, length-drop (4 + n) buf))
          (omega (arith, length-drop (4 + n) buf)))
      (split_frame_cases buf)
  where
    by_case :
        ((n : ℕ) → 4 + n ≤ length buf → drain k (drop (4 + n) buf) ≡ drain j (drop (4 + n) buf))
        → Answer buf
        → drain (suc k) buf ≡ drain (suc j) buf
    by_case ih (waits e r) = rw r
    by_case ih (short n e less r) = rw r
    by_case ih (fails x e r) = rw r
    by_case ih (takes n t p e le d r) = rw (r, ih n le)

pub receive-none : (buf l : List ℕ) → split_frame buf ≡ (ok none, l) → receive buf ≡ ([], waiting l)
unfolding receive drain
receive-none buf l r = rw r

pub receive-err :
    (buf l : List ℕ) (e : Error) → split_frame buf ≡ (err e, l) → receive buf ≡ ([], failed e)
unfolding receive drain
receive-err buf l e r = rw r

drain-some :
    (k : ℕ) (buf l : List ℕ) (f : ℕ × List ℕ)
    → split_frame buf ≡ (ok (some f), l)
    → drain (suc k) buf ≡ (f ∷ (drain k l).0, (drain k l).1)
unfolding drain
drain-some k buf l f r = rw r

split_frame_shorter :
    (buf l : List ℕ) (f : ℕ × List ℕ) → split_frame buf ≡ (ok (some f), l) → length l < length buf
split_frame_shorter buf l f r = by_case (split_frame_cases buf)
  where
    by_case : Answer buf → length l < length buf
    by_case (waits e q) = cc
    by_case (short n e less q) = cc
    by_case (fails x e q) = cc
    by_case (takes n t p e le d q) =
        let same : drop (4 + n) buf ≡ l = cc in
        omega (arith, ap length same, length-drop (4 + n) buf)

pub receive-some :
    (buf l : List ℕ) (f : ℕ × List ℕ)
    → split_frame buf ≡ (ok (some f), l)
    → receive buf ≡ (f ∷ (receive l).0, (receive l).1)
unfolding receive
receive-some buf l f r =
    drain-some (length buf) buf l f r
    ∙ ap (λ (z : List (ℕ × List ℕ) × End). (f ∷ z.0, z.1))
        (drain-receive (length buf) (suc (length l)) l (split_frame_shorter buf l f r)
          (omega arith))

-- What the next bytes add to a buffer that was taken apart.
abbrev pub resume : List (ℕ × List ℕ) × End → List ℕ → List (ℕ × List ℕ) × End
resume (fs, waiting l) b = (fs ++ (receive (l ++ b)).0, (receive (l ++ b)).1)
resume (fs, failed e) b = (fs, failed e)

receive_fuel-append :
    (k : ℕ) (a b : List ℕ) → length a < k → receive (a ++ b) ≡ resume (receive a) b
receive_fuel-append zero a b h = absurd (omega arith)
receive_fuel-append (suc k) a b h =
    by_case
      (λ n le. receive_fuel-append k (drop (4 + n) a) b (omega (arith, length-drop (4 + n) a)))
      (split_frame_cases a)
  where
    cons :
        (f : ℕ × List ℕ) (r : List (ℕ × List ℕ) × End)
        → (f ∷ (resume r b).0, (resume r b).1) ≡ resume (f ∷ r.0, r.1) b
    cons f (fs, waiting l) = refl
    cons f (fs, failed e) = refl

    by_case :
        ((n : ℕ)
          → 4 + n ≤ length a
          → receive (drop (4 + n) a ++ b) ≡ resume (receive (drop (4 + n) a)) b)
        → Answer a
        → receive (a ++ b) ≡ resume (receive a) b
    by_case ih (waits e r) = rw (receive-none a a r)
    by_case ih (short n e less r) = rw (receive-none a a r)
    by_case ih (fails x e r) =
        rw (receive-err a a x r)
          (receive-err (a ++ b) (a ++ b) x ((split_frame-append a b).1 x a r))
    by_case ih (takes n t p e le d r) = rw (receive-some a _ (t, p) r) (
        receive-some (a ++ b) _ (t, p) ((split_frame-append a b).0 (t, p) _ r)
        ∙ ap (λ (z : List (ℕ × List ℕ) × End). ((t, p) ∷ z.0, z.1)) (ih n le)
        ∙ cons (t, p) (receive (drop (4 + n) a)))

-- Bytes that arrive in two pieces give the frames and the end that they give at once.
pub receive-append : (a b : List ℕ) → receive (a ++ b) ≡ resume (receive a) b
receive-append a b = receive_fuel-append (suc (length a)) a b (omega arith)

abbrev pub encode_all : List (ℕ × List ℕ) → List ℕ
encode_all [] = []
encode_all ((t, p) ∷ fs) = encode_frame t p ++ encode_all fs

abbrev pub Payloads : List (ℕ × List ℕ) → Type 0
Payloads [] = Unit
Payloads ((t, p) ∷ fs) = IsPayload p × Payloads fs

-- The loop takes exactly the frames that were sent, and keeps the bytes of the one that is not whole.
pub receive-encode_all :
    (fs : List (ℕ × List ℕ)) (more : List ℕ)
    → Payloads fs
    → receive (encode_all fs ++ more) ≡ (fs ++ (receive more).0, (receive more).1)
receive-encode_all [] more h = refl
receive-encode_all ((t, p) ∷ fs) more h = rw append_assoc (
    receive-some _ _ (t, p) (split_frame-encode_frame t p (encode_all fs ++ more) h.0)
    ∙ ap (λ (z : List (ℕ × List ℕ) × End). ((t, p) ∷ z.0, z.1)) (receive-encode_all fs more h.1))
