-- ===== src/Proto/OutBuf/Laws.antt =====
-- `OutBuf` behaves as the queue of its unread bytes.
use quosh.Base.{
  ℕ, ◌+◌, ◌≤◌, ◌<◌, ◌≡◌, refl, sym, ap, ◌∙◌, ◌↔◌, Bool, true, false, List, [], ◌∷◌, ◌++◌, arith,
  ltb, leb, if◌then◌else◌, length, drop, length-append, length-drop, drop_all, drop-nil, drop-drop,
  drop-append_le,
}
use quosh.Proto.OutBuf.{
  max_unread, empty, queue, rest, is_empty, unread, try_queue, advance, OutBuf,
}

-- The offset lies in the buffer.
pub record IsValid (b : OutBuf) : Type 0 where
  pub inside : b.off ≤ length b.buf

pub rest-drop : (b : OutBuf) → rest b ≡ drop b.off b.buf
unfolding rest
rest-drop b = ground (arith, drop_all b.buf b.off)

pub unread-rest : (b : OutBuf) → unread b ≡ length (rest b)
unfolding unread
unread-rest b = omega (arith, ap length (rest-drop b), length-drop b.off b.buf)

pub rest-queue : {b : OutBuf} (x : List ℕ) → IsValid b → rest (queue b x) ≡ rest b ++ x
unfolding queue
rest-queue {b} x v = rw (rest-drop b, rest-drop) (drop-append_le b.buf x b.off v.inside)

pub rest-advance : (b : OutBuf) (n : ℕ) → rest (advance b n) ≡ drop n (rest b)
unfolding advance rest
rest-advance b n = ground (
  arith,
  rest-drop b,
  drop-drop n b.off b.buf,
  drop_all b.buf (b.off + n),
  drop_all b.buf b.off,
  drop-nil {A = ℕ} n,
)

pub is_empty-rest : (b : OutBuf) → IsValid b → (is_empty b ≡ true) ↔ (rest b ≡ [])
unfolding is_empty
is_empty-rest b v = (λ h. drop_lem h, λ h. ground (arith, empty_lem h))
  where
    drop_lem : leb (length b.buf) b.off ≡ true → rest b ≡ []
    drop_lem h = rest-drop b ∙ drop_all b.buf b.off (ground arith)

    empty_lem : rest b ≡ [] → length b.buf ≤ b.off
    empty_lem h = omega (arith, ap length (sym (rest-drop b) ∙ h), length-drop b.off b.buf)

pub empty-IsValid : IsValid empty
empty-IsValid = omega arith

pub queue-IsValid : {b : OutBuf} (x : List ℕ) → IsValid b → IsValid (queue b x)
unfolding queue
queue-IsValid {b} x v = omega (arith, length-append b.buf x)

pub try_queue-IsValid : {b : OutBuf} (x : List ℕ) → IsValid b → IsValid (try_queue b x).0
unfolding try_queue
try_queue-IsValid {b} x v = ground (arith, length-append b.buf x)

pub advance-IsValid : (b : OutBuf) (n : ℕ) → IsValid (advance b n)
unfolding advance
advance-IsValid b n = ground arith

-- What a caller does with a buffer.
pub data Op : Type 0 where
  put : List ℕ → Op
  try_put : List ℕ → Op
  consume : ℕ → Op

unfoldable pub step : OutBuf → Op → OutBuf × Bool
step b (put x) = (queue b x, true)
step b (try_put x) = try_queue b x
step b (consume n) = (advance b n, true)

-- The same call on a queue of bytes whose unread length is capped for `try_put`.
unfoldable pub queue_step : List ℕ → Op → List ℕ × Bool
queue_step q (put x) = (q ++ x, true)
queue_step q (try_put x) =
    if ltb max_unread (length q + length x) then (q, false) else (q ++ x, true)
queue_step q (consume n) = (drop n q, true)

-- What a caller sees after each call: the answer, the bytes to write, their number and the test
-- for none.
unfoldable pub run : OutBuf → List Op → List (Bool × List ℕ × ℕ × Bool)
run b [] = []
run b (o ∷ os) = let (b', ok) = step b o in (ok, rest b', unread b', is_empty b') ∷ run b' os

unfoldable pub run_queue : List ℕ → List Op → List (Bool × List ℕ × ℕ × Bool)
run_queue q [] = []
run_queue q (o ∷ os) =
    let (q', ok) = queue_step q o in (ok, q', length q', leb (length q') 0) ∷ run_queue q' os

step-IsValid : {b : OutBuf} (o : Op) → IsValid b → IsValid (step b o).0
unfolding step
step-IsValid (put x) v = queue-IsValid x v
step-IsValid (try_put x) v = try_queue-IsValid x v
step-IsValid {b} (consume n) v = advance-IsValid b n

rest-step :
    {b : OutBuf} (o : Op)
    → IsValid b
    → (rest (step b o).0 ≡ (queue_step (rest b) o).0) × ((step b o).1 ≡ (queue_step (rest b) o).1)
unfolding step queue_step
rest-step (put x) v = (rest-queue x v, refl)
rest-step {b} (try_put x) v = unfold try_queue in ground (arith, rest-queue x v, unread-rest b)
rest-step {b} (consume n) v = (rest-advance b n, refl)

is_empty-leb : {b : OutBuf} → IsValid b → is_empty b ≡ leb (length (rest b)) 0
unfolding is_empty
is_empty-leb {b} v = ground (arith, rest-drop b, length-drop b.off b.buf)

-- No sequence of calls tells a valid buffer from the queue of its unread bytes.
pub run_refines : (os : List Op) {b : OutBuf} → IsValid b → run b os ≡ run_queue (rest b) os
unfolding run run_queue
run_refines [] v = refl
run_refines (o ∷ os) {b} v =
    let v' = step-IsValid o v in
    let (same, ok) = rest-step o v in
    rw (run_refines os v', unread-rest (step b o).0, is_empty-leb v', same, ok)

pub is_empty-queue :
    (b : OutBuf) (x : List ℕ) → IsValid b → 0 < length x → is_empty (queue b x) ≡ false
unfolding is_empty queue
is_empty-queue b x v h = ground (arith, length-append b.buf x)
