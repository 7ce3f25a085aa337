-- ===== src/Predict/Keys/Returns.antt =====
-- The parts of a keystroke of crates/quosh-predict/src/lib.rs that index a row or ask for the last
-- cursor: when they have a result.
use mathlib.Core.Path.{subst}
use quosh.Base.{
  ℕ, zero, suc, ◌+◌, ◌-◌, ◌%◌, ◌^◌, ◌≤◌, ◌<◌, ◌≡◌, refl, sym, ap, ◌∙◌, inl, inr, Bool, true, false,
  not, Option, none, some, List, [], ◌∷◌, ◌++◌, arith, ltb, ◌==◌, ltb→lt, Bool-cases, length,
  get_elem?, All,
}
use quosh.Predict.{cell_bytes, Grids, CellOverlay, CursorOverlay, Row}
use quosh.Predict.Cull.{last_cursor}
use quosh.Predict.Keys.{
  and_then, update_at, stamp, take_over, new_cells, with_row, modify_last, Host, Mark,
}
use quosh.Predict.Keys.Press.{neighbour, shift_cell, shift_left, shift_right}

-- There is a result, with the property.
abbrev pub Returns : {A : Type 0} → (A → Type 0) → Option A → Type 0
Returns {A = A} P o = (a : A) × ((o ≡ some a) × P a)

pub and_then-Returns :
    {A B : Type 0} (P : A → Type 0) (Q : B → Type 0) (o : Option A) (f : A → Option B)
    → Returns P o
    → ((a : A) → P a → Returns Q (f a))
    → Returns Q (and_then o f)
and_then-Returns P Q o f (a, (e, p)) h = rw e (h a p)

pub update_at-Returns :
    {A : Type 0} (xs : List A) (i : ℕ) (f : A → A)
    → i < length xs
    → Returns (λ ys. length ys ≡ length xs) (update_at xs i f)
update_at-Returns [] i f h = absurd (omega arith)
update_at-Returns (x ∷ xs) zero f h = (f x ∷ xs, (refl, refl))
update_at-Returns (x ∷ xs) (suc i) f h =
    and_then-Returns (λ ys. length ys ≡ length xs) (λ ys. length ys ≡ suc (length xs))
      (update_at xs i f) (λ ys. some (x ∷ ys)) (update_at-Returns xs i f (omega arith))
      (λ ys e. (x ∷ ys, (refl, ap suc e)))

pub get_elem?-Returns :
    {A : Type 0} (xs : List A) (i : ℕ) → i < length xs → Returns (λ x. Unit {0}) (get_elem? xs i)
get_elem?-Returns [] i h = absurd (omega arith)
get_elem?-Returns (x ∷ xs) zero h = (x, (refl, tt))
get_elem?-Returns (x ∷ xs) (suc i) h = get_elem?-Returns xs i (omega arith)

abbrev pub Wide : ℕ → List CellOverlay → Type 0
Wide w cells = length cells ≡ w

pub Returns-weaken :
    {A : Type 0} (P Q : A → Type 0) (o : Option A)
    → ((a : A) → P a → Q a)
    → Returns P o
    → Returns Q o
Returns-weaken P Q o h (a, (e, p)) = (a, (e, h a p))

pub update_at-Wide :
    (w : ℕ) (cells : List CellOverlay) (i : ℕ) (f : CellOverlay → CellOverlay)
    → Wide w cells
    → i < w
    → Returns (Wide w) (update_at cells i f)
update_at-Wide w cells i f e l =
    Returns-weaken (λ ys. length ys ≡ length cells) (Wide w) (update_at cells i f) (λ ys h. h ∙ e)
      (update_at-Returns cells i f (omega arith))

abbrev pub WideRow : ℕ → Row → Type 0
WideRow w r = Wide w r.cells

pub new_cells-Wide : (s k i epoch : ℕ) → Wide k (new_cells s k i epoch)
new_cells-Wide s zero i epoch = refl
new_cells-Wide s (suc k) i epoch = ap suc (new_cells-Wide s k (suc i) epoch)

pub with_row-Returns :
    (w : ℕ) (fresh : List CellOverlay) (n : ℕ) (f : List CellOverlay → Option (List CellOverlay))
    → Wide w fresh
    → ((cs : List CellOverlay) → Wide w cs → Returns (Wide w) (f cs))
    → (rs : List Row) → All (WideRow w) rs
    → Returns (All (WideRow w)) (with_row fresh n f rs)
with_row-Returns w fresh n f e h [] a =
    and_then-Returns (Wide w) (All (WideRow w)) (f fresh)
      (λ cs. some (record { row_num = n; cells = cs } ∷ [])) (h fresh e)
      (λ cs c. (record { row_num = n; cells = cs } ∷ [], (refl, (c, tt))))
with_row-Returns w fresh n f e h (r ∷ rs) a = elim (Bool-cases (r.row_num == n)) [
  | inl t ↦ rw t (
      and_then-Returns (Wide w) (All (WideRow w)) (f r.cells)
        (λ cs. some (record r { cells = cs } ∷ rs)) (h r.cells a.0)
        (λ cs c. (record r { cells = cs } ∷ rs, (refl, (c, a.1)))))
  | inr u ↦ rw u (
      and_then-Returns (All (WideRow w)) (All (WideRow w)) (with_row fresh n f rs)
        (λ qs. some (r ∷ qs)) (with_row-Returns w fresh n f e h rs a.1)
        (λ qs c. (r ∷ qs, (refl, (a.0, c)))))
]

-- The cursors all have the property, and the last is `c`.
abbrev pub Led : (CursorOverlay → Type 0) → CursorOverlay → List CursorOverlay → Type 0
Led P c cs = All P cs × (last_cursor cs ≡ some c)

pub some_inj : {A : Type 0} {a b : A} → some a ≡ some b → a ≡ b
some_inj {a = a} p = ap (λ o. elim o [ none ↦ a | some x ↦ x ]) p

last_cursor-cons :
    (d : CursorOverlay) (ds : List CursorOverlay) (x : CursorOverlay)
    → last_cursor ds ≡ some x
    → last_cursor (d ∷ ds) ≡ some x
last_cursor-cons d [] x e = absurd (ground arith)
last_cursor-cons d (b ∷ ds) x e = e

pub modify_last-Returns :
    (P : CursorOverlay → Type 0) (f : CursorOverlay → CursorOverlay) (cs : List CursorOverlay)
    (c : CursorOverlay)
    → Led P c cs
    → P (f c)
    → Returns (Led P (f c)) (modify_last f cs)
modify_last-Returns P f [] c (a, e) p = absurd (ground arith)
modify_last-Returns P f (d ∷ []) c (a, e) p = (
  f d ∷ [],
  (
    refl,
    ((subst (λ x. P (f x)) (sym (some_inj e)) p, tt), ap (λ o. and_then o (λ x. some (f x))) e),
  ),
)
modify_last-Returns P f (d ∷ b ∷ cs) c (a, e) p =
    and_then-Returns (Led P (f c)) (Led P (f c)) (modify_last f (b ∷ cs)) (λ ds. some (d ∷ ds))
      (modify_last-Returns P f (b ∷ cs) c (a.1, e) p)
      (λ ds l. (d ∷ ds, (refl, ((a.0, l.0), last_cursor-cons d ds (f c) l.1))))

pub last_cursor-append :
    (cs : List CursorOverlay) (c : CursorOverlay) → last_cursor (cs ++ (c ∷ [])) ≡ some c
last_cursor-append [] c = refl
last_cursor-append (d ∷ []) c = refl
last_cursor-append (d ∷ b ∷ cs) c = last_cursor-append (b ∷ cs) c

pub All-append :
    {A : Type 0} (P : A → Type 0) (xs ys : List A) → All P xs → All P ys → All P (xs ++ ys)
All-append P [] ys a b = b
All-append P (x ∷ xs) ys a b = (a.0, All-append P xs ys a.1 b)

module _ {F V : Type 0} (grid : Grids F) (host : Host F V) where
  neighbour-Returns :
      (fb : F) (row i : ℕ) (b : Bool) (cells : List CellOverlay)
      → (b ≡ true → i < length cells)
      → Returns (λ n. Unit {0}) (neighbour grid host fb row i b cells)
  neighbour-Returns fb row i false cells h = (none, (refl, tt))
  neighbour-Returns fb row i true cells h =
      and_then-Returns (λ n. Unit {0}) (λ n. Unit {0}) (get_elem? cells i)
        (λ n. some (some (n, cell_bytes grid fb row i))) (get_elem?-Returns cells i (h refl))
        (λ n u. (some (n, cell_bytes grid fb row i), (refl, tt)))

  shift_cell-Returns :
      (fb : F) (row : ℕ) (m : Mark) (i : ℕ) (beside : Option (Option (CellOverlay × List ℕ)))
      (w : ℕ) (cells : List CellOverlay)
      → Returns (λ n. Unit {0}) beside
      → Wide w cells
      → i < w
      → Returns (Wide w) (shift_cell grid host fb row m i beside cells)
  unfolding shift_cell
  shift_cell-Returns fb row m i beside w cells b e l =
      and_then-Returns (λ n. Unit {0}) (Wide w) beside
        (λ n. update_at cells i (λ c. take_over n (stamp m (cell_bytes grid fb row i) c))) b
        (λ n u. rw (sym e) (
          update_at-Returns cells i (λ c. take_over n (stamp m (cell_bytes grid fb row i) c))
            (omega arith)))

  pub shift_left-Returns :
      (fb : F) (row : ℕ) (m : Mark) (k i : ℕ) (cells : List CellOverlay)
      → i + k ≡ grid.cols fb
      → grid.cols fb < 65535
      → Wide (grid.cols fb) cells
      → Returns (Wide (grid.cols fb)) (shift_left grid host fb row m k i cells)
  shift_left-Returns fb row m zero i cells s small e = (cells, (refl, e))
  shift_left-Returns fb row m (suc k) i cells s small e =
      let b = ltb ((i + 2) % 2 ^ 16) (grid.cols fb) in
      and_then-Returns (Wide (grid.cols fb)) (Wide (grid.cols fb))
        (shift_cell grid host fb row m i (neighbour grid host fb row (i + 1) b cells) cells)
        (shift_left grid host fb row m k (suc i))
        (shift_cell-Returns fb row m i (neighbour grid host fb row (i + 1) b cells) (grid.cols fb)
          cells
          (neighbour-Returns fb row (i + 1) b cells
            (λ t. let u = ltb→lt ((i + 2) % 2 ^ 16) (grid.cols fb) t in omega arith))
          e (omega arith))
        (λ ds d. shift_left-Returns fb row m k (suc i) ds (omega arith) small d)

  pub shift_right-Returns :
      (fb : F) (row : ℕ) (m : Mark) (k i : ℕ) (cells : List CellOverlay)
      → k ≤ i
      → i < grid.cols fb
      → Wide (grid.cols fb) cells
      → Returns (Wide (grid.cols fb)) (shift_right grid host fb row m k i cells)
  shift_right-Returns fb row m zero i cells s l e = (cells, (refl, e))
  shift_right-Returns fb row m (suc k) i cells s l e =
      let b = not (i == grid.cols fb - 1) in
      and_then-Returns (Wide (grid.cols fb)) (Wide (grid.cols fb))
        (shift_cell grid host fb row m i (neighbour grid host fb row (i - 1) b cells) cells)
        (shift_right grid host fb row m k (i - 1))
        (shift_cell-Returns fb row m i (neighbour grid host fb row (i - 1) b cells) (grid.cols fb)
          cells (neighbour-Returns fb row (i - 1) b cells (λ t. omega arith)) e (omega arith))
        (λ ds d. shift_right-Returns fb row m k (i - 1) ds (omega arith) (omega arith) d)
