-- ===== src/Daemon/Line.antt =====
-- `read_request_line` of crates/quosh-server/src/helper.rs: a line from a socket that hands it over
-- in pieces.
use quosh.Base.{
  ℕ, zero, suc, ◌-◌, ◌<◌, min, max, ◌≡◌, refl, sym, ap, ◌∙◌, ◌⊎◌, inl, inr, Bool, true, false, ◌&&◌,
  not, Option, none, some, List, [], ◌∷◌, ◌++◌, append_assoc, arith, ltb, leb, ◌==◌, if◌then◌else◌,
  le→ltb, Bool-cases, length, take, concat, All, length-append, take_all,
}

-- What a read of at most 256 bytes before the deadline answered; no bytes are the end.
pub data Answer : Type 0 where
  got : List ℕ → Answer
  timed_out failed : Answer

-- `waiting` is a request that has not ended.
pub data Line : Type 0 where
  line : List ℕ → Line
  too_large timeout broken waiting : Line

abbrev pub newline : ℕ
newline = 10

-- What stands before the first newline.
abbrev pub prepend : ℕ → Option (List ℕ) → Option (List ℕ)
prepend x none = none
prepend x (some l) = some (x ∷ l)

abbrev pub cut : List ℕ → Option (List ℕ)
cut [] = none
cut (x ∷ xs) = if x == newline then some [] else prepend x (cut xs)

abbrev pub has_newline : Option (List ℕ) → Bool
has_newline none = false
has_newline (some l) = true

-- The bytes of a piece that are still taken.
abbrev pub taken : ℕ → List ℕ → List ℕ → ℕ
taken max acc b = min (length b) (max - length acc)

-- One read, and what follows it.
answered : ℕ → (List ℕ → Line) → List ℕ → Answer → Line
answered max next acc timed_out = timeout
answered max next acc failed = broken
answered max next acc (got []) = line acc
answered max next acc (got (x ∷ b)) =
    let acc' = acc ++ take (taken max acc (x ∷ b)) (x ∷ b) in
    if ltb (taken max acc (x ∷ b)) (length (x ∷ b)) && not (has_newline (cut acc'))
    then too_large
    else next acc'

-- The loop, over what the reads answer.
unfoldable pub read_loop : ℕ → List ℕ → List Answer → Line
unfolding answered
read_loop max acc [] = elim (cut acc) [
  | some l ↦ line l
  | none ↦ if leb max (length acc) then too_large else waiting
]
read_loop max acc (a ∷ rest) = elim (cut acc) [
  | some l ↦ line l
  | none ↦
      if leb max (length acc)
      then too_large
      else answered max (λ acc'. read_loop max acc' rest) acc a
]

unfoldable pub read_request_line : ℕ → List Answer → Line
unfolding read_loop
read_request_line max reads = read_loop max [] reads

-- The pieces, none of which is empty.
abbrev pub pieces : List (List ℕ) → List Answer
pieces [] = []
pieces (b ∷ bs) = got b ∷ pieces bs

abbrev pub Pieces : List (List ℕ) → Type 0
Pieces bs = All (λ b. 0 < length b) bs

cut_line : (l rest : List ℕ) → cut l ≡ none → cut (l ++ (newline ∷ rest)) ≡ some l
cut_line [] rest h = refl
cut_line (x ∷ l) rest h = elim (Bool-cases (x == newline)) [
  | inl t ↦ let n : cut (x ∷ l) ≡ some [] = rw t refl in absurd (ground arith)
  | inr f ↦ rw f (rw (cut_line l rest (cut_tail (cut l) (rw f at h))) refl)
]
  where
    cut_tail : (o : Option (List ℕ)) → prepend x o ≡ none → o ≡ none
    cut_tail none h = refl
    cut_tail (some y) h = cc

-- A piece ends before the newline, or has it.
data Split (b rest more tail : List ℕ) : Type 0 where
  before : (m : List ℕ) → more ≡ b ++ m → rest ≡ m ++ (newline ∷ tail) → Split b rest more tail
  reached : (t : List ℕ) → b ≡ more ++ (newline ∷ t) → Split b rest more tail

split : (b rest more tail : List ℕ) → b ++ rest ≡ more ++ (newline ∷ tail) → Split b rest more tail
split [] rest more tail h = before more refl h
split (x ∷ b) rest [] tail h = reached b (ap (λ y. y ∷ b) (cc))
split (x ∷ b) rest (y ∷ more) tail h = later (split b rest more tail (cc))
  where
    later : Split b rest more tail → Split (x ∷ b) rest (y ∷ more) tail
    later (before m e f) = before m (cc) f
    later (reached t e) = reached t (cc)

cut_before : (acc more : List ℕ) → cut (acc ++ more) ≡ none → cut acc ≡ none
cut_before [] more h = refl
cut_before (x ∷ acc) more h = elim (Bool-cases (x == newline)) [
  | inl t ↦ let n : cut ((x ∷ acc) ++ more) ≡ some [] = rw t refl in absurd (ground arith)
  | inr f ↦ rw f (rw (cut_before acc more (cut_tail (cut (acc ++ more)) (rw f at h))) refl)
]
  where
    cut_tail : (o : Option (List ℕ)) → prepend x o ≡ none → o ≡ none
    cut_tail none h = refl
    cut_tail (some y) h = cc

take_past :
    (n : ℕ) (more t : List ℕ)
    → length more < n
    → take n (more ++ (newline ∷ t)) ≡ more ++ (newline ∷ take (n - suc (length more)) t)
take_past zero more t h = absurd (omega arith)
take_past (suc n) [] t h = ap (λ k. newline ∷ take k t) (omega arith)
take_past (suc n) (x ∷ more) t h =
    ap (λ r. x ∷ r) (take_past n more t (omega arith))
    ∙ ap (λ k. x ∷ (more ++ (newline ∷ take k t))) (omega arith)

read_loop-cut :
    (max : ℕ) (acc : List ℕ) (reads : List Answer) {l : List ℕ}
    → cut acc ≡ some l
    → read_loop max acc reads ≡ line l
unfolding read_loop
read_loop-cut max acc [] h = rw (h, read_loop) refl
read_loop-cut max acc (a ∷ rest) h = rw (h, read_loop) refl

-- A piece that was taken whole, or that has the newline.
answered-goes_on :
    (max : ℕ) (next : List ℕ → Line) (acc b : List ℕ)
    → 0 < length b
    → (taken max acc b ≡ length b) ⊎ (has_newline (cut (acc ++ take (taken max acc b) b)) ≡ true)
    → answered max next acc (got b) ≡ next (acc ++ take (taken max acc b) b)
unfolding answered
answered-goes_on max next acc [] h k = absurd (omega arith)
answered-goes_on max next acc (x ∷ b) h (inl e) =
    rw (le→ltb (taken max acc (x ∷ b)) (length (x ∷ b)) (omega (arith, e))) refl
answered-goes_on max next acc (x ∷ b) h (inr e) =
    rw e (both (ltb (taken max acc (x ∷ b)) (length (x ∷ b))))
  where
    both :
        (c : Bool)
        → (if c && false then too_large else next (acc ++ take (taken max acc (x ∷ b)) (x ∷ b)))
          ≡ next (acc ++ take (taken max acc (x ∷ b)) (x ∷ b))
    both true = refl
    both false = refl

read_loop-more :
    (max : ℕ) (acc : List ℕ) (a : Answer) (rest : List Answer)
    → cut acc ≡ none
    → leb max (length acc) ≡ false
    → read_loop max acc (a ∷ rest) ≡ answered max (λ acc'. read_loop max acc' rest) acc a
unfolding read_loop
read_loop-more max acc a rest h k = rw (h, read_loop) (rw k refl)

read_loop-pieces :
    (max : ℕ) (bs : List (List ℕ)) (acc more tail : List ℕ)
    → cut (acc ++ more) ≡ none
    → length (acc ++ more) < max
    → Pieces bs
    → concat bs ≡ more ++ (newline ∷ tail)
    → read_loop max acc (pieces bs) ≡ line (acc ++ more)
unfolding read_loop
read_loop-pieces max [] acc [] tail h k p e = absurd (ground arith)
read_loop-pieces max [] acc (x ∷ more) tail h k p e = absurd (ground arith)
read_loop-pieces max (b ∷ bs) acc more tail h k (pb, p) e =
    read_loop-more max acc (got b) (pieces bs) (cut_before acc more h) short
    ∙ by_split (split b (concat bs) more tail e)
        (λ m g. read_loop-pieces max bs (acc ++ b) m tail g)
  where
    short : leb max (length acc) ≡ false
    short = ground (arith, length-append acc more)

    by_split :
        Split b (concat bs) more tail
        → ((m : List ℕ)
            → cut ((acc ++ b) ++ m) ≡ none
            → length ((acc ++ b) ++ m) < max
            → Pieces bs
            → concat bs ≡ m ++ (newline ∷ tail)
            → read_loop max (acc ++ b) (pieces bs) ≡ line ((acc ++ b) ++ m))
        → answered max (λ acc'. read_loop max acc' (pieces bs)) acc (got b) ≡ line (acc ++ more)
    by_split (before m em f) ih =
        let whole : acc ++ more ≡ (acc ++ b) ++ m =
          ap (λ r. acc ++ r) em ∙ sym (append_assoc acc b m) in
        let fits : taken max acc b ≡ length b =
          omega (arith, k, ap length whole, length-append (acc ++ b) m, length-append acc b) in
        answered-goes_on max (λ acc'. read_loop max acc' (pieces bs)) acc b pb (inl fits)
        ∙ ap (λ r. read_loop max (acc ++ r) (pieces bs))
            (take_all b (taken max acc b) (omega (arith, fits)))
        ∙ ih m (ap cut (sym whole) ∙ h) (omega (arith, k, ap length whole)) p f
        ∙ ap line (sym whole)
    by_split (reached t eb) ih =
        let n = taken max acc b in
        let past : length more < n =
          omega
            (arith, k, ap length eb, length-append acc more, length-append more (newline ∷ t)) in
        let line_in : cut (acc ++ take n b) ≡ some (acc ++ more) =
          ap (λ r. cut (acc ++ take n r)) eb
          ∙ ap (λ r. cut (acc ++ r)) (take_past n more t past)
          ∙ ap cut (sym (append_assoc acc more (newline ∷ take (n - suc (length more)) t)))
          ∙ cut_line (acc ++ more) _ h in
        answered-goes_on max (λ acc'. read_loop max acc' (pieces bs)) acc b pb
          (inr (ap has_newline line_in))
        ∙ read_loop-cut max (acc ++ take n b) (pieces bs) line_in

-- A request line that is shorter than the limit is read to its newline, in whatever pieces the
-- socket hands it over and whatever follows it.
pub read_request_line-pieces :
    (max : ℕ) (bs : List (List ℕ)) (l rest : List ℕ)
    → cut l ≡ none
    → length l < max
    → Pieces bs
    → concat bs ≡ l ++ (newline ∷ rest)
    → read_request_line max (pieces bs) ≡ line l
unfolding read_request_line
read_request_line-pieces max bs l rest h k p e = read_loop-pieces max bs [] l rest h k p e
