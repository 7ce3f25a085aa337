-- ===== src/Proto/Auth/Fields.antt =====
-- The fields of the authentication messages: what is written for each, and that it is read back.
use quosh.Base.{
  ℕ, ◌+◌, ◌-◌, ◌*◌, ◌%◌, ◌^◌, ◌≤◌, ◌≡◌, List, [], ◌∷◌, ◌++◌, append-nil, append_assoc, arith,
  le→ltb, length, concat, All, length-append,
}
use quosh.Bytes.{Fits, le_bytes}
use quosh.Proto.Reader.{◌>>=◌, pure, u8, bytes}
use quosh.Proto.Reader.Reads.{Reads, Reads-bind, bytes-Reads, u8-Reads, pure-Reads}
use quosh.Proto.{max_chain_hashes, ok}
use mathlib.Core.Path.{subst}
use quosh.Proto.Auth.{put_n, put_hashes, take_hashes_loop, take_hashes}

-- A field with its length before it.
abbrev pub field : List ℕ → List ℕ
field b = le_bytes 2 (length b) ++ b

pub put_n-field : (out b : List ℕ) → Fits 2 (length b) → put_n out b ≡ ok (out ++ field b)
unfolding put_n
put_n-field out b h =
    let e : length b % 2 ^ 16 ≡ length b = omega arith in
    rw (le→ltb (2 ^ 16 - 1) (length b) (omega arith), e, append_assoc)

-- Sixty-four hashes at most, each of 32 bytes.
pub record IsHashes (hs : List (List ℕ)) : Type 0 where
  pub count : length hs ≤ max_chain_hashes
  pub widths : All (λ h. length h ≡ 32) hs

abbrev pub hashes_field : List (List ℕ) → List ℕ
hashes_field hs = length hs ∷ concat hs

pub put_hashes-field :
    (out : List ℕ) (hs : List (List ℕ))
    → IsHashes hs
    → put_hashes out hs ≡ ok (out ++ hashes_field hs)
unfolding put_hashes
put_hashes-field out hs h =
    let e : length hs % 256 ≡ length hs = omega arith in
    rw (le→ltb max_chain_hashes (length hs) (omega arith), e, append_assoc)

take_hashes_loop-Reads :
    (hs : List (List ℕ))
    → All (λ h. length h ≡ 32) hs
    → Reads (take_hashes_loop (length hs)) (concat hs) hs
unfolding take_hashes_loop
take_hashes_loop-Reads [] h = pure-Reads []
take_hashes_loop-Reads (x ∷ hs) (hx, hh) =
    Reads-bind (bytes 32) _ x (concat hs) x (x ∷ hs) (bytes-Reads x 32 hx) (
      subst (λ z. Reads (take_hashes_loop (length hs) >>= λ ys. pure (x ∷ ys)) z (x ∷ hs))
        (append-nil (concat hs))
        (Reads-bind (take_hashes_loop (length hs)) (λ ys. pure (x ∷ ys)) (concat hs) [] hs (x ∷ hs)
          (take_hashes_loop-Reads hs hh) (pure-Reads (x ∷ hs))))

pub take_hashes-Reads : (hs : List (List ℕ)) → IsHashes hs → Reads take_hashes (hashes_field hs) hs
unfolding take_hashes
take_hashes-Reads hs h =
    Reads-bind u8 _ (length hs ∷ []) (concat hs) (length hs) hs (u8-Reads (length hs))
      (λ before after.
        rw (le→ltb max_chain_hashes (length hs) h.count)
          (take_hashes_loop-Reads hs h.widths before after))

length-hashes :
    (hs : List (List ℕ)) → All (λ h. length h ≡ 32) hs → length (concat hs) ≡ 32 * length hs
length-hashes [] h = omega arith
length-hashes (x ∷ hs) h = omega (arith, h.0, length-hashes hs h.1, length-append x (concat hs))

pub length-hashes_field : (hs : List (List ℕ)) → IsHashes hs → length (hashes_field hs) ≤ 2049
length-hashes_field hs h = omega (arith, length-hashes hs h.widths)

pub length-field : (b : List ℕ) → Fits 2 (length b) → length (field b) ≤ 65537
length-field b h = omega arith

abbrev pub total : List ℕ → ℕ
total [] = 0
total (w ∷ ws) = w + total ws

abbrev pub Bounds : List ℕ → List (List ℕ) → Type 0
Bounds (w ∷ ws) (x ∷ xs) = (length x ≤ w) × Bounds ws xs
Bounds [] [] = Unit
Bounds _ _ = ⊥

-- A payload is at most as long as the bounds of its pieces together.
pub length-concat-le :
    (ws : List ℕ) (xs : List (List ℕ)) → Bounds ws xs → length (concat xs) ≤ total ws
length-concat-le (w ∷ ws) (x ∷ xs) h =
    omega (arith, h.0, length-concat-le ws xs h.1, length-append x (concat xs))
length-concat-le [] [] h = omega arith
length-concat-le [] (x ∷ xs) h = absurd h
length-concat-le (w ∷ ws) [] h = absurd h
