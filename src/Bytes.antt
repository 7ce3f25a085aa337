-- ===== src/Bytes.antt =====
-- Machine integers as the bytes that `to_le_bytes` writes and `from_le_bytes` reads, and the
-- saturating arithmetic of `usize`.
use quosh.Base.{
  ℕ, zero, suc, ◌+◌, ◌-◌, ◌*◌, ◌/◌, ◌%◌, ◌^◌, ◌<◌, min, ◌≡◌, refl, ap, ◌∙◌, List, [], ◌∷◌, reverse,
  reverse-reverse, arith, length, All, length-reverse,
}
use native.Mathlib.Nat.{pow-suc}
use mathlib.Core.Path.{ap₂}

abbrev pub IsByte : ℕ → Type 0
IsByte b = b < 256

-- `w` bytes hold the number.
abbrev pub Fits : ℕ → ℕ → Type 0
Fits w v = v < 256 ^ w

-- The largest `usize` on a 64-bit machine.
abbrev pub usize_max : ℕ
usize_max = 2 ^ 64 - 1

abbrev pub saturating_add : ℕ → ℕ → ℕ
saturating_add a b = min (a + b) usize_max

abbrev pub saturating_mul : ℕ → ℕ → ℕ
saturating_mul a b = min (a * b) usize_max

-- `v.to_le_bytes()` of a number of `w` bytes; a cast to that width is in it.
abbrev pub le_bytes : ℕ → ℕ → List ℕ
le_bytes zero v = []
le_bytes (suc w) v = (v % 256) ∷ le_bytes w (v / 256)

-- `from_le_bytes`
abbrev pub of_le : List ℕ → ℕ
of_le [] = 0
of_le (b ∷ bs) = b + 256 * of_le bs

pub length-le_bytes : (w v : ℕ) → length (le_bytes w v) ≡ w
length-le_bytes zero v = refl
length-le_bytes (suc w) v = ap suc (length-le_bytes w (v / 256))

div-Fits : (w v : ℕ) → Fits (suc w) v → Fits w (v / 256)
div-Fits w v h = omega (arith, pow-suc 256 w)

pub of_le-le_bytes : (w v : ℕ) → Fits w v → of_le (le_bytes w v) ≡ v
of_le-le_bytes zero v h = omega arith
of_le-le_bytes (suc w) v h = omega (arith, of_le-le_bytes w (v / 256) (div-Fits w v h))

pub le_bytes-of_le : (bs : List ℕ) → All IsByte bs → le_bytes (length bs) (of_le bs) ≡ bs
le_bytes-of_le [] h = refl
le_bytes-of_le (b ∷ bs) (hb, hbs) =
    ap₂ ◌∷◌ (omega arith) (ap (le_bytes (length bs)) (rest b (of_le bs) hb) ∙ le_bytes-of_le bs hbs)
  where
    rest : (b n : ℕ) → IsByte b → (b + 256 * n) / 256 ≡ n
    rest b n h = omega arith

pub le_bytes-IsByte : (w v : ℕ) → All IsByte (le_bytes w v)
le_bytes-IsByte zero v = tt
le_bytes-IsByte (suc w) v = (omega arith, le_bytes-IsByte w (v / 256))

pub of_le-Fits : (bs : List ℕ) → All IsByte bs → Fits (length bs) (of_le bs)
of_le-Fits [] h = omega arith
of_le-Fits (b ∷ bs) (hb, hbs) = omega (arith, pow-suc 256 (length bs), of_le-Fits bs hbs)

-- `to_be_bytes` and `from_be_bytes`
abbrev pub be_bytes : ℕ → ℕ → List ℕ
be_bytes w v = reverse (le_bytes w v)

abbrev pub of_be : List ℕ → ℕ
of_be bs = of_le (reverse bs)

pub length-be_bytes : (w v : ℕ) → length (be_bytes w v) ≡ w
length-be_bytes w v = length-reverse (le_bytes w v) ∙ length-le_bytes w v

pub of_be-be_bytes : (w v : ℕ) → Fits w v → of_be (be_bytes w v) ≡ v
of_be-be_bytes w v h = ap of_le (reverse-reverse (le_bytes w v)) ∙ of_le-le_bytes w v h
