-- ===== src/Proto/Reader.antt =====
-- `Reader` of crates/quosh-proto/src/lib.rs: a position in a payload, as a state monad with errors.
-- `Cursor` of the standard library, which the screen decoder uses, reads in the same way.
pub mod Reads
use quosh.Base.{
  ℕ, ◌+◌, Bool, true, false, not, Option, none, some, List, ltb, ◌==◌, if◌then◌else◌, length,
  get_elem?, slice,
}
use quosh.Bytes.{of_le}
use quosh.Proto.{Error, Result, truncated, frame, ok, err}
use quosh.Proto.Utf8.{is_utf8}

pub record Reader : Type 0 where
  pub p : List ℕ
  pub i : ℕ

abbrev pub M {ℓ} : Type ℓ → Type ℓ
M A = Reader → Result (A × Reader)

-- What follows a read, where the read went well.
abbrev pub bind {ℓ κ} :
    {A : Type ℓ} {B : Type κ} → Result (A × Reader) → (A → M B) → Result (B × Reader)
bind (err e) f = err e
bind (ok (a, r)) f = f a r

infixl 5 ◌>>=◌
abbrev pub ◌>>=◌ {ℓ κ} : {T : Type ℓ} {U : Type κ} (read : M T) (next : T → M U) → M U
(read >>= next) r = bind (read r) next

infixl 5 ◌>>◌
abbrev pub ◌>>◌ {κ} : {U : Type κ} (check : M (Unit {0})) (rest : M U) → M U
check >> rest = check >>= λ passed. rest

abbrev pub pure {ℓ} : {A : Type ℓ} → A → M A
pure a r = ok (a, r)

-- `Err(e)?`
abbrev pub refuse_if : Bool → Error → M (Unit {0})
refuse_if true e r = err e
refuse_if false e r = ok (tt, r)

abbrev pub u8_at : Option ℕ → Reader → Result (ℕ × Reader)
u8_at none r = err truncated
u8_at (some v) r = ok (v, record r { i = r.i + 1 })

pub u8 : M ℕ
u8 r = u8_at (get_elem? r.p r.i) r

-- `self.p.get(self.i..self.i + n)`
unfoldable pub bytes : ℕ → M (List ℕ)
bytes n r =
    if ltb (length r.p) (r.i + n)
    then err truncated
    else ok (slice r.p r.i (r.i + n), record r { i = r.i + n })

unfoldable pub n : M (List ℕ)
n = do b ← bytes 2; bytes (of_le b)

unfoldable pub done : M (Unit {0})
done r = if r.i == length r.p then ok (tt, r) else err frame

-- A little-endian number of `w` bytes.
unfoldable pub number : ℕ → M ℕ
number w = do b ← bytes w; pure (of_le b)

-- `std::str::from_utf8(b).map_err(|_| Error::Frame)`
pub text : List ℕ → M (List ℕ)
text b = do refuse_if (not (is_utf8 b)) frame; pure b

-- `Reader::new(p)` and the reads that follow.
abbrev pub value {ℓ} : {A : Type ℓ} → Result (A × Reader) → Result A
value (err e) = err e
value (ok (a, r)) = ok a

abbrev pub run {ℓ} : {A : Type ℓ} → M A → List ℕ → Result A
run m p = value (m (record { p = p; i = 0 }))
