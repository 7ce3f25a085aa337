-- ===== src/Webauthn/Cbor.antt =====
-- The reader of CBOR in crates/quosh-server/src/webauthn.rs, and the keys of COSE that it yields.
pub mod Fuel
pub mod RoundTrip
use quosh.Webauthn.{
  get_to, Failure, Result, cbor_empty, cbor_byte, cbor_u16, cbor_u32, cbor_u64, cbor_info,
  cbor_bytes, cbor_text, cbor_utf8, exhausted, key_not_map, kty, alg, crv, key_point, err, ok,
}
use quosh.Base.Int.{int_eq, ℤ, pos, negsuc}
use quosh.Base.{
  ℕ, zero, suc, ◌-◌, ◌/◌, ◌%◌, ◌^◌, Bool, true, false, ◌&&◌, not, Option, none, some, List, [], ◌∷◌,
  ◌++◌, ltb, ◌==◌, if◌then◌else◌, length,
}
use quosh.Bytes.{of_be}
use quosh.Proto.Utf8.{is_utf8}
use quosh.Devices.Search.{same}

-- A tag or a float is `other`.
mutual
  pub data Cbor : Type 0 where
    uint : ℕ → Cbor
    nint : ℤ → Cbor
    bytes : List ℕ → Cbor
    text : List ℕ → Cbor
    array : Items → Cbor
    map : Entries → Cbor
    bool : Bool → Cbor
    null : Cbor
    other : Cbor

  -- `Vec<Cbor>`
  pub data Items : Type 0 where
    nil : Items
    cons : Cbor → Items → Items

  -- `Vec<(Cbor, Cbor)>`
  pub data Entries : Type 0 where
    end : Entries
    entry : Cbor → Cbor → Entries → Entries

abbrev pub as_uint : Cbor → Option ℕ
as_uint (uint v) = some v
as_uint _ = none

abbrev pub as_i64 : Cbor → Option ℤ
as_i64 (uint v) = if ltb v (2 ^ 63) then some (pos v) else none
as_i64 (nint v) = some v
as_i64 _ = none

abbrev pub as_bytes : Cbor → Option (List ℕ)
as_bytes (bytes b) = some b
as_bytes _ = none

abbrev pub as_text : Cbor → Option (List ℕ)
as_text (text s) = some s
as_text _ = none

abbrev pub text_is : List ℕ → Option (List ℕ) → Bool
text_is key none = false
text_is key (some s) = same s key

abbrev pub int_is : ℤ → Option ℤ → Bool
int_is key none = false
int_is key (some k) = int_eq k key

-- The first entry whose key passes.
abbrev pub find_entry : (Cbor → Bool) → Entries → Option Cbor
find_entry p end = none
find_entry p (entry k v es) = if p k then some v else find_entry p es

abbrev pub map_get : Entries → List ℕ → Option Cbor
map_get es key = find_entry (λ k. text_is key (as_text k)) es

abbrev pub map_get_int : Entries → ℤ → Option Cbor
map_get_int es key = find_entry (λ k. int_is key (as_i64 k)) es

-- `.and_then(f)`
abbrev pub then_as : {T : Type 0} → Option Cbor → (Cbor → Option T) → Option T
then_as none f = none
then_as (some c) f = f c

-- What is read, and the rest of the buffer.
abbrev pub M : Type 0 → Type 0
M A = List ℕ → Result (A × List ℕ)

abbrev pub bind : {A B : Type 0} → Result (A × List ℕ) → (A → M B) → Result (B × List ℕ)
bind (err e) f = err e
bind (ok (a, r)) f = f a r

infixl 5 ◌>>=◌
abbrev pub ◌>>=◌ : {A B : Type 0} (read : M A) (next : A → M B) → M B
(read >>= next) r = bind (read r) next

infixl 5 ◌>>◌
abbrev pub ◌>>◌ : {B : Type 0} (check : M (Unit {0})) (rest : M B) → M B
check >> rest = check >>= λ passed. rest

abbrev pub pure : {A : Type 0} → A → M A
pure a r = ok (a, r)

abbrev pub refuse_if : Bool → Failure → M (Unit {0})
refuse_if true e r = err e
refuse_if false e r = ok (tt, r)

-- A big-endian number of `w` bytes.
unfoldable pub number : Failure → ℕ → M ℕ
number e w = do b ← get_to e w; pure (of_be b)

abbrev pub first_byte : M ℕ
first_byte [] = err cbor_empty
first_byte (b ∷ bs) = ok (b, bs)

unfoldable pub read_len : ℕ → M ℕ
read_len info buf =
    if ltb info 24
    then ok (info, buf)
    else if info == 24
    then number cbor_byte 1 buf
    else if info == 25
    then number cbor_u16 2 buf
    else if info == 26
    then number cbor_u32 4 buf
    else if info == 27
    then number cbor_u64 8 buf
    else err cbor_info

-- `-1 - val as i64`: the cast wraps from 2^63 on.
unfoldable pub nint_of : ℕ → ℤ
nint_of val = if ltb val (2 ^ 63) then negsuc val else pos (2 ^ 64 - 1 - val)

abbrev pub simple : ℕ → Cbor
simple info =
    if info == 20
    then bool false
    else if info == 21
    then bool true
    else if info == 22
    then null
    else if info == 23
    then null
    else other

-- `for _ in 0..val`
unfoldable pub read_items : M Cbor → ℕ → M Items
read_items read zero = pure nil
read_items read (suc n) = do item ← read; items ← read_items read n; pure (cons item items)

unfoldable pub read_entries : M Cbor → ℕ → M Entries
read_entries read zero = pure end
read_entries read (suc n) = do k ← read; v ← read; es ← read_entries read n; pure (entry k v es)

read_bytes : ℕ → M Cbor
read_bytes n = do b ← get_to cbor_bytes n; pure (bytes b)

read_text : ℕ → M Cbor
read_text n = do b ← get_to cbor_text n; refuse_if (not (is_utf8 b)) cbor_utf8; pure (text b)

read_array : M Cbor → ℕ → M Cbor
read_array read n = do items ← read_items read n; pure (array items)

read_map : M Cbor → ℕ → M Cbor
read_map read n = do es ← read_entries read n; pure (map es)

read_tag : M Cbor → M Cbor
read_tag read = do inner ← read; pure other

-- `match major`, with the reader of what is inside.
unfoldable pub read_item : M Cbor → ℕ → ℕ → ℕ → M Cbor
unfolding read_bytes read_text read_array read_map read_tag
read_item read major info val buf =
    if major == 0
    then ok (uint val, buf)
    else if major == 1
    then ok (nint (nint_of val), buf)
    else if major == 2
    then read_bytes val buf
    else if major == 3
    then read_text val buf
    else if major == 4
    then read_array read val buf
    else if major == 5
    then read_map read val buf
    else if major == 6
    then read_tag read buf
    else ok (simple info, buf)

-- The body of `read_cbor`, with the function it calls for what is inside.
unfoldable pub read_body : M Cbor → M Cbor
read_body read = do
  first ← first_byte
  val ← read_len (first % 32)
  read_item read (first / 32) (first % 32) val

-- The depth of the recursion is bounded by the fuel.
unfoldable pub read_within : ℕ → M Cbor
read_within zero buf = err exhausted
read_within (suc fuel) buf = read_body (read_within fuel) buf

unfoldable pub read_cbor : M Cbor
unfolding read_within
read_cbor buf = read_within (suc (length buf)) buf

abbrev pub uint_is : ℕ → Option ℕ → Bool
uint_is n none = false
uint_is n (some v) = v == n

-- An uncompressed point from its two coordinates.
abbrev pub p256_point : Option (List ℕ) → Option (List ℕ) → Result (List ℕ)
p256_point (some x) (some y) =
    if length x == 32 && length y == 32 then ok ((4 ∷ x) ++ y) else err key_point
p256_point _ _ = err key_point

cose_entries : Entries → Result (List ℕ)
cose_entries es =
    if not (uint_is 2 (then_as (map_get_int es (pos 1)) as_uint))
    then err kty
    else if not (int_is (negsuc 6) (then_as (map_get_int es (pos 3)) as_i64))
    then err alg
    else if not (int_is (pos 1) (then_as (map_get_int es (negsuc 0)) as_i64))
    then err crv
    else p256_point (then_as (map_get_int es (negsuc 1)) as_bytes)
        (then_as (map_get_int es (negsuc 2)) as_bytes)

-- An ES256 key over P-256 (`COSE_KTY_EC2`, `COSE_ALG_ES256`, `COSE_CRV_P256`).
unfoldable pub cose_p256 : Cbor → Result (List ℕ)
unfolding cose_entries
cose_p256 (map es) = cose_entries es
cose_p256 _ = err key_not_map
