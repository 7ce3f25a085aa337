-- ===== src/Webauthn/Cbor/RoundTrip.antt =====
-- `read_cbor` against an encoder of CBOR in its shortest form: what was written is read back.
use quosh.Webauthn.Cbor.{
  number, read_len, nint_of, read_items, read_entries, read_item, read_body, read_cbor, Cbor, Items,
  Entries, uint, nint, bytes, text, array, map, bool, null, other, nil, cons, end, entry,
}
use quosh.Base.{
  ℕ, suc, ◌+◌, ◌*◌, ◌/◌, ◌%◌, ◌^◌, ◌<◌, ◌≡◌, refl, ap, ◌∙◌, inl, inr, true, false, List, [], ◌∷◌,
  ◌++◌, append_assoc, arith, ltb, if◌then◌else◌, ltb→lt, lt→ltb, Bool-cases, length, length-append,
  take-append, drop-append,
}
use quosh.Base.Int.{ℤ, pos, negsuc}
use quosh.Webauthn.{
  get_to, Failure, cbor_byte, cbor_u16, cbor_u32, cbor_u64, cbor_bytes, cbor_text, ok,
}
use quosh.Webauthn.Cbor.Fuel.{read_cbor-read_body}
use quosh.Bytes.{Fits, be_bytes, length-be_bytes, of_be-be_bytes}
use quosh.Proto.Utf8.{is_utf8}

-- The low bits of a first byte, and the bytes that follow it.
abbrev pub info_of : ℕ → ℕ
info_of v =
    if ltb v 24
    then v
    else if ltb v 256
    then 24
    else if ltb v (256 ^ 2)
    then 25
    else if ltb v (256 ^ 4)
    then 26
    else 27

abbrev pub argument : ℕ → List ℕ
argument v =
    if ltb v 24
    then []
    else if ltb v 256
    then be_bytes 1 v
    else if ltb v (256 ^ 2)
    then be_bytes 2 v
    else if ltb v (256 ^ 4)
    then be_bytes 4 v
    else be_bytes 8 v

abbrev pub head : ℕ → ℕ → List ℕ
head major v = (32 * major + info_of v) ∷ argument v

abbrev pub negated : ℤ → ℕ
negated (pos n) = 0
negated (negsuc n) = n

abbrev pub count : Items → ℕ
count nil = 0
count (cons x xs) = suc (count xs)

abbrev pub count_entries : Entries → ℕ
count_entries end = 0
count_entries (entry k v es) = suc (count_entries es)

abbrev mutual
  pub write : Cbor → List ℕ
  write (uint v) = head 0 v
  write (nint i) = head 1 (negated i)
  write (bytes b) = head 2 (length b) ++ b
  write (text s) = head 3 (length s) ++ s
  write (array xs) = head 4 (count xs) ++ write_items xs
  write (map es) = head 5 (count_entries es) ++ write_entries es
  write (bool false) = head 7 20
  write (bool true) = head 7 21
  write null = head 7 22
  write other = []

  pub write_items : Items → List ℕ
  write_items nil = []
  write_items (cons x xs) = write x ++ write_items xs

  pub write_entries : Entries → List ℕ
  write_entries end = []
  write_entries (entry k v es) = write k ++ (write v ++ write_entries es)

-- What the encoder can write: numbers of 64 bits, negative ones of 63, text that is UTF-8, and no
-- tags or floats.
abbrev mutual
  pub IsWritable : Cbor → Type 0
  IsWritable (uint v) = Fits 8 v
  IsWritable (nint (pos n)) = ⊥
  IsWritable (nint (negsuc n)) = n < 2 ^ 63
  IsWritable (bytes b) = Fits 8 (length b)
  IsWritable (text s) = Fits 8 (length s) × (is_utf8 s ≡ true)
  IsWritable (array xs) = Fits 8 (count xs) × AreWritable xs
  IsWritable (map es) = Fits 8 (count_entries es) × EntriesAreWritable es
  IsWritable (bool b) = Unit
  IsWritable null = Unit
  IsWritable other = ⊥

  pub AreWritable : Items → Type 0
  AreWritable nil = Unit
  AreWritable (cons x xs) = IsWritable x × AreWritable xs

  pub EntriesAreWritable : Entries → Type 0
  EntriesAreWritable end = Unit
  EntriesAreWritable (entry k v es) = IsWritable k × IsWritable v × EntriesAreWritable es

pub get_to-append :
    (e : Failure) (n : ℕ) (xs rest : List ℕ)
    → length xs ≡ n
    → get_to e n (xs ++ rest) ≡ ok (xs, rest)
unfolding get_to
get_to-append e n xs rest h =
    rw (take-append xs rest n h)
      (rw (drop-append xs rest n h) (ground (arith, length-append xs rest)))

number-be_bytes :
    (e : Failure) (w v : ℕ) (rest : List ℕ)
    → Fits w v
    → number e w (be_bytes w v ++ rest) ≡ ok (v, rest)
unfolding number
number-be_bytes e w v rest h =
    rw (get_to-append e w (be_bytes w v) rest (length-be_bytes w v)) (rw (of_be-be_bytes w v h))

read_len-argument :
    (v : ℕ) (rest : List ℕ) → Fits 8 v → read_len (info_of v) (argument v ++ rest) ≡ ok (v, rest)
unfolding read_len
read_len-argument v rest h = elim (Bool-cases (ltb v 24)) [
  | inl a ↦ rw a (rw a)
  | inr a ↦ rw a (elim (Bool-cases (ltb v 256)) [
    | inl b ↦ rw b (number-be_bytes cbor_byte 1 v rest (ltb→lt _ _ b))
    | inr b ↦ rw b (elim (Bool-cases (ltb v (256 ^ 2))) [
      | inl c ↦ rw c (number-be_bytes cbor_u16 2 v rest (ltb→lt _ _ c))
      | inr c ↦ rw c (elim (Bool-cases (ltb v (256 ^ 4))) [
        | inl d ↦ rw d (number-be_bytes cbor_u32 4 v rest (ltb→lt _ _ d))
        | inr d ↦ rw d (number-be_bytes cbor_u64 8 v rest h)
      ])
    ])
  ])
]

info_of-lt : (v : ℕ) → info_of v < 32
info_of-lt v = ground arith

-- A first byte and its argument, and then the item.
read_cbor-head :
    (major v : ℕ) (rest : List ℕ)
    → Fits 8 v
    → read_cbor (head major v ++ rest) ≡ read_item read_cbor major (info_of v) v rest
unfolding read_body
read_cbor-head major v rest h =
    read_cbor-read_body (head major v ++ rest) ∙ rw low (rw high (rw (read_len-argument v rest h)))
  where
    low : (32 * major + info_of v) % 32 ≡ info_of v
    low = omega (arith, info_of-lt v)

    high : (32 * major + info_of v) / 32 ≡ major
    high = omega (arith, info_of-lt v)

mutual
  unfolding read_item read_items read_entries nint_of

  read_write :
      (v : Cbor) (rest : List ℕ) → IsWritable v → read_cbor (write v ++ rest) ≡ ok (v, rest)
  read_write (uint v) rest h = read_cbor-head 0 v rest h
  read_write (nint (pos n)) rest h = absurd h
  read_write (nint (negsuc n)) rest h =
      read_cbor-head 1 n rest (omega arith) ∙ rw (lt→ltb n (2 ^ 63) h)
  read_write (bytes b) rest h =
      ap read_cbor (append_assoc (head 2 (length b)) b rest)
      ∙ read_cbor-head 2 (length b) (b ++ rest) h
      ∙ rw (get_to-append cbor_bytes (length b) b rest refl)
  read_write (text s) rest (h, u) =
      ap read_cbor (append_assoc (head 3 (length s)) s rest)
      ∙ read_cbor-head 3 (length s) (s ++ rest) h
      ∙ rw (get_to-append cbor_text (length s) s rest refl) (rw u)
  read_write (array xs) rest (h, hs) =
      ap read_cbor (append_assoc (head 4 (count xs)) (write_items xs) rest)
      ∙ read_cbor-head 4 (count xs) (write_items xs ++ rest) h
      ∙ rw (read_write_items xs rest hs)
  read_write (map es) rest (h, hs) =
      ap read_cbor (append_assoc (head 5 (count_entries es)) (write_entries es) rest)
      ∙ read_cbor-head 5 (count_entries es) (write_entries es ++ rest) h
      ∙ rw (read_write_entries es rest hs)
  read_write (bool true) rest h = read_cbor-head 7 21 rest (omega arith)
  read_write (bool false) rest h = read_cbor-head 7 20 rest (omega arith)
  read_write null rest h = read_cbor-head 7 22 rest (omega arith)
  read_write other rest h = absurd h

  read_write_items :
      (xs : Items) (rest : List ℕ)
      → AreWritable xs
      → read_items read_cbor (count xs) (write_items xs ++ rest) ≡ ok (xs, rest)
  read_write_items nil rest h = refl
  read_write_items (cons x xs) rest (h, hs) =
      rw (append_assoc (write x) (write_items xs) rest)
        (rw (read_write x (write_items xs ++ rest) h) (rw (read_write_items xs rest hs)))

  read_write_entries :
      (es : Entries) (rest : List ℕ)
      → EntriesAreWritable es
      → read_entries read_cbor (count_entries es) (write_entries es ++ rest) ≡ ok (es, rest)
  read_write_entries end rest h = refl
  read_write_entries (entry k v es) rest (hk, hv, hs) =
      rw (append_assoc (write k) (write v ++ write_entries es) rest) (
        rw (append_assoc (write v) (write_entries es) rest) (
          rw (read_write k (write v ++ (write_entries es ++ rest)) hk)
            (rw (read_write v (write_entries es ++ rest) hv) (rw (read_write_entries es rest hs)))))

-- Any item that the encoder can write is read back from its bytes, whatever follows them, and what
-- follows is left.
pub read_cbor-write :
    (v : Cbor) (rest : List ℕ) → IsWritable v → read_cbor (write v ++ rest) ≡ ok (v, rest)
read_cbor-write v rest h = read_write v rest h
