-- ===== src/Webauthn/Cbor/Fuel.antt =====
-- The recursion of `read_cbor`: it ends by itself, and is the recursion of the source.
use quosh.Webauthn.Cbor.{
  M, bind, ◌>>=◌, ◌>>◌, pure, refuse_if, number, read_len, read_items, read_entries, read_item,
  read_body, read_within, read_cbor, Cbor, Items, Entries, bytes, text, array, map, other, cons,
  entry,
}
use quosh.Base.{
  ℕ, zero, suc, ◌/◌, ◌%◌, ◌<◌, ◌≡◌, refl, ap, ◌∙◌, Bool, true, false, not, List, [], ◌∷◌, arith,
  ltb, ◌==◌, if◌then◌else◌, length, length-drop,
}
use quosh.Webauthn.{
  get_to, Failure, Result, cbor_byte, cbor_u16, cbor_u32, cbor_u64, cbor_bytes, cbor_text,
  cbor_utf8, exhausted, err, ok,
}
use quosh.Bytes.{of_be}
use quosh.Proto.Utf8.{is_utf8}

abbrev pub is_exhausted : Failure → Bool
is_exhausted exhausted = true
is_exhausted _ = false

-- A refusal for a reason of the code, or fewer than `n` bytes that are left.
pub data Ends {A : Type 0} : Result (A × List ℕ) → ℕ → Type 0 where
  refused : {e : Failure} {n : ℕ} → is_exhausted e ≡ false → Ends (err e) n
  left : {a : A} {r : List ℕ} {n : ℕ} → length r < n → Ends (ok (a, r)) n

-- Each read of fewer than `n` bytes ends, and takes a byte.
abbrev Takes : M Cbor → ℕ → Type 0
Takes f n = (b : List ℕ) → length b < n → Ends (f b) (length b)

if_Ends :
    {A : Type 0} (c : Bool) {x y : Result (A × List ℕ)} {n : ℕ}
    → Ends x n
    → Ends y n
    → Ends (if c then x else y) n
if_Ends true h k = h
if_Ends false h k = k

bind-Ends :
    {A B : Type 0} {r : Result (A × List ℕ)} (f : A → M B) {n m : ℕ}
    → Ends r n
    → ((a : A) (b : List ℕ) → length b < n → Ends (f a b) m)
    → Ends (bind r f) m
bind-Ends f (refused h) k = refused h
bind-Ends f (left h) k = k _ _ h

bind_agree :
    {A B : Type 0} {r : Result (A × List ℕ)} {f g : A → M B} {n : ℕ}
    → Ends r n
    → ((a : A) (b : List ℕ) → length b < n → f a b ≡ g a b)
    → bind r f ≡ bind r g
bind_agree (refused h) k = refl
bind_agree (left h) k = k _ _ h

get_to-Ends :
    (e : Failure) (n : ℕ) (buf : List ℕ)
    → is_exhausted e ≡ false
    → Ends (get_to e n buf) (suc (length buf))
unfolding get_to
get_to-Ends e n buf h =
    if_Ends (ltb (length buf) n) (refused h) (left (omega (arith, length-drop n buf)))

number-Ends :
    (e : Failure) (w : ℕ) (buf : List ℕ)
    → is_exhausted e ≡ false
    → Ends (number e w buf) (suc (length buf))
unfolding number
number-Ends e w buf h = bind-Ends (λ b. pure (of_be b)) (get_to-Ends e w buf h) (λ a b l. left l)

read_len-Ends : (info : ℕ) (buf : List ℕ) → Ends (read_len info buf) (suc (length buf))
unfolding read_len
read_len-Ends info buf = if_Ends (ltb info 24) (left (omega arith)) (
    if_Ends (info == 24) (number-Ends cbor_byte 1 buf refl) (
      if_Ends (info == 25) (number-Ends cbor_u16 2 buf refl) (
        if_Ends (info == 26) (number-Ends cbor_u32 4 buf refl)
          (if_Ends (info == 27) (number-Ends cbor_u64 8 buf refl) (refused refl)))))

module _ (f : M Cbor) (n : ℕ) (takes : Takes f n) where
  read_items-Ends : (k : ℕ) (b : List ℕ) → length b < n → Ends (read_items f k b) (suc (length b))
  unfolding read_items
  read_items-Ends zero b l = left (omega arith)
  read_items-Ends (suc k) b l =
      bind-Ends (λ item. read_items f k >>= λ items. pure (cons item items)) (takes b l)
        (λ item r lr.
          bind-Ends (λ items. pure (cons item items)) (read_items-Ends k r (omega arith))
            (λ items s ls. left (omega arith)))

  read_entries-Ends :
      (k : ℕ) (b : List ℕ) → length b < n → Ends (read_entries f k b) (suc (length b))
  unfolding read_entries
  read_entries-Ends zero b l = left (omega arith)
  read_entries-Ends (suc k) b l =
      bind-Ends (λ key. f >>= λ v. read_entries f k >>= λ es. pure (entry key v es)) (takes b l)
        (λ key r lr.
          bind-Ends (λ v. read_entries f k >>= λ es. pure (entry key v es)) (takes r (omega arith))
            (λ v s ls.
              bind-Ends (λ es. pure (entry key v es)) (read_entries-Ends k s (omega arith))
                (λ es t lt. left (omega arith))))

  read_item-Ends :
      (major info val : ℕ) (b : List ℕ)
      → length b < n
      → Ends (read_item f major info val b) (suc (length b))
  unfolding read_item
  read_item-Ends major info val b l = if_Ends (major == 0) (left (omega arith)) (
      if_Ends (major == 1) (left (omega arith)) (
        if_Ends (major == 2)
          (bind-Ends (λ x. pure (bytes x)) (get_to-Ends cbor_bytes val b refl) (λ a r h. left h))
          (if_Ends (major == 3)
            (bind-Ends (λ x. refuse_if (not (is_utf8 x)) cbor_utf8 >> pure (text x))
              (get_to-Ends cbor_text val b refl) (λ a r h. by_utf8 (not (is_utf8 a)) a r h))
            (if_Ends (major == 4)
              (bind-Ends (λ x. pure (array x)) (read_items-Ends val b l) (λ a r h. left h))
              (if_Ends (major == 5)
                (bind-Ends (λ x. pure (map x)) (read_entries-Ends val b l) (λ a r h. left h))
                (if_Ends (major == 6)
                  (bind-Ends (λ x. pure other) (takes b l) (λ a r h. left (omega (arith, h))))
                  (left (omega arith))))))))
    where
      by_utf8 :
          (c : Bool) (a r : List ℕ)
          → length r < suc (length b)
          → Ends (bind (refuse_if c cbor_utf8 r) (λ passed. pure (text a))) (suc (length b))
      by_utf8 true a r h = refused refl
      by_utf8 false a r h = left h

  -- A second reader that reads the same.
  module _ (g : M Cbor) (agree : (b : List ℕ) → length b < n → f b ≡ g b) where
    read_items-agree : (k : ℕ) (b : List ℕ) → length b < n → read_items f k b ≡ read_items g k b
    unfolding read_items
    read_items-agree zero b l = refl
    read_items-agree (suc k) b l =
        bind_agree (takes b l) (λ item r lr.
          ap (λ (x : Result (Items × List ℕ)). bind x (λ items. pure (cons item items)))
            (read_items-agree k r (omega arith)))
        ∙ ap
            (λ (x : Result (Cbor × List ℕ)).
              bind x (λ item r. bind (read_items g k r) (λ items. pure (cons item items))))
            (agree b l)

    read_entries-agree :
        (k : ℕ) (b : List ℕ) → length b < n → read_entries f k b ≡ read_entries g k b
    unfolding read_entries
    read_entries-agree zero b l = refl
    read_entries-agree (suc k) b l =
        bind_agree (takes b l) (λ key r lr.
          bind_agree (takes r (omega arith)) (λ v s ls.
            ap (λ (x : Result (Entries × List ℕ)). bind x (λ es. pure (entry key v es)))
              (read_entries-agree k s (omega arith)))
          ∙ ap
              (λ (x : Result (Cbor × List ℕ)).
                bind x (λ v s. bind (read_entries g k s) (λ es. pure (entry key v es))))
              (agree r (omega arith)))
        ∙ ap
            (λ (x : Result (Cbor × List ℕ)). bind x (λ key r.
              bind (g r) (λ v s. bind (read_entries g k s) (λ es. pure (entry key v es)))))
            (agree b l)

    read_item-agree :
        (major info val : ℕ) (b : List ℕ)
        → length b < n
        → read_item f major info val b ≡ read_item g major info val b
    unfolding read_item
    read_item-agree major info val b l =
        rw (read_items-agree val b l) (rw (read_entries-agree val b l) (rw (agree b l)))

read_body-Ends :
    (f : M Cbor) (buf : List ℕ) → Takes f (length buf) → Ends (read_body f buf) (length buf)
unfolding read_body
read_body-Ends f [] takes = refused refl
read_body-Ends f (x ∷ xs) takes =
    bind-Ends (λ val. read_item f (x / 32) (x % 32) val) (read_len-Ends (x % 32) xs)
      (λ val r l. widen (read_item-Ends f (length (x ∷ xs)) takes (x / 32) (x % 32) val r l) l)
  where
    widen :
        {z : Result (Cbor × List ℕ)} {m : ℕ}
        → Ends z (suc m)
        → m < suc (length xs)
        → Ends z (suc (length xs))
    widen (refused h) k = refused h
    widen (left h) k = left (omega arith)

read_body-agree :
    (f g : M Cbor) (buf : List ℕ)
    → Takes f (length buf)
    → ((b : List ℕ) → length b < length buf → f b ≡ g b)
    → read_body f buf ≡ read_body g buf
unfolding read_body
read_body-agree f g [] takes agree = refl
read_body-agree f g (x ∷ xs) takes agree =
    bind_agree (read_len-Ends (x % 32) xs)
      (λ val r l. read_item-agree f (length (x ∷ xs)) takes g agree (x / 32) (x % 32) val r l)

read_within-Ends : (k : ℕ) (buf : List ℕ) → length buf < k → Ends (read_within k buf) (length buf)
unfolding read_within
read_within-Ends zero buf l = absurd (omega arith)
read_within-Ends (suc k) buf l =
    read_body-Ends (read_within k) buf (λ b h. read_within-Ends k b (omega arith))

-- More fuel changes nothing.
read_within-agree :
    (k m : ℕ) (buf : List ℕ)
    → length buf < k
    → length buf < m
    → read_within k buf ≡ read_within m buf
unfolding read_within
read_within-agree zero m buf l h = absurd (omega arith)
read_within-agree (suc k) zero buf l h = absurd (omega arith)
read_within-agree (suc k) (suc m) buf l h =
    read_body-agree (read_within k) (read_within m) buf (λ b lb. read_within-Ends k b (omega arith))
      (λ b lb. read_within-agree k m b (omega arith) (omega arith))

pub read_cbor-read_body : (buf : List ℕ) → read_cbor buf ≡ read_body read_cbor buf
unfolding read_cbor read_within
read_cbor-read_body buf =
    read_body-agree (read_within (length buf)) read_cbor buf
      (λ b l. read_within-Ends (length buf) b l)
      (λ b l. read_within-agree (length buf) (suc (length b)) b l (omega arith))

-- `read_cbor` is the recursion of its body, and on every buffer it ends: it refuses the buffer for
-- a reason of the code, or takes at least one byte.
pub read_cbor-Ends :
    (buf : List ℕ) → (read_cbor buf ≡ read_body read_cbor buf) × Ends (read_cbor buf) (length buf)
unfolding read_cbor
read_cbor-Ends buf =
    (read_cbor-read_body buf, read_within-Ends (suc (length buf)) buf (omega arith))
