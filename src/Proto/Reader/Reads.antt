-- ===== src/Proto/Reader/Reads.antt =====
-- What a reader makes of bytes that were written for it, wherever they stand.
use quosh.Base.{
  ℕ, ◌+◌, ◌-◌, ◌≡◌, refl, sym, ap, ◌∙◌, true, some, List, [], ◌∷◌, ◌++◌, append-nil, append_assoc,
  arith, le→ltb, ==_self, length, get_elem?, length-append, take-append, drop-append,
}
use quosh.Bytes.{Fits, le_bytes, of_le, length-le_bytes, of_le-le_bytes}
use quosh.Proto.Reader.{
  M, bind, ◌>>=◌, ◌>>◌, pure, u8_at, u8, bytes, n, done, number, text, value, run, Reader,
}
use quosh.Proto.Utf8.{is_utf8}
use mathlib.Core.Path.{subst, ap₂}
use native.Mathlib.Nat.{add-zero}
use quosh.Proto.{ok}

abbrev at : List ℕ → ℕ → Reader
at p i = record { p = p; i = i }

-- On `bs`, behind and before any other bytes, `m` reads `v` and stops behind `bs`.
abbrev pub Reads {ℓ} : {A : Type ℓ} → M A → List ℕ → A → Type ℓ
Reads m bs v =
    (before after : List ℕ)
    → m (at (before ++ (bs ++ after)) (length before))
      ≡ ok (v, at (before ++ (bs ++ after)) (length before + length bs))

-- On `bs` at the end of the payload, `m` reads `v` and stops at the end.
abbrev pub ReadsAll {ℓ} : {A : Type ℓ} → M A → List ℕ → A → Type ℓ
ReadsAll m bs v =
    (before : List ℕ)
    → m (at (before ++ bs) (length before)) ≡ ok (v, at (before ++ bs) (length before + length bs))

at_eq : {p q : List ℕ} {i j : ℕ} → p ≡ q → i ≡ j → at p i ≡ at q j
at_eq e h = ap₂ at e h

module _ {ℓ κ} {A : Type ℓ} {B : Type κ} (m : M A) (f : A → M B) (bs cs : List ℕ) (v : A)
    (w : B) where
  pub Reads-bind : Reads m bs v → Reads (f v) cs w → Reads (m >>= f) (bs ++ cs) w
  Reads-bind hm hf before after = rw (append_assoc bs cs after) (
      ap (λ r. bind r f) (hm before (cs ++ after))
      ∙ ap (f v)
          (at_eq (sym (append_assoc before bs (cs ++ after))) (sym (length-append before bs)))
      ∙ hf (before ++ bs) after
      ∙ ap (λ r. ok (w, r))
          (at_eq (append_assoc before bs (cs ++ after))
            (omega (arith, length-append before bs, length-append bs cs))))

  pub ReadsAll-bind : Reads m bs v → ReadsAll (f v) cs w → ReadsAll (m >>= f) (bs ++ cs) w
  ReadsAll-bind hm hf before =
      ap (λ r. bind r f) (hm before cs)
      ∙ ap (f v) (at_eq (sym (append_assoc before bs cs)) (sym (length-append before bs)))
      ∙ hf (before ++ bs)
      ∙ ap (λ r. ok (w, r))
          (at_eq (append_assoc before bs cs)
            (omega (arith, length-append before bs, length-append bs cs)))

get_elem?-append :
    (before : List ℕ) (b : ℕ) (after : List ℕ)
    → get_elem? (before ++ (b ∷ after)) (length before) ≡ some b
get_elem?-append [] b after = refl
get_elem?-append (x ∷ before) b after = get_elem?-append before b after

pub bytes-Reads : (bs : List ℕ) (k : ℕ) → length bs ≡ k → Reads (bytes k) bs bs
unfolding bytes
bytes-Reads bs k h before after = rw (
  le→ltb (length (before ++ (bs ++ after))) (length before + k)
      (omega (arith, length-append before (bs ++ after), length-append bs after)),
  drop-append before (bs ++ after) (length before) refl,
  take-append bs after (length before + k - length before) (omega arith),
  h,
)

pub u8-Reads : (b : ℕ) → Reads u8 (b ∷ []) b
unfolding u8
u8-Reads b before after =
    ap (λ o. u8_at o (at (before ++ (b ∷ after)) (length before))) (get_elem?-append before b after)

pub number-Reads : (w v : ℕ) → Fits w v → Reads (number w) (le_bytes w v) v
unfolding number
number-Reads w v h =
    subst (λ z. Reads (number w) z v) (append-nil (le_bytes w v))
      (Reads-bind (bytes w) (λ b. pure (of_le b)) (le_bytes w v) [] (le_bytes w v) v
        (bytes-Reads (le_bytes w v) w (length-le_bytes w v))
        (λ before after. rw (add-zero, of_le-le_bytes w v h)))

pub n-Reads : (b : List ℕ) → Fits 2 (length b) → Reads n (le_bytes 2 (length b) ++ b) b
unfolding n
n-Reads b h =
    Reads-bind (bytes 2) (λ c. bytes (of_le c)) (le_bytes 2 (length b)) b (le_bytes 2 (length b)) b
      (bytes-Reads (le_bytes 2 (length b)) 2 refl)
      (bytes-Reads b (of_le (le_bytes 2 (length b))) (sym (of_le-le_bytes 2 (length b) h)))

-- A field that is read as bytes and taken for a text.
pub text-Reads :
    (m : M (List ℕ)) (bs b : List ℕ) → Reads m bs b → is_utf8 b ≡ true → Reads (m >>= text) bs b
unfolding text
text-Reads m bs b hm h =
    subst (λ z. Reads (m >>= text) z b) (append-nil bs)
      (Reads-bind m text bs [] b b hm (λ before after. rw (h, add-zero)))

pub pure-Reads {ℓ} : {A : Type ℓ} (v : A) → Reads (pure v) [] v
pure-Reads v before after = rw add-zero

pub done-ReadsAll {ℓ} : {A : Type ℓ} (v : A) → ReadsAll (done >> pure v) [] v
unfolding done
done-ReadsAll v before = rw (append-nil, ==_self, add-zero)

-- A whole payload that is read to its end is decoded.
pub ReadsAll-run {ℓ} : {A : Type ℓ} (m : M A) (p : List ℕ) (v : A) → ReadsAll m p v → run m p ≡ ok v
ReadsAll-run m p v h = ap value (h [])
