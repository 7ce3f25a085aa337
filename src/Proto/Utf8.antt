-- ===== src/Proto/Utf8.antt =====
-- `std::str::from_utf8` and `String::from_utf8_lossy`: which bytes are UTF-8, and the text that is
-- left when every ill-formed run is replaced by U+FFFD. A text is the list of its bytes.
use quosh.Base.{
  ℕ, zero, suc, ◌≡◌, refl, sym, ap, ◌∙◌, Bool, true, false, ◌&&◌, List, [], ◌∷◌, ◌++◌, append-nil,
  append_assoc, arith, ltb, leb, ◌==◌, if◌then◌else◌,
}

-- Between two characters, or inside one: the bytes read, how many more are wanted after the next,
-- and the range of the next.
pub data State : Type 0 where
  start : State
  inside : List ℕ → ℕ → ℕ → ℕ → State

-- What a byte adds to the text, whether the bytes before it were well formed, and the new state.
pub record Output : Type 0 where
  pub text : List ℕ
  pub valid : Bool
  pub state : State

abbrev pub replacement : List ℕ
replacement = 0xEF ∷ 0xBF ∷ 0xBD ∷ []

abbrev within : ℕ → ℕ → ℕ → Bool
within lo hi b = leb lo b && leb b hi

abbrev lead : List ℕ → ℕ → ℕ → ℕ → Output
lead seen more lo hi = record { text = []; valid = true; state = inside seen more lo hi }

-- A byte that starts a character.
first : ℕ → Output
first b =
    if ltb b 0x80
    then record { text = b ∷ []; valid = true; state = start }
    else if within 0xC2 0xDF b
    then lead (b ∷ []) 0 0x80 0xBF
    else if b == 0xE0
    then lead (b ∷ []) 1 0xA0 0xBF
    else if b == 0xED
    then lead (b ∷ []) 1 0x80 0x9F
    else if within 0xE1 0xEF b
    then lead (b ∷ []) 1 0x80 0xBF
    else if b == 0xF0
    then lead (b ∷ []) 2 0x90 0xBF
    else if within 0xF1 0xF3 b
    then lead (b ∷ []) 2 0x80 0xBF
    else if b == 0xF4
    then lead (b ∷ []) 2 0x80 0x8F
    else record { text = replacement; valid = false; state = start }

-- The last byte of a character, or one before it.
continue : List ℕ → ℕ → ℕ → Output
continue seen zero b = record { text = seen ++ (b ∷ []); valid = true; state = start }
continue seen (suc more) b = lead (seen ++ (b ∷ [])) more 0x80 0xBF

-- A byte that does not go on with a character ends it, and is read again as a first byte.
step : State → ℕ → Output
unfolding first continue
step start b = first b
step (inside seen more lo hi) b =
    if within lo hi b
    then continue seen more b
    else record { text = replacement ++ (first b).text; valid = false; state = (first b).state }

-- What the end of the input adds, and whether it may stand there.
abbrev ending : State → List ℕ
ending start = []
ending (inside seen more lo hi) = replacement

abbrev at_start : State → Bool
at_start start = true
at_start (inside seen more lo hi) = false

lossy : State → List ℕ → List ℕ
lossy s [] = ending s
lossy s (b ∷ bs) = (step s b).text ++ lossy (step s b).state bs

valid : State → List ℕ → Bool
valid s [] = at_start s
valid s (b ∷ bs) = (step s b).valid && valid (step s b).state bs

unfoldable pub from_utf8_lossy : List ℕ → List ℕ
unfolding lossy step
from_utf8_lossy bytes = lossy start bytes

unfoldable pub is_utf8 : List ℕ → Bool
unfolding valid step
is_utf8 bytes = valid start bytes

-- The bytes of the unfinished character.
abbrev pending : State → List ℕ
pending start = []
pending (inside seen more lo hi) = seen

-- A step over well-formed bytes keeps them all: those of the character move to the text at its end.
step-keeps :
    (s : State) (b : ℕ)
    → (step s b).valid ≡ true
    → (step s b).text ++ pending (step s b).state ≡ pending s ++ (b ∷ [])
unfolding step
step-keeps start b h = ground arith
step-keeps (inside seen zero lo hi) b h = ground (arith, append-nil (seen ++ (b ∷ [])))
step-keeps (inside seen (suc more) lo hi) b h = ground arith

and_parts : (a b : Bool) → (a && b) ≡ true → (a ≡ true) × (b ≡ true)
and_parts a b h = ground arith

lossy-valid : (s : State) (bs : List ℕ) → valid s bs ≡ true → lossy s bs ≡ pending s ++ bs
unfolding lossy valid
lossy-valid start [] h = refl
lossy-valid (inside seen more lo hi) [] h = cc
lossy-valid s (b ∷ bs) h =
    let (here, later) = and_parts (step s b).valid (valid (step s b).state bs) h in
    ap (λ t. (step s b).text ++ t) (lossy-valid (step s b).state bs later)
    ∙ sym (append_assoc (step s b).text (pending (step s b).state) bs)
    ∙ ap (λ t. t ++ bs) (step-keeps s b here)
    ∙ append_assoc (pending s) (b ∷ []) bs

-- Well-formed bytes are left as they are.
pub from_utf8_lossy_id : (bs : List ℕ) → is_utf8 bs ≡ true → from_utf8_lossy bs ≡ bs
unfolding from_utf8_lossy is_utf8
from_utf8_lossy_id bs h = lossy-valid start bs h
