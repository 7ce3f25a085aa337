-- ===== src/Proto/Screen/RoundTrip.antt =====
-- A screen arrives as it was sent: the frame that its parts make, with the entries of its overflow
-- map put in one after the other.
use quosh.Base.{
  ℕ, ◌-◌, ◌*◌, ◌%◌, ◌^◌, ◌≤◌, ◌<◌, ◌≡◌, refl, sym, Bool, true, false, ◌||◌, not, List, [], ◌∷◌,
  ◌++◌, append-nil, arith, ltb, leb, ◌==◌, le→ltb, length, All, take_all,
}
use quosh.Bytes.{Fits, saturating_mul, le_bytes}
use quosh.Proto.Reader.{M, ◌>>=◌, ◌>>◌, pure, refuse_if, bytes, n, done, number}
use quosh.Proto.Reader.Reads.{
  Reads, ReadsAll, Reads-bind, ReadsAll-bind, bytes-Reads, number-Reads, n-Reads, pure-Reads,
  done-ReadsAll, ReadsAll-run,
}
use quosh.Proto
use quosh.Proto.{max_cols, max_rows, Error, frame, too_large, ok}
use quosh.Proto.Utf8.{is_utf8, from_utf8_lossy_id}
use quosh.Proto.Auth.Fields.{field}
use quosh.Proto.Screen.{
  screen_magic, clipped, encode_entry, encode_entries, encode_raw, read_entry, read_entries,
  read_body, read_fields, read_screen, decode_raw, Frames, Screen,
}
use mathlib.Core.Path.{subst, ap₂}
use native.Mathlib.Nat.{mul-le-mul}

pub pass-Reads {ℓ} :
    {A : Type ℓ} (c : Bool) (e : Error) (m : M A) (bs : List ℕ) (v : A)
    → c ≡ false
    → Reads m bs v
    → Reads (refuse_if c e >> m) bs v
pass-Reads c e m bs v h r before after = rw h (r before after)

pub pass-ReadsAll {ℓ} :
    {A : Type ℓ} (c : Bool) (e : Error) (m : M A) (bs : List ℕ) (v : A)
    → c ≡ false
    → ReadsAll m bs v
    → ReadsAll (refuse_if c e >> m) bs v
pass-ReadsAll c e m bs v h r before = rw h (r before)

equal_passes : (a b : ℕ) → a ≡ b → not (a == b) ≡ false
equal_passes a b h = ground arith

Reads-last {ℓ κ} :
    {A : Type ℓ} {B : Type κ} (m : M A) (f : A → M B) (bs : List ℕ) (v : A) (w : B)
    → Reads m bs v
    → Reads (f v) [] w
    → Reads (m >>= f) bs w
Reads-last m f bs v w h k =
    subst (λ z. Reads (m >>= f) z w) (append-nil bs) (Reads-bind m f bs [] v w h k)

ReadsAll-last {ℓ κ} :
    {A : Type ℓ} {B : Type κ} (m : M A) (f : A → M B) (bs : List ℕ) (v : A) (w : B)
    → Reads m bs v
    → ReadsAll (f v) [] w
    → ReadsAll (m >>= f) bs w
ReadsAll-last m f bs v w h k =
    subst (λ z. ReadsAll (m >>= f) z w) (append-nil bs) (ReadsAll-bind m f bs [] v w h k)

u16-ReadsAll {ℓ} :
    {A : Type ℓ} (f : ℕ → M A) (bs : List ℕ) (w : A) (k : ℕ)
    → Fits 2 k
    → ReadsAll (f k) bs w
    → ReadsAll (number 2 >>= f) (le_bytes 2 k ++ bs) w
u16-ReadsAll f bs w k h r = ReadsAll-bind (number 2) f (le_bytes 2 k) bs k w (number-Reads 2 k h) r

neither : (a b c d : ℕ) → a ≤ b → c ≤ d → ltb b a || ltb d c ≡ false
neither a b c d h k = ground arith

few : (most a b : ℕ) → a * b ≤ most → ltb most (saturating_mul a b) ≡ false
few most a b h = ground arith

clipped-field : (b : List ℕ) → Fits 2 (length b) → clipped b ≡ field b
unfolding clipped
clipped-field b h =
    rw (le→ltb (2 ^ 16 - 1) (length b) (omega arith), take_all b (length b) (omega arith)) refl

-- The number and the text of an overflowing cell.
abbrev pub IsEntry : ℕ → ℕ × List ℕ → Type 0
IsEntry cell_n (idx, s) = (idx < cell_n) × Fits 4 idx × Fits 2 (length s) × (is_utf8 s ≡ true)

module _ {F : Type 0} (frames : Frames F) where
  abbrev pub inserts : F → List (ℕ × List ℕ) → F
  inserts f [] = f
  inserts f ((idx, s) ∷ es) = inserts (frames.insert_overflow f idx s) es

  abbrev pub rebuilt : F → F
  rebuilt f =
      inserts
        (frames.from_parts (frames.rows f) (frames.cols f) (frames.cursor_row f)
          (frames.cursor_col f) (frames.mode f) (frames.title f) (frames.cells f))
        (frames.overflow f)

  -- What the server sends: a grid within the limits, with its cursor, cells and texts.
  pub record IsScreen (s : Screen F) : Type 0 where
    pub version : Fits 8 s.version
    pub echo_ack : Fits 8 s.echo_ack
    pub rows : frames.rows s.frame ≤ max_rows
    pub cols : frames.cols s.frame ≤ max_cols
    pub count : frames.rows s.frame * frames.cols s.frame ≤ frames.max_cell_count
    pub cursor_row : frames.cursor_row s.frame ≤ frames.rows s.frame
    pub cursor_col : frames.cursor_col s.frame ≤ frames.cols s.frame
    pub mode : Fits 2 (frames.mode s.frame)
    pub title : Fits 2 (length (frames.title s.frame))
    pub title_text : is_utf8 (frames.title s.frame) ≡ true
    pub cells :
        length (frames.cells s.frame) ≡ frames.rows s.frame * frames.cols s.frame * frames.cell_size
    pub cells_fit : Fits 4 (length (frames.cells s.frame))
    pub overflow : length (frames.overflow s.frame) ≤ frames.rows s.frame * frames.cols s.frame
    pub entries :
        All (IsEntry (frames.rows s.frame * frames.cols s.frame)) (frames.overflow s.frame)

  entry-Reads :
      (cell_n : ℕ) (f : F) (e : ℕ × List ℕ)
      → IsEntry cell_n e
      → Reads (read_entry frames cell_n f) (encode_entry e) (frames.insert_overflow f e.0 e.1)
  unfolding read_entry
  entry-Reads cell_n f (idx, s) (less, fits, short, utf8) =
      subst (λ z. Reads (read_entry frames cell_n f) z (frames.insert_overflow f idx s))
        (ap₂ (λ x y. le_bytes 4 x ++ y) (let e : idx ≡ idx % 2 ^ 32 = omega arith in e)
          (sym (clipped-field s short)))
        (Reads-bind (number 4) _ (le_bytes 4 idx) (field s) idx _ (number-Reads 4 idx fits) (
          pass-Reads (leb cell_n idx) Proto.frame _ (field s) _ (ground arith) (
            Reads-last n _ (field s) s _ (n-Reads s short)
              (rw (from_utf8_lossy_id s utf8) (pure-Reads (frames.insert_overflow f idx s))))))

  entries-Reads :
      (cell_n : ℕ) (f : F) (es : List (ℕ × List ℕ))
      → All (IsEntry cell_n) es
      → Reads (read_entries frames (length es) cell_n f) (encode_entries es) (inserts f es)
  unfolding read_entries
  entries-Reads cell_n f [] h = pure-Reads f
  entries-Reads cell_n f ((idx, s) ∷ es) h =
      Reads-bind (read_entry frames cell_n f) _ (encode_entry (idx, s)) (encode_entries es)
        (frames.insert_overflow f idx s) _ (entry-Reads cell_n f (idx, s) h.0)
        (entries-Reads cell_n (frames.insert_overflow f idx s) es h.1)

  abbrev body : F → List ℕ
  body f =
      field (frames.title f)
      ++ (le_bytes 4 (length (frames.cells f))
          ++ (frames.cells f
              ++ (le_bytes 4 (length (frames.overflow f)) ++ encode_entries (frames.overflow f))))

  cells-le :
      (s : Screen F) → IsScreen s → frames.rows s.frame * frames.cols s.frame ≤ max_rows * max_cols
  cells-le s v = mul-le-mul v.rows v.cols

  entries_fit : (s : Screen F) → IsScreen s → Fits 4 (length (frames.overflow s.frame))
  entries_fit s v = omega (arith, cells-le s v, v.overflow)

  body-Reads :
      (s : Screen F)
      → IsScreen s
      → Reads
          (read_body frames
            (frames.rows s.frame)
            (frames.cols s.frame)
            (frames.cursor_row s.frame)
            (frames.cursor_col s.frame)
            (frames.mode s.frame))
          (body s.frame)
          (rebuilt s.frame)
  unfolding read_body
  body-Reads s v =
      Reads-bind n _ (field (frames.title s.frame)) _ (frames.title s.frame) _
        (n-Reads (frames.title s.frame) v.title)
        (Reads-bind (number 4) _ (le_bytes 4 (length (frames.cells s.frame))) _
          (length (frames.cells s.frame)) _ (number-Reads 4 _ v.cells_fit)
          (pass-Reads _ Proto.frame _ _ _ (equal_passes _ _ v.cells) (
            Reads-bind (bytes (length (frames.cells s.frame))) _ (frames.cells s.frame) _
              (frames.cells s.frame) _ (bytes-Reads (frames.cells s.frame) _ refl)
              (Reads-bind (number 4) _ (le_bytes 4 (length (frames.overflow s.frame))) _
                (length (frames.overflow s.frame)) _ (number-Reads 4 _ (entries_fit s v))
                (pass-Reads _ too_large _ _ _ (le→ltb _ _ v.overflow) (
                  rw (from_utf8_lossy_id (frames.title s.frame) v.title_text)
                    (entries-Reads _ _ (frames.overflow s.frame) v.entries)))))))

  abbrev fields : Screen F → List ℕ
  fields s =
      le_bytes 8 s.version
      ++ (le_bytes 8 s.echo_ack
          ++ (le_bytes 2 (frames.rows s.frame)
              ++ (le_bytes 2 (frames.cols s.frame)
                  ++ (le_bytes 2 (frames.cursor_row s.frame)
                      ++ (le_bytes 2 (frames.cursor_col s.frame)
                          ++ (le_bytes 2 (frames.mode s.frame) ++ body s.frame))))))

  encode_raw-body : (s : Screen F) → IsScreen s → encode_raw frames s ≡ screen_magic ++ fields s
  unfolding encode_raw
  encode_raw-body s v =
      rw
        (
          clipped-field (frames.title s.frame) v.title,
          whole (length (frames.cells s.frame)) v.cells_fit,
          whole (length (frames.overflow s.frame)) (entries_fit s v),
        )
        refl
    where
      whole : (k : ℕ) → Fits 4 k → k % 2 ^ 32 ≡ k
      whole k h = omega arith

  abbrev pub rebuilt_screen : Screen F → Screen F
  rebuilt_screen s = record { version = s.version; echo_ack = s.echo_ack; frame = rebuilt s.frame }

  fields-ReadsAll :
      (s : Screen F) → IsScreen s → ReadsAll (read_fields frames) (fields s) (rebuilt_screen s)
  unfolding read_fields
  fields-ReadsAll s v =
      ReadsAll-bind (number 8) _ (le_bytes 8 s.version) _ s.version _ (number-Reads 8 _ v.version) (
        ReadsAll-bind (number 8) _ (le_bytes 8 s.echo_ack) _ s.echo_ack _
          (number-Reads 8 _ v.echo_ack)
          (u16-ReadsAll _ _ _ (frames.rows s.frame) (omega (arith, v.rows)) (
            u16-ReadsAll _ _ _ (frames.cols s.frame) (omega (arith, v.cols)) (
              u16-ReadsAll _ _ _ (frames.cursor_row s.frame) (omega (arith, v.rows, v.cursor_row)) (
                u16-ReadsAll _ _ _ (frames.cursor_col s.frame) (omega (arith, v.cols, v.cursor_col))
                  (u16-ReadsAll _ _ _ (frames.mode s.frame) v.mode (
                    pass-ReadsAll _ too_large _ _ _ (few _ _ _ v.count) (
                      pass-ReadsAll _ too_large _ _ _ (neither _ _ _ _ v.rows v.cols) (
                        pass-ReadsAll _ Proto.frame _ _ _
                          (neither _ _ _ _ v.cursor_row v.cursor_col)
                          (ReadsAll-last
                            (read_body frames (frames.rows s.frame) (frames.cols s.frame)
                              (frames.cursor_row s.frame) (frames.cursor_col s.frame)
                              (frames.mode s.frame))
                            (λ f.
                              done
                              >> pure (record {
                                version = s.version;
                                echo_ack = s.echo_ack;
                                frame = f;
                              }))
                            (body s.frame) (rebuilt s.frame) (rebuilt_screen s) (body-Reads s v)
                            (done-ReadsAll (rebuilt_screen s))))))))))))

  -- A screen that fits the limits is read back from its bytes, as its parts make it.
  pub decode_raw-encode_raw :
      (s : Screen F) → IsScreen s → decode_raw frames (encode_raw frames s) ≡ ok (rebuilt_screen s)
  unfolding read_screen
  decode_raw-encode_raw s v = rw (encode_raw-body s v) (
      ReadsAll-run (read_screen frames) (screen_magic ++ fields s) (rebuilt_screen s) (
        ReadsAll-bind (bytes 4) _ screen_magic (fields s) screen_magic (rebuilt_screen s)
          (bytes-Reads screen_magic 4 refl) (fields-ReadsAll s v)))
