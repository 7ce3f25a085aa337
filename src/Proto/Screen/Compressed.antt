-- ===== src/Proto/Screen/Compressed.antt =====
-- The compressed screens that go over the wire, with and without what a shared viewer may predict.
use quosh.Base.{
  ℕ, ◌+◌, ◌%◌, ◌^◌, ◌≤◌, ◌≡◌, refl, ap, ◌∙◌, Bool, true, false, some, List, ◌∷◌, ◌++◌, arith, ltb,
  le→ltb, length, slice,
}
use quosh.Bytes.{Fits, le_bytes, of_le, of_le-le_bytes}
use quosh.Proto.{max_frame, max_screen_raw, ok}
use quosh.Proto.Screen.{
  shared_screen_magic, flag, encode_raw, encode_compressed, decode_decompressed, decode_compressed,
  encode_shared, decode_shared, Frames, Lz4, Screen, SharedScreen,
}
use quosh.Proto.Screen.RoundTrip.{rebuilt_screen, decode_raw-encode_raw, IsScreen}

-- What is compressed starts with its length, and comes back.
pub record IsLz4 (codec : Lz4) : Type 0 where
  pub prefixed :
      (raw : List ℕ)
      → (b : List ℕ) × (codec.compress_prepend_size raw ≡ le_bytes 4 (length raw % 2 ^ 32) ++ b)
  pub inverse :
      (raw : List ℕ)
      → Fits 4 (length raw)
      → codec.decompress_size_prepended (codec.compress_prepend_size raw) ≡ some raw

module _ {F : Type 0} (frames : Frames F) (codec : Lz4) (laws : IsLz4 codec) where
  decode_compressed-encode_compressed :
      (s : Screen F)
      → IsScreen frames s
      → length (encode_raw frames s) ≤ max_screen_raw
      → decode_compressed frames codec (encode_compressed frames codec s)
        ≡ ok (rebuilt_screen frames s)
  unfolding decode_compressed
  decode_compressed-encode_compressed s v small =
      rw
        (
          long (laws.prefixed raw).1,
          claimed (laws.prefixed raw).1,
          le→ltb max_screen_raw (length raw) small,
        )
        (ap (decode_decompressed frames codec) (laws.inverse raw (omega arith))
          ∙ rw (le→ltb max_screen_raw (length raw) small) (decode_raw-encode_raw frames s v))
    where
      raw : List ℕ
      raw = encode_raw frames s

      long :
          {b : List ℕ}
          → codec.compress_prepend_size raw ≡ le_bytes 4 (length raw % 2 ^ 32) ++ b
          → ltb (length (codec.compress_prepend_size raw)) 4 ≡ false
      long e = rw e (le→ltb _ 4 (omega arith))

      claimed :
          {b : List ℕ}
          → codec.compress_prepend_size raw ≡ le_bytes 4 (length raw % 2 ^ 32) ++ b
          → of_le (slice (codec.compress_prepend_size raw) 0 4) ≡ length raw
      claimed e =
          let whole : length raw % 2 ^ 32 ≡ length raw = omega arith in
          rw (e, whole) (of_le-le_bytes 4 (length raw) (omega arith))

  -- A screen that fits the limits goes over the wire as its parts make it, alone and with the epoch
  -- and the permission of a shared viewer, unless a shared one is longer than a frame.
  pub screens-Arrive :
      (s : SharedScreen F)
      → Fits 8 s.prediction_epoch
      → IsScreen frames s.screen
      → length (encode_raw frames s.screen) ≤ max_screen_raw
      → length (encode_compressed frames codec s.screen) + 14 ≤ max_frame
      → (decode_compressed frames codec (encode_compressed frames codec s.screen)
          ≡ ok (rebuilt_screen frames s.screen))
        × ((bytes : List ℕ) × (encode_shared frames codec s ≡ ok bytes)
            × (decode_shared frames codec bytes
                ≡ ok (record {
                  prediction_epoch = s.prediction_epoch;
                  prediction_allowed = s.prediction_allowed;
                  screen = rebuilt_screen frames s.screen;
                })))
  unfolding decode_shared encode_shared
  screens-Arrive s he v small fits =
      (back, (wrapped s.prediction_allowed, rw short refl, by_flag s.prediction_allowed refl))
    where
      wrapped : Bool → List ℕ
      wrapped b =
          shared_screen_magic
          ++ (le_bytes 8 s.prediction_epoch ++ (flag b ∷ encode_compressed frames codec s.screen))

      back :
          decode_compressed frames codec (encode_compressed frames codec s.screen)
          ≡ ok (rebuilt_screen frames s.screen)
      back = decode_compressed-encode_compressed s.screen v small

      short : ltb max_frame (length (wrapped s.prediction_allowed) + 1) ≡ false
      short = le→ltb max_frame _ (omega arith)

      by_flag :
          (b : Bool)
          → s.prediction_allowed ≡ b
          → decode_shared frames codec (wrapped s.prediction_allowed)
            ≡ ok (record {
              prediction_epoch = s.prediction_epoch;
              prediction_allowed = s.prediction_allowed;
              screen = rebuilt_screen frames s.screen;
            })
      by_flag true e =
          rw
            (
              e,
              le→ltb (length (wrapped true)) 13 (omega arith),
              le→ltb max_frame (length (wrapped true) + 1) (omega arith),
              back,
              of_le-le_bytes 8 s.prediction_epoch he,
            )
            refl
      by_flag false e =
          rw
            (
              e,
              le→ltb (length (wrapped false)) 13 (omega arith),
              le→ltb max_frame (length (wrapped false) + 1) (omega arith),
              back,
              of_le-le_bytes 8 s.prediction_epoch he,
            )
            refl
