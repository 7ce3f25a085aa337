-- ===== src/Proto/Message/Layout.antt =====
-- Each message is read back as it was written.
use quosh.Base.{
  ℕ, ◌+◌, ◌-◌, ◌*◌, ◌%◌, ◌^◌, ◌≤◌, ◌<◌, ◌≡◌, refl, ◌∙◌, ◌↔◌, inl, true, some, List, [], ◌∷◌, ◌++◌,
  arith, le→ltb, length, concat, take_all, Cuts, Cuts-concat,
}
use quosh.Bytes.{Fits, usize_max, le_bytes, of_le, of_le-le_bytes}
use quosh.Proto.Msg
use quosh.Proto.Message.{
  hello_fields, encode_hello, decode_hello, hello_ok_fields, encode_hello_ok, decode_hello_ok,
  encode_input, decode_input, encode_resize, decode_resize, encode_ack_state, decode_u64,
  encode_input_ack, encode_exit, decode_exit, encode_error, decode_error, validate_dims, Hello,
  HelloOk,
}
use quosh.Proto.{max_frame, max_cols, max_rows, min_cols, min_rows, Result, ok}
use quosh.Proto.Frame.{encode_frame, split_frame}
use quosh.Proto.Frame.RoundTrip.{IsPayload, split_frame-encode_frame}
use quosh.Proto.Utf8.{is_utf8, from_utf8_lossy_id}

-- The fields fill their widths.
pub record IsHello (h : Hello) : Type 0 where
  pub protocol : Fits 2 h.protocol
  pub session_id : length h.session_id ≡ 16
  pub token : length h.token ≡ 32
  pub cols : Fits 2 h.cols
  pub rows : Fits 2 h.rows

abbrev hello_widths : List ℕ
hello_widths = 2 ∷ 16 ∷ 32 ∷ 2 ∷ 2 ∷ []

decode_hello-Cuts :
    (p a b c d e : List ℕ)
    → Cuts p 0 hello_widths (a ∷ b ∷ c ∷ d ∷ e ∷ [])
    → decode_hello p
      ≡ ok
          (record { protocol = of_le a; session_id = b; token = c; cols = of_le d; rows = of_le e })
unfolding decode_hello
decode_hello-Cuts p a b c d e h = rw (h.1.1.1.1.1, h.0, h.1.0, h.1.1.0, h.1.1.1.0, h.1.1.1.1.0)

decode_hello-fields : (h : Hello) → IsHello h → decode_hello (concat (hello_fields h)) ≡ ok h
decode_hello-fields h v =
    decode_hello-Cuts _ _ _ _ _ _ (
      Cuts-concat [] hello_widths (hello_fields h) 0 refl
        (refl, (v.session_id, (v.token, (refl, (refl, tt))))))
    ∙ ground arith

-- The bytes are one frame of type `typ`, whatever follows them, and its payload is read as `a`.
abbrev pub Arrives {ℓ} : {A : Type ℓ} → List ℕ → ℕ → (List ℕ → Result A) → A → Type ℓ
Arrives bytes typ decode a =
    (more : List ℕ)
    → (p : List ℕ) × (split_frame (bytes ++ more) ≡ (ok (some (typ, p)), more)) × (decode p ≡ ok a)

pub frame-Arrives {ℓ} :
    {A : Type ℓ} (typ : ℕ) (p : List ℕ) (decode : List ℕ → Result A) (a : A)
    → IsPayload p
    → decode p ≡ ok a
    → Arrives (encode_frame typ p) typ decode a
frame-Arrives typ p decode a h e more = (p, split_frame-encode_frame typ p more h, e)

length-hello : (h : Hello) → IsHello h → length (concat (hello_fields h)) ≡ 54
length-hello h v =
    (Cuts-concat [] hello_widths (hello_fields h) 0 refl
      (refl, (v.session_id, (v.token, (refl, (refl, tt)))))).1.1.1.1.1

-- A `Hello` whose fields fit arrives as it was sent.
pub encode_hello-Arrives :
    (h : Hello) → IsHello h → Arrives (encode_hello h) Msg.hello decode_hello h
unfolding encode_hello
encode_hello-Arrives h v =
    frame-Arrives Msg.hello _ decode_hello h (omega (arith, length-hello h v))
      (decode_hello-fields h v)

pub record IsHelloOk (h : HelloOk) : Type 0 where
  pub protocol : Fits 2 h.protocol
  pub session_id : length h.session_id ≡ 16
  pub version : Fits 8 h.version
  pub cols : Fits 2 h.cols
  pub rows : Fits 2 h.rows

abbrev hello_ok_widths : List ℕ
hello_ok_widths = 2 ∷ 16 ∷ 8 ∷ 2 ∷ 2 ∷ []

decode_hello_ok-Cuts :
    (p a b c d e : List ℕ)
    → Cuts p 0 hello_ok_widths (a ∷ b ∷ c ∷ d ∷ e ∷ [])
    → decode_hello_ok p
      ≡ ok (record {
        protocol = of_le a;
        session_id = b;
        version = of_le c;
        cols = of_le d;
        rows = of_le e;
      })
unfolding decode_hello_ok
decode_hello_ok-Cuts p a b c d e h = rw (h.1.1.1.1.1, h.0, h.1.0, h.1.1.0, h.1.1.1.0, h.1.1.1.1.0)

hello_ok-Cuts :
    (h : HelloOk)
    → IsHelloOk h
    → Cuts (concat (hello_ok_fields h)) 0 hello_ok_widths (hello_ok_fields h)
hello_ok-Cuts h v =
    Cuts-concat [] hello_ok_widths (hello_ok_fields h) 0 refl
      (refl, (v.session_id, (refl, (refl, (refl, tt)))))

-- A `HelloOk` whose fields fit arrives as it was sent.
pub encode_hello_ok-Arrives :
    (h : HelloOk) → IsHelloOk h → Arrives (encode_hello_ok h) Msg.hello_ok decode_hello_ok h
unfolding encode_hello_ok
encode_hello_ok-Arrives h v =
    frame-Arrives Msg.hello_ok _ decode_hello_ok h (omega (arith, (hello_ok-Cuts h v).1.1.1.1.1)) (
      decode_hello_ok-Cuts _ _ _ _ _ _ (hello_ok-Cuts h v)
      ∙ ground (arith, of_le-le_bytes 8 h.version v.version))

of_le-u64 : (v : ℕ) → Fits 8 v → of_le (le_bytes 8 v) ≡ v
of_le-u64 v h = of_le-le_bytes 8 v h

-- An input message arrives with its sequence number and its bytes.
pub encode_input-Arrives :
    (seq : ℕ) (bytes : List ℕ)
    → Fits 8 seq
    → length bytes + 8 < max_frame
    → Arrives (encode_input seq bytes) Msg.input decode_input (seq, bytes)
unfolding encode_input
encode_input-Arrives seq bytes h fits =
    frame-Arrives Msg.input _ decode_input (seq, bytes) (omega arith)
      (unfold decode_input in
        rw (of_le-u64 seq h, le→ltb (length (le_bytes 8 seq ++ bytes)) 8 (omega arith)))

-- A resize arrives with its dimensions.
pub encode_resize-Arrives :
    (cols rows : ℕ)
    → Fits 2 cols
    → Fits 2 rows
    → Arrives (encode_resize cols rows) Msg.resize decode_resize (cols, rows)
unfolding encode_resize
encode_resize-Arrives cols rows hc hr =
    frame-Arrives Msg.resize _ decode_resize (cols, rows) (omega arith)
      (unfold decode_resize in ground arith)

-- An acknowledged version and an acknowledged input sequence arrive as they were sent.
pub acks-Arrive :
    (v : ℕ)
    → Fits 8 v
    → Arrives (encode_ack_state v) Msg.ack_state decode_u64 v
      × Arrives (encode_input_ack v) Msg.input_ack decode_u64 v
unfolding encode_ack_state encode_input_ack
acks-Arrive v h = (
  frame-Arrives Msg.ack_state _ decode_u64 v (omega arith)
      (unfold decode_u64 in rw (of_le-u64 v h)),
  frame-Arrives Msg.input_ack _ decode_u64 v (omega arith)
      (unfold decode_u64 in rw (of_le-u64 v h)),
)

-- An exit status arrives as it was sent.
pub encode_exit-Arrives :
    (status : ℕ) → Fits 4 status → Arrives (encode_exit status) Msg.exit decode_exit status
unfolding encode_exit
encode_exit-Arrives status h =
    frame-Arrives Msg.exit _ decode_exit status (omega arith)
      (unfold decode_exit in rw (of_le-le_bytes 4 status h))

decode_error-parts :
    (code : ℕ) (msg : List ℕ) (n : ℕ)
    → of_le (le_bytes 2 code) ≡ code
    → of_le (le_bytes 2 n) ≡ length msg
    → is_utf8 msg ≡ true
    → decode_error (le_bytes 2 code ++ (le_bytes 2 n ++ msg)) ≡ ok (code, msg)
unfolding decode_error
decode_error-parts code msg n hc hn u = rw (
  hc,
  hn,
  le→ltb (length (le_bytes 2 code ++ (le_bytes 2 n ++ msg))) 4 (omega arith),
  le→ltb (length (le_bytes 2 code ++ (le_bytes 2 n ++ msg))) (4 + length msg) (omega arith),
  take_all msg (4 + length msg - 4) (omega arith),
  from_utf8_lossy_id msg u,
)

-- An error arrives with its code and its text, if the text is UTF-8 and its length fits 16 bits.
pub encode_error-Arrives :
    (code : ℕ) (msg : List ℕ)
    → Fits 2 code
    → Fits 2 (length msg)
    → is_utf8 msg ≡ true
    → Arrives (encode_error code msg) Msg.error decode_error (code, msg)
unfolding encode_error
encode_error-Arrives code msg hc hm u =
    frame-Arrives Msg.error _ decode_error (code, msg) (omega arith)
      (decode_error-parts code msg (length msg % 2 ^ 16) (omega arith) (omega arith) u)

-- `validate_dims` accepts exactly the sizes within both axes' limits and the cell limit, and gives
-- them back unchanged.
pub validate_dims_iff :
    (m cols rows : ℕ) (d : ℕ × ℕ)
    → m < usize_max
    → (validate_dims m cols rows ≡ inl d) ↔ (
        (d ≡ (cols, rows))
        × (min_cols ≤ cols)
        × (cols ≤ max_cols)
        × (min_rows ≤ rows)
        × (rows ≤ max_rows)
        × (cols * rows ≤ m))
unfolding validate_dims
validate_dims_iff m cols rows d hm = (λ e. ground arith, λ h. ground arith)

-- Every message of a session arrives as it was sent, whatever follows it: a greeting and its answer
-- whose fields fit, an input that is shorter than the largest frame by more than eight bytes, an
-- error whose text is UTF-8 and shorter than 2^16 bytes, a resize, an acknowledged version, an
-- acknowledged input sequence and an exit status, all of numbers that fit their fields.
pub messages-Arrive :
    (h : Hello) (w : HelloOk) (seq : ℕ) (bytes : List ℕ) (code : ℕ) (msg : List ℕ)
    (cols rows v status : ℕ)
    → IsHello h
    → IsHelloOk w
    → Fits 8 seq
    → length bytes + 8 < max_frame
    → Fits 2 code
    → Fits 2 (length msg)
    → is_utf8 msg ≡ true
    → Fits 2 cols
    → Fits 2 rows
    → Fits 8 v
    → Fits 4 status
    → Arrives (encode_hello h) Msg.hello decode_hello h
      × Arrives (encode_hello_ok w) Msg.hello_ok decode_hello_ok w
      × Arrives (encode_input seq bytes) Msg.input decode_input (seq, bytes)
      × Arrives (encode_error code msg) Msg.error decode_error (code, msg)
      × Arrives (encode_resize cols rows) Msg.resize decode_resize (cols, rows)
      × Arrives (encode_ack_state v) Msg.ack_state decode_u64 v
      × Arrives (encode_input_ack v) Msg.input_ack decode_u64 v
      × Arrives (encode_exit status) Msg.exit decode_exit status
messages-Arrive h w seq bytes code msg cols rows v status ih iw hq hb hc hm u hx hy hv hs =
    let (a, b) = acks-Arrive v hv in
    (
      encode_hello-Arrives h ih,
      encode_hello_ok-Arrives w iw,
      encode_input-Arrives seq bytes hq hb,
      encode_error-Arrives code msg hc hm u,
      encode_resize-Arrives cols rows hx hy,
      a,
      b,
      encode_exit-Arrives status hs,
    )
