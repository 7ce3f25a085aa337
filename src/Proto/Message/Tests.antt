-- ===== src/Proto/Message/Tests.antt =====
-- Runs of the message codecs, among them the unit tests `dims_rejected_when_huge_or_tiny` and
-- `hello_and_connect_line`, and the theorems at concrete inputs.
use quosh.Base.{ℕ, ◌≡◌, refl, inl, inr, [], ◌∷◌, arith, take, replicate, concat}
use quosh.Proto.{frame, err, ok}
use quosh.Proto.Msg
use quosh.Proto.Utf8.{is_utf8}
use quosh.Proto.Message.{
  hello_fields, encode_hello, decode_hello, hello_ok_fields, encode_hello_ok, decode_hello_ok,
  encode_input, decode_input, encode_resize, decode_resize, encode_ack_state, decode_u64,
  encode_input_ack, encode_exit, decode_exit, encode_error, decode_error, validate_dims, Hello,
  HelloOk, too_small, too_big,
}
use quosh.Proto.Message.Layout.{Arrives, messages-Arrive}

abbrev hello : Hello
hello = record {
  protocol = 2;
  session_id = replicate 16 1;
  token = replicate 32 2;
  cols = 80;
  rows = 24;
}

abbrev welcome : HelloOk
welcome = record { protocol = 2; session_id = replicate 16 3; version = 7; cols = 80; rows = 24 }

hello_read : decode_hello (concat (hello_fields hello)) ≡ ok hello
unfolding decode_hello
hello_read = refl

-- The layout without a protocol field had 28 bytes.
old_layout_refused : decode_hello_ok (take 28 (concat (hello_ok_fields welcome))) ≡ err frame
unfolding decode_hello_ok
old_layout_refused = refl

dims :
    (validate_dims 65536 80 24 ≡ inl (80, 24))
    × (validate_dims 65536 1 24 ≡ inr too_small)
    × (validate_dims 65536 513 24 ≡ inr too_big)
unfolding validate_dims
dims = (refl, refl, refl)

-- The text of the error is "é".
messages-Arrive_example :
    Arrives (encode_hello hello) Msg.hello decode_hello hello
    × Arrives (encode_hello_ok welcome) Msg.hello_ok decode_hello_ok welcome
    × Arrives (encode_input 5 (108 ∷ 115 ∷ [])) Msg.input decode_input (5, 108 ∷ 115 ∷ [])
    × Arrives (encode_error 4 (0xC3 ∷ 0xA9 ∷ [])) Msg.error decode_error (4, 0xC3 ∷ 0xA9 ∷ [])
    × Arrives (encode_resize 80 24) Msg.resize decode_resize (80, 24)
    × Arrives (encode_ack_state 7) Msg.ack_state decode_u64 7
    × Arrives (encode_input_ack 7) Msg.input_ack decode_u64 7
    × Arrives (encode_exit 1) Msg.exit decode_exit 1
unfolding is_utf8
messages-Arrive_example =
    messages-Arrive hello welcome 5 (108 ∷ 115 ∷ []) 4 (0xC3 ∷ 0xA9 ∷ []) 80 24 7 1 (omega arith)
      (omega arith) (omega arith) (omega arith) (omega arith) (omega arith) refl (omega arith)
      (omega arith) (omega arith) (omega arith)

abbrev size : ℕ × ℕ
size = (80, 24)
