-- ===== src/Proto/Frame/Tests.antt =====
-- Runs of the framing, among them the unit tests `split_frame_partial` and
-- `peek_len_rejects_zero_and_oversize_before_body`, and the theorems at concrete inputs.
use quosh.Base.{ℕ, ◌≡◌, refl, none, some, List, [], ◌∷◌, ◌++◌, arith}
use quosh.Proto.{too_large, err, ok}
use quosh.Proto.Frame.{encode_frame, peek_len, split_frame}
use quosh.Proto.Frame.Stream.{split_frame_partial}
use quosh.Proto.Frame.Receive.{receive, resume, receive-append, encode_all, receive-encode_all}

hangup_bytes : encode_frame 5 [] ≡ 1 ∷ 0 ∷ 0 ∷ 0 ∷ 5 ∷ []
unfolding encode_frame
hangup_bytes = refl

zero_refused : peek_len (0 ∷ 0 ∷ 0 ∷ 0 ∷ []) ≡ err too_large
unfolding peek_len
zero_refused = refl

oversize_refused : peek_len (1 ∷ 0 ∷ 0 ∷ 1 ∷ []) ≡ err too_large
unfolding peek_len
oversize_refused = refl

ten_accepted : peek_len (10 ∷ 0 ∷ 0 ∷ 0 ∷ []) ≡ ok (some 10)
unfolding peek_len
ten_accepted = refl

split_frame_partial_example : split_frame (1 ∷ 0 ∷ []) ≡ (ok none, 1 ∷ 0 ∷ [])
split_frame_partial_example =
    split_frame_partial 5 [] (1 ∷ 0 ∷ []) 0 (0 ∷ 5 ∷ []) (omega arith) hangup_bytes

receive-append_example :
    receive ((1 ∷ 0 ∷ 0 ∷ []) ++ (0 ∷ 5 ∷ 9 ∷ []))
    ≡ resume (receive (1 ∷ 0 ∷ 0 ∷ [])) (0 ∷ 5 ∷ 9 ∷ [])
receive-append_example = receive-append (1 ∷ 0 ∷ 0 ∷ []) (0 ∷ 5 ∷ 9 ∷ [])

abbrev two_frames : List (ℕ × List ℕ)
two_frames = (5, []) ∷ (3, 1 ∷ 2 ∷ []) ∷ []

receive-encode_all_example :
    receive (encode_all two_frames ++ (9 ∷ []))
    ≡ (two_frames ++ (receive (9 ∷ [])).0, (receive (9 ∷ [])).1)
receive-encode_all_example = receive-encode_all two_frames (9 ∷ []) (omega arith, (omega arith, tt))
