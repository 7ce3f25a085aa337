-- ===== src/Session/Pending/Tests.antt =====
-- Pending writes as in the tests of crates/quosh-server/src/session.rs.
use quosh.Base.{◌≡◌, refl, some, [], ◌∷◌, arith}
use quosh.Session.Pending.{
  no_writes, push_input, push_generated, advance_loop, advance, advance_echo_ack, PendingWrites,
}
use quosh.Session.Pending.Contents.{push, push_generated-Refines, IsValid, Refines}
use quosh.Session.Pending.Advance.{advance-Wrote, Wrote}
use quosh.Session.Pending.Echo.{advance_echo_ack-Settled, Settled}

abbrev two_inputs : PendingWrites
two_inputs = record {
  chunks =
      record { seq = some 1; bytes = 97 ∷ 98 ∷ []; off = 0 }
      ∷ record { seq = some 2; bytes = 99 ∷ []; off = 0 }
      ∷ [];
  unread = 3;
}

two_inputs-IsValid : IsValid two_inputs
two_inputs-IsValid = record {
  counted = refl;
  capped = omega arith;
  unfinished = (omega arith, (omega arith, tt));
}

test_pushes : (push_input (push_input no_writes 1 (97 ∷ 98 ∷ [])).0 2 (99 ∷ [])).0 ≡ two_inputs
unfolding push_input
test_pushes = refl

test_reply : (push_generated two_inputs (82 ∷ [])).0.unread ≡ 4
unfolding push_generated
test_reply = refl

test_advance : (advance two_inputs 2 [] 7).1 ≡ ((1, 7) ∷ [])
unfolding advance advance_loop
test_advance = refl

advance-Wrote_example : Wrote two_inputs 2 [] 7 (advance two_inputs 2 [] 7)
advance-Wrote_example = advance-Wrote two_inputs 2 [] 7 two_inputs-IsValid

push_generated-Refines_example :
    Refines (push_generated two_inputs (82 ∷ 83 ∷ [])) (push (97 ∷ 98 ∷ 99 ∷ []) (82 ∷ 83 ∷ []))
push_generated-Refines_example =
    push_generated-Refines two_inputs (82 ∷ 83 ∷ []) two_inputs-IsValid (omega arith)

advance_echo_ack-Settled_example :
    Settled 0 ((1, 0) ∷ (2, 30) ∷ []) 60 (advance_echo_ack 0 ((1, 0) ∷ (2, 30) ∷ []) 60)
advance_echo_ack-Settled_example = advance_echo_ack-Settled 0 ((1, 0) ∷ (2, 30) ∷ []) 60
