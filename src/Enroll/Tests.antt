-- ===== src/Enroll/Tests.antt =====
-- A nonce is spent once, and another has expired.
use quosh.Base.{◌≡◌, refl, none, some, List, [], ◌∷◌, arith}
use quosh.Enroll.{issue, consume, len}
use quosh.Enroll.Spent.{run, consume-run, Event, issued, consumed}

abbrev links : List Event
links = consumed (1 ∷ []) 30 ∷ issued (2 ∷ []) 1001 20 ∷ issued (1 ∷ []) 1000 10 ∷ []

test_len : (len (run links) ≡ 1) × ((consume (run links) (1 ∷ []) 31).1 ≡ none)
unfolding len issue consume
test_len = (refl, refl)

consume-run_example : (consume (run links) (2 ∷ []) 619).1 ≡ some 1001
consume-run_example = consume-run links (2 ∷ []) 619 (omega arith)
