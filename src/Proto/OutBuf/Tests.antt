-- ===== src/Proto/OutBuf/Tests.antt =====
-- Runs of `OutBuf`, among them the unit test `outbuf_resume_does_not_drop_prefix`, and the theorems
-- at concrete inputs.
use quosh.Base.{◌≡◌, refl, true, false, List, [], ◌∷◌}
use quosh.Proto.OutBuf.{empty, queue, rest, is_empty, unread, advance}
use quosh.Proto.OutBuf.Laws.{empty-IsValid, step, run, run_queue, run_refines, Op, put, consume}

abbrev script : List Op
script = put (1 ∷ 2 ∷ 3 ∷ 4 ∷ 5 ∷ []) ∷ consume 2 ∷ put (6 ∷ []) ∷ consume 4 ∷ []

resumed :
    run empty script
    ≡ (true, 1 ∷ 2 ∷ 3 ∷ 4 ∷ 5 ∷ [], 5, false)
      ∷ (true, 3 ∷ 4 ∷ 5 ∷ [], 3, false)
      ∷ (true, 3 ∷ 4 ∷ 5 ∷ 6 ∷ [], 4, false)
      ∷ (true, [], 0, true)
      ∷ []
unfolding run step queue advance rest unread is_empty
resumed = refl

run_refines_example : run empty script ≡ run_queue (rest empty) script
run_refines_example = run_refines script empty-IsValid
