-- ===== src/Tests/Lists.antt =====
-- mflist at a list with two entries.
use avtalk.Base.{◌≡◌, refl, arith, none, some, List, [], ◌∷◌}
use avtalk.MfList.{Links, init, insert_tail}
use avtalk.MfList.Ring.{IsRing}
use avtalk.MfList.Queue.{Op, put_tail, put_head, take, run, spec_run, spec_step, run-spec_run}

abbrev blank : Links
blank = record { next = λ p. p; prev = λ p. p }

-- The head 10 with the entries 11 and 12.
abbrev two : Links
two = insert_tail 10 12 (insert_tail 10 11 (init 10 blank))

two-IsRing : IsRing two 10 (11 ∷ 12 ∷ [])
unfolding init insert_tail
two-IsRing = record { chain = (refl, refl, (refl, refl, (refl, refl))); distinct = omega arith }

abbrev ops : List Op
ops = put_head 13 ∷ take ∷ put_tail 13 ∷ take ∷ take ∷ take ∷ take ∷ []

run-spec_run_example :
    ((run 10 ops two).0 ≡ none ∷ some 13 ∷ none ∷ some 11 ∷ some 12 ∷ some 13 ∷ none ∷ [])
    × IsRing (run 10 ops two).1 10 []
unfolding spec_run spec_step
run-spec_run_example = run-spec_run two 10 ops (11 ∷ 12 ∷ []) two-IsRing (omega arith)
