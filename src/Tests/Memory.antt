-- ===== src/Tests/Memory.antt =====
-- mfmemory and mfthread at one block and one thread.
use avtalk.Base.{◌≡◌, arith, true, none, some, List, [], ◌∷◌}
use avtalk.MfMemory.{Memory, s_ok, ref_mem_alloc}
use avtalk.Base.Fault.{◌>>◌}
use avtalk.MfMemory.Holders.{
  add_ref, release, holders, ref_run, RefOp, Counted, ref_mem_alloc-Counted,
}
use avtalk.MfThread.{Sys, zeroed}
use avtalk.MfThread.Interleaved.{write, count, Access}

abbrev nothing : Memory
nothing = λ _. none

abbrev ops : List RefOp
ops = add_ref ∷ release ∷ release ∷ []

ref_mem_alloc-Counted_example :
    (t : Memory) × (ref_mem_alloc (some 64) 100 nothing ≡ some ((s_ok, some 64), t))
    × Counted nothing 64 116 (some 0) (ref_run 64 ops t)
unfolding holders
ref_mem_alloc-Counted_example = ref_mem_alloc-Counted nothing 64 100 ops (omega arith) (omega arith)

abbrev idle : Sys
idle = record { memory = nothing; threads = λ _. zeroed; last_thread_index = 0xffff_ffff }

-- The routine returns 7 and the wrapper stores it before the handle 4 and the id 5 are stored; the
-- thread is the last to release the record.
abbrev mixed : List Access
mixed =
    write (λ r. record r { exit_code = 7 })
    ∷ write (λ r. record r { thread_handle = 4; thread_id = 5 })
    ∷ count add_ref
    ∷ write (λ r. record r { finished = true })
    ∷ count release
    ∷ count release
    ∷ count release
    ∷ []
