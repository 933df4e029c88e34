-- ===== src/MfThread/Interleaved.antt =====
-- The creator of a thread and the new thread side by side: mfthread/mfthread.c from CreateThread on.
use avtalk.Base.{ℕ, ◌≡◌, some, List, [], ◌∷◌, true}
use avtalk.Base.Fault.{Cmd, pure, ◌>>◌}
use avtalk.MfMemory.{Ptr, ref_mem_release}
use avtalk.MfMemory.Holders.{RefOp, add_ref, release, ref_step}
use avtalk.MfThread.{
  Thread, Sys, Answers, in_memory, set_thread, create_after, wrapper_routine, close,
}
use avtalk.MfMemory

-- One access to the record: a write of its fields, or a change of its reference count.
pub data Access : Type 0 where
  write : (Thread → Thread) → Access
  count : RefOp → Access

abbrev pub access : Ptr → Access → Cmd Sys (Unit {0})
access p (write f) = set_thread p f
access p (count o) = in_memory (ref_step p o)

abbrev pub accesses : Ptr → List Access → Cmd Sys (Unit {0})
accesses p [] = pure tt
accesses p (o ∷ os) = do access p o; accesses p os

-- `zs` keeps the order of `xs` and of `ys`.
pub data Interleaving {A : Type 0} : List A → List A → List A → Type 0 where
  done : Interleaving [] [] []
  left : (o : A) {xs ys zs : List A} → Interleaving xs ys zs → Interleaving (o ∷ xs) ys (o ∷ zs)
  right : (o : A) {xs ys zs : List A} → Interleaving xs ys zs → Interleaving xs (o ∷ ys) (o ∷ zs)

abbrev counts : List Access → List RefOp
counts [] = []
counts (write f ∷ os) = counts os
counts (count o ∷ os) = o ∷ counts os

abbrev writes : List Access → List (Thread → Thread)
writes [] = []
writes (write f ∷ os) = f ∷ writes os
writes (count o ∷ os) = writes os

abbrev written : List (Thread → Thread) → Thread → Thread
written [] t = t
written (f ∷ fs) t = written fs (f t)

-- MFThread_Create from CreateThread on and MFThread_Close; the wrapper of the thread.
abbrev pub creator_accesses : ℕ → ℕ → List Access
creator_accesses handle id =
    write (λ r. record r { thread_handle = handle; thread_id = id })
    ∷ count add_ref
    ∷ count release
    ∷ []

abbrev pub close_accesses : List Access
close_accesses = count release ∷ []

abbrev pub wrapper_accesses : ℕ → List Access
wrapper_accesses code =
    write (λ r. record r { exit_code = code })
    ∷ write (λ r. record r { finished = true })
    ∷ count release
    ∷ []

-- MFThread_Create finds memory at `p`, and CreateThread succeeds.
abbrev pub succeeds : ℕ → ℕ → ℕ → Ptr → Answers
succeeds handle id err p = record { fresh = some p; created = some (handle, id); last_error = err }

-- The three functions are their accesses.
abbrev pub Accesses : ℕ → ℕ → ℕ → ℕ → Ptr → Type 0
Accesses handle id err code p =
    ((u : Sys)
      → create_after (succeeds handle id err p) p u
        ≡ (do accesses p (creator_accesses handle id); pure (0, some p)) u)
    × ((u : Sys) → close p u ≡ accesses p close_accesses u)
    × ((u : Sys) → wrapper_routine code p u ≡ (do accesses p (wrapper_accesses code); pure code) u)
