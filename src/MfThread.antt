-- ===== src/MfThread.antt =====
-- mfthread/mfthread.c with include/mfthread.h: reference-counted thread records.
-- The state is the memory of mfmemory, the records by address, and `_lastThreadIndex` (a `long` as
-- its bit pattern). What CoTaskMemAlloc, CreateThread and GetLastError return is an argument.
pub mod Ownership
pub mod Interleaved
use avtalk.Base.{ℕ, Bool, true, false, Option, none, some, ◌==◌, if◌then◌else◌}
use avtalk.Base.Fault.{Cmd, pure, fault, get_state, modify, ◌>>=◌, ◌>>◌, when}
use avtalk.MfMemory.{Ptr, Memory, long_inc, ref_mem_alloc, ref_mem_add_ref, ref_mem_release}

-- `MF_THREAD`; `routine` and `context` are the pointers given by the creator.
pub record Thread : Type 0 where
  pub routine : ℕ
  pub context : ℕ
  pub exit_code : ℕ
  pub terminated : Bool
  pub finished : Bool
  pub index : ℕ
  pub thread_handle : ℕ
  pub thread_id : ℕ

abbrev pub zeroed : Thread
zeroed = record {
  routine = 0;
  context = 0;
  exit_code = 0;
  terminated = false;
  finished = false;
  index = 0;
  thread_handle = 0;
  thread_id = 0;
}

abbrev pub sizeof_thread : ℕ
sizeof_thread = 48

pub record Sys : Type 0 where
  pub memory : Memory
  pub threads : Ptr → Thread
  pub last_thread_index : ℕ

-- What the system answers to one MFThread_Create: the memory for the record, the handle and id of
-- CreateThread (`none` for NULL), and GetLastError after a NULL.
pub record Answers : Type 0 where
  pub fresh : Option Ptr
  pub created : Option (ℕ × ℕ)
  pub last_error : ℕ

abbrev pub in_memory : {A : Type 0} → Cmd Memory A → Cmd Sys A
in_memory c s = elim (c s.memory) [ none ↦ none | some (a, m) ↦ some (a, record s { memory = m }) ]

abbrev pub put_thread : Ptr → Thread → (Ptr → Thread) → Ptr → Thread
put_thread p t f a = if a == p then t else f a

-- `t->field = ...` on the record at `p`.
abbrev pub set_thread : Ptr → (Thread → Thread) → Cmd Sys (Unit {0})
set_thread p f = modify (λ s. record s { threads = put_thread p (f (s.threads p)) s.threads })

-- InterlockedIncrement of `_lastThreadIndex`
abbrev pub next_index : Cmd Sys ℕ
next_index s = let i = long_inc s.last_thread_index in some (i, record s { last_thread_index = i })

-- MFThread_Create between the allocation and CreateThread.
unfoldable pub create_before : ℕ → ℕ → Ptr → Cmd Sys (Unit {0})
create_before routine context t = do
  set_thread t (λ _. record zeroed { routine = routine; context = context })
  in_memory (ref_mem_add_ref t)
  i ← next_index
  set_thread t (λ r. record r { index = i })

-- MFThread_Create from the answer of CreateThread on.
unfoldable pub create_after : Answers → Ptr → Cmd Sys (ℕ × Option Ptr)
create_after os t = do
  ret ← elim os.created [
    | some (handle, id) ↦ (do
      set_thread t (λ r. record r { thread_handle = handle; thread_id = id })
      pure 0)
    | none ↦ (do in_memory (ref_mem_release t); pure os.last_error)
  ]
  when (ret == 0) (in_memory (ref_mem_add_ref t))
  in_memory (ref_mem_release t)
  pure (ret, if ret == 0 then some t else none)

-- The part of MFThread_Create behind the allocation.
unfoldable pub create_at : ℕ → ℕ → Answers → Ptr → Cmd Sys (ℕ × Option Ptr)
unfolding create_before create_after
create_at routine context os t = do create_before routine context t; create_after os t

-- The result code, and the pointer stored in `*Thread` on success.
unfoldable pub create : ℕ → ℕ → Answers → Cmd Sys (ℕ × Option Ptr)
create routine context os = do
  (ret, t) ← in_memory (ref_mem_alloc os.fresh sizeof_thread)
  elim t [ none ↦ pure (ret, none) | some p ↦ create_at routine context os p ]

-- `_MFThreadWrapperRoutine` once the routine has returned `code`; the result is the thread's own.
unfoldable pub wrapper_routine : ℕ → Ptr → Cmd Sys ℕ
wrapper_routine code t = do
  set_thread t (λ r. record r { exit_code = code })
  set_thread t (λ r. record r { finished = true })
  s ← get_state
  let ret = (s.threads t).exit_code
  in_memory (ref_mem_release t)
  pure ret

unfoldable pub terminate : Ptr → Cmd Sys (Unit {0})
terminate t = set_thread t (λ r. record r { terminated = true })

-- CloseHandle, then the release of the caller's reference.
unfoldable pub close : Ptr → Cmd Sys (Unit {0})
close t = in_memory (ref_mem_release t)

unfoldable pub terminated : Thread → Bool
terminated t = t.terminated

-- The code and the value stored in `*ExitCode`; -1 as its bit pattern.
unfoldable pub exit_code : Thread → ℕ × Option ℕ
exit_code t = if t.finished then (0, some t.exit_code) else (0xffff_ffff, none)

unfoldable pub context : Thread → ℕ
context t = t.context

unfoldable pub index : Thread → ℕ
index t = t.index
