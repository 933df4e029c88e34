-- ===== src/MfThread/Ownership.antt =====
-- Who holds a thread record of mfthread/mfthread.c: the thread itself and the creator.

use avtalk.Base.{ℕ, ◌+◌, ◌%◌, ◌^◌, ◌≡◌, refl, ◌≢◌, true, false, none, some, arith, ◌==◌, eq→==}
use avtalk.Base.Fault.{pure, ◌>>=◌, ◌>>◌}
use avtalk.MfMemory.{Ptr, null, Memory, write, ref_mem_alloc, ref_mem_add_ref, ref_mem_release}
use avtalk.MfThread.{
  Thread, Sys, create_at, create_before, create_after, create, wrapper_routine, close, put_thread,
}

abbrev block : ℕ → Ptr → Memory → Memory
block n p m = write p (some (record { refs = n; size = 64 })) m

-- The record of a thread that has just been created.
abbrev pub started : ℕ → ℕ → ℕ → ℕ → ℕ → Thread
started routine context i handle id = record {
  routine = routine;
  context = context;
  exit_code = 0;
  terminated = false;
  finished = false;
  index = i;
  thread_handle = handle;
  thread_id = id;
}

abbrev pub CreatedAt : Sys → Ptr → ℕ → Thread → Sys → Type 0
CreatedAt s p refs t s' =
    (s'.memory p ≡ some (record { refs = refs; size = 64 }))
    × ((a : Ptr) → a ≢ p → s'.memory a ≡ s.memory a)
    × (s'.threads p ≡ t)
    × ((a : Ptr) → a ≢ p → s'.threads a ≡ s.threads a)
    × (s'.last_thread_index ≡ t.index)

module _ (routine context p : ℕ) (s : Sys) (q : p ≢ null) where
  abbrev fresh_index : ℕ
  fresh_index = (s.last_thread_index + 1) % 2 ^ 32

  -- If the record can be allocated and CreateThread succeeds, MFThread_Create returns 0 and a
  -- record with routine, context, handle, id and the next index, whose block has two references,
  -- and changes no other record or block.
  pub create-two_owners :
      (handle id err : ℕ)
      → (s' : Sys) × (create routine context
            (record { fresh = some p; created = some (handle, id); last_error = err })
            s
          ≡ some ((0, some p), s'))
        × CreatedAt s p 2 (started routine context fresh_index handle id) s'
  unfolding create create_at create_before create_after ref_mem_alloc ref_mem_add_ref
      ref_mem_release
  create-two_owners handle id err =
      let same : (p == p) ≡ true = eq→== p p refl in
      let live : (p == 0) ≡ false = ground arith in
      let s' : Sys = record {
        memory = block 2 p (block 3 p (block 2 p (block 1 p s.memory)));
        threads = put_thread p (started routine context fresh_index handle id) (
            put_thread p (record (started routine context fresh_index 0 0) { index = fresh_index })
              (put_thread p (started routine context 0 0 0) s.threads));
        last_thread_index = fresh_index;
      } in
      (
        s',
        ground arith,
        (ground arith, λ a d. ground arith, ground arith, λ a d. ground arith, ground arith),
      )

  -- If CreateThread fails with an error code other than 0, MFThread_Create returns that code and no
  -- record, frees the block that it had allocated and changes no other.
  pub create_fails :
      (err : ℕ)
      → err ≢ 0
      → (s' : Sys) × (create routine context
            (record { fresh = some p; created = none; last_error = err })
            s
          ≡ some ((err, none), s'))
        × (s'.memory p ≡ none)
        × ((a : Ptr) → a ≢ p → s'.memory a ≡ s.memory a)
  unfolding create create_at create_before create_after ref_mem_alloc ref_mem_add_ref
      ref_mem_release
  create_fails err ne =
      let same : (p == p) ≡ true = eq→== p p refl in
      let live : (p == 0) ≡ false = ground arith in
      let bad : (err == 0) ≡ false = ground arith in
      let s' : Sys = record {
        memory = write p none (block 1 p (block 2 p (block 1 p s.memory)));
        threads =
            (put_thread p (record (started routine context fresh_index 0 0) { index = fresh_index })
              (put_thread p (started routine context 0 0 0) s.threads));
        last_thread_index = fresh_index;
      } in
      (s', ground arith, ground arith, λ a d. ground arith)

-- From a record with two references, the end of the thread and MFThread_Close, in either order,
-- touch no freed block and leave the block freed, the exit code returned and stored, and the record
-- marked as finished.
pub wrapper_routine-close_freed :
    (code p : ℕ) (t : Thread) (s : Sys)
    → p ≢ null
    → s.memory p ≡ some (record { refs = 2; size = 64 })
    → s.threads p ≡ t
    → ((s' : Sys) × ((do ret ← wrapper_routine code p; close p; pure ret) s ≡ some (code, s'))
        × (s'.memory p ≡ none)
        × (s'.threads p ≡ record t { exit_code = code; finished = true }))
      × ((s' : Sys) × ((do close p; wrapper_routine code p) s ≡ some (code, s'))
          × (s'.memory p ≡ none)
          × (s'.threads p ≡ record t { exit_code = code; finished = true }))
unfolding wrapper_routine close ref_mem_release
wrapper_routine-close_freed code p t s q m th =
    let s' : Sys = record s {
      memory = write p none (block 1 p s.memory);
      threads =
          put_thread p (record t { exit_code = code; finished = true })
            (put_thread p (record t { exit_code = code }) s.threads);
    } in
    ((s', ground arith, ground arith, ground arith), (s', ground arith, ground arith, ground arith))
