-- ===== src/MfMemory.antt =====
-- mfmemory/mfmemory.c: blocks with a reference count in the 0x10 bytes before the caller's part.
-- A block is named by the caller's pointer. `LONG` counts are bit patterns below 2 ^ 32 and wrap.
pub mod Holders
pub mod Releases
use avtalk.Base.{ℕ, ◌+◌, ◌-◌, ◌%◌, ◌^◌, Option, none, some, ◌==◌, if◌then◌else◌}
use avtalk.Base.Fault.{Cmd, pure, fault, modify, ◌>>=◌, ◌>>◌, when}

abbrev pub Ptr : Type 0
Ptr = ℕ

abbrev pub null : Ptr
null = 0

-- `size` counts the bytes that CoTaskMemAlloc was asked for, the 0x10 in front included.
pub record Block : Type 0 where
  pub refs : ℕ
  pub size : ℕ

abbrev pub Memory : Type 0
Memory = Ptr → Option Block

abbrev pub write : Ptr → Option Block → Memory → Memory
write p b m a = if a == p then b else m a

abbrev pub s_ok : ℕ
s_ok = 0

abbrev pub e_outofmemory : ℕ
e_outofmemory = 0x8007000e

-- `size_t` and `LONG` arithmetic
abbrev pub size_add : ℕ → ℕ → ℕ
size_add a b = (a + b) % 2 ^ 64

abbrev pub long_inc : ℕ → ℕ
long_inc n = (n + 1) % 2 ^ 32

abbrev pub long_dec : ℕ → ℕ
long_dec n = (n + 2 ^ 32 - 1) % 2 ^ 32

-- `fresh` is the caller's part of what CoTaskMemAlloc returns, or `none` for NULL.
-- The result is the code and, on success, the pointer stored in `*Buffer`.
unfoldable pub ref_mem_alloc : Option Ptr → ℕ → Cmd Memory (ℕ × Option Ptr)
ref_mem_alloc none n = pure (e_outofmemory, none)
ref_mem_alloc (some p) n = do
  modify (write p (some (record { refs = 1; size = size_add n 0x10 })))
  pure (s_ok, some p)

unfoldable pub ref_mem_add_ref : Ptr → Cmd Memory (Unit {0})
ref_mem_add_ref p m = elim (m p) [
  | none ↦ none
  | some b ↦ some (tt, write p (some (record b { refs = long_inc b.refs })) m)
]

unfoldable pub ref_mem_release : Ptr → Cmd Memory (Unit {0})
ref_mem_release p m = if p == null then some (tt, m) else elim (m p) [
  | none ↦ none
  | some b ↦
      let left = long_dec b.refs in
      some (tt, write p (if left == 0 then none else some (record b { refs = left })) m)
]
