-- ===== src/MfMemory/Holders.antt =====
-- Reference counting of mfmemory/mfmemory.c against a plain count of the holders of a block.
use mathlib.Core.Path.{subst}
use avtalk.Base.{
  sym, ℕ, zero, suc, ◌+◌, ◌^◌, ◌<◌, ◌≡◌, ◌≢◌, Option, none, some, List, [], ◌∷◌, arith, length,
}
use avtalk.Base.Fault.{Cmd}
use avtalk.Base.{refl}
use avtalk.MfMemory.{
  s_ok, size_add, ref_mem_alloc, Ptr, null, Memory, write, ref_mem_add_ref, ref_mem_release,
}

pub data RefOp : Type 0 where
  add_ref release : RefOp

unfoldable pub ref_step : Ptr → RefOp → Cmd Memory (Unit {0})
ref_step p add_ref = ref_mem_add_ref p
ref_step p release = ref_mem_release p

unfoldable pub ref_run : Ptr → List RefOp → Memory → Option Memory
ref_run p [] m = some m
ref_run p (o ∷ os) m = elim (ref_step p o m) [ none ↦ none | some (_, m') ↦ ref_run p os m' ]

-- The number of holders after each operation; `none` if a block without holders is touched.
unfoldable pub holders : List RefOp → ℕ → Option ℕ
holders [] n = some n
holders (o ∷ os) zero = none
holders (add_ref ∷ os) (suc n) = holders os (suc (suc n))
holders (release ∷ os) (suc n) = holders os n

-- The memory `m'` holds a block with `n` holders at `p` (none for `n` = 0), and is `m` elsewhere.
abbrev pub HoldsAt : Memory → Ptr → ℕ → ℕ → Memory → Type 0
HoldsAt m p size zero m' = (m' p ≡ none) × ((a : Ptr) → a ≢ p → m' a ≡ m a)
HoldsAt m p size (suc n) m' =
    (m' p ≡ some (record { refs = suc n; size = size })) × ((a : Ptr) → a ≢ p → m' a ≡ m a)

-- A run ends as the count of holders says: both touch a freed block, or neither does.
abbrev pub Counted : Memory → Ptr → ℕ → Option ℕ → Option Memory → Type 0
Counted m p size none none = Unit {0}
Counted m p size none (some m') = ⊥
Counted m p size (some n) none = ⊥
Counted m p size (some n) (some m') = HoldsAt m p size n m'

ref_step_freed : (p : Ptr) (o : RefOp) (m : Memory) → p ≢ null → m p ≡ none → ref_step p o m ≡ none
unfolding ref_step ref_mem_add_ref ref_mem_release
ref_step_freed p add_ref m q h = ground arith
ref_step_freed p release m q h = ground arith

ref_run_cons :
    (p : Ptr) (o : RefOp) (os : List RefOp) (m t : Memory)
    → ref_step p o m ≡ some (tt, t)
    → ref_run p (o ∷ os) m ≡ ref_run p os t
unfolding ref_run
ref_run_cons p o os m t e = rw (e, ref_run)

ref_run_freed :
    (p : Ptr) (o : RefOp) (os : List RefOp) (m : Memory)
    → p ≢ null
    → m p ≡ none
    → ref_run p (o ∷ os) m ≡ none
unfolding ref_run
ref_run_freed p o os m q h = rw (ref_step_freed p o m q h, ref_run)

ref_step_add :
    (m : Memory) (p : Ptr) (size n : ℕ) (m' : Memory)
    → p ≢ null
    → n + 2 < 2 ^ 32
    → HoldsAt m p size (suc n) m'
    → (t : Memory) × (ref_step p add_ref m' ≡ some (tt, t)) × HoldsAt m p size (suc (suc n)) t
unfolding ref_step ref_mem_add_ref
ref_step_add m p size n m' q b h = (
  write p (some (record { refs = suc (suc n); size = size })) m',
  ground arith,
  (ground arith, λ a d. ground (arith, h.1 a)),
)

ref_step-release :
    (m : Memory) (p : Ptr) (size n : ℕ) (m' : Memory)
    → p ≢ null
    → n + 1 < 2 ^ 32
    → HoldsAt m p size (suc n) m'
    → (t : Memory) × (ref_step p release m' ≡ some (tt, t)) × HoldsAt m p size n t
unfolding ref_step ref_mem_release
ref_step-release m p size zero m' q b h =
    (write p none m', ground arith, (ground arith, λ a d. ground (arith, h.1 a)))
ref_step-release m p size (suc n) m' q b h = (
  write p (some (record { refs = suc n; size = size })) m',
  ground arith,
  (ground arith, λ a d. ground (arith, h.1 a)),
)

pub ref_run-Counted :
    (m : Memory) (p : Ptr) (size : ℕ) (os : List RefOp) (n : ℕ) (m' : Memory)
    → p ≢ null
    → n + length os < 2 ^ 32
    → HoldsAt m p size n m'
    → Counted m p size (holders os n) (ref_run p os m')
unfolding holders
ref_run-Counted m p size [] n m' q b h = unfold ref_run in h
ref_run-Counted m p size (o ∷ os) zero m' q b h =
    subst (Counted m p size none) (sym (ref_run_freed p o os m' q h.0)) tt
ref_run-Counted m p size (add_ref ∷ os) (suc n) m' q b h =
    let (t, e, k) =
      ref_step_add m p size n m' q (let c : suc n + suc (length os) < 2 ^ 32 = b in omega arith)
        h in
    subst (Counted m p size (holders os (suc (suc n)))) (sym (ref_run_cons p add_ref os m' t e))
      (ref_run-Counted m p size os (suc (suc n)) t q (omega arith) k)
ref_run-Counted m p size (release ∷ os) (suc n) m' q b h =
    let (t, e, k) =
      ref_step-release m p size n m' q (let c : suc n + suc (length os) < 2 ^ 32 = b in omega arith)
        h in
    subst (Counted m p size (holders os n)) (sym (ref_run_cons p release os m' t e))
      (ref_run-Counted m p size os n t q (omega arith) k)

-- For a block fresh from MFGen_RefMemAlloc and every sequence of fewer than 2 ^ 32 - 1 added and
-- released references: the block exists, with its size and the exact count, while it has holders,
-- is freed by the release of the last one, any later use of it is a fault, and no other block
-- changes.
pub ref_mem_alloc-Counted :
    (m : Memory) (p : Ptr) (n : ℕ) (os : List RefOp)
    → p ≢ null
    → 1 + length os < 2 ^ 32
    → (t : Memory) × (ref_mem_alloc (some p) n m ≡ some ((s_ok, some p), t))
      × Counted m p (size_add n 0x10) (holders os 1) (ref_run p os t)
unfolding ref_mem_alloc
ref_mem_alloc-Counted m p n os q b = (
  write p (some (record { refs = 1; size = size_add n 0x10 })) m,
  refl,
  ref_run-Counted m p (size_add n 0x10) os 1 _ q b (ground arith, λ a d. ground arith),
)
