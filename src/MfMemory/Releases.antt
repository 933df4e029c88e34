-- ===== src/MfMemory/Releases.antt =====
-- MFGen_RefMemRelease of mfmemory/mfmemory.c on a block with one or two references.
use avtalk.Base.{ℕ, ◌≡◌, refl, ◌≢◌, some, none, ne→==}
use avtalk.MfMemory.{Memory, null, write, ref_mem_release}

module _ (p k : ℕ) (live : p ≢ null) (memory : Memory) where
  pub release_keeps :
      memory p ≡ some (record { refs = 2; size = k })
      → ref_mem_release p memory ≡ some (tt, write p (some (record { refs = 1; size = k })) memory)
  unfolding ref_mem_release
  release_keeps e = rw (ne→== p null live, e) refl

  pub release_frees :
      memory p ≡ some (record { refs = 1; size = k })
      → ref_mem_release p memory ≡ some (tt, write p none memory)
  unfolding ref_mem_release
  release_frees e = rw (ne→== p null live, e) refl
