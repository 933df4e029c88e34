-- ===== src/MfBroker/Lifetime/Allocation.antt =====
-- How MFBroker_Alloc of mfbroker/mfbroker.c ends.
use mathlib.Core.Path.{subst}
use avtalk.Base.{
  ℕ, suc, ◌≡◌, refl, sym, ap, ◌∙◌, ◌≢◌, Bool, false, Option, none, some, List, [], ◌∷◌, arith,
  if◌then◌else◌, ◌==◌, Bool-cases, inl, inr, ne→==, eq→==, ==_iff, ◌⊎◌,
}
use avtalk.Base.Fault.{◌>>=◌, ◌>>◌, pure}
use avtalk.MfMemory.{Ptr, size_add, Memory, Block, null, write, ref_mem_alloc, ref_mem_add_ref}
use avtalk.MfMemory.Releases.{release_keeps, release_frees}
use avtalk.MfBroker.Connections.{zeroed, on_memory}
use avtalk.MfBroker.SetUp.{Mode, Address, SetUp, address_loop, on_store}
use avtalk.MfBroker.Lifetime.{
  World, Request, Answers, on_set_up, in_memory, start_or_undo, fill_broker, alloc_broker, look_up,
  hand_out,
}
use avtalk.MfBroker.Lifetime.Tries.{Answered, Tried, address_loop-Tried}
use avtalk.MfBroker.Lifetime.Threads.{NoThreads, Outcome, start_or_undo_lem}

tries :
    (mode : Mode) (broker : ℕ) (addresses : List Address) (s : SetUp)
    → addresses ≢ []
    → Answered addresses
    → (code : ℕ) × (t : SetUp) × (address_loop mode broker addresses 0 s ≡ some (code, t))
      × Tried mode broker code s t
tries mode broker [] s n answered = absurd (n refl)
tries mode broker (a ∷ rest) s n answered = address_loop-Tried mode broker 0 a rest s answered

look_up_lem :
    (r : Request) (os : Answers) (p : Ptr) (w : World)
    → (os.addresses ≢ []) × Answered os.addresses
    → (code : ℕ) × (v : World) × (look_up r.mode p os w ≡ some (code, v))
      × (code ≡ 0 → Tried r.mode p code w.set_up v.set_up)
      × (v.set_up.store.memory ≡ w.set_up.store.memory)
      × (v.set_up.live ≡ w.set_up.live)
unfolding look_up
look_up_lem r os p w (some_address, answered) = elim (Bool-cases (os.lookup == 0)) [
  | inr z ↦ (
    os.lookup,
    w,
    ap {A = Bool} {B = Option (ℕ × World)}
        (λ b. (if b then on_set_up (address_loop r.mode p os.addresses 0) else pure os.lookup) w) z,
    (λ e. absurd (ground arith)),
    refl,
    refl,
  )
  | inl z ↦
      let (code, t, run, tried) = tries r.mode p os.addresses w.set_up some_address answered in
      (
        code,
        record w { set_up = t },
        ap {A = Bool} {B = Option (ℕ × World)}
              (λ b.
                (if b then on_set_up (address_loop r.mode p os.addresses 0) else pure os.lookup) w)
              z
            ∙ rw (on_set_up, run) refl,
        (λ h. tried),
        tried.memory,
        tried.live,
      )
]

-- What the caller is given, and the memory of the broker at `p`.
abbrev Given : Ptr → ℕ → ℕ → Option Ptr → Memory → Type 0
Given p size ret o memory =
    ((ret ≡ 0) × (o ≡ some p) × (memory p ≡ some (record { refs = 1; size = size })))
    ⊎ ((ret ≢ 0) × (o ≡ none) × (memory p ≡ none))

hand_out_lem :
    (p size ret : ℕ) (w : World)
    → p ≢ null
    → w.set_up.store.memory p ≡ some (record { refs = 1; size = size })
    → (o : Option Ptr) × (v : World) × (hand_out p ret w ≡ some ((ret, o), v))
      × (v.set_up.live ≡ w.set_up.live)
      × Given p size ret o v.set_up.store.memory
      × ((a : Ptr) → a ≢ p → v.set_up.store.memory a ≡ w.set_up.store.memory a)
unfolding hand_out ref_mem_add_ref
hand_out_lem p size ret w live e =
    let self = eq→== p p refl in
    let added = write p (some (record { refs = 2; size = size })) w.set_up.store.memory in
    let kept = release_keeps p size live added (rw self refl) in
    let last : Option Block → World = λ b. record w {
      set_up = record w.set_up { store = record w.set_up.store { memory = write p b added } };
    } in
    elim (Bool-cases (ret == 0)) [
      | inl z ↦ (
        some p,
        last (some (record { refs = 1; size = size })),
        rw (◌>>=◌, z, in_memory, on_set_up, on_store, on_memory, e)
            (rw (◌>>◌, ◌>>=◌, in_memory, on_set_up, on_store, on_memory, kept, z) refl),
        refl,
        inl ((==_iff ret 0).0 z, refl, rw self refl),
        (λ a n. rw (ne→== a p n) refl),
      )
      | inr z ↦ (
        none,
        record w {
          set_up = record w.set_up {
            store = record w.set_up.store { memory = write p none w.set_up.store.memory };
          };
        },
        rw
            (
              ◌>>=◌,
              z,
              ◌>>◌,
              ◌>>=◌,
              in_memory,
              on_set_up,
              on_store,
              on_memory,
              release_frees p size live w.set_up.store.memory e,
              z,
            )
            refl,
        refl,
        inr (ground arith, refl, rw self refl),
        (λ a n. rw (ne→== a p n) refl),
      )
    ]

-- The end of MFBroker_Alloc: a broker that the caller owns, or nothing left of it.
pub record Settled (p size ret : ℕ) (o : Option Ptr) (w v : World) : Type 0 where
  pub given : Given p size ret o v.set_up.store.memory
  pub threads : Outcome ret v.set_up
  pub others : (a : Ptr) → a ≢ p → v.set_up.store.memory a ≡ w.set_up.store.memory a

-- The broker at `p`, filled in.
abbrev filled : Ptr → ℕ → Request → World → World
filled p size r w = record {
  set_up = record w.set_up {
    store = record w.set_up.store {
      memory = write p (some (record { refs = 1; size = size })) w.set_up.store.memory;
      connections = λ _. zeroed;
    };
    connection_count = 0;
    listen_socket = none;
  };
  broker = record {
    mode = r.mode;
    public_key = none;
    secret_key = none;
    message_callback = r.message_callback;
    message_callback_context = r.error_callback_context;
    error_callback = r.error_callback;
    error_callback_context = r.error_callback_context;
    thread_count = 0;
  };
}

-- The last two parts.
finish_lem :
    (depth p size : ℕ) (r : Request) (os : Answers) (w : World)
    → NoThreads w.set_up
    → p ≢ null
    → w.set_up.store.memory p ≡ some (record { refs = 1; size = size })
    → (os.addresses ≢ []) × Answered os.addresses
    → (ret : ℕ) × (o : Option Ptr) × (v : World) × ((do
      ret ← look_up r.mode p os
      ret ← (if ret == 0 then start_or_undo (suc depth) r.mode os.threads else pure ret)
      hand_out p ret)
          w
        ≡ some ((ret, o), v))
      × Settled p size ret o w v
finish_lem depth p size r os w n live e answered =
    let (code, w1, run, tried, mem, threads) = look_up_lem r os p w answered in
    let n1 : NoThreads w1.set_up = λ k. ap (λ f. f k) threads ∙ n k in
    elim (Bool-cases (code == 0)) [
      | inl z ↦
          let z' : code ≡ 0 = (==_iff code 0).0 z in
          let (ret, w2, run2, mem2, out) =
            start_or_undo_lem depth p r.mode os.threads w1 n1 (λ m. (tried z').connected m z') in
          let same = mem2 ∙ mem in
          let (o, v, run3, live3, given, others) =
            hand_out_lem p size ret w2 live (ap (λ f. f p) same ∙ e) in
          (
            ret,
            o,
            v,
            rw (◌>>=◌, run, ◌>>=◌, z, run2) run3,
            record {
              given = given;
              threads =
                  subst (λ l. (ret ≡ 0) ⊎ ((ret ≢ 0) × ((k : ℕ) → l k ≡ false))) (sym live3) out;
              others = λ a h. others a h ∙ ap (λ f. f a) same;
            },
          )
      | inr z ↦
          let (o, v, run3, live3, given, others) =
            hand_out_lem p size code w1 live (ap (λ f. f p) mem ∙ e) in
          (
            code,
            o,
            v,
            rw (◌>>=◌, run, ◌>>=◌, z) run3,
            record {
              given = given;
              threads = inr (ground arith, λ k. ap (λ f. f k) live3 ∙ n1 k);
              others = λ a h. others a h ∙ ap (λ f. f a) mem;
            },
          )
    ]

-- Where memory other than NULL is found for the broker, no thread of it runs before, getaddrinfo
-- gives at least one address, every address gives a socket and a failed lock an error code,
-- MFBroker_Alloc ends on every path in one of two ways: code 0 and a broker with exactly the
-- reference of the caller, or another code, no broker, its memory freed and none of its threads
-- left; no other block changes.
pub alloc_broker-Settled :
    (depth size p : ℕ) (r : Request) (os : Answers) (w : World)
    → os.fresh ≡ some p
    → p ≢ null
    → NoThreads w.set_up
    → (os.addresses ≢ []) × Answered os.addresses
    → (ret : ℕ) × (o : Option Ptr) × (v : World) × (alloc_broker (suc depth) size r os w
        ≡ some ((ret, o), v))
      × Settled p (size_add size 0x10) ret o w v
unfolding alloc_broker fill_broker ref_mem_alloc
alloc_broker-Settled depth size p r os w fresh live n answered =
    let w1 = filled p (size_add size 0x10) r w in
    let (ret, o, v, run, s) =
      finish_lem depth p (size_add size 0x10) r os w1 n live (rw (eq→== p p refl) refl) answered in
    (
      ret,
      o,
      v,
      ap {A = Option Ptr} {B = Option ((ℕ × Option Ptr) × World)}
            (λ f. alloc_broker (suc depth) size r (record os { fresh = f }) w) fresh
          ∙ run,
      record {
        given = s.given;
        threads = s.threads;
        others = λ a h. s.others a h ∙ rw (ne→== a p h) refl;
      },
    )
