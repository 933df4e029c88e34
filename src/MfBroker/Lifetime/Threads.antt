-- ===== src/MfBroker/Lifetime/Threads.antt =====
-- The threads of MFBroker_Alloc in mfbroker/mfbroker.c, and what is undone without them.

use avtalk.Base.{
  ℕ, suc, ◌≡◌, refl, ap, ◌∙◌, ◌≢◌, true, false, Option, some, arith, ◌==◌, Bool-cases, inl, inr,
  ne→==, eq→==, ==_iff, le→ltb, ◌⊎◌,
}
use avtalk.Base.Fault.{◌>>=◌, ◌>>◌}
use avtalk.MfMemory.{long_dec}
use avtalk.MfBroker.Slots.{worker_thread_count}
use avtalk.MfBroker.Connections.{put, close_socket}
use avtalk.MfBroker.Connections.Clear.{release-ended}
use avtalk.MfBroker.Server.Accepting.{opened}
use avtalk.MfBroker.SetUp.{Mode, bm_client, bm_server, SetUp, on_store, create_thread}
use avtalk.MfBroker.SetUp.Workers.{start_server-Running}
use avtalk.MfBroker.Lifetime.{World, on_set_up, start_threads, undo, start_or_undo}

abbrev pub NoThreads : SetUp → Type 0
NoThreads s = (k : ℕ) → s.live k ≡ false

-- Whether the code says that the threads run.
abbrev pub Outcome : ℕ → SetUp → Type 0
Outcome ret s = (ret ≡ 0) ⊎ ((ret ≢ 0) × NoThreads s)

start_threads_lem :
    (mode : Mode) (codes : ℕ → ℕ) (w : World)
    → NoThreads w.set_up
    → (ret : ℕ) × (v : World) × (start_threads mode codes w ≡ some (ret, v))
      × (v.set_up.store ≡ w.set_up.store)
      × Outcome ret v.set_up
unfolding start_threads create_thread
start_threads_lem bm_client codes w n = elim (Bool-cases (codes 1 == 0)) [
  | inl z ↦ (
    codes 1,
    record {
      broker = record w.broker { thread_count = 1 };
      set_up = record w.set_up { live = put 1 true w.set_up.live };
    },
    rw (◌>>=◌, z) refl,
    refl,
    inl ((==_iff (codes 1) 0).0 z),
  )
  | inr z ↦ (
    codes 1,
    record w { broker = record w.broker { thread_count = 1 } },
    rw (◌>>=◌, z) refl,
    refl,
    inr (ground arith, n),
  )
]
start_threads_lem bm_server codes w n =
    let (ret, t, run, out) = start_server-Running codes worker_thread_count w.set_up n in
    let (store, ends) : (t.store ≡ w.set_up.store) × Outcome ret t = elim out [
      | inl (z, on) ↦ (on.0, inl z)
      | inr (z, on) ↦ (on.0, inr (z, λ k. on.3 k ∙ le→ltb k 0 (omega arith)))
    ] in
    elim (Bool-cases (codes 0 == 0)) [
      | inl z ↦ (
        ret,
        record { broker = record w.broker { thread_count = worker_thread_count }; set_up = t },
        rw (◌>>=◌, run, ◌>>=◌, z) refl,
        store,
        ends,
      )
      | inr z ↦ (ret, record w { set_up = t }, rw (◌>>=◌, run, ◌>>=◌, z) refl, store, ends)
    ]

undo_lem :
    (depth broker : ℕ) (mode : Mode) (w : World)
    → (mode ≡ bm_client
        → (socket : Option ℕ) × (w.set_up.store.connections 0 ≡ opened broker socket))
    → (v : World) × (undo (suc depth) mode w ≡ some (tt, v))
      × (v.set_up.store.memory ≡ w.set_up.store.memory)
      × (v.set_up.live ≡ w.set_up.live)
unfolding undo
undo_lem depth broker bm_client w c =
    let (socket, e) = c refl in
    let (t, run, conn, others, mem, closed, listed) =
      release-ended depth 0 w.set_up.store (ap (λ r. r.reference_count) e)
        (ap (λ r. r.messages_to_send) e) (ap (λ r. r.send_lock) e) in
    (
      record w {
        set_up = record w.set_up {
          store = t;
          connection_count = long_dec w.set_up.connection_count;
        };
      },
      rw (on_set_up, ◌>>◌, ◌>>=◌, on_store, run) refl,
      mem,
      refl,
    )
undo_lem depth broker bm_server w c = (
  record w {
    set_up = record w.set_up {
      store = record w.set_up.store {
        closed = close_socket w.set_up.listen_socket w.set_up.store.closed;
      };
    };
  },
  refl,
  refl,
  refl,
)

pub start_or_undo_lem :
    (depth broker : ℕ) (mode : Mode) (codes : ℕ → ℕ) (w : World)
    → NoThreads w.set_up
    → (mode ≡ bm_client
        → (socket : Option ℕ) × (w.set_up.store.connections 0 ≡ opened broker socket))
    → (ret : ℕ) × (v : World) × (start_or_undo (suc depth) mode codes w ≡ some (ret, v))
      × (v.set_up.store.memory ≡ w.set_up.store.memory)
      × Outcome ret v.set_up
unfolding start_or_undo
start_or_undo_lem depth broker mode codes w n c =
    let (ret, v, run, store, out) = start_threads_lem mode codes w n in
    elim out [
      | inl z ↦
          (ret, v, rw (◌>>=◌, run, ◌>>=◌, eq→== ret 0 z) refl, ap (λ x. x.memory) store, inl z)
      | inr (bad, none_live) ↦
          let (u, run', mem, live) =
            undo_lem depth broker mode v
              (λ m. let (socket, e) = c m in (socket, ap (λ x. x.connections 0) store ∙ e)) in
          (
            ret,
            u,
            rw (◌>>=◌, run, ◌>>=◌, ne→== ret 0 bad, run') refl,
            mem ∙ ap (λ x. x.memory) store,
            inr (bad, λ k. ap (λ f. f k) live ∙ none_live k),
          )
    ]
