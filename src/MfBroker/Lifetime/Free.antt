-- ===== src/MfBroker/Lifetime/Free.antt =====
-- MFBroker_Free of mfbroker/mfbroker.c.
use mathlib.Core.Path.{subst}
use avtalk.Base.{
  ℕ, suc, ◌≤◌, ◌<◌, ◌≡◌, refl, sym, ap, ◌∙◌, ◌≢◌, true, false, Option, none, some, List, [], ◌∷◌,
  arith, if◌then◌else◌, ◌==◌, Bool-cases, inl, inr, eq→==,
}
use avtalk.Base.Fault.{◌>>=◌, ◌>>◌}
use avtalk.MfMemory.{Ptr, Memory, null, write, ref_mem_release}
use avtalk.MfMemory.Releases.{release_frees}
use avtalk.MfList.Ring.{NotIn}
use avtalk.MfBroker.Slots.{is_free, max_connections}
use avtalk.MfBroker.Connections.{Store, Connection, on_memory, close_socket, put, put_at, put_other}
use avtalk.MfBroker.Connections.Teardown.{AllFree, Queued}
use avtalk.MfBroker.SetUp.{Mode, bm_client, bm_server, SetUp, on_store, end_workers, end_thread}
use avtalk.MfBroker.SetUp.Workers.{end_workers_lem}
use avtalk.MfBroker.Lifetime.{
  World, states_of, in_memory, on_set_up, clear_all, free_broker, stop_listening,
}
use avtalk.MfBroker.Lifetime.Ending.{IsReady, waiting}
use avtalk.MfBroker.Lifetime.Ending.Loop.{clear_all-Emptied}

-- The end of the broker at `p`: its threads are gone, its connections free, the messages and the
-- broker freed.
pub record Gone (p : Ptr) (w v : World) : Type 0 where
  pub workers : (k : ℕ) → 1 ≤ k → k ≤ w.broker.thread_count → v.set_up.live k ≡ false
  pub listener : w.broker.mode ≡ bm_server → v.set_up.live 0 ≡ false
  pub free : (c : ℕ) → c < max_connections → is_free (states_of v.set_up.store c) ≡ true
  pub freed :
      (c : ℕ) → c < max_connections → AllFree (waiting w.set_up.store c) v.set_up.store.memory
  pub broker : v.set_up.store.memory p ≡ none

Queued-closed :
    (conn : ℕ) (ps closed : List ℕ) (s : Store)
    → Queued conn ps s
    → Queued conn ps (record s { closed = closed })
Queued-closed conn [] closed s q = tt
Queued-closed conn (p ∷ ps) closed s q = (q.0, q.1, q.2, Queued-closed conn ps closed s q.3)

-- IsReady does not depend on the sockets that were closed.
IsReady-closed :
    (from : ℕ) (closed : List ℕ) (s : Store)
    → IsReady from s
    → IsReady from (record s { closed = closed })
IsReady-closed from closed s r = record {
  held = λ c g h u.
      let k = r.held c g h u in
      record {
        count = k.count;
        range = k.range;
        queue_eq = k.queue_eq;
        lock_eq = k.lock_eq;
        distinct = k.distinct;
        queued = Queued-closed c (s.connections c).messages_to_send closed s k.queued;
      };
  apart = r.apart;
}

AllFree-write : (p : Ptr) (ps : List Ptr) (m : Memory) → AllFree ps m → AllFree ps (write p none m)
AllFree-write p [] m f = tt
AllFree-write p (x ∷ ps) m (e, f) = (
  elim (Bool-cases (x == p)) [ inl here ↦ rw here refl | inr other ↦ rw other e ],
  AllFree-write p ps m f,
)

-- The threads and the listening socket.
stop_lem :
    (mode : Mode) (n : ℕ) (s : SetUp)
    → IsReady 0 s.store
    → (t u : SetUp) × (end_workers n s ≡ some (tt, t))
      × (stop_listening mode t ≡ some (tt, u))
      × ((k : ℕ) → 1 ≤ k → k ≤ n → u.live k ≡ false)
      × (mode ≡ bm_server → u.live 0 ≡ false)
      × IsReady 0 u.store
      × (u.store.connections ≡ s.store.connections)
      × (u.store.memory ≡ s.store.memory)
unfolding stop_listening end_thread
stop_lem bm_client n s r =
    let (t, run, st, co, li, low, zeroth, high) = end_workers_lem n s in
    (
      t,
      t,
      run,
      refl,
      low,
      (λ e. absurd (ground arith)),
      subst (IsReady 0) (sym st) r,
      ap (λ x. x.connections) st,
      ap (λ x. x.memory) st,
    )
stop_lem bm_server n s r =
    let (t, run, st, co, li, low, zeroth, high) = end_workers_lem n s in
    let closed = close_socket t.listen_socket t.store.closed in
    let u : SetUp = record t {
      live = put 0 false t.live;
      store = record t.store { closed = closed };
    } in
    (
      t,
      u,
      run,
      refl,
      (λ k a b. put_other 0 false t.live k (omega arith) ∙ low k a b),
      (λ e. put_at 0 false t.live),
      IsReady-closed 0 closed t.store (subst (IsReady 0) (sym st) r),
      ap (λ x. x.connections) st,
      ap (λ x. x.memory) st,
    )

dropped :
    (p : ℕ) (w : World) (t u : Store)
    → ref_mem_release p t.memory ≡ some (tt, u.memory)
    → u ≡ record t { memory = u.memory }
    → in_memory
        (on_memory (ref_mem_release p))
        (record w { set_up = record w.set_up { store = t } })
      ≡ some (tt, record w { set_up = record w.set_up { store = u } })
dropped p w t u e f =
    rw (in_memory, on_set_up, on_store, on_memory, e)
      (ap {A = Store} {B = Option (Unit {0} × World)}
        (λ x. some (tt, record w { set_up = record w.set_up { store = x } })) (sym f))

-- Connections and broker, with the threads gone.
last_steps :
    (depth p k : ℕ) (w : World)
    → IsReady 0 w.set_up.store
    → p ≢ null
    → w.set_up.store.memory p ≡ some (record { refs = 1; size = k })
    → ((c : ℕ) → c < max_connections → NotIn p (waiting w.set_up.store c))
    → (t : Store) × ((do
      in_memory (clear_all (suc depth))
      in_memory (on_memory (ref_mem_release p)))
          w
        ≡ some (tt, record w { set_up = record w.set_up { store = t } }))
      × ((c : ℕ) → c < max_connections → is_free (states_of t c) ≡ true)
      × ((c : ℕ) → c < max_connections → AllFree (waiting w.set_up.store c) t.memory)
      × (t.memory p ≡ none)
last_steps depth p k w r live at_p apart =
    let (t, run, e) = clear_all-Emptied depth w.set_up.store r in
    let still = e.kept p (λ c g h. apart c h) ∙ at_p in
    let u : Store = record t { memory = write p none t.memory } in
    (
      u,
      rw (in_memory, on_set_up, on_store, ◌>>=◌, run)
          (dropped p w t u (release_frees p k live t.memory still) refl),
      (λ c h. e.free c (omega arith) h),
      (λ c h. AllFree-write p (waiting w.set_up.store c) t.memory (e.freed c (omega arith) h)),
      rw (eq→== p p refl) refl,
    )

-- MFBroker_Free of a broker in which every slot in use has a free lock and is held once by the
-- broker and once by each of its queued messages, no message is queued twice, and the block of the
-- broker has one reference and is none of the messages: it touches no freed block, ends every
-- worker and the listener, makes all slots free, and frees every queued message and the broker.
pub free_broker-Gone :
    (depth p k : ℕ) (w : World)
    → IsReady 0 w.set_up.store
    → p ≢ null
    → w.set_up.store.memory p ≡ some (record { refs = 1; size = k })
    → ((c : ℕ) → c < max_connections → NotIn p (waiting w.set_up.store c))
    → (v : World) × (free_broker (suc depth) p w ≡ some (tt, v)) × Gone p w v
unfolding free_broker
free_broker-Gone depth p k w r live at_p apart =
    let (s, u, run, run', low, zeroth, ready, conns, mem) =
      stop_lem w.broker.mode w.broker.thread_count w.set_up r in
    let w2 : World = record w { set_up = u } in
    let waits : (c : ℕ) → waiting u.store c ≡ waiting w.set_up.store c = λ c.
      ap {A = ℕ → Connection} {B = List Ptr}
        (λ f. if is_free (f c).state then [] else (f c).messages_to_send) conns in
    let (t, more, free, freed, broker) =
      last_steps depth p k w2 ready live (ap (λ m. m p) mem ∙ at_p)
        (λ c h. subst (NotIn p) (sym (waits c)) (apart c h)) in
    (
      record w { set_up = record u { store = t } },
      rw (◌>>=◌, run, ◌>>=◌, run') more,
      record {
        workers = low;
        listener = zeroth;
        free = free;
        freed = λ c h. subst (λ q. AllFree q t.memory) (waits c) (freed c h);
        broker = broker;
      },
    )
