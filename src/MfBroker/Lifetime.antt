-- ===== src/MfBroker/Lifetime.antt =====
-- MFBroker_Alloc and MFBroker_Free of mfbroker/mfbroker.c as wholes. The threads of the broker are
-- started and ended; what they do in between is not part of it. `none` is an access to memory that
-- is not there, a misuse of a lock, or too little depth.
pub mod Ending
pub mod Free
pub mod Tries
pub mod Threads
pub mod Allocation
use avtalk.Base.{
  ℕ, zero, suc, ◌+◌, Bool, true, false, not, Option, none, some, List, [], ◌∷◌, ◌==◌, if◌then◌else◌,
}
use avtalk.Base.Fault.{Cmd, pure, fault, get_state, modify, ◌>>=◌, ◌>>◌, when}
use avtalk.MfCrypto.{Key}
use avtalk.MfMemory.{Ptr, long_dec, ref_mem_alloc, ref_mem_add_ref, ref_mem_release}
use avtalk.MfBroker.Slots.{State, max_connections, worker_thread_count, first, next}
use avtalk.MfBroker.Connections.{Store, zeroed, close_socket, on_memory, clear, release}
use avtalk.MfBroker.SetUp.{
  Mode, bm_client, bm_server, Address, SetUp, on_store, address_loop, create_thread, end_thread,
  end_workers, start_server,
}

-- What MFBroker_Alloc is given; callbacks and contexts are pointers.
pub record Request : Type 0 where
  pub mode : Mode
  pub public_key : Key
  pub secret_key : Key
  pub message_callback : ℕ
  pub message_callback_context : ℕ
  pub error_callback : ℕ
  pub error_callback_context : ℕ

-- `MF_BROKER`, the fields in SetUp aside; `none` is a key of zeros.
pub record Broker : Type 0 where
  pub mode : Mode
  pub public_key : Option Key
  pub secret_key : Option Key
  pub message_callback : ℕ
  pub message_callback_context : ℕ
  pub error_callback : ℕ
  pub error_callback_context : ℕ
  pub thread_count : ℕ

-- The broker with the connections, threads and sockets.
pub record World : Type 0 where
  pub set_up : SetUp
  pub broker : Broker

-- The memory of the broker, the code and the list of getaddrinfo, and the code of MFThread_Create
-- for each thread.
pub record Answers : Type 0 where
  pub fresh : Option Ptr
  pub lookup : ℕ
  pub addresses : List Address
  pub threads : ℕ → ℕ

abbrev pub on_set_up : {A : Type 0} → Cmd SetUp A → Cmd World A
on_set_up c w = elim (c w.set_up) [ none ↦ none | some (a, t) ↦ some (a, record w { set_up = t }) ]

abbrev pub in_memory : {A : Type 0} → Cmd Store A → Cmd World A
in_memory c = on_set_up (on_store c)

-- memset of the broker and the assignments to it. The connections behind it are those of a block
-- that MFGen_RefMemAlloc has just filled with zeros.
unfoldable pub fill_broker : Request → Cmd World (Unit {0})
fill_broker r = modify (λ w. record w {
  broker = record {
    mode = r.mode;
    public_key = none;
    secret_key = none;
    message_callback = r.message_callback;
    message_callback_context = r.error_callback_context;
    error_callback = r.error_callback;
    error_callback_context = r.error_callback_context;
    thread_count = 0;
  };
  set_up = record w.set_up {
    store = record w.set_up.store { connections = λ _. zeroed };
    connection_count = 0;
    listen_socket = none;
  };
})

abbrev pub set_thread_count : ℕ → Cmd World (Unit {0})
set_thread_count n = modify (λ w. record w { broker = record w.broker { thread_count = n } })

-- The threads: a client has one worker.
unfoldable pub start_threads : Mode → (ℕ → ℕ) → Cmd World ℕ
start_threads bm_client codes = do set_thread_count 1; on_set_up (create_thread codes 1)
start_threads bm_server codes = do
  ret ← on_set_up (start_server codes worker_thread_count)
  when (codes 0 == 0) (set_thread_count worker_thread_count)
  pure ret

-- What is undone when the threads could not be started. The socket of the last address is the
-- listening one.
unfoldable pub undo : ℕ → Mode → Cmd World (Unit {0})
undo depth bm_client = on_set_up (do
  on_store (release depth 0)
  modify (λ s. record s { connection_count = long_dec s.connection_count }))
undo depth bm_server = on_set_up (
    modify (λ s. record s {
      store = record s.store { closed = close_socket s.listen_socket s.store.closed };
    }))

-- The part behind the address loop.
unfoldable pub start_or_undo : ℕ → Mode → (ℕ → ℕ) → Cmd World ℕ
unfolding start_threads undo
start_or_undo depth mode codes = do
  ret ← start_threads mode codes
  when (not (ret == 0)) (undo depth mode)
  pure ret

-- getaddrinfo and the addresses.
unfoldable pub look_up : Mode → Ptr → Answers → Cmd World ℕ
look_up mode p os =
    if os.lookup == 0 then on_set_up (address_loop mode p os.addresses 0) else pure os.lookup

-- What the caller is given.
unfoldable pub hand_out : Ptr → ℕ → Cmd World (ℕ × Option Ptr)
hand_out p ret = do
  when (ret == 0) (in_memory (on_memory (ref_mem_add_ref p)))
  in_memory (on_memory (ref_mem_release p))
  pure (ret, if ret == 0 then some p else none)

-- `size` is that of the broker with its connections and the pointers of its threads.
unfoldable pub alloc_broker : ℕ → ℕ → Request → Answers → Cmd World (ℕ × Option Ptr)
unfolding fill_broker look_up start_or_undo hand_out
alloc_broker depth size r os = do
  (ret, block) ← in_memory (on_memory (ref_mem_alloc os.fresh size))
  elim block [
    | none ↦ pure (ret, none)
    | some p ↦ (do
      fill_broker r
      ret ← look_up r.mode p os
      ret ← (if ret == 0 then start_or_undo depth r.mode os.threads else pure ret)
      hand_out p ret)
  ]

abbrev pub states_of : Store → ℕ → State
states_of s c = (s.connections c).state

-- The last loop of MFBroker_Free; each round goes on to a higher slot.
unfoldable pub clear_slots : ℕ → ℕ → Option ℕ → Cmd Store (Unit {0})
clear_slots depth fuel none = pure tt
clear_slots depth zero (some conn) = fault
clear_slots depth (suc fuel) (some conn) = do
  clear depth conn
  release depth conn
  s ← get_state
  clear_slots depth fuel (next (states_of s) 0 (conn + 1) max_connections 1)

unfoldable pub clear_all : ℕ → Cmd Store (Unit {0})
unfolding clear_slots
clear_all depth = do
  s ← get_state
  clear_slots depth max_connections (first (states_of s) 0 max_connections 1)

-- The thread that listens, and its socket, on MFBroker_Free.
unfoldable pub stop_listening : Mode → Cmd SetUp (Unit {0})
stop_listening bm_client = pure tt
stop_listening bm_server = do
  end_thread 0
  modify (λ s. record s {
    store = record s.store { closed = close_socket s.listen_socket s.store.closed };
  })

-- MFBroker_Free of the broker at `p`, from when its threads have ended their work.
unfoldable pub free_broker : ℕ → Ptr → Cmd World (Unit {0})
unfolding clear_all stop_listening
free_broker depth p = do
  w ← get_state
  on_set_up (end_workers w.broker.thread_count)
  on_set_up (stop_listening w.broker.mode)
  in_memory (clear_all depth)
  in_memory (on_memory (ref_mem_release p))
