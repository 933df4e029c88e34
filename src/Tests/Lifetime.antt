-- ===== src/Tests/Lifetime.antt =====
-- A broker of mfbroker/mfbroker.c from MFBroker_Alloc to MFBroker_Free.
use avtalk.Base.{
  ◌==◌, if◌then◌else◌, ℕ, ◌<◌, ◌≡◌, ◌≢◌, refl, arith, true, false, Option, none, some, [], ◌∷◌,
  Bool-cases, inl, inr, ==_iff,
}
use avtalk.MfMemory.{Ptr}
use avtalk.MfList.Ring.{NotIn}
use avtalk.MfBroker.Slots.{mcs_handshake, is_free, max_connections}
use avtalk.MfBroker.Connections.{Connection, Store, zeroed}
use avtalk.MfBroker.Connections.Teardown.{IsHeld}
use avtalk.MfBroker.SetUp.{bm_server, bm_client}
use avtalk.MfBroker.Lifetime.{World, Request, Answers, alloc_broker, free_broker, states_of}
use avtalk.MfBroker.Lifetime.Ending.{IsReady, waiting}
use avtalk.MfBroker.Lifetime.Free.{Gone, free_broker-Gone}
use avtalk.MfBroker.Lifetime.Allocation.{Settled, alloc_broker-Settled}
use avtalk.Tests.Samples.{key, sample}

-- Connection 3, with the message at address 64 queued; the broker is at 1000.
abbrev talking : Connection
talking = record zeroed {
  reference_count = 2;
  socket = some 9;
  state = mcs_handshake;
  messages_to_send = 64 ∷ [];
  send_lock = some 0;
}

abbrev store : Store
store = record {
  memory = λ a.
      if a == 64
      then some (record { refs = 1; size = 275 })
      else if a == 1000
      then some (record { refs = 1; size = 9000 })
      else none;
  listed = λ a. record { connection = 3; original_flags = 0; message = sample 0 };
  connections = λ c. if c == 3 then talking else zeroed;
  closed = [];
}

abbrev world : World
world = record {
  set_up = record { store = store; connection_count = 1; listen_socket = some 5; live = λ k. true };
  broker = record {
    mode = bm_server;
    public_key = none;
    secret_key = none;
    message_callback = 1;
    message_callback_context = 2;
    error_callback = 3;
    error_callback_context = 2;
    thread_count = 8;
  };
}

talking-IsHeld : IsHeld 3 1 (64 ∷ []) store
talking-IsHeld = record {
  count = refl;
  range = omega arith;
  queue_eq = refl;
  lock_eq = refl;
  distinct = (tt, tt);
  queued = ((λ e. absurd (omega arith)), (275, refl), refl, tt);
}

only_three : (c : ℕ) → is_free (states_of store c) ≡ false → c ≡ 3
only_three c u = elim (Bool-cases (c == 3)) [
  | inl here ↦ (==_iff c 3).0 here
  | inr other ↦ absurd (ground arith)
]

silent : (c : ℕ) → c ≢ 3 → waiting store c ≡ []
silent c n = ground arith

store-IsReady : IsReady 0 store
store-IsReady = record {
  held = λ c g h u. rw (only_three c u) talking-IsHeld;
  apart = λ c d n g g' h h'. elim (Bool-cases (c == 3)) [
    | inl here ↦ let e : d ≢ 3 = ground arith in rw ((==_iff c 3).0 here, silent d e) (tt, tt)
    | inr other ↦ let e : c ≢ 3 = ground arith in rw (silent c e) tt
  ];
}

broker_apart : (c : ℕ) → c < max_connections → NotIn 1000 (waiting store c)
broker_apart c h = elim (Bool-cases (c == 3)) [
  | inl here ↦ rw ((==_iff c 3).0 here) ((λ e. absurd (omega arith)), tt)
  | inr other ↦ let e : c ≢ 3 = ground arith in rw (silent c e) tt
]

free_broker-Gone_example :
    (v : World) × (free_broker 1 1000 world ≡ some (tt, v)) × Gone 1000 world v
free_broker-Gone_example =
    free_broker-Gone 0 1000 9000 world store-IsReady (omega arith) refl broker_apart

abbrev request : Request
request = record {
  mode = bm_client;
  public_key = key 1;
  secret_key = key 1;
  message_callback = 1;
  message_callback_context = 4;
  error_callback = 3;
  error_callback_context = 2;
}

-- The second of two addresses answers; no thread can be created.
abbrev no_thread : Answers
no_thread = record {
  fresh = some 2000;
  lookup = 0;
  addresses =
      record {
        socket = some 6;
        connect_code = 10061;
        bind_code = 0;
        listen_code = 0;
        lock_error = none;
      }
      ∷ record {
        socket = some 7;
        connect_code = 0;
        bind_code = 0;
        listen_code = 0;
        lock_error = none;
      }
      ∷ [];
  threads = λ k. 8;
}

abbrev before : World
before = record world { set_up = record world.set_up { live = λ k. false } }

alloc_broker-Settled_example :
    (ret : ℕ) × (o : Option Ptr) × (v : World) × (alloc_broker 1 8000 request no_thread before
      ≡ some ((ret, o), v))
    × Settled 2000 8016 ret o before v
alloc_broker-Settled_example =
    alloc_broker-Settled 0 8000 2000 request no_thread before refl (omega arith) (λ k. refl)
      (
        (λ e. absurd (ground arith)),
        ((6, refl), (λ e. absurd (ground arith)), ((7, refl), (λ e. absurd (ground arith)), tt)),
      )
