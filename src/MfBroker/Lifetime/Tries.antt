-- ===== src/MfBroker/Lifetime/Tries.antt =====
-- What the address loop of MFBroker_Alloc in mfbroker/mfbroker.c leaves alone.
use avtalk.Base.{
  ℕ, zero, suc, ◌≡◌, refl, ◌∙◌, ◌≢◌, true, false, Option, none, some, List, [], ◌∷◌, arith,
  if◌then◌else◌, ◌==◌, Bool-cases, inl, inr,
}
use avtalk.Base.Fault.{◌>>=◌}
use avtalk.MfLock
use avtalk.MfBroker.Connections.{
  Store, Connection, zeroed, close_socket, with_conn, put_at, put-put, conn_init,
}
use avtalk.MfBroker.Server.Accepting.{opened, init_opened}
use avtalk.MfBroker.SetUp.{
  Mode, bm_client, bm_server, Address, SetUp, use_socket, try_address, address_loop,
}

-- Every address gives a socket, and a lock that cannot be set up has an error code.
abbrev pub Answered : List Address → Type 0
Answered [] = Unit {0}
Answered (a ∷ rest) = ((k : ℕ) × (a.socket ≡ some k)) × (a.lock_error ≢ some 0) × Answered rest

-- Threads and memory are as before, and a client that is connected has connection 0.
pub record Tried (mode : Mode) (broker code : ℕ) (s t : SetUp) : Type 0 where
  pub live : t.live ≡ s.live
  pub memory : t.store.memory ≡ s.store.memory
  pub connected :
      mode ≡ bm_client
      → code ≡ 0
      → (socket : Option ℕ) × (t.store.connections 0 ≡ opened broker socket)

init_lem :
    (lock_error : Option ℕ) (broker : ℕ) (socket : Option ℕ) (s : Store)
    → lock_error ≢ some 0
    → (code : ℕ) × (v : Connection) × (conn_init lock_error 0 broker socket 0 s
        ≡ some (code, with_conn 0 v s))
      × (code ≡ 0 → v ≡ opened broker socket)
unfolding conn_init MfLock.init
init_lem none broker socket s n =
    (0, opened broker socket, init_opened 0 broker socket s, λ z. refl)
init_lem (some zero) broker socket s n = absurd (n refl)
init_lem (some (suc code)) broker socket s n =
    let z : (suc code == 0) ≡ false = ground arith in
    (suc code, zeroed, simp (put_at, put-put, z) refl, λ e. absurd (omega arith))

use_socket_lem :
    (mode : Mode) (broker : ℕ) (a : Address) (s : SetUp)
    → a.lock_error ≢ some 0
    → (code : ℕ) × (t : SetUp) × (use_socket mode broker a s ≡ some (code, t))
      × Tried mode broker code s t
unfolding use_socket
use_socket_lem bm_client broker a s n =
    let (code, v, run, e) = init_lem a.lock_error broker a.socket s.store n in
    elim (Bool-cases (a.connect_code == 0)) [
      | inr bad ↦ (
        a.connect_code,
        s,
        rw (◌>>=◌, bad, ◌>>=◌, bad) refl,
        record { live = refl; memory = refl; connected = λ m z. absurd (ground arith) },
      )
      | inl good ↦ elim (Bool-cases (code == 0)) [
        | inl z ↦ (
          code,
          record s { store = with_conn 0 v s.store; connection_count = suc s.connection_count },
          rw (◌>>=◌, good, run, ◌>>=◌, z) refl,
          record {
            live = refl;
            memory = refl;
            connected = λ m h. (a.socket, put_at 0 v s.store.connections ∙ e h);
          },
        )
        | inr z ↦ (
          code,
          record s { store = with_conn 0 v s.store },
          rw (◌>>=◌, good, run, ◌>>=◌, z) refl,
          record {
            live = refl;
            memory = refl;
            connected = λ m h. (a.socket, put_at 0 v s.store.connections ∙ e h);
          },
        )
      ]
    ]
use_socket_lem bm_server broker a s n =
    let code = if a.bind_code == 0 then a.listen_code else a.bind_code in
    elim (Bool-cases (code == 0)) [
      | inl z ↦ (
        code,
        record s { listen_socket = a.socket },
        rw (◌>>=◌, z) refl,
        record { live = refl; memory = refl; connected = λ m h. absurd (ground arith) },
      )
      | inr z ↦ (
        code,
        s,
        rw (◌>>=◌, z) refl,
        record { live = refl; memory = refl; connected = λ m h. absurd (ground arith) },
      )
    ]

try_lem :
    (mode : Mode) (broker ret : ℕ) (a : Address) (s : SetUp)
    → ((k : ℕ) × (a.socket ≡ some k))
    → a.lock_error ≢ some 0
    → (code : ℕ) × (t : SetUp) × (try_address mode broker a ret s ≡ some (code, t))
      × Tried mode broker code s t
unfolding try_address
try_lem mode broker ret a s (k, e) n =
    let (code, t, run, tried) = use_socket_lem mode broker a s n in
    elim (Bool-cases (code == 0)) [
      | inl z ↦ (code, t, ground arith, tried)
      | inr z ↦ (
        code,
        record t { store = record t.store { closed = close_socket (some k) t.store.closed } },
        ground arith,
        record { live = tried.live; memory = tried.memory; connected = tried.connected },
      )
    ]

loop_on :
    (mode : Mode) (broker ret code : ℕ) (a : Address) (rest : List Address) (s t : SetUp)
    → try_address mode broker a ret s ≡ some (code, t)
    → (code == 0) ≡ false
    → address_loop mode broker (a ∷ rest) ret s ≡ address_loop mode broker rest code t
unfolding address_loop
loop_on mode broker ret code a rest s t run z = rw (◌>>=◌, run) (simp z refl)

loop_done :
    (mode : Mode) (broker ret code : ℕ) (a : Address) (rest : List Address) (s t : SetUp)
    → try_address mode broker a ret s ≡ some (code, t)
    → (code == 0) ≡ true
    → address_loop mode broker (a ∷ rest) ret s ≡ some (code, t)
unfolding address_loop
loop_done mode broker ret code a rest s t run z = rw (◌>>=◌, run) (simp z refl)

pub address_loop-Tried :
    (mode : Mode) (broker ret : ℕ) (a : Address) (rest : List Address) (s : SetUp)
    → Answered (a ∷ rest)
    → (code : ℕ) × (t : SetUp) × (address_loop mode broker (a ∷ rest) ret s ≡ some (code, t))
      × Tried mode broker code s t
unfolding address_loop
address_loop-Tried mode broker ret a [] s (socket, n, more) =
    let (code, t, run, tried) = try_lem mode broker ret a s socket n in
    elim (Bool-cases (code == 0)) [
      | inl z ↦ (code, t, loop_done mode broker ret code a [] s t run z, tried)
      | inr z ↦ (code, t, loop_on mode broker ret code a [] s t run z, tried)
    ]
address_loop-Tried mode broker ret a (b ∷ rest) s (socket, n, more) =
    let (code, t, run, tried) = try_lem mode broker ret a s socket n in
    elim (Bool-cases (code == 0)) [
      | inl z ↦ (code, t, loop_done mode broker ret code a (b ∷ rest) s t run z, tried)
      | inr z ↦
          let (last, u, run', tried') = address_loop-Tried mode broker code b rest t more in
          (
            last,
            u,
            loop_on mode broker ret code a (b ∷ rest) s t run z ∙ run',
            record {
              live = tried'.live ∙ tried.live;
              memory = tried'.memory ∙ tried.memory;
              connected = tried'.connected;
            },
          )
    ]
