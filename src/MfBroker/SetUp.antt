-- ===== src/MfBroker/SetUp.antt =====
-- The addresses and the threads of MFBroker_Alloc in mfbroker/mfbroker.c.
-- What socket, connect, bind, listen, the lock set-up and MFThread_Create answer is an argument, a
-- code of 0 for success. A thread is named by its number: 0 for the one that listens, `suc i` for
-- worker `i`.
pub mod Addresses
pub mod Workers
use avtalk.Base.{
  ℕ, zero, suc, Bool, true, false, not, Option, none, some, List, [], ◌∷◌, ◌==◌, if◌then◌else◌,
}
use avtalk.Base.Fault.{Cmd, pure, modify, ◌>>=◌, ◌>>◌, when}
use avtalk.MfBroker.Connections.{Store, put, close_socket, conn_init}

-- `EBrokerMode`
pub data Mode : Type 0 where
  bm_client bm_server : Mode

-- One entry of the list of getaddrinfo.
pub record Address : Type 0 where
  pub socket : Option ℕ
  pub connect_code : ℕ
  pub bind_code : ℕ
  pub listen_code : ℕ
  pub lock_error : Option ℕ

-- The part of MF_BROKER that the set-up changes; `live` holds of the threads that run.
pub record SetUp : Type 0 where
  pub store : Store
  pub connection_count : ℕ
  pub listen_socket : Option ℕ
  pub live : ℕ → Bool

abbrev pub on_store : {A : Type 0} → Cmd Store A → Cmd SetUp A
on_store c s = elim (c s.store) [ none ↦ none | some (a, t) ↦ some (a, record s { store = t }) ]

-- The cases of the switch, for a valid socket.
unfoldable pub use_socket : Mode → ℕ → Address → Cmd SetUp ℕ
use_socket bm_client broker a = do
  ret ←
      (if a.connect_code == 0
        then on_store (conn_init a.lock_error 0 broker a.socket 0)
        else pure a.connect_code)
  when (ret == 0) (modify (λ s. record s { connection_count = suc s.connection_count }))
  pure ret
use_socket bm_server broker a = do
  let ret = if a.bind_code == 0 then a.listen_code else a.bind_code
  when (ret == 0) (modify (λ s. record s { listen_socket = a.socket }))
  pure ret

-- One round of the loop over the addresses; without a socket the code stays as it was.
unfoldable pub try_address : Mode → ℕ → Address → ℕ → Cmd SetUp ℕ
try_address mode broker a ret = elim a.socket [
  | none ↦ pure ret
  | some socket ↦ (do
    ret ← use_socket mode broker a
    when (not (ret == 0))
        (on_store (modify (λ t. record t { closed = close_socket a.socket t.closed })))
    pure ret)
]

unfoldable pub address_loop : Mode → ℕ → List Address → ℕ → Cmd SetUp ℕ
address_loop mode broker [] ret = pure ret
address_loop mode broker (a ∷ rest) ret = do
  ret ← try_address mode broker a ret
  if ret == 0 then pure ret else address_loop mode broker rest ret

-- `codes n` is the result of MFThread_Create for thread `n`.
unfoldable pub create_thread : (ℕ → ℕ) → ℕ → Cmd SetUp ℕ
create_thread codes n = do
  when (codes n == 0) (modify (λ s. record s { live = put n true s.live }))
  pure (codes n)

-- MFThread_Terminate, MFThread_WaitFor and MFThread_Close.
unfoldable pub end_thread : ℕ → Cmd SetUp (Unit {0})
end_thread n = modify (λ s. record s { live = put n false s.live })

-- The workers below `i`.
unfoldable pub end_workers : ℕ → Cmd SetUp (Unit {0})
end_workers zero = pure tt
end_workers (suc i) = do end_workers i; end_thread (suc i)

-- The loop from worker `i` on, `left` of them.
unfoldable pub start_workers : (ℕ → ℕ) → ℕ → ℕ → Cmd SetUp ℕ
start_workers codes zero i = pure 0
start_workers codes (suc left) i = do
  ret ← create_thread codes (suc i)
  if ret == 0 then start_workers codes left (suc i) else (do end_workers i; pure ret)

unfoldable pub start_server : (ℕ → ℕ) → ℕ → Cmd SetUp ℕ
start_server codes count = do
  ret ← create_thread codes 0
  if ret == 0
      then (do ret ← start_workers codes count 0; when (not (ret == 0)) (end_thread 0); pure ret)
      else pure ret
