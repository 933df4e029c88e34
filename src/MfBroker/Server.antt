-- ===== src/MfBroker/Server.antt =====
-- _MFBrokerServerThread of mfbroker/mfbroker.c: the loop that accepts connections.
-- A round is given what WSAPoll, accept and InitializeCriticalSectionAndSpinCount answer. Codes are
-- `int`s as bit patterns.
pub mod Accepting
pub mod Counts
pub mod Stuck
use avtalk.Base.{
  ℕ, suc, Bool, true, false, not, ◌&&◌, Option, none, some, List, [], ◌∷◌, ◌==◌, if◌then◌else◌,
}
use avtalk.Base.Fault.{Cmd, pure, get_state, modify, ◌>>=◌, ◌>>◌, when}
use avtalk.MfBroker.Slots.{State, max_connections, find_free}
use avtalk.MfBroker.Connections.{Store, close_socket, conn_init}

-- `EBrokerErrorType`
pub data ErrorType : Type 0 where
  bet_message_failed_receive bet_message_failed_send bet_message_invalid_signature : ErrorType
  bet_message_failed_decryption bet_failed_poll bet_socket_error : ErrorType
  bet_memory_allocation bet_accept_failed bet_too_many_connections : ErrorType

pub data Poll : Type 0 where
  ready : Bool → Bool → Poll
  timeout : Poll
  poll_failed : ℕ → Poll

pub data Accept : Type 0 where
  accepted : ℕ → Accept
  accept_failed : ℕ → Accept

-- The arguments of `ready` are the POLLERR and POLLIN bits; a failure carries WSAGetLastError.
pub record Round : Type 0 where
  pub poll : Poll
  pub accept : Accept
  pub lock_error : Option ℕ

-- The connections, ConnectionCount, the thread's flag, and the calls of ErrorCallback, the last
-- one first.
pub record Server : Type 0 where
  pub store : Store
  pub connection_count : ℕ
  pub terminated : Bool
  pub errors : List (ErrorType × ℕ)

abbrev pub minus_one : ℕ
minus_one = 0xffff_ffff

abbrev pub on_store : {A : Type 0} → Cmd Store A → Cmd Server A
on_store c s = elim (c s.store) [ none ↦ none | some (a, t) ↦ some (a, record s { store = t }) ]

abbrev pub report : ErrorType → ℕ → Cmd Server (Unit {0})
report type code = modify (λ s. record s { errors = (type, code) ∷ s.errors })

abbrev pub slot_states : Server → ℕ → State
slot_states s c = (s.store.connections c).state

-- From _MFConn_FindFree on.
unfoldable pub new_connection : ℕ → Option ℕ → Option ℕ → Cmd Server ℕ
new_connection broker lock_error socket = do
  s ← get_state
  ret ← elim (find_free (slot_states s) 0 max_connections) [
    | none ↦ (do report bet_too_many_connections minus_one; pure minus_one)
    | some conn ↦ (do
      ret ← on_store (conn_init lock_error conn broker socket 0)
      when (not (ret == 0)) (report bet_memory_allocation ret)
      pure ret)
  ]
  when (ret == 0) (modify (λ s. record s { connection_count = suc s.connection_count }))
  when (not (ret == 0))
      (on_store (modify (λ t. record t { closed = close_socket socket t.closed })))
  pure ret

-- From accept on; only entered with code 0.
unfoldable pub accept_round : ℕ → Round → Cmd Server ℕ
accept_round broker r = do
  (ret, socket) ← elim r.accept [
    | accepted socket ↦ pure (0, some socket)
    | accept_failed code ↦ (do report bet_accept_failed code; pure (code, none))
  ]
  if ret == 0 then new_connection broker r.lock_error socket else pure ret

-- One round of the loop, from the code of the round before to its own.
unfoldable pub server_round : ℕ → Round → ℕ → Cmd Server ℕ
server_round broker r ret = elim r.poll [
  | ready poll_err poll_in ↦ (do
    ret ← (if poll_err then (do report bet_socket_error ret; pure minus_one) else pure ret)
    if ret == 0 && poll_in then accept_round broker r else pure ret)
  | timeout ↦ pure ret
  | poll_failed code ↦ (do
    modify (λ s. record s { terminated = true })
    report bet_failed_poll code
    pure code)
]

unfoldable pub server_run : ℕ → List Round → ℕ → Cmd Server ℕ
server_run broker [] ret = pure ret
server_run broker (r ∷ rs) ret = do
  s ← get_state
  if s.terminated then pure ret else (do ret ← server_round broker r ret; server_run broker rs ret)
