-- ===== src/MfBroker/Worker/Round.antt =====
-- The loop of _MFBrokerThreadRoutine in mfbroker/mfbroker.c, one round at a time, while no other
-- thread touches the connections. What the system answers in a round is its argument. `none` is an
-- access to memory that is not there, a failed assertion, a misuse of a lock, or too little fuel.
use avtalk.Base.{ℕ, Bool, Option, none, some, List, [], ◌∷◌, ◌++◌}
use avtalk.Base.Fault.{Cmd, pure, get_state, modify, ◌>>=◌, ◌>>◌}
use avtalk.MfCrypto.{Bytes, Sodium, Key}
use avtalk.MfMemory.{Ptr, Memory, ref_mem_release}
use avtalk.MfMessages.{Message}
use avtalk.MfBroker.Wire.{Winsock}
use avtalk.MfBroker.Connections.{Store, Listed, put, on_memory, release}
use avtalk.MfBroker.Server.{ErrorType}
use avtalk.MfBroker.Worker.{Callbacks}

-- The calls of the callbacks that report something, with the connection and the message.
pub data Event : Type 0 where
  error : ErrorType → ℕ → Event
  ready sent : ℕ → Message → Event

-- The thread's variables with the connections and the network; `log` has the events, the last one
-- last. `received` is `recvList` as its links lead through it, `fds` the block of the poll array.
pub record Loop (S : Type 0) : Type 0 where
  pub store : Store
  pub net : S
  pub connection_count : ℕ
  pub ret : ℕ
  pub received : List Ptr
  pub fds : Option Ptr
  pub fd_count : ℕ
  pub log : List Event
  pub terminated : Bool

-- The bits of `revents`.
pub record Revents : Type 0 where
  pub poll_err : Bool
  pub poll_in : Bool
  pub poll_hup : Bool
  pub poll_out : Bool

-- What does not change: libsodium, Winsock for a socket, the callbacks, the keys of the broker, the
-- number of workers and the index of this one. `depth` bounds the nesting of MFConnection_Release,
-- `fuel` the rounds of a loop.
pub record Setting (S : Type 0) : Type 0 where
  pub sodium : Sodium
  pub winsock : Option ℕ → Winsock S
  pub calls : Callbacks
  pub public_key : Key
  pub secret_key : Key
  pub thread_index : ℕ
  pub thread_count : ℕ
  pub depth : ℕ
  pub fuel : ℕ

abbrev pub enoent : ℕ
enoent = 2

module _ {S : Type 0} where
  abbrev pub on_store : {A : Type 0} → Cmd Store A → Cmd (Loop S) A
  on_store c w = elim (c w.store) [ none ↦ none | some (a, t) ↦ some (a, record w { store = t }) ]

  abbrev pub on_wire : {A : Type 0} → Cmd (S × Memory) A → Cmd (Loop S) A
  on_wire c w = elim (c (w.net, w.store.memory)) [
    | none ↦ none
    | some (a, t) ↦ some (a, record w { net = t.0; store = record w.store { memory = t.1 } })
  ]

  abbrev pub on_net : {A : Type 0} → Cmd S A → Cmd (Loop S) A
  on_net c w = elim (c w.net) [ none ↦ none | some (a, t) ↦ some (a, record w { net = t }) ]

  abbrev pub set_ret : ℕ → Cmd (Loop S) (Unit {0})
  set_ret ret = modify (λ w. record w { ret = ret })

  abbrev pub report : Event → Cmd (Loop S) (Unit {0})
  report e = modify (λ w. record w { log = w.log ++ e ∷ [] })

  abbrev pub set_listed : Ptr → Listed → Cmd (Loop S) (Unit {0})
  set_listed p l = on_store (modify (λ t. record t { listed = put p l t.listed }))

  -- A read of the block at `p`.
  abbrev pub touch : Ptr → Cmd (Loop S) (Unit {0})
  touch p w = elim (w.store.memory p) [ none ↦ none | some b ↦ some (tt, w) ]

  abbrev pub report_all : List ErrorType → ℕ → Cmd (Loop S) (Unit {0})
  report_all [] code = pure tt
  report_all (e ∷ es) code = do report (error e code); report_all es code

  -- `MFList_InsertTail(&recvList, ...)` writes to the entry that was last.
  abbrev pub touch_last : List Ptr → Cmd (Loop S) (Unit {0})
  touch_last [] = pure tt
  touch_last (p ∷ []) = touch p
  touch_last (p ∷ q ∷ ps) = touch_last (q ∷ ps)

  -- MFConnection_Release of a message's connection and MFGen_RefMemRelease of the message
  unfoldable pub drop_listed : ℕ → Ptr → Cmd (Loop S) (Unit {0})
  drop_listed depth p = on_store (do
    t ← get_state
    release depth (t.listed p).connection
    on_memory (ref_mem_release p)
    pure tt)

  -- The last loop of a round, over the links of `recvList`.
  unfoldable pub deliver : ℕ → List Ptr → Cmd (Loop S) (Unit {0})
  unfolding drop_listed
  deliver depth [] = pure tt
  deliver depth (old ∷ rest) = do
    touch old
    w ← get_state
    report (ready (w.store.listed old).connection (w.store.listed old).message)
    drop_listed depth old
    deliver depth rest

-- The answer of WSAPoll: the `revents` of the polled connections, in order; nothing; or an error
-- with WSAGetLastError.
pub data PollResult : Type 0 where
  polled : List Revents → PollResult
  timed_out : PollResult
  poll_error : ℕ → PollResult

-- What the system answers in one round: memory for the poll array and, on failure, ErrorCallback
-- about it; WSAPoll; for each connection memory for a message; randomness for each message.
pub record Answers : Type 0 where
  pub fds : Option Ptr
  pub go_on : ℕ
  pub poll : PollResult
  pub fresh : ℕ → Option Ptr
  pub random : Ptr → Bytes
