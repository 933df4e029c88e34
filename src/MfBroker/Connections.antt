-- ===== src/MfBroker/Connections.antt =====
-- The connections of mfbroker/mfbroker.c: set-up, references, the queue of messages to send.
-- A connection is its index in the broker's array. The queue is the sequence that the linked
-- entries hold.
pub mod Teardown
pub mod Clear
pub mod Faults
pub mod Send
use avtalk.Base.{
  ℕ, zero, suc, Bool, true, false, Option, none, some, List, [], ◌∷◌, ◌++◌, replicate, ◌==◌, ◌≡◌,
  ◌≢◌, refl, eq→==, ne→==, arith, if◌then◌else◌,
}
use avtalk.Base.Fault.{Cmd, pure, fault, get_state, modify, ◌>>=◌, ◌>>◌, when}
use avtalk.MfCrypto.{Key}
use avtalk.MfMemory.{Ptr, Memory, long_inc, long_dec, size_add, ref_mem_alloc, ref_mem_release}
use avtalk.MfLock
use avtalk.MfLock.{Lock}
use avtalk.MfMessages.{Message}
use avtalk.MfBroker.Wire.{listed_extra}
use avtalk.MfBroker.Slots.{State, mcs_free, mcs_handshake, mcf_established}

-- `MF_CONNECTION`; `socket` is `none` for INVALID_SOCKET.
pub record Connection : Type 0 where
  pub key : Key
  pub reference_count : ℕ
  pub socket : Option ℕ
  pub state : State
  pub context : ℕ
  pub broker : ℕ
  pub messages_to_send : List Ptr
  pub send_lock : Lock
  pub disconnected : Bool

-- `MF_LISTED_MESSAGE` behind its entry.
pub record Listed : Type 0 where
  pub connection : ℕ
  pub original_flags : ℕ
  pub message : Message

-- `closed` lists the sockets given to closesocket, the last one first.
pub record Store : Type 0 where
  pub memory : Memory
  pub listed : Ptr → Listed
  pub connections : ℕ → Connection
  pub closed : List ℕ

unfoldable pub put {ℓ} : {A : Type ℓ} → ℕ → A → (ℕ → A) → ℕ → A
put i v f a = if a == i then v else f a

module _ {ℓ} {A : Type ℓ} where
  pub put_at : (i : ℕ) (v : A) (f : ℕ → A) → put i v f i ≡ v
  unfolding put
  put_at i v f = rw (eq→== i i refl) refl

  pub put_other : (i : ℕ) (v : A) (f : ℕ → A) (a : ℕ) → a ≢ i → put i v f a ≡ f a
  unfolding put
  put_other i v f a h = rw (ne→== a i h) refl

  put_twice : (i : ℕ) (v w : A) (f : ℕ → A) (a : ℕ) → put i v (put i w f) a ≡ put i v f a
  unfolding put
  put_twice i v w f a = ground arith

  pub put-put : (i : ℕ) (v w : A) (f : ℕ → A) → put i v (put i w f) ≡ put i v f
  unfolding put
  put-put i v w f = λ k a. put_twice i v w f a k

abbrev pub on_memory : {A : Type 0} → Cmd Memory A → Cmd Store A
on_memory c s = elim (c s.memory) [ none ↦ none | some (a, m) ↦ some (a, record s { memory = m }) ]

abbrev pub with_conn : ℕ → Connection → Store → Store
with_conn c v s = record s { connections = put c v s.connections }

abbrev pub set_conn : ℕ → (Connection → Connection) → Cmd Store (Unit {0})
set_conn c f = modify (λ s. with_conn c (f (s.connections c)) s)

abbrev pub on_lock : {A : Type 0} → ℕ → Cmd Lock A → Cmd Store A
on_lock c k s = elim (k (s.connections c).send_lock) [
  | none ↦ none
  | some (a, l) ↦ some (a, with_conn c (record (s.connections c) { send_lock = l }) s)
]

abbrev pub zero_key : Key
zero_key = record { enc = replicate 32 0; sign = replicate 32 0 }

-- memset of the record, a lock that was never set up.
abbrev pub zeroed : Connection
zeroed = record {
  key = zero_key;
  reference_count = 0;
  socket = some 0;
  state = mcs_free;
  context = 0;
  broker = 0;
  messages_to_send = [];
  send_lock = none;
  disconnected = false;
}

-- `lock_error` is the answer about the critical section.
unfoldable pub conn_init : Option ℕ → ℕ → ℕ → Option ℕ → ℕ → Cmd Store ℕ
conn_init lock_error conn broker socket context = do
  set_conn conn (λ _. zeroed)
  ret ← on_lock conn (MfLock.init lock_error)
  when (ret == 0) (
      set_conn conn (λ c. record c {
        messages_to_send = [];
        socket = socket;
        context = context;
        broker = broker;
        reference_count = 1;
        state = mcs_handshake;
      }))
  pure ret

unfoldable pub add_ref : ℕ → Cmd Store (Unit {0})
add_ref conn = set_conn conn (λ c. record c { reference_count = long_inc c.reference_count })

unfoldable pub send_async : Option Ptr → ℕ → Message → Cmd Store ℕ
unfolding add_ref
send_async fresh conn header = do
  (ret, l) ← on_memory (ref_mem_alloc fresh (size_add listed_extra header.message_size))
  elim l [
    | none ↦ pure ret
    | some l ↦ (do
      add_ref conn
      modify (λ s. record s {
        listed =
            put l (record { connection = conn; original_flags = header.flags; message = header })
              s.listed;
      })
      on_lock conn MfLock.enter
      set_conn conn (λ c. record c { messages_to_send = c.messages_to_send ++ l ∷ [] })
      on_lock conn MfLock.leave
      pure ret)
  ]

abbrev pub close_socket : Option ℕ → List ℕ → List ℕ
close_socket none closed = closed
close_socket (some socket) closed = socket ∷ closed

unfoldable pub disconnect : ℕ → Cmd Store (Unit {0})
disconnect conn = do
  modify (λ s. record s { closed = close_socket (s.connections conn).socket s.closed })
  set_conn conn (λ c. record c { socket = none })
  set_conn conn (λ c. record c { disconnected = true })

-- The loop of MFConnection_Clear. Each round reads the entry of a message, so the block must be
-- there; `release` is MFConnection_Release.
unfoldable pub clear_loop : (ℕ → Cmd Store (Unit {0})) → List Ptr → Cmd Store (Unit {0})
clear_loop release [] = pure tt
clear_loop release (old ∷ rest) = do
  s ← get_state
  elim (s.memory old) [
    | none ↦ fault
    | some _ ↦ (do
      release (s.listed old).connection
      on_memory (ref_mem_release old)
      clear_loop release rest)
  ]

unfoldable pub clear_with : (ℕ → Cmd Store (Unit {0})) → ℕ → Cmd Store (Unit {0})
unfolding clear_loop
clear_with release conn = do
  on_lock conn MfLock.enter
  s ← get_state
  clear_loop release (s.connections conn).messages_to_send
  set_conn conn (λ c. record c { messages_to_send = [] })
  on_lock conn MfLock.leave

-- MFConnection_Release calls MFConnection_Clear, which calls it for each queued message: `depth`
-- bounds the nesting, and `none` also stands for a nesting deeper than that.
unfoldable pub release : ℕ → ℕ → Cmd Store (Unit {0})
unfolding disconnect clear_with
release zero conn = fault
release (suc depth) conn = do
  s ← get_state
  let left = long_dec (s.connections conn).reference_count
  set_conn conn (λ c. record c { reference_count = left })
  when (left == 0) (do
    disconnect conn
    clear_with (release depth) conn
    on_lock conn MfLock.finit
    set_conn conn (λ c. record c { state = mcs_free }))

unfoldable pub clear : ℕ → ℕ → Cmd Store (Unit {0})
unfolding clear_with release
clear depth conn = clear_with (release depth) conn

unfoldable pub set_key : ℕ → Key → Cmd Store (Unit {0})
set_key conn key = do
  set_conn conn (λ c. record c { key = key })
  set_conn conn (λ c. record c { state = mcf_established })
