-- ===== src/MfBroker/Server/Accepting.antt =====
-- What a round of _MFBrokerServerThread in mfbroker/mfbroker.c accepts, and ConnectionCount.
use mathlib.Core.Path.{subst}
use avtalk.Base.{
  ℕ, zero, suc, ◌+◌, ◌≤◌, ◌<◌, ◌≡◌, refl, sym, ap, ◌∙◌, ◌≢◌, inl, inr, true, false, not, Option,
  none, some, List, ◌∷◌, arith, length, ◌==◌, if◌then◌else◌, Bool-cases, Option-cases,
}
use avtalk.Base.Fault.{◌>>=◌}
use avtalk.MfLock
use avtalk.MfBroker.Slots.{State, mcs_handshake, is_free, max_connections, find_free}
use avtalk.MfBroker.Slots.Search.{IsFirst, find_free-IsFirst}
use avtalk.MfBroker.Slots.Polls.{occupied}
use avtalk.MfBroker.Connections.{
  Connection, Store, put, put_at, put-put, put_other, with_conn, zeroed, close_socket, conn_init,
}
use avtalk.MfBroker.Server.{
  ErrorType, bet_memory_allocation, bet_too_many_connections, minus_one, Server, slot_states,
  new_connection,
}

occupied_same :
    (f g : ℕ → State) (l c : ℕ)
    → ((a : ℕ) → is_free (g a) ≡ is_free (f a))
    → length (occupied g l c) ≡ length (occupied f l c)
unfolding occupied
occupied_same f g zero c h = refl
occupied_same f g (suc l) c h = let i = occupied_same f g l (suc c) h in let e = h c in ground arith

occupied_above :
    (f g : ℕ → State) (l c d : ℕ)
    → d < c
    → ((a : ℕ) → a ≢ d → g a ≡ f a)
    → length (occupied g l c) ≡ length (occupied f l c)
unfolding occupied
occupied_above f g zero c d b h = refl
occupied_above f g (suc l) c d b h =
    let i = occupied_above f g l (suc c) d (omega arith) h in
    let e = h c (omega arith) in ground arith

occupied_more :
    (f g : ℕ → State) (l c d : ℕ)
    → c ≤ d
    → d < c + l
    → is_free (f d) ≡ true
    → is_free (g d) ≡ false
    → ((a : ℕ) → a ≢ d → g a ≡ f a)
    → length (occupied g l c) ≡ suc (length (occupied f l c))
unfolding occupied
occupied_more f g zero c d le b x y h = absurd (omega arith)
occupied_more f g (suc l) c d le b x y h = elim (Bool-cases (c == d)) [
  | inl same ↦
      let e : c ≡ d = ground arith in
      let i = occupied_above f g l (suc c) d (omega arith) h in ground arith
  | inr other ↦
      let i = occupied_more f g l (suc c) d (ground arith) (omega arith) x y h in
      let e = h c (ground arith) in ground arith
]

-- ConnectionCount is the number of slots in use.
abbrev pub CountsUse : Server → Type 0
CountsUse s = s.connection_count ≡ length (occupied (slot_states s) max_connections 0)

-- No slot behind the end of the array is written.
abbrev pub InArray : Server → Server → Type 0
InArray s t = (c : ℕ) → max_connections ≤ c → t.store.connections c ≡ s.store.connections c

pub length-occupied : (f : ℕ → State) (l c : ℕ) → length (occupied f l c) ≤ l
unfolding occupied
length-occupied f zero c = omega arith
length-occupied f (suc l) c = let i = length-occupied f l (suc c) in ground arith

-- A connection that was just accepted.
abbrev pub opened : ℕ → Option ℕ → Connection
opened broker socket = record zeroed {
  reference_count = 1;
  socket = socket;
  state = mcs_handshake;
  broker = broker;
  send_lock = some 0;
}

pub init_opened :
    (conn broker : ℕ) (socket : Option ℕ) (s : Store)
    → conn_init none conn broker socket 0 s ≡ some (0, with_conn conn (opened broker socket) s)
unfolding conn_init MfLock.init
init_opened conn broker socket s = simp (put_at, put-put) refl

-- _MFConn_Init leaves the slot in use exactly if its code is 0.
init_any :
    (lock_error : Option ℕ) (conn broker : ℕ) (socket : Option ℕ) (s : Store)
    → (code : ℕ) × (v : Connection) × (conn_init lock_error conn broker socket 0 s
        ≡ some (code, with_conn conn v s))
      × (is_free v.state ≡ not (code == 0))
unfolding conn_init MfLock.init
init_any none conn broker socket s =
    (0, opened broker socket, init_opened conn broker socket s, refl)
init_any (some zero) conn broker socket s =
    (0, record (opened broker socket) { send_lock = none }, simp (put_at, put-put) refl, refl)
init_any (some (suc code)) conn broker socket s =
    let z : (suc code == 0) ≡ false = ground arith in
    (suc code, zeroed, simp (put_at, put-put, z) refl, rw z refl)

-- The states after a slot that was free has been written.
CountsUse-with :
    (s : Server) (conn count : ℕ) (v : Connection) (closed : List ℕ) (errors : List (ErrorType × ℕ))
    → CountsUse s
    → conn < max_connections
    → is_free (s.store.connections conn).state ≡ true
    → count ≡ (if is_free v.state then s.connection_count else suc s.connection_count)
    → CountsUse (record s {
      store = record (with_conn conn v s.store) { closed = closed };
      connection_count = count;
      errors = errors;
    })
CountsUse-with s conn count v closed errors u b free e =
    let f = slot_states s in
    let g : ℕ → State = λ a. (put conn v s.store.connections a).state in
    let at : g conn ≡ v.state =
      ap {A = Connection} (λ r. r.state) (put_at conn v s.store.connections) in
    let off : (a : ℕ) → a ≢ conn → g a ≡ f a =
      λ a h. ap {A = Connection} (λ r. r.state) (put_other conn v s.store.connections a h) in
    elim (Bool-cases (is_free v.state)) [
      | inl x ↦
          let same = occupied_same f g max_connections 0 (λ a. elim (Bool-cases (a == conn)) [
            | inl i ↦ let ac : a ≡ conn = ground arith in rw ac (ap is_free at ∙ x ∙ sym free)
            | inr o ↦ ap is_free (off a (ground arith))
          ]) in
          let k : count ≡ s.connection_count = rw x at e in k ∙ u ∙ sym same
      | inr x ↦
          let more =
            occupied_more f g max_connections 0 conn (omega arith) (omega arith) free
              (ap is_free at ∙ x) off in
          let k : count ≡ suc s.connection_count = rw x at e in k ∙ ap suc u ∙ sym more
    ]

-- From _MFConn_FindFree on, when it finds a slot.
connection_init :
    (broker conn code : ℕ) (lock_error socket : Option ℕ) (v : Connection) (s : Server)
    → find_free (slot_states s) 0 max_connections ≡ some conn
    → conn_init lock_error conn broker socket 0 s.store ≡ some (code, with_conn conn v s.store)
    → is_free v.state ≡ not (code == 0)
    → CountsUse s
    → (t : Server) × (new_connection broker lock_error socket s ≡ some (code, t))
      × CountsUse t
      × InArray s t
unfolding new_connection
connection_init broker conn code lock_error socket v s found init used u =
    let (k, at, below, free, before) =
      subst (λ o. IsFirst (λ s. not (is_free s)) (slot_states s) 0 max_connections 1 o) found
        (find_free-IsFirst (slot_states s) 0 max_connections) in
    let inside : InArray s (record s { store = with_conn conn v s.store }) =
      λ c h. put_other conn v s.store.connections c (omega arith) in
    let free' : is_free (s.store.connections conn).state ≡ true = ground arith in
    elim (Bool-cases (code == 0)) [
      | inl z ↦ (
        record s { store = with_conn conn v s.store; connection_count = suc s.connection_count },
        rw found (rw (◌>>=◌, init) (simp z refl)),
        CountsUse-with s conn (suc s.connection_count) v s.store.closed s.errors u below free'
            (rw (used, z) refl),
        inside,
      )
      | inr z ↦ (
        record s {
          store = record (with_conn conn v s.store) { closed = close_socket socket s.store.closed };
          errors = (bet_memory_allocation, code) ∷ s.errors;
        },
        rw found (rw (◌>>=◌, init) (simp z refl)),
        CountsUse-with s conn s.connection_count v (close_socket socket s.store.closed)
            ((bet_memory_allocation, code) ∷ s.errors) u below free' (rw (used, z) refl),
        inside,
      )
    ]

pub new_connection-CountsUse :
    (broker : ℕ) (lock_error socket : Option ℕ) (s : Server)
    → CountsUse s
    → (ret : ℕ) × (t : Server) × (new_connection broker lock_error socket s ≡ some (ret, t))
      × CountsUse t
      × InArray s t
unfolding new_connection
new_connection-CountsUse broker lock_error socket s u =
    elim (Option-cases (find_free (slot_states s) 0 max_connections)) [
      | inl e ↦ (
        minus_one,
        record s {
          store = record s.store { closed = close_socket socket s.store.closed };
          errors = (bet_too_many_connections, minus_one) ∷ s.errors;
        },
        rw e refl,
        u,
        λ c h. refl,
      )
      | inr (conn, e) ↦
          let (code, v, init, used) = init_any lock_error conn broker socket s.store in
          let (t, run, u', inside) =
            connection_init broker conn code lock_error socket v s e init used u in
          (code, t, run, u', inside)
    ]
