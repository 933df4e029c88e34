-- ===== src/MfBroker/Connections/Clear.antt =====
-- MFConnection_Clear, and the end of a connection, in mfbroker/mfbroker.c.
use mathlib.Core.Path.{subst}
use avtalk.Base.{
  ℕ, suc, ◌+◌, ◌≡◌, refl, sym, ap, ◌∙◌, ◌≢◌, true, none, some, List, [], ◌∷◌, arith, length,
}
use avtalk.Base.Fault.{Cmd, ◌>>=◌, ◌>>◌}
use avtalk.MfMemory.{Ptr, long_dec}
use avtalk.MfLock
use avtalk.MfLock.{Lock}
use avtalk.MfList.Ring.{NotIn}
use avtalk.MfBroker.Slots.{mcs_free}
use avtalk.MfBroker.Connections.{
  Connection, Store, set_conn, on_lock, with_conn, put, put_at, put-put, put_other, close_socket,
  disconnect, clear_loop, clear_with, release, clear,
}
use avtalk.MfBroker.Connections.Teardown.{IsHeld, Queued, AllFree, loop-Freed}

-- MFLock_Enter on the connection's lock.
abbrev pub entered : ℕ → ℕ → Store → Store
entered conn d s = with_conn conn (record (s.connections conn) { send_lock = some d }) s

pub Queued-entered :
    (conn d : ℕ) (ps : List Ptr) (s : Store) → Queued conn ps s → Queued conn ps (entered conn d s)
Queued-entered conn d [] s q = tt
Queued-entered conn d (p ∷ ps) s q = (q.0, q.1, q.2, Queued-entered conn d ps s q.3)

-- The connection has `n` references and an empty queue, whose messages `ps` are freed.
pub record Cleared (conn n : ℕ) (ps : List Ptr) (s t : Store) : Type 0 where
  pub connection :
      t.connections conn
      ≡ record (s.connections conn) { reference_count = n; messages_to_send = [] }
  pub other_connections : (c : ℕ) → c ≢ conn → t.connections c ≡ s.connections c
  pub listed : t.listed ≡ s.listed
  pub closed : t.closed ≡ s.closed
  pub other_blocks : (a : Ptr) → NotIn a ps → t.memory a ≡ s.memory a
  pub freed : AllFree ps t.memory

-- The result of the loop, unlocked and with an empty queue.
abbrev pub emptied : Connection → ℕ → ℕ → ℕ → Store → Store
emptied c n d conn t = record t {
  connections =
      put conn (record c { reference_count = n; messages_to_send = []; send_lock = some d })
        t.connections;
}

pub clear_run :
    (rel : ℕ → Cmd Store (Unit {0})) (conn n d : ℕ) (queue : List Ptr) (s t : Store)
    → (s.connections conn).send_lock ≡ some d
    → (s.connections conn).messages_to_send ≡ queue
    → clear_loop rel queue (entered conn (suc d) s) ≡ some (tt, t)
    → t.connections conn
      ≡ record (s.connections conn) { reference_count = n; send_lock = some (suc d) }
    → clear_with rel conn s ≡ some (tt, emptied (s.connections conn) n d conn t)
unfolding clear_with MfLock.enter MfLock.leave
clear_run rel conn n d queue s t l q run c =
    let v : Connection = record (s.connections conn) { send_lock = some (suc d) } in
    let w : Connection = record (t.connections conn) { messages_to_send = [] } in
    let e1 : MfLock.enter (s.connections conn).send_lock ≡ some (tt, some (suc d)) =
      ap MfLock.enter l in
    let e2 : clear_loop rel (put conn v s.connections conn).messages_to_send (with_conn conn v s)
        ≡ some (tt, t) =
      subst (λ l. clear_loop rel l (with_conn conn v s) ≡ some (tt, t))
        (sym (ap (λ r. r.messages_to_send) (put_at conn v s.connections) ∙ q)) run in
    let e3 : MfLock.leave (put conn w t.connections conn).send_lock ≡ some (tt, some d) =
      rw (put_at conn w t.connections, c) refl in
    rw (◌>>=◌, e1, e2) (rw (◌>>◌, ◌>>=◌, on_lock, e3) (simp (put_at, put-put, c) refl))

pub entered_at :
    (conn d : ℕ) (s : Store)
    → (entered conn d s).connections conn ≡ record (s.connections conn) { send_lock = some d }
entered_at conn d s = put_at conn _ s.connections

pub clear-Cleared :
    (depth conn n : ℕ) (queue : List Ptr) (s : Store)
    → IsHeld conn (suc n) queue s
    → (t : Store) × (clear (suc depth) conn s ≡ some (tt, t)) × Cleared conn (suc n) queue s t
unfolding clear
clear-Cleared depth conn n queue s h =
    let c1 = entered_at conn 1 s in
    let count : ((entered conn 1 s).connections conn).reference_count ≡ suc n + length queue =
      ap (λ r. r.reference_count) c1 ∙ h.count in
    let range = h.range in
    let (t, run, f) =
      loop-Freed depth conn n queue (entered conn 1 s) count (omega arith) h.distinct
        (Queued-entered conn 1 queue s h.queued) in
    (
      emptied (s.connections conn) (suc n) 0 conn t,
      clear_run (release (suc depth)) conn (suc n) 0 queue s t h.lock_eq h.queue_eq run (
          f.connection
          ∙ ap {A = Connection} {B = Connection} (λ r. record r { reference_count = suc n }) c1),
      record {
        connection =
            put_at conn _ _
            ∙ ap {A = Lock}
                (λ l. record (s.connections conn) {
                  reference_count = suc n;
                  messages_to_send = [];
                  send_lock = l;
                })
                (sym h.lock_eq);
        other_connections =
            λ c d. put_other conn _ _ c d ∙ f.other_connections c d ∙ put_other conn _ _ c d;
        listed = f.listed;
        closed = f.closed;
        other_blocks = f.other_blocks;
        freed = f.freed;
      },
    )

pub disconnect_lem :
    (conn : ℕ) (s : Store)
    → disconnect conn s
      ≡ some (
        tt,
        with_conn conn
            (record (s.connections conn) { socket = none; disconnected = true })
            (record s { closed = close_socket (s.connections conn).socket s.closed }),
      )
unfolding disconnect
disconnect_lem conn s = simp (put_at, put-put) refl

-- The connection after its last reference, and the socket that it closed.
abbrev pub ended : Connection → Connection
ended c = record c { socket = none; state = mcs_free; send_lock = none; disconnected = true }

-- What MFConnection_Release does at count 0, with nothing queued.
end_lem :
    (rel : ℕ → Cmd Store (Unit {0})) (conn : ℕ) (s : Store)
    → (s.connections conn).messages_to_send ≡ []
    → (s.connections conn).send_lock ≡ some 0
    → (do
      disconnect conn
      clear_with rel conn
      on_lock conn MfLock.finit
      set_conn conn (λ c. record c { state = mcs_free }))
        s
      ≡ some (
        tt,
        with_conn conn
            (record (ended (s.connections conn)) { messages_to_send = [] })
            (record s { closed = close_socket (s.connections conn).socket s.closed }),
      )
unfolding clear_loop MfLock.finit
end_lem rel conn s m l =
    let v = s.connections conn in
    let v2 : Connection = record v { socket = none; disconnected = true } in
    let v3 : Connection = record v2 { messages_to_send = []; send_lock = some 0 } in
    let s0 : Store = record s { closed = close_socket v.socket s.closed } in
    let s2 : Store = with_conn conn v2 s0 in
    let c2 : s2.connections conn ≡ v2 = put_at conn v2 s0.connections in
    let k : clear_with rel conn s2
        ≡ some (tt, emptied (s2.connections conn) v.reference_count 0 conn (entered conn 1 s2)) =
      clear_run rel conn v.reference_count 0 [] s2 (entered conn 1 s2)
        (ap (λ r. r.send_lock) c2 ∙ l) (ap (λ r. r.messages_to_send) c2 ∙ m) refl
        (entered_at conn 1 s2
          ∙ ap {A = ℕ} {B = Connection}
              (λ n. record (s2.connections conn) { reference_count = n; send_lock = some 1 })
              (ap (λ r. r.reference_count) c2)) in
    let k3 : clear_with rel conn s2 ≡ some (tt, with_conn conn v3 s0) =
      k ∙ simp (put_at, put-put) refl in
    let e : MfLock.finit (put conn v3 s0.connections conn).send_lock ≡ some (tt, none) =
      rw (put_at conn v3 s0.connections) refl in
    rw (◌>>=◌, disconnect_lem conn s, k3, e) (simp (put_at, put-put) refl)

-- The last reference of a connection with an empty queue.
pub release-ended :
    (depth conn : ℕ) (s : Store)
    → (s.connections conn).reference_count ≡ 1
    → (s.connections conn).messages_to_send ≡ []
    → (s.connections conn).send_lock ≡ some 0
    → (t : Store) × (release (suc depth) conn s ≡ some (tt, t))
      × (t.connections conn
          ≡ record (ended (s.connections conn)) { reference_count = 0; messages_to_send = [] })
      × ((c : ℕ) → c ≢ conn → t.connections c ≡ s.connections c)
      × (t.memory ≡ s.memory)
      × (t.closed ≡ close_socket (s.connections conn).socket s.closed)
      × (t.listed ≡ s.listed)
unfolding release
release-ended depth conn s c m l =
    let v1 : Connection = record (s.connections conn) { reference_count = 0 } in
    let s1 : Store = with_conn conn v1 s in
    let c1 : s1.connections conn ≡ v1 = put_at conn v1 s.connections in
    let zero_left : long_dec (s.connections conn).reference_count ≡ 0 = rw c refl in
    let e =
      end_lem (release depth) conn s1 (ap (λ r. r.messages_to_send) c1 ∙ m)
        (ap (λ r. r.send_lock) c1 ∙ l) in
    let out = close_socket (s.connections conn).socket s.closed in
    let t : Store =
      with_conn conn (record (ended v1) { messages_to_send = [] }) (record s1 { closed = out }) in
    (
      t,
      rw zero_left (e ∙ simp put_at refl),
      put_at conn _ _,
      λ c h. put_other conn _ _ c h ∙ put_other conn _ _ c h,
      refl,
      refl,
      refl,
    )

-- For a connection with one reference of its owner and one for each queued message,
-- MFConnection_Clear followed by MFConnection_Release, as in MFBroker_Free, touches no freed block,
-- frees every queued message, closes the socket, deletes the lock, makes the slot free with count 0
-- and an empty queue, and changes no other connection and no other block.
pub clear-release :
    (depth conn : ℕ) (queue : List Ptr) (s : Store)
    → IsHeld conn 1 queue s
    → (t : Store) × ((do clear (suc depth) conn; release (suc depth) conn) s ≡ some (tt, t))
      × (t.connections conn
          ≡ record (ended (s.connections conn)) { reference_count = 0; messages_to_send = [] })
      × ((c : ℕ) → c ≢ conn → t.connections c ≡ s.connections c)
      × ((a : Ptr) → NotIn a queue → t.memory a ≡ s.memory a)
      × AllFree queue t.memory
      × (t.closed ≡ close_socket (s.connections conn).socket s.closed)
      × (t.listed ≡ s.listed)
clear-release depth conn queue s h =
    let (t, run, k) = clear-Cleared depth conn 0 queue s h in
    let c = k.connection in
    let (u, run', c', others, mem, out, listed) =
      release-ended depth conn t (ap (λ r. r.reference_count) c) (ap (λ r. r.messages_to_send) c)
        (ap (λ r. r.send_lock) c ∙ h.lock_eq) in
    (
      u,
      rw (◌>>=◌, run) run',
      c'
          ∙ ap {A = Connection} {B = Connection}
              (λ r. record (ended r) { reference_count = 0; messages_to_send = [] }) c,
      λ x d. others x d ∙ k.other_connections x d,
      λ a d. ap (λ m. m a) mem ∙ k.other_blocks a d,
      rw mem k.freed,
      out
          ∙ ap (λ o. close_socket o t.closed) (ap (λ r. r.socket) c)
          ∙ ap (close_socket (s.connections conn).socket) k.closed,
      listed ∙ k.listed,
    )
