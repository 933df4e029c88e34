-- ===== src/MfBroker/Connections/Send.antt =====
-- MFConnection_SendAsync of mfbroker/mfbroker.c: a message is queued behind the others.

use avtalk.Base.{
  ℕ, ◌+◌, ◌-◌, ◌^◌, ◌<◌, ◌≡◌, refl, sym, ap, ◌∙◌, ◌≢◌, some, List, [], ◌∷◌, ◌++◌, arith, length,
  length-append, eq→==,
}
use avtalk.Base.Fault.{◌>>=◌, ◌>>◌}
use avtalk.MfMemory.{Ptr, null, write, long_inc, size_add, ref_mem_alloc}
use avtalk.MfLock
use avtalk.MfList.Ring.{NotIn, Distinct-snoc}
use avtalk.MfMessages.{Message}
use avtalk.MfBroker.Connections.{
  Connection, Listed, Store, put, put_at, put-put, put_other, on_lock, add_ref, send_async,
}
use avtalk.MfBroker.Connections.Teardown.{Queued, IsHeld}

-- What SendAsync leaves: the message at `p`, in a block of its own, queued last.
abbrev sent : ℕ → Ptr → Message → Store → Store
sent conn p m s = record s {
  memory =
      write p (some (record { refs = 1; size = size_add (size_add 32 m.message_size) 0x10 }))
        s.memory;
  listed = put p (record { connection = conn; original_flags = m.flags; message = m }) s.listed;
  connections =
      put conn
        (record (s.connections conn) {
          reference_count = long_inc (s.connections conn).reference_count;
          messages_to_send = (s.connections conn).messages_to_send ++ p ∷ [];
        })
        s.connections;
}

send_async-sent :
    (conn p : ℕ) (m : Message) (s : Store)
    → (s.connections conn).send_lock ≡ some 0
    → send_async (some p) conn m s ≡ some (0, sent conn p m s)
unfolding send_async add_ref ref_mem_alloc MfLock.enter MfLock.leave
send_async-sent conn p m s l =
    let v : Connection = record (s.connections conn) {
      reference_count = long_inc (s.connections conn).reference_count;
    } in
    let w : Connection = record v {
      messages_to_send = v.messages_to_send ++ p ∷ [];
      send_lock = some 1;
    } in
    let e1 : MfLock.enter (put conn v s.connections conn).send_lock ≡ some (tt, some 1) =
      ap MfLock.enter (ap {A = Connection} (λ r. r.send_lock) (put_at conn v s.connections) ∙ l) in
    let e2 : MfLock.leave (put conn w s.connections conn).send_lock ≡ some (tt, some 0) =
      ap MfLock.leave (ap {A = Connection} (λ r. r.send_lock) (put_at conn w s.connections)) in
    rw (◌>>=◌, on_lock, e1)
      (simp (put_at, put-put) (rw (◌>>◌, ◌>>=◌, on_lock, e2) (simp (put_at, put-put, l) refl)))

Queued-snoc :
    (conn p : ℕ) (m : Message) (ps : List Ptr) (s : Store)
    → p ≢ null
    → NotIn p ps
    → Queued conn ps s
    → Queued conn (ps ++ p ∷ []) (sent conn p m s)
Queued-snoc conn p m [] s live d q = (
  live,
  (size_add (size_add 32 m.message_size) 0x10, let same = eq→== p p refl in ground arith),
  ap {A = Listed} (λ r. r.connection) (put_at p _ s.listed),
  tt,
)
Queued-snoc conn p m (x ∷ ps) s live d (live', (k, mem), own, more) =
    let other : x ≢ p = λ e. d.0 (sym e) in
    (
      live',
      (k, ground arith),
      ap {A = Listed} (λ r. r.connection) (put_other p _ s.listed x other) ∙ own,
      Queued-snoc conn p m ps s live d.1 more,
    )

-- If every queued message of a connection has its own block and holds one reference, this is so
-- after MFConnection_SendAsync, which returns 0, queues the message last with its original flags,
-- and changes no other connection and no other block, provided that the counts stay below 2 ^ 32 -
-- 1.
pub send_async-IsHeld :
    (conn owners p : ℕ) (queue : List Ptr) (m : Message) (s : Store)
    → IsHeld conn owners queue s
    → p ≢ null
    → NotIn p queue
    → owners + length queue < 2 ^ 32 - 2
    → (t : Store) × (send_async (some p) conn m s ≡ some (0, t))
      × IsHeld conn owners (queue ++ p ∷ []) t
      × (t.listed p ≡ record { connection = conn; original_flags = m.flags; message = m })
      × ((c : ℕ) → c ≢ conn → t.connections c ≡ s.connections c)
      × ((a : Ptr) → a ≢ p → t.memory a ≡ s.memory a)
send_async-IsHeld conn owners p queue m s h live d b =
    let t = sent conn p m s in
    let at : t.connections conn ≡ record (s.connections conn) {
      reference_count = long_inc (s.connections conn).reference_count;
      messages_to_send = (s.connections conn).messages_to_send ++ p ∷ [];
    } =
      put_at conn _ s.connections in
    let count = h.count in
    let n : length (queue ++ p ∷ []) ≡ length queue + 1 = length-append queue (p ∷ []) in
    let more : long_inc (s.connections conn).reference_count ≡ owners + length (queue ++ p ∷ []) =
      omega arith in
    (
      t,
      send_async-sent conn p m s h.lock_eq,
      record {
        count = ap (λ r. r.reference_count) at ∙ more;
        range = omega arith;
        queue_eq = ap (λ r. r.messages_to_send) at ∙ ap (λ q. q ++ p ∷ []) h.queue_eq;
        lock_eq = ap (λ r. r.send_lock) at ∙ h.lock_eq;
        distinct = Distinct-snoc queue p h.distinct d;
        queued = Queued-snoc conn p m queue s live d h.queued;
      },
      put_at p _ s.listed,
      λ c o. put_other conn _ s.connections c o,
      λ a o. ground arith,
    )
