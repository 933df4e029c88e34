-- ===== src/MfBroker/Connections/Faults.antt =====
-- MFConnection_Clear of mfbroker/mfbroker.c on a connection whose owner has already released it.
use mathlib.Core.Path.{subst}
use avtalk.Base.{
  ℕ, zero, suc, ◌+◌, ◌-◌, ◌^◌, ◌<◌, ◌≡◌, refl, sym, ap, ◌∙◌, ◌≢◌, true, none, some, List, [], ◌∷◌,
  arith, length, inl, inr, ◌⊎◌, if◌then◌else◌, ◌==◌, eq→==, false,
}
use avtalk.Base.Fault.{Cmd, ◌>>=◌, ◌>>◌}
use avtalk.MfMemory.{Ptr, long_dec, ref_mem_release}
use avtalk.MfLock
use avtalk.MfLock.{Lock}
use avtalk.MfList.Ring.{Distinct}
use avtalk.MfBroker.Slots.{mcs_free}
use avtalk.MfBroker.Connections.{
  Connection, Listed, Store, with_conn, put, put_at, put-put, close_socket, on_lock, set_conn,
  disconnect, clear_loop, clear_with, release, clear,
}
use avtalk.MfBroker.Connections.Teardown.{Queued, round, Queued-Freed, IsHeld}
use avtalk.MfBroker.Connections.Clear.{
  entered, entered_at, Queued-entered, disconnect_lem, clear_run, emptied,
}

clear_with_fault :
    (rel : ℕ → Cmd Store (Unit {0})) (conn d : ℕ) (queue : List Ptr) (s : Store)
    → (s.connections conn).send_lock ≡ some d
    → (s.connections conn).messages_to_send ≡ queue
    → clear_loop rel queue (entered conn (suc d) s) ≡ none
    → clear_with rel conn s ≡ none
unfolding clear_with MfLock.enter
clear_with_fault rel conn d queue s l q run =
    let v : Connection = record (s.connections conn) { send_lock = some (suc d) } in
    let e1 : MfLock.enter (s.connections conn).send_lock ≡ some (tt, some (suc d)) =
      ap MfLock.enter l in
    let e2 : clear_loop rel (put conn v s.connections conn).messages_to_send (with_conn conn v s)
        ≡ none =
      subst (λ l. clear_loop rel l (with_conn conn v s) ≡ none)
        (sym (ap (λ r. r.messages_to_send) (put_at conn v s.connections) ∙ q)) run in
    rw (◌>>=◌, e1, e2) refl

-- The state in which MFConnection_Release enters MFConnection_Clear.
abbrev dropped : ℕ → Store → Store
dropped conn s =
    with_conn conn
      (record (s.connections conn) { reference_count = 0; socket = none; disconnected = true })
      (record s { closed = close_socket (s.connections conn).socket s.closed })

drop_first :
    (rel : ℕ → Cmd Store (Unit {0})) (conn : ℕ) (s : Store)
    → (do
      disconnect conn
      clear_with rel conn
      on_lock conn MfLock.finit
      set_conn conn (λ c. record c { state = mcs_free }))
        (with_conn conn (record (s.connections conn) { reference_count = 0 }) s)
      ≡ (do
        clear_with rel conn
        on_lock conn MfLock.finit
        set_conn conn (λ c. record c { state = mcs_free }))
          (dropped conn s)
drop_first rel conn s =
    let v1 : Connection = record (s.connections conn) { reference_count = 0 } in
    let e : disconnect conn (with_conn conn v1 s) ≡ some (tt, dropped conn s) =
      disconnect_lem conn (with_conn conn v1 s) ∙ simp (put_at, put-put) refl in
    rw (◌>>=◌, e) refl

-- The nested MFConnection_Clear faults, or the section is deleted while it is held.
release_fault :
    (depth conn : ℕ) (s : Store)
    → (s.connections conn).reference_count ≡ 1
    → (do
      clear_with (release depth) conn
      on_lock conn MfLock.finit
      set_conn conn (λ c. record c { state = mcs_free }))
        (dropped conn s)
      ≡ none
    → release (suc depth) conn s ≡ none
unfolding release
release_fault depth conn s c h =
    let zero_left : long_dec (s.connections conn).reference_count ≡ 0 = rw c refl in
    rw zero_left (drop_first (release depth) conn s ∙ h)

dropped_at :
    (conn : ℕ) (s : Store)
    → (dropped conn s).connections conn
      ≡ record (s.connections conn) { reference_count = 0; socket = none; disconnected = true }
dropped_at conn s = put_at conn _ _

-- The last round, once the first message of the queue is freed: the nested loop reads it again.
release_again :
    (depth conn d first : ℕ) (rest : List Ptr) (s : Store)
    → (s.connections conn).reference_count ≡ 1
    → (s.connections conn).messages_to_send ≡ first ∷ rest
    → (s.connections conn).send_lock ≡ some d
    → s.memory first ≡ none
    → release (suc depth) conn s ≡ none
unfolding clear_loop
release_again depth conn d first rest s c m l gone =
    let at = dropped_at conn s in
    let e =
      clear_with_fault (release depth) conn d (first ∷ rest) (dropped conn s)
        (ap (λ r. r.send_lock) at ∙ l) (ap (λ r. r.messages_to_send) at ∙ m)
        (rw (◌>>=◌, gone) refl) in
    release_fault depth conn s c (rw (◌>>=◌, e) refl)

loop_fault :
    (depth conn d first : ℕ) (rest : List Ptr) (p : ℕ) (ps : List Ptr) (s : Store)
    → (s.connections conn).reference_count ≡ suc (length ps)
    → suc (length ps) < 2 ^ 32
    → (s.connections conn).messages_to_send ≡ first ∷ rest
    → (s.connections conn).send_lock ≡ some d
    → s.memory first ≡ none
    → Distinct (p ∷ ps)
    → Queued conn (p ∷ ps) s
    → clear_loop (release (suc depth)) (p ∷ ps) s ≡ none
unfolding clear_loop
loop_fault depth conn d first rest p [] s c b m l gone dis q =
    let (live, (k, mem), own, more) = q in
    rw (mem, own) (rw (◌>>=◌, release_again depth conn d first rest s c m l gone) refl)
loop_fault depth conn d first rest p (p' ∷ ps) s c b m l gone dis q =
    let (live, mem, own, more) = q in
    let (t, step, f) = round depth conn (length ps) p s c (omega arith) live mem own in
    let conn' = f.connection in
    let other : first ≢ p = λ e. let (k, some_at) = mem in ground arith in
    step (p' ∷ ps)
    ∙ loop_fault depth conn d first rest p' ps t (ap (λ r. r.reference_count) conn') (omega arith)
        (ap (λ r. r.messages_to_send) conn' ∙ m) (ap (λ r. r.send_lock) conn' ∙ l)
        (f.other_blocks first (other, tt) ∙ gone) dis.1
        (Queued-Freed conn (suc (length ps)) p (p' ∷ ps) s t f dis.0 more)

-- A single queued message: the nested call frees it, and then deletes the section that is still
-- held.
nested_once :
    (depth conn p : ℕ) (s : Store)
    → (s.connections conn).reference_count ≡ 0
    → Queued conn (p ∷ []) s
    → (clear_loop (release depth) (p ∷ []) s ≡ none)
      ⊎ ((t : Store) × (clear_loop (release depth) (p ∷ []) s ≡ some (tt, t))
          × (t.connections conn ≡ record (s.connections conn) { reference_count = 2 ^ 32 - 1 }))
unfolding clear_loop release ref_mem_release put
nested_once zero conn p s c q = let (live, (k, mem), own, more) = q in inl (ground arith)
nested_once (suc depth) conn p s c q =
    let (live, (k, mem), own, more) = q in
    let t : Store = record s {
      memory = λ a. if a == p then none else s.memory a;
      connections =
          put conn (record (s.connections conn) { reference_count = 2 ^ 32 - 1 }) s.connections;
    } in
    let same = eq→== conn conn refl in
    let live' : (p == 0) ≡ false = ground arith in inr (t, ground arith, ground arith)

release_single :
    (depth conn p d : ℕ) (s : Store)
    → (s.connections conn).reference_count ≡ 1
    → (s.connections conn).send_lock ≡ some (suc d)
    → (s.connections conn).messages_to_send ≡ p ∷ []
    → Queued conn (p ∷ []) s
    → release (suc depth) conn s ≡ none
unfolding MfLock.finit
release_single depth conn p d s c l m q =
    let s2 = entered conn (suc (suc d)) (dropped conn s) in
    let at = dropped_at conn s in
    let at2 = entered_at conn (suc (suc d)) (dropped conn s) in
    let l2 = ap (λ r. r.send_lock) at ∙ l in
    let m2 = ap (λ r. r.messages_to_send) at ∙ m in
    elim (nested_once depth conn p s2
      (ap (λ r. r.reference_count) at2 ∙ ap (λ r. r.reference_count) at) q) [
        | inl e ↦ release_fault depth conn s c (
            rw
              (
                ◌>>=◌,
                clear_with_fault (release depth) conn (suc d) (p ∷ []) (dropped conn s) l2 m2 e,
              )
              refl)
        | inr (t, e, c3) ↦
            let k =
              clear_run (release depth) conn (2 ^ 32 - 1) (suc d) (p ∷ []) (dropped conn s) t l2 m2
                e
                (c3
                  ∙ ap {A = Connection} {B = Connection}
                      (λ r. record r { reference_count = 2 ^ 32 - 1 }) at2) in
            let held : MfLock.finit
                  ((emptied ((dropped conn s).connections conn) (2 ^ 32 - 1) (suc d) conn
                      t).connections
                    conn).send_lock
                ≡ none =
              ap MfLock.finit (ap {A = Connection} (λ r. r.send_lock) (put_at conn _ _)) in
            release_fault depth conn s c (rw (◌>>=◌, k) (rw (◌>>◌, ◌>>=◌, on_lock, held) refl))
      ]

too_deep : (conn : ℕ) (s : Store) → release 0 conn s ≡ none
unfolding release
too_deep conn s = refl

-- The loop of MFConnection_Clear when no reference but those of the messages is left.
over_released :
    (depth conn p : ℕ) (ps : List Ptr) (s : Store)
    → (s.connections conn).reference_count ≡ suc (length ps)
    → suc (length ps) < 2 ^ 32
    → (s.connections conn).messages_to_send ≡ p ∷ ps
    → (s.connections conn).send_lock ≡ some 1
    → Distinct (p ∷ ps)
    → Queued conn (p ∷ ps) s
    → clear_loop (release depth) (p ∷ ps) s ≡ none
unfolding clear_loop
over_released zero conn p ps s c b m l dis q =
    let (live, (k, mem), own, more) = q in rw (mem, own) (rw (◌>>=◌, too_deep conn s) refl)
over_released (suc depth) conn p [] s c b m l dis q =
    let (live, (k, mem), own, more) = q in
    rw (mem, own) (rw (◌>>=◌, release_single depth conn p 0 s c l m q) refl)
over_released (suc depth) conn p (p' ∷ ps) s c b m l dis q =
    let (live, mem, own, more) = q in
    let (t, step, f) = round depth conn (length ps) p s c (omega arith) live mem own in
    let conn' = f.connection in
    step (p' ∷ ps)
    ∙ loop_fault depth conn 1 p (p' ∷ ps) p' ps t (ap (λ r. r.reference_count) conn') (omega arith)
        (ap (λ r. r.messages_to_send) conn' ∙ m) (ap (λ r. r.send_lock) conn' ∙ l) f.freed.0 dis.1
        (Queued-Freed conn (suc (length ps)) p (p' ∷ ps) s t f dis.0 more)

pub clear-over_released :
    (depth conn p : ℕ) (ps : List Ptr) (s : Store)
    → IsHeld conn 0 (p ∷ ps) s
    → clear depth conn s ≡ none
unfolding clear
clear-over_released depth conn p ps s h =
    let at = entered_at conn 1 s in
    let count = h.count in
    let range = h.range in
    clear_with_fault (release depth) conn 0 (p ∷ ps) s h.lock_eq h.queue_eq (
      over_released depth conn p ps (entered conn 1 s)
        (ap (λ r. r.reference_count) at ∙ (omega arith)) (omega arith)
        (ap (λ r. r.messages_to_send) at ∙ h.queue_eq) (ap (λ r. r.send_lock) at) h.distinct
        (Queued-entered conn 1 (p ∷ ps) s h.queued))

Queued-same :
    (conn : ℕ) (ps : List Ptr) (s t : Store)
    → t.memory ≡ s.memory
    → t.listed ≡ s.listed
    → Queued conn ps s
    → Queued conn ps t
Queued-same conn [] s t m l q = tt
Queued-same conn (p ∷ ps) s t m l (live, (k, mem), own, more) = (
  live,
  (k, ap (λ g. g p) m ∙ mem),
  ap {A = Ptr → Listed} (λ g. (g p).connection) l ∙ own,
  Queued-same conn ps s t m l more,
)

release_shared :
    (depth conn n : ℕ) (s : Store)
    → (s.connections conn).reference_count ≡ suc (suc n)
    → n + 2 < 2 ^ 32
    → release (suc depth) conn s
      ≡ some (tt, with_conn conn (record (s.connections conn) { reference_count = suc n }) s)
unfolding release
release_shared depth conn n s c b =
    let e : long_dec (s.connections conn).reference_count ≡ suc n = rw c (omega arith) in
    let more : (suc n == 0) ≡ false = ground arith in rw e (rw more refl)

-- For a connection with one reference of its owner and one for each of the queued messages, of
-- which there is at least one: MFConnection_Disconnect and MFConnection_Release, as on POLLHUP,
-- followed by the MFConnection_Clear of MFBroker_Free do not return normally, whatever the nesting
-- allowed: a message that was freed is read, or the lock is deleted while it is held.
pub hang_up-clear :
    (depth depth' conn p : ℕ) (ps : List Ptr) (s : Store)
    → IsHeld conn 1 (p ∷ ps) s
    → (do disconnect conn; release (suc depth) conn; clear depth' conn) s ≡ none
hang_up-clear depth depth' conn p ps s h =
    let v1 : Connection = record (s.connections conn) { socket = none; disconnected = true } in
    let s0 : Store = record s { closed = close_socket (s.connections conn).socket s.closed } in
    let s1 : Store = with_conn conn v1 s0 in
    let at : s1.connections conn ≡ v1 = put_at conn v1 s0.connections in
    let count = h.count in
    let range = h.range in
    let v2 : Connection = record v1 { reference_count = suc (length ps) } in
    let s2 : Store = with_conn conn v2 s0 in
    let at2 : s2.connections conn ≡ v2 = put_at conn v2 s0.connections in
    let drop : release (suc depth) conn s1 ≡ some (tt, s2) =
      release_shared depth conn (length ps) s1 (ap (λ r. r.reference_count) at ∙ (omega arith))
        (omega arith)
      ∙ simp (put_at, put-put) refl in
    let held : IsHeld conn 0 (p ∷ ps) s2 = record {
      count = ap (λ r. r.reference_count) at2 ∙ (omega arith);
      range = omega arith;
      queue_eq = ap (λ r. r.messages_to_send) at2 ∙ h.queue_eq;
      lock_eq = ap (λ r. r.send_lock) at2 ∙ h.lock_eq;
      distinct = h.distinct;
      queued = Queued-same conn (p ∷ ps) s s2 refl refl h.queued;
    } in
    rw (◌>>=◌, disconnect_lem conn s, drop) (clear-over_released depth' conn p ps s2 held)
