-- ===== src/MfBroker/Worker/Stalled.antt =====
-- The loop of _MFBrokerThreadRoutine in mfbroker/mfbroker.c behind a failure.
use avtalk.Base.{
  ℕ, suc, zero, ◌+◌, ◌-◌, ltb, ◌≡◌, refl, sym, ap, ◌∙◌, ◌≢◌, Bool, true, false, Option, none, some,
  List, [], ◌∷◌, arith, length, ◌==◌, ne→==, if◌then◌else◌, Bool-cases, ==_iff, inl, inr,
  Option-cases,
}
use avtalk.Base.Fault.{◌>>=◌}
use avtalk.MfLock
use avtalk.MfBroker.Slots
use avtalk.MfBroker.Slots.{State, is_free, search, first, next, poll_fill, max_connections}
use avtalk.MfBroker.Connections.{Store, Connection, on_lock, with_conn, put, put-put, put_at}
use avtalk.MfBroker.SetUp.{Mode}
use avtalk.MfBroker.Worker.Round.{
  Loop, Revents, Setting, Answers, PollResult, polled, on_store, deliver,
}
use avtalk.MfBroker.Worker.Serve.{send_loop, send, serve}
use avtalk.MfBroker.Worker.Rounds.{
  Next, goes_on, stops, finish, has_array, slot_states, first_of, after_poll, serve_all, round, run,
}
use avtalk.MfBroker.Worker.Delivery.{polled_by, served_round}

-- Nothing to read, no error and no hang-up is reported for a connection.
pub record IsQuiet (r : Revents) : Type 0 where
  pub no_error : r.poll_err ≡ false
  pub no_input : r.poll_in ≡ false
  pub no_hang_up : r.poll_hup ≡ false

abbrev pub AllQuiet : List Revents → Type 0
AllQuiet [] = Unit
AllQuiet (r ∷ rs) = IsQuiet r × AllQuiet rs

-- The locks of the connections in use are set up.
abbrev pub HasLocks : Store → Type 0
HasLocks s =
    (c : ℕ)
    → is_free (s.connections c).state ≡ false
    → (k : ℕ) × ((s.connections c).send_lock ≡ some k)

-- A connection that `_MFConn_First` or `_MFConn_Next` gives is in use.
abbrev InUse : {S : Type 0} → Loop S → Option ℕ → Type 0
InUse w none = Unit
InUse w (some c) = is_free (w.store.connections c).state ≡ false

search_stops :
    (skip : State → Bool) (states : ℕ → State) (fuel start current max step c : ℕ)
    → search skip states fuel start current max step ≡ some c
    → skip (states c) ≡ false
unfolding search
search_stops skip states zero start current max step c e = absurd (ground arith)
search_stops skip states (suc fuel) start current max step c e =
    elim (Bool-cases (ltb (current - start) max)) [
      | inr out ↦ absurd (ground arith)
      | inl i ↦ elim (Bool-cases (skip (states current))) [
        | inr stop ↦ (let same : current ≡ c = ground arith in rw (← same) stop)
        | inl go ↦ search_stops skip states fuel start (current + step) max step c (ground arith)
      ]
    ]

next-InUse :
    {S : Type 0} (w : Loop S) (start current max step : ℕ)
    → InUse w (next (slot_states w) start current max step)
unfolding next
next-InUse w start current max step =
    let states = slot_states w in
    elim (Option-cases (search is_free states (suc max) start current max step)) [
      | inl e ↦ rw e tt
      | inr (c, e) ↦ rw e (search_stops is_free states (suc max) start current max step c e)
    ]

-- The code is not 0, the poll array fits the connections, and no received message waits.
pub record IsStalled {S : Type 0} (g : Setting S) (w : Loop S) : Type 0 where
  pub fuel : (n : ℕ) × (g.fuel ≡ suc n)
  pub code : w.ret ≢ 0
  pub counts : w.fd_count ≡ w.connection_count
  pub array : has_array w ≡ true
  pub polled : (cs : List ℕ) × (polled_by g w ≡ some cs)
  pub locks : HasLocks w.store
  pub received : w.received ≡ []

put_same : {A : Type 0} (i : ℕ) (f : ℕ → A) (v : A) → v ≡ f i → (a : ℕ) → put i v f a ≡ f a
unfolding put
put_same i f v e a = elim (Bool-cases (a == i)) [
  | inl here ↦ rw here (e ∙ ap f (sym ((==_iff a i).0 here)))
  | inr other ↦ rw other refl
]

module _ {S : Type 0} where
  leave_back :
      (conn k : ℕ) (w : Loop S)
      → (w.store.connections conn).send_lock ≡ some k
      → on_store (on_lock conn MfLock.leave) (record w {
        store =
            with_conn conn (record (w.store.connections conn) { send_lock = some (suc k) }) w.store;
      })
        ≡ some (tt, w)
  unfolding MfLock.leave
  leave_back conn k w l =
      let c = w.store.connections conn in
      let entered : Connection = record c { send_lock = some (suc k) } in
      let back : Connection = record c { send_lock = some k } in
      let same : back ≡ c =
        ap {A = Option ℕ} {B = Connection} (λ s. record c { send_lock = s }) (sym l) in
      let conns : put conn back (put conn entered w.store.connections) ≡ w.store.connections =
        put-put conn back entered w.store.connections
        ∙ (λ i x. put_same conn w.store.connections back same x i) in
      let s : Store = with_conn conn entered w.store in
      let left : Connection → Option (Unit {0} × Store) = λ d. elim (MfLock.leave d.send_lock) [
        | none ↦ none
        | some (u, l) ↦ some (u, with_conn conn (record d { send_lock = l }) s)
      ] in
      ap {A = Connection} {B = Option (Unit {0} × Loop S)}
        (λ d. elim (left d) [ none ↦ none | some (u, t) ↦ some (u, record w { store = t }) ])
        (put_at conn entered w.store.connections)
      ∙ ap {A = ℕ → Connection} {B = Option (Unit {0} × Loop S)}
          (λ f. some (tt, record w { store = record w.store { connections = f } })) conns

module _ {S : Type 0} (g : Setting S) (a : Answers) where
  send_stalled :
      (conn fuel : ℕ) (w : Loop S)
      → g.fuel ≡ suc fuel
      → w.ret ≢ 0
      → InUse w (some conn)
      → HasLocks w.store
      → send g a conn w ≡ some (tt, w)
  unfolding send send_loop MfLock.enter
  send_stalled conn fuel w f h used locks =
      let (k, l) = locks conn used in
      rw (◌>>=◌, l, ◌>>=◌, f, ne→== w.ret 0 h) (leave_back conn k w l)

  serve_stalled :
      (conn fuel : ℕ) (r : Revents) (w : Loop S)
      → IsQuiet r
      → g.fuel ≡ suc fuel
      → w.ret ≢ 0
      → InUse w (some conn)
      → HasLocks w.store
      → serve g a r conn w ≡ some (tt, w)
  unfolding serve
  serve_stalled conn fuel r w q f h used locks =
      rw (q.no_error, q.no_input, ◌>>=◌, q.no_hang_up)
        (elim (Bool-cases r.poll_out) [
          | inl out ↦ rw out (send_stalled conn fuel w f h used locks)
          | inr quiet ↦ rw quiet refl
        ])

  serve_all_stalled :
      (fuel : ℕ) (rs : List Revents) (conn : Option ℕ) (cs : List ℕ) (w : Loop S)
      → AllQuiet rs
      → poll_fill (slot_states w) g.thread_count (length rs) conn ≡ some cs
      → g.fuel ≡ suc fuel
      → w.ret ≢ 0
      → InUse w conn
      → HasLocks w.store
      → serve_all g a rs conn w ≡ some (tt, w)
  unfolding serve_all poll_fill
  serve_all_stalled fuel [] conn cs w q p f h used locks = refl
  serve_all_stalled fuel (r ∷ rs) none cs w q p f h used locks = absurd (ground arith)
  serve_all_stalled fuel (r ∷ rs) (some c) cs w (q, qs) p f h used locks =
      let after = next (slot_states w) 0 (c + 1) max_connections g.thread_count in
      elim (Option-cases (poll_fill (slot_states w) g.thread_count (length rs) after)) [
        | inl e ↦ (let p' = rw e at p in absurd (ground arith))
        | inr (ds, e) ↦
            rw (◌>>=◌, serve_stalled c fuel r w q f h used locks, ◌>>=◌)
              (serve_all_stalled fuel rs after ds w qs e f h
                (next-InUse w 0 (c + 1) max_connections g.thread_count) locks)
      ]

  first-InUse : (w : Loop S) → InUse w (first_of g w)
  unfolding first
  first-InUse w =
      next-InUse w g.thread_index g.thread_index (max_connections - g.thread_index) g.thread_count

  round_stalled :
      (rs : List Revents) (w : Loop S)
      → IsStalled g w
      → a.poll ≡ polled rs
      → AllQuiet rs
      → length rs ≡ w.fd_count
      → round g a w ≡ some (goes_on, w)
  unfolding deliver Slots.polled
  round_stalled rs w s p q n =
      let (fuel, f) = s.fuel in
      let (cs, pol) = s.polled in
      let fill : poll_fill (slot_states w) g.thread_count (length rs) (first_of g w) ≡ some cs =
        rw n pol in
      let served =
        ap {A = PollResult} {B = Option (Unit {0} × Loop S)} (λ o. after_poll g a w o w) p
        ∙ serve_all_stalled fuel rs (first_of g w) cs w q fill f s.code (first-InUse w) s.locks in
      served_round g a w s.counts cs w w s.array pol served
        (ap (λ l. deliver g.depth l w) s.received)

-- What the polls of the rounds report: `n` entries each, nothing to read.
abbrev pub QuietPolls : ℕ → List Answers → Type 0
QuietPolls n [] = Unit
QuietPolls n (a ∷ more) =
    ((rs : List Revents) × (a.poll ≡ polled rs) × AllQuiet rs × (length rs ≡ n)) × QuietPolls n more

module _ {S : Type 0} (g : Setting S) (mode : Mode) (listen_socket : Option ℕ) where
  run_goes_on :
      (a : Answers) (more : List Answers) (w v : Loop S)
      → w.terminated ≡ false
      → round g a w ≡ some (goes_on, v)
      → run g mode listen_socket (a ∷ more) w ≡ run g mode listen_socket more v
  unfolding run
  run_goes_on a more w v t e =
      let after : Option (Next × Loop S) → Option (ℕ × Loop S) = λ o. elim o [
        | none ↦ none
        | some (goes_on, w') ↦ run g mode listen_socket more w'
        | some (stops, w') ↦ finish g mode listen_socket w'
      ] in
      ap {A = Bool} {B = Option (ℕ × Loop S)}
        (λ b. if b then finish g mode listen_socket w else after (round g a w)) t
      ∙ ap after e

-- Once the code of a worker is not 0, and while its poll array fits, the locks of the connections
-- in use are set up, no received message waits, and the polls report neither input nor errors nor
-- hang-ups, it sends nothing in any number of rounds, even where POLLOUT is reported for a full
-- queue: its state stays as it is.
pub run-IsStalled :
    {S : Type 0} (g : Setting S) (mode : Mode) (listen_socket : Option ℕ) (rounds : List Answers)
    (w : Loop S)
    → IsStalled g w
    → w.terminated ≡ false
    → QuietPolls w.fd_count rounds
    → run g mode listen_socket rounds w ≡ some (w.ret, w)
unfolding run
run-IsStalled g mode listen_socket [] w s t q = refl
run-IsStalled g mode listen_socket (a ∷ more) w s t ((rs, p, quiet, n), q) =
    run_goes_on g mode listen_socket a more w w t (round_stalled g a rs w s p quiet n)
    ∙ run-IsStalled g mode listen_socket more w s t q
