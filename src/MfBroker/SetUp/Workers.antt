-- ===== src/MfBroker/SetUp/Workers.antt =====
-- The threads that MFBroker_Alloc of mfbroker/mfbroker.c starts: all of them, or none stays.
use avtalk.Base.{
  ℕ, zero, suc, ◌+◌, ◌≤◌, ◌<◌, ◌≡◌, refl, sym, ◌∙◌, ◌≢◌, ◌⊎◌, inl, inr, true, false, some, arith,
  ◌==◌, ltb, Bool-cases, lt→ltb, le→ltb,
}
use avtalk.Base.Fault.{◌>>=◌}
use avtalk.MfBroker.Connections.{put, put_at, put_other}
use avtalk.MfBroker.SetUp.{
  SetUp, create_thread, end_thread, end_workers, start_workers, start_server,
}

-- Only the threads have changed, and those below `n` run.
abbrev pub Running : ℕ → SetUp → SetUp → Type 0
Running n s t =
    (t.store ≡ s.store)
    × (t.connection_count ≡ s.connection_count)
    × (t.listen_socket ≡ s.listen_socket)
    × ((k : ℕ) → t.live k ≡ ltb k n)

-- After the workers below `i` have ended, what runs are thread 0 and those above them.
pub end_workers_lem :
    (i : ℕ) (s : SetUp)
    → (t : SetUp) × (end_workers i s ≡ some (tt, t))
      × (t.store ≡ s.store)
      × (t.connection_count ≡ s.connection_count)
      × (t.listen_socket ≡ s.listen_socket)
      × ((k : ℕ) → 1 ≤ k → k ≤ i → t.live k ≡ false)
      × (t.live 0 ≡ s.live 0)
      × ((k : ℕ) → i < k → t.live k ≡ s.live k)
unfolding end_workers end_thread
end_workers_lem zero s =
    (s, refl, refl, refl, refl, λ k a b. absurd (omega arith), refl, λ k h. refl)
end_workers_lem (suc i) s =
    let (t, run, st, co, li, low, first, high) = end_workers_lem i s in
    let u : SetUp = record t { live = put (suc i) false t.live } in
    (
      u,
      rw (◌>>=◌, run) refl,
      st,
      co,
      li,
      λ k a b. elim (Bool-cases (k == suc i)) [
        | inl e ↦ let e' : k ≡ suc i = ground arith in rw e' (put_at (suc i) false t.live)
        | inr e ↦ put_other (suc i) false t.live k (ground arith) ∙ low k a (ground arith)
      ],
      put_other (suc i) false t.live 0 (omega arith) ∙ first,
      λ k h. put_other (suc i) false t.live k (omega arith) ∙ high k (omega arith),
    )

-- The threads that run when one more does.
abbrev started : ℕ → SetUp → SetUp
started n s = record s { live = put n true s.live }

start_next :
    (codes : ℕ → ℕ) (left i : ℕ) (s : SetUp)
    → (codes (suc i) == 0) ≡ true
    → start_workers codes (suc left) i s ≡ start_workers codes left (suc i) (started (suc i) s)
unfolding start_workers create_thread
start_next codes left i s z = simp z refl

start_stop :
    (codes : ℕ → ℕ) (left i : ℕ) (s t : SetUp)
    → (codes (suc i) == 0) ≡ false
    → end_workers i s ≡ some (tt, t)
    → start_workers codes (suc left) i s ≡ some (codes (suc i), t)
unfolding start_workers create_thread
start_stop codes left i s t z run = ground arith

started-live :
    (i : ℕ) (s : SetUp)
    → ((k : ℕ) → s.live k ≡ ltb k (suc i))
    → (k : ℕ) → (started (suc i) s).live k ≡ ltb k (suc (suc i))
started-live i s h k = elim (Bool-cases (k == suc i)) [
  | inl e ↦
      let e' : k ≡ suc i = ground arith in
      rw e' (put_at (suc i) true s.live ∙ sym (lt→ltb (suc i) (suc (suc i)) (omega arith)))
  | inr e ↦
      let other : k ≢ suc i = ground arith in
      let same : ltb k (suc i) ≡ ltb k (suc (suc i)) = ground arith in
      put_other (suc i) true s.live k other ∙ h k ∙ same
]

ended-live :
    (i : ℕ) (s t : SetUp)
    → ((k : ℕ) → s.live k ≡ ltb k (suc i))
    → ((k : ℕ) → 1 ≤ k → k ≤ i → t.live k ≡ false)
    → t.live 0 ≡ s.live 0
    → ((k : ℕ) → i < k → t.live k ≡ s.live k)
    → (k : ℕ) → t.live k ≡ ltb k 1
ended-live i s t h low first high zero = first ∙ h 0 ∙ lt→ltb 0 (suc i) (omega arith)
ended-live i s t h low first high (suc k) = elim (Bool-cases (ltb i (suc k))) [
  | inl above ↦
      let no : ltb (suc k) (suc i) ≡ false = ground arith in
      high (suc k) (ground arith) ∙ h (suc k) ∙ no ∙ sym (le→ltb (suc k) 1 (omega arith))
  | inr below ↦ low (suc k) (omega arith) (ground arith) ∙ sym (le→ltb (suc k) 1 (omega arith))
]

-- With the listener and the workers below `i` running, the others start, or all workers end.
start_workers_lem :
    (codes : ℕ → ℕ) (left i : ℕ) (s : SetUp)
    → ((k : ℕ) → s.live k ≡ ltb k (suc i))
    → (ret : ℕ) × (t : SetUp) × (start_workers codes left i s ≡ some (ret, t))
      × (((ret ≡ 0) × Running (suc (i + left)) s t) ⊎ ((ret ≢ 0) × Running 1 s t))
unfolding start_workers
start_workers_lem codes zero i s h =
    let e : suc (i + zero) ≡ suc i = omega arith in
    (0, s, refl, inl (refl, (refl, refl, refl, λ k. rw e (h k))))
start_workers_lem codes (suc left) i s h = elim (Bool-cases (codes (suc i) == 0)) [
  | inl z ↦
      let (ret, t, run, out) =
        start_workers_lem codes left (suc i) (started (suc i) s) (started-live i s h) in
      let e : suc (i + suc left) ≡ suc (suc i + left) = omega arith in
      (ret, t, start_next codes left i s z ∙ run, rw e out)
  | inr z ↦
      let (t, run, st, co, li, low, first, high) = end_workers_lem i s in
      (
        codes (suc i),
        t,
        start_stop codes left i s t z run,
        inr (ground arith, (st, co, li, ended-live i s t h low first high)),
      )
]

server_run_ok :
    (codes : ℕ → ℕ) (count : ℕ) (s t : SetUp)
    → (codes 0 == 0) ≡ true
    → start_workers codes count 0 (started 0 s) ≡ some (0, t)
    → start_server codes count s ≡ some (0, t)
unfolding start_server create_thread
server_run_ok codes count s t z run = ground arith

server_run_fails :
    (codes : ℕ → ℕ) (count ret : ℕ) (s t : SetUp)
    → (codes 0 == 0) ≡ true
    → start_workers codes count 0 (started 0 s) ≡ some (ret, t)
    → ret ≢ 0
    → start_server codes count s ≡ some (ret, record t { live = put 0 false t.live })
unfolding start_server create_thread end_thread
server_run_fails codes count ret s t z run n = ground arith

listener-live :
    (s : SetUp) → ((k : ℕ) → s.live k ≡ false) → (k : ℕ) → (started 0 s).live k ≡ ltb k 1
listener-live s h zero = put_at 0 true s.live
listener-live s h (suc k) =
    put_other 0 true s.live (suc k) (omega arith) ∙ h (suc k) ∙ sym (le→ltb (suc k) 1 (omega arith))

none-live : (t : SetUp) → ((k : ℕ) → t.live k ≡ ltb k 1) → (k : ℕ) → put 0 false t.live k ≡ ltb k 0
none-live t h zero = put_at 0 false t.live
none-live t h (suc k) =
    put_other 0 false t.live (suc k) (omega arith)
    ∙ h (suc k)
    ∙ le→ltb (suc k) 1 (omega arith)
    ∙ sym (le→ltb (suc k) 0 (omega arith))

-- From a state in which none of its threads runs, the thread part of a server set-up ends either
-- with code 0, the listening thread and all workers running, or with another code and no thread
-- running, for any number of workers and wherever MFThread_Create fails; sockets and connections
-- are unchanged.
pub start_server-Running :
    (codes : ℕ → ℕ) (count : ℕ) (s : SetUp)
    → ((k : ℕ) → s.live k ≡ false)
    → (ret : ℕ) × (t : SetUp) × (start_server codes count s ≡ some (ret, t))
      × (((ret ≡ 0) × Running (suc count) s t) ⊎ ((ret ≢ 0) × Running 0 s t))
unfolding start_server create_thread
start_server-Running codes count s h = elim (Bool-cases (codes 0 == 0)) [
  | inr z ↦ (
    codes 0,
    s,
    ground arith,
    inr (ground arith, (refl, refl, refl, λ k. h k ∙ sym (le→ltb k 0 (omega arith)))),
  )
  | inl z ↦
      let (ret, t, run, out) = start_workers_lem codes count 0 (started 0 s) (listener-live s h) in
      elim out [
        | inl (e, (st, co, li, on)) ↦
            let run0 : start_workers codes count 0 (started 0 s) ≡ some (0, t) = rw e at run in
            let c : suc (0 + count) ≡ suc count = omega arith in
            let all : Running (suc count) s t = (st, co, li, λ k. rw (← c) (on k)) in
            (0, t, server_run_ok codes count s t z run0, inl (refl, all))
        | inr (n, (st, co, li, on)) ↦ (
          ret,
          record t { live = put 0 false t.live },
          server_run_fails codes count ret s t z run n,
          inr (n, (st, co, li, none-live t on)),
        )
      ]
]
