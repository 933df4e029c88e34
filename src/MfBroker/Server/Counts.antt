-- ===== src/MfBroker/Server/Counts.antt =====
-- ConnectionCount over all runs of _MFBrokerServerThread in mfbroker/mfbroker.c.
use avtalk.Base.{
  ℕ, ◌≤◌, arith, ◌≡◌, refl, ◌∙◌, ◌≢◌, inl, inr, true, false, ◌&&◌, Option, none, some, List, [],
  ◌∷◌, ◌==◌, Bool-cases, suc,
}
use avtalk.Base.Fault.{◌>>=◌}
use avtalk.MfBroker.Slots.{max_connections, find_free}
use avtalk.MfBroker.Connections.{with_conn, put_at, put_other}
use avtalk.MfBroker.Server.{
  bet_accept_failed, bet_socket_error, bet_failed_poll, minus_one, Poll, ready, timeout,
  poll_failed, Accept, accepted, accept_failed, Round, Server, slot_states, new_connection,
  accept_round, server_round, server_run,
}
use avtalk.MfBroker.Server.Stuck.{run_next}
use avtalk.MfBroker.Server.Accepting.{
  length-occupied, InArray, CountsUse, opened, init_opened, new_connection-CountsUse,
}

-- The command ends, ConnectionCount is right at its end, and only slots of the array are written.
abbrev Keeps : Server → Option (ℕ × Server) → Type 0
Keeps s o = (ret : ℕ) × (t : Server) × (o ≡ some (ret, t)) × CountsUse t × InArray s t

accept_round-CountsUse :
    (broker : ℕ) (p : Poll) (a : Accept) (lock_error : Option ℕ) (s : Server)
    → CountsUse s
    → Keeps s (accept_round broker (record { poll = p; accept = a; lock_error = lock_error }) s)
unfolding accept_round
accept_round-CountsUse broker p (accepted socket) lock_error s u =
    new_connection-CountsUse broker lock_error (some socket) s u
accept_round-CountsUse broker p (accept_failed code) lock_error s u =
    let t : Server = record s { errors = (bet_accept_failed, code) ∷ s.errors } in
    elim (Bool-cases (code == 0)) [
      | inl z ↦
          let (ret, t', run, u', inside) = new_connection-CountsUse broker lock_error none t u in
          (ret, t', rw z run, u', inside)
      | inr z ↦ (code, t, rw z refl, u, λ c h. refl)
    ]

server_round-CountsUse :
    (broker : ℕ) (p : Poll) (a : Accept) (lock_error : Option ℕ) (ret : ℕ) (s : Server)
    → CountsUse s
    → Keeps s (server_round broker (record { poll = p; accept = a; lock_error = lock_error }) ret s)
unfolding server_round
server_round-CountsUse broker (ready true i) a l ret s u =
    (minus_one, record s { errors = (bet_socket_error, ret) ∷ s.errors }, refl, u, λ c h. refl)
server_round-CountsUse broker (ready false i) a l ret s u = elim (Bool-cases (ret == 0 && i)) [
  | inl z ↦
      let (ret', t, run, u', inside) = accept_round-CountsUse broker (ready false i) a l s u in
      (ret', t, rw z run, u', inside)
  | inr z ↦ (ret, s, rw z refl, u, λ c h. refl)
]
server_round-CountsUse broker timeout a l ret s u = (ret, s, refl, u, λ c h. refl)
server_round-CountsUse broker (poll_failed code) a l ret s u = (
  code,
  record s { terminated = true; errors = (bet_failed_poll, code) ∷ s.errors },
  refl,
  u,
  λ c h. refl,
)

server_run-Keeps :
    (broker : ℕ) (rs : List Round) (ret : ℕ) (s : Server)
    → CountsUse s
    → Keeps s (server_run broker rs ret s)
unfolding server_run
server_run-Keeps broker [] ret s u = (ret, s, refl, u, λ c h. refl)
server_run-Keeps broker (r ∷ rs) ret s u = elim (Bool-cases s.terminated) [
  | inl e ↦ (ret, s, rw e refl, u, λ c h. refl)
  | inr e ↦
      let (ret', t, run, u', inside) =
        server_round-CountsUse broker r.poll r.accept r.lock_error ret s u in
      let (ret'', t', rest, u'', inside') = server_run-Keeps broker rs ret' t u' in
      (
        ret'',
        t',
        run_next broker r rs ret ret' s t e run ∙ rest,
        u'',
        λ c h. inside' c h ∙ inside c h,
      )
]

-- For every sequence of rounds, whatever WSAPoll, accept and the lock set-up answer, if
-- ConnectionCount is the number of slots in use before, it is so after and at most the size of the
-- array, and the server thread has written no slot behind the end of the array.
pub server_run-CountsUse :
    (broker : ℕ) (rs : List Round) (ret : ℕ) (s : Server)
    → CountsUse s
    → (ret' : ℕ) × (t : Server) × (server_run broker rs ret s ≡ some (ret', t))
      × CountsUse t
      × (t.connection_count ≤ max_connections)
      × InArray s t
server_run-CountsUse broker rs ret s u =
    let (ret', t, run, u', inside) = server_run-Keeps broker rs ret s u in
    (ret', t, run, u', omega (arith, u', length-occupied (slot_states t) max_connections 0), inside)

-- With code 0, a free slot found, a request accepted and the lock set up, a round of the server
-- thread makes that slot a handshaking connection on the new socket with one reference and an empty
-- queue, counts it, reports no error, closes no socket and changes no other connection.
pub server_round-opened :
    (broker socket conn : ℕ) (s : Server)
    → find_free (slot_states s) 0 max_connections ≡ some conn
    → (t : Server) × (server_round broker
          (record { poll = ready false true; accept = accepted socket; lock_error = none })
          0
          s
        ≡ some (0, t))
      × (t.store.connections conn ≡ opened broker (some socket))
      × ((c : ℕ) → c ≢ conn → t.store.connections c ≡ s.store.connections c)
      × (t.store.closed ≡ s.store.closed)
      × (t.connection_count ≡ suc s.connection_count)
      × (t.errors ≡ s.errors)
unfolding server_round accept_round new_connection
server_round-opened broker socket conn s found = (
  record s {
    store = with_conn conn (opened broker (some socket)) s.store;
    connection_count = suc s.connection_count;
  },
  rw found (rw (◌>>=◌, init_opened conn broker (some socket) s.store) refl),
  put_at conn _ s.store.connections,
  λ c h. put_other conn _ s.store.connections c h,
  refl,
  refl,
  refl,
)
