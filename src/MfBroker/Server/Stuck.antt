-- ===== src/MfBroker/Server/Stuck.antt =====
-- The code of _MFBrokerServerThread in mfbroker/mfbroker.c outlives the round that set it.
use avtalk.Base.{
  ℕ, ◌≡◌, refl, ◌≢◌, ◌⊎◌, inl, inr, ◌∙◌, true, false, Option, List, [], ◌∷◌, some, arith, ne→==,
  Bool-cases,
}
use avtalk.Base.Fault.{◌>>=◌}
use avtalk.MfBroker.Server.{
  Round, Poll, ready, timeout, poll_failed, Accept, Server, server_round, server_run,
}

-- Nothing was accepted.
abbrev pub Idle : Server → Server → Type 0
Idle s t = (t.store ≡ s.store) × (t.connection_count ≡ s.connection_count)

round_stuck :
    (broker : ℕ) (p : Poll) (a : Accept) (lock_error : Option ℕ) (ret : ℕ) (s : Server)
    → ret ≢ 0
    → (ret' : ℕ) × (t : Server) × (server_round broker
          (record { poll = p; accept = a; lock_error = lock_error })
          ret
          s
        ≡ some (ret', t))
      × ((ret' ≢ 0) ⊎ (t.terminated ≡ true))
      × Idle s t
unfolding server_round
round_stuck broker (ready true i) a l ret s n =
    (0xffff_ffff, record s { errors = (_, ret) ∷ s.errors }, refl, inl (omega arith), (refl, refl))
round_stuck broker (ready false i) a l ret s n =
    let z = ne→== ret 0 n in (ret, s, rw z refl, inl n, (refl, refl))
round_stuck broker timeout a l ret s n = (ret, s, refl, inl n, (refl, refl))
round_stuck broker (poll_failed code) a l ret s n = (
  code,
  record s { terminated = true; errors = (_, code) ∷ s.errors },
  refl,
  inr refl,
  (refl, refl),
)

run_terminated :
    (broker : ℕ) (rs : List Round) (ret : ℕ) (s : Server)
    → s.terminated ≡ true
    → server_run broker rs ret s ≡ some (ret, s)
unfolding server_run
run_terminated broker [] ret s h = refl
run_terminated broker (r ∷ rs) ret s h = rw h refl

pub run_next :
    (broker : ℕ) (r : Round) (rs : List Round) (ret ret' : ℕ) (s t : Server)
    → s.terminated ≡ false
    → server_round broker r ret s ≡ some (ret', t)
    → server_run broker (r ∷ rs) ret s ≡ server_run broker rs ret' t
unfolding server_run
run_next broker r rs ret ret' s t e run = simp e (simp (◌>>=◌, run) refl)

-- Once the code of the server thread is not 0, it accepts no connection in any number of further
-- rounds, whatever WSAPoll and accept answer: connections and ConnectionCount stay as they are.
pub server_run-Idle :
    (broker : ℕ) (rs : List Round) (ret : ℕ) (s : Server)
    → ret ≢ 0
    → (ret' : ℕ) × (t : Server) × (server_run broker rs ret s ≡ some (ret', t)) × Idle s t
unfolding server_run
server_run-Idle broker [] ret s n = (ret, s, refl, (refl, refl))
server_run-Idle broker (r ∷ rs) ret s n = elim (Bool-cases s.terminated) [
  | inl e ↦ (ret, s, rw e refl, (refl, refl))
  | inr e ↦
      let (ret', t, run, next, same) = round_stuck broker r.poll r.accept r.lock_error ret s n in
      elim next [
        | inl n' ↦
            let (ret'', u, rest, same') = server_run-Idle broker rs ret' t n' in
            (
              ret'',
              u,
              run_next broker r rs ret ret' s t e run ∙ rest,
              (same'.0 ∙ same.0, same'.1 ∙ same.1),
            )
        | inr stop ↦ (
          ret',
          t,
          run_next broker r rs ret ret' s t e run ∙ run_terminated broker rs ret' t stop,
          same,
        )
      ]
]
