-- ===== src/MfBroker/Worker/Rounds.antt =====
-- The loop of _MFBrokerThreadRoutine of mfbroker/mfbroker.c.
use avtalk.Base.{
  ℕ, ◌+◌, ◌-◌, ◌*◌, ◌%◌, ◌^◌, Bool, true, false, Option, none, some, List, [], ◌∷◌, ◌==◌,
  if◌then◌else◌,
}
use avtalk.Base.Fault.{Cmd, pure, fault, get_state, modify, ◌>>=◌, ◌>>◌}
use avtalk.MfMemory.{ref_mem_alloc, ref_mem_release}
use avtalk.MfBroker.Slots.{State, max_connections, first, next}
use avtalk.MfBroker.Slots
use avtalk.MfBroker.Connections.{close_socket, on_memory}
use avtalk.MfBroker.Server.{bet_failed_poll, bet_memory_allocation}
use avtalk.MfBroker.SetUp.{Mode, bm_client, bm_server}
use avtalk.MfBroker.Worker.Round.{
  error, Loop, Revents, Setting, on_store, set_ret, report, deliver, PollResult, polled, timed_out,
  poll_error, Answers,
}
use avtalk.MfBroker.Worker.Serve.{serve}

-- How a pass over the loop's body ends.
pub data Next : Type 0 where
  goes_on stops : Next

module _ {S : Type 0} where
  abbrev pub slot_states : Loop S → ℕ → State
  slot_states w c = (w.store.connections c).state

  abbrev pub first_of : Setting S → Loop S → Option ℕ
  first_of g w =
      first (slot_states w) g.thread_index (max_connections - g.thread_index) g.thread_count

  -- The poll array is there, unless it has no entry. Its bounds are not checked.
  abbrev pub has_array : Loop S → Bool
  has_array w = if w.fd_count == 0 then true else elim w.fds [
    | none ↦ false
    | some p ↦ elim (w.store.memory p) [ none ↦ false | some b ↦ true ]
  ]

module _ {S : Type 0} (g : Setting S) (a : Answers) where
  -- The loop over the poll array.
  unfoldable pub serve_all : List Revents → Option ℕ → Cmd (Loop S) (Unit {0})
  unfolding serve
  serve_all [] conn = pure tt
  serve_all (r ∷ rs) none = fault
  serve_all (r ∷ rs) (some conn) = do
    serve g a r conn
    w ← get_state
    serve_all rs (next (slot_states w) 0 (conn + 1) max_connections g.thread_count)

  -- The poll array for a changed number of connections; 8 bytes for each.
  unfoldable pub resize : Cmd (Loop S) Next
  resize = do
    w ← get_state
    elim w.fds [ none ↦ pure tt | some p ↦ on_store (on_memory (ref_mem_release p)) ]
    modify (λ w. record w { fds = none })
    (ret, fds) ← on_store (on_memory (ref_mem_alloc a.fds (w.connection_count * 8 % 2 ^ 64)))
    set_ret ret
    elim fds [
      | none ↦ (do report (error bet_memory_allocation ret); set_ret a.go_on; pure stops)
      | some p ↦ (do
        modify (λ w. record w { fds = some p; fd_count = w.connection_count })
        pure goes_on)
    ]

  abbrev deliver_all : Cmd (Loop S) (Unit {0})
  deliver_all w = deliver g.depth w.received w

  abbrev pub after_poll : Loop S → PollResult → Cmd (Loop S) (Unit {0})
  after_poll w (polled rs) = serve_all rs (first_of g w)
  after_poll w timed_out = pure tt
  after_poll w (poll_error code) = do
    set_ret code
    modify (λ w. record w { terminated = true })
    report (error bet_failed_poll code)

  -- From the poll on.
  unfoldable pub poll_and_serve : Cmd (Loop S) (Unit {0})
  unfolding serve_all deliver
  poll_and_serve = do
    w ← get_state
    if has_array w
        then elim (Slots.polled (slot_states w) g.thread_index g.thread_count w.fd_count) [
          | none ↦ fault
          | some conns ↦ (do after_poll w a.poll; deliver_all)
        ]
        else fault

  -- One pass over the body. It says whether the loop is left; without memory for the poll array it
  -- is left unless ErrorCallback answers 0.
  unfoldable pub round : Cmd (Loop S) Next
  unfolding resize poll_and_serve
  round = do
    w ← get_state
    n ← (if w.fd_count == w.connection_count then pure goes_on else resize)
    elim n [
      | stops ↦ pure (if a.go_on == 0 then goes_on else stops)
      | goes_on ↦ (do poll_and_serve; pure goes_on)
    ]

module _ {S : Type 0} (g : Setting S) (mode : Mode) (listen_socket : Option ℕ) where
  -- What the thread does behind its loop; every worker of a server closes the listening socket.
  unfoldable pub finish : Cmd (Loop S) ℕ
  finish = do
    w ← get_state
    elim w.fds [ none ↦ pure tt | some p ↦ on_store (on_memory (ref_mem_release p)) ]
    elim mode [
      | bm_client ↦ pure tt
      | bm_server ↦
          on_store (modify (λ t. record t { closed = close_socket listen_socket t.closed }))
    ]
    pure w.ret

  -- The thread, for as many rounds as there are answers.
  unfoldable pub run : List Answers → Cmd (Loop S) ℕ
  unfolding round finish
  run [] w = some (w.ret, w)
  run (a ∷ more) w =
      let rest = run more in
      if w.terminated then finish w else elim (round g a w) [
        | none ↦ none
        | some (goes_on, w') ↦ rest w'
        | some (stops, w') ↦ finish w'
      ]
