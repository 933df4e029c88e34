-- ===== src/MfBroker/Worker/Serve.antt =====
-- What _MFBrokerThreadRoutine of mfbroker/mfbroker.c does about one polled connection.
use avtalk.Base.{ℕ, zero, suc, not, none, some, List, [], ◌∷◌, ◌++◌, ◌==◌, if◌then◌else◌}
use avtalk.Base.Fault.{Cmd, fault, get_state, modify, ◌>>=◌, ◌>>◌, when}
use avtalk.MfMemory.{long_dec, Ptr, ref_mem_add_ref, ref_mem_release}
use avtalk.MfLock
use avtalk.MfMessages.{Message}
use avtalk.MfBroker.Wire.{message_recv, message_send}
use avtalk.MfBroker.Connections.{on_memory, on_lock, set_conn, add_ref, disconnect, release}
use avtalk.MfBroker.Server.{bet_message_failed_receive, bet_message_failed_send, bet_socket_error}
use avtalk.MfBroker.Worker.{prepare, check}
use avtalk.MfBroker.Worker.Round.{
  error, sent, Loop, Revents, Setting, enoent, on_store, on_wire, on_net, set_ret, report,
  set_listed, touch, report_all, touch_last, drop_listed, Answers,
}

module _ {S : Type 0} (g : Setting S) (a : Answers) where
  -- POLLERR and POLLHUP, behind the report
  unfoldable pub hang_up : ℕ → Cmd (Loop S) (Unit {0})
  hang_up conn = do
    on_store (disconnect conn)
    on_store (release g.depth conn)
    modify (λ w. record w { connection_count = long_dec w.connection_count })

  -- What becomes of a message that was received at `p`.
  unfoldable pub accept_message : ℕ → Ptr → Message → Cmd (Loop S) (Unit {0})
  accept_message conn p m = do
    w ← get_state
    let c = w.store.connections conn
    set_listed p (record { connection = 0; original_flags = m.flags; message = m })
    elim (check g.sodium g.calls c.state c.key g.public_key g.secret_key m) [
      | none ↦ fault
      | some (ret, m', errors) ↦ (do
        set_ret ret
        set_listed p (record { connection = 0; original_flags = m.flags; message = m' })
        report_all errors ret
        when (ret == 0) (do
          on_store (on_memory (ref_mem_add_ref p))
          touch_last w.received
          modify (λ w. record w { received = w.received ++ p ∷ [] })
          on_store (add_ref conn)
          set_listed p (record { connection = conn; original_flags = m.flags; message = m' }))
        on_store (on_memory (ref_mem_release p)))
    ]

  -- POLLIN
  unfoldable pub receive : ℕ → Cmd (Loop S) (Unit {0})
  unfolding accept_message
  receive conn = do
    w ← get_state
    (ret, msg) ←
        on_wire (message_recv (g.winsock (w.store.connections conn).socket) g.fuel (a.fresh conn))
    set_ret ret
    elim msg [
      | none ↦ report (error bet_message_failed_receive ret)
      | some (p, m) ↦ accept_message conn p m
    ]

  -- The socket of the message that is ready to be sent, and the reports.
  unfoldable pub transmit : ℕ → Message → Cmd (Loop S) (Unit {0})
  transmit conn m = do
    w ← get_state
    let c = w.store.connections conn
    if c.disconnected then set_ret enoent else (do
      ret ← on_net (message_send (g.winsock c.socket) m)
      set_ret ret
      when (ret == 0) (report (sent conn m)))
    w ← get_state
    when (not (w.ret == 0)) (report (error bet_message_failed_send w.ret))

  -- One pass of the send loop, from MFList_Remove to the second MFLock_Enter.
  unfoldable pub send_one : ℕ → Ptr → List Ptr → Cmd (Loop S) (Unit {0})
  unfolding transmit drop_listed
  send_one conn p rest = do
    touch p
    on_store (set_conn conn (λ c. record c { messages_to_send = rest }))
    on_store (on_lock conn MfLock.leave)
    w ← get_state
    let c = w.store.connections conn
    let l = w.store.listed p
    elim (prepare g.sodium g.calls c.state c.key g.secret_key (a.random p) l.message) [
      | none ↦ fault
      | some (ret, m) ↦ (do
        set_ret ret
        set_listed p (record l { message = m })
        when (ret == 0) (transmit conn m)
        drop_listed g.depth p
        on_store (on_lock conn MfLock.enter))
    ]

  unfoldable pub send_loop : ℕ → ℕ → Cmd (Loop S) (Unit {0})
  unfolding send_one
  send_loop zero conn w = none
  send_loop (suc fuel) conn w =
      let rest = send_loop fuel conn in
      if w.ret == 0
      then elim (w.store.connections conn).messages_to_send [
        | [] ↦ some (tt, w)
        | p ∷ ps ↦ (send_one conn p ps >> rest) w
      ]
      else some (tt, w)

  -- POLLOUT
  unfoldable pub send : ℕ → Cmd (Loop S) (Unit {0})
  unfolding send_loop
  send conn = do
    on_store (on_lock conn MfLock.enter)
    send_loop g.fuel conn
    on_store (on_lock conn MfLock.leave)

  -- One polled connection.
  unfoldable pub serve : Revents → ℕ → Cmd (Loop S) (Unit {0})
  unfolding hang_up receive send
  serve r conn =
      if r.poll_err
      then (do w ← get_state; report (error bet_socket_error w.ret); hang_up conn)
      else (do
        when r.poll_in (receive conn)
        if r.poll_hup then hang_up conn else when r.poll_out (send conn))
