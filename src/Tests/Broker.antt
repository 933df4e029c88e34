-- ===== src/Tests/Broker.antt =====
-- mfbroker at a short stream, at a server with one connection, and at a connection with one
-- message queued.
use avtalk.Base.{ℕ, ◌≡◌, ◌≢◌, refl, arith, none, some, [], ◌∷◌, ◌++◌, length, if◌then◌else◌, ◌==◌}
use avtalk.Base.Fault.{◌>>◌}
use avtalk.MfMemory.{Ptr, Memory}
use avtalk.MfList.Ring.{NotIn}
use avtalk.MfCrypto.{Bytes}
use avtalk.MfMessages.{to_bytes, of_bytes}
use avtalk.Base.Bytes.{cut, from_le}
use avtalk.MfBroker.Wire.{recv_step, recv_data, message_recv, message_send}
use avtalk.MfBroker.Wire.Receive.{Ended, recv_data-Ended, recv_data_closed}
use avtalk.MfBroker.Wire.Framing.{ReceivedAt, message_recv-message_send, message_recv_fails}
use avtalk.MfBroker.Slots.{State, mcs_free, mcs_handshake, polled}
use avtalk.MfBroker.Slots.Polls.{occupied, polled_client, polled_past}
use avtalk.MfBroker.Connections.{Connection, Store, zeroed, disconnect, release, clear, send_async}
use avtalk.MfBroker.Connections.Teardown.{IsHeld, AllFree}
use avtalk.MfBroker.Connections.Clear.{ended, clear-release}
use avtalk.MfBroker.Connections.Faults.{hang_up-clear}
use avtalk.MfBroker.Connections.Send.{send_async-IsHeld}
use avtalk.Tests.Samples.{sample, sample-IsPlain, zeros}
use avtalk.Tests.Sockets.{
  Stream, stream_socket, stream_socket-Delivers, stream_socket-Responds, stream_socket-Accepts,
  closed_socket,
}

abbrev nothing : Memory
nothing = λ _. none

recv_data-Ended_example :
    (r : ℕ × Bytes) × (t : Stream) × (recv_data stream_socket 7 7 (zeros 5, []) ≡ some (r, t))
    × Ended stream_socket 7 r t
recv_data-Ended_example =
    recv_data-Ended stream_socket 7 7 (zeros 5, []) stream_socket-Responds (omega arith)
      (omega arith)

recv_data_closed_example : recv_data closed_socket 1000000 224 ([], []) ≡ none
recv_data_closed_example =
    recv_data_closed closed_socket 1000000 224 ([], []) (λ k. refl) (omega arith)

message_recv-message_send_example :
    (a' : Stream) × (message_send stream_socket (sample 2) ([], []) ≡ some (0, a'))
    × (a'.1 ≡ [] ++ to_bytes (sample 2))
    × ((rest : Bytes)
        → to_bytes (sample 2) ++ 7 ∷ [] ≡ to_bytes (sample 2) ++ rest
        → (u : Stream) × (mem' : Memory) × (message_recv stream_socket 300
              (some 64)
              ((to_bytes (sample 2) ++ 7 ∷ [], []), nothing)
            ≡ some ((0, some (64, sample 2)), (u, mem')))
          × (u.0 ≡ rest)
          × ReceivedAt nothing 64 229 mem')
message_recv-message_send_example =
    message_recv-message_send stream_socket (λ s. s.1) (λ s. s.0) 300 64 ([], [])
      (to_bytes (sample 2) ++ 7 ∷ [], []) nothing (sample 2) stream_socket-Accepts
      stream_socket-Delivers (sample-IsPlain 2 (omega arith)).formed (omega arith) (omega arith)

-- The header claims 100 bytes.
message_recv_fails_example : (◌≢◌ {A = ℕ} 87 0) × ((a : Ptr) → nothing a ≡ nothing a)
unfolding message_recv recv_data recv_step of_bytes from_le cut
message_recv_fails_example =
    message_recv_fails stream_socket 4 (some 64) (100 ∷ zeros 223, []) ([], []) nothing nothing 87
      (omega arith, refl) refl

abbrev states : ℕ → State
states c = if c == 2 then mcs_handshake else mcs_free

polled_client_example :
    polled states 0 1 (length (occupied states 64 0)) ≡ some (occupied states 64 0)
polled_client_example = polled_client states

polled_past_example : polled states 3 8 (length (occupied states 64 0)) ≡ none
polled_past_example = polled_past states 3 8 2 (omega arith) (omega arith) (omega arith) refl

-- Connection 3, with the message at address 64 queued.
abbrev busy : Connection
busy = record zeroed {
  reference_count = 2;
  socket = some 9;
  messages_to_send = 64 ∷ [];
  send_lock = some 0;
}

abbrev store : Store
store = record {
  memory = λ a. if a == 64 then some (record { refs = 1; size = 275 }) else none;
  listed = λ a. record { connection = 3; original_flags = 0; message = sample 0 };
  connections = λ c. if c == 3 then busy else zeroed;
  closed = [];
}

store-IsHeld : IsHeld 3 1 (64 ∷ []) store
store-IsHeld = record {
  count = refl;
  range = omega arith;
  queue_eq = refl;
  lock_eq = refl;
  distinct = (tt, tt);
  queued = ((λ e. absurd (omega arith)), (275, refl), refl, tt);
}

clear-release_example :
    (t : Store) × ((do clear 1 3; release 1 3) store ≡ some (tt, t))
    × (t.connections 3 ≡ record (ended busy) { reference_count = 0; messages_to_send = [] })
    × ((c : ℕ) → c ≢ 3 → t.connections c ≡ store.connections c)
    × ((a : Ptr) → NotIn a (64 ∷ []) → t.memory a ≡ store.memory a)
    × AllFree (64 ∷ []) t.memory
    × (t.closed ≡ 9 ∷ [])
    × (t.listed ≡ store.listed)
clear-release_example = clear-release 0 3 (64 ∷ []) store store-IsHeld

hang_up-clear_example : (do disconnect 3; release 1 3; clear 5 3) store ≡ none
hang_up-clear_example = hang_up-clear 0 5 3 64 [] store store-IsHeld

send_async-IsHeld_example :
    (t : Store) × (send_async (some 400) 3 (sample 1) store ≡ some (0, t))
    × IsHeld 3 1 (64 ∷ 400 ∷ []) t
    × (t.listed 400 ≡ record { connection = 3; original_flags = 0; message = sample 1 })
    × ((c : ℕ) → c ≢ 3 → t.connections c ≡ store.connections c)
    × ((a : Ptr) → a ≢ 400 → t.memory a ≡ store.memory a)
send_async-IsHeld_example =
    send_async-IsHeld 3 1 400 (64 ∷ []) (sample 1) store store-IsHeld (omega arith)
      (omega arith, tt) (omega arith)
