-- ===== src/Tests/Threads.antt =====
-- The threads of mfbroker at a server without connections, and at the sample message.
use avtalk.Base.{◌==◌, if◌then◌else◌, ℕ, ◌≤◌, ◌≡◌, refl, arith, true, false, none, some, [], ◌∷◌}
use avtalk.Base.Bytes.{to_le}
use avtalk.MfCrypto
use avtalk.MfMessages.{Message, verify, to_bytes, pack}
use avtalk.MfMessages.Signature.{with_signature}
use avtalk.MfMessages.Flags.{signed, header_encrypted, has_flag, set_flag, clear_flag}
use avtalk.MfMessages.Layout.{IsWellFormed}
use avtalk.MfBroker.Slots.{mcf_established, max_connections}
use avtalk.MfBroker.Slots.Polls.{occupied}
use avtalk.MfBroker.Connections.{zeroed}
use avtalk.MfBroker.Server.{ready, accepted, accept_failed, Round, Server, server_run}
use avtalk.MfBroker.Server.Stuck.{Idle, server_run-Idle}
use avtalk.MfBroker.Server.Accepting.{CountsUse, InArray}
use avtalk.MfBroker.Server.Counts.{server_run-CountsUse}
use avtalk.MfBroker.SetUp.{Address, SetUp}
use avtalk.MfBroker.Worker.{Callbacks, prepare, verify_after, check}
use avtalk.MfBroker.Worker.Exchange.{check-prepare, check_signed}
use avtalk.Tests.Samples.{toy, toy_laws, key, key-IsKeyPair, sample, sample-IsPlain}

abbrev idle : Server
idle = record {
  store = record {
    memory = λ _. none;
    listed = λ _. record { connection = 0; original_flags = 0; message = sample 0 };
    connections = λ _. zeroed;
    closed = [];
  };
  connection_count = 0;
  terminated = false;
  errors = [];
}

abbrev refused : Round
refused = record { poll = ready false true; accept = accept_failed 10024; lock_error = none }

abbrev request : Round
request = record { poll = ready false true; accept = accepted 9; lock_error = none }

server_run-Idle_example :
    (ret : ℕ) × (t : Server) × (server_run 5 (request ∷ request ∷ []) 10024 idle ≡ some (ret, t))
    × Idle idle t
server_run-Idle_example = server_run-Idle 5 (request ∷ request ∷ []) 10024 idle (omega arith)

server_run-CountsUse_example :
    (ret : ℕ) × (t : Server) × (server_run 5 (request ∷ refused ∷ request ∷ []) 0 idle
      ≡ some (ret, t))
    × CountsUse t
    × (t.connection_count ≤ max_connections)
    × InArray idle t
unfolding occupied
server_run-CountsUse_example = server_run-CountsUse 5 (request ∷ refused ∷ request ∷ []) 0 idle refl

abbrev willing : Callbacks
willing = record {
  about_to_encrypt = λ _. 1;
  about_to_sign = λ _. 1;
  cannot_verify = λ _. 5;
  cannot_encrypt = λ _. 5;
}

check-prepare_example :
    (c : Message) × (prepare toy willing mcf_established (key 2) (key 1) [] (sample 1)
      ≡ some (0, c))
    × IsWellFormed c
    × (has_flag c.flags header_encrypted ≡ true)
    × (check toy willing mcf_established (key 1) (key 2) (key 2) c
        ≡ some (
          0,
          record (sample 1) {
            header_encryption = c.header_encryption;
            message_signature = c.message_signature;
            flags = clear_flag 0 signed;
          },
          [],
        ))
check-prepare_example =
    check-prepare toy toy_laws willing willing (key 1) (key 1) (key 2) (key 2) [] (sample 1)
      (key-IsKeyPair 1) (key-IsKeyPair 2) (λ x. omega arith) (λ x. omega arith)
      (sample-IsPlain 1 (omega arith)).formed (sample-IsPlain 1 (omega arith)).header_plain

abbrev signed_sample : Message
signed_sample = with_signature toy (key 1) (sample 1)

check_signed_example : (m' : Message) × (verify toy (key 1) signed_sample ≡ some (0, m'))
unfolding check verify_after verify set_flag has_flag MfCrypto.sign MfCrypto.verify to_bytes to_le
    pack
check_signed_example =
    check_signed toy willing (key 1) (key 2) (key 2) signed_sample signed_sample [] refl refl

abbrev set_up : SetUp
set_up = record {
  store = idle.store;
  connection_count = 0;
  listen_socket = none;
  live = λ _. false;
}

abbrev address : ℕ → ℕ → Address
address socket code = record {
  socket = some socket;
  connect_code = code;
  bind_code = 0;
  listen_code = 0;
  lock_error = none;
}

-- The third worker cannot be started.
abbrev third_fails : ℕ → ℕ
third_fails n = if n == 3 then 8 else 0
