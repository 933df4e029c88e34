-- ===== src/Tests/Rounds.antt =====
-- A worker of mfbroker/mfbroker.c with one established connection.
use avtalk.Base.{
  ◌⊎◌, ◌==◌, if◌then◌else◌, ℕ, ◌≡◌, ◌≢◌, refl, arith, true, false, none, some, List, [], ◌∷◌,
  length,
}
use avtalk.Base.Bytes.{to_le}
use avtalk.MfCrypto
use avtalk.MfMemory.{Memory}
use avtalk.MfMessages.{Message, verify, to_bytes, pack}
use avtalk.MfMessages.Flags.{set_flag, has_flag}
use avtalk.MfMessages.Signature.{with_signature}
use avtalk.MfBroker.Slots
use avtalk.MfBroker.Slots.{mcf_established, search, poll_fill, next, first}
use avtalk.MfBroker.Connections.{Connection, zeroed}
use avtalk.MfBroker.Connections.Teardown.{Freed}
use avtalk.MfBroker.SetUp.{bm_server}
use avtalk.MfBroker.Worker.{Callbacks, check, verify_after}
use avtalk.MfBroker.Worker.Round.{Loop, Revents, Setting, Answers, polled, timed_out}
use avtalk.MfBroker.Worker.Serve.{accept_message}
use avtalk.MfBroker.Worker.Rounds.{goes_on, round, run}
use avtalk.MfBroker.Worker.Delivery.{readies, round-round}
use avtalk.MfBroker.Worker.Received.{accept_message_lem, Accepted, Dropped}
use avtalk.MfBroker.Worker.Stalled.{run-IsStalled, IsStalled, AllQuiet}
use avtalk.Tests.Samples.{toy, key, sample}
use avtalk.Tests.Sockets.{Stream, stream_socket}

abbrev obliging : Callbacks
obliging = record {
  about_to_encrypt = λ _. 1;
  about_to_sign = λ _. 1;
  cannot_verify = λ _. 5;
  cannot_encrypt = λ _. 5;
}

abbrev second_of_eight : Setting Stream
second_of_eight = record {
  sodium = toy;
  winsock = λ _. stream_socket;
  calls = obliging;
  public_key = key 2;
  secret_key = key 2;
  thread_index = 1;
  thread_count = 8;
  depth = 2;
  fuel = 500;
}

abbrev established : Connection
established = record zeroed {
  key = key 1;
  state = mcf_established;
  reference_count = 2;
  socket = some 7;
  send_lock = some 0;
}

abbrev signed_message : Message
signed_message = with_signature toy (key 1) (sample 1)

-- The poll array is at 300, a message at 500.
abbrev blocks : Memory
blocks x =
    if x == 300
    then some (record { refs = 1; size = 24 })
    else if x == 500
    then some (record { refs = 1; size = 400 })
    else none

abbrev worker : ℕ → List ℕ → Loop Stream
worker ret received = record {
  store = record {
    memory = blocks;
    listed = λ _. record { connection = 1; original_flags = 0; message = signed_message };
    connections = λ c. if c == 1 then established else zeroed;
    closed = [];
  };
  net = ([], []);
  connection_count = 1;
  ret = ret;
  received = received;
  fds = some 300;
  fd_count = 1;
  log = [];
  terminated = false;
}

abbrev nothing : Answers
nothing = record { fds = none; go_on = 0; poll = timed_out; fresh = λ _. none; random = λ _. [] }

abbrev writable_entries : List Revents
writable_entries =
    record { poll_err = false; poll_in = false; poll_hup = false; poll_out = true } ∷ []

abbrev writable : Answers
writable = record nothing { poll = polled writable_entries }

abbrev code : ℕ
code = 0

accept_message_lem_example :
    (v : Loop Stream) × (accept_message second_of_eight nothing 1 500 signed_message (worker 0 [])
      ≡ some (tt, v))
    × (v.ret ≡ code)
    × (v.log ≡ [])
    × (((code ≡ 0) × Accepted 1 500 signed_message signed_message (worker 0 []) v)
        ⊎ ((code ≢ 0) × Dropped 500 (worker 0 []) v))
unfolding check verify_after verify set_flag has_flag MfCrypto.sign MfCrypto.verify to_bytes to_le
    pack
accept_message_lem_example =
    accept_message_lem second_of_eight nothing 1 500 400 signed_message signed_message []
      (worker 0 []) (omega arith) refl 0 refl tt

round-round_example :
    (w' : Loop Stream) × (round second_of_eight nothing (worker 0 (500 ∷ [])) ≡ some (goes_on, w'))
    × (w'.log ≡ readies 1 (worker 0 []).store.listed (500 ∷ []))
    × Freed 1 1 (500 ∷ []) (worker 0 (500 ∷ [])).store w'.store
    × (round second_of_eight nothing w' ≡ none)
unfolding Slots.polled poll_fill search next first
round-round_example =
    round-round second_of_eight nothing nothing (worker 0 (500 ∷ [])) (worker 0 (500 ∷ [])) 1 1 0
      500 [] (1 ∷ []) refl refl refl refl refl refl refl refl (omega arith) (tt, tt)
      (omega arith, (400, refl), refl, tt) refl

stalled : IsStalled second_of_eight (worker 10054 [])
unfolding Slots.polled poll_fill search next first
stalled = record {
  fuel = (499, refl);
  code = omega arith;
  counts = refl;
  array = refl;
  polled = (1 ∷ [], refl);
  locks = λ c used. (0, ground arith);
  received = refl;
}

writable_quiet : AllQuiet writable_entries
writable_quiet = (record { no_error = refl; no_input = refl; no_hang_up = refl }, tt)

quiet_poll : (rs : List Revents) × (writable.poll ≡ polled rs) × AllQuiet rs × (length rs ≡ 1)
quiet_poll = (writable_entries, refl, writable_quiet, refl)

run-IsStalled_example :
    run second_of_eight bm_server none (writable ∷ writable ∷ []) (worker 10054 [])
    ≡ some (10054, worker 10054 [])
run-IsStalled_example =
    run-IsStalled second_of_eight bm_server none (writable ∷ writable ∷ []) (worker 10054 [])
      stalled refl (quiet_poll, (quiet_poll, tt))
