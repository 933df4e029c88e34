-- ===== src/MfBroker/Slots.antt =====
-- _MFConn_Next, _MFConn_First, _MFConn_FindFree and the poll list of _MFBrokerThreadRoutine in
-- mfbroker/mfbroker.c. A connection is its index in the broker's array.
pub mod Search
pub mod Polls
use avtalk.Base.{
  ℕ, zero, suc, ◌+◌, ◌-◌, Bool, true, false, not, Option, none, some, List, [], ◌∷◌, ltb, ◌==◌,
  if◌then◌else◌,
}

pub data State : Type 0 where
  mcs_free mcs_handshake mcf_established : State

abbrev pub is_free : State → Bool
is_free mcs_free = true
is_free _ = false

abbrev pub max_connections : ℕ
max_connections = 64

abbrev pub worker_thread_count : ℕ
worker_thread_count = 8

-- `while (ret - Start < Max && test(ret)) ret += Step;`, with NULL when it ran past the end.
unfoldable pub search : (State → Bool) → (ℕ → State) → ℕ → ℕ → ℕ → ℕ → ℕ → Option ℕ
search skip states zero start current max step = none
search skip states (suc fuel) start current max step =
    let rest = search skip states fuel start (current + step) max step in
    if ltb (current - start) max
    then (if skip (states current) then rest else some current)
    else none

-- The guard of the loop makes `max` rounds enough.
unfoldable pub next : (ℕ → State) → ℕ → ℕ → ℕ → ℕ → Option ℕ
unfolding search
next states start current max step = search is_free states (suc max) start current max step

unfoldable pub first : (ℕ → State) → ℕ → ℕ → ℕ → Option ℕ
unfolding next
first states start max step = next states start start max step

unfoldable pub find_free : (ℕ → State) → ℕ → ℕ → Option ℕ
unfolding search
find_free states start max = search (λ s. not (is_free s)) states (suc max) start start max 1

-- The loop that fills the `pollfd` array: the connections to poll, in order. `conn` is the next
-- one; `none` is the access through a NULL connection.
unfoldable pub poll_fill : (ℕ → State) → ℕ → ℕ → Option ℕ → Option (List ℕ)
unfolding next
poll_fill states step zero conn = some []
poll_fill states step (suc left) none = none
poll_fill states step (suc left) (some c) =
    elim (poll_fill states step left (next states 0 (c + 1) max_connections step)) [
      | none ↦ none
      | some cs ↦ some (c ∷ cs)
    ]

-- What a worker polls: its index among the workers, their number, and ConnectionCount.
unfoldable pub polled : (ℕ → State) → ℕ → ℕ → ℕ → Option (List ℕ)
unfolding first poll_fill
polled states thread_index thread_count connection_count =
    poll_fill states thread_count connection_count
      (first states thread_index (max_connections - thread_index) thread_count)
