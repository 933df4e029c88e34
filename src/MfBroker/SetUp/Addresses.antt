-- ===== src/MfBroker/SetUp/Addresses.antt =====
-- The client's loop over the addresses in MFBroker_Alloc of mfbroker/mfbroker.c.
use avtalk.Base.{ℕ, suc, ◌≡◌, refl, ◌∙◌, ◌≢◌, none, some, List, [], ◌∷◌, ◌++◌, arith, ne→==}
use avtalk.Base.Fault.{◌>>=◌}
use avtalk.MfBroker.Connections.{with_conn, put_at, put_other, close_socket}
use avtalk.MfBroker.Server.Accepting.{opened, init_opened}
use avtalk.MfBroker.SetUp.{bm_client, Address, SetUp, use_socket, try_address, address_loop}

-- A socket was opened, but connect failed.
abbrev pub Refused : List Address → Type 0
Refused [] = Unit {0}
Refused (a ∷ rest) = ((k : ℕ) × (a.socket ≡ some k)) × (a.connect_code ≢ 0) × Refused rest

abbrev pub closed_after : List Address → List ℕ → List ℕ
closed_after [] closed = closed
closed_after (a ∷ rest) closed = closed_after rest (close_socket a.socket closed)

abbrev closing : Address → SetUp → SetUp
closing a s = record s { store = record s.store { closed = close_socket a.socket s.store.closed } }

try_refused :
    (broker k ret : ℕ) (a : Address) (s : SetUp)
    → a.socket ≡ some k
    → a.connect_code ≢ 0
    → try_address bm_client broker a ret s ≡ some (a.connect_code, closing a s)
unfolding try_address use_socket
try_refused broker k ret a s e n = let z = ne→== a.connect_code 0 n in ground arith

try_usable :
    (broker k ret : ℕ) (a : Address) (s : SetUp)
    → a.socket ≡ some k
    → a.connect_code ≡ 0
    → a.lock_error ≡ none
    → try_address bm_client broker a ret s
      ≡ some (
        0,
        record s {
          store = with_conn 0 (opened broker (some k)) s.store;
          connection_count = suc s.connection_count;
        },
      )
unfolding try_address use_socket
try_usable broker k ret a s e z l = let i = init_opened 0 broker (some k) s.store in ground arith

loop_next :
    (broker code ret : ℕ) (a : Address) (rest : List Address) (s t : SetUp)
    → try_address bm_client broker a ret s ≡ some (code, t)
    → code ≢ 0
    → address_loop bm_client broker (a ∷ rest) ret s ≡ address_loop bm_client broker rest code t
unfolding address_loop
loop_next broker code ret a rest s t run n = let z = ne→== code 0 n in rw (◌>>=◌, run) (simp z refl)

loop_end :
    (broker ret : ℕ) (a : Address) (rest : List Address) (s t : SetUp)
    → try_address bm_client broker a ret s ≡ some (0, t)
    → address_loop bm_client broker (a ∷ rest) ret s ≡ some (0, t)
unfolding address_loop
loop_end broker ret a rest s t run = rw (◌>>=◌, run) refl

-- For a client, if connect fails for the sockets of the first addresses and succeeds for the next
-- one, whose lock is set up: the address loop ends with code 0, connection 0 is a handshaking
-- connection on that socket and is counted, exactly the sockets of the addresses before are closed,
-- and later addresses are not tried.
pub address_loop-opened :
    (broker k ret : ℕ) (tried : List Address) (a : Address) (rest : List Address) (s : SetUp)
    → Refused tried
    → a.socket ≡ some k
    → a.connect_code ≡ 0
    → a.lock_error ≡ none
    → (t : SetUp) × (address_loop bm_client broker (tried ++ a ∷ rest) ret s ≡ some (0, t))
      × (t.store.connections 0 ≡ opened broker (some k))
      × ((c : ℕ) → c ≢ 0 → t.store.connections c ≡ s.store.connections c)
      × (t.connection_count ≡ suc s.connection_count)
      × (t.store.closed ≡ closed_after tried s.store.closed)
      × (t.listen_socket ≡ s.listen_socket)
address_loop-opened broker k ret [] a rest s f e z l =
    let v = opened broker (some k) in
    (
      record s { store = with_conn 0 v s.store; connection_count = suc s.connection_count },
      loop_end broker ret a rest s _ (try_usable broker k ret a s e z l),
      put_at 0 v s.store.connections,
      λ c h. put_other 0 v s.store.connections c h,
      refl,
      refl,
      refl,
    )
address_loop-opened broker k ret (b ∷ tried) a rest s ((j, f), n, more) e z l =
    let (t, run, conn, others, count, closed, listen) =
      address_loop-opened broker k b.connect_code tried a rest (closing b s) more e z l in
    (
      t,
      loop_next broker b.connect_code ret b (tried ++ a ∷ rest) s (closing b s)
            (try_refused broker j ret b s f n) n
          ∙ run,
      conn,
      others,
      count,
      closed,
      listen,
    )
