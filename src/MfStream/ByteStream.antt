-- ===== src/MfStream/ByteStream.antt =====
-- mfstream/mfstream-impl.cpp and mfstream.cpp: the stream itself and its thread. A method that
-- waits is two commands, one up to the wait and one behind it.
pub mod System
use Prim.Native.Nat.{bit_or}
use avtalk.Base.{
  ℕ, ◌+◌, ◌-◌, ◌^◌, Bool, true, false, not, Option, none, some, List, [], ◌++◌, ◌∷◌, ◌==◌, ltb,
  if◌then◌else◌,
}
use avtalk.Base.Fault.{Cmd, pure, fault, get_state, modify, ◌>>=◌, ◌>>◌, when}
use avtalk.MfList.{Links, init}
use avtalk.MfMemory.{Ptr, null, s_ok, e_outofmemory, long_inc, long_dec}
use avtalk.MfStream.{
  succeeded, e_nointerface, e_pointer, OpType, read, write, StreamOp, World, get_op, op_add_ref,
  op_release, Iid, iunknown, ibyte_stream, other_iid, insert, remove_first, OpAnswers, new_op,
  finish, close_handle, put,
}

unfoldable pub add_ref : Cmd World ℕ
add_ref = do modify (λ w. record w { refs = long_inc w.refs }); w ← get_state; pure w.refs

-- ReleaseSemaphore by one; the count stays below 2 ^ 31.
abbrev pub notify : Cmd World (Unit {0})
notify = modify (λ w. if ltb w.permits 0x7fffffff then record w { permits = w.permits + 1 } else w)

-- `~CMFRWStream` up to the wait for the thread, and behind it.
unfoldable pub shut_down : Cmd World (Unit {0})
shut_down = do
  w ← get_state
  when (not (w.thread == 0)) (do modify (λ w. record w { closed = true }); notify)

unfoldable pub delete : Cmd World (Unit {0})
delete = do
  w ← get_state
  close_handle w.thread
  close_handle w.flushed_event
  close_handle w.semaphore

-- The destructor waits for the thread, which ends before the rest is done.
unfoldable pub release : Cmd World ℕ
unfolding shut_down delete
release = do
  modify (λ w. record w { refs = long_dec w.refs })
  w ← get_state
  when (w.refs == 0) (do shut_down; delete)
  pure w.refs

abbrev is_stream : Iid → Bool
is_stream other_iid = false
is_stream i = true

unfoldable pub query_interface : Iid → Bool → Cmd World (ℕ × Bool)
unfolding add_ref
query_interface i has_out =
    if has_out
    then (if is_stream i then (do add_ref; pure (s_ok, true)) else pure (e_nointerface, false))
    else pure (e_pointer, false)

-- `MFSTREAM_CALLBACKS`: which of the two callbacks that are called are not NULL.
pub record Callbacks : Type 0 where
  pub has_read : Bool
  pub has_write : Bool

unfoldable pub get_capabilities : Callbacks → ℕ × ℕ
get_capabilities c =
    let caps : ℕ = 0 in
    let caps = if c.has_read then bit_or caps 0x1 else caps in
    let caps = if c.has_write then bit_or caps 0x2 else caps in (s_ok, caps)

-- The part of OpRecordInsert under the lock.
unfoldable pub enqueue : Ptr → Cmd World (Unit {0})
unfolding insert
enqueue p = do
  insert p
  modify (λ w. record w { pending = long_inc w.pending })
  w ← get_state
  when (w.pending == 1) (modify (λ w. record w { flushed = false }))

unfoldable pub op_record_insert : Ptr → Cmd World (Unit {0})
unfolding enqueue
op_record_insert p = do enqueue p; notify

-- What Read, Write, BeginRead and BeginWrite do up to the end of the lock in OpRecordInsert; the
-- two last pass neither their callback nor their state on.
unfoldable pub submit : OpAnswers → OpType → Ptr → ℕ → Cmd World (ℕ × Option Ptr)
unfolding new_op enqueue
submit os type buffer length = do
  (ret, r) ← new_op os type buffer length null null
  elim r [ none ↦ pure (ret, none) | some p ↦ (do enqueue p; pure (ret, some p)) ]

-- BeginRead and BeginWrite
unfoldable pub begin : OpAnswers → OpType → Ptr → ℕ → Cmd World ℕ
unfolding submit op_release
begin os type buffer length = do
  (ret, r) ← submit os type buffer length
  elim r [ none ↦ pure ret | some p ↦ (do notify; op_release p; pure ret) ]

-- Read and Write up to the wait for the operation.
unfoldable pub start : OpAnswers → OpType → Ptr → ℕ → Cmd World (ℕ × Option Ptr)
unfolding submit
start os type buffer length = do
  (ret, r) ← submit os type buffer length
  elim r [ none ↦ pure (ret, none) | some p ↦ (do notify; pure (ret, some p)) ]

-- Read and Write behind the wait: the result, and the number of bytes for the caller.
unfoldable pub complete : Ptr → Cmd World (ℕ × ℕ)
unfolding op_release
complete p = do o ← get_op p; op_release p; pure (o.result, o.bytes_transferred)

-- EndRead and EndWrite: what GetObject answers, with the reference it adds; then, behind the wait,
-- the code of GetObject and the number of bytes.
unfoldable pub end_start : ℕ → Ptr → Cmd World (Unit {0})
unfolding op_add_ref
end_start ret p = when (succeeded ret) (do op_add_ref p; pure tt)

unfoldable pub end_complete : ℕ → Ptr → Cmd World (ℕ × ℕ)
unfolding op_release
end_complete ret p =
    if succeeded ret
    then (do o ← get_op p; op_release p; pure (ret, o.bytes_transferred))
    else pure (ret, 0)

unfoldable pub begin_read : OpAnswers → Ptr → ℕ → Cmd World ℕ
unfolding begin
begin_read os buffer length = begin os read buffer length

unfoldable pub begin_write : OpAnswers → Ptr → ℕ → Cmd World ℕ
unfolding begin
begin_write os buffer length = begin os write buffer length

unfoldable pub read_start : OpAnswers → Ptr → ℕ → Cmd World (ℕ × Option Ptr)
unfolding start
read_start os buffer length = start os read buffer length

unfoldable pub write_start : OpAnswers → Ptr → ℕ → Cmd World (ℕ × Option Ptr)
unfolding start
write_start os buffer length = start os write buffer length

-- The methods that know nothing of a position: a code, and what they store.
unfoldable pub get_length : ℕ × ℕ
get_length = (s_ok, 2 ^ 64 - 1)

unfoldable pub set_length : ℕ → ℕ
set_length length = s_ok

unfoldable pub get_current_position : ℕ × ℕ
get_current_position = (s_ok, 0)

unfoldable pub set_current_position : ℕ → ℕ
set_current_position position = s_ok

unfoldable pub is_end_of_stream : ℕ × Bool
is_end_of_stream = (s_ok, true)

unfoldable pub seek : ℕ → ℕ → ℕ
seek origin offset = 0x80070057

-- Flush, behind the wait for `flushedEvent_`.
unfoldable pub flush : ℕ
flush = s_ok

unfoldable pub close : Cmd World ℕ
close = do modify (λ w. record w { closed = true }); notify; pure s_ok

-- One pass of the thread's loop, between its waits: the list under the lock, ...
unfoldable pub take : Cmd World (Option Ptr)
unfolding remove_first
take w = let (r, m) = remove_first w.head w.links in some (r, record w { links = m })

-- ... the callback, which answers a code and what it stores in `bytesTransferred`, if anything, ...
abbrev pub supports : Callbacks → OpType → Bool
supports c read = c.has_read
supports c write = c.has_write

abbrev pub stored_or : ℕ → Option ℕ → ℕ
stored_or moved none = moved
stored_or moved (some n) = n

abbrev pub call : Callbacks → OpType → ℕ × Option ℕ → ℕ → Cmd World (ℕ × ℕ)
call c type (ret, stored) moved =
    if supports c type then pure (ret, stored_or moved stored) else fault

unfoldable pub serve : Callbacks → ℕ × Option ℕ → ℕ → Ptr → Cmd World ℕ
unfolding finish
serve c answer moved p = do
  o ← get_op p
  (ret, moved) ← call c o.type answer moved
  finish p ret moved
  pure moved

-- ... and the count, again under the lock.
unfoldable pub count_down : Cmd World (Unit {0})
count_down = do
  modify (λ w. record w { pending = long_dec w.pending })
  w ← get_state
  when (w.pending == 0) (modify (λ w. record w { flushed = true }))

-- What the system answers to the constructor: the three handles, GetLastError behind each, what
-- memory holds where `flushedEvent_` will be, and CoInitialize in the thread.
pub record Answers : Type 0 where
  pub semaphore : ℕ
  pub semaphore_error : ℕ
  pub event : ℕ
  pub event_error : ℕ
  pub thread : ℕ
  pub thread_error : ℕ
  pub garbage : ℕ
  pub co_code : ℕ

abbrev pub blank : Answers → Ptr → World
blank os head = record {
  ops = λ _. none;
  links = init head (record { next = λ _. null; prev = λ _. null });
  objects = λ _. 0;
  head = head;
  refs = 1;
  closed = false;
  error_code = s_ok;
  pending = 0;
  flushed = true;
  permits = 0;
  flushed_event = os.garbage;
  semaphore = os.semaphore;
  thread = 0;
  closed_handles = [];
}

-- The constructor. Its wait lets the thread run up to its loop, or to its end.
unfoldable pub construct : Answers → Ptr → World
construct os head =
    let w = blank os head in
    if os.semaphore == 0
    then record w { error_code = os.semaphore_error }
    else (let w = record w { flushed_event = os.event } in
        if os.event == 0
        then record w { error_code = os.event_error }
        else (let w = record w { thread = os.thread } in
            if os.thread == 0
            then record w { error_code = os.thread_error }
            else record w { error_code = os.co_code }))

-- `given` says that the stream is not NULL.
unfoldable pub free_instance : Bool → Cmd World (Unit {0})
unfolding release
free_instance given = when given (do release; pure tt)

-- The code, and whether `*Stream` is set; `address` is that of the list head in the new object, or
-- `none` for NULL. A state only where there is an object.
unfoldable pub new_instance : Answers → Option Ptr → ℕ × Bool × Option World
unfolding construct add_ref release
new_instance os none = (e_outofmemory, false, none)
new_instance os (some head) =
    let w = construct os head in
    let good = succeeded w.error_code in
    let handed = (do when good (do add_ref; pure tt); release) in
    (w.error_code, good, elim (handed w) [ none ↦ none | some (_, w') ↦ some w' ])
