-- ===== src/MfStream.antt =====
-- mfstream/mfstreamop-impl.cpp with its header: the queued operations of a byte stream.
-- The state is one stream with its operations. An operation and its list entry are named by the
-- address of the operation; COM objects of the caller are counted by address, and an object that
-- is released more often than it is held is a fault, as is any use of a deleted operation. A signed
-- LONG is its bit pattern. What the system answers (addresses, handles, codes) is an argument.
pub mod ByteStream
pub mod Entries
pub mod Creation
use Prim.Native.Nat.{bit_or}
use avtalk.Base.{
  ℕ, ◌+◌, ◌-◌, ◌^◌, Bool, true, false, not, Option, none, some, List, ◌∷◌, ◌==◌, ltb, if◌then◌else◌,
}
use avtalk.Base.Fault.{Cmd, pure, fault, get_state, modify, ◌>>=◌, ◌>>◌, when}
use avtalk.MfList.{Links, init, set_next, set_prev}
use avtalk.MfMemory.{Ptr, null, s_ok, e_outofmemory, long_inc, long_dec}

-- `SUCCEEDED(hr)`
abbrev pub succeeded : ℕ → Bool
succeeded hr = ltb hr (2 ^ 31)

abbrev pub e_nointerface : ℕ
e_nointerface = 0x80004002

abbrev pub e_pointer : ℕ
e_pointer = 0x80004003

-- `OpType`, without the two values that no operation has.
pub data OpType : Type 0 where
  read write : OpType

-- `signaled` is the state of the object behind `event`, a handle that is 0 for NULL.
pub record StreamOp : Type 0 where
  pub refs : ℕ
  pub type : OpType
  pub length : ℕ
  pub buffer : Ptr
  pub callback : Ptr
  pub state : Ptr
  pub async_result : Ptr
  pub result : ℕ
  pub bytes_transferred : ℕ
  pub event : ℕ
  pub signaled : Bool

-- `CMFRWStream`, the operations, their entries, the counts of the caller's objects; `flushed` is the
-- state of the object behind `flushed_event`, `permits` the count of the semaphore, and
-- `closed_handles` what was given to CloseHandle, last first.
pub record World : Type 0 where
  pub ops : Ptr → Option StreamOp
  pub links : Links
  pub objects : Ptr → ℕ
  pub head : Ptr
  pub refs : ℕ
  pub closed : Bool
  pub error_code : ℕ
  pub pending : ℕ
  pub flushed : Bool
  pub permits : ℕ
  pub flushed_event : ℕ
  pub semaphore : ℕ
  pub thread : ℕ
  pub closed_handles : List ℕ

abbrev pub put : {A : Type 0} → Ptr → A → (Ptr → A) → Ptr → A
put p v f a = if a == p then v else f a

-- `MFGen_SafeRelease` and AddRef of an object of the caller
abbrev pub object_release : Ptr → Cmd World (Unit {0})
object_release q w =
    if q == null
    then some (tt, w)
    else if w.objects q == 0
    then none
    else some (tt, record w { objects = put q (w.objects q - 1) w.objects })

abbrev pub object_add_ref : Ptr → Cmd World (Unit {0})
object_add_ref q = modify (λ w. record w { objects = put q (w.objects q + 1) w.objects })

abbrev pub close_handle : ℕ → Cmd World (Unit {0})
close_handle h =
    when (not (h == 0)) (modify (λ w. record w { closed_handles = h ∷ w.closed_handles }))

abbrev pub get_op : Ptr → Cmd World StreamOp
get_op p w = elim (w.ops p) [ none ↦ none | some o ↦ some (o, w) ]

abbrev pub set_op : Ptr → Option StreamOp → Cmd World (Unit {0})
set_op p o = modify (λ w. record w { ops = put p o w.ops })

unfoldable pub op_add_ref : Ptr → Cmd World ℕ
op_add_ref p = do
  o ← get_op p
  set_op p (some (record o { refs = long_inc o.refs }))
  pure (long_inc o.refs)

-- `~CMFRWStreamOp`, and the end of the object.
unfoldable pub op_delete : Ptr → Cmd World (Unit {0})
op_delete p = do
  o ← get_op p
  object_release o.async_result
  object_release o.state
  object_release o.callback
  close_handle o.event
  set_op p none

unfoldable pub op_release : Ptr → Cmd World ℕ
unfolding op_delete
op_release p = do
  o ← get_op p
  set_op p (some (record o { refs = long_dec o.refs }))
  when (long_dec o.refs == 0) (op_delete p)
  pure (long_dec o.refs)

-- Which interface is asked for.
pub data Iid : Type 0 where
  iunknown ibyte_stream other_iid : Iid

abbrev is_iunknown : Iid → Bool
is_iunknown iunknown = true
is_iunknown i = false

-- `has_out` says that `ppvObject` is not NULL; the object stored there is the operation itself.
unfoldable pub op_query_interface : Ptr → Iid → Bool → Cmd World (ℕ × Option Ptr)
unfolding op_add_ref
op_query_interface p i has_out =
    if has_out
    then (if is_iunknown i
        then (do op_add_ref p; pure (s_ok, some p))
        else pure (e_nointerface, none))
    else pure (e_pointer, none)

-- The four link assignments of `Insert`.
unfoldable pub link_last : Ptr → Ptr → Links → Links
unfolding set_next set_prev
link_last head p m =
    let m = set_next p head m in
    let m = set_prev p (m.prev head) m in let m = set_next (m.prev head) p m in set_prev head p m

unfoldable pub insert : Ptr → Cmd World (Unit {0})
unfolding op_add_ref
insert p = do modify (λ w. record w { links = link_last w.head p w.links }); op_add_ref p; pure tt

-- `RemoveFromList`: the first operation, whose own links stay as they are; `none` for NULL.
unfoldable pub remove_first : Ptr → Links → Option Ptr × Links
unfolding set_next set_prev
remove_first head m =
    if m.next head == head
    then (none, m)
    else (let p = m.next head in
        let m = set_prev (m.next p) (m.prev p) m in (some p, set_next (m.prev p) (m.next p) m))

-- What the system answers to one NewInstance: the address of the object (`none` for NULL), the event
-- (0 for NULL), GetLastError after that, and the code and the object of MFCreateAsyncResult.
pub record OpAnswers : Type 0 where
  pub address : Option Ptr
  pub event : ℕ
  pub last_error : ℕ
  pub async_code : ℕ
  pub async_result : Ptr

-- The constructor leaves `result_` and `bytesTransferred_` as they are; the model has 0 there.
abbrev pub fresh_op : OpType → ℕ → Ptr → ℕ → StreamOp
fresh_op type length buffer event = record {
  refs = 1;
  type = type;
  length = length;
  buffer = buffer;
  callback = null;
  state = null;
  async_result = null;
  result = 0;
  bytes_transferred = 0;
  event = event;
  signaled = false;
}

-- The part for an asynchronous result; it says the code.
abbrev pub attach_result : OpAnswers → Ptr → Ptr → Cmd World ℕ
attach_result os p callback = if callback == null then pure s_ok else (do
  o ← get_op p
  when (succeeded os.async_code) (do
    set_op p (some (record o { async_result = os.async_result }))
    object_add_ref os.async_result
    object_add_ref callback)
  pure os.async_code)

-- The part behind the creation of the event.
abbrev pub fill_op : OpAnswers → Ptr → Ptr → Ptr → Cmd World (ℕ × Option Ptr)
fill_op os p callback state = do
  o ← get_op p
  set_op p (some (record o { callback = callback; state = state }))
  ret ← attach_result os p callback
  if succeeded ret
      then (do when (not (state == null)) (object_add_ref state); op_add_ref p; pure (ret, some p))
      else pure (ret, none)

unfoldable pub new_op : OpAnswers → OpType → Ptr → ℕ → Ptr → Ptr → Cmd World (ℕ × Option Ptr)
unfolding op_add_ref op_release
new_op os type buffer length callback state = elim os.address [
  | none ↦ pure (e_outofmemory, none)
  | some p ↦ (do
    modify (λ w. record w { links = init p w.links })
    set_op p (some (fresh_op type length buffer os.event))
    r ←
        (if os.event == 0
          then pure (bit_or os.last_error 0x80070000, none)
          else fill_op os p callback state)
    op_release p
    pure r)
]

-- `Finish`. What the callback does when it is invoked is not followed.
unfoldable pub finish : Ptr → ℕ → ℕ → Cmd World (Unit {0})
finish p result moved = do
  o ← get_op p
  set_op p (some (record o { bytes_transferred = moved; result = result; signaled = true }))
