-- ===== src/MfStream/ByteStream/System.antt =====
-- The threads around one stream: callers that queue operations, and the thread of
-- mfstream/mfstream-impl.cpp. A step is what one thread does between two points where another
-- may come in: a section under the lock, a call of the semaphore or an event, a callback.
pub mod Effects
pub mod Invariant
pub mod Callers
pub mod Thread
pub mod Order
pub mod Runs
pub mod Closing
use avtalk.Base.{
  ℕ, ◌+◌, ◌-◌, ◌^◌, ◌<◌, ◌≡◌, ◌≢◌, Bool, true, false, Option, none, some, List, [], ◌∷◌, ◌++◌, ltb,
}
use avtalk.MfMemory.{Ptr, null, s_ok}
use avtalk.MfStream.{OpType, World, OpAnswers, op_release}
use avtalk.MfStream.ByteStream.{Callbacks, submit, notify, close, take, serve, count_down, supports}

-- Where the thread of the stream is; an operation is the thread's `r`.
pub data Phase : Type 0 where
  at_head asleep woken ended : Phase
  working counting releasing : Ptr → Phase

-- `moved` is the thread's `bytesTransferred`. `signals` are the operations in the list whose
-- ReleaseSemaphore is still to come, `callers` those whose creator still has its reference.
pub record System : Type 0 where
  pub world : World
  pub phase : Phase
  pub moved : ℕ
  pub signals : List Ptr
  pub callers : List Ptr

-- The allocator hands out an address that is in use for nothing else, and fewer than 2 ^ 31 - 1
-- operations are pending.
abbrev pub IsFresh : World → OpAnswers → Ptr → Type 0
IsFresh w os p =
    (os.address ≡ some p)
    × (os.event ≢ 0)
    × (w.ops p ≡ none)
    × (p ≢ w.head)
    × (w.pending + 1 < 2 ^ 31)

pub data Step (c : Callbacks) : System → System → Type 0 where
  -- A caller queues an operation that the stream supports.
  submitted :
      {s : System} (os : OpAnswers) (type : OpType) (buffer : Ptr) (length : ℕ) (p : Ptr)
      (w : World)
      → IsFresh s.world os p
      → supports c type ≡ true
      → submit os type buffer length s.world ≡ some ((s_ok, some p), w)
      → Step c s (record s { world = w; signals = p ∷ s.signals })
  notified :
      {s : System} (xs : List Ptr) (p : Ptr) (ys : List Ptr) (w : World)
      → s.signals ≡ xs ++ p ∷ ys
      → notify s.world ≡ some (tt, w)
      → Step c s (record s { world = w; signals = xs ++ ys; callers = p ∷ s.callers })
  -- The creator's Release, behind a wait in Read and Write, at once in BeginRead and BeginWrite.
  left :
      {s : System} (xs : List Ptr) (p : Ptr) (ys : List Ptr) (refs : ℕ) (w : World)
      → s.callers ≡ xs ++ p ∷ ys
      → op_release p s.world ≡ some (refs, w)
      → Step c s (record s { world = w; callers = xs ++ ys })
  closed :
      {s : System} (w : World) → close s.world ≡ some (s_ok, w) → Step c s (record s { world = w })
  -- The thread.
  goes_on :
      {s : System}
      → s.phase ≡ at_head
      → s.world.closed ≡ false
      → Step c s (record s { phase = asleep })
  stops :
      {s : System}
      → s.phase ≡ at_head
      → s.world.closed ≡ true
      → Step c s (record s { phase = ended })
  wakes :
      {s : System}
      → s.phase ≡ asleep
      → 0 < s.world.permits
      → Step c s
          (record s { world = record s.world { permits = s.world.permits - 1 }; phase = woken })
  finds_none :
      {s : System} (w : World)
      → s.phase ≡ woken
      → take s.world ≡ some (none, w)
      → Step c s (record s { world = w; phase = at_head })
  takes :
      {s : System} (p : Ptr) (w : World)
      → s.phase ≡ woken
      → take s.world ≡ some (some p, w)
      → Step c s (record s { world = w; phase = working p })
  serves :
      {s : System} (p : Ptr) (answer : ℕ × Option ℕ) (moved : ℕ) (w : World)
      → s.phase ≡ working p
      → serve c answer s.moved p s.world ≡ some (moved, w)
      → Step c s (record s { world = w; phase = counting p; moved = moved })
  counts :
      {s : System} (p : Ptr) (w : World)
      → s.phase ≡ counting p
      → count_down s.world ≡ some (tt, w)
      → Step c s (record s { world = w; phase = releasing p })
  drops :
      {s : System} (p : Ptr) (refs : ℕ) (w : World)
      → s.phase ≡ releasing p
      → op_release p s.world ≡ some (refs, w)
      → Step c s (record s { world = w; phase = at_head })

-- What a step adds to the history: an operation queued, or one whose callback has answered.
abbrev pub queued : {c : Callbacks} {s t : System} → Step c s t → List Ptr
queued (submitted os type buffer length p w fresh has run) = p ∷ []
queued st = []

abbrev pub served : {c : Callbacks} {s t : System} → Step c s t → List Ptr
served (serves p answer moved w at run) = p ∷ []
served st = []

-- A run, with the operations in the order in which they were queued, and in which they were served.
pub data Run (c : Callbacks) (s : System) : List Ptr → List Ptr → System → Type 0 where
  here : Run c s [] [] s
  next :
      {qs ts : List Ptr} {t u : System}
      → Run c s qs ts t
      → (st : Step c t u) → Run c s (qs ++ queued st) (ts ++ served st) u
