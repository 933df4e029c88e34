-- ===== src/MfStream/Creation.antt =====
-- The objects of mfstream on the ways out of their constructors.
use avtalk.Base.{
  ℕ, suc, ◌^◌, ◌≤◌, ◌<◌, ◌≡◌, refl, ◌≢◌, Bool, true, false, Option, none, some, [], ◌∷◌, arith,
  ne→==, eq→==, lt→ltb, le→ltb,
}
use avtalk.Base.Fault.{◌>>=◌}
use avtalk.MfList.{init}
use avtalk.MfMemory.{Ptr, null, long_dec}
use avtalk.MfStream.{
  succeeded, OpType, OpAnswers, World, fresh_op, new_op, op_release, op_delete, op_add_ref, put,
}
use avtalk.MfStream.ByteStream.{
  Answers, new_instance, construct, blank, add_ref, release, shut_down, delete,
}
use avtalk.MfStream.ByteStream.System.Order.{IsStarted}

-- What is handed to the caller: the code, a stream with one reference, its thread, nothing closed.
abbrev pub Handed : ℕ → ℕ → ℕ × Bool × Option World → Type 0
Handed code thread (code', given, none) = ⊥
Handed code thread (code', given, some w) =
    (code' ≡ code) × (given ≡ true) × (w.refs ≡ 1) × (w.thread ≡ thread) × (w.closed_handles ≡ [])

pub new_instance_started :
    (os : Answers) (head : Ptr)
    → IsStarted os
    → Handed os.co_code os.thread (new_instance os (some head))
unfolding new_instance construct add_ref release shut_down delete
new_instance_started os head (s, e, t, co) =
    rw (ne→== os.semaphore 0 s, ne→== os.event 0 e, ne→== os.thread 0 t, co)
      (refl, refl, refl, refl, refl)

-- If the semaphore, the event or the thread cannot be created, and the code of GetLastError is
-- below 2 ^ 31, as Win32 codes are, MFStream_NewInstance returns that code, which counts as
-- success, and hands out a stream that has no thread.
pub new_instance_unstarted :
    (os : Answers) (head : Ptr)
    → (os.semaphore_error < 2 ^ 31
        → os.semaphore ≡ 0
        → Handed os.semaphore_error 0 (new_instance os (some head)))
      × (os.event_error < 2 ^ 31
          → os.semaphore ≢ 0
          → os.event ≡ 0
          → Handed os.event_error 0 (new_instance os (some head)))
      × (os.thread_error < 2 ^ 31
          → os.semaphore ≢ 0
          → os.event ≢ 0
          → os.thread ≡ 0
          → Handed os.thread_error 0 (new_instance os (some head)))
unfolding new_instance construct add_ref release shut_down delete
new_instance_unstarted os head = (
  λ h s.
      rw (eq→== os.semaphore 0 s, lt→ltb os.semaphore_error (2 ^ 31) h)
        (refl, refl, refl, refl, refl),
  λ h s e.
      rw (ne→== os.semaphore 0 s, eq→== os.event 0 e, lt→ltb os.event_error (2 ^ 31) h)
        (refl, refl, refl, refl, refl),
  λ h s e t.
      rw
        (
          ne→== os.semaphore 0 s,
          ne→== os.event 0 e,
          eq→== os.thread 0 t,
          lt→ltb os.thread_error (2 ^ 31) h,
        )
        (refl, refl, refl, t, refl),
)

-- The code of the thread, no stream, and the object deleted: each handle is closed once.
abbrev pub Undone : Answers → ℕ × Bool × Option World → Type 0
Undone os (code', given, none) = ⊥
Undone os (code', given, some w) =
    (code' ≡ os.co_code)
    × (given ≡ false)
    × (w.refs ≡ 0)
    × (w.closed ≡ true)
    × (w.closed_handles ≡ os.semaphore ∷ os.event ∷ os.thread ∷ [])

-- The last Release of a stream with all its handles.
release_last :
    (w : World)
    → w.refs ≡ 1
    → w.semaphore ≢ 0
    → w.flushed_event ≢ 0
    → w.thread ≢ 0
    → w.permits ≡ 0
    → release w
      ≡ some (
        0,
        record w {
          refs = 0;
          closed = true;
          permits = 1;
          closed_handles = w.semaphore ∷ w.flushed_event ∷ w.thread ∷ w.closed_handles;
        },
      )
unfolding release shut_down delete
release_last w r s e t z = let last : long_dec w.refs ≡ 0 = omega (arith, r) in ground (arith, last)

abbrev started : Answers → Ptr → World
started os head = record (blank os head) {
  flushed_event = os.event;
  thread = os.thread;
  error_code = os.co_code;
}

construct_lem :
    (os : Answers) (head : Ptr)
    → os.semaphore ≢ 0
    → os.event ≢ 0
    → os.thread ≢ 0
    → construct os head ≡ started os head
unfolding construct
construct_lem os head s e t = rw (ne→== os.semaphore 0 s, ne→== os.event 0 e, ne→== os.thread 0 t)

-- If the three handles are created and CoInitialize fails in the thread, MFStream_NewInstance
-- returns its code and no stream, the object is deleted, and thread, event and semaphore are closed
-- once each.
pub new_instance-Undone :
    (os : Answers) (head : Ptr)
    → os.semaphore ≢ 0
    → os.event ≢ 0
    → os.thread ≢ 0
    → 2 ^ 31 ≤ os.co_code
    → Undone os (new_instance os (some head))
unfolding new_instance
new_instance-Undone os head s e t h =
    let w = started os head in
    rw
      (
        construct_lem os head s e t,
        le→ltb os.co_code (2 ^ 31) h,
        ◌>>=◌,
        release_last w refl s e t refl,
      )
      (refl, refl, refl, refl, refl)

-- async
pub new_op_over_released :
    (os : OpAnswers) (type : OpType) (buffer : Ptr) (length : ℕ) (callback state : Ptr) (p : Ptr)
    (w : World) (n k : ℕ)
    → os.address ≡ some p
    → os.event ≢ 0
    → callback ≢ null
    → state ≢ null
    → callback ≢ state
    → 2 ^ 31 ≤ os.async_code
    → w.objects callback ≡ suc n
    → w.objects state ≡ suc k
    → (v : World) × (new_op os type buffer length callback state w
        ≡ some ((os.async_code, none), v))
      × (v.ops p ≡ none)
      × (v.objects callback ≡ n)
      × (v.objects state ≡ k)
unfolding new_op op_add_ref op_release op_delete
new_op_over_released os type buffer length callback state p w n k e live cb st d h oc ost =
    let o = record (fresh_op type length buffer os.event) { callback = callback; state = state } in
    let failed : succeeded os.async_code ≡ false = le→ltb os.async_code (2 ^ 31) h in
    let v : World = record w {
      ops = put p none (
          put p (some (record o { refs = 0 }))
            (put p (some o) (put p (some (fresh_op type length buffer os.event)) w.ops)));
      links = init p w.links;
      objects = put callback n (put state k w.objects);
      closed_handles = os.event ∷ w.closed_handles;
    } in
    let made = ne→== os.event 0 live in
    (v, rw e (rw made (ground (arith, failed))), ground arith, ground arith, ground arith)
