-- ===== src/MfStream/ByteStream/System/Runs.antt =====
-- What the users of mfstream can rely on, in every run of a stream and its threads.
use mathlib.Core.Path.{subst}
use avtalk.Base.{
  ◌+◌, ◌-◌, ◌<◌, ◌≡◌, ◌↔◌, refl, sym, ap, ◌∙◌, ◌≢◌, true, none, some, List, [], ◌∷◌, ◌++◌, arith,
  append-nil, length, Bool-cases, Option-cases, inl, inr, ==_iff, eq→==,
}
use avtalk.Base.Fault.{◌>>=◌}
use avtalk.MfMemory.{Ptr, s_ok}
use avtalk.MfStream.{StreamOp, World}
use avtalk.MfStream.ByteStream.{Answers, Callbacks, complete}
use avtalk.MfStream.ByteStream.System.{
  Phase, at_head, asleep, woken, ended, working, counting, releasing, System, Step, goes_on, stops,
  wakes, finds_none, takes, serves, counts, drops, Run,
}
use avtalk.MfStream.ByteStream.System.Effects.{plain, op_release-plain}
use avtalk.MfStream.ByteStream.System.Invariant.{
  uncounted, count, count-append, IsValid, OpAt, unserved, served_op, waits, holds, calls,
}
use avtalk.MfStream.ByteStream.System.Callers.{there}
use avtalk.MfStream.ByteStream.System.Thread.{
  take_empty, takes_lem, serves_lem, counts_lem, drops_lem,
}
use avtalk.MfStream.ByteStream.System.Order.{IsStarted, start_of, outstanding, Run-served, in_phase}

length_zero : (xs : List Ptr) → length xs ≡ 0 → xs ≡ []
length_zero [] h = refl
length_zero (x ∷ xs) h = absurd (omega arith)

nowhere : (p : Ptr) (xs : List Ptr) → xs ≡ [] → count p xs ≡ 0
nowhere p xs h = rw h refl

none_unserved : (ph : Phase) → uncounted ph ≡ 0 → unserved ph ≡ []
none_unserved at_head h = refl
none_unserved asleep h = refl
none_unserved woken h = refl
none_unserved ended h = refl
none_unserved (working p) h = absurd (omega arith)
none_unserved (counting p) h = refl
none_unserved (releasing p) h = refl

-- At the semaphore the thread finds the first operation, if there is one.
woken-Step :
    (c : Callbacks) (s : System) (queue : List Ptr)
    → s.phase ≡ woken
    → IsValid c (record s { phase = woken }) queue
    → (t : System) × Step c s t × (t.phase ≢ woken)
woken-Step c s [] e v =
    (record s { phase = at_head }, finds_none s.world e (take_empty c s v), λ h. cc)
woken-Step c s (x ∷ queue) e v =
    let (w, run, kept) = takes_lem c s x queue v in
    (record s { world = w; phase = working x }, takes x w e run, λ h. cc)

next-Step :
    (c : Callbacks) (s : System) (queue : List Ptr) (ph : Phase)
    → s.phase ≡ ph
    → IsValid c s queue
    → ph ≢ ended
    → (ph ≡ asleep → 0 < s.world.permits)
    → (t : System) × Step c s t × (t.phase ≢ ph)
next-Step c s queue at_head e v live permits = elim (Bool-cases s.world.closed) [
  | inl over ↦ (record s { phase = ended }, stops e over, λ h. cc)
  | inr going ↦ (record s { phase = asleep }, goes_on e going, λ h. cc)
]
next-Step c s queue asleep e v live permits = (_, wakes e (permits refl), λ h. cc)
next-Step c s queue woken e v live permits = woken-Step c s queue e (in_phase c s queue woken e v)
next-Step c s queue ended e v live permits = absurd (live refl)
next-Step c s queue (working p) e v live permits =
    let (w, run, kept) = serves_lem c s p queue (s_ok, none) (in_phase c s queue (working p) e v) in
    (_, serves p (s_ok, none) s.moved w e run, λ h. cc)
next-Step c s queue (counting p) e v live permits =
    let (w, run, kept) = counts_lem c s p queue (in_phase c s queue (counting p) e v) in
    (_, counts p w e run, λ h. cc)
next-Step c s queue (releasing p) e v live permits =
    let (n, w, run, kept) = drops_lem c s p queue (in_phase c s queue (releasing p) e v) in
    (_, drops p n w e run, λ h. cc)

module _ (c : Callbacks) (os : Answers) (head : Ptr) (good : IsStarted os) where
  -- In every run of a stream and its threads: whenever the event that Flush waits for is set, every
  -- operation queued so far has been served, in order.
  pub flushed-served :
      {qs ts : List Ptr} {t : System}
      → Run c (start_of os head) qs ts t
      → t.world.flushed ≡ true
      → qs ≡ ts
  flushed-served {qs} {ts} {t} r f =
      let (queue, v, order) = Run-served c os head good r in
      let zero_pending : t.world.pending ≡ 0 = (==_iff t.world.pending 0).0 (sym v.flushed ∙ f) in
      let e = length_zero queue (omega (arith, v.pending)) in
      let u = none_unserved t.phase (omega (arith, v.pending)) in order ∙ rw (e, u) (append-nil ts)

  -- No wake-up is lost: whenever the thread waits at the semaphore, the semaphore is at 0 and no
  -- caller has still to signal it, every queued operation has been served, in order; and if no
  -- creator has its reference any more, no operation is left in memory.
  pub asleep-served :
      {qs ts : List Ptr} {t : System}
      → Run c (start_of os head) qs ts t
      → t.phase ≡ asleep
      → t.world.permits ≡ 0
      → t.signals ≡ []
      → (qs ≡ ts) × (t.callers ≡ [] → (p : Ptr) → t.world.ops p ≡ none)
  asleep-served {qs} {ts} {t} r e f g =
      let (queue, v, order) = Run-served c os head good r in
      let v' = in_phase c t queue asleep e v in
      let none_signalled : length t.signals ≡ 0 = rw g refl in
      let q = length_zero queue (omega (arith, v'.woken_up)) in
      (
        order ∙ rw (q, e) (append-nil ts),
        λ gone p. elim (Option-cases (t.world.ops p)) [
          | inl freed ↦ freed
          | inr (o, at_p) ↦
              let op : OpAt c (waits t queue p) (holds t p) (calls t p) (some o) =
                subst (λ x. OpAt c (waits t queue p) (holds t p) (calls t p) x) at_p (v.ops p).0 in
              absurd (
                omega (
                  arith,
                  op.live,
                  nowhere p queue q,
                  nowhere p t.signals g,
                  nowhere p t.callers gone,
                  nowhere p (unserved t.phase) (rw e refl),
                  nowhere p (served_op t.phase) (rw e refl),
                ))
        ],
      )

  -- In every run, for an operation whose creator still has its reference: the operation is in
  -- memory; its event is set exactly when the operation is neither in the list nor with the thread
  -- before its callback has answered; and the part of Read and Write behind the wait gives its
  -- result and number of bytes, and releases it without touching a deleted operation.
  pub complete_lem :
      {qs ts : List Ptr} {t : System} (p : Ptr)
      → Run c (start_of os head) qs ts t
      → 0 < count p t.callers
      → (queue : List Ptr) × (qs ≡ ts ++ outstanding t queue)
        × (o : StreamOp) × (t.world.ops p ≡ some o)
        × ((o.signaled ≡ true) ↔ (count p (outstanding t queue) ≡ 0))
        × (w : World) × (complete p t.world ≡ some ((o.result, o.bytes_transferred), w))
  unfolding complete
  complete_lem {qs} {ts} {t} p r h =
      let (queue, v, order) = Run-served c os head good r in
      let (o, at_p, op) = there c t queue v p (omega arith) in
      let is_plain : t.world.ops p ≡ some (plain o) = at_p ∙ ap some op.bare in
      let b = v.ops p in
      let n = waits t queue p + holds t p + calls t p - 1 in
      let (w, run, at_a, only) =
        op_release-plain p o t.world n is_plain (omega (arith, op.refs)) (omega (arith, b)) in
      let both = count-append p (unserved t.phase) queue in
      (
        queue,
        order,
        o,
        at_p,
        (
          λ set. omega (arith, both, (==_iff (waits t queue p) 0).0 (sym op.answered ∙ set)),
          λ done. op.answered ∙ eq→== (waits t queue p) 0 (omega (arith, both)),
        ),
        w,
        rw (◌>>=◌, at_p, run),
      )

  -- In every run with operations that the stream supports, unless its thread has ended or waits at
  -- a semaphore that is at 0, the thread can take its next step, without a fault, and the step
  -- leaves the place where the thread was.
  pub thread_goes_on :
      {qs ts : List Ptr} {t : System}
      → Run c (start_of os head) qs ts t
      → t.phase ≢ ended
      → (t.phase ≡ asleep → 0 < t.world.permits)
      → (u : System) × Step c t u × (u.phase ≢ t.phase)
  thread_goes_on {t} r live permits =
      let (queue, v, order) = Run-served c os head good r in
      next-Step c t queue t.phase refl v live permits
