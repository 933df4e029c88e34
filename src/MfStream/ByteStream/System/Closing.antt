-- ===== src/MfStream/ByteStream/System/Closing.antt =====
-- What becomes of queued operations once the stream is closed.
use mathlib.Core.Path.{subst}
use avtalk.Base.{
  ◌+◌, ◌<◌, ◌≡◌, refl, sym, ap, ◌∙◌, false, some, List, [], ◌++◌, arith, append-nil, append_assoc,
  ne→==,
}
use avtalk.MfMemory.{Ptr}
use avtalk.MfStream.{StreamOp}
use avtalk.MfStream.ByteStream.{Callbacks, Answers}
use avtalk.MfStream.ByteStream.System.{
  ended, System, Step, submitted, notified, left, closed, goes_on, stops, wakes, finds_none, takes,
  serves, counts, drops, queued, served, Run, here, next,
}
use avtalk.MfStream.ByteStream.System.Invariant.{count, count-append, IsValid, unserved, waits}
use avtalk.MfStream.ByteStream.System.Callers.{there}
use avtalk.MfStream.ByteStream.System.Order.{
  outstanding, Step-Kept, IsStarted, start_of, Run-served,
}

-- The thread does nothing any more, and no caller serves an operation.
ended-Step :
    {c : Callbacks} {s t : System} (st : Step c s t)
    → s.phase ≡ ended
    → (t.phase ≡ ended) × (served st ≡ [])
ended-Step (submitted os type buffer n p w fresh has run) e = (e, refl)
ended-Step (notified xs p ys w q run) e = (e, refl)
ended-Step (left xs p ys refs w q run) e = (e, refl)
ended-Step (closed w run) e = (e, refl)
ended-Step (goes_on h going) e = absurd (cc)
ended-Step (stops h over) e = absurd (cc)
ended-Step (wakes h permits) e = absurd (cc)
ended-Step (finds_none w h run) e = absurd (cc)
ended-Step (takes p w h run) e = absurd (cc)
ended-Step (serves p answer moved w h run) e = absurd (cc)
ended-Step (counts p w h run) e = absurd (cc)
ended-Step (drops p refs w h run) e = absurd (cc)

module _ (c : Callbacks) (s : System) (queue : List Ptr) (over : s.phase ≡ ended)
    (valid : IsValid c s queue) where
  ended_run :
      {qs ts : List Ptr} {t : System}
      → Run c s qs ts t
      → (t.phase ≡ ended) × (ts ≡ []) × IsValid c t (queue ++ qs)
  ended_run here = (over, refl, rw (append-nil queue) valid)
  ended_run (next {qs} {ts} {t} {u} r st) =
      let (e, none_yet, v) = ended_run r in
      let (e', none_now) = ended-Step st e in
      let (queue', v', order) = Step-Kept c (queue ++ qs) st v in
      let same : (queue ++ qs) ++ queued st ≡ queue' =
        ap (λ ph. (unserved ph ++ (queue ++ qs)) ++ queued st) (sym e)
        ∙ order
        ∙ ap (λ (l : List Ptr). l ++ outstanding u queue') none_now
        ∙ ap (λ ph. unserved ph ++ queue') e' in
      (
        e',
        rw (none_yet, none_now) refl,
        subst (λ l. IsValid c u l) (sym same ∙ append_assoc queue qs (queued st)) v',
      )

-- Once the thread has ended, as it does after Close, an operation that was queued and not served
-- before is never served: whatever the callers do from then on, nothing is served, the operation
-- stays in memory and its event is not set, so that a Read or Write waits for it for ever.
pub ended-waits :
    (c : Callbacks) (os : Answers) (head : Ptr) (p : Ptr) {qs ts : List Ptr} {s : System}
    {qs' ts' : List Ptr} {t : System}
    → IsStarted os
    → Run c (start_of os head) qs ts s
    → s.phase ≡ ended
    → count p ts < count p qs
    → Run c s qs' ts' t
    → (ts' ≡ []) × (o : StreamOp) × (t.world.ops p ≡ some o) × (o.signaled ≡ false)
ended-waits c os head p {qs} {ts} {s} {qs'} {ts'} {t} good before over h r =
    let (queue, valid, order) = Run-served c os head good before in
    let (e, none_served, v) = ended_run c s queue over valid r in
    let waiting : qs ≡ ts ++ queue = order ∙ ap (λ ph. ts ++ (unserved ph ++ queue)) over in
    let more : count p qs ≡ count p ts + count p queue =
      ap (λ (l : List Ptr). count p l) waiting ∙ count-append p ts queue in
    let longer = count-append p queue qs' in
    let (o, at_p, op) = there c t (queue ++ qs') v p (omega (arith, longer, more)) in
    (
      none_served,
      o,
      at_p,
      op.answered ∙ ne→== (waits t (queue ++ qs') p) 0 (λ z. omega (arith, longer, more)),
    )
