-- ===== src/MfStream/ByteStream/System/Order.antt =====
-- Every run of a stream and its threads: the invariant, and the order of the operations.
use mathlib.Core.Path.{subst}
use avtalk.Base.{
  ◌+◌, ◌≡◌, refl, sym, ap, ◌∙◌, ◌≢◌, true, none, some, List, [], ◌∷◌, ◌++◌, ltb, ne→==,
  if◌then◌else◌, arith, append-nil, append_assoc,
}
use avtalk.MfList.Ring.Insert.{init-IsRing}
use avtalk.MfMemory.{Ptr, null, s_ok}
use avtalk.MfStream.{succeeded, World}
use avtalk.MfStream.ByteStream.{Answers, construct, Callbacks, close, take, stored_or}
use avtalk.MfStream.ByteStream.System.{
  Phase, at_head, asleep, woken, working, counting, releasing, System, Step, submitted, notified,
  left, closed, goes_on, stops, wakes, finds_none, takes, serves, counts, drops, queued, served,
  Run, here, next,
}
use avtalk.MfStream.ByteStream.System.Effects.{submit_lem, notify_lem}
use avtalk.MfStream.ByteStream.System.Invariant.{IsValid, unserved, same_state}
use avtalk.MfStream.ByteStream.System.Callers.{submitted-IsValid, notified-IsValid, left-IsValid}
use avtalk.MfStream.ByteStream.System.Thread.{
  goes_on-IsValid, stops-IsValid, wakes-IsValid, take_empty, finds_none-IsValid, takes_lem,
  serves_lem, counts_lem, drops_lem,
}

-- What was queued and is not served.
abbrev pub outstanding : System → List Ptr → List Ptr
outstanding s queue = unserved s.phase ++ queue

-- The list behind a step, with the invariant; the step adds to the outstanding operations at their
-- end what it queues, and takes off at their front what it serves.
abbrev Kept : (c : Callbacks) (s t : System) → List Ptr → List Ptr → List Ptr → Type 0
Kept c s t queue new old =
    (queue' : List Ptr) × IsValid c t queue'
    × (outstanding s queue ++ new ≡ old ++ outstanding t queue')

module _ (c : Callbacks) where
  pub in_phase :
      (s : System) (queue : List Ptr) (ph : Phase)
      → s.phase ≡ ph
      → IsValid c s queue
      → IsValid c (record s { phase = ph }) queue
  in_phase s queue ph e v = subst (λ x. IsValid c (record s { phase = x }) queue) e v

  close_lem :
      (s : System) (queue : List Ptr) (w : World)
      → close s.world ≡ some (s_ok, w)
      → IsValid c s queue
      → IsValid c (record s { world = w }) queue
  unfolding close
  close_lem s queue w run v =
      let same : w ≡ record s.world {
        closed = true;
        permits = if ltb s.world.permits 0x7fffffff then s.world.permits + 1 else s.world.permits;
      } =
        same_state s_ok s_ok w _ (sym run ∙ ground arith) in
      rw same (record {
        ring = v.ring;
        ops = v.ops;
        pending = v.pending;
        bounded = v.bounded;
        flushed = v.flushed;
        woken_up = ground (arith, v.woken_up);
      })

  finds_none-Kept :
      (s : System) (queue : List Ptr) (w : World)
      → s.phase ≡ woken
      → take s.world ≡ some (none, w)
      → IsValid c s queue
      → Kept c s (record s { world = w; phase = at_head }) queue [] []
  finds_none-Kept s [] w e run v =
      let at_woken = in_phase s [] woken e v in
      let same = same_state none none w s.world (sym run ∙ take_empty c s at_woken) in
      ([], rw same (finds_none-IsValid c s at_woken), rw e refl)
  finds_none-Kept s (x ∷ queue) w e run v =
      let (u, run', kept) = takes_lem c s x queue (in_phase s (x ∷ queue) woken e v) in
      absurd (cc (sym run ∙ run'))

  takes-Kept :
      (s : System) (queue : List Ptr) (p : Ptr) (w : World)
      → s.phase ≡ woken
      → take s.world ≡ some (some p, w)
      → IsValid c s queue
      → Kept c s (record s { world = w; phase = working p }) queue [] []
  takes-Kept s [] p w e run v = absurd (cc (sym run ∙ take_empty c s (in_phase s [] woken e v)))
  takes-Kept s (x ∷ queue) p w e run v =
      let (u, run', kept) = takes_lem c s x queue (in_phase s (x ∷ queue) woken e v) in
      let same = same_state (some p) (some x) w u (sym run ∙ run') in
      let first : p ≡ x = cc (sym run ∙ run') in
      (queue, rw (same, first) kept, rw (e, first) (append-nil (x ∷ queue)))

  pub Step-Kept :
      {s t : System} (queue : List Ptr) (st : Step c s t)
      → IsValid c s queue
      → Kept c s t queue (queued st) (served st)
  Step-Kept {s} queue (submitted os type buffer n p w fresh has run) v =
      let (u, run', q) = submit_lem os type buffer n p s.world fresh in
      let same = same_state (s_ok, some p) (s_ok, some p) w u (sym run ∙ run') in
      (
        queue ++ p ∷ [],
        submitted-IsValid c s queue v os type buffer n p w fresh has (rw same q),
        append_assoc (unserved s.phase) queue (p ∷ []),
      )
  Step-Kept {s} queue (notified xs p ys w e run) v =
      let same = same_state tt tt w _ (sym run ∙ notify_lem s.world) in
      (queue, rw same (notified-IsValid c s queue v xs p ys e), append-nil (outstanding s queue))
  Step-Kept {s} queue (left xs p ys refs w e run) v =
      (queue, left-IsValid c s queue v xs p ys refs w e run, append-nil (outstanding s queue))
  Step-Kept {s} queue (closed w run) v =
      (queue, close_lem s queue w run v, append-nil (outstanding s queue))
  Step-Kept {s} queue (goes_on e going) v =
      (queue, goes_on-IsValid c s queue (in_phase s queue at_head e v), rw e (append-nil queue))
  Step-Kept {s} queue (stops e over) v =
      (queue, stops-IsValid c s queue (in_phase s queue at_head e v), rw e (append-nil queue))
  Step-Kept {s} queue (wakes e h) v =
      (queue, wakes-IsValid c s queue (in_phase s queue asleep e v) h, rw e (append-nil queue))
  Step-Kept {s} queue (finds_none w e run) v = finds_none-Kept s queue w e run v
  Step-Kept {s} queue (takes p w e run) v = takes-Kept s queue p w e run v
  Step-Kept {s} queue (serves p answer moved w e run) v =
      let (u, run', kept) = serves_lem c s p queue answer (in_phase s queue (working p) e v) in
      let same = same_state moved (stored_or s.moved answer.1) w u (sym run ∙ run') in
      let code : moved ≡ stored_or s.moved answer.1 = cc (sym run ∙ run') in
      (queue, rw (same, code) kept, rw e (append-nil (p ∷ queue)))
  Step-Kept {s} queue (counts p w e run) v =
      let (u, run', kept) = counts_lem c s p queue (in_phase s queue (counting p) e v) in
      let same = same_state tt tt w u (sym run ∙ run') in
      (queue, rw same kept, rw e (append-nil queue))
  Step-Kept {s} queue (drops p refs w e run) v =
      let (n, u, run', kept) = drops_lem c s p queue (in_phase s queue (releasing p) e v) in
      let same = same_state refs n w u (sym run ∙ run') in
      (queue, rw same kept, rw e (append-nil queue))

-- The stream and its thread behind a constructor that succeeded.
abbrev pub start_of : Answers → Ptr → System
start_of os head = record {
  world = construct os head;
  phase = at_head;
  moved = 0;
  signals = [];
  callers = [];
}

abbrev pub IsStarted : Answers → Type 0
IsStarted os = (os.semaphore ≢ 0) × (os.event ≢ 0) × (os.thread ≢ 0) × (succeeded os.co_code ≡ true)

module _ (c : Callbacks) (os : Answers) (head : Ptr) (good : IsStarted os) where
  start-IsValid : IsValid c (start_of os head) []
  unfolding construct
  start-IsValid =
      let (sem, event, thread, co) = good in
      rw (ne→== os.semaphore 0 sem, ne→== os.event 0 event, ne→== os.thread 0 thread)
        (record {
          ring = init-IsRing (record { next = λ _. null; prev = λ _. null }) head;
          ops = λ p. (refl, omega arith, omega arith);
          pending = refl;
          bounded = omega arith;
          flushed = refl;
          woken_up = omega arith;
        })

  chain :
      (qs ts new old out out' : List Ptr)
      → qs ≡ ts ++ out
      → out ++ new ≡ old ++ out'
      → qs ++ new ≡ (ts ++ old) ++ out'
  chain qs ts new old out out' e f =
      ap (λ (l : List Ptr). l ++ new) e
      ∙ append_assoc ts out new
      ∙ ap (λ (l : List Ptr). ts ++ l) f
      ∙ sym (append_assoc ts old out')

  -- For a stream whose constructor succeeded, in every interleaving of its callers and its thread:
  -- the list is well linked, each operation in memory has exactly the references that the list, the
  -- thread and its creator hold, the count of pending operations and the flushed event agree with
  -- the list, the semaphore covers the list, and the operations queued so far, in order, are those
  -- served so far, in order, followed by the one that the thread works on and the list.
  pub Run-served :
      {qs ts : List Ptr} {t : System}
      → Run c (start_of os head) qs ts t
      → (queue : List Ptr) × IsValid c t queue × (qs ≡ ts ++ outstanding t queue)
  Run-served here = ([], start-IsValid, refl)
  Run-served (next {qs} {ts} {t} r st) =
      let (queue, v, order) = Run-served r in
      let (queue', v', order') = Step-Kept c queue st v in
      (queue', v', chain qs ts (queued st) (served st) (outstanding t queue) _ order order')
