-- ===== src/Tests/Stream.antt =====
-- One stream with one read: queued, served and waited for; or queued and overtaken by Close.
use avtalk.Base.{◌≡◌, ◌↔◌, ◌≢◌, refl, arith, true, false, some, none, List, [], ◌∷◌, ◌++◌}
use avtalk.Base.Fault.{Cmd}
use avtalk.MfList.{Links, init}
use avtalk.MfList.Ring.{NotIn, IsRing}
use avtalk.MfList.Ring.Insert.{init-IsRing}
use avtalk.MfMemory.{Ptr, null, s_ok}
use avtalk.MfStream.{
  read, OpAnswers, World, StreamOp, new_op, op_add_ref, op_release, op_delete, insert, link_last,
  remove_first, finish,
}
use avtalk.MfStream.ByteStream.{
  new_instance, Answers, Callbacks, construct, submit, enqueue, notify, close, take, serve,
  count_down, complete,
}
use avtalk.MfStream.ByteStream.System.{
  at_head, asleep, woken, ended, working, counting, releasing, System, Step, submitted, notified,
  left, closed, goes_on, stops, wakes, takes, serves, counts, drops, Run, here, next,
}
use avtalk.MfStream.ByteStream.System.Order.{IsStarted, start_of, outstanding, Run-served}
use avtalk.MfStream.ByteStream.System.Invariant.{IsValid, count}
use avtalk.MfStream.ByteStream.System.Closing.{ended-waits}
use avtalk.MfStream.Creation.{Handed, Undone, new_instance_unstarted, new_instance-Undone}
use avtalk.MfStream.Entries.{ListOp, constructed, inserted, removed, list_run, list_run-queue_run}
use avtalk.MfStream.ByteStream.System.Runs.{
  flushed-served, asleep-served, complete_lem, thread_goes_on,
}

abbrev both : Callbacks
both = record { has_read = true; has_write = true }

abbrev handles : Answers
handles = record {
  semaphore = 20;
  semaphore_error = 0;
  event = 21;
  event_error = 0;
  thread = 22;
  thread_error = 0;
  garbage = 7;
  co_code = 0;
}

abbrev object : OpAnswers
object = record {
  address = some 5;
  event = 30;
  last_error = 0;
  async_code = 0;
  async_result = null;
}

abbrev after : {A : Type 0} → Cmd World A → World → World
after c w = elim (c w) [ none ↦ w | some (a, v) ↦ v ]

abbrev s0 : System
s0 = start_of handles 1

abbrev w1 : World
unfolding construct submit new_op op_add_ref op_release op_delete enqueue insert
w1 = after (submit object read 100 4) s0.world

abbrev s1 : System
s1 = record s0 { world = w1; signals = 5 ∷ [] }

abbrev s2 : System
s2 = record s1 { world = after notify w1; signals = []; callers = 5 ∷ [] }

submitted_run : Run both s0 (5 ∷ []) [] s2
unfolding construct submit new_op op_add_ref op_release op_delete enqueue insert
submitted_run =
    next
      (next here (
        submitted object read 100 4 5 w1
          (refl, (λ e. omega arith), refl, (λ e. omega arith), omega arith) refl refl))
      (notified [] 5 [] s2.world refl refl)

-- The thread's pass over the operation.
abbrev s3 : System
s3 = record s2 { world = record s2.world { permits = 0 }; phase = woken }

abbrev s4 : System
unfolding take remove_first
s4 = record s3 { world = after take s3.world; phase = working 5 }

abbrev s5 : System
unfolding serve finish
s5 = record s4 {
  world = after (serve both (s_ok, some 3) 0 5) s4.world;
  phase = counting 5;
  moved = 3;
}

abbrev s6 : System
unfolding count_down
s6 = record s5 { world = after count_down s5.world; phase = releasing 5 }

abbrev s7 : System
s7 = record s6 { world = after (op_release 5) s6.world; phase = at_head }

taken_run : Run both s0 (5 ∷ []) [] s4
unfolding construct submit new_op op_add_ref op_release op_delete enqueue insert link_last init take
    remove_first serve finish count_down
taken_run =
    let r = next submitted_run (goes_on refl refl) in
    let r = next r (wakes refl (omega arith)) in next r (takes 5 s4.world refl refl)

served_run : Run both s0 (5 ∷ []) (5 ∷ []) s7
unfolding construct submit new_op op_add_ref op_release op_delete enqueue insert link_last init take
    remove_first serve finish count_down
served_run =
    let r = next taken_run (serves 5 (s_ok, some 3) 3 s5.world refl refl) in
    let r = next r (counts 5 s6.world refl refl) in next r (drops 5 1 s7.world refl refl)

abbrev all_good : IsStarted handles
all_good = ((λ e. omega arith), (λ e. omega arith), (λ e. omega arith), refl)

Run-served_example :
    (queue : List Ptr) × IsValid both s4 queue × ((5 ∷ []) ≡ [] ++ outstanding s4 queue)
Run-served_example = Run-served both handles 1 all_good taken_run

flushed-served_example : ◌≡◌ {A = List Ptr} (5 ∷ []) (5 ∷ [])
unfolding construct submit new_op op_add_ref op_release op_delete enqueue insert link_last init take
    remove_first serve finish count_down
flushed-served_example = flushed-served both handles 1 all_good served_run refl

-- The caller leaves, and the thread goes back to sleep.
abbrev s9 : System
s9 = record s7 { world = after (op_release 5) s7.world; callers = []; phase = asleep }

left_run : Run both s0 (5 ∷ []) (5 ∷ []) s9
unfolding construct submit new_op op_add_ref op_release op_delete enqueue insert link_last init take
    remove_first serve finish count_down
left_run = next (next served_run (left [] 5 [] 0 s9.world refl refl)) (goes_on refl refl)

asleep-served_example :
    (◌≡◌ {A = List Ptr} (5 ∷ []) (5 ∷ [])) × (s9.callers ≡ [] → (p : Ptr) → s9.world.ops p ≡ none)
unfolding construct submit new_op op_add_ref op_release op_delete enqueue insert link_last init take
    remove_first serve finish count_down
asleep-served_example = asleep-served both handles 1 all_good left_run refl refl refl

complete_lem_example :
    (queue : List Ptr) × ((5 ∷ []) ≡ (5 ∷ []) ++ outstanding s7 queue)
    × (o : StreamOp) × (s7.world.ops 5 ≡ some o)
    × ((o.signaled ≡ true) ↔ (count 5 (outstanding s7 queue) ≡ 0))
    × (w : World) × (complete 5 s7.world ≡ some ((o.result, o.bytes_transferred), w))
unfolding s4 s5 s6
complete_lem_example = complete_lem both handles 1 all_good 5 served_run (omega arith)

thread_goes_on_example : (u : System) × Step both s4 u × (u.phase ≢ s4.phase)
unfolding s4
thread_goes_on_example =
    let awake : working 5 ≢ asleep = λ e. cc in
    thread_goes_on both handles 1 all_good taken_run (λ e. cc) (λ e. absurd (awake e))

-- Close comes before the thread looks into the list.
abbrev s_closed : System
unfolding close
s_closed = record s2 { world = after close s2.world; phase = ended }

closed_run : Run both s0 (5 ∷ []) [] s_closed
unfolding construct submit new_op op_add_ref op_release op_delete enqueue insert link_last init take
    remove_first serve finish count_down close
closed_run = next (next submitted_run (closed s_closed.world refl)) (stops refl refl)

ended-waits_example :
    (◌≡◌ {A = List Ptr} [] [])
    × (o : StreamOp) × (s_closed.world.ops 5 ≡ some o)
    × (o.signaled ≡ false)
unfolding s_closed
ended-waits_example = ended-waits both handles 1 5 all_good closed_run refl (omega arith) here

new_instance_unstarted_example :
    let os = record handles { semaphore = 0; semaphore_error = 8 } in
    Handed 8 0 (new_instance os (some 1))
new_instance_unstarted_example =
    (new_instance_unstarted (record handles { semaphore = 0; semaphore_error = 8 }) 1).0
      (omega arith) refl

new_instance-Undone_example :
    Undone
      (record handles { co_code = 0x80010106 })
      (new_instance (record handles { co_code = 0x80010106 }) (some 1))
new_instance-Undone_example =
    new_instance-Undone (record handles { co_code = 0x80010106 }) 1 (λ e. omega arith)
      (λ e. omega arith) (λ e. omega arith) (omega arith)

abbrev unlinked : Links
unlinked = record { next = λ a. 0; prev = λ a. 0 }

abbrev changes : List ListOp
changes =
    removed ∷ constructed 5 ∷ inserted 5 ∷ constructed 6 ∷ inserted 6 ∷ removed ∷ inserted 5 ∷ []

five : NotIn 5 (1 ∷ [])
five = (omega arith, tt)

six : NotIn 6 (1 ∷ 5 ∷ [])
six = (omega arith, (omega arith, tt))

five_again : NotIn 5 (1 ∷ 6 ∷ [])
five_again = (omega arith, (omega arith, tt))

list_run-queue_run_example :
    ((list_run 1 changes (init 1 unlinked)).0
      ≡ none ∷ none ∷ none ∷ none ∷ none ∷ some 5 ∷ none ∷ [])
    × IsRing (list_run 1 changes (init 1 unlinked)).1 1 (6 ∷ 5 ∷ [])
list_run-queue_run_example =
    list_run-queue_run (init 1 unlinked) 1 changes [] (init-IsRing unlinked 1)
      (tt, (five, (five, (six, (six, (tt, (five_again, tt)))))))
