-- ===== src/MfStream/ByteStream/System/Thread.antt =====
-- The steps of the thread of a stream keep the invariant.

use avtalk.Base.{
  ℕ, ◌+◌, ◌-◌, ◌<◌, ◌≡◌, refl, sym, ap, ◌∙◌, true, false, Option, none, some, List, [], ◌∷◌, arith,
  ne→==, eq→==, ◌==◌,
}
use avtalk.MfMemory.{Ptr}
use avtalk.MfStream.{op_release, StreamOp, World}
use avtalk.MfStream.Entries.{remove_first-IsRing, remove_first_empty}
use avtalk.MfStream.ByteStream.{Callbacks, take, serve, count_down, stored_or}
use avtalk.MfStream.ByteStream.System.{
  Phase, at_head, asleep, woken, ended, working, counting, releasing, System,
}
use avtalk.MfStream.ByteStream.System.Effects.{plain, op_release-plain, serve_lem, count_down_lem}
use avtalk.MfStream.ByteStream.System.Invariant.{
  count, Ops-put, Ops-same, Ops-released, IsValid, waits, holds, calls,
}
use avtalk.MfStream.ByteStream.System.Callers.{there}

module _ (c : Callbacks) (s : System) where
  abbrev pub at : Phase → System
  at ph = record s { phase = ph }

  pub goes_on-IsValid :
      (queue : List Ptr) → IsValid c (at at_head) queue → IsValid c (at asleep) queue
  goes_on-IsValid queue v = record {
    ring = v.ring;
    ops = v.ops;
    pending = v.pending;
    bounded = v.bounded;
    flushed = v.flushed;
    woken_up = v.woken_up;
  }

  pub stops-IsValid : (queue : List Ptr) → IsValid c (at at_head) queue → IsValid c (at ended) queue
  stops-IsValid queue v = record {
    ring = v.ring;
    ops = v.ops;
    pending = v.pending;
    bounded = v.bounded;
    flushed = v.flushed;
    woken_up = v.woken_up;
  }

  pub wakes-IsValid :
      (queue : List Ptr)
      → IsValid c (at asleep) queue
      → 0 < s.world.permits
      → IsValid c
          (record s { world = record s.world { permits = s.world.permits - 1 }; phase = woken })
          queue
  wakes-IsValid queue v h = record {
    ring = v.ring;
    ops = v.ops;
    pending = v.pending;
    bounded = v.bounded;
    flushed = v.flushed;
    woken_up = omega (arith, v.woken_up);
  }

  pub take_empty : IsValid c (at woken) [] → take s.world ≡ some (none, s.world)
  unfolding take
  take_empty v = rw (remove_first_empty s.world.links s.world.head v.ring) refl

  pub finds_none-IsValid : IsValid c (at woken) [] → IsValid c (at at_head) []
  finds_none-IsValid v = record {
    ring = v.ring;
    ops = v.ops;
    pending = v.pending;
    bounded = v.bounded;
    flushed = v.flushed;
    woken_up = omega arith;
  }

  pub takes_lem :
      (p : Ptr) (queue : List Ptr)
      → IsValid c (at woken) (p ∷ queue)
      → (w : World) × (take s.world ≡ some (some p, w))
        × IsValid c (record s { world = w; phase = working p }) queue
  unfolding take
  takes_lem p queue v =
      let (n, run, ring) = remove_first-IsRing s.world.links s.world.head p queue v.ring in
      (
        record s.world { links = n },
        rw run refl,
        record {
          ring = ring;
          ops =
              Ops-same c (waits (at woken) (p ∷ queue)) (holds (at woken)) (calls s)
                (waits (at (working p)) queue) (holds (at (working p))) (calls s) s.world.ops v.ops
                (λ a. (omega arith, refl, refl));
          pending = omega (arith, v.pending);
          bounded = v.bounded;
          flushed = v.flushed;
          woken_up = omega (arith, v.woken_up);
        },
      )

  pub serves_lem :
      (p : Ptr) (queue : List Ptr) (answer : ℕ × Option ℕ)
      → IsValid c (at (working p)) queue
      → (w : World) × (serve c answer s.moved p s.world ≡ some (stored_or s.moved answer.1, w))
        × IsValid c
            (record s { world = w; phase = counting p; moved = stored_or s.moved answer.1 })
            queue
  serves_lem p queue answer v =
      let self = eq→== p p refl in
      let (o, at_p, op) = there c (at (working p)) queue v p (ground arith) in
      let (w, run, at_a, only) = serve_lem p o s.world at_p c answer s.moved op.supported in
      let t : System = record s { world = w; phase = counting p } in
      let b = v.ops p in
      let idle : count p queue ≡ 0 = ground arith in
      (
        w,
        run,
        record {
          ring = rw (only.0, only.3.0) v.ring;
          ops =
              Ops-put c (waits (at (working p)) queue) (holds (at (working p))) (calls s)
                (waits t queue) (holds t) (calls t) s.world.ops w.ops p _ v.ops
                (λ a d. (ground arith, ground arith, refl)) at_a
                (record {
                  refs = ground (arith, op.refs);
                  live = ground arith;
                  answered = ground arith;
                  supported = op.supported;
                  bare =
                      ap
                        (λ (x : StreamOp). record x {
                          bytes_transferred = stored_or s.moved answer.1;
                          result = answer.0;
                          signaled = true;
                        })
                        op.bare;
                })
                (ground arith, b.2);
          pending = only.1 ∙ v.pending;
          bounded = omega (arith, only.1, v.bounded);
          flushed = only.2 ∙ v.flushed ∙ ap (λ (i : ℕ). i == 0) (sym only.1);
          woken_up = omega (arith, v.woken_up, only.3.2);
        },
      )

  pub counts_lem :
      (p : Ptr) (queue : List Ptr)
      → IsValid c (at (counting p)) queue
      → (w : World) × (count_down s.world ≡ some (tt, w))
        × IsValid c (record s { world = w; phase = releasing p }) queue
  counts_lem p queue v = (
    _,
    count_down_lem s.world,
    record {
      ring = v.ring;
      ops = v.ops;
      pending = omega (arith, v.pending, v.bounded);
      bounded = omega (arith, v.pending, v.bounded);
      flushed =
          let some_left : (s.world.pending == 0) ≡ false =
            ne→== s.world.pending 0 (λ e. omega (arith, v.pending)) in
          ground (arith, v.flushed);
      woken_up = v.woken_up;
    },
  )

  pub drops_lem :
      (p : Ptr) (queue : List Ptr)
      → IsValid c (at (releasing p)) queue
      → (n : ℕ) × (w : World) × (op_release p s.world ≡ some (n, w))
        × IsValid c (record s { world = w; phase = at_head }) queue
  drops_lem p queue v =
      let self = eq→== p p refl in
      let held : count p (p ∷ []) ≡ 1 = ground arith in
      let (o, at_p, op) = there c (at (releasing p)) queue v p (omega arith) in
      let n = count p queue + count p s.signals + count p s.callers in
      let is_plain : s.world.ops p ≡ some (plain o) = at_p ∙ ap some op.bare in
      let b = v.ops p in
      let (w, run, at_a, only) =
        op_release-plain p o s.world n is_plain (omega (arith, op.refs))
          (omega (arith, b.1, b.2)) in
      let t : System = record s { world = w; phase = at_head } in
      (
        n,
        w,
        run,
        record {
          ring = rw (only.0, only.3.0) v.ring;
          ops =
              Ops-released c (waits (at (releasing p)) queue) (holds (at (releasing p))) (calls s)
                (waits t queue) (holds t) (calls t) s.world.ops w.ops p o n v.ops
                (λ a d. (refl, ground arith, refl)) at_a op refl (omega arith)
                (omega (arith, b.1), b.2);
          pending = only.1 ∙ v.pending;
          bounded = omega (arith, only.1, v.bounded);
          flushed = only.2 ∙ v.flushed ∙ ap (λ (i : ℕ). i == 0) (sym only.1);
          woken_up = omega (arith, v.woken_up, only.3.2);
        },
      )
