-- ===== src/MfStream/ByteStream/System/Effects.antt =====
-- What each step of mfstream/mfstream-impl.cpp does to the state, field by field.
use avtalk.Base.{
  ℕ, zero, suc, ◌+◌, ◌^◌, ◌<◌, ◌≡◌, refl, ◌≢◌, true, false, Option, none, some, ◌∷◌, ltb, arith,
  ne→==, eq→==, ◌==◌, if◌then◌else◌,
}
use avtalk.Base.Fault.{◌>>=◌}
use avtalk.MfList.{Links, init}
use avtalk.MfMemory.{Ptr, null, s_ok, long_inc, long_dec}
use avtalk.MfStream.{
  OpType, World, StreamOp, put, OpAnswers, op_add_ref, op_release, op_delete, new_op, fresh_op,
  link_last, insert, finish,
}
use avtalk.MfStream.ByteStream.{
  Callbacks, submit, enqueue, notify, serve, count_down, supports, stored_or,
}
use avtalk.MfStream.ByteStream.System.{IsFresh}

-- Nothing but operations, links, `pending`, `flushed` and `closed_handles` differs.
abbrev pub SameRest : World → World → Type 0
SameRest w v =
    (v.head ≡ w.head) × (v.closed ≡ w.closed) × (v.permits ≡ w.permits) × (v.objects ≡ w.objects)

abbrev pub OpsOnly : World → World → Type 0
OpsOnly w v = (v.links ≡ w.links) × (v.pending ≡ w.pending) × (v.flushed ≡ w.flushed) × SameRest w v

-- `m` are the links before the operation is linked in.
pub record Queues (w : World) (m : Links) (p : Ptr) (o : StreamOp) (v : World) : Type 0 where
  pub ops_at : (a : Ptr) → v.ops a ≡ put p (some (record o { refs = long_inc o.refs })) w.ops a
  pub links_at : v.links ≡ link_last w.head p m
  pub pending_at : v.pending ≡ long_inc w.pending
  pub flushed_at : v.flushed ≡ (if long_inc w.pending == 1 then false else w.flushed)
  pub rest : SameRest w v

-- The object after each change that NewInstance makes to it.
abbrev built : Ptr → StreamOp → (Ptr → Option StreamOp) → Ptr → Option StreamOp
built p o ops =
    put p (some (record o { refs = 1 }))
      (put p (some (record o { refs = 2 })) (put p (some o) (put p (some o) ops)))

new_op_lem :
    (os : OpAnswers) (type : OpType) (buffer : Ptr) (length : ℕ) (p : Ptr) (w : World)
    → os.address ≡ some p
    → os.event ≢ 0
    → new_op os type buffer length null null w
      ≡ some (
        (s_ok, some p),
        record w {
          ops = built p (fresh_op type length buffer os.event) w.ops;
          links = init p w.links;
        },
      )
unfolding new_op op_add_ref op_release op_delete
new_op_lem os type buffer length p w e live =
    let made = ne→== os.event 0 live in let same = eq→== p p refl in rw e (rw made (ground arith))

module _ (p : Ptr) (o : StreamOp) (w : World) (there : w.ops p ≡ some o) where
  pub op_add_ref_lem :
      op_add_ref p w
      ≡ some (
        long_inc o.refs,
        record w { ops = put p (some (record o { refs = long_inc o.refs })) w.ops },
      )
  unfolding op_add_ref
  op_add_ref_lem = ground arith

  enqueue_lem : (v : World) × (enqueue p w ≡ some (tt, v)) × Queues w w.links p o v
  unfolding enqueue insert op_add_ref
  enqueue_lem =
      let u : World = record w {
        ops = put p (some (record o { refs = long_inc o.refs })) w.ops;
        links = link_last w.head p w.links;
        pending = long_inc w.pending;
      } in
      let v : World = record u { flushed = if long_inc w.pending == 1 then false else w.flushed } in
      (
        v,
        ground arith,
        record {
          ops_at = λ a. refl;
          links_at = refl;
          pending_at = refl;
          flushed_at = refl;
          rest = (refl, refl, refl, refl);
        },
      )

pub submit_lem :
    (os : OpAnswers) (type : OpType) (buffer : Ptr) (length : ℕ) (p : Ptr) (w : World)
    → IsFresh w os p
    → (v : World) × (submit os type buffer length w ≡ some ((s_ok, some p), v))
      × Queues w (init p w.links) p (fresh_op type length buffer os.event) v
unfolding submit
submit_lem os type buffer length p w (e, live, f, off, room) =
    let o = fresh_op type length buffer os.event in
    let made = new_op_lem os type buffer length p w e live in
    let u : World = record w { ops = built p o w.ops; links = init p w.links } in
    let (v, run, q) = enqueue_lem p o u (ground arith) in
    (
      v,
      rw (◌>>=◌, made, ◌>>=◌, run),
      record {
        ops_at = λ a. ground (arith, q.ops_at a);
        links_at = q.links_at;
        pending_at = q.pending_at;
        flushed_at = q.flushed_at;
        rest = q.rest;
      },
    )

abbrev pub plain : StreamOp → StreamOp
plain o = record o { callback = null; state = null; async_result = null }

op_delete_lem :
    (p : Ptr) (o : StreamOp) (w : World)
    → w.ops p ≡ some (plain o)
    → op_delete p w
      ≡ some (
        tt,
        record w {
          ops = put p none w.ops;
          closed_handles = if o.event == 0 then w.closed_handles else o.event ∷ w.closed_handles;
        },
      )
unfolding op_delete
op_delete_lem p o w there = ground arith

-- A Release takes one reference away; the last one deletes the operation.
pub op_release-plain :
    (p : Ptr) (o : StreamOp) (w : World) (n : ℕ)
    → w.ops p ≡ some (plain o)
    → o.refs ≡ suc n
    → n < 2 ^ 32
    → (v : World) × (op_release p w ≡ some (n, v))
      × ((a : Ptr)
          → v.ops a ≡ put p (if n == 0 then none else some (record (plain o) { refs = n })) w.ops a)
      × OpsOnly w v
unfolding op_release
op_release-plain p o w zero there r b =
    let left : long_dec o.refs ≡ 0 = omega arith in
    let u : World = record w { ops = put p (some (record (plain o) { refs = 0 })) w.ops } in
    let gone = op_delete_lem p (record o { refs = 0 }) u (ground arith) in
    (
      record u {
        ops = put p none u.ops;
        closed_handles = if o.event == 0 then w.closed_handles else o.event ∷ w.closed_handles;
      },
      rw (◌>>=◌, there, left, gone, left),
      λ x. ground arith,
      (refl, refl, refl, (refl, refl, refl, refl)),
    )
op_release-plain p o w (suc n) there r b =
    let left : long_dec o.refs ≡ suc n = omega arith in
    let more = ne→== (suc n) 0 (λ e. omega arith) in
    (
      record w { ops = put p (some (record (plain o) { refs = suc n })) w.ops },
      rw (◌>>=◌, there, left, more, left),
      λ x. ground arith,
      (refl, refl, refl, (refl, refl, refl, refl)),
    )

module _ (p : Ptr) (o : StreamOp) (w : World) (there : w.ops p ≡ some o) where
  pub serve_lem :
      (c : Callbacks) (answer : ℕ × Option ℕ) (moved : ℕ)
      → supports c o.type ≡ true
      → (v : World) × (serve c answer moved p w ≡ some (stored_or moved answer.1, v))
        × ((a : Ptr)
            → v.ops a
              ≡ put p
                  (some (record o {
                    bytes_transferred = stored_or moved answer.1;
                    result = answer.0;
                    signaled = true;
                  }))
                  w.ops
                  a)
        × OpsOnly w v
  unfolding serve finish
  serve_lem c (ret, stored) moved h = (
    record w {
      ops =
          put p
            (some (record o {
              bytes_transferred = stored_or moved stored;
              result = ret;
              signaled = true;
            }))
            w.ops;
    },
    ground arith,
    λ a. refl,
    (refl, refl, refl, (refl, refl, refl, refl)),
  )

-- The semaphore and the lock section at the end of a pass.
pub notify_lem :
    (w : World)
    → notify w
      ≡ some
          (tt, record w { permits = if ltb w.permits 0x7fffffff then w.permits + 1 else w.permits })
notify_lem w = ground arith

pub count_down_lem :
    (w : World)
    → count_down w
      ≡ some (
        tt,
        record w {
          pending = long_dec w.pending;
          flushed = if long_dec w.pending == 0 then true else w.flushed;
        },
      )
unfolding count_down
count_down_lem w = ground arith
