-- ===== src/MfStream/ByteStream/System/Callers.antt =====
-- The steps of the callers keep the invariant of a stream.
use mathlib.Core.Path.{subst}
use avtalk.Base.{
  ℕ, ◌+◌, ◌<◌, ◌≡◌, refl, sym, ap, ◌∙◌, true, none, some, List, [], ◌∷◌, ◌++◌, ltb, arith, eq→==,
  ◌==◌, if◌then◌else◌, length, length-append, inl, inr, Option-cases,
}
use avtalk.MfList.{init}
use avtalk.MfList.Ring.{NotIn}
use avtalk.MfMemory.{Ptr}
use avtalk.MfStream.{op_release, StreamOp, World, OpType, OpAnswers, fresh_op}
use avtalk.MfStream.Entries.{link_last-IsRing, init-fresh}
use avtalk.MfStream.ByteStream.{Callbacks, supports}
use avtalk.MfStream.ByteStream.System.{System, IsFresh}
use avtalk.MfStream.ByteStream.System.Effects.{plain, Queues, OpsOnly, op_release-plain}
use avtalk.MfStream.ByteStream.System.Invariant.{
  count, count-append, NotIn-of_count, IsOp, OpAt, Ops-put, Ops-same, Ops-released, same_state,
  unserved, served_op, IsValid, waits, holds, calls,
}

module _ (c : Callbacks) (s : System) (queue : List Ptr) (valid : IsValid c s queue) where
  -- An address that is free stands nowhere.
  free_counts : (p : Ptr) → s.world.ops p ≡ none → waits s queue p + holds s p + calls s p ≡ 0
  free_counts p f =
      subst (λ o. OpAt c (waits s queue p) (holds s p) (calls s p) o) f (valid.ops p).0

  pub submitted-IsValid :
      (os : OpAnswers) (type : OpType) (buffer : Ptr) (n : ℕ) (p : Ptr) (v : World)
      → IsFresh s.world os p
      → supports c type ≡ true
      → Queues s.world (init p s.world.links) p (fresh_op type n buffer os.event) v
      → IsValid c (record s { world = v; signals = p ∷ s.signals }) (queue ++ p ∷ [])
  submitted-IsValid os type buffer n p v (e, live, f, off, room) has q =
      let zero_at = free_counts p f in
      let self = eq→== p p refl in
      let apart : NotIn p (s.world.head ∷ queue) = (off, NotIn-of_count p queue (omega arith)) in
      let t : System = record s { world = v; signals = p ∷ s.signals } in
      let added = count-append p queue (p ∷ []) in
      let one : waits t (queue ++ p ∷ []) p ≡ 1 = ground arith in
      let call : calls t p ≡ 1 = ground arith in
      record {
        ring =
            rw (q.links_at, q.rest.0)
              (link_last-IsRing (init p s.world.links) s.world.head p queue
                (init-fresh s.world.links s.world.head p queue valid.ring apart) apart);
        ops =
            Ops-put c (waits s queue) (holds s) (calls s) (waits t (queue ++ p ∷ [])) (holds t)
              (calls t) s.world.ops v.ops p
              (some (record (fresh_op type n buffer os.event) { refs = 2 })) valid.ops
              (λ a d. (ground (arith, count-append a queue (p ∷ [])), refl, ground arith)) q.ops_at
              (record {
                refs = omega arith;
                live = omega arith;
                answered = rw one refl;
                supported = has;
                bare = refl;
              })
              (omega arith, omega arith);
        pending =
            omega (arith, valid.pending, q.pending_at, length-append queue (p ∷ []), valid.bounded);
        bounded = omega (arith, q.pending_at, valid.bounded);
        flushed =
            let inc : v.pending ≡ s.world.pending + 1 =
              omega (arith, q.pending_at, valid.bounded) in
            ground (arith, q.flushed_at, valid.flushed);
        woken_up = omega (arith, valid.woken_up, length-append queue (p ∷ []));
      }

  -- An operation that stands in the list is there.
  pub there :
      (p : Ptr)
      → 0 < waits s queue p + holds s p + calls s p
      → (o : StreamOp) × (s.world.ops p ≡ some o)
        × IsOp c (waits s queue p) (holds s p) (calls s p) o
  there p h = elim (Option-cases (s.world.ops p)) [
    | inl e ↦ absurd (omega (arith, free_counts p e))
    | inr (o, e) ↦
        (o, e, subst (λ x. OpAt c (waits s queue p) (holds s p) (calls s p) x) e (valid.ops p).0)
  ]

  pub notified-IsValid :
      (xs : List Ptr) (p : Ptr) (ys : List Ptr)
      → s.signals ≡ xs ++ p ∷ ys
      → IsValid c
          (record s {
            world = record s.world {
              permits =
                  if ltb s.world.permits 0x7fffffff then s.world.permits + 1 else s.world.permits;
            };
            signals = xs ++ ys;
            callers = p ∷ s.callers;
          })
          queue
  notified-IsValid xs p ys e =
      let t : System = record s { signals = xs ++ ys; callers = p ∷ s.callers } in
      let shorter : length s.signals ≡ length xs + 1 + length ys =
        rw e (omega (arith, length-append xs (p ∷ ys))) in
      let moved = λ (a : Ptr).
        let m : calls t a ≡ calls s a =
          rw e (omega (arith, count-append a xs (p ∷ ys), count-append a xs ys)) in
        m in
      record {
        ring = valid.ring;
        ops =
            Ops-same c (waits s queue) (holds s) (calls s) (waits s queue) (holds s) (calls t)
              s.world.ops valid.ops (λ a. (refl, refl, moved a));
        pending = valid.pending;
        bounded = valid.bounded;
        flushed = valid.flushed;
        woken_up =
            ground
              (arith, valid.woken_up, shorter, valid.pending, valid.bounded, length-append xs ys);
      }

  pub left-IsValid :
      (xs : List Ptr) (p : Ptr) (ys : List Ptr) (refs : ℕ) (v : World)
      → s.callers ≡ xs ++ p ∷ ys
      → op_release p s.world ≡ some (refs, v)
      → IsValid c (record s { world = v; callers = xs ++ ys }) queue
  left-IsValid xs p ys refs v e run =
      let t : System = record s { world = v; callers = xs ++ ys } in
      let here : count p s.callers ≡ count p (xs ++ ys) + 1 =
        rw e (ground (arith, count-append p xs (p ∷ ys), count-append p xs ys)) in
      let (o, at_p, op) = there p (omega arith) in
      let n =
        count p (unserved s.phase)
        + count p queue
        + count p (served_op s.phase)
        + count p s.signals
        + count p (xs ++ ys) in
      let is_plain : s.world.ops p ≡ some (plain o) = at_p ∙ ap some op.bare in
      let (u, run', at_a, only) =
        op_release-plain p o s.world n is_plain (omega (arith, op.refs))
          (omega (arith, valid.ops p)) in
      let same : v ≡ u = same_state refs n v u (sym run ∙ run') in
      let fields : OpsOnly s.world v = rw same only in
      record {
        ring = rw (fields.0, fields.3.0) valid.ring;
        ops =
            Ops-released c (waits s queue) (holds s) (calls s) (waits s queue) (holds s) (calls t)
              s.world.ops v.ops p o n valid.ops
              (λ a d. (
                refl,
                refl,
                rw e (ground (arith, count-append a xs (p ∷ ys), count-append a xs ys)),
              ))
              (λ a. rw same (at_a a)) op refl (omega arith) (omega (arith, valid.ops p));
        pending = fields.1 ∙ valid.pending;
        bounded = omega (arith, fields.1, valid.bounded);
        flushed = fields.2 ∙ valid.flushed ∙ ap (λ (i : ℕ). i == 0) (sym fields.1);
        woken_up = omega (arith, valid.woken_up, fields.3.2);
      }
