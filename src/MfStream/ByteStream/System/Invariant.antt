-- ===== src/MfStream/ByteStream/System/Invariant.antt =====
-- The invariant of a stream and its threads.
use avtalk.Base.{
  ℕ, zero, suc, ◌+◌, ◌^◌, ◌≤◌, ◌<◌, ◌≡◌, refl, true, false, Option, none, some, List, [], ◌∷◌, ◌++◌,
  arith, ne→==, eq→==, ◌==◌, if◌then◌else◌, length, Bool-cases, inl, inr, ==_iff, ap,
}
use avtalk.MfList.Ring.{NotIn, IsRing}
use avtalk.MfMemory.{Ptr}
use avtalk.MfStream.{StreamOp, World, put}
use avtalk.MfStream.ByteStream.{Callbacks, supports}
use avtalk.MfStream.ByteStream.System.{Phase, woken, working, counting, releasing, System}
use avtalk.MfStream.ByteStream.System.Effects.{plain}

-- How often an address stands in a list.
abbrev pub count : Ptr → List Ptr → ℕ
count p [] = 0
count p (x ∷ xs) = (if p == x then 1 else 0) + count p xs

pub count-append : (p : Ptr) (xs ys : List Ptr) → count p (xs ++ ys) ≡ count p xs + count p ys
count-append p [] ys = omega arith
count-append p (x ∷ xs) ys = omega (arith, count-append p xs ys)

pub NotIn-of_count : (p : Ptr) (xs : List Ptr) → count p xs ≡ 0 → NotIn p xs
NotIn-of_count p [] h = tt
NotIn-of_count p (x ∷ xs) h = (ground arith, NotIn-of_count p xs (ground arith))

pub count-NotIn : (p : Ptr) (xs : List Ptr) → NotIn p xs → count p xs ≡ 0
count-NotIn p [] h = refl
count-NotIn p (x ∷ xs) h = ground (arith, count-NotIn p xs h.1)

-- The operation that the thread has and whose callback has not answered yet, ...
abbrev pub unserved : Phase → List Ptr
unserved (working p) = p ∷ []
unserved _ = []

-- ... that which it has from then on, ...
abbrev pub served_op : Phase → List Ptr
served_op (counting p) = p ∷ []
served_op (releasing p) = p ∷ []
served_op _ = []

-- ... and whether it has one that it has not counted down, or has passed the semaphore.
abbrev pub uncounted : Phase → ℕ
uncounted (working p) = 1
uncounted (counting p) = 1
uncounted _ = 0

abbrev pub awake : Phase → ℕ
awake woken = 1
awake _ = 0

-- An operation that waits `wait` times, is held `hold` times by the thread and `call` times by its
-- creator has that many references; its event is set exactly if it does not wait.
pub record IsOp (c : Callbacks) (wait hold call : ℕ) (o : StreamOp) : Type 0 where
  pub refs : o.refs ≡ wait + hold + call
  pub live : 0 < wait + hold + call
  pub answered : o.signaled ≡ (wait == 0)
  pub supported : supports c o.type ≡ true
  pub bare : o ≡ plain o

abbrev pub OpAt : Callbacks → ℕ → ℕ → ℕ → Option StreamOp → Type 0
OpAt c wait hold call none = wait + hold + call ≡ 0
OpAt c wait hold call (some o) = IsOp c wait hold call o

abbrev pub Ops : Callbacks → (Ptr → ℕ) → (Ptr → ℕ) → (Ptr → ℕ) → (Ptr → Option StreamOp) → Type 0
Ops c wait hold call ops =
    (p : Ptr) → OpAt c (wait p) (hold p) (call p) (ops p) × (wait p + hold p ≤ 1) × (call p ≤ 1)

abbrev pub waits : System → List Ptr → Ptr → ℕ
waits s queue p = count p queue + count p (unserved s.phase)

abbrev pub holds : System → Ptr → ℕ
holds s p = count p (served_op s.phase)

abbrev pub calls : System → Ptr → ℕ
calls s p = count p s.signals + count p s.callers

-- `queue` are the operations in the list.
pub record IsValid (c : Callbacks) (s : System) (queue : List Ptr) : Type 0 where
  pub ring : IsRing s.world.links s.world.head queue
  pub ops : Ops c (waits s queue) (holds s) (calls s) s.world.ops
  pub pending : s.world.pending ≡ length queue + uncounted s.phase
  pub bounded : s.world.pending < 2 ^ 31
  pub flushed : s.world.flushed ≡ (s.world.pending == 0)
  pub woken_up : length queue ≤ s.world.permits + length s.signals + awake s.phase

-- A step that changes one operation, and counts only at its address.
pub Ops-put :
    (c : Callbacks) (w h k w' h' k' : Ptr → ℕ) (ops ops' : Ptr → Option StreamOp) (p : Ptr)
    (o : Option StreamOp)
    → Ops c w h k ops
    → ((a : Ptr) → (a == p) ≡ false → (w' a ≡ w a) × (h' a ≡ h a) × (k' a ≡ k a))
    → ((a : Ptr) → ops' a ≡ put p o ops a)
    → OpAt c (w' p) (h' p) (k' p) o
    → (w' p + h' p ≤ 1) × (k' p ≤ 1)
    → Ops c w' h' k' ops'
Ops-put c w h k w' h' k' ops ops' p o old off at_p new bounds a = elim (Bool-cases (a == p)) [
  | inl e ↦
      let q : a ≡ p = (==_iff a p).0 e in rw (at_p a, q, eq→== p p refl) (new, bounds.0, bounds.1)
  | inr e ↦ let (ew, eh, ek) = off a e in rw (at_p a, e, ew, eh, ek) (old a)
]

-- A step that takes one reference of an operation away, and the operation with the last one.
pub Ops-released :
    (c : Callbacks) (w h k w' h' k' : Ptr → ℕ) (ops ops' : Ptr → Option StreamOp) (p : Ptr)
    (o : StreamOp) (n : ℕ)
    → Ops c w h k ops
    → ((a : Ptr) → (a == p) ≡ false → (w' a ≡ w a) × (h' a ≡ h a) × (k' a ≡ k a))
    → ((a : Ptr)
        → ops' a ≡ put p (if n == 0 then none else some (record (plain o) { refs = n })) ops a)
    → IsOp c (w p) (h p) (k p) o
    → w' p ≡ w p
    → w' p + h' p + k' p ≡ n
    → (w' p + h' p ≤ 1) × (k' p ≤ 1)
    → Ops c w' h' k' ops'
Ops-released c w h k w' h' k' ops ops' p o zero old off at_p op same left bounds =
    Ops-put c w h k w' h' k' ops ops' p none old off at_p left bounds
Ops-released c w h k w' h' k' ops ops' p o (suc n) old off at_p op same left bounds =
    let more = ne→== (suc n) 0 (λ e. omega arith) in
    Ops-put c w h k w' h' k' ops ops' p (some (record (plain o) { refs = suc n })) old off
      (λ a. rw (at_p a, more) refl)
      (record {
        refs = omega arith;
        live = omega arith;
        answered = rw same op.answered;
        supported = op.supported;
        bare = refl;
      })
      bounds

-- A step that changes no operation and no count.
pub Ops-same :
    (c : Callbacks) (w h k w' h' k' : Ptr → ℕ) (ops : Ptr → Option StreamOp)
    → Ops c w h k ops
    → ((a : Ptr) → (w' a ≡ w a) × (h' a ≡ h a) × (k' a ≡ k a))
    → Ops c w' h' k' ops
Ops-same c w h k w' h' k' ops old same a = let (ew, eh, ek) = same a in rw (ew, eh, ek) (old a)

pub same_state :
    {A : Type 0} (a b : A) (w v : World)
    → ◌≡◌ {A = Option (A × World)} (some (a, w)) (some (b, v))
    → w ≡ v
same_state {A} a b w v e =
    ap {A = Option (A × World)} (λ o. elim o [ none ↦ w | some (x, u) ↦ u ]) e
