-- ===== src/MfList/Queue.antt =====
-- The lists of mflist/mflist.c as their callers use them: entries are queued at either end, and
-- mfbroker/mfbroker.c takes the first one off while the list is not empty.
use avtalk.Base.{
  ◌≡◌, refl, Option, none, some, List, [], ◌∷◌, ◌++◌, arith, Bool-cases, inl, inr, if◌then◌else◌,
}
use avtalk.MfList.{Ptr, Links, empty, insert_tail, insert_head, remove}
use avtalk.MfList.Ring.{NotIn, IsRing}
use avtalk.MfList.Ring.Insert.{empty_iff, insert_tail-IsRing, insert_head-IsRing}
use avtalk.MfList.Ring.Remove.{remove-IsRing}

-- The first entry, taken off the list; `none` from an empty list.
unfoldable pub take_first : Ptr → Links → Option Ptr × Links
take_first head m =
    if empty head m then (none, m) else (let entry = m.next head in (some entry, remove entry m))

pub data Op : Type 0 where
  put_tail put_head : Ptr → Op
  take : Op

unfoldable pub step : Ptr → Op → Links → Option Ptr × Links
step head (put_tail e) m = (none, insert_tail head e m)
step head (put_head e) m = (none, insert_head head e m)
step head take m = take_first head m

-- What the links come to, and the entries that were taken, in order.
unfoldable pub run : Ptr → List Op → Links → List (Option Ptr) × Links
run head [] m = ([], m)
run head (o ∷ os) m =
    let (out, m') = step head o m in let (outs, m'') = run head os m' in (out ∷ outs, m'')

-- The same on a plain sequence of entries.
unfoldable pub spec_step : Op → List Ptr → Option Ptr × List Ptr
spec_step (put_tail e) xs = (none, xs ++ e ∷ [])
spec_step (put_head e) xs = (none, e ∷ xs)
spec_step take [] = (none, [])
spec_step take (x ∷ xs) = (some x, xs)

unfoldable pub spec_run : List Op → List Ptr → List (Option Ptr) × List Ptr
spec_run [] xs = ([], xs)
spec_run (o ∷ os) xs =
    let (out, xs') = spec_step o xs in let (outs, xs'') = spec_run os xs' in (out ∷ outs, xs'')

-- Each entry that is queued is neither the head nor in the list at that moment.
abbrev pub Allowed : Ptr → Op → List Ptr → Type 0
Allowed head (put_tail e) xs = NotIn e (head ∷ xs)
Allowed head (put_head e) xs = NotIn e (head ∷ xs)
Allowed head take xs = Unit {0}

abbrev pub AllAllowed : Ptr → List Op → List Ptr → Type 0
AllAllowed head [] xs = Unit {0}
AllAllowed head (o ∷ os) xs = Allowed head o xs × AllAllowed head os (spec_step o xs).1

take_first_lem :
    (m : Links) (head : Ptr) (xs : List Ptr)
    → IsRing m head xs
    → ((take_first head m).0 ≡ (spec_step take xs).0)
      × IsRing (take_first head m).1 head (spec_step take xs).1
unfolding take_first spec_step
take_first_lem m head [] r = rw ((empty_iff m head [] r).1 refl) (refl, r)
take_first_lem m head (x ∷ xs) r = elim (Bool-cases (empty head m)) [
  | inl e ↦ absurd (let h : x ∷ xs ≡ [] = (empty_iff m head (x ∷ xs) r).0 e in cc)
  | inr e ↦ rw (e, r.chain.0) (refl, (remove-IsRing m head [] x xs r).0)
]

step_lem :
    (m : Links) (head : Ptr) (o : Op) (xs : List Ptr)
    → IsRing m head xs
    → Allowed head o xs
    → ((step head o m).0 ≡ (spec_step o xs).0) × IsRing (step head o m).1 head (spec_step o xs).1
unfolding step spec_step
step_lem m head (put_tail e) xs r a = (refl, (insert_tail-IsRing m head e xs r a).0)
step_lem m head (put_head e) xs r a = (refl, (insert_head-IsRing m head e xs r a).0)
step_lem m head take xs r a = take_first_lem m head xs r

-- For every sequence of insertions at either end and removals of the first entry, in which no entry
-- is inserted that is already in the list, the linked entries in memory hold the same sequence as a
-- plain list under the same operations, and the same entries are taken.
pub run-spec_run :
    (m : Links) (head : Ptr) (os : List Op) (xs : List Ptr)
    → IsRing m head xs
    → AllAllowed head os xs
    → ((run head os m).0 ≡ (spec_run os xs).0) × IsRing (run head os m).1 head (spec_run os xs).1
unfolding run spec_run
run-spec_run m head [] xs r a = (refl, r)
run-spec_run m head (o ∷ os) xs r a =
    let (same, ring) = step_lem m head o xs r a.0 in
    let (outs, end) = run-spec_run (step head o m).1 head os (spec_step o xs).1 ring a.1 in
    (ground arith, end)
