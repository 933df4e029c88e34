-- ===== src/MfStream/Entries.antt =====
-- The list functions of mfstream/mfstreamop-impl.cpp, which do not use mflist, against those of
-- mflist/mflist.c.
use avtalk.Base.{◌≡◌, ◌≢◌, refl, Option, none, some, List, [], ◌∷◌, ◌++◌, arith, ne→==, eq→==}
use avtalk.MfList.{Ptr, Links, insert_tail, remove, init, set_next, set_prev}
use avtalk.MfList.Ring.{NotIn, IsRing, Chain}
use avtalk.MfList.Ring.Insert.{insert_tail-IsRing}
use avtalk.MfList.Ring.Remove.{remove-IsRing}
use avtalk.MfStream.{link_last, remove_first}

pub link_last-insert_tail : (head p : Ptr) (m : Links) → link_last head p m ≡ insert_tail head p m
unfolding link_last insert_tail
link_last-insert_tail head p m = refl

pub link_last-IsRing :
    (m : Links) (head p : Ptr) (xs : List Ptr)
    → IsRing m head xs
    → NotIn p (head ∷ xs)
    → IsRing (link_last head p m) head (xs ++ p ∷ [])
link_last-IsRing m head p xs r n =
    rw (link_last-insert_tail head p m) (insert_tail-IsRing m head p xs r n).0

-- A chain that `x` is not on depends on no link of `x`.
Chain-same :
    (m n : Links) (x a : Ptr) (xs : List Ptr) (b : Ptr)
    → ((p : Ptr) → p ≢ x → (n.next p ≡ m.next p) × (n.prev p ≡ m.prev p))
    → NotIn x (a ∷ xs)
    → x ≢ b
    → Chain m a xs b
    → Chain n a xs b
Chain-same m n x a [] b same off q c = ground (arith, same a, same b)
Chain-same m n x a (y ∷ xs) b same off q c =
    (ground (arith, same a), ground (arith, same y), Chain-same m n x y xs b same off.1 q c.2)

-- The constructor of an operation that is in no list.
pub init-fresh :
    (m : Links) (head p : Ptr) (xs : List Ptr)
    → IsRing m head xs
    → NotIn p (head ∷ xs)
    → IsRing (init p m) head xs
unfolding init set_next set_prev
init-fresh m head p xs r n = record {
  chain = Chain-same m (init p m) p head xs head (λ a q. ground arith) n n.0 r.chain;
  distinct = r.distinct;
}

-- On a well-linked list that is not empty, RemoveFromList gives the first operation, and
-- MFList_Remove of that entry is the same change of the links followed by MFList_Init of the entry.
pub remove_first-remove :
    (m : Links) (head x : Ptr) (xs : List Ptr)
    → IsRing m head (x ∷ xs)
    → (n : Links) × (remove_first head m ≡ (some x, n)) × (remove x m ≡ init x n)
unfolding remove_first remove
remove_first-remove m head x xs r =
    let first : m.next head ≡ x = r.chain.0 in
    let more = ne→== x head (λ e. ground arith) in
    let n =
      set_next ((set_prev (m.next x) (m.prev x) m).prev x)
        ((set_prev (m.next x) (m.prev x) m).next x) (set_prev (m.next x) (m.prev x) m) in
    (n, rw (first, more), refl)

pub remove_first-IsRing :
    (m : Links) (head x : Ptr) (xs : List Ptr)
    → IsRing m head (x ∷ xs)
    → (n : Links) × (remove_first head m ≡ (some x, n)) × IsRing n head xs
unfolding init set_next set_prev
remove_first-IsRing m head x xs r =
    let (n, run, e) = remove_first-remove m head x xs r in
    let gone : IsRing (init x n) head xs = rw (← e) (remove-IsRing m head [] x xs r).0 in
    (
      n,
      run,
      record {
        chain =
            Chain-same (init x n) n x head xs head (λ p q. ground arith)
              (ground arith, r.distinct.1.0) (ground arith) gone.chain;
        distinct = gone.distinct;
      },
    )

pub remove_first_empty :
    (m : Links) (head : Ptr) → IsRing m head [] → remove_first head m ≡ (none, m)
unfolding remove_first
remove_first_empty m head r = let same = eq→== (m.next head) head r.chain.0 in rw same

-- The code's own changes of the list: the constructor of an operation, Insert and RemoveFromList.
pub data ListOp : Type 0 where
  constructed inserted : Ptr → ListOp
  removed : ListOp

unfoldable pub list_step : Ptr → ListOp → Links → Option Ptr × Links
list_step head (constructed p) m = (none, init p m)
list_step head (inserted p) m = (none, link_last head p m)
list_step head removed m = remove_first head m

unfoldable pub list_run : Ptr → List ListOp → Links → List (Option Ptr) × Links
list_run head [] m = ([], m)
list_run head (o ∷ os) m =
    let (out, m') = list_step head o m in let (outs, m'') = list_run head os m' in (out ∷ outs, m'')

-- The same on the sequence of the operations that wait.
abbrev pub queue_step : ListOp → List Ptr → Option Ptr × List Ptr
queue_step (constructed p) xs = (none, xs)
queue_step (inserted p) xs = (none, xs ++ p ∷ [])
queue_step removed [] = (none, [])
queue_step removed (x ∷ xs) = (some x, xs)

abbrev pub queue_run : List ListOp → List Ptr → List (Option Ptr) × List Ptr
queue_run [] xs = ([], xs)
queue_run (o ∷ os) xs =
    let (out, xs') = queue_step o xs in let (outs, xs'') = queue_run os xs' in (out ∷ outs, xs'')

-- An operation is constructed and inserted while it is not in the list.
abbrev NotListed : Ptr → ListOp → List Ptr → Type 0
NotListed head (constructed p) xs = NotIn p (head ∷ xs)
NotListed head (inserted p) xs = NotIn p (head ∷ xs)
NotListed head removed xs = Unit

abbrev pub AllNotListed : Ptr → List ListOp → List Ptr → Type 0
AllNotListed head [] xs = Unit
AllNotListed head (o ∷ os) xs = NotListed head o xs × AllNotListed head os (queue_step o xs).1

list_step_lem :
    (m : Links) (head : Ptr) (o : ListOp) (xs : List Ptr)
    → IsRing m head xs
    → NotListed head o xs
    → ((list_step head o m).0 ≡ (queue_step o xs).0)
      × IsRing (list_step head o m).1 head (queue_step o xs).1
unfolding list_step
list_step_lem m head (constructed p) xs r n = (refl, init-fresh m head p xs r n)
list_step_lem m head (inserted p) xs r n = (refl, link_last-IsRing m head p xs r n)
list_step_lem m head removed [] r n = rw (remove_first_empty m head r) (refl, r)
list_step_lem m head removed (x ∷ xs) r n =
    let (m', e, ring) = remove_first-IsRing m head x xs r in rw e (refl, ring)

-- On a well-linked list, every sequence of constructions, insertions and removals, in which no
-- operation is constructed or inserted while it is in the list, gives the results of the same
-- sequence on a first-in first-out queue, NULL for a removal from the empty one, and leaves the
-- list well-linked with the operations of that queue in its order.
pub list_run-queue_run :
    (m : Links) (head : Ptr) (os : List ListOp) (xs : List Ptr)
    → IsRing m head xs
    → AllNotListed head os xs
    → ((list_run head os m).0 ≡ (queue_run os xs).0)
      × IsRing (list_run head os m).1 head (queue_run os xs).1
unfolding list_run
list_run-queue_run m head [] xs r n = (refl, r)
list_run-queue_run m head (o ∷ os) xs r n =
    let (out, ring) = list_step_lem m head o xs r n.0 in
    let (outs, end) =
      list_run-queue_run (list_step head o m).1 head os (queue_step o xs).1 ring n.1 in
    (rw (out, outs) refl, end)
