-- ===== src/MfList/Ring/Remove.antt =====
-- MFList_Remove of mflist/mflist.c on rings.
use avtalk.Base.{◌≡◌, ◌≢◌, List, [], ◌∷◌, ◌++◌, arith}
use avtalk.MfList.{Ptr, Links, set_next, set_prev, remove}
use avtalk.MfList.Ring.{
  NotIn, Distinct, Chain, IsRing, SameOutside, NotIn-append, NotIn-parts, Chain-set_next,
  Chain-set_prev, Chain-prev_ne, Chain-next_ne, Chain-split,
}

-- `MFList_Remove` with the neighbours of the entry named.
remove_at :
    (m : Links) (e p n : Ptr)
    → m.prev e ≡ p
    → m.next e ≡ n
    → e ≢ p
    → e ≢ n
    → remove e m ≡ set_prev e e (set_next e e (set_next p n (set_prev n p m)))
unfolding remove
remove_at m e p n hp hn qp qn = ground arith

-- The chain behind the removed entry is joined to what stands before it.
Chain-remove_first :
    (m : Links) (a e : Ptr) (ys : List Ptr) (b : Ptr)
    → m.next a ≡ e
    → Chain m e ys b
    → m.prev e ≡ a
    → NotIn a ys
    → Distinct (e ∷ ys)
    → NotIn b ys
    → e ≢ a
    → e ≢ b
    → Chain (remove e m) a ys b
unfolding remove
Chain-remove_first m a e [] b f c p na d nb q r = ground arith
Chain-remove_first m a e (y ∷ ys) b f c p na d nb q r =
    let rest : Chain (remove e m) y ys b = rw (remove_at m e a y p c.0 q d.0.0) (
      Chain-set_prev _ y ys b e e d.0.1 r (
        Chain-set_next _ y ys b e e d.0 (
          Chain-set_next _ y ys b a y na
            (Chain-set_prev _ y ys b y a d.1.0 (ground arith) c.2)))) in
    (ground arith, ground arith, rest)

Chain-remove :
    (m : Links) (a : Ptr) (xs : List Ptr) (e : Ptr) (ys : List Ptr) (b : Ptr)
    → Chain m a (xs ++ e ∷ ys) b
    → Distinct (a ∷ xs ++ e ∷ ys)
    → NotIn b (xs ++ e ∷ ys)
    → e ≢ b
    → Chain (remove e m) a (xs ++ ys) b
unfolding remove
Chain-remove m a [] e ys b c d nb q =
    Chain-remove_first m a e ys b c.0 c.2 c.1 d.0.1 d.1 nb.1 (ground arith) q
Chain-remove m a (x ∷ xs) e ys b c d nb q =
    let (before, after) = Chain-split m x xs e ys b c.2 in
    let (xl, xr) = NotIn-parts x xs (e ∷ ys) d.1.0 in
    let (al, ar) = NotIn-parts a (x ∷ xs) (e ∷ ys) d.0 in
    let a1 : a ≢ m.prev e = Chain-prev_ne m x xs e a before al in
    let x1 : x ≢ m.next e = Chain-next_ne m e ys b x after xr.1 (ground arith) in
    (ground arith, ground arith, Chain-remove m x xs e ys b c.2 d.1 nb.1 q)

Distinct-remove :
    (xs : List Ptr) (e : Ptr) (ys : List Ptr) → Distinct (xs ++ e ∷ ys) → Distinct (xs ++ ys)
Distinct-remove [] e ys d = d.1
Distinct-remove (x ∷ xs) e ys d =
    let (l, r) = NotIn-parts x xs (e ∷ ys) d.0 in
    (NotIn-append x xs ys l r.1, Distinct-remove xs e ys d.1)

-- MFList_Remove of any entry of a well-linked list gives the well-linked list of the other entries
-- in their order, makes the entry an empty list of its own, and changes the links of no entry
-- outside.
pub remove-IsRing :
    (m : Links) (head : Ptr) (xs : List Ptr) (e : Ptr) (ys : List Ptr)
    → IsRing m head (xs ++ e ∷ ys)
    → IsRing (remove e m) head (xs ++ ys)
      × IsRing (remove e m) e []
      × SameOutside (head ∷ xs ++ e ∷ ys) m (remove e m)
unfolding remove
remove-IsRing m head xs e ys r =
    let (before, after) = Chain-split m head xs e ys head r.chain in
    let (hl, hr) = NotIn-parts head xs (e ∷ ys) r.distinct.0 in
    (
      record {
        chain = Chain-remove m head xs e ys head r.chain r.distinct r.distinct.0 (ground arith);
        distinct = Distinct-remove (head ∷ xs) e ys r.distinct;
      },
      record { chain = ground arith; distinct = (tt, tt) },
      λ p o.
          let (pl, pr) = NotIn-parts p (head ∷ xs) (e ∷ ys) o in
          let p1 : p ≢ m.prev e = Chain-prev_ne m head xs e p before pl in
          let p2 : p ≢ m.next e = Chain-next_ne m e ys head p after pr.1 pl.0 in ground arith,
    )
