-- ===== src/MfList/Ring/Insert.antt =====
-- MFList_Init, MFList_Empty, MFList_InsertTail and MFList_InsertHead of mflist/mflist.c on rings.
use avtalk.Base.{◌≡◌, refl, ◌≢◌, ◌↔◌, true, List, [], ◌∷◌, ◌++◌, arith}
use avtalk.MfList.{Ptr, Links, set_next, set_prev, init, empty, insert_tail, insert_head}
use avtalk.MfList.Ring.{
  NotIn, Distinct, Chain, IsRing, SameOutside, Distinct-snoc, Chain-set_next, Chain-set_prev,
  Chain-prev_ne, Chain-next_ne,
}

pub init-IsRing : (m : Links) (head : Ptr) → IsRing (init head m) head []
unfolding init
init-IsRing m head = record { chain = ground arith; distinct = (tt, tt) }

pub empty_iff :
    (m : Links) (head : Ptr) (xs : List Ptr) → IsRing m head xs → (empty head m ≡ true) ↔ (xs ≡ [])
unfolding empty
empty_iff m head [] r = (λ _. refl, λ _. ground arith)
empty_iff m head (x ∷ xs) r = (λ h. absurd (ground arith), λ h. absurd (ground arith))

Chain-insert_tail :
    (m : Links) (a : Ptr) (xs : List Ptr) (b e : Ptr)
    → Chain m a xs b
    → Distinct (a ∷ xs)
    → NotIn b xs
    → NotIn e (a ∷ xs)
    → e ≢ b
    → Chain (insert_tail b e m) a (xs ++ e ∷ []) b
unfolding insert_tail
Chain-insert_tail m a [] b e c d nb ne q = ground arith
Chain-insert_tail m a (x ∷ xs) b e c d nb ne q =
    let apart : a ≢ m.prev b = Chain-prev_ne m x xs b a c.2 d.0 in
    (ground arith, ground arith, Chain-insert_tail m x xs b e c.2 d.1 nb.1 ne.1 q)

-- MFList_InsertTail of a new entry into a well-linked list gives the well-linked list with that
-- entry at its end, and changes the links of no entry outside it.
pub insert_tail-IsRing :
    (m : Links) (head e : Ptr) (xs : List Ptr)
    → IsRing m head xs
    → NotIn e (head ∷ xs)
    → IsRing (insert_tail head e m) head (xs ++ e ∷ [])
      × SameOutside (e ∷ head ∷ xs) m (insert_tail head e m)
unfolding insert_tail
insert_tail-IsRing m head e xs r n = (
  record {
    chain = Chain-insert_tail m head xs head e r.chain r.distinct r.distinct.0 n n.0;
    distinct = Distinct-snoc (head ∷ xs) e r.distinct n;
  },
  λ p o. let apart : p ≢ m.prev head = Chain-prev_ne m head xs head p r.chain o.1 in ground arith,
)

-- `MFList_InsertHead` with the successor of the head named.
insert_head_at :
    (m : Links) (a e x : Ptr)
    → m.next a ≡ x
    → e ≢ a
    → insert_head a e m ≡ set_next a e (set_prev x e (set_next e x (set_prev e a m)))
unfolding insert_head
insert_head_at m a e x p q = ground arith

Chain-insert_head :
    (m : Links) (a : Ptr) (xs : List Ptr) (b e : Ptr)
    → Chain m a xs b
    → Distinct (a ∷ xs)
    → NotIn b xs
    → NotIn e (a ∷ xs)
    → e ≢ b
    → Chain (insert_head a e m) a (e ∷ xs) b
unfolding insert_head
Chain-insert_head m a [] b e c d nb ne q = ground arith
Chain-insert_head m a (x ∷ xs) b e c d nb ne q =
    let rest : Chain (insert_head a e m) x xs b = rw (insert_head_at m a e x c.0 ne.0) (
      Chain-set_next _ x xs b a e d.0 (
        Chain-set_prev _ x xs b x e d.1.0 (ground arith)
          (Chain-set_next _ x xs b e x ne.1 (Chain-set_prev _ x xs b e a ne.1.1 q c.2)))) in
    (ground arith, ground arith, (ground arith, ground arith, rest))

-- MFList_InsertHead of a new entry into a well-linked list gives the well-linked list with that
-- entry in front, and changes the links of no entry outside it.
pub insert_head-IsRing :
    (m : Links) (head e : Ptr) (xs : List Ptr)
    → IsRing m head xs
    → NotIn e (head ∷ xs)
    → IsRing (insert_head head e m) head (e ∷ xs)
      × SameOutside (e ∷ head ∷ xs) m (insert_head head e m)
unfolding insert_head
insert_head-IsRing m head e xs r n = (
  record {
    chain = Chain-insert_head m head xs head e r.chain r.distinct r.distinct.0 n n.0;
    distinct = ((ground arith, r.distinct.0), (n.1, r.distinct.1));
  },
  λ p o.
      let apart : p ≢ m.next head = Chain-next_ne m head xs head p r.chain o.1.1 o.1.0 in
      ground arith,
)
