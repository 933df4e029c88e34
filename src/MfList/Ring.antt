-- ===== src/MfList/Ring.antt =====
-- What the links of mflist/mflist.c stand for: from the head the `Next` links lead through the
-- entries in order and back, and the `Prev` links run the other way.
pub mod Insert
pub mod Remove
use avtalk.Base.{ℕ, ◌≡◌, ◌≢◌, List, [], ◌∷◌, ◌++◌, arith}
use avtalk.MfList.{Ptr, Links, set_next, set_prev}

-- `p` is none of the addresses.
abbrev pub NotIn : Ptr → List Ptr → Type 0
NotIn p [] = Unit
NotIn p (x ∷ xs) = (p ≢ x) × NotIn p xs

abbrev pub Distinct : List Ptr → Type 0
Distinct [] = Unit
Distinct (x ∷ xs) = NotIn x xs × Distinct xs

-- `a`, then the entries `xs`, then `b`, linked both ways.
abbrev pub Chain : Links → Ptr → List Ptr → Ptr → Type 0
Chain m a [] b = (m.next a ≡ b) × (m.prev b ≡ a)
Chain m a (x ∷ xs) b = (m.next a ≡ x) × (m.prev x ≡ a) × Chain m x xs b

-- The list at `head` holds the entries `xs`, in this order.
pub record IsRing (m : Links) (head : Ptr) (xs : List Ptr) : Type 0 where
  pub chain : Chain m head xs head
  pub distinct : Distinct (head ∷ xs)

-- The two memories agree on every entry that is none of `xs`.
abbrev pub SameOutside : List Ptr → Links → Links → Type 0
SameOutside xs m n = (p : Ptr) → NotIn p xs → (n.next p ≡ m.next p) × (n.prev p ≡ m.prev p)

pub NotIn-append : (p : Ptr) (xs ys : List Ptr) → NotIn p xs → NotIn p ys → NotIn p (xs ++ ys)
NotIn-append p [] ys h k = k
NotIn-append p (x ∷ xs) ys h k = (h.0, NotIn-append p xs ys h.1 k)

pub NotIn-parts : (p : Ptr) (xs ys : List Ptr) → NotIn p (xs ++ ys) → NotIn p xs × NotIn p ys
NotIn-parts p [] ys h = (tt, h)
NotIn-parts p (x ∷ xs) ys h = let (l, r) = NotIn-parts p xs ys h.1 in ((h.0, l), r)

pub Distinct-snoc : (xs : List Ptr) (e : Ptr) → Distinct xs → NotIn e xs → Distinct (xs ++ e ∷ [])
Distinct-snoc [] e d n = (tt, tt)
Distinct-snoc (x ∷ xs) e d n =
    (NotIn-append x xs (e ∷ []) d.0 (omega arith), Distinct-snoc xs e d.1 n.1)

pub Chain-set_next :
    (m : Links) (a : Ptr) (xs : List Ptr) (b p v : Ptr)
    → NotIn p (a ∷ xs)
    → Chain m a xs b
    → Chain (set_next p v m) a xs b
unfolding set_next
Chain-set_next m a [] b p v n c = ground arith
Chain-set_next m a (x ∷ xs) b p v n c = (ground arith, c.1, Chain-set_next m x xs b p v n.1 c.2)

pub Chain-set_prev :
    (m : Links) (a : Ptr) (xs : List Ptr) (b p v : Ptr)
    → NotIn p xs
    → p ≢ b
    → Chain m a xs b
    → Chain (set_prev p v m) a xs b
unfolding set_prev
Chain-set_prev m a [] b p v n q c = ground arith
Chain-set_prev m a (x ∷ xs) b p v n q c = (c.0, ground arith, Chain-set_prev m x xs b p v n.1 q c.2)

-- The entry before the end of a chain is one of the chain's.
pub Chain-prev_ne :
    (m : Links) (a : Ptr) (xs : List Ptr) (b p : Ptr)
    → Chain m a xs b
    → NotIn p (a ∷ xs)
    → p ≢ m.prev b
Chain-prev_ne m a [] b p c n = ground arith
Chain-prev_ne m a (x ∷ xs) b p c n = Chain-prev_ne m x xs b p c.2 n.1

pub Chain-next_ne :
    (m : Links) (a : Ptr) (xs : List Ptr) (b p : Ptr)
    → Chain m a xs b
    → NotIn p xs
    → p ≢ b
    → p ≢ m.next a
Chain-next_ne m a [] b p c n q = ground arith
Chain-next_ne m a (x ∷ xs) b p c n q = ground arith

pub Chain-split :
    (m : Links) (a : Ptr) (xs : List Ptr) (e : Ptr) (ys : List Ptr) (b : Ptr)
    → Chain m a (xs ++ e ∷ ys) b
    → Chain m a xs e × Chain m e ys b
Chain-split m a [] e ys b c = ((c.0, c.1), c.2)
Chain-split m a (x ∷ xs) e ys b c = let (l, r) = Chain-split m x xs e ys b c.2 in ((c.0, c.1, l), r)
