-- ===== src/MfList.antt =====
-- mflist/mflist.c with include/mflist.h: intrusive, circular, doubly linked lists.
-- The memory of the entries is a pair of maps from addresses to the two links, and each C assignment
-- is one update, in the order of the source, so that aliased entries behave as they do there.
pub mod Ring
pub mod Queue
use avtalk.Base.{ℕ, Bool, ◌&&◌, ◌==◌, if◌then◌else◌}

abbrev pub Ptr : Type 0
Ptr = ℕ

-- `MF_LIST_ENTRY`, for all entries at once.
pub record Links : Type 0 where
  pub next : Ptr → Ptr
  pub prev : Ptr → Ptr

abbrev pub update : (Ptr → Ptr) → Ptr → Ptr → Ptr → Ptr
update f p v a = if a == p then v else f a

-- `p->Next = v`
unfoldable pub set_next : Ptr → Ptr → Links → Links
set_next p v m = record m { next = update m.next p v }

-- `p->Prev = v`
unfoldable pub set_prev : Ptr → Ptr → Links → Links
set_prev p v m = record m { prev = update m.prev p v }

unfoldable pub init : Ptr → Links → Links
unfolding set_next set_prev
init head m = set_prev head head (set_next head head m)

unfoldable pub empty : Ptr → Links → Bool
empty head m = m.next head == head && m.prev head == m.next head

unfoldable pub insert_tail : Ptr → Ptr → Links → Links
unfolding set_next set_prev
insert_tail head entry m =
    let m = set_next entry head m in
    let m = set_prev entry (m.prev head) m in
    let m = set_next (m.prev head) entry m in set_prev head entry m

unfoldable pub insert_head : Ptr → Ptr → Links → Links
unfolding set_next set_prev
insert_head head entry m =
    let m = set_prev entry head m in
    let m = set_next entry (m.next head) m in
    let m = set_prev (m.next head) entry m in set_next head entry m

unfoldable pub remove : Ptr → Links → Links
unfolding set_next set_prev init
remove entry m =
    let m = set_prev (m.next entry) (m.prev entry) m in
    let m = set_next (m.prev entry) (m.next entry) m in init entry m
