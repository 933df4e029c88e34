-- ===== src/Base/Bytes.antt =====
-- Little-endian numbers, and buffers that are cut and overwritten at offsets.
use Prim.Native.Nat.{ℕ, zero, suc, ◌+◌, ◌*◌, ◌/◌, ◌%◌, ◌^◌, ◌<◌, ◌≤◌}
use mathlib.Core.Path.{◌≡◌, refl, ap}
use mathlib.Core.List.{List, [], ◌∷◌, ◌++◌, append-nil, append_assoc}
use native.Mathlib.Omega.{arith}
use native.Mathlib.Nat.{pow-suc}
use avtalk.Base.Lists.{
  length, length-append, length-take, length-drop, take, drop, take-append, drop-append,
  take-append-drop, take_front,
}

-- The `k` bytes of a number in memory, lowest first.
unfoldable pub to_le : ℕ → ℕ → List ℕ
to_le zero n = []
to_le (suc k) n = (n % 256) ∷ to_le k (n / 256)

unfoldable pub from_le : List ℕ → ℕ
from_le [] = 0
from_le (b ∷ bs) = b + 256 * from_le bs

pub length-to_le : (k n : ℕ) → length (to_le k n) ≡ k
unfolding to_le
length-to_le zero n = refl
length-to_le (suc k) n = ap suc (length-to_le k (n / 256))

pub from_le-to_le : (k n : ℕ) → n < 256 ^ k → from_le (to_le k n) ≡ n
unfolding to_le from_le
from_le-to_le zero n h = omega arith
from_le-to_le (suc k) n h = omega (arith, from_le-to_le k (n / 256) (omega (arith, pow-suc 256 k)))

-- The first `k` bytes and the rest.
unfoldable pub cut : ℕ → List ℕ → List ℕ × List ℕ
cut k bs = (take k bs, drop k bs)

pub cut-append : (k : ℕ) (xs ys : List ℕ) → length xs ≡ k → cut k (xs ++ ys) ≡ (xs, ys)
unfolding cut
cut-append k xs ys h = ground (arith, take-append k xs ys h, drop-append k xs ys h)

-- `memcpy(buffer + at, bs, ...)`
unfoldable pub splice : ℕ → List ℕ → List ℕ → List ℕ
splice at bs buffer = take at buffer ++ bs ++ drop (at + length bs) buffer

pub length-splice :
    (at : ℕ) (bs buffer : List ℕ)
    → at + length bs ≤ length buffer
    → length (splice at bs buffer) ≡ length buffer
unfolding splice
length-splice at bs buffer h =
    simp length-append (omega (arith, length-take at buffer, length-drop (at + length bs) buffer))

-- A read in front of what is replaced.
pub read_front :
    (k at p : ℕ) (xs ys : List ℕ)
    → at + k ≤ p
    → p ≤ length xs
    → take k (drop at (take p xs ++ ys)) ≡ take k (drop at xs)
read_front zero at p xs ys h l = refl
read_front (suc k) zero zero xs ys h l = absurd (omega arith)
read_front (suc k) (suc at) zero xs ys h l = absurd (omega arith)
read_front (suc k) at (suc p) [] ys h l = absurd (omega arith)
read_front (suc k) zero (suc p) (x ∷ xs) ys h l =
    ap (λ l. x ∷ l) (read_front k zero p xs ys (omega arith) (omega arith))
read_front (suc k) (suc at) (suc p) (x ∷ xs) ys h l =
    read_front (suc k) at p xs ys (omega arith) (omega arith)

pub read-splice :
    (k at p : ℕ) (bs buffer : List ℕ)
    → at + k ≤ p
    → p ≤ length buffer
    → take k (drop at (splice p bs buffer)) ≡ take k (drop at buffer)
unfolding splice
read-splice k at p bs buffer h l =
    rw (append_assoc, splice) (read_front k at p buffer (bs ++ drop (p + length bs) buffer) h l)

pub splice-nil : (at : ℕ) (buffer : List ℕ) → splice at [] buffer ≡ buffer
unfolding splice
splice-nil at buffer =
    let e : at + 0 ≡ at = omega arith in rw (e, append-nil, take-append-drop at buffer)

pub drop-splice :
    (p : ℕ) (bs buffer : List ℕ)
    → p ≤ length buffer
    → drop p (splice p bs buffer) ≡ bs ++ drop (p + length bs) buffer
unfolding splice
drop-splice p bs buffer h =
    rw (append_assoc, splice)
      (drop-append p (take p buffer) (bs ++ drop (p + length bs) buffer)
        (omega (arith, length-take p buffer)))

-- A write up to the end of the first part.
pub splice_end :
    (at : ℕ) (bs xs ys : List ℕ)
    → at + length bs ≡ length xs
    → splice at bs (xs ++ ys) ≡ (take at xs ++ bs) ++ ys
unfolding splice
splice_end at bs xs ys h =
    rw (take_front at xs ys (omega arith), drop-append (at + length bs) xs ys (omega arith))
