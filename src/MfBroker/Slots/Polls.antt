-- ===== src/MfBroker/Slots/Polls.antt =====
-- Which connections the workers of mfbroker/mfbroker.c poll.
use mathlib.Core.Path.{subst}
use avtalk.Base.{
  ℕ, zero, suc, ◌+◌, ◌-◌, ◌*◌, ◌≤◌, ◌<◌, ◌≡◌, refl, sym, ap, ◌∙◌, true, false, Option, none, some,
  List, [], ◌∷◌, arith, length, take, take_all, ◌==◌, if◌then◌else◌, inl, inr, Bool-cases,
}
use avtalk.MfBroker.Slots.{State, is_free, max_connections, next, first, poll_fill, polled}
use avtalk.MfBroker.Slots.Search.{IsFirst, next-IsFirst}

-- The slots in use among the `left` ones from `c` on, in order.
unfoldable pub occupied : (ℕ → State) → ℕ → ℕ → List ℕ
occupied states zero c = []
occupied states (suc left) c =
    let rest = occupied states left (suc c) in if is_free (states c) then rest else c ∷ rest

module _ (states : ℕ → State) where
  occupied_here :
      (left c : ℕ)
      → is_free (states c) ≡ false
      → occupied states (suc left) c ≡ c ∷ occupied states left (suc c)
  unfolding occupied
  occupied_here left c h = rw h refl

  one_on :
      (c k : ℕ)
      → ((j : ℕ) → j < suc k → is_free (states (c + j * 1)) ≡ true)
      → (j : ℕ) → j < k
      → is_free (states (suc c + j * 1)) ≡ true
  one_on c k h j l =
      let s : c + suc j * 1 ≡ suc c + j * 1 = omega arith in rw (sym s) (h (suc j) (omega arith))

  occupied_skip :
      (k left c d total : ℕ)
      → d ≡ c + k
      → total ≡ k + suc left
      → is_free (states d) ≡ false
      → ((j : ℕ) → j < k → is_free (states (c + j * 1)) ≡ true)
      → occupied states total c ≡ d ∷ occupied states left (suc d)
  unfolding occupied
  occupied_skip zero left c d zero e t n h = absurd (omega arith)
  occupied_skip zero left c d (suc total) e t n h =
      let e' : d ≡ c = omega arith in
      let t' : total ≡ left = omega arith in
      let n' : is_free (states c) ≡ false = rw (sym e') n in rw (n', t', e') refl
  occupied_skip (suc k) left c d zero e t n h = absurd (omega arith)
  occupied_skip (suc k) left c d (suc total) e t n h =
      let z : c + 0 * 1 ≡ c = omega arith in
      let free : is_free (states c) ≡ true = rw (sym z) (h 0 (omega arith)) in
      rw free (occupied_skip k left (suc c) d total (omega arith) (omega arith) n (one_on c k h))

  occupied_none :
      (left c : ℕ)
      → ((k : ℕ) → c + k * 1 < c + left → is_free (states (c + k * 1)) ≡ true)
      → occupied states left c ≡ []
  unfolding occupied
  occupied_none zero c h = refl
  occupied_none (suc left) c h =
      let z : c + 0 * 1 ≡ c = omega arith in
      let free : is_free (states c) ≡ true = rw (sym z) (h 0 (omega arith)) in
      rw free (
        occupied_none left (suc c) (λ k l.
          let s : c + suc k * 1 ≡ suc c + k * 1 = omega arith in
          rw (sym s) (h (suc k) (omega arith))))

  occupied_mono :
      (l c d l' : ℕ)
      → c + l ≡ d + l'
      → c ≤ d
      → length (occupied states l' d) ≤ length (occupied states l c)
  unfolding occupied
  occupied_mono zero c d zero e le = omega arith
  occupied_mono zero c d (suc l') e le = absurd (omega arith)
  occupied_mono (suc l) c d l' e le = elim (Bool-cases (d == c)) [
    | inl same ↦
        let dc : d ≡ c = ground arith in
        let ll : l' ≡ suc l = omega arith in rw (dc, ll) (omega arith)
    | inr other ↦
        let i = occupied_mono l (suc c) d l' (omega arith) (ground arith) in
        elim (Bool-cases (is_free (states c))) [ inl f ↦ rw f i | inr f ↦ rw f (omega arith) ]
  ]

  -- From the first slot in use on, one after the other.
  fill_in_order :
      (n left c : ℕ) (o : Option ℕ)
      → c + left ≡ max_connections
      → IsFirst is_free states c max_connections 1 o
      → n ≤ length (occupied states left c)
      → poll_fill states 1 n o ≡ some (take n (occupied states left c))
  unfolding poll_fill
  fill_in_order zero left c o e f h = refl
  fill_in_order (suc n) left c none e f h =
      let z : occupied states left c ≡ [] = occupied_none left c (λ k l. f k (omega arith)) in
      absurd (let w = subst (λ l. suc n ≤ length l) z h in omega arith)
  fill_in_order (suc n) left c (some d) e (k, at, below, used, before) h =
      let l' = max_connections - suc d in
      let s : occupied states left c ≡ d ∷ occupied states l' (suc d) =
        occupied_skip k l' c d left (omega arith) (omega arith) used before in
      let one : d + 1 ≡ suc d = omega arith in
      let i : poll_fill states 1 n (next states 0 (suc d) max_connections 1)
          ≡ some (take n (occupied states l' (suc d))) =
        fill_in_order n l' (suc d) (next states 0 (suc d) max_connections 1) (omega arith)
          (next-IsFirst states 0 (suc d) max_connections 1 (omega arith) (omega arith))
          (let w = subst (λ l. suc n ≤ length l) s h in omega arith) in
      rw (s, one, i) refl

  -- No more entries can be filled than slots are in use from `c` on.
  fill_bound :
      (step n left c : ℕ) (o : Option ℕ)
      → 1 ≤ step
      → c + left ≡ max_connections
      → IsFirst is_free states c max_connections step o
      → length (occupied states left c) < n
      → poll_fill states step n o ≡ none
  unfolding poll_fill
  fill_bound step zero left c o p e f h = absurd (omega arith)
  fill_bound step (suc n) left c none p e f h = refl
  fill_bound step (suc n) left c (some d) p e (k, at, below, used, before) h =
      let l' = max_connections - suc d in
      let r = occupied_here l' d used in
      let m : length (occupied states (suc l') d) ≤ length (occupied states left c) =
        occupied_mono left c d (suc l') (omega arith) (omega arith) in
      let i =
        fill_bound step n l' (d + 1) (next states 0 (d + 1) max_connections step) p (omega arith)
          (next-IsFirst states 0 (d + 1) max_connections step p (omega arith))
          (let one : d + 1 ≡ suc d = omega arith in
            let w = subst (λ l. length l ≤ length (occupied states left c)) r m in
            rw one (omega arith)) in
      rw i refl

  -- With a single worker and a ConnectionCount equal to the number of slots in use, the worker
  -- polls exactly the slots in use, in order.
  pub polled_client :
      polled states 0 1 (length (occupied states max_connections 0))
      ≡ some (occupied states max_connections 0)
  unfolding polled first
  polled_client =
      let all = occupied states max_connections 0 in
      let i =
        fill_in_order (length all) max_connections 0 (next states 0 0 max_connections 1) refl
          (next-IsFirst states 0 0 max_connections 1 (omega arith) (omega arith)) (omega arith) in
      i ∙ ap some (take_all (length all) all (omega arith))

  -- With a ConnectionCount equal to the number of slots in use, a worker whose index lies above a
  -- slot in use goes through a NULL connection while it fills its poll list, whatever the number of
  -- workers.
  pub polled_past :
      (thread_index thread_count slot : ℕ)
      → 1 ≤ thread_count
      → slot < thread_index
      → thread_index ≤ max_connections
      → is_free (states slot) ≡ false
      → polled states thread_index thread_count (length (occupied states max_connections 0)) ≡ none
  unfolding polled first
  polled_past thread_index thread_count slot p below within used =
      let above = max_connections - suc slot in
      let left = max_connections - thread_index in
      let one = occupied_mono max_connections 0 slot (suc above) (omega arith) (omega arith) in
      let two = occupied_here above slot used in
      let three = occupied_mono above (suc slot) thread_index left (omega arith) (omega arith) in
      let w = subst (λ l. length l ≤ length (occupied states max_connections 0)) two one in
      let e : thread_index + left ≡ max_connections = omega arith in
      fill_bound thread_count (length (occupied states max_connections 0)) left thread_index
        (next states thread_index thread_index left thread_count) p e
        (subst
          (λ end.
            IsFirst is_free states thread_index end thread_count
              (next states thread_index thread_index left thread_count))
          e (next-IsFirst states thread_index thread_index left thread_count p (omega arith)))
        (omega arith)
