-- ===== src/MfBroker/Wire/Receive.antt =====
-- The loop of _recvData in mfbroker/mfbroker.c: when it ends, and with which bytes.
use avtalk.Base.{
  ℕ, zero, suc, ◌+◌, ◌-◌, ◌%◌, ◌^◌, ◌≤◌, ◌<◌, ◌≡◌, refl, ap, ◌∙◌, ◌≢◌, ◌⊎◌, inl, inr, none, some,
  [], ◌++◌, arith, length, take, drop, length-append, take_past, drop_past, ne→==,
}
use avtalk.MfCrypto.{Bytes}
use avtalk.MfBroker.Wire.{got, failed, Winsock, recv_step, recv_data}

-- `n` bytes at most, and one at least.
abbrev pub Chunk : ℕ → Bytes → Type 0
Chunk n bs = (0 < length bs) × (length bs ≤ n)

-- The bytes that are still to come are handed out in order, in chunks of any size, while there are
-- any.
abbrev pub Delivers : {S : Type 0} → Winsock S → (S → Bytes) → Type 0
Delivers {S} w pending =
    (n : ℕ) (s : S)
    → 0 < n
    → 0 < length (pending s)
    → (bs : Bytes) × (t : S) × (w.recv n s ≡ (got bs, t))
      × (pending s ≡ bs ++ pending t)
      × Chunk n bs

-- recv answers with an error or with at least one byte, so the connection is never closed in order.
abbrev pub Responds : {S : Type 0} → Winsock S → Type 0
Responds {S} w =
    (n : ℕ) (s : S)
    → 0 < n
    → ((e : ℕ) × (t : S) × (w.recv n s ≡ (failed e, t)))
      ⊎ ((bs : Bytes) × (t : S) × (w.recv n s ≡ (got bs, t)) × Chunk n bs)

-- How the loop ends: with all bytes, or with the error of a recv.
abbrev pub Ended : {S : Type 0} → Winsock S → ℕ → ℕ × Bytes → S → Type 0
Ended {S} w n r t =
    ((r.0 ≡ 0) × (length r.1 ≡ n)) ⊎ ((k : ℕ) × (s : S) × (w.recv k s ≡ (failed r.0, t)))

module _ {S : Type 0} (w : Winsock S) where
  recv_data_got :
      (fuel n : ℕ) (s : S) (bs : Bytes) (t : S) (r : ℕ × Bytes) (u : S)
      → n ≢ 0
      → n < 2 ^ 32
      → w.recv n s ≡ (got bs, t)
      → recv_data w fuel (n - length bs) t ≡ some (r, u)
      → recv_data w (suc fuel) n s ≡ some ((r.0, bs ++ r.1), u)
  unfolding recv_data recv_step
  recv_data_got fuel n s bs t r u z b e i =
      let m : n % 2 ^ 32 ≡ n = omega arith in let z' = ne→== n 0 z in ground arith

  recv_data_failed :
      (fuel n : ℕ) (s : S) (e : ℕ) (t : S)
      → n ≢ 0
      → n < 2 ^ 32
      → w.recv n s ≡ (failed e, t)
      → recv_data w (suc fuel) n s ≡ some ((e, []), t)
  unfolding recv_data recv_step
  recv_data_failed fuel n s e t z b h =
      let m : n % 2 ^ 32 ≡ n = omega arith in let z' = ne→== n 0 z in ground arith

  recv_data-zero : (fuel : ℕ) (s : S) → recv_data w fuel 0 s ≡ some ((0, []), s)
  unfolding recv_data recv_step
  recv_data-zero zero s = refl
  recv_data-zero (suc fuel) s = refl

  pending_step :
      (pending : S → Bytes) (fuel n : ℕ) (s : S) (bs : Bytes) (t u : S)
      → n ≢ 0
      → n < 2 ^ 32
      → w.recv n s ≡ (got bs, t)
      → pending s ≡ bs ++ pending t
      → Chunk n bs
      → recv_data w fuel (n - length bs) t ≡ some ((0, take (n - length bs) (pending t)), u)
      → pending u ≡ drop (n - length bs) (pending t)
      → (recv_data w (suc fuel) n s ≡ some ((0, take n (pending s)), u))
        × (pending u ≡ drop n (pending s))
  pending_step pending fuel n s bs t u z b e split c i left =
      let one = recv_data_got fuel n s bs t (0, take (n - length bs) (pending t)) u z b e i in
      let l = take_past n bs (pending t) c.1 in
      let r = drop_past n bs (pending t) c.1 in (rw (split, l) one, rw (split, r) left)

  -- If recv hands out the pending bytes in order, in chunks of any size, and at least Length of
  -- them (below 2 ^ 32) are pending, then _recvData ends within Length rounds with code 0 and
  -- exactly the first Length pending bytes, and the others are still pending.
  pub recv_data-pending :
      (pending : S → Bytes) (fuel n : ℕ) (s : S)
      → Delivers w pending
      → n ≤ fuel
      → n < 2 ^ 32
      → n ≤ length (pending s)
      → (t : S) × (recv_data w fuel n s ≡ some ((0, take n (pending s)), t))
        × (pending t ≡ drop n (pending s))
  recv_data-pending pending fuel zero s d f b l = (s, recv_data-zero fuel s, refl)
  recv_data-pending pending zero (suc n) s d f b l = absurd (omega arith)
  recv_data-pending pending (suc fuel) (suc n) s d f b l =
      let (bs, t, e, split, c) = d (suc n) s (omega arith) (omega arith) in
      let whole : length (pending s) ≡ length bs + length (pending t) =
        ap (λ l. length l) split ∙ length-append bs (pending t) in
      let (u, i, left) =
        recv_data-pending pending fuel (suc n - length bs) t d (omega arith) (omega arith)
          (omega arith) in
      let (one, two) =
        pending_step pending fuel (suc n) s bs t u (omega arith) b e split c i left in
      (u, one, two)

  Ended-step :
      (fuel n : ℕ) (s : S) (bs : Bytes) (t : S) (r : ℕ × Bytes) (u : S)
      → n ≢ 0
      → n < 2 ^ 32
      → w.recv n s ≡ (got bs, t)
      → Chunk n bs
      → recv_data w fuel (n - length bs) t ≡ some (r, u)
      → Ended w (n - length bs) r u
      → (recv_data w (suc fuel) n s ≡ some ((r.0, bs ++ r.1), u)) × Ended w n (r.0, bs ++ r.1) u
  Ended-step fuel n s bs t r u z b e c i (inl h) =
      let l = length-append bs r.1 in
      (recv_data_got fuel n s bs t r u z b e i, inl (h.0, omega arith))
  Ended-step fuel n s bs t r u z b e c i (inr h) = (recv_data_got fuel n s bs t r u z b e i, inr h)

  -- If every recv fails or delivers at least one byte and no more than asked for, _recvData for
  -- fewer than 2 ^ 32 bytes ends within Length rounds, either with code 0 and all bytes or with the
  -- error code of a recv that failed.
  pub recv_data-Ended :
      (fuel n : ℕ) (s : S)
      → Responds w
      → n ≤ fuel
      → n < 2 ^ 32
      → (r : ℕ × Bytes) × (t : S) × (recv_data w fuel n s ≡ some (r, t)) × Ended w n r t
  recv_data-Ended fuel zero s d f b = ((0, []), s, recv_data-zero fuel s, inl (refl, refl))
  recv_data-Ended zero (suc n) s d f b = absurd (omega arith)
  recv_data-Ended (suc fuel) (suc n) s d f b = elim (d (suc n) s (omega arith)) [
    | inl (e, t, h) ↦
        ((e, []), t, recv_data_failed fuel (suc n) s e t (omega arith) b h, inr (suc n, s, h))
    | inr (bs, t, h, c) ↦
        let (r, u, i, k) =
          recv_data-Ended fuel (suc n - length bs) t d (omega arith) (omega arith) in
        let (one, two) = Ended-step fuel (suc n) s bs t r u (omega arith) b h c i k in
        ((r.0, bs ++ r.1), u, one, two)
  ]

  -- If recv keeps answering 0 bytes, as it does once the peer has closed the connection, _recvData
  -- for a Length other than 0 ends in no number of rounds.
  pub recv_data_closed :
      (fuel n : ℕ) (s : S)
      → ((k : ℕ) → w.recv k s ≡ (got [], s))
      → 0 < n
      → recv_data w fuel n s ≡ none
  unfolding recv_data recv_step
  recv_data_closed zero n s h p = let z = ne→== n 0 (omega arith) in ground arith
  recv_data_closed (suc fuel) n s h p =
      let z = ne→== n 0 (omega arith) in
      let e = h (n % 2 ^ 32) in
      let m : n - 0 ≡ n = omega arith in let i = recv_data_closed fuel n s h p in ground arith
