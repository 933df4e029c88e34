-- ===== src/MfBroker/Slots/Search.antt =====
-- What _MFConn_Next and _MFConn_FindFree of mfbroker/mfbroker.c find.
use avtalk.Base.{
  ℕ, zero, suc, ◌+◌, ◌-◌, ◌*◌, ◌≤◌, ◌<◌, ◌≡◌, Bool, true, false, not, Option, none, some, arith,
  ltb, inl, inr, Bool-cases,
}
use avtalk.MfBroker.Slots.{State, is_free, search, next, find_free}

-- The first slot from `current` on, in steps of `step`, that is not skipped, if one lies below
-- `start + max`.
abbrev pub IsFirst : (State → Bool) → (ℕ → State) → ℕ → ℕ → ℕ → Option ℕ → Type 0
IsFirst skip states current end step none =
    (k : ℕ) → current + k * step < end → skip (states (current + k * step)) ≡ true
IsFirst skip states current end step (some c) =
    (k : ℕ) × (c ≡ current + k * step)
    × (c < end)
    × (skip (states c) ≡ false)
    × ((j : ℕ) → j < k → skip (states (current + j * step)) ≡ true)

module _ (skip : State → Bool) (states : ℕ → State) where
  shift : (current k step : ℕ) → current + suc k * step ≡ current + step + k * step
  shift current k step = omega arith

  all_skipped :
      (current end step : ℕ)
      → skip (states current) ≡ true
      → IsFirst skip states (current + step) end step none
      → (k : ℕ) → current + k * step < end
      → skip (states (current + k * step)) ≡ true
  all_skipped current end step b h zero l =
      let e : current + 0 * step ≡ current = omega arith in rw (e, b)
  all_skipped current end step b h (suc k) l =
      let e = shift current k step in rw (e, h k (omega arith))

  skipped_before :
      (current step k : ℕ)
      → skip (states current) ≡ true
      → ((j : ℕ) → j < k → skip (states (current + step + j * step)) ≡ true)
      → (j : ℕ) → j < suc k
      → skip (states (current + j * step)) ≡ true
  skipped_before current step k b h zero l =
      let e : current + 0 * step ≡ current = omega arith in rw (e, b)
  skipped_before current step k b h (suc j) l =
      let e = shift current j step in rw (e, h j (omega arith))

  IsFirst-next :
      (current end step : ℕ) (o : Option ℕ)
      → skip (states current) ≡ true
      → IsFirst skip states (current + step) end step o
      → IsFirst skip states current end step o
  IsFirst-next current end step none b h = all_skipped current end step b h
  IsFirst-next current end step (some c) b (k, e, l, n, h) =
      (suc k, omega (arith, shift current k step), l, n, skipped_before current step k b h)

  IsFirst-here :
      (current end step : ℕ)
      → current < end
      → skip (states current) ≡ false
      → IsFirst skip states current end step (some current)
  IsFirst-here current end step l n = (0, omega arith, l, n, λ j h. absurd (omega arith))

  search-IsFirst :
      (fuel start current max step : ℕ)
      → 1 ≤ step
      → start ≤ current
      → start + max < current + fuel
      → IsFirst skip states current
          (start + max)
          step
          (search skip states fuel start current max step)
  unfolding search
  search-IsFirst zero start current max step p s f = λ k l. absurd (omega arith)
  search-IsFirst (suc fuel) start current max step p s f =
      elim (Bool-cases (ltb (current - start) max)) [
        | inr out ↦
            rw out (λ k l. absurd (let h : start + max ≤ current = ground arith in omega arith))
        | inl i ↦ elim (Bool-cases (skip (states current))) [
          | inr stop ↦ rw (i, stop) (IsFirst-here current (start + max) step (ground arith) stop)
          | inl go ↦
              rw (i, go)
                (IsFirst-next current (start + max) step
                  (search skip states fuel start (current + step) max step) go
                  (search-IsFirst fuel start (current + step) max step p (omega arith)
                    (omega arith)))
        ]
      ]

-- For a step of at least 1, _MFConn_Next ends, and finds the first connection in use from the
-- current one on, in that step, below Start + Max, or NULL if there is none.
pub next-IsFirst :
    (states : ℕ → State) (start current max step : ℕ)
    → 1 ≤ step
    → start ≤ current
    → IsFirst is_free states current (start + max) step (next states start current max step)
unfolding next
next-IsFirst states start current max step p s =
    search-IsFirst is_free states (suc max) start current max step p s (omega arith)

-- _MFConn_FindFree ends, and finds the first free connection of the array, or NULL if all Max are
-- in use.
pub find_free-IsFirst :
    (states : ℕ → State) (start max : ℕ)
    → IsFirst (λ s. not (is_free s)) states start (start + max) 1 (find_free states start max)
unfolding find_free
find_free-IsFirst states start max =
    search-IsFirst (λ s. not (is_free s)) states (suc max) start start max 1 (omega arith)
      (omega arith) (omega arith)
