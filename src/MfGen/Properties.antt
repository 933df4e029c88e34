-- ===== src/MfGen/Properties.antt =====
-- MFGen_GetProperties and MFGen_FreeProperties of mfgen/mfgen.cpp.
use avtalk.Base.{
  ℕ, zero, suc, ◌+◌, ◌*◌, ◌%◌, ◌^◌, ◌<◌, ◌≡◌, refl, sym, ap, ◌∙◌, ◌≢◌, ◌⊎◌, inl, inr, true, false,
  Option, none, some, ◌==◌, ltb, if◌then◌else◌, arith, Bool-cases, eq→==, ne→==, ==_iff,
}
use avtalk.Base.Fault.{◌>>=◌, ◌>>◌}
use avtalk.MfMemory.{Ptr, Memory, null, write, ref_mem_alloc, ref_mem_add_ref, size_add}
use avtalk.MfMemory.Releases.{release_keeps, release_frees}
use avtalk.MfGen.{
  Item, State, Attributes, succeeded, sizeof_item, in_memory, put_item, clear_item, clear_items,
  fill, read_items, get_properties, free_properties,
}

-- Of the entries at `p` those from `lo` below `hi` are set; all else is as in `w`.
abbrev held : Attributes → Ptr → ℕ → ℕ → State → Ptr → ℕ → Option Item
held a p lo hi w q j =
    if q == p
    then (if ltb j lo then none else (if ltb j hi then some (a.item j).1 else none))
    else w.items q j

abbrev Range : Attributes → Ptr → ℕ → ℕ → State → State → Type 0
Range a p lo hi w s = (q : Ptr) (j : ℕ) → s.items q j ≡ held a p lo hi w q j

module _ (a : Attributes) (p : Ptr) (w : State) where
  held_here : (lo hi : ℕ) → lo < hi → held a p lo hi w p lo ≡ some (a.item lo).1
  held_here lo hi h = ground arith

  held_clear :
      (lo hi : ℕ) (v : Option Item) (q j : ℕ)
      → v ≡ held a p lo hi w q j
      → (if q == p then (if j == lo then none else v) else v) ≡ held a p (suc lo) hi w q j
  held_clear lo hi v q j e = ground arith

  held_set :
      (i : ℕ) (v : Option Item) (q j : ℕ)
      → v ≡ held a p 0 i w q j
      → (if q == p then (if j == i then some (a.item i).1 else v) else v) ≡ held a p 0 (suc i) w q j
  held_set i v q j e = ground arith

  held_none : (k q j : ℕ) → held a p k k w q j ≡ held a p 0 0 w q j
  held_none k q j = ground arith

  clear_items_lem :
      (left lo hi : ℕ) (s : State)
      → hi ≡ lo + left
      → Range a p lo hi w s
      → (t : State) × (clear_items p left lo s ≡ some (tt, t))
        × Range a p hi hi w t
        × (t.memory ≡ s.memory)
  unfolding clear_items clear_item
  clear_items_lem zero lo hi s e r =
      let e' : lo ≡ hi = omega arith in
      (s, refl, (λ q j. r q j ∙ ap (λ x. held a p x hi w q j) e'), refl)
  clear_items_lem (suc left) lo hi s e r =
      let here : s.items p lo ≡ some (a.item lo).1 = r p lo ∙ held_here lo hi (omega arith) in
      let s1 : State = record s { items = put_item p lo none s.items } in
      let r1 : Range a p (suc lo) hi w s1 = λ q j. held_clear lo hi (s.items q j) q j (r q j) in
      let (t, run, r', m) = clear_items_lem left (suc lo) hi s1 (omega arith) r1 in
      (t, rw (◌>>=◌, here) run, r', m)

  -- Nothing is set at `p`, or the first `count` entries.
  abbrev Filled : ℕ → ℕ → State → Type 0
  Filled count hr s =
      ((succeeded hr ≡ true) × Range a p 0 count w s) ⊎ ((succeeded hr ≡ false) × Range a p 0 0 w s)

  fill_lem :
      (left i hr count : ℕ) (s : State)
      → count ≡ i + left
      → succeeded hr ≡ true
      → Range a p 0 i w s
      → (hr' : ℕ) × (t : State) × (fill a p left i hr s ≡ some (hr', t))
        × Filled count hr' t
        × (t.memory ≡ s.memory)
  unfolding fill
  fill_lem zero i hr count s e good r =
      let e' : i ≡ count = omega arith in
      (hr, s, refl, inl (good, λ q j. r q j ∙ ap (λ x. held a p 0 x w q j) e'), refl)
  fill_lem (suc left) i hr count s e good r = elim (Bool-cases (succeeded (a.item i).0)) [
    | inl z ↦
        let s1 : State = record s { items = put_item p i (some (a.item i).1) s.items } in
        let r1 : Range a p 0 (suc i) w s1 = λ q j. held_set i (s.items q j) q j (r q j) in
        let (hr', t, run, out, m) =
          fill_lem left (suc i) (a.item i).0 count s1 (omega arith) z r1 in
        (hr', t, rw z run, out, m)
    | inr z ↦
        let (t, run, r', m) = clear_items_lem i 0 i s (omega arith) r in
        ((a.item i).0, t, rw (z, ◌>>=◌, run) refl, inr (z, λ q j. r' q j ∙ held_none i q j), m)
  ]

-- Every block and every entry is as before.
abbrev pub Same : State → State → Type 0
Same w v = ((q : Ptr) → v.memory q ≡ w.memory q) × ((q : Ptr) (j : ℕ) → v.items q j ≡ w.items q j)

-- The entries are in the block at `p`, and MFGen_FreeProperties undoes everything.
abbrev pub Undone : Attributes → Ptr → State → ℕ → Option Ptr → State → Type 0
Undone a p w count guids v =
    ((j : ℕ) → j < count → v.items p j ≡ some (a.item j).1)
    × (t : State) × (free_properties guids count v ≡ some (tt, t))
    × Same w t

module _ (a : Attributes) (p : Ptr) (w : State) (live : p ≢ null) (no_block : w.memory p ≡ none)
    (no_items : (j : ℕ) → w.items p j ≡ none) where
  no_range : (q j : ℕ) → w.items q j ≡ held a p 0 0 w q j
  no_range q j = elim (Bool-cases (q == p)) [
    | inl here ↦ let e = no_items j in ground arith
    | inr other ↦ ground arith
  ]

  -- A block at `p` that is gone again.
  gone :
      (m : Memory)
      → ((q : Ptr) → q ≢ p → m q ≡ w.memory q)
      → (q : Ptr) → write p none m q ≡ w.memory q
  gone m same q = elim (Bool-cases (q == p)) [
    | inl here ↦ let e : q ≡ p = ground arith in rw (e, eq→== p p refl, no_block) refl
    | inr other ↦ rw other (same q (ground arith))
  ]

  free_lem :
      (n k : ℕ) (v : State)
      → Range a p 0 (suc n) w v
      → v.memory p ≡ some (record { refs = 1; size = k })
      → ((q : Ptr) → q ≢ p → v.memory q ≡ w.memory q)
      → Undone a p w (suc n) (some p) v
  unfolding free_properties
  free_lem n k v r at_p same =
      let (t, run, r', m) = clear_items_lem a p w (suc n) 0 (suc n) v (omega arith) r in
      let freed = release_frees p k live t.memory (ap (λ f. f p) m ∙ at_p) in
      (
        (λ j h. r p j ∙ below j (suc n) h),
        record t { memory = write p none t.memory },
        rw (◌>>=◌, run) (rw (in_memory, freed) refl),
        (
          gone t.memory (λ q h. ap (λ f. f q) m ∙ same q h),
          λ q j. r' q j ∙ held_none a p w (suc n) q j ∙ sym (no_range q j),
        ),
      )
    where
      below : (j count : ℕ) → j < count → held a p 0 count w p j ≡ some (a.item j).1
      below j count h = ground arith

  -- How a call ends.
  abbrev Ending : ℕ → ℕ → Option Ptr → State → Type 0
  Ending count hr guids v =
      ((succeeded hr ≡ true) × Undone a p w count guids v) ⊎ ((succeeded hr ≡ false) × Same w v)

  read_items_lem :
      (n k : ℕ) (s : State)
      → Range a p 0 0 w s
      → s.memory p ≡ some (record { refs = 1; size = k })
      → ((q : Ptr) → q ≢ p → s.memory q ≡ w.memory q)
      → (hr : ℕ) × (guids : Option Ptr) × (v : State) × (read_items a p (suc n) 0 s
          ≡ some ((hr, guids), v))
        × Ending (suc n) hr guids v
  unfolding read_items ref_mem_add_ref
  read_items_lem n k s r at_p same =
      let (hr, t, run, out, m) = fill_lem a p w (suc n) 0 0 (suc n) s (omega arith) refl r in
      let at_t = ap (λ f. f p) m ∙ at_p in
      let same_t : (q : Ptr) → q ≢ p → t.memory q ≡ w.memory q =
        λ q h. ap (λ f. f q) m ∙ same q h in
      elim out [
        | inl (good, range) ↦
            let added = write p (some (record { refs = 2; size = k })) t.memory in
            let kept = release_keeps p k live added (rw (eq→== p p refl) refl) in
            let v : State = record t {
              memory = write p (some (record { refs = 1; size = k })) added;
            } in
            (
              hr,
              some p,
              v,
              rw (◌>>=◌, run, ◌>>=◌, good, in_memory, at_t)
                  (rw (◌>>◌, ◌>>=◌, in_memory, kept, good) refl),
              inl (
                good,
                free_lem n k v range (rw (eq→== p p refl) refl)
                    (λ q h. rw (ne→== q p h) (same_t q h)),
              ),
            )
        | inr (bad, range) ↦ (
          hr,
          none,
          record t { memory = write p none t.memory },
          rw
              (
                ◌>>=◌,
                run,
                ◌>>=◌,
                bad,
                ◌>>◌,
                ◌>>=◌,
                in_memory,
                release_frees p k live t.memory at_t,
                bad,
              )
              refl,
          inr (bad, (gone t.memory same_t, λ q j. range q j ∙ sym (no_range q j))),
        )
      ]

  read_some :
      (count k : ℕ) (s : State)
      → count ≢ 0
      → Range a p 0 0 w s
      → s.memory p ≡ some (record { refs = 1; size = k })
      → ((q : Ptr) → q ≢ p → s.memory q ≡ w.memory q)
      → (hr : ℕ) × (guids : Option Ptr) × (v : State) × (read_items a p count 0 s
          ≡ some ((hr, guids), v))
        × Ending count hr guids v
  read_some zero k s n r at_p same = absurd (n refl)
  read_some (suc count) k s n r at_p same = read_items_lem count k s r at_p same

  no_entries : (count : ℕ) → count ≡ 0 → Undone a p w count none w
  unfolding free_properties
  no_entries zero e = ((λ j h. absurd (omega arith)), w, refl, ((λ q. refl), λ q j. refl))
  no_entries (suc count) e = absurd (omega arith)

  -- If the memory that MFGen_GetProperties is given was free and not NULL, it ends, whatever the
  -- object answers: with a failure, no block and no value is left; with success, all items are
  -- stored in order, and MFGen_FreeProperties with its results clears each value once, frees the
  -- block, and leaves everything as it was before.
  pub get_properties-free_properties :
      (hr : ℕ) × (out : Option (ℕ × Option Ptr)) × (v : State) × (get_properties (some p) a w
        ≡ some ((hr, out), v))
      × (((succeeded hr ≡ true)
            × (guids : Option Ptr) × (out ≡ some (a.count.1, guids))
            × Undone a p w a.count.1 guids v)
          ⊎ ((succeeded hr ≡ false) × Same w v))
  unfolding get_properties ref_mem_alloc
  get_properties-free_properties = elim (Bool-cases (succeeded a.count.0)) [
    | inr bad ↦ (a.count.0, none, w, rw bad refl, inr (bad, ((λ q. refl), λ q j. refl)))
    | inl good ↦ elim (Bool-cases (a.count.1 == 0)) [
      | inl z ↦ (
        a.count.0,
        some (a.count.1, none),
        w,
        rw (good, z) refl,
        inl (good, none, refl, no_entries a.count.1 ((==_iff a.count.1 0).0 z)),
      )
      | inr z ↦
          let size = size_add (a.count.1 * sizeof_item % 2 ^ 64) 0x10 in
          let s : State = record w {
            memory = write p (some (record { refs = 1; size = size })) w.memory;
          } in
          let (hr, guids, v, run, ends) =
            read_some a.count.1 size s (ground arith) no_range (rw (eq→== p p refl) refl)
              (λ q h. rw (ne→== q p h) refl) in
          (
            hr,
            some (a.count.1, guids),
            v,
            rw (good, z, ◌>>=◌, in_memory, run) refl,
            elim ends [
              | inl (ok, undone) ↦ inl (ok, guids, refl, undone)
              | inr (bad, same) ↦ inr (bad, same)
            ],
          )
    ]
  ]
