-- ===== src/MfGen/Formats/References.antt =====
-- Who holds the media types of the formats in mfgen/mfgen.cpp.
use avtalk.Base.{
  ℕ, suc, ◌+◌, ◌≡◌, refl, sym, ap, ◌∙◌, ◌≢◌, true, false, Option, none, some, List, [], ◌∷◌, ◌==◌,
  if◌then◌else◌, arith, Bool-cases, eq→==, ==_iff, ◌⊎◌, inl, inr,
}
use avtalk.Base.Fault.{Cmd, pure, ◌>>=◌}
use avtalk.MfMemory.{Ptr, Memory, null, write}
use avtalk.MfMemory.Releases.{release_frees}
use avtalk.MfGen.{succeeded}
use avtalk.MfGen.Formats.{
  Format, Guids, MediaType, Media, set_refs, add_object_ref, release_object, media_type_to_format,
  release_formats, free_formats, zeroed, with_numbers, name_of, format_names,
}

-- The formats of the media types that can be converted, in order.
abbrev pub convert : Guids → List (MediaType × ℕ) → Cmd Media (List Format)
convert g [] = pure []
convert g ((m, o) ∷ more) = do
  (hr, f) ← media_type_to_format g m o
  fs ← convert g more
  pure (if succeeded hr then f ∷ fs else fs)

-- The references that formats hold of the object `x`.
abbrev pub one : Option ℕ → ℕ → ℕ
one none x = 0
one (some o) x = if x == o then 1 else 0

abbrev pub count : List Format → ℕ → ℕ
count [] x = 0
count (f ∷ fs) x = one f.media_type x + count fs x

abbrev pub AllSet : List Format → Type 0
AllSet [] = Unit {0}
AllSet (f ∷ fs) = ((o : ℕ) × (f.media_type ≡ some o)) × AllSet fs

one_here : (o : ℕ) → one (some o) o ≡ 1
one_here o = rw (eq→== o o refl) refl

one_other : (o x : ℕ) → (x == o) ≡ false → one (some o) x ≡ 0
one_other o x h = rw h refl

release_lem :
    (fs : List Format) (base : ℕ → ℕ) (s : Media)
    → AllSet fs
    → ((x : ℕ) → s.refs x ≡ base x + count fs x)
    → (t : Media) × (release_formats fs s ≡ some (tt, t))
      × ((x : ℕ) → t.refs x ≡ base x)
      × (t.memory ≡ s.memory)
unfolding release_formats release_object
release_lem [] base s a h = (s, refl, (λ x. let k = h x in omega arith), refl)
release_lem (f ∷ fs) base s ((o, e), a) h =
    let n = base o + count fs o in
    let held : (x : ℕ) → s.refs x ≡ base x + (one (some o) x + count fs x) =
      λ x. h x ∙ ap (λ z. base x + (one z x + count fs x)) e in
    let k = held o in
    let one_k = one_here o in
    let here : s.refs o ≡ suc n = omega arith in
    let s1 : Media = record s { refs = set_refs o n s.refs } in
    let h1 : (x : ℕ) → s1.refs x ≡ base x + count fs x = λ x. elim (Bool-cases (x == o)) [
      | inl same ↦ rw same (ap (λ y. base y + count fs y) (sym ((==_iff x o).0 same)))
      | inr other ↦ rw other (let j = held x in let z = one_other o x other in omega arith)
    ] in
    let (t, run, r, m) = release_lem fs base s1 a h1 in (t, rw (◌>>=◌, e, here) run, r, m)

taken_lem :
    (o : ℕ) (refs : ℕ → ℕ) (x : ℕ) → set_refs o (suc (refs o)) refs x ≡ refs x + one (some o) x
taken_lem o refs x = elim (Bool-cases (x == o)) [
  | inl same ↦ rw same (ap (λ y. suc (refs y)) (sym ((==_iff x o).0 same)) ∙ omega arith)
  | inr other ↦ rw other (omega arith)
]

-- A success takes one reference, a failure none.
abbrev Taken : ℕ → ℕ → Format → Media → Media → Type 0
Taken hr o f s t =
    (t.memory ≡ s.memory)
    × (((succeeded hr ≡ true)
          × (f.media_type ≡ some o)
          × ((x : ℕ) → t.refs x ≡ s.refs x + one (some o) x))
        ⊎ ((succeeded hr ≡ false) × (t.refs ≡ s.refs)))

convert_one :
    (g : Guids) (m : MediaType) (o : ℕ) (s : Media)
    → (hr : ℕ) × (f : Format) × (t : Media) × (media_type_to_format g m o s ≡ some ((hr, f), t))
      × Taken hr o f s t
unfolding media_type_to_format add_object_ref
convert_one g m o s = elim (Bool-cases (succeeded m.major.0)) [
  | inr bad ↦ (m.major.0, zeroed, s, rw bad refl, (refl, inr (bad, refl)))
  | inl good ↦ elim (Bool-cases (succeeded m.subtype.0)) [
    | inr bad ↦ (
      m.subtype.0,
      record zeroed { type_guid = m.major.1 },
      s,
      rw (good, bad) refl,
      (refl, inr (bad, refl)),
    )
    | inl fine ↦ (
      m.subtype.0,
      record (with_numbers g m (record zeroed {
        type_guid = m.major.1;
        subtype_guid = m.subtype.1;
        friendly_name = name_of (format_names g) m.subtype.1;
      })) { media_type = some o },
      record s { refs = set_refs o (suc (s.refs o)) s.refs },
      rw (good, fine) refl,
      (refl, inl (fine, refl, taken_lem o s.refs)),
    )
  ]
]

convert_lem :
    (g : Guids) (ms : List (MediaType × ℕ)) (s : Media)
    → (fs : List Format) × (t : Media) × (convert g ms s ≡ some (fs, t))
      × AllSet fs
      × ((x : ℕ) → t.refs x ≡ s.refs x + count fs x)
      × (t.memory ≡ s.memory)
convert_lem g [] s = ([], s, refl, tt, (λ x. omega arith), refl)
convert_lem g ((m, o) ∷ more) s =
    let (hr, f, s1, run, (m1, out)) = convert_one g m o s in
    let (fs, t, run', set, refs, m2) = convert_lem g more s1 in
    elim out [
      | inl (good, e, taken) ↦ (
        f ∷ fs,
        t,
        rw (◌>>=◌, run, ◌>>=◌, run', good) refl,
        ((o, e), set),
        (λ x.
            let a = refs x in
            let b = taken x in
            let c : one f.media_type x ≡ one (some o) x = ap (λ z. one z x) e in omega arith),
        m2 ∙ m1,
      )
      | inr (bad, same) ↦ (
        fs,
        t,
        rw (◌>>=◌, run, ◌>>=◌, run', bad) refl,
        set,
        (λ x. refs x ∙ ap (λ f. f x + count fs x) same),
        m2 ∙ m1,
      )
    ]

-- What is left of the formats, unless there are none.
abbrev pub left_over : Ptr → List Format → Memory → Memory
left_over p [] memory = memory
left_over p (f ∷ fs) memory = write p none memory

free_lem :
    (p k : ℕ) (fs : List Format) (base : ℕ → ℕ) (s : Media)
    → p ≢ null
    → s.memory p ≡ some (record { refs = 1; size = k })
    → AllSet fs
    → ((x : ℕ) → s.refs x ≡ base x + count fs x)
    → (t : Media) × (free_formats p fs s ≡ some (tt, t))
      × ((x : ℕ) → t.refs x ≡ base x)
      × (t.memory ≡ left_over p fs s.memory)
unfolding free_formats
free_lem p k [] base s live at_p a h = (s, refl, (λ x. let k = h x in omega arith), refl)
free_lem p k (f ∷ fs) base s live at_p a h =
    let (t, run, r, m) = release_lem (f ∷ fs) base s a h in
    let freed = release_frees p k live t.memory (ap (λ f. f p) m ∙ at_p) in
    (
      record t { memory = write p none t.memory },
      rw (◌>>=◌, run, freed) refl,
      r,
      ap (λ f. write p none f) m,
    )

-- Whatever media types are converted by MFGen_MediaTypeToFormat, in order, and whatever they
-- answer: MFGen_FreeFormats of the formats of the successes, in a block other than NULL with one
-- reference, releases no object too often, brings the references of every object back to what they
-- were, and frees the block, if there is a format at all.
pub free_formats-convert :
    (g : Guids) (ms : List (MediaType × ℕ)) (p k : ℕ) (s : Media)
    → p ≢ null
    → s.memory p ≡ some (record { refs = 1; size = k })
    → (fs : List Format) × (t u : Media) × (convert g ms s ≡ some (fs, t))
      × (free_formats p fs t ≡ some (tt, u))
      × ((x : ℕ) → u.refs x ≡ s.refs x)
      × (u.memory ≡ left_over p fs s.memory)
free_formats-convert g ms p k s live at_p =
    let (fs, t, run, set, refs, m) = convert_lem g ms s in
    let (u, run', back, m') = free_lem p k fs s.refs t live (ap (λ f. f p) m ∙ at_p) set refs in
    (fs, t, u, run, run', back, m' ∙ ap (λ f. left_over p fs f) m)
