-- ===== src/MfGen.antt =====
-- mfgen/mfgen.cpp: the properties of a Media Foundation object as two arrays in one block.
-- The object and PropVariantClear are COM: what they answer is an argument. `none` is an access to
-- memory that is not there, or PropVariantClear of a value that was never set.
pub mod Properties
pub mod Formats
use avtalk.Base.{ℕ, zero, suc, ◌*◌, ◌%◌, ◌^◌, Bool, Option, none, some, ◌==◌, ltb, if◌then◌else◌}
use avtalk.Base.Fault.{Cmd, pure, fault, modify, ◌>>=◌, ◌>>◌, when}
use avtalk.MfMemory.{Ptr, Memory, ref_mem_alloc, ref_mem_add_ref, ref_mem_release}

-- A GUID and the PROPVARIANT that goes with it.
pub record Item : Type 0 where
  pub guid : ℕ
  pub value : ℕ

-- `items p i` is entry `i` of the two arrays in the block at `p`, once it is set.
pub record State : Type 0 where
  pub memory : Memory
  pub items : Ptr → ℕ → Option Item

-- IMFAttributes: the code and the result of GetCount and, for each index, of GetItemByIndex.
pub record Attributes : Type 0 where
  pub count : ℕ × ℕ
  pub item : ℕ → ℕ × Item

-- SUCCEEDED(hr)
abbrev pub succeeded : ℕ → Bool
succeeded hr = ltb hr (2 ^ 31)

-- The sizes of a GUID and a PROPVARIANT.
abbrev pub sizeof_item : ℕ
sizeof_item = 40

abbrev pub in_memory : {A : Type 0} → Cmd Memory A → Cmd State A
in_memory c s = elim (c s.memory) [ none ↦ none | some (a, m) ↦ some (a, record s { memory = m }) ]

abbrev pub put_item : Ptr → ℕ → Option Item → (Ptr → ℕ → Option Item) → Ptr → ℕ → Option Item
put_item p i v f q j = if q == p then (if j == i then v else f q j) else f q j

-- PropVariantClear of entry `i`
unfoldable pub clear_item : Ptr → ℕ → Cmd State (Unit {0})
clear_item p i s = elim (s.items p i) [
  | none ↦ none
  | some _ ↦ some (tt, record s { items = put_item p i none s.items })
]

-- `left` entries from `i` on
unfoldable pub clear_items : Ptr → ℕ → ℕ → Cmd State (Unit {0})
unfolding clear_item
clear_items p zero i = pure tt
clear_items p (suc left) i = do clear_item p i; clear_items p left (suc i)

-- The loop over the items, from `i` on; `hr` is the code before it.
unfoldable pub fill : Attributes → Ptr → ℕ → ℕ → ℕ → Cmd State ℕ
unfolding clear_items
fill a p zero i hr = pure hr
fill a p (suc left) i hr =
    if succeeded (a.item i).0
    then (do
      modify (λ s. record s { items = put_item p i (some (a.item i).1) s.items })
      fill a p left (suc i) (a.item i).0)
    else (do clear_items p i 0; pure (a.item i).0)

-- What is done with the block of the arrays: the code, and what becomes of `*Guids`.
unfoldable pub read_items : Attributes → Ptr → ℕ → ℕ → Cmd State (ℕ × Option Ptr)
unfolding fill
read_items a p count hr = do
  hr ← fill a p count 0 hr
  when (succeeded hr) (in_memory (ref_mem_add_ref p))
  in_memory (ref_mem_release p)
  pure (hr, if succeeded hr then some p else none)

-- MFGen_GetProperties: the code, and what is stored in `*Count` and `*Guids`, if anything is; the
-- values follow the GUIDs.
unfoldable pub get_properties : Option Ptr → Attributes → Cmd State (ℕ × Option (ℕ × Option Ptr))
unfolding read_items
get_properties fresh a =
    let count = a.count.1 in
    if succeeded a.count.0
    then (if count == 0 then pure (a.count.0, some (count, none)) else (do
      (hr, block) ← in_memory (ref_mem_alloc fresh (count * sizeof_item % 2 ^ 64))
      elim block [
        | none ↦ pure (hr, some (count, none))
        | some p ↦ (do (hr, guids) ← read_items a p count hr; pure (hr, some (count, guids)))
      ]))
    else pure (a.count.0, none)

unfoldable pub free_properties : Option Ptr → ℕ → Cmd State (Unit {0})
unfolding clear_items
free_properties guids zero = pure tt
free_properties none (suc count) = fault
free_properties (some p) (suc count) = do clear_items p (suc count) 0; in_memory (ref_mem_release p)
