-- ===== src/MfGen/Formats.antt =====
-- The formats of media types in mfgen/mfgen.cpp, and the references that they hold.
-- What a media type answers to the queries, and the GUIDs of the SDK, are arguments. `none` is a
-- Release of an object without references, or an access to memory that is not there.
pub mod References
use avtalk.Base.{
  ℕ, zero, suc, ◌+◌, ◌≡◌, refl, sym, ap, ◌∙◌, ◌≢◌, ◌⊎◌, inl, inr, Bool, true, false, Option, none,
  some, List, [], ◌∷◌, ◌==◌, if◌then◌else◌, arith, Bool-cases, eq→==, ne→==, length,
}
use avtalk.Base.Fault.{Cmd, pure, fault, modify, ◌>>=◌, ◌>>◌, when}
use avtalk.MfMemory.{Ptr, Memory, null, write, ref_mem_release}
use avtalk.MfMemory.Releases.{release_frees}
use avtalk.MfGen.{succeeded}

-- `EMFCapFormatType`
pub data FormatType : Type 0 where
  mcft_unknown mcft_video mcft_audio mcft_max : FormatType

-- The names that a format may have.
pub data Name : Type 0 where
  no_name name_unknown name_nv12 name_yuv2 name_yv12 name_yvu9 name_mjpg name_pcm name_float : Name

-- `MFGEN_FORMAT`: `media_type` is an object, or `none` for NULL; `numbers` is the union, `[]` while it is zeroed.
pub record Format : Type 0 where
  pub type_guid : ℕ
  pub subtype_guid : ℕ
  pub media_type : Option ℕ
  pub stream_index : ℕ
  pub index : ℕ
  pub selected : Bool
  pub friendly_name : Name
  pub type : FormatType
  pub numbers : List ℕ

abbrev pub zeroed : Format
zeroed = record {
  type_guid = 0;
  subtype_guid = 0;
  media_type = none;
  stream_index = 0;
  index = 0;
  selected = false;
  friendly_name = no_name;
  type = mcft_unknown;
  numbers = [];
}

-- The GUIDs of the SDK for the formats and for the two major types.
pub record Guids : Type 0 where
  pub nv12 : ℕ
  pub yuy2 : ℕ
  pub yv12 : ℕ
  pub yvu9 : ℕ
  pub mjpg : ℕ
  pub pcm : ℕ
  pub float : ℕ
  pub video : ℕ
  pub audio : ℕ

-- `formatGuids` with `formatNames`
abbrev pub format_names : Guids → List (ℕ × Name)
format_names g =
    (g.nv12, name_nv12)
    ∷ (g.yuy2, name_yuv2)
    ∷ (g.yv12, name_yv12)
    ∷ (g.yvu9, name_yvu9)
    ∷ (g.mjpg, name_mjpg)
    ∷ (g.pcm, name_pcm)
    ∷ (g.float, name_float)
    ∷ []

-- The codes and results of GetGUID for the major type and the subtype, and the numbers that the
-- queries for video and for audio give, 0 where one fails.
pub record MediaType : Type 0 where
  pub major : ℕ × ℕ
  pub subtype : ℕ × ℕ
  pub video_numbers : List ℕ
  pub audio_numbers : List ℕ

-- `refs` counts the references of the objects.
pub record Media : Type 0 where
  pub memory : Memory
  pub refs : ℕ → ℕ

abbrev pub set_refs : ℕ → ℕ → (ℕ → ℕ) → ℕ → ℕ
set_refs o n f x = if x == o then n else f x

-- AddRef and Release of a media type.
unfoldable pub add_object_ref : ℕ → Cmd Media (Unit {0})
add_object_ref o = modify (λ s. record s { refs = set_refs o (suc (s.refs o)) s.refs })

unfoldable pub release_object : ℕ → Cmd Media (Unit {0})
release_object o s = elim (s.refs o) [
  | zero ↦ none
  | suc n ↦ some (tt, record s { refs = set_refs o n s.refs })
]

unfoldable pub name_of : List (ℕ × Name) → ℕ → Name
name_of [] guid = name_unknown
name_of ((g, name) ∷ more) guid = let rest = name_of more guid in if g == guid then name else rest

-- The branches on the major type.
unfoldable pub with_numbers : Guids → MediaType → Format → Format
with_numbers g m f =
    if f.type_guid == g.video
    then record f { type = mcft_video; numbers = m.video_numbers }
    else (if f.type_guid == g.audio
        then record f { type = mcft_audio; numbers = m.audio_numbers }
        else record f { type = mcft_unknown })

-- MFGen_MediaTypeToFormat of the object `o`: the code and the format.
unfoldable pub media_type_to_format : Guids → MediaType → ℕ → Cmd Media (ℕ × Format)
unfolding name_of with_numbers add_object_ref
media_type_to_format g m o =
    if succeeded m.major.0
    then (let f : Format = record zeroed { type_guid = m.major.1 } in
        if succeeded m.subtype.0
        then (do
          let named : Format = record f {
            subtype_guid = m.subtype.1;
            friendly_name = name_of (format_names g) m.subtype.1;
          }
          add_object_ref o
          pure (m.subtype.0, record (with_numbers g m named) { media_type = some o }))
        else pure (m.subtype.0, f))
    else pure (m.major.0, zeroed)

abbrev pub release_media_type : Option ℕ → Cmd Media (Unit {0})
release_media_type none = fault
release_media_type (some o) = release_object o

unfoldable pub release_formats : List Format → Cmd Media (Unit {0})
unfolding release_object
release_formats [] = pure tt
release_formats (f ∷ fs) = do release_media_type f.media_type; release_formats fs

-- MFGen_FreeFormats of the formats `fs` in the block at `p`.
unfoldable pub free_formats : Ptr → List Format → Cmd Media (Unit {0})
unfolding release_formats
free_formats p [] = pure tt
free_formats p (f ∷ fs) = do
  release_formats (f ∷ fs)
  (λ s. elim (ref_mem_release p s.memory) [
    | none ↦ none
    | some (u, m) ↦ some (u, record s { memory = m })
  ])
