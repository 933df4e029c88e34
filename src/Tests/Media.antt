-- ===== src/Tests/Media.antt =====
-- A Media Foundation object with three properties, the last of which cannot be read.
use avtalk.Base.{
  ℕ, ◌⊎◌, ◌≡◌, refl, arith, if◌then◌else◌, ◌==◌, ◌+◌, true, false, Option, none, some, List, [],
  ◌∷◌,
}
use avtalk.MfMemory.{Ptr}
use avtalk.MfGen.{State, Attributes, succeeded, get_properties}
use avtalk.MfGen.Formats.{Guids, MediaType, Media, Format, free_formats}
use avtalk.MfGen.Formats.References.{convert, left_over, free_formats-convert}
use avtalk.MfGen.Properties.{Same, Undone, get_properties-free_properties}

abbrev fresh_state : State
fresh_state = record { memory = λ _. none; items = λ _ _. none }

abbrev three : Attributes
three = record {
  count = (0, 3);
  item = λ i. (if i == 2 then 0x8000_4005 else 0, record { guid = i; value = 10 + i });
}

get_properties-free_properties_example :
    (hr : ℕ) × (out : Option (ℕ × Option Ptr)) × (v : State) × (get_properties
        (some 64)
        three
        fresh_state
      ≡ some ((hr, out), v))
    × (((succeeded hr ≡ true)
          × (guids : Option Ptr) × (out ≡ some (3, guids))
          × Undone three 64 fresh_state 3 guids v)
        ⊎ ((succeeded hr ≡ false) × Same fresh_state v))
get_properties-free_properties_example =
    get_properties-free_properties three 64 fresh_state (omega arith) refl (λ j. refl)

abbrev sdk : Guids
sdk = record {
  nv12 = 1;
  yuy2 = 2;
  yv12 = 3;
  yvu9 = 4;
  mjpg = 5;
  pcm = 6;
  float = 7;
  video = 8;
  audio = 9;
}

abbrev camera : MediaType
camera = record {
  major = (0, 8);
  subtype = (0, 2);
  video_numbers = 640 ∷ 480 ∷ 0 ∷ 30 ∷ [];
  audio_numbers = [];
}

abbrev media : Media
media = record {
  memory = λ a. if a == 64 then some (record { refs = 1; size = 88 }) else none;
  refs = λ x. 1;
}

-- Two media types, of which the second has no subtype; both have one reference.
free_formats-convert_example :
    (fs : List Format) × (t u : Media) × (convert sdk
        ((camera, 20) ∷ (record camera { subtype = (0xc00d_36e6, 0) }, 21) ∷ [])
        media
      ≡ some (fs, t))
    × (free_formats 64 fs t ≡ some (tt, u))
    × ((x : ℕ) → u.refs x ≡ 1)
    × (u.memory ≡ left_over 64 fs media.memory)
free_formats-convert_example =
    free_formats-convert sdk
      ((camera, 20) ∷ (record camera { subtype = (0xc00d_36e6, 0) }, 21) ∷ []) 64 88 media
      (omega arith) refl
