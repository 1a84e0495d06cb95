-- ===== src/Global/MimeType/Laws.antt =====
-- What the tables of mime_type.h make of a detected name.
use file_inspect_key_analyse.Base.{
  Bytes, eq_bytes, eq_bytes_iff, Bool, true, false, List, [], ◌∷◌, All, Memᴰ, none, some, ◌≡◌, refl,
  ◌⊎◌, inl, inr, ◌≢◌, ◌↔◌, arith, Bool-cases,
}
use file_inspect_key_analyse.Global.MimeType.{
  DetectorMapEntry, detector_map, DetectorMapEntry, detector_map, find_entry, MimeType, unknown,
  ms_office_word, ms_office_excel, ms_office_power_point, pdf, image_jpeg, image_png, text_plain,
  map_type, map_info, enrich, DetectionResult,
}

-- The types that some detected name leads to.
pub data IsDetected : MimeType → Type 0 where
  word : IsDetected ms_office_word
  excel : IsDetected ms_office_excel
  portable : IsDetected pdf
  jpeg : IsDetected image_jpeg

-- `map_info` answers for the type that it was asked about, the unknown one included.
map_info-type : (t : MimeType) → (map_info t).type ≡ t
unfolding map_info
map_info-type unknown = refl
map_info-type _ = refl

-- Only the types of the detector's table are ever detected.
map_type-IsDetected : (m : Bytes) → (map_type m ≡ unknown) ⊎ IsDetected (map_type m)
unfolding map_type find_entry detector_map
map_type-IsDetected m = grind (arith, word, excel, portable, jpeg)

-- PowerPoint, PNG and plain text have a parser's name and no detected name.
map_type_never :
    (m : Bytes)
    → (map_type m ≢ image_png) × (map_type m ≢ text_plain) × (map_type m ≢ ms_office_power_point)
unfolding map_type find_entry detector_map
map_type_never m = (λ h. ground arith, λ h. ground arith, λ h. ground arith)

-- The result that was found is kept, and the information is that of its type.
pub enrich_lem :
    {Double : Type 0} (d : DetectionResult Double)
    → ((enrich d).base ≡ d) × ((enrich d).info.type ≡ map_type d.mime_type)
unfolding enrich
enrich_lem d = (refl, map_info-type (map_type d.mime_type))

-- What `std::find_if` promises.
find_entry_sound :
    (m : Bytes) (es : List DetectorMapEntry)
    → (find_entry m es ≡ none)
      ⊎ ((e : DetectorMapEntry) × (find_entry m es ≡ some e) × Memᴰ e es × (e.detector_mime ≡ m))
unfolding find_entry
find_entry_sound m [] = inl refl
find_entry_sound m (e ∷ es) = elim (Bool-cases (eq_bytes e.detector_mime m)) [
  | inl same ↦ inr (e, rw same, Memᴰ.head refl, (eq_bytes_iff _ _).0 same)
  | inr other ↦ rw other (elim (find_entry_sound m es) [
    | inl missing ↦ inl missing
    | inr (d, found, mem, name) ↦ inr (d, found, Memᴰ.tail mem, name)
  ])
]

map_type_unlisted :
    (m : Bytes)
    → ((e : DetectorMapEntry) → Memᴰ e detector_map → e.detector_mime ≢ m)
    → map_type m ≡ unknown
unfolding map_type
map_type_unlisted m absent = elim (find_entry_sound m detector_map) [
  | inl missing ↦ rw (missing, map_type)
  | inr (e, _, listed, name) ↦ absurd (absent e listed name)
]

-- A name that the table lists is mapped to the type beside it, and every other name to unknown.
map_type_table :
    All (λ e. map_type e.detector_mime ≡ e.type) detector_map
    × ((m : Bytes)
        → ((e : DetectorMapEntry) → Memᴰ e detector_map → e.detector_mime ≢ m)
        → map_type m ≡ unknown)
unfolding map_type find_entry detector_map eq_bytes
map_type_table = ((refl, (refl, (refl, (refl, (refl, (refl, tt)))))), map_type_unlisted)

-- The types whose own name is detected as them.
abbrev pub is_stable : MimeType → Bool
is_stable unknown = true
is_stable pdf = true
is_stable image_jpeg = true
is_stable _ = false

-- The canonical name of a type is detected as that type for PDF, JPEG and the unknown type, and for
-- no other type: the names of the Word and Excel types are not among those that are detected.
pub map_type-internal_name :
    (t : MimeType) → (map_type (map_info t).internal_name ≡ t) ↔ (is_stable t ≡ true)
unfolding map_type find_entry detector_map map_info eq_bytes
map_type-internal_name unknown = (λ h. refl, λ h. refl)
map_type-internal_name pdf = (λ h. refl, λ h. refl)
map_type-internal_name image_jpeg = (λ h. refl, λ h. refl)
map_type-internal_name _ = (λ h. cc, λ h. cc)
