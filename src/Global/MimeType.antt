-- ===== src/Global/MimeType.antt =====
-- src/global/include/mime_type.h: file types, what is known of each, and the detector's names.
pub mod Laws
use file_inspect_key_analyse.Base.{
  Bytes, String, codes, eq_bytes, Bool, true, false, List, [], ◌∷◌, Option, none, some,
  if◌then◌else◌,
}

pub data MimeType : Type 0 where
  unknown ms_office_word ms_office_excel ms_office_power_point pdf : MimeType
  image_jpeg image_png text_plain : MimeType

pub record MimeInfo : Type 0 where
  pub type : MimeType
  pub internal_name : Bytes
  pub description : Bytes
  pub parser_name : Bytes

pub record DetectorMapEntry : Type 0 where
  pub detector_mime : Bytes
  pub type : MimeType

abbrev info : MimeType → String → String → String → MimeInfo
info t name text parser = record {
  type = t;
  internal_name = codes name;
  description = codes text;
  parser_name = codes parser;
}

unfoldable pub mime_infos : List MimeInfo
mime_infos =
    info ms_office_word "application/ms-word" "Microsoft Word Document" "WordParser"
    ∷ info ms_office_excel "application/ms-excel" "Microsoft Excel Spreadsheet" "ExcelParser"
    ∷ info ms_office_power_point "application/ms-powerpoint" "Microsoft PowerPoint Presentation"
        "PowerPointParser"
    ∷ info pdf "application/pdf" "PDF Document" "PdfParser"
    ∷ info image_jpeg "image/jpeg" "JPEG Image" "ImageParser"
    ∷ info image_png "image/png" "PNG Image" "ImageParser"
    ∷ info text_plain "text/plain" "Plain Text File" "TextParser"
    ∷ []

abbrev entry : String → MimeType → DetectorMapEntry
entry mime t = record { detector_mime = codes mime; type = t }

unfoldable pub detector_map : List DetectorMapEntry
detector_map =
    entry "application/msword" ms_office_word
    ∷ entry "application/vnd.ms-word" ms_office_word
    ∷ entry "application/vnd.openxmlformats-officedocument.wordprocessingml.document" ms_office_word
    ∷ entry "application/vnd.ms-excel" ms_office_excel
    ∷ entry "application/pdf" pdf
    ∷ entry "image/jpeg" image_jpeg
    ∷ []

-- `Double` is the type of the confidences, which the code only hands on.
pub record DetectionResult (Double : Type 0) : Type 0 where
  pub mime_type : Bytes
  pub source : Bytes
  pub confidence : Double

pub record EnrichedResult (Double : Type 0) : Type 0 where
  pub base : DetectionResult Double
  pub info : MimeInfo

-- `info.type == type`
unfoldable pub eq_type : MimeType → MimeType → Bool
eq_type unknown unknown = true
eq_type ms_office_word ms_office_word = true
eq_type ms_office_excel ms_office_excel = true
eq_type ms_office_power_point ms_office_power_point = true
eq_type pdf pdf = true
eq_type image_jpeg image_jpeg = true
eq_type image_png image_png = true
eq_type text_plain text_plain = true
eq_type _ _ = false

-- `std::find_if` over the detector's names.
unfoldable pub find_entry : Bytes → List DetectorMapEntry → Option DetectorMapEntry
find_entry m [] = none
find_entry m (e ∷ es) = if eq_bytes e.detector_mime m then some e else find_entry m es

unfoldable pub map_type : Bytes → MimeType
map_type m = elim (find_entry m detector_map) [ some e ↦ e.type | none ↦ unknown ]

unfoldable pub find_info : MimeType → List MimeInfo → Option MimeInfo
find_info t [] = none
find_info t (i ∷ is) = if eq_type i.type t then some i else find_info t is

unfoldable pub map_info : MimeType → MimeInfo
unfolding find_info eq_type mime_infos
map_info t = elim (find_info t mime_infos) [
  | some i ↦ i
  | none ↦ info unknown "unknown" "Unknown file type" "None"
]

unfoldable pub enrich : {Double : Type 0} → DetectionResult Double → EnrichedResult Double
enrich det = record { base = det; info = map_info (map_type det.mime_type) }
