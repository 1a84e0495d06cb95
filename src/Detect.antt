-- ===== src/Detect.antt =====
-- src/detect: detectors in turn, and the service that asks them.
pub mod Main
pub mod Magic
pub mod Choice
pub mod Handler
pub mod Closing
use file_inspect_key_analyse.Base.{
  ℕ, ℤ, zero, suc, pos, ◌+◌, ◌-◌, ◌≤◌, ◌<◌, ◌*◌, Bytes, String, codes, eq_bytes, eq_bytes_iff,
  eq_bytes_refl, is_empty, starts_with, starts_with-append, Bool, true, false, not, ◌&&◌, ◌||◌,
  List, [], ◌∷◌, ◌++◌, map, All, All-append, Memᴰ, Option, none, some, if◌then◌else◌, ◌≡◌, refl,
  sym, ap, ◌∙◌, ◌⊎◌, inl, inr, ◌≢◌, ◌↔◌, arith, Bool-cases, Result, ok, thrown, undefined, ◌>>=◌,
  catch, Dict, lookup, insert, lookup-insert, length, take, drop, replicate, ltb, ◌==◌,
  length-append, drop-add, drop-append, take-append,
}

-- `file_detector`: a detector may throw. What it answers is taken to depend on the path alone: the
-- handle of libmagic that a detector keeps, and the file itself, are taken not to change.
pub record FileDetector : Type 0 where
  pub detect : Bytes → Result Bytes
  pub name : Bytes

-- `Double` stands for the confidences, and `one` for 1.0.
pub record DetectionResult (Double : Type 0) : Type 0 where
  pub mime_type : Bytes
  pub source : Bytes
  pub confidence : Double

abbrev pub octet_stream : Bytes
octet_stream = codes "application/octet-stream"

-- `!mime.empty() && mime != "application/octet-stream"`
unfoldable pub is_specific : Bytes → Bool
is_specific mime = not (is_empty mime) && not (eq_bytes mime octet_stream)

-- `detector::detect_file`
unfoldable pub detect_file :
    {Double : Type 0} → Double → List FileDetector → Bytes → Result (DetectionResult Double)
detect_file one [] file =
    ok (record { mime_type = octet_stream; source = codes "none"; confidence = one })
detect_file one (det ∷ detectors) file = do
  mime ← det.detect file
  let found = ok (record { mime_type = mime; source = det.name; confidence = one })
  let later = detect_file one detectors file
  if is_specific mime then found else later
