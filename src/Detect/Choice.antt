-- ===== src/Detect/Choice.antt =====
-- What `detect_file` chooses: the first specific name, in the order of the detectors.
use file_inspect_key_analyse.Base.{
  Bool-cases, eq_bytes, eq_bytes_iff, ◌≢◌, Bytes, codes, true, false, List, [], ◌∷◌, ◌++◌, All, ◌≡◌,
  refl, ap, ◌⊎◌, inl, inr, Result, ok, thrown, undefined,
}
use file_inspect_key_analyse.Detect.{
  FileDetector, DetectionResult, detect_file, octet_stream, is_specific,
}

-- A detector that has nothing specific to say of the file.
abbrev pub IsSilent : Bytes → FileDetector → Type 0
IsSilent file det =
    (mime : Bytes) × (det.detect file ≡ ok mime) × ((mime ≡ []) ⊎ (mime ≡ octet_stream))

-- A test of a name for being neither empty nor the generic one.
is_specific_lem :
    (mime : Bytes)
    → ((is_specific mime ≡ true) × (mime ≢ []) × (mime ≢ octet_stream))
      ⊎ ((is_specific mime ≡ false) × ((mime ≡ []) ⊎ (mime ≡ octet_stream)))
unfolding is_specific
is_specific_lem [] = inr (refl, inl refl)
is_specific_lem (c ∷ cs) = elim (Bool-cases (eq_bytes (c ∷ cs) octet_stream)) [
  | inl same ↦ inr (rw same refl, inr ((eq_bytes_iff (c ∷ cs) octet_stream).0 same))
  | inr other ↦ inl (
    rw other refl,
    (λ e. cc e),
    λ e. let same = (eq_bytes_iff (c ∷ cs) octet_stream).1 e in cc (same, other),
  )
]

-- The detector whose answer ends the search, behind silent ones.
pub record IsFirst (file : Bytes) (detectors : List FileDetector) (det : FileDetector)
    : Type 0 where
  pub before : List FileDetector
  pub after : List FileDetector
  pub split : detectors ≡ before ++ det ∷ after
  pub silent : All (IsSilent file) before

-- The three ways in which a search ends.
pub data Chooses {Double : Type 0} (one : Double) (file : Bytes) (detectors : List FileDetector)
    (r : Result (DetectionResult Double)) : Type 0 where
  nothing :
      All (IsSilent file) detectors
      → r ≡ ok (record { mime_type = octet_stream; source = codes "none"; confidence = one })
      → Chooses one file detectors r
  specific :
      (det : FileDetector) (mime : Bytes)
      → IsFirst file detectors det
      → det.detect file ≡ ok mime
      → mime ≢ []
      → mime ≢ octet_stream
      → r ≡ ok (record { mime_type = mime; source = det.name; confidence = one })
      → Chooses one file detectors r
  raised :
      (det : FileDetector)
      → IsFirst file detectors det
      → ((what : Bytes) × (det.detect file ≡ thrown what) × (r ≡ thrown what))
        ⊎ ((det.detect file ≡ undefined) × (r ≡ undefined))
      → Chooses one file detectors r

IsFirst-of_all :
    (file : Bytes) (det : FileDetector) (ds : List FileDetector) → IsFirst file (det ∷ ds) det
IsFirst-of_all file det ds = record { before = []; after = ds; split = refl; silent = tt }

IsFirst-later :
    (file : Bytes) (d det : FileDetector) (ds : List FileDetector)
    → IsSilent file d
    → IsFirst file ds det
    → IsFirst file (d ∷ ds) det
IsFirst-later file d det ds s f = record {
  before = d ∷ f.before;
  after = f.after;
  split = ap (◌∷◌ d) f.split;
  silent = (s, f.silent);
}

module _ {Double : Type 0} (one : Double) (file : Bytes) where
  Chooses-later :
      (d : FileDetector) (ds : List FileDetector) {r : Result (DetectionResult Double)}
      → IsSilent file d
      → Chooses one file ds r
      → Chooses one file (d ∷ ds) r
  Chooses-later d ds s (nothing all e) = nothing (s, all) e
  Chooses-later d ds s (specific det mime f a p g e) =
      specific det mime (IsFirst-later file d det ds s f) a p g e
  Chooses-later d ds s (raised det f e) = raised det (IsFirst-later file d det ds s f) e

  -- The search goes on behind a silent detector.
  detect_file_silent :
      (d : FileDetector) (ds : List FileDetector) (mime : Bytes)
      → d.detect file ≡ ok mime
      → is_specific mime ≡ false
      → detect_file one (d ∷ ds) file ≡ detect_file one ds file
  unfolding detect_file
  detect_file_silent d ds mime e s = rw (e, s)

  -- The first detector whose answer is neither empty nor the generic type decides, by its answer and its name; if all are silent
  -- the result is the generic type with no source; an exception of a detector that is asked ends
  -- the search, and those behind the deciding one are not asked.
  pub detect_file-Chooses :
      (detectors : List FileDetector) → Chooses one file detectors (detect_file one detectors file)
  unfolding detect_file
  detect_file-Chooses [] = nothing tt refl
  detect_file-Chooses (d ∷ ds) = asked (d.detect file) refl (detect_file-Chooses ds)
    where
      answered :
          (mime : Bytes)
          → d.detect file ≡ ok mime
          → Chooses one file ds (detect_file one ds file)
          → Chooses one file (d ∷ ds) (detect_file one (d ∷ ds) file)
      answered mime e later = elim (is_specific_lem mime) [
        | inl (found, named, not_generic) ↦
            specific d mime (IsFirst-of_all file d ds) e named not_generic (rw (e, found))
        | inr (passed, why) ↦
            rw (detect_file_silent d ds mime e passed) (Chooses-later d ds (mime, e, why) later)
      ]

      asked :
          (a : Result Bytes)
          → d.detect file ≡ a
          → Chooses one file ds (detect_file one ds file)
          → Chooses one file (d ∷ ds) (detect_file one (d ∷ ds) file)
      asked (ok mime) e later = answered mime e later
      asked (thrown what) e later = raised d (IsFirst-of_all file d ds) (inl (what, e, rw e))
      asked undefined e later = raised d (IsFirst-of_all file d ds) (inr (e, rw e))
