-- ===== src/Pdf.antt =====
-- src/parsers/pdf: the parser of PDF files and its program. poppler is a parameter; what is printed
-- along the way is left out.
pub mod Contents
pub mod Main
pub mod Printing
use file_inspect_key_analyse.Base.{
  ℕ, ℤ, zero, suc, pos, ◌+◌, ◌-◌, ◌≤◌, ◌<◌, ◌*◌, Bytes, String, codes, eq_bytes, eq_bytes_iff,
  eq_bytes_refl, is_empty, starts_with, starts_with-append, Bool, true, false, not, ◌&&◌, ◌||◌,
  List, [], ◌∷◌, ◌++◌, map, All, All-append, All-removed, Memᴰ, Option, none, some, if◌then◌else◌,
  ◌≡◌, refl, sym, subst, lookup-All, ap, ◌∙◌, ◌⊎◌, inl, inr, ◌≢◌, ◌↔◌, arith, Bool-cases, Result,
  ok, thrown, undefined, >>=-ok_parts, catch-eq-ok, ◌>>=◌, catch, Dict, lookup, insert,
  lookup-insert, length, take, drop, replicate, ltb, ◌==◌, length-append, drop-add, drop-append,
  take-append,
}
use file_inspect_key_analyse.Global.ParserClass.{ParserClass}
use file_inspect_key_analyse.Global.CString.{read_c_string}
use file_inspect_key_analyse.Global.FileJob.{FileJobShm, to_file_job}

-- What the code uses of poppler: a text is turned into an array of bytes, of which the code takes what
-- stands before the first NUL.
pub record PopplerApi : Type 1 where
  pub Document : Type 0
  pub Page : Type 0
  pub UString : Type 0
  pub load_from_file : Bytes → Option Document
  pub info_key : Document → Bytes → UString
  pub empty : UString → Bool
  pub to_utf8 : UString → Bytes
  pub pages : Document → ℕ
  pub create_page : Document → ℕ → Option Page
  pub text : Page → UString

-- `pdf_parser`
pub record PdfParser : Type 0 where
  pub metadata : Dict Bytes
  pub text : Bytes
  pub embedded_files : List Bytes
  pub warnings : List Bytes

-- `keys`
abbrev pub keys : List Bytes
keys =
    codes "Title"
    ∷ codes "Author"
    ∷ codes "Subject"
    ∷ codes "Keywords"
    ∷ codes "Creator"
    ∷ codes "Producer"
    ∷ codes "CreationDate"
    ∷ codes "ModDate"
    ∷ []

-- `pdf_parser::mime_type`
abbrev pub mime_type : Bytes
mime_type = codes "application/pdf"

module _ (A : PopplerApi) where
  open A use {Document, load_from_file, info_key, empty, to_utf8, pages, create_page}

  -- The loop over `keys`.
  unfoldable pub read_keys : Document → List Bytes → Dict Bytes → Result (Dict Bytes)
  read_keys doc [] metadata = ok metadata
  read_keys doc (key ∷ later) metadata =
      let value = info_key doc key in
      let without = read_keys doc later metadata in
      let with_value =
        read_c_string (to_utf8 value) >>= λ v. read_keys doc later (insert key v metadata) in
      if not (empty value) then with_value else without

  -- The loop over the pages, with so many left, from page `i` on.
  unfoldable pub read_pages : Document → ℕ → ℕ → Bytes → Result Bytes
  read_pages doc zero i so_far = ok so_far
  read_pages doc (suc left) i so_far = elim (create_page doc i) [
    | none ↦ read_pages doc left (i + 1) so_far
    | some p ↦ read_c_string (to_utf8 (A.text p)) >>= λ text.
        read_pages doc left (i + 1) (so_far ++ text ++ codes "\n")
  ]

  -- What follows once the document has been loaded; the embedded files are only printed.
  unfoldable pub read_document : Document → Result PdfParser
  unfolding read_keys read_pages
  read_document doc = do
    metadata ← read_keys doc keys []
    text ← read_pages doc (pages doc) 0 []
    ok (record { metadata = metadata; text = text; embedded_files = []; warnings = [] })

  -- `pdf_parser::parse`, which begins by clearing what an earlier call has left. The object that an
  -- exception leaves behind is not kept.
  unfoldable pub parse : FileJobShm → PdfParser → Result PdfParser
  unfolding read_document
  parse job self = do
    fjob ← to_file_job job
    elim (load_from_file fjob.path) [
      | none ↦ thrown (codes "Poppler failed to open PDF")
      | some doc ↦ read_document doc
    ]

-- The getters.
abbrev pub get_metadata : PdfParser → Dict Bytes
get_metadata self = self.metadata

abbrev pub get_text : PdfParser → Bytes
get_text self = self.text

abbrev pub get_embedded_files : PdfParser → List Bytes
get_embedded_files self = self.embedded_files

abbrev pub get_warnings : PdfParser → List Bytes
get_warnings self = self.warnings

-- `pdf_parser` as a `parser`.
abbrev pub pdf_parser_class : PopplerApi → ParserClass
pdf_parser_class A = record {
  State = PdfParser;
  parse = parse A;
  mime_type = mime_type;
  get_metadata = get_metadata;
  get_text = get_text;
  get_embedded_files = get_embedded_files;
  get_warnings = get_warnings;
}
