-- ===== src/Pdf/Printing.antt =====
-- The program prints what its file holds.
use file_inspect_key_analyse.Base.{
  pos, ◌≤◌, Bytes, codes, List, ◌∷◌, ◌++◌, some, ◌≡◌, refl, arith, ok, length,
}
use file_inspect_key_analyse.Global.CString.{HasNoNul}
use file_inspect_key_analyse.Global.FileJob.{from_file_job}
use file_inspect_key_analyse.Global.FileJob.RoundTrip.{Fits, to_file_job-from_file_job-Fits}
use file_inspect_key_analyse.Pdf.{PopplerApi}
use file_inspect_key_analyse.Pdf.Contents.{CanReadAll, page_list, join_texts, parse_ok}
use file_inspect_key_analyse.Pdf.Main.{job_of, pdf_main, fresh_parser}

module _ (A : PopplerApi) (doc : A.Document) where
  -- On the name of a file that is at most 255 bytes with no NUL, which poppler can load and whose texts
  -- it gives with a NUL, the program returns 0 and prints the texts of the pages of that very file.
  pdf_main-join_texts :
      (filename : Bytes) (rest : List Bytes)
      → length filename ≤ 255
      → HasNoNul filename
      → A.load_from_file filename ≡ some doc
      → CanReadAll A doc
      → pdf_main A (filename ∷ rest)
        ≡ ok (pos 0, join_texts A doc (page_list A doc (A.pages doc) 0) ++ codes "\n")
  unfolding pdf_main job_of
  pdf_main-join_texts filename rest short plain loaded can =
      let job = job_of filename in
      let fits : Fits job = record {
        id_fits = omega arith;
        path_fits = short;
        id_plain = tt;
        path_plain = plain;
      } in
      let sent = to_file_job-from_file_job-Fits job fits refl in
      let (after, parsed, texts, _, _, _) =
        parse_ok A doc (from_file_job job) job fresh_parser sent loaded can in
      rw parsed (rw texts refl)
