-- ===== src/Pdf/Main.antt =====
-- src/parsers/pdf/src/main.cpp: the program round the parser.
use file_inspect_key_analyse.Base.{
  ℤ, pos, Bytes, codes, false, List, [], ◌∷◌, ◌++◌, Result, ok, ◌>>=◌,
}
use file_inspect_key_analyse.Global.FileJob.{FileJob, new, detector, from_file_job}
use file_inspect_key_analyse.Global.MimeType.{unknown}
use file_inspect_key_analyse.Pdf.{PopplerApi, PdfParser, parse, get_text}

-- `file_job{}` with this path.
unfoldable pub job_of : Bytes → FileJob
job_of filename = record {
  job_id = [];
  path = filename;
  attempts = pos 0;
  status = new;
  type = detector;
  mime = unknown;
  stop = false;
}

-- A parser that has parsed nothing.
abbrev pub fresh_parser : PdfParser
fresh_parser = record { metadata = []; text = []; embedded_files = []; warnings = [] }

-- `main`, on the arguments behind the program's name: what it returns, and the text that it prints at
-- the end.
unfoldable pub pdf_main : PopplerApi → List Bytes → Result (ℤ × Bytes)
unfolding job_of
pdf_main A [] = ok (pos 1, [])
pdf_main A (filename ∷ rest) = do
  parser ← parse A (from_file_job (job_of filename)) fresh_parser
  ok (pos 0, get_text parser ++ codes "\n")
