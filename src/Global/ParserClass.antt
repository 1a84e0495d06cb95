-- ===== src/Global/ParserClass.antt =====
-- src/global/include/parser.h: the interface of parsers.
use file_inspect_key_analyse.Base.{Bytes, List, Result, Dict}
use file_inspect_key_analyse.Global.FileJob.{FileJobShm}

-- `parser`: an object's state, and its virtual functions on it.
pub record ParserClass : Type 1 where
  pub State : Type 0
  pub parse : FileJobShm → State → Result State
  pub mime_type : Bytes
  pub get_metadata : State → Dict Bytes
  pub get_text : State → Bytes
  pub get_embedded_files : State → List Bytes
  pub get_warnings : State → List Bytes
