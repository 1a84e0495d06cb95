-- ===== src/Tests/Texts.antt =====
-- Names of queues, texts in arrays, file types and paths.
use file_inspect_key_analyse.Global.FilePath.{join_path}
use file_inspect_key_analyse.Base.{
  [], ℕ, Bytes, codes, starts_with, true, some, ◌≡◌, refl, ◌↔◌, ok, length, take,
}
use file_inspect_key_analyse.Global.FileJob.{to_file_job, from_file_job}
use file_inspect_key_analyse.Tests.Data.{job, job-Fits}
use file_inspect_key_analyse.Util.QueueName.{cut_at, find, parse_direct_queue}
use file_inspect_key_analyse.Util.QueueName.Laws.{IsDirect, parse_direct_queue_iff}
use file_inspect_key_analyse.Queues.{detect_queue}
use file_inspect_key_analyse.Global.CString.{copy_terminated, read_c_string, c_str}
use file_inspect_key_analyse.Global.CString.Laws.{copy_terminated_ok}
use file_inspect_key_analyse.Global.FileJob.RoundTrip.{
  truncated, to_file_job-from_file_job, from_file_job-Carries, Carries,
}
use file_inspect_key_analyse.Global.MimeType.{
  map_type, map_info, DetectionResult, ms_office_word, enrich,
}
use file_inspect_key_analyse.Global.MimeType.Laws.{map_type-internal_name, enrich_lem, is_stable}

parse_direct_queue_iff_example :
    (parse_direct_queue detect_queue ≡ some (codes "qm", codes "detect"))
    ↔ IsDirect detect_queue (codes "qm") (codes "detect")
parse_direct_queue_iff_example = parse_direct_queue_iff detect_queue (codes "qm") (codes "detect")

-- A sender whose name holds the separator is cut at its first one.
parse_ambiguous :
    parse_direct_queue (codes "fika.direct.a.to.b.to.c") ≡ some (codes "a", codes "b.to.c")
unfolding parse_direct_queue cut_at find starts_with
parse_ambiguous = refl

copy_terminated_ok_example :
    (a : Bytes) × (copy_terminated 3 (codes "abcdef") ≡ ok a)
    × (read_c_string a ≡ ok (take 3 (c_str (codes "abcdef"))))
    × (length a ≡ 4)
copy_terminated_ok_example = copy_terminated_ok 3 (codes "abcdef")

to_file_job-from_file_job_example : to_file_job (from_file_job job) ≡ ok (truncated job)
to_file_job-from_file_job_example = to_file_job-from_file_job job

from_file_job-Carries_example : Carries (from_file_job job) job
from_file_job-Carries_example = from_file_job-Carries job job-Fits refl

map_type-internal_name_example :
    (map_type (map_info ms_office_word).internal_name ≡ ms_office_word)
    ↔ (is_stable ms_office_word ≡ true)
map_type-internal_name_example = map_type-internal_name ms_office_word

abbrev pdf_result : DetectionResult ℕ
pdf_result = record {
  mime_type = codes "application/pdf";
  source = codes "libmagic";
  confidence = 1;
}

enrich_lem_example :
    ((enrich pdf_result).base ≡ pdf_result)
    × ((enrich pdf_result).info.type ≡ map_type pdf_result.mime_type)
enrich_lem_example = enrich_lem pdf_result

-- `path::operator/` where the right side is a name, absolute, or empty.
joined : join_path (codes "dir") (codes "a") ≡ codes "dir/a"
unfolding join_path starts_with
joined = refl

joined_absolute : join_path (codes "dir") (codes "/abs") ≡ codes "/abs"
unfolding join_path starts_with
joined_absolute = refl

joined_empty : join_path (codes "dir") [] ≡ codes "dir/"
unfolding join_path starts_with
joined_empty = refl
