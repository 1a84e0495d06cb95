-- ===== src/Tests/Uploads.antt =====
-- Two uploads in one second, and the services that work on their jobs.
use file_inspect_key_analyse.Base.{
  ◌++◌, ℕ, Bytes, codes, eq_bytes, starts_with, List, [], ◌∷◌, ◌≡◌, refl, ok,
}
use file_inspect_key_analyse.Global.FilePath.{join_path}
use file_inspect_key_analyse.Global.FileJob.{from_file_job}
use file_inspect_key_analyse.Global.FileJob.{FileJobShm, to_file_job, job_message}
use file_inspect_key_analyse.Ingestd.{MqSend, Ingestd, Response}
use file_inspect_key_analyse.Ingestd.Main.{Request, uploads}
use file_inspect_key_analyse.Ingestd.Submission.{new_job}
use file_inspect_key_analyse.Ingestd.Uploads.{accepted, upload_twice, spooled_file, moved_in}
use file_inspect_key_analyse.Util.Pickup.{value, move_file}
use file_inspect_key_analyse.Network.{Net, Run}
use file_inspect_key_analyse.Network.Progress.{IsIdle}
use file_inspect_key_analyse.Network.Journey.{fed, uploads-drain}
use file_inspect_key_analyse.Tests.Disk.{memory}
use file_inspect_key_analyse.Tests.Data.{net, net-IsSound, path}
use file_inspect_key_analyse.Ingestd.{submitted}
use file_inspect_key_analyse.Ingestd.Ids.{drawn_id, submitted_iff}
use file_inspect_key_analyse.Base.{◌↔◌, arith, codes}
use file_inspect_key_analyse.Global.FileJob.{FileJob}

abbrev write_file : List Bytes → Bytes → Bytes → List Bytes
write_file d file body = file ∷ d

-- A queue that has room.
abbrev pub roomy : MqSend
roomy sent m = ok (sent ++ m ∷ [])

abbrev server : Ingestd memory
server = record { spool_dir = codes "/spool/new"; disk = []; sent = [] }

abbrev incoming : Bytes
incoming = codes "/spool/incoming"

abbrev second_7 : List Bytes × file_inspect_key_analyse.Util.Pickup.Expected
second_7 =
    moved_in memory roomy (λ sent m. refl) write_file incoming (codes "7") (b'a' ∷ []) server []

abbrev requests : List Request
requests =
    record { body = b'a' ∷ []; now = codes "7"; uuid = codes "job_71" }
    ∷ record { body = b'b' ∷ []; now = codes "7"; uuid = codes "job_72" }
    ∷ []

first_moves : second_7.1 ≡ value
unfolding move_file eq_bytes join_path starts_with
first_moves = refl

second_moves :
    (moved_in memory roomy
      (λ sent m. refl)
      write_file
      incoming
      (codes "7")
      (b'b' ∷ [])
      server
      second_7.0).1
    ≡ value
unfolding move_file eq_bytes join_path starts_with
second_moves = refl

upload_twice_example :
    (m m' : FileJobShm) × (uploads memory roomy write_file incoming requests server
      ≡ ok (
        record {
          spool_dir = codes "/spool/new";
          disk =
              (moved_in memory roomy
                (λ sent m. refl)
                write_file
                incoming
                (codes "7")
                (b'b' ∷ [])
                server
                second_7.0).0;
          sent = job_message m ∷ job_message m' ∷ [];
        },
        accepted ∷ accepted ∷ [],
      ))
    × (to_file_job m
        ≡ ok (
            new_job
              (codes "job_71")
              (spooled_file memory roomy (λ sent m. refl) write_file incoming (codes "7") server)))
    × (to_file_job m'
        ≡ ok (
            new_job
              (codes "job_72")
              (spooled_file memory roomy (λ sent m. refl) write_file incoming (codes "7") server)))
upload_twice_example =
    upload_twice memory roomy (λ sent m. refl) write_file incoming (codes "7") (codes "job_71")
      (codes "job_72") b'a' b'b' [] [] server first_moves second_moves

uploads-drain_example :
    (r : Ingestd memory × List Response) × (k : ℕ) × (u : Net memory Unit) × (uploads memory roomy
        write_file incoming requests
        (record { spool_dir = codes "/spool/new"; disk = path ∷ []; sent = [] })
      ≡ ok r)
    × Run memory Unit (fed memory Unit net r.0) k u
    × IsIdle memory Unit u
    × (u.qm.disk ≡ r.0.disk)
unfolding from_file_job
uploads-drain_example =
    uploads-drain memory Unit roomy (λ sent m. refl) write_file incoming (codes "/spool/new")
      requests net net-IsSound refl ((λ e. cc), tt)

-- One millisecond, and two numbers of which the one begins the other.
abbrev time : ℕ
time = 1764000000000

abbrev one_number : ℕ
one_number = 255

abbrev other_number : ℕ
other_number = 2550

drawn_lem : drawn_id time 255 ≡ codes "job_1764000000000255"
unfolding drawn_id file_inspect_key_analyse.Ingestd.generate_unique_id
    file_inspect_key_analyse.Ingestd.Ids.to_string
    file_inspect_key_analyse.Util.PidFile.Pid.write_digits
drawn_lem = refl

submitted_iff_example :
    (m m' : FileJobShm) × (job job' : FileJob) × (submitted memory
        (drawn_id time one_number)
        (codes "a")
      ≡ ok m)
    × (submitted memory (drawn_id time other_number) (codes "b") ≡ ok m')
    × (to_file_job m ≡ ok job)
    × (to_file_job m' ≡ ok job')
    × ((job.job_id ≡ job'.job_id) ↔ ((time ≡ time) × (one_number ≡ other_number)))
submitted_iff_example =
    submitted_iff memory time time one_number other_number (codes "a") (codes "b")
      (omega arith, omega arith, omega arith) (omega arith, omega arith, omega arith)
