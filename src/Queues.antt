-- ===== src/Queues.antt =====
-- The queues of the pipeline, by the names under which src/qm/src/main.cpp, src/detect/src/main.cpp,
-- src/parse/src/main.cpp and src/supervisor/src/supervisor.cpp open them.
use file_inspect_key_analyse.Base.{Bytes, codes}
use file_inspect_key_analyse.Util.QueueName.{
  make_sender, make_receiver, get_direct_queue, get_inbox_queue,
}

-- Names of the queues that the three services read.
unfoldable pub detect_queue : Bytes
detect_queue = get_direct_queue (make_sender (codes "qm")) (make_receiver (codes "detect"))

unfoldable pub parse_queue : Bytes
parse_queue = get_direct_queue (make_sender (codes "qm")) (make_receiver (codes "parse"))

unfoldable pub qm_queue : Bytes
qm_queue = get_inbox_queue (make_receiver (codes "qm"))

-- Opens all that the names are made of.
unfoldable pub names : Bytes
unfolding detect_queue parse_queue qm_queue get_direct_queue get_inbox_queue make_sender
    make_receiver
names = qm_queue
