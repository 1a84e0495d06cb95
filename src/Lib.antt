-- ===== src/Lib.antt =====
-- A verification library for the services of fika, which ingest, detect and parse files.
--
-- The program is a set of processes that pass jobs along message queues. `ingestd` accepts an
-- upload, moves it into the spool and sends a new job to the queue manager. The queue manager (`qm`)
-- drives each job through a state machine and sends it to `detect`, then to `parse`; both report
-- back to it. A supervisor starts, watches and stops the processes.
--
-- Base        shared names, lists, texts as lists of bytes, association lists, and `Result`, the
--             outcome of C++ code: a value, a thrown exception, or undefined behaviour.
-- Util        src/util: QueueName is qn_rslv, Pickup is pickup, PidFile is pid_file, Msg is msg.h
--             with msg.cpp.
-- Global      src/global: CString is what the code does with its fixed character arrays, FilePath is
--             path::operator/, FileJob is file_job, MimeType is mime_type.h, Service is service.h
--             with the senders of ipc_client.h, Commands is commands.h, CliParser is cli_parser,
--             ConfigLoader is config_loader.hpp, ParserClass is parser.h, MessageQueues is
--             message_queues, Launch what the mains of all services share.
-- Queues      the queues' names that the mains of src/qm, src/detect, src/parse and the supervisor use.
-- Qm          src/qm: StateMachine is state_machine, Qm itself is the class `qm`, Handler is
--             qm_service with the senders of main.cpp, Main is main.cpp. Race has the threads of
--             the pool where they store a job in the object of `qm`.
-- Detect      src/detect: the list of detectors, Magic is magic_handle, Handler is detect_service,
--             Main is main.cpp, and Closing is its block with the handles of libmagic.
-- Parse       src/parse: the registry, Handler is parse_service, Main is main.cpp.
-- Pdf         src/parsers/pdf: the parser, over poppler as a parameter, and Main, its program. No
--             service registers it.
-- Supervisor  src/supervisor: Worker is worker, QueueManager is ipc_queue_manager, Supervisor itself
--             is the class `supervisor` with the commands of cmd_def.h, Main is main.cpp, Pills and
--             Service have the loop over its queues. Wanted is the abstract view, the states that
--             the commands ask for. Unwound has the supervisor that an exception leaves behind.
-- Fika        src/fika: Cli is cli.cpp, Main is main.cpp, Journey goes from the command line to the
--             supervisor's workers.
-- Ingestd     src/ingestd: the handler of uploads, Ids the ids that it draws, and Main is main.cpp.
-- Mains       the programs as processes that contend for their PID files, and how they end.
-- Network     the three services on their queues, as a step relation in which each may take any
--             message of its queue, since `Service` posts every message to a pool of threads;
--             Journey goes on from ingestd's uploads. Network/Threads has the receiving threads, the
--             pools of so many threads and the bounded queues themselves, as a finer step relation.
-- Tests       concrete inputs.
--
-- A method that changes its object returns the new state. The file system, libmagic, boost's queues
-- and processes are parameters, with what the code relies on as named hypotheses. Numbers are
-- natural numbers; the job's `attempts` is only copied. The services' models do not log.
-- Network/Threads has any number of threads and any capacity, and a `send` on a full queue waits
-- there; a handler up to its `send` is one step, and the coarser relation of Network has no bounds.
-- That two handlers of the queue manager run at once, and meet in `jobs_in_memory`, is in Qm/Race.
-- Loops over messages recurse on the list of those that arrive, so no fuel is needed. What writes
-- the digits of a number has fuel: 20 for a `long long`, which has 19 digits at most, and more than
-- the number itself for a process.
-- The model of the supervisor itself keeps no state of an exception; Supervisor/Unwound does, up to
-- the workers that main destroys. A call of the operating system gives its outcome, a value or an
-- exception, as a parameter does: that it may never return is modelled for the services' sends, in
-- Network/Threads and in the way their processes end, and not for the supervisor's calls, whose theorems
-- name as a hypothesis that they return. Where a poison pill stands in a queue the relation of Network
-- also takes jobs behind it, so it has more runs than the services. A detector is a function of the
-- path: that libmagic's handle, which its threads share, or the file may change is not modelled.
-- Not modelled either: the HTTP server, for which a list of requests stands, and what it does with an
-- exception; the heartbeat, which nothing reads; what the PDF parser prints.
mod Base
pub mod Util
pub mod Global
pub mod Queues
pub mod Qm
pub mod Detect
pub mod Parse
pub mod Supervisor
pub mod Fika
pub mod Mains
pub mod Pdf
pub mod Ingestd
pub mod Network
pub mod Tests
