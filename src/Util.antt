-- ===== src/Util.antt =====
-- src/util: names of queues, the PID file and the moves of files.
pub mod QueueName
pub mod PidFile
pub mod Msg
pub mod Pickup
