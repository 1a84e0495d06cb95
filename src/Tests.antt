-- ===== src/Tests.antt =====
-- Concrete inputs: the theorems at inputs that meet their hypotheses, and runs of the code.
mod Disk
mod Data
mod Services
mod Texts
mod Pipeline
mod Processes
mod Supervision
mod Mains
mod Reading
mod Threads
mod Uploads
mod Unwound
