-- ===== src/Fika.antt =====
-- src/fika: the program that sends a command of the user to the supervisor, and starts one first if
-- none answers.
pub mod Cli
pub mod Main
pub mod Journey
