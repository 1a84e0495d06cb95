-- ===== src/Global.antt =====
-- src/global: the data that the services share, their base class and the command line.
pub mod FilePath
pub mod CString
pub mod MimeType
pub mod FileJob
pub mod Service
pub mod Commands
pub mod CliParser
pub mod Launch
pub mod ConfigLoader
pub mod ParserClass
pub mod MessageQueues
