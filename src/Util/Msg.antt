-- ===== src/Util/Msg.antt =====
-- src/util/include/msg.h and src/util/src/msg.cpp: what is logged, and where it goes. `fmt` is a
-- parameter; the sinks are what boost is told of them.
pub mod Paths
use file_inspect_key_analyse.Base.{
  ℕ, zero, suc, ◌+◌, ◌-◌, ◌≤◌, ◌<◌, ◌*◌, Bytes, String, codes, eq_bytes, eq_bytes_iff,
  eq_bytes_refl, is_empty, starts_with, starts_with-append, Bool, true, false, not, ◌&&◌, ◌||◌,
  List, [], ◌∷◌, ◌++◌, map, All, All-append, All-removed, Memᴰ, Option, none, some, if◌then◌else◌,
  ◌≡◌, refl, sym, subst, lookup-All, ap, ◌∙◌, ◌⊎◌, inl, inr, ◌≢◌, ◌↔◌, arith, Bool-cases, Result,
  ok, thrown, undefined, >>=-ok_parts, catch-eq-ok, ◌>>=◌, catch, Dict, lookup, insert,
  lookup-insert, length, take, drop, replicate, ltb, ◌==◌, length-append, drop-add, drop-append,
  take-append,
}

unfoldable pub is_separator : ℕ → Bool
is_separator c = c == b'/' || c == b'\\'

-- `path.find_last_of("/\\")`; `none` is `npos`.
unfoldable pub find_last_of : Bytes → Option ℕ
unfolding is_separator
find_last_of [] = none
find_last_of (c ∷ path) = elim (find_last_of path) [
  | some i ↦ some (suc i)
  | none ↦ if is_separator c then some 0 else none
]

unfoldable pub filename_only : Bytes → Bytes
unfolding find_last_of
filename_only path = elim (find_last_of path) [ none ↦ path | some i ↦ drop (i + 1) path ]

-- The severities of `BOOST_LOG_TRIVIAL`.
pub data Severity : Type 0 where
  debug info warning error fatal : Severity

-- What the code uses of `fmt`, which throws on a text that is no format: `vformat`, and the decimal
-- text of a number.
pub record FmtApi : Type 0 where
  pub vformat : Bytes → List Bytes → Result Bytes
  pub decimal : ℕ → Bytes

-- `std::source_location`
pub record SourceLocation : Type 0 where
  pub file_name : Bytes
  pub line : ℕ

pub record LogRecord : Type 0 where
  pub severity : Severity
  pub message : Bytes

module _ (A : FmtApi) where
  -- The body of each constructor, `fmt::format("[{}:{}] {}", ...)` written out.
  unfoldable pub log_at : Severity → Bytes → List Bytes → SourceLocation → Result LogRecord
  log_at severity fmt args loc = do
    msg ← A.vformat fmt args
    ok (record {
      severity = severity;
      message =
          codes "["
          ++ (filename_only loc.file_name
              ++ (codes ":" ++ (A.decimal loc.line ++ (codes "] " ++ msg))));
    })

  unfoldable pub log_debug : Bytes → List Bytes → SourceLocation → Result LogRecord
  unfolding log_at
  log_debug fmt args loc = log_at debug fmt args loc

  unfoldable pub log_info : Bytes → List Bytes → SourceLocation → Result LogRecord
  unfolding log_at
  log_info fmt args loc = log_at info fmt args loc

  unfoldable pub log_warn : Bytes → List Bytes → SourceLocation → Result LogRecord
  unfolding log_at
  log_warn fmt args loc = log_at warning fmt args loc

  unfoldable pub log_error : Bytes → List Bytes → SourceLocation → Result LogRecord
  unfolding log_at
  log_error fmt args loc = log_at error fmt args loc

  unfoldable pub log_critical : Bytes → List Bytes → SourceLocation → Result LogRecord
  unfolding log_at
  log_critical fmt args loc = log_at fatal fmt args loc

-- A sink to a file.
pub record FileSink : Type 0 where
  pub file_name : Bytes
  pub append : Bool
  pub auto_flush : Bool
  pub time_format : Bytes

-- The sink's formatter: the time, as the sink's `time_format` prints it, the severity and the process.
unfoldable pub formatter : Bytes → Bytes → Bytes → Bytes → Bytes
formatter time severity process message =
    codes "["
    ++ (time
        ++ (codes "] [" ++ (severity ++ (codes "] [" ++ (process ++ (codes "] " ++ message))))))

-- The logging core, and the flag of `call_once`.
pub record LogCore : Type 0 where
  pub called : Bool
  pub common_attributes : Bool
  pub global_attributes : List Bytes
  pub sinks : List FileSink

unfoldable pub msg_logger_init : Bytes → LogCore → LogCore
msg_logger_init log_file core = if core.called then core else record {
  called = true;
  common_attributes = true;
  global_attributes = core.global_attributes ++ codes "ProcessName" ∷ [];
  sinks =
      core.sinks
      ++ record {
        file_name = log_file;
        append = true;
        auto_flush = true;
        time_format = codes "%H:%M:%S";
      }
        ∷ [];
}

-- Only the first call has an effect: later ones do not even change the file.
msg_logger_init_twice :
    (first second : Bytes) (core : LogCore)
    → msg_logger_init second (msg_logger_init first core) ≡ msg_logger_init first core
unfolding msg_logger_init
msg_logger_init_twice first second core = ground arith
