-- ===== src/Fika/Cli.antt =====
-- src/fika/include/cli.h and src/fika/src/cli.cpp: the command in a command line.
use file_inspect_key_analyse.Base.{
  Bytes, codes, List, [], ◌∷◌, ◌++◌, none, some, if◌then◌else◌, Result, ok, thrown, ◌>>=◌, Dict,
  lookup, ◌==◌,
}
use file_inspect_key_analyse.Global.Commands.{CommandType}
use file_inspect_key_analyse.Global.CliParser.{
  VariablesMap, OptionSpec, required_text, optional_text,
}

pub record ParsedCommand : Type 0 where
  pub type : CommandType
  pub service : Bytes

-- `command_map`
unfoldable pub command_map : Dict CommandType
command_map =
    (codes "start", CommandType.start)
    ∷ (codes "stop", CommandType.stop)
    ∷ (codes "restart", CommandType.restart)
    ∷ (codes "reload", CommandType.reload)
    ∷ (codes "status", CommandType.status)
    ∷ (codes "logs", CommandType.logs)
    ∷ []

-- `var_map["command"].as<std::string>()`, which throws on a command line without it.
unfoldable pub command_text : VariablesMap → Result Bytes
command_text var_map =
    if var_map.count (codes "command") == 0
    then thrown (codes "bad_any_cast")
    else ok (var_map.as_text (codes "command"))

unfoldable pub service_text : VariablesMap → Bytes
service_text var_map =
    if var_map.count (codes "service") == 0 then [] else var_map.as_text (codes "service")

-- `parse_command_line`
unfoldable pub parse_command_line : VariablesMap → Result ParsedCommand
unfolding command_map command_text service_text
parse_command_line var_map = do
  cmd_str ← command_text var_map
  elim (lookup cmd_str command_map) [
    | none ↦ thrown (codes "Unknown command: " ++ cmd_str)
    | some type ↦ ok (record { type = type; service = service_text var_map })
  ]

-- `command_description`
unfoldable pub command_description : List OptionSpec
command_description =
    record {
      name = codes "command,c";
      kind = required_text;
      help = codes "command to execute (start|stop|restart|reload|status|logs)";
    }
    ∷ record {
      name = codes "service,s";
      kind = optional_text;
      help = codes "service name (optional)";
    }
    ∷ []
