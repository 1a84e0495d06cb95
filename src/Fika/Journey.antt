-- ===== src/Fika/Journey.antt =====
-- What a command line given to `fika` makes the supervisor do.
use file_inspect_key_analyse.Base.{
  ◌≤◌, Bytes, codes, eq_bytes, Bool, true, false, ◌++◌, Option, none, some, if◌then◌else◌, ◌≡◌,
  refl, sym, ap, ◌∙◌, inl, inr, Bool-cases, Result, ok, thrown, ◌>>=◌, lookup, length, ◌==◌,
}
use file_inspect_key_analyse.Global.Commands.{CommandType, CommandMessage, command_message, service}
use file_inspect_key_analyse.Global.Commands.Laws.{service-command_message}
use file_inspect_key_analyse.Base.{take_all, subst-ok}
use file_inspect_key_analyse.Global.CString.Laws.{c_str_id}
use file_inspect_key_analyse.Global.CString.{HasNoNul}
use file_inspect_key_analyse.Global.CliParser.{VariablesMap}
use file_inspect_key_analyse.Fika.Cli.{
  ParsedCommand, command_map, command_text, service_text, parse_command_line,
}
use file_inspect_key_analyse.Supervisor.Worker.{ProcessApi}
use file_inspect_key_analyse.Supervisor.QueueManager.{IpcQueueManager}
use file_inspect_key_analyse.Supervisor.{
  Supervisor, start_workers, stop_workers, monitor_once, handle_command, registered_command,
  execute, run_once,
}

service-command_message_short :
    (cmd : CommandType) (name : Bytes)
    → length name ≤ 63
    → HasNoNul name
    → (m : CommandMessage) × (command_message cmd name ≡ ok m)
      × (m.cmd ≡ cmd)
      × (service m ≡ ok name)
service-command_message_short cmd name short plain =
    let (m, made, kind, read) = service-command_message cmd name in
    (m, made, kind, read ∙ simp (c_str_id name plain, take_all 63 name short))

-- What a command line that was accepted holds.
parsed_parts :
    (vm : VariablesMap) (parsed : ParsedCommand)
    → parse_command_line vm ≡ ok parsed
    → (lookup (vm.as_text (codes "command")) command_map ≡ some parsed.type)
      × (parsed.service ≡ service_text vm)
unfolding parse_command_line command_text
parsed_parts vm parsed h = elim (Bool-cases (vm.count (codes "command") == 0)) [
  | inl missing ↦ let bad : thrown (codes "bad_any_cast") ≡ ok parsed = rw missing at h in cc bad
  | inr there ↦ go (lookup (vm.as_text (codes "command")) command_map) refl (rw there at h)
]
  where
    go :
        (t : Option CommandType)
        → lookup (vm.as_text (codes "command")) command_map ≡ t
        → ◌≡◌ {A = Result ParsedCommand}
            (elim (lookup (vm.as_text (codes "command")) command_map) [
              | none ↦ thrown (codes "Unknown command: " ++ vm.as_text (codes "command"))
              | some type ↦ ok (record { type = type; service = service_text vm })
            ])
            (ok parsed)
        → (lookup (vm.as_text (codes "command")) command_map ≡ some parsed.type)
          × (parsed.service ≡ service_text vm)
    go none e k =
        let bad : thrown (codes "Unknown command: " ++ vm.as_text (codes "command")) ≡ ok parsed =
          rw e at k in
        cc bad
    go (some type) e k =
        let same : ok (record { type = type; service = service_text vm }) ≡ ok parsed = rw e at k in
        subst-ok
          (λ (q : ParsedCommand).
            (lookup (vm.as_text (codes "command")) command_map ≡ some q.type)
            × (q.service ≡ service_text vm))
          same (e, refl)

module _ (P : ProcessApi) (Q : IpcQueueManager) where
  -- What the words of the command line ask for; the others ask for nothing.
  unfoldable pub asked : Bytes → Bytes → Supervisor P Q → Result (Supervisor P Q)
  asked word name sup =
      if eq_bytes (codes "start") word
      then start_workers P Q name sup
      else if eq_bytes (codes "stop") word
      then stop_workers P Q name sup
      else if eq_bytes (codes "restart") word
      then (stop_workers P Q name sup >>= λ halted. start_workers P Q name halted)
      else ok sup

  -- A word that the command line knows is carried out as it asks.
  handle_command-asked :
      (word name : Bytes) (type : CommandType) (sup : Supervisor P Q)
      → lookup word command_map ≡ some type
      → handle_command P Q type name sup ≡ asked word name sup
  unfolding lookup command_map asked handle_command registered_command execute
  handle_command-asked word name type sup h =
      go (eq_bytes (codes "start") word) (eq_bytes (codes "stop") word)
        (eq_bytes (codes "restart") word) (eq_bytes (codes "reload") word)
        (eq_bytes (codes "status") word) (eq_bytes (codes "logs") word) type h
    where
      does :
          (u t : CommandType)
          → some u ≡ some t
          → {result : Result (Supervisor P Q)} → handle_command P Q u name sup ≡ result
          → handle_command P Q t name sup ≡ result
      does u t same done = ap (λ v. handle_command P Q v name sup) (sym (cc same)) ∙ done

      go :
          (a b c d e f : Bool) (t : CommandType)
          → (if a
              then some CommandType.start
              else if b
              then some CommandType.stop
              else if c
              then some CommandType.restart
              else if d
              then some CommandType.reload
              else if e
              then some CommandType.status
              else if f
              then some CommandType.logs
              else none)
            ≡ some t
          → handle_command P Q t name sup ≡ (
              if a
              then start_workers P Q name sup
              else if b
              then stop_workers P Q name sup
              else if c
              then (stop_workers P Q name sup >>= λ halted. start_workers P Q name halted)
              else ok sup)
      go true b c d e f t k = does CommandType.start t k refl
      go false true c d e f t k = does CommandType.stop t k refl
      go false false true d e f t k = does CommandType.restart t k refl
      go false false false true e f t k = does CommandType.reload t k refl
      go false false false false true f t k = does CommandType.status t k refl
      go false false false false false true t k = does CommandType.logs t k refl
      go false false false false false false t k =
          let bad : ◌≡◌ {A = Option CommandType} none (some t) = k in cc bad

  -- If the command line is accepted and the service's name is at most 63 bytes with no NUL, then a
  -- message is made of it, and a round of the supervisor that receives this message does what the word
  -- asks for, to the service of that name, and then watches: `start`, `stop` and `restart` do so, and
  -- `reload`, `status` and `logs` do nothing.
  pub run_once-asked :
      (vm : VariablesMap) (parsed : ParsedCommand) (sup : Supervisor P Q)
      → parse_command_line vm ≡ ok parsed
      → length parsed.service ≤ 63
      → HasNoNul parsed.service
      → (msg : CommandMessage) × (command_message parsed.type parsed.service ≡ ok msg)
        × (run_once P Q (some msg) sup
            ≡ (asked (vm.as_text (codes "command")) (service_text vm) sup >>= monitor_once P Q))
  unfolding parse_command_line command_text run_once
  run_once-asked vm parsed sup h short plain =
      let (msg, made, sent, read) =
        service-command_message_short parsed.type parsed.service short plain in
      let (known, named) = parsed_parts vm parsed h in
      (
        msg,
        made,
        rw (read, sent, named)
            (rw
              (handle_command-asked (vm.as_text (codes "command")) (service_text vm) parsed.type sup
                known)
              refl),
      )
