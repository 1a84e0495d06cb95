-- ===== src/Global/Commands/Laws.antt =====
-- The name of a service on its way to the supervisor.
use file_inspect_key_analyse.Base.{◌≤◌, Bytes, ◌≡◌, refl, ◌∙◌, ok, ◌>>=◌, length, take}
use file_inspect_key_analyse.Global.CString.{c_str, HasNoNul}
use file_inspect_key_analyse.Global.CString.Laws.{copy_terminated_ok, c_str_id}
use file_inspect_key_analyse.Global.Commands.{CommandType, CommandMessage, command_message, service}
use file_inspect_key_analyse.Base.{take_all}

-- The message is always made, and the supervisor reads the name of the service back, cut at 63 bytes.
pub service-command_message :
    (cmd : CommandType) (name : Bytes)
    → (m : CommandMessage) × (command_message cmd name ≡ ok m)
      × (m.cmd ≡ cmd)
      × (service m ≡ ok (take 63 (c_str name)))
unfolding command_message service
service-command_message cmd name =
    let (a, made, read, _) = copy_terminated_ok 63 name in
    (record { cmd = cmd; service_name = a }, rw made, refl, read)

-- A name that fits and has no NUL arrives as it was.
service-command_message_plain :
    (cmd : CommandType) (name : Bytes)
    → length name ≤ 63
    → HasNoNul name
    → (command_message cmd name >>= service) ≡ ok name
service-command_message_plain cmd name short plain =
    let (m, made, _, read) = service-command_message cmd name in
    rw made (read ∙ simp (c_str_id name plain, take_all 63 name short))
