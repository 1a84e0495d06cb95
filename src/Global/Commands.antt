-- ===== src/Global/Commands.antt =====
-- src/global/include/commands.h: the commands that `fika` sends to the supervisor.
pub mod Laws
use file_inspect_key_analyse.Base.{
  ℕ, ℤ, zero, suc, pos, ◌+◌, ◌-◌, ◌≤◌, ◌<◌, ◌*◌, Bytes, String, codes, eq_bytes, eq_bytes_iff,
  eq_bytes_refl, is_empty, starts_with, starts_with-append, Bool, true, false, not, ◌&&◌, ◌||◌,
  List, [], ◌∷◌, ◌++◌, map, All, All-append, All-removed, Memᴰ, Option, none, some, if◌then◌else◌,
  ◌≡◌, refl, sym, ap, ◌∙◌, ◌⊎◌, inl, inr, ◌≢◌, ◌↔◌, arith, Bool-cases, Result, ok, thrown,
  undefined, >>=-ok_parts, catch-eq-ok, ◌>>=◌, catch, Dict, lookup, insert, lookup-insert, length,
  take, drop, replicate, ltb, ◌==◌, length-append, drop-add, drop-append, take-append,
}
use file_inspect_key_analyse.Global.CString.{zeros, copy_terminated, read_c_string, strncpy}

pub data CommandType : Type 0 where
  start stop restart reload status logs ping help : CommandType

abbrev pub service_name_max_len : ℕ
service_name_max_len = 64

abbrev pub service_response_len : ℕ
service_response_len = 256

pub record CommandMessage : Type 0 where
  pub cmd : CommandType
  pub service_name : Bytes

pub record CommandResponse : Type 0 where
  pub success : Bool
  pub message : Bytes

-- The constructor of `CommandMessage`.
unfoldable pub command_message : CommandType → Bytes → Result CommandMessage
command_message cmd service = do
  name ← copy_terminated 63 service
  ok (record { cmd = cmd; service_name = name })

-- `CommandMessage::service`
unfoldable pub service : CommandMessage → Result Bytes
service m = read_c_string m.service_name

-- `CommandResponse{}`
unfoldable pub empty_response : CommandResponse
empty_response = record { success = false; message = zeros service_response_len }
