-- ===== src/Global/ConfigLoader.antt =====
-- src/global/include/config_loader.hpp: the reading of a configuration. Files and JSON are parameters.
use file_inspect_key_analyse.Base.{
  Bytes, codes, is_empty, List, ◌++◌, Option, none, some, if◌then◌else◌, Result, thrown, ◌>>=◌,
}

-- What the code uses of `nlohmann::json`; each call may throw.
pub record JsonApi : Type 1 where
  pub Json : Type 0
  pub at : Json → Bytes → Result Json
  pub get_text : Json → Result Bytes
  pub get_texts : Json → Result (List Bytes)
  pub elements : Json → List Json

-- `read` is a file that is opened and parsed; `none` is one that cannot be opened.
unfoldable pub load :
    (J : JsonApi) {T : Type 0}
    → (J.Json → Result T)
    → (Bytes → Option (Result J.Json))
    → Bytes
    → Bytes
    → Result T
load J from_json read filename json_key = elim (read filename) [
  | none ↦ thrown (codes "Config file not found: " ++ filename)
  | some parsed ↦
      parsed >>= λ j. if is_empty json_key then from_json j else J.at j json_key >>= from_json
]
