-- ===== src/Global/CliParser.antt =====
-- src/global/include/cli_parser.h and src/global/src/cli_parser.cpp: the options that the services
-- share. What boost makes of the command line, given the options, is a parameter.
pub mod Flags
use file_inspect_key_analyse.Base.{
  ℕ, ℤ, zero, suc, pos, ◌+◌, ◌-◌, ◌≤◌, ◌<◌, ◌*◌, Bytes, String, codes, eq_bytes, eq_bytes_iff,
  eq_bytes_refl, is_empty, starts_with, starts_with-append, Bool, true, false, not, ◌&&◌, ◌||◌,
  List, [], ◌∷◌, ◌++◌, map, All, All-append, All-removed, Memᴰ, Option, none, some, if◌then◌else◌,
  ◌≡◌, refl, sym, subst, lookup-All, ap, ◌∙◌, ◌⊎◌, inl, inr, ◌≢◌, ◌↔◌, arith, Bool-cases, Result,
  ok, thrown, undefined, >>=-ok_parts, catch-eq-ok, ◌>>=◌, catch, Dict, lookup, insert,
  lookup-insert, length, take, drop, replicate, ltb, ◌==◌, length-append, drop-add, drop-append,
  take-append,
}
use Prim.Native.Nat.{bit_and, bit_or}
use file_inspect_key_analyse.Global.FilePath.{filename}

-- `default_option`
abbrev pub none_option : ℕ
none_option = 0

abbrev pub pidfile_option : ℕ
pidfile_option = 1

abbrev pub verbose_option : ℕ
verbose_option = 2

abbrev pub version_option : ℕ
version_option = 4

abbrev pub help_option : ℕ
help_option = 8

-- `operator|`
unfoldable pub join : ℕ → ℕ → ℕ
join a b = bit_or a b

abbrev pub has_flag : ℕ → ℕ → Bool
has_flag flags flag = not (bit_and flags flag == 0)

-- How an option takes its value: it must be given, it is a switch that is off, it has a default, or it
-- has none.
pub data OptionKind : Type 0 where
  required_text optional_text switch plain : OptionKind
  defaulted_text : Bytes → OptionKind

-- A line of `options_description`.
pub record OptionSpec : Type 0 where
  pub name : Bytes
  pub kind : OptionKind
  pub help : Bytes

abbrev pub when : Bool → OptionSpec → List OptionSpec
when true spec = spec ∷ []
when false spec = []

-- What `initialize` adds to the description; `argv0` is `argv_[0]`.
unfoldable pub default_options : Bytes → ℕ → List OptionSpec
default_options argv0 flags =
    when (has_flag flags pidfile_option) (record {
      name = codes "pidfile";
      kind = required_text;
      help = codes "Store " ++ filename argv0 ++ codes " pid to {file}.";
    })
    ++ (when (has_flag flags verbose_option)
          (record { name = codes "verbose"; kind = switch; help = codes "Enable verbose output" })
        ++ (when (has_flag flags version_option) (record {
          name = codes "version";
          kind = switch;
          help = codes "Shows the version and quits.";
        })
            ++ when (has_flag flags help_option)
                (record { name = codes "help,h"; kind = plain; help = codes "Show help message" })))

-- `variables_map`
pub record VariablesMap : Type 0 where
  pub count : Bytes → ℕ
  pub as_text : Bytes → Bytes
  pub as_bool : Bytes → Bool

-- A map with nothing in it.
abbrev pub no_variables : VariablesMap
no_variables = record { count = λ name. 0; as_text = λ name. []; as_bool = λ name. false }

-- `operator<` of `std::string`.
unfoldable pub is_before : Bytes → Bytes → Bool
is_before s [] = false
is_before [] (d ∷ t) = true
is_before (c ∷ s) (d ∷ t) =
    let rest = is_before s t in if ltb c d then true else if c == d then rest else false

-- `callbacks[name] = callback` on a `std::map`, which keeps its keys in order.
unfoldable pub insert_ordered {ℓ} : {V : Type ℓ} → Bytes → V → Dict V → Dict V
unfolding is_before
insert_ordered name v [] = (name, v) ∷ []
insert_ordered name v ((key, old) ∷ rest) =
    let later = (key, old) ∷ insert_ordered name v rest in
    if eq_bytes name key
    then (name, v) ∷ rest
    else if is_before name key
    then (name, v) ∷ (key, old) ∷ rest
    else later

-- `S` is what the callbacks write to; a value is a text, the type that `add_option` takes by default.
module _ (S : Type 0) where
  abbrev pub Callback : Type 0
  Callback = VariablesMap → S → S

  pub record CliParser : Type 0 where
    pub desc : List OptionSpec
    pub value_callbacks : Dict Callback
    pub bool_callbacks : Dict Callback
    pub vm : VariablesMap

  -- The constructor.
  abbrev pub cli_parser : CliParser
  cli_parser = record { desc = []; value_callbacks = []; bool_callbacks = []; vm = no_variables }

  unfoldable pub initialize : Bytes → ℕ → CliParser → CliParser
  unfolding default_options
  initialize argv0 flags cli = record cli { desc = cli.desc ++ default_options argv0 flags }

  unfoldable pub set_options_description : List OptionSpec → CliParser → CliParser
  set_options_description desc cli = record cli { desc = cli.desc ++ desc }

  -- The wrapped callback of `add_option`: it is called if the option is there.
  unfoldable pub if_given : Bytes → Callback → Callback
  if_given name callback vm s = if vm.count name == 0 then s else callback vm s

  -- `add_option<bool>`; `none` is a callback that is null.
  unfoldable pub add_bool_option : Bytes → Bytes → Option (Bool → S → S) → CliParser → CliParser
  unfolding if_given insert_ordered
  add_bool_option name description callback cli =
      let described = record cli {
        desc = cli.desc ++ record { name = name; kind = switch; help = description } ∷ [];
      } in
      elim callback [
        | none ↦ described
        | some call ↦ record described {
          bool_callbacks =
              insert_ordered name (if_given name (λ vm. call (vm.as_bool name))) cli.bool_callbacks;
        }
      ]

  -- `add_option<std::string>`
  unfoldable pub add_value_option :
      Bytes → Bytes → Option (Bytes → S → S) → Bytes → CliParser → CliParser
  unfolding if_given insert_ordered
  add_value_option name description callback default_value cli =
      let described = record cli {
        desc =
            cli.desc
            ++ record { name = name; kind = defaulted_text default_value; help = description } ∷ [];
      } in
      elim callback [
        | none ↦ described
        | some call ↦ record described {
          value_callbacks =
              insert_ordered name (if_given name (λ vm. call (vm.as_text name)))
                cli.value_callbacks;
        }
      ]

  -- In the order of their names.
  unfoldable pub run_callbacks : Dict Callback → Callback
  run_callbacks [] vm s = s
  run_callbacks ((name, cb) ∷ rest) vm s = run_callbacks rest vm (cb vm s)

  -- `parse`, once the variables have been stored in `vm_`.
  unfoldable pub parsed : CliParser → S → Option VariablesMap × CliParser × S
  unfolding run_callbacks
  parsed cli s =
      if cli.vm.count (codes "help") == 1
      then (none, cli, s)
      else if cli.vm.count (codes "version") == 1 && cli.vm.as_bool (codes "version")
      then (none, cli, s)
      else (
        some cli.vm,
        cli,
        run_callbacks cli.bool_callbacks cli.vm (run_callbacks cli.value_callbacks cli.vm s),
      )

  -- `parse`. `store` is what boost's `store` and `notify` make of the command line; an exception
  -- leaves `vm_` as it was.
  unfoldable pub parse :
      (List OptionSpec → Result VariablesMap)
      → CliParser
      → S
      → Result (Option VariablesMap × CliParser × S)
  unfolding parsed
  parse store cli s = elim (store cli.desc) [
    | ok vm ↦ ok (parsed (record cli { vm = vm }) s)
    | thrown what ↦ ok (none, cli, s)
    | undefined ↦ undefined
  ]

  -- `get_option<std::string>`
  unfoldable pub get_option : CliParser → Bytes → Result Bytes
  get_option cli name =
      if cli.vm.count name == 0
      then thrown (codes "Option not found: " ++ name)
      else ok (cli.vm.as_text name)
