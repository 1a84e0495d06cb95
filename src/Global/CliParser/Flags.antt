-- ===== src/Global/CliParser/Flags.antt =====
-- Which options a set of flags declares.
use file_inspect_key_analyse.Base.{ℕ, Bytes, codes, Bool, true, false, ◌++◌, ◌≡◌, refl}
use file_inspect_key_analyse.Global.FilePath.{filename}
use file_inspect_key_analyse.Global.CliParser.{
  none_option, pidfile_option, verbose_option, version_option, help_option, join, OptionSpec,
  OptionKind, required_text, switch, plain, when, initialize, CliParser,
}

abbrev chosen : Bool → ℕ → ℕ
chosen true flag = flag
chosen false flag = none_option

-- The flags that are chosen, joined.
abbrev pub flags_of : Bool → Bool → Bool → Bool → ℕ
flags_of p v n h =
    join (join (join (chosen p pidfile_option) (chosen v verbose_option)) (chosen n version_option))
      (chosen h help_option)

-- The four options.
abbrev pub option_of : Bytes → OptionKind → Bytes → OptionSpec
option_of name kind help = record { name = name; kind = kind; help = help }

module _ (S : Type 0) where
  -- Each of the four options is added to the description exactly if its flag was joined in, whatever
  -- the others, and nothing else of the parser changes.
  initialize-flags_of :
      (argv0 : Bytes) (cli : CliParser S) (p v n h : Bool)
      → initialize S argv0 (flags_of p v n h) cli ≡ record cli {
        desc =
            cli.desc
            ++ (when p (
                  option_of
                    (codes "pidfile")
                    required_text
                    (codes "Store " ++ filename argv0 ++ codes " pid to {file}."))
                ++ (when v (option_of (codes "verbose") switch (codes "Enable verbose output"))
                    ++ (when n (
                          option_of (codes "version") switch (codes "Shows the version and quits."))
                        ++ when h (option_of (codes "help,h") plain (codes "Show help message")))));
      }
  unfolding initialize join
  initialize-flags_of argv0 cli true true true true = refl
  initialize-flags_of argv0 cli true true true false = refl
  initialize-flags_of argv0 cli true true false true = refl
  initialize-flags_of argv0 cli true true false false = refl
  initialize-flags_of argv0 cli true false true true = refl
  initialize-flags_of argv0 cli true false true false = refl
  initialize-flags_of argv0 cli true false false true = refl
  initialize-flags_of argv0 cli true false false false = refl
  initialize-flags_of argv0 cli false true true true = refl
  initialize-flags_of argv0 cli false true true false = refl
  initialize-flags_of argv0 cli false true false true = refl
  initialize-flags_of argv0 cli false true false false = refl
  initialize-flags_of argv0 cli false false true true = refl
  initialize-flags_of argv0 cli false false true false = refl
  initialize-flags_of argv0 cli false false false true = refl
  initialize-flags_of argv0 cli false false false false = refl
