-- ===== src/Hooks/Whitelist.antt =====
-- internal/hooks/whitelist.go: the commands that a hook may run. The file, its YAML and regular
-- expressions are parameters; a method holds the manager's lock throughout.
pub mod Laws
use Prim.Native.String.{◌++◌}
use flux_externalsource_cont.Prelude.{
  String, Bool, true, false, not, Option, none, some, List, [], ◌∷◌, Result, ok, err, all, any,
  if◌then◌else◌,
}
use flux_externalsource_cont.Prelude.Dict.{Dict, lookup, insert}

pub record CommandConfig : Type 0 where
  pub allowed : Bool
  pub argument_patterns : List String

-- `none` stands for the nil map
pub record WhitelistConfig : Type 0 where
  pub commands : Option (Dict CommandConfig)

-- Packages os, yaml, regexp and path/filepath.
pub record WhitelistLibrary : Type 1 where
  pub Regexp : Type 0
  pub compile : String → Result String Regexp
  pub match_string : Regexp → String → Bool
  pub base : String → String
  pub unmarshal : String → Result String WhitelistConfig

module _ (lib : WhitelistLibrary) where
  pub record FileWhitelistManager : Type 0 where
    pub path : String
    pub config : Option WhitelistConfig
    pub arg_patterns : Dict (List lib.Regexp)
    pub allow_all_by_default : Bool

  unfoldable pub compile_all : (cmd : String) → List String → Result String (List lib.Regexp)
  compile_all cmd [] = ok []
  compile_all cmd (pattern ∷ patterns) =
      let rest = compile_all cmd patterns in
      elim (lib.compile pattern) [
        | err e ↦ err ("invalid regex pattern for command " ++ cmd ++ ": " ++ e)
        | ok re ↦ elim rest [ err e ↦ err e | ok res ↦ ok (re ∷ res) ]
      ]

  -- the loop over the commands of the file
  unfoldable pub compile_commands :
      Dict CommandConfig → Dict (List lib.Regexp) → Result String (Dict (List lib.Regexp))
  unfolding compile_all
  compile_commands [] patterns = ok patterns
  compile_commands ((cmd, cmd_config) ∷ commands) patterns =
      let skipped = compile_commands commands patterns in
      elim (cmd_config.argument_patterns) [
        | [] ↦ skipped
        | p ∷ ps ↦ elim (compile_all cmd (p ∷ ps)) [
          | err e ↦ err e
          | ok res ↦ compile_commands commands (insert cmd res patterns)
        ]
      ]

  abbrev pub commands_of : WhitelistConfig → Dict CommandConfig
  commands_of config = elim (config.commands) [ none ↦ [] | some commands ↦ commands ]

  abbrev pub with_patterns :
      FileWhitelistManager
      → WhitelistConfig
      → Result String (Dict (List lib.Regexp))
      → Result String (Unit {0}) × FileWhitelistManager
  with_patterns w config (err e) = (err e, w)
  with_patterns w config (ok patterns) =
      (ok tt, record w { config = some config; arg_patterns = patterns })

  abbrev pub with_config :
      FileWhitelistManager
      → Result String WhitelistConfig
      → Result String (Unit {0}) × FileWhitelistManager
  with_config w (err e) = (err ("failed to parse whitelist file: " ++ e), w)
  with_config w (ok config) = with_patterns w config (compile_commands (commands_of config) [])

  -- the answer of os.ReadFile(w.path) is an argument
  unfoldable pub reload :
      Result String String → FileWhitelistManager → Result String (Unit {0}) × FileWhitelistManager
  unfolding compile_commands
  reload (err e) w = (err ("failed to read whitelist file: " ++ e), w)
  reload (ok file) w = with_config w (lib.unmarshal file)

  -- the constructors: no manager is made if the file cannot be loaded
  abbrev pub loaded_manager :
      Result String (Unit {0}) × FileWhitelistManager → Result String FileWhitelistManager
  loaded_manager (ok done, wm) = ok wm
  loaded_manager (err e, wm) = err ("failed to load whitelist: " ++ e)

  unfoldable pub new_file_whitelist_manager_with_default :
      (path : String) (allow_all_by_default : Bool)
      → Result String String
      → Result String FileWhitelistManager
  unfolding reload
  new_file_whitelist_manager_with_default path allow_all_by_default file = loaded_manager (
      reload file (record {
        path = path;
        config = none;
        arg_patterns = [];
        allow_all_by_default = allow_all_by_default;
      }))

  unfoldable pub new_file_whitelist_manager :
      (path : String) → Result String String → Result String FileWhitelistManager
  unfolding reload
  new_file_whitelist_manager path file = loaded_manager (
      reload file
        (record { path = path; config = none; arg_patterns = []; allow_all_by_default = false }))

  -- an entry of a map, under the command or else under its base name
  abbrev pub or_else {ℓ} : {A : Type ℓ} → Option A → Option A → Option A
  or_else (some a) other = some a
  or_else none other = other

  abbrev pub entry {ℓ} : {A : Type ℓ} → String → Dict A → Option A
  entry command m = or_else (lookup command m) (lookup (lib.base command) m)

  abbrev pub match_all : Option (List lib.Regexp) → List String → Bool
  match_all none args = true
  match_all (some patterns) args = all (λ arg. any (λ p. lib.match_string p arg) patterns) args

  abbrev pub check : FileWhitelistManager → String → List String → Option CommandConfig → Bool
  check w command args none = w.allow_all_by_default
  check w command args (some cmd_config) =
      if not cmd_config.allowed then false else match_all (entry command w.arg_patterns) args

  abbrev pub loaded : Option WhitelistConfig → Option (Dict CommandConfig)
  loaded none = none
  loaded (some config) = config.commands

  abbrev pub with_commands :
      FileWhitelistManager → String → List String → Option (Dict CommandConfig) → Bool
  with_commands w command args none = w.allow_all_by_default
  with_commands w command args (some commands) = check w command args (entry command commands)

  unfoldable pub is_allowed : FileWhitelistManager → String → List String → Bool
  unfolding lookup
  is_allowed w command args = with_commands w command args (loaded w.config)
