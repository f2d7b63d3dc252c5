-- ===== src/Hooks/Whitelist/Laws.antt =====
-- What is allowed, and what a failed reload leaves.
use flux_externalsource_cont.Prelude.{
  String, ◌≡◌, sym, ap, true, none, some, List, Result, ok, err, All,
}
use mathlib.Core.List.{Memᴰ}
use flux_externalsource_cont.Prelude.Dict.{Dict, lookup}
use flux_externalsource_cont.Hooks.Whitelist.{
  WhitelistLibrary, FileWhitelistManager, CommandConfig, WhitelistConfig, reload, with_patterns,
  with_config,
}

module _ (lib : WhitelistLibrary) where
  -- what a map has for a command: under its name, or else under its base name
  pub data Found {A : Type 0} (m : Dict A) (command : String) (a : A) : Type 0 where
    as_given : lookup command m ≡ some a → Found m command a
    by_base : lookup command m ≡ none → lookup (lib.base command) m ≡ some a → Found m command a

  -- an argument matches some pattern
  abbrev pub Matches : List lib.Regexp → String → Type 0
  Matches patterns arg = (re : lib.Regexp) × Memᴰ re patterns × (lib.match_string re arg ≡ true)

  -- what an allowed command has: an entry that allows it, and a pattern for each argument among
  -- those compiled for the command, if there are any
  pub record IsPermitted (w : FileWhitelistManager lib) (commands : Dict CommandConfig)
      (command : String) (args : List String) : Type 0 where
    pub config : CommandConfig
    pub listed : Found commands command config
    pub allowed : config.allowed ≡ true
    pub matched :
        (patterns : List lib.Regexp)
        → Found w.arg_patterns command patterns
        → All (Matches patterns) args

  with_patterns-fails :
      (w w' : FileWhitelistManager lib) (config : WhitelistConfig)
      (patterns : Result String (Dict (List lib.Regexp))) (e : String)
      → with_patterns lib w config patterns ≡ (err e, w')
      → w' ≡ w
  with_patterns-fails w w' config (err m) e h = sym (ap (λ p. p.1) h)
  with_patterns-fails w w' config (ok patterns) e h = absurd (cc)

  with_config-fails :
      (w w' : FileWhitelistManager lib) (config : Result String WhitelistConfig) (e : String)
      → with_config lib w config ≡ (err e, w')
      → w' ≡ w
  with_config-fails w w' (err m) e h = sym (ap (λ p. p.1) h)
  with_config-fails w w' (ok config) e h = with_patterns-fails w w' config _ e h

  -- A reload takes effect as a whole or not at all: if it fails, the manager is what it was.
  reload-fails :
      (file : Result String String) (w w' : FileWhitelistManager lib) (e : String)
      → reload lib file w ≡ (err e, w')
      → w' ≡ w
  unfolding reload
  reload-fails (err m) w w' e h = sym (ap (λ p. p.1) h)
  reload-fails (ok text) w w' e h = with_config-fails w w' (lib.unmarshal text) e h
