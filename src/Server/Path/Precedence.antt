-- ===== src/Server/Path/Precedence.antt =====
-- Which configuration file is used.
use celeritas.Prelude.{
  ◌-◌, ◌≡◌, ◌≤◌, ◌∙◌, ap, refl, Option, none, some, List, [], ◌∷◌, length, length-take, arith,
  Bytes,
}
use celeritas.Text.{c_str}
use celeritas.Types.{path_max}
use celeritas.Server.Path.{
  Opt, opt_version, opt_help, opt_verbose, opt_unknown, opt_config_file, ExitStatus, exit_success,
  exit_failure, Resolved, exits, active, default_config_path, copy_path, by_precedence,
  scan_options, resolve_config_path,
}

-- The status of the first option that ends the process.
abbrev pub first_exit : List Opt → Option ExitStatus
first_exit [] = none
first_exit (opt_version ∷ opts) = some exit_success
first_exit (opt_help ∷ opts) = some exit_success
first_exit (opt_config_file optarg ∷ opts) = first_exit opts
first_exit (opt_verbose ∷ opts) = first_exit opts
first_exit (opt_unknown ∷ opts) = some exit_failure

-- The argument of the last `-c`.
abbrev pub last_config : List Opt → Option Bytes
last_config [] = none
last_config (opt_config_file optarg ∷ opts) = elim (last_config opts) [
  | none ↦ some optarg
  | some later ↦ some later
]
last_config (opt_version ∷ opts) = last_config opts
last_config (opt_help ∷ opts) = last_config opts
last_config (opt_verbose ∷ opts) = last_config opts
last_config (opt_unknown ∷ opts) = last_config opts

abbrev pub or_else : Option Bytes → Option Bytes → Option Bytes
or_else none o = o
or_else (some x) o = some x

-- What the options and the environment come to.
abbrev pub expected : Option ExitStatus → Option Bytes → Option Bytes → Resolved
expected (some status) cli_path env_path = exits status
expected none cli_path env_path = active (by_precedence cli_path env_path)

or_else-last :
    (o c : Option Bytes) (x : Bytes)
    → or_else o (some x) ≡ or_else (elim o [ none ↦ some x | some later ↦ some later ]) c
or_else-last none c x = refl
or_else-last (some y) c x = refl

or_else-none : (o : Option Bytes) → or_else o none ≡ o
or_else-none none = refl
or_else-none (some x) = refl

scan_options-expected :
    (opts : List Opt) (cli_path env_path : Option Bytes)
    → scan_options opts cli_path env_path
      ≡ expected (first_exit opts) (or_else (last_config opts) cli_path) env_path
unfolding scan_options
scan_options-expected [] cli_path env_path = refl
scan_options-expected (opt_version ∷ opts) cli_path env_path = refl
scan_options-expected (opt_help ∷ opts) cli_path env_path = refl
scan_options-expected (opt_unknown ∷ opts) cli_path env_path = refl
scan_options-expected (opt_verbose ∷ opts) cli_path env_path =
    scan_options-expected opts cli_path env_path
scan_options-expected (opt_config_file optarg ∷ opts) cli_path env_path =
    scan_options-expected opts (some optarg) env_path
    ∙ ap (λ c. expected (first_exit opts) c env_path)
        (or_else-last (last_config opts) cli_path optarg)

by_precedence-fits :
    (cli_path env_path : Option Bytes) → length (by_precedence cli_path env_path) ≤ 4095
unfolding by_precedence copy_path
by_precedence-fits (some p) e = let l = length-take 4095 (c_str p) in ground (arith, l)
by_precedence-fits none (some p) = let l = length-take 4095 (c_str p) in ground (arith, l)
by_precedence-fits none none =
    let l = length-take 4095 (c_str default_config_path) in ground (arith, l)

-- When an option asks for the version or for help, or is unknown, the first such option ends the
-- process, with failure for an unknown one. Otherwise the argument of the last `-c` is used, without
-- one the value of CELERITAS_CONF, and without that the fixed path; the path used is cut so that it
-- fits its array with its closing 0.
pub resolve_config_path-expected :
    (opts : List Opt) (env_path : Option Bytes)
    → (resolve_config_path opts env_path ≡ expected (first_exit opts) (last_config opts) env_path)
      × (length (by_precedence (last_config opts) env_path) ≤ path_max - 1)
unfolding resolve_config_path
resolve_config_path-expected opts env_path = (
  scan_options-expected opts none env_path
      ∙ ap (λ c. expected (first_exit opts) c env_path) (or_else-none (last_config opts)),
  by_precedence-fits (last_config opts) env_path,
)
