-- ===== src/Server/Path.antt =====
-- `resolve_config_path` of src/server.c, over the options that `getopt_long` finds.
pub mod Precedence
use celeritas.Prelude.{ℕ, ◌-◌, Option, none, some, List, [], ◌∷◌, take, Bytes}
use celeritas.Text.{codes, c_str}
use celeritas.Types.{path_max}

-- What `getopt_long` returns: an option, with its argument for `-c`, or anything else.
pub data Opt : Type 0 where
  opt_version opt_help opt_verbose opt_unknown : Opt
  opt_config_file : Bytes → Opt

pub data ExitStatus : Type 0 where
  exit_success exit_failure : ExitStatus

-- The process ends, or `active_config_path` is set.
pub data Resolved : Type 0 where
  exits : ExitStatus → Resolved
  active : Bytes → Resolved

-- `DEFAULT_CONFIG_PATH`
abbrev pub default_config_path : Bytes
default_config_path = codes "/etc/celeritas/celeritas.conf"

-- `strncpy` into `active_config_path`, and the closing 0: the string that is then in the array.
unfoldable pub copy_path : Bytes → Bytes
copy_path path = take (path_max - 1) (c_str path)

-- The hierarchy: the path of the command line, the environment's, and the fixed one.
unfoldable pub by_precedence : Option Bytes → Option Bytes → Bytes
by_precedence (some cli_path) env_path = copy_path cli_path
by_precedence none (some env_path) = copy_path env_path
by_precedence none none = copy_path default_config_path

-- The loop over the options, with the local `cli_path`, and what follows it.
unfoldable pub scan_options : List Opt → Option Bytes → Option Bytes → Resolved
scan_options [] cli_path env_path = active (by_precedence cli_path env_path)
scan_options (opt_version ∷ opts) cli_path env_path = exits exit_success
scan_options (opt_help ∷ opts) cli_path env_path = exits exit_success
scan_options (opt_config_file optarg ∷ opts) cli_path env_path =
    scan_options opts (some optarg) env_path
scan_options (opt_verbose ∷ opts) cli_path env_path = scan_options opts cli_path env_path
scan_options (opt_unknown ∷ opts) cli_path env_path = exits exit_failure

-- `resolve_config_path`. `env_path` is the value of CELERITAS_CONF.
unfoldable pub resolve_config_path : List Opt → Option Bytes → Resolved
resolve_config_path opts env_path = scan_options opts none env_path
