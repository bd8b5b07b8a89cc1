-- ===== src/Config/Load.antt =====
-- The whole configuration file in src/config.c: `parse_and_validate_config_file`,
-- `load_config_defaults`, `init_config` and `reload_configuration`.
use celeritas.Prelude.{
  ℕ, zero, suc, ◌+◌, ◌-◌, ◌*◌, ◌%◌, ◌^◌, Bool, true, false, Option, none, some, List, [], ◌∷◌, ◌++◌,
  Bytes, ◌==◌, if◌then◌else◌, length, take, get_or,
}
use celeritas.Text.{codes}
use celeritas.Types.{path_max}
use celeritas.Util.{next_power_of_2}
use celeritas.Config.{ConfigData}
use celeritas.Config.Line.{CfgError, process_line}

-- `fgets` into room for `n` bytes: the line with its newline, and what is left of the file.
unfoldable pub fgets : ℕ → Bytes → Bytes × Bytes
fgets zero file = ([], file)
fgets (suc n) [] = ([], [])
fgets (suc n) (c ∷ file) =
    let (line, rest) = fgets n file in if c == 10 then (c ∷ [], file) else (c ∷ line, rest)

-- `loaded` is true, `failed` is false, and `exits` is the end of the process, in
-- `handle_cfg_error`. The list is the errors that were logged; the flag is whether the post-processing
-- has left the array of `lock_file_path`.
pub data Outcome : Type 0 where
  loaded : ConfigData → List CfgError → Bool → Outcome
  failed : CfgError → Outcome
  exits : CfgError → Outcome

-- The post-processing, and whether it has left the array of the path. The sizes are stored in 16 bits.
-- For an empty path the index is -1: the byte read, and set to NUL unless it is a slash, is the last of
-- the array of `doc_root`, which stands before it in the structure. It cuts a string only if that
-- fills its array without a NUL.
unfoldable pub post_process : ConfigData → ConfigData × Bool
post_process conf =
    let n = length conf.lock_file_path - 1 in
    let sized : ConfigData = record conf {
      log_queue_size = next_power_of_2 conf.log_queue_size % 2 ^ 16;
      conn_queue_size = next_power_of_2 conf.conn_queue_size % 2 ^ 16;
    } in
    if length conf.lock_file_path == 0
    then (
      record sized {
        doc_root =
            if get_or conf.doc_root (path_max - 1) 0 == b'/'
            then conf.doc_root
            else take (path_max - 1) conf.doc_root;
      },
      true,
    )
    else if get_or conf.lock_file_path n 0 == b'/'
    then (sized, false)
    else (record sized { lock_file_path = take n conf.lock_file_path }, false)

-- The `while` loop, on fuel; `none` means that the fuel ran out.
unfoldable pub parse_lines : ℕ → Bool → ℕ → Bytes → ConfigData → List CfgError → Option Outcome
parse_lines zero is_first_run line_num file conf errors = none
parse_lines (suc fuel) is_first_run line_num [] conf errors =
    let (later, stray) = post_process conf in some (Outcome.loaded later errors stray)
parse_lines (suc fuel) is_first_run line_num (c ∷ file) conf errors =
    let (line, rest) = fgets 1023 (c ∷ file) in
    let (later, error) = process_line (line_num + 1) line conf in
    let go_on = parse_lines fuel is_first_run (line_num + 1) rest later in
    elim error [
      | none ↦ go_on errors
      | some e ↦ if is_first_run then some (Outcome.exits e) else go_on (errors ++ e ∷ [])
    ]

-- `parse_and_validate_config_file` on the content of the file, which is `none` where it cannot be
-- opened. Every round of the loop takes a byte of the file at least.
unfoldable pub parse_and_validate_config_file : Bool → Option Bytes → ConfigData → Option Outcome
parse_and_validate_config_file is_first_run none conf = some (
    if is_first_run
    then Outcome.exits CfgError.cannot_open
    else Outcome.failed CfgError.cannot_open)
parse_and_validate_config_file is_first_run (some file) conf =
    parse_lines (length file + 1) is_first_run 0 file conf []

-- `load_config_defaults`, for `ncpu` processors. It leaves `dir_listing` alone.
unfoldable pub load_config_defaults : ℕ → ConfigData → ConfigData
load_config_defaults ncpu cd = record cd {
  http_port = 80;
  https_port = 443;
  worker_threads = ncpu * 2 % 2 ^ 16;
  conn_queue_size = 256;
  log_queue_size = 256;
  access_log = codes "/var/log/celeritas/access_log";
  event_log = codes "/var/log/celeritas/event_log";
  doc_root = codes "/var/www/html";
  lock_file_path = codes "/var/run/";
  server_tok = codes "Celeritas/0.10.2";
  tls_cert_path = codes "/etc/ssl/celeritas.crt";
  tls_key_path = codes "/etc/ssl/celeritas.key";
  server_user = codes "www";
  server_group = codes "www";
  max_rx_header = 8192;
  max_tx_header = 8192;
  max_url_size = 2048;
  keepalive_timeout = 10;
}

-- The memory that `calloc` gives.
abbrev pub zeroed : ConfigData
zeroed = record {
  http_port = 0;
  https_port = 0;
  server_tok = [];
  server_user = [];
  server_group = [];
  max_url_size = 0;
  max_rx_header = 0;
  max_tx_header = 0;
  keepalive_timeout = 0;
  dir_listing = false;
  tls_cert_path = [];
  tls_key_path = [];
  log_queue_size = 0;
  conn_queue_size = 0;
  worker_threads = 0;
  access_log = [];
  event_log = [];
  doc_root = [];
  lock_file_path = [];
}

-- `init_config`, where the lock and the memory are had.
unfoldable pub init_config : ℕ → Option Bytes → Option Outcome
init_config ncpu file = parse_and_validate_config_file true file (load_config_defaults ncpu zeroed)

-- The end of a reload, under the write lock: what is then in force.
unfoldable pub install : Option Outcome → ConfigData → Option ConfigData
install none conf_data = none
install (some (Outcome.loaded new_config errors stray)) conf_data = some new_config
install (some (Outcome.failed e)) conf_data = some conf_data
install (some (Outcome.exits e)) conf_data = some conf_data

-- What `reload_configuration` makes of `conf_data`. `memory` is what `malloc` gives, `none` for its
-- failure; its content is anything.
unfoldable pub reload_configuration :
    Option ConfigData → ℕ → Option Bytes → ConfigData → Option ConfigData
reload_configuration none ncpu file conf_data = some conf_data
reload_configuration (some memory) ncpu file conf_data =
    install (parse_and_validate_config_file false file (load_config_defaults ncpu memory)) conf_data
