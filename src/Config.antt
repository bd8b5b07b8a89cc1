-- ===== src/Config.antt =====
-- src/config.h and src/config.c: the configuration, its defaults, its file and its reload.
pub mod Line
pub mod Load
pub mod Stored
pub mod Keys
pub mod Invariant
pub mod Loaded
use celeritas.Prelude.{ℕ, Bool, false, Bytes, ◌*◌, ◌%◌, ◌^◌, List, [], ◌∷◌}
use celeritas.Types.{path_max}
use celeritas.Text.{codes}

-- `config_data`; a character array is the string in it.
pub record ConfigData : Type 0 where
  pub http_port : ℕ
  pub https_port : ℕ
  pub server_tok : Bytes
  pub server_user : Bytes
  pub server_group : Bytes
  pub max_url_size : ℕ
  pub max_rx_header : ℕ
  pub max_tx_header : ℕ
  pub keepalive_timeout : ℕ
  pub dir_listing : Bool
  pub tls_cert_path : Bytes
  pub tls_key_path : Bytes
  pub log_queue_size : ℕ
  pub conn_queue_size : ℕ
  pub worker_threads : ℕ
  pub access_log : Bytes
  pub event_log : Bytes
  pub doc_root : Bytes
  pub lock_file_path : Bytes

-- MAX_NAME_LEN
abbrev pub max_name_len : ℕ
max_name_len = 256

-- A member of `config_data`, for its `offset`: `cfg_type_t` says which of the three a key has, and a
-- string comes with its `max_len`.
pub data Member : Type 0 where
  uint16 : (ℕ → ConfigData → ConfigData) → Member
  string : ℕ → (Bytes → ConfigData → ConfigData) → Member
  boolean : (Bool → ConfigData → ConfigData) → Member

-- `config_mapping_t`
pub record ConfigMapping : Type 0 where
  pub key : Bytes
  pub member : Member

-- `cfg_map`
unfoldable pub cfg_map : List ConfigMapping
cfg_map =
    let at : Bytes → Member → ConfigMapping = λ k m. record { key = k; member = m } in
    at (codes "http_port") (Member.uint16 (λ v c. record c { http_port = v }))
    ∷ at (codes "https_port") (Member.uint16 (λ v c. record c { https_port = v }))
    ∷ at (codes "worker_threads") (Member.uint16 (λ v c. record c { worker_threads = v }))
    ∷ at (codes "max_url_size") (Member.uint16 (λ v c. record c { max_url_size = v }))
    ∷ at (codes "max_rx_header_size") (Member.uint16 (λ v c. record c { max_rx_header = v }))
    ∷ at (codes "max_tx_header_size") (Member.uint16 (λ v c. record c { max_tx_header = v }))
    ∷ at (codes "dir_listing") (Member.boolean (λ v c. record c { dir_listing = v }))
    ∷ at (codes "access_log") (Member.string path_max (λ v c. record c { access_log = v }))
    ∷ at (codes "event_log") (Member.string path_max (λ v c. record c { event_log = v }))
    ∷ at (codes "doc_root") (Member.string path_max (λ v c. record c { doc_root = v }))
    ∷ at (codes "lock_file_path") (Member.string path_max (λ v c. record c { lock_file_path = v }))
    ∷ at (codes "tls_cert_path") (Member.string path_max (λ v c. record c { tls_cert_path = v }))
    ∷ at (codes "tls_key_path") (Member.string path_max (λ v c. record c { tls_key_path = v }))
    ∷ at (codes "log_queue_size") (Member.uint16 (λ v c. record c { log_queue_size = v }))
    ∷ at (codes "conn_queue_size") (Member.uint16 (λ v c. record c { conn_queue_size = v }))
    ∷ at (codes "server_user") (Member.string max_name_len (λ v c. record c { server_user = v }))
    ∷ at (codes "server_group") (Member.string max_name_len (λ v c. record c { server_group = v }))
    ∷ []
