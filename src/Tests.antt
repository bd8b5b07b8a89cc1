-- ===== src/Tests.antt =====
-- Runs of the model at concrete inputs, which also show that the hypotheses of the theorems hold.
mod Requests
mod Responses
mod Queues
mod Configuration
mod Connections
mod Kernel
mod Watchers
mod Start
use celeritas.Prelude.{
  ℕ, Option, none, some, Bool, true, false, [], Bytes, if◌then◌else◌, ◌≡◌, ◌≢◌, ◌==◌, ==_refl, refl,
  arith,
}
use celeritas.Text.{codes}
use celeritas.Types.{Conn, proto_http11, RequestCtx, fresh_ctx}
use celeritas.Config.{ConfigData}
use celeritas.Response.{World, Stat}

abbrev pub a_conn : ℕ → ℕ → Conn
a_conn fd deadline = record {
  fd = fd;
  is_tls = false;
  remote_ip = [];
  remote_port = 0;
  ssl = false;
  protocol = proto_http11;
  keepalive_deadline = deadline;
}

abbrev pub a_ctx : RequestCtx
a_ctx = fresh_ctx (a_conn 5 0) 0

abbrev pub a_config : ConfigData
a_config = record {
  http_port = 80;
  https_port = 443;
  server_tok = codes "Celeritas";
  server_user = [];
  server_group = [];
  max_url_size = 2048;
  max_rx_header = 8192;
  max_tx_header = 8192;
  keepalive_timeout = 10;
  dir_listing = false;
  tls_cert_path = [];
  tls_key_path = [];
  log_queue_size = 4;
  conn_queue_size = 4;
  worker_threads = 2;
  access_log = [];
  event_log = [];
  doc_root = codes "/srv";
  lock_file_path = codes "/run/";
}

-- A world with one file of two bytes at every path, which maps or does not.
abbrev pub a_world : Option Bytes → World
a_world content = record {
  now = 0;
  http_date = λ t. [];
  stat = λ p. some (record { st_size = 2; st_mtime = 0 });
  can_open = λ p. true;
  map_file = λ p n. content;
}

module _ {A : Type 0} where
  abbrev pub put : (ℕ → A) → ℕ → A → ℕ → A
  put table fd a n = if n == fd then a else table n

  abbrev pub Put : (ℕ → A) → ℕ → A → (ℕ → A) → Type 0
  Put table fd a later = (later fd ≡ a) × ((other : ℕ) → other ≢ fd → later other ≡ table other)

  pub put-Put : (table : ℕ → A) (fd : ℕ) (a : A) → Put table fd a (put table fd a)
  put-Put table fd a =
      (rw (==_refl fd) refl, λ other ne. let t : other == fd ≡ false = ground arith in rw t refl)
