-- ===== src/Socket/Accept.antt =====
-- `accept_connection` and `close_connection` of src/socket.c, over the answers of the kernel and of
-- OpenSSL.
use celeritas.Prelude.{
  ℕ, Bool, true, false, Option, none, some, List, [], ◌∷◌, Bytes, if◌then◌else◌,
}
use celeritas.Types.{Conn, proto_unknown}

-- The address of the peer, as the text that `inet_ntop` makes of it, and the port.
pub data Peer : Type 0 where
  af_inet : Bytes → ℕ → Peer
  af_inet6 : Bytes → ℕ → Peer
  other_family : Peer

-- The answers: what `accept` gives, whether the server was shutting down when it failed, whether
-- `SSL_new` gives an object, and whether `SSL_set_fd` returns 1.
pub record AcceptAnswers : Type 0 where
  pub accepted : Option (ℕ × Peer)
  pub stopping : Bool
  pub ssl_created : Bool
  pub fd_set : Bool

-- `conn_t conn = {0}`; PROTO_UNKNOWN is 0.
abbrev pub zero_conn : Conn
zero_conn = record {
  fd = 0;
  is_tls = false;
  remote_ip = [];
  remote_port = 0;
  ssl = false;
  protocol = proto_unknown;
  keepalive_deadline = 0;
}

-- The branches for the family of the address.
unfoldable pub fill_peer : Peer → Conn → Conn
fill_peer (af_inet ip port) conn = record conn { remote_ip = ip; remote_port = port }
fill_peer (af_inet6 ip port) conn = record conn { remote_ip = ip; remote_port = port }
fill_peer other_family conn = conn

-- From the test of `is_tls` on: the result, true for 0, and `*conn`.
unfoldable pub attach_tls : AcceptAnswers → Conn → Bool × Conn
attach_tls answers conn =
    let ready : Conn = record conn { protocol = proto_unknown } in
    if conn.is_tls
    then (if answers.ssl_created
        then (if answers.fd_set
            then (true, record ready { ssl = true })
            else (false, record conn { ssl = true }))
        else (false, record conn { ssl = false }))
    else (true, record ready { ssl = false })

-- `accept_connection`
unfoldable pub accept_connection : AcceptAnswers → Bool → Conn → Bool × Conn
accept_connection answers is_tls conn = elim answers.accepted [
  | none ↦ (answers.stopping, conn)
  | some a ↦ attach_tls answers (fill_peer a.1 (record conn { fd = a.0; is_tls = is_tls }))
]

-- What closing a connection does, in order.
pub data CloseStep : Type 0 where
  close_fd : ℕ → CloseStep
  ssl_shutdown ssl_free : CloseStep

-- `close_connection`
unfoldable pub close_connection : Conn → List CloseStep
close_connection conn = close_fd conn.fd ∷ (if conn.ssl then ssl_shutdown ∷ ssl_free ∷ [] else [])
