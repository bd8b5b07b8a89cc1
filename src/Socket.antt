-- ===== src/Socket.antt =====
-- src/socket.c: the detection of the protocol and the TLS handshake, over what the kernel and OpenSSL
-- answer in turn.
pub mod Accept
pub mod Listen
pub mod Demux
use celeritas.Prelude.{
  Bool, true, false, Option, none, some, List, [], ◌∷◌, ◌++◌, take, drop, length, Bytes,
  if◌then◌else◌,
}
use celeritas.Text.{codes, equal}
use celeritas.Types.{Conn, proto_unknown, proto_http11, proto_http2}

-- What `recv` with MSG_PEEK answers: some bytes, 24 at most, 0, or an error.
pub data Peek : Type 0 where
  peeked : Bytes → Peek
  peek_closed : Peek
  peek_failed : Peek

abbrev pub preface : Bytes
preface = codes "PRI * HTTP/2.0\r\n\r\nSM\r\n\r\n"

-- `demux_protocol`. `memory` is what the 24 bytes of `peek_buf` held before: `memcmp` compares all of
-- them, however few were received.
unfoldable pub demux_protocol : Bytes → Peek → Conn → Conn
demux_protocol memory (peeked bs) conn =
    if equal (take 24 (bs ++ drop (length bs) memory)) preface
    then record conn { protocol = proto_http2 }
    else record conn { protocol = proto_http11 }
demux_protocol memory peek_closed conn = record conn { protocol = proto_http11 }
demux_protocol memory peek_failed conn = record conn { protocol = proto_unknown }

-- What `SSL_accept` comes to: 1, one of the two errors that ask for a wait, or another error.
pub data SslAccept : Type 0 where
  ssl_accepted ssl_wants_read ssl_wants_write ssl_accept_failed : SslAccept

-- What the wait comes to; an interruption is -1 with EINTR.
pub data HandshakePoll : Type 0 where
  handshake_timeout handshake_interrupted handshake_poll_failed handshake_ready : HandshakePoll

pub record HandshakeStep : Type 0 where
  pub accept : SslAccept
  pub poll : HandshakePoll

-- Does the loop go on after the wait?
unfoldable pub tries_again : HandshakePoll → Bool
tries_again handshake_timeout = false
tries_again handshake_interrupted = true
tries_again handshake_poll_failed = false
tries_again handshake_ready = true

-- `perform_tls_handshake`: true is 0 and false -1; `none` means that it still waits when the answers
-- end.
unfoldable pub perform_tls_handshake : List HandshakeStep → Option Bool
perform_tls_handshake [] = none
perform_tls_handshake (s ∷ ss) =
    let again = perform_tls_handshake ss in
    let waited = if tries_again s.poll then again else some false in
    elim s.accept [
      | ssl_accepted ↦ some true
      | ssl_wants_read ↦ waited
      | ssl_wants_write ↦ waited
      | ssl_accept_failed ↦ some false
    ]
