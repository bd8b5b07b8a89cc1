-- ===== src/ConnIo.antt =====
-- `conn_read` and `conn_write` of src/http_common.c: one interface to plain and TLS sockets. What
-- the kernel and OpenSSL answer to a call is a value.
use celeritas.Prelude.{ℕ, Bool, not, ◌||◌, if◌then◌else◌, Bytes}
use celeritas.Types.{Conn}

-- The values of `errno` that the callers tell apart.
pub data Errno : Type 0 where
  eintr eagain eio other_errno : Errno

-- What `read` and `conn_read` return: some bytes, 0, or -1 with `errno`.
pub data ReadResult : Type 0 where
  received : Bytes → ReadResult
  end_of_stream : ReadResult
  read_failed : Errno → ReadResult

-- What `write` and `conn_write` return: a count, or -1 with `errno`.
pub data WriteResult : Type 0 where
  written : ℕ → WriteResult
  write_failed : Errno → WriteResult

-- `SSL_get_error`, as far as it is told apart.
pub data SslError : Type 0 where
  zero_return want_read want_write syscall_error protocol_error : SslError

-- What `SSL_read` returns: some bytes, or no positive count, whether that is 0, the error that
-- `SSL_get_error` gives for it, and the `errno` left behind.
pub data SslRead : Type 0 where
  ssl_received : Bytes → SslRead
  ssl_read_failed : Bool → SslError → Errno → SslRead

-- What `SSL_write` returns.
pub data SslWrite : Type 0 where
  ssl_written : ℕ → SslWrite
  ssl_write_failed : SslError → Errno → SslWrite

-- The answer to a read on the socket, in both forms.
pub record ReadCall : Type 0 where
  pub plain : ReadResult
  pub tls : SslRead

-- The answer to a write on the socket, in both forms.
pub record WriteCall : Type 0 where
  pub plain : WriteResult
  pub tls : SslWrite

-- The switch over `SSL_get_error` in `conn_read`.
pub ssl_read_error : Bool → SslError → Errno → ReadResult
ssl_read_error is_zero zero_return e = end_of_stream
ssl_read_error is_zero want_read e = read_failed eagain
ssl_read_error is_zero want_write e = read_failed eagain
ssl_read_error is_zero syscall_error e = if is_zero then end_of_stream else read_failed e
ssl_read_error is_zero protocol_error e = read_failed eio

pub ssl_read_result : SslRead → ReadResult
unfolding ssl_read_error
ssl_read_result (ssl_received bs) = received bs
ssl_read_result (ssl_read_failed is_zero err e) = ssl_read_error is_zero err e

-- `conn_read`
unfoldable pub conn_read : Conn → ReadCall → ReadResult
unfolding ssl_read_result
conn_read conn call =
    if not conn.is_tls || not conn.ssl then call.plain else ssl_read_result call.tls

-- The switch over `SSL_get_error` in `conn_write`.
pub ssl_write_error : SslError → Errno → WriteResult
ssl_write_error want_read e = write_failed eagain
ssl_write_error want_write e = write_failed eagain
ssl_write_error syscall_error e = write_failed e
ssl_write_error _ e = write_failed eio

pub ssl_write_result : SslWrite → WriteResult
unfolding ssl_write_error
ssl_write_result (ssl_written n) = written n
ssl_write_result (ssl_write_failed err e) = ssl_write_error err e

-- `conn_write`
unfoldable pub conn_write : Conn → WriteCall → WriteResult
unfolding ssl_write_result
conn_write conn call =
    if not conn.is_tls || not conn.ssl then call.plain else ssl_write_result call.tls
