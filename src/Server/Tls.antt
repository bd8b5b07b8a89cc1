-- ===== src/Server/Tls.antt =====
-- `init_ssl_context` of src/server.c, over the answers of OpenSSL.
use celeritas.Prelude.{ℕ, ◌≡◌, Bool, true, Option, none, some, Bytes, if◌then◌else◌, arith}

-- What `SSL_CTX_new`, the two functions that load a file, and the check of the key answer.
pub record TlsAnswers : Type 0 where
  pub created : Bool
  pub certificate_loaded : Bytes → Bool
  pub key_loaded : Bytes → Bool
  pub key_matches : Bytes → Bytes → Bool

-- What the functions set in the `SSL_CTX`.
pub record SslContext : Type 0 where
  pub min_proto_version : ℕ
  pub certificate : Option Bytes
  pub private_key : Option Bytes

-- `TLS1_2_VERSION`
abbrev pub tls1_2_version : ℕ
tls1_2_version = 771

-- `init_ssl_context`; `none` is the null pointer.
unfoldable pub init_ssl_context : TlsAnswers → Bytes → Bytes → Option SslContext
init_ssl_context openssl cert_path key_path =
    let ctx : SslContext = record {
      min_proto_version = tls1_2_version;
      certificate = some cert_path;
      private_key = some key_path;
    } in
    if openssl.created
    then (if openssl.certificate_loaded cert_path
        then (if openssl.key_loaded key_path
            then (if openssl.key_matches cert_path key_path then some ctx else none)
            else none)
        else none)
    else none

-- When there is a context, it refuses versions before TLS 1.2, and has the certificate and a private
-- key that belongs to it.
pub init_ssl_context_complete :
    (openssl : TlsAnswers) (cert_path key_path : Bytes) (ctx : SslContext)
    → init_ssl_context openssl cert_path key_path ≡ some ctx
    → (ctx.min_proto_version ≡ tls1_2_version)
      × (ctx.certificate ≡ some cert_path)
      × (ctx.private_key ≡ some key_path)
      × (openssl.key_matches cert_path key_path ≡ true)
unfolding init_ssl_context
init_ssl_context_complete openssl cert_path key_path ctx e = ground (arith, e)
