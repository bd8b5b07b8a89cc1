-- ===== src/Tests/Requests.antt =====
-- Requests: parsing, reading, validation.
use celeritas.Prelude.{ℕ, ◌≡◌, ◌==◌, refl, false, some, [], ◌∷◌, take, arith}
use celeritas.Text.{codes, c_str, contains, starts_with, equal, equal_nocase, find, to_lower}
use celeritas.Types.{Kv, RequestCtx, confirm_header_exists, has_header}
use celeritas.Types.Status.{HttpStatusCode, sc_404_not_found, status_value}
use celeritas.ConnIo.{received, ssl_received, conn_read}
use celeritas.Http1.{parse_http1}
use celeritas.Http1.Bounds.{ReqInBounds, parse_http1-ReqInBounds}
use celeritas.Http1.RoundTrip.{request_head, store, parse_http1-request_head}
use celeritas.Http1.Read.{
  SocketEvent, poll_ready, header_complete, read_http_headers, read_round, take_bytes,
  max_header_size,
}
use celeritas.Http1.Read.Complete.{Returned, read_http_headers-Returned}
use celeritas.Validator.{
  validate_request, check_request, resp_set_status, method_of, method_mask, is_not_http10,
}
use celeritas.Validator.Verdict.{Verdict, validate_request-Verdict}
use celeritas.Tests.{a_ctx}

parse_http1-ReqInBounds_example :
    (r : ℕ × RequestCtx) × (parse_http1 a_ctx (codes "GET / HTTP/1.1\r\n\r\n") ≡ some r)
    × ReqInBounds r.1.h1
parse_http1-ReqInBounds_example =
    parse_http1-ReqInBounds a_ctx (codes "GET / HTTP/1.1\r\n\r\n") refl

abbrev host : Kv
host = record { key = b'H' ∷ []; value = b'x' ∷ [] }

parse_http1-request_head_example :
    (r : ℕ × RequestCtx) × (parse_http1 a_ctx
        (request_head (b'G' ∷ []) (b'/' ∷ []) (b'1' ∷ []) (host ∷ []))
      ≡ some r)
    × (r.1.h1.method ≡ take 15 (b'G' ∷ []))
    × (r.1.h1.uri ≡ take 4095 (b'/' ∷ []))
    × (r.1.h1.version ≡ take 15 (b'1' ∷ []))
    × (r.1.h1.headers ≡ store 128 (host ∷ []))
parse_http1-request_head_example =
    parse_http1-request_head a_ctx (b'G' ∷ []) (b'/' ∷ []) (b'1' ∷ []) (host ∷ []) (record {
      method_ok = ground arith;
      uri_ok = ground arith;
      version_ok = ground arith;
      headers_ok = ground arith;
    })

abbrev an_event : SocketEvent
an_event = record {
  call = record { plain = received (codes "GET / HTTP/1.1\r\n\r\nbody"); tls = ssl_received [] };
  poll = poll_ready;
}

abbrev read_ctx : RequestCtx
read_ctx = record a_ctx {
  header_buffer = codes "GET / HTTP/1.1\r\n\r\nbody";
  header_bytes_read = 18;
  body_overshoot_bytes = 4;
  body_overshoot_start = some 18;
}

read_http_headers-Returned_example : Returned a_ctx (an_event ∷ []) header_complete read_ctx
unfolding read_http_headers read_round take_bytes conn_read c_str codes find starts_with
    max_header_size
read_http_headers-Returned_example =
    read_http_headers-Returned (an_event ∷ []) a_ctx header_complete read_ctx
      (record { counted = refl; room = omega arith }) refl

abbrev pub get_ctx : RequestCtx
get_ctx = record a_ctx {
  h1 = record {
    method = codes "GET";
    uri = codes "/a";
    version = codes "HTTP/1.1";
    headers = record { key = codes "Host"; value = codes "h" } ∷ [];
    header_count = 1;
  };
}

validate_request-Verdict_example : Verdict get_ctx (validate_request get_ctx).status_code
validate_request-Verdict_example = validate_request-Verdict get_ctx

pub get_ctx-ok : (validate_request get_ctx).status_code ≡ 200
unfolding validate_request check_request method_of is_not_http10 method_mask equal codes contains
    starts_with c_str confirm_header_exists has_header equal_nocase to_lower resp_set_status
get_ctx-ok = refl

unused_code : (c : HttpStatusCode) → (status_value c == 299) ≡ false
unfolding status_value
unused_code sc_404_not_found = refl
unused_code _ = refl
