-- ===== src/Tests/Connections.antt =====
-- The detection of the protocol, and rounds of a worker.
use celeritas.Prelude.{◌≡◌, refl, true, false, none, some, [], length, arith, Bytes, ◌++◌}
use celeritas.Text.{codes, c_str, equal}
use celeritas.Types.{RequestCtx}
use celeritas.ConnIo.{written, ssl_written, conn_write}
use celeritas.Socket.{preface, peek_closed}
use celeritas.Validator.{validate_request, check_request, method_of, resp_set_status}
use celeritas.Worker.{Answers, clean_up, respond}
use celeritas.Worker.Refused.{BlockSent, error_page, respond-refused}
use celeritas.Response.{status_line}
use celeritas.Response.Build.{render}
use celeritas.Tests.{a_ctx, a_config, a_world}
use celeritas.Tests.Responses.{short_token}

preface-length : length preface ≡ 24
unfolding codes
preface-length = refl

abbrev answers : Answers
answers = record {
  memory = [];
  peek = peek_closed;
  init_finished = true;
  handshake = [];
  events = [];
  writes = record {
    headers = record { plain = written 100; tls = ssl_written 0 };
    body = record { plain = written 100; tls = ssl_written 0 };
  };
  world = a_world none;
  start_us = 0;
  end_time = 0;
  shutting_down = false;
}

-- A request without a method.
no_method : (validate_request a_ctx).status_code ≡ 400
unfolding validate_request check_request method_of equal codes c_str resp_set_status
no_method = refl

respond-refused_example :
    (out : RequestCtx) × (sent : Bytes) × (respond a_config answers a_ctx
      ≡ some (clean_up out sent))
    × (out.status_code ≡ (validate_request a_ctx).status_code)
    × BlockSent
        (conn_write (error_page a_config answers a_ctx).conn answers.writes.headers)
        (render (error_page a_config answers a_ctx))
        sent
    × ((tail : Bytes) × (render (error_page a_config answers a_ctx)
          ≡ status_line (validate_request a_ctx).status_code ++ tail))
respond-refused_example =
    respond-refused a_config answers a_ctx short_token refl refl (omega (arith, no_method))
