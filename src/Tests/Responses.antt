-- ===== src/Tests/Responses.antt =====
-- Responses: paths, files, the header block, keep-alive.
use celeritas.Prelude.{◌<◌, ◌≤◌, ◌≡◌, refl, false, none, some, [], ◌∷◌, ◌++◌, length, Bytes, arith}
use celeritas.Text.{codes, contains, starts_with}
use celeritas.Text.Decimal.{show_nat, show_digits}
use celeritas.Types.{
  RequestCtx, m_get, m_options, mapped, find_header, path_max, header_buffer_size, handle_static_fn,
}
use celeritas.Types.Status.{http_status_to_string}
use celeritas.Response.{
  Stat, resp_build_response, status_line, resp_add_header, resp_add_common_headers,
}
use celeritas.Response.Build.{
  render, header_block, resp_build_response-fits, resp_build_response-overflows,
}
use celeritas.Validator.{resp_set_status}
use celeritas.HandlerStatic.{
  resolve_path, serve_file, get_head_at, handle_get_head, handle_options, handle_error,
  handle_static, cleanup_request_resources, unmap,
}
use celeritas.HandlerStatic.Resolve.{NoDots, trim_end, resolve_path-NoDots}
use celeritas.HttpCommon.{run_handler, route_request, should_keep_alive}
use celeritas.HttpCommon.Respond.{run_handler-fits, handle_get_head_confined}
use celeritas.HttpCommon.KeepAlive.{should_keep_alive-handle_error}
use celeritas.HttpCommon.Announce.{serve_file-mapped, serve_file-unmapped}
use celeritas.Tests.{a_ctx, a_config, a_world}
use celeritas.Tests.Requests.{get_ctx, get_ctx-ok}

NoDots-srv : NoDots (codes "/srv")
unfolding codes contains starts_with
NoDots-srv = refl

handle_get_head_confined_example :
    (rest : Bytes) × (handle_get_head a_config (a_world none) get_ctx
      ≡ some (get_head_at a_config (a_world none) (trim_end (codes "/srv") ++ b'/' ∷ rest) get_ctx))
    × NoDots (trim_end (codes "/srv") ++ b'/' ∷ rest)
unfolding codes
handle_get_head_confined_example =
    handle_get_head_confined a_config (a_world none) get_ctx (λ e. ground arith) (omega arith)
      NoDots-srv get_ctx-ok

resolve_path-NoDots_example :
    (rest : Bytes) × (resolve_path (codes "/srv") (codes "/a") path_max
      ≡ some (trim_end (codes "/srv") ++ b'/' ∷ rest))
    × (length (trim_end (codes "/srv") ++ b'/' ∷ rest) < path_max)
    × NoDots (trim_end (codes "/srv") ++ b'/' ∷ rest)
unfolding codes contains starts_with
resolve_path-NoDots_example =
    resolve_path-NoDots (codes "/srv") (codes "/a") path_max (λ e. ground arith) (omega arith) refl
      refl

abbrev a_stat : Stat
a_stat = record { st_size = 2; st_mtime = 0 }

abbrev a_get : RequestCtx
a_get = record a_ctx { method = m_get; status_code = 200 }

serve_file-mapped_example :
    (find_header
        (serve_file a_config
          (a_world (some (1 ∷ 2 ∷ [])))
          (codes "/srv/a")
          a_stat
          a_get).response.headers
        (codes "Content-Length")
      ≡ some (show_nat 2))
    × ((serve_file a_config
          (a_world (some (1 ∷ 2 ∷ [])))
          (codes "/srv/a")
          a_stat
          a_get).response.body_data
        ≡ some (mapped (1 ∷ 2 ∷ [])))
    × ((serve_file a_config
          (a_world (some (1 ∷ 2 ∷ [])))
          (codes "/srv/a")
          a_stat
          a_get).response.body_len
        ≡ 2)
    × (cleanup_request_resources
          (serve_file a_config (a_world (some (1 ∷ 2 ∷ []))) (codes "/srv/a") a_stat a_get)
        ≡ unmap 2)
serve_file-mapped_example =
    serve_file-mapped a_config (a_world (some (1 ∷ 2 ∷ []))) (codes "/srv/a") a_stat a_get
      (1 ∷ 2 ∷ []) refl refl (omega arith) (omega arith) refl refl

serve_file-unmapped_example :
    (find_header
        (serve_file a_config (a_world none) (codes "/srv/a") a_stat a_get).response.headers
        (codes "Content-Length")
      ≡ some (show_nat 2))
    × ((serve_file a_config (a_world none) (codes "/srv/a") a_stat a_get).response.body_data ≡ none)
    × ((serve_file a_config (a_world none) (codes "/srv/a") a_stat a_get).response.body_len ≡ 0)
serve_file-unmapped_example =
    serve_file-unmapped a_config (a_world none) (codes "/srv/a") a_stat a_get refl refl
      (omega arith) (omega arith) refl refl

should_keep_alive-handle_error_example :
    should_keep_alive (handle_error a_config (a_world none) a_ctx) ≡ false
should_keep_alive-handle_error_example =
    should_keep_alive-handle_error a_config (a_world none) a_ctx

resp_build_response-fits_example :
    resp_build_response (record a_ctx { status_code = 200 }) 8192
    ≡ some (
      length (render (record a_ctx { status_code = 200 })),
      render (record a_ctx { status_code = 200 }),
    )
unfolding render header_block status_line codes show_nat show_digits http_status_to_string
resp_build_response-fits_example =
    resp_build_response-fits (record a_ctx { status_code = 200 }) 8192 (omega arith) (omega arith)

resp_build_response-overflows_example :
    resp_build_response (record a_ctx { status_code = 200 }) 8 ≡ none
unfolding render header_block status_line codes show_nat show_digits http_status_to_string
resp_build_response-overflows_example =
    resp_build_response-overflows (record a_ctx { status_code = 200 }) 8 (omega arith)

abbrev an_options : RequestCtx
an_options = record a_ctx { method = m_options; status_code = 200 }

abbrev answered : RequestCtx
answered =
    handle_options a_config (a_world none) (record an_options { handler = some handle_static_fn })

pub short_token : length a_config.server_tok ≤ 19
unfolding codes
short_token = omega arith

an_options-answered : run_handler a_config (a_world none) (route_request an_options) ≡ some answered
unfolding run_handler route_request handle_static
an_options-answered = refl

answered-status : answered.status_code < 1000
unfolding handle_options resp_add_header resp_add_common_headers resp_set_status
answered-status = omega arith

run_handler-fits_example :
    (answered.response.header_count ≤ 64)
    × (resp_build_response answered header_buffer_size
        ≡ some (length (render answered), render answered))
run_handler-fits_example =
    run_handler-fits a_config (a_world none) an_options answered short_token refl refl
      an_options-answered answered-status
