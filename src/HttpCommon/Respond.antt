-- ===== src/HttpCommon/Respond.antt =====
-- From a parsed request to the response: the block that is built, and the path that is opened.
use celeritas.Prelude.{
  ◌+◌, ◌≤◌, ◌<◌, ◌≡◌, ◌≢◌, refl, [], ◌∷◌, ◌++◌, length, Bytes, arith, take_all, Bool-cases, inl,
  inr, some, leb, OnSome, OnSome_elim,
}
use celeritas.Config.{ConfigData}
use celeritas.HandlerStatic.Resolve.{NoDots, resolve_path-NoDots, trim_end}
use celeritas.HandlerStatic.Small.{handle_error-IsSmall, handle_static-IsSmall}
use celeritas.HandlerStatic.{get_head_at, handle_get_head}
use celeritas.HttpCommon.{route_request, run_handler}
use celeritas.Response.Build.{render, resp_build_response-fits}
use celeritas.Response.Size.{IsSmall, length-render_le}
use celeritas.Response.{World, resp_build_response}
use celeritas.Text.{c_str}
use celeritas.Types.{path_max, RequestCtx, header_buffer_size, handle_error_fn, handle_static_fn}
use celeritas.Validator.{validate_request}
use celeritas.Validator.Verdict.{validate_request-ok_uri}

run_handler-IsSmall :
    (conf : ConfigData) (w : World) (ctx : RequestCtx)
    → length conf.server_tok ≤ 19
    → IsSmall 0 0 ctx
    → OnSome (IsSmall 8 400) (run_handler conf w (route_request ctx))
unfolding run_handler route_request
run_handler-IsSmall conf w ctx t s = elim (Bool-cases (leb 400 ctx.status_code)) [
  | inl e ↦ rw e (
      handle_error-IsSmall conf w t (record ctx { handler = some handle_error_fn })
        (record { counted = s.counted; count_le = s.count_le; size_le = s.size_le }))
  | inr e ↦ rw e (
      handle_static-IsSmall conf w t (record ctx { handler = some handle_static_fn })
        (record { counted = s.counted; count_le = s.count_le; size_le = s.size_le }))
]

no_headers-IsSmall :
    (ctx : RequestCtx) → ctx.response.headers ≡ [] → ctx.response.header_count ≡ 0 → IsSmall 0 0 ctx
no_headers-IsSmall ctx h c = ground arith

-- With a server token of at most 19 bytes, a handler that `route_request` chooses for a context
-- without response headers leaves at most 64 of them, and `resp_build_response` writes its whole
-- header block, status line included, inside the buffer of 8192 bytes, if the status has at most
-- three digits.
pub run_handler-fits :
    (conf : ConfigData) (w : World) (ctx out : RequestCtx)
    → length conf.server_tok ≤ 19
    → ctx.response.headers ≡ []
    → ctx.response.header_count ≡ 0
    → run_handler conf w (route_request ctx) ≡ some out
    → out.status_code < 1000
    → (out.response.header_count ≤ 64)
      × (resp_build_response out header_buffer_size ≡ some (length (render out), render out))
run_handler-fits conf w ctx out t h c e k =
    let s =
      OnSome_elim (IsSmall 8 400) (run_handler conf w (route_request ctx)) out
        (run_handler-IsSmall conf w ctx t (no_headers-IsSmall ctx h c)) e in
    (
      omega (arith, s.count_le),
      resp_build_response-fits out header_buffer_size (omega arith)
          (omega (arith, length-render_le out 8 400 k s)),
    )

-- For a request that `validate_request` gives 200 and a document root that is not empty, leaves room
-- for a slash and a NUL and has no two dots in a row, the path that `handle_get_head` looks up and
-- opens is the root without its trailing slash, a slash and more bytes, with no two dots in a row.
pub handle_get_head_confined :
    (conf : ConfigData) (w : World) (ctx : RequestCtx)
    → conf.doc_root ≢ []
    → length conf.doc_root + 1 < path_max
    → NoDots conf.doc_root
    → (validate_request ctx).status_code ≡ 200
    → (rest : Bytes) × (handle_get_head conf w ctx
        ≡ some (get_head_at conf w (trim_end conf.doc_root ++ b'/' ∷ rest) ctx))
      × NoDots (trim_end conf.doc_root ++ b'/' ∷ rest)
unfolding handle_get_head
handle_get_head_confined conf w ctx ne h d ok =
    let (rest, e, fits, clean) =
      resolve_path-NoDots conf.doc_root (c_str ctx.h1.uri) path_max ne h d
        (validate_request-ok_uri ctx ok) in
    (rest, rw (take_all path_max conf.doc_root (omega arith), e, handle_get_head) refl, clean)
