-- ===== src/HttpCommon/KeepAlive.antt =====
-- The keep-alive decision for error responses.
use celeritas.Prelude.{
  ℕ, ◌≡◌, refl, true, false, List, [], ◌∷◌, ◌++◌, Bool-cases, inl, inr, arith, take, ◌||◌, ◌==◌,
}
use celeritas.Config.{ConfigData}
use celeritas.HandlerStatic.{handle_error, attach_page, error_page}
use celeritas.HttpCommon.{server_closes, should_keep_alive}
use celeritas.Response.{World, resp_add_header, resp_add_common_headers}
use celeritas.Text.{codes, c_str, equal, equal_nocase, to_lower}
use celeritas.Types.{RequestCtx, Kv}

server_closes-append :
    (hs ks : List Kv) → server_closes (hs ++ ks) ≡ (server_closes hs || server_closes ks)
unfolding server_closes
server_closes-append [] ks = refl
server_closes-append (h ∷ hs) ks = ground (arith, server_closes-append hs ks)

-- A header that is added leaves the others.
server_closes-add :
    (name value : List ℕ) (ctx : RequestCtx)
    → server_closes ctx.response.headers ≡ true
    → server_closes (resp_add_header name value ctx).response.headers ≡ true
unfolding resp_add_header
server_closes-add name value ctx h = rw (server_closes-append ctx.response.headers, h) refl

close_entry :
    server_closes
      (record { key = take 128 (codes "Connection"); value = take 4096 (codes "close") } ∷ [])
    ≡ true
unfolding server_closes equal_nocase c_str codes to_lower equal
close_entry = refl

server_closes_here :
    (ctx : RequestCtx)
    → server_closes (resp_add_header (codes "Connection") (codes "close") ctx).response.headers
      ≡ true
unfolding resp_add_header
server_closes_here ctx = ground (
  arith,
  server_closes-append ctx.response.headers
      (record { key = take 128 (codes "Connection"); value = take 4096 (codes "close") } ∷ []),
  close_entry,
)

server_closes-attach_page :
    (page : List ℕ) (ctx : RequestCtx)
    → server_closes ctx.response.headers ≡ true
    → server_closes (attach_page page ctx).response.headers ≡ true
unfolding attach_page resp_add_header
server_closes-attach_page page ctx h = rw (server_closes-append ctx.response.headers, h) refl

server_closes-handle_error :
    (conf : ConfigData) (w : World) (ctx : RequestCtx)
    → server_closes (handle_error conf w ctx).response.headers ≡ true
unfolding handle_error
server_closes-handle_error conf w ctx =
    let common = resp_add_common_headers conf w ctx in
    let closing = resp_add_header (codes "Connection") (codes "close") common in
    let typed = resp_add_header (codes "Content-Type") (codes "text/html") closing in
    let page = error_page ctx.status_code in
    let t =
      server_closes-add (codes "Content-Type") (codes "text/html") closing
        (server_closes_here common) in
    let a = server_closes-add (codes "Allow") (codes "GET, HEAD, OPTIONS") typed t in
    elim (Bool-cases (ctx.status_code == 405)) [
      | inl is405 ↦ rw is405 (
          server_closes-attach_page page
            (resp_add_header (codes "Allow") (codes "GET, HEAD, OPTIONS") typed) a)
      | inr other ↦ rw other (server_closes-attach_page page typed t)
    ]

-- After `handle_error` a connection is not kept alive, whatever the request and its headers were.
pub should_keep_alive-handle_error :
    (conf : ConfigData) (w : World) (ctx : RequestCtx)
    → should_keep_alive (handle_error conf w ctx) ≡ false
unfolding should_keep_alive
should_keep_alive-handle_error conf w ctx = ground (arith, server_closes-handle_error conf w ctx)
