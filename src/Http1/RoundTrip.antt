-- ===== src/Http1/RoundTrip.antt =====
-- What `parse_http1` makes of a printed request head.
use celeritas.Prelude.{
  ℕ, zero, suc, ◌+◌, ◌≡◌, ◌≢◌, refl, List, [], ◌∷◌, ◌++◌, some, Bytes, take, arith, ◌∙◌,
  append_assoc, append-nil,
}
use celeritas.Types.{
  p_state_uri, p_state_version, p_state_header_key, p_state_header_value, p_state_body, Kv,
  RequestCtx,
}
use celeritas.Http1.{Parser, skip_spaces, step, is_done, parse_loop, initial, finish, parse_http1}
use celeritas.Http1.Steps.{
  parse_all, fill, fill_nil, Avoids, AvoidsEol, run-method, run-uri, run-version, run-key,
  run-value, run-body, after_header,
}

-- The header lines and the empty line that a client sends.
abbrev pub header_lines : List Kv → Bytes
header_lines [] = b'\r' ∷ b'\n' ∷ []
header_lines (h ∷ hs) = h.key ++ b':' ∷ b' ' ∷ (h.value ++ b'\r' ∷ b'\n' ∷ header_lines hs)

-- A request head as RFC 9112 writes it.
abbrev pub request_head : Bytes → Bytes → Bytes → List Kv → Bytes
request_head m u v hs = m ++ b' ' ∷ (u ++ b' ' ∷ (v ++ b'\r' ∷ b'\n' ∷ header_lines hs))

-- The first byte, if there is one, is no space.
abbrev pub NoLeadingSpace : Bytes → Type 0
NoLeadingSpace [] = Unit {0}
NoLeadingSpace (c ∷ cs) = c ≢ b' '

-- Fields that can be written on their lines.
abbrev pub AreHeaders : List Kv → Type 0
AreHeaders [] = Unit {0}
AreHeaders (h ∷ hs) =
    Avoids b':' h.key × AvoidsEol h.key × AvoidsEol h.value × NoLeadingSpace h.value × AreHeaders hs

-- An entry, cut to its arrays.
abbrev pub cut : Kv → Kv
cut h = record { key = take 127 h.key; value = take 4095 h.value }

-- The entries that `n` free places hold.
abbrev pub store : ℕ → List Kv → List Kv
store zero hs = []
store (suc n) [] = []
store (suc n) (h ∷ hs) = cut h ∷ store n hs

skip_spaces_value :
    (v rest : Bytes)
    → NoLeadingSpace v
    → skip_spaces (b' ' ∷ (v ++ b'\r' ∷ rest)) ≡ v ++ b'\r' ∷ rest
unfolding skip_spaces
skip_spaces_value [] rest h = refl
skip_spaces_value (c ∷ v) rest h = ground arith

-- One header line.
run_header :
    (h : Kv) (rest : Bytes) (p : Parser)
    → p.state ≡ p_state_header_key
    → p.count ≡ 0
    → p.key ≡ []
    → p.value ≡ []
    → Avoids b':' h.key × AvoidsEol h.key × AvoidsEol h.value × NoLeadingSpace h.value
    → (n : ℕ) × (parse_all p (h.key ++ b':' ∷ b' ' ∷ (h.value ++ b'\r' ∷ b'\n' ∷ rest))
        ≡ parse_all
            (after_header (record p {
              state = p_state_header_value;
              count = n;
              key = take 127 h.key;
              value = take 4095 h.value;
            }))
            rest)
run_header h rest p s c k v (a, b, d, e) =
    let keyed = record p { state = p_state_header_value; count = 0; key = take 127 h.key } in
    let (n, eq) = run-value h.value rest keyed refl (ground arith) d in
    (
      n,
      run-key h.key (b' ' ∷ (h.value ++ b'\r' ∷ b'\n' ∷ rest)) p s (ground arith) a b
          ∙ ground (
            arith,
            skip_spaces_value h.value (b'\n' ∷ rest) e,
            fill_nil 127 h.key,
            fill_nil 4095 h.value,
          ),
    )

-- What the parser has in the end.
record Holds (q : Parser) (m u v : Bytes) (hs : List Kv) : Type 0 where
  method_is : q.method ≡ m
  uri_is : q.uri ≡ u
  version_is : q.version ≡ v
  headers_are : q.headers ≡ hs

run_no_headers :
    (p : Parser)
    → p.state ≡ p_state_header_key
    → (q : Parser) × (parse_all p (b'\r' ∷ b'\n' ∷ []) ≡ some q)
      × Holds q p.method p.uri p.version p.headers
unfolding step is_done parse_all parse_loop
run_no_headers p s = (record p { state = p_state_body }, ground arith, ground arith)

run_headers :
    (hs : List Kv) (n : ℕ) (p : Parser)
    → p.state ≡ p_state_header_key
    → p.count ≡ 0
    → p.key ≡ []
    → p.value ≡ []
    → p.header_idx + suc n ≡ 128
    → AreHeaders hs
    → (q : Parser) × (parse_all p (header_lines hs) ≡ some q)
      × Holds q p.method p.uri p.version (p.headers ++ store (suc n) hs)
unfolding after_header step
run_headers [] n p s c k v i a =
    let (q, e, h) = run_no_headers p s in (q, e, ground (arith, append-nil p.headers))
run_headers (h ∷ hs) zero p s c k v i (a, b, d, l, r) =
    let (m, e) = run_header h (header_lines hs) p s c k v (a, b, d, l) in
    let full = after_header (record p {
      state = p_state_header_value;
      count = m;
      key = take 127 h.key;
      value = take 4095 h.value;
    }) in
    let (t, f) = run-body (header_lines hs) full (ground arith) in
    (record full { state = t }, e ∙ f, ground arith)
run_headers (h ∷ hs) (suc n) p s c k v i (a, b, d, l, r) =
    let (m, e) = run_header h (header_lines hs) p s c k v (a, b, d, l) in
    let next = after_header (record p {
      state = p_state_header_value;
      count = m;
      key = take 127 h.key;
      value = take 4095 h.value;
    }) in
    let (q, f, g) =
      run_headers hs n next (ground arith) (ground arith) (ground arith) (ground arith)
        (ground arith) r in
    (q, e ∙ f, ground (arith, append_assoc p.headers (cut h ∷ []) (store (suc n) hs)))

-- The parts of a request head that can be written in their places.
pub record IsRequest (m u v : Bytes) (hs : List Kv) : Type 0 where
  pub method_ok : Avoids b' ' m
  pub uri_ok : Avoids b' ' u
  pub version_ok : AvoidsEol v
  pub headers_ok : AreHeaders hs

parse_all-request_head :
    (ctx : RequestCtx) (m u v : Bytes) (hs : List Kv)
    → IsRequest m u v hs
    → (q : Parser) × (parse_all (initial ctx) (request_head m u v hs) ≡ some q)
      × Holds q (take 15 m) (take 4095 u) (take 15 v) (store 128 hs)
parse_all-request_head ctx m u v hs r =
    let p1 = record (initial ctx) { state = p_state_uri; method = fill 15 [] m } in
    let p2 = record p1 { state = p_state_version; uri = fill 4095 [] u } in
    let p3 = record p2 { state = p_state_header_key; version = fill 15 [] v } in
    let (q, e, h) = run_headers hs 127 p3 refl refl refl refl refl r.headers_ok in
    (
      q,
      run-method m (u ++ b' ' ∷ (v ++ b'\r' ∷ b'\n' ∷ header_lines hs)) (initial ctx) refl refl
            r.method_ok
          ∙ run-uri u (v ++ b'\r' ∷ b'\n' ∷ header_lines hs) p1 refl refl r.uri_ok
          ∙ run-version v (header_lines hs) p2 refl refl r.version_ok
          ∙ e,
      ground (arith, fill_nil 15 m, fill_nil 4095 u, fill_nil 15 v),
    )

-- For a method and a URI without spaces, a version without line-end bytes, and headers whose keys
-- hold no colon or line-end byte and whose values hold no line-end byte and start with no space,
-- `parse_http1` on the request head written with them stores the first 15 bytes of the method, 4095
-- of the URI and 15 of the version, and the first 128 headers, each key cut to 127 bytes and each
-- value to 4095.
pub parse_http1-request_head :
    (ctx : RequestCtx) (m u v : Bytes) (hs : List Kv)
    → IsRequest m u v hs
    → (r : ℕ × RequestCtx) × (parse_http1 ctx (request_head m u v hs) ≡ some r)
      × (r.1.h1.method ≡ take 15 m)
      × (r.1.h1.uri ≡ take 4095 u)
      × (r.1.h1.version ≡ take 15 v)
      × (r.1.h1.headers ≡ store 128 hs)
unfolding parse_http1 parse_all
parse_http1-request_head ctx m u v hs r =
    let (q, e, h) = parse_all-request_head ctx m u v hs r in
    (
      finish ctx q,
      rw (e, parse_http1) refl,
      unfold finish in ground arith,
      ground arith,
      ground arith,
      ground arith,
    )
