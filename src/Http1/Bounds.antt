-- ===== src/Http1/Bounds.antt =====
-- The arrays of `http1_req_t` under the writes of `parse_http1`, and the end of its loop.
use celeritas.Prelude.{
  ℕ, zero, suc, ◌≤◌, ◌<◌, ◌≡◌, refl, List, [], ◌∷◌, ◌++◌, some, Bytes, length, length-append, arith,
  Bool-cases, inl, inr,
}
use celeritas.Types.{
  ParseStep, p_state_method, p_state_uri, p_state_version, p_state_header_key, p_state_header_value,
  Kv, Http1Req, RequestCtx,
}
use celeritas.Http1.{Parser, skip_spaces, step, is_done, parse_loop, initial, finish, parse_http1}

-- Each stored key and value leaves room for its NUL.
abbrev pub AllFit : List Kv → Type 0
AllFit [] = Unit {0}
AllFit (h ∷ hs) = (length h.key ≤ 127) × (length h.value ≤ 4095) × AllFit hs

pub AllFit-concat :
    (hs : List Kv) (h : Kv)
    → AllFit hs
    → length h.key ≤ 127
    → length h.value ≤ 4095
    → AllFit (hs ++ h ∷ [])
AllFit-concat [] h a k v = (k, v, tt)
AllFit-concat (g ∷ hs) h a k v = (a.0, a.1, AllFit-concat hs h a.2 k v)

-- The bytes written to the array that `dest` points into.
abbrev pub dest_length : ParseStep → Parser → ℕ
dest_length p_state_method p = length p.method
dest_length p_state_uri p = length p.uri
dest_length p_state_version p = length p.version
dest_length p_state_header_key p = length p.key
dest_length p_state_header_value p = length p.value
dest_length _ p = p.count

-- What a state knows of the arrays that are not begun yet.
abbrev pub Unwritten : ParseStep → Parser → Type 0
Unwritten p_state_method p =
    (p.uri ≡ []) × (p.version ≡ []) × (p.key ≡ []) × (p.value ≡ []) × (p.headers ≡ [])
Unwritten p_state_uri p = (p.version ≡ []) × (p.key ≡ []) × (p.value ≡ []) × (p.headers ≡ [])
Unwritten p_state_version p = (p.key ≡ []) × (p.value ≡ []) × (p.headers ≡ [])
Unwritten p_state_header_key p = (p.header_idx < 128) × (p.value ≡ [])
Unwritten p_state_header_value p = p.header_idx < 128
Unwritten _ p = Unit {0}

-- The invariant of the loop: the contents of every array, with a NUL, stay inside it, `count` is the
-- offset of `dest`, and `header_idx` the number of the entries stored.
pub record InBounds (p : Parser) : Type 0 where
  pub method_fits : length p.method ≤ 15
  pub uri_fits : length p.uri ≤ 4095
  pub version_fits : length p.version ≤ 15
  pub key_fits : length p.key ≤ 127
  pub value_fits : length p.value ≤ 4095
  pub headers_fit : AllFit p.headers
  pub count_is : p.count ≡ dest_length p.state p
  pub idx_is : p.header_idx ≡ length p.headers
  pub idx_le : p.header_idx ≤ 128
  pub header_count_is : p.header_count ≡ length p.headers
  pub unwritten : Unwritten p.state p

step-InBounds-of :
    (s : ParseStep) (p : Parser) (c : ℕ) (cs : Bytes)
    → p.state ≡ s
    → InBounds p
    → InBounds (step s p c cs).0
unfolding step
step-InBounds-of p_state_method p c cs e v = ground (arith, length-append p.method (c ∷ []))
step-InBounds-of p_state_uri p c cs e v = ground (arith, length-append p.uri (c ∷ []))
step-InBounds-of p_state_version p c cs e v = ground (arith, length-append p.version (c ∷ []))
step-InBounds-of p_state_header_key p c cs e v = ground (arith, length-append p.key (c ∷ []))
step-InBounds-of p_state_header_value p c cs e v = ground (
  arith,
  length-append p.value (c ∷ []),
  AllFit-concat p.headers (record { key = p.key; value = p.value }),
  length-append p.headers (record { key = p.key; value = p.value } ∷ []),
)
step-InBounds-of _ p c cs e v = ground arith

-- One round keeps every array write in range.
pub step-InBounds :
    (p : Parser) (c : ℕ) (cs : Bytes) → InBounds p → InBounds (step p.state p c cs).0
step-InBounds p c cs v = step-InBounds-of p.state p c cs refl v

length-skip_spaces : (cs : Bytes) → length (skip_spaces cs) ≤ length cs
unfolding skip_spaces
length-skip_spaces [] = omega arith
length-skip_spaces (c ∷ cs) = ground (arith, length-skip_spaces cs)

-- A round consumes a byte or more.
pub length-step :
    (s : ParseStep) (p : Parser) (c : ℕ) (cs : Bytes) → length (step s p c cs).1 ≤ length cs
unfolding step
length-step p_state_header_key p c cs = ground (arith, length-skip_spaces cs)
length-step _ p c cs = omega arith

-- With more fuel than bytes the loop ends, in range.
pub parse_loop-InBounds :
    (fuel : ℕ) (p : Parser) (rest : Bytes)
    → length rest < fuel
    → InBounds p
    → (q : Parser) × (parse_loop fuel p rest ≡ some q) × InBounds q
unfolding parse_loop
parse_loop-InBounds zero p rest h v = absurd (omega arith)
parse_loop-InBounds (suc fuel) p [] h v = (p, refl, v)
parse_loop-InBounds (suc fuel) p (c ∷ cs) h v = elim (Bool-cases (is_done p.state)) [
  | inl done ↦ (p, ground arith, v)
  | inr more ↦
      let (q, e, w) =
        parse_loop-InBounds fuel (step p.state p c cs).0 (step p.state p c cs).1
          (omega (arith, length-step p.state p c cs)) (step-InBounds p c cs v) in
      (q, ground arith, w)
]

-- The arrays of a parsed request, each with room for its NUL.
pub record ReqInBounds (r : Http1Req) : Type 0 where
  pub method_fits : length r.method ≤ 15
  pub uri_fits : length r.uri ≤ 4095
  pub version_fits : length r.version ≤ 15
  pub headers_fit : AllFit r.headers
  pub header_count_is : r.header_count ≡ length r.headers
  pub header_count_le : r.header_count ≤ 128

finish-ReqInBounds : (ctx : RequestCtx) (p : Parser) → InBounds p → ReqInBounds (finish ctx p).1.h1
unfolding finish
finish-ReqInBounds ctx p v = ground arith

initial-InBounds : (ctx : RequestCtx) → ctx.h1.header_count ≡ 0 → InBounds (initial ctx)
initial-InBounds ctx h = ground arith

-- On a context whose header count is 0 `parse_http1` returns for every buffer content, with the
-- method, URI, version, keys and values in their arrays, each with room for its NUL, and with a
-- header count that is the number of the entries stored and at most 128.
pub parse_http1-ReqInBounds :
    (ctx : RequestCtx) (buf : Bytes)
    → ctx.h1.header_count ≡ 0
    → (r : ℕ × RequestCtx) × (parse_http1 ctx buf ≡ some r) × ReqInBounds r.1.h1
unfolding parse_http1
parse_http1-ReqInBounds ctx buf h =
    let (q, e, w) =
      parse_loop-InBounds (suc (length buf)) (initial ctx) buf (omega arith)
        (initial-InBounds ctx h) in
    (finish ctx q, ground arith, finish-ReqInBounds ctx q w)
