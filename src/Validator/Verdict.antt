-- ===== src/Validator/Verdict.antt =====
-- Which requests `validate_request` passes, and what the others get.
use celeritas.Prelude.{
  ℕ, Bool, true, false, not, ◌&&◌, bit_and, ◌==◌, Bytes, ◌≡◌, ◌⊎◌, inl, inr, arith, sym, Bool-cases,
}
use celeritas.Text.{codes, c_str, equal, contains, equal_iff}
use celeritas.Types.{RequestCtx, HttpMethod, m_invalid, proto_http10, confirm_header_exists}
use celeritas.Validator.{method_of, is_not_http10, method_mask, check_request, validate_request}

-- The methods of the whitelist.
abbrev pub IsServed : Bytes → Type 0
IsServed m = (m ≡ codes "GET") ⊎ (m ≡ codes "HEAD") ⊎ (m ≡ codes "OPTIONS") ⊎ (m ≡ codes "PUT")

-- The methods that are known and not served.
abbrev pub IsUnserved : Bytes → Type 0
IsUnserved m = (m ≡ codes "DELETE") ⊎ (m ≡ codes "TRACE") ⊎ (m ≡ codes "POST")

-- A version other than 1.0 needs a Host header.
abbrev pub HostOk : RequestCtx → Type 0
HostOk ctx = (ctx.conn.protocol ≡ proto_http10) ⊎ (confirm_header_exists ctx (codes "Host") ≡ true)

abbrev pub HasDots : RequestCtx → Type 0
HasDots ctx = contains (codes "..") (c_str ctx.h1.uri) ≡ true

-- The status that a request deserves, with the reason.
pub data Verdict (ctx : RequestCtx) (status : ℕ) : Type 0 where
  unknown_method :
      ¬ IsServed (c_str ctx.h1.method)
      → ¬ IsUnserved (c_str ctx.h1.method)
      → status ≡ 400
      → Verdict ctx status
  no_host :
      IsServed (c_str ctx.h1.method) ⊎ IsUnserved (c_str ctx.h1.method)
      → ¬ HostOk ctx
      → status ≡ 400
      → Verdict ctx status
  traversal :
      IsServed (c_str ctx.h1.method) ⊎ IsUnserved (c_str ctx.h1.method)
      → HostOk ctx
      → HasDots ctx
      → status ≡ 403
      → Verdict ctx status
  unserved :
      IsUnserved (c_str ctx.h1.method)
      → HostOk ctx
      → ¬ HasDots ctx
      → status ≡ 405
      → Verdict ctx status
  passes :
      IsServed (c_str ctx.h1.method)
      → HostOk ctx
      → ¬ HasDots ctx
      → status ≡ 200
      → Verdict ctx status

data MethodCase (m : Bytes) (x : HttpMethod) : Type 0 where
  served :
      IsServed m → (x == m_invalid) ≡ false → (bit_and x method_mask == 0) ≡ false → MethodCase m x
  unserved :
      IsUnserved m → (x == m_invalid) ≡ false → (bit_and x method_mask == 0) ≡ true → MethodCase m x
  unknown : ¬ IsServed m → ¬ IsUnserved m → (x == m_invalid) ≡ true → MethodCase m x

method_of_case : (m : Bytes) → MethodCase m (method_of m)
unfolding method_of
method_of_case m = elim (Bool-cases (equal (codes "GET") m)) [
  | inl t0 ↦ served (inl (sym ((equal_iff (codes "GET") m).0 t0))) (ground arith) (ground arith)
  | inr f0 ↦ elim (Bool-cases (equal (codes "HEAD") m)) [
    | inl t1 ↦
        served (inr (inl (sym ((equal_iff (codes "HEAD") m).0 t1)))) (ground arith) (ground arith)
    | inr f1 ↦ elim (Bool-cases (equal (codes "PUT") m)) [
      | inl t2 ↦
          served (inr (inr (inr (sym ((equal_iff (codes "PUT") m).0 t2))))) (ground arith)
            (ground arith)
      | inr f2 ↦ elim (Bool-cases (equal (codes "DELETE") m)) [
        | inl t3 ↦
            unserved (inl (sym ((equal_iff (codes "DELETE") m).0 t3))) (ground arith) (ground arith)
        | inr f3 ↦ elim (Bool-cases (equal (codes "TRACE") m)) [
          | inl t4 ↦
              unserved (inr (inl (sym ((equal_iff (codes "TRACE") m).0 t4)))) (ground arith)
                (ground arith)
          | inr f4 ↦ elim (Bool-cases (equal (codes "POST") m)) [
            | inl t5 ↦
                unserved (inr (inr (sym ((equal_iff (codes "POST") m).0 t5)))) (ground arith)
                  (ground arith)
            | inr f5 ↦ elim (Bool-cases (equal (codes "OPTIONS") m)) [
              | inl t6 ↦
                  served (inr (inr (inl (sym ((equal_iff (codes "OPTIONS") m).0 t6)))))
                    (ground arith) (ground arith)
              | inr f6 ↦
                  unknown
                    (λ h. ground (
                      arith,
                      equal_iff (codes "GET") m,
                      equal_iff (codes "HEAD") m,
                      equal_iff (codes "PUT") m,
                      equal_iff (codes "DELETE") m,
                      equal_iff (codes "TRACE") m,
                      equal_iff (codes "POST") m,
                      equal_iff (codes "OPTIONS") m,
                    ))
                    (λ h. ground (
                      arith,
                      equal_iff (codes "GET") m,
                      equal_iff (codes "HEAD") m,
                      equal_iff (codes "PUT") m,
                      equal_iff (codes "DELETE") m,
                      equal_iff (codes "TRACE") m,
                      equal_iff (codes "POST") m,
                      equal_iff (codes "OPTIONS") m,
                    ))
                    (ground arith)
            ]
          ]
        ]
      ]
    ]
  ]
]

-- The test for a missing Host header.
abbrev lacks_host : RequestCtx → Bool
lacks_host ctx = is_not_http10 ctx.conn.protocol && not (confirm_header_exists ctx (codes "Host"))

not-HostOk : (ctx : RequestCtx) → lacks_host ctx ≡ true → ¬ HostOk ctx
not-HostOk ctx t h = ground arith

HostOk-of : (ctx : RequestCtx) → lacks_host ctx ≡ false → HostOk ctx
HostOk-of ctx t = elim (Bool-cases (confirm_header_exists ctx (codes "Host"))) [
  | inl present ↦ inr present
  | inr absent ↦ inl (ground arith)
]

-- The status that `validate_request` sets is 400 for an unknown method; else 400 for a request of
-- another version than 1.0 without a Host header; else 403 for a URI that holds two dots in a row;
-- else 405 for DELETE, TRACE and POST; and 200 for GET, HEAD, OPTIONS and PUT.
pub validate_request-Verdict : (ctx : RequestCtx) → Verdict ctx (validate_request ctx).status_code
unfolding validate_request check_request confirm_header_exists
validate_request-Verdict ctx = elim (method_of_case (c_str ctx.h1.method)) [
  | unknown a b e ↦ unknown_method a b (ground arith)
  | served s e f ↦ elim (Bool-cases (lacks_host ctx)) [
    | inl t ↦ no_host (inl s) (not-HostOk ctx t) (ground arith)
    | inr u ↦ elim (Bool-cases (contains (codes "..") (c_str ctx.h1.uri))) [
      | inl d ↦ traversal (inl s) (HostOk-of ctx u) d (ground arith)
      | inr d ↦ passes s (HostOk-of ctx u) (λ h. ground arith) (ground arith)
    ]
  ]
  | MethodCase.unserved s e f ↦ elim (Bool-cases (lacks_host ctx)) [
    | inl t ↦ no_host (inr s) (not-HostOk ctx t) (ground arith)
    | inr u ↦ elim (Bool-cases (contains (codes "..") (c_str ctx.h1.uri))) [
      | inl d ↦ traversal (inr s) (HostOk-of ctx u) d (ground arith)
      | inr d ↦ Verdict.unserved s (HostOk-of ctx u) (λ h. ground arith) (ground arith)
    ]
  ]
]

-- A request that `validate_request` gives status 200 has no two dots in a row in its URI.
pub validate_request-ok_uri :
    (ctx : RequestCtx)
    → (validate_request ctx).status_code ≡ 200
    → contains (codes "..") (c_str ctx.h1.uri) ≡ false
validate_request-ok_uri ctx e = elim (validate_request-Verdict ctx) [
  | passes s h d k ↦ elim (Bool-cases (contains (codes "..") (c_str ctx.h1.uri))) [
    | inl t ↦ absurd (d t)
    | inr f ↦ f
  ]
  | unknown_method a b k ↦ absurd (omega arith)
  | no_host a b k ↦ absurd (omega arith)
  | traversal a b d k ↦ absurd (omega arith)
  | Verdict.unserved a b d k ↦ absurd (omega arith)
]
