-- ===== src/Http1/Steps.antt =====
-- The loop of `parse_http1` with no fuel in sight, and what it does on each part of a request.
use celeritas.Prelude.{
  ℕ, zero, suc, ◌+◌, ◌-◌, ◌<◌, ◌≡◌, ◌≢◌, refl, false, [], ◌∷◌, ◌++◌, Option, some, Bytes, length,
  length-append, take, arith, Bool-cases, ◌∙◌, ap, inl, inr, ltb, if◌then◌else◌, append_assoc,
  append-nil, ltb→lt,
}
use celeritas.Types.{
  ParseStep, p_state_method, p_state_uri, p_state_version, p_state_header_key, p_state_header_value,
  p_state_body, p_state_done,
}
use celeritas.Http1.{Parser, skip_spaces, step, is_done, parse_loop}
use celeritas.Http1.Bounds.{length-step}

-- The loop with fuel that suffices.
unfoldable pub parse_all : Parser → Bytes → Option Parser
parse_all p rest = parse_loop (suc (length rest)) p rest

parse_loop_fuel :
    (f g : ℕ) (p : Parser) (rest : Bytes)
    → length rest < f
    → length rest < g
    → parse_loop f p rest ≡ parse_loop g p rest
unfolding parse_loop
parse_loop_fuel zero g p rest hf hg = absurd (omega arith)
parse_loop_fuel (suc f) zero p rest hf hg = absurd (omega arith)
parse_loop_fuel (suc f) (suc g) p [] hf hg = refl
parse_loop_fuel (suc f) (suc g) p (c ∷ cs) hf hg =
    let less = length-step p.state p c cs in
    ap (λ r. if is_done p.state then some p else r)
      (parse_loop_fuel f g (step p.state p c cs).0 (step p.state p c cs).1 (omega arith)
        (omega arith))

-- One round.
pub parse_all-step :
    (p : Parser) (c : ℕ) (cs : Bytes)
    → is_done p.state ≡ false
    → parse_all p (c ∷ cs) ≡ parse_all (step p.state p c cs).0 (step p.state p c cs).1
unfolding parse_all parse_loop
parse_all-step p c cs h = rw h (
    parse_loop_fuel (suc (length cs)) (suc (length (step p.state p c cs).1)) (step p.state p c cs).0
      (step p.state p c cs).1 (omega (arith, length-step p.state p c cs)) (omega arith))

-- The content of an array with room for `cap` bytes and a NUL, after a piece is written to it.
unfoldable pub fill : ℕ → Bytes → Bytes → Bytes
fill cap w [] = w
fill cap w (c ∷ cs) = fill cap (if ltb (length w) cap then w ++ c ∷ [] else w) cs

take-nil : (n : ℕ) → take {A = ℕ} n [] ≡ []
take-nil zero = refl
take-nil (suc n) = refl

take-cons : (n c : ℕ) (cs : Bytes) → n ≢ 0 → take n (c ∷ cs) ≡ c ∷ take (n - 1) cs
take-cons zero c cs h = absurd (h refl)
take-cons (suc n) c cs h = ap (λ k. c ∷ take k cs) (omega arith)

fill-take : (cap : ℕ) (w m : Bytes) → fill cap w m ≡ w ++ take (cap - length w) m
unfolding fill
fill-take cap w [] = rw (take-nil, append-nil)
fill-take cap w (c ∷ cs) = elim (Bool-cases (ltb (length w) cap)) [
  | inl t ↦
      let lt = ltb→lt (length w) cap t in
      ground (
        arith,
        fill-take cap (w ++ c ∷ []) cs,
        length-append w (c ∷ []),
        take-cons (cap - length w) c cs,
        append_assoc w (c ∷ []) (take (cap - length w - 1) cs),
      )
  | inr f ↦ ground (arith, fill-take cap w cs)
]

-- A piece that starts an array is cut at its capacity.
pub fill_nil : (cap : ℕ) (m : Bytes) → fill cap [] m ≡ take cap m
fill_nil cap m = fill-take cap [] m ∙ ap (λ k. take k m) (omega arith)

-- No byte of the list is `b`.
abbrev pub Avoids : ℕ → Bytes → Type 0
Avoids b [] = Unit {0}
Avoids b (c ∷ cs) = (c ≢ b) × Avoids b cs

pub run-method :
    (m rest : Bytes) (p : Parser)
    → p.state ≡ p_state_method
    → p.count ≡ length p.method
    → Avoids b' ' m
    → parse_all p (m ++ b' ' ∷ rest)
      ≡ parse_all (record p { state = p_state_uri; count = 0; method = fill 15 p.method m }) rest
unfolding fill step is_done
run-method [] rest p s k a = parse_all-step p b' ' rest (ground arith) ∙ ground arith
run-method (c ∷ m) rest p s k a = elim (Bool-cases (ltb p.count 15)) [
  | inl t ↦ ground (
    arith,
    parse_all-step p c (m ++ b' ' ∷ rest),
    length-append p.method (c ∷ []),
    run-method m rest (record p { method = p.method ++ c ∷ []; count = p.count + 1 }),
  )
  | inr f ↦ ground (arith, parse_all-step p c (m ++ b' ' ∷ rest), run-method m rest p)
]

pub run-uri :
    (u rest : Bytes) (p : Parser)
    → p.state ≡ p_state_uri
    → p.count ≡ length p.uri
    → Avoids b' ' u
    → parse_all p (u ++ b' ' ∷ rest)
      ≡ parse_all (record p { state = p_state_version; count = 0; uri = fill 4095 p.uri u }) rest
unfolding fill step is_done
run-uri [] rest p s k a = parse_all-step p b' ' rest (ground arith) ∙ ground arith
run-uri (c ∷ u) rest p s k a = elim (Bool-cases (ltb p.count 4095)) [
  | inl t ↦ ground (
    arith,
    parse_all-step p c (u ++ b' ' ∷ rest),
    length-append p.uri (c ∷ []),
    run-uri u rest (record p { uri = p.uri ++ c ∷ []; count = p.count + 1 }),
  )
  | inr f ↦ ground (arith, parse_all-step p c (u ++ b' ' ∷ rest), run-uri u rest p)
]

-- Both bytes of a line end.
abbrev pub AvoidsEol : Bytes → Type 0
AvoidsEol s = Avoids b'\r' s × Avoids b'\n' s

pub run-version :
    (v rest : Bytes) (p : Parser)
    → p.state ≡ p_state_version
    → p.count ≡ length p.version
    → AvoidsEol v
    → parse_all p (v ++ b'\r' ∷ b'\n' ∷ rest)
      ≡ parse_all
          (record p {
            state = p_state_header_key;
            header_idx = 0;
            count = 0;
            version = fill 15 p.version v;
          })
          rest
unfolding fill step is_done
run-version [] rest p s k a =
    parse_all-step p b'\r' (b'\n' ∷ rest) (ground arith)
    ∙ (ground (arith, parse_all-step p b'\n' rest))
run-version (c ∷ v) rest p s k a = elim (Bool-cases (ltb p.count 15)) [
  | inl t ↦ ground (
    arith,
    parse_all-step p c (v ++ b'\r' ∷ b'\n' ∷ rest),
    length-append p.version (c ∷ []),
    run-version v rest (record p { version = p.version ++ c ∷ []; count = p.count + 1 }),
  )
  | inr f ↦ ground (arith, parse_all-step p c (v ++ b'\r' ∷ b'\n' ∷ rest), run-version v rest p)
]

pub run-key :
    (k rest : Bytes) (p : Parser)
    → p.state ≡ p_state_header_key
    → p.count ≡ length p.key
    → Avoids b':' k
    → AvoidsEol k
    → parse_all p (k ++ b':' ∷ rest)
      ≡ parse_all
          (record p { state = p_state_header_value; count = 0; key = fill 127 p.key k })
          (skip_spaces rest)
unfolding fill step is_done
run-key [] rest p s e a b = parse_all-step p b':' rest (ground arith) ∙ ground arith
run-key (c ∷ k) rest p s e a b = elim (Bool-cases (ltb p.count 127)) [
  | inl t ↦ ground (
    arith,
    parse_all-step p c (k ++ b':' ∷ rest),
    length-append p.key (c ∷ []),
    run-key k rest (record p { key = p.key ++ c ∷ []; count = p.count + 1 }),
  )
  | inr f ↦ ground (arith, parse_all-step p c (k ++ b':' ∷ rest), run-key k rest p)
]

-- The parser behind a complete header line.
unfoldable pub after_header : Parser → Parser
unfolding step
after_header p = (step p_state_header_value p b'\n' []).0

pub run-value :
    (v rest : Bytes) (p : Parser)
    → p.state ≡ p_state_header_value
    → p.count ≡ length p.value
    → AvoidsEol v
    → (n : ℕ) × (parse_all p (v ++ b'\r' ∷ b'\n' ∷ rest)
        ≡ parse_all (after_header (record p { count = n; value = fill 4095 p.value v })) rest)
unfolding fill step is_done after_header
run-value [] rest p s k a = (
  p.count,
  parse_all-step p b'\r' (b'\n' ∷ rest) (ground arith)
      ∙ (ground (arith, parse_all-step p b'\n' rest)),
)
run-value (c ∷ v) rest p s k a = elim (Bool-cases (ltb p.count 4095)) [
  | inl t ↦
      let (n, e) =
        run-value v rest (record p { value = p.value ++ c ∷ []; count = p.count + 1 }) s
          (omega (arith, length-append p.value (c ∷ []))) (ground arith) in
      (n, ground (arith, parse_all-step p c (v ++ b'\r' ∷ b'\n' ∷ rest)))
  | inr f ↦
      let (n, e) = run-value v rest p s k (ground arith) in
      (n, ground (arith, parse_all-step p c (v ++ b'\r' ∷ b'\n' ∷ rest)))
]

-- The loop ends at the body, and leaves the arrays as they are.
pub run-body :
    (rest : Bytes) (p : Parser)
    → p.state ≡ p_state_body
    → (s : ParseStep) × (parse_all p rest ≡ some (record p { state = s }))
unfolding parse_all parse_loop step is_done
run-body [] p e = (p_state_body, ground arith)
run-body (c ∷ []) p e = (p_state_done, ground arith)
run-body (c ∷ d ∷ cs) p e = (p_state_done, ground arith)
