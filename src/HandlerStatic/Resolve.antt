-- ===== src/HandlerStatic/Resolve.antt =====
-- The path that `resolve_path` gives: where it lies, its length and its dots.
use celeritas.Prelude.{
  ℕ, zero, suc, ◌+◌, ◌-◌, ◌≤◌, ◌<◌, ◌≡◌, ◌≢◌, refl, some, true, false, ◌||◌, [], ◌∷◌, ◌++◌, length,
  take, ◌==◌, if◌then◌else◌, Bytes, arith, append_assoc, length-append, length-take, Bool-cases,
  inl, inr, sym, ap, ◌∙◌, subst,
}
use celeritas.Text.{codes, contains, starts_with}
use celeritas.Text.Search.{contains_pair-append, contains_pair-take}
use celeritas.HandlerStatic.{ends_with, has_slash, tail, joined, add_index, resolve_path}

-- A path without its trailing slash.
pub trim_end : Bytes → Bytes
trim_end [] = []
trim_end (x ∷ []) = if x == b'/' then [] else x ∷ []
trim_end (x ∷ y ∷ s) = x ∷ trim_end (y ∷ s)

-- A path without its leading slash.
pub trim_start : Bytes → Bytes
trim_start [] = []
trim_start (c ∷ s) = if c == b'/' then s else c ∷ s

trim_end_slash : (s : Bytes) → ends_with b'/' s ≡ true → s ≡ trim_end s ++ b'/' ∷ []
unfolding ends_with trim_end
trim_end_slash [] h = ground arith
trim_end_slash (x ∷ []) h = ground arith
trim_end_slash (x ∷ y ∷ s) h = ap (◌∷◌ x) (trim_end_slash (y ∷ s) h)

trim_end_none : (s : Bytes) → ends_with b'/' s ≡ false → trim_end s ≡ s
unfolding ends_with trim_end
trim_end_none [] h = refl
trim_end_none (x ∷ []) h = ground arith
trim_end_none (x ∷ y ∷ s) h = ap (◌∷◌ x) (trim_end_none (y ∷ s) h)

trim_start_slash : (s : Bytes) → has_slash s ≡ true → s ≡ b'/' ∷ trim_start s
unfolding has_slash trim_start
trim_start_slash [] h = ground arith
trim_start_slash (c ∷ s) h = ground arith

trim_start_none : (s : Bytes) → has_slash s ≡ false → trim_start s ≡ s
unfolding has_slash trim_start
trim_start_none [] h = refl
trim_start_none (c ∷ s) h = ground arith

tail-trim_start : (s : Bytes) → has_slash s ≡ true → tail s ≡ trim_start s
unfolding has_slash trim_start tail
tail-trim_start [] h = refl
tail-trim_start (c ∷ s) h = ground arith

root_slash :
    (docroot t : Bytes)
    → ends_with b'/' docroot ≡ true
    → docroot ++ t ≡ trim_end docroot ++ b'/' ∷ t
root_slash docroot t r =
    ap (λ s. s ++ t) (trim_end_slash docroot r) ∙ append_assoc (trim_end docroot) (b'/' ∷ []) t

-- The two parts are joined by one slash, whichever slashes they bring.
pub joined-trim :
    (docroot uri : Bytes) → joined docroot uri ≡ trim_end docroot ++ b'/' ∷ trim_start uri
unfolding joined
joined-trim docroot uri = elim (Bool-cases (ends_with b'/' docroot)) [
  | inl r ↦ elim (Bool-cases (has_slash uri)) [
    | inl u ↦ ground (arith, root_slash docroot (tail uri) r, tail-trim_start uri u)
    | inr u ↦ ground (arith, root_slash docroot uri r, trim_start_none uri u)
  ]
  | inr r ↦ elim (Bool-cases (has_slash uri)) [
    | inl u ↦
        let whole = ap (λ s. docroot ++ s) (trim_start_slash uri u) in
        ground (arith, trim_end_none docroot r)
    | inr u ↦ ground (arith, trim_end_none docroot r, trim_start_none uri u)
  ]
]

-- No two dots in a row.
abbrev pub NoDots : Bytes → Type 0
NoDots s = contains (codes "..") s ≡ false

contains_dots-append :
    (a b : Bytes)
    → contains (codes "..") (a ++ b'/' ∷ b) ≡ (contains (codes "..") a || contains (codes "..") b)
unfolding codes
contains_dots-append a b = contains_pair-append b'.' b'.' b'/' (omega arith) (omega arith) a b

NoDots-take : (n : ℕ) (s : Bytes) → NoDots s → NoDots (take n s)
unfolding codes
NoDots-take n s h = contains_pair-take b'.' b'.' n s h

NoDots-nil : NoDots []
unfolding codes contains starts_with
NoDots-nil = refl

NoDots-append : (a b : Bytes) → NoDots a → NoDots b → NoDots (a ++ b'/' ∷ b)
NoDots-append a b h k = ground (arith, contains_dots-append a b)

NoDots-left : (a b : Bytes) → NoDots (a ++ b'/' ∷ b) → NoDots a
NoDots-left a b h = ground (arith, contains_dots-append a b)

NoDots-right : (a b : Bytes) → NoDots (a ++ b'/' ∷ b) → NoDots b
NoDots-right a b h = ground (arith, contains_dots-append a b)

NoDots-trim_end : (s : Bytes) → NoDots s → NoDots (trim_end s)
NoDots-trim_end s h = elim (Bool-cases (ends_with b'/' s)) [
  | inl e ↦ NoDots-left (trim_end s) [] (subst NoDots (trim_end_slash s e) h)
  | inr e ↦ subst NoDots (sym (trim_end_none s e)) h
]

NoDots-trim_start : (s : Bytes) → NoDots s → NoDots (trim_start s)
NoDots-trim_start s h = elim (Bool-cases (has_slash s)) [
  | inl e ↦ NoDots-right [] (trim_start s) (subst NoDots (trim_start_slash s e) h)
  | inr e ↦ subst NoDots (sym (trim_start_none s e)) h
]

NoDots-index : NoDots (codes "index.html")
unfolding codes contains starts_with
NoDots-index = refl

NoDots-add_index : (n : ℕ) (path : Bytes) → NoDots path → NoDots (add_index n path)
unfolding add_index
NoDots-add_index n path h = elim (Bool-cases (ends_with b'/' path)) [
  | inl e ↦
      let more = take (n - length path - 1) (codes "index.html") in
      let grown =
        NoDots-append (trim_end path) more (NoDots-trim_end path h)
          (NoDots-take (n - length path - 1) (codes "index.html") NoDots-index) in
      rw e (subst NoDots (sym (root_slash path more e)) grown)
  | inr e ↦ rw e h
]

length-add_index : (n : ℕ) (path : Bytes) → length path < n → length (add_index n path) < n
unfolding add_index
length-add_index n path h =
    let k = n - length path - 1 in
    ground
      (arith, length-append path (take k (codes "index.html")), length-take k (codes "index.html"))

add_index-append :
    (n : ℕ) (a t : Bytes) → (rest : Bytes) × (add_index n (a ++ b'/' ∷ t) ≡ a ++ b'/' ∷ rest)
unfolding add_index
add_index-append n a t = elim (Bool-cases (ends_with b'/' (a ++ b'/' ∷ t))) [
  | inl e ↦
      let more = take (n - length (a ++ b'/' ∷ t) - 1) (codes "index.html") in
      (t ++ more, ground (arith, append_assoc a (b'/' ∷ t) more))
  | inr e ↦ (t, ground arith)
]

take-append :
    (n : ℕ) (a : Bytes) (c : ℕ) (b : Bytes)
    → length a < n
    → (k : ℕ) × (take n (a ++ c ∷ b) ≡ a ++ c ∷ take k b)
take-append zero a c b h = absurd (omega arith)
take-append (suc n) [] c b h = (n, refl)
take-append (suc n) (x ∷ a) c b h =
    let (k, e) = take-append n a c b (omega arith) in (k, ap (◌∷◌ x) e)

length-trim_end : (s : Bytes) → length (trim_end s) ≤ length s
unfolding trim_end
length-trim_end [] = omega arith
length-trim_end (x ∷ []) = ground arith
length-trim_end (x ∷ y ∷ s) = omega (arith, length-trim_end (y ∷ s))

-- For a document root that is not empty, leaves room for a slash and a NUL and has no two dots in a
-- row, and a URI that has none either, `resolve_path` gives a path that is the root without its
-- trailing slash, a slash, and more bytes, fits its buffer with the NUL, and has no two dots in a
-- row.
pub resolve_path-NoDots :
    (docroot uri : Bytes) (out_len : ℕ)
    → docroot ≢ []
    → length docroot + 1 < out_len
    → NoDots docroot
    → NoDots uri
    → (rest : Bytes) × (resolve_path docroot uri out_len ≡ some (trim_end docroot ++ b'/' ∷ rest))
      × (length (trim_end docroot ++ b'/' ∷ rest) < out_len)
      × NoDots (trim_end docroot ++ b'/' ∷ rest)
unfolding resolve_path
resolve_path-NoDots [] uri out_len ne h d u = absurd (ne refl)
resolve_path-NoDots (c ∷ root) uri out_len ne h d u =
    let docroot = c ∷ root in
    let base = trim_end docroot in
    let (k, cut) =
      take-append (out_len - 1) base b'/' (trim_start uri)
        (omega (arith, length-trim_end docroot)) in
    let (rest, e) = add_index-append out_len base (take k (trim_start uri)) in
    let short = length-take (out_len - 1) (base ++ b'/' ∷ trim_start uri) in
    let fits =
      length-add_index out_len (base ++ b'/' ∷ take k (trim_start uri))
        (omega (arith, short, ap length cut)) in
    let clean = NoDots-add_index out_len (base ++ b'/' ∷ take k (trim_start uri)) (
      NoDots-append base (take k (trim_start uri)) (NoDots-trim_end docroot d)
        (NoDots-take k (trim_start uri) (NoDots-trim_start uri u))) in
    (
      rest,
      ap (λ p. some (add_index out_len (take (out_len - 1) p))) (joined-trim docroot uri)
          ∙ ap (λ p. some (add_index out_len p)) cut
          ∙ ap some e,
      subst (λ p. length p < out_len) e fits,
      subst NoDots e clean,
    )
