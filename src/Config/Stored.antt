-- ===== src/Config/Stored.antt =====
-- The lines `key = value` that the configuration file is made of, with one space on each side of the
-- sign: what the search of the table is given for them.
use celeritas.Prelude.{
  ℕ, Bool, true, false, not, ◌&&◌, some, [], ◌∷◌, ◌++◌, append_assoc, append-nil, Bytes, ltb, ◌==◌,
  ◌≡◌, refl, ap, subst, ◌∙◌, arith,
}
use celeritas.Text.{c_str}
use celeritas.Config.{ConfigData, cfg_map}
use celeritas.Config.Line.{
  is_space, trim_start, trim_end, trim_whitespace, strip_newline, split_equals, assign,
  process_trimmed, process_line,
}

-- Neither white space nor a control byte, nor one of the two signs of the file's syntax.
abbrev pub is_word : Bytes → Bool
is_word [] = true
is_word (c ∷ s) = ltb 32 c && not (c == b'=') && not (c == b'#') && is_word s

strip-word :
    (s r : Bytes) → is_word s ≡ true → strip_newline (c_str (s ++ r)) ≡ s ++ strip_newline (c_str r)
unfolding strip_newline c_str
strip-word [] r h = refl
strip-word (c ∷ s) r h = ground (arith, strip-word s r)

trim_start-word : (c : ℕ) (s : Bytes) → is_word (c ∷ []) ≡ true → trim_start (c ∷ s) ≡ c ∷ s
unfolding trim_start is_space
trim_start-word c s h = ground arith

trim_end-word : (s : Bytes) → is_word s ≡ true → trim_end s ≡ s
unfolding trim_end is_space
trim_end-word [] h = refl
trim_end-word (c ∷ []) h = ground arith
trim_end-word (c ∷ d ∷ s) h = ground (arith, trim_end-word (d ∷ s))

-- A last word protects what stands before it.
trim_end-append :
    (s : Bytes) (d : ℕ) (v : Bytes) → trim_end (d ∷ v) ≡ d ∷ v → trim_end (s ++ d ∷ v) ≡ s ++ d ∷ v
unfolding trim_end
trim_end-append [] d v h = h
trim_end-append (c ∷ []) d v h = ground (arith, h)
trim_end-append (c ∷ b ∷ s) d v h = ground (arith, trim_end-append (b ∷ s) d v h)

trim_end-space : (s : Bytes) → is_word s ≡ true → trim_end (s ++ b' ' ∷ []) ≡ s
unfolding trim_end is_space
trim_end-space [] h = ground arith
trim_end-space (c ∷ []) h = ground arith
trim_end-space (c ∷ d ∷ s) h = ground (arith, trim_end-space (d ∷ s))

split_equals-word :
    (s r : Bytes)
    → is_word s ≡ true
    → split_equals (s ++ b' ' ∷ b'=' ∷ r) ≡ some (s ++ b' ' ∷ [], r)
unfolding split_equals
split_equals-word [] r h = ground arith
split_equals-word (c ∷ s) r h = ground (arith, split_equals-word s r)

-- The line of the file for a key and its value.
abbrev pub entry_line : Bytes → Bytes → Bytes
entry_line key value = key ++ b' ' ∷ b'=' ∷ b' ' ∷ (value ++ 10 ∷ [])

module _ (c d : ℕ) (k v : Bytes) (hk : is_word (c ∷ k) ≡ true) (hv : is_word (d ∷ v) ≡ true) where
  entry_line-stripped :
      strip_newline (c_str (entry_line (c ∷ k) (d ∷ v))) ≡ c ∷ (k ++ b' ' ∷ b'=' ∷ b' ' ∷ d ∷ v)
  unfolding strip_newline c_str
  entry_line-stripped =
      strip-word (c ∷ k) (b' ' ∷ b'=' ∷ b' ' ∷ ((d ∷ v) ++ 10 ∷ [])) hk
      ∙ ap (λ r. c ∷ (k ++ b' ' ∷ b'=' ∷ b' ' ∷ r))
          (strip-word (d ∷ v) (10 ∷ []) hv ∙ append-nil (d ∷ v))

  first-word : is_word (c ∷ []) ≡ true
  first-word = ground arith

  rest-word : is_word k ≡ true
  rest-word = ground arith

  entry_line-trimmed :
      trim_whitespace (strip_newline (c_str (entry_line (c ∷ k) (d ∷ v))))
      ≡ c ∷ (k ++ b' ' ∷ b'=' ∷ b' ' ∷ d ∷ v)
  unfolding trim_whitespace
  entry_line-trimmed =
      let t : trim_end (k ++ b' ' ∷ b'=' ∷ b' ' ∷ d ∷ v) ≡ k ++ b' ' ∷ b'=' ∷ b' ' ∷ d ∷ v =
        subst (λ s. trim_end s ≡ s) (append_assoc k (b' ' ∷ b'=' ∷ b' ' ∷ []) (d ∷ v))
          (trim_end-append (k ++ b' ' ∷ b'=' ∷ b' ' ∷ []) d v (trim_end-word (d ∷ v) hv)) in
      rw
        (
          entry_line-stripped,
          trim_start-word c (k ++ b' ' ∷ b'=' ∷ b' ' ∷ d ∷ v) first-word,
          t,
          trim_whitespace,
        )
        refl

  trim_whitespace-key : trim_whitespace ((c ∷ k) ++ b' ' ∷ []) ≡ c ∷ k
  unfolding trim_whitespace
  trim_whitespace-key =
      rw
        (trim_start-word c (k ++ b' ' ∷ []) first-word, trim_end-space k rest-word, trim_whitespace)
        refl

  trim_whitespace-value : trim_whitespace (b' ' ∷ d ∷ v) ≡ d ∷ v
  unfolding trim_whitespace trim_start is_space
  trim_whitespace-value =
      let w : is_word (d ∷ []) ≡ true = ground arith in
      let u : is_word v ≡ true = ground arith in
      rw (trim_start-word d v w, trim_end-word v u, trim_whitespace) refl

  -- The line `key = value` gives the key and the value to the search of the table, with nothing
  -- around them, where both are words.
  pub process_line-entry :
      (line_num : ℕ) (conf : ConfigData)
      → process_line line_num (entry_line (c ∷ k) (d ∷ v)) conf
        ≡ assign cfg_map line_num (c ∷ k) (d ∷ v) conf
  unfolding process_line process_trimmed
  process_line-entry line_num conf =
      let n : (c == b'#') ≡ false = ground arith in
      rw
        (
          entry_line-trimmed,
          n,
          split_equals-word (c ∷ k) (b' ' ∷ d ∷ v) hk,
          trim_whitespace-key,
          trim_whitespace-value,
          process_trimmed,
        )
        refl
