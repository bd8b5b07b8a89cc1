-- ===== src/Config/Keys.antt =====
-- What the line of each key of `cfg_map` sets, and the numbers that `%u` prints and `strtol` reads.
use celeritas.Prelude.{
  ℕ, zero, suc, ◌+◌, ◌-◌, ◌*◌, ◌/◌, ◌%◌, ◌≤◌, ◌<◌, true, false, some, [], ◌∷◌, ◌++◌, append_assoc,
  append-nil, Bytes, ltb, ◌≡◌, refl, ap, ◌∙◌, arith, inl, inr, Bool-cases, length, subst, Bool,
  none,
}
use celeritas.Text.{codes}
use celeritas.Text.Decimal.{show_digits, show_nat}
use celeritas.Config.{ConfigData, Member, cfg_map}
use celeritas.Config.Line.{
  CfgError, store, assign, process_line, read_digits, is_digit, read_unsigned, strtol, parse_uint16,
  trim_start, is_space,
}
use celeritas.Config.Stored.{is_word, entry_line}

-- A printed number starts with a digit.
abbrev StartsWithDigit : Bytes → Type 0
StartsWithDigit s = (c : ℕ) × (rest : Bytes) × (s ≡ c ∷ rest) × (48 ≤ c) × (c ≤ 57)

StartsWithDigit-append : (s t : Bytes) → StartsWithDigit s → StartsWithDigit (s ++ t)
StartsWithDigit-append s t (c, rest, e, l, u) = (c, rest ++ t, ap (λ x. x ++ t) e, l, u)

show_digits-StartsWithDigit : (fuel n : ℕ) → StartsWithDigit (show_digits (suc fuel) n)
unfolding show_digits
show_digits-StartsWithDigit zero n = elim (Bool-cases (ltb n 10)) [
  | inl t ↦ rw t (48 + n, [], refl, omega arith, ground (arith, t))
  | inr t ↦ rw t (48 + n % 10, [], refl, omega arith, omega arith)
]
show_digits-StartsWithDigit (suc fuel) n = elim (Bool-cases (ltb n 10)) [
  | inl t ↦ rw t (48 + n, [], refl, omega arith, ground (arith, t))
  | inr t ↦
      let front : StartsWithDigit (show_digits (suc fuel) (n / 10) ++ (48 + n % 10) ∷ []) =
        StartsWithDigit-append (show_digits (suc fuel) (n / 10)) ((48 + n % 10) ∷ [])
          (show_digits-StartsWithDigit fuel (n / 10)) in
      rw t front
]

read_digits-digit :
    (acc d : ℕ) (r : Bytes) → d < 10 → read_digits acc ((48 + d) ∷ r) ≡ read_digits (acc * 10 + d) r
unfolding read_digits
read_digits-digit acc d r h =
    let e : acc * 10 + ((48 + d) - 48) ≡ acc * 10 + d = omega arith in ground (arith, e)

read_digits-show_digits :
    (fuel n : ℕ) (r : Bytes) → n < fuel → read_digits 0 (show_digits fuel n ++ r) ≡ read_digits n r
unfolding show_digits
read_digits-show_digits zero n r h = absurd (omega arith)
read_digits-show_digits (suc fuel) n r h = elim (Bool-cases (ltb n 10)) [
  | inl t ↦
      let e : 0 * 10 + n ≡ n = omega arith in
      rw t (read_digits-digit 0 n r (ground (arith, t)) ∙ ap (λ m. read_digits m r) e)
  | inr t ↦
      let l : n / 10 < fuel = ground (arith, t) in
      let e : n / 10 * 10 + n % 10 ≡ n = omega arith in
      rw (t, append_assoc (show_digits fuel (n / 10)) ((48 + n % 10) ∷ []) r)
        (read_digits-show_digits fuel (n / 10) ((48 + n % 10) ∷ r) l
          ∙ read_digits-digit (n / 10) (n % 10) r (omega arith)
          ∙ ap (λ m. read_digits m r) e)
]

strtol-digits :
    (s : Bytes)
    → StartsWithDigit s
    → strtol s
      ≡ (record { negative = false; value = (read_digits 0 s).0; rest = (read_digits 0 s).1 })
unfolding strtol trim_start is_space read_unsigned is_digit
strtol-digits s (c, rest, e, l, u) = rw e (ground arith)

-- What `%u` prints of a number of 16 bits, `strtol` and the range test read back.
pub parse_uint16-show_nat : (n : ℕ) → n ≤ 65535 → parse_uint16 (show_nat n) ≡ some n
unfolding parse_uint16 show_nat read_digits
parse_uint16-show_nat n h =
    let s = show_digits (suc n) n in
    let e : read_digits 0 s ≡ (n, []) =
      subst (λ t. read_digits 0 t ≡ (n, [])) (append-nil s)
        (read_digits-show_digits (suc n) n [] (omega arith)) in
    rw (strtol-digits s (show_digits-StartsWithDigit n n), e) (ground arith)

module _ (line_num : ℕ) (conf : ConfigData) where
  -- The line `key = value` for a number of 16 bits, as `%u` prints it.
  abbrev pub NumberLine : Bytes → (ℕ → ConfigData) → Type 0
  NumberLine key put =
      (n : ℕ) → n ≤ 65535 → process_line line_num (entry_line key (show_nat n)) conf ≡ (put n, none)

  -- For a text without white space or syntax: one that does not fit is an error.
  abbrev pub TextLine : Bytes → ℕ → (Bytes → ConfigData) → Type 0
  TextLine key max_len put =
      (value : Bytes)
      → is_word value ≡ true
      → 0 < length value
      → (length value < max_len
          → process_line line_num (entry_line key value) conf ≡ (put value, none))
        × (max_len ≤ length value
            → process_line line_num (entry_line key value) conf
              ≡ (conf, some (CfgError.string_too_long line_num key)))

  abbrev pub FlagLine : Bytes → (Bool → ConfigData) → Type 0
  FlagLine key put =
      (process_line line_num (entry_line key (codes "true")) conf ≡ (put true, none))
      × (process_line line_num (entry_line key (codes "false")) conf ≡ (put false, none))

  -- What each key sets, and that nothing else changes.
  pub record KeysOk : Type 0 where
    pub http_port : NumberLine (codes "http_port") (λ n. record conf { http_port = n })
    pub https_port : NumberLine (codes "https_port") (λ n. record conf { https_port = n })
    pub worker_threads :
        NumberLine (codes "worker_threads") (λ n. record conf { worker_threads = n })
    pub max_url_size : NumberLine (codes "max_url_size") (λ n. record conf { max_url_size = n })
    pub max_rx_header :
        NumberLine (codes "max_rx_header_size") (λ n. record conf { max_rx_header = n })
    pub max_tx_header :
        NumberLine (codes "max_tx_header_size") (λ n. record conf { max_tx_header = n })
    pub log_queue_size :
        NumberLine (codes "log_queue_size") (λ n. record conf { log_queue_size = n })
    pub conn_queue_size :
        NumberLine (codes "conn_queue_size") (λ n. record conf { conn_queue_size = n })
    pub dir_listing : FlagLine (codes "dir_listing") (λ b. record conf { dir_listing = b })
    pub access_log : TextLine (codes "access_log") 4096 (λ v. record conf { access_log = v })
    pub event_log : TextLine (codes "event_log") 4096 (λ v. record conf { event_log = v })
    pub doc_root : TextLine (codes "doc_root") 4096 (λ v. record conf { doc_root = v })
    pub lock_file_path :
        TextLine (codes "lock_file_path") 4096 (λ v. record conf { lock_file_path = v })
    pub tls_cert_path :
        TextLine (codes "tls_cert_path") 4096 (λ v. record conf { tls_cert_path = v })
    pub tls_key_path : TextLine (codes "tls_key_path") 4096 (λ v. record conf { tls_key_path = v })
    pub server_user : TextLine (codes "server_user") 256 (λ v. record conf { server_user = v })
    pub server_group : TextLine (codes "server_group") 256 (λ v. record conf { server_group = v })

  -- The search of the table finds `member` for the key.
  abbrev Finds : Bytes → Member → Type 0
  Finds key member =
      (value : Bytes)
      → assign cfg_map line_num key value conf ≡ store member line_num key value conf
