-- ===== src/Config/Invariant.antt =====
-- The members of the configuration as their C types can hold them, and what a line of the file does to
-- them.
use celeritas.Prelude.{
  ℕ, ◌≤◌, ◌<◌, Bool, some, List, [], ◌∷◌, Bytes, leb, ◌==◌, length, ◌≡◌, arith, inl, inr,
  Bool-cases, Option-cases, All,
}
use celeritas.Types.{path_max}
use celeritas.Text.{c_str, equal}
use celeritas.Config.{ConfigData, Member, ConfigMapping, cfg_map, max_name_len}
use celeritas.Config.Line.{
  process_line, process_trimmed, store, assign, parse_uint16, parse_bool, split_equals,
  trim_whitespace, strip_newline,
}

-- The members of 16 bits that the file can set.
abbrev pub words : ConfigData → List ℕ
words c =
    c.http_port ∷ c.https_port ∷ c.worker_threads ∷ c.max_url_size ∷ c.max_rx_header
    ∷ c.max_tx_header ∷ c.log_queue_size ∷ c.conn_queue_size ∷ c.keepalive_timeout ∷ []

abbrev pub paths : ConfigData → List Bytes
paths c =
    c.access_log ∷ c.event_log ∷ c.doc_root ∷ c.lock_file_path ∷ c.tls_cert_path ∷ c.tls_key_path
    ∷ []

-- The members are as their C types can hold them, a string with its NUL.
abbrev pub ConfigOk : ConfigData → Type 0
ConfigOk c =
    All (λ n. n ≤ 65535) (words c)
    × All (λ s. length s < path_max) (paths c)
    × (length c.server_user < max_name_len)
    × (length c.server_group < max_name_len)

-- Storing what the tests let through keeps `ConfigOk`.
StoreOk : Member → Type 0
StoreOk (Member.uint16 write) =
    (v : ℕ) (c : ConfigData) → v ≤ 65535 → ConfigOk c → ConfigOk (write v c)
StoreOk (Member.string max_len write) =
    (v : Bytes) (c : ConfigData) → length v < max_len → ConfigOk c → ConfigOk (write v c)
StoreOk (Member.boolean write) = (v : Bool) (c : ConfigData) → ConfigOk c → ConfigOk (write v c)

cfg_map-StoreOk : All (λ m. StoreOk m.member) cfg_map
unfolding cfg_map StoreOk
cfg_map-StoreOk = (
  λ v c l h. ground (arith, l, h),
  (
    λ v c l h. ground (arith, l, h),
    (
      λ v c l h. ground (arith, l, h),
      (
        λ v c l h. ground (arith, l, h),
        (
          λ v c l h. ground (arith, l, h),
          (
            λ v c l h. ground (arith, l, h),
            (
              λ v c h. ground (arith, h),
              (
                λ v c l h. ground (arith, l, h),
                (
                  λ v c l h. ground (arith, l, h),
                  (
                    λ v c l h. ground (arith, l, h),
                    (
                      λ v c l h. ground (arith, l, h),
                      (
                        λ v c l h. ground (arith, l, h),
                        (
                          λ v c l h. ground (arith, l, h),
                          (
                            λ v c l h. ground (arith, l, h),
                            (
                              λ v c l h. ground (arith, l, h),
                              (
                                λ v c l h. ground (arith, l, h),
                                (λ v c l h. ground (arith, l, h), tt),
                              ),
                            ),
                          ),
                        ),
                      ),
                    ),
                  ),
                ),
              ),
            ),
          ),
        ),
      ),
    ),
  ),
)

parse_uint16-le : (s : Bytes) (v : ℕ) → parse_uint16 s ≡ some v → v ≤ 65535
unfolding parse_uint16
parse_uint16-le s v e = ground arith

store-ConfigOk :
    (m : Member) (line_num : ℕ) (key value : Bytes) (c : ConfigData)
    → StoreOk m
    → ConfigOk c
    → ConfigOk (store m line_num key value c).0
unfolding store StoreOk
store-ConfigOk (Member.string max_len write) line_num key value c s h =
    elim (Bool-cases (leb max_len (length value))) [
      | inl t ↦ rw t h
      | inr t ↦ rw t (s value c (ground (arith, t)) h)
    ]
store-ConfigOk (Member.uint16 write) line_num key value c s h =
    elim (Option-cases (parse_uint16 value)) [
      | inl e ↦ rw (e, store) h
      | inr (v, e) ↦ rw (e, store) (s v c (parse_uint16-le value v e) h)
    ]
store-ConfigOk (Member.boolean write) line_num key value c s h =
    elim (Option-cases (parse_bool value)) [
      | inl e ↦ rw (e, store) h
      | inr (v, e) ↦ rw (e, store) (s v c h)
    ]

assign-ConfigOk :
    (ms : List ConfigMapping) (line_num : ℕ) (key value : Bytes) (c : ConfigData)
    → All (λ m. StoreOk m.member) ms
    → ConfigOk c
    → ConfigOk (assign ms line_num key value c).0
unfolding assign
assign-ConfigOk [] line_num key value c s h = h
assign-ConfigOk (m ∷ ms) line_num key value c s h = elim (Bool-cases (equal key m.key)) [
  | inl t ↦ rw t (store-ConfigOk m.member line_num key value c s.0 h)
  | inr t ↦ rw t (assign-ConfigOk ms line_num key value c s.1 h)
]

process_trimmed-ConfigOk :
    (line_num : ℕ) (s : Bytes) (c : ConfigData)
    → ConfigOk c
    → ConfigOk (process_trimmed line_num s c).0
unfolding process_trimmed
process_trimmed-ConfigOk line_num [] c h = h
process_trimmed-ConfigOk line_num (d ∷ s) c h = elim (Bool-cases (d == b'#')) [
  | inl t ↦ rw t h
  | inr t ↦ elim (Option-cases (split_equals (d ∷ s))) [
    | inl e ↦ rw (t, e) h
    | inr (p, e) ↦
        rw (t, e)
          (assign-ConfigOk cfg_map line_num (trim_whitespace p.0) (trim_whitespace p.1) c
            cfg_map-StoreOk h)
  ]
]

pub process_line-ConfigOk :
    (line_num : ℕ) (line : Bytes) (c : ConfigData)
    → ConfigOk c
    → ConfigOk (process_line line_num line c).0
unfolding process_line
process_line-ConfigOk line_num line c h =
    process_trimmed-ConfigOk line_num (trim_whitespace (strip_newline (c_str line))) c h
