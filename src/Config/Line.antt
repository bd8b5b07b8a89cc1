-- ===== src/Config/Line.antt =====
-- One line of the configuration file: the body of the `while` loop of
-- `parse_and_validate_config_file` in src/config.c.
use celeritas.Prelude.{
  ℕ, ◌+◌, ◌-◌, ◌*◌, Bool, true, false, ◌&&◌, ◌||◌, Option, none, some, List, [], ◌∷◌, Bytes, ltb,
  leb, ◌==◌, if◌then◌else◌, length,
}
use celeritas.Text.{codes, c_str, equal, equal_nocase}
use celeritas.Config.{ConfigData, Member, ConfigMapping, cfg_map}

-- `isspace` in the C locale.
unfoldable pub is_space : ℕ → Bool
is_space c = c == b' ' || leb 9 c && leb c 13

-- The first loop of `trim_whitespace`.
unfoldable pub trim_start : Bytes → Bytes
trim_start [] = []
trim_start (c ∷ s) = let rest = trim_start s in if is_space c then rest else c ∷ s

-- The second loop of `trim_whitespace`, over the bytes behind the first.
unfoldable pub trim_end : Bytes → Bytes
trim_end [] = []
trim_end (c ∷ s) = elim (trim_end s) [ [] ↦ if is_space c then [] else c ∷ [] | d ∷ r ↦ c ∷ d ∷ r ]

-- `trim_whitespace`; its loop from the end stops at the first byte whatever that is.
unfoldable pub trim_whitespace : Bytes → Bytes
trim_whitespace s = elim (trim_start s) [ [] ↦ [] | c ∷ r ↦ c ∷ trim_end r ]

-- `line[strcspn(line, "\r\n")] = 0`
unfoldable pub strip_newline : Bytes → Bytes
strip_newline [] = []
strip_newline (c ∷ s) = if c == 13 || c == 10 then [] else c ∷ strip_newline s

-- `strchr(s, '=')`, as the bytes before it and those behind it.
unfoldable pub split_equals : Bytes → Option (Bytes × Bytes)
split_equals [] = none
split_equals (c ∷ s) =
    if c == b'='
    then some ([], s)
    else elim (split_equals s) [ none ↦ none | some (k, v) ↦ some (c ∷ k, v) ]

-- The value of the leading decimal digits on top of `acc`, and what follows them.
unfoldable pub read_digits : ℕ → Bytes → ℕ × Bytes
read_digits acc [] = (acc, [])
read_digits acc (c ∷ s) =
    if leb b'0' c && leb c b'9' then read_digits (acc * 10 + (c - b'0')) s else (acc, c ∷ s)

unfoldable pub is_digit : Bytes → Bool
is_digit [] = false
is_digit (c ∷ s) = leb b'0' c && leb c b'9'

-- What `strtol(s, &endptr, 10)` tells: is the value negative, how large is it, and the text at
-- `endptr`.
pub record Number : Type 0 where
  pub negative : Bool
  pub value : ℕ
  pub rest : Bytes

-- Digits at `t` give the value; without one it is 0 and `endptr` is the start of the text `s`.
unfoldable pub read_unsigned : Bytes → Bytes → Bool → Number
read_unsigned s t minus =
    let (v, after) = read_digits 0 t in
    if is_digit t
    then record { negative = minus; value = v; rest = after }
    else record { negative = false; value = 0; rest = s }

-- `strtol(s, &endptr, 10)`. A value that `long` does not hold, for which `errno` is set, keeps its
-- size here and is out of range either way.
unfoldable pub strtol : Bytes → Number
strtol s = elim (trim_start s) [
  | [] ↦ record { negative = false; value = 0; rest = s }
  | c ∷ t ↦
      if c == b'-'
      then read_unsigned s t true
      else if c == b'+'
      then read_unsigned s t false
      else read_unsigned s (c ∷ t) false
]

-- The test of `case CFG_UINT16`.
unfoldable pub parse_uint16 : Bytes → Option ℕ
parse_uint16 s =
    let n = strtol s in
    if ltb 0 (length n.rest) || n.negative && ltb 0 n.value || ltb 65535 n.value
    then none
    else some n.value

-- The tests of `case CFG_BOOL`.
unfoldable pub parse_bool : Bytes → Option Bool
parse_bool s =
    if equal_nocase s (codes "true") || equal s (codes "1")
    then some true
    else if equal_nocase s (codes "false") || equal s (codes "0")
    then some false
    else none

-- What `handle_cfg_error` is called with.
pub data CfgError : Type 0 where
  cannot_open : CfgError
  missing_delimiter : ℕ → CfgError
  string_too_long : ℕ → Bytes → CfgError
  invalid_uint16 : ℕ → Bytes → CfgError
  invalid_bool : ℕ → Bytes → CfgError
  unknown_key : ℕ → Bytes → CfgError

-- The `switch` on the type of the member: the new value, or the error.
unfoldable pub store : Member → ℕ → Bytes → Bytes → ConfigData → ConfigData × Option CfgError
store (Member.string max_len write) line_num key value conf =
    if leb max_len (length value)
    then (conf, some (CfgError.string_too_long line_num key))
    else (write value conf, none)
store (Member.uint16 write) line_num key value conf = elim (parse_uint16 value) [
  | none ↦ (conf, some (CfgError.invalid_uint16 line_num key))
  | some v ↦ (write v conf, none)
]
store (Member.boolean write) line_num key value conf = elim (parse_bool value) [
  | none ↦ (conf, some (CfgError.invalid_bool line_num key))
  | some b ↦ (write b conf, none)
]

-- The search of the key in the table.
unfoldable pub assign :
    List ConfigMapping → ℕ → Bytes → Bytes → ConfigData → ConfigData × Option CfgError
assign [] line_num key value conf = (conf, some (CfgError.unknown_key line_num key))
assign (m ∷ ms) line_num key value conf =
    if equal key m.key
    then store m.member line_num key value conf
    else assign ms line_num key value conf

-- One round of the loop, from the trimmed line on.
unfoldable pub process_trimmed : ℕ → Bytes → ConfigData → ConfigData × Option CfgError
process_trimmed line_num [] conf = (conf, none)
process_trimmed line_num (c ∷ s) conf =
    if c == b'#' then (conf, none) else elim (split_equals (c ∷ s)) [
      | none ↦ (conf, some (CfgError.missing_delimiter line_num))
      | some (k, v) ↦ assign cfg_map line_num (trim_whitespace k) (trim_whitespace v) conf
    ]

-- One round of the loop, on the line that `fgets` gave.
unfoldable pub process_line : ℕ → Bytes → ConfigData → ConfigData × Option CfgError
process_line line_num line conf =
    process_trimmed line_num (trim_whitespace (strip_newline (c_str line))) conf
