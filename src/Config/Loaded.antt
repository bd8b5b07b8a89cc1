-- ===== src/Config/Loaded.antt =====
-- What reading the whole configuration file, at the start and at a reload, gives.
use celeritas.Prelude.{
  ℕ, zero, suc, ◌+◌, ◌-◌, ◌≤◌, ◌<◌, Bool, true, false, Option, none, some, List, [], ◌∷◌, ◌++◌,
  Bytes, ◌==◌, length, take, get_or, ◌≡◌, ◌⊎◌, refl, subst, arith, inl, inr, Bool-cases,
  Option-cases, min, length-take,
}
use celeritas.Types.{path_max}
use celeritas.Text.{codes}
use celeritas.Config.{ConfigData}
use celeritas.Config.Line.{CfgError, process_line}
use celeritas.Config.Load.{
  Outcome, post_process, parse_lines, parse_and_validate_config_file, load_config_defaults, zeroed,
  init_config, reload_configuration, install, fgets,
}
use celeritas.Config.Invariant.{ConfigOk, process_line-ConfigOk}

post_process-ConfigOk :
    (c : ConfigData)
    → ConfigOk c
    → ConfigOk (post_process c).0
      × ((post_process c).1 ≡ true → (post_process c).0.lock_file_path ≡ [])
unfolding post_process
post_process-ConfigOk c h =
    let s = c.lock_file_path in
    let n = length s - 1 in
    let l : length (take n s) ≡ min n (length s) = length-take n s in
    let d : length (take (path_max - 1) c.doc_root) ≡ min (path_max - 1) (length c.doc_root) =
      length-take (path_max - 1) c.doc_root in
    elim (Bool-cases (length s == 0)) [
      | inl z ↦
          let empty : s ≡ [] = length-zero s (ground (arith, z)) in
          elim (Bool-cases (get_or c.doc_root (path_max - 1) 0 == b'/')) [
            | inl t ↦ rw (z, t) (ground (arith, h), λ e. empty)
            | inr t ↦ rw (z, t) (ground (arith, h, d), λ e. empty)
          ]
      | inr z ↦ elim (Bool-cases (get_or s n 0 == b'/')) [
        | inl t ↦ rw (z, t) (ground (arith, h), λ e. absurd (ground (arith, e)))
        | inr t ↦ rw (z, t) (ground (arith, h, l), λ e. absurd (ground (arith, e)))
      ]
    ]
  where
    length-zero : (s : Bytes) → length s ≡ 0 → s ≡ []
    length-zero [] e = refl
    length-zero (b ∷ s) e = absurd (omega arith)

fgets-le : (n c : ℕ) (file : Bytes) → length (fgets (suc n) (c ∷ file)).1 ≤ length file
unfolding fgets
fgets-le zero c file = ground arith
fgets-le (suc n) c [] = ground arith
fgets-le (suc n) c (d ∷ file) = ground (arith, fgets-le n d file)

-- What reading the file promises: it ends, it never ends the process but at the first run, where any
-- error does, the configuration it gives is as the C types can hold it, and an array was left only
-- where the path of the lock file is empty.
abbrev pub Parsed : Bool → Option Outcome → Type 0
Parsed is_first_run none = ⊥
Parsed is_first_run (some (Outcome.loaded c errors stray)) =
    ConfigOk c × ((errors ≡ []) ⊎ (is_first_run ≡ false)) × (stray ≡ true → c.lock_file_path ≡ [])
Parsed is_first_run (some (Outcome.failed e)) = is_first_run ≡ false
Parsed is_first_run (some (Outcome.exits e)) = is_first_run ≡ true

parse_lines-Parsed :
    (fuel : ℕ) (is_first_run : Bool) (line_num : ℕ) (file : Bytes) (c : ConfigData)
    (errors : List CfgError)
    → length file < fuel
    → ConfigOk c
    → (errors ≡ []) ⊎ (is_first_run ≡ false)
    → Parsed is_first_run (parse_lines fuel is_first_run line_num file c errors)
unfolding parse_lines
parse_lines-Parsed zero is_first_run line_num file c errors f h e = absurd (omega arith)
parse_lines-Parsed (suc fuel) is_first_run line_num [] c errors f h e =
    let p = post_process-ConfigOk c h in (p.0, e, p.1)
parse_lines-Parsed (suc fuel) is_first_run line_num (b ∷ file) c errors f h e =
    let line = (fgets 1023 (b ∷ file)).0 in
    let rest = (fgets 1023 (b ∷ file)).1 in
    let l : length rest ≤ length file = fgets-le 1022 b file in
    let r = process_line (line_num + 1) line c in
    let k : ConfigOk r.0 = process_line-ConfigOk (line_num + 1) line c h in
    elim (Option-cases r.1) [
      | inl n ↦
          rw (n, parse_lines)
            (parse_lines-Parsed fuel is_first_run (line_num + 1) rest r.0 errors (omega arith) k e)
      | inr (x, n) ↦ elim (Bool-cases is_first_run) [
        | inl t ↦ rw (n, t, parse_lines) refl
        | inr t ↦
            rw (n, t, parse_lines)
              (subst (λ i. Parsed i (parse_lines fuel i (line_num + 1) rest r.0 (errors ++ x ∷ [])))
                t
                (parse_lines-Parsed fuel is_first_run (line_num + 1) rest r.0 (errors ++ x ∷ [])
                  (omega arith) k (inr t)))
      ]
    ]

pub parse_and_validate_config_file-Parsed :
    (is_first_run : Bool) (file : Option Bytes) (c : ConfigData)
    → ConfigOk c
    → Parsed is_first_run (parse_and_validate_config_file is_first_run file c)
unfolding parse_and_validate_config_file
parse_and_validate_config_file-Parsed true none c h = refl
parse_and_validate_config_file-Parsed false none c h = refl
parse_and_validate_config_file-Parsed is_first_run (some file) c h =
    parse_lines-Parsed (length file + 1) is_first_run 0 file c [] (omega arith) h (inl refl)

load_config_defaults-ConfigOk : (ncpu : ℕ) (c : ConfigData) → ConfigOk (load_config_defaults ncpu c)
unfolding load_config_defaults codes
load_config_defaults-ConfigOk ncpu c = ground arith

-- `init_config` ends, with a configuration as its C types can hold it and no error passed over, or
-- with the end of the process.
pub init_config-Parsed : (ncpu : ℕ) (file : Option Bytes) → Parsed true (init_config ncpu file)
unfolding init_config
init_config-Parsed ncpu file =
    parse_and_validate_config_file-Parsed true file (load_config_defaults ncpu zeroed)
      (load_config_defaults-ConfigOk ncpu zeroed)

install-ConfigOk :
    (o : Option Outcome) (conf_data : ConfigData)
    → Parsed false o
    → ConfigOk conf_data
    → (later : ConfigData) × (install o conf_data ≡ some later) × ConfigOk later
unfolding install
install-ConfigOk none conf_data p h = absurd p
install-ConfigOk (some (Outcome.loaded c errors stray)) conf_data p h = (c, refl, p.0)
install-ConfigOk (some (Outcome.failed e)) conf_data p h = (conf_data, refl, h)
install-ConfigOk (some (Outcome.exits e)) conf_data p h = (conf_data, refl, h)

-- A reload always ends, and if the configuration in force before it is as its C types can hold it,
-- so is the one in force after it.
pub reload_configuration-ConfigOk :
    (memory : Option ConfigData) (ncpu : ℕ) (file : Option Bytes) (conf_data : ConfigData)
    → ConfigOk conf_data
    → (later : ConfigData) × (reload_configuration memory ncpu file conf_data ≡ some later)
      × ConfigOk later
unfolding reload_configuration
reload_configuration-ConfigOk none ncpu file conf_data h = (conf_data, refl, h)
reload_configuration-ConfigOk (some memory) ncpu file conf_data h =
    let start = load_config_defaults ncpu memory in
    install-ConfigOk (parse_and_validate_config_file false file start) conf_data
      (parse_and_validate_config_file-Parsed false file start
        (load_config_defaults-ConfigOk ncpu memory))
      h
