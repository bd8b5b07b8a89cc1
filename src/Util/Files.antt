-- ===== src/Util/Files.antt =====
-- `validate_path` of src/util.c and its helper `create_dir_recursive`. The file system is a parameter,
-- an interface with what mkdir(2) says.
pub mod Created
pub mod Valid
use celeritas.Prelude.{
  ℕ, ◌+◌, ◌-◌, ◌≡◌, Bool, true, false, Option, none, some, List, [], ◌∷◌, ◌++◌, Bytes, length, take,
  if◌then◌else◌, leb, ◌==◌,
}
use celeritas.Text.{codes, find_last}
use celeritas.Types.{path_max}

-- `st_mode`, as far as it is looked at.
pub data FileKind : Type 0 where
  regular directory other_kind : FileKind

pub data StatResult : Type 0 where
  found : FileKind → StatResult
  stat_enoent stat_failed : StatResult

-- What `mkdir` comes to; EEXIST is told apart.
pub data MkdirResult (Fs : Type 0) : Type 0 where
  made : Fs → MkdirResult Fs
  mkdir_eexist mkdir_failed : MkdirResult Fs

-- `Present` says that a path names something, a file, a directory or a link.
pub record FileSystem : Type 1 where
  pub Fs : Type 0
  pub Present : Fs → Bytes → Type 0
  pub stat : Fs → Bytes → StatResult
  pub access_rw : Fs → Bytes → Bool
  pub access_wx : Fs → Bytes → Bool
  pub mkdir : Fs → Bytes → MkdirResult Fs
  pub made_present :
      (fs : Fs) (path : Bytes) (later : Fs) → mkdir fs path ≡ made later → Present later path
  pub made_keeps :
      (fs : Fs) (path other : Bytes) (later : Fs)
      → mkdir fs path ≡ made later
      → Present fs other
      → Present later other
  pub eexist_present : (fs : Fs) (path : Bytes) → mkdir fs path ≡ mkdir_eexist → Present fs path

-- What the messages of `early_fatal` and `die_with_error` say; both end the process.
pub data PathError : Type 0 where
  empty_path not_regular no_read_write stat_error path_too_long : PathError
  parent_not_directory parent_stat_error parent_not_writable cwd_not_writable : PathError
  directory_too_long directory_not_created : PathError

-- The end of the process, or the return, with the file system then.
pub data Checked (Fs : Type 0) : Type 0 where
  fatal : PathError → Checked Fs
  returned : Fs → Checked Fs

-- The parent of a path, for the last slash and what follows it.
unfoldable pub parent_of : Bytes → Bytes → Bytes
parent_of path last_slash =
    let n = length path - length last_slash in if n == 0 then take 1 path else take n path

module _ (os : FileSystem) where
  -- A call of `mkdir` with its test.
  unfoldable pub make_dir : os.Fs → Bytes → Checked os.Fs
  make_dir fs path = elim (os.mkdir fs path) [
    | made later ↦ returned later
    | mkdir_eexist ↦ returned fs
    | mkdir_failed ↦ fatal directory_not_created
  ]

  -- The loop of `create_dir_recursive`, with the bytes before `p` and from it on, and the last call.
  unfoldable pub make_dirs : os.Fs → Bytes → Bytes → Checked os.Fs
  make_dirs fs before [] = make_dir fs before
  make_dirs fs before (c ∷ rest) =
      let next : os.Fs → Checked os.Fs = λ later. make_dirs later (before ++ c ∷ []) rest in
      if c == b'/'
      then elim (make_dir fs before) [ fatal e ↦ fatal e | returned later ↦ next later ]
      else next fs

  -- `create_dir_recursive` from the skip of the leading slash on.
  unfoldable pub make_path : os.Fs → Bytes → Checked os.Fs
  make_path fs [] = make_dirs fs [] []
  make_path fs (c ∷ rest) =
      if c == b'/' then make_dirs fs (c ∷ []) rest else make_dirs fs [] (c ∷ rest)

  unfoldable pub create_dir_recursive : os.Fs → Bytes → Checked os.Fs
  create_dir_recursive fs dir_path =
      if leb path_max (length dir_path) then fatal directory_too_long else make_path fs dir_path

  -- The calls of `access` at the end of `validate_path`.
  unfoldable pub check_access : PathError → os.Fs → Bytes → Checked os.Fs
  check_access error fs dir_path = if os.access_wx fs dir_path then returned fs else fatal error

  -- The tests of the parent directory.
  unfoldable pub check_parent : os.Fs → Bytes → Checked os.Fs
  check_parent fs dir_path = elim (os.stat fs dir_path) [
    | found kind ↦ elim kind [
      | regular ↦ fatal parent_not_directory
      | directory ↦ check_access parent_not_writable fs dir_path
      | other_kind ↦ fatal parent_not_directory
    ]
    | stat_enoent ↦ elim (create_dir_recursive fs dir_path) [
      | fatal e ↦ fatal e
      | returned later ↦ check_access parent_not_writable later dir_path
    ]
    | stat_failed ↦ fatal parent_stat_error
  ]

  -- The branches for a file that does not exist.
  unfoldable pub check_missing : os.Fs → Bytes → Checked os.Fs
  check_missing fs path =
      if leb path_max (length path) then fatal path_too_long else elim (find_last b'/' path) [
        | none ↦ check_access cwd_not_writable fs (codes ".")
        | some last_slash ↦ check_parent fs (parent_of path last_slash)
      ]

  -- The tests of a file that exists.
  unfoldable pub check_file : FileKind → os.Fs → Bytes → Checked os.Fs
  check_file regular fs path = if os.access_rw fs path then returned fs else fatal no_read_write
  check_file _ fs path = fatal not_regular

  -- `validate_path` of a path that is not NULL.
  unfoldable pub validate_path : os.Fs → Bytes → Checked os.Fs
  validate_path fs [] = fatal empty_path
  validate_path fs (c ∷ s) = elim (os.stat fs (c ∷ s)) [
    | found kind ↦ check_file kind fs (c ∷ s)
    | stat_enoent ↦ check_missing fs (c ∷ s)
    | stat_failed ↦ fatal stat_error
  ]
