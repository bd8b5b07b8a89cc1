-- ===== src/Util/Files/Valid.antt =====
-- When `validate_path` returns.
use celeritas.Prelude.{
  ◌≡◌, ◌<◌, ◌⊎◌, inl, inr, refl, true, false, none, some, [], ◌∷◌, Bytes, length, leb, arith,
  Bool-cases, Option-cases,
}
use celeritas.Text.{codes, find_last}
use celeritas.Types.{path_max}
use celeritas.Util.Files.{
  FileKind, regular, directory, other_kind, StatResult, found, stat_enoent, stat_failed, FileSystem,
  Checked, fatal, returned, PathError, parent_of, create_dir_recursive, check_access, check_parent,
  check_missing, check_file, validate_path,
}
use celeritas.Util.Files.Created.{PathMade, Keeps, create_dir_recursive-PathMade}

-- The directory in which a file is made.
abbrev pub directory_of : Bytes → Bytes
directory_of path = elim (find_last b'/' path) [
  | none ↦ codes "."
  | some last_slash ↦ parent_of path last_slash
]

module _ (os : FileSystem) where
  -- A new file can be made in `dir`, and nothing was taken away.
  abbrev pub Writable : os.Fs → Bytes → Checked os.Fs → Type 0
  Writable fs dir (fatal e) = Unit
  Writable fs dir (returned later) = (os.access_wx later dir ≡ true) × Keeps os fs later

  -- What `validate_path` promises for its result.
  abbrev pub Usable : os.Fs → Bytes → Checked os.Fs → Type 0
  Usable fs path (fatal e) = Unit
  Usable fs path (returned later) =
      ((os.stat fs path ≡ found regular) × (os.access_rw fs path ≡ true) × (later ≡ fs))
      ⊎ ((os.stat fs path ≡ stat_enoent)
          × (length path < path_max)
          × (os.access_wx later (directory_of path) ≡ true)
          × Keeps os fs later)

  check_access-Writable :
      (error : PathError) (fs later : os.Fs) (dir : Bytes)
      → Keeps os fs later
      → Writable fs dir (check_access os error later dir)
  unfolding check_access
  check_access-Writable error fs later dir k = elim (Bool-cases (os.access_wx later dir)) [
    | inl t ↦ rw (t, check_access) (t, k)
    | inr t ↦ rw (t, check_access) tt
  ]

  after_create :
      (fs : os.Fs) (dir : Bytes) (r : Checked os.Fs)
      → PathMade os fs dir r
      → Writable fs dir (elim r [
        | fatal e ↦ fatal e
        | returned later ↦ check_access os PathError.parent_not_writable later dir
      ])
  after_create fs dir (fatal e) m = tt
  after_create fs dir (returned later) (p, q, k) =
      check_access-Writable PathError.parent_not_writable fs later dir k

  check_parent-Writable : (fs : os.Fs) (dir : Bytes) → Writable fs dir (check_parent os fs dir)
  unfolding check_parent
  check_parent-Writable fs dir = by_stat (os.stat fs dir)
    where
      by_stat :
          (r : StatResult)
          → Writable fs dir (elim r [
            | found kind ↦ elim kind [
              | regular ↦ fatal PathError.parent_not_directory
              | directory ↦ check_access os PathError.parent_not_writable fs dir
              | other_kind ↦ fatal PathError.parent_not_directory
            ]
            | stat_enoent ↦ elim (create_dir_recursive os fs dir) [
              | fatal e ↦ fatal e
              | returned later ↦ check_access os PathError.parent_not_writable later dir
            ]
            | stat_failed ↦ fatal PathError.parent_stat_error
          ])
      by_stat (found regular) = tt
      by_stat (found directory) =
          check_access-Writable PathError.parent_not_writable fs fs dir (λ path x. x)
      by_stat (found other_kind) = tt
      by_stat stat_enoent =
          after_create fs dir (create_dir_recursive os fs dir)
            (create_dir_recursive-PathMade os fs dir)
      by_stat stat_failed = tt

  check_missing-Writable :
      (fs : os.Fs) (path : Bytes)
      → length path < path_max
      → Writable fs (directory_of path) (check_missing os fs path)
  unfolding check_missing
  check_missing-Writable fs path l =
      let short : leb path_max (length path) ≡ false = ground arith in
      elim (Option-cases (find_last b'/' path)) [
        | inl n ↦
            rw (short, check_missing)
              (rw (n, directory_of)
                (check_access-Writable PathError.cwd_not_writable fs fs (codes ".") (λ p x. x)))
        | inr (r, s) ↦
            rw (short, check_missing)
              (rw (s, directory_of) (check_parent-Writable fs (parent_of path r)))
      ]

  as_missing :
      (fs : os.Fs) (path : Bytes) (r : Checked os.Fs)
      → os.stat fs path ≡ stat_enoent
      → length path < path_max
      → Writable fs (directory_of path) r
      → Usable fs path r
  as_missing fs path (fatal e) n l w = tt
  as_missing fs path (returned later) n l (a, k) = inr (n, l, a, k)

  check_missing-Usable :
      (fs : os.Fs) (path : Bytes)
      → os.stat fs path ≡ stat_enoent
      → Usable fs path (check_missing os fs path)
  unfolding check_missing
  check_missing-Usable fs path n = elim (Bool-cases (leb path_max (length path))) [
    | inl t ↦ rw (t, check_missing) tt
    | inr t ↦
        let l : length path < path_max = ground (arith, t) in
        as_missing fs path (check_missing os fs path) n l (check_missing-Writable fs path l)
  ]

  check_file-Usable :
      (fs : os.Fs) (path : Bytes) (kind : FileKind)
      → os.stat fs path ≡ found kind
      → Usable fs path (check_file os kind fs path)
  unfolding check_file
  check_file-Usable fs path regular s = elim (Bool-cases (os.access_rw fs path)) [
    | inl t ↦ rw (t, check_file) (inl (s, t, refl))
    | inr t ↦ rw (t, check_file) tt
  ]
  check_file-Usable fs path directory s = tt
  check_file-Usable fs path other_kind s = tt

  -- When `validate_path` returns, either the path is a regular file that can be read and written, and
  -- nothing was changed; or it does not exist, it fits its buffer, its directory (the current one for
  -- a path without a slash) lets a file be made in it, and nothing that was there is gone. In all
  -- other cases the process ends.
  pub validate_path-Usable : (fs : os.Fs) (path : Bytes) → Usable fs path (validate_path os fs path)
  unfolding validate_path
  validate_path-Usable fs [] = tt
  validate_path-Usable fs (c ∷ s) = by_stat (os.stat fs (c ∷ s)) refl
    where
      by_stat :
          (r : StatResult)
          → os.stat fs (c ∷ s) ≡ r
          → Usable fs (c ∷ s) (elim r [
            | found kind ↦ check_file os kind fs (c ∷ s)
            | stat_enoent ↦ check_missing os fs (c ∷ s)
            | stat_failed ↦ fatal PathError.stat_error
          ])
      by_stat (found kind) e = check_file-Usable fs (c ∷ s) kind e
      by_stat stat_enoent e = check_missing-Usable fs (c ∷ s) e
      by_stat stat_failed e = tt
