-- ===== src/Util/Files/Created.antt =====
-- Which directories `create_dir_recursive` makes.
use celeritas.Prelude.{
  ℕ, zero, suc, ◌≡◌, ◌<◌, inl, inr, refl, sym, subst, some, [], ◌∷◌, ◌++◌, Bytes, length, take,
  get_elem?, leb, ◌==◌, arith, Bool-cases, append-nil, append_assoc,
}
use mathlib.Core.Option.{some-injective}
use celeritas.Types.{path_max}
use celeritas.Util.Files.{
  FileSystem, MkdirResult, made, mkdir_eexist, mkdir_failed, Checked, fatal, returned, PathError,
  make_dir, make_dirs, make_path, create_dir_recursive,
}

module _ (os : FileSystem) where
  -- What a call promises for its result, that `want` is there and all that was there still is.
  abbrev pub Keeps : os.Fs → os.Fs → Type 0
  Keeps fs later = (path : Bytes) → os.Present fs path → os.Present later path

  abbrev Makes : os.Fs → Bytes → Checked os.Fs → Type 0
  Makes fs path (fatal e) = Unit
  Makes fs path (returned later) = os.Present later path × Keeps fs later

  make_dir-Makes : (fs : os.Fs) (path : Bytes) → Makes fs path (make_dir os fs path)
  unfolding make_dir
  make_dir-Makes fs path = by_result (os.mkdir fs path) refl
    where
      by_result :
          (r : MkdirResult os.Fs)
          → os.mkdir fs path ≡ r
          → Makes fs path (elim r [
            | made later ↦ returned later
            | mkdir_eexist ↦ returned fs
            | mkdir_failed ↦ fatal PathError.directory_not_created
          ])
      by_result (made later) e =
          (os.made_present fs path later e, λ other. os.made_keeps fs path other later e)
      by_result mkdir_eexist e = (os.eexist_present fs path e, λ other h. h)
      by_result mkdir_failed e = tt

  -- Every directory on the way is there: the bytes before each slash, and all of them.
  abbrev pub MakesAll : os.Fs → Bytes → Bytes → Checked os.Fs → Type 0
  MakesAll fs before rest (fatal e) = Unit
  MakesAll fs before rest (returned later) =
      os.Present later (before ++ rest)
      × ((j : ℕ) → get_elem? rest j ≡ some b'/' → os.Present later (before ++ take j rest))
      × Keeps fs later

  extend-MakesAll :
      (fs mid : os.Fs) (before : Bytes) (c : ℕ) (rest : Bytes) (r : Checked os.Fs)
      → Keeps fs mid
      → (c ≡ b'/' → os.Present mid before)
      → MakesAll mid (before ++ c ∷ []) rest r
      → MakesAll fs before (c ∷ rest) r
  extend-MakesAll fs mid before c rest (fatal e) k h m = tt
  extend-MakesAll fs mid before c rest (returned later) k h (p, q, l) = (
    subst (os.Present later) (append_assoc before (c ∷ []) rest) p,
    at_slash,
    λ path x. l path (k path x),
  )
    where
      at_slash :
          (j : ℕ)
          → get_elem? (c ∷ rest) j ≡ some b'/'
          → os.Present later (before ++ take j (c ∷ rest))
      at_slash zero e =
          subst (os.Present later) (sym (append-nil before)) (l before (h (some-injective _ _ e)))
      at_slash (suc j) e =
          subst (os.Present later) (append_assoc before (c ∷ []) (take j rest)) (q j e)

  make_dirs-MakesAll :
      (fs : os.Fs) (before rest : Bytes) → MakesAll fs before rest (make_dirs os fs before rest)
  unfolding make_dirs
  make_dirs-MakesAll fs before [] = last (make_dir os fs before) (make_dir-Makes fs before)
    where
      last : (r : Checked os.Fs) → Makes fs before r → MakesAll fs before [] r
      last (fatal e) m = tt
      last (returned later) (p, k) =
          (subst (os.Present later) (sym (append-nil before)) p, λ j e. absurd (ground arith), k)
  make_dirs-MakesAll fs before (c ∷ rest) = elim (Bool-cases (c == b'/')) [
    | inr t ↦ rw t (
        extend-MakesAll fs fs before c rest (make_dirs os fs (before ++ c ∷ []) rest) (λ path x. x)
          (λ e. absurd (ground (arith, t))) (make_dirs-MakesAll fs (before ++ c ∷ []) rest))
    | inl t ↦ rw t (
        go_on (make_dir os fs before) (make_dir-Makes fs before)
          (λ mid. make_dirs-MakesAll mid (before ++ c ∷ []) rest))
  ]
    where
      go_on :
          (r : Checked os.Fs)
          → Makes fs before r
          → ((mid : os.Fs)
              → MakesAll mid (before ++ c ∷ []) rest (make_dirs os mid (before ++ c ∷ []) rest))
          → MakesAll fs before (c ∷ rest) (elim r [
            | fatal e ↦ fatal e
            | returned later ↦ make_dirs os later (before ++ c ∷ []) rest
          ])
      go_on (fatal e) m f = tt
      go_on (returned mid) (p, k) f =
          extend-MakesAll fs mid before c rest (make_dirs os mid (before ++ c ∷ []) rest) k (λ e. p)
            (f mid)

  -- What `create_dir_recursive` promises for its result.
  abbrev pub PathMade : os.Fs → Bytes → Checked os.Fs → Type 0
  PathMade fs path (fatal e) = Unit
  PathMade fs path (returned later) =
      os.Present later path
      × ((i : ℕ) → 0 < i → get_elem? path i ≡ some b'/' → os.Present later (take i path))
      × Keeps fs later

  from_start :
      (fs : os.Fs) (path : Bytes) (r : Checked os.Fs) → MakesAll fs [] path r → PathMade fs path r
  from_start fs path (fatal e) m = tt
  from_start fs path (returned later) (p, q, k) = (p, λ i pos e. q i e, k)

  from_slash :
      (fs : os.Fs) (c : ℕ) (rest : Bytes) (r : Checked os.Fs)
      → MakesAll fs (c ∷ []) rest r
      → PathMade fs (c ∷ rest) r
  from_slash fs c rest (fatal e) m = tt
  from_slash fs c rest (returned later) (p, q, k) = (p, at_slash, k)
    where
      at_slash :
          (i : ℕ)
          → 0 < i
          → get_elem? (c ∷ rest) i ≡ some b'/'
          → os.Present later (take i (c ∷ rest))
      at_slash zero pos e = absurd (omega arith)
      at_slash (suc j) pos e = q j e

  make_path-PathMade : (fs : os.Fs) (path : Bytes) → PathMade fs path (make_path os fs path)
  unfolding make_path
  make_path-PathMade fs [] = from_start fs [] (make_dirs os fs [] []) (make_dirs-MakesAll fs [] [])
  make_path-PathMade fs (c ∷ rest) = elim (Bool-cases (c == b'/')) [
    | inl t ↦
        rw t (
          from_slash fs c rest (make_dirs os fs (c ∷ []) rest)
            (make_dirs-MakesAll fs (c ∷ []) rest))
    | inr t ↦ rw t (
        from_start fs (c ∷ rest) (make_dirs os fs [] (c ∷ rest))
          (make_dirs-MakesAll fs [] (c ∷ rest)))
  ]

  -- When `create_dir_recursive` returns, the whole path is there, and so is what stands before each
  -- of its slashes but a leading one; and nothing that was there is gone.
  pub create_dir_recursive-PathMade :
      (fs : os.Fs) (dir_path : Bytes) → PathMade fs dir_path (create_dir_recursive os fs dir_path)
  unfolding create_dir_recursive
  create_dir_recursive-PathMade fs dir_path = elim (Bool-cases (leb path_max (length dir_path))) [
    | inl t ↦ rw t tt
    | inr t ↦ rw t (make_path-PathMade fs dir_path)
  ]
