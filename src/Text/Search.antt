-- ===== src/Text/Search.antt =====
-- What the substring tests mean, and how a two-byte needle meets concatenation and truncation.
use celeritas.Prelude.{
  ℕ, zero, suc, ◌≡◌, ◌≢◌, refl, true, false, ◌||◌, [], ◌∷◌, ◌++◌, arith, Bytes, take, some, inl,
  inr, Bool-cases, Option-cases, length, drop,
}
use celeritas.Text.{contains, starts_with, find}

pub starts_with-append : (p s : Bytes) → starts_with p (p ++ s) ≡ true
unfolding starts_with
starts_with-append [] s = refl
starts_with-append (c ∷ p) s = ground (arith, starts_with-append p s)

pub starts_with_split : (p s : Bytes) → starts_with p s ≡ true → s ≡ p ++ drop (length p) s
unfolding starts_with
starts_with_split [] s h = refl
starts_with_split (c ∷ p) [] h = ground arith
starts_with_split (c ∷ p) (d ∷ s) h = ground (arith, starts_with_split p s)

-- `strstr` finds the needle wherever it was put.
pub contains-middle : (needle a b : Bytes) → contains needle (a ++ (needle ++ b)) ≡ true
unfolding contains
contains-middle [] [] [] = refl
contains-middle [] [] (c ∷ b) = refl
contains-middle (n ∷ ns) [] b = ground (arith, starts_with-append (n ∷ ns) b)
contains-middle needle (c ∷ a) b = ground (arith, contains-middle needle a b)

module _ (x y c : ℕ) (hx : x ≢ c) (hy : y ≢ c) where
  -- A byte that is not in the needle splits the search.
  pub contains_pair-append :
      (a b : Bytes)
      → contains (x ∷ y ∷ []) (a ++ c ∷ b) ≡ (contains (x ∷ y ∷ []) a || contains (x ∷ y ∷ []) b)
  unfolding contains starts_with
  contains_pair-append [] b = ground arith
  contains_pair-append (z ∷ []) b = ground (arith, contains_pair-append [] b)
  contains_pair-append (z ∷ w ∷ r) b = ground (arith, contains_pair-append (w ∷ r) b)

pub contains_pair-take :
    (x y n : ℕ) (s : Bytes)
    → contains (x ∷ y ∷ []) s ≡ false
    → contains (x ∷ y ∷ []) (take n s) ≡ false
unfolding contains starts_with
contains_pair-take x y zero s h = refl
contains_pair-take x y (suc n) [] h = refl
contains_pair-take x y (suc zero) (c ∷ s) h = ground arith
contains_pair-take x y (suc (suc n)) (c ∷ []) h = ground arith
contains_pair-take x y (suc (suc n)) (c ∷ d ∷ s) h =
    ground (arith, contains_pair-take x y (suc n) (d ∷ s))

-- The offset of `strstr` splits the string there.
pub find_split :
    (needle s : Bytes) (i : ℕ)
    → find needle s ≡ some i
    → (before after : Bytes) × (s ≡ before ++ (needle ++ after)) × (length before ≡ i)
unfolding find
find_split [] [] i h = ([], [], ground arith, ground arith)
find_split (n ∷ needle) [] i h = absurd (unfold starts_with in ground arith)
find_split needle (c ∷ cs) i h = elim (Bool-cases (starts_with needle (c ∷ cs))) [
  | inl t ↦ ([], drop (length needle) (c ∷ cs), starts_with_split needle (c ∷ cs) t, ground arith)
  | inr f ↦ elim (Option-cases (find needle cs)) [
    | inl e ↦ absurd (ground arith)
    | inr (j, e) ↦
        let (before, after, split, at) = find_split needle cs j e in
        (c ∷ before, after, ground arith, ground arith)
  ]
]
