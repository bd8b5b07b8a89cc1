-- ===== src/Text.antt =====
-- The functions of <string.h>, <strings.h> and the integer conversions of <stdio.h> that the
-- server calls, over byte lists. A byte is a number; a C string is the bytes before the first NUL.
pub mod Search
pub mod Decimal
use Prim.Native.Char.{code}
use celeritas.Prelude.{
  ℕ, ◌+◌, Bool, true, false, ◌&&◌, ◌||◌, List, [], ◌∷◌, map, String, ◌≡◌, refl, ◌↔◌, arith, leb,
  ◌==◌, if◌then◌else◌, ==_refl, Bytes, Option, none, some,
}

-- A string literal of the source.
unfoldable pub codes : String → Bytes
codes String.[] = []
codes (String.◌∷◌ c s) = code c ∷ codes s

-- What a `char *` reader sees of an array.
unfoldable pub c_str : Bytes → Bytes
c_str [] = []
c_str (c ∷ cs) = if c == 0 then [] else c ∷ c_str cs

-- `strcmp(a, b) == 0`, on the visible bytes.
unfoldable pub equal : Bytes → Bytes → Bool
equal [] [] = true
equal (x ∷ xs) (y ∷ ys) = x == y && equal xs ys
equal _ _ = false

-- `tolower` in the C locale.
unfoldable pub to_lower : ℕ → ℕ
to_lower c = if leb b'A' c && leb c b'Z' then c + 32 else c

-- `strcasecmp(a, b) == 0`.
unfoldable pub equal_nocase : Bytes → Bytes → Bool
unfolding equal to_lower
equal_nocase a b = equal (map to_lower a) (map to_lower b)

-- `strncmp(s, prefix, strlen(prefix)) == 0`.
unfoldable pub starts_with : Bytes → Bytes → Bool
starts_with [] s = true
starts_with (p ∷ ps) [] = false
starts_with (p ∷ ps) (c ∷ cs) = p == c && starts_with ps cs

-- `strstr(hay, needle)`, as the offset of the first occurrence.
unfoldable pub find : Bytes → Bytes → Option ℕ
unfolding starts_with
find needle [] = if starts_with needle [] then some 0 else none
find needle (c ∷ cs) =
    if starts_with needle (c ∷ cs)
    then some 0
    else elim (find needle cs) [ none ↦ none | some i ↦ some (i + 1) ]

-- `strstr(hay, needle) != NULL`.
unfoldable pub contains : Bytes → Bytes → Bool
unfolding starts_with
contains needle [] = starts_with needle []
contains needle (c ∷ cs) = starts_with needle (c ∷ cs) || contains needle cs

-- `strrchr(s, c)`: the rest of the string from the last `c` on.
unfoldable pub find_last : ℕ → Bytes → Option Bytes
find_last c [] = none
find_last c (x ∷ xs) = elim (find_last c xs) [
  | none ↦ if x == c then some (x ∷ xs) else none
  | some r ↦ some r
]

pub equal_iff : (a b : Bytes) → (equal a b ≡ true) ↔ (a ≡ b)
unfolding equal
equal_iff [] [] = ground arith
equal_iff (x ∷ a) (y ∷ b) = ground (arith, equal_iff a b)
equal_iff _ _ = ground arith

pub equal_refl : (a : Bytes) → equal a a ≡ true
equal_refl a = (equal_iff a a).1 refl

pub equal_nocase_refl : (a : Bytes) → equal_nocase a a ≡ true
unfolding equal_nocase
equal_nocase_refl a = equal_refl (map to_lower a)
