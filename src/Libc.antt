-- ===== src/Libc.antt =====
-- libc/string.c: the string functions that the kernel's name tables use. A string is the list of the
-- bytes from its address on; where the list ends a read gives the terminating NUL.
pub mod Names
pub mod Memory
pub mod Strings
mod Tests
use new_os.Base.{
  ℕ, zero, suc, ◌-◌, List, [], ◌∷◌, ◌++◌, ◌&&◌, not, leb, ◌==◌, if◌then◌else◌, replicate, Bool,
  false,
}

-- `negsuc n` is -(n + 1): what `int` comparisons return.
pub data ℤ : Type 0 where
  pos : ℕ → ℤ
  negsuc : ℕ → ℤ

-- (unsigned char)a - (unsigned char)b
abbrev pub sub_ℕ : ℕ → ℕ → ℤ
sub_ℕ a b = if leb b a then pos (a - b) else negsuc (b - a - 1)

abbrev pub head : List ℕ → ℕ
head [] = 0
head (x ∷ xs) = x

abbrev pub tail : List ℕ → List ℕ
tail [] = []
tail (x ∷ xs) = xs

abbrev pub drop : ℕ → List ℕ → List ℕ
drop zero xs = xs
drop (suc n) [] = []
drop (suc n) (x ∷ xs) = drop n xs

unfoldable pub strlen : List ℕ → ℕ
strlen [] = 0
strlen (x ∷ xs) = if x == 0 then 0 else suc (strlen xs)

-- The bytes that `strncpy` writes: the string up to its NUL or `n`, then NULs up to `n`.
unfoldable pub strncpy_bytes : List ℕ → ℕ → List ℕ
strncpy_bytes src zero = []
strncpy_bytes [] (suc n) = 0 ∷ replicate n 0
strncpy_bytes (x ∷ src) (suc n) = if x == 0 then 0 ∷ replicate n 0 else x ∷ strncpy_bytes src n

unfoldable pub strncpy : List ℕ → List ℕ → ℕ → List ℕ
unfolding strncpy_bytes
strncpy dest src n = strncpy_bytes src n ++ drop n dest

unfoldable pub strncmp : List ℕ → List ℕ → ℕ → ℤ
strncmp a b zero = pos 0
strncmp [] b (suc n) = sub_ℕ 0 (head b)
strncmp (x ∷ a) b (suc n) =
    if not (x == 0) && x == head b then strncmp a (tail b) n else sub_ℕ x (head b)

abbrev pub is_zero : ℤ → Bool
is_zero (pos n) = n == 0
is_zero (negsuc n) = false
