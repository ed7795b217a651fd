-- ===== src/Libc/Names.antt =====
-- libc/string.c: what `strncmp` decides, and a name that `strncpy` has stored in a fixed buffer.
use new_os.Base.{
  ℕ, zero, suc, ◌-◌, ◌<◌, ◌≤◌, ◌≡◌, refl, sym, ap, List, [], ◌∷◌, ◌++◌, true, ◌==◌, if◌then◌else◌,
  if-elim, min, length-replicate, length-append, length-set, length, set, Bool-cases, inl, inr,
  arith,
}
use new_os.Libc.{sub_ℕ, head, drop, strlen, strncpy_bytes, strncpy, strncmp, is_zero}

-- The string that `n` bytes show: up to the first NUL.
abbrev pub cut : ℕ → List ℕ → List ℕ
cut zero xs = []
cut (suc n) [] = []
cut (suc n) (x ∷ xs) = if x == 0 then [] else x ∷ cut n xs

is_zero-sub_ℕ : (a b : ℕ) → is_zero (sub_ℕ a b) ≡ true → a ≡ b
is_zero-sub_ℕ a b h = ground arith

sub_ℕ_self : (a : ℕ) → is_zero (sub_ℕ a a) ≡ true
sub_ℕ_self a = ground arith

cut_head : (n : ℕ) (b : List ℕ) → head b ≡ 0 → cut (suc n) b ≡ []
cut_head n [] h = refl
cut_head n (x ∷ b) h = ground arith

-- strncmp answers 0 only for equal strings,
pub strncmp_sound : (n : ℕ) (a b : List ℕ) → is_zero (strncmp a b n) ≡ true → cut n a ≡ cut n b
unfolding strncmp
strncmp_sound zero a b h = refl
strncmp_sound (suc n) [] b h = sym (cut_head n b (sym (is_zero-sub_ℕ 0 (head b) h)))
strncmp_sound (suc n) (x ∷ a) [] h = ground (arith, h)
strncmp_sound (suc n) (x ∷ a) (y ∷ b) h = grind (arith, h, strncmp_sound n a b)

-- and it does for all of them.
pub strncmp_complete : (n : ℕ) (a b : List ℕ) → cut n a ≡ cut n b → is_zero (strncmp a b n) ≡ true
unfolding strncmp
strncmp_complete zero a b h = refl
strncmp_complete (suc n) [] [] h = refl
strncmp_complete (suc n) [] (y ∷ b) h = grind (arith, h)
strncmp_complete (suc n) (x ∷ a) [] h = grind (arith, h)
strncmp_complete (suc n) (x ∷ a) (y ∷ b) h = grind (arith, h, strncmp_complete n a b)

-- The bytes of a name in a buffer: what strncpy wrote, and a NUL behind it.
abbrev pub stored : ℕ → List ℕ → List ℕ → List ℕ
stored n old name = set (strncpy old name n) n 0

cut-set :
    (n : ℕ) (name rest : List ℕ)
    → 0 < length rest
    → cut (suc n) (set (strncpy_bytes name n ++ rest) n 0) ≡ cut n name
unfolding strncpy_bytes
cut-set zero name [] h = absurd (omega arith)
cut-set zero name (x ∷ rest) h = refl
cut-set (suc n) [] rest h = refl
cut-set (suc n) (x ∷ name) rest h = elim (Bool-cases (x == 0)) [
  | inl e ↦ rw e refl
  | inr e ↦ rw (e, e) (ap (λ (l : List ℕ). x ∷ l) (cut-set n name rest h))
]

length-drop : (n : ℕ) (xs : List ℕ) → length (drop n xs) ≡ length xs - n
length-drop zero xs = omega arith
length-drop (suc n) [] = omega arith
length-drop (suc n) (x ∷ xs) = omega (arith, length-drop n xs)

length-strncpy_bytes : (n : ℕ) (name : List ℕ) → length (strncpy_bytes name n) ≡ n
unfolding strncpy_bytes
length-strncpy_bytes zero name = refl
length-strncpy_bytes (suc n) [] = ap suc (length-replicate n 0)
length-strncpy_bytes (suc n) (x ∷ name) =
    if-elim (λ (l : List ℕ). length l ≡ suc n) (x == 0) (ap suc (length-replicate n 0))
      (ap suc (length-strncpy_bytes n name))

-- A buffer of `n + 1` bytes shows at most `n` bytes of the name, and keeps its size.
pub cut-stored :
    (n : ℕ) (old name : List ℕ) → length old ≡ suc n → cut (suc n) (stored n old name) ≡ cut n name
unfolding strncpy
cut-stored n old name h = cut-set n name (drop n old) (omega (arith, h, length-drop n old))

pub length-stored :
    (n : ℕ) (old name : List ℕ) → length old ≡ suc n → length (stored n old name) ≡ suc n
unfolding strncpy
length-stored n old name h = omega (
  arith,
  h,
  length-drop n old,
  length-strncpy_bytes n name,
  length-append (strncpy_bytes name n) (drop n old),
  length-set (strncpy_bytes name n ++ drop n old) n 0,
)

-- What a buffer shows of a name that fits is the name.
pub cut-suc : (n : ℕ) (xs : List ℕ) → strlen xs ≤ n → cut (suc n) xs ≡ cut n xs
unfolding strlen
cut-suc zero [] h = refl
cut-suc (suc n) [] h = refl
cut-suc zero (x ∷ xs) h = grind (arith, h)
cut-suc (suc n) (x ∷ xs) h = grind (arith, h, cut-suc n xs)

pub length-cut : (n : ℕ) (xs : List ℕ) → length (cut n xs) ≡ min n (strlen xs)
unfolding strlen
length-cut zero xs = omega arith
length-cut (suc n) [] = omega arith
length-cut (suc n) (x ∷ xs) = grind (arith, length-cut n xs)
