-- ===== src/Libc/Strings/Compare.antt =====
-- libc/string.c: comparing, joining and searching strings.
use new_os.Base.{
  ℕ, zero, suc, ◌%◌, ◌<◌, ◌≡◌, ◌≢◌, refl, sym, ap, List, [], ◌∷◌, ◌++◌, none, some, true, ◌==◌,
  if◌then◌else◌, get_or, Bool-cases, inl, inr, ◌⊎◌, ◌↔◌, arith,
}
use new_os.Libc.{tail, is_zero}
use new_os.Libc.Strings.{strcpy, strcat, strcmp, strchr}

-- The string up to its NUL.
abbrev pub text : List ℕ → List ℕ
text [] = []
text (x ∷ xs) = if x == 0 then [] else x ∷ text xs

strcmp_sound : (a b : List ℕ) → is_zero (strcmp a b) ≡ true → text a ≡ text b
unfolding strcmp
strcmp_sound [] [] h = refl
strcmp_sound [] (y ∷ b) h = ground (arith, h)
strcmp_sound (x ∷ a) [] h = ground (arith, h)
strcmp_sound (x ∷ a) (y ∷ b) h = grind (arith, h, strcmp_sound a b)

strcmp_complete : (a b : List ℕ) → text a ≡ text b → is_zero (strcmp a b) ≡ true
unfolding strcmp
strcmp_complete [] [] h = refl
strcmp_complete [] (y ∷ b) h = grind (arith, h)
strcmp_complete (x ∷ a) [] h = grind (arith, h)
strcmp_complete (x ∷ a) (y ∷ b) h = grind (arith, h, strcmp_complete a b)

-- strcmp answers 0 for two strings exactly when they are the same up to their NULs.
pub strcmp_lem : (a b : List ℕ) → (is_zero (strcmp a b) ≡ true) ↔ (text a ≡ text b)
strcmp_lem a b = (strcmp_sound a b, strcmp_complete a b)

text-strcpy : (dest src : List ℕ) → text (strcpy dest src) ≡ text src
unfolding strcpy
text-strcpy dest [] = refl
text-strcpy dest (x ∷ src) = grind (arith, text-strcpy (tail dest) src)

-- strcat leaves the text of its target with the text of its source behind it.
pub text-strcat : (dest src : List ℕ) → text (strcat dest src) ≡ text dest ++ text src
unfolding strcat
text-strcat [] src = text-strcpy [] src
text-strcat (x ∷ dest) src = elim (Bool-cases (x == 0)) [
  | inl e ↦ rw e (text-strcpy (x ∷ dest) src)
  | inr e ↦ rw (e, e) (ap (λ (l : List ℕ). x ∷ l) (text-strcat dest src))
]

-- For a character other than NUL, strchr gives the first place of the text that holds it, or NULL
-- where no place does.
pub strchr_lem :
    (str : List ℕ) (c : ℕ)
    → c < 256
    → c ≢ 0
    → ((strchr str c ≡ none) × ((i : ℕ) → get_or (text str) i 0 ≢ c))
      ⊎ ((i : ℕ) × (strchr str c ≡ some i)
          × (get_or (text str) i 0 ≡ c)
          × ((j : ℕ) → j < i → get_or (text str) j 0 ≢ c))
unfolding strchr
strchr_lem [] c small ne = inl (ground arith, λ i e. ne (sym e))
strchr_lem (x ∷ str) c small ne = elim (Bool-cases (x == 0)) [
  | inl z ↦ rw z (inl (ground arith, λ i e. ne (sym e)))
  | inr z ↦ elim (Bool-cases (x == c % 256)) [
    | inl hit ↦ rw (z, hit) (inr (0, refl, ground arith, λ j l. absurd (omega arith)))
    | inr miss ↦ elim (strchr_lem str c small ne) [
      | inl (e, all) ↦
          rw (z, miss, e)
            (inl (refl, elim [ zero ↦ λ q. ground (arith, q) | suc i ↦ λ q. all i q ]))
      | inr (i, e, at, first) ↦
          rw (z, miss, e)
            (inr (
              suc i,
              refl,
              at,
              elim [ zero ↦ λ l q. ground (arith, q) | suc j ↦ λ l q. first j (omega arith) q ],
            ))
    ]
  ]
]
