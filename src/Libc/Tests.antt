-- ===== src/Libc/Tests.antt =====
-- libc/string.c: overlapping copies, a filled region and a few strings.
use new_os.Base.{
  ℕ, ◌<◌, ◌≡◌, ◌≢◌, ◌↔◌, ◌⊎◌, ◌++◌, refl, arith, List, [], ◌∷◌, none, some, true, get_or,
}
use new_os.Libc.{negsuc, is_zero, strlen, strncmp}
use new_os.Libc.Memory.{memset, memmove, copy_down}
use new_os.Libc.Memory.Copy.{Copied, memmove-Copied}
use new_os.Libc.Memory.Fill.{Filled, memset-Filled}
use new_os.Libc.Strings.{
  strcat, strcmp, strchr, strrchr, last_of, strstr, occurs_at, strspn, strcspn, strtok_r,
  next_token, strtol, skip_blanks, base_of, digits_from, digit_of,
}
use new_os.Libc.Strings.Compare.{text, strcmp_lem, text-strcat, strchr_lem}

abbrev bytes : List ℕ
bytes = 1 ∷ 2 ∷ 3 ∷ 4 ∷ 5 ∷ 6 ∷ 7 ∷ 8 ∷ 9 ∷ 10 ∷ 11 ∷ 12 ∷ []

memmove-Copied_example : Copied 2 0 9 bytes (memmove 2 0 9 bytes)
memmove-Copied_example = memmove-Copied 2 0 9 bytes (omega arith)

moved : memmove 2 0 9 bytes ≡ 1 ∷ 2 ∷ 1 ∷ 2 ∷ 3 ∷ 4 ∷ 5 ∷ 6 ∷ 7 ∷ 8 ∷ 9 ∷ 12 ∷ []
unfolding memmove copy_down
moved = refl

memset_run : Filled 3 7 9 bytes (memset 3 265 7 bytes)
memset_run = memset-Filled 3 265 7 bytes (omega arith)

-- "a", and "ab" behind a NUL.
abbrev a_text : List ℕ
a_text = 97 ∷ 0 ∷ 97 ∷ 98 ∷ []

abbrev ab_text : List ℕ
ab_text = 97 ∷ 98 ∷ 0 ∷ []

strcmp_lem_case : (is_zero (strcmp a_text ab_text) ≡ true) ↔ (text a_text ≡ text ab_text)
strcmp_lem_case = strcmp_lem a_text ab_text

strcat_run : text (strcat a_text ab_text) ≡ text a_text ++ text ab_text
strcat_run = text-strcat a_text ab_text

strchr_run :
    ((strchr ab_text 98 ≡ none) × ((i : ℕ) → get_or (text ab_text) i 0 ≢ 98))
    ⊎ ((i : ℕ) × (strchr ab_text 98 ≡ some i)
        × (get_or (text ab_text) i 0 ≡ 98)
        × ((j : ℕ) → j < i → get_or (text ab_text) j 0 ≢ 98))
strchr_run = strchr_lem ab_text 98 (omega arith) (omega arith)

searches : (strstr ab_text (98 ∷ []) ≡ some 1) × (strrchr (97 ∷ 97 ∷ 98 ∷ []) 97 ≡ some 1)
unfolding strstr occurs_at strncmp strlen strrchr last_of
searches = (refl, refl)

-- " -0x1f;" in base 0
number : strtol (32 ∷ 45 ∷ 48 ∷ 120 ∷ 49 ∷ 102 ∷ 59 ∷ []) 0 ≡ (negsuc 30, 6)
unfolding strtol skip_blanks base_of digits_from digit_of
number = refl

-- The second token of "/a/b" ends the string.
tokens :
    (strtok_r (some 0) (47 ∷ []) none (47 ∷ 97 ∷ 47 ∷ 98 ∷ 0 ∷ [])
      ≡ (some 1, some 3, 47 ∷ 97 ∷ 0 ∷ 98 ∷ 0 ∷ []))
    × (strtok_r none (47 ∷ []) (some 3) (47 ∷ 97 ∷ 0 ∷ 98 ∷ 0 ∷ [])
        ≡ (some 3, none, 47 ∷ 97 ∷ 0 ∷ 98 ∷ 0 ∷ []))
unfolding strtok_r next_token strspn strcspn strchr
tokens = (refl, refl)
