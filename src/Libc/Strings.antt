-- ===== src/Libc/Strings.antt =====
-- libc/string.c: the string functions. A string is the list of the bytes from its address on, a pointer
-- into it the number of bytes before it; where the list ends a read gives the terminating NUL.
pub mod Compare
use new_os.Base.{
  ℕ, zero, suc, ◌+◌, ◌-◌, ◌*◌, ◌%◌, List, [], ◌∷◌, Option, none, some, Bool, true, false, not, ◌&&◌,
  ◌||◌, ◌==◌, ltb, leb, if◌then◌else◌, set, get_or, ◌>>=◌,
}
use new_os.Libc.{ℤ, pos, negsuc, sub_ℕ, head, tail, drop, strlen, strncmp, is_zero}

-- while ((*d++ = *src++));
unfoldable pub strcpy : List ℕ → List ℕ → List ℕ
strcpy dest [] = 0 ∷ tail dest
strcpy dest (x ∷ src) = if x == 0 then 0 ∷ tail dest else x ∷ strcpy (tail dest) src

unfoldable pub strcat : List ℕ → List ℕ → List ℕ
strcat [] src = strcpy [] src
strcat (x ∷ dest) src = if x == 0 then strcpy (x ∷ dest) src else x ∷ strcat dest src

-- The copy loop of `strncat`, with the NUL behind it.
unfoldable pub append_bytes : List ℕ → List ℕ → ℕ → List ℕ
append_bytes dest src zero = 0 ∷ tail dest
append_bytes dest [] (suc n) = 0 ∷ tail dest
append_bytes dest (x ∷ src) (suc n) =
    if x == 0 then 0 ∷ tail dest else x ∷ append_bytes (tail dest) src n

unfoldable pub strncat : List ℕ → List ℕ → ℕ → List ℕ
strncat [] src n = append_bytes [] src n
strncat (x ∷ dest) src n = if x == 0 then append_bytes (x ∷ dest) src n else x ∷ strncat dest src n

unfoldable pub strcmp : List ℕ → List ℕ → ℤ
strcmp [] b = sub_ℕ 0 (head b)
strcmp (x ∷ a) b = if not (x == 0) && x == head b then strcmp a (tail b) else sub_ℕ x (head b)

abbrev pub later : Option ℕ → Option ℕ
later none = none
later (some i) = some (suc i)

-- Where a search ends at the NUL.
abbrev pub at_end : ℕ → Option ℕ
at_end c = if c == 0 then some 0 else none

unfoldable pub strchr : List ℕ → ℕ → Option ℕ
strchr [] c = at_end c
strchr (x ∷ str) c =
    if x == 0 then at_end c else if x == c % 256 then some 0 else later (strchr str c)

-- The loop of `strrchr` from offset `i` on, with the last hit so far.
unfoldable pub last_of : ℕ → Option ℕ → List ℕ → ℕ → Option ℕ
last_of i last [] c = if c == 0 then some i else last
last_of i last (x ∷ str) c =
    let rest = last_of (i + 1) (if x == c % 256 then some i else last) str c in
    if x == 0 then (if c == 0 then some i else last) else rest

unfoldable pub strrchr : List ℕ → ℕ → Option ℕ
strrchr str c = last_of 0 none str c

-- The loop of `strstr`.
unfoldable pub occurs_at : List ℕ → List ℕ → Option ℕ
occurs_at [] needle = none
occurs_at (x ∷ haystack) needle =
    if x == 0
    then none
    else if x == head needle && is_zero (strncmp (x ∷ haystack) needle (strlen needle))
    then some 0
    else later (occurs_at haystack needle)

unfoldable pub strstr : List ℕ → List ℕ → Option ℕ
strstr haystack needle = if head needle == 0 then some 0 else occurs_at haystack needle

abbrev pub is_some : Option ℕ → Bool
is_some none = false
is_some (some i) = true

unfoldable pub strspn : List ℕ → List ℕ → ℕ
strspn [] accept = 0
strspn (x ∷ s) accept =
    if not (x == 0) && is_some (strchr accept x) then suc (strspn s accept) else 0

unfoldable pub strcspn : List ℕ → List ℕ → ℕ
strcspn [] reject = 0
strcspn (x ∷ s) reject =
    if not (x == 0) && not (is_some (strchr reject x)) then suc (strcspn s reject) else 0

-- `buffer` is the memory that all pointers point into. The result is the token, `*saveptr` and the
-- buffer with the token ended by a NUL.
abbrev pub Token : Type 0
Token = Option ℕ × Option ℕ × List ℕ

abbrev pub end_token : ℕ → ℕ → List ℕ → Token
end_token start stop buffer =
    if get_or buffer stop 0 == 0
    then (some start, none, buffer)
    else (some start, some (stop + 1), set buffer stop 0)

unfoldable pub next_token : ℕ → List ℕ → List ℕ → Token
next_token p delim buffer =
    let start = p + strspn (drop p buffer) delim in
    if get_or buffer start 0 == 0
    then (none, none, buffer)
    else end_token start (start + strcspn (drop start buffer) delim) buffer

unfoldable pub strtok_r : Option ℕ → List ℕ → Option ℕ → List ℕ → Token
strtok_r (some p) delim saved buffer = next_token p delim buffer
strtok_r none delim none buffer = (none, none, buffer)
strtok_r none delim (some p) buffer = next_token p delim buffer

-- The value of a digit, if the character is one.
unfoldable pub digit_of : ℕ → Option ℕ
digit_of c =
    if leb 48 c && leb c 57
    then some (c - 48)
    else if leb 97 c && leb c 122
    then some (c - 97 + 10)
    else if leb 65 c && leb c 90
    then some (c - 65 + 10)
    else none

-- The loop over the digits: the value, and how many characters it read. A C long that overflows is
-- undefined; here the value goes on.
unfoldable pub digits_from : List ℕ → ℕ → ℕ → ℕ → ℕ × ℕ
digits_from [] base i result = (result, i)
digits_from (c ∷ str) base i result = elim (digit_of c) [
  | none ↦ (result, i)
  | some d ↦
      let rest = digits_from str base (i + 1) (result * base + d) in
      if leb base d then (result, i) else rest
]

unfoldable pub skip_blanks : List ℕ → ℕ
skip_blanks [] = 0
skip_blanks (c ∷ str) = if c == 32 || c == 9 then suc (skip_blanks str) else 0

abbrev pub is_x : ℕ → Bool
is_x c = c == 120 || c == 88

-- The base that counts and the characters of its prefix.
unfoldable pub base_of : List ℕ → ℕ → ℕ × ℕ
base_of str base =
    let zero_first = get_or str 0 0 == 48 in
    let hex = zero_first && is_x (get_or str 1 0) in
    if base == 0
    then (if hex then (16, 2) else if zero_first then (8, 1) else (10, 0))
    else if base == 16 && hex
    then (16, 2)
    else (base, 0)

abbrev pub signed : Bool → ℕ → ℤ
signed neg n = if neg && not (n == 0) then negsuc (n - 1) else pos n

-- The value, and the offset that `*endptr` gets.
unfoldable pub strtol : List ℕ → ℕ → ℤ × ℕ
strtol str base =
    let blanks = skip_blanks str in
    let sign = get_or str blanks 0 in
    let neg = sign == 45 in
    let from = blanks + (if neg || sign == 43 then 1 else 0) in
    let (b, prefix) = base_of (drop from str) base in
    let (value, read) = digits_from (drop (from + prefix) str) b 0 0 in
    (signed neg value, from + prefix + read)

unfoldable pub atol : List ℕ → ℤ
atol str = (strtol str 10).0
