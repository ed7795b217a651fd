-- ===== src/Libc/Memory.antt =====
-- libc/string.c: memset, memcpy, memmove and memcmp on a memory, which is the list of its bytes. The
-- loops on 64-bit words read and write eight bytes at a time.
pub mod Copy
pub mod Fill
use new_os.Base.{
  ℕ, zero, suc, ◌+◌, ◌-◌, ◌*◌, ◌/◌, ◌%◌, List, [], ◌∷◌, Bool, true, false, not, ◌&&◌, ◌||◌, ◌==◌,
  ltb, leb, if◌then◌else◌, set, get_or, min,
}
use new_os.Libc.{ℤ, pos, sub_ℕ}

abbrev pub read : List ℕ → ℕ → ℕ
read m a = get_or m a 0

-- The `n` bytes from `a` on, and writing bytes from `a` on.
abbrev pub read_bytes : ℕ → ℕ → List ℕ → List ℕ
read_bytes zero a m = []
read_bytes (suc n) a m = read m a ∷ read_bytes n (a + 1) m

abbrev pub write_bytes : ℕ → List ℕ → List ℕ → List ℕ
write_bytes a [] m = m
write_bytes a (x ∷ xs) m = write_bytes (a + 1) xs (set m a x)

-- while (n > 0) *d++ = v;
unfoldable pub fill : ℕ → ℕ → ℕ → List ℕ → List ℕ
fill zero d v m = m
fill (suc n) d v m = fill n (d + 1) v (set m d v)

-- The loop over `k` words, all of whose bytes are `v`.
unfoldable pub fill_words : ℕ → ℕ → ℕ → List ℕ → List ℕ
fill_words zero d v m = m
fill_words (suc k) d v m =
    fill_words k (d + 8) v (write_bytes d (v ∷ v ∷ v ∷ v ∷ v ∷ v ∷ v ∷ v ∷ []) m)

unfoldable pub memset : ℕ → ℕ → ℕ → List ℕ → List ℕ
memset d c n m =
    let v = c % 256 in
    let lead = min n ((8 - d % 8) % 8) in
    let words = (n - lead) / 8 in
    fill ((n - lead) % 8) (d + lead + 8 * words) v (fill_words words (d + lead) v (fill lead d v m))

-- while (n > 0) *d++ = *s++;
unfoldable pub copy_bytes : ℕ → ℕ → ℕ → List ℕ → List ℕ
copy_bytes zero d s m = m
copy_bytes (suc n) d s m = copy_bytes n (d + 1) (s + 1) (set m d (read m s))

unfoldable pub copy_words : ℕ → ℕ → ℕ → List ℕ → List ℕ
copy_words zero d s m = m
copy_words (suc k) d s m = copy_words k (d + 8) (s + 8) (write_bytes d (read_bytes 8 s m) m)

unfoldable pub memcpy : ℕ → ℕ → ℕ → List ℕ → List ℕ
memcpy d s n m =
    if d % 8 == 0 && s % 8 == 0
    then copy_bytes (n % 8) (d + 8 * (n / 8)) (s + 8 * (n / 8)) (copy_words (n / 8) d s m)
    else copy_bytes n d s m

-- while (n > 0) *--d = *--s;
unfoldable pub copy_down : ℕ → ℕ → ℕ → List ℕ → List ℕ
copy_down zero d s m = m
copy_down (suc n) d s m = copy_down n d s (set m (d + n) (read m (s + n)))

unfoldable pub memmove : ℕ → ℕ → ℕ → List ℕ → List ℕ
memmove d s n m =
    if d == s || n == 0
    then m
    else if ltb d s || leb (s + n) d
    then memcpy d s n m
    else copy_down n d s m

unfoldable pub memcmp : ℕ → ℕ → ℕ → List ℕ → ℤ
memcmp a b zero m = pos 0
memcmp a b (suc n) m =
    let rest = memcmp (a + 1) (b + 1) n m in
    if read m a == read m b then rest else sub_ℕ (read m a) (read m b)
