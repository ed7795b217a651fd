-- ===== src/Libc/Memory/Copy.antt =====
-- libc/string.c: copying memory by bytes, by words and backwards.
use new_os.Base.{
  ℕ, zero, suc, ◌+◌, ◌-◌, ◌*◌, ◌/◌, ◌%◌, ◌<◌, ◌≤◌, ◌≡◌, ◌∙◌, refl, sym, ap, subst, List, [], ◌∷◌,
  true, ◌&&◌, ◌||◌, ◌==◌, ltb, leb, if-elim, set, get_or, get_or-set_self, get_or-set_ne, length,
  length-set, Bool-cases, inl, inr, ◌⊎◌, arith, ℕ_discrete, dec_lt,
}
use new_os.Libc.Memory.{
  read, read_bytes, write_bytes, copy_bytes, copy_words, memcpy, copy_down, memmove,
}

-- `t` is `m` with the bytes `f 0`, ..., `f (n - 1)` from `d` on.
pub record Written (d n : ℕ) (f : ℕ → ℕ) (m t : List ℕ) : Type 0 where
  pub size : length t ≡ length m
  pub inside : (i : ℕ) → i < n → read t (d + i) ≡ f i
  pub outside : (a : ℕ) → (a < d) ⊎ (d + n ≤ a) → read t a ≡ read m a

pub nothing-Written : (d : ℕ) (f : ℕ → ℕ) (m : List ℕ) → Written d 0 f m m
nothing-Written d f m = record {
  size = refl;
  inside = λ i h. absurd (omega arith);
  outside = λ a o. refl;
}

-- One write after the other.
pub Written-append :
    (d n k : ℕ) (f g h : ℕ → ℕ) (m t u : List ℕ)
    → Written d n f m t
    → Written (d + n) k g t u
    → ((i : ℕ) → i < n → f i ≡ h i)
    → ((i : ℕ) → i < k → g i ≡ h (n + i))
    → Written d (n + k) h m u
Written-append d n k f g h m t u a b low high = record {
  size = b.size ∙ a.size;
  inside = λ i l. elim (dec_lt i n) [
    | yes j ↦ b.outside (d + i) (inl (omega arith)) ∙ a.inside i j ∙ low i j
    | no j ↦
        let e : d + i ≡ d + n + (i - n) = omega arith in
        let e' : n + (i - n) ≡ i = omega arith in
        ap (read u) e ∙ b.inside (i - n) (omega arith) ∙ high (i - n) (omega arith) ∙ ap h e'
  ];
  outside = λ x o. b.outside x (ground (arith, o)) ∙ a.outside x (ground (arith, o));
}

pub byte-Written : (d v : ℕ) (m : List ℕ) → d < length m → Written d 1 (λ i. v) m (set m d v)
byte-Written d v m h = record {
  size = length-set m d v;
  inside =
      λ i l. let e : d + i ≡ d = omega arith in ap (read (set m d v)) e ∙ get_or-set_self m d v 0 h;
  outside = λ a o. get_or-set_ne m d a v 0 (λ e. ground (arith, o, e));
}

pub write_bytes-Written :
    (xs : List ℕ) (d : ℕ) (m : List ℕ)
    → d + length xs ≤ length m
    → Written d (length xs) (λ i. get_or xs i 0) m (write_bytes d xs m)
write_bytes-Written [] d m h = nothing-Written d _ m
write_bytes-Written (x ∷ xs) d m h =
    let l = length-set m d x in
    subst (λ (k : ℕ). Written d k (λ i. get_or (x ∷ xs) i 0) m (write_bytes (d + 1) xs (set m d x)))
      (omega arith)
      (Written-append d 1 (length xs) (λ i. x) (λ i. get_or xs i 0) (λ i. get_or (x ∷ xs) i 0) m
        (set m d x) _ (byte-Written d x m (omega (arith, h)))
        (write_bytes-Written xs (d + 1) (set m d x) (omega (arith, h, l)))
        (elim [ zero ↦ λ i. refl | suc j ↦ λ i. absurd (omega arith) ])
        (λ i j. let e : 1 + i ≡ suc i = omega arith in ap (λ (k : ℕ). get_or (x ∷ xs) k 0) (sym e)))

pub Written-map :
    (d n : ℕ) (f g : ℕ → ℕ) (m t : List ℕ)
    → Written d n f m t
    → ((i : ℕ) → i < n → f i ≡ g i)
    → Written d n g m t
Written-map d n f g m t w e = record {
  size = w.size;
  inside = λ i l. w.inside i l ∙ e i l;
  outside = w.outside;
}

-- `t` is `m` with the `n` bytes from `d` on as the ones from `s` on were in `m`.
abbrev pub Copied : ℕ → ℕ → ℕ → List ℕ → List ℕ → Type 0
Copied d s n m t = Written d n (λ i. read m (s + i)) m t

-- A forward copy may go on where it does not read what it has written.
Copied-append :
    (d s n k : ℕ) (m t u : List ℕ)
    → Copied d s n m t
    → Copied (d + n) (s + n) k t u
    → (d ≤ s) ⊎ (s + (n + k) ≤ d)
    → Copied d s (n + k) m u
Copied-append d s n k m t u a b clear =
    Written-append d n k (λ i. read m (s + i)) (λ i. read t (s + n + i)) (λ i. read m (s + i)) m t u
      a b (λ i l. refl)
      (λ i l.
        let e : s + n + i ≡ s + (n + i) = omega arith in
        a.outside (s + n + i) (ground (arith, clear)) ∙ ap (read m) e)

byte-Copied : (d s : ℕ) (m : List ℕ) → d < length m → Copied d s 1 m (set m d (read m s))
byte-Copied d s m h =
    Written-map d 1 (λ i. read m s) (λ i. read m (s + i)) m _ (byte-Written d (read m s) m h)
      (λ i l. let e : s ≡ s + i = omega arith in ap (read m) e)

get_or-read_bytes :
    (n s i : ℕ) (m : List ℕ) → i < n → get_or (read_bytes n s m) i 0 ≡ read m (s + i)
get_or-read_bytes zero s i m h = absurd (omega arith)
get_or-read_bytes (suc n) s zero m h = let e : s ≡ s + 0 = omega arith in ap (read m) e
get_or-read_bytes (suc n) s (suc i) m h =
    let e : s + 1 + i ≡ s + suc i = omega arith in
    get_or-read_bytes n (s + 1) i m (omega arith) ∙ ap (read m) e

word-Copied :
    (d s : ℕ) (m : List ℕ) → d + 8 ≤ length m → Copied d s 8 m (write_bytes d (read_bytes 8 s m) m)
word-Copied d s m h =
    Written-map d 8 (λ i. get_or (read_bytes 8 s m) i 0) (λ i. read m (s + i)) m _
      (write_bytes-Written (read_bytes 8 s m) d m h) (λ i l. get_or-read_bytes 8 s i m l)

copy_bytes-Copied :
    (n d s : ℕ) (m : List ℕ)
    → d + n ≤ length m
    → (d ≤ s) ⊎ (s + n ≤ d)
    → Copied d s n m (copy_bytes n d s m)
unfolding copy_bytes
copy_bytes-Copied zero d s m h clear = nothing-Written d _ m
copy_bytes-Copied (suc n) d s m h clear =
    let t = set m d (read m s) in
    subst (λ (k : ℕ). Copied d s k m (copy_bytes n (d + 1) (s + 1) t)) (omega arith)
      (Copied-append d s 1 n m t _ (byte-Copied d s m (omega arith))
        (copy_bytes-Copied n (d + 1) (s + 1) t (omega (arith, h, length-set m d (read m s)))
          (ground (arith, clear)))
        (ground (arith, clear)))

copy_words-Copied :
    (k d s : ℕ) (m : List ℕ)
    → d + 8 * k ≤ length m
    → (d ≤ s) ⊎ (s + 8 * k ≤ d)
    → Copied d s (8 * k) m (copy_words k d s m)
unfolding copy_words
copy_words-Copied zero d s m h clear = nothing-Written d _ m
copy_words-Copied (suc k) d s m h clear =
    let t = write_bytes d (read_bytes 8 s m) m in
    let w = word-Copied d s m (omega arith) in
    subst (λ (n : ℕ). Copied d s n m (copy_words k (d + 8) (s + 8) t)) (omega arith)
      (Copied-append d s 8 (8 * k) m t _ w
        (copy_words-Copied k (d + 8) (s + 8) t (omega (arith, h, w.size)) (ground (arith, clear)))
        (ground (arith, clear)))

memcpy-Copied :
    (d s n : ℕ) (m : List ℕ)
    → d + n ≤ length m
    → (d ≤ s) ⊎ (s + n ≤ d)
    → Copied d s n m (memcpy d s n m)
unfolding memcpy
memcpy-Copied d s n m h clear =
    let k = n / 8 in
    let w = copy_words-Copied k d s m (omega arith) (ground (arith, clear)) in
    let e : 8 * k + n % 8 ≡ n = omega arith in
    if-elim (Copied d s n m) (d % 8 == 0 && s % 8 == 0)
      (subst
        (λ (x : ℕ).
          Copied d s x m (copy_bytes (n % 8) (d + 8 * k) (s + 8 * k) (copy_words k d s m)))
        e
        (Copied-append d s (8 * k) (n % 8) m (copy_words k d s m) _ w
          (copy_bytes-Copied (n % 8) (d + 8 * k) (s + 8 * k) (copy_words k d s m)
            (omega (arith, h, w.size)) (ground (arith, clear)))
          (ground (arith, clear))))
      (copy_bytes-Copied n d s m h clear)

copy_down-Copied :
    (n d s : ℕ) (m : List ℕ) → d + n ≤ length m → s ≤ d → Copied d s n m (copy_down n d s m)
unfolding copy_down
copy_down-Copied zero d s m h le = nothing-Written d _ m
copy_down-Copied (suc n) d s m h le =
    let v = read m (s + n) in
    let t = set m (d + n) v in
    let r = copy_down-Copied n d s t (omega (arith, h, length-set m (d + n) v)) le in
    record {
      size = r.size ∙ length-set m (d + n) v;
      inside = λ i l. elim (ℕ_discrete i n) [
        | yes e ↦
            let last : d + i ≡ d + n = omega arith in
            r.outside (d + i) (inr (omega arith))
            ∙ ap (read t) last
            ∙ get_or-set_self m (d + n) v 0 (omega arith)
            ∙ ap (λ (j : ℕ). read m (s + j)) (sym e)
        | no ne ↦ r.inside i (omega arith) ∙ get_or-set_ne m (d + n) (s + i) v 0 (λ e. omega arith)
      ];
      outside = λ a o.
          r.outside a (ground (arith, o))
          ∙ get_or-set_ne m (d + n) a v 0 (λ e. ground (arith, o, e));
    }

-- For a target inside the memory, memmove copies the n bytes as they were before the call, and
-- changes no other byte, whatever the alignment of the two regions and however they overlap.
pub memmove-Copied : (d s n : ℕ) (m : List ℕ) → d + n ≤ length m → Copied d s n m (memmove d s n m)
unfolding memmove
memmove-Copied d s n m h = elim (Bool-cases (d == s || n == 0)) [
  | inl same ↦ rw same (record {
    size = refl;
    inside = λ i l. let e : d + i ≡ s + i = ground (arith, same) in ap (read m) e;
    outside = λ a o. refl;
  })
  | inr differ ↦ elim (Bool-cases (ltb d s || leb (s + n) d)) [
    | inl forward ↦ rw (differ, forward) (memcpy-Copied d s n m h (forward_clear forward))
    | inr back ↦ rw (differ, back) (copy_down-Copied n d s m h (ground arith))
  ]
]
  where
    forward_clear : (ltb d s || leb (s + n) d) ≡ true → (d ≤ s) ⊎ (s + n ≤ d)
    forward_clear e = elim (dec_lt d s) [ yes l ↦ inl (omega arith) | no l ↦ inr (ground arith) ]
