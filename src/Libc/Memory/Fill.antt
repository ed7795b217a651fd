-- ===== src/Libc/Memory/Fill.antt =====
-- libc/string.c: memset, by bytes up to an aligned address, by words, and by bytes again.
use new_os.Base.{
  ℕ, zero, suc, ◌+◌, ◌-◌, ◌*◌, ◌/◌, ◌%◌, ◌<◌, ◌≤◌, ◌≡◌, refl, subst, List, [], ◌∷◌, set, get_or,
  length, length-set, min, arith,
}
use new_os.Libc.Memory.{write_bytes, fill, fill_words, memset}
use new_os.Libc.Memory.Copy.{
  Written, nothing-Written, Written-append, Written-map, byte-Written, write_bytes-Written,
}

-- The `n` bytes from `d` on are `v`.
abbrev pub Filled : ℕ → ℕ → ℕ → List ℕ → List ℕ → Type 0
Filled d n v m t = Written d n (λ i. v) m t

Filled-append :
    (d n k v : ℕ) (m t u : List ℕ)
    → Filled d n v m t
    → Filled (d + n) k v t u
    → Filled d (n + k) v m u
Filled-append d n k v m t u a b =
    Written-append d n k (λ i. v) (λ i. v) (λ i. v) m t u a b (λ i l. refl) (λ i l. refl)

fill-Filled : (n d v : ℕ) (m : List ℕ) → d + n ≤ length m → Filled d n v m (fill n d v m)
unfolding fill
fill-Filled zero d v m h = nothing-Written d _ m
fill-Filled (suc n) d v m h =
    subst (λ (k : ℕ). Filled d k v m (fill n (d + 1) v (set m d v))) (omega arith)
      (Filled-append d 1 n v m (set m d v) _ (byte-Written d v m (omega arith))
        (fill-Filled n (d + 1) v (set m d v) (omega (arith, h, length-set m d v))))

eight : (v i : ℕ) → i < 8 → get_or (v ∷ v ∷ v ∷ v ∷ v ∷ v ∷ v ∷ v ∷ []) i 0 ≡ v
eight v zero h = refl
eight v (suc zero) h = refl
eight v (suc (suc zero)) h = refl
eight v (suc (suc (suc zero))) h = refl
eight v (suc (suc (suc (suc zero)))) h = refl
eight v (suc (suc (suc (suc (suc zero))))) h = refl
eight v (suc (suc (suc (suc (suc (suc zero)))))) h = refl
eight v (suc (suc (suc (suc (suc (suc (suc zero))))))) h = refl
eight v (suc (suc (suc (suc (suc (suc (suc (suc i)))))))) h = absurd (omega arith)

fill_words-Filled :
    (k d v : ℕ) (m : List ℕ) → d + 8 * k ≤ length m → Filled d (8 * k) v m (fill_words k d v m)
unfolding fill_words
fill_words-Filled zero d v m h = nothing-Written d _ m
fill_words-Filled (suc k) d v m h =
    let xs = v ∷ v ∷ v ∷ v ∷ v ∷ v ∷ v ∷ v ∷ [] in
    let t = write_bytes d xs m in
    let w : Filled d 8 v m t =
      Written-map d 8 (λ i. get_or xs i 0) (λ i. v) m t (write_bytes-Written xs d m (omega arith))
        (λ i l. eight v i l) in
    subst (λ (n : ℕ). Filled d n v m (fill_words k (d + 8) v t)) (omega arith)
      (Filled-append d 8 (8 * k) v m t _ w
        (fill_words-Filled k (d + 8) v t (omega (arith, h, w.size))))

-- For a target inside the memory, memset sets the n bytes to the low byte of its argument and
-- changes no other byte, at any alignment.
pub memset-Filled :
    (d c n : ℕ) (m : List ℕ) → d + n ≤ length m → Filled d n (c % 256) m (memset d c n m)
unfolding memset
memset-Filled d c n m h =
    let v = c % 256 in
    let lead = min n ((8 - d % 8) % 8) in
    let k = (n - lead) / 8 in
    let r = (n - lead) % 8 in
    let few : lead ≤ n = ground arith in
    let total : lead + 8 * k + r ≡ n = omega (arith, few) in
    let t = fill lead d v m in
    let u = fill_words k (d + lead) v t in
    let a = fill-Filled lead d v m (omega (arith, h, few)) in
    let b = fill_words-Filled k (d + lead) v t (omega (arith, h, few, a.size, total)) in
    let ab = Filled-append d lead (8 * k) v m t u a b in
    let e : d + (lead + 8 * k) ≡ d + lead + 8 * k = omega arith in
    let rest = fill-Filled r (d + lead + 8 * k) v u (omega (arith, h, ab.size, total)) in
    subst (λ (x : ℕ). Filled d x v m (fill r (d + lead + 8 * k) v u)) total
      (Filled-append d (lead + 8 * k) r v m u _ ab
        (subst (λ (x : ℕ). Filled x r v u (fill r (d + lead + 8 * k) v u)) (omega arith) rest))
