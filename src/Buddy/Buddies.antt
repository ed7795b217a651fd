-- ===== src/Buddy/Buddies.antt =====
-- mm/buddy.c: the buddy of a block, _buddy_idx, as the other half of a block twice as large.
use Prim.Native.Nat.{digits, differ, bit_xor-bitwise}
use native.Mathlib.Nat.{pow-suc}
use new_os.Base.{
  ℕ, zero, suc, ◌+◌, ◌*◌, ◌/◌, ◌%◌, ◌^◌, ◌≤◌, ◌≡◌, ◌⊎◌, inl, inr, refl, ap, ap₂, ◌∙◌, bit_xor,
  arith, dec_lt,
}
use new_os.Buddy.{buddy_idx}

-- The digit-by-digit computation of bit_xor does not depend on its bound.
xor_digits-bound :
    (n m a b : ℕ) → a ≤ n → a ≤ m → digits (λ b. b) differ n a b ≡ digits (λ b. b) differ m a b
xor_digits-bound zero zero a b p q = refl
xor_digits-bound zero (suc m) zero b p q = refl
xor_digits-bound zero (suc m) (suc a) b p q = absurd (omega arith)
xor_digits-bound (suc n) zero zero b p q = refl
xor_digits-bound (suc n) zero (suc a) b p q = absurd (omega arith)
xor_digits-bound (suc n) (suc m) zero b p q = refl
xor_digits-bound (suc n) (suc m) (suc a) b p q =
    omega (arith, xor_digits-bound n m (suc a / 2) (b / 2) (omega arith) (omega arith))

zero-bit_xor : (b : ℕ) → bit_xor 0 b ≡ b
zero-bit_xor b = bit_xor-bitwise 0 b

bit_xor_step : (a b : ℕ) → bit_xor a b ≡ bit_xor (a / 2) (b / 2) * 2 + differ (a % 2) (b % 2)
bit_xor_step zero b = omega (arith, zero-bit_xor b, zero-bit_xor (b / 2))
bit_xor_step (suc a) b = omega (
  arith,
  bit_xor-bitwise (suc a) b,
  bit_xor-bitwise (suc a / 2) (b / 2),
  xor_digits-bound a (suc a / 2) (suc a / 2) (b / 2) (omega arith) (omega arith),
)

differ-zero : (x : ℕ) → differ x 0 ≡ x
differ-zero zero = refl
differ-zero (suc x) = refl

bit_xor-zero_bound : (n a : ℕ) → a ≤ n → bit_xor a 0 ≡ a
bit_xor-zero_bound n zero h = refl
bit_xor-zero_bound zero (suc a) h = absurd (omega arith)
bit_xor-zero_bound (suc n) (suc a) h = omega (
  arith,
  bit_xor_step (suc a) 0,
  bit_xor-zero_bound n (suc a / 2) (omega arith),
  differ-zero (suc a % 2),
)

bit_xor-one : (q : ℕ) → bit_xor q 1 ≡ q / 2 * 2 + differ (q % 2) 1
bit_xor-one q = omega (arith, bit_xor_step q 1, bit_xor-zero_bound (q / 2) (q / 2) (omega arith))

mul-pow-suc : (q o : ℕ) → q * 2 ^ suc o ≡ 2 * (q * 2 ^ o)
mul-pow-suc q o = omega (arith, ap (λ (t : ℕ). q * t) (pow-suc 2 o))

buddy_idx-mul : (o q : ℕ) → buddy_idx (q * 2 ^ o) o ≡ bit_xor q 1 * 2 ^ o
buddy_idx-mul zero q =
    let one : q * 2 ^ 0 ≡ q = omega arith in ap (λ (x : ℕ). bit_xor x 1) one ∙ omega arith
buddy_idx-mul (suc o) q =
    let x = q * 2 ^ suc o in
    let twice = mul-pow-suc q o in
    let half : x / 2 ≡ q * 2 ^ o = omega (arith, twice) in
    let half' : 2 ^ suc o / 2 ≡ 2 ^ o = omega (arith, pow-suc 2 o) in
    let even : x % 2 ≡ 0 = omega (arith, twice) in
    let even' : 2 ^ suc o % 2 ≡ 0 = omega (arith, pow-suc 2 o) in
    omega (
      arith,
      bit_xor_step x (2 ^ suc o),
      ap₂ differ even even',
      ap₂ bit_xor half half',
      buddy_idx-mul o q,
      mul-pow-suc (bit_xor q 1) o,
    )

-- A block at a multiple of its size is the lower or the upper half of the block that it makes with
-- its buddy.
pub buddy_idx-half :
    (o q : ℕ)
    → let b = buddy_idx (q * 2 ^ o) o in
      ((q * 2 ^ o ≡ q / 2 * 2 ^ suc o) × (b ≡ q * 2 ^ o + 2 ^ o))
      ⊎ ((b ≡ q / 2 * 2 ^ suc o) × (q * 2 ^ o ≡ b + 2 ^ o))
buddy_idx-half o q = elim (dec_lt (q % 2) 1) [
  | yes l ↦
      let even : q % 2 ≡ 0 = omega (arith, l) in
      let one = ap (λ (x : ℕ). differ x 1) even in
      let half : q ≡ q / 2 * 2 = omega (arith, even) in
      let next : bit_xor q 1 ≡ q + 1 = omega (arith, bit_xor-one q, one, half) in
      inl (
        ap (λ (x : ℕ). x * 2 ^ o) half ∙ omega (arith, mul-pow-suc (q / 2) o),
        buddy_idx-mul o q ∙ ap (λ (x : ℕ). x * 2 ^ o) next ∙ omega arith,
      )
  | no l ↦
      let odd : q % 2 ≡ 1 = omega (arith, l) in
      let none = ap (λ (x : ℕ). differ x 1) odd in
      let half : q ≡ q / 2 * 2 + 1 = omega (arith, odd) in
      let last : bit_xor q 1 ≡ q / 2 * 2 = omega (arith, bit_xor-one q, none) in
      let b = buddy_idx-mul o q ∙ ap (λ (x : ℕ). x * 2 ^ o) last in
      inr (
        omega (arith, b, mul-pow-suc (q / 2) o),
        ap (λ (x : ℕ). x * 2 ^ o) half ∙ omega (arith, b, mul-pow-suc (q / 2) o),
      )
]
