-- ===== src/Base/Bits.antt =====
-- The bit operations on rights and flags, through their digits.
use Prim.Native.Nat.{
  ℕ, zero, suc, ◌+◌, ◌-◌, ◌*◌, ◌/◌, ◌%◌, ◌^◌, ◌≤◌, ◌<◌, min, bit_and, digits, bit_and-bitwise,
}
use mathlib.Core.Path.{◌≡◌, refl, sym, ap, ◌∙◌}
use native.Mathlib.Omega.{arith}
use native.Mathlib.Nat.{pow-suc}

-- The digit-by-digit computation that `bit_and` stands for, with a bound on the number of digits.
abbrev common : ℕ → ℕ → ℕ → ℕ
common bound x y = digits (λ y. zero) min bound x y

-- One digit more than `x` has changes nothing, and so any number of them.
common-suc : (bound x y : ℕ) → x ≤ bound → common (suc bound) x y ≡ common bound x y
common-suc zero zero y low = refl
common-suc zero (suc x) y low = absurd (omega arith)
common-suc (suc bound) zero y low = refl
common-suc (suc bound) (suc x) y low =
    ap (λ (rest : ℕ). rest * 2 + min (suc x % 2) (y % 2))
      (common-suc bound (suc x / 2) (y / 2) (omega arith))

common_more : (k bound x y : ℕ) → x ≤ bound → common (k + bound) x y ≡ common bound x y
common_more zero bound x y low =
    let none_more : 0 + bound ≡ bound = omega arith in ap (λ (n : ℕ). common n x y) none_more
common_more (suc k) bound x y low =
    let one_more : suc k + bound ≡ suc (k + bound) = omega arith in
    ap (λ (n : ℕ). common n x y) one_more
    ∙ common-suc (k + bound) x y (omega arith)
    ∙ common_more k bound x y low

bit_and-common : (bound x y : ℕ) → x ≤ bound → bit_and x y ≡ common bound x y
bit_and-common bound x y low =
    let all_digits : bound - x + x ≡ bound = omega arith in
    bit_and-bitwise x y
    ∙ sym (common_more (bound - x) x x y (omega arith))
    ∙ ap (λ (n : ℕ). common n x y) all_digits

pub bit_and_step : (x y : ℕ) → bit_and x y ≡ bit_and (x / 2) (y / 2) * 2 + min (x % 2) (y % 2)
bit_and_step zero y =
    omega (arith, bit_and-common 0 0 y (omega arith), bit_and-common 0 0 (y / 2) (omega arith))
bit_and_step (suc x) y =
    bit_and-bitwise (suc x) y
    ∙ ap (λ (rest : ℕ). rest * 2 + min (suc x % 2) (y % 2))
        (sym (bit_and-common x (suc x / 2) (y / 2) (omega arith)))

-- ~p on an unsigned word of w bits.
abbrev pub bit_not : ℕ → ℕ → ℕ
bit_not w p = 2 ^ w - 1 - p

bit_not_half : (w p : ℕ) → p < 2 ^ suc w → bit_not (suc w) p / 2 ≡ bit_not w (p / 2)
bit_not_half w p h = omega (arith, pow-suc 2 w)

-- Rights with nothing outside of `p` grant nothing that `p` does not grant.
pub bit_and_mono :
    (w a p q : ℕ)
    → a < 2 ^ w
    → p < 2 ^ w
    → bit_and a (bit_not w p) ≡ 0
    → bit_and a q ≡ q
    → bit_and p q ≡ q
bit_and_mono zero a p q ha hp h e = let p0 : p ≡ a = omega arith in rw p0 e
bit_and_mono (suc w) a p q ha hp h e = ground (
  arith,
  pow-suc 2 w,
  bit_not_half w p hp,
  bit_and_step a (bit_not (suc w) p),
  bit_and_step a q,
  bit_and_step p q,
  bit_and_mono w (a / 2) (p / 2) (q / 2),
)
