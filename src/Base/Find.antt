-- ===== src/Base/Find.antt =====
-- The linear scans over the kernel's tables: the first slot that passes a test, and how many do.
use Prim.Native.Nat.{ℕ, zero, suc, ◌+◌, ◌≤◌, ◌<◌}
use mathlib.Core.Path.{◌≡◌, refl}
use mathlib.Core.Logic.{inl, inr}
use mathlib.Core.Bool.{Bool, true, false}
use mathlib.Core.Option
use mathlib.Core.Option.{Option, none, some}
use mathlib.Core.List.{List, [], ◌∷◌}
use native.Mathlib.Omega.{arith}
use new_os.Base.Tests.{if◌then◌else◌, Bool-cases}
use new_os.Base.Lists.{length, get_or, set}

module _ {ℓ} {A : Type ℓ} where
  -- for (i = 0; i < N; i++) if (p(&t[i])) return &t[i]; return NULL;
  unfoldable pub find_index : (A → Bool) → List A → Option ℕ
  find_index p [] = none
  find_index p (x ∷ xs) = if p x then some 0 else Option.map suc (find_index p xs)

  unfoldable pub count : (A → Bool) → List A → ℕ
  count p [] = 0
  count p (x ∷ xs) = if p x then suc (count p xs) else count p xs

  -- What a successful scan says: the slot is in range, passes, and no earlier one does.
  pub record Found (p : A → Bool) (xs : List A) (d : A) (i : ℕ) : Type 0 where
    pub in_range : i < length xs
    pub passes : p (get_or xs i d) ≡ true
    pub first : (j : ℕ) → j < i → p (get_or xs j d) ≡ false

  pub find_index-Found :
      (p : A → Bool) (xs : List A) (d : A) (i : ℕ) → find_index p xs ≡ some i → Found p xs d i
  unfolding find_index
  find_index-Found p [] d i h = absurd (ground arith)
  find_index-Found p (x ∷ xs) d zero h = elim (Bool-cases (p x)) [
    | inl e ↦ record { in_range = omega arith; passes = e; first = λ j l. absurd (omega arith) }
    | inr e ↦ absurd (ground arith)
  ]
  find_index-Found p (x ∷ xs) d (suc i) h = elim (Bool-cases (p x)) [
    | inl e ↦ absurd (ground arith)
    | inr e ↦
        let r = find_index-Found p xs d i (ground arith) in
        record {
          in_range = omega (arith, r.in_range);
          passes = r.passes;
          first = elim [ zero ↦ λ l. e | suc j ↦ λ l. r.first j (omega arith) ];
        }
  ]

  -- What a scan that finds nothing says, of every slot and of the reads out of range.
  pub find_index-none :
      (p : A → Bool) (xs : List A) (d : A) (i : ℕ)
      → find_index p xs ≡ none
      → p d ≡ false
      → p (get_or xs i d) ≡ false
  unfolding find_index
  find_index-none p [] d i h e = e
  find_index-none p (x ∷ xs) d zero h e = ground arith
  find_index-none p (x ∷ xs) d (suc i) h e = find_index-none p xs d i (ground arith) e

  pub count-set :
      (p : A → Bool) (xs : List A) (i : ℕ) (v d : A)
      → i < length xs
      → count p (set xs i v) + (if p (get_or xs i d) then 1 else 0)
        ≡ count p xs + (if p v then 1 else 0)
  unfolding count
  count-set p [] i v d h = absurd (omega arith)
  count-set p (x ∷ xs) zero v d h = ground arith
  count-set p (x ∷ xs) (suc i) v d h = ground (arith, count-set p xs i v d)

  pub count-le-length : (p : A → Bool) (xs : List A) → count p xs ≤ length xs
  unfolding count
  count-le-length p [] = omega arith
  count-le-length p (x ∷ xs) = ground (arith, count-le-length p xs)

  -- A slot that passes counts.
  pub count_pos :
      (p : A → Bool) (xs : List A) (i : ℕ) (d : A)
      → i < length xs
      → p (get_or xs i d) ≡ true
      → 0 < count p xs
  unfolding count
  count_pos p [] i d h e = absurd (omega arith)
  count_pos p (x ∷ xs) zero d h e = ground arith
  count_pos p (x ∷ xs) (suc i) d h e = ground (arith, count_pos p xs i d)

  -- A write that the test cannot see does not change what a scan finds.
  pub find_index-set :
      (p : A → Bool) (xs : List A) (i : ℕ) (v d : A)
      → p v ≡ p (get_or xs i d)
      → i < length xs
      → find_index p (set xs i v) ≡ find_index p xs
  unfolding find_index
  find_index-set p [] i v d e h = refl
  find_index-set p (x ∷ xs) zero v d e h = rw e refl
  find_index-set p (x ∷ xs) (suc i) v d e h = rw (find_index-set p xs i v d e (omega arith)) refl

  -- What a scan that finds nothing says of the slots in range.
  pub find_index-none_at :
      (p : A → Bool) (xs : List A) (d : A) (i : ℕ)
      → find_index p xs ≡ none
      → i < length xs
      → p (get_or xs i d) ≡ false
  unfolding find_index
  find_index-none_at p [] d i h l = absurd (omega arith)
  find_index-none_at p (x ∷ xs) d zero h l = ground arith
  find_index-none_at p (x ∷ xs) d (suc i) h l =
      find_index-none_at p xs d i (ground arith) (omega arith)
