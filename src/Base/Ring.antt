-- ===== src/Base/Ring.antt =====
-- Circular arrays of a fixed size, as the kernel's queues use them: the entries from an index on.
use Prim.Native.Nat.{ℕ, zero, suc, ◌+◌, ◌-◌, ◌%◌, ◌≤◌, ◌<◌}
use mathlib.Core.Path.{◌≡◌, refl, sym, ap, ap₂, ◌∙◌}
use mathlib.Core.Logic.{◌≢◌}
use mathlib.Core.List.{List, [], ◌∷◌, ◌++◌}
use native.Mathlib.Omega.{arith}
use native.Mathlib.Nat.{mod-add-mod, mod-mod, mod-eq_of_lt, mod-eq-sub-mod}
use native.Mathlib.Decide.{dec_lt}
use new_os.Base.Lists.{length, get_or, set, get_or-set_self, get_or-set_ne}

-- Less than a whole turn does not come back to the same index.
turn_ne : (size r d : ℕ) → r < size → 0 < d → d < size → (r + d) % size ≢ r
turn_ne size r d hr hd hc = elim (dec_lt (r + d) size) [
  | yes p ↦ omega (arith, mod-eq_of_lt p)
  | no p ↦ omega (
    arith,
    mod-eq-sub-mod {n = r + d} {m = size} (omega arith),
    mod-eq_of_lt {n = r + d - size} {m = size} (omega arith),
  )
]

pub index_ne : (size h j n : ℕ) → j < n → n < size → (h + j) % size ≢ (h + n) % size
index_ne size h j n l m e =
    let r = (h + j) % size in
    let sum : (r + (n - j)) % size ≡ (h + n) % size =
      mod-add-mod (h + j) size (n - j) ∙ ap (λ (x : ℕ). x % size) (omega arith) in
    turn_ne size r (n - j) (omega arith) (omega arith) (omega arith) (sum ∙ sym e)

module _ {ℓ} {A : Type ℓ} (d : A) (size : ℕ) where
  -- `n` entries from index `h` on, oldest first, going round at `size`.
  abbrev pub ring : List A → ℕ → ℕ → List A
  ring buf h zero = []
  ring buf h (suc n) = get_or buf (h % size) d ∷ ring buf (h + 1) n

  pub length-ring : (buf : List A) (h n : ℕ) → length (ring buf h n) ≡ n
  length-ring buf h zero = refl
  length-ring buf h (suc n) = ap suc (length-ring buf (h + 1) n)

  pub ring-mod : (buf : List A) (h n : ℕ) → ring buf (h % size) n ≡ ring buf h n
  ring-mod buf h zero = refl
  ring-mod buf h (suc n) = ap₂ ◌∷◌ (ap (λ (i : ℕ). get_or buf i d) (mod-mod h size)) (
      sym (ring-mod buf (h % size + 1) n)
      ∙ ap (λ (x : ℕ). ring buf x n) (mod-add-mod h size 1)
      ∙ ring-mod buf (h + 1) n)

  pub ring-set :
      (buf : List A) (x : A) (n h i : ℕ)
      → ((j : ℕ) → j < n → (h + j) % size ≢ i)
      → ring (set buf i x) h n ≡ ring buf h n
  ring-set buf x zero h i ne = refl
  ring-set buf x (suc n) h i ne =
      ap₂ ◌∷◌
        (get_or-set_ne buf i (h % size) x d
          (λ e. ne 0 (omega arith) (ap (λ (k : ℕ). k % size) (omega arith) ∙ sym e)))
        (ring-set buf x n (h + 1) i
          (λ j l e. ne (j + 1) (omega arith) (ap (λ (k : ℕ). k % size) (omega arith) ∙ e)))

  pub ring-snoc :
      (buf : List A) (n h : ℕ)
      → ring buf h (suc n) ≡ ring buf h n ++ (get_or buf ((h + n) % size) d ∷ [])
  ring-snoc buf zero h = ap (λ (k : ℕ). get_or buf (k % size) d ∷ []) (omega arith)
  ring-snoc buf (suc n) h =
      ap (λ (xs : List A). get_or buf (h % size) d ∷ xs)
        (ring-snoc buf n (h + 1)
          ∙ ap (λ (k : ℕ). ring buf (h + 1) n ++ (get_or buf (k % size) d ∷ [])) (omega arith))

  -- A write behind the last entry of a ring with room adds one entry at its end.
  pub ring-push :
      (buf : List A) (x : A) (h n i : ℕ)
      → size ≤ length buf
      → n < size
      → i ≡ (h + n) % size
      → ring (set buf i x) h (suc n) ≡ ring buf h n ++ (x ∷ [])
  ring-push buf x h n i fits room e =
      ring-snoc (set buf i x) n h
      ∙ ap₂ (λ (xs : List A) (y : A). xs ++ (y ∷ []))
          (ring-set buf x n h i (λ j l same. index_ne size h j n l room (same ∙ e)))
          (ap (λ (k : ℕ). get_or (set buf i x) k d) (sym e)
            ∙ get_or-set_self buf i x d (omega arith))

  pub ring-append :
      (buf : List A) (a b h : ℕ) → ring buf h (a + b) ≡ ring buf h a ++ ring buf (h + a) b
  ring-append buf zero b h =
      let n : 0 + b ≡ b = omega arith in
      let k : h ≡ h + 0 = omega arith in
      ap (λ (n : ℕ). ring buf h n) n ∙ ap (λ (k : ℕ). ring buf k b) k
  ring-append buf (suc a) b h =
      let n : suc a + b ≡ suc (a + b) = omega arith in
      ap (λ (n : ℕ). ring buf h n) n
      ∙ ap (λ (xs : List A). get_or buf (h % size) d ∷ xs)
          (ring-append buf a b (h + 1)
            ∙ ap (λ (k : ℕ). ring buf (h + 1) a ++ ring buf k b) (omega arith))
