-- ===== src/BlockCache/Oldest.antt =====
-- fs/blockcache.c: the two loops of evict_slot, and the slot they choose.
use new_os.Base.{
  ℕ, zero, suc, ◌+◌, ◌≤◌, ◌<◌, ◌≡◌, ◌⊎◌, inl, inr, refl, ap, sym, subst, ◌∙◌, Bool, true, false,
  not, ◌&&◌, if◌then◌else◌, List, [], ◌∷◌, length, get_or, Option, some, Bool-cases, differ, ltb,
  ltb→lt, arith,
}
use new_os.BlockCache.{Drives, Slot, Pick, free, best, empty_slot, oldest_clean, oldest_used}

module _ (c : Drives) where
  abbrev at : List (Slot c) → ℕ → Slot c
  at xs j = get_or xs j (empty_slot c)

  module _ (p : Slot c → Bool) where
    -- No slot that passes is used less recently.
    abbrev pub NoOlder : ℕ → List (Slot c) → Type 0
    NoOlder used xs = (j : ℕ) → j < length xs → p (at xs j) ≡ true → used ≤ (at xs j).last_use

    -- Slot j of the list passes, and no slot that passes is used less recently.
    pub record IsOldest (xs : List (Slot c)) (j : ℕ) : Type 0 where
      pub in_range : j < length xs
      pub passes : p (at xs j) ≡ true
      pub first : NoOlder (at xs j).last_use xs

    -- What a loop from slot i on has found: its last choice stands, or a slot of the list is better.
    abbrev pub Chosen : List (Slot c) → ℕ → Option ℕ → ℕ → Option ℕ → Type 0
    Chosen xs i old oldest o =
        ((o ≡ old) × NoOlder oldest xs)
        ⊎ ((j : ℕ) × (o ≡ some (i + j)) × IsOldest xs j × ((at xs j).last_use < oldest))

    NoOlder-cons :
        (used : ℕ) (x : Slot c) (xs : List (Slot c))
        → (p x ≡ true → used ≤ x.last_use)
        → NoOlder used xs
        → NoOlder used (x ∷ xs)
    NoOlder-cons used x xs h rest zero l e = h e
    NoOlder-cons used x xs h rest (suc j) l e = rest j (omega arith) e

    IsOldest-cons :
        (x : Slot c) (xs : List (Slot c)) (j : ℕ)
        → (p x ≡ true → (at xs j).last_use ≤ x.last_use)
        → IsOldest xs j
        → IsOldest (x ∷ xs) (suc j)
    IsOldest-cons x xs j h o = record {
      in_range = omega (arith, o.in_range);
      passes = o.passes;
      first = NoOlder-cons (at xs j).last_use x xs h o.first;
    }

    module _ (x : Slot c) (xs : List (Slot c)) (i : ℕ) (old : Option ℕ) (oldest : ℕ)
        (o : Option ℕ) where
      later : (j : ℕ) → o ≡ some (suc i + j) → o ≡ some (i + suc j)
      later j e = let n : suc i + j ≡ i + suc j = omega arith in e ∙ ap some n

      -- The loop takes x.
      Chosen-take :
          p x ≡ true
          → x.last_use < oldest
          → Chosen xs (suc i) (some i) x.last_use o
          → Chosen (x ∷ xs) i old oldest o
      Chosen-take px lt (inl (e, first)) =
          let n : i ≡ i + 0 = omega arith in
          inr (
            0,
            e ∙ ap some n,
            record {
              in_range = omega arith;
              passes = px;
              first = NoOlder-cons x.last_use x xs (λ q. omega arith) first;
            },
            lt,
          )
      Chosen-take px lt (inr (j, e, oldest_j, less)) =
          inr (suc j, later j e, IsOldest-cons x xs j (λ q. omega arith) oldest_j, omega arith)

      -- The loop passes x by.
      Chosen-keep :
          (p x ≡ true → oldest ≤ x.last_use)
          → Chosen xs (suc i) old oldest o
          → Chosen (x ∷ xs) i old oldest o
      Chosen-keep keep (inl (e, first)) = inl (e, NoOlder-cons oldest x xs keep first)
      Chosen-keep keep (inr (j, e, oldest_j, less)) =
          inr (suc j, later j e, IsOldest-cons x xs j (λ q. omega (arith, keep q)) oldest_j, less)

      pub Chosen-cons :
          (let older = p x && ltb x.last_use oldest in
            Chosen xs
              (suc i)
              (if older then some i else old)
              (if older then x.last_use else oldest)
              o)
          → Chosen (x ∷ xs) i old oldest o
      Chosen-cons h = elim (Bool-cases (p x)) [
        | inl px ↦ elim (Bool-cases (ltb x.last_use oldest)) [
          | inl lt ↦ Chosen-take px (ltb→lt x.last_use oldest lt) (rw (px, lt) at h)
          | inr ge ↦ Chosen-keep (λ q. ground arith) (rw (px, ge) at h)
        ]
        | inr px ↦ Chosen-keep (λ q. absurd (differ px q)) (rw px at h)
      ]

  -- What the first loop has found, from slot i on.
  abbrev pub Picked : List (Slot c) → ℕ → Option ℕ → ℕ → Pick → Type 0
  Picked xs i old oldest (free k) =
      (j : ℕ) × (k ≡ i + j) × (j < length xs) × ((at xs j).valid ≡ false)
  Picked xs i old oldest (best o) =
      ((j : ℕ) → j < length xs → (at xs j).valid ≡ true)
      × Chosen (λ x. not x.dirty) xs i old oldest o

  Picked-cons :
      (x : Slot c) (xs : List (Slot c)) (i : ℕ) (old : Option ℕ) (oldest : ℕ) (o : Pick)
      → x.valid ≡ true
      → (let older = not x.dirty && ltb x.last_use oldest in
          Picked xs
            (suc i)
            (if older then some i else old)
            (if older then x.last_use else oldest)
            o)
      → Picked (x ∷ xs) i old oldest o
  Picked-cons x xs i old oldest (free k) v (j, e, l, f) = (suc j, omega arith, omega arith, f)
  Picked-cons x xs i old oldest (best o) v (valid, chosen) = (
    elim [ zero ↦ λ l. v | suc j ↦ λ l. valid j (omega arith) ],
    Chosen-cons (λ x. not x.dirty) x xs i old oldest o chosen,
  )

  pub oldest_clean-Picked :
      (xs : List (Slot c)) (i : ℕ) (old : Option ℕ) (oldest : ℕ)
      → Picked xs i old oldest (oldest_clean c i old oldest xs)
  unfolding oldest_clean
  oldest_clean-Picked [] i old oldest =
      ((λ j l. absurd (omega arith)), inl (refl, λ j l. absurd (omega arith)))
  oldest_clean-Picked (x ∷ xs) i old oldest =
      let older = not x.dirty && ltb x.last_use oldest in
      let rest =
        oldest_clean c (suc i) (if older then some i else old)
          (if older then x.last_use else oldest) xs in
      let P = λ (b : Bool). Picked (x ∷ xs) i old oldest (if not b then free i else rest) in
      elim (Bool-cases x.valid) [
        | inr v ↦ subst P (sym v) (0, omega arith, omega arith, v)
        | inl v ↦ subst P (sym v) (
            Picked-cons x xs i old oldest rest v (
              oldest_clean-Picked xs (suc i) (if older then some i else old)
                (if older then x.last_use else oldest)))
      ]

  pub oldest_used-Chosen :
      (xs : List (Slot c)) (i : ℕ) (old : Option ℕ) (oldest : ℕ)
      → Chosen (λ x. true) xs i old oldest (oldest_used c i old oldest xs)
  unfolding oldest_used
  oldest_used-Chosen [] i old oldest = inl (refl, λ j l. absurd (omega arith))
  oldest_used-Chosen (x ∷ xs) i old oldest =
      let older = ltb x.last_use oldest in
      Chosen-cons (λ x. true) x xs i old oldest _
        (oldest_used-Chosen xs (suc i) (if older then some i else old)
          (if older then x.last_use else oldest))
