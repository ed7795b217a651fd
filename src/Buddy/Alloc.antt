-- ===== src/Buddy/Alloc.antt =====
-- mm/buddy.c: `buddy_alloc`, the search for a block and its splitting.
use new_os.Base.{
  ℕ, zero, suc, ◌+◌, ◌-◌, ◌%◌, ◌^◌, ◌<◌, ◌≤◌, ◌≡◌, ◌≢◌, ◌∙◌, refl, sym, ap, subst, List, [], ◌∷◌,
  none, some, Bool, true, not, ◌==◌, ltb, if◌then◌else◌, length, Bool-cases, Option-cases, inl, inr,
  ◌⊎◌, arith, ℕ_discrete,
}
use native.Mathlib.Nat.{pow-suc}
use new_os.Buddy.{
  Buddy, list_at, page_addr, push, pop, pop_from, find_avail, split, alloc_at, buddy_alloc,
}
use new_os.Buddy.Cover.{cover, lies_in, lies_in-halves, push-cover, pop-cover}
use new_os.Buddy.Pages.{IsValid, listed_pages, Mem, push_lem, pop_lem}

-- The page counter is free.
pub counter-IsValid : (s : Buddy) (n : ℕ) → IsValid s → IsValid (record s { free_pages = n })
counter-IsValid s n v = record {
  sized = v.sized;
  small = v.small;
  counted = v.counted;
  marked = v.marked;
}

-- What a search that found an order says, and one that found none.
find_avail-some :
    (n avail a : ℕ) (s : Buddy)
    → find_avail n avail s ≡ some a
    → (avail ≤ a) × (a < avail + n) × ((list_at s a).count ≢ 0)
unfolding find_avail
find_avail-some zero avail a s e = absurd (ground (arith, e))
find_avail-some (suc n) avail a s e = elim (Bool-cases ((list_at s avail).count == 0)) [
  | inl z ↦
      let (l, h, ne) = find_avail-some n (avail + 1) a s (rw z at e) in
      (omega arith, omega arith, ne)
  | inr z ↦
      let same : avail ≡ a = let w = rw z at e in cc w in
      (
        omega arith,
        omega arith,
        λ q. ground (arith, z, ap (λ (k : ℕ). (list_at s k).count) same, q),
      )
]

find_avail-none :
    (n avail a : ℕ) (s : Buddy)
    → find_avail n avail s ≡ none
    → avail ≤ a
    → a < avail + n
    → (list_at s a).count ≡ 0
unfolding find_avail
find_avail-none zero avail a s e l h = absurd (omega arith)
find_avail-none (suc n) avail a s e l h = elim (Bool-cases ((list_at s avail).count == 0)) [
  | inr z ↦ absurd (let w = rw z at e in ground (arith, w))
  | inl z ↦ elim (ℕ_discrete avail a) [
    | yes same ↦ ap (λ (k : ℕ). (list_at s k).count) (sym same) ∙ ground (arith, z)
    | no ne ↦ find_avail-none n (avail + 1) a s (rw z at e) (omega arith) (omega arith)
  ]
]

-- Splitting a block of order `order + n` keeps one block of order `order`.
split_lem :
    (n order idx : ℕ) (s : Buddy)
    → IsValid s
    → order + n < 11
    → listed_pages s + 2 ^ (order + n) < 2 ^ 32
    → IsValid (split n order idx s)
      × (listed_pages (split n order idx s) + 2 ^ order ≡ listed_pages s + 2 ^ (order + n))
      × ((split n order idx s).free_pages ≡ s.free_pages)
unfolding split push
split_lem zero order idx s v h room =
    let e : order + 0 ≡ order = omega arith in rw e (v, refl, refl)
split_lem (suc n) order idx s v h room =
    let e : order + suc n ≡ suc (order + n) = omega arith in
    let twice = pow-suc 2 (order + n) in
    let room' = rw e at room in
    let (w, more) =
      push_lem (order + n) (idx + 2 ^ (order + n)) s v (omega arith)
        (omega (arith, room', twice)) in
    let (x, fewer, same) =
      split_lem n order idx (push (order + n) (idx + 2 ^ (order + n)) s) w (omega arith)
        (omega (arith, more, room', twice)) in
    rw e (x, omega (arith, more, fewer, twice), same)

-- The halves that a split puts on the lists and the block that it keeps make up the block split.
split-cover :
    (p n order idx : ℕ) (s : Buddy)
    → IsValid s
    → order + n < 11
    → listed_pages s + 2 ^ (order + n) < 2 ^ 32
    → cover p (split n order idx s) + lies_in p order idx ≡ cover p s + lies_in p (order + n) idx
unfolding split push
split-cover p zero order idx s v h room = let e : order + 0 ≡ order = omega arith in rw e refl
split-cover p (suc n) order idx s v h room =
    let e : order + suc n ≡ suc (order + n) = omega arith in
    let twice = pow-suc 2 (order + n) in
    let room' = rw e at room in
    let upper = idx + 2 ^ (order + n) in
    let (w, more) = push_lem (order + n) upper s v (omega arith) (omega (arith, room', twice)) in
    let rest =
      split-cover p n order idx (push (order + n) upper s) w (omega arith)
        (omega (arith, more, room', twice)) in
    let pushed = push-cover p (order + n) upper s v (omega arith) in
    rw e (omega (arith, rest, pushed, lies_in-halves p (order + n) idx))

-- What an allocation of a block that went through has done.
pub record Given (order : ℕ) (s : Buddy) (r : ℕ × Buddy) : Type 0 where
  pub valid : IsValid r.1
  pub from_order : ℕ
  pub enough : (order ≤ from_order) × (from_order ≤ 10)
  pub block : ℕ
  pub was_listed : Mem block (list_at s from_order).blocks
  pub address : r.0 ≡ page_addr block s
  pub page_by_page : (p : ℕ) → cover p r.1 + lies_in p order block ≡ cover p s
  pub pages_less : listed_pages r.1 + 2 ^ order ≡ listed_pages s
  pub counter : r.1.free_pages ≡ (s.free_pages + 2 ^ 64 - 2 ^ order) % 2 ^ 64

head_of : (xs : List ℕ) → length xs ≢ 0 → (x : ℕ) × (rest : List ℕ) × (xs ≡ x ∷ rest)
head_of [] ne = absurd (ne refl)
head_of (x ∷ xs) ne = (x, xs, refl)

alloc_at-Given :
    (a order : ℕ) (s : Buddy)
    → IsValid s
    → order ≤ a
    → a < 11
    → (list_at s a).count ≢ 0
    → Given order s (alloc_at a order s)
unfolding alloc_at pop
alloc_at-Given a order s v le h ne =
    let (x, rest, e) = head_of (list_at s a).blocks (λ z. ne (v.counted a ∙ z)) in
    let (idx, w, fewer) = pop_lem a x rest s v h e in
    let s1 = (pop a s).1 in
    let sum : order + (a - order) ≡ a = omega arith in
    let size = ap (λ (k : ℕ). 2 ^ k) sum in
    let (u, kept, same) =
      split_lem (a - order) order (pop a s).0 s1 w (omega arith)
        (omega (arith, fewer, v.small, size)) in
    let counter : s1.free_pages ≡ s.free_pages = pop-counter (list_at s a).blocks in
    record {
      valid = counter-IsValid (split (a - order) order (pop a s).0 s1) _ u;
      from_order = a;
      enough = (le, omega arith);
      block = x;
      was_listed = subst (Mem x) (sym e) (inl refl);
      address = ap (λ (i : ℕ). page_addr i s) idx;
      page_by_page = λ p.
          let split_up =
            split-cover p (a - order) order (pop a s).0 s1 w (omega arith)
              (omega (arith, fewer, v.small, size)) in
          let popped = pop-cover p a x rest s v h e in
          let whole = ap (λ (k : ℕ). lies_in p k (pop a s).0) sum in
          let head = ap (λ (i : ℕ). lies_in p a i) idx in
          let mine = ap (λ (i : ℕ). lies_in p order i) idx in
          omega (arith, split_up, popped, whole, head, mine);
      pages_less = omega (arith, kept, fewer, size);
      counter = ap (λ (k : ℕ). (k + 2 ^ 64 - 2 ^ order) % 2 ^ 64) (same ∙ counter);
    }
  where
    pop-counter : (xs : List ℕ) → (pop_from a xs s).1.free_pages ≡ s.free_pages
    pop-counter [] = refl
    pop-counter (x ∷ xs) = refl

-- buddy_alloc behind its first check.
checked : ℕ → Buddy → ℕ × Buddy
checked order s = if ltb 10 order then (0, s) else elim (find_avail (11 - order) order s) [
  | none ↦ (0, s)
  | some avail ↦ alloc_at avail order s
]

abbrev Outcome : ℕ → Buddy → ℕ × Buddy → Type 0
Outcome order s r =
    (r ≡ (0, s)) × ((10 < order) ⊎ ((a : ℕ) → order ≤ a → a ≤ 10 → (list_at s a).count ≡ 0))
    ⊎ Given order s r

checked-Outcome : (order : ℕ) (s : Buddy) → IsValid s → Outcome order s (checked order s)
unfolding checked
checked-Outcome order s v = elim (Bool-cases (ltb 10 order)) [
  | inl big ↦ rw big (inl (refl, inl (ground arith)))
  | inr fits ↦ elim (Option-cases (find_avail (11 - order) order s)) [
    | inl e ↦
        rw (fits, e)
          (inl (refl, inr (λ a l h. find_avail-none (11 - order) order a s e l (omega arith))))
    | inr (a, e) ↦
        let (l, h, ne) = find_avail-some (11 - order) order a s e in
        rw (fits, e) (inr (alloc_at-Given a order s v l (ground (arith, h)) ne))
  ]
]

-- In a valid and initialised allocator, buddy_alloc returns 0 and changes nothing when the order
-- is too large or every list of that order or more is empty. Otherwise it keeps the invariant and
-- gives the address of a block that was listed with at least that order. Each page of the block of
-- the order asked for at that address then lies in one listed block less than before, and every
-- other page in as many; the page counter loses the pages of that order.
pub buddy_alloc_lem :
    (order : ℕ) (s : Buddy)
    → IsValid s
    → s.initialized ≡ true
    → (buddy_alloc order s ≡ (0, s))
        × ((10 < order) ⊎ ((a : ℕ) → order ≤ a → a ≤ 10 → (list_at s a).count ≡ 0))
      ⊎ Given order s (buddy_alloc order s)
unfolding buddy_alloc checked
buddy_alloc_lem order s v ready =
    subst (Outcome order s)
      (ap (λ (b : Bool). if not b then (0, s) else checked order s) (sym ready))
      (checked-Outcome order s v)
