-- ===== src/Buddy/Cover.antt =====
-- mm/buddy.c: in how many of the listed blocks a page lies, and what pushing, popping and removing
-- blocks do to that.
use new_os.Base.{
  ℕ, zero, suc, ◌+◌, ◌^◌, ◌<◌, ◌≤◌, ◌≡◌, inl, inr, ap, subst, sym, List, [], ◌∷◌, ◌&&◌, ◌==◌, ltb,
  leb, if◌then◌else◌, length, set, get_or, Bool-cases, inc32, dec32, arith,
}
use native.Mathlib.Nat.{pow-suc}
use new_os.Buddy.{
  Buddy, FreeList, empty_list, list_at, with_list, allocated, push, pop, pop_from, unlink, remove,
}
use new_os.Buddy.Pages.{IsValid, Mem, power_pos}

-- 1 if the page lies in the block of this order at idx, or else 0.
abbrev pub lies_in : ℕ → ℕ → ℕ → ℕ
lies_in p order idx = if leb idx p && ltb p (idx + 2 ^ order) then 1 else 0

abbrev pub block_cover : ℕ → ℕ → List ℕ → ℕ
block_cover p order [] = 0
block_cover p order (x ∷ xs) = lies_in p order x + block_cover p order xs

unfoldable pub list_cover : ℕ → ℕ → List FreeList → ℕ
list_cover p order [] = 0
list_cover p order (l ∷ ls) = block_cover p order l.blocks + list_cover p (order + 1) ls

-- In how many listed blocks the page lies.
abbrev pub cover : ℕ → Buddy → ℕ
cover p s = list_cover p 0 s.free

-- No page lies in two listed blocks.
abbrev pub IsDisjoint : Buddy → Type 0
IsDisjoint s = (p : ℕ) → cover p s ≤ 1

pub lies_in-le : (p order idx : ℕ) → lies_in p order idx ≤ 1
lies_in-le p order idx = elim (Bool-cases (leb idx p && ltb p (idx + 2 ^ order))) [
  | inl e ↦ rw e (omega arith)
  | inr e ↦ rw e (omega arith)
]

-- A block is its two halves.
pub lies_in-halves :
    (p order idx : ℕ)
    → lies_in p (suc order) idx ≡ lies_in p order idx + lies_in p order (idx + 2 ^ order)
lies_in-halves p order idx = ground (arith, pow-suc 2 order, power_pos order)

list_cover-set :
    (p : ℕ) (ls : List FreeList) (o i : ℕ) (l : FreeList)
    → i < length ls
    → list_cover p o (set ls i l) + block_cover p (o + i) (get_or ls i empty_list).blocks
      ≡ list_cover p o ls + block_cover p (o + i) l.blocks
unfolding list_cover
list_cover-set p [] o i l h = absurd (omega arith)
list_cover-set p (x ∷ ls) o zero l h = let e : o + 0 ≡ o = omega arith in rw e (omega arith)
list_cover-set p (x ∷ ls) o (suc i) l h =
    let e : o + suc i ≡ o + 1 + i = omega arith in
    rw e (omega (arith, list_cover-set p ls (o + 1) i l (omega arith)))

with_list-cover :
    (p order idx mark : ℕ) (l : FreeList) (s : Buddy)
    → order < length s.free
    → cover p (with_list order l idx mark s) + block_cover p order (list_at s order).blocks
      ≡ cover p s + block_cover p order l.blocks
with_list-cover p order idx mark l s h =
    let e : 0 + order ≡ order = omega arith in rw e at (list_cover-set p s.free 0 order l h)

pub push-cover :
    (p order idx : ℕ) (s : Buddy)
    → IsValid s
    → order < 11
    → cover p (push order idx s) ≡ cover p s + lies_in p order idx
unfolding push
push-cover p order idx s v h =
    let l = list_at s order in
    let more : FreeList = record { blocks = idx ∷ l.blocks; count = inc32 l.count } in
    omega (arith, with_list-cover p order idx order more s (omega (arith, h, v.sized)))

pub pop-cover :
    (p order idx : ℕ) (rest : List ℕ) (s : Buddy)
    → IsValid s
    → order < 11
    → (list_at s order).blocks ≡ idx ∷ rest
    → cover p (pop order s).1 + lies_in p order idx ≡ cover p s
unfolding pop
pop-cover p order idx rest s v h e =
    let less : FreeList = record { blocks = rest; count = dec32 (list_at s order).count } in
    let n = with_list-cover p order idx allocated less s (omega (arith, h, v.sized)) in
    subst (λ (r : ℕ × Buddy). cover p r.1 + lies_in p order idx ≡ cover p s)
      (ap (λ (xs : List ℕ). pop_from order xs s) (sym e))
      (omega (arith, n, ap (block_cover p order) e))

unlink-cover :
    (p order idx : ℕ) (xs : List ℕ)
    → Mem idx xs
    → block_cover p order (unlink idx xs) + lies_in p order idx ≡ block_cover p order xs
unlink-cover p order idx [] m = absurd m
unlink-cover p order idx (x ∷ xs) m = elim (Bool-cases (x == idx)) [
  | inl hit ↦
      let same : x ≡ idx = ground (arith, hit) in rw hit (omega (arith, ap (lies_in p order) same))
  | inr miss ↦
      let there : Mem idx xs = elim m [
        | inl same ↦ absurd (ground (arith, miss, same))
        | inr t ↦ t
      ] in
      rw miss (omega (arith, unlink-cover p order idx xs there))
]

pub remove-cover :
    (p order idx : ℕ) (s : Buddy)
    → IsValid s
    → order < 11
    → Mem idx (list_at s order).blocks
    → cover p (remove order idx s) + lies_in p order idx ≡ cover p s
unfolding remove
remove-cover p order idx s v h m =
    let l = list_at s order in
    let less : FreeList = record { blocks = unlink idx l.blocks; count = dec32 l.count } in
    omega (
      arith,
      with_list-cover p order idx allocated less s (omega (arith, h, v.sized)),
      unlink-cover p order idx l.blocks m,
    )
