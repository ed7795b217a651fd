-- ===== src/Buddy/Free.antt =====
-- mm/buddy.c: `buddy_free`, merging a block with its free buddies.
use new_os.Base.{
  ℕ, zero, suc, ◌+◌, ◌-◌, ◌*◌, ◌/◌, ◌%◌, ◌^◌, ◌<◌, ◌≤◌, ◌≡◌, ◌∙◌, refl, sym, ap, subst, Bool, true,
  false, not, ltb, leb, get_or, if◌then◌else◌, Bool-cases, inl, inr, arith, dec_lt,
}
use native.Mathlib.Nat.{pow-suc}
use new_os.Buddy.{
  Buddy, allocated, buddy_idx, is_free, remove, push, merge, free_at, page_idx, buddy_free,
}
use new_os.Buddy.Pages.{IsValid, listed_pages, power_pos, push_lem, remove_lem}
use new_os.Buddy.Buddies.{buddy_idx-half}
use new_os.Buddy.Cover.{
  cover, lies_in, lies_in-halves, lies_in-le, IsDisjoint, push-cover, remove-cover,
}
use new_os.Buddy.Alloc.{counter-IsValid}

-- What merging has done: the block of order `o` that it ends with has the pages of the block that it
-- started from and of all buddies that it took off their lists.
record Merged (order n : ℕ) (s : Buddy) (r : ℕ × ℕ × Buddy) : Type 0 where
  valid : IsValid r.2
  grown : (order ≤ r.0) × (r.0 ≤ order + n)
  balance : listed_pages r.2 + 2 ^ r.0 ≡ listed_pages s + 2 ^ order
  counter : r.2.free_pages ≡ s.free_pages

merge-Merged :
    (n order idx : ℕ) (s : Buddy)
    → IsValid s
    → order + n ≤ 10
    → Merged order n s (merge n order idx s)
unfolding merge remove
merge-Merged zero order idx s v h = record {
  valid = v;
  grown = (omega arith, omega arith);
  balance = refl;
  counter = refl;
}
merge-Merged (suc n) order idx s v h =
    let b = buddy_idx idx order in
    elim (Bool-cases (is_free b order s)) [
      | inr e ↦
          rw e (record {
            valid = v;
            grown = (omega arith, omega arith);
            balance = refl;
            counter = refl;
          })
      | inl e ↦
          let mark : get_or s.order_map b allocated ≡ order = ground (arith, e) in
          let (w, fewer) =
            remove_lem order b s v (omega arith) (v.marked b order (omega arith) mark) in
          let r =
            merge-Merged n (order + 1) (if ltb b idx then b else idx) (remove order b s) w
              (omega arith) in
          let twice : 2 ^ (order + 1) ≡ 2 ^ order * 2 =
            let i : order + 1 ≡ suc order = omega arith in rw i (omega (arith, pow-suc 2 order)) in
          rw e (record {
            valid = r.valid;
            grown = (omega (arith, r.grown.0), omega (arith, r.grown.1));
            balance = omega (arith, r.balance, fewer, twice);
            counter = r.counter;
          })
    ]

-- The block that a block and its buddy make.
lower : ℕ → ℕ → ℕ
lower b idx = if ltb b idx then b else idx

lower-buddy_idx : (o q : ℕ) → lower (buddy_idx (q * 2 ^ o) o) (q * 2 ^ o) ≡ q / 2 * 2 ^ suc o
unfolding lower
lower-buddy_idx o q = elim (buddy_idx-half o q) [
  | inl (low, b) ↦ ground (arith, low, b, power_pos o)
  | inr (low, b) ↦ ground (arith, low, b, power_pos o)
]

joined-lies_in :
    (p o q : ℕ)
    → lies_in p (suc o) (q / 2 * 2 ^ suc o)
      ≡ lies_in p o (q * 2 ^ o) + lies_in p o (buddy_idx (q * 2 ^ o) o)
joined-lies_in p o q =
    let at = λ (i : ℕ). lies_in p o i in
    let whole = λ (i : ℕ). lies_in p (suc o) i in
    elim (buddy_idx-half o q) [
      | inl (low, b) ↦ omega (arith, ap whole low, lies_in-halves p o (q * 2 ^ o), ap at b)
      | inr (low, b) ↦
          let c = buddy_idx (q * 2 ^ o) o in
          omega (arith, ap whole low, lies_in-halves p o c, ap at b)
    ]

merge-cover :
    (p n order q : ℕ) (s : Buddy)
    → IsValid s
    → order + n ≤ 10
    → (let r = merge n order (q * 2 ^ order) s in
        cover p r.2 + lies_in p r.0 r.1 ≡ cover p s + lies_in p order (q * 2 ^ order))
unfolding merge remove lower
merge-cover p zero order q s v h = refl
merge-cover p (suc n) order q s v h =
    let idx = q * 2 ^ order in
    let b = buddy_idx idx order in
    elim (Bool-cases (is_free b order s)) [
      | inr e ↦ rw e refl
      | inl e ↦
          let mark : get_or s.order_map b allocated ≡ order = ground (arith, e) in
          let listed = v.marked b order (omega arith) mark in
          let (w, fewer) = remove_lem order b s v (omega arith) listed in
          let t = remove order b s in
          let next : suc order ≡ order + 1 = omega arith in
          let P = λ (o i : ℕ).
            let r = merge n o i t in
            cover p r.2 + lies_in p r.0 r.1 ≡ cover p s + lies_in p order idx in
          let rest = merge-cover p n (order + 1) (q / 2) t w (omega arith) in
          let same = ap (λ (o : ℕ). lies_in p o (q / 2 * 2 ^ o)) next in
          let place : q / 2 * 2 ^ (order + 1) ≡ lower b idx =
            ap (λ (o : ℕ). q / 2 * 2 ^ o) (sym next) ∙ sym (lower-buddy_idx order q) in
          rw e (
            subst (P (order + 1)) place (
              omega (
                arith,
                rest,
                same,
                joined-lies_in p order q,
                remove-cover p order b s v (omega arith) listed,
              )))
    ]

-- What freeing the block of order `order` at page `idx` has done.
pub record Freed (idx order : ℕ) (s t : Buddy) : Type 0 where
  pub valid : IsValid t
  pub page_by_page : (p : ℕ) → cover p t ≡ cover p s + lies_in p order idx
  pub disjoint : IsDisjoint t
  pub pages_more : listed_pages t ≡ listed_pages s + 2 ^ order
  pub merged_order : ℕ
  pub grown : (order ≤ merged_order) × (merged_order ≤ 10)
  pub counter : t.free_pages ≡ (s.free_pages + 2 ^ merged_order) % 2 ^ 64

module _ (order q : ℕ) (s : Buddy) (v : IsValid s) (h : order ≤ 10) where
  module _ (apart : IsDisjoint s) (room : listed_pages s + 2 ^ order < 2 ^ 32) where
    free_at-Freed :
        ((p : ℕ) → lies_in p order (q * 2 ^ order) ≡ 1 → cover p s ≡ 0)
        → Freed (q * 2 ^ order) order s (free_at (q * 2 ^ order) order s)
    unfolding free_at push
    free_at-Freed outside =
        let idx = q * 2 ^ order in
        let r = merge (10 - order) order idx s in
        let m = merge-Merged (10 - order) order idx s v (omega arith) in
        let (w, more) =
          push_lem r.0 r.1 r.2 m.valid (omega (arith, m.grown.1, h))
            (omega (arith, m.balance, room)) in
        let by_page : ((p : ℕ) → cover p (push r.0 r.1 r.2) ≡ cover p s + lies_in p order idx) =
          λ p. omega (
            arith,
            push-cover p r.0 r.1 r.2 m.valid (omega (arith, m.grown.1, h)),
            merge-cover p (10 - order) order q s v (omega arith),
          ) in
        record {
          valid = counter-IsValid (push r.0 r.1 r.2) _ w;
          page_by_page = by_page;
          disjoint = λ p. elim (dec_lt (lies_in p order idx) 1) [
            | yes l ↦ omega (arith, by_page p, apart p, l)
            | no l ↦
                let one : lies_in p order idx ≡ 1 = omega (arith, l, lies_in-le p order idx) in
                omega (arith, by_page p, one, outside p one)
          ];
          pages_more = omega (arith, more, m.balance);
          merged_order = r.0;
          grown = (m.grown.0, omega (arith, m.grown.1, h));
          counter = ap (λ (k : ℕ). (k + 2 ^ r.0) % 2 ^ 64) m.counter;
        }

-- In a valid and initialised allocator in which no page lies in two listed blocks, with fewer than
-- 2^32 pages listed, buddy_free of a block of order at most 10 that begins inside the managed
-- region, at a multiple of its size, and of which no page lies in a listed block, keeps the lists
-- valid. Then each page of the block lies in one listed block, every other page in as many as
-- before, and still none in two. The page counter gains the pages of a merged block of an order
-- between that of the block and 10.
pub buddy_free_lem :
    (addr order q : ℕ) (s : Buddy)
    → IsValid s
    → s.initialized ≡ true
    → IsDisjoint s
    → order ≤ 10
    → page_idx addr s < s.total_pages
    → page_idx addr s ≡ q * 2 ^ order
    → ((p : ℕ) → lies_in p order (page_idx addr s) ≡ 1 → cover p s ≡ 0)
    → listed_pages s + 2 ^ order < 2 ^ 32
    → Freed (page_idx addr s) order s (buddy_free addr order s)
unfolding buddy_free
buddy_free_lem addr order q s v ready apart fits inside at outside room =
    let a : ltb 10 order ≡ false = ground (arith, fits) in
    let b : leb s.total_pages (page_idx addr s) ≡ false = ground (arith, inside) in
    let idx = page_idx addr s in
    let by : Bool → Bool → Bool → Buddy =
      λ x y z. if not x then s else if y then s else if z then s else free_at idx order s in
    let outside' = subst (λ (i : ℕ). (p : ℕ) → lies_in p order i ≡ 1 → cover p s ≡ 0) at outside in
    subst (λ (t : Buddy). Freed idx order s t)
      (sym (
        ap (λ (x : Bool). by x (ltb 10 order) (leb s.total_pages idx)) ready
        ∙ ap (λ (y : Bool). by true y (leb s.total_pages idx)) a
        ∙ ap (by true false) b))
      (subst (λ (i : ℕ). Freed i order s (free_at i order s)) (sym at)
        (free_at-Freed order q s v fits apart room outside'))
