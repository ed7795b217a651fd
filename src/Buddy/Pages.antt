-- ===== src/Buddy/Pages.antt =====
-- mm/buddy.c: how many pages the free lists hold, and what pushing, popping and removing do to them.
use new_os.Base.{
  ℕ, zero, suc, ◌+◌, ◌^◌, ◌<◌, ◌≤◌, ◌≡◌, ◌≢◌, ◌∙◌, refl, sym, ap, subst, List, [], ◌∷◌, ◌==◌, set,
  get_or, get_or-set, get_or-set_self, get_or-set_ne, length, length-set, inc32, dec32, Bool-cases,
  inl, inr, ◌⊎◌, arith, ℕ_discrete, dec_lt,
}
use native.Mathlib.Nat.{pow-suc}
use new_os.Buddy.{
  Buddy, FreeList, empty_list, list_at, with_list, allocated, push, pop, pop_from, unlink, remove,
}

-- The pages of blocks of `w` pages, and of the lists from order `o` on.
abbrev pub pages : ℕ → List ℕ → ℕ
pages w [] = 0
pages w (x ∷ xs) = w + pages w xs

unfoldable pub total : ℕ → List FreeList → ℕ
total o [] = 0
total o (l ∷ ls) = pages (2 ^ o) l.blocks + total (o + 1) ls

abbrev pub listed_pages : Buddy → ℕ
listed_pages s = total 0 s.free

abbrev pub Mem : ℕ → List ℕ → Type 0
Mem x [] = ⊥
Mem x (y ∷ ys) = (y ≡ x) ⊎ Mem x ys

-- Every count is the length of its list, and a page marked with an order heads a block of that list.
pub record IsValid (s : Buddy) : Type 0 where
  pub sized : length s.free ≡ 11
  pub small : listed_pages s < 2 ^ 32
  pub counted : (o : ℕ) → (list_at s o).count ≡ length (list_at s o).blocks
  pub marked :
      (idx o : ℕ) → o < 11 → get_or s.order_map idx allocated ≡ o → Mem idx (list_at s o).blocks

get_or_out : (xs : List ℕ) (i d : ℕ) → length xs ≤ i → get_or xs i d ≡ d
get_or_out [] i d h = refl
get_or_out (x ∷ xs) zero d h = absurd (omega arith)
get_or_out (x ∷ xs) (suc i) d h = get_or_out xs i d (omega arith)

pub power_pos : (o : ℕ) → 0 < 2 ^ o
power_pos zero = omega arith
power_pos (suc o) = omega (arith, power_pos o, pow-suc 2 o)

pub length-le-pages : (w : ℕ) (xs : List ℕ) → 0 < w → length xs ≤ pages w xs
length-le-pages w [] h = omega arith
length-le-pages w (x ∷ xs) h = omega (arith, length-le-pages w xs h)

total-set :
    (ls : List FreeList) (o i : ℕ) (l : FreeList)
    → i < length ls
    → total o (set ls i l) + pages (2 ^ (o + i)) (get_or ls i empty_list).blocks
      ≡ total o ls + pages (2 ^ (o + i)) l.blocks
unfolding total
total-set [] o i l h = absurd (omega arith)
total-set (x ∷ ls) o zero l h = let e : o + 0 ≡ o = omega arith in rw e (omega arith)
total-set (x ∷ ls) o (suc i) l h =
    let e : o + suc i ≡ o + 1 + i = omega arith in
    rw e (omega (arith, total-set ls (o + 1) i l (omega arith)))

-- One list and the mark of one page change.
pub with_list-pages :
    (order idx mark : ℕ) (l : FreeList) (s : Buddy)
    → order < length s.free
    → listed_pages (with_list order l idx mark s) + pages (2 ^ order) (list_at s order).blocks
      ≡ listed_pages s + pages (2 ^ order) l.blocks
with_list-pages order idx mark l s h =
    let e : 0 + order ≡ order = omega arith in rw e at (total-set s.free 0 order l h)

pub with_list-IsValid :
    (order idx mark : ℕ) (l : FreeList) (s : Buddy)
    → IsValid s
    → order < 11
    → l.count ≡ length l.blocks
    → listed_pages (with_list order l idx mark s) < 2 ^ 32
    → ((j : ℕ) → idx ≢ j → Mem j (list_at s order).blocks → Mem j l.blocks)
    → (mark < 11 → (mark ≡ order) × Mem idx l.blocks)
    → IsValid (with_list order l idx mark s)
with_list-IsValid order idx mark l s v h same fits keep marks = record {
  sized = length-set s.free order l ∙ v.sized;
  small = fits;
  counted = λ o. elim (at o) [
    | inl (_, e) ↦
        ap (λ (x : FreeList). x.count) e ∙ same ∙ ap (λ (x : FreeList). length x.blocks) (sym e)
    | inr (_, e) ↦
        ap (λ (x : FreeList). x.count) e
        ∙ v.counted o
        ∙ ap (λ (x : FreeList). length x.blocks) (sym e)
  ];
  marked = λ j o low m. elim (ℕ_discrete idx j) [
    | yes e ↦ elim (dec_lt idx (length s.order_map)) [
      | yes i ↦
          let now : mark ≡ o =
            sym (get_or-set_self s.order_map idx mark allocated i)
            ∙ ap (λ (k : ℕ). get_or (set s.order_map idx mark) k allocated) e
            ∙ m in
          let (here, there) = marks (omega (arith, now, low)) in
          subst (λ (k : ℕ). Mem j (get_or (set s.free order l) k empty_list).blocks)
            (sym here ∙ now)
            (subst (λ (k : ℕ). Mem k (get_or (set s.free order l) order empty_list).blocks) e
              (subst (λ (x : FreeList). Mem idx x.blocks)
                (sym (get_or-set_self s.free order l empty_list (omega (arith, h, v.sized))))
                there))
      | no i ↦
          let out =
            get_or_out (set s.order_map idx mark) j allocated
              (omega (arith, length-set s.order_map idx mark, i, e)) in
          absurd (omega (arith, out, m, low))
    ]
    | no ne ↦
        let w = v.marked j o low (sym (get_or-set_ne s.order_map idx j mark allocated ne) ∙ m) in
        elim (at o) [
          | inl (e, f) ↦
              subst (λ (x : FreeList). Mem j x.blocks) (sym f)
                (keep j ne (subst (λ (k : ℕ). Mem j (list_at s k).blocks) (sym e) w))
          | inr (_, f) ↦ subst (λ (x : FreeList). Mem j x.blocks) (sym f) w
        ]
  ];
}
  where
    at :
        (o : ℕ)
        → ((order ≡ o) × (get_or (set s.free order l) o empty_list ≡ l))
          ⊎ ((order ≢ o) × (get_or (set s.free order l) o empty_list ≡ list_at s o))
    at o = get_or-set s.free order o l empty_list (omega (arith, h, v.sized))

-- Pushing a block adds its pages.
pub push_lem :
    (order idx : ℕ) (s : Buddy)
    → IsValid s
    → order < 11
    → listed_pages s + 2 ^ order < 2 ^ 32
    → IsValid (push order idx s) × (listed_pages (push order idx s) ≡ listed_pages s + 2 ^ order)
unfolding push
push_lem order idx s v h room =
    let l = list_at s order in
    let more : FreeList = record { blocks = idx ∷ l.blocks; count = inc32 l.count } in
    let n = with_list-pages order idx order more s (omega (arith, h, v.sized)) in
    let few = length-le-pages (2 ^ order) l.blocks (power_pos order) in
    let part = with_list-pages order idx order empty_list s (omega (arith, h, v.sized)) in
    (
      with_list-IsValid order idx order more s v h
          (omega (arith, v.counted order, few, part, room, power_pos order))
          (omega (arith, n, room)) (λ j ne m. inr m) (λ k. (refl, inl refl)),
      omega (arith, n),
    )

-- A list that loses one block, with the page of that block marked as allocated.
shrink_lem :
    (order idx : ℕ) (rest : List ℕ) (s : Buddy)
    → IsValid s
    → order < 11
    → length (list_at s order).blocks ≡ length rest + 1
    → pages (2 ^ order) (list_at s order).blocks ≡ pages (2 ^ order) rest + 2 ^ order
    → ((j : ℕ) → idx ≢ j → Mem j (list_at s order).blocks → Mem j rest)
    → let t =
        with_list order
          (record { blocks = rest; count = dec32 (list_at s order).count })
          idx
          allocated
          s in
      IsValid t × (listed_pages t + 2 ^ order ≡ listed_pages s)
shrink_lem order idx rest s v h one_less pages_less keep =
    let l = list_at s order in
    let less : FreeList = record { blocks = rest; count = dec32 l.count } in
    let n = with_list-pages order idx allocated less s (omega (arith, h, v.sized)) in
    let few = length-le-pages (2 ^ order) l.blocks (power_pos order) in
    let part = with_list-pages order idx allocated empty_list s (omega (arith, h, v.sized)) in
    (
      with_list-IsValid order idx allocated less s v h
          (omega (arith, v.counted order, few, part, v.small, one_less))
          (omega (arith, n, v.small, pages_less)) keep (λ k. absurd (omega (arith, k))),
      omega (arith, n, pages_less),
    )

-- Popping gives the head of the list and takes its pages away.
pub pop_lem :
    (order idx : ℕ) (rest : List ℕ) (s : Buddy)
    → IsValid s
    → order < 11
    → (list_at s order).blocks ≡ idx ∷ rest
    → ((pop order s).0 ≡ idx)
      × IsValid (pop order s).1
      × (listed_pages (pop order s).1 + 2 ^ order ≡ listed_pages s)
unfolding pop
pop_lem order idx rest s v h e =
    let keep : (j : ℕ) → idx ≢ j → Mem j (list_at s order).blocks → Mem j rest =
      λ j ne m. elim (subst (Mem j) e m) [ inl same ↦ absurd (ne same) | inr there ↦ there ] in
    let (valid, fewer) =
      shrink_lem order idx rest s v h (omega (arith, ap length e))
        (omega (arith, ap (pages (2 ^ order)) e)) keep in
    subst
      (λ (r : ℕ × Buddy).
        (r.0 ≡ idx) × IsValid r.1 × (listed_pages r.1 + 2 ^ order ≡ listed_pages s))
      (ap (λ (xs : List ℕ). pop_from order xs s) (sym e)) (refl, valid, fewer)

unlink_lem :
    (w idx : ℕ) (xs : List ℕ)
    → Mem idx xs
    → (length xs ≡ length (unlink idx xs) + 1)
      × (pages w xs ≡ pages w (unlink idx xs) + w)
      × ((j : ℕ) → idx ≢ j → Mem j xs → Mem j (unlink idx xs))
unlink_lem w idx [] m = absurd m
unlink_lem w idx (x ∷ xs) m = elim (Bool-cases (x == idx)) [
  | inl hit ↦ rw hit (
    omega arith,
    omega arith,
    λ j ne k. elim k [ inl same ↦ absurd (ne (ground (arith, hit, same))) | inr there ↦ there ],
  )
  | inr miss ↦
      let there : Mem idx xs = elim m [
        | inl same ↦ absurd (ground (arith, miss, same))
        | inr t ↦ t
      ] in
      let (len, pgs, keep) = unlink_lem w idx xs there in
      rw miss (
        omega (arith, len),
        omega (arith, pgs),
        λ j ne k. elim k [ inl same ↦ inl same | inr t ↦ inr (keep j ne t) ],
      )
]

-- Unlinking a listed block takes its pages away.
pub remove_lem :
    (order idx : ℕ) (s : Buddy)
    → IsValid s
    → order < 11
    → Mem idx (list_at s order).blocks
    → IsValid (remove order idx s)
      × (listed_pages (remove order idx s) + 2 ^ order ≡ listed_pages s)
unfolding remove
remove_lem order idx s v h m =
    let (len, pgs, keep) = unlink_lem (2 ^ order) idx (list_at s order).blocks m in
    shrink_lem order idx (unlink idx (list_at s order).blocks) s v h len pgs keep
