-- ===== src/Heap/Tiles.antt =====
-- memory/heap.c: the blocks of the heap, which lie one behind another from its start to its break.
use new_os.Base.{
  ℕ, ◌+◌, ◌%◌, ◌≤◌, ◌<◌, ◌≡◌, ◌≢◌, ◌⊎◌, inl, inr, refl, ap, sym, subst, ◌∙◌, true, false, ◌==◌,
  if◌then◌else◌, List, [], ◌∷◌, ◌++◌, ℕ_discrete, arith, Bool-cases,
}
use new_os.Heap.{Block, heap_magic, hdr_size}

-- Membership, as cases.
abbrev pub In : ℕ → List ℕ → Type 0
In x [] = ⊥
In x (y ∷ ys) = (x ≡ y) ⊎ In x ys

-- A header that stands where a block begins; data areas are multiples of 16 bytes.
abbrev pub IsHeader : Block → Type 0
IsHeader b = (b.magic ≡ heap_magic) × (b.size % 16 ≡ 0)

-- From a to e the memory is a row of blocks, at the addresses of the list.
abbrev pub Tiles : (ℕ → Block) → ℕ → ℕ → List ℕ → Type 0
Tiles m a e [] = a ≡ e
Tiles m a e (b ∷ bs) = (b ≡ a) × IsHeader (m a) × Tiles m (a + hdr_size + (m a).size) e bs

pub Tiles-le : (m : ℕ → Block) (a e : ℕ) (bs : List ℕ) → Tiles m a e bs → a ≤ e
Tiles-le m a e [] t = omega (arith, t)
Tiles-le m a e (b ∷ bs) (p, h, t) = omega (arith, Tiles-le m (a + hdr_size + (m a).size) e bs t)

-- Each block lies inside.
pub Tiles-range :
    (m : ℕ → Block) (a e x : ℕ) (bs : List ℕ)
    → Tiles m a e bs
    → In x bs
    → (a ≤ x) × (x + hdr_size + (m x).size ≤ e)
Tiles-range m a e x [] t i = absurd i
Tiles-range m a e x (b ∷ bs) (p, h, t) (inl q) =
    let le = Tiles-le m (a + hdr_size + (m a).size) e bs t in
    let at_x : a ≡ x = omega (arith, p, q) in (omega arith, rw (← at_x) le)
Tiles-range m a e x (b ∷ bs) (p, h, t) (inr i) =
    let (low, high) = Tiles-range m (a + hdr_size + (m a).size) e x bs t i in (omega arith, high)

pub Tiles-IsHeader :
    (m : ℕ → Block) (a e x : ℕ) (bs : List ℕ) → Tiles m a e bs → In x bs → IsHeader (m x)
Tiles-IsHeader m a e x [] t i = absurd i
Tiles-IsHeader m a e x (b ∷ bs) (p, h, t) (inl q) =
    subst (λ (n : ℕ). IsHeader (m n)) (sym p ∙ sym q) h
Tiles-IsHeader m a e x (b ∷ bs) (p, h, t) (inr i) =
    Tiles-IsHeader m (a + hdr_size + (m a).size) e x bs t i

-- Two blocks do not overlap.
pub Tiles-disjoint :
    (m : ℕ → Block) (a e x y : ℕ) (bs : List ℕ)
    → Tiles m a e bs
    → In x bs
    → In y bs
    → x < y
    → x + hdr_size + (m x).size ≤ y
Tiles-disjoint m a e x y [] t i j l = absurd i
Tiles-disjoint m a e x y (b ∷ bs) (p, h, t) (inl q) (inl r) l = absurd (omega arith)
Tiles-disjoint m a e x y (b ∷ bs) (p, h, t) (inl q) (inr j) l =
    let (low, high) = Tiles-range m (a + hdr_size + (m a).size) e y bs t j in
    let at_x : a ≡ x = omega (arith, p, q) in rw (← at_x) low
Tiles-disjoint m a e x y (b ∷ bs) (p, h, t) (inr i) (inl r) l =
    let (low, high) = Tiles-range m (a + hdr_size + (m a).size) e x bs t i in absurd (omega arith)
Tiles-disjoint m a e x y (b ∷ bs) (p, h, t) (inr i) (inr j) l =
    Tiles-disjoint m (a + hdr_size + (m a).size) e x y bs t i j l

-- Two headers that agree for the tiling.
abbrev pub SameShape : Block → Block → Type 0
SameShape b b' = (b'.magic ≡ b.magic) × (b'.size ≡ b.size)

IsHeader-SameShape : (b b' : Block) → SameShape b b' → IsHeader b → IsHeader b'
IsHeader-SameShape b b' (p, q) (h, s) = (p ∙ h, ap (λ (n : ℕ). n % 16) q ∙ s)

-- Only the headers of the blocks matter.
pub Tiles-cong :
    (m m' : ℕ → Block) (a e : ℕ) (bs : List ℕ)
    → ((x : ℕ) → In x bs → SameShape (m x) (m' x))
    → Tiles m a e bs
    → Tiles m' a e bs
Tiles-cong m m' a e [] same t = t
Tiles-cong m m' a e (b ∷ bs) same (p, h, t) =
    let here = subst (λ (n : ℕ). SameShape (m n) (m' n)) p (same b (inl refl)) in
    (
      p,
      IsHeader-SameShape (m a) (m' a) here h,
      subst (λ (n : ℕ). Tiles m' (a + hdr_size + n) e bs) (sym here.1)
          (Tiles-cong m m' (a + hdr_size + (m a).size) e bs (λ x i. same x (inr i)) t),
    )

abbrev pub insert_behind : ℕ → ℕ → List ℕ → List ℕ
insert_behind p n [] = []
insert_behind p n (b ∷ bs) = if b == p then b ∷ n ∷ bs else b ∷ insert_behind p n bs

-- The memory changes at most at p and n, as far as the tiling goes.
abbrev pub SameElsewhere : (ℕ → Block) → (ℕ → Block) → ℕ → ℕ → Type 0
SameElsewhere m m' p n = (x : ℕ) → x ≢ p → x ≢ n → SameShape (m x) (m' x)

-- The first block is cut into two.
Tiles-cut :
    (m m' : ℕ → Block) (a e n : ℕ) (bs : List ℕ)
    → Tiles m (a + hdr_size + (m a).size) e bs
    → IsHeader (m' n)
    → n ≡ a + hdr_size + (m' a).size
    → n + hdr_size + (m' n).size ≡ a + hdr_size + (m a).size
    → SameElsewhere m m' a n
    → Tiles m' (a + hdr_size + (m' a).size) e (n ∷ bs)
Tiles-cut m m' a e n bs t hn split whole same =
    let rest =
      Tiles-cong m m' (a + hdr_size + (m a).size) e bs
        (λ x i.
          let (low, high) = Tiles-range m (a + hdr_size + (m a).size) e x bs t i in
          same x (λ q. omega arith) (λ q. omega (arith, q, low, whole)))
        t in
    (
      split,
      subst (λ (k : ℕ). IsHeader (m' k)) split hn,
      subst (λ (k : ℕ). Tiles m' (k + hdr_size + (m' k).size) e bs) split
          (subst (λ (k : ℕ). Tiles m' k e bs) (sym whole) rest),
    )

-- Block p is cut into two.
pub Tiles-split :
    (m m' : ℕ → Block) (a e p n : ℕ) (bs : List ℕ)
    → Tiles m a e bs
    → In p bs
    → IsHeader (m' p)
    → IsHeader (m' n)
    → n ≡ p + hdr_size + (m' p).size
    → n + hdr_size + (m' n).size ≡ p + hdr_size + (m p).size
    → SameElsewhere m m' p n
    → Tiles m' a e (insert_behind p n bs)
Tiles-split m m' a e p n [] t i hp hn split whole same = absurd i
Tiles-split m m' a e p n (b ∷ bs) (q, h, t) i hp hn split whole same = elim (ℕ_discrete b p) [
  | yes r ↦
      let pa : p ≡ a = sym r ∙ q in
      let found : (b == p) ≡ true = ground (arith, r) in
      rw found (
        q,
        subst (λ (k : ℕ). IsHeader (m' k)) pa hp,
        Tiles-cut m m' a e n bs t hn (subst (λ (k : ℕ). n ≡ k + hdr_size + (m' k).size) pa split)
            (subst (λ (k : ℕ). n + hdr_size + (m' n).size ≡ k + hdr_size + (m k).size) pa whole)
            (λ x na nn. same x (λ f. na (f ∙ pa)) nn),
      )
  | no r ↦
      let passed : (b == p) ≡ false = ground (arith, r) in
      let later : In p bs = elim i [ inl f ↦ absurd (r (sym f)) | inr j ↦ j ] in
      let (low, high) = Tiles-range m (a + hdr_size + (m a).size) e p bs t later in
      let kept = same a (λ f. omega arith) (λ f. omega (arith, f, low, split)) in
      rw passed (
        q,
        IsHeader-SameShape (m a) (m' a) kept h,
        subst (λ (k : ℕ). Tiles m' (a + hdr_size + k) e (insert_behind p n bs)) (sym kept.1)
            (Tiles-split m m' (a + hdr_size + (m a).size) e p n bs t later hp hn split whole same),
      )
]

pub In-insert_behind : (x p n : ℕ) (bs : List ℕ) → In x bs → In x (insert_behind p n bs)
In-insert_behind x p n [] i = absurd i
In-insert_behind x p n (b ∷ bs) (inl e) = elim (Bool-cases (b == p)) [
  | inl f ↦ rw f (inl e)
  | inr f ↦ rw f (inl e)
]
In-insert_behind x p n (b ∷ bs) (inr i) = elim (Bool-cases (b == p)) [
  | inl f ↦ rw f (inr (inr i))
  | inr f ↦ rw f (inr (In-insert_behind x p n bs i))
]

pub In-insert_behind_new : (p n : ℕ) (bs : List ℕ) → In p bs → In n (insert_behind p n bs)
In-insert_behind_new p n [] i = absurd i
In-insert_behind_new p n (b ∷ bs) i = elim (ℕ_discrete b p) [
  | yes r ↦ let found : (b == p) ≡ true = ground (arith, r) in rw found (inr (inl refl))
  | no r ↦
      let passed : (b == p) ≡ false = ground (arith, r) in
      rw passed
        (elim i [ inl f ↦ absurd (r (sym f)) | inr j ↦ inr (In-insert_behind_new p n bs j) ])
]

-- A row of blocks goes on with the block behind it.
pub Tiles-snoc :
    (m : ℕ → Block) (a e : ℕ) (bs : List ℕ)
    → Tiles m a e bs
    → IsHeader (m e)
    → Tiles m a (e + hdr_size + (m e).size) (bs ++ (e ∷ []))
Tiles-snoc m a e [] t h = (sym t, rw t h, ap (λ (k : ℕ). k + hdr_size + (m k).size) t)
Tiles-snoc m a e (b ∷ bs) (p, g, t) h = (p, g, Tiles-snoc m (a + hdr_size + (m a).size) e bs t h)

pub In-append : (x : ℕ) (xs ys : List ℕ) → In x xs ⊎ In x ys → In x (xs ++ ys)
In-append x [] ys (inl i) = absurd i
In-append x [] ys (inr j) = j
In-append x (y ∷ xs) ys (inl (inl e)) = inl e
In-append x (y ∷ xs) ys (inl (inr i)) = inr (In-append x xs ys (inl i))
In-append x (y ∷ xs) ys (inr j) = inr (In-append x xs ys (inr j))

-- Blocks begin at multiples of 16, if the first does.
pub Tiles-aligned :
    (m : ℕ → Block) (a e x : ℕ) (bs : List ℕ) → Tiles m a e bs → a % 16 ≡ 0 → In x bs → x % 16 ≡ 0
Tiles-aligned m a e x [] t even i = absurd i
Tiles-aligned m a e x (b ∷ bs) (p, h, t) even (inl q) = omega (arith, p, q, even)
Tiles-aligned m a e x (b ∷ bs) (p, h, t) even (inr i) =
    Tiles-aligned m (a + hdr_size + (m a).size) e x bs t (omega (arith, h.1, even)) i
