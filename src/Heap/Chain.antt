-- ===== src/Heap/Chain.antt =====
-- memory/heap.c: the free list, as the addresses that its links pass through.
use new_os.Base.{
  ℕ, ◌≡◌, ◌≢◌, ◌⊎◌, inl, inr, refl, sym, subst, ◌∙◌, List, [], ◌∷◌, ◌++◌, Option, none, some, arith,
}
use new_os.Heap.{Block}
use new_os.Heap.Tiles.{In}

-- From address p the links pass the blocks of the list and arrive at c.
abbrev pub Links : (ℕ → Block) → ℕ → List ℕ → ℕ → Type 0
Links m p [] c = p ≡ c
Links m p (b ∷ bs) c = (b ≡ p) × (p ≢ 0) × Links m (m p).next bs c

abbrev pub IsDistinct : List ℕ → Type 0
IsDistinct [] = Unit
IsDistinct (b ∷ bs) = (¬ In b bs) × IsDistinct bs

-- The block whose link is followed last.
abbrev pub last_link : List ℕ → Option ℕ
last_link [] = none
last_link (b ∷ []) = some b
last_link (b ∷ b' ∷ bs) = last_link (b' ∷ bs)

pub In-last_link : (q : ℕ) (bs : List ℕ) → last_link bs ≡ some q → In q bs
In-last_link q [] e = absurd (ground arith)
In-last_link q (b ∷ []) e = inl (ground arith)
In-last_link q (b ∷ b' ∷ bs) e = inr (In-last_link q (b' ∷ bs) e)

pub last_link-some : (b : ℕ) (bs : List ℕ) → (q : ℕ) × (last_link (b ∷ bs) ≡ some q)
last_link-some b [] = (b, refl)
last_link-some b (b' ∷ bs) = last_link-some b' bs

pub last_link-snoc : (q : ℕ) (bs : List ℕ) → last_link (bs ++ (q ∷ [])) ≡ some q
last_link-snoc q [] = refl
last_link-snoc q (b ∷ []) = refl
last_link-snoc q (b ∷ b' ∷ bs) = last_link-snoc q (b' ∷ bs)

pub Links-cong :
    (m m' : ℕ → Block) (p c : ℕ) (bs : List ℕ)
    → ((x : ℕ) → In x bs → (m' x).next ≡ (m x).next)
    → Links m p bs c
    → Links m' p bs c
Links-cong m m' p c [] same l = l
Links-cong m m' p c (b ∷ bs) same (e, nz, l) =
    let here : (m' p).next ≡ (m p).next =
      subst (λ (n : ℕ). (m' n).next ≡ (m n).next) e (same b (inl refl)) in
    (
      e,
      nz,
      subst (λ (n : ℕ). Links m' n bs c) (sym here)
          (Links-cong m m' (m p).next c bs (λ x i. same x (inr i)) l),
    )

pub Links-append :
    (m : ℕ → Block) (p c d : ℕ) (bs cs : List ℕ)
    → Links m p bs c
    → Links m c cs d
    → Links m p (bs ++ cs) d
Links-append m p c d [] cs l k = subst (λ (n : ℕ). Links m n cs d) (sym l) k
Links-append m p c d (b ∷ bs) cs (e, nz, l) k = (e, nz, Links-append m (m p).next c d bs cs l k)

-- The links arrive at each block of the list.
pub Links-at :
    (m : ℕ → Block) (p c d : ℕ) (bs cs : List ℕ)
    → Links m p (bs ++ (c ∷ cs)) d
    → Links m p bs c × (c ≢ 0) × Links m (m c).next cs d
Links-at m p c d [] cs (e, nz, l) =
    (sym e, λ f. nz (sym e ∙ f), subst (λ (n : ℕ). Links m (m n).next cs d) (sym e) l)
Links-at m p c d (b ∷ bs) cs (e, nz, l) =
    let (front, there, back) = Links-at m (m p).next c d bs cs l in ((e, nz, front), there, back)

-- The last link of a segment is turned to v.
pub Links-relink :
    (m m' : ℕ → Block) (p c v q : ℕ) (bs : List ℕ)
    → Links m p bs c
    → IsDistinct bs
    → last_link bs ≡ some q
    → (m' q).next ≡ v
    → ((x : ℕ) → In x bs → x ≢ q → (m' x).next ≡ (m x).next)
    → Links m' p bs v
Links-relink m m' p c v q [] l d e to same = absurd (ground arith)
Links-relink m m' p c v q (b ∷ []) (r, nz, l) d e to same =
    let at_q : q ≡ p = ground (arith, r) in (r, nz, subst (λ (n : ℕ). (m' n).next ≡ v) at_q to)
Links-relink m m' p c v q (b ∷ b' ∷ bs) (r, nz, l) (fresh, d) e to same =
    let ne : b ≢ q =
      λ f. fresh (subst (λ (n : ℕ). In n (b' ∷ bs)) (sym f) (In-last_link q (b' ∷ bs) e)) in
    let here : (m' p).next ≡ (m p).next =
      subst (λ (n : ℕ). (m' n).next ≡ (m n).next) r (same b (inl refl) ne) in
    (
      r,
      nz,
      subst (λ (n : ℕ). Links m' n (b' ∷ bs) v) (sym here)
          (Links-relink m m' (m p).next c v q (b' ∷ bs) l d e to (λ x i. same x (inr i))),
    )

pub In-cases : (x : ℕ) (xs ys : List ℕ) → In x (xs ++ ys) → In x xs ⊎ In x ys
In-cases x [] ys i = inr i
In-cases x (y ∷ xs) ys (inl e) = inl (inl e)
In-cases x (y ∷ xs) ys (inr i) = elim (In-cases x xs ys i) [ inl j ↦ inl (inr j) | inr j ↦ inr j ]

pub In-left : (x : ℕ) (xs ys : List ℕ) → In x xs → In x (xs ++ ys)
In-left x [] ys i = absurd i
In-left x (y ∷ xs) ys (inl e) = inl e
In-left x (y ∷ xs) ys (inr i) = inr (In-left x xs ys i)

pub In-right : (x : ℕ) (xs ys : List ℕ) → In x ys → In x (xs ++ ys)
In-right x [] ys i = i
In-right x (y ∷ xs) ys i = inr (In-right x xs ys i)

pub IsDistinct-left : (xs ys : List ℕ) → IsDistinct (xs ++ ys) → IsDistinct xs
IsDistinct-left [] ys d = tt
IsDistinct-left (x ∷ xs) ys (n, d) = (λ i. n (In-left x xs ys i), IsDistinct-left xs ys d)

-- What stands before and what stands behind differ.
pub IsDistinct-apart : (x : ℕ) (xs ys : List ℕ) → IsDistinct (xs ++ ys) → In x xs → ¬ In x ys
IsDistinct-apart x [] ys d i = absurd i
IsDistinct-apart x (y ∷ xs) ys (n, d) (inl e) =
    λ j. n (In-right y xs ys (subst (λ (k : ℕ). In k ys) e j))
IsDistinct-apart x (y ∷ xs) ys (n, d) (inr i) = IsDistinct-apart x xs ys d i

pub IsDistinct-right : (xs ys : List ℕ) → IsDistinct (xs ++ ys) → IsDistinct ys
IsDistinct-right [] ys d = d
IsDistinct-right (x ∷ xs) ys (n, d) = IsDistinct-right xs ys d

pub IsDistinct-append :
    (xs ys : List ℕ)
    → IsDistinct xs
    → IsDistinct ys
    → ((x : ℕ) → In x xs → ¬ In x ys)
    → IsDistinct (xs ++ ys)
IsDistinct-append [] ys d e apart = e
IsDistinct-append (x ∷ xs) ys (n, d) e apart = (
  λ i. elim (In-cases x xs ys i) [ inl j ↦ n j | inr j ↦ apart x (inl refl) j ],
  IsDistinct-append xs ys d e (λ y j. apart y (inr j)),
)
