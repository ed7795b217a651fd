-- ===== src/Heap/Alloc.antt =====
-- memory/heap.c: kmalloc, its search of the free list and its second try behind expand_heap.
use new_os.Base.{
  ℕ, zero, suc, ◌+◌, ◌%◌, ◌<◌, ◌≡◌, ◌⊎◌, inl, inr, refl, sym, subst, Bool, true, false, not, ◌&&◌,
  ◌==◌, if◌then◌else◌, leb, leb→le, List, [], ◌∷◌, ◌++◌, length, append_assoc, Option, none, some,
  arith, Bool-cases,
}
use new_os.Heap.{
  Heap, Outcome, returns, panics, runs_on, heap_magic, hdr_size, first_fit, use_block,
}
use new_os.Heap.Tiles.{In, Tiles-IsHeader}
use new_os.Heap.Chain.{Links, Links-at, last_link, last_link-snoc, In-right}
use new_os.Heap.Invariant.{IsValid}
use new_os.Heap.Take.{Given, use_block-Given}

-- What the search of the free list comes to: a block is taken, or none of those left is large enough.
abbrev pub Fit : Heap → List ℕ → ℕ → List ℕ → Outcome (Option (ℕ × Heap)) → Type 0
Fit h bs n todo (returns none) = (x : ℕ) → In x todo → (h.memory x).size < n
Fit h bs n todo (returns (some (p, t))) = (c : ℕ) × (p ≡ c + hdr_size) × Given h bs n c t
Fit h bs n todo panics = ⊥
Fit h bs n todo runs_on = ⊥

Fit-later :
    (h : Heap) (bs : List ℕ) (n b : ℕ) (todo : List ℕ) (r : Outcome (Option (ℕ × Heap)))
    → (h.memory b).size < n
    → Fit h bs n todo r
    → Fit h bs n (b ∷ todo) r
Fit-later h bs n b todo (returns none) small f =
    λ x i. elim i [ inl e ↦ subst (λ (k : ℕ). (h.memory k).size < n) (sym e) small | inr j ↦ f x j ]
Fit-later h bs n b todo (returns (some (p, t))) small f = f
Fit-later h bs n b todo panics small f = f
Fit-later h bs n b todo runs_on small f = f

-- One round of the loop, at block b.
Fit-step :
    (n : ℕ) (h : Heap) (bs done rest : List ℕ) (b : ℕ) (later : Outcome (Option (ℕ × Heap)))
    → IsValid h bs (done ++ (b ∷ rest))
    → n % 16 ≡ 0
    → Fit h bs n rest later
    → Fit h bs n (b ∷ rest) (
        let x = h.memory b in
        if b == 0
        then returns none
        else if not (x.magic == heap_magic)
        then panics
        else if x.is_free && leb n x.size
        then returns (some (use_block n (last_link done) b h))
        else later)
Fit-step n h bs done rest b later v even f =
    let x = h.memory b in
    let (tile, state) = v.listed b (In-right b done (b ∷ rest) (inl refl)) in
    let (front, nz, back) = Links-at h.memory h.free_list b 0 done rest v.links in
    let (magic, multiple) =
      Tiles-IsHeader h.memory h.heap_start_addr h.heap_current b bs v.tiles tile in
    let U = use_block n (last_link done) b h in
    let P = λ (z g k : Bool). Fit h bs n (b ∷ rest) (
      if z
      then returns none
      else if not g
      then panics
      else if k
      then returns (some U)
      else later) in
    let z : (b == 0) ≡ false = ground (arith, nz) in
    let g : (x.magic == heap_magic) ≡ true = ground (arith, magic) in
    subst (λ k. P k (x.magic == heap_magic) (x.is_free && leb n x.size)) (sym z)
      (subst (λ k. P false k (x.is_free && leb n x.size)) (sym g)
        (elim (Bool-cases (leb n x.size)) [
          | inl e ↦
              let k : (x.is_free && leb n x.size) ≡ true = ground (arith, state, e) in
              let (given, at) = use_block-Given h bs done rest b v n even (leb→le n x.size e) in
              subst (P false true) (sym k) (b, at, given)
          | inr e ↦
              let k : (x.is_free && leb n x.size) ≡ false = ground (arith, state, e) in
              subst (P false true) (sym k) (Fit-later h bs n b rest later (ground (arith, e)) f)
        ]))

pub first_fit-Fit :
    (fuel n : ℕ) (h : Heap) (bs done todo : List ℕ) (curr : ℕ)
    → IsValid h bs (done ++ todo)
    → Links h.memory curr todo 0
    → length todo < fuel
    → n % 16 ≡ 0
    → Fit h bs n todo (first_fit fuel n (last_link done) curr h)
unfolding first_fit
first_fit-Fit zero n h bs done todo curr v l enough even = absurd (omega arith)
first_fit-Fit (suc fuel) n h bs done [] curr v l enough even =
    let at_end : (curr == 0) ≡ true = ground (arith, l) in rw at_end (λ x i. absurd i)
first_fit-Fit (suc fuel) n h bs done (b ∷ rest) curr v (at, nz, l) enough even =
    let moved : IsValid h bs ((done ++ (b ∷ [])) ++ rest) =
      subst (IsValid h bs) (sym (append_assoc done (b ∷ []) rest)) v in
    let later =
      first_fit-Fit fuel n h bs (done ++ (b ∷ [])) rest (h.memory b).next moved
        (subst (λ (k : ℕ). Links h.memory (h.memory k).next rest 0) (sym at) l) (omega arith)
        even in
    let next = (h.memory b).next in
    subst (λ (k : ℕ). Fit h bs n (b ∷ rest) (first_fit (suc fuel) n (last_link done) k h)) at
      (Fit-step n h bs done rest b (first_fit fuel n (some b) next h) v even
        (subst (λ o. Fit h bs n rest (first_fit fuel n o next h)) (last_link-snoc b done) later))

-- What kmalloc promises: NULL and the heap as it was, or a block of the heap that was not in use.
abbrev pub Allocated : Heap → List ℕ → ℕ → Outcome (ℕ × Heap) → Type 0
Allocated h bs size (returns (p, t)) =
    ((p ≡ 0) × (t ≡ h)) ⊎ ((c : ℕ) × (p ≡ c + hdr_size) × (p % 16 ≡ 0) × Given h bs size c t)
Allocated h bs size panics = ⊥
Allocated h bs size runs_on = ⊥
