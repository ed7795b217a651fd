-- ===== src/Heap/Free.antt =====
-- memory/heap.c: kfree, and the loop in which it joins free blocks.
use new_os.Base.{
  ℕ, zero, suc, ◌+◌, ◌-◌, ◌<◌, ◌≡◌, ◌≢◌, inl, inr, refl, ap, sym, subst, ◌∙◌, Bool, true, false,
  not, ◌||◌, ◌==◌, if◌then◌else◌, if-elim, List, [], ◌∷◌, length, arith, differ, Bool-cases,
}
use new_os.Heap.{
  Block, Heap, returns, panics, runs_on, heap_magic, hdr_size, write, merge_block, behind_free,
  coalesce, freed, kfree,
}
use new_os.Heap.Tiles.{In, Tiles-cong, Tiles-IsHeader, Tiles-range}
use new_os.Heap.Chain.{Links, Links-cong}
use new_os.Heap.Invariant.{IsValid, write-same, write-ne}

pub freed-IsValid :
    (p : ℕ) (h : Heap) (bs fl : List ℕ)
    → IsValid h bs fl
    → In p bs
    → (h.memory p).is_free ≡ false
    → IsValid (freed p h) bs (p ∷ fl)
freed-IsValid p h bs fl v i busy =
    let m = h.memory in
    let b : Block = record (m p) { is_free = true; next = h.free_list } in
    let m' = write m p b in
    let new : m' p ≡ b = write-same m p b in
    let fresh : ¬ In p fl = λ j. differ busy (v.listed p j).1 in
    let other =
      λ (x : ℕ) (j : In x fl). write-ne m p x b (λ e. fresh (subst (λ (k : ℕ). In k fl) e j)) in
    let (low, high) = Tiles-range m h.heap_start_addr h.heap_current p bs v.tiles i in
    record {
      aligned = v.aligned;
      started = v.started;
      inside = v.inside;
      tiles =
          Tiles-cong m m' h.heap_start_addr h.heap_current bs
            (λ x j. elim (Bool-cases (p == x)) [
              | inl e ↦ let same : p ≡ x = ground arith in rw (e, same) (refl, refl)
              | inr e ↦ rw e (refl, refl)
            ])
            v.tiles;
      links = (
        refl,
        (λ e. omega (arith, e, low, v.started)),
        subst (λ (k : ℕ). Links m' k fl 0) (sym (ap (λ (k : Block). k.next) new))
            (Links-cong m m' h.free_list 0 fl (λ x j. ap (λ (k : Block). k.next) (other x j))
              v.links),
      );
      distinct = (fresh, v.distinct);
      listed = λ x j. elim j [
        | inl e ↦
            subst (λ (k : ℕ). In k bs × ((m' k).is_free ≡ true)) (sym e)
              (i, ap (λ (k : Block). k.is_free) new)
        | inr k ↦ let (t, f) = v.listed x k in (t, ap (λ (k : Block). k.is_free) (other x k) ∙ f)
      ];
    }

-- Where no listed block has a free block behind it, the loop changes nothing.
coalesce_quiet :
    (fuel : ℕ) (h : Heap) (todo : List ℕ) (curr : ℕ)
    → Links h.memory curr todo 0
    → length todo < fuel
    → ((x : ℕ) → In x todo → behind_free x h ≡ false)
    → coalesce fuel curr h ≡ returns h
unfolding coalesce
coalesce_quiet zero h todo curr l enough quiet = absurd (omega arith)
coalesce_quiet (suc fuel) h [] curr l enough quiet =
    let at_end : (curr == 0) ≡ true = ground (arith, l) in rw at_end refl
coalesce_quiet (suc fuel) h (b ∷ rest) curr (at, nz, l) enough quiet =
    let none_behind : behind_free curr h ≡ false =
      subst (λ (k : ℕ). behind_free k h ≡ false) at (quiet b (inl refl)) in
    let later =
      coalesce_quiet fuel h rest (h.memory curr).next l (omega arith) (λ x i. quiet x (inr i)) in
    if-elim (λ r. r ≡ returns h) (curr == 0 || (h.memory curr).is_last) refl
      (subst
        (λ k.
          coalesce fuel (if k then curr else (h.memory curr).next)
            (if k then merge_block curr h else h)
          ≡ returns h)
        (sym none_behind) later)

-- kfree of a block in use gets to its loop.
pub kfree_busy :
    (fuel p : ℕ) (h : Heap)
    → (h.memory p).magic ≡ heap_magic
    → (h.memory p).is_free ≡ false
    → kfree fuel (p + hdr_size) h ≡ coalesce fuel p (freed p h)
unfolding kfree
kfree_busy fuel p h magic busy =
    let back : p + hdr_size - hdr_size ≡ p = omega arith in
    let z : (p + hdr_size == 0) ≡ false = ground arith in
    let P = λ (k : ℕ).
      (if p + hdr_size == 0
        then returns h
        else if not ((h.memory k).magic == heap_magic)
        then panics
        else if (h.memory k).is_free
        then panics
        else coalesce fuel k (freed k h))
      ≡ coalesce fuel p (freed p h) in
    let good : ((h.memory p).magic == heap_magic) ≡ true = ground (arith, magic) in
    subst P (sym back) (rw (z, good, busy) refl)

-- In a valid heap, with enough fuel to pass the free list, kfree of a block in use returns if, once
-- the block is marked as free, no block of the free list has a free block right behind it: the
-- block is free and at the head of the list, all else is as it was, and the heap is valid.
pub kfree-freed :
    (fuel p : ℕ) (h : Heap) (bs fl : List ℕ)
    → IsValid h bs fl
    → In p bs
    → (h.memory p).is_free ≡ false
    → length fl + 1 < fuel
    → ((x : ℕ) → In x (p ∷ fl) → behind_free x (freed p h) ≡ false)
    → (kfree fuel (p + hdr_size) h ≡ returns (freed p h)) × IsValid (freed p h) bs (p ∷ fl)
kfree-freed fuel p h bs fl v i busy enough quiet =
    let valid = freed-IsValid p h bs fl v i busy in
    let (magic, even) = Tiles-IsHeader h.memory h.heap_start_addr h.heap_current p bs v.tiles i in
    (
      kfree_busy fuel p h magic busy
          ∙ coalesce_quiet fuel (freed p h) (p ∷ fl) p valid.links (omega (arith, enough)) quiet,
      valid,
    )

-- A block that is its own successor, with nothing free behind it, keeps the loop running.
pub coalesce_circle :
    (fuel curr : ℕ) (h : Heap)
    → curr ≢ 0
    → (h.memory curr).is_last ≡ false
    → (h.memory curr).next ≡ curr
    → behind_free curr h ≡ false
    → coalesce fuel curr h ≡ runs_on
unfolding coalesce
coalesce_circle zero curr h nz last circle none_behind = refl
coalesce_circle (suc fuel) curr h nz last circle none_behind =
    let z : (curr == 0 || (h.memory curr).is_last) ≡ false = ground (arith, nz, last) in
    let again = coalesce_circle fuel curr h nz last circle none_behind in
    let P = λ (b k : Bool) (n : ℕ).
      (if b
        then returns h
        else coalesce fuel (if k then curr else n) (if k then merge_block curr h else h))
      ≡ runs_on in
    subst (λ b. P b (behind_free curr h) (h.memory curr).next) (sym z)
      (subst (λ k. P false k (h.memory curr).next) (sym none_behind)
        (subst (P false false) (sym circle) again))

-- One round of the loop, where nothing is joined and where something is.
pub coalesce-next :
    (fuel curr : ℕ) (h : Heap)
    → curr ≢ 0
    → (h.memory curr).is_last ≡ false
    → behind_free curr h ≡ false
    → coalesce (suc fuel) curr h ≡ coalesce fuel (h.memory curr).next h
unfolding coalesce
coalesce-next fuel curr h nz last none_behind =
    let z : (curr == 0 || (h.memory curr).is_last) ≡ false = ground (arith, nz, last) in
    rw (z, none_behind) refl

pub coalesce-merge_block :
    (fuel curr : ℕ) (h : Heap)
    → curr ≢ 0
    → (h.memory curr).is_last ≡ false
    → behind_free curr h ≡ true
    → coalesce (suc fuel) curr h ≡ coalesce fuel curr (merge_block curr h)
unfolding coalesce
coalesce-merge_block fuel curr h nz last some_behind =
    let z : (curr == 0 || (h.memory curr).is_last) ≡ false = ground (arith, nz, last) in
    rw (z, some_behind) refl
