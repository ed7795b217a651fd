-- ===== src/Heap/Grow.antt =====
-- memory/heap.c: sizes rounded up, and the region that expand_heap adds.
use new_os.Base.{
  ℕ, zero, suc, ◌+◌, ◌-◌, ◌*◌, ◌/◌, ◌%◌, ◌^◌, ◌≤◌, ◌<◌, ◌≡◌, ◌≢◌, ◌⊎◌, inl, inr, refl, ap, sym,
  subst, ◌∙◌, Bool, true, false, not, ltb, if◌then◌else◌, List, [], ◌∷◌, ◌++◌, arith, Bool-cases,
  mod-eq_of_lt,
}
use new_os.Heap.{
  Block, Heap, heap_magic, hdr_size, heap_min_alloc, page_size, write, round_size, needed_for,
  map_pages, new_region, expand_heap, heap_init,
}
use new_os.Heap.Tiles.{In, Tiles, Tiles-cong, Tiles-range, Tiles-le, Tiles-snoc, In-append}
use new_os.Heap.Chain.{Links, Links-cong}
use new_os.Heap.Invariant.{IsValid, write-same, write-ne}

pub round_size_lem :
    (size : ℕ)
    → size + 64 ≤ 2 ^ 64
    → (size ≤ round_size size) × (round_size size ≤ size + 32) × (round_size size % 16 ≡ 0)
round_size_lem size small = elim (Bool-cases (ltb heap_min_alloc size)) [
  | inl e ↦ rw e (omega (arith, small), omega (arith, small), omega (arith, small))
  | inr e ↦
      let tiny : size ≤ 16 = ground (arith, e) in rw e (omega (arith, tiny), omega arith, refl)
]

pub needed_for_lem :
    (n : ℕ)
    → n + 8192 ≤ 2 ^ 64
    → (n + hdr_size ≤ needed_for n) × (needed_for n ≤ n + 4200) × (needed_for n % 16 ≡ 0)
needed_for_lem n small = (omega (arith, small), omega (arith, small), omega (arith, small))

-- A new region behind the break, as one free block at the head of the list.
pub new_region-IsValid :
    (needed : ℕ) (h : Heap) (bs fl : List ℕ)
    → IsValid h bs fl
    → hdr_size ≤ needed
    → needed % 16 ≡ 0
    → h.heap_current + needed ≤ h.heap_end_addr
    → h.heap_end_addr < 2 ^ 64
    → IsValid (new_region needed h) (bs ++ (h.heap_current ∷ [])) (h.heap_current ∷ fl)
unfolding new_region
new_region-IsValid needed h bs fl v big even inside small =
    let at = h.heap_current in
    let b : Block = record {
      magic = heap_magic;
      is_free = true;
      is_last = true;
      size = (needed + 2 ^ 64 - hdr_size) % 2 ^ 64;
      next = h.free_list;
    } in
    let m = write h.memory at b in
    let size : b.size + hdr_size ≡ needed = omega (arith, big, inside, small) in
    let new : m at ≡ b = write-same h.memory at b in
    let below =
      λ (x : ℕ) (i : In x bs). (Tiles-range h.memory h.heap_start_addr at x bs v.tiles i).1 in
    let old =
      λ (x : ℕ) (i : In x bs). write-ne h.memory at x b (λ e. omega (arith, e, below x i)) in
    let end : at + hdr_size + (m at).size ≡ (at + needed) % 2 ^ 64 =
      let grown : (m at).size ≡ b.size = ap (λ (k : Block). k.size) new in
      omega (arith, grown, size, inside, small) in
    record {
      aligned = v.aligned;
      started = v.started;
      inside = omega (arith, inside, small);
      tiles =
          subst (λ (k : ℕ). Tiles m h.heap_start_addr k (bs ++ (at ∷ []))) end
            (Tiles-snoc m h.heap_start_addr at bs
              (Tiles-cong h.memory m h.heap_start_addr at bs (λ x i. rw (old x i) (refl, refl))
                v.tiles)
              (rw new (refl, omega (arith, size, even))));
      links = (
        refl,
        (λ e. omega (arith, e, v.started, Tiles-le h.memory h.heap_start_addr at bs v.tiles)),
        subst (λ (k : ℕ). Links m k fl 0) (sym (ap (λ (k : Block). k.next) new))
            (Links-cong h.memory m h.free_list 0 fl
              (λ x i. ap (λ (k : Block). k.next) (old x (v.listed x i).0)) v.links),
      );
      distinct = (λ i. omega (arith, below at (v.listed at i).0), v.distinct);
      listed = λ x i. elim i [
        | inl e ↦
            subst (λ (k : ℕ). In k (bs ++ (at ∷ [])) × ((m k).is_free ≡ true)) (sym e)
              (In-append at bs (at ∷ []) (inr (inl refl)), ap (λ (k : Block). k.is_free) new)
        | inr j ↦
            let (b, f) = v.listed x j in
            (In-append x bs (at ∷ []) (inl b), ap (λ (k : Block). k.is_free) (old x b) ∙ f)
      ];
    }

-- What expand_heap may do to a heap of the blocks `bs` that is asked for n bytes: nothing; or it adds
-- one free block at the head of the list that is large enough.
pub record Grown (h : Heap) (bs fl : List ℕ) (n : ℕ) (t : Heap) : Type 0 where
  pub valid : IsValid t (bs ++ (h.heap_current ∷ [])) (h.heap_current ∷ fl)
  pub enough : n ≤ (t.memory h.heap_current).size
  pub old : (x : ℕ) → In x bs → t.memory x ≡ h.memory x
  pub outside : (x : ℕ) → In x bs → x ≢ h.heap_current

new_region-Grown :
    (n needed : ℕ) (h : Heap) (bs fl : List ℕ)
    → IsValid h bs fl
    → n + hdr_size ≤ needed
    → needed % 16 ≡ 0
    → h.heap_current + needed ≤ h.heap_end_addr
    → h.heap_end_addr < 2 ^ 64
    → Grown h bs fl n (new_region needed h)
unfolding new_region
new_region-Grown n needed h bs fl v big even inside small =
    let at = h.heap_current in
    let below =
      λ (x : ℕ) (i : In x bs). (Tiles-range h.memory h.heap_start_addr at x bs v.tiles i).1 in
    let b : Block = record {
      magic = heap_magic;
      is_free = true;
      is_last = true;
      size = (needed + 2 ^ 64 - hdr_size) % 2 ^ 64;
      next = h.free_list;
    } in
    let size : b.size + hdr_size ≡ needed = omega (arith, big, inside, small) in
    let new : (write h.memory at b at).size ≡ b.size =
      ap (λ (k : Block). k.size) (write-same h.memory at b) in
    record {
      valid = new_region-IsValid needed h bs fl v (omega (arith, big)) even inside small;
      enough = omega (arith, new, size, big);
      old = λ x i. write-ne h.memory at x b (λ e. omega (arith, e, below x i));
      outside = λ x i e. omega (arith, e, below x i);
    }

pub expand_heap-Grown :
    (page_ok : ℕ → Bool) (n : ℕ) (h : Heap) (bs fl : List ℕ)
    → IsValid h bs fl
    → n + 8192 + h.heap_end_addr ≤ 2 ^ 64
    → (let (ok, t) = expand_heap page_ok n h in
        ((ok ≡ false) × (t ≡ h)) ⊎ ((ok ≡ true) × Grown h bs fl n t))
unfolding expand_heap
expand_heap-Grown page_ok n h bs fl v small =
    let needed = needed_for n in
    let end = (h.heap_current + needed) % 2 ^ 64 in
    let (big, bound, even) = needed_for_lem n (omega (arith, small)) in
    elim (Bool-cases (ltb h.heap_end_addr end)) [
      | inl e ↦ rw e (inl (refl, refl))
      | inr e ↦
          elim (Bool-cases
            (map_pages page_ok h.heap_current ((end - h.heap_current) / page_size))) [
              | inr f ↦ rw (e, f) (inl (refl, refl))
              | inl f ↦
                  let le : end ≤ h.heap_end_addr = ground (arith, e) in
                  let exact : end ≡ h.heap_current + needed =
                    mod-eq_of_lt (omega (arith, bound, v.inside, small)) in
                  rw (e, f)
                    (inr (
                      refl,
                      new_region-Grown n needed h bs fl v big even (omega (arith, le, exact))
                          (omega (arith, small)),
                    ))
            ]
    ]

-- The pages from an address on that can be mapped, all of them or not.
map_pages_lem :
    (page_ok : ℕ → Bool) (n a : ℕ)
    → (((i : ℕ) → i < n → page_ok (a + i * page_size) ≡ true) × (map_pages page_ok a n ≡ true))
      ⊎ (((i : ℕ) × (i < n) × (page_ok (a + i * page_size) ≡ false))
          × (map_pages page_ok a n ≡ false))
unfolding map_pages
map_pages_lem page_ok zero a = inl ((λ i l. absurd (omega arith)), refl)
map_pages_lem page_ok (suc n) a =
    let first : a + 0 * page_size ≡ a = omega arith in
    let later : ((i : ℕ) → a + suc i * page_size ≡ a + page_size + i * page_size) =
      λ i. omega arith in
    elim (Bool-cases (page_ok a)) [
      | inr bad ↦ inr ((0, omega arith, ap page_ok first ∙ bad), rw bad refl)
      | inl good ↦ elim (map_pages_lem page_ok n (a + page_size)) [
        | inr ((i, l, bad), e) ↦
            inr ((suc i, omega arith, ap page_ok (later i) ∙ bad), rw (good, e) refl)
        | inl (all, e) ↦ inl (
          elim [
            | zero ↦ λ l. ap page_ok first ∙ good
            | suc i ↦ λ l. ap page_ok (later i) ∙ all i (omega arith)
          ],
          rw (good, e) refl,
        )
      ]
    ]

-- The heap before its first region.
abbrev bare : ℕ → ℕ → (ℕ → Block) → Heap
bare start size memory = record {
  heap_start_addr = start;
  heap_end_addr = (start + size) % 2 ^ 64;
  heap_current = start;
  free_list = 0;
  heap_used_bytes = 0;
  memory = memory;
}

-- The bytes that heap_init asks for, 1 MB with a header in whole pages, which are 257.
abbrev pub first_region : ℕ
first_region = 1052672

-- What heap_init leaves: no block, as the region is too large or one of its pages cannot be mapped;
-- or one free block of 1 MB or more, as it is not and all of them can.
abbrev pub Started : (ℕ → Bool) → ℕ → ℕ → Heap → Type 0
Started page_ok start size h =
    (((size < first_region) ⊎ ((i : ℕ) × (i < 257) × (page_ok (start + i * page_size) ≡ false)))
      × IsValid h [] [])
    ⊎ ((first_region ≤ size)
        × ((i : ℕ) → i < 257 → page_ok (start + i * page_size) ≡ true)
        × IsValid h (start ∷ []) (start ∷ [])
        × (2 ^ 20 ≤ (h.memory start).size))

-- Over memory that starts at a multiple of 16 and not at 0, with 2 MB of addresses behind its end,
-- heap_init leaves a valid heap: of one free block of at least 1 MB at the start if there is room
-- for 257 pages and each of them can be mapped; and of no block if there is no such room or one of
-- them cannot be mapped.
pub heap_init-IsValid :
    (page_ok : ℕ → Bool) (start size : ℕ) (memory : ℕ → Block)
    → start % 16 ≡ 0
    → 0 < start
    → start + size + 2 ^ 21 ≤ 2 ^ 64
    → Started page_ok start size (heap_init page_ok start size memory)
unfolding heap_init expand_heap
heap_init-IsValid page_ok start size memory even pos small =
    let h = bare start size memory in
    let end : (start + size) % 2 ^ 64 ≡ start + size = mod-eq_of_lt (omega (arith, small)) in
    let new : (start + first_region) % 2 ^ 64 ≡ start + first_region =
      mod-eq_of_lt (omega (arith, small)) in
    let v : IsValid h [] [] = record {
      aligned = even;
      started = pos;
      inside = omega (arith, end);
      tiles = refl;
      links = refl;
      distinct = tt;
      listed = λ x i. absurd i;
    } in
    let count : ((start + first_region) % 2 ^ 64 - start) / page_size ≡ 257 = omega (arith, new) in
    let full = ltb ((start + size) % 2 ^ 64) ((start + first_region) % 2 ^ 64) in
    let mapped = map_pages page_ok start (((start + first_region) % 2 ^ 64 - start) / page_size) in
    let by : Bool → Bool → Bool × Heap = λ x y.
      if x then (false, h) else if not y then (false, h) else (true, new_region first_region h) in
    let P : Bool × Heap → Type 0 = λ r. Started page_ok start size r.1 in
    elim (Bool-cases full) [
      | inl e ↦
          subst (λ (x : Bool). P (by x mapped)) (sym e) (inl (inl (ground (arith, e, end, new)), v))
      | inr e ↦ elim (map_pages_lem page_ok 257 start) [
        | inr (bad, f) ↦
            subst (λ (x : Bool). P (by x mapped)) (sym e)
              (subst (λ (y : Bool). P (by false y)) (sym (ap (map_pages page_ok start) count ∙ f))
                (inl (inr bad, v)))
        | inl (all, f) ↦
            let room : first_region ≤ size = ground (arith, e, end, new) in
            let g =
              new_region-Grown (2 ^ 20) first_region h [] [] v (omega arith) refl
                (omega (arith, room, end)) (omega (arith, end, small)) in
            subst (λ (x : Bool). P (by x mapped)) (sym e)
              (subst (λ (y : Bool). P (by false y)) (sym (ap (map_pages page_ok start) count ∙ f))
                (inr (room, all, g.valid, g.enough)))
      ]
    ]
