-- ===== src/Heap/Take.antt =====
-- memory/heap.c: the block that kmalloc gives, whole or split.
use new_os.Base.{
  ℕ, ◌+◌, ◌-◌, ◌%◌, ◌≤◌, ◌≡◌, ◌≢◌, ◌⊎◌, inl, inr, refl, ap, sym, subst, ◌∙◌, true, false, leb,
  leb→le, List, [], ◌∷◌, ◌++◌, Option, some, arith, Bool-cases,
}
use new_os.Heap.{
  Block, Heap, heap_magic, hdr_size, heap_min_alloc, write, set_prev, split_block, take_block,
  use_block,
}
use new_os.Heap.Tiles.{
  In, Tiles, SameShape, Tiles-cong, Tiles-IsHeader, Tiles-split, Tiles-disjoint, insert_behind,
  In-insert_behind, In-insert_behind_new,
}
use new_os.Heap.Chain.{
  Links, Links-at, IsDistinct, last_link, In-last_link, In-cases, In-left, In-right,
  IsDistinct-left, IsDistinct-right, IsDistinct-apart, IsDistinct-append,
}
use new_os.Heap.Invariant.{IsValid, Unlinked, Links-Unlinked, head_after, write-same, write-ne}
use new_os.Heap.Unlink.{
  turn, set_prev-turn, turn-SameShape, turn_next, used, used_ne, used-turn-SameShape, used-Unlinked,
}

-- From h to h' the block p is given to a caller who asked for n bytes: it was not in use, now it is,
-- it is large enough and aligned, and every other block keeps its place, its size and its state.
pub record Given (h : Heap) (bs : List ℕ) (n p : ℕ) (h' : Heap) : Type 0 where
  pub blocks : List ℕ
  pub free_blocks : List ℕ
  pub valid : IsValid h' blocks free_blocks
  pub here : In p blocks
  pub in_use : (h'.memory p).is_free ≡ false
  pub enough : n ≤ (h'.memory p).size
  pub was_free : In p bs → (h.memory p).is_free ≡ true
  pub others :
      (x : ℕ)
      → In x bs
      → x ≢ p
      → In x blocks
        × SameShape (h.memory x) (h'.memory x)
        × ((h'.memory x).is_free ≡ (h.memory x).is_free)

module _ (h : Heap) (bs done rest : List ℕ) (curr : ℕ)
    (v : IsValid h bs (done ++ (curr ∷ rest))) where
  abbrev m : ℕ → Block
  m = h.memory

  abbrev prev : Option ℕ
  prev = last_link done

  prev_ne : prev ≢ some curr
  prev_ne e =
      IsDistinct-apart curr done (curr ∷ rest) v.distinct (In-last_link curr done e) (inl refl)

  curr_fresh : ¬ In curr rest
  curr_fresh = (IsDistinct-right done (curr ∷ rest) v.distinct).0

  not_done : ¬ In curr done
  not_done i = IsDistinct-apart curr done (curr ∷ rest) v.distinct i (inl refl)

  listed_curr : In curr bs × ((m curr).is_free ≡ true)
  listed_curr = v.listed curr (In-right curr done (curr ∷ rest) (inl refl))

  -- The blocks that stay in the list are other blocks.
  stays : (x : ℕ) → In x done ⊎ In x rest → (x ≢ curr) × In x bs × ((m x).is_free ≡ true)
  stays x (inl i) =
      let (b, f) = v.listed x (In-left x done (curr ∷ rest) i) in
      (λ e. not_done (subst (λ (n : ℕ). In n done) e i), b, f)
  stays x (inr i) =
      let (b, f) = v.listed x (In-right x done (curr ∷ rest) (inr i)) in
      (λ e. curr_fresh (subst (λ (n : ℕ). In n rest) e i), b, f)

  apart_done : (x : ℕ) → In x done → ¬ In x rest
  apart_done x i j = IsDistinct-apart x done (curr ∷ rest) v.distinct i (inr j)

  unique_done : IsDistinct done
  unique_done = IsDistinct-left done (curr ∷ rest) v.distinct

  unique_rest : IsDistinct rest
  unique_rest = (IsDistinct-right done (curr ∷ rest) v.distinct).1

  -- The whole block is taken.
  whole-Given :
      (n : ℕ)
      → n ≤ (m curr).size
      → Given h bs n curr (take_block curr (set_prev prev (m curr).next h)).1
  unfolding take_block
  whole-Given n fits =
      let target = (m curr).next in
      let m' = used curr (turn prev target m) in
      let u = used-Unlinked m m prev curr curr target (λ x p q. refl) prev_ne in
      let (front, nz, back) = Links-at m h.free_list curr 0 done rest v.links in
      subst (λ t. Given h bs n curr (take_block curr t).1) (sym (set_prev-turn prev target h))
        (record {
          blocks = bs;
          free_blocks = done ++ rest;
          valid = record {
            aligned = v.aligned;
            started = v.started;
            inside = v.inside;
            tiles =
                Tiles-cong m m' h.heap_start_addr h.heap_current bs
                  (λ x i. used-turn-SameShape curr prev target m x) v.tiles;
            links =
                Links-Unlinked m m' h.free_list curr curr target done rest u [] front back
                  v.distinct not_done curr_fresh refl;
            distinct = IsDistinct-append done rest unique_done unique_rest apart_done;
            listed = λ x i.
                let (ne, b, f) = stays x (In-cases x done rest i) in (b, u.kept_free x ne ne ∙ f);
          };
          here = listed_curr.0;
          in_use = ap (λ (b : Block). b.is_free) (write-same (turn prev target m) curr _);
          enough = omega (arith, fits, (used-turn-SameShape curr prev target m curr).1);
          was_free = λ i. listed_curr.1;
          others = λ x i ne. (i, u.kept x ne ne, u.kept_free x ne ne);
        })

  -- The block is split, and the part behind takes its place in the list.
  module _ (n : ℕ) (even : n % 16 ≡ 0) (room : hdr_size + heap_min_alloc ≤ (m curr).size - n) where
    behind : ℕ
    behind = curr + hdr_size + n

    front_block : Block
    unfolding behind
    front_block = record (m curr) { size = n; is_last = false; next = behind }

    back_block : Block
    back_block = record {
      magic = heap_magic;
      is_free = true;
      is_last = (m curr).is_last;
      size = (m curr).size - n - hdr_size;
      next = (m curr).next;
    }

    m1 : ℕ → Block
    unfolding behind front_block back_block
    m1 = write (write m behind back_block) curr front_block

    m' : ℕ → Block
    unfolding behind m1
    m' = used curr (turn prev behind m1)

    behind_ne : behind ≢ curr
    unfolding behind
    behind_ne e = omega arith

    -- The new header stands inside the old block.
    behind-not-In : ¬ In behind bs
    unfolding behind
    behind-not-In i = omega (
      arith,
      Tiles-disjoint m h.heap_start_addr h.heap_current curr behind bs v.tiles listed_curr.0 i
          (omega arith),
      room,
    )

    m1_curr : m1 curr ≡ front_block
    unfolding m1
    m1_curr = write-same (write m behind back_block) curr front_block

    m1-behind : m1 behind ≡ back_block
    unfolding m1
    m1-behind =
        write-ne (write m behind back_block) curr behind front_block behind_ne
        ∙ write-same m behind back_block

    m1_other : (x : ℕ) → x ≢ curr → x ≢ behind → m1 x ≡ m x
    unfolding m1
    m1_other x p q =
        write-ne (write m behind back_block) curr x front_block p ∙ write-ne m behind x back_block q

    shape_curr : SameShape front_block (m' curr)
    unfolding m'
    shape_curr =
        subst (λ b. SameShape b (m' curr)) m1_curr (used-turn-SameShape curr prev behind m1 curr)

    shape_behind : SameShape back_block (m' behind)
    unfolding m'
    shape_behind =
        subst (λ b. SameShape b (m' behind)) m1-behind
          (used-turn-SameShape curr prev behind m1 behind)

    m'-Unlinked : Unlinked m m' prev curr behind behind
    unfolding m'
    m'-Unlinked = used-Unlinked m m1 prev curr behind behind m1_other prev_ne

    prev-behind : prev ≢ some behind
    prev-behind e = behind-not-In (stays behind (inl (In-last_link behind done e))).1

    -- The new block is free, and its link goes on where the old block's did.
    tail_is_free : (m' behind).is_free ≡ true
    unfolding m' back_block
    tail_is_free =
        ap (λ (b : Block). b.is_free) (used_ne curr (turn prev behind m1) behind behind_ne)
        ∙ (turn-SameShape prev behind m1 behind).1
        ∙ ap (λ (b : Block). b.is_free) m1-behind

    behind_next : (m' behind).next ≡ (m curr).next
    unfolding m' back_block
    behind_next =
        ap (λ (b : Block). b.next) (used_ne curr (turn prev behind m1) behind behind_ne)
        ∙ turn_next prev behind m1 behind prev-behind
        ∙ ap (λ (b : Block). b.next) m1-behind

    split-Tiles : Tiles m' h.heap_start_addr h.heap_current (insert_behind curr behind bs)
    unfolding behind front_block back_block
    split-Tiles =
        let (magic, multiple) =
          Tiles-IsHeader m h.heap_start_addr h.heap_current curr bs v.tiles listed_curr.0 in
        let (mc, sc) = shape_curr in
        let (mb, sb) = shape_behind in
        Tiles-split m m' h.heap_start_addr h.heap_current curr behind bs v.tiles listed_curr.0
          (mc ∙ magic, ap (λ (k : ℕ). k % 16) sc ∙ even)
          (mb, omega (arith, sb, multiple, even, room)) (omega (arith, sc))
          (omega (arith, sb, room)) (λ x p q. m'-Unlinked.kept x p q)

    split-IsDistinct : IsDistinct (done ++ (behind ∷ rest))
    split-IsDistinct =
        IsDistinct-append done (behind ∷ rest) unique_done
          (λ i. behind-not-In (stays behind (inr i)).1, unique_rest)
          (λ x i j. elim j [
            | inl e ↦ behind-not-In (subst (λ (k : ℕ). In k bs) e (stays x (inl i)).1)
            | inr k ↦ apart_done x i k
          ])

    split-Links : Links m' (head_after prev behind h.free_list) (done ++ (behind ∷ rest)) 0
    unfolding behind
    split-Links =
        let (front, nz, back) = Links-at m h.free_list curr 0 done rest v.links in
        Links-Unlinked m m' h.free_list curr behind behind done rest m'-Unlinked (behind ∷ []) front
          back v.distinct (λ i. behind-not-In (stays behind (inl i)).1)
          (λ i. behind-not-In (stays behind (inr i)).1) (refl, (λ e. omega (arith, e)), behind_next)

    kept_block :
        (x : ℕ) → In x bs → x ≢ curr → SameShape (m x) (m' x) × ((m' x).is_free ≡ (m x).is_free)
    kept_block x i ne =
        let other : x ≢ behind = λ e. behind-not-In (subst (λ (k : ℕ). In k bs) e i) in
        (m'-Unlinked.kept x ne other, m'-Unlinked.kept_free x ne other)

    split_listed :
        (x : ℕ)
        → In x (done ++ (behind ∷ rest))
        → In x (insert_behind curr behind bs) × ((m' x).is_free ≡ true)
    split_listed x i =
        let old : In x done ⊎ In x rest
            → In x (insert_behind curr behind bs) × ((m' x).is_free ≡ true) =
          λ k.
            let (ne, b, f) = stays x k in
            (In-insert_behind x curr behind bs b, (kept_block x b ne).1 ∙ f) in
        elim (In-cases x done (behind ∷ rest) i) [
          | inl j ↦ old (inl j)
          | inr j ↦ elim j [
            | inr k ↦ old (inr k)
            | inl e ↦
                subst (λ (k : ℕ). In k (insert_behind curr behind bs) × ((m' k).is_free ≡ true))
                  (sym e) (In-insert_behind_new curr behind bs listed_curr.0, tail_is_free)
          ]
        ]

    split-Given :
        Given h bs n curr
          (take_block curr (set_prev prev (curr + hdr_size + n) (split_block n curr h))).1
    unfolding take_block split_block behind m' m1 front_block back_block
    split-Given =
        subst (λ t. Given h bs n curr (take_block curr t).1)
          (sym (set_prev-turn prev behind (split_block n curr h)))
          (record {
            blocks = insert_behind curr behind bs;
            free_blocks = done ++ (behind ∷ rest);
            valid = record {
              aligned = v.aligned;
              started = v.started;
              inside = v.inside;
              tiles = split-Tiles;
              links = split-Links;
              distinct = split-IsDistinct;
              listed = split_listed;
            };
            here = In-insert_behind curr curr behind bs listed_curr.0;
            in_use = ap (λ (b : Block). b.is_free) (write-same (turn prev behind m1) curr _);
            enough = omega (arith, shape_curr.1);
            was_free = λ i. listed_curr.1;
            others = λ x i ne.
                let (shape, state) = kept_block x i ne in
                (In-insert_behind x curr behind bs i, shape, state);
          })

  -- The block at `curr` is large enough, and kmalloc takes it.
  pub use_block-Given :
      (n : ℕ)
      → n % 16 ≡ 0
      → n ≤ (m curr).size
      → Given h bs n curr (use_block n prev curr h).1
        × ((use_block n prev curr h).0 ≡ curr + hdr_size)
  unfolding use_block take_block
  use_block-Given n even fits =
      elim (Bool-cases (leb (hdr_size + heap_min_alloc) ((m curr).size - n))) [
        | inl e ↦
            rw e
              (split-Given n even (leb→le (hdr_size + heap_min_alloc) ((m curr).size - n) e), refl)
        | inr e ↦ rw e (whole-Given n fits, refl)
      ]
