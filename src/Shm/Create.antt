-- ===== src/Shm/Create.antt =====
-- kernel/shm.c: shm_create gives a region its frames or leaves the allocator as it was, and
-- shm_destroy gives them back.
use new_os.Base.{
  ℕ, ◌+◌, ◌*◌, ◌%◌, ◌≤◌, ◌<◌, ◌≡◌, ◌∙◌, inl, inr, refl, sym, ap, subst, List, Option, none, some,
  Bool, true, false, ◌||◌, ◌==◌, ltb, length, get_or-set_self, get_or-set_ne, Bool-cases, differ,
  arith,
}
use new_os.Base.Find.{find_index-Found}
use new_os.Pmm.{Pmm, test_bit}
use new_os.Pmm.Frames.{IsValid}
use new_os.Shm.{
  Shm, SharedRegion, shm_max_pages, shm_page_size, null_region, region_at, put_region, is_vacant,
  pages_for, made_region, filled, create_at, create_slot, shm_create, shm_find_by_name,
  shm_alloc_slot, shm_destroy,
}
use new_os.Shm.Frames.{Taken, SameFrames, none-Taken, Taken-SameFrames}
use new_os.Shm.Obtain.{Allocated, alloc_pages-Allocated}

-- A table on a valid allocator in which frame 0 is in use and the bitmap is of whole bytes.
pub record Ready (s : Shm) : Type 0 where
  pub frames : IsValid s.pmm
  pub whole : length s.pmm.bitmap % 8 ≡ 0
  pub low : test_bit 0 s.pmm ≡ true
  pub arrays : (i : ℕ) → length (region_at s i).phys_pages ≡ shm_max_pages

-- In the allocator `t`, the region `y` that was free as `x` has pages for this size, taken from `s`.
abbrev pub Made : ℕ → SharedRegion → SharedRegion → Pmm → Pmm → Type 0
Made size x y s t =
    (x.valid ≡ false)
    × (y.valid ≡ true)
    × (size ≤ y.num_pages * shm_page_size)
    × Taken y.phys_pages 0 y.num_pages s t

-- What an attempt to create a region of this size has done.
pub record Created (size : ℕ) (s : Shm) (r : Option ℕ × Shm) : Type 0 where
  pub failed : r.0 ≡ none → SameFrames s.pmm r.1.pmm
  pub made : (i : ℕ) → r.0 ≡ some i → Made size (region_at s i) (region_at r.1 i) s.pmm r.1.pmm
  pub kept : (k : ℕ) → (region_at s k).valid ≡ true → region_at r.1 k ≡ region_at s k

nothing-Created : (size : ℕ) (s : Shm) → Ready s → Created size s (none, s)
nothing-Created size s v = record {
  failed = λ e. record { valid = v.frames; size = refl; bits = λ g. refl };
  made = λ i e. absurd (ground (arith, e));
  kept = λ k e. refl;
}

-- The other slots stay.
kept_by :
    (i : ℕ) (r : SharedRegion) (s : Shm) (frames : Pmm)
    → (region_at s i).valid ≡ false
    → (k : ℕ) → (region_at s k).valid ≡ true
    → region_at (put_region i r (record s { pmm = frames })) k ≡ region_at s k
kept_by i r s frames free k e =
    get_or-set_ne s.shm_table i k r null_region
      (λ same. differ free (ap (λ (j : ℕ). (region_at s j).valid) same ∙ e))

filled-Created :
    (i : ℕ) (name : List ℕ) (size flags pid : ℕ) (s : Shm) (r : Bool × List ℕ × Pmm)
    → i < length s.shm_table
    → (region_at s i).valid ≡ false
    → Allocated (pages_for size) 0 s.pmm r
    → Created size s (filled i name size flags pid s r)
filled-Created i name size flags pid s (true, pages, frames) inside free a = record {
  failed = λ e. absurd (ground (arith, e));
  made = λ j e.
      let x = made_region name size flags pid pages (region_at s i) in
      let at : region_at (put_region i x (record s { pmm = frames })) i ≡ x =
        get_or-set_self s.shm_table i x null_region inside in
      let zero_add : 0 + pages_for size ≡ pages_for size = omega arith in
      let taken = subst (λ (n : ℕ). Taken pages 0 n s.pmm frames) zero_add (a.success refl) in
      let same : i ≡ j = ground (arith, e) in
      subst
        (λ (k : ℕ).
          Made size (region_at s k) (region_at (put_region i x (record s { pmm = frames })) k) s.pmm
            frames)
        same
        (subst (λ (y : SharedRegion). Made size (region_at s i) y s.pmm frames) (sym at)
          (free, refl, omega arith, taken));
  kept = kept_by i _ s frames free;
}
filled-Created i name size flags pid s (false, pages, frames) inside free a = record {
  failed = λ e. a.failure refl;
  made = λ j e. absurd (ground (arith, e));
  kept = kept_by i _ s frames free;
}

create_slot-Created :
    (found free : Option ℕ) (name : List ℕ) (size flags pid : ℕ) (s : Shm)
    → Ready s
    → size ≤ shm_max_pages * shm_page_size
    → ((i : ℕ) → free ≡ some i → (i < length s.shm_table) × ((region_at s i).valid ≡ false))
    → Created size s (create_slot found free name size flags pid s)
unfolding create_slot create_at
create_slot-Created (some i) free name size flags pid s v l at = nothing-Created size s v
create_slot-Created none none name size flags pid s v l at = nothing-Created size s v
create_slot-Created none (some i) name size flags pid s v l at =
    let (inside, free) = at i refl in
    filled-Created i name size flags pid s _ inside free (
      alloc_pages-Allocated (pages_for size) 0 (region_at s i).phys_pages s.pmm s.pmm v.whole v.low
        (omega (arith, l, v.arrays i)) (none-Taken (region_at s i).phys_pages s.pmm v.frames))

pub shm_create-Created :
    (name : List ℕ) (size flags pid : ℕ) (s : Shm)
    → Ready s
    → Created size s (shm_create name size flags pid s)
unfolding shm_create shm_alloc_slot
shm_create-Created name size flags pid s v =
    elim (Bool-cases (size == 0 || ltb (shm_max_pages * shm_page_size) size)) [
      | inl e ↦ rw e (nothing-Created size s v)
      | inr e ↦ rw e (
          create_slot-Created (shm_find_by_name name s) (shm_alloc_slot s) name size flags pid s v
            (ground (arith, e))
            (λ i q.
              let f = find_index-Found is_vacant s.shm_table null_region i q in
              (f.in_range, ground (arith, f.passes))))
    ]

-- A region that is made on a valid allocator whose frame 0 is in use, and destroyed at once, leaves
-- the frames in use as they were.
pub shm_destroy-shm_create :
    (name : List ℕ) (size flags pid : ℕ) (s : Shm) (i : ℕ)
    → Ready s
    → (shm_create name size flags pid s).0 ≡ some i
    → SameFrames s.pmm (shm_destroy i (shm_create name size flags pid s).1).pmm
unfolding shm_destroy
shm_destroy-shm_create name size flags pid s i v e =
    let c = shm_create-Created name size flags pid s v in
    let (free, live, fits, taken) = c.made i e in
    let r = region_at (shm_create name size flags pid s).1 i in
    rw live (
      Taken-SameFrames r.num_pages r.phys_pages s.pmm (shm_create name size flags pid s).1.pmm
        taken)
