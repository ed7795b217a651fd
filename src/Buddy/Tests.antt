-- ===== src/Buddy/Tests.antt =====
-- mm/buddy.c: eight pages in one block.
use new_os.Base.{
  ℕ, zero, suc, ◌+◌, ◌≢◌, ap, inr, ◌<◌, ◌≤◌, ◌≡◌, ◌⊎◌, refl, arith, [], ◌∷◌, true, replicate,
  length, get_or, inl,
}
use new_os.Buddy.{
  Buddy, page_idx, empty_list, list_at, allocated, buddy_alloc, buddy_free, buddy_init, alloc_at,
  free_at, find_avail, split, merge, push, pop, remove, seed, seed_blocks,
}
use new_os.Buddy.Pages.{IsValid, listed_pages, total, Mem}
use new_os.Buddy.Cover.{cover, lies_in, list_cover, IsDisjoint}
use new_os.Buddy.Alloc.{Given, buddy_alloc_lem}
use new_os.Buddy.Free.{Freed, buddy_free_lem}

abbrev one_block : Buddy
one_block = record {
  base_phys = 0;
  base_virt = 0x10000;
  total_pages = 8;
  free_pages = 8;
  free =
      empty_list
      ∷ empty_list
      ∷ empty_list
      ∷ record { blocks = 0 ∷ []; count = 1 }
      ∷ replicate 7 empty_list;
  order_map = 3 ∷ replicate 7 allocated;
  initialized = true;
}

counted : (o : ℕ) → (list_at one_block o).count ≡ length (list_at one_block o).blocks
counted zero = refl
counted (suc zero) = refl
counted (suc (suc zero)) = refl
counted (suc (suc (suc zero))) = refl
counted (suc (suc (suc (suc o)))) = later o
  where
    later :
        (o : ℕ)
        → (get_or (replicate 7 empty_list) o empty_list).count
          ≡ length (get_or (replicate 7 empty_list) o empty_list).blocks
    later zero = refl
    later (suc zero) = refl
    later (suc (suc zero)) = refl
    later (suc (suc (suc zero))) = refl
    later (suc (suc (suc (suc zero)))) = refl
    later (suc (suc (suc (suc (suc zero))))) = refl
    later (suc (suc (suc (suc (suc (suc zero)))))) = refl
    later (suc (suc (suc (suc (suc (suc (suc o))))))) = refl

no_mark : (n idx : ℕ) → get_or (replicate n allocated) idx allocated ≡ allocated
no_mark zero idx = refl
no_mark (suc n) zero = refl
no_mark (suc n) (suc idx) = no_mark n idx

marked :
    (idx o : ℕ)
    → o < 11
    → get_or one_block.order_map idx allocated ≡ o
    → Mem idx (list_at one_block o).blocks
marked zero o h e = rw⁻¹ e (inl refl)
marked (suc idx) o h e = absurd (omega (arith, no_mark 7 idx, e, h))

one_block-IsValid : IsValid one_block
unfolding total
one_block-IsValid = record { sized = refl; small = omega arith; counted = counted; marked = marked }

buddy_alloc_lem_example :
    (buddy_alloc 0 one_block ≡ (0, one_block))
      × ((10 < 0) ⊎ ((a : ℕ) → 0 ≤ a → a ≤ 10 → (list_at one_block a).count ≡ 0))
    ⊎ Given 0 one_block (buddy_alloc 0 one_block)
buddy_alloc_lem_example = buddy_alloc_lem 0 one_block one_block-IsValid refl

abbrev given : Buddy
given = (buddy_alloc 0 one_block).1

first_page : (buddy_alloc 0 one_block).0 ≢ 0
unfolding buddy_alloc find_avail alloc_at pop split push
first_page e = omega (arith, e)

alloc-Given : Given 0 one_block (buddy_alloc 0 one_block)
alloc-Given = elim buddy_alloc_lem_example [
  | inl (same, why) ↦ absurd (first_page (ap (λ (r : ℕ × Buddy). r.0) same))
  | inr g ↦ g
]

-- The pages that are still listed are 1, 2 to 3 and 4 to 7.
cover-given : (p : ℕ) → cover p given ≡ lies_in p 0 1 + (lies_in p 1 2 + lies_in p 2 4)
unfolding buddy_alloc find_avail alloc_at pop split push list_cover
cover-given p = omega arith

given-IsDisjoint : IsDisjoint given
given-IsDisjoint p = ground (arith, cover-given p)

page_0_unlisted : (p : ℕ) → lies_in p 0 (page_idx 0x10000 given) ≡ 1 → cover p given ≡ 0
unfolding buddy_alloc find_avail alloc_at pop split push
page_0_unlisted p e = ground (arith, e, cover-given p)

buddy_free_lem_example : Freed (page_idx 0x10000 given) 0 given (buddy_free 0x10000 0 given)
unfolding buddy_alloc find_avail alloc_at pop split push total
buddy_free_lem_example =
    buddy_free_lem 0x10000 0 0 given alloc-Given.valid refl given-IsDisjoint (omega arith)
      (omega arith) refl page_0_unlisted (omega arith)

-- Giving the page back joins all eight pages again, and counts eight, on top of the seven.
joined : listed_pages (buddy_free 0x10000 0 given) ≡ 8
unfolding buddy_alloc find_avail alloc_at pop split push buddy_free free_at merge remove total
joined = refl

counted_twice : (buddy_free 0x10000 0 given).free_pages ≡ 15
unfolding buddy_alloc find_avail alloc_at pop split push buddy_free free_at merge remove total
counted_twice = refl

-- Of seventeen pages the first holds the map. Pages 8 to 16 are seeded, pages 1 to 7 never: the
-- largest block comes first, and the search goes on behind it.
seeded : (buddy_init 0 0x10000 69632 one_block).free_pages ≡ 9
unfolding buddy_init seed seed_blocks push
seeded = refl
