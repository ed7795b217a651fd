-- ===== src/Shm/Tests.antt =====
-- kernel/shm.c: regions on a small allocator, and the theorems at work on them.
use new_os.Base.{
  ℕ, zero, suc, ◌≡◌, refl, List, [], ◌∷◌, Option, none, some, true, false, length, length-replicate,
  replicate, arith,
}
use new_os.Base.Find.{find_index, count}
use new_os.Pmm.{Pmm, pmm_alloc_frame, free_byte, free_bit, pmm_free_frame}
use new_os.Shm.{Shm, null_region, region_at, shm_max_pages, shm_create, shm_destroy, sys_shm_close}
use new_os.Shm.Frames.{SameFrames}
use new_os.Shm.Create.{Ready, shm_destroy-shm_create}

-- Eight frames, of which the first is in use.
abbrev eight : Pmm
eight = record {
  bitmap = true ∷ replicate 7 false;
  refcounts = replicate 8 0;
  total_frame_count = 8;
  used_frame_count = 1;
}

abbrev two_slots : Shm
two_slots = record { shm_table = null_region ∷ null_region ∷ []; pmm = eight }

abbrev win : List ℕ
win = 119 ∷ 105 ∷ 110 ∷ 0 ∷ []

-- A region of two pages, and its bits.
abbrev with_win : Option ℕ × Shm
with_win = shm_create win 5000 3 9 two_slots

made_win :
    (with_win.0 ≡ some 0)
    × (with_win.1.pmm.bitmap ≡ true ∷ true ∷ true ∷ replicate 5 false)
    × ((region_at with_win.1 0).size ≡ 8192)
unfolding shm_create pmm_alloc_frame free_byte free_bit find_index
made_win = (refl, refl, refl)

-- Ten pages are too many, and the frames that were allocated are given back.
too_many :
    ((shm_create win 40000 3 9 two_slots).0 ≡ none)
    × ((shm_create win 40000 3 9 two_slots).1.pmm.bitmap ≡ true ∷ replicate 7 false)
unfolding shm_create pmm_alloc_frame free_byte free_bit find_index pmm_free_frame
too_many = (refl, refl)

-- A region with one mapper is destroyed when it is closed.
closed_win : (sys_shm_close 0 with_win.1).1.pmm.bitmap ≡ true ∷ replicate 7 false
unfolding sys_shm_close shm_create pmm_alloc_frame free_byte free_bit find_index pmm_free_frame
closed_win = refl

all_arrays : (i : ℕ) → length (region_at two_slots i).phys_pages ≡ shm_max_pages
all_arrays zero = length-replicate {A = ℕ} shm_max_pages 0
all_arrays (suc zero) = length-replicate {A = ℕ} shm_max_pages 0
all_arrays (suc (suc i)) = length-replicate {A = ℕ} shm_max_pages 0

two_slots-Ready : Ready two_slots
unfolding count
two_slots-Ready = record {
  frames = record { same_size = refl; small = omega arith; counted = refl };
  whole = refl;
  low = refl;
  arrays = all_arrays;
}

shm_destroy-shm_create_example : SameFrames eight (shm_destroy 0 with_win.1).pmm
shm_destroy-shm_create_example =
    shm_destroy-shm_create win 5000 3 9 two_slots 0 two_slots-Ready made_win.0
