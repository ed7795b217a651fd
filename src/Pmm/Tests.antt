-- ===== src/Pmm/Tests.antt =====
-- memory/pmm.c: sixteen frames, the first one and the third used.
use new_os.Base.{
  ℕ, ◌+◌, ◌*◌, ◌≤◌, ◌≡◌, ◌⊎◌, refl, arith, List, [], ◌∷◌, true, false, length, replicate,
  length-replicate,
}
use new_os.Base.Find.{count}
use new_os.Pmm.{
  Pmm, Region, refcount, max_frames, pmm_frame_size, pmm_alloc_frame, pmm_alloc_frames,
  pmm_free_frame, pmm_ref_frame, pmm_unref_frame, pmm_mark_used, pmm_mark_free, pmm_init, free_byte,
  free_bit, find_run, take_run,
}
use new_os.Pmm.Frames.{
  IsValid, Released, pmm_free_frame_lem, pmm_unref_frame-pmm_ref_frame, pmm_unref_frame_saturated,
}
use new_os.Pmm.Marking.{Marked, pmm_mark-Marked}
use new_os.Pmm.Alloc.{AllBits, Handed, pmm_alloc_frame_lem}
use new_os.Pmm.Runs.{pmm_alloc_frames_lem}
use new_os.Pmm.Init.{pmm_init-low_memory}

abbrev some_used : Pmm
some_used = record {
  bitmap = true ∷ false ∷ true ∷ replicate 13 false;
  refcounts = 1 ∷ 0 ∷ 255 ∷ replicate 13 0;
  total_frame_count = 16;
  used_frame_count = 2;
}

some_used-IsValid : IsValid some_used
unfolding count
some_used-IsValid = record { same_size = refl; small = omega arith; counted = refl }

pmm_free_frame_lem_example : Released 0 some_used (pmm_free_frame 0x10 some_used)
pmm_free_frame_lem_example = pmm_free_frame_lem 0x10 some_used some_used-IsValid (omega arith)

pmm_unref_frame-pmm_ref_frame_case : pmm_unref_frame 0 (pmm_ref_frame 0 some_used) ≡ some_used
pmm_unref_frame-pmm_ref_frame_case =
    pmm_unref_frame-pmm_ref_frame 0 some_used some_used-IsValid (omega arith) refl (omega arith)
      (omega arith)

pmm_unref_frame_saturated_example :
    refcount 2 (pmm_unref_frame 0x2000 (pmm_ref_frame 0x2000 some_used)) ≡ 254
pmm_unref_frame_saturated_example =
    pmm_unref_frame_saturated 0x2000 some_used some_used-IsValid (omega arith) refl refl

mark_run :
    Marked true 2 1 some_used (pmm_mark_used 0x1800 0x1000 some_used)
    × Marked false 0 2 some_used (pmm_mark_free 0x1800 0x1000 some_used)
mark_run = pmm_mark-Marked 0x1800 0x1000 some_used some_used-IsValid (omega arith)

pmm_alloc_frame_lem_example :
    (AllBits true 16 0 some_used × (pmm_alloc_frame some_used ≡ (0, some_used)))
    ⊎ ((f : ℕ) × AllBits true f 0 some_used
        × ((pmm_alloc_frame some_used).0 ≡ f * pmm_frame_size)
        × Handed 1 f some_used (pmm_alloc_frame some_used).1)
pmm_alloc_frame_lem_example = pmm_alloc_frame_lem some_used some_used-IsValid refl

first_free : (pmm_alloc_frame some_used).0 ≡ 0x1000
unfolding pmm_alloc_frame free_byte free_bit
first_free = refl

pmm_alloc_frames_lem_example :
    (((k : ℕ) → k + 3 ≤ 16 → ¬ AllBits false 3 k some_used)
      × (pmm_alloc_frames 3 some_used ≡ (0, some_used)))
    ⊎ ((start : ℕ) × ((pmm_alloc_frames 3 some_used).0 ≡ start * pmm_frame_size)
        × Handed 3 start some_used (pmm_alloc_frames 3 some_used).1)
pmm_alloc_frames_lem_example = pmm_alloc_frames_lem 3 some_used some_used-IsValid (omega arith)

first_run : (pmm_alloc_frames 3 some_used).0 ≡ 0x3000
unfolding pmm_alloc_frames find_run take_run
first_run = refl

abbrev empty : ℕ → Pmm
empty n = record {
  bitmap = [];
  refcounts = replicate n 0;
  total_frame_count = 0;
  used_frame_count = 0;
}

empty_size : (n : ℕ) → length (empty n).refcounts ≡ n
empty_size n = length-replicate n 0

abbrev regions : List Region
regions = record { available = true; base_addr = 0; size = 0x9fc00 } ∷ []

pmm_init-low_memory_example :
    IsValid (pmm_init regions 0x100000 0x300000 0x200000 (empty max_frames))
    × AllBits true 256 0 (pmm_init regions 0x100000 0x300000 0x200000 (empty max_frames))
pmm_init-low_memory_example =
    pmm_init-low_memory regions 0x100000 0x300000 0x200000 (empty max_frames)
      (empty_size max_frames)
