-- ===== src/Pmm/Init.antt =====
-- memory/pmm.c: `pmm_init` starts from the memory map of the boot loader.
use new_os.Base.{
  ℕ, zero, suc, ◌+◌, ◌-◌, ◌/◌, ◌%◌, ◌^◌, ◌<◌, ◌≤◌, ◌≡◌, ◌∙◌, refl, sym, ap, List, [], ◌∷◌, true,
  length, replicate, length-replicate, Bool-cases, inl, inr, arith, dec_lt,
}
use new_os.Base.Find.{count}
use new_os.Pmm.{
  Pmm, Region, max_frames, frame_up, frame_down, pmm_mark_used, pmm_mark_free, free_regions,
  pmm_init, init_frames,
}
use new_os.Pmm.Frames.{IsValid, is_used}
use new_os.Pmm.Marking.{Marked, mark_used_from-Marked, mark_free_from-Marked}
use new_os.Pmm.Alloc.{AllBits}

count_all : (n : ℕ) → count is_used (replicate n true) ≡ n
unfolding count
count_all zero = refl
count_all (suc n) = ap suc (count_all n)

with_total : (n : ℕ) (s : Pmm) → IsValid s → IsValid (record s { total_frame_count = n })
with_total n s v = record { same_size = v.same_size; small = v.small; counted = v.counted }

free_regions-IsValid :
    (rs : List Region) (s : Pmm)
    → IsValid s
    → IsValid (free_regions rs s) × (length (free_regions rs s).bitmap ≡ length s.bitmap)
unfolding free_regions pmm_mark_free
free_regions-IsValid [] s v = (v, refl)
free_regions-IsValid (r ∷ rs) s v = elim (Bool-cases r.available) [
  | inr e ↦ rw e (free_regions-IsValid rs s v)
  | inl e ↦
      let m =
        mark_free_from-Marked (frame_down ((r.base_addr + r.size) % 2 ^ 64) - frame_up r.base_addr)
          (frame_up r.base_addr) s v in
      let t = pmm_mark_free r.base_addr r.size s in
      let (w, l) =
        free_regions-IsValid rs
          (record t { total_frame_count = (t.total_frame_count + r.size / 4096) % 2 ^ 64 })
          (with_total _ t m.valid) in
      rw e (w, l ∙ m.size)
]

pub pmm_mark_used_any :
    (addr size : ℕ) (s : Pmm)
    → IsValid s
    → Marked true
        (frame_up ((addr + size) % 2 ^ 64) - frame_down addr)
        (frame_down addr)
        s
        (pmm_mark_used addr size s)
unfolding pmm_mark_used
pmm_mark_used_any addr size s v = mark_used_from-Marked _ (frame_down addr) s v

-- What was used stays used.
still_used :
    (n f k : ℕ) (s t : Pmm)
    → Marked true n f s t
    → k ≤ length s.bitmap
    → AllBits true k 0 s
    → AllBits true k 0 t
still_used n f k s t m h a g low high = elim (dec_lt g f) [
  | yes i ↦ m.outside g (inl i) ∙ a g low high
  | no i ↦ elim (dec_lt g (f + n)) [
    | yes j ↦ m.inside g (omega arith) j (omega (arith, h))
    | no j ↦ m.outside g (inr (omega arith)) ∙ a g low high
  ]
]

init_frames-low_memory :
    (n : ℕ) (regions : List Region) (kstart kend bitmap_at : ℕ) (s : Pmm)
    → 256 ≤ n
    → n < 2 ^ 64
    → length s.refcounts ≡ n
    → IsValid (init_frames n regions kstart kend bitmap_at s)
      × AllBits true 256 0 (init_frames n regions kstart kend bitmap_at s)
unfolding init_frames
init_frames-low_memory n regions kstart kend bitmap_at s enough small size =
    let s0 = record s { bitmap = replicate n true; used_frame_count = n } in
    let l0 = length-replicate n true in
    let v0 : IsValid s0 = record {
      same_size = omega (arith, size, l0);
      small = omega (arith, l0, small);
      counted = sym (count_all n);
    } in
    let (v1, l1) = free_regions-IsValid regions s0 v0 in
    let s1 = free_regions regions s0 in
    let m2 = pmm_mark_used_any 0 0x100000 s1 v1 in
    let s2 = pmm_mark_used 0 0x100000 s1 in
    let m3 = pmm_mark_used_any kstart ((kend + 2 ^ 64 - kstart) % 2 ^ 64) s2 m2.valid in
    let s3 = pmm_mark_used kstart ((kend + 2 ^ 64 - kstart) % 2 ^ 64) s2 in
    let m4 = pmm_mark_used_any bitmap_at (n / 8) s3 m3.valid in
    let low : AllBits true 256 0 s2 =
      λ g l h. m2.inside g (omega arith) (omega arith) (omega (arith, l1, l0, enough)) in
    (
      m4.valid,
      still_used _ _ 256 s3 _ m4 (omega (arith, m3.size, m2.size, l1, l0, enough))
          (still_used _ _ 256 s2 _ m3 (omega (arith, m2.size, l1, l0, enough)) low),
    )

-- With a reference count for every frame, whatever memory map, kernel image and bitmap address the
-- boot loader reports, pmm_init leaves the counter of used frames equal to the number of set bits
-- and the first 256 frames used.
pub pmm_init-low_memory :
    (regions : List Region) (kstart kend bitmap_at : ℕ) (s : Pmm)
    → length s.refcounts ≡ max_frames
    → IsValid (pmm_init regions kstart kend bitmap_at s)
      × AllBits true 256 0 (pmm_init regions kstart kend bitmap_at s)
unfolding pmm_init
pmm_init-low_memory regions kstart kend bitmap_at s size =
    init_frames-low_memory max_frames regions kstart kend bitmap_at s (omega arith) (omega arith)
      size
