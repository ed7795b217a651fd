-- ===== src/Pmm.antt =====
-- memory/pmm.c: the physical frame allocator. The state is the file's static variables. The bitmap is
-- the list of its bits, bit `f % 8` of byte `f / 8` at place `f`; MAX_FRAMES is the length of the two
-- arrays. A physical address is a number, NULL is 0.
pub mod Frames
pub mod Marking
pub mod Alloc
pub mod Runs
pub mod Init
mod Tests
use new_os.Base.{
  ℕ, zero, suc, ◌+◌, ◌-◌, ◌*◌, ◌/◌, ◌%◌, ◌^◌, List, [], ◌∷◌, Option, none, some, Bool, true, false,
  not, ◌&&◌, ◌==◌, ltb, leb, if◌then◌else◌, length, set, get_or, replicate,
}

pub record Pmm : Type 0 where
  pub bitmap : List Bool
  pub refcounts : List ℕ
  pub total_frame_count : ℕ
  pub used_frame_count : ℕ

abbrev pub pmm_frame_size : ℕ
pmm_frame_size = 4096

abbrev pub max_frames : ℕ
max_frames = 2 ^ 20

-- size_t counters.
abbrev pub inc64 : ℕ → ℕ
inc64 n = (n + 1) % 2 ^ 64

abbrev pub dec64 : ℕ → ℕ
dec64 n = (n + 2 ^ 64 - 1) % 2 ^ 64

-- The code reads no bit out of range.
abbrev pub test_bit : ℕ → Pmm → Bool
test_bit f s = get_or s.bitmap f true

abbrev pub refcount : ℕ → Pmm → ℕ
refcount f s = get_or s.refcounts f 0

-- A free frame becomes used, and a used one free, with the count of used frames.
abbrev pub use_frame : ℕ → Pmm → Pmm
use_frame f s = record s {
  bitmap = set s.bitmap f true;
  used_frame_count = inc64 s.used_frame_count;
}

abbrev pub drop_frame : ℕ → Pmm → Pmm
drop_frame f s = record s {
  bitmap = set s.bitmap f false;
  used_frame_count = dec64 s.used_frame_count;
}

-- ALIGN_UP(addr, PMM_FRAME_SIZE) / PMM_FRAME_SIZE
abbrev pub frame_up : ℕ → ℕ
frame_up addr = (addr + (pmm_frame_size - 1)) % 2 ^ 64 / pmm_frame_size

abbrev pub frame_down : ℕ → ℕ
frame_down addr = addr / pmm_frame_size

-- The loops over the `n` frames from `f` on, that stop at MAX_FRAMES.
unfoldable pub mark_used_from : ℕ → ℕ → Pmm → Pmm
mark_used_from zero f s = s
mark_used_from (suc n) f s =
    let rest = mark_used_from n (f + 1) (if test_bit f s then s else use_frame f s) in
    if ltb f (length s.bitmap) then rest else s

unfoldable pub mark_free_from : ℕ → ℕ → Pmm → Pmm
mark_free_from zero f s = s
mark_free_from (suc n) f s =
    let rest = mark_free_from n (f + 1) (if test_bit f s then drop_frame f s else s) in
    if ltb f (length s.bitmap) then rest else s

unfoldable pub pmm_mark_used : ℕ → ℕ → Pmm → Pmm
pmm_mark_used addr size s =
    mark_used_from (frame_up ((addr + size) % 2 ^ 64) - frame_down addr) (frame_down addr) s

unfoldable pub pmm_mark_free : ℕ → ℕ → Pmm → Pmm
pmm_mark_free addr size s =
    mark_free_from (frame_down ((addr + size) % 2 ^ 64) - frame_up addr) (frame_up addr) s

-- An entry of the Multiboot2 memory map.
pub record Region : Type 0 where
  pub available : Bool
  pub base_addr : ℕ
  pub size : ℕ

unfoldable pub free_regions : List Region → Pmm → Pmm
free_regions [] s = s
free_regions (r ∷ rs) s =
    free_regions rs (if r.available then add_total r (pmm_mark_free r.base_addr r.size s) else s)
  where
    add_total : Region → Pmm → Pmm
    add_total x t = record t {
      total_frame_count = (t.total_frame_count + x.size / pmm_frame_size) % 2 ^ 64;
    }

-- `pmm_init` for `n` frames. `regions` is the memory map that multiboot2_find_tag found (the code
-- panics without one), the kernel stands from `kstart` to `kend`, and the bitmap at the physical address
-- `bitmap_at`.
unfoldable pub init_frames : ℕ → List Region → ℕ → ℕ → ℕ → Pmm → Pmm
init_frames n regions kstart kend bitmap_at s =
    let s1 = free_regions regions (record s { bitmap = replicate n true; used_frame_count = n }) in
    let s2 = pmm_mark_used 0 0x100000 s1 in
    let s3 = pmm_mark_used kstart ((kend + 2 ^ 64 - kstart) % 2 ^ 64) s2 in
    pmm_mark_used bitmap_at (n / 8) s3

unfoldable pub pmm_init : List Region → ℕ → ℕ → ℕ → Pmm → Pmm
pmm_init regions kstart kend bitmap_at s = init_frames max_frames regions kstart kend bitmap_at s

-- The frame `f` is handed out.
abbrev pub take_frame : ℕ → Pmm → Pmm
take_frame f s = record s {
  bitmap = set s.bitmap f true;
  refcounts = set s.refcounts f 1;
  used_frame_count = inc64 s.used_frame_count;
}

-- The first free of the `n` frames from `f` on, the inner loop of `pmm_alloc_frame`.
unfoldable pub free_bit : ℕ → ℕ → Pmm → Option ℕ
free_bit zero f s = none
free_bit (suc n) f s = if test_bit f s then free_bit n (f + 1) s else some f

-- pmm_bitmap[byte] == 0xFF
abbrev pub all_used : ℕ → ℕ → Pmm → Bool
all_used zero f s = true
all_used (suc n) f s = test_bit f s && all_used n (f + 1) s

abbrev pub or_else : Option ℕ → Option ℕ → Option ℕ
or_else none o = o
or_else (some f) o = some f

-- The outer loop, over the `n` bytes from `byte` on: full bytes are skipped.
unfoldable pub free_byte : ℕ → ℕ → Pmm → Option ℕ
free_byte zero byte s = none
free_byte (suc n) byte s =
    let rest = free_byte n (byte + 1) s in
    if all_used 8 (byte * 8) s then rest else or_else (free_bit 8 (byte * 8) s) rest

unfoldable pub pmm_alloc_frame : Pmm → ℕ × Pmm
pmm_alloc_frame s = elim (free_byte (length s.bitmap / 8) 0 s) [
  | none ↦ (0, s)
  | some f ↦ (f * pmm_frame_size, take_frame f s)
]

-- The search of `pmm_alloc_frames` over the `n` frames from `f` on, after `run` free ones since `start`.
unfoldable pub find_run : ℕ → ℕ → ℕ → ℕ → ℕ → Pmm → Option ℕ
find_run zero f run start count s = none
find_run (suc n) f run start count s =
    let from = if run == 0 then f else start in
    let longer = find_run n (f + 1) (run + 1) from count s in
    let none_here = find_run n (f + 1) 0 start count s in
    if test_bit f s then none_here else if run + 1 == count then some from else longer

unfoldable pub take_run : ℕ → ℕ → Pmm → Pmm
take_run zero f s = s
take_run (suc n) f s = take_run n (f + 1) (take_frame f s)

unfoldable pub pmm_alloc_frames : ℕ → Pmm → ℕ × Pmm
pmm_alloc_frames count s =
    if count == 0
    then (0, s)
    else if count == 1
    then pmm_alloc_frame s
    else elim (find_run (length s.bitmap) 0 0 0 count s) [
      | none ↦ (0, s)
      | some start ↦ (start * pmm_frame_size, take_run count start s)
    ]

abbrev pub set_refcount : ℕ → ℕ → Pmm → Pmm
set_refcount f n s = record s { refcounts = set s.refcounts f n }

unfoldable pub pmm_free_frame : ℕ → Pmm → Pmm
pmm_free_frame addr s =
    let f = frame_down addr in
    if leb (length s.bitmap) f
    then s
    else if not (test_bit f s)
    then s
    else if ltb 1 (refcount f s)
    then set_refcount f (refcount f s - 1) s
    else drop_frame f (set_refcount f 0 s)

-- for (i = 0; i < count; i++) pmm_free_frame(frame + i * PMM_FRAME_SIZE);
unfoldable pub free_each : ℕ → ℕ → ℕ → Pmm → Pmm
free_each zero i addr s = s
free_each (suc n) i addr s =
    free_each n (i + 1) addr (pmm_free_frame ((addr + i * pmm_frame_size) % 2 ^ 64) s)

unfoldable pub pmm_free_frames : ℕ → ℕ → Pmm → Pmm
pmm_free_frames addr count s = free_each count 0 addr s

unfoldable pub pmm_ref_frame : ℕ → Pmm → Pmm
pmm_ref_frame addr s =
    let f = frame_down addr in
    if leb (length s.bitmap) f
    then s
    else if ltb (refcount f s) 255
    then set_refcount f (refcount f s + 1) s
    else s

unfoldable pub pmm_unref_frame : ℕ → Pmm → Pmm
pmm_unref_frame addr s = pmm_free_frame addr s

unfoldable pub pmm_get_refcount : ℕ → Pmm → ℕ
pmm_get_refcount addr s =
    let f = frame_down addr in if leb (length s.bitmap) f then 0 else refcount f s

unfoldable pub pmm_free_frames_count : Pmm → ℕ
pmm_free_frames_count s = (s.total_frame_count + 2 ^ 64 - s.used_frame_count) % 2 ^ 64
