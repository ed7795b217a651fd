-- ===== src/Shm.antt =====
-- kernel/shm.c: named regions of shared memory, on the frames of memory/pmm.c. A region is the index of
-- its slot. The page tables of memory/vmm.c are an interface; the contents of pages are left out.
pub mod Frames
pub mod Obtain
pub mod Create
pub mod Maps
mod Tests
use new_os.Base.{
  ℕ, zero, suc, ◌+◌, ◌-◌, ◌*◌, ◌/◌, ◌%◌, ◌^◌, List, [], ◌∷◌, Option, none, some, Bool, true, false,
  not, ◌&&◌, ◌||◌, ◌==◌, ltb, leb, if◌then◌else◌, length, set, get_or, replicate,
}
use new_os.Base.Find.{find_index}
use new_os.Libc.{strncpy, strncmp, is_zero}
use new_os.Pmm.{Pmm, pmm_alloc_frame, pmm_free_frame}

-- shm_region_t; phys_pages is the array of SHM_MAX_PAGES addresses.
pub record SharedRegion : Type 0 where
  pub name : List ℕ
  pub valid : Bool
  pub refcount : ℕ
  pub size : ℕ
  pub num_pages : ℕ
  pub phys_pages : List ℕ
  pub flags : ℕ
  pub owner : ℕ

pub record Shm : Type 0 where
  pub shm_table : List SharedRegion
  pub pmm : Pmm

abbrev pub shm_max_regions : ℕ
shm_max_regions = 64

abbrev pub shm_name_max : ℕ
shm_name_max = 64

abbrev pub shm_max_pages : ℕ
shm_max_pages = 256

abbrev pub shm_page_size : ℕ
shm_page_size = 4096

-- A region of zero bytes.
abbrev pub null_region : SharedRegion
null_region = record {
  name = replicate shm_name_max 0;
  valid = false;
  refcount = 0;
  size = 0;
  num_pages = 0;
  phys_pages = replicate shm_max_pages 0;
  flags = 0;
  owner = 0;
}

abbrev pub region_at : Shm → ℕ → SharedRegion
region_at s i = get_or s.shm_table i null_region

abbrev pub put_region : ℕ → SharedRegion → Shm → Shm
put_region i r s = record s { shm_table = set s.shm_table i r }

abbrev pub is_vacant : SharedRegion → Bool
is_vacant r = not r.valid

abbrev pub named : List ℕ → SharedRegion → Bool
named name r = r.valid && is_zero (strncmp r.name name shm_name_max)

unfoldable pub shm_init : Shm → Shm
shm_init s = record s { shm_table = replicate shm_max_regions null_region }

unfoldable pub shm_find_by_name : List ℕ → Shm → Option ℕ
shm_find_by_name name s = find_index (named name) s.shm_table

unfoldable pub shm_alloc_slot : Shm → Option ℕ
shm_alloc_slot s = find_index is_vacant s.shm_table

-- The n pages of an array from the j-th on are given back.
unfoldable pub free_pages : ℕ → ℕ → List ℕ → Pmm → Pmm
free_pages zero j pages s = s
free_pages (suc n) j pages s = free_pages n (j + 1) pages (pmm_free_frame (get_or pages j 0) s)

-- The loop that allocates n more pages after i, into an array; whether it could, the array and the
-- frames. If it could not, it has given back what it had.
unfoldable pub alloc_pages : ℕ → ℕ → List ℕ → Pmm → Bool × List ℕ × Pmm
unfolding free_pages
alloc_pages zero i pages s = (true, pages, s)
alloc_pages (suc n) i pages s =
    let (frame, t) = pmm_alloc_frame s in
    let rest = alloc_pages n (i + 1) (set pages i frame) t in
    if frame == 0 then (false, pages, free_pages i 0 pages t) else rest

-- ALIGN_UP(size, PAGE_SIZE) / PAGE_SIZE, for the sizes that shm_create lets through.
abbrev pub pages_for : ℕ → ℕ
pages_for size = (size + (shm_page_size - 1)) / shm_page_size

-- The region that shm_create fills in over `r`; `pid` is the current process or 0.
abbrev pub made_region : List ℕ → ℕ → ℕ → ℕ → List ℕ → SharedRegion → SharedRegion
made_region name size flags pid pages r = record {
  name = strncpy r.name name (shm_name_max - 1);
  valid = true;
  refcount = 0;
  size = pages_for size * shm_page_size;
  num_pages = pages_for size;
  phys_pages = pages;
  flags = flags;
  owner = pid;
}

-- shm_create for the slot i, once the pages are allocated or not.
abbrev pub filled : ℕ → List ℕ → ℕ → ℕ → ℕ → Shm → Bool × List ℕ × Pmm → Option ℕ × Shm
filled i name size flags pid s (true, pages, frames) =
    let made = made_region name size flags pid pages (region_at s i) in
    (some i, put_region i made (record s { pmm = frames }))
filled i name size flags pid s (false, pages, frames) =
    (none, put_region i (record (region_at s i) { phys_pages = pages }) (record s { pmm = frames }))

-- shm_create once it has found the slot i.
unfoldable pub create_at : ℕ → List ℕ → ℕ → ℕ → ℕ → Shm → Option ℕ × Shm
unfolding alloc_pages
create_at i name size flags pid s =
    filled i name size flags pid s (alloc_pages (pages_for size) 0 (region_at s i).phys_pages s.pmm)

unfoldable pub create_slot : Option ℕ → Option ℕ → List ℕ → ℕ → ℕ → ℕ → Shm → Option ℕ × Shm
unfolding create_at
create_slot (some i) free name size flags pid s = (none, s)
create_slot none none name size flags pid s = (none, s)
create_slot none (some i) name size flags pid s = create_at i name size flags pid s

unfoldable pub shm_create : List ℕ → ℕ → ℕ → ℕ → Shm → Option ℕ × Shm
unfolding create_slot shm_find_by_name shm_alloc_slot
shm_create name size flags pid s =
    if size == 0 || ltb (shm_max_pages * shm_page_size) size
    then (none, s)
    else create_slot (shm_find_by_name name s) (shm_alloc_slot s) name size flags pid s

abbrev pub shm_open : List ℕ → Shm → Option ℕ
shm_open name s = shm_find_by_name name s

unfoldable pub shm_destroy : ℕ → Shm → Shm
unfolding free_pages
shm_destroy i s =
    let r = region_at s i in
    if r.valid
    then put_region i null_region (record s { pmm = free_pages r.num_pages 0 r.phys_pages s.pmm })
    else s

-- PHYS_TO_VIRT
abbrev pub phys_to_virt : ℕ → ℕ
phys_to_virt addr = (addr + 0xFFFFFFFF80000000) % 2 ^ 64

-- The kernel's address of the first page.
unfoldable pub shm_map_kernel : ℕ → Shm → ℕ × Shm
shm_map_kernel i s =
    let r = region_at s i in
    (
      phys_to_virt (get_or r.phys_pages 0 0),
      put_region i (record r { refcount = r.refcount + 1 }) s,
    )

-- The count of mappers goes down, and the last one destroys the region.
unfoldable pub drop_mapper : ℕ → Shm → Shm
unfolding shm_destroy
drop_mapper i s =
    let r = region_at s i in
    let u = put_region i (record r { refcount = r.refcount - 1 }) s in
    if r.refcount - 1 == 0 then shm_destroy i u else u

-- sys_shm_open, by the index of the region; -ENOENT and -ENOMEM are none.
unfoldable pub open_found : Option ℕ → List ℕ → ℕ → ℕ → ℕ → Shm → Option ℕ × Shm
unfolding shm_create
open_found (some i) name size flags pid s = (some i, s)
open_found none name size flags pid s =
    if size == 0 then (none, s) else shm_create name size flags pid s

unfoldable pub sys_shm_open : List ℕ → ℕ → ℕ → ℕ → Shm → Option ℕ × Shm
unfolding open_found shm_find_by_name
sys_shm_open name size flags pid s = open_found (shm_find_by_name name s) name size flags pid s

-- Whether sys_shm_close accepts the index, and what it leaves.
unfoldable pub sys_shm_close : ℕ → Shm → Bool × Shm
unfolding shm_destroy
sys_shm_close i s =
    let r = region_at s i in
    if leb (length s.shm_table) i || not r.valid
    then (false, s)
    else if leb r.refcount 1
    then (true, shm_destroy i s)
    else (true, put_region i (record r { refcount = r.refcount - 1 }) s)
