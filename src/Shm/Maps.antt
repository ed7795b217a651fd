-- ===== src/Shm/Maps.antt =====
-- kernel/shm.c: the calls that map a region. Mapping and unmapping a page in an address space and
-- reading a mapping, of memory/vmm.c, are the operations of an interface.
use new_os.Base.{
  ℕ, zero, suc, ◌+◌, ◌-◌, ◌*◌, ◌/◌, ◌%◌, ◌^◌, List, Option, none, some, Bool, true, false, not,
  ◌&&◌, ◌||◌, ◌==◌, leb, if◌then◌else◌, length, get_or,
}
use new_os.Base.Find.{find_index}
use new_os.Shm.{Shm, SharedRegion, shm_page_size, region_at, put_region, drop_mapper}

-- The page tables: vmm_map_page (whether it could), vmm_unmap_page and vmm_get_physical.
pub record Spaces : Type 1 where
  pub Space : Type 0
  pub map_page : ℕ → ℕ → ℕ → Space → Bool × Space
  pub unmap_page : ℕ → Space → Space
  pub get_physical : ℕ → Space → ℕ

-- USER_SPACE_START + 256 MB, where a region goes without a hint.
abbrev pub map_base : ℕ
map_base = 0x400000 + 0x10000000

-- PTE_PRESENT, PTE_WRITABLE, PTE_USER and PTE_NX from the flags SHM_WRITE and SHM_EXEC.
abbrev pub pte_flags : ℕ → ℕ
pte_flags flags =
    5 + (if flags / 2 % 2 == 1 then 2 else 0) + (if flags / 4 % 2 == 1 then 0 else 2 ^ 63)

module _ (v : Spaces) where
  open v use {Space, map_page, unmap_page, get_physical}

  -- The n pages from the j-th on are unmapped.
  unfoldable pub unmap_pages : ℕ → ℕ → ℕ → Space → Space
  unmap_pages zero j vaddr space = space
  unmap_pages (suc n) j vaddr space =
      unmap_pages n (j + 1) vaddr (unmap_page ((vaddr + j * shm_page_size) % 2 ^ 64) space)

  -- The loop of shm_map over n more pages after the i-th: all of them, or none.
  unfoldable pub map_region : ℕ → ℕ → ℕ → ℕ → List ℕ → Space → Bool × Space
  unfolding unmap_pages
  map_region zero i vaddr flags pages space = (true, space)
  map_region (suc n) i vaddr flags pages space =
      let (done, next) =
        map_page ((vaddr + i * shm_page_size) % 2 ^ 64) (get_or pages i 0) flags space in
      let rest = map_region n (i + 1) vaddr flags pages next in
      if done then rest else (false, unmap_pages i 0 vaddr next)

  -- ALIGN_UP(vaddr, PAGE_SIZE)
  abbrev page_up : ℕ → ℕ
  page_up a = (a + (shm_page_size - 1)) % 2 ^ 64 / shm_page_size * shm_page_size

  -- The address where the region is mapped, 0 for a failure, with the address space.
  unfoldable pub shm_map : ℕ → Space → ℕ → ℕ → Shm → ℕ × Space × Shm
  unfolding map_region
  shm_map i space hint flags s =
      let r = region_at s i in
      let vaddr = page_up (if hint == 0 then map_base else hint) in
      let (done, mapped) = map_region r.num_pages 0 vaddr (pte_flags flags) r.phys_pages space in
      if done
      then (vaddr, mapped, put_region i (record r { refcount = r.refcount + 1 }) s)
      else (0, mapped, s)

  unfoldable pub shm_unmap : ℕ → Space → ℕ → Shm → Space × Shm
  unfolding unmap_pages drop_mapper
  shm_unmap i space vaddr s = (unmap_pages (region_at s i).num_pages 0 vaddr space, drop_mapper i s)

  -- -EINVAL and -ENOMEM are none; there is a current process, whose address space is `space`.
  unfoldable pub sys_shm_map : ℕ → ℕ → Space → Shm → Option ℕ × Space × Shm
  unfolding shm_map
  sys_shm_map i flags space s =
      let (vaddr, mapped, t) = shm_map i space 0 flags s in
      if leb (length s.shm_table) i || not (region_at s i).valid
      then (none, space, s)
      else (if vaddr == 0 then none else some vaddr, mapped, t)

  -- The first valid region whose first page the address shows.
  abbrev pub shown_at : ℕ → SharedRegion → Bool
  shown_at phys r = r.valid && not (phys == 0) && phys == get_or r.phys_pages 0 0

  unfoldable pub unmap_found : Option ℕ → Space → ℕ → Shm → Bool × Space × Shm
  unfolding shm_unmap
  unmap_found none space vaddr s = (false, space, s)
  unmap_found (some i) space vaddr s = let (left, t) = shm_unmap i space vaddr s in (true, left, t)

  unfoldable pub sys_shm_unmap : ℕ → Space → Shm → Bool × Space × Shm
  unfolding unmap_found
  sys_shm_unmap vaddr space s =
      unmap_found (find_index (shown_at (get_physical vaddr space)) s.shm_table) space vaddr s
