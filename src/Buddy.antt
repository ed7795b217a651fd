-- ===== src/Buddy.antt =====
-- mm/buddy.c and include/mm/buddy.h: the buddy allocator. A doubly linked free list, whose nodes stand
-- in the free pages themselves, is the list of its page indices, head first; unlinking a page takes it
-- out of that list. That is what the links say while no page lies in two free blocks; what a double
-- free makes of the links is not modelled.
pub mod Pages
mod Buddies
pub mod Cover
pub mod Alloc
pub mod Free
mod Tests
use new_os.Base.{
  ℕ, zero, suc, ◌+◌, ◌-◌, ◌*◌, ◌/◌, ◌%◌, ◌^◌, List, [], ◌∷◌, Option, none, some, Bool, true, false,
  not, ◌&&◌, ◌==◌, ltb, leb, if◌then◌else◌, set, get_or, replicate, inc32, dec32, bit_xor, min,
}

-- buddy_list_t
pub record FreeList : Type 0 where
  pub blocks : List ℕ
  pub count : ℕ

-- buddy_allocator_t
pub record Buddy : Type 0 where
  pub base_phys : ℕ
  pub base_virt : ℕ
  pub total_pages : ℕ
  pub free_pages : ℕ
  pub free : List FreeList
  pub order_map : List ℕ
  pub initialized : Bool

abbrev pub buddy_max_order : ℕ
buddy_max_order = 10

abbrev pub buddy_page_size : ℕ
buddy_page_size = 4096

abbrev pub buddy_max_pages : ℕ
buddy_max_pages = 65536

-- The mark of a page that heads no free block.
abbrev pub allocated : ℕ
allocated = 0xff

abbrev pub empty_list : FreeList
empty_list = record { blocks = []; count = 0 }

abbrev pub list_at : Buddy → ℕ → FreeList
list_at s o = get_or s.free o empty_list

abbrev pub page_idx : ℕ → Buddy → ℕ
page_idx addr s = (addr + 2 ^ 64 - s.base_virt) % 2 ^ 64 / buddy_page_size

abbrev pub page_addr : ℕ → Buddy → ℕ
page_addr idx s = (s.base_virt + idx * buddy_page_size) % 2 ^ 64

abbrev pub buddy_idx : ℕ → ℕ → ℕ
buddy_idx p order = bit_xor p (2 ^ order)

-- A free list and the mark of one page change.
abbrev pub with_list : ℕ → FreeList → ℕ → ℕ → Buddy → Buddy
with_list order l idx mark s = record s {
  free = set s.free order l;
  order_map = set s.order_map idx mark;
}

unfoldable pub push : ℕ → ℕ → Buddy → Buddy
push order idx s =
    let l = list_at s order in
    with_list order (record { blocks = idx ∷ l.blocks; count = inc32 l.count }) idx order s

-- The head of a list and the state without it, or BUDDY_MAX_PAGES.
abbrev pub pop_from : ℕ → List ℕ → Buddy → ℕ × Buddy
pop_from order [] s = (buddy_max_pages, s)
pop_from order (idx ∷ rest) s = (
  idx,
  with_list order (record { blocks = rest; count = dec32 (list_at s order).count }) idx allocated s,
)

unfoldable pub pop : ℕ → Buddy → ℕ × Buddy
pop order s = pop_from order (list_at s order).blocks s

abbrev pub unlink : ℕ → List ℕ → List ℕ
unlink idx [] = []
unlink idx (x ∷ xs) = if x == idx then xs else x ∷ unlink idx xs

unfoldable pub remove : ℕ → ℕ → Buddy → Buddy
remove order idx s =
    let l = list_at s order in
    with_list order (record { blocks = unlink idx l.blocks; count = dec32 l.count }) idx allocated s

abbrev pub is_free : ℕ → ℕ → Buddy → Bool
is_free idx order s = ltb idx s.total_pages && get_or s.order_map idx allocated == order

-- The while loop of `buddy_init`: `n` blocks of one order from page `p` on.
unfoldable pub seed_blocks : ℕ → ℕ → ℕ → Buddy → Buddy
seed_blocks zero p order s = s
seed_blocks (suc n) p order s =
    let t = push order p s in
    seed_blocks n (p + 2 ^ order) order
      (record t { free_pages = (t.free_pages + 2 ^ order) % 2 ^ 64 })

abbrev pub align_page : ℕ → ℕ → ℕ
align_page order p = (p + 2 ^ order - 1) / 2 ^ order * 2 ^ order

-- The for loop, over the orders below `n`, from page `p` to page `stop`. A block that does not fit
-- moves nothing.
unfoldable pub seed : ℕ → ℕ → ℕ → Buddy → Buddy
seed zero p stop s = s
seed (suc order) p stop s =
    let from = align_page order p in
    let n = (stop - from) / 2 ^ order in
    if ltb p stop
    then seed order (if n == 0 then p else from + n * 2 ^ order) stop (seed_blocks n from order s)
    else s

unfoldable pub buddy_init : ℕ → ℕ → ℕ → Buddy → Buddy
buddy_init base_phys base_virt size s =
    let total = min (size / buddy_page_size) buddy_max_pages in
    let map_pages = (total + buddy_page_size - 1) / buddy_page_size in
    let empty = record s {
      base_phys = base_phys;
      base_virt = base_virt;
      total_pages = total;
      free_pages = 0;
      free = replicate (buddy_max_order + 1) empty_list;
      order_map = replicate total allocated;
      initialized = false;
    } in
    let t = seed (buddy_max_order + 1) map_pages total empty in record t { initialized = true }

-- The smallest order from `avail` on with a free block, among `n`.
unfoldable pub find_avail : ℕ → ℕ → Buddy → Option ℕ
find_avail zero avail s = none
find_avail (suc n) avail s =
    let rest = find_avail n (avail + 1) s in
    if (list_at s avail).count == 0 then rest else some avail

-- The upper halves of a block of order `order + n`, down to `order`, become free.
unfoldable pub split : ℕ → ℕ → ℕ → Buddy → Buddy
split zero order idx s = s
split (suc n) order idx s = split n order idx (push (order + n) (idx + 2 ^ (order + n)) s)

-- The part of `buddy_alloc` that takes a block of order `avail`.
unfoldable pub alloc_at : ℕ → ℕ → Buddy → ℕ × Buddy
alloc_at avail order s =
    let (idx, s1) = pop avail s in
    let s2 = split (avail - order) order idx s1 in
    (page_addr idx s, record s2 { free_pages = (s2.free_pages + 2 ^ 64 - 2 ^ order) % 2 ^ 64 })

unfoldable pub buddy_alloc : ℕ → Buddy → ℕ × Buddy
buddy_alloc order s =
    if not s.initialized
    then (0, s)
    else if ltb buddy_max_order order
    then (0, s)
    else elim (find_avail (buddy_max_order + 1 - order) order s) [
      | none ↦ (0, s)
      | some avail ↦ alloc_at avail order s
    ]

-- Merging with free buddies, for at most `n` orders: the order, the page and the state it ends with.
unfoldable pub merge : ℕ → ℕ → ℕ → Buddy → ℕ × ℕ × Buddy
merge zero order idx s = (order, idx, s)
merge (suc n) order idx s =
    let b = buddy_idx idx order in
    if is_free b order s
    then merge n (order + 1) (if ltb b idx then b else idx) (remove order b s)
    else (order, idx, s)

-- The part of `buddy_free` behind its checks.
unfoldable pub free_at : ℕ → ℕ → Buddy → Buddy
free_at idx order s =
    let (o, i, t) = merge (buddy_max_order - order) order idx s in
    let u = push o i t in record u { free_pages = (u.free_pages + 2 ^ o) % 2 ^ 64 }

unfoldable pub buddy_free : ℕ → ℕ → Buddy → Buddy
buddy_free addr order s =
    if not s.initialized
    then s
    else if ltb buddy_max_order order
    then s
    else if leb s.total_pages (page_idx addr s)
    then s
    else free_at (page_idx addr s) order s

-- The loop of `buddy_alloc_pages`, with `n` orders left.
unfoldable pub order_for : ℕ → ℕ → ℕ → ℕ → ℕ
order_for zero order size pages = order
order_for (suc n) order size pages =
    let rest = order_for n (order + 1) (size * 2) pages in if ltb size pages then rest else order

unfoldable pub buddy_alloc_pages : ℕ → Buddy → ℕ × Buddy
buddy_alloc_pages pages s = buddy_alloc (order_for buddy_max_order 0 1 pages) s

unfoldable pub buddy_free_bytes : Buddy → ℕ
buddy_free_bytes s = s.free_pages * buddy_page_size % 2 ^ 64
