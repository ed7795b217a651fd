-- ===== src/Heap.antt =====
-- memory/heap.c: the kernel's heap, block headers at addresses in a sparse memory. A null pointer is
-- the address 0. Whether the page at an address can be mapped is a parameter.
use new_os.Base.{
  ℕ, zero, suc, ◌+◌, ◌-◌, ◌*◌, ◌/◌, ◌%◌, ◌^◌, Bool, true, false, not, ◌&&◌, ◌||◌, if◌then◌else◌,
  ltb, leb, ◌==◌, Option, none, some,
}
mod Tiles
mod Chain
mod Invariant
mod Unlink
mod Take
mod Grow
mod Alloc
mod Free
mod Join
mod Tests

-- struct heap_block; the two bits of its flags are two fields.
pub record Block : Type 0 where
  pub magic : ℕ
  pub is_free : Bool
  pub is_last : Bool
  pub size : ℕ
  pub next : ℕ

pub record Heap : Type 0 where
  pub heap_start_addr : ℕ
  pub heap_end_addr : ℕ
  pub heap_current : ℕ
  pub free_list : ℕ
  pub heap_used_bytes : ℕ
  pub memory : ℕ → Block

-- A call returns, panics, or is still running when its fuel is used up.
pub data Outcome (A : Type 0) : Type 0 where
  returns : A → Outcome A
  panics : Outcome A
  runs_on : Outcome A

abbrev pub heap_magic : ℕ
heap_magic = 3735928559

abbrev pub heap_min_alloc : ℕ
heap_min_alloc = 16

abbrev pub hdr_size : ℕ
hdr_size = 32

abbrev pub page_size : ℕ
page_size = 4096

-- ALIGN_UP, on 64 bits
abbrev pub align_up : ℕ → ℕ → ℕ
align_up n to = (n + to - 1) % 2 ^ 64 / to * to

abbrev pub next_block : ℕ → Heap → ℕ
next_block b h = b + hdr_size + (h.memory b).size

-- A write of the header at an address.
abbrev pub write : (ℕ → Block) → ℕ → Block → ℕ → Block
write m a b x = if a == x then b else m x

abbrev pub put_block : ℕ → Block → Heap → Heap
put_block a b h = record h { memory = write h.memory a b }

-- expand_heap maps pages from an address on, and stops at the first that cannot be mapped.
unfoldable pub map_pages : (ℕ → Bool) → ℕ → ℕ → Bool
map_pages page_ok a zero = true
map_pages page_ok a (suc n) = page_ok a && map_pages page_ok (a + page_size) n

abbrev pub needed_for : ℕ → ℕ
needed_for min_size = align_up ((min_size + hdr_size) % 2 ^ 64) page_size

-- The free block that covers the new region, put at the head of the free list.
unfoldable pub new_region : ℕ → Heap → Heap
new_region needed h =
    let block : Block = record {
      magic = heap_magic;
      is_free = true;
      is_last = true;
      size = (needed + 2 ^ 64 - hdr_size) % 2 ^ 64;
      next = h.free_list;
    } in
    record (put_block h.heap_current block h) {
      heap_current = (h.heap_current + needed) % 2 ^ 64;
      free_list = h.heap_current;
    }

unfoldable pub expand_heap : (ℕ → Bool) → ℕ → Heap → Bool × Heap
unfolding map_pages new_region
expand_heap page_ok min_size h =
    let needed = needed_for min_size in
    let end = (h.heap_current + needed) % 2 ^ 64 in
    if ltb h.heap_end_addr end
    then (false, h)
    else if not (map_pages page_ok h.heap_current ((end - h.heap_current) / page_size))
    then (false, h)
    else (true, new_region needed h)

unfoldable pub heap_init : (ℕ → Bool) → ℕ → ℕ → (ℕ → Block) → Heap
unfolding expand_heap
heap_init page_ok start size memory =
    (expand_heap page_ok (1024 * 1024) (record {
      heap_start_addr = start;
      heap_end_addr = (start + size) % 2 ^ 64;
      heap_current = start;
      free_list = 0;
      heap_used_bytes = 0;
      memory = memory;
    })).1

-- *prev = a, where prev is the head of the list or the field of a block.
unfoldable pub set_prev : Option ℕ → ℕ → Heap → Heap
set_prev none a h = record h { free_list = a }
set_prev (some p) a h = put_block p (record (h.memory p) { next = a }) h

-- The block that kmalloc splits off behind the first `size` bytes of block `curr`.
unfoldable pub split_block : ℕ → ℕ → Heap → Heap
split_block size curr h =
    let b = h.memory curr in
    let behind = curr + hdr_size + size in
    let new_block : Block = record {
      magic = heap_magic;
      is_free = true;
      is_last = b.is_last;
      size = b.size - size - hdr_size;
      next = b.next;
    } in
    put_block curr (record b { size = size; is_last = false; next = behind })
      (put_block behind new_block h)

-- Block `curr` leaves the free list.
unfoldable pub take_block : ℕ → Heap → ℕ × Heap
take_block curr h =
    let b = h.memory curr in
    (
      curr + hdr_size,
      record (put_block curr (record b { is_free = false }) h) {
        heap_used_bytes = (h.heap_used_bytes + b.size) % 2 ^ 64;
      },
    )

unfoldable pub use_block : ℕ → Option ℕ → ℕ → Heap → ℕ × Heap
unfolding set_prev split_block take_block
use_block size prev curr h =
    let b = h.memory curr in
    if leb (hdr_size + heap_min_alloc) (b.size - size)
    then take_block curr (set_prev prev (curr + hdr_size + size) (split_block size curr h))
    else take_block curr (set_prev prev b.next h)

-- The loop of kmalloc over the free list; none when it reaches the end.
unfoldable pub first_fit : ℕ → ℕ → Option ℕ → ℕ → Heap → Outcome (Option (ℕ × Heap))
unfolding use_block
first_fit zero size prev curr h = runs_on
first_fit (suc fuel) size prev curr h =
    let b = h.memory curr in
    let rest = first_fit fuel size (some curr) b.next h in
    if curr == 0
    then returns none
    else if not (b.magic == heap_magic)
    then panics
    else if b.is_free && leb size b.size
    then returns (some (use_block size prev curr h))
    else rest

abbrev pub round_size : ℕ → ℕ
round_size size = align_up (if ltb heap_min_alloc size then size else heap_min_alloc) 16

-- What kmalloc returns when its search has ended: the block it took, or else what comes later.
abbrev pub or_later : Outcome (Option (ℕ × Heap)) → Outcome (ℕ × Heap) → Outcome (ℕ × Heap)
or_later (returns (some r)) later = returns r
or_later (returns none) later = later
or_later panics later = panics
or_later runs_on later = runs_on

-- The recursion of kmalloc, `depth` deep; each search of the free list has `fuel` steps.
unfoldable pub kmalloc_within : ℕ → ℕ → (ℕ → Bool) → ℕ → Heap → Outcome (ℕ × Heap)
unfolding first_fit expand_heap
kmalloc_within zero fuel page_ok size h = runs_on
kmalloc_within (suc depth) fuel page_ok size h =
    let n = round_size size in
    let (ok, t) = expand_heap page_ok n h in
    let again = kmalloc_within depth fuel page_ok n t in
    if size == 0
    then returns (0, h)
    else or_later (first_fit fuel n none h.free_list h) (if ok then again else returns (0, t))

unfoldable pub kmalloc : ℕ → (ℕ → Bool) → ℕ → Heap → Outcome (ℕ × Heap)
unfolding kmalloc_within
kmalloc = kmalloc_within 2

-- The pointer that kmalloc_aligned stores before the data is not modelled, nor is the zeroing of
-- kcalloc: the model has the headers, not the data areas.
abbrev pub aligned_in : ℕ → Outcome (ℕ × Heap) → Outcome (ℕ × Heap)
aligned_in align (returns (raw, h)) =
    returns (if raw == 0 then 0 else align_up ((raw + 8) % 2 ^ 64) align, h)
aligned_in align panics = panics
aligned_in align runs_on = runs_on

unfoldable pub kmalloc_aligned : ℕ → (ℕ → Bool) → ℕ → ℕ → Heap → Outcome (ℕ × Heap)
unfolding kmalloc
kmalloc_aligned fuel page_ok size align h =
    if leb align 16
    then kmalloc fuel page_ok size h
    else aligned_in align (kmalloc fuel page_ok ((size + align + 8) % 2 ^ 64) h)

unfoldable pub kcalloc : ℕ → (ℕ → Bool) → ℕ → ℕ → Heap → Outcome (ℕ × Heap)
unfolding kmalloc
kcalloc fuel page_ok number size h = kmalloc fuel page_ok (number * size % 2 ^ 64) h

-- curr and the block behind it become one.
unfoldable pub merge_block : ℕ → Heap → Heap
merge_block curr h =
    let b = h.memory curr in
    let behind = next_block curr h in
    let nxt = h.memory behind in
    put_block behind (record nxt { magic = 0 })
      (put_block curr
        (record b {
          size = (b.size + hdr_size + nxt.size) % 2 ^ 64;
          is_last = nxt.is_last;
          next = nxt.next;
        })
        h)

-- The block behind curr is free as well.
abbrev pub behind_free : ℕ → Heap → Bool
behind_free curr h =
    let nxt = h.memory (next_block curr h) in nxt.magic == heap_magic && nxt.is_free

-- The loop of kfree that coalesces, from block `curr` on.
unfoldable pub coalesce : ℕ → ℕ → Heap → Outcome Heap
unfolding merge_block
coalesce zero curr h = runs_on
coalesce (suc fuel) curr h =
    let b = h.memory curr in
    let merges = behind_free curr h in
    let rest =
      coalesce fuel (if merges then curr else b.next) (if merges then merge_block curr h else h) in
    if curr == 0 || b.is_last then returns h else rest

-- The block is marked as free and put at the head of the list.
abbrev pub freed : ℕ → Heap → Heap
freed at h =
    let b = h.memory at in
    record (put_block at (record b { is_free = true; next = h.free_list }) h) {
      heap_used_bytes = (h.heap_used_bytes + 2 ^ 64 - b.size) % 2 ^ 64;
      free_list = at;
    }

unfoldable pub kfree : ℕ → ℕ → Heap → Outcome Heap
unfolding coalesce
kfree fuel ptr h =
    let at = ptr - hdr_size in
    let b = h.memory at in
    if ptr == 0
    then returns h
    else if not (b.magic == heap_magic)
    then panics
    else if b.is_free
    then panics
    else coalesce fuel at (freed at h)

-- The end of krealloc: the old block is released once the new one is there.
abbrev pub release_old : ℕ → ℕ → Outcome (ℕ × Heap) → Outcome (ℕ × Heap)
release_old fuel ptr (returns (new_ptr, h)) =
    if new_ptr == 0 then returns (0, h) else elim (kfree fuel ptr h) [
      | returns t ↦ returns (new_ptr, t)
      | panics ↦ panics
      | runs_on ↦ runs_on
    ]
release_old fuel ptr panics = panics
release_old fuel ptr runs_on = runs_on

abbrev pub nothing_left : Outcome Heap → Outcome (ℕ × Heap)
nothing_left (returns h) = returns (0, h)
nothing_left panics = panics
nothing_left runs_on = runs_on

unfoldable pub krealloc : ℕ → (ℕ → Bool) → ℕ → ℕ → Heap → Outcome (ℕ × Heap)
unfolding kmalloc kfree
krealloc fuel page_ok ptr new_size h =
    let block = h.memory (ptr - hdr_size) in
    if ptr == 0
    then kmalloc fuel page_ok new_size h
    else if new_size == 0
    then nothing_left (kfree fuel ptr h)
    else if not (block.magic == heap_magic)
    then panics
    else if leb new_size block.size
    then returns (ptr, h)
    else release_old fuel ptr (kmalloc fuel page_ok new_size h)

unfoldable pub kheap_used : Heap → ℕ
kheap_used h = h.heap_used_bytes

-- The differences are of unsigned words.
unfoldable pub kheap_free : Heap → ℕ
kheap_free h =
    (h.heap_end_addr
      + (2 ^ 64 - h.heap_current)
      + (h.heap_current + (2 ^ 64 - h.heap_start_addr))
      + (2 ^ 64 - h.heap_used_bytes))
    % 2 ^ 64
