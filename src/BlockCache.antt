-- ===== src/BlockCache.antt =====
-- fs/blockcache.c: the write-back block cache. The drives behind it (drivers/ata.c) are an
-- interface: a call gives whether it succeeded, and what it leaves in the buffer or on the disk.
-- A pointer to a slot is its index, NULL is none.
use new_os.Base.{
  ℕ, suc, zero, ◌-◌, ◌^◌, ◌≡◌, ◌⊎◌, ◌≢◌, Bool, true, false, not, ◌&&◌, ◌||◌, if◌then◌else◌, ltb,
  leb, ◌==◌, List, [], ◌∷◌, map, length, Option, none, some, get_or, set, replicate, inc32,
}
use new_os.Base.Find.{find_index}
mod View
mod Replace
mod Oldest
mod Evict
mod Quiet
mod Room
mod Get
mod Write
mod Flush
mod History
mod Tests

-- What the cache relies on of the drives: a successful read gives the contents, a successful write
-- becomes the contents, and a write touches no other sector, failed or not.
pub record Drives : Type 1 where
  pub Sector : Type 0
  pub Disk : Type 0
  pub blank : Sector
  pub present : ℕ → Bool
  pub contents : Disk → ℕ → ℕ → Sector
  pub ata_read : Disk → ℕ → ℕ → Sector → Bool × Sector
  pub ata_write : Disk → ℕ → ℕ → Sector → Bool × Disk
  pub read_ok :
      (k : Disk) (drive lba : ℕ) (old : Sector)
      → (ata_read k drive lba old).0 ≡ true
      → (ata_read k drive lba old).1 ≡ contents k drive lba
  pub write_ok :
      (k : Disk) (drive lba : ℕ) (bytes : Sector)
      → (ata_write k drive lba bytes).0 ≡ true
      → contents (ata_write k drive lba bytes).1 drive lba ≡ bytes
  pub write_others :
      (k : Disk) (drive lba : ℕ) (bytes : Sector) (d l : ℕ)
      → (drive ≢ d) ⊎ (lba ≢ l)
      → contents (ata_write k drive lba bytes).1 d l ≡ contents k d l

-- What the first loop of evict_slot leaves it with.
pub data Pick : Type 0 where
  free : ℕ → Pick
  best : Option ℕ → Pick

module _ (c : Drives) where
  open c use {Sector, Disk, blank, present, ata_read, ata_write}

  pub record Slot : Type 0 where
    pub lba : ℕ
    pub drive : ℕ
    pub bytes : Sector
    pub valid : Bool
    pub dirty : Bool
    pub last_use : ℕ

  pub record Cache : Type 0 where
    pub slots : List Slot
    pub lru_clock : ℕ
    pub hits : ℕ
    pub misses : ℕ
    pub writes : ℕ
    pub disk : Disk
    pub crashed : Bool

  abbrev pub empty_slot : Slot
  empty_slot = record {
    lba = 0;
    drive = 0;
    bytes = blank;
    valid = false;
    dirty = false;
    last_use = 0;
  }

  abbrev pub slot_at : Cache → ℕ → Slot
  slot_at s i = get_or s.slots i empty_slot

  abbrev pub put_slot : ℕ → Slot → Cache → Cache
  put_slot i x s = record s { slots = set s.slots i x }

  -- static storage is zeroed
  unfoldable pub boot : Disk → Cache
  boot k = record {
    slots = replicate 128 empty_slot;
    lru_clock = 0;
    hits = 0;
    misses = 0;
    writes = 0;
    disk = k;
    crashed = false;
  }

  abbrev pub holds : ℕ → ℕ → Slot → Bool
  holds drive lba x = x.valid && x.drive == drive && x.lba == lba

  unfoldable pub find_slot : ℕ → ℕ → Cache → Option ℕ
  find_slot drive lba s = find_index (holds drive lba) s.slots

  -- The first loop of evict_slot, from slot i on.
  unfoldable pub oldest_clean : ℕ → Option ℕ → ℕ → List Slot → Pick
  oldest_clean i at oldest [] = best at
  oldest_clean i at oldest (x ∷ xs) =
      let older = not x.dirty && ltb x.last_use oldest in
      if not x.valid
      then free i
      else oldest_clean (suc i) (if older then some i else at)
          (if older then x.last_use else oldest) xs

  -- Its second loop.
  unfoldable pub oldest_used : ℕ → Option ℕ → ℕ → List Slot → Option ℕ
  oldest_used i at oldest [] = at
  oldest_used i at oldest (x ∷ xs) =
      let older = ltb x.last_use oldest in
      oldest_used (suc i) (if older then some i else at) (if older then x.last_use else oldest) xs

  unfoldable pub drop_slot : ℕ → Cache → Cache
  drop_slot i s = put_slot i (record (slot_at s i) { valid = false }) s

  -- s->dirty = false; g_writes++, after a write that left the disk k.
  unfoldable pub mark_clean : ℕ → Disk → Cache → Cache
  mark_clean i k s = record (put_slot i (record (slot_at s i) { dirty = false }) s) {
    disk = k;
    writes = inc32 s.writes;
  }

  -- The write of a dirty slot; its result is ignored.
  unfoldable pub write_back : ℕ → Cache → Cache
  unfolding mark_clean
  write_back i s =
      let x = slot_at s i in
      let k =
        if ltb x.drive 4 && present x.drive
        then (ata_write s.disk x.drive x.lba x.bytes).1
        else s.disk in
      if x.dirty then mark_clean i k s else s

  -- A write through a null pointer, which the state records.
  abbrev pub crash : Cache → Cache
  crash s = record s { crashed = true }

  -- The end of evict_slot. With no slot chosen the code writes best->valid all the same.
  unfoldable pub evict_last : Cache → Option ℕ → Option ℕ × Cache
  unfolding drop_slot write_back
  evict_last s none = (none, crash s)
  evict_last s (some i) = (some i, drop_slot i (write_back i s))

  unfoldable pub evict_pick : Cache → Pick → Option ℕ × Cache
  unfolding evict_last oldest_used drop_slot
  evict_pick s (free i) = (some i, s)
  evict_pick s (best (some i)) = (some i, drop_slot i s)
  evict_pick s (best none) = evict_last s (oldest_used 0 none (2 ^ 32 - 1) s.slots)

  unfoldable pub evict_slot : Cache → Option ℕ × Cache
  unfolding evict_pick oldest_clean
  evict_slot s = evict_pick s (oldest_clean 0 none (2 ^ 32 - 1) s.slots)

  -- drive_idx < 0 || drive_idx >= 4, of an int kept as its 32 bits
  abbrev pub bad_drive : ℕ → Bool
  bad_drive drive = leb (2 ^ 31) drive || leb 4 drive

  -- s->last_use = ++g_lru_clock
  abbrev pub use_slot : ℕ → Slot → Cache → Cache
  use_slot i x s =
      let now = inc32 s.lru_clock in
      record (put_slot i (record x { last_use = now }) s) { lru_clock = now }

  -- The miss: slot i was evicted, and is loaded.
  unfoldable pub load : ℕ → ℕ → ℕ → Cache → Option ℕ × Cache
  load drive lba i s =
      let x = slot_at s i in
      let (ok, bytes) = ata_read s.disk drive lba x.bytes in
      if not (present drive)
      then (none, s)
      else if not ok
      then (none, put_slot i (record x { bytes = bytes }) s)
      else (
        some i,
        use_slot i
            (record x { bytes = bytes; valid = true; dirty = false; drive = drive; lba = lba }) s,
      )

  unfoldable pub load_evicted : ℕ → ℕ → Option ℕ × Cache → Option ℕ × Cache
  unfolding load
  load_evicted drive lba (none, s) = (none, s)
  load_evicted drive lba (some i, s) = load drive lba i s

  -- The rest of bcache_get, by what find_slot gave it.
  unfoldable pub get_found : ℕ → ℕ → Cache → Option ℕ → Option ℕ × Cache
  unfolding load_evicted evict_slot
  get_found drive lba s (some i) =
      (some i, use_slot i (slot_at s i) (record s { hits = inc32 s.hits }))
  get_found drive lba s none =
      load_evicted drive lba (evict_slot (record s { misses = inc32 s.misses }))

  unfoldable pub bcache_get : ℕ → ℕ → Cache → Option ℕ × Cache
  unfolding find_slot get_found
  bcache_get drive lba s =
      if bad_drive drive then (none, s) else get_found drive lba s (find_slot drive lba s)

  unfoldable pub dirty_found : Cache → Option ℕ → Cache
  dirty_found s none = s
  dirty_found s (some i) = put_slot i (record (slot_at s i) { dirty = true }) s

  unfoldable pub bcache_dirty : ℕ → ℕ → Cache → Cache
  unfolding find_slot dirty_found
  bcache_dirty drive lba s = dirty_found s (find_slot drive lba s)

  -- A caller's store through the pointer that bcache_get gave it.
  unfoldable pub store : ℕ → Sector → Cache → Cache
  store i bytes s = put_slot i (record (slot_at s i) { bytes = bytes }) s

  -- The memcpy into slot i and the write to the disk.
  unfoldable pub write_slot : ℕ → ℕ → Sector → ℕ → Slot → Cache → Bool × Cache
  write_slot drive lba bytes i x s =
      let t = use_slot i (record x { bytes = bytes; dirty = false }) s in
      let (ok, k) = ata_write s.disk drive lba bytes in
      if not (present drive)
      then (false, t)
      else (ok, record t { disk = k; writes = inc32 s.writes })

  unfoldable pub write_evicted : ℕ → ℕ → Sector → Option ℕ × Cache → Bool × Cache
  unfolding write_slot
  write_evicted drive lba bytes (none, s) = (false, s)
  write_evicted drive lba bytes (some i, s) =
      let x : Slot = record (slot_at s i) { valid = true; drive = drive; lba = lba } in
      write_slot drive lba bytes i x s

  unfoldable pub write_found : ℕ → ℕ → Sector → Cache → Option ℕ → Bool × Cache
  unfolding write_slot write_evicted evict_slot
  write_found drive lba bytes s (some i) = write_slot drive lba bytes i (slot_at s i) s
  write_found drive lba bytes s none = write_evicted drive lba bytes (evict_slot s)

  unfoldable pub bcache_write_through : ℕ → ℕ → Sector → Cache → Bool × Cache
  unfolding find_slot write_found
  bcache_write_through drive lba bytes s =
      if bad_drive drive then (false, s) else write_found drive lba bytes s (find_slot drive lba s)

  -- The loop of bcache_flush over the slots from i on, n of them; the count is of errors.
  unfoldable pub flush_slot : ℕ → ℕ → Cache → Bool × Cache
  unfolding mark_clean
  flush_slot drive i s =
      let x = slot_at s i in
      let (ok, k) = ata_write s.disk drive x.lba x.bytes in
      if not x.valid || not x.dirty || not (x.drive == drive)
      then (true, s)
      else if not ok
      then (false, record s { disk = k })
      else (true, mark_clean i k s)

  unfoldable pub flush_from : ℕ → ℕ → ℕ → Cache → ℕ × Cache
  unfolding flush_slot
  flush_from drive i zero s = (0, s)
  flush_from drive i (suc n) s =
      let (ok, t) = flush_slot drive i s in
      let (errors, u) = flush_from drive (suc i) n t in (if ok then errors else suc errors, u)

  unfoldable pub bcache_flush : ℕ → Cache → Bool × Cache
  unfolding flush_from
  bcache_flush drive s =
      let (errors, t) = flush_from drive 0 (length s.slots) s in
      if bad_drive drive
      then (false, s)
      else if not (present drive)
      then (false, s)
      else (errors == 0, t)

  unfoldable pub bcache_flush_all : Cache → Bool × Cache
  unfolding bcache_flush
  bcache_flush_all s =
      let (a, s0) = bcache_flush 0 s in
      let (b, s1) = bcache_flush 1 s0 in
      let (c, s2) = bcache_flush 2 s1 in let (d, s3) = bcache_flush 3 s2 in (a && b && c && d, s3)

  unfoldable pub bcache_invalidate : ℕ → Cache → Cache
  bcache_invalidate drive s =
      let forget =
        λ (x : Slot). if x.valid && x.drive == drive then record x { valid = false } else x in
      record s { slots = map forget s.slots }
