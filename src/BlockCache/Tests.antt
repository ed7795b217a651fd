-- ===== src/BlockCache/Tests.antt =====
-- fs/blockcache.c: runs of the block cache over drives in memory.
use new_os.Base.{
  ℕ, zero, suc, ◌+◌, ◌<◌, ◌≡◌, inl, inr, refl, sym, ◌∙◌, Bool, true, false, ◌&&◌, ◌==◌,
  if◌then◌else◌, List, [], ◌∷◌, none, some, differ, arith,
}
use new_os.Base.Find.{find_index}
use new_os.BlockCache.{
  Drives, Cache, empty_slot, slot_at, boot, find_slot, oldest_clean, oldest_used, drop_slot,
  mark_clean, write_back, evict_last, evict_pick, evict_slot, load, load_evicted, get_found,
  bcache_get, dirty_found, bcache_dirty, store, write_slot, write_evicted, write_found,
  bcache_write_through, flush_slot, flush_from, bcache_flush, bcache_flush_all, bcache_invalidate,
}
use new_os.BlockCache.View.{view, IsValid, IsClean, holds-key}
use new_os.BlockCache.Evict.{Eviction, evict_slot-Eviction}
use new_os.BlockCache.Quiet.{Reliable}
use new_os.BlockCache.Room.{Taken}
use new_os.BlockCache.Get.{Fetched, bcache_get-Fetched, bcache_get_given}
use new_os.BlockCache.Write.{Through, bcache_dirty-store, bcache_write_through-Through}
use new_os.BlockCache.Flush.{Flushed, bcache_flush-Flushed}
use new_os.BlockCache.History.{Call, read, modify, flush, Agrees, Shows, answer-Agrees}

program : Unit {0}
unfolding find_index boot find_slot oldest_clean oldest_used drop_slot mark_clean write_back
    evict_last evict_pick evict_slot load load_evicted get_found bcache_get dirty_found bcache_dirty
    store write_slot write_evicted write_found bcache_write_through flush_slot flush_from
    bcache_flush bcache_flush_all bcache_invalidate
program = tt

abbrev Memory : Type 0
Memory = ℕ → ℕ → ℕ

-- Drive 0 is there. A write succeeds when `good` says so, and otherwise spoils the sector.
abbrev drives : Bool → Drives
drives good = record {
  Sector = ℕ;
  Disk = Memory;
  blank = 0;
  present = λ d. d == 0;
  contents = λ k. k;
  ata_read = λ k d a old. (true, k d a);
  ata_write = λ k d a bytes.
      (good, λ d' a'. if d == d' && a == a' then (if good then bytes else 99) else k d' a');
  read_ok = λ k d a old e. refl;
  write_ok = λ k d a bytes e. ground arith;
  write_others = λ k d a bytes d' a' ne. elim ne [ inl p ↦ ground arith | inr p ↦ ground arith ];
}

abbrev ram : Drives
ram = drives true

ram-Reliable : Reliable ram
ram-Reliable k d a bytes e = refl

-- Sector a of drive 0 holds 100 + a.
abbrev disk : Memory
disk d a = if d == 0 then 100 + a else 0

-- Two slots: sector 7 with data that is not on the disk, and a free one.
abbrev two : Cache ram
two = record {
  slots =
      record { lba = 7; drive = 0; bytes = 55; valid = true; dirty = true; last_use = 1 }
      ∷ empty_slot ram
      ∷ [];
  lru_clock = 1;
  hits = 0;
  misses = 0;
  writes = 0;
  disk = disk;
  crashed = false;
}

slot_zero : (i : ℕ) → i < 2 → (slot_at ram two i).valid ≡ true → i ≡ 0
slot_zero zero l e = refl
slot_zero (suc zero) l e = absurd (differ refl e)
slot_zero (suc (suc i)) l e = absurd (omega arith)

two_slots : (i : ℕ) → i < 2 → IsClean ram disk (slot_at ram two i)
two_slots zero l v = (omega arith, refl, λ e. absurd (differ e refl))
two_slots (suc zero) l v = absurd (differ refl v)
two_slots (suc (suc i)) l v = absurd (omega arith)

two-Sound : IsValid ram two
two-Sound = record {
  unique = λ i j d a li lj hi hj.
      slot_zero i li (holds-key ram d a (slot_at ram two i) hi).0
      ∙ sym (slot_zero j lj (holds-key ram d a (slot_at ram two j) hj).0);
  clean = two_slots;
}

-- The dirty sector is read from the cache, another from the disk, and a flush writes the dirty one.
runs :
    ((bcache_get ram 0 7 two).0 ≡ some 0)
    × ((bcache_get ram 0 8 two).0 ≡ some 1)
    × (view ram (bcache_get ram 0 8 two).1 0 8 ≡ 108)
    × ((bcache_get ram 1 7 two).0 ≡ none)
    × ((bcache_flush ram 0 two).0 ≡ true)
    × ((bcache_flush ram 0 two).1.disk 0 7 ≡ 55)
    × ((bcache_flush_all ram two).0 ≡ false)
    × (view ram (bcache_invalidate ram 0 two) 0 7 ≡ 107)
unfolding program
runs = (refl, refl, refl, refl, refl, refl, refl, refl)

-- With both slots dirty, a miss writes the older one back.
miss_writes_back :
    let t = bcache_dirty ram 0 8 (store ram 1 66 (bcache_get ram 0 8 two).1) in
    ((bcache_get ram 0 9 t).0 ≡ some 0) × ((bcache_get ram 0 9 t).1.disk 0 7 ≡ 55)
unfolding program
miss_writes_back = (refl, refl)

-- A bcache_write_through that fails leaves its data in the cache, marked as clean.
spoilt : Cache (drives false)
spoilt = record {
  slots = empty_slot (drives false) ∷ [];
  lru_clock = 0;
  hits = 0;
  misses = 0;
  writes = 0;
  disk = disk;
  crashed = false;
}

write_through_failed :
    let (ok, t) = bcache_write_through (drives false) 0 7 55 spoilt in
    (ok ≡ false)
    × (view (drives false) t 0 7 ≡ 55)
    × (t.disk 0 7 ≡ 99)
    × ((bcache_flush (drives false) 0 t).0 ≡ true)
unfolding program spoilt
write_through_failed = (refl, refl, refl, refl)

evict_slot-Eviction_example : Eviction ram two (evict_slot ram two)
evict_slot-Eviction_example = evict_slot-Eviction ram two

bcache_get-Fetched_example : Fetched ram two 0 8 (bcache_get ram 0 8 two)
bcache_get-Fetched_example = bcache_get-Fetched ram two 0 8 ram-Reliable two-Sound

bcache_get_given_case : (i : ℕ) × ((bcache_get ram 0 8 two).0 ≡ some i)
bcache_get_given_case =
    bcache_get_given ram two 0 8 0 (omega arith) refl (λ k old. refl) (omega arith) (omega arith)

dirty_run : Taken ram two 0 7 66 (bcache_dirty ram 0 7 (store ram 0 66 two))
dirty_run = bcache_dirty-store ram two 0 7 0 66 two-Sound (omega arith) refl

bcache_write_through-Through_example : Through ram two 0 8 77 (bcache_write_through ram 0 8 77 two)
bcache_write_through-Through_example =
    bcache_write_through-Through ram two 0 8 77 ram-Reliable two-Sound

bcache_flush-Flushed_example : Flushed ram 0 two (bcache_flush ram 0 two)
bcache_flush-Flushed_example = bcache_flush-Flushed ram 0 two two-Sound

abbrev calls : List (Call ram)
calls = modify 0 8 66 ∷ read 0 9 ∷ flush 0 ∷ read 0 8 ∷ []

two-Shows : Shows ram two (view ram two)
two-Shows = record { valid = two-Sound; agrees = λ d a. refl }

answer-Agrees_example : Agrees ram calls two (view ram two)
answer-Agrees_example = answer-Agrees ram calls two (view ram two) ram-Reliable two-Shows
