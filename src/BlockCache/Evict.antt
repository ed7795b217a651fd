-- ===== src/BlockCache/Evict.antt =====
-- fs/blockcache.c: evict_slot, the slot it chooses and what becomes of its data.
use new_os.Base.{
  ℕ, ◌^◌, ◌-◌, ◌<◌, ◌≡◌, inl, inr, refl, Bool, true, false, not, length, Option, none, some,
  zero_add,
}
use new_os.BlockCache.{
  Drives, Slot, Cache, Pick, free, best, slot_at, drop_slot, write_back, crash, evict_slot,
  evict_last, evict_pick,
}
use new_os.BlockCache.Oldest.{
  IsOldest, NoOlder, Picked, Chosen, oldest_clean-Picked, oldest_used-Chosen,
}

module _ (c : Drives) where
  open c use {Sector, Disk, present, contents, ata_write, write_ok, write_others}

  abbrev pub is_clean : Slot c → Bool
  is_clean x = not x.dirty

  abbrev pub any : Slot c → Bool
  any x = true

  abbrev pub AllValid : Cache c → Type 0
  AllValid s = (j : ℕ) → j < length s.slots → (slot_at c s j).valid ≡ true

  -- The choices of evict_slot: a slot that is not valid; or the least recently used of the clean
  -- slots; or the least recently used slot, written back; or no slot, with a write through a
  -- null pointer, when the last_use of every slot is 2^32 - 1 or more.
  pub data Eviction (s : Cache c) (r : Option ℕ × Cache c) : Type 0 where
    take_unused :
        (i : ℕ)
        → i < length s.slots
        → (slot_at c s i).valid ≡ false
        → r ≡ (some i, s)
        → Eviction s r
    take_clean :
        (i : ℕ)
        → AllValid s
        → IsOldest c is_clean s.slots i
        → r ≡ (some i, drop_slot c i s)
        → Eviction s r
    take_written :
        (i : ℕ)
        → AllValid s
        → NoOlder c is_clean (2 ^ 32 - 1) s.slots
        → IsOldest c any s.slots i
        → r ≡ (some i, drop_slot c i (write_back c i s))
        → Eviction s r
    take_nothing : NoOlder c any (2 ^ 32 - 1) s.slots → r ≡ (none, crash c s) → Eviction s r

  Eviction-last :
      (s : Cache c)
      → AllValid s
      → NoOlder c is_clean (2 ^ 32 - 1) s.slots
      → (o : Option ℕ) → Chosen c any s.slots 0 none (2 ^ 32 - 1) o
      → Eviction s (evict_last c s o)
  unfolding evict_last
  Eviction-last s v dirty o (inl (e, old)) = rw e (take_nothing old refl)
  Eviction-last s v dirty o (inr (j, e, oldest, less)) =
      rw (e, zero_add j) (take_written j v dirty oldest refl)

  Eviction-pick :
      (s : Cache c) (p : Pick)
      → Picked c s.slots 0 none (2 ^ 32 - 1) p
      → Eviction s (evict_pick c s p)
  unfolding evict_pick
  Eviction-pick s (free k) (j, e, l, v) = rw (e, zero_add j) (take_unused j l v refl)
  Eviction-pick s (best o) (valid, inr (j, e, oldest, less)) =
      rw (e, zero_add j) (take_clean j valid oldest refl)
  Eviction-pick s (best o) (valid, inl (e, dirty)) =
      rw e (Eviction-last s valid dirty _ (oldest_used-Chosen c s.slots 0 none (2 ^ 32 - 1)))

  -- In every state evict_slot does one of these: it gives a slot that is not valid; if all are
  -- valid, the least recently used clean slot, given up without a write; if no clean slot has a
  -- last_use below 2^32 - 1, the least recently used slot, written back first if it is dirty; and
  -- only if no slot at all has a last_use below 2^32 - 1, it writes through a null pointer, which
  -- the model records as a crash in a state that is otherwise the same.
  pub evict_slot-Eviction : (s : Cache c) → Eviction s (evict_slot c s)
  unfolding evict_slot
  evict_slot-Eviction s = Eviction-pick s _ (oldest_clean-Picked c s.slots 0 none (2 ^ 32 - 1))
