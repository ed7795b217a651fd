-- ===== src/BlockCache/Write.antt =====
-- fs/blockcache.c: writing, through the pointer and bcache_dirty or by bcache_write_through.
use new_os.Base.{
  ℕ, ◌<◌, ◌≡◌, inl, inr, refl, ap, ap₂, sym, subst, ◌∙◌, Bool, true, false, not, if◌then◌else◌,
  length, set, set-set, get_or-set_self, Option, none, some, Bool-cases, Option-cases, differ,
  arith, inc32,
}
use new_os.Base.Find.{find_index, find_index-Found, find_index-none_at, find_index-set}
use new_os.BlockCache.{
  Drives, Slot, Cache, empty_slot, slot_at, holds, find_slot, use_slot, bad_drive, evict_slot,
  dirty_found, bcache_dirty, store, write_slot, write_evicted, write_found, bcache_write_through,
}
use new_os.BlockCache.View.{IsValid, holds-key}
use new_os.BlockCache.Replace.{Agree-refl}
use new_os.BlockCache.Quiet.{Reliable, Quiet, Outcome, ata_write-Agree, evict_slot-Outcome}
use new_os.BlockCache.Room.{Room, Taken, find_slot-Room, Evicted-Room, put_slot-Taken}

module _ (c : Drives) where
  open c use {Sector, Disk, present, contents, ata_write, write_ok, write_others}

  find_slot-at :
      (s : Cache c) (drive lba i : ℕ)
      → IsValid c s
      → i < length s.slots
      → holds c drive lba (slot_at c s i) ≡ true
      → find_slot c drive lba s ≡ some i
  unfolding find_slot
  find_slot-at s drive lba i v l h = elim (Option-cases (find_index (holds c drive lba) s.slots)) [
    | inl e ↦
        absurd (differ (find_index-none_at (holds c drive lba) s.slots (empty_slot c) i e l) h)
    | inr (j, e) ↦
        let f = find_index-Found (holds c drive lba) s.slots (empty_slot c) j e in
        e ∙ ap some (v.unique j i drive lba f.in_range l f.passes h)
  ]

  -- In a valid cache, when slot i holds the sector, a store of its data through the pointer followed
  -- by bcache_dirty leaves a valid cache in which a client reads the new data at the sector and
  -- what it would have read before at every other.
  pub bcache_dirty-store :
      (s : Cache c) (drive lba i : ℕ) (bytes : Sector)
      → IsValid c s
      → i < length s.slots
      → holds c drive lba (slot_at c s i) ≡ true
      → Taken c s drive lba bytes (bcache_dirty c drive lba (store c i bytes s))
  unfolding bcache_dirty store find_slot
  bcache_dirty-store s drive lba i bytes v l h =
      let x = slot_at c s i in
      let y : Slot c = record x { bytes = bytes } in
      let z : Slot c = record y { dirty = true } in
      let (r, here) = find_slot-Room c s drive lba i v (find_slot-at s drive lba i v l h) in
      let (now, p, q) = holds-key c drive lba x h in
      let (small, there, same) = v.clean i l now in
      let still : find_slot c drive lba (store c i bytes s) ≡ some i =
        find_index-set (holds c drive lba) s.slots i y (empty_slot c) refl l
        ∙ find_slot-at s drive lba i v l h in
      let stored : slot_at c (store c i bytes s) i ≡ y =
        get_or-set_self s.slots i y (empty_slot c) l in
      let t = store c i bytes s in
      subst (λ o. Taken c s drive lba bytes (dirty_found c t o)) (sym still)
        (put_slot-Taken c s _ drive lba i v r z now p q
          (λ e. (small, there, λ d. absurd (differ d refl))) (Agree-refl c s.slots i z s.disk)
          (ap (λ (w : Slot c). set (set s.slots i y) i (record w { dirty = true })) stored
            ∙ set-set s.slots i y z))

  -- What a write that succeeds promises: it is read back, and it is on the disk.
  pub record Through (s : Cache c) (drive lba : ℕ) (bytes : Sector) (r : Bool × Cache c)
      : Type 0 where
    pub taken : r.0 ≡ true → Taken c s drive lba bytes r.1
    pub on_disk : r.0 ≡ true → contents r.1.disk drive lba ≡ bytes

  Through-failed :
      (s t : Cache c) (drive lba : ℕ) (bytes : Sector) → Through s drive lba bytes (false, t)
  Through-failed s t drive lba bytes = record {
    taken = λ e. absurd (differ refl e);
    on_disk = λ e. absurd (differ refl e);
  }

  write_slot-Through :
      (s : Cache c) (drive lba : ℕ) (bytes : Sector) (i : ℕ) (x : Slot c)
      → IsValid c s
      → drive < 4
      → Room c s drive lba i
      → x.valid ≡ true
      → x.drive ≡ drive
      → x.lba ≡ lba
      → Through s drive lba bytes (write_slot c drive lba bytes i x s)
  unfolding write_slot
  write_slot-Through s drive lba bytes i x v small r now p q =
      let y : Slot c = record x { bytes = bytes; dirty = false } in
      let z : Slot c = record y { last_use = inc32 s.lru_clock } in
      let t = use_slot c i y s in
      let (ok, k) = ata_write s.disk drive lba bytes in
      let u : Cache c = record t { disk = k; writes = inc32 s.writes } in
      let P = λ (b : Bool). Through s drive lba bytes (if not b then (false, t) else (ok, u)) in
      elim (Bool-cases (present drive)) [
        | inr e ↦ subst P (sym e) (Through-failed s t drive lba bytes)
        | inl e ↦ subst P (sym e) (record {
          taken = λ f.
              put_slot-Taken c s u drive lba i v r z now p q
                (λ _. (
                  omega (arith, small, p),
                  ap present p ∙ e,
                  λ _. sym (write_ok s.disk drive lba bytes f) ∙ sym (ap₂ (contents k) p q),
                ))
                (ata_write-Agree c s.slots i s.disk z drive lba bytes now p q) refl;
          on_disk = write_ok s.disk drive lba bytes;
        })
      ]

  Quiet-Through :
      (s u : Cache c) (drive lba : ℕ) (bytes : Sector) (r : Bool × Cache c)
      → Quiet c s u
      → Through u drive lba bytes r
      → Through s drive lba bytes r
  Quiet-Through s u drive lba bytes r q t = record {
    taken = λ e.
        let k = t.taken e in
        record {
          valid = k.valid;
          here = k.here;
          others = λ d a f. k.others d a f ∙ q.same d a;
          size = k.size ∙ q.size;
        };
    on_disk = t.on_disk;
  }

  write_evicted-Through :
      (s : Cache c) (drive lba : ℕ) (bytes : Sector) (e : Option ℕ × Cache c)
      → drive < 4
      → find_slot c drive lba s ≡ none
      → Outcome c s e
      → Through s drive lba bytes (write_evicted c drive lba bytes e)
  unfolding write_evicted
  write_evicted-Through s drive lba bytes (none, t) small absent o =
      Through-failed s t drive lba bytes
  write_evicted-Through s drive lba bytes (some i, t) small absent o =
      let x : Slot c = record (slot_at c t i) { valid = true; drive = drive; lba = lba } in
      Quiet-Through s t drive lba bytes _ o.quiet (
        write_slot-Through t drive lba bytes i x o.quiet.valid small
          (Evicted-Room c s t drive lba i absent o) refl refl refl)

  write_found-Through :
      (s : Cache c) (drive lba : ℕ) (bytes : Sector) (o : Option ℕ)
      → drive < 4
      → Reliable c
      → IsValid c s
      → find_slot c drive lba s ≡ o
      → Through s drive lba bytes (write_found c drive lba bytes s o)
  unfolding write_found
  write_found-Through s drive lba bytes (some i) small r v e =
      let (room, h) = find_slot-Room c s drive lba i v e in
      let (now, p, q) = holds-key c drive lba (slot_at c s i) h in
      write_slot-Through s drive lba bytes i (slot_at c s i) v small room now p q
  write_found-Through s drive lba bytes none small r v e =
      write_evicted-Through s drive lba bytes (evict_slot c s) small e (evict_slot-Outcome c s r v)

  -- From a valid cache, over drives whose writes succeed, a bcache_write_through that returns
  -- success leaves a valid cache in which a client reads the new data at the sector and what it
  -- would have read before at every other, and the disk itself has the new data at the sector.
  pub bcache_write_through-Through :
      (s : Cache c) (drive lba : ℕ) (bytes : Sector)
      → Reliable c
      → IsValid c s
      → Through s drive lba bytes (bcache_write_through c drive lba bytes s)
  unfolding bcache_write_through
  bcache_write_through-Through s drive lba bytes r v = elim (Bool-cases (bad_drive c drive)) [
    | inl bad ↦ rw bad (Through-failed s s drive lba bytes)
    | inr good ↦
        let small : drive < 4 = ground (arith, good) in
        rw good (write_found-Through s drive lba bytes _ small r v refl)
  ]
