-- ===== src/BlockCache/Get.antt =====
-- fs/blockcache.c: bcache_get, hit and miss.
use new_os.Base.{
  ℕ, ◌<◌, ◌-◌, ◌^◌, ◌≡◌, inl, inr, refl, sym, subst, ◌∙◌, Bool, true, false, not, if◌then◌else◌,
  length, length-set, get_or-set_self, Option, none, some, Bool-cases, Option-cases, differ, arith,
  inc32,
}
use new_os.BlockCache.{
  Drives, Slot, Cache, empty_slot, slot_at, holds, put_slot, find_slot, use_slot, bad_drive, crash,
  evict_slot, load, load_evicted, get_found, bcache_get,
}
use new_os.BlockCache.View.{view, IsValid}
use new_os.BlockCache.Replace.{Agree-refl, seen-at}
use new_os.BlockCache.Quiet.{
  Reliable, Quiet, Quiet-refl, crash-Quiet, Quiet-trans, Evicted, Outcome, set-Quiet, give_up-Quiet,
  evict_slot-Outcome,
}
use new_os.BlockCache.Evict.{
  take_unused, take_clean, take_written, take_nothing, evict_slot-Eviction,
}
use new_os.BlockCache.Room.{
  Taken, find_slot-Room, Evicted-Room, absent-Evicted, view-absent, put_slot-Taken, same_sector,
}

module _ (c : Drives) where
  open c use {Sector, Disk, present, contents, ata_read, read_ok}

  -- What bcache_get promises: a client reads what it would have read before, and the slot that it
  -- is given holds the sector's data.
  pub record Fetched (s : Cache c) (drive lba : ℕ) (r : Option ℕ × Cache c) : Type 0 where
    pub valid : IsValid c r.1
    pub same : (d a : ℕ) → view c r.1 d a ≡ view c s d a
    pub found :
        (i : ℕ)
        → r.0 ≡ some i
        → (i < length r.1.slots)
          × (holds c drive lba (slot_at c r.1 i) ≡ true)
          × ((slot_at c r.1 i).bytes ≡ view c s drive lba)

  Fetched-none : (s t : Cache c) (drive lba : ℕ) → Quiet c s t → Fetched s drive lba (none, t)
  Fetched-none s t drive lba q = record {
    valid = q.valid;
    same = q.same;
    found = λ i e. absurd (ground arith);
  }

  found_at :
      (s t : Cache c) (drive lba i : ℕ)
      → (let P = λ (n : ℕ).
            (n < length t.slots)
            × (holds c drive lba (slot_at c t n) ≡ true)
            × ((slot_at c t n).bytes ≡ view c s drive lba) in
          P i → (j : ℕ) → some i ≡ some j → P j)
  found_at s t drive lba i p j e = let same_slot : i ≡ j = ground arith in rw (← same_slot) p

  Fetched-hit :
      (s : Cache c) (drive lba i : ℕ)
      → IsValid c s
      → find_slot c drive lba s ≡ some i
      → Fetched s drive lba
          (some i, use_slot c i (slot_at c s i) (record s { hits = inc32 s.hits }))
  Fetched-hit s drive lba i v e =
      let (r, h) = find_slot-Room c s drive lba i v e in
      let x = slot_at c s i in
      let y : Slot c = record x { last_use = inc32 s.lru_clock } in
      let l = r.in_range in
      let t = use_slot c i x (record s { hits = inc32 s.hits }) in
      let q =
        set-Quiet c s t i y v l (λ d a. refl) refl (v.clean i l) (Agree-refl c s.slots i y s.disk)
          refl in
      let now : slot_at c t i ≡ y = get_or-set_self s.slots i y (empty_slot c) l in
      record {
        valid = q.valid;
        same = q.same;
        found = found_at s t drive lba i (
          omega (arith, l, length-set s.slots i y),
          rw now h,
          rw now (sym (seen-at c s.slots i s.disk v l drive lba h)),
        );
      }

  Taken-same :
      (s t : Cache c) (drive lba d a : ℕ) (bytes : Sector)
      → Taken c s drive lba bytes t
      → bytes ≡ view c s drive lba
      → view c t d a ≡ view c s d a
  Taken-same s t drive lba d a bytes k e = elim (Bool-cases (same_sector c drive lba d a)) [
    | inr f ↦ k.others d a f
    | inl f ↦
        let p : drive ≡ d = ground arith in
        let q : lba ≡ a = ground arith in
        subst (λ (n : ℕ). view c t n a ≡ view c s n a) p
          (subst (λ (n : ℕ). view c t drive n ≡ view c s drive n) q (k.here ∙ e))
  ]

  module _ (s u : Cache c) (drive lba i : ℕ) (o : Evicted c s i u) where
    -- Slot i was evicted for a sector that no slot holds, and now holds what the disk holds.
    loaded-Fetched :
        (y : Slot c)
        → drive < 4
        → present drive ≡ true
        → find_slot c drive lba s ≡ none
        → y.bytes ≡ contents u.disk drive lba
        → (let t =
              use_slot c i (record y { valid = true; dirty = false; drive = drive; lba = lba }) u in
            Fetched s drive lba (some i, t))
    loaded-Fetched y small there e eq =
        let z : Slot c = record y { valid = true; dirty = false; drive = drive; lba = lba } in
        let w : Slot c = record z { last_use = inc32 u.lru_clock } in
        let t = use_slot c i z u in
        let q = o.quiet in
        let l = o.in_range in
        let was = view-absent c u drive lba (absent-Evicted c s u drive lba i e q) in
        let k =
          put_slot-Taken c u t drive lba i q.valid (Evicted-Room c s u drive lba i e o) w refl refl
            refl (λ v. (small, there, λ d. eq)) (Agree-refl c u.slots i w u.disk) refl in
        let now : slot_at c t i ≡ w = get_or-set_self u.slots i w (empty_slot c) l in
        let self : holds c drive lba w ≡ true = ground arith in
        record {
          valid = k.valid;
          same = λ d a. Taken-same u t drive lba d a y.bytes k (eq ∙ sym was) ∙ q.same d a;
          found =
              found_at s t drive lba i
                (omega (arith, l, k.size), rw now self, rw now (eq ∙ sym was ∙ q.same drive lba));
        }

    load-Fetched :
        drive < 4 → find_slot c drive lba s ≡ none → Fetched s drive lba (load c drive lba i u)
    unfolding load
    load-Fetched small e =
        let x = slot_at c u i in
        let bytes = (ata_read u.disk drive lba x.bytes).1 in
        let ok = (ata_read u.disk drive lba x.bytes).0 in
        let y : Slot c = record x { bytes = bytes } in
        let z : Slot c = record y { valid = true; dirty = false; drive = drive; lba = lba } in
        let q = o.quiet in
        let l = o.in_range in
        let kept = λ (h : x.valid ≡ true). absurd {A = x.dirty ≡ false} (differ o.unused h) in
        let P = λ (b b' : Bool). Fetched s drive lba (
          if not b
          then (none, u)
          else if not b'
          then (none, put_slot c i y u)
          else (some i, use_slot c i z u)) in
        elim (Bool-cases (present drive)) [
          | inr p ↦ subst (λ b. P b ok) (sym p) (Fetched-none s u drive lba q)
          | inl p ↦ elim (Bool-cases ok) [
            | inr f ↦
                subst (λ b. P b ok) (sym p)
                  (subst (P true) (sym f) (
                    Fetched-none s (put_slot c i y u) drive lba
                      (Quiet-trans c q (give_up-Quiet c u i y q.valid l o.unused kept))))
            | inl f ↦
                subst (λ b. P b ok) (sym p)
                  (subst (P true) (sym f)
                    (loaded-Fetched y small p e (read_ok u.disk drive lba x.bytes f)))
          ]
        ]

  load_evicted-Fetched :
      (s : Cache c) (drive lba : ℕ) (e : Option ℕ × Cache c)
      → drive < 4
      → IsValid c s
      → find_slot c drive lba s ≡ none
      → Outcome c s e
      → Fetched s drive lba (load_evicted c drive lba e)
  unfolding load_evicted
  load_evicted-Fetched s drive lba (none, t) small v absent o =
      rw o (Fetched-none s (crash c s) drive lba (crash-Quiet c s v))
  load_evicted-Fetched s drive lba (some i, t) small v absent o =
      load-Fetched s t drive lba i o small absent

  get_found-Fetched :
      (s : Cache c) (drive lba : ℕ) (o : Option ℕ)
      → drive < 4
      → Reliable c
      → IsValid c s
      → find_slot c drive lba s ≡ o
      → Fetched s drive lba (get_found c drive lba s o)
  unfolding get_found find_slot
  get_found-Fetched s drive lba (some i) small r v e = Fetched-hit s drive lba i v e
  get_found-Fetched s drive lba none small r v e =
      let t = record s { misses = inc32 s.misses } in
      let f =
        load_evicted-Fetched t drive lba (evict_slot c t) small v e (evict_slot-Outcome c t r v) in
      record { valid = f.valid; same = f.same; found = f.found }

  -- From a valid cache, over drives whose writes succeed, bcache_get leaves a valid cache in which a
  -- client reads what it would have read before at every sector, whatever was evicted; and if it
  -- gives a slot, that slot holds the sector and what a client would have read there.
  pub bcache_get-Fetched :
      (s : Cache c) (drive lba : ℕ)
      → Reliable c
      → IsValid c s
      → Fetched s drive lba (bcache_get c drive lba s)
  unfolding bcache_get
  bcache_get-Fetched s drive lba r v = elim (Bool-cases (bad_drive c drive)) [
    | inl bad ↦ rw bad (Fetched-none s s drive lba (Quiet-refl c s v))
    | inr good ↦
        let small : drive < 4 = ground (arith, good) in
        rw good (get_found-Fetched s drive lba _ small r v refl)
  ]

  -- From a cache in which some slot's last_use is below 2^32 - 1, bcache_get gives a slot for any
  -- sector of a drive below 4 that is there, if reads of that sector succeed.
  pub bcache_get_given :
      (s : Cache c) (drive lba j : ℕ)
      → drive < 4
      → present drive ≡ true
      → ((k : Disk) (old : Sector) → (ata_read k drive lba old).0 ≡ true)
      → j < length s.slots
      → (slot_at c s j).last_use < 2 ^ 32 - 1
      → (i : ℕ) × ((bcache_get c drive lba s).0 ≡ some i)
  unfolding bcache_get get_found load_evicted load
  bcache_get_given s drive lba j small there reads l young =
      let t = record s { misses = inc32 s.misses } in
      let good : bad_drive c drive ≡ false = ground (arith, small) in
      rw good (elim (Option-cases (find_slot c drive lba s)) [
        | inr (i, e) ↦ (i, rw e refl)
        | inl e ↦ elim (evict_slot-Eviction c t) [
          | take_unused i l' e' q ↦ (i, rw (e, q, there, reads) refl)
          | take_clean i all o q ↦ (i, rw (e, q, there, reads) refl)
          | take_written i all dirty o q ↦ (i, rw (e, q, there, reads) refl)
          | take_nothing old q ↦ absurd (omega (arith, old j l refl, young))
        ]
      ])
