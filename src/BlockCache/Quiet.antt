-- ===== src/BlockCache/Quiet.antt =====
-- fs/blockcache.c: the eviction of a slot, as far as a client of the cache can tell.
use new_os.Base.{
  ℕ, ◌<◌, ◌≡◌, inl, inr, refl, ap, sym, subst, ◌∙◌, true, false, ◌&&◌, if◌then◌else◌, List, length,
  get_or, set, Option, none, some, Bool-cases, differ, arith, length-set, get_or-set_self,
  get_or-set_ne, ℕ_discrete, ltb, lt→ltb,
}
use new_os.BlockCache.{
  Drives, Slot, Cache, empty_slot, slot_at, holds, put_slot, drop_slot, mark_clean, write_back,
  crash, evict_slot,
}
use new_os.BlockCache.View.{view, IsValid, Sound, IsClean}
use new_os.BlockCache.Replace.{
  set-Sound, Fits-invalid, Fits-same, Agree, Agree-refl, seen-set_same, seen-set_drop,
}
use new_os.BlockCache.Evict.{
  take_unused, take_clean, take_written, take_nothing, evict_slot-Eviction,
}

module _ (c : Drives) where
  open c use {Sector, Disk, present, contents, ata_write, write_ok, write_others}

  -- Writes to a drive that is there succeed.
  abbrev pub Reliable : Type 0
  Reliable =
      (k : Disk) (drive lba : ℕ) (bytes : Sector)
      → present drive ≡ true
      → (ata_write k drive lba bytes).0 ≡ true

  -- From s to t nothing happens that a client can see, and no slot comes to hold a sector.
  pub record Quiet (s t : Cache c) : Type 0 where
    pub valid : IsValid c t
    pub same : (drive lba : ℕ) → view c t drive lba ≡ view c s drive lba
    pub size : length t.slots ≡ length s.slots
    pub fewer :
        (drive lba j : ℕ)
        → holds c drive lba (slot_at c s j) ≡ false
        → holds c drive lba (slot_at c t j) ≡ false

  pub Quiet-refl : (s : Cache c) → IsValid c s → Quiet s s
  Quiet-refl s v = record { valid = v; same = λ d a. refl; size = refl; fewer = λ d a j h. h }

  pub crash-Quiet : (s : Cache c) → IsValid c s → Quiet s (crash c s)
  crash-Quiet s v = record { valid = v; same = λ d a. refl; size = refl; fewer = λ d a j h. h }

  pub Quiet-trans : {s t u : Cache c} → Quiet s t → Quiet t u → Quiet s u
  Quiet-trans p q = record {
    valid = q.valid;
    same = λ d a. q.same d a ∙ p.same d a;
    size = q.size ∙ p.size;
    fewer = λ d a j h. q.fewer d a j (p.fewer d a j h);
  }

  -- What a slot holds after a write to slot i.
  holds-set :
      (xs : List (Slot c)) (i j drive lba : ℕ) (y : Slot c)
      → i < length xs
      → (holds c drive lba (get_or xs i (empty_slot c)) ≡ false → holds c drive lba y ≡ false)
      → holds c drive lba (get_or xs j (empty_slot c)) ≡ false
      → holds c drive lba (get_or (set xs i y) j (empty_slot c)) ≡ false
  holds-set xs i j drive lba y l h e = elim (ℕ_discrete i j) [
    | yes p ↦
        subst (λ (n : ℕ). holds c drive lba (get_or (set xs i y) n (empty_slot c)) ≡ false) p
          (rw (get_or-set_self xs i y (empty_slot c) l) (
            h (
              subst (λ (n : ℕ). holds c drive lba (get_or xs n (empty_slot c)) ≡ false) (sym p) e)))
    | no p ↦ rw (get_or-set_ne xs i j y (empty_slot c) p) e
  ]

  -- Slot i is rewritten with its own key and data, and the disk changes at most at that key.
  pub set-Quiet :
      (s t : Cache c) (i : ℕ) (y : Slot c)
      → IsValid c s
      → i < length s.slots
      → ((d a : ℕ) → holds c d a y ≡ holds c d a (slot_at c s i))
      → y.bytes ≡ (slot_at c s i).bytes
      → IsClean c t.disk y
      → Agree c s.slots i y s.disk t.disk
      → t.slots ≡ set s.slots i y
      → Quiet s t
  set-Quiet s t i y v l same eq clean agree e = record {
    valid =
        subst (λ xs. Sound c xs t.disk) (sym e)
          (set-Sound c s.slots i s.disk v l y t.disk (Fits-same c s.slots i s.disk v l y same) clean
            agree);
    same = λ d a. rw e (seen-set_same c s.slots i s.disk v l y t.disk d a same eq agree);
    size = ap length e ∙ length-set s.slots i y;
    fewer = λ d a j h. rw e (holds-set s.slots i j d a y l (λ f. same d a ∙ f) h);
  }

  -- A slot that is clean, or not valid, is given up.
  pub give_up-Quiet :
      (s : Cache c) (i : ℕ) (y : Slot c)
      → IsValid c s
      → i < length s.slots
      → y.valid ≡ false
      → ((slot_at c s i).valid ≡ true → (slot_at c s i).dirty ≡ false)
      → Quiet s (put_slot c i y s)
  give_up-Quiet s i y v l gone clean = record {
    valid =
        set-Sound c s.slots i s.disk v l y s.disk (Fits-invalid c s.slots i s.disk v l y gone)
          (λ e. absurd (differ gone e)) (Agree-refl c s.slots i y s.disk);
    same = λ d a. seen-set_drop c s.slots i s.disk v l y d a gone clean;
    size = length-set s.slots i y;
    fewer = λ d a j h. holds-set s.slots i j d a y l (λ f. ground arith) h;
  }

  -- A write to the sector of a valid slot touches no other sector.
  pub ata_write-Agree :
      (xs : List (Slot c)) (i : ℕ) (k : Disk) (y : Slot c) (drive lba : ℕ) (bytes : Sector)
      → y.valid ≡ true
      → y.drive ≡ drive
      → y.lba ≡ lba
      → Agree c xs i y k (ata_write k drive lba bytes).1
  ata_write-Agree xs i k y drive lba bytes v p q d a h =
      write_others k drive lba bytes d a (elim (ℕ_discrete drive d) [
        | no ne ↦ inl ne
        | yes e ↦ elim (ℕ_discrete lba a) [ no ne ↦ inr ne | yes f ↦ absurd (ground arith) ]
      ])

  -- A valid slot that is on the disk is marked as clean.
  pub mark_clean-Quiet :
      (s : Cache c) (i : ℕ)
      → IsValid c s
      → i < length s.slots
      → (slot_at c s i).valid ≡ true
      → (let x = slot_at c s i in
          let (ok, k) = ata_write s.disk x.drive x.lba x.bytes in
          ok ≡ true
          → Quiet s (mark_clean c i k s) × ((slot_at c (mark_clean c i k s) i).dirty ≡ false))
  unfolding mark_clean
  mark_clean-Quiet s i v l now ok =
      let x = slot_at c s i in
      let y : Slot c = record x { dirty = false } in
      let (small, there, fresh) = v.clean i l now in
      let k = (ata_write s.disk x.drive x.lba x.bytes).1 in
      (
        set-Quiet s (mark_clean c i k s) i y v l (λ d a. refl) refl
            (λ e. (small, there, λ f. sym (write_ok s.disk x.drive x.lba x.bytes ok)))
            (ata_write-Agree s.slots i s.disk y x.drive x.lba x.bytes now refl refl) refl,
        ap (λ (z : Slot c). z.dirty) (get_or-set_self s.slots i y (empty_slot c) l),
      )

  -- Writing back a valid slot.
  pub write_back-Quiet :
      (s : Cache c) (i : ℕ)
      → Reliable
      → IsValid c s
      → i < length s.slots
      → (slot_at c s i).valid ≡ true
      → Quiet s (write_back c i s) × ((slot_at c (write_back c i s) i).dirty ≡ false)
  unfolding write_back
  write_back-Quiet s i r v l now =
      let x = slot_at c s i in
      let (small, there, fresh) = v.clean i l now in
      let P = λ (t : Cache c). Quiet s t × ((slot_at c t i).dirty ≡ false) in
      let (ok, k) = ata_write s.disk x.drive x.lba x.bytes in
      let w = if ltb x.drive 4 && present x.drive then k else s.disk in
      let reached : (ltb x.drive 4 && present x.drive) ≡ true =
        ground (arith, lt→ltb x.drive 4 small, there) in
      elim (Bool-cases x.dirty) [
        | inr e ↦ subst (λ b. P (if b then mark_clean c i w s else s)) (sym e) (Quiet-refl s v, e)
        | inl e ↦
            subst (λ b. P (if b then mark_clean c i w s else s)) (sym e)
              (subst (λ b. P (mark_clean c i (if b then k else s.disk) s)) (sym reached)
                (mark_clean-Quiet s i v l now (r s.disk x.drive x.lba x.bytes there)))
      ]

  -- What becomes of a cache from which slot i is evicted.
  pub record Evicted (s : Cache c) (i : ℕ) (t : Cache c) : Type 0 where
    pub quiet : Quiet s t
    pub in_range : i < length t.slots
    pub unused : (slot_at c t i).valid ≡ false

  drop_slot-Evicted :
      {s : Cache c} (t : Cache c) (i : ℕ)
      → Quiet s t
      → i < length s.slots
      → ((slot_at c t i).valid ≡ true → (slot_at c t i).dirty ≡ false)
      → Evicted s i (drop_slot c i t)
  unfolding drop_slot
  drop_slot-Evicted t i q l h =
      let l' : i < length t.slots = omega (arith, l, q.size) in
      record {
        quiet = Quiet-trans q (give_up-Quiet t i _ q.valid l' refl h);
        in_range = omega (arith, l', length-set t.slots i _);
        unused = ap (λ (z : Slot c). z.valid) (get_or-set_self t.slots i _ (empty_slot c) l');
      }

  -- The outcomes of evict_slot, for a client.
  abbrev pub Outcome : Cache c → Option ℕ × Cache c → Type 0
  Outcome s (none, t) = t ≡ crash c s
  Outcome s (some i, t) = Evicted s i t

  pub evict_slot-Outcome : (s : Cache c) → Reliable → IsValid c s → Outcome s (evict_slot c s)
  evict_slot-Outcome s r v = elim (evict_slot-Eviction c s) [
    | take_unused i l e q ↦
        subst (Outcome s) (sym q) (record { quiet = Quiet-refl s v; in_range = l; unused = e })
    | take_clean i all o q ↦
        subst (Outcome s) (sym q)
          (drop_slot-Evicted s i (Quiet-refl s v) o.in_range (λ e. ground (arith, o.passes)))
    | take_written i all dirty o q ↦
        let (quiet, now) = write_back-Quiet s i r v o.in_range (all i o.in_range) in
        subst (Outcome s) (sym q)
          (drop_slot-Evicted (write_back c i s) i quiet o.in_range (λ e. now))
    | take_nothing old q ↦ subst (Outcome s) (sym q) refl
  ]
