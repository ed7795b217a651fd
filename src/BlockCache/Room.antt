-- ===== src/BlockCache/Room.antt =====
-- fs/blockcache.c: the slot that takes a sector, found or evicted, and what a client reads once it
-- has done so.
use new_os.Base.{
  ℕ, ◌<◌, ◌≡◌, ◌≢◌, inl, inr, length-set, ap, sym, subst, ◌∙◌, Bool, true, false, ◌&&◌, ◌==◌,
  if◌then◌else◌, length, set, none, some, Bool-cases, differ, arith,
}
use new_os.Base.Find.{find_index-Found, find_index-none_at}
use new_os.BlockCache.{Drives, Slot, Cache, empty_slot, slot_at, holds, find_slot}
use new_os.BlockCache.View.{
  view, seen, IsValid, Sound, IsClean, Fits, holds-key, cached-absent, or_disk,
}
use new_os.BlockCache.Replace.{set-Sound, Agree, seen-set_key}
use new_os.BlockCache.Quiet.{Evicted, Quiet}

module _ (c : Drives) where
  open c use {Sector, Disk, present, contents}

  -- Slot i can take the sector: no other slot holds it, and slot i holds no other.
  pub record Room (s : Cache c) (drive lba i : ℕ) : Type 0 where
    pub in_range : i < length s.slots
    pub others : (j : ℕ) → i ≢ j → j < length s.slots → holds c drive lba (slot_at c s j) ≡ false
    pub own : (d a : ℕ) → holds c d a (slot_at c s i) ≡ true → (drive ≡ d) × (lba ≡ a)

  pub find_slot-Room :
      (s : Cache c) (drive lba i : ℕ)
      → IsValid c s
      → find_slot c drive lba s ≡ some i
      → Room s drive lba i × (holds c drive lba (slot_at c s i) ≡ true)
  unfolding find_slot
  find_slot-Room s drive lba i v e =
      let f = find_index-Found (holds c drive lba) s.slots (empty_slot c) i e in
      (
        record {
          in_range = f.in_range;
          others = λ j ne l. elim (Bool-cases (holds c drive lba (slot_at c s j))) [
            | inl h ↦ absurd (ne (v.unique i j drive lba f.in_range l f.passes h))
            | inr h ↦ h
          ];
          own = λ d a h.
              let (now, p, q) = holds-key c drive lba (slot_at c s i) f.passes in
              let (now', p', q') = holds-key c d a (slot_at c s i) h in (sym p ∙ p', sym q ∙ q');
        },
        f.passes,
      )

  pub absent-Evicted :
      (s t : Cache c) (drive lba i : ℕ)
      → find_slot c drive lba s ≡ none
      → Quiet c s t
      → (j : ℕ) → j < length t.slots
      → holds c drive lba (slot_at c t j) ≡ false
  unfolding find_slot
  absent-Evicted s t drive lba i e q j l =
      q.fewer drive lba j (
        find_index-none_at (holds c drive lba) s.slots (empty_slot c) j e
          (omega (arith, l, q.size)))

  pub Evicted-Room :
      (s t : Cache c) (drive lba i : ℕ)
      → find_slot c drive lba s ≡ none
      → Evicted c s i t
      → Room t drive lba i
  Evicted-Room s t drive lba i e o = record {
    in_range = o.in_range;
    others = λ j ne. absent-Evicted s t drive lba i e o.quiet j;
    own = λ d a h. absurd (differ o.unused (holds-key c d a (slot_at c t i) h).0);
  }

  -- A sector that is not cached is read from the disk.
  pub view-absent :
      (s : Cache c) (drive lba : ℕ)
      → ((j : ℕ) → j < length s.slots → holds c drive lba (slot_at c s j) ≡ false)
      → view c s drive lba ≡ contents s.disk drive lba
  view-absent s drive lba absent =
      ap (λ o. or_disk c o (contents s.disk drive lba)) (cached-absent c s.slots drive lba absent)

  abbrev pub same_sector : ℕ → ℕ → ℕ → ℕ → Bool
  same_sector drive lba d a = drive == d && lba == a

  -- Slot i takes the sector, with y: the sector's data is y's, and no other sector changes.
  pub record Taken (s : Cache c) (drive lba : ℕ) (bytes : Sector) (t : Cache c) : Type 0 where
    pub valid : IsValid c t
    pub here : view c t drive lba ≡ bytes
    pub others : (d a : ℕ) → same_sector drive lba d a ≡ false → view c t d a ≡ view c s d a
    pub size : length t.slots ≡ length s.slots

  module _ (s t : Cache c) (drive lba i : ℕ) (v : IsValid c s) (r : Room s drive lba i) where
    module _ (y : Slot c) (now : y.valid ≡ true) (yd : y.drive ≡ drive) (yl : y.lba ≡ lba) where
      key : (d a : ℕ) → holds c d a y ≡ same_sector drive lba d a
      key d a = ground arith

      Room-Fits : Fits c s.slots i y
      Room-Fits j d a ne l h =
          let (now, p, q) = holds-key c d a y h in
          subst (λ (n : ℕ). holds c n a (slot_at c s j) ≡ false) (sym yd ∙ p)
            (subst (λ (n : ℕ). holds c drive n (slot_at c s j) ≡ false) (sym yl ∙ q)
              (r.others j ne l))

      pub put_slot-Taken :
          IsClean c t.disk y
          → Agree c s.slots i y s.disk t.disk
          → t.slots ≡ set s.slots i y
          → Taken s drive lba y.bytes t
      put_slot-Taken clean agree e =
          let fits = Room-Fits in
          let old = seen c s.slots s.disk in
          let own = λ (d a : ℕ) (h : holds c d a (slot_at c s i) ≡ true).
            let (p, q) = r.own d a h in
            let same : same_sector drive lba d a ≡ true = ground arith in key d a ∙ same in
          let formula = λ (d a : ℕ).
            ap (λ xs. seen c xs t.disk d a) e
            ∙ seen-set_key c s.slots i s.disk v r.in_range y t.disk d a fits own agree
            ∙ ap (λ b. if b then y.bytes else old d a) (key d a) in
          let self : same_sector drive lba drive lba ≡ true = ground arith in
          record {
            valid =
                subst (λ xs. Sound c xs t.disk) (sym e)
                  (set-Sound c s.slots i s.disk v r.in_range y t.disk fits clean agree);
            here = formula drive lba ∙ ap (λ b. if b then y.bytes else old drive lba) self;
            others = λ d a h. formula d a ∙ ap (λ b. if b then y.bytes else old d a) h;
            size = ap length e ∙ length-set s.slots i y;
          }
