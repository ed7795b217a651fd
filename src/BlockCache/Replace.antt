-- ===== src/BlockCache/Replace.antt =====
-- fs/blockcache.c: the changes that the operations make to one slot and the disk, and what they do
-- to the invariant and to what a client reads.
use new_os.Base.{
  ℕ, ◌<◌, ◌≡◌, inl, inr, refl, ap, ap₂, sym, subst, ◌∙◌, true, false, if◌then◌else◌, List, length,
  get_or, set, Bool-cases, differ, arith, length-set, get_or-set_self, get_or-set_ne, ℕ_discrete,
}
use new_os.BlockCache.{Drives, Slot, empty_slot, holds}
use new_os.BlockCache.View.{
  seen, cached, or_disk, Sound, IsClean, Fits, holds-key, cached-at, cached-set, set-IsUnique,
  holds_own,
}

module _ (c : Drives) (xs : List (Slot c)) (i : ℕ) where
  open c use {Sector, Disk, contents}

  abbrev at : ℕ → Slot c
  at j = get_or xs j (empty_slot c)

  -- The disks agree on every sector but the one of y.
  abbrev pub Agree : Slot c → Disk → Disk → Type 0
  Agree y k k' =
      (drive lba : ℕ) → holds c drive lba y ≡ false → contents k' drive lba ≡ contents k drive lba

  pub Agree-refl : (y : Slot c) (k : Disk) → Agree y k k
  Agree-refl y k drive lba h = refl

  IsClean-Agree :
      (k k' : Disk) (x : Slot c)
      → IsClean c k x
      → (x.valid ≡ true → contents k' x.drive x.lba ≡ contents k x.drive x.lba)
      → IsClean c k' x
  IsClean-Agree k k' x h same v =
      let (small, there, now) = h v in (small, there, λ d. now d ∙ sym (same v))

  module _ (k : Disk) (s : Sound c xs k) (l : i < length xs) where
    pub set-Sound :
        (y : Slot c) (k' : Disk)
        → Fits c xs i y
        → IsClean c k' y
        → Agree y k k'
        → Sound c (set xs i y) k'
    set-Sound y k' fits clean agree = record {
      unique = set-IsUnique c xs i y s.unique l fits;
      clean = λ j lj. elim (ℕ_discrete i j) [
        | yes p ↦
            subst (λ (n : ℕ). IsClean c k' (get_or (set xs i y) n (empty_slot c))) p
              (subst (IsClean c k') (sym (get_or-set_self xs i y (empty_slot c) l)) clean)
        | no p ↦
            let lj' : j < length xs = omega (arith, lj, length-set xs i y) in
            subst (IsClean c k') (sym (get_or-set_ne xs i j y (empty_slot c) p)) (
              IsClean-Agree k k' (at j) (s.clean j lj') (λ v.
                agree (at j).drive (at j).lba
                  (elim (Bool-cases (holds c (at j).drive (at j).lba y)) [
                    | inl e ↦
                        absurd
                          (differ (fits j (at j).drive (at j).lba p lj' e) (holds_own c (at j) v))
                    | inr e ↦ e
                  ])))
      ];
    }

    -- A slot that holds nothing fits anywhere.
    pub Fits-invalid : (y : Slot c) → y.valid ≡ false → Fits c xs i y
    Fits-invalid y e j drive lba ne lj h = absurd (ground (arith, holds-key c drive lba y h))

    -- A slot with the key that slot i has.
    pub Fits-same :
        (y : Slot c)
        → ((drive lba : ℕ) → holds c drive lba y ≡ holds c drive lba (at i))
        → Fits c xs i y
    Fits-same y same j drive lba ne lj h = elim (Bool-cases (holds c drive lba (at j))) [
      | inl e ↦ absurd (ne (s.unique i j drive lba l lj (sym (same drive lba) ∙ h) e))
      | inr e ↦ e
    ]

    -- A slot for a sector that no slot holds.
    pub Fits-new :
        (y : Slot c)
        → ((j : ℕ) → j < length xs → holds c y.drive y.lba (at j) ≡ false)
        → Fits c xs i y
    Fits-new y absent j drive lba ne lj h =
        let (v, d, a) = holds-key c drive lba y h in
        subst (λ (n : ℕ). holds c n lba (at j) ≡ false) d
          (subst (λ (n : ℕ). holds c y.drive n (at j) ≡ false) a (absent j lj))

    pub seen-at :
        (drive lba : ℕ) → holds c drive lba (at i) ≡ true → seen c xs k drive lba ≡ (at i).bytes
    seen-at drive lba h =
        ap (λ o. or_disk c o (contents k drive lba)) (cached-at c xs i drive lba s.unique l h)

    -- What a client reads once slot i is y.
    pub seen-set :
        (y : Slot c) (k' : Disk) (drive lba : ℕ)
        → Fits c xs i y
        → seen c (set xs i y) k' drive lba ≡ (
            if holds c drive lba y
            then y.bytes
            else if holds c drive lba (at i)
            then contents k' drive lba
            else seen c xs k' drive lba)
    seen-set y k' drive lba fits =
        rw (cached-set c xs i y s.unique l drive lba fits)
          (elim (Bool-cases (holds c drive lba y)) [
            | inl e ↦ rw e refl
            | inr e ↦ elim (Bool-cases (holds c drive lba (at i))) [
              | inl f ↦ rw (e, f) refl
              | inr f ↦ rw (e, f) refl
            ]
          ])

    -- The data of y is seen at its key, and nothing else is.
    pub seen-set_key :
        (y : Slot c) (k' : Disk) (drive lba : ℕ)
        → Fits c xs i y
        → ((d a : ℕ) → holds c d a (at i) ≡ true → holds c d a y ≡ true)
        → Agree y k k'
        → seen c (set xs i y) k' drive lba
          ≡ (if holds c drive lba y then y.bytes else seen c xs k drive lba)
    seen-set_key y k' drive lba fits same agree =
        seen-set y k' drive lba fits ∙ elim (Bool-cases (holds c drive lba y)) [
          | inl e ↦ rw e refl
          | inr e ↦ elim (Bool-cases (holds c drive lba (at i))) [
            | inl f ↦ absurd (differ e (same drive lba f))
            | inr f ↦ rw (e, f) (ap (or_disk c (cached c xs drive lba)) (agree drive lba e))
          ]
        ]

    -- A slot with the key and the data that slot i has is not seen.
    pub seen-set_same :
        (y : Slot c) (k' : Disk) (drive lba : ℕ)
        → ((d a : ℕ) → holds c d a y ≡ holds c d a (at i))
        → y.bytes ≡ (at i).bytes
        → Agree y k k'
        → seen c (set xs i y) k' drive lba ≡ seen c xs k drive lba
    seen-set_same y k' drive lba same eq agree =
        seen-set_key y k' drive lba (Fits-same y same) (λ d a h. same d a ∙ h) agree
        ∙ elim (Bool-cases (holds c drive lba (at i))) [
          | inl e ↦ rw (same drive lba, e) (eq ∙ sym (seen-at drive lba e))
          | inr e ↦ rw (same drive lba, e) refl
        ]

    -- Giving up a slot that is not dirty is not seen.
    pub seen-set_drop :
        (y : Slot c) (drive lba : ℕ)
        → y.valid ≡ false
        → ((at i).valid ≡ true → (at i).dirty ≡ false)
        → seen c (set xs i y) k drive lba ≡ seen c xs k drive lba
    seen-set_drop y drive lba e clean =
        let gone : holds c drive lba y ≡ false = ground arith in
        seen-set y k drive lba (Fits-invalid y e) ∙ elim (Bool-cases (holds c drive lba (at i))) [
          | inl h ↦
              let (v, d, a) = holds-key c drive lba (at i) h in
              rw (gone, h)
                (sym (ap₂ (contents k) d a)
                  ∙ sym ((s.clean i l v).2 (clean v))
                  ∙ sym (seen-at drive lba h))
          | inr h ↦ rw (gone, h) refl
        ]
