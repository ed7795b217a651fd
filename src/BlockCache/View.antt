-- ===== src/BlockCache/View.antt =====
-- fs/blockcache.c: what a client reads through the cache, the invariant of the slots, and what a
-- change of one slot does to both.
use new_os.Base.{
  ℕ, ◌<◌, ◌≡◌, ◌≢◌, subst, refl, inl, inr, ap, sym, ◌∙◌, true, false, if◌then◌else◌, List, length,
  get_or, set, Option, none, some, Bool-cases, differ, Option-cases, arith, length-set,
  get_or-set_self, get_or-set_ne, get_or-replicate, ℕ_discrete,
}
use new_os.Base.Find.{find_index, find_index-Found, find_index-none_at}
use new_os.BlockCache.{Drives, Slot, Cache, empty_slot, holds, boot}

module _ (c : Drives) where
  open c use {Sector, Disk, present, contents}

  abbrev pub bytes_at : List (Slot c) → Option ℕ → Option Sector
  bytes_at xs none = none
  bytes_at xs (some i) = some (get_or xs i (empty_slot c)).bytes

  -- The data that a list of slots holds for a sector.
  abbrev pub cached : List (Slot c) → ℕ → ℕ → Option Sector
  cached xs drive lba = bytes_at xs (find_index (holds c drive lba) xs)

  abbrev pub or_disk : Option Sector → Sector → Sector
  or_disk none old = old
  or_disk (some bytes) old = bytes

  abbrev pub seen : List (Slot c) → Disk → ℕ → ℕ → Sector
  seen xs k drive lba = or_disk (cached xs drive lba) (contents k drive lba)

  -- What a client reads at a sector: the cached data if there is any, or else the disk's.
  abbrev pub view : Cache c → ℕ → ℕ → Sector
  view s = seen s.slots s.disk

  -- No two slots hold the same sector.
  abbrev pub IsUnique : List (Slot c) → Type 0
  IsUnique xs =
      (i j drive lba : ℕ)
      → i < length xs
      → j < length xs
      → holds c drive lba (get_or xs i (empty_slot c)) ≡ true
      → holds c drive lba (get_or xs j (empty_slot c)) ≡ true
      → i ≡ j

  -- A valid slot is of a drive that is there, and unless it is dirty it holds what the disk holds.
  abbrev pub IsClean : Disk → Slot c → Type 0
  IsClean k x =
      x.valid ≡ true
      → (x.drive < 4)
        × (present x.drive ≡ true)
        × (x.dirty ≡ false → x.bytes ≡ contents k x.drive x.lba)

  pub record Sound (xs : List (Slot c)) (k : Disk) : Type 0 where
    pub unique : IsUnique xs
    pub clean : (i : ℕ) → i < length xs → IsClean k (get_or xs i (empty_slot c))

  abbrev pub IsValid : Cache c → Type 0
  IsValid s = Sound s.slots s.disk

  pub holds-key :
      (drive lba : ℕ) (x : Slot c)
      → holds c drive lba x ≡ true
      → (x.valid ≡ true) × (x.drive ≡ drive) × (x.lba ≡ lba)
  holds-key drive lba x h = ground arith

  pub holds_own : (x : Slot c) → x.valid ≡ true → holds c x.drive x.lba x ≡ true
  holds_own x h = ground arith

  pub cached-at :
      (xs : List (Slot c)) (i drive lba : ℕ)
      → IsUnique xs
      → i < length xs
      → holds c drive lba (get_or xs i (empty_slot c)) ≡ true
      → cached xs drive lba ≡ some (get_or xs i (empty_slot c)).bytes
  cached-at xs i drive lba u l h = elim (Option-cases (find_index (holds c drive lba) xs)) [
    | inl e ↦ absurd (cc (h, find_index-none_at (holds c drive lba) xs (empty_slot c) i e l))
    | inr (j, e) ↦
        let f = find_index-Found (holds c drive lba) xs (empty_slot c) j e in
        ap (bytes_at xs) (e ∙ ap some (u j i drive lba f.in_range l f.passes h))
  ]

  pub cached-absent :
      (xs : List (Slot c)) (drive lba : ℕ)
      → ((i : ℕ) → i < length xs → holds c drive lba (get_or xs i (empty_slot c)) ≡ false)
      → cached xs drive lba ≡ none
  cached-absent xs drive lba a = elim (Option-cases (find_index (holds c drive lba) xs)) [
    | inl e ↦ ap (bytes_at xs) e
    | inr (j, e) ↦
        let f = find_index-Found (holds c drive lba) xs (empty_slot c) j e in
        absurd (cc (f.passes, a j f.in_range))
  ]

  -- Slot i becomes y, and no other slot holds what y holds.
  abbrev pub Fits : List (Slot c) → ℕ → Slot c → Type 0
  Fits xs i y =
      (j drive lba : ℕ)
      → i ≢ j
      → j < length xs
      → holds c drive lba y ≡ true
      → holds c drive lba (get_or xs j (empty_slot c)) ≡ false

  module _ (xs : List (Slot c)) (i : ℕ) (y : Slot c) (u : IsUnique xs) (l : i < length xs) where
    Both-ne :
        (drive lba j : ℕ)
        → i ≢ j
        → j < length xs
        → Fits xs i y
        → holds c drive lba (get_or (set xs i y) i (empty_slot c)) ≡ true
        → holds c drive lba (get_or (set xs i y) j (empty_slot c)) ≡ false
    Both-ne drive lba j ne lj fits h =
        rw (get_or-set_ne xs i j y (empty_slot c) ne)
          (fits j drive lba ne lj (rw (← get_or-set_self xs i y (empty_slot c) l) h))

    moved :
        (drive lba : ℕ) {a : ℕ}
        → i ≡ a
        → holds c drive lba (get_or (set xs i y) a (empty_slot c)) ≡ true
        → holds c drive lba (get_or (set xs i y) i (empty_slot c)) ≡ true
    moved drive lba p =
        subst (λ (n : ℕ). holds c drive lba (get_or (set xs i y) n (empty_slot c)) ≡ true) (sym p)

    pub set-IsUnique : Fits xs i y → IsUnique (set xs i y)
    set-IsUnique fits a b drive lba la lb ha hb =
        let la' : a < length xs = omega (arith, la, length-set xs i y) in
        let lb' : b < length xs = omega (arith, lb, length-set xs i y) in
        elim (ℕ_discrete i a) [
          | yes p ↦ elim (ℕ_discrete i b) [
            | yes q ↦ sym p ∙ q
            | no q ↦ absurd (cc (hb, Both-ne drive lba b q lb' fits (moved drive lba p ha)))
          ]
          | no p ↦ elim (ℕ_discrete i b) [
            | yes q ↦ absurd (cc (ha, Both-ne drive lba a p la' fits (moved drive lba q hb)))
            | no q ↦
                u a b drive lba la' lb' (rw (← get_or-set_ne xs i a y (empty_slot c) p) ha)
                  (rw (← get_or-set_ne xs i b y (empty_slot c) q) hb)
          ]
        ]

    -- Where neither y nor any other slot holds the sector.
    cached-set-none :
        (drive lba : ℕ)
        → holds c drive lba y ≡ false
        → ((j : ℕ) → i ≢ j → j < length xs → holds c drive lba (get_or xs j (empty_slot c)) ≡ false)
        → cached (set xs i y) drive lba ≡ none
    cached-set-none drive lba e others = cached-absent (set xs i y) drive lba (λ j lj.
        elim (ℕ_discrete i j) [
          | yes p ↦
              subst (λ (n : ℕ). holds c drive lba (get_or (set xs i y) n (empty_slot c)) ≡ false) p
                (rw (get_or-set_self xs i y (empty_slot c) l) e)
          | no p ↦
              rw (get_or-set_ne xs i j y (empty_slot c) p)
                (others j p (omega (arith, lj, length-set xs i y)))
        ])

    -- Where another slot holds it.
    cached-set_other :
        (drive lba j : ℕ)
        → IsUnique (set xs i y)
        → i ≢ j
        → j < length xs
        → holds c drive lba (get_or xs j (empty_slot c)) ≡ true
        → cached (set xs i y) drive lba ≡ cached xs drive lba
    cached-set_other drive lba j u' p lj h =
        let same = get_or-set_ne xs i j y (empty_slot c) p in
        cached-at (set xs i y) j drive lba u' (omega (arith, lj, length-set xs i y)) (rw same h)
        ∙ ap (λ (x : Slot c). some x.bytes) same
        ∙ sym (cached-at xs j drive lba u lj h)

    -- Slot i, which held x, now holds y: what is cached for a sector afterwards.
    pub cached-set :
        (drive lba : ℕ)
        → Fits xs i y
        → cached (set xs i y) drive lba ≡ (
            if holds c drive lba y
            then some y.bytes
            else if holds c drive lba (get_or xs i (empty_slot c))
            then none
            else cached xs drive lba)
    cached-set drive lba fits =
        let u' = set-IsUnique fits in
        let l' : i < length (set xs i y) = omega (arith, l, length-set xs i y) in
        let here = get_or-set_self xs i y (empty_slot c) l in
        elim (Bool-cases (holds c drive lba y)) [
          | inl e ↦ rw e (
              cached-at (set xs i y) i drive lba u' l' (rw here e)
              ∙ ap (λ (x : Slot c). some x.bytes) here)
          | inr e ↦ elim (Bool-cases (holds c drive lba (get_or xs i (empty_slot c)))) [
            | inl f ↦
                rw (e, f)
                  (cached-set-none drive lba e (λ j p lj.
                    elim (Bool-cases (holds c drive lba (get_or xs j (empty_slot c)))) [
                      | inl h ↦ absurd (p (u i j drive lba l lj f h))
                      | inr h ↦ h
                    ]))
            | inr f ↦
                rw (e, f)
                  (elim (Option-cases (find_index (holds c drive lba) xs)) [
                    | inl n ↦
                        cached-set-none drive lba e
                          (λ j p. find_index-none_at (holds c drive lba) xs (empty_slot c) j n)
                        ∙ sym (ap (bytes_at xs) n)
                    | inr (j, n) ↦
                        let g = find_index-Found (holds c drive lba) xs (empty_slot c) j n in
                        cached-set_other drive lba j u'
                          (λ p. differ f (
                            subst (λ (n : ℕ). holds c drive lba (get_or xs n (empty_slot c)) ≡ true)
                              (sym p) g.passes))
                          g.in_range g.passes
                  ])
          ]
        ]

  -- At boot no slot is valid.
  pub boot-IsValid : (k : Disk) → IsValid (boot c k)
  unfolding boot
  boot-IsValid k = record {
    unique = λ i j drive lba li lj hi hj.
        absurd (differ (rw (get_or-replicate 128 i (empty_slot c)) refl) hi);
    clean = λ i l v. absurd (differ (rw (get_or-replicate 128 i (empty_slot c)) refl) v);
  }
