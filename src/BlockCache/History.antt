-- ===== src/BlockCache/History.antt =====
-- fs/blockcache.c: the cache under any sequence of its clients' calls, against a table of sectors
-- with nothing in front of it.
use new_os.Base.{
  ℕ, ◌≡◌, ◌⊎◌, inl, inr, refl, ap, subst, ◌∙◌, if◌then◌else◌, List, [], ◌∷◌, Option, none, some,
  Bool-cases, arith,
}
use new_os.BlockCache.{Drives, Cache, slot_at, store, bcache_get, bcache_dirty, bcache_flush}
use new_os.BlockCache.View.{view, IsValid}
use new_os.BlockCache.Quiet.{Reliable}
use new_os.BlockCache.Room.{same_sector}
use new_os.BlockCache.Get.{Fetched, bcache_get-Fetched}
use new_os.BlockCache.Write.{bcache_dirty-store}
use new_os.BlockCache.Flush.{bcache_flush-Flushed}

module _ (c : Drives) where
  open c use {Sector}

  -- What a client does: read a sector; read it and write over it; flush a drive.
  pub data Call : Type 0 where
    read : ℕ → ℕ → Call
    modify : ℕ → ℕ → Sector → Call
    flush : ℕ → Call

  -- The data that bcache_get gave, if it gave a slot, and the cache afterwards.
  abbrev pub got : Option ℕ × Cache c → Option Sector
  got (none, s) = none
  got (some i, s) = some (slot_at c s i).bytes

  abbrev pub overwrite : ℕ → ℕ → Sector → Option ℕ × Cache c → Cache c
  overwrite drive lba bytes (none, s) = s
  overwrite drive lba bytes (some i, s) = bcache_dirty c drive lba (store c i bytes s)

  abbrev pub answer : Call → Cache c → Option Sector × Cache c
  answer (read drive lba) s = (got (bcache_get c drive lba s), (bcache_get c drive lba s).1)
  answer (modify drive lba bytes) s =
      (got (bcache_get c drive lba s), overwrite drive lba bytes (bcache_get c drive lba s))
  answer (flush drive) s = (none, (bcache_flush c drive s).1)

  -- The table after a call, by whether the call was given a slot.
  abbrev pub table_after : Call → Option Sector → (ℕ → ℕ → Sector) → ℕ → ℕ → Sector
  table_after (modify drive lba bytes) (some old) m d a =
      if same_sector c drive lba d a then bytes else m d a
  table_after _ _ m d a = m d a

  -- What a call may answer: nothing, or what the table has.
  abbrev pub Answers : (ℕ → ℕ → Sector) → Call → Option Sector → Type 0
  Answers m (read drive lba) o = (o ≡ none) ⊎ (o ≡ some (m drive lba))
  Answers m (modify drive lba bytes) o = (o ≡ none) ⊎ (o ≡ some (m drive lba))
  Answers m (flush drive) o = o ≡ none

  -- Every answer of the run is the table's.
  abbrev pub Agrees : List Call → Cache c → (ℕ → ℕ → Sector) → Type 0
  Agrees [] s m = (d a : ℕ) → view c s d a ≡ m d a
  Agrees (k ∷ ks) s m =
      Answers m k (answer k s).0 × Agrees ks (answer k s).1 (table_after k (answer k s).0 m)

  -- The cache shows the table.
  pub record Shows (s : Cache c) (m : ℕ → ℕ → Sector) : Type 0 where
    pub valid : IsValid c s
    pub agrees : (d a : ℕ) → view c s d a ≡ m d a

  Good : (ℕ → ℕ → Sector) → Call → Option Sector × Cache c → Type 0
  Good m k r = Answers m k r.0 × Shows r.1 (table_after k r.0 m)

  read-Good :
      (s : Cache c) (m : ℕ → ℕ → Sector) (drive lba : ℕ) (r : Option ℕ × Cache c)
      → Shows s m
      → Fetched c s drive lba r
      → Good m (read drive lba) (got r, r.1)
  unfolding Good
  read-Good s m drive lba (none, t) h f =
      (inl refl, record { valid = f.valid; agrees = λ d a. f.same d a ∙ h.agrees d a })
  read-Good s m drive lba (some i, t) h f =
      let (l, holds, here) = f.found i refl in
      (
        inr (ap some (here ∙ h.agrees drive lba)),
        record { valid = f.valid; agrees = λ d a. f.same d a ∙ h.agrees d a },
      )

  modify-Good :
      (s : Cache c) (m : ℕ → ℕ → Sector) (drive lba : ℕ) (bytes : Sector) (r : Option ℕ × Cache c)
      → Shows s m
      → Fetched c s drive lba r
      → Good m (modify drive lba bytes) (got r, overwrite drive lba bytes r)
  unfolding Good
  modify-Good s m drive lba bytes (none, t) h f =
      (inl refl, record { valid = f.valid; agrees = λ d a. f.same d a ∙ h.agrees d a })
  modify-Good s m drive lba bytes (some i, t) h f =
      let u = bcache_dirty c drive lba (store c i bytes t) in
      let (l, holds, here) = f.found i refl in
      let k = bcache_dirty-store c t drive lba i bytes f.valid l holds in
      (
        inr (ap some (here ∙ h.agrees drive lba)),
        record {
          valid = k.valid;
          agrees = λ d a. elim (Bool-cases (same_sector c drive lba d a)) [
            | inr e ↦ rw e (k.others d a e ∙ f.same d a ∙ h.agrees d a)
            | inl e ↦
                let p : drive ≡ d = ground arith in
                let q : lba ≡ a = ground arith in
                rw e (
                  subst (λ (n : ℕ). view c u n a ≡ bytes) p
                    (subst (λ (n : ℕ). view c u drive n ≡ bytes) q k.here))
          ];
        },
      )

  answer-Good :
      (s : Cache c) (m : ℕ → ℕ → Sector) (k : Call) → Reliable c → Shows s m → Good m k (answer k s)
  unfolding Good
  answer-Good s m (read drive lba) r h =
      read-Good s m drive lba _ h (bcache_get-Fetched c s drive lba r h.valid)
  answer-Good s m (modify drive lba bytes) r h =
      modify-Good s m drive lba bytes _ h (bcache_get-Fetched c s drive lba r h.valid)
  answer-Good s m (flush drive) r h =
      let q = (bcache_flush-Flushed c drive s h.valid).0 in
      (refl, record { valid = q.valid; agrees = λ d a. q.same d a ∙ h.agrees d a })

  -- Over drives whose writes succeed, from a valid cache in which a client reads what a table has,
  -- any sequence of reads, of writes through the pointer and of flushes behaves as the table would
  -- without a cache: each call that is given a slot is given what the table has at that point, and
  -- at the end a client reads what the table has.
  pub answer-Agrees :
      (ks : List Call) (s : Cache c) (m : ℕ → ℕ → Sector) → Reliable c → Shows s m → Agrees ks s m
  unfolding Good
  answer-Agrees [] s m r h = h.agrees
  answer-Agrees (k ∷ ks) s m r h =
      let (now, later) = answer-Good s m k r h in
      (now, answer-Agrees ks (answer k s).1 (table_after k (answer k s).0 m) r later)
