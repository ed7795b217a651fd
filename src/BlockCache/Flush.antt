-- ===== src/BlockCache/Flush.antt =====
-- fs/blockcache.c: bcache_flush and bcache_flush_all.
use new_os.Base.{
  ℕ, zero, suc, ◌+◌, ◌<◌, ◌≤◌, ◌≡◌, ◌≢◌, inl, inr, refl, ap₂, sym, subst, ◌∙◌, Bool, true, false,
  not, ◌||◌, ◌==◌, if◌then◌else◌, if-elim, length, set-get_or, get_or-set_ne, Bool-cases,
  Option-cases, ℕ_discrete, zero_add, differ, arith,
}
use new_os.Base.Find.{find_index, find_index-Found, find_index-none_at}
use new_os.BlockCache.{
  Drives, Slot, Cache, empty_slot, slot_at, holds, bad_drive, mark_clean, flush_slot, flush_from,
  bcache_flush, bcache_flush_all,
}
use new_os.BlockCache.View.{view, IsValid, holds-key}
use new_os.BlockCache.Replace.{seen-at}
use new_os.BlockCache.Quiet.{
  Quiet, Quiet-refl, Quiet-trans, set-Quiet, mark_clean-Quiet, ata_write-Agree,
}
use new_os.BlockCache.Room.{view-absent}

module _ (c : Drives) (drive : ℕ) where
  open c use {Sector, Disk, present, contents, ata_write, write_ok, write_others}

  -- The slot has nothing left to write to the drive.
  abbrev pub Settled : Slot c → Type 0
  Settled x = x.valid ≡ true → x.drive ≡ drive → x.dirty ≡ false

  -- What the loop's body does to slot i.
  record Step (s : Cache c) (i : ℕ) (r : Bool × Cache c) : Type 0 where
    quiet : Quiet c s r.1
    kept : (j : ℕ) → i ≢ j → slot_at c r.1 j ≡ slot_at c s j
    settled : r.0 ≡ true → Settled (slot_at c r.1 i)

  Step-skip : (s : Cache c) (i : ℕ) → IsValid c s → Settled (slot_at c s i) → Step s i (true, s)
  Step-skip s i v e = record { quiet = Quiet-refl c s v; kept = λ j ne. refl; settled = λ f. e }

  -- A write that fails leaves the slot dirty.
  Step-failed :
      (s : Cache c) (i : ℕ)
      → IsValid c s
      → i < length s.slots
      → (slot_at c s i).valid ≡ true
      → (slot_at c s i).dirty ≡ true
      → (let x = slot_at c s i in
          Step s i (false, record s { disk = (ata_write s.disk x.drive x.lba x.bytes).1 }))
  Step-failed s i v l now d =
      let x = slot_at c s i in
      let (small, there, same) = v.clean i l now in
      let t = record s { disk = (ata_write s.disk x.drive x.lba x.bytes).1 } in
      record {
        quiet =
            set-Quiet c s t i x v l (λ d a. refl) refl
              (λ e. (small, there, λ f. absurd (differ f d)))
              (ata_write-Agree c s.slots i s.disk x x.drive x.lba x.bytes now refl refl)
              (sym (set-get_or s.slots i (empty_slot c)));
        kept = λ j ne. refl;
        settled = λ f. absurd (differ refl f);
      }

  Step-done :
      (s : Cache c) (i : ℕ)
      → IsValid c s
      → i < length s.slots
      → (slot_at c s i).valid ≡ true
      → (let x = slot_at c s i in
          let (ok, k) = ata_write s.disk x.drive x.lba x.bytes in
          ok ≡ true → Step s i (true, mark_clean c i k s))
  unfolding mark_clean
  Step-done s i v l now ok =
      let (q, done) = mark_clean-Quiet c s i v l now ok in
      record {
        quiet = q;
        kept = λ j ne. get_or-set_ne s.slots i j _ (empty_slot c) ne;
        settled = λ f e p. done;
      }

  flush_slot-Step :
      (s : Cache c) (i : ℕ) → IsValid c s → i < length s.slots → Step s i (flush_slot c drive i s)
  unfolding flush_slot
  flush_slot-Step s i v l =
      let x = slot_at c s i in
      let skip = not x.valid || not x.dirty || not (x.drive == drive) in
      let written = λ (d : ℕ). ata_write s.disk d x.lba x.bytes in
      let P = λ (b b' : Bool) (d : ℕ). Step s i (
        if b
        then (true, s)
        else if not b'
        then (false, record s { disk = (written d).1 })
        else (true, mark_clean c i (written d).1 s)) in
      let Q = λ (b : Bool) (d : ℕ). P b (written d).0 d in
      elim (Bool-cases skip) [
        | inl e ↦ subst (λ b. Q b drive) (sym e) (Step-skip s i v (λ now p. ground (arith, e)))
        | inr e ↦
            let now : x.valid ≡ true = ground arith in
            let d : x.dirty ≡ true = ground arith in
            let p : x.drive ≡ drive = ground arith in
            subst (λ b. Q b drive) (sym e)
              (subst (Q false) p (elim (Bool-cases (written x.drive).0) [
                | inl f ↦ subst (λ b. P false b x.drive) (sym f) (Step-done s i v l now f)
                | inr f ↦ subst (λ b. P false b x.drive) (sym f) (Step-failed s i v l now d)
              ]))
      ]

  -- What the loop does from slot i on.
  record Loop (s : Cache c) (i : ℕ) (r : ℕ × Cache c) : Type 0 where
    quiet : Quiet c s r.1
    before : (j : ℕ) → j < i → slot_at c r.1 j ≡ slot_at c s j
    after : r.0 ≡ 0 → (j : ℕ) → i ≤ j → j < length s.slots → Settled (slot_at c r.1 j)

  Loop-step :
      (s : Cache c) (i : ℕ) (r : Bool × Cache c) (rest : ℕ × Cache c)
      → Step s i r
      → Loop r.1 (suc i) rest
      → Loop s i (if r.0 then rest.0 else suc rest.0, rest.1)
  Loop-step s i (ok, t) (errors, u) st lp = record {
    quiet = Quiet-trans c st.quiet lp.quiet;
    before = λ j l. lp.before j (omega arith) ∙ st.kept j (λ e. omega arith);
    after = λ e j le l.
        let good : ok ≡ true = ground arith in
        let zero_errors : errors ≡ 0 = ground arith in
        elim (ℕ_discrete i j) [
          | yes p ↦
              subst (λ (n : ℕ). Settled (slot_at c u n)) p
                (subst Settled (sym (lp.before i (omega arith))) (st.settled good))
          | no ne ↦ lp.after zero_errors j (omega (arith, ne)) (omega (arith, l, st.quiet.size))
        ];
  }

  flush_from-Loop :
      (n i : ℕ) (s : Cache c)
      → IsValid c s
      → i + n ≡ length s.slots
      → Loop s i (flush_from c drive i n s)
  unfolding flush_from
  flush_from-Loop zero i s v e = record {
    quiet = Quiet-refl c s v;
    before = λ j l. refl;
    after = λ f j le l. absurd (omega arith);
  }
  flush_from-Loop (suc n) i s v e =
      let r = flush_slot c drive i s in
      let st = flush_slot-Step s i v (omega arith) in
      Loop-step s i r (flush_from c drive (suc i) n r.1) st
        (flush_from-Loop n (suc i) r.1 st.quiet.valid (omega (arith, st.quiet.size)))

  -- When every slot is settled, the drive has what a client reads.
  settled-contents :
      (t : Cache c) (lba : ℕ)
      → IsValid c t
      → ((j : ℕ) → j < length t.slots → Settled (slot_at c t j))
      → contents t.disk drive lba ≡ view c t drive lba
  settled-contents t lba v all = elim (Option-cases (find_index (holds c drive lba) t.slots)) [
    | inl e ↦ sym (
        view-absent c t drive lba
          (λ j. find_index-none_at (holds c drive lba) t.slots (empty_slot c) j e))
    | inr (j, e) ↦
        let f = find_index-Found (holds c drive lba) t.slots (empty_slot c) j e in
        let (now, p, q) = holds-key c drive lba (slot_at c t j) f.passes in
        let (small, there, same) = v.clean j f.in_range now in
        sym (
          seen-at c t.slots j t.disk v f.in_range drive lba f.passes
          ∙ same (all j f.in_range now p)
          ∙ ap₂ (contents t.disk) p q)
  ]

  abbrev pub Flushed : Cache c → Bool × Cache c → Type 0
  Flushed s r =
      Quiet c s r.1 × (r.0 ≡ true → (lba : ℕ) → contents r.1.disk drive lba ≡ view c s drive lba)

  -- In a valid cache, bcache_flush, whether or not its writes succeed, leaves a valid cache in which
  -- a client reads what it would have read before at every sector; and if it returns success, each
  -- sector of the drive has on the disk itself what a client read there before.
  pub bcache_flush-Flushed : (s : Cache c) → IsValid c s → Flushed s (bcache_flush c drive s)
  unfolding bcache_flush
  bcache_flush-Flushed s v =
      let r = flush_from c drive 0 (length s.slots) s in
      let lp = flush_from-Loop (length s.slots) 0 s v (zero_add (length s.slots)) in
      let q = lp.quiet in
      let kept : Flushed s (false, s) = (Quiet-refl c s v, λ e. absurd (differ refl e)) in
      if-elim (Flushed s) (bad_drive c drive) kept (
        if-elim (Flushed s) (not (present drive)) kept (
          q,
          λ e lba.
              settled-contents r.1 lba q.valid
                (λ j l. lp.after (ground (arith, e)) j (omega arith) (omega (arith, l, q.size)))
              ∙ q.same drive lba,
        ))

module _ (c : Drives) where
  open c use {contents}

  -- In a valid cache, bcache_flush_all leaves a valid cache in which a client reads what it would
  -- have read before at every sector.
  pub bcache_flush_all-Quiet : (s : Cache c) → IsValid c s → Quiet c s (bcache_flush_all c s).1
  unfolding bcache_flush_all
  bcache_flush_all-Quiet s v =
      let q0 = (bcache_flush-Flushed c 0 s v).0 in
      let q1 = (bcache_flush-Flushed c 1 _ q0.valid).0 in
      let q2 = (bcache_flush-Flushed c 2 _ q1.valid).0 in
      let q3 = (bcache_flush-Flushed c 3 _ q2.valid).0 in
      Quiet-trans c q0 (Quiet-trans c q1 (Quiet-trans c q2 q3))
