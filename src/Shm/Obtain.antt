-- ===== src/Shm/Obtain.antt =====
-- kernel/shm.c: the loop of shm_create that takes frames from the allocator.
use new_os.Base.{
  ℕ, zero, suc, ◌+◌, ◌*◌, ◌%◌, ◌≤◌, ◌<◌, ◌≡◌, ◌≢◌, ◌∙◌, refl, sym, ap, subst, List, [], ◌∷◌, Bool,
  true, false, ◌==◌, differ, length, set, get_or, length-set, get_or-set_self, get_or-set_ne, inl,
  inr, arith, dec_lt,
}
use new_os.Pmm.{Pmm, test_bit, refcount, pmm_frame_size, frame_down, pmm_alloc_frame}
use new_os.Pmm.Alloc.{Handed, pmm_alloc_frame_lem}
use new_os.Shm.{alloc_pages}
use new_os.Shm.Frames.{Taken, SameFrames, Taken-SameFrames, frame_of}

-- One page more.
alloc_page-Taken :
    (pages : List ℕ) (n f : ℕ) (s t u : Pmm)
    → n < length pages
    → Taken pages 0 n s t
    → f < length t.bitmap
    → Handed 1 f t u
    → Taken (set pages n (f * pmm_frame_size)) 0 (n + 1) s u
alloc_page-Taken pages n f s t u l k inside h =
    let pages' = set pages n (f * pmm_frame_size) in
    let free : test_bit f t ≡ false = h.were_free f (omega arith) (omega arith) in
    let now : test_bit f u ≡ true = h.now_used f (omega arith) (omega arith) in
    let last : frame_of pages' n ≡ f =
      ap frame_down (get_or-set_self pages n (f * pmm_frame_size) 0 l) ∙ omega arith in
    let before : ((i : ℕ) → i < n → frame_of pages' i ≡ frame_of pages i) = λ i m.
      ap frame_down (get_or-set_ne pages n i (f * pmm_frame_size) 0 (λ e. omega (arith, e, m))) in
    let ne : ((i : ℕ) → i < n → frame_of pages i ≢ f) =
      λ i m e. differ free (sym (ap (λ (g : ℕ). test_bit g t) e) ∙ k.used i (omega arith) m) in
    let fresh : test_bit f s ≡ false = sym (k.others f (λ i low m. ne i m)) ∙ free in
    let apart : ((g : ℕ) → g ≢ f → (test_bit g u ≡ test_bit g t) × (refcount g u ≡ refcount g t)) =
      λ g q. h.others g (ground (arith, q)) in
    let split : ((P : ℕ → Type 0)
        → ((i : ℕ) → i < n → P (frame_of pages i))
        → P f
        → (i : ℕ) → i < n + 1
        → P (frame_of pages' i)) =
      λ P old new i high. elim (dec_lt i n) [
        | yes m ↦ subst P (sym (before i m)) (old i m)
        | no m ↦ subst P (sym (ap (frame_of pages') (omega (arith, m, high)) ∙ last)) new
      ] in
    record {
      valid = h.valid;
      size = h.size ∙ k.size;
      inside = λ i low high.
          split (λ g. g < length s.bitmap) (λ i m. k.inside i (omega arith) m)
            (omega (arith, inside, k.size)) i high;
      were_free = λ i low high.
          split (λ g. test_bit g s ≡ false) (λ i m. k.were_free i (omega arith) m) fresh i high;
      used = λ i low high.
          split (λ g. test_bit g u ≡ true)
            (λ i m. (apart (frame_of pages i) (ne i m)).0 ∙ k.used i (omega arith) m) now i high;
      single = λ i low high.
          split (λ g. refcount g u ≡ 1)
            (λ i m. (apart (frame_of pages i) (ne i m)).1 ∙ k.single i (omega arith) m)
            (h.one_reference f (omega arith) (omega arith)) i high;
      distinct = λ i m low less high e.
          let i_less : i < n = omega (arith, less, high) in
          let back : frame_of pages i ≡ frame_of pages' m = sym (before i i_less) ∙ e in
          elim (dec_lt m n) [
            | yes below ↦ k.distinct i m (omega arith) less below (back ∙ before m below)
            | no top ↦ ne i i_less (back ∙ ap (frame_of pages') (omega (arith, top, high)) ∙ last)
          ];
      others = λ g away.
          (apart g (λ e. away n (omega arith) (omega arith) (last ∙ sym e))).0
          ∙ k.others g (λ i low m e. away i (omega arith) (omega (arith, m)) (before i m ∙ e));
    }

-- A free frame is in range.
free_in_range : (bits : List Bool) (f : ℕ) → get_or bits f true ≡ false → f < length bits
free_in_range [] f e = absurd (differ e refl)
free_in_range (b ∷ bits) zero e = omega arith
free_in_range (b ∷ bits) (suc f) e = omega (arith, free_in_range bits f e)

-- What an attempt at n more pages after i leaves.
pub record Allocated (n i : ℕ) (s : Pmm) (r : Bool × List ℕ × Pmm) : Type 0 where
  pub success : r.0 ≡ true → Taken r.1 0 (i + n) s r.2
  pub failure : r.0 ≡ false → SameFrames s r.2

pub alloc_pages-Allocated :
    (n i : ℕ) (pages : List ℕ) (s t : Pmm)
    → length s.bitmap % 8 ≡ 0
    → test_bit 0 t ≡ true
    → i + n ≤ length pages
    → Taken pages 0 i s t
    → Allocated n i s (alloc_pages n i pages t)
unfolding alloc_pages
alloc_pages-Allocated zero i pages s t whole low l k = record {
  success = λ e. subst (λ (m : ℕ). Taken pages 0 m s t) (omega arith) k;
  failure = λ e. absurd (differ e refl);
}
alloc_pages-Allocated (suc n) i pages s t whole low l k =
    elim (pmm_alloc_frame_lem t k.valid (omega (arith, whole, k.size))) [
      | inl (full, same) ↦ rw same (record {
        success = λ e. absurd (differ refl e);
        failure = λ e. Taken-SameFrames i pages s t k;
      })
      | inr (f, before, at, handed) ↦
          let u = (pmm_alloc_frame t).1 in
          let free : test_bit f t ≡ false = handed.were_free f (omega arith) (omega arith) in
          let not_null : f ≢ 0 = λ e. differ free (ap (λ (g : ℕ). test_bit g t) e ∙ low) in
          let found : (f * pmm_frame_size == 0) ≡ false = ground (arith, not_null) in
          let inside : f < length t.bitmap = free_in_range t.bitmap f free in
          let k' = alloc_page-Taken pages i f s t u (omega (arith, l)) k inside handed in
          let rest =
            alloc_pages-Allocated n (i + 1) (set pages i (f * pmm_frame_size)) s u whole
              ((handed.others 0 (inl (omega (arith, not_null)))).0 ∙ low)
              (omega (arith, l, length-set pages i (f * pmm_frame_size))) k' in
          let size : i + 1 + n ≡ i + suc n = omega arith in
          let r = alloc_pages n (i + 1) (set pages i (f * pmm_frame_size)) u in
          rw (at, found)
            (record {
              success = λ e. subst (λ (m : ℕ). Taken r.1 0 m s r.2) size (rest.success e);
              failure = rest.failure;
            })
    ]
