-- ===== src/Shm/Frames.antt =====
-- kernel/shm.c: the frames that a region takes from the allocator and gives back.
use new_os.Base.{
  ℕ, zero, suc, ◌+◌, ◌≤◌, ◌<◌, ◌≡◌, ◌≢◌, ◌∙◌, refl, sym, ap, List, true, false, not, if-elim, ltb,
  leb, length, get_or, length-set, arith, ℕ_discrete,
}
use new_os.Pmm.{Pmm, test_bit, refcount, frame_down, pmm_free_frame}
use new_os.Pmm.Frames.{IsValid, pmm_free_frame_lem}
use new_os.Shm.{free_pages}

-- The frame of the i-th page.
abbrev pub frame_of : List ℕ → ℕ → ℕ
frame_of pages i = frame_down (get_or pages i 0)

-- The allocator `t` is `s` but for the frames of the pages from j to n: these were free, are different
-- and have one reference each.
pub record Taken (pages : List ℕ) (j n : ℕ) (s t : Pmm) : Type 0 where
  pub valid : IsValid t
  pub size : length t.bitmap ≡ length s.bitmap
  pub inside : (i : ℕ) → j ≤ i → i < n → frame_of pages i < length s.bitmap
  pub were_free : (i : ℕ) → j ≤ i → i < n → test_bit (frame_of pages i) s ≡ false
  pub used : (i : ℕ) → j ≤ i → i < n → test_bit (frame_of pages i) t ≡ true
  pub single : (i : ℕ) → j ≤ i → i < n → refcount (frame_of pages i) t ≡ 1
  pub distinct : (i k : ℕ) → j ≤ i → i < k → k < n → frame_of pages i ≢ frame_of pages k
  pub others :
      (g : ℕ) → ((i : ℕ) → j ≤ i → i < n → frame_of pages i ≢ g) → test_bit g t ≡ test_bit g s

-- The frames in use are the same.
pub record SameFrames (s t : Pmm) : Type 0 where
  pub valid : IsValid t
  pub size : length t.bitmap ≡ length s.bitmap
  pub bits : (g : ℕ) → test_bit g t ≡ test_bit g s

pub none-Taken : (pages : List ℕ) (s : Pmm) → IsValid s → Taken pages 0 0 s s
none-Taken pages s v = record {
  valid = v;
  size = refl;
  inside = λ i l h. absurd (omega (arith, h));
  were_free = λ i l h. absurd (omega (arith, h));
  used = λ i l h. absurd (omega (arith, h));
  single = λ i l h. absurd (omega (arith, h));
  distinct = λ i k l h m. absurd (omega (arith, m));
  others = λ g o. refl;
}

length-pmm_free_frame :
    (addr : ℕ) (s : Pmm) → length (pmm_free_frame addr s).bitmap ≡ length s.bitmap
unfolding pmm_free_frame
length-pmm_free_frame addr s =
    let f = frame_down addr in
    let P = λ (t : Pmm). length t.bitmap ≡ length s.bitmap in
    if-elim P (leb (length s.bitmap) f) refl (
      if-elim P (not (test_bit f s)) refl
        (if-elim P (ltb 1 (refcount f s)) refl (length-set s.bitmap f false)))

-- One page less.
free_page-Taken :
    (pages : List ℕ) (j n : ℕ) (s t : Pmm)
    → j < n
    → Taken pages j n s t
    → Taken pages (j + 1) n s (pmm_free_frame (get_or pages j 0) t)
free_page-Taken pages j n s t l k =
    let here = k.inside j (omega arith) l in
    let r = pmm_free_frame_lem (get_or pages j 0) t k.valid (omega (arith, here, k.size)) in
    let (gone, nothing, counted) =
      r.last (k.used j (omega arith) l) (omega (arith, k.single j (omega arith) l)) in
    let u = pmm_free_frame (get_or pages j 0) t in
    let ne : ((i : ℕ) → j + 1 ≤ i → i < n → frame_of pages j ≢ frame_of pages i) =
      λ i low high. k.distinct j i (omega arith) (omega (arith, low)) high in
    record {
      valid = r.valid;
      size = length-pmm_free_frame (get_or pages j 0) t ∙ k.size;
      inside = λ i low high. k.inside i (omega (arith, low)) high;
      were_free = λ i low high. k.were_free i (omega (arith, low)) high;
      used = λ i low high.
          (r.others (frame_of pages i) (ne i low high)).0 ∙ k.used i (omega (arith, low)) high;
      single = λ i low high.
          (r.others (frame_of pages i) (ne i low high)).1 ∙ k.single i (omega (arith, low)) high;
      distinct = λ i m low less high. k.distinct i m (omega (arith, low)) less high;
      others = λ g away. elim (ℕ_discrete (frame_of pages j) g) [
        | yes same ↦
            ap (λ (f : ℕ). test_bit f u) (sym same)
            ∙ gone
            ∙ sym (k.were_free j (omega arith) l)
            ∙ ap (λ (f : ℕ). test_bit f s) same
        | no other ↦
            (r.others g other).0
            ∙ k.others g (λ i low high. elim (ℕ_discrete i j) [
              | yes e ↦ λ q. other (ap (frame_of pages) (sym e) ∙ q)
              | no ne' ↦ away i (omega (arith, low, ne')) high
            ])
      ];
    }

free_pages-SameFrames :
    (c j n : ℕ) (pages : List ℕ) (s t : Pmm)
    → j + c ≡ n
    → Taken pages j n s t
    → SameFrames s (free_pages c j pages t)
unfolding free_pages
free_pages-SameFrames zero j n pages s t e k = record {
  valid = k.valid;
  size = k.size;
  bits = λ g. k.others g (λ i low high. absurd (omega (arith, e, low, high)));
}
free_pages-SameFrames (suc c) j n pages s t e k =
    free_pages-SameFrames c (j + 1) n pages s (pmm_free_frame (get_or pages j 0) t)
      (omega (arith, e)) (free_page-Taken pages j n s t (omega (arith, e)) k)

-- Giving back all pages that were taken leaves the frames in use as they were.
pub Taken-SameFrames :
    (n : ℕ) (pages : List ℕ) (s t : Pmm)
    → Taken pages 0 n s t
    → SameFrames s (free_pages n 0 pages t)
Taken-SameFrames n pages s t k = free_pages-SameFrames n 0 n pages s t (omega arith) k
