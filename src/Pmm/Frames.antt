-- ===== src/Pmm/Frames.antt =====
-- memory/pmm.c: the invariant of the bitmap and its counter, and what releasing, sharing and marking
-- frames do.
use new_os.Base.{
  ℕ, zero, suc, ◌+◌, ◌-◌, ◌^◌, ◌<◌, ◌≤◌, ◌≡◌, ◌≢◌, refl, ap, List, [], ◌∷◌, Bool, true, false, ltb,
  leb, length, set, get_or, length-set, get_or-set_self, get_or-set_ne, Bool-cases, inl, inr, arith,
}
use new_os.Base.Find.{count, count-set, count-le-length, count_pos}
use new_os.Pmm.{
  Pmm, test_bit, refcount, use_frame, drop_frame, set_refcount, frame_down, pmm_free_frame,
  pmm_ref_frame, pmm_unref_frame,
}

abbrev pub is_used : Bool → Bool
is_used b = b

-- The counter of used frames is the number of set bits.
pub record IsValid (s : Pmm) : Type 0 where
  pub same_size : length s.refcounts ≡ length s.bitmap
  pub small : length s.bitmap < 2 ^ 64
  pub counted : s.used_frame_count ≡ count is_used s.bitmap

pub use_frame-IsValid :
    (f : ℕ) (s : Pmm)
    → IsValid s
    → f < length s.bitmap
    → test_bit f s ≡ false
    → IsValid (use_frame f s)
use_frame-IsValid f s v h e =
    let c = count-set is_used s.bitmap f true true h in
    let c' = rw e at c in
    let le = count-le-length is_used (set s.bitmap f true) in
    let l = length-set s.bitmap f true in
    record {
      same_size = omega (arith, v.same_size, l);
      small = omega (arith, v.small, l);
      counted = omega (arith, v.counted, c', le, l, v.small);
    }

pub drop_frame-IsValid :
    (f : ℕ) (s : Pmm)
    → IsValid s
    → f < length s.bitmap
    → test_bit f s ≡ true
    → IsValid (drop_frame f s)
drop_frame-IsValid f s v h e =
    let c = count-set is_used s.bitmap f false true h in
    let c' = rw e at c in
    let le = count-le-length is_used s.bitmap in
    let l = length-set s.bitmap f false in
    record {
      same_size = omega (arith, v.same_size, l);
      small = omega (arith, v.small, l);
      counted = omega (arith, v.counted, c', le, l, v.small);
    }

pub refcounts-IsValid : (f n : ℕ) (s : Pmm) → IsValid s → IsValid (set_refcount f n s)
refcounts-IsValid f n s v = record {
  same_size = omega (arith, v.same_size, length-set s.refcounts f n);
  small = v.small;
  counted = v.counted;
}

-- What releasing a reference to frame `f` does.
pub record Released (f : ℕ) (s t : Pmm) : Type 0 where
  pub valid : IsValid t
  pub shared :
      test_bit f s ≡ true
      → 1 < refcount f s
      → (test_bit f t ≡ true) × (refcount f t + 1 ≡ refcount f s)
  pub last :
      test_bit f s ≡ true
      → refcount f s ≤ 1
      → (test_bit f t ≡ false) × (refcount f t ≡ 0) × (t.used_frame_count + 1 ≡ s.used_frame_count)
  pub free_already : test_bit f s ≡ false → t ≡ s
  pub others : (g : ℕ) → f ≢ g → (test_bit g t ≡ test_bit g s) × (refcount g t ≡ refcount g s)

module _ (f : ℕ) (s : Pmm) (v : IsValid s) (h : f < length s.bitmap) where
  free_stays : test_bit f s ≡ false → Released f s s
  free_stays e = record {
    valid = v;
    shared = λ u. absurd (cc (e, u));
    last = λ u. absurd (cc (e, u));
    free_already = λ u. refl;
    others = λ g ne. (refl, refl);
  }

  shared_stays :
      test_bit f s ≡ true → 1 < refcount f s → Released f s (set_refcount f (refcount f s - 1) s)
  shared_stays e many =
      let n = refcount f s - 1 in
      record {
        valid = refcounts-IsValid f n s v;
        shared = λ u m. (
          u,
          omega (arith, get_or-set_self s.refcounts f n 0 (omega (arith, v.same_size, h)), many),
        );
        last = λ u few. absurd (omega (arith, many, few));
        free_already = λ u. absurd (cc (e, u));
        others = λ g ne. (refl, get_or-set_ne s.refcounts f g n 0 ne);
      }

  last_goes :
      test_bit f s ≡ true → refcount f s ≤ 1 → Released f s (drop_frame f (set_refcount f 0 s))
  last_goes e few =
      let pos = count_pos is_used s.bitmap f true h e in
      let le = count-le-length is_used s.bitmap in
      record {
        valid = drop_frame-IsValid f (set_refcount f 0 s) (refcounts-IsValid f 0 s v) h e;
        shared = λ u m. absurd (omega (arith, few, m));
        last = λ u l. (
          get_or-set_self s.bitmap f false true h,
          get_or-set_self s.refcounts f 0 0 (omega (arith, v.same_size, h)),
          omega (arith, v.counted, pos, le, v.small),
        );
        free_already = λ u. absurd (cc (e, u));
        others = λ g ne.
            (get_or-set_ne s.bitmap f g false true ne, get_or-set_ne s.refcounts f g 0 0 ne);
      }

-- In a valid state, releasing a frame in range keeps the invariant and gives up one reference of a
-- used frame with several; with one reference, or none, a used frame becomes free with none; a
-- frame that is free already stays so. No other frame changes.
pub pmm_free_frame_lem :
    (addr : ℕ) (s : Pmm)
    → IsValid s
    → frame_down addr < length s.bitmap
    → Released (frame_down addr) s (pmm_free_frame addr s)
unfolding pmm_free_frame
pmm_free_frame_lem addr s v h =
    let f = frame_down addr in
    let inside : leb (length s.bitmap) f ≡ false = ground (arith, h) in
    rw inside (elim (Bool-cases (test_bit f s)) [
      | inr e ↦ rw e (free_stays f s v h e)
      | inl e ↦ elim (Bool-cases (ltb 1 (refcount f s))) [
        | inl many ↦ rw (e, many) (shared_stays f s v h e (ground arith))
        | inr few ↦ rw (e, few) (last_goes f s v h e (ground arith))
      ]
    ])

set_back : (xs : List ℕ) (i v : ℕ) → i < length xs → set (set xs i v) i (get_or xs i 0) ≡ xs
set_back [] i v h = absurd (omega arith)
set_back (x ∷ xs) zero v h = refl
set_back (x ∷ xs) (suc i) v h = ap (λ (l : List ℕ). x ∷ l) (set_back xs i v (omega arith))

-- In a valid state, a reference taken on a used frame in range with at least one and fewer than
-- 255 references is given back by pmm_unref_frame with no trace.
pub pmm_unref_frame-pmm_ref_frame :
    (addr : ℕ) (s : Pmm)
    → IsValid s
    → frame_down addr < length s.bitmap
    → test_bit (frame_down addr) s ≡ true
    → 0 < refcount (frame_down addr) s
    → refcount (frame_down addr) s < 255
    → pmm_unref_frame addr (pmm_ref_frame addr s) ≡ s
unfolding pmm_unref_frame pmm_free_frame pmm_ref_frame
pmm_unref_frame-pmm_ref_frame addr s v h used pos few =
    let f = frame_down addr in
    let n = refcount f s in
    let inside : leb (length s.bitmap) f ≡ false = ground (arith, h) in
    let more : ltb n 255 ≡ true = ground (arith, few) in
    let now = get_or-set_self s.refcounts f (n + 1) 0 (omega (arith, v.same_size, h)) in
    let shared : ltb 1 (n + 1) ≡ true = ground (arith, pos) in
    let back : n + 1 - 1 ≡ n = omega arith in
    rw (inside, more)
      (rw (inside, used, now, shared, back)
        (ap (λ (r : List ℕ). record s { refcounts = r })
          (set_back s.refcounts f (n + 1) (omega (arith, v.same_size, h)))))

-- In a valid state, a used frame in range with 255 references has 254 after pmm_ref_frame and
-- pmm_unref_frame.
pub pmm_unref_frame_saturated :
    (addr : ℕ) (s : Pmm)
    → IsValid s
    → frame_down addr < length s.bitmap
    → test_bit (frame_down addr) s ≡ true
    → refcount (frame_down addr) s ≡ 255
    → refcount (frame_down addr) (pmm_unref_frame addr (pmm_ref_frame addr s)) ≡ 254
unfolding pmm_unref_frame pmm_free_frame pmm_ref_frame
pmm_unref_frame_saturated addr s v h used full =
    let f = frame_down addr in
    let inside : leb (length s.bitmap) f ≡ false = ground (arith, h) in
    rw (inside, full, inside, used, full)
      (get_or-set_self s.refcounts f 254 0 (omega (arith, v.same_size, h)))
