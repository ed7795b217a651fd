-- ===== src/Pmm/Marking.antt =====
-- memory/pmm.c: marking ranges of frames used or free.
use new_os.Base.{
  ℕ, zero, suc, ◌+◌, ◌-◌, ◌/◌, ◌%◌, ◌^◌, ◌<◌, ◌≤◌, ◌≡◌, ◌≢◌, ◌∙◌, refl, sym, ap, Bool, true, false,
  ltb, length, length-set, get_or-set_self, get_or-set_ne, Bool-cases, inl, inr, ◌⊎◌, arith,
  ℕ_discrete,
}
use new_os.Pmm.{
  Pmm, test_bit, use_frame, drop_frame, mark_used_from, mark_free_from, pmm_mark_used,
  pmm_mark_free,
}
use new_os.Pmm.Frames.{IsValid, use_frame-IsValid, drop_frame-IsValid}

-- The frames from `f` on, `n` of them, have the bit `b` in `t`; the others and all reference counts
-- are as in `s`.
pub record Marked (b : Bool) (n f : ℕ) (s t : Pmm) : Type 0 where
  pub valid : IsValid t
  pub size : length t.bitmap ≡ length s.bitmap
  pub inside : (g : ℕ) → f ≤ g → g < f + n → g < length s.bitmap → test_bit g t ≡ b
  pub outside : (g : ℕ) → (g < f) ⊎ (f + n ≤ g) → test_bit g t ≡ test_bit g s
  pub counts : t.refcounts ≡ s.refcounts

-- Marking the first frame, then the rest.
Marked-step :
    (b : Bool) (n f : ℕ) (s t u : Pmm)
    → length t.bitmap ≡ length s.bitmap
    → test_bit f t ≡ b
    → ((g : ℕ) → f ≢ g → test_bit g t ≡ test_bit g s)
    → t.refcounts ≡ s.refcounts
    → Marked b n (f + 1) t u
    → Marked b (suc n) f s u
Marked-step b n f s t u l now same counts m = record {
  valid = m.valid;
  size = m.size ∙ l;
  inside = λ g above below h. elim (ℕ_discrete f g) [
    | yes e ↦ m.outside g (inl (omega arith)) ∙ ap (λ (k : ℕ). test_bit k t) (sym e) ∙ now
    | no ne ↦ m.inside g (omega arith) (omega arith) (omega (arith, h, l))
  ];
  outside = λ g o. m.outside g (ground (arith, o)) ∙ same g (λ e. ground (arith, o, e));
  counts = m.counts ∙ counts;
}

Marked-none : (b : Bool) (n f : ℕ) (s : Pmm) → IsValid s → length s.bitmap ≤ f → Marked b n f s s
Marked-none b n f s v h = record {
  valid = v;
  size = refl;
  inside = λ g above below i. absurd (omega arith);
  outside = λ g o. refl;
  counts = refl;
}

pub mark_used_from-Marked :
    (n f : ℕ) (s : Pmm) → IsValid s → Marked true n f s (mark_used_from n f s)
unfolding mark_used_from
mark_used_from-Marked zero f s v = record {
  valid = v;
  size = refl;
  inside = λ g above below i. absurd (omega arith);
  outside = λ g o. refl;
  counts = refl;
}
mark_used_from-Marked (suc n) f s v = elim (Bool-cases (ltb f (length s.bitmap))) [
  | inr past ↦ rw past (Marked-none true (suc n) f s v (ground arith))
  | inl inside ↦
      let h : f < length s.bitmap = ground arith in
      elim (Bool-cases (test_bit f s)) [
        | inl e ↦
            rw (inside, e)
              (Marked-step true n f s s _ refl e (λ g ne. refl) refl
                (mark_used_from-Marked n (f + 1) s v))
        | inr e ↦
            rw (inside, e)
              (Marked-step true n f s (use_frame f s) _ (length-set s.bitmap f true)
                (get_or-set_self s.bitmap f true true h)
                (λ g ne. get_or-set_ne s.bitmap f g true true ne) refl
                (mark_used_from-Marked n (f + 1) (use_frame f s) (use_frame-IsValid f s v h e)))
      ]
]

pub mark_free_from-Marked :
    (n f : ℕ) (s : Pmm) → IsValid s → Marked false n f s (mark_free_from n f s)
unfolding mark_free_from
mark_free_from-Marked zero f s v = record {
  valid = v;
  size = refl;
  inside = λ g above below i. absurd (omega arith);
  outside = λ g o. refl;
  counts = refl;
}
mark_free_from-Marked (suc n) f s v = elim (Bool-cases (ltb f (length s.bitmap))) [
  | inr past ↦ rw past (Marked-none false (suc n) f s v (ground arith))
  | inl inside ↦
      let h : f < length s.bitmap = ground arith in
      elim (Bool-cases (test_bit f s)) [
        | inr e ↦
            rw (inside, e)
              (Marked-step false n f s s _ refl e (λ g ne. refl) refl
                (mark_free_from-Marked n (f + 1) s v))
        | inl e ↦
            rw (inside, e)
              (Marked-step false n f s (drop_frame f s) _ (length-set s.bitmap f false)
                (get_or-set_self s.bitmap f false true h)
                (λ g ne. get_or-set_ne s.bitmap f g false true ne) refl
                (mark_free_from-Marked n (f + 1) (drop_frame f s) (drop_frame-IsValid f s v h e)))
      ]
]

-- In a valid state, for a range that does not wrap round 2^64, pmm_mark_used marks exactly the
-- frames that the range touches as used, pmm_mark_free exactly the frames that lie inside it as
-- free; both leave the other bits and all reference counts, and the counter of used frames stays
-- the number of set bits.
pub pmm_mark-Marked :
    (addr size : ℕ) (s : Pmm)
    → IsValid s
    → addr + size + 4095 < 2 ^ 64
    → Marked true
        ((addr + size + 4095) / 4096 - addr / 4096)
        (addr / 4096)
        s
        (pmm_mark_used addr size s)
      × Marked false
          ((addr + size) / 4096 - (addr + 4095) / 4096)
          ((addr + 4095) / 4096)
          s
          (pmm_mark_free addr size s)
unfolding pmm_mark_used pmm_mark_free
pmm_mark-Marked addr size s v h =
    let e : (addr + size) % 2 ^ 64 ≡ addr + size = omega arith in
    let up : (addr + size + 4095) % 2 ^ 64 ≡ addr + size + 4095 = omega arith in
    let up' : (addr + 4095) % 2 ^ 64 ≡ addr + 4095 = omega arith in
    rw (e, up, up')
      (
        mark_used_from-Marked ((addr + size + 4095) / 4096 - addr / 4096) (addr / 4096) s v,
        mark_free_from-Marked ((addr + size) / 4096 - (addr + 4095) / 4096) ((addr + 4095) / 4096) s
            v,
      )
