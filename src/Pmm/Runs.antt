-- ===== src/Pmm/Runs.antt =====
-- memory/pmm.c: `pmm_alloc_frames`, the search for a contiguous run of free frames.
use new_os.Base.{
  ℕ, zero, suc, ◌+◌, ◌-◌, ◌*◌, ◌<◌, ◌≤◌, ◌≡◌, ◌∙◌, refl, ap, subst, Option, none, some, true, false,
  ◌==◌, if◌then◌else◌, length, Bool-cases, Option-cases, inl, inr, ◌⊎◌, arith, ℕ_discrete, dec_lt,
}
use new_os.Pmm.{Pmm, test_bit, find_run, pmm_alloc_frames, pmm_frame_size}
use new_os.Pmm.Frames.{IsValid}
use new_os.Pmm.Alloc.{AllBits, Handed, take_run-Handed}

-- The search before frame `f`: `run` free frames end there, no longer run does, and no run of `count`
-- has been passed.
record Progress (f run start count : ℕ) (s : Pmm) : Type 0 where
  short : run < count
  back : run ≤ f
  starts : 0 < run → start + run ≡ f
  run_free : (g : ℕ) → f ≤ g + run → g < f → test_bit g s ≡ false
  longest : (k : ℕ) → k ≤ f → AllBits false (f - k) k s → f ≤ k + run
  none_yet : (k : ℕ) → k + count ≤ f → ¬ AllBits false count k s

-- What the search over the frames up to `top` gives.
record Outcome (top count : ℕ) (s : Pmm) (o : Option ℕ) : Type 0 where
  no_run : o ≡ none → (k : ℕ) → k + count ≤ top → ¬ AllBits false count k s
  a_run : (k : ℕ) → o ≡ some k → (k + count ≤ top) × AllBits false count k s

Progress-used :
    (f run start count : ℕ) (s : Pmm)
    → Progress f run start count s
    → test_bit f s ≡ true
    → Progress (f + 1) 0 start count s
Progress-used f run start count s p e = record {
  short = omega (arith, p.short);
  back = omega arith;
  starts = λ l. absurd (omega arith);
  run_free = λ g l h. absurd (omega arith);
  longest = λ k l a. elim (dec_lt k (f + 1)) [
    | yes i ↦ absurd (let w = a f (omega arith) (omega arith) in cc (w, e))
    | no i ↦ omega arith
  ];
  none_yet = λ k l a. elim (dec_lt (k + count) (f + 1)) [
    | yes i ↦ p.none_yet k (omega arith) a
    | no i ↦ let w = a f (omega (arith, p.short)) (omega arith) in cc (w, e)
  ];
}

Progress-free :
    (f run start count : ℕ) (s : Pmm)
    → Progress f run start count s
    → test_bit f s ≡ false
    → (run + 1 == count) ≡ false
    → Progress (f + 1) (run + 1) (if run == 0 then f else start) count s
Progress-free f run start count s p e more = record {
  short = ground (arith, p.short);
  back = omega (arith, p.back);
  starts = λ l. ground (arith, p.starts);
  run_free = λ g l h. elim (ℕ_discrete g f) [
    | yes i ↦ ap (λ (k : ℕ). test_bit k s) i ∙ e
    | no i ↦ p.run_free g (omega arith) (omega arith)
  ];
  longest = λ k l a. elim (dec_lt f k) [
    | yes i ↦ omega arith
    | no i ↦ omega (arith, p.longest k (omega arith) (λ g low high. a g low (omega arith)))
  ];
  none_yet = λ k l a. elim (dec_lt (k + count) (f + 1)) [
    | yes i ↦ p.none_yet k (omega arith) a
    | no i ↦
        let m = p.longest k (ground (arith, p.short)) (λ g low high. a g low (omega arith)) in
        ground (arith, m, p.short)
  ];
}

find_run-Outcome :
    (n f run start count : ℕ) (s : Pmm)
    → Progress f run start count s
    → Outcome (f + n) count s (find_run n f run start count s)
unfolding find_run
find_run-Outcome zero f run start count s p = record {
  no_run = λ e k l. p.none_yet k (omega arith);
  a_run = λ k e. absurd (ground (arith, e));
}
find_run-Outcome (suc n) f run start count s p =
    let from = if run == 0 then f else start in
    elim (Bool-cases (test_bit f s)) [
      | inl e ↦ rw e (
          subst (λ (top : ℕ). Outcome top count s (find_run n (f + 1) 0 start count s))
            (omega arith)
            (find_run-Outcome n (f + 1) 0 start count s (Progress-used f run start count s p e)))
      | inr e ↦ elim (Bool-cases (run + 1 == count)) [
        | inr more ↦
            rw (e, more)
              (subst (λ (top : ℕ). Outcome top count s (find_run n (f + 1) (run + 1) from count s))
                (omega arith)
                (find_run-Outcome n (f + 1) (run + 1) from count s
                  (Progress-free f run start count s p e more)))
        | inl hit ↦
            let at : from + count ≡ f + 1 = ground (arith, p.starts) in
            rw (e, hit)
              (record {
                no_run = λ q. absurd (ground (arith, q));
                a_run = λ k q.
                    let i : from ≡ k = cc q in
                    (
                      omega (arith, i, at),
                      λ g low high. elim (ℕ_discrete g f) [
                        | yes j ↦ ap (λ (x : ℕ). test_bit x s) j ∙ e
                        | no j ↦
                            let r : run + 1 ≡ count = ground arith in
                            p.run_free g (omega (arith, i, at, r)) (omega (arith, i, at, r))
                      ],
                    );
              })
      ]
    ]

-- In a valid state, for two frames or more, pmm_alloc_frames returns NULL and changes nothing when
-- no contiguous run of that many free frames exists, and otherwise hands out such a run, each
-- frame with one reference, and changes no other frame.
pub pmm_alloc_frames_lem :
    (count : ℕ) (s : Pmm)
    → IsValid s
    → 1 < count
    → (((k : ℕ) → k + count ≤ length s.bitmap → ¬ AllBits false count k s)
        × (pmm_alloc_frames count s ≡ (0, s)))
      ⊎ ((start : ℕ) × ((pmm_alloc_frames count s).0 ≡ start * pmm_frame_size)
          × Handed count start s (pmm_alloc_frames count s).1)
unfolding pmm_alloc_frames
pmm_alloc_frames_lem count s v many =
    let zero_no : (count == 0) ≡ false = ground arith in
    let one_no : (count == 1) ≡ false = ground arith in
    let o = find_run-Outcome (length s.bitmap) 0 0 0 count s (record {
      short = omega arith;
      back = omega arith;
      starts = λ l. absurd (omega arith);
      run_free = λ g l h. absurd (omega arith);
      longest = λ k l a. omega arith;
      none_yet = λ k l a. omega arith;
    }) in
    elim (Option-cases (find_run (length s.bitmap) 0 0 0 count s)) [
      | inl e ↦
          inl (
            (λ k l. o.no_run e k (omega (arith, l))),
            rw (zero_no, one_no, e, pmm_alloc_frames) refl,
          )
      | inr (start, e) ↦
          let (fits, free) = o.a_run start e in
          inr (
            start,
            rw (zero_no, one_no, e, pmm_alloc_frames) refl,
            rw (zero_no, one_no, e, pmm_alloc_frames)
                (take_run-Handed count start s v (omega (arith, fits)) free),
          )
    ]
