-- ===== src/Pmm/Alloc.antt =====
-- memory/pmm.c: `pmm_alloc_frame`, the search by bytes and bits, and handing frames out.
use new_os.Base.{
  ℕ, zero, suc, ◌+◌, ◌-◌, ◌*◌, ◌/◌, ◌%◌, ◌<◌, ◌≤◌, ◌≡◌, ◌≢◌, ◌∙◌, refl, sym, ap, subst, Option,
  none, some, Bool, true, false, length, length-set, get_or-set_self, get_or-set_ne, Bool-cases,
  Option-cases, inl, inr, ◌⊎◌, arith, ℕ_discrete, dec_lt,
}
use new_os.Pmm.{
  Pmm, test_bit, refcount, use_frame, take_frame, take_run, free_bit, free_byte, all_used, or_else,
  pmm_alloc_frame, pmm_frame_size,
}
use new_os.Pmm.Frames.{IsValid, use_frame-IsValid, refcounts-IsValid}

-- All of the `n` frames from `f` on have the bit `b`.
abbrev pub AllBits : Bool → ℕ → ℕ → Pmm → Type 0
AllBits b n f s = (g : ℕ) → f ≤ g → g < f + n → test_bit g s ≡ b

-- The `n` frames from `f` on were free; in `t` they are used and have one reference. No other frame
-- changes.
pub record Handed (n f : ℕ) (s t : Pmm) : Type 0 where
  pub valid : IsValid t
  pub size : length t.bitmap ≡ length s.bitmap
  pub were_free : AllBits false n f s
  pub now_used : AllBits true n f t
  pub one_reference : (g : ℕ) → f ≤ g → g < f + n → refcount g t ≡ 1
  pub others :
      (g : ℕ)
      → (g < f) ⊎ (f + n ≤ g)
      → (test_bit g t ≡ test_bit g s) × (refcount g t ≡ refcount g s)

take_frame-IsValid :
    (f : ℕ) (s : Pmm)
    → IsValid s
    → f < length s.bitmap
    → test_bit f s ≡ false
    → IsValid (take_frame f s)
take_frame-IsValid f s v h e = refcounts-IsValid f 1 (use_frame f s) (use_frame-IsValid f s v h e)

pub take_run-Handed :
    (n f : ℕ) (s : Pmm)
    → IsValid s
    → f + n ≤ length s.bitmap
    → AllBits false n f s
    → Handed n f s (take_run n f s)
unfolding take_run
take_run-Handed zero f s v h a = record {
  valid = v;
  size = refl;
  were_free = a;
  now_used = λ g l m. absurd (omega arith);
  one_reference = λ g l m. absurd (omega arith);
  others = λ g o. (refl, refl);
}
take_run-Handed (suc n) f s v h a =
    let e = a f (omega arith) (omega arith) in
    let t = take_frame f s in
    let l = length-set s.bitmap f true in
    let other : ((g : ℕ) → f ≢ g → test_bit g t ≡ test_bit g s) =
      λ g ne. get_or-set_ne s.bitmap f g true true ne in
    let used = get_or-set_self s.bitmap f true true (omega (arith, h)) in
    let one = get_or-set_self s.refcounts f 1 0 (omega (arith, h, v.same_size)) in
    let r =
      take_run-Handed n (f + 1) t (take_frame-IsValid f s v (omega (arith, h)) e)
        (omega (arith, h, l))
        (λ g low high. other g (λ q. omega arith) ∙ a g (omega arith) (omega arith)) in
    record {
      valid = r.valid;
      size = r.size ∙ l;
      were_free = a;
      now_used = λ g low high. elim (ℕ_discrete f g) [
        | yes q ↦ (r.others g (inl (omega arith))).0 ∙ ap (λ (k : ℕ). test_bit k t) (sym q) ∙ used
        | no ne ↦ r.now_used g (omega arith) (omega arith)
      ];
      one_reference = λ g low high. elim (ℕ_discrete f g) [
        | yes q ↦ (r.others g (inl (omega arith))).1 ∙ ap (λ (k : ℕ). refcount k t) (sym q) ∙ one
        | no ne ↦ r.one_reference g (omega arith) (omega arith)
      ];
      others = λ g o.
          let (bits, refs) = r.others g (ground (arith, o)) in
          let ne : f ≢ g = λ q. ground (arith, o, q) in
          (bits ∙ other g ne, refs ∙ get_or-set_ne s.refcounts f g 1 0 ne);
    }

-- What the search for the first free of the `n` frames from `f` on has found.
record First (n f : ℕ) (s : Pmm) (o : Option ℕ) : Type 0 where
  none_free : o ≡ none → AllBits true n f s
  found :
      (g : ℕ)
      → o ≡ some g
      → (f ≤ g) × (g < f + n) × (test_bit g s ≡ false) × AllBits true (g - f) f s

all_used-AllBits : (n f : ℕ) (s : Pmm) → all_used n f s ≡ true → AllBits true n f s
all_used-AllBits zero f s e g l m = absurd (omega arith)
all_used-AllBits (suc n) f s e g l m = elim (Bool-cases (test_bit f s)) [
  | inr q ↦ absurd (let w = rw q at e in ground (arith, w))
  | inl q ↦ elim (ℕ_discrete f g) [
    | yes i ↦ ap (λ (k : ℕ). test_bit k s) (sym i) ∙ q
    | no ne ↦ all_used-AllBits n (f + 1) s (rw q at e) g (omega arith) (omega arith)
  ]
]

-- Two searches after each other.
First-append :
    (m n f : ℕ) (s : Pmm) (a b : Option ℕ)
    → First m f s a
    → First n (f + m) s b
    → First (m + n) f s (or_else a b)
First-append m n f s (some g) b x y = record {
  none_free = λ e. absurd (ground (arith, e));
  found = λ k e. let (l, h, q, r) = x.found k e in (l, omega arith, q, r);
}
First-append m n f s none b x y = record {
  none_free = λ e g l h. elim (dec_lt g (f + m)) [
    | yes i ↦ x.none_free refl g l i
    | no i ↦ y.none_free e g (omega arith) (omega arith)
  ];
  found = λ k e.
      let (l, h, q, r) = y.found k e in
      (
        omega arith,
        omega arith,
        q,
        λ g low high. elim (dec_lt g (f + m)) [
          | yes i ↦ x.none_free refl g low i
          | no i ↦ r g (omega arith) (omega arith)
        ],
      );
}

free_bit-First : (n f : ℕ) (s : Pmm) → First n f s (free_bit n f s)
unfolding free_bit
free_bit-First zero f s = record {
  none_free = λ e g l h. absurd (omega arith);
  found = λ g e. absurd (ground (arith, e));
}
free_bit-First (suc n) f s = elim (Bool-cases (test_bit f s)) [
  | inl e ↦ rw e (
      subst (λ (k : ℕ). First k f s (free_bit n (f + 1) s)) (omega arith)
        (First-append 1 n f s none (free_bit n (f + 1) s)
          (record {
            none_free = λ q g l h. ap (λ (k : ℕ). test_bit k s) (omega arith) ∙ e;
            found = λ g q. absurd (ground (arith, q));
          })
          (free_bit-First n (f + 1) s)))
  | inr e ↦ rw e (record {
    none_free = λ q. absurd (ground (arith, q));
    found = λ g q.
        let i : f ≡ g = cc q in
        (
          omega arith,
          omega arith,
          ap (λ (k : ℕ). test_bit k s) (sym i) ∙ e,
          λ k low high. absurd (omega arith),
        );
  })
]

free_byte-First : (n byte : ℕ) (s : Pmm) → First (n * 8) (byte * 8) s (free_byte n byte s)
unfolding free_byte
free_byte-First zero byte s = record {
  none_free = λ e g l h. absurd (omega arith);
  found = λ g e. absurd (ground (arith, e));
}
free_byte-First (suc n) byte s =
    let size : suc n * 8 ≡ 8 + n * 8 = omega arith in
    let next : (byte + 1) * 8 ≡ byte * 8 + 8 = omega arith in
    let rest = rw next at (free_byte-First n (byte + 1) s) in
    rw size (elim (Bool-cases (all_used 8 (byte * 8) s)) [
      | inl e ↦ rw e (
          First-append 8 (n * 8) (byte * 8) s none (free_byte n (byte + 1) s)
            (record {
              none_free = λ q. all_used-AllBits 8 (byte * 8) s e;
              found = λ g q. absurd (ground (arith, q));
            })
            rest)
      | inr e ↦ rw e (
          First-append 8 (n * 8) (byte * 8) s (free_bit 8 (byte * 8) s) (free_byte n (byte + 1) s)
            (free_bit-First 8 (byte * 8) s) rest)
    ])

-- In a valid state with a bitmap of whole bytes, pmm_alloc_frame returns NULL and changes nothing
-- when every frame is used, and otherwise hands out the first free frame, with one reference, and
-- changes no other.
pub pmm_alloc_frame_lem :
    (s : Pmm)
    → IsValid s
    → length s.bitmap % 8 ≡ 0
    → (AllBits true (length s.bitmap) 0 s × (pmm_alloc_frame s ≡ (0, s)))
      ⊎ ((f : ℕ) × AllBits true f 0 s
          × ((pmm_alloc_frame s).0 ≡ f * pmm_frame_size)
          × Handed 1 f s (pmm_alloc_frame s).1)
unfolding pmm_alloc_frame take_run
pmm_alloc_frame_lem s v whole =
    let n = length s.bitmap / 8 in
    let size : n * 8 ≡ length s.bitmap = omega (arith, whole) in
    let r = free_byte-First n 0 s in
    elim (Option-cases (free_byte n 0 s)) [
      | inl e ↦
          inl ((λ g l h. r.none_free e g l (omega (arith, size))), rw (e, pmm_alloc_frame) refl)
      | inr (f, e) ↦
          let (l, h, q, before) = r.found f e in
          inr (
            f,
            (λ g low high. before g low (omega arith)),
            rw (e, pmm_alloc_frame) refl,
            rw (e, pmm_alloc_frame)
                (take_run-Handed 1 f s v (omega (arith, h, size))
                  (λ g low high. ap (λ (k : ℕ). test_bit k s) (omega arith) ∙ q)),
          )
    ]
