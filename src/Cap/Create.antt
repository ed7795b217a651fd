-- ===== src/Cap/Create.antt =====
-- kernel/cap.c: `cap_create`, and a new capability in a free slot.
use new_os.Base.{
  ℕ, ◌+◌, ◌^◌, ◌<◌, ◌≡◌, ◌∙◌, refl, sym, ap, none, some, true, false, arith, length, set, ◌⊎◌,
  get_or-set_self, length-set, Option-cases, ◌==◌, inl, inr, inc32, bit_and,
}
use new_os.Base.Find.{count-set, count-le-length}
use new_os.Secmon.{CapType, Secmon}
use new_os.Cap.{
  Cap, Caps, cap_at, cap_get, cap_check, cap_create, alloc_slot, after_id, is_valid, null_cap,
}
use new_os.Cap.Slots.{Has, cap_get-Has, cap_get-none, alloc_slot-free, at-put}
use new_os.Cap.Invariant.{IsValid}
use new_os.Cap.Cascade.{NoToken}

-- With distinct tokens the slot of a token is the one that `cap_get` finds.
pub cap_get-of_Has : (id : ℕ) (s : Caps) (i : ℕ) → IsValid s → Has id s i → cap_get id s ≡ some i
cap_get-of_Has id s i v h = elim (Option-cases (cap_get id s)) [
  | inl e ↦ absurd (cap_get-none id s i e h.id_ne_zero h.is_live h.same_id)
  | inr (j, e) ↦
      let k = cap_get-Has id s j e in
      e ∙ ap some (v.unique j i k.is_live h.is_live (k.same_id ∙ sym h.same_id))
]

-- A live capability under the next token, put into a free slot.
pub insert-IsValid :
    (s : Caps) (i : ℕ) (c : Cap) (l : Secmon)
    → IsValid s
    → i < length s.table
    → (cap_at s i).valid ≡ false
    → s.next_id + 1 < 2 ^ 32
    → c.valid ≡ true
    → c.id ≡ s.next_id
    → c.parent < s.next_id
    → c.rights < 2 ^ 32
    → IsValid (record s {
      table = set s.table i c;
      next_id = after_id s.next_id;
      active_count = inc32 s.active_count;
      log = l;
    })
insert-IsValid s i c l v h free small live id par mask = record {
  small = omega (arith, length-set s.table i c, v.small);
  counted = ground (
    arith,
    v.counted,
    v.small,
    count-set is_valid s.table i c null_cap h,
    count-le-length is_valid (set s.table i c),
    length-set s.table i c,
  );
  next_pos = ground arith;
  next_small = ground arith;
  id_pos = λ j m. elim (at-put s i j c h) [
    | inl (_, f) ↦ rw f (omega (arith, id, v.next_pos))
    | inr (_, f) ↦ rw f (v.id_pos j (rw f at m))
  ];
  fresh = λ j m. elim (at-put s i j c h) [
    | inl (_, f) ↦ rw f (ground arith)
    | inr (_, f) ↦ rw f (let w = v.fresh j (rw f at m) in ground arith)
  ];
  older = λ j m. elim (at-put s i j c h) [
    | inl (_, f) ↦ rw f (omega (arith, id, par))
    | inr (_, f) ↦ rw f (v.older j (rw f at m))
  ];
  masks = λ j m. elim (at-put s i j c h) [
    | inl (_, f) ↦ rw f mask
    | inr (_, f) ↦ rw f (v.masks j (rw f at m))
  ];
  unique = λ j k m n e. elim (at-put s i j c h) [
    | inl (x, f) ↦ elim (at-put s i k c h) [
      | inl (y, g) ↦ sym x ∙ y
      | inr (y, g) ↦ absurd (
          omega (
            arith,
            v.fresh k (rw g at n),
            ap (λ (c : Cap). c.id) f,
            ap (λ (c : Cap). c.id) g,
            e,
            id,
          ))
    ]
    | inr (x, f) ↦ elim (at-put s i k c h) [
      | inl (y, g) ↦ absurd (
          omega (
            arith,
            v.fresh j (rw f at m),
            ap (λ (c : Cap). c.id) f,
            ap (λ (c : Cap). c.id) g,
            e,
            id,
          ))
      | inr (y, g) ↦ v.unique j k (rw f at m) (rw g at n) (rw (f, g) at e)
    ]
  ];
}

-- In a valid table, for 32-bit rights and before the token counter reaches 2^32, `cap_create`
-- keeps the invariant. It answers 0, with no change, when no slot is free; otherwise it answers
-- the next token, which no live slot held, and which then grants exactly what the rights grant.
pub cap_create_lem :
    (t : CapType) (rights object owner : ℕ) (s : Caps)
    → IsValid s
    → rights < 2 ^ 32
    → s.next_id + 1 < 2 ^ 32
    → let (id, s') = cap_create t rights object owner s in
      IsValid s'
      × ((id ≡ 0) × (s' ≡ s) × (alloc_slot s ≡ none)
          ⊎ (id ≡ s.next_id)
            × NoToken id s
            × ((q : ℕ) → cap_check id q s' ≡ (bit_and rights q == q)))
unfolding cap_create cap_check
cap_create_lem t rights object owner s v m small = elim (Option-cases (alloc_slot s)) [
  | inl e ↦ rw (e, cap_create) (v, inl (refl, refl, refl))
  | inr (i, e) ↦
      let (h, free) = alloc_slot-free s i e in
      let c : Cap = record {
        id = s.next_id;
        type = t;
        rights = rights;
        object = object;
        parent = 0;
        ref_count = 1;
        owner_tid = owner;
        valid = true;
      } in
      let v' = insert-IsValid s i c _ v h free small refl refl v.next_pos m in
      let at = get_or-set_self s.table i c null_cap h in
      let live = ap (λ (c : Cap). c.valid) at in
      let same = ap (λ (c : Cap). c.id) at in
      rw (e, cap_create)
        (
          v',
          inr (
            refl,
            λ j l. λ p. omega (arith, v.fresh j l, p),
            λ q.
                let found = cap_get-of_Has s.next_id _ i v' (record {
                  in_range = omega (arith, length-set s.table i c, h);
                  is_live = live;
                  same_id = same;
                  id_ne_zero = λ z. omega (arith, v.next_pos);
                }) in
                rw (found, cap_check) (rw at refl),
          ),
        )
]
