-- ===== src/Cap/Derive.antt =====
-- kernel/cap.c: `cap_derive` and the rights of a derived capability.
use new_os.Base.{
  ℕ, ◌+◌, ◌^◌, ◌<◌, ◌≡◌, ◌≢◌, ◌∙◌, refl, none, some, true, false, not, arith, ◌⊎◌, Bool-cases,
  Option-cases, ◌==◌, ==_iff, inl, inr, bit_and,
}
use new_os.Base.Bits.{bit_not, bit_and_mono}
use new_os.Secmon.{AuditEventType}
use new_os.Cap.{
  Cap, Caps, cap_at, audit, cap_get, cap_check, cap_derive, derive_from, alloc_slot, right_manage,
}
use new_os.Cap.Slots.{cap_get-Has}
use new_os.Cap.Invariant.{IsValid}
use new_os.Cap.Child.{Derived, derive_from_found, log-IsValid}

-- The rights test of `cap_derive`, as a statement about what the masks grant.
no_escalation :
    (reduced rights q : ℕ)
    → reduced < 2 ^ 32
    → rights < 2 ^ 32
    → not (bit_and reduced (bit_not 32 rights) == 0) ≡ false
    → (bit_and reduced q == q) ≡ true
    → (bit_and rights q == q) ≡ true
no_escalation reduced rights q m n e h =
    (==_iff _ q).1 (bit_and_mono 32 reduced rights q m n (ground arith) ((==_iff _ q).0 h))

-- What a successful `cap_derive` promises beside `Derived`: the parent held CAP_RIGHT_MANAGE, and what
-- the new token grants the parent's token granted.
pub record Attenuates (parent_id reduced k : ℕ) (s : Caps) (id : ℕ) (s' : Caps) : Type 0 where
  pub derived : Derived parent_id reduced (cap_at s k) s id s'
  pub managed : bit_and (cap_at s k).rights right_manage ≢ 0
  pub weaker : (q : ℕ) → cap_check id q s' ≡ true → cap_check parent_id q s ≡ true

Derived-weaker :
    (parent_id reduced k q : ℕ) (s : Caps) (id : ℕ) (s' : Caps)
    → IsValid s
    → reduced < 2 ^ 32
    → cap_get parent_id s ≡ some k
    → not (bit_and reduced (bit_not 32 (cap_at s k).rights) == 0) ≡ false
    → Derived parent_id reduced (cap_at s k) s id s'
    → cap_check id q s' ≡ true
    → cap_check parent_id q s ≡ true
unfolding cap_check
Derived-weaker parent_id reduced k q s id s' v m found sub d check =
    let live = (cap_get-Has parent_id s k found).is_live in
    let held : (bit_and reduced q == q) ≡ true =
      rw d.rights at (rw (d.found, cap_check) at check) in
    rw (found, cap_check) (no_escalation reduced (cap_at s k).rights q m (v.masks k live) sub held)

-- The branches of `cap_derive`.
module _ (parent_id reduced k : ℕ) (s : Caps) (e : cap_get parent_id s ≡ some k) where
  derive_wide :
      not (bit_and reduced (bit_not 32 (cap_at s k).rights) == 0) ≡ true
      → cap_derive parent_id reduced s
        ≡ (0, audit AuditEventType.policy_deny (cap_at s k).owner_tid parent_id reduced 0 s)
  unfolding cap_derive
  derive_wide wide = rw (e, wide, cap_derive) refl

  derive_unmanaged :
      not (bit_and reduced (bit_not 32 (cap_at s k).rights) == 0) ≡ false
      → (bit_and (cap_at s k).rights right_manage == 0) ≡ true
      → cap_derive parent_id reduced s ≡ (0, s)
  unfolding cap_derive
  derive_unmanaged sub plain = rw (e, sub, plain, cap_derive) refl

  derive_passes :
      not (bit_and reduced (bit_not 32 (cap_at s k).rights) == 0) ≡ false
      → (bit_and (cap_at s k).rights right_manage == 0) ≡ false
      → cap_derive parent_id reduced s ≡ derive_from parent_id (cap_at s k) reduced s
  unfolding cap_derive
  derive_passes sub managed = rw (e, sub, managed, cap_derive) refl

derive_missing :
    (parent_id reduced : ℕ) (s : Caps)
    → cap_get parent_id s ≡ none
    → cap_derive parent_id reduced s ≡ (0, s)
unfolding cap_derive
derive_missing parent_id reduced s e = rw (e, cap_derive) refl

derive_full :
    (parent_id reduced : ℕ) (p : Cap) (s : Caps)
    → alloc_slot s ≡ none
    → derive_from parent_id p reduced s ≡ (0, s)
unfolding derive_from
derive_full parent_id reduced p s e = rw (e, derive_from) refl

abbrev Outcome : ℕ → ℕ → Caps → ℕ × Caps → Type 0
Outcome parent_id reduced s (id, s') =
    IsValid s'
    × ((id ≡ 0) × (s'.table ≡ s.table)
        ⊎ ((k : ℕ) × (cap_get parent_id s ≡ some k) × Attenuates parent_id reduced k s id s'))

attenuates :
    (parent_id reduced k : ℕ) (s : Caps) (r : ℕ × Caps)
    → IsValid s
    → reduced < 2 ^ 32
    → cap_get parent_id s ≡ some k
    → not (bit_and reduced (bit_not 32 (cap_at s k).rights) == 0) ≡ false
    → (bit_and (cap_at s k).rights right_manage == 0) ≡ false
    → IsValid r.1
      × ((r.0 ≡ 0) × (r.1.table ≡ s.table) ⊎ Derived parent_id reduced (cap_at s k) s r.0 r.1)
    → Outcome parent_id reduced s r
attenuates parent_id reduced k s (id, s') v m e sub managed (w, inl same) = (w, inl same)
attenuates parent_id reduced k s (id, s') v m e sub managed (w, inr d) = (
  w,
  inr (
    k,
    e,
    record {
      derived = d;
      managed = λ z. ground arith;
      weaker = λ q. Derived-weaker parent_id reduced k q s id s' v m e sub d;
    },
  ),
)

derive-Outcome :
    (parent_id reduced : ℕ) (s : Caps)
    → IsValid s
    → reduced < 2 ^ 32
    → s.next_id + 1 < 2 ^ 32
    → Outcome parent_id reduced s (cap_derive parent_id reduced s)
derive-Outcome parent_id reduced s v m small = elim (Option-cases (cap_get parent_id s)) [
  | inl e ↦ rw (derive_missing parent_id reduced s e) (v, inl (refl, refl))
  | inr (k, e) ↦
      let p = cap_at s k in
      elim (Bool-cases (not (bit_and reduced (bit_not 32 p.rights) == 0))) [
        | inl wide ↦
            rw (derive_wide parent_id reduced k s e wide) (log-IsValid s _ v, inl (refl, refl))
        | inr sub ↦ elim (Bool-cases (bit_and p.rights right_manage == 0)) [
          | inl plain ↦
              rw (derive_unmanaged parent_id reduced k s e sub plain) (v, inl (refl, refl))
          | inr managed ↦ elim (Option-cases (alloc_slot s)) [
            | inl full ↦
                rw
                  (derive_passes parent_id reduced k s e sub managed
                    ∙ derive_full parent_id reduced p s full)
                  (v, inl (refl, refl))
            | inr (i, a) ↦ rw (derive_passes parent_id reduced k s e sub managed) (
                attenuates parent_id reduced k s _ v m e sub managed (
                  derive_from_found parent_id k reduced i s v (cap_get-Has parent_id s k e) m small
                    a))
          ]
        ]
      ]
]

-- In a valid table, for 32-bit rights and before the token counter reaches 2^32, `cap_derive`
-- keeps the invariant. Either it answers 0 and the table is as it was, or the parent's token is
-- live with CAP_RIGHT_MANAGE and the new token is a child of it that grants nothing that the
-- parent does not grant.
pub cap_derive_lem :
    (parent_id reduced : ℕ) (s : Caps)
    → IsValid s
    → reduced < 2 ^ 32
    → s.next_id + 1 < 2 ^ 32
    → let (id, s') = cap_derive parent_id reduced s in
      IsValid s'
      × ((id ≡ 0) × (s'.table ≡ s.table)
          ⊎ ((k : ℕ) × (cap_get parent_id s ≡ some k) × Attenuates parent_id reduced k s id s'))
cap_derive_lem = derive-Outcome
