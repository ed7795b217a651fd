-- ===== src/Cap/Transfer.antt =====
-- kernel/cap.c: `cap_transfer`.
use new_os.Base.{
  ℕ, ◌<◌, ◌≡◌, ◌≢◌, ◌∙◌, refl, ap, none, some, true, false, arith, length, ◌⊎◌, get_or-set_self,
  Bool-cases, Option-cases, ◌==◌, inl, inr, bit_and,
}
use new_os.Base.Find.{find_index-set}
use new_os.Secmon.{Secmon, AuditEventType}
use new_os.Cap.{
  Cap, Caps, cap_at, put, audit, cap_get, cap_check, cap_transfer, null_cap, has_id, right_grant,
}
use new_os.Cap.Slots.{cap_get-Has, at-put}
use new_os.Cap.Invariant.{IsValid}
use new_os.Cap.Child.{touch-IsValid, log-IsValid}

-- `cap_get` finds the same slot after a write that keeps the slot's token and liveness.
pub cap_get-put :
    (id i : ℕ) (s : Caps) (c : Cap)
    → i < length s.table
    → has_id id c ≡ has_id id (cap_at s i)
    → cap_get id (put s i c) ≡ cap_get id s
unfolding cap_get
cap_get-put id i s c h e = rw (find_index-set (has_id id) s.table i c null_cap e h) refl

-- So does what a token grants, if the slot keeps its rights too.
pub cap_check-put :
    (id q i : ℕ) (s : Caps) (c : Cap)
    → i < length s.table
    → has_id id c ≡ has_id id (cap_at s i)
    → c.rights ≡ (cap_at s i).rights
    → cap_check id q (put s i c) ≡ cap_check id q s
unfolding cap_check
cap_check-put id q i s c h e r = elim (Option-cases (cap_get id s)) [
  | inl none_found ↦ rw (cap_get-put id i s c h e ∙ none_found, none_found, cap_check) refl
  | inr (j, found) ↦
      let same : (cap_at (put s i c) j).rights ≡ (cap_at s j).rights = elim (at-put s i j c h) [
        | inl (x, f) ↦ ap (λ (c : Cap). c.rights) f ∙ r ∙ ap (λ (k : ℕ). (cap_at s k).rights) x
        | inr (_, f) ↦ ap (λ (c : Cap). c.rights) f
      ] in
      rw (cap_get-put id i s c h e ∙ found, found, cap_check)
        (ap (λ (m : ℕ). bit_and m q == q) same)
]

pub cap_check-log :
    (id q : ℕ) (s : Caps) (l : Secmon) → cap_check id q (record s { log = l }) ≡ cap_check id q s
unfolding cap_check cap_get
cap_check-log id q s l = refl

-- What `cap_transfer` did when it returned the token: the holder had CAP_RIGHT_GRANT, and the slot has
-- the new owner.
pub record Transferred (id new_owner k : ℕ) (s s' : Caps) : Type 0 where
  pub found : cap_get id s ≡ some k
  pub granted : bit_and (cap_at s k).rights right_grant ≢ 0
  pub owned : (cap_at s' k).owner_tid ≡ new_owner

abbrev given : ℕ → Cap → Cap
given new_owner c = record c { owner_tid = new_owner }

transfer_found :
    (id new_owner k : ℕ) (s : Caps)
    → cap_get id s ≡ some k
    → (bit_and (cap_at s k).rights right_grant == 0) ≡ false
    → cap_transfer id new_owner s ≡ (
      id,
      audit AuditEventType.cap_transfer
          (cap_at s k).owner_tid
          id
          new_owner
          0
          (put s k (given new_owner (cap_at s k))),
    )
unfolding cap_transfer
transfer_found id new_owner k s e g = rw (e, g, cap_transfer) refl

transfer_refused :
    (id new_owner : ℕ) (s : Caps)
    → (cap_get id s ≡ none)
      ⊎ ((k : ℕ) × (cap_get id s ≡ some k)
          × ((bit_and (cap_at s k).rights right_grant == 0) ≡ true))
    → cap_transfer id new_owner s ≡ (0, s)
unfolding cap_transfer
transfer_refused id new_owner s (inl e) = rw (e, cap_transfer) refl
transfer_refused id new_owner s (inr (k, e, g)) = rw (e, g, cap_transfer) refl

-- In a valid table `cap_transfer` keeps the invariant, and every token passes the same checks as
-- before. It answers 0 and does nothing, or it answers the token, which was live with
-- CAP_RIGHT_GRANT and has the new owner.
pub cap_transfer_lem :
    (id new_owner : ℕ) (s : Caps)
    → IsValid s
    → let (r, s') = cap_transfer id new_owner s in
      IsValid s'
      × ((other q : ℕ) → cap_check other q s' ≡ cap_check other q s)
      × ((r ≡ 0) × (s' ≡ s) ⊎ (r ≡ id) × ((k : ℕ) × Transferred id new_owner k s s'))
cap_transfer_lem id new_owner s v = elim (Option-cases (cap_get id s)) [
  | inl e ↦ rw (transfer_refused id new_owner s (inl e)) (v, λ _ _. refl, inl (refl, refl))
  | inr (k, e) ↦ elim (Bool-cases (bit_and (cap_at s k).rights right_grant == 0)) [
    | inl g ↦
        rw (transfer_refused id new_owner s (inr (k, e, g))) (v, λ _ _. refl, inl (refl, refl))
    | inr g ↦
        let h = cap_get-Has id s k e in
        let c = given new_owner (cap_at s k) in
        rw (transfer_found id new_owner k s e g) (
          log-IsValid (put s k c) _
              (touch-IsValid s k c v h.in_range h.is_live h.is_live refl refl refl),
          λ other q.
              cap_check-log other q (put s k c) _
              ∙ cap_check-put other q k s c h.in_range refl refl,
          inr (
            refl,
            (
              k,
              record {
                found = e;
                granted = λ z. ground arith;
                owned =
                    ap (λ (c : Cap). c.owner_tid) (get_or-set_self s.table k c null_cap h.in_range);
              },
            ),
          ),
        )
  ]
]
