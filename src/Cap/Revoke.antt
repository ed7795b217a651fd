-- ===== src/Cap/Revoke.antt =====
-- kernel/cap.c: `cap_revoke` and the capabilities derived from the revoked one.
use new_os.Base.{
  ℕ, zero, suc, ◌<◌, ◌≡◌, ◌≢◌, ◌↔◌, ◌∙◌, refl, sym, ap, none, some, true, false, arith, length,
  get_or-set_ne, ℕ_discrete, Bool-cases, Option-cases, ◌==◌, inl, inr,
}
use new_os.Base.Find.{count}
use new_os.Cap.{
  Cap, Caps, cap_at, cap_get, release_fuel, revoke_fuel, cap_revoke, mark_revoked, is_valid,
  fuel_of, null_cap,
}
use new_os.Cap.Slots.{Has, cap_get-Has, cap_get-none, at-put}
use new_os.Cap.Invariant.{
  IsValid, Shrinks, Shrinks-refl, Shrinks-trans, Shrinks-kill, Shrinks-IsValid,
}
use new_os.Cap.Cascade.{NoToken, Shrinks-NoToken, Revoked, Cascaded, Ends, cascade-Cascaded}
use new_os.Cap.Release.{Released, release_parent, release_parent-Released, release_fuel-Released}

-- A token that no live slot holds is not found, so releasing it changes nothing.
release_parent-NoToken :
    (fuel p : ℕ) (s : Caps) → 0 < fuel → NoToken p s → release_parent fuel p s ≡ some s
unfolding release_fuel
release_parent-NoToken zero p s f n = absurd (omega arith)
release_parent-NoToken (suc fuel) p s f n = elim (Bool-cases (p == 0)) [
  | inl e ↦ rw e refl
  | inr e ↦ elim (Option-cases (cap_get p s)) [
    | inl none_found ↦ rw (e, none_found, release_fuel) refl
    | inr (i, found) ↦ let h = cap_get-Has p s i found in absurd (n i h.is_live h.same_id)
  ]
]

-- The live slots of the marked table are those of the old one but `i`.
mark_revoked-at :
    (s : Caps) (id i j : ℕ)
    → i < length s.table
    → (cap_at (mark_revoked s id i) j).valid ≡ true
    → (i ≢ j) × (cap_at (mark_revoked s id i) j ≡ cap_at s j)
mark_revoked-at s id i j h l =
    elim (at-put s i j (record (cap_at s i) { valid = false; object = 0 }) h) [
      | inl (_, f) ↦ absurd (cc (ap (λ (x : Cap). x.valid) f))
      | inr r ↦ r
    ]

mark_revoked-other : (s : Caps) (id i j : ℕ) → i ≢ j → cap_at (mark_revoked s id i) j ≡ cap_at s j
mark_revoked-other s id i j ne = get_or-set_ne s.table i j _ null_cap ne

module _ (s : Caps) (id i : ℕ) (v : IsValid s) (h : Has id s i) where
  mark_revoked-Shrinks :
      Shrinks s (mark_revoked s id i)
      × (count is_valid (mark_revoked s id i).table < count is_valid s.table)
  mark_revoked-Shrinks =
      Shrinks-kill s i (record (cap_at s i) { valid = false; object = 0 }) _ _ h.in_range h.is_live
        refl (Shrinks-refl _) refl refl refl

  mark_revoked-NoToken : NoToken id (mark_revoked s id i)
  mark_revoked-NoToken j l e =
      let (ne, same) = mark_revoked-at s id i j h.in_range l in
      ne (
        v.unique i j h.is_live (ap (λ (c : Cap). c.valid) (sym same) ∙ l)
          (h.same_id ∙ sym e ∙ ap (λ (c : Cap). c.id) same))

  -- The whole of a revocation that found its capability in slot `i`: `t` is the table after the
  -- parent's reference is gone.
  Revoked-from :
      (fuel : ℕ) (t u : Caps)
      → 0 < fuel
      → release_parent fuel (cap_at s i).parent (mark_revoked s id i) ≡ some t
      → Released (cap_at s i).parent (mark_revoked s id i) t
      → Cascaded id 0 t u
      → Revoked id s u
  Revoked-from fuel t u pos run r q =
      let marked = mark_revoked-Shrinks.0 in
      let older = v.older i h.is_live in
      record {
        shrinks = Shrinks-trans marked (Shrinks-trans r.0 q.shrinks);
        gone = λ j l.
            let k = q.shrinks.keeps j l in
            let k' = r.0.keeps j k.was_live in
            λ e. mark_revoked-NoToken j k'.was_live (sym k'.same_id ∙ sym k.same_id ∙ e);
        closed = λ j k l live dead le. elim (ℕ_discrete i k) [
          | yes e ↦ λ p.
              q.childless j (omega arith) l
                (p ∙ ap (λ (x : ℕ). (cap_at s x).id) (sym e) ∙ h.same_id)
          | no ne ↦
              let m = mark_revoked-other s id i k ne in
              let other = λ (same : id ≡ (cap_at s k).id).
                ne (v.unique i k h.is_live live (h.same_id ∙ same)) in
              let young : id < (cap_at s k).id = omega (arith, other) in
              let w =
                r.1 k (ap (λ (c : Cap). c.valid) m ∙ live)
                  (omega (arith, h.same_id, ap (λ (c : Cap). c.id) m)) in
              let same = ap (λ (c : Cap). c.id) (w ∙ m) in
              rw same at
                (q.closed j k l (ap (λ (c : Cap). c.valid) (w ∙ m) ∙ live) dead (rw same young))
        ];
        below = λ i' j l e n m lt.
            let ii : i ≡ i' = v.unique i i' h.is_live l (h.same_id ∙ sym e) in
            let n' = Shrinks-NoToken marked (rw (← ii) at n) in
            let same : some (mark_revoked s id i) ≡ some t =
              sym (release_parent-NoToken fuel (cap_at s i).parent (mark_revoked s id i) pos n')
              ∙ run in
            let ne : i ≢ j = λ ij. omega (arith, h.same_id, ap (λ (x : ℕ). (cap_at s x).id) ij) in
            let tm : mark_revoked s id i ≡ t = cc same in
            let w = ap (λ (x : Caps). cap_at x j) (sym tm) ∙ mark_revoked-other s id i j ne in
            q.below j (ap (λ (c : Cap). c.valid) w ∙ m) (omega (arith, ap (λ (c : Cap). c.id) w));
      }

cap_get-NoToken : (id : ℕ) (s : Caps) → IsValid s → cap_get id s ≡ none → NoToken id s
cap_get-NoToken id s v e j l = elim (ℕ_discrete id 0) [
  | yes z ↦ λ same. omega (arith, v.id_pos j l)
  | no nz ↦ cap_get-none id s j e nz l
]

revoke_fuel-Revoked : (fuel : ℕ) → Ends fuel (revoke_fuel fuel)
unfolding revoke_fuel
revoke_fuel-Revoked zero id s v f = absurd (omega arith)
revoke_fuel-Revoked (suc fuel) id s v f = elim (Option-cases (cap_get id s)) [
  | inl e ↦
      let n : NoToken id s = cap_get-NoToken id s v e in
      (
        (false, s),
        rw (e, revoke_fuel) refl,
        record {
          shrinks = Shrinks-refl s;
          gone = n;
          closed = λ j k l live dead. absurd (cc);
          below = λ i j l same n m lt. m;
        },
        (λ _. n, λ _. refl),
      )
  | inr (i, e) ↦
      let h = cap_get-Has id s i e in
      let (marked, fewer) = mark_revoked-Shrinks s id i v h in
      let v2 = Shrinks-IsValid marked v in
      let p = (cap_at s i).parent in
      let (t, up, r) =
        release_parent-Released fuel p (mark_revoked s id i)
          (release_fuel-Released fuel p (mark_revoked s id i) (omega (arith, fewer)) v2.older) in
      let (u, down, q) =
        cascade-Cascaded fuel (revoke_fuel fuel) id (length t.table) 0 t (revoke_fuel-Revoked fuel)
          (Shrinks-IsValid r.0 v2) (omega (arith, fewer, r.0.fewer))
          (Shrinks-NoToken r.0 (mark_revoked-NoToken s id i v h)) (omega arith) in
      (
        (true, u),
        rw (e, up, down, revoke_fuel) refl,
        Revoked-from s id i v h fuel t u (omega (arith, fewer)) up r q,
        (λ w. absurd (cc), λ n. absurd (n i h.is_live h.same_id)),
      )
]

-- In a valid table `cap_revoke` ends within its fuel, keeps the invariant, leaves no live slot
-- with the token, and answers false exactly when no live slot held it.
pub cap_revoke_lem :
    (id : ℕ) (s : Caps)
    → IsValid s
    → (revoke_fuel (fuel_of s) id s ≡ some (cap_revoke id s))
      × IsValid (cap_revoke id s).1
      × NoToken id (cap_revoke id s).1
      × (((cap_revoke id s).0 ≡ false) ↔ NoToken id s)
unfolding cap_revoke
cap_revoke_lem id s v =
    let (r, run, q, answer) = revoke_fuel-Revoked (fuel_of s) id s v (omega arith) in
    rw run (refl, Shrinks-IsValid q.shrinks v, q.gone, answer)

-- The live slots whose chain of parents leads to the token.
pub data Descends (s : Caps) (id : ℕ) : ℕ → Type 0 where
  child : {j : ℕ} → (cap_at s j).valid ≡ true → (cap_at s j).parent ≡ id → Descends s id j
  grandchild :
      {j : ℕ} (k : ℕ)
      → Descends s id k
      → (cap_at s j).valid ≡ true
      → (cap_at s j).parent ≡ (cap_at s k).id
      → Descends s id j

Descends-live : {s : Caps} {id j : ℕ} → Descends s id j → (cap_at s j).valid ≡ true
Descends-live (child l e) = l
Descends-live (grandchild k d l e) = l

Descends-younger : {s : Caps} {id j : ℕ} → IsValid s → Descends s id j → id < (cap_at s j).id
Descends-younger v (child {j} l e) = omega (arith, v.older j l)
Descends-younger v (grandchild {j} k d l e) = omega (arith, v.older j l, Descends-younger v d)

descendants_dead :
    {s u : Caps} {id j : ℕ} (i : ℕ)
    → IsValid s
    → Has id s i
    → Revoked id s u
    → Descends s id j
    → (cap_at u j).valid ≡ false
descendants_dead {u} i v h r (child {j} l e) = elim (Bool-cases (cap_at u j).valid) [
  | inl live ↦
      let k = r.shrinks.keeps j live in
      elim (Bool-cases (cap_at u i).valid) [
        | inl still ↦ absurd (r.gone i still ((r.shrinks.keeps i still).same_id ∙ h.same_id))
        | inr dead ↦ absurd (
            r.closed j i live h.is_live dead (omega (arith, h.same_id))
              (k.same_parent ∙ e ∙ sym h.same_id))
      ]
  | inr dead ↦ dead
]
descendants_dead {u} i v h r (grandchild {j} k d l e) = elim (Bool-cases (cap_at u j).valid) [
  | inl live ↦ absurd (
      r.closed j k live (Descends-live d) (descendants_dead i v h r d)
        (omega (arith, Descends-younger v d)) ((r.shrinks.keeps j live).same_parent ∙ e))
  | inr dead ↦ dead
]

-- In a valid table, revoking a live token leaves no live capability among those that were derived
-- from it, directly or through others that are live when it is revoked.
pub cap_revoke-Descends :
    (id i j : ℕ) (s : Caps)
    → IsValid s
    → cap_get id s ≡ some i
    → Descends s id j
    → (cap_at (cap_revoke id s).1 j).valid ≡ false
unfolding cap_revoke
cap_revoke-Descends id i j s v found d =
    let (r, run, q, _) = revoke_fuel-Revoked (fuel_of s) id s v (omega arith) in
    rw run (descendants_dead i v (cap_get-Has id s i found) q d)
