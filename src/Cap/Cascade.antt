-- ===== src/Cap/Cascade.antt =====
-- kernel/cap.c: the loop of `cap_revoke` over the children of the revoked capability.
use new_os.Base.{
  ℕ, zero, suc, ◌+◌, ◌<◌, ◌≤◌, ◌≡◌, ◌≢◌, ◌↔◌, ◌∙◌, refl, sym, ap, Option, some, Bool, true, false,
  arith, length, ℕ_discrete, dec_lt, Bool-cases, ◌==◌, inl, inr, ◌&&◌,
}
use new_os.Base.Find.{count}
use new_os.Cap.{Caps, cap_at, cascade, is_valid}
use new_os.Cap.Slots.{live_in_range}
use new_os.Cap.Invariant.{IsValid, Shrinks, Shrinks-refl, Shrinks-trans, Shrinks-IsValid}

-- No live slot holds the token.
abbrev pub NoToken : ℕ → Caps → Type 0
NoToken id s = (j : ℕ) → (cap_at s j).valid ≡ true → (cap_at s j).id ≢ id

pub Shrinks-NoToken : {s s' : Caps} {id : ℕ} → Shrinks s s' → NoToken id s → NoToken id s'
Shrinks-NoToken p n j l e = let k = p.keeps j l in n j k.was_live (sym k.same_id ∙ e)

-- What a revocation that ends has done. `closed`: from the token on, nothing that was live and is dead
-- has a live child. `below`: if its parent is gone, older tokens stay.
pub record Revoked (id : ℕ) (s s' : Caps) : Type 0 where
  pub shrinks : Shrinks s s'
  pub gone : NoToken id s'
  pub closed :
      (j k : ℕ)
      → (cap_at s' j).valid ≡ true
      → (cap_at s k).valid ≡ true
      → (cap_at s' k).valid ≡ false
      → id ≤ (cap_at s k).id
      → (cap_at s' j).parent ≢ (cap_at s k).id
  pub below :
      (i j : ℕ)
      → (cap_at s i).valid ≡ true
      → (cap_at s i).id ≡ id
      → NoToken (cap_at s i).parent s
      → (cap_at s j).valid ≡ true
      → (cap_at s j).id < id
      → (cap_at s' j).valid ≡ true

-- What the loop over the children from slot `i` on has done.
pub record Cascaded (id i : ℕ) (s s' : Caps) : Type 0 where
  pub shrinks : Shrinks s s'
  pub childless : (j : ℕ) → i ≤ j → (cap_at s' j).valid ≡ true → (cap_at s' j).parent ≢ id
  pub closed :
      (j k : ℕ)
      → (cap_at s' j).valid ≡ true
      → (cap_at s k).valid ≡ true
      → (cap_at s' k).valid ≡ false
      → id < (cap_at s k).id
      → (cap_at s' j).parent ≢ (cap_at s k).id
  pub below :
      (j : ℕ) → (cap_at s j).valid ≡ true → (cap_at s j).id < id → (cap_at s' j).valid ≡ true

-- The recursive call, on tables with fewer live slots than the fuel.
abbrev pub Ends : ℕ → (ℕ → Caps → Option (Bool × Caps)) → Type 0
Ends fuel rev =
    (id : ℕ) (s : Caps)
    → IsValid s
    → count is_valid s.table < fuel
    → (r : Bool × Caps) × (rev id s ≡ some r) × Revoked id s r.1 × ((r.0 ≡ false) ↔ NoToken id s)

-- One round that revokes the child in slot `i`.
cascade_child :
    (id i : ℕ) (s t u : Caps)
    → IsValid s
    → NoToken id s
    → (cap_at s i).valid ≡ true
    → (cap_at s i).parent ≡ id
    → Revoked (cap_at s i).id s t
    → Cascaded id (i + 1) t u
    → Cascaded id i s u
cascade_child id i s t u v n l p r q =
    let older = v.older i l in
    let stays = λ (j : ℕ) (m : (cap_at s j).valid ≡ true) (lt : (cap_at s j).id < (cap_at s i).id).
      r.below i j l refl (rw p n) m lt in
    record {
      shrinks = Shrinks-trans r.shrinks q.shrinks;
      childless = λ j le m. elim (ℕ_discrete i j) [
        | yes e ↦
            let k = q.shrinks.keeps j m in
            let k' = r.shrinks.keeps j k.was_live in
            absurd (r.gone j k.was_live (k'.same_id ∙ ap (λ (x : ℕ). (cap_at s x).id) (sym e)))
        | no ne ↦ q.childless j (omega arith) m
      ];
      closed = λ j k m live dead lt. elim (Bool-cases (cap_at t k).valid) [
        | inl still ↦
            let same = (r.shrinks.keeps k still).same_id in
            rw same at (q.closed j k m still dead (rw same lt))
        | inr killed ↦ elim (dec_lt (cap_at s k).id (cap_at s i).id) [
          | yes young ↦ absurd (cc (stays k live young))
          | no old ↦
              let kj = q.shrinks.keeps j m in
              rw kj.same_parent (r.closed j k kj.was_live live killed (omega arith))
        ]
      ];
      below = λ j m lt.
          let still = stays j m (omega arith) in
          let same = (r.shrinks.keeps j still).same_id in q.below j still (rw same lt);
    }

-- One round that leaves slot `i`, which is no live child.
cascade_other :
    (id i : ℕ) (s u : Caps)
    → ((cap_at s i).valid && (cap_at s i).parent == id) ≡ false
    → Cascaded id (i + 1) s u
    → Cascaded id i s u
cascade_other id i s u e q = record {
  shrinks = q.shrinks;
  childless = λ j le m. elim (ℕ_discrete i j) [
    | yes ij ↦ λ p.
        let k = q.shrinks.keeps j m in
        let live = ap (λ (x : ℕ). (cap_at s x).valid) ij ∙ k.was_live in
        let par = ap (λ (x : ℕ). (cap_at s x).parent) ij ∙ sym k.same_parent ∙ p in ground arith
    | no ne ↦ q.childless j (omega arith) m
  ];
  closed = q.closed;
  below = q.below;
}

pub cascade-Cascaded :
    (fuel : ℕ) (rev : ℕ → Caps → Option (Bool × Caps)) (id rounds i : ℕ) (s : Caps)
    → Ends fuel rev
    → IsValid s
    → count is_valid s.table < fuel
    → NoToken id s
    → i + rounds ≡ length s.table
    → (s' : Caps) × (cascade rev id rounds i s ≡ some s') × Cascaded id i s s'
unfolding cascade
cascade-Cascaded fuel rev id zero i s r v f n e = (
  s,
  refl,
  record {
    shrinks = Shrinks-refl s;
    childless = λ j le m. absurd (omega (arith, live_in_range s j m));
    closed = λ j k m l d. absurd (cc);
    below = λ j m lt. m;
  },
)
cascade-Cascaded fuel rev id (suc rounds) i s r v f n e =
    let c = cap_at s i in
    elim (Bool-cases (c.valid && c.parent == id)) [
      | inl child ↦
          let ((b, t), run, q, _) = r c.id s v f in
          let (u, go, w) =
            cascade-Cascaded fuel rev id rounds (i + 1) t r (Shrinks-IsValid q.shrinks v)
              (omega (arith, q.shrinks.fewer)) (Shrinks-NoToken q.shrinks n)
              (omega (arith, q.shrinks.same_length)) in
          (u, rw (child, run) go, cascade_child id i s t u v n (ground arith) (ground arith) q w)
      | inr other ↦
          let (u, go, w) = cascade-Cascaded fuel rev id rounds (i + 1) s r v f n (omega arith) in
          (u, rw other go, cascade_other id i s u other w)
    ]
