-- ===== src/Cap/Child.antt =====
-- kernel/cap.c: `cap_addref`, and the slot that `cap_derive` fills once its checks have passed.
use new_os.Base.{
  ℕ, ◌+◌, ◌^◌, ◌<◌, ◌≡◌, ◌≢◌, ◌∙◌, refl, sym, ap, none, some, true, arith, length, List, set, ◌⊎◌,
  get_or-set_self, get_or-set_ne, length-set, Option-cases, ◌==◌, inl, inr, inc32, if◌then◌else◌,
}
use new_os.Base.Find.{find_index}
use new_os.Secmon.{Secmon}
use new_os.Cap.{
  Cap, Caps, cap_at, put, cap_get, cap_addref, derive_from, alloc_slot, after_id, null_cap, has_id,
}
use new_os.Cap.Slots.{Has, cap_get-Has, alloc_slot-free}
use new_os.Cap.Invariant.{IsValid, Shrinks-put, Shrinks-IsValid}
use new_os.Cap.Cascade.{NoToken}
use new_os.Cap.Create.{cap_get-of_Has, insert-IsValid}

-- The audit log is no part of the invariant.
pub log-IsValid : (s : Caps) (l : Secmon) → IsValid s → IsValid (record s { log = l })
log-IsValid s l v = record {
  small = v.small;
  counted = v.counted;
  next_pos = v.next_pos;
  next_small = v.next_small;
  id_pos = v.id_pos;
  fresh = v.fresh;
  older = v.older;
  masks = v.masks;
  unique = v.unique;
}

-- A live slot rewritten with the same token, parent and rights.
pub touch-IsValid :
    (s : Caps) (i : ℕ) (c : Cap)
    → IsValid s
    → i < length s.table
    → (cap_at s i).valid ≡ true
    → c.valid ≡ true
    → c.id ≡ (cap_at s i).id
    → c.parent ≡ (cap_at s i).parent
    → c.rights ≡ (cap_at s i).rights
    → IsValid (put s i c)
touch-IsValid s i c v h live l id par rights =
    Shrinks-IsValid
      (Shrinks-put s i c h
        (λ _. record { was_live = live; same_id = id; same_parent = par; same_rights = rights })
        (l ∙ sym live))
      v

pub cap_addref-IsValid : (id : ℕ) (s : Caps) → IsValid s → IsValid (cap_addref id s)
unfolding cap_addref
cap_addref-IsValid id s v = elim (Option-cases (cap_get id s)) [
  | inl e ↦ rw (e, cap_addref) v
  | inr (i, e) ↦
      let h = cap_get-Has id s i e in
      rw (e, cap_addref) (touch-IsValid s i _ v h.in_range h.is_live h.is_live refl refl refl)
]

-- What `cap_derive` promises of its parent `p`, reading the new table `s'`: the new token is fresh, its
-- slot is a live child of the parent's, of the same type, object and owner, with the reduced rights.
pub record Derived (parent_id reduced : ℕ) (p : Cap) (s : Caps) (id : ℕ) (s' : Caps) : Type 0 where
  pub fresh : NoToken id s
  pub next : id ≡ s.next_id
  pub slot : ℕ
  pub found : cap_get id s' ≡ some slot
  pub is_child : (cap_at s' slot).parent ≡ parent_id
  pub same_type : (cap_at s' slot).type ≡ p.type
  pub same_object : (cap_at s' slot).object ≡ p.object
  pub same_owner : (cap_at s' slot).owner_tid ≡ p.owner_tid
  pub rights : (cap_at s' slot).rights ≡ reduced

-- `cap_get` reads the table alone.
cap_get-table : (id : ℕ) (s t : Caps) → s.table ≡ t.table → cap_get id s ≡ cap_get id t
unfolding cap_get
cap_get-table id s t e = ap (λ (x : List Cap). if id == 0 then none else find_index (has_id id) x) e

-- The new slot of a derivation, and the table with it, before the parent's count goes up.
abbrev child_of : ℕ → Cap → ℕ → Caps → Cap
child_of parent_id p reduced s = record {
  id = s.next_id;
  type = p.type;
  rights = reduced;
  object = p.object;
  parent = parent_id;
  ref_count = 1;
  owner_tid = p.owner_tid;
  valid = true;
}

module _ (parent_id k reduced i : ℕ) (s : Caps) (v : IsValid s) (h : Has parent_id s k)
    (mask : reduced < 2 ^ 32) (small : s.next_id + 1 < 2 ^ 32) (e : alloc_slot s ≡ some i) where
  abbrev pub p : Cap
  p = cap_at s k

  abbrev c : Cap
  c = child_of parent_id p reduced s

  abbrev s0 : Caps
  s0 = record s { table = set s.table i c; next_id = after_id s.next_id }

  abbrev s1 : Caps
  s1 = record s0 { active_count = inc32 s.active_count }

  i_ne_k : i ≢ k
  i_ne_k ik = cc (ap (λ (x : ℕ). (cap_at s x).valid) ik, (alloc_slot-free s i e).1, h.is_live)

  s1-IsValid : IsValid s1
  s1-IsValid =
      let (free_range, free) = alloc_slot-free s i e in
      insert-IsValid s i c s.log v free_range free small refl refl
        (omega (arith, v.fresh k h.is_live, h.same_id)) mask

  parent_at : cap_at s1 k ≡ p
  parent_at = get_or-set_ne s.table i k c null_cap i_ne_k

  parent-Has : Has parent_id s1 k
  parent-Has = record {
    in_range = omega (arith, h.in_range, length-set s.table i c);
    is_live = ap (λ (x : Cap). x.valid) parent_at ∙ h.is_live;
    same_id = ap (λ (x : Cap). x.id) parent_at ∙ h.same_id;
    id_ne_zero = h.id_ne_zero;
  }

  abbrev bumped : Cap
  bumped = let q = cap_at s0 k in record q { ref_count = inc32 q.ref_count }

  addref_parent : cap_addref parent_id s0 ≡ put s0 k bumped
  unfolding cap_addref
  addref_parent =
      let g =
        cap_get-table parent_id s0 s1 refl ∙ cap_get-of_Has parent_id s1 k s1-IsValid parent-Has in
      rw (g, cap_addref) refl

  abbrev final : Secmon → Caps
  final l = record s1 { table = set s1.table k bumped; log = l }

  final-IsValid : (l : Secmon) → IsValid (final l)
  final-IsValid l = log-IsValid (put s1 k bumped) l (
      touch-IsValid s1 k bumped s1-IsValid parent-Has.in_range parent-Has.is_live parent-Has.is_live
        refl refl refl)

  final-Derived : (l : Secmon) → Derived parent_id reduced p s s.next_id (final l)
  final-Derived l =
      let (free_range, free) = alloc_slot-free s i e in
      let at : cap_at (final l) i ≡ c =
        get_or-set_ne s1.table k i bumped null_cap (λ ki. i_ne_k (sym ki))
        ∙ get_or-set_self s.table i c null_cap free_range in
      record {
        fresh = λ j m x. omega (arith, v.fresh j m, x);
        next = refl;
        slot = i;
        found = cap_get-of_Has s.next_id (final l) i (final-IsValid l) (record {
          in_range =
              omega (arith, length-set s1.table k bumped, length-set s.table i c, free_range);
          is_live = ap (λ (x : Cap). x.valid) at;
          same_id = ap (λ (x : Cap). x.id) at;
          id_ne_zero = λ z. omega (arith, v.next_pos);
        });
        is_child = ap (λ (x : Cap). x.parent) at;
        same_type = ap (λ (x : Cap). x.type) at;
        same_object = ap (λ (x : Cap). x.object) at;
        same_owner = ap (λ (x : Cap). x.owner_tid) at;
        rights = ap (λ (x : Cap). x.rights) at;
      }

  abbrev pub DeriveOutcome : ℕ × Caps → Type 0
  DeriveOutcome (id, s') =
      IsValid s' × ((id ≡ 0) × (s'.table ≡ s.table) ⊎ Derived parent_id reduced p s id s')

  pub derive_from_found : DeriveOutcome (derive_from parent_id p reduced s)
  unfolding derive_from
  derive_from_found = rw (e, addref_parent, derive_from) (final-IsValid _, inr (final-Derived _))
