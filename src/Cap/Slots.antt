-- ===== src/Cap/Slots.antt =====
-- kernel/cap.c: what the lookups of the capability table say of the slot that they find.
use new_os.Base.{
  ℕ, zero, suc, ◌<◌, ◌≡◌, ◌≢◌, none, some, true, false, arith, length, get_or, List, [], ◌∷◌, ◌⊎◌,
  inl, inr, get_or-set_self, get_or-set_ne, ℕ_discrete,
}
use new_os.Base.Find.{find_index-Found, find_index-none}
use new_os.Cap.{Cap, Caps, cap_at, put, cap_get, alloc_slot, null_cap, has_id, is_invalid}

-- The slot of a capability that `cap_get` finds.
pub record Has (id : ℕ) (s : Caps) (i : ℕ) : Type 0 where
  pub in_range : i < length s.table
  pub is_live : (cap_at s i).valid ≡ true
  pub same_id : (cap_at s i).id ≡ id
  pub id_ne_zero : id ≢ 0

pub cap_get-Has : (id : ℕ) (s : Caps) (i : ℕ) → cap_get id s ≡ some i → Has id s i
unfolding cap_get
cap_get-Has id s i h = elim (ℕ_discrete id 0) [
  | yes e ↦ absurd (ground arith)
  | no ne ↦
      let f = find_index-Found (has_id id) s.table null_cap i (ground arith) in
      let p = f.passes in
      record {
        in_range = f.in_range;
        is_live = ground arith;
        same_id = ground arith;
        id_ne_zero = ne;
      }
]

pub cap_get-none :
    (id : ℕ) (s : Caps) (i : ℕ)
    → cap_get id s ≡ none
    → id ≢ 0
    → (cap_at s i).valid ≡ true
    → (cap_at s i).id ≢ id
unfolding cap_get
cap_get-none id s i h ne l = ground (arith, find_index-none (has_id id) s.table null_cap i)

-- A slot that `_alloc_slot` finds is in range and free.
pub alloc_slot-free :
    (s : Caps) (i : ℕ) → alloc_slot s ≡ some i → (i < length s.table) × ((cap_at s i).valid ≡ false)
unfolding alloc_slot
alloc_slot-free s i h =
    let f = find_index-Found is_invalid s.table null_cap i h in
    let p = f.passes in (f.in_range, ground arith)

-- A live slot stands inside of the table.
pub live_in_range : (s : Caps) (i : ℕ) → (cap_at s i).valid ≡ true → i < length s.table
live_in_range s i h = go s.table i h
  where
    go : (t : List Cap) (i : ℕ) → (get_or t i null_cap).valid ≡ true → i < length t
    go [] i h = absurd (cc)
    go (x ∷ t) zero h = omega arith
    go (x ∷ t) (suc i) h = omega (arith, go t i h)

-- Reading after a write.
pub at-put :
    (s : Caps) (i j : ℕ) (c : Cap)
    → i < length s.table
    → ((i ≡ j) × (cap_at (put s i c) j ≡ c)) ⊎ ((i ≢ j) × (cap_at (put s i c) j ≡ cap_at s j))
at-put s i j c h = elim (ℕ_discrete i j) [
  | yes e ↦ inl (e, rw (← e) (get_or-set_self s.table i c null_cap h))
  | no ne ↦ inr (ne, get_or-set_ne s.table i j c null_cap ne)
]
