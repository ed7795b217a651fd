-- ===== src/Cap/Invariant.antt =====
-- kernel/cap.c: the invariant of the capability table, and how a table may shrink.
use new_os.Base.{
  ℕ, ◌+◌, ◌%◌, ◌^◌, ◌<◌, ◌≤◌, ◌≡◌, ◌∙◌, refl, sym, ap, true, false, arith, length, get_or, inl, inr,
  length-set, dec32, ◌≢◌, zero, suc, replicate, length-replicate, get_or-replicate,
}
use new_os.Base.Find.{count, count-set, count-le-length}
use new_os.Secmon.{Secmon}
use new_os.Cap.{Cap, Caps, cap_at, put, null_cap, is_valid, cap_table_init}
use new_os.Cap.Slots.{at-put}

-- The live slots hold distinct tokens below the next one; a parent's token is older than its child's;
-- the count of active capabilities is that of the live slots.
pub record IsValid (s : Caps) : Type 0 where
  pub small : length s.table < 2 ^ 32
  pub counted : s.active_count ≡ count is_valid s.table
  pub next_pos : 0 < s.next_id
  pub next_small : s.next_id < 2 ^ 32
  pub id_pos : (i : ℕ) → (cap_at s i).valid ≡ true → 0 < (cap_at s i).id
  pub fresh : (i : ℕ) → (cap_at s i).valid ≡ true → (cap_at s i).id < s.next_id
  pub older : (i : ℕ) → (cap_at s i).valid ≡ true → (cap_at s i).parent < (cap_at s i).id
  pub masks : (i : ℕ) → (cap_at s i).valid ≡ true → (cap_at s i).rights < 2 ^ 32
  pub unique :
      (i j : ℕ)
      → (cap_at s i).valid ≡ true
      → (cap_at s j).valid ≡ true
      → (cap_at s i).id ≡ (cap_at s j).id
      → i ≡ j

-- What survives of a slot `c` in `c'`: a live slot was live, with the same token, parent and rights.
pub record Keeps (c c' : Cap) : Type 0 where
  pub was_live : c.valid ≡ true
  pub same_id : c'.id ≡ c.id
  pub same_parent : c'.parent ≡ c.parent
  pub same_rights : c'.rights ≡ c.rights

-- No slot comes to life, and the count of active capabilities moves with the live slots.
pub record Shrinks (s s' : Caps) : Type 0 where
  pub same_length : length s'.table ≡ length s.table
  pub same_next : s'.next_id ≡ s.next_id
  pub keeps : (j : ℕ) → (cap_at s' j).valid ≡ true → Keeps (cap_at s j) (cap_at s' j)
  pub fewer : count is_valid s'.table ≤ count is_valid s.table
  pub in_word : s.active_count < 2 ^ 32 → s'.active_count < 2 ^ 32
  pub balance :
      (s'.active_count + count is_valid s.table) % 2 ^ 32
      ≡ (s.active_count + count is_valid s'.table) % 2 ^ 32

pub Shrinks-refl : (s : Caps) → Shrinks s s
Shrinks-refl s = record {
  same_length = refl;
  same_next = refl;
  keeps = λ j l. record { was_live = l; same_id = refl; same_parent = refl; same_rights = refl };
  fewer = omega arith;
  in_word = λ h. h;
  balance = refl;
}

pub Shrinks-trans : {s t u : Caps} → Shrinks s t → Shrinks t u → Shrinks s u
Shrinks-trans p q = record {
  same_length = q.same_length ∙ p.same_length;
  same_next = q.same_next ∙ p.same_next;
  keeps = λ j l.
      let k = q.keeps j l in
      let m = p.keeps j k.was_live in
      record {
        was_live = m.was_live;
        same_id = k.same_id ∙ m.same_id;
        same_parent = k.same_parent ∙ m.same_parent;
        same_rights = k.same_rights ∙ m.same_rights;
      };
  fewer = omega (arith, p.fewer, q.fewer);
  in_word = λ h. q.in_word (p.in_word h);
  balance = omega (arith, p.balance, q.balance);
}

-- A table that shrinks keeps the invariant.
pub Shrinks-IsValid : {s s' : Caps} → Shrinks s s' → IsValid s → IsValid s'
Shrinks-IsValid {s} {s'} p v = record {
  small = omega (arith, v.small, p.same_length);
  counted = omega (
    arith,
    p.balance,
    v.counted,
    v.small,
    p.fewer,
    p.in_word (omega (arith, v.counted, v.small, count-le-length is_valid s.table)),
    count-le-length is_valid s.table,
  );
  next_pos = omega (arith, v.next_pos, p.same_next);
  next_small = omega (arith, v.next_small, p.same_next);
  id_pos = λ i l. let k = p.keeps i l in omega (arith, v.id_pos i k.was_live, k.same_id);
  fresh = λ i l. let k = p.keeps i l in omega (arith, v.fresh i k.was_live, k.same_id, p.same_next);
  older =
      λ i l. let k = p.keeps i l in omega (arith, v.older i k.was_live, k.same_id, k.same_parent);
  masks = λ i l. let k = p.keeps i l in omega (arith, v.masks i k.was_live, k.same_rights);
  unique = λ i j l m e.
      let k = p.keeps i l in
      let k' = p.keeps j m in v.unique i j k.was_live k'.was_live (sym k.same_id ∙ e ∙ k'.same_id);
}

-- Overwriting one slot by one that is not live, and counting it off or not.
pub Shrinks-put :
    (s : Caps) (i : ℕ) (c : Cap)
    → i < length s.table
    → (c.valid ≡ true → Keeps (cap_at s i) c)
    → (c.valid ≡ (cap_at s i).valid)
    → Shrinks s (put s i c)
Shrinks-put s i c h k e = record {
  same_length = length-set s.table i c;
  same_next = refl;
  keeps = λ j l. elim (at-put s i j c h) [
    | inl (e, f) ↦ rw (f, ← e) (k (rw f at l))
    | inr (ne, f) ↦
        rw f
          (record { was_live = rw f at l; same_id = refl; same_parent = refl; same_rights = refl })
  ];
  fewer = ground (arith, count-set is_valid s.table i c null_cap);
  in_word = λ h. h;
  balance = ground (arith, count-set is_valid s.table i c null_cap);
}

-- Killing a live slot, and counting it off after the table has shrunk further.
pub Shrinks-kill :
    (s : Caps) (i : ℕ) (c : Cap) (t s' : Caps)
    → i < length s.table
    → (cap_at s i).valid ≡ true
    → c.valid ≡ false
    → Shrinks (put s i c) t
    → s'.table ≡ t.table
    → s'.next_id ≡ t.next_id
    → s'.active_count ≡ dec32 t.active_count
    → Shrinks s s' × (count is_valid s'.table < count is_valid s.table)
Shrinks-kill s i c t s' h live dead p e n a = (
  record {
    same_length = ap length e ∙ p.same_length ∙ length-set s.table i c;
    same_next = n ∙ p.same_next;
    keeps = λ j l.
        let k = p.keeps j (rw e at l) in
        elim (at-put s i j c h) [
          | inl (_, f) ↦ absurd (cc (ap (λ (x : Cap). x.valid) f, k.was_live))
          | inr (_, f) ↦ rw (e, ← f) k
        ];
    fewer = omega (arith, fewer);
    in_word = λ h. omega (arith, a);
    balance = omega (arith, counted, p.balance, a, ap (count is_valid) e);
  },
  fewer,
)
  where
    counted : count is_valid (put s i c).table + 1 ≡ count is_valid s.table
    counted = ground (arith, count-set is_valid s.table i c null_cap)

    fewer : count is_valid s'.table < count is_valid s.table
    fewer = omega (arith, counted, p.fewer, ap (count is_valid) e)

-- A table of free slots.
abbrev pub free_table : ℕ → Secmon → Caps
free_table n l = record { table = replicate n null_cap; next_id = 1; active_count = 0; log = l }

count_free : (n : ℕ) → count is_valid (replicate n null_cap) ≡ 0
unfolding count
count_free zero = refl
count_free (suc n) = count_free n

no_live_slot : (n i : ℕ) → (get_or (replicate n null_cap) i null_cap).valid ≢ true
no_live_slot n i m = cc (ap (λ (c : Cap). c.valid) (get_or-replicate n i null_cap), m)

pub free_table-IsValid : (n : ℕ) (l : Secmon) → n < 2 ^ 32 → IsValid (free_table n l)
free_table-IsValid n l h =
    let no_live = no_live_slot n in
    record {
      small = omega (arith, length-replicate n null_cap);
      counted = sym (count_free n);
      next_pos = omega arith;
      next_small = omega arith;
      id_pos = λ i m. absurd (no_live i m);
      fresh = λ i m. absurd (no_live i m);
      older = λ i m. absurd (no_live i m);
      masks = λ i m. absurd (no_live i m);
      unique = λ i j m k e. absurd (no_live i m);
    }

-- `cap_table_init` establishes the invariant.
pub cap_table_init-IsValid : (s : Caps) → IsValid (cap_table_init s)
unfolding cap_table_init
cap_table_init-IsValid s = free_table-IsValid 4096 s.log (omega arith)
