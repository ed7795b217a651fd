-- ===== src/Cap/Release.antt =====
-- kernel/cap.c: `cap_release`, up the chain of parents.
use new_os.Base.{
  ℕ, zero, suc, ◌+◌, ◌-◌, ◌<◌, ◌≡◌, ◌∙◌, refl, ap, Option, some, true, false, arith, length,
  Bool-cases, Option-cases, ◌==◌, inl, inr, dec32, ltb, if◌then◌else◌,
}
use new_os.Base.Find.{count, count-set}
use new_os.Cap.{
  Cap, Caps, cap_at, put, cap_get, release_fuel, cap_release, is_valid, fuel_of, null_cap,
}
use new_os.Cap.Slots.{Has, cap_get-Has, at-put}
use new_os.Cap.Invariant.{
  IsValid, Shrinks, Shrinks-refl, Shrinks-put, Shrinks-kill, Shrinks-IsValid,
}

-- Live slots with a token above `id` are as they were.
abbrev pub Spares : ℕ → Caps → Caps → Type 0
Spares id s s' =
    (j : ℕ) → (cap_at s j).valid ≡ true → id < (cap_at s j).id → cap_at s' j ≡ cap_at s j

-- A parent's token is older than its child's.
abbrev pub Older : Caps → Type 0
Older s = (i : ℕ) → (cap_at s i).valid ≡ true → (cap_at s i).parent < (cap_at s i).id

pub Shrinks-Older : {s s' : Caps} → Shrinks s s' → Older s → Older s'
Shrinks-Older p o i l =
    let k = p.keeps i l in omega (arith, o i k.was_live, k.same_id, k.same_parent)

-- What a release that ends has done.
abbrev pub Released : ℕ → Caps → Caps → Type 0
Released id s s' = Shrinks s s' × Spares id s s'

-- Slot `i` after `ref_count--`, and after the last reference is gone.
abbrev unref : Caps → ℕ → Caps
unref s i = let c = cap_at s i in put s i (record c { ref_count = c.ref_count - 1 })

abbrev freed_cap : Cap → Cap
freed_cap c = record c { ref_count = 0; valid = false; object = 0 }

put-Spares :
    (s : Caps) (i : ℕ) (c : Cap) → i < length s.table → Spares (cap_at s i).id s (put s i c)
put-Spares s i c h j l lt = elim (at-put s i j c h) [
  | inl (e, _) ↦ absurd (omega (arith, ap (λ (k : ℕ). (cap_at s k).id) e))
  | inr (_, f) ↦ f
]

unref-Released : (s : Caps) (id i : ℕ) → Has id s i → Released id s (unref s i)
unref-Released s id i h = (
  Shrinks-put s i _ h.in_range
      (λ l. record { was_live = l; same_id = refl; same_parent = refl; same_rights = refl }) refl,
  rw (← h.same_id) (put-Spares s i _ h.in_range),
)

-- The last reference: the slot is freed, and the release goes on at its parent.
freed-Released :
    (s : Caps) (id i : ℕ) (t : Caps)
    → Has id s i
    → Older s
    → Released (cap_at s i).parent (put s i (freed_cap (cap_at s i))) t
    → Released id s (record t { active_count = dec32 t.active_count })
freed-Released s id i t h o r = (
  (Shrinks-kill s i (freed_cap (cap_at s i)) t _ h.in_range h.is_live refl r.0 refl refl refl).0,
  λ j l lt.
      let young : (cap_at s i).id < (cap_at s j).id = omega (arith, h.same_id) in
      let e = put-Spares s i (freed_cap (cap_at s i)) h.in_range j l young in
      r.1 j (ap (λ (c : Cap). c.valid) e ∙ l)
        (omega (arith, o i h.is_live, ap (λ (c : Cap). c.id) e))
      ∙ e,
)

dead-Older :
    (s : Caps) (i : ℕ) (c : Cap)
    → i < length s.table
    → c.valid ≡ false
    → Older s
    → Older (put s i c)
dead-Older s i c h d o j l = elim (at-put s i j c h) [
  | inl (_, f) ↦ absurd (cc (ap (λ (x : Cap). x.valid) f))
  | inr (_, f) ↦ rw f (o j (rw f at l))
]

count-dead :
    (s : Caps) (id i : ℕ) (c : Cap)
    → Has id s i
    → c.valid ≡ false
    → count is_valid (put s i c).table + 1 ≡ count is_valid s.table
count-dead s id i c h d =
    let live = h.is_live in ground (arith, count-set is_valid s.table i c null_cap h.in_range)

-- The step to the parent, if there is one.
abbrev pub release_parent : ℕ → ℕ → Caps → Option Caps
release_parent fuel p u = if p == 0 then some u else release_fuel fuel p u

pub release_parent-Released :
    (fuel p : ℕ) (u : Caps)
    → (t : Caps) × (release_fuel fuel p u ≡ some t) × Released p u t
    → (t : Caps) × (release_parent fuel p u ≡ some t) × Released p u t
release_parent-Released fuel p u ih = elim (Bool-cases (p == 0)) [
  | inl e ↦ (u, rw e refl, (Shrinks-refl u, λ j l lt. refl))
  | inr e ↦ rw e ih
]

-- With more fuel than live slots a release ends.
pub release_fuel-Released :
    (fuel id : ℕ) (s : Caps)
    → count is_valid s.table < fuel
    → Older s
    → (s' : Caps) × (release_fuel fuel id s ≡ some s') × Released id s s'
unfolding release_fuel
release_fuel-Released zero id s f o = absurd (omega arith)
release_fuel-Released (suc fuel) id s f o = elim (Option-cases (cap_get id s)) [
  | inl e ↦ (s, rw (e, release_fuel) refl, (Shrinks-refl s, λ j l lt. refl))
  | inr (i, e) ↦
      let h = cap_get-Has id s i e in
      let c = cap_at s i in
      let u = put s i (freed_cap c) in
      elim (Bool-cases (ltb 1 c.ref_count)) [
        | inl more ↦ (unref s i, rw (e, more, release_fuel) refl, unref-Released s id i h)
        | inr last ↦
            let (t, run, r) = release_parent-Released fuel c.parent u (
              release_fuel-Released fuel c.parent u
                (omega (arith, count-dead s id i (freed_cap c) h refl))
                (dead-Older s i (freed_cap c) h.in_range refl o)) in
            (
              record t { active_count = dec32 t.active_count },
              rw (e, last, run, release_fuel) refl,
              freed-Released s id i t h o r,
            )
      ]
]

-- In a valid table `cap_release` ends within its fuel and keeps the invariant; no slot comes to
-- life and no capability younger than the token changes.
pub cap_release_lem :
    (id : ℕ) (s : Caps)
    → IsValid s
    → (release_fuel (fuel_of s) id s ≡ some (cap_release id s))
      × Released id s (cap_release id s)
      × IsValid (cap_release id s)
unfolding cap_release
cap_release_lem id s v =
    let (t, run, r) = release_fuel-Released (fuel_of s) id s (omega arith) v.older in
    rw run (refl, r, Shrinks-IsValid r.0 v)
