-- ===== src/Cap.antt =====
-- kernel/cap.c and include/kernel/cap.h: the capability table. A `cap_t*` is the index of its slot,
-- `none` for NULL; `void* object` is an address, 0 for NULL. Rights are 32-bit masks.
-- The state holds the audit log of kernel/secmon.c, to which the operations write.
pub mod Slots
pub mod Create
pub mod Child
pub mod Derive
pub mod Transfer
pub mod Invariant
pub mod Release
pub mod Cascade
pub mod Revoke
mod Tests
use new_os.Base.{
  ℕ, zero, suc, ◌+◌, ◌-◌, ◌%◌, ◌^◌, List, length, Option, none, some, Bool, true, false, not, ◌&&◌,
  ◌==◌, ltb, if◌then◌else◌, set, get_or, replicate, inc32, dec32, bit_and, ◌>>=◌, map,
}
use new_os.Base.Find.{find_index, count}
use new_os.Base.Bits.{bit_not}
use new_os.Secmon.{Secmon, AuditEventType, CapType, cap_type_code, secmon_audit_cap}

-- cap_t
pub record Cap : Type 0 where
  pub id : ℕ
  pub type : CapType
  pub rights : ℕ
  pub object : ℕ
  pub parent : ℕ
  pub ref_count : ℕ
  pub owner_tid : ℕ
  pub valid : Bool

-- cap_table, cap_next_id and cap_active_count
pub record Caps : Type 0 where
  pub table : List Cap
  pub next_id : ℕ
  pub active_count : ℕ
  pub log : Secmon

abbrev pub right_read : ℕ
right_read = 0x01

abbrev pub right_write : ℕ
right_write = 0x02

abbrev pub right_grant : ℕ
right_grant = 0x10

abbrev pub right_manage : ℕ
right_manage = 0x40

abbrev pub cap_table_size : ℕ
cap_table_size = 4096

-- A slot of zero bytes.
abbrev pub null_cap : Cap
null_cap = record {
  id = 0;
  type = CapType.null;
  rights = 0;
  object = 0;
  parent = 0;
  ref_count = 0;
  owner_tid = 0;
  valid = false;
}

abbrev pub cap_at : Caps → ℕ → Cap
cap_at s i = get_or s.table i null_cap

abbrev pub put : Caps → ℕ → Cap → Caps
put s i c = record s { table = set s.table i c }

abbrev pub audit : AuditEventType → ℕ → ℕ → ℕ → ℕ → Caps → Caps
audit t actor c d0 d1 s = record s { log = secmon_audit_cap t actor c d0 d1 s.log }

abbrev pub is_invalid : Cap → Bool
is_invalid c = not c.valid

abbrev pub is_valid : Cap → Bool
is_valid c = c.valid

abbrev pub has_id : ℕ → Cap → Bool
has_id id c = c.valid && c.id == id

-- The `Caps` argument's log is the one that secmon_init set up.
unfoldable pub cap_table_init : Caps → Caps
cap_table_init s = record s {
  table = replicate cap_table_size null_cap;
  next_id = 1;
  active_count = 0;
}

unfoldable pub alloc_slot : Caps → Option ℕ
alloc_slot s = find_index is_invalid s.table

-- The value of `cap_next_id` after `_next_id`, which skips 0.
abbrev pub after_id : ℕ → ℕ
after_id n = if inc32 n == 0 then 1 else inc32 n

unfoldable pub cap_get : ℕ → Caps → Option ℕ
cap_get id s = if id == 0 then none else find_index (has_id id) s.table

unfoldable pub cap_check : ℕ → ℕ → Caps → Bool
cap_check id required s = elim (cap_get id s) [
  | none ↦ false
  | some i ↦ bit_and (cap_at s i).rights required == required
]

unfoldable pub cap_create : CapType → ℕ → ℕ → ℕ → Caps → ℕ × Caps
cap_create t rights object owner s = elim (alloc_slot s) [
  | none ↦ (0, s)
  | some i ↦ (
    s.next_id,
    audit AuditEventType.cap_create owner s.next_id (cap_type_code t) rights (record s {
      table = set s.table i (record {
        id = s.next_id;
        type = t;
        rights = rights;
        object = object;
        parent = 0;
        ref_count = 1;
        owner_tid = owner;
        valid = true;
      });
      next_id = after_id s.next_id;
      active_count = inc32 s.active_count;
    }),
  )
]

unfoldable pub cap_addref : ℕ → Caps → Caps
cap_addref id s = elim (cap_get id s) [
  | none ↦ s
  | some i ↦ let c = cap_at s i in put s i (record c { ref_count = inc32 c.ref_count })
]

-- The part of `cap_derive` behind its checks: `p` is `*parent`, which the new slot does not overlap.
unfoldable pub derive_from : ℕ → Cap → ℕ → Caps → ℕ × Caps
derive_from parent_id p reduced s = elim (alloc_slot s) [
  | none ↦ (0, s)
  | some i ↦
      let s1 = record s {
        table = set s.table i (record {
          id = s.next_id;
          type = p.type;
          rights = reduced;
          object = p.object;
          parent = parent_id;
          ref_count = 1;
          owner_tid = p.owner_tid;
          valid = true;
        });
        next_id = after_id s.next_id;
      } in
      let s2 = cap_addref parent_id s1 in
      (
        s.next_id,
        audit AuditEventType.cap_derive p.owner_tid s.next_id parent_id reduced
            (record s2 { active_count = inc32 s2.active_count }),
      )
]

unfoldable pub cap_derive : ℕ → ℕ → Caps → ℕ × Caps
cap_derive parent_id reduced s = elim (cap_get parent_id s) [
  | none ↦ (0, s)
  | some i ↦
      let p = cap_at s i in
      if not (bit_and reduced (bit_not 32 p.rights) == 0)
      then (0, audit AuditEventType.policy_deny p.owner_tid parent_id reduced 0 s)
      else if bit_and p.rights right_manage == 0
      then (0, s)
      else derive_from parent_id p reduced s
]

-- `cap_release` goes up the chain of parents. `none` means that the fuel ran out.
unfoldable pub release_fuel : ℕ → ℕ → Caps → Option Caps
release_fuel zero id s = none
release_fuel (suc fuel) id s = elim (cap_get id s) [
  | none ↦ some s
  | some i ↦
      let c = cap_at s i in
      let freed = put s i (record c { ref_count = 0; valid = false; object = 0 }) in
      let up = release_fuel fuel c.parent freed in
      if ltb 1 c.ref_count
      then some (put s i (record c { ref_count = c.ref_count - 1 }))
      else (if c.parent == 0 then some freed else up) >>= λ s'.
          some (record s' { active_count = dec32 s'.active_count })
]

-- The loop of `cap_revoke`, over the `rounds` slots from `i` on; `rev` is the recursive call.
unfoldable pub cascade : (ℕ → Caps → Option (Bool × Caps)) → ℕ → ℕ → ℕ → Caps → Option Caps
cascade rev id zero i s = some s
cascade rev id (suc rounds) i s =
    let c = cap_at s i in
    (if c.valid && c.parent == id then (rev c.id s >>= λ r. some r.1) else some s)
    >>= cascade rev id rounds (i + 1)

-- `c` in slot `i` is marked revoked, and the count follows.
abbrev pub mark_revoked : Caps → ℕ → ℕ → Caps
mark_revoked s id i =
    let c = cap_at s i in
    let s1 = audit AuditEventType.cap_revoke c.owner_tid id 0 0 s in
    record s1 {
      table = set s.table i (record c { valid = false; object = 0 });
      active_count = dec32 s.active_count;
    }

unfoldable pub revoke_fuel : ℕ → ℕ → Caps → Option (Bool × Caps)
revoke_fuel zero id s = none
revoke_fuel (suc fuel) id s = elim (cap_get id s) [
  | none ↦ some (false, s)
  | some i ↦
      let c = cap_at s i in
      let s2 = mark_revoked s id i in
      (if c.parent == 0 then some s2 else release_fuel fuel c.parent s2) >>= λ s3.
      cascade (revoke_fuel fuel) id (length s3.table) 0 s3 >>= λ s4. some (true, s4)
]

-- One more than the slots that are valid is enough fuel.
abbrev pub fuel_of : Caps → ℕ
fuel_of s = suc (count is_valid s.table)

abbrev or_same : Caps → Option Caps → Caps
or_same s none = s
or_same s (some s') = s'

abbrev or_failed : Caps → Option (Bool × Caps) → Bool × Caps
or_failed s none = (false, s)
or_failed s (some r) = r

-- The two calls with that fuel; it never runs out, so the default is never taken.
unfoldable pub cap_release : ℕ → Caps → Caps
cap_release id s = or_same s (release_fuel (fuel_of s) id s)

unfoldable pub cap_revoke : ℕ → Caps → Bool × Caps
cap_revoke id s = or_failed s (revoke_fuel (fuel_of s) id s)

unfoldable pub cap_transfer : ℕ → ℕ → Caps → ℕ × Caps
cap_transfer id new_owner s = elim (cap_get id s) [
  | none ↦ (0, s)
  | some i ↦
      let c = cap_at s i in
      if bit_and c.rights right_grant == 0 then (0, s) else (
        id,
        audit AuditEventType.cap_transfer c.owner_tid id new_owner 0
            (put s i (record c { owner_tid = new_owner })),
      )
]
