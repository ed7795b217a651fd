-- ===== src/Svcbus.antt =====
-- kernel/svcbus.c and include/kernel/svcbus.h: the registry of services. The state is the file's static
-- variables with the capability table; a name is the list of its bytes, `none` for NULL.
pub mod Registry
pub mod Lookup
pub mod Register
pub mod Unregister
mod Tests
use new_os.Base.{
  ℕ, zero, suc, ◌+◌, ◌-◌, ◌%◌, ◌^◌, List, [], ◌∷◌, Option, none, some, Bool, true, false, not, ◌&&◌,
  ◌==◌, if◌then◌else◌, set, get_or, replicate, inc32, dec32, bit_or,
}
use new_os.Base.Find.{find_index}
use new_os.Libc.{strncpy, strncmp, is_zero}
use new_os.Secmon.{AuditEventType, CapType, secmon_audit_svc}
use new_os.Cap.{Caps, cap_create, cap_release, right_read, right_write, right_grant}

-- svc_err_t
pub data SvcErr : Type 0 where
  ok err_invalid err_exists err_full err_notfound err_noperm : SvcErr

-- svc_entry_t
pub record Service : Type 0 where
  pub name : List ℕ
  pub port : ℕ
  pub cap : ℕ
  pub owner_tid : ℕ
  pub version : ℕ
  pub active : Bool

pub record Svcbus : Type 0 where
  pub svc_table : List Service
  pub svc_count : ℕ
  pub caps : Caps

abbrev pub svcbus_max_services : ℕ
svcbus_max_services = 64

abbrev pub svcbus_name_len : ℕ
svcbus_name_len = 64

-- An entry of zero bytes.
abbrev pub null_service : Service
null_service = record {
  name = replicate svcbus_name_len 0;
  port = 0;
  cap = 0;
  owner_tid = 0;
  version = 0;
  active = false;
}

abbrev pub service_at : Svcbus → ℕ → Service
service_at s i = get_or s.svc_table i null_service

-- active && strncmp(entry.name, name, SVCBUS_NAME_LEN) == 0
abbrev pub has_name : List ℕ → Service → Bool
has_name name e = e.active && is_zero (strncmp e.name name svcbus_name_len)

abbrev pub is_inactive : Service → Bool
is_inactive e = not e.active

abbrev pub is_active : Service → Bool
is_active e = e.active

abbrev pub audit_svc : AuditEventType → ℕ → List ℕ → Svcbus → Svcbus
audit_svc t actor name s = record s {
  caps = record caps { log = secmon_audit_svc t actor name caps.log };
}
  where
    open s use {caps}

unfoldable pub svcbus_init : Svcbus → Svcbus
svcbus_init s = record s { svc_table = replicate svcbus_max_services null_service; svc_count = 0 }

-- The entry that a registration writes over `e`.
abbrev pub new_service : List ℕ → ℕ → ℕ → ℕ → ℕ → Service → Service
new_service name port owner version cap e = record {
  name = set (strncpy e.name name (svcbus_name_len - 1)) (svcbus_name_len - 1) 0;
  port = port;
  cap = cap;
  owner_tid = owner;
  version = version;
  active = true;
}

-- The capability's object is the address of the service's entry, which `addr` gives.
module _ (addr : ℕ → ℕ) where
  -- The part of `svcbus_register` that fills the free entry `i`.
  unfoldable pub register_at : ℕ → List ℕ → ℕ → ℕ → ℕ → Svcbus → SvcErr × Svcbus
  register_at i name port owner version s =
      let (cap, caps') =
        cap_create CapType.service (bit_or (bit_or right_read right_write) right_grant) (addr i)
          owner s.caps in
      (
        ok,
        audit_svc AuditEventType.svc_register owner name (record s {
          svc_table = set s.svc_table i (new_service name port owner version cap (service_at s i));
          svc_count = inc32 s.svc_count;
          caps = caps';
        }),
      )

  unfoldable pub svcbus_register : Option (List ℕ) → ℕ → ℕ → ℕ → Svcbus → SvcErr × Svcbus
  svcbus_register none port owner version s = (err_invalid, s)
  svcbus_register (some name) port owner version s =
      if port == 0 then (err_invalid, s) else elim (find_index (has_name name) s.svc_table) [
        | some i ↦ (err_exists, s)
        | none ↦ elim (find_index is_inactive s.svc_table) [
          | none ↦ (err_full, s)
          | some i ↦ register_at i name port owner version s
        ]
      ]

-- What a lookup writes to `*out_port` and `*out_cap`. `out` says that `out_port` is not NULL; a caller
-- without `out_cap` gets the port alone.
unfoldable pub svcbus_lookup : Option (List ℕ) → Bool → Svcbus → SvcErr × Option (ℕ × ℕ) × Svcbus
svcbus_lookup none out s = (err_invalid, none, s)
svcbus_lookup (some name) false s = (err_invalid, none, s)
svcbus_lookup (some name) true s = elim (find_index (has_name name) s.svc_table) [
  | none ↦ (err_notfound, none, s)
  | some i ↦
      let e = service_at s i in
      (ok, some (e.port, e.cap), audit_svc AuditEventType.svc_lookup 0 name s)
]

unfoldable pub svcbus_unregister : List ℕ → ℕ → Svcbus → SvcErr × Svcbus
svcbus_unregister name owner s = elim (find_index (has_name name) s.svc_table) [
  | none ↦ (err_notfound, s)
  | some i ↦
      let e = service_at s i in
      if not (e.owner_tid == owner) then (err_noperm, s) else (
        ok,
        audit_svc AuditEventType.svc_unregister owner name (record s {
          svc_table = set s.svc_table i (record e { active = false });
          svc_count = dec32 s.svc_count;
          caps = cap_release e.cap s.caps;
        }),
      )
]
