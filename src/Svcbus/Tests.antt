-- ===== src/Svcbus/Tests.antt =====
-- kernel/svcbus.c: a registry of three entries.
use new_os.Base.{
  ℕ, ◌+◌, ◌*◌, ◌<◌, ◌≤◌, ◌≡◌, ◌≢◌, ◌⊎◌, refl, arith, none, some, true, List, [], ◌∷◌, replicate,
}
use new_os.Base.Find.{find_index}
use new_os.Libc.{strlen, strncmp, strncpy, strncpy_bytes}
use new_os.Cap.Invariant
use new_os.Cap.Invariant.{free_table, free_table-IsValid}
use new_os.Cap.{Caps, cap_create, alloc_slot}
use new_os.Svcbus.{
  Svcbus, ok, err_exists, err_full, err_notfound, err_noperm, service_at, svcbus_init,
  svcbus_register, svcbus_lookup, svcbus_unregister, register_at,
}
use new_os.Svcbus.Registry.{IsValid, free_registry, free_registry-IsValid, svcbus_init-IsValid}
use new_os.Svcbus.Lookup.{looked_up, found, svcbus_lookup_long}
use new_os.Svcbus.Register.{Registered, svcbus_register_lem}
use new_os.Svcbus.Unregister.{svcbus_unregister_lem}

abbrev caps : Caps
caps = free_table 3 (record { log_buf = []; log_head = 0; log_count = 0; policy = 1; ticks = 0 })

caps-IsValid : Invariant.IsValid caps
caps-IsValid = free_table-IsValid 3 caps.log (omega arith)

abbrev empty : Svcbus
empty = free_registry 3 caps

empty-IsValid : IsValid empty
empty-IsValid = free_registry-IsValid 3 caps caps-IsValid (omega arith)

boot-IsValid : IsValid (svcbus_init empty)
boot-IsValid = svcbus_init-IsValid empty caps-IsValid

abbrev slots : ℕ → ℕ
slots i = 8192 + 96 * i

-- "vfs"
abbrev vfs : List ℕ
vfs = 118 ∷ 102 ∷ 115 ∷ 0 ∷ []

vfs_short : strlen vfs < 64
unfolding strlen
vfs_short = omega arith

svcbus_register_lem_example :
    let (err, s') = svcbus_register slots (some vfs) 4 9 1 empty in
    IsValid s'
    × ((err ≡ err_exists) × (s' ≡ empty) × (looked_up vfs empty ≢ none)
        ⊎ ((err ≡ err_full) × (s' ≡ empty) × ((i : ℕ) → i < 3 → (service_at empty i).active ≡ true)
            ⊎ (err ≡ ok) × Registered vfs 4 empty s'))
svcbus_register_lem_example =
    svcbus_register_lem slots vfs 4 9 1 empty empty-IsValid vfs_short (omega arith) (omega arith)

abbrev with_vfs : Svcbus
with_vfs = (svcbus_register slots (some vfs) 4 9 1 empty).1

with_vfs-IsValid : IsValid with_vfs
with_vfs-IsValid =
    (svcbus_register_lem slots vfs 4 9 1 empty empty-IsValid vfs_short (omega arith)
      (omega arith)).0

vfs_found : looked_up vfs with_vfs ≡ some (4, 1)
unfolding svcbus_register register_at svcbus_lookup find_index strncmp strncpy strncpy_bytes
    cap_create alloc_slot
vfs_found = refl

svcbus_unregister_lem_example :
    let (err, s') = svcbus_unregister vfs 9 with_vfs in
    IsValid s'
    × ((err ≡ err_notfound) × (s' ≡ with_vfs) × (looked_up vfs with_vfs ≡ none)
        ⊎ ((err ≡ err_noperm)
              × (s' ≡ with_vfs)
              × ((i : ℕ) × (found vfs with_vfs ≡ some i) × ((service_at with_vfs i).owner_tid ≢ 9))
            ⊎ (err ≡ ok)
              × ((i : ℕ) × (found vfs with_vfs ≡ some i) × ((service_at with_vfs i).owner_tid ≡ 9))
              × (looked_up vfs s' ≡ none)
              × (s'.svc_count + 1 ≡ with_vfs.svc_count)))
svcbus_unregister_lem_example = svcbus_unregister_lem vfs 9 with_vfs with_vfs-IsValid

-- A name of 64 letters.
abbrev long : List ℕ
long = replicate 64 97

long_size : 64 ≤ strlen long
unfolding strlen
long_size = omega arith

svcbus_lookup-long_case : svcbus_lookup (some long) true with_vfs ≡ (err_notfound, none, with_vfs)
svcbus_lookup-long_case = svcbus_lookup_long long with_vfs with_vfs-IsValid long_size

-- It can be registered all the same, and then it is not found.
long_registers : (svcbus_register slots (some long) 4 9 1 empty).0 ≡ ok
unfolding svcbus_register register_at find_index strncmp strncpy strncpy_bytes cap_create alloc_slot
long_registers = refl

long_not_found : looked_up long (svcbus_register slots (some long) 4 9 1 empty).1 ≡ none
unfolding svcbus_register register_at svcbus_lookup find_index strncmp strncpy strncpy_bytes
    cap_create alloc_slot
long_not_found = refl
