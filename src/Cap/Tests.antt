-- ===== src/Cap/Tests.antt =====
-- Runs of kernel/cap.c on a table of three slots, and the theorems at them.
use new_os.Base.{ℕ, ◌≡◌, ◌↔◌, ◌⊎◌, refl, false, some, none, [], arith, bit_and, ◌==◌}
use new_os.Base.Find.{find_index, count}
use new_os.Secmon.{Secmon, CapType}
use new_os.Cap.{
  Caps, cap_at, cap_get, cap_check, cap_create, cap_derive, derive_from, cap_addref, alloc_slot,
  cap_release, release_fuel, cap_revoke, revoke_fuel, cascade, cap_transfer, fuel_of,
}
use new_os.Cap.Invariant.{IsValid, free_table, free_table-IsValid}
use new_os.Cap.Create.{cap_create_lem}
use new_os.Cap.Derive.{cap_derive_lem, Attenuates}
use new_os.Cap.Transfer.{cap_transfer_lem, Transferred}
use new_os.Cap.Release.{cap_release_lem, Released}
use new_os.Cap.Cascade.{NoToken}
use new_os.Cap.Revoke.{child, grandchild, cap_revoke_lem, cap_revoke-Descends}

abbrev quiet_log : Secmon
quiet_log = record { log_buf = []; log_head = 0; log_count = 0; policy = 1; ticks = 0 }

-- The opening of the functions that the runs below compute with.
abbrev empty : Caps
empty = free_table 3 quiet_log

empty-IsValid : IsValid empty
empty-IsValid = free_table-IsValid 3 quiet_log (omega arith)

-- Token 1 with all rights, token 2 derived from it, token 3 from token 2.
abbrev one : Caps
one = (cap_create CapType.memory 0x7f 0x1000 5 empty).1

abbrev two : Caps
two = (cap_derive 1 0x51 one).1

abbrev three : Caps
three = (cap_derive 2 0x01 two).1

one-IsValid : IsValid one
one-IsValid =
    (cap_create_lem CapType.memory 0x7f 0x1000 5 empty empty-IsValid (omega arith) (omega arith)).0

two-IsValid : IsValid two
unfolding cap_create alloc_slot find_index
two-IsValid = (cap_derive_lem 1 0x51 one one-IsValid (omega arith) (omega arith)).0

three-IsValid : IsValid three
unfolding cap_create alloc_slot find_index cap_derive derive_from cap_addref cap_get
three-IsValid = (cap_derive_lem 2 0x01 two two-IsValid (omega arith) (omega arith)).0

three_tokens : (cap_get 1 three ≡ some 0) × (cap_get 2 three ≡ some 1) × (cap_get 3 three ≡ some 2)
unfolding cap_create alloc_slot find_index cap_derive derive_from cap_addref cap_get
three_tokens = (refl, refl, refl)

revoked_all : (cap_revoke 1 three).1.active_count ≡ 0
unfolding cap_create alloc_slot find_index cap_derive derive_from cap_addref cap_get cap_revoke
    revoke_fuel cascade release_fuel count
revoked_all = refl

-- Token 2 is released for good, and then token 1 is revoked: token 3 stays live.
orphan_survives : cap_get 3 (cap_revoke 1 (cap_release 2 (cap_release 2 three))).1 ≡ some 2
unfolding cap_create alloc_slot find_index cap_derive derive_from cap_addref cap_get cap_release
    cap_revoke revoke_fuel cascade release_fuel count
orphan_survives = refl

cap_create_lem_example :
    let (id, s') = cap_create CapType.memory 0x7f 0x1000 5 empty in
    IsValid s'
    × ((id ≡ 0) × (s' ≡ empty) × (alloc_slot empty ≡ none)
        ⊎ (id ≡ 1) × NoToken id empty × ((q : ℕ) → cap_check id q s' ≡ (bit_and 0x7f q == q)))
cap_create_lem_example =
    cap_create_lem CapType.memory 0x7f 0x1000 5 empty empty-IsValid (omega arith) (omega arith)

cap_derive_lem_example :
    let (id, s') = cap_derive 2 0x01 two in
    IsValid s'
    × ((id ≡ 0) × (s'.table ≡ two.table)
        ⊎ ((k : ℕ) × (cap_get 2 two ≡ some k) × Attenuates 2 0x01 k two id s'))
unfolding cap_create alloc_slot find_index cap_derive derive_from cap_addref cap_get
cap_derive_lem_example = cap_derive_lem 2 0x01 two two-IsValid (omega arith) (omega arith)

cap_release_lem_example :
    (release_fuel (fuel_of three) 3 three ≡ some (cap_release 3 three))
    × Released 3 three (cap_release 3 three)
    × IsValid (cap_release 3 three)
cap_release_lem_example = cap_release_lem 3 three three-IsValid

cap_revoke_lem_example :
    (revoke_fuel (fuel_of three) 2 three ≡ some (cap_revoke 2 three))
    × IsValid (cap_revoke 2 three).1
    × NoToken 2 (cap_revoke 2 three).1
    × (((cap_revoke 2 three).0 ≡ false) ↔ NoToken 2 three)
cap_revoke_lem_example = cap_revoke_lem 2 three three-IsValid

cap_revoke-Descends_example : (cap_at (cap_revoke 1 three).1 2).valid ≡ false
unfolding cap_create alloc_slot find_index cap_derive derive_from cap_addref cap_get
cap_revoke-Descends_example =
    cap_revoke-Descends 1 0 2 three three-IsValid refl (grandchild 1 (child refl refl) refl refl)

cap_transfer_lem_example :
    let (r, s') = cap_transfer 2 9 three in
    IsValid s'
    × ((other q : ℕ) → cap_check other q s' ≡ cap_check other q three)
    × ((r ≡ 0) × (s' ≡ three) ⊎ (r ≡ 2) × ((k : ℕ) × Transferred 2 9 k three s'))
cap_transfer_lem_example = cap_transfer_lem 2 9 three three-IsValid
