-- ===== src/Svcbus/Unregister.antt =====
-- kernel/svcbus.c: unregistering a service.
use new_os.Base.{
  ℕ, ◌+◌, ◌≡◌, ◌≢◌, ◌∙◌, refl, sym, ap, Option, none, some, false, arith, List, set, get_or-set,
  Bool-cases, Option-cases, ◌==◌, inl, inr, ◌⊎◌, dec32,
}
use new_os.Base.Find.{count-set, count-le-length, count_pos, Found, find_index-Found}
use new_os.Secmon.{AuditEventType, secmon_audit_svc}
use new_os.Cap.{cap_release}
use new_os.Cap.Release.{cap_release_lem}
use new_os.Cap.Child.{log-IsValid}
use new_os.Svcbus.{
  Svcbus, Service, SvcErr, ok, err_notfound, err_noperm, service_at, null_service, audit_svc,
  has_name, is_active, svcbus_unregister,
}
use new_os.Svcbus.Registry.{IsValid, has_name-shown, update-IsValid}
use new_os.Svcbus.Lookup.{looked_up, found, missing-looked_up, missing-of_name}

module _ (name : List ℕ) (owner i : ℕ) (s : Svcbus) (v : IsValid s)
    (f : Found (has_name name) s.svc_table null_service i) where
  abbrev inactive : Service
  inactive = let e = service_at s i in record e { active = false }

  abbrev without : Svcbus
  without = audit_svc AuditEventType.svc_unregister owner name (record s {
    svc_table = set s.svc_table i inactive;
    svc_count = dec32 s.svc_count;
    caps = cap_release (service_at s i).cap s.caps;
  })

  removed :
      IsValid without × (without.svc_count + 1 ≡ s.svc_count) × (looked_up name without ≡ none)
  removed =
      let (a, q) = has_name-shown name (service_at s i) f.passes in
      let n = rw a at (count-set is_active s.svc_table i inactive null_service f.in_range) in
      let pos = count_pos is_active s.svc_table i null_service f.in_range a in
      let le = count-le-length is_active s.svc_table in
      let released = cap_release (service_at s i).cap s.caps in
      let l = secmon_audit_svc AuditEventType.svc_unregister owner name released.log in
      (
        update-IsValid s i (dec32 s.svc_count) inactive _ v f.in_range (v.sized i) (v.ended i)
            (log-IsValid released l (cap_release_lem (service_at s i).cap s.caps v.caps_ok).2)
            (omega (arith, v.counted, n, pos, le, v.small)) (λ b. absurd (ground (arith, b))),
        omega (arith, v.counted, pos, le, v.small),
        ap (λ (r : SvcErr × Option (ℕ × ℕ) × Svcbus). r.1)
            (missing-looked_up name without (
              missing-of_name name without (λ j h.
                elim (get_or-set s.svc_table i j inactive null_service f.in_range) [
                  | inl (_, at) ↦ absurd (
                      let w = has_name-shown name (service_at without j) h in
                      let z = rw at at w.0 in ground (arith, z))
                  | inr (ne, at) ↦
                      let (b, r) = has_name-shown name (service_at s j) (rw at at h) in
                      ne (v.unique i j a b (q ∙ sym r))
                ]))),
      )

-- In a valid registry: unregistering a name that no lookup finds, or by a task that does not own
-- it, changes nothing; by the owner it keeps the registry valid and removes one service, and a
-- lookup no longer finds the name.
pub svcbus_unregister_lem :
    (name : List ℕ) (owner : ℕ) (s : Svcbus)
    → IsValid s
    → let (err, s') = svcbus_unregister name owner s in
      IsValid s'
      × ((err ≡ err_notfound) × (s' ≡ s) × (looked_up name s ≡ none)
          ⊎ ((err ≡ err_noperm)
                × (s' ≡ s)
                × ((i : ℕ) × (found name s ≡ some i) × ((service_at s i).owner_tid ≢ owner))
              ⊎ (err ≡ ok)
                × ((i : ℕ) × (found name s ≡ some i) × ((service_at s i).owner_tid ≡ owner))
                × (looked_up name s' ≡ none)
                × (s'.svc_count + 1 ≡ s.svc_count)))
unfolding svcbus_unregister
svcbus_unregister_lem name owner s v = elim (Option-cases (found name s)) [
  | inl e ↦
      rw (e, svcbus_unregister)
        (
          v,
          inl (
            refl,
            refl,
            ap (λ (r : SvcErr × Option (ℕ × ℕ) × Svcbus). r.1) (missing-looked_up name s e),
          ),
        )
  | inr (i, e) ↦ elim (Bool-cases ((service_at s i).owner_tid == owner)) [
    | inr other ↦
        let ne : (service_at s i).owner_tid ≢ owner = λ q. ground (arith, q) in
        rw (e, other, svcbus_unregister) (v, inr (inl (refl, refl, (i, refl, ne))))
    | inl own ↦
        let f = find_index-Found (has_name name) s.svc_table null_service i e in
        let (w, count_down, gone) = removed name owner i s v f in
        rw (e, own, svcbus_unregister)
          (w, inr (inr (refl, (i, refl, ground arith), gone, count_down)))
  ]
]
