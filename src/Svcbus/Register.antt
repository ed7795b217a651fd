-- ===== src/Svcbus/Register.antt =====
-- kernel/svcbus.c: registering a service, and the lookups behind it.
use new_os.Base.{
  ℕ, ◌+◌, ◌^◌, ◌<◌, ◌≡◌, ◌≢◌, ◌∙◌, refl, sym, ap, Option, none, some, true, false, arith, length,
  List, set, get_or-set_self, length-set, Option-cases, ◌==◌, inl, inr, ◌⊎◌,
}
use new_os.Base.Find.{
  count-set, count-le-length, find_index, find_index-Found, find_index-none, find_index-none_at,
}
use new_os.Libc.{strlen}
use new_os.Libc.Names.{cut-suc}
use new_os.Secmon.{AuditEventType, CapType, secmon_audit_svc}
use new_os.Cap.{Caps, cap_create}
use new_os.Cap.Create.{cap_create_lem}
use new_os.Cap.Child.{log-IsValid}
use new_os.Svcbus.{
  Svcbus, Service, SvcErr, ok, err_exists, err_full, service_at, null_service, has_name, is_active,
  is_inactive, register_at, svcbus_register,
}
use new_os.Svcbus.Registry.{IsValid, shown-has_name, entry, shown-entry, fill-IsValid}
use new_os.Svcbus.Lookup.{looked_up, found, found-looked_up, missing-looked_up, found-of_name}

-- What a registration does that goes through.
pub record Registered (name : List ℕ) (port : ℕ) (s s' : Svcbus) : Type 0 where
  pub was_missing : looked_up name s ≡ none
  pub cap : ℕ
  pub now_there : looked_up name s' ≡ some (port, cap)
  pub a_token : (cap ≡ 0) ⊎ (cap ≡ s.caps.next_id)
  pub one_more : s'.svc_count ≡ s.svc_count + 1

module _ (addr : ℕ → ℕ) (i : ℕ) (name : List ℕ) (port owner version : ℕ) (s : Svcbus)
    (v : IsValid s) (short : strlen name < 64) (next : s.caps.next_id + 1 < 2 ^ 32)
    (missing : found name s ≡ none) (h : i < length s.svc_table)
    (free : (service_at s i).active ≡ false) where
  abbrev created : ℕ × Caps
  created = cap_create CapType.service 19 (addr i) owner s.caps

  abbrev after : Svcbus
  after = (register_at addr i name port owner version s).1

  register_at-IsValid : IsValid after
  unfolding register_at
  register_at-IsValid =
      let c =
        cap_create_lem CapType.service 19 (addr i) owner s.caps v.caps_ok (omega arith) next in
      let cv =
        log-IsValid created.1
          (secmon_audit_svc AuditEventType.svc_register owner name created.1.log) c.0 in
      fill-IsValid name port owner version created.0 i s v h free _ cv (λ j m q.
        let w = shown-has_name name (service_at s j) m (q ∙ sym (cut-suc 63 name (omega arith))) in
        cc (w, find_index-none (has_name name) s.svc_table null_service j missing refl))

  register_at-Registered : Registered name port s after
  unfolding register_at
  register_at-Registered =
      let e = entry name port owner version created.0 i s v h free in
      let at = get_or-set_self s.svc_table i e null_service h in
      let w = shown-has_name name e refl (
        shown-entry name port owner version created.0 i s v h free
        ∙ sym (cut-suc 63 name (omega arith))) in
      let f = found-of_name name i after register_at-IsValid (rw at w) in
      let c =
        cap_create_lem CapType.service 19 (addr i) owner s.caps v.caps_ok (omega arith) next in
      record {
        was_missing =
            ap (λ (r : SvcErr × Option (ℕ × ℕ) × Svcbus). r.1) (missing-looked_up name s missing);
        cap = created.0;
        now_there = found-looked_up name i after f ∙ ap (λ (x : Service). some (x.port, x.cap)) at;
        a_token = elim c.1 [ inl (z, _, _) ↦ inl z | inr (z, _, _) ↦ inr z ];
        one_more =
            let n = rw free at (count-set is_active s.svc_table i e null_service h) in
            omega (
              arith,
              v.counted,
              n,
              count-le-length is_active (set s.svc_table i e),
              length-set s.svc_table i e,
              v.small,
            );
      }

-- In a valid registry, for a port other than 0 and before the token counter reaches 2^32,
-- registering a name of fewer than 64 bytes keeps the registry valid. It answers that the service
-- exists, with no change, only where a lookup finds the name; that it is full, with no change,
-- only where every entry is active; and otherwise the name was not found before, a lookup of it
-- gives the port afterwards, with the next token or 0, and there is one service more.
pub svcbus_register_lem :
    (addr : ℕ → ℕ) (name : List ℕ) (port owner version : ℕ) (s : Svcbus)
    → IsValid s
    → strlen name < 64
    → port ≢ 0
    → s.caps.next_id + 1 < 2 ^ 32
    → let (err, s') = svcbus_register addr (some name) port owner version s in
      IsValid s'
      × ((err ≡ err_exists) × (s' ≡ s) × (looked_up name s ≢ none)
          ⊎ ((err ≡ err_full)
                × (s' ≡ s)
                × ((i : ℕ) → i < length s.svc_table → (service_at s i).active ≡ true)
              ⊎ (err ≡ ok) × Registered name port s s'))
unfolding svcbus_register register_at
svcbus_register_lem addr name port owner version s v short valid_port next =
    let p : (port == 0) ≡ false = ground arith in
    elim (Option-cases (found name s)) [
      | inr (i, e) ↦
          rw (p, e, svcbus_register)
            (
              v,
              inl (
                refl,
                refl,
                λ z. absurd (let w = sym z ∙ found-looked_up name i s e in ground (arith, w)),
              ),
            )
      | inl missing ↦ elim (Option-cases (find_index is_inactive s.svc_table)) [
        | inl e ↦
            rw (p, missing, e, svcbus_register)
              (
                v,
                inr (
                    inl (
                      refl,
                      refl,
                      λ i h.
                          let w = find_index-none_at is_inactive s.svc_table null_service i e h in
                          ground (arith, w),
                    )),
              )
        | inr (i, e) ↦
            let f = find_index-Found is_inactive s.svc_table null_service i e in
            let free : (service_at s i).active ≡ false = let w = f.passes in ground (arith, w) in
            rw (p, missing, e, svcbus_register)
              (
                register_at-IsValid addr i name port owner version s v short next missing f.in_range
                    free,
                inr (
                    inr (
                      refl,
                      register_at-Registered addr i name port owner version s v short next missing
                          f.in_range free,
                    )),
              )
      ]
    ]
