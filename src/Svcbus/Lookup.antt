-- ===== src/Svcbus/Lookup.antt =====
-- kernel/svcbus.c: what a lookup finds in a valid registry.
use new_os.Base.{
  ℕ, ◌≤◌, ◌≡◌, ◌≢◌, ◌∙◌, refl, sym, ap, Option, none, some, true, arith, length, List, Option-cases,
  inl, inr,
}
use new_os.Base.Find.{find_index, find_index-Found, find_index-none}
use new_os.Libc.{strlen}
use new_os.Libc.Names.{length-cut}
use new_os.Secmon.{AuditEventType}
use new_os.Svcbus.{
  Svcbus, SvcErr, ok, err_notfound, service_at, null_service, audit_svc, has_name, svcbus_lookup,
}
use new_os.Svcbus.Registry.{IsValid, has_name-shown}

-- The port and the capability that a lookup of the name gives.
abbrev pub looked_up : List ℕ → Svcbus → Option (ℕ × ℕ)
looked_up name s = (svcbus_lookup (some name) true s).1

abbrev pub found : List ℕ → Svcbus → Option ℕ
found name s = find_index (has_name name) s.svc_table

pub found_lookup :
    (name : List ℕ) (i : ℕ) (s : Svcbus)
    → found name s ≡ some i
    → svcbus_lookup (some name) true s ≡ (
      ok,
      some ((service_at s i).port, (service_at s i).cap),
      audit_svc AuditEventType.svc_lookup 0 name s,
    )
unfolding svcbus_lookup
found_lookup name i s e = rw (e, svcbus_lookup) refl

pub found-looked_up :
    (name : List ℕ) (i : ℕ) (s : Svcbus)
    → found name s ≡ some i
    → looked_up name s ≡ some ((service_at s i).port, (service_at s i).cap)
unfolding svcbus_lookup
found-looked_up name i s e =
    ap (λ (r : SvcErr × Option (ℕ × ℕ) × Svcbus). r.1) (found_lookup name i s e)

pub missing-looked_up :
    (name : List ℕ) (s : Svcbus)
    → found name s ≡ none
    → svcbus_lookup (some name) true s ≡ (err_notfound, none, s)
unfolding svcbus_lookup
missing-looked_up name s e = rw (e, svcbus_lookup) refl

-- The one active entry with a name is the one that is found.
pub found-of_name :
    (name : List ℕ) (i : ℕ) (s : Svcbus)
    → IsValid s
    → has_name name (service_at s i) ≡ true
    → found name s ≡ some i
found-of_name name i s v h = elim (Option-cases (found name s)) [
  | inl e ↦ absurd (cc (h, find_index-none (has_name name) s.svc_table null_service i e refl))
  | inr (j, e) ↦
      let (a, q) = has_name-shown name (service_at s i) h in
      let f = find_index-Found (has_name name) s.svc_table null_service j e in
      let (b, r) = has_name-shown name (service_at s j) f.passes in
      e ∙ ap some (v.unique j i b a (r ∙ sym q))
]

pub missing-of_name :
    (name : List ℕ) (s : Svcbus)
    → ((i : ℕ) → has_name name (service_at s i) ≢ true)
    → found name s ≡ none
missing-of_name name s unnamed = elim (Option-cases (found name s)) [
  | inl e ↦ e
  | inr (j, e) ↦
      absurd (unnamed j (find_index-Found (has_name name) s.svc_table null_service j e).passes)
]

-- In a valid registry the lookup of a name of 64 bytes or more, with a place for the port, finds
-- nothing.
pub svcbus_lookup_long :
    (name : List ℕ) (s : Svcbus)
    → IsValid s
    → 64 ≤ strlen name
    → svcbus_lookup (some name) true s ≡ (err_notfound, none, s)
svcbus_lookup_long name s v long = missing-looked_up name s (
    missing-of_name name s (λ i h.
      let (_, q) = has_name-shown name (service_at s i) h in
      absurd (omega (arith, v.ended i, ap length q, length-cut 64 name, long))))
