-- ===== src/Svcbus/Registry.antt =====
-- kernel/svcbus.c: the invariant of the registry, and registering a name.
use new_os.Base.{
  ℕ, zero, suc, ◌^◌, ◌<◌, ◌≡◌, ◌≢◌, ◌∙◌, refl, sym, ap, Bool, true, false, ◌&&◌, arith, length,
  List, get_or, set, replicate, length-replicate, get_or-replicate, get_or-set, length-set,
  Bool-cases, inl, inr, ◌⊎◌, inc32,
}
use new_os.Base.Find.{count, count-set, count-le-length}
use new_os.Libc.{strncmp, is_zero}
use new_os.Libc.Names.{cut, strncmp_sound, strncmp_complete, cut-stored, length-stored, length-cut}
use new_os.Cap.{Caps}
use new_os.Cap.Invariant
use new_os.Svcbus.{
  Svcbus, Service, service_at, null_service, has_name, is_active, new_service, svcbus_init,
}

-- The name that an entry shows.
abbrev pub shown : Service → List ℕ
shown e = cut 64 e.name

-- Every name ends inside its buffer, and no two active entries show the same name.
pub record IsValid (s : Svcbus) : Type 0 where
  pub caps_ok : Invariant.IsValid s.caps
  pub small : length s.svc_table < 2 ^ 32
  pub counted : s.svc_count ≡ count is_active s.svc_table
  pub sized : (i : ℕ) → length (service_at s i).name ≡ 64
  pub ended : (i : ℕ) → length (shown (service_at s i)) < 64
  pub unique :
      (i j : ℕ)
      → (service_at s i).active ≡ true
      → (service_at s j).active ≡ true
      → shown (service_at s i) ≡ shown (service_at s j)
      → i ≡ j

pub has_name-shown :
    (name : List ℕ) (e : Service)
    → has_name name e ≡ true
    → (e.active ≡ true) × (shown e ≡ cut 64 name)
has_name-shown name e h = elim (Bool-cases e.active) [
  | inl a ↦ (a, strncmp_sound 64 e.name name (rw a at h))
  | inr a ↦ absurd (let w = rw a at h in ground (arith, w))
]

pub shown-has_name :
    (name : List ℕ) (e : Service) → e.active ≡ true → shown e ≡ cut 64 name → has_name name e ≡ true
shown-has_name name e a h =
    let z = strncmp_complete 64 e.name name h in
    ap (λ (b : Bool). b && is_zero (strncmp e.name name 64)) a ∙ z

-- One entry changes.
pub update-IsValid :
    (s : Svcbus) (i n : ℕ) (e : Service) (c : Caps)
    → IsValid s
    → i < length s.svc_table
    → length e.name ≡ 64
    → length (shown e) < 64
    → Invariant.IsValid c
    → n ≡ count is_active (set s.svc_table i e)
    → (e.active ≡ true
        → (j : ℕ) → (service_at s j).active ≡ true
        → shown e ≡ shown (service_at s j)
        → i ≡ j)
    → IsValid (record s { svc_table = set s.svc_table i e; svc_count = n; caps = c })
update-IsValid s i n e c v h size ends cv counted fresh = record {
  caps_ok = cv;
  small = omega (arith, v.small, length-set s.svc_table i e);
  counted = counted;
  sized = λ j. elim (at j) [ inl (_, f) ↦ rw f size | inr (_, f) ↦ rw f (v.sized j) ];
  ended = λ j. elim (at j) [ inl (_, f) ↦ rw f ends | inr (_, f) ↦ rw f (v.ended j) ];
  unique = λ j k l m q. elim (at j) [
    | inl (x, f) ↦ elim (at k) [
      | inl (y, g) ↦ sym x ∙ y
      | inr (y, g) ↦ sym x ∙ fresh (rw f at l) k (rw g at m) (rw (f, g) at q)
    ]
    | inr (x, f) ↦ elim (at k) [
      | inl (y, g) ↦ sym (sym y ∙ fresh (rw g at m) j (rw f at l) (sym (rw (f, g) at q)))
      | inr (y, g) ↦ v.unique j k (rw f at l) (rw g at m) (rw (f, g) at q)
    ]
  ];
}
  where
    at :
        (j : ℕ)
        → ((i ≡ j) × (get_or (set s.svc_table i e) j null_service ≡ e))
          ⊎ ((i ≢ j) × (get_or (set s.svc_table i e) j null_service ≡ service_at s j))
    at j = get_or-set s.svc_table i j e null_service h

-- The free entry of a registration, and what it will show.
module _ (name : List ℕ) (port owner version cap i : ℕ) (s : Svcbus) (v : IsValid s)
    (h : i < length s.svc_table) (free : (service_at s i).active ≡ false) where
  abbrev pub entry : Service
  entry = new_service name port owner version cap (service_at s i)

  pub shown-entry : shown entry ≡ cut 63 name
  shown-entry = cut-stored 63 (service_at s i).name name (v.sized i)

  -- Filling it keeps the invariant when no active entry shows the name.
  pub fill-IsValid :
      (c : Caps)
      → Invariant.IsValid c
      → ((j : ℕ) → (service_at s j).active ≡ true → shown (service_at s j) ≢ cut 63 name)
      → IsValid (record s {
        svc_table = set s.svc_table i entry;
        svc_count = inc32 s.svc_count;
        caps = c;
      })
  fill-IsValid c cv none_shows =
      let n = count-set is_active s.svc_table i entry null_service h in
      let n' = rw free at n in
      let le = count-le-length is_active (set s.svc_table i entry) in
      let l = length-set s.svc_table i entry in
      update-IsValid s i (inc32 s.svc_count) entry c v h
        (length-stored 63 (service_at s i).name name (v.sized i))
        (omega (arith, ap length shown-entry, length-cut 63 name)) cv
        (omega (arith, v.counted, n', le, l, v.small))
        (λ a j m q. absurd (none_shows j m (sym q ∙ shown-entry)))

-- `n` free entries over `c`.
abbrev pub free_registry : ℕ → Caps → Svcbus
free_registry n c = record { svc_table = replicate n null_service; svc_count = 0; caps = c }

free_service-at : (n i : ℕ) → get_or (replicate n null_service) i null_service ≡ null_service
free_service-at n i = get_or-replicate n i null_service

none_active : (n i : ℕ) → (get_or (replicate n null_service) i null_service).active ≢ true
none_active n i m = cc (ap (λ (e : Service). e.active) (free_service-at n i), m)

count-replicate : (n : ℕ) → count is_active (replicate n null_service) ≡ 0
unfolding count
count-replicate zero = refl
count-replicate (suc n) = count-replicate n

pub free_registry-IsValid :
    (n : ℕ) (c : Caps) → Invariant.IsValid c → n < 2 ^ 32 → IsValid (free_registry n c)
free_registry-IsValid n c v h = record {
  caps_ok = v;
  small = omega (arith, length-replicate n null_service, h);
  counted = sym (count-replicate n);
  sized = λ i. ap (λ (e : Service). length e.name) (free_service-at n i);
  ended = λ i. omega (arith, ap (λ (e : Service). length (shown e)) (free_service-at n i));
  unique = λ i j a b q. absurd (none_active n i a);
}

-- `svcbus_init` establishes the invariant over a valid capability table.
pub svcbus_init-IsValid : (s : Svcbus) → Invariant.IsValid s.caps → IsValid (svcbus_init s)
unfolding svcbus_init
svcbus_init-IsValid s v = free_registry-IsValid 64 s.caps v (omega arith)
