-- ===== src/Ipc/Ports.antt =====
-- kernel/ipc.c: the invariant of the port table, and what finding a port says.
use new_os.Base.{
  ℕ, ◌+◌, ◌%◌, ◌^◌, ◌<◌, ◌≤◌, ◌≡◌, ◌≢◌, ◌∙◌, refl, sym, ap, none, some, true, false, arith, length,
  get_or, set, ◌⊎◌, get_or-set, replicate, length-replicate, get_or-replicate, subst, ℕ_discrete,
  Option-cases, inl, inr,
}
use new_os.Base.Find.{find_index-Found, find_index-none}
use new_os.Cap.Invariant
use new_os.Cap.{Caps}
use new_os.Ipc.{
  Ipc, IpcPort, port_at, find_port, alloc_port, null_port, null_msg, ipc_init, has_port_id,
  is_free_port, ipc_port_queue_size,
}

-- The queue indices of a slot fit together, and a live port is open.
pub record PortOk (p : IpcPort) : Type 0 where
  pub size : length p.queue ≡ ipc_port_queue_size
  pub head_in : p.q_head < ipc_port_queue_size
  pub count_in : p.q_count ≤ ipc_port_queue_size
  pub tail_at : p.q_tail ≡ (p.q_head + p.q_count) % ipc_port_queue_size
  pub is_open : p.valid ≡ true → p.closed ≡ false

pub record IsValid (s : Ipc) : Type 0 where
  pub caps_ok : Invariant.IsValid s.caps
  pub port_ok : (i : ℕ) → PortOk (port_at s i)
  pub next_pos : 0 < s.port_next_id
  pub next_small : s.port_next_id < 2 ^ 32
  pub id_pos : (i : ℕ) → (port_at s i).valid ≡ true → 0 < (port_at s i).id
  pub fresh : (i : ℕ) → (port_at s i).valid ≡ true → (port_at s i).id < s.port_next_id
  pub unique :
      (i j : ℕ)
      → (port_at s i).valid ≡ true
      → (port_at s j).valid ≡ true
      → (port_at s i).id ≡ (port_at s j).id
      → i ≡ j

-- The slot of a port that `_find_port` finds.
pub record Open (id : ℕ) (s : Ipc) (i : ℕ) : Type 0 where
  pub in_range : i < length s.ports
  pub is_live : (port_at s i).valid ≡ true
  pub same_id : (port_at s i).id ≡ id
  pub id_ne_zero : id ≢ 0

pub find_port-Open : (id : ℕ) (s : Ipc) (i : ℕ) → find_port id s ≡ some i → Open id s i
unfolding find_port
find_port-Open id s i h = elim (ℕ_discrete id 0) [
  | yes e ↦ absurd (ground arith)
  | no ne ↦
      let f = find_index-Found (has_port_id id) s.ports null_port i (ground arith) in
      let p = f.passes in
      record {
        in_range = f.in_range;
        is_live = ground arith;
        same_id = ground arith;
        id_ne_zero = ne;
      }
]

pub find_port-none :
    (id : ℕ) (s : Ipc) (i : ℕ)
    → find_port id s ≡ none
    → id ≢ 0
    → (port_at s i).valid ≡ true
    → (port_at s i).id ≢ id
unfolding find_port
find_port-none id s i h ne l = ground (arith, find_index-none (has_port_id id) s.ports null_port i)

pub find_port-of_Open :
    (id : ℕ) (s : Ipc) (i : ℕ) → IsValid s → Open id s i → find_port id s ≡ some i
find_port-of_Open id s i v h = elim (Option-cases (find_port id s)) [
  | inl e ↦ absurd (find_port-none id s i e h.id_ne_zero h.is_live h.same_id)
  | inr (j, e) ↦
      let k = find_port-Open id s j e in
      e ∙ ap some (v.unique j i k.is_live h.is_live (k.same_id ∙ sym h.same_id))
]

pub alloc_port-free :
    (s : Ipc) (i : ℕ) → alloc_port s ≡ some i → (i < length s.ports) × ((port_at s i).valid ≡ false)
unfolding alloc_port
alloc_port-free s i h =
    let f = find_index-Found is_free_port s.ports null_port i h in
    let p = f.passes in (f.in_range, ground arith)

-- One slot changes and stays the same port, or dies; the message counter and the capabilities may
-- change with it.
pub update-IsValid :
    (s : Ipc) (i : ℕ) (p : IpcPort) (c : Caps) (seq active : ℕ)
    → IsValid s
    → i < length s.ports
    → PortOk p
    → (p.valid ≡ true → ((port_at s i).valid ≡ true) × (p.id ≡ (port_at s i).id))
    → Invariant.IsValid c
    → IsValid (record s { ports = set s.ports i p; caps = c; msg_seq = seq; port_active = active })
update-IsValid s i p c seq active v h ok keep cv = record {
  caps_ok = cv;
  port_ok = λ j. elim (at j) [ inl (_, f) ↦ rw f ok | inr (_, f) ↦ rw f (v.port_ok j) ];
  next_pos = v.next_pos;
  next_small = v.next_small;
  id_pos = λ j l. let (m, e) = was j l in omega (arith, v.id_pos j m, e);
  fresh = λ j l. let (m, e) = was j l in omega (arith, v.fresh j m, e);
  unique = λ j k l m e.
      let (l', ej) = was j l in let (m', ek) = was k m in v.unique j k l' m' (sym ej ∙ e ∙ ek);
}
  where
    at :
        (j : ℕ)
        → ((i ≡ j) × (get_or (set s.ports i p) j null_port ≡ p))
          ⊎ ((i ≢ j) × (get_or (set s.ports i p) j null_port ≡ port_at s j))
    at j = get_or-set s.ports i j p null_port h

    was :
        (j : ℕ)
        → (get_or (set s.ports i p) j null_port).valid ≡ true
        → ((port_at s j).valid ≡ true)
          × ((get_or (set s.ports i p) j null_port).id ≡ (port_at s j).id)
    was j l = elim (at j) [
      | inl (e, f) ↦
          let (m, d) = keep (rw f at l) in
          (
            ap (λ (k : ℕ). (port_at s k).valid) (sym e) ∙ m,
            ap (λ (q : IpcPort). q.id) f ∙ d ∙ ap (λ (k : ℕ). (port_at s k).id) e,
          )
      | inr (_, f) ↦ (rw f at l, ap (λ (q : IpcPort). q.id) f)
    ]

-- A table of `n` free slots over `c`.
abbrev pub free_ports : ℕ → Caps → Ipc
free_ports n c = record {
  ports = replicate n null_port;
  port_next_id = 1;
  port_active = 0;
  msg_seq = 1;
  caps = c;
}

free_port-at : (n i : ℕ) → get_or (replicate n null_port) i null_port ≡ null_port
free_port-at n i = get_or-replicate n i null_port

no_live_port : (n i : ℕ) → (get_or (replicate n null_port) i null_port).valid ≢ true
no_live_port n i m = cc (ap (λ (p : IpcPort). p.valid) (free_port-at n i), m)

null_port-PortOk : PortOk null_port
null_port-PortOk = record {
  size = length-replicate 64 null_msg;
  head_in = omega arith;
  count_in = omega arith;
  tail_at = omega arith;
  is_open = λ e. refl;
}

pub free_ports-IsValid : (n : ℕ) (c : Caps) → Invariant.IsValid c → IsValid (free_ports n c)
free_ports-IsValid n c v = record {
  caps_ok = v;
  port_ok = λ i. subst PortOk (sym (free_port-at n i)) null_port-PortOk;
  next_pos = omega arith;
  next_small = omega arith;
  id_pos = λ i m. absurd (no_live_port n i m);
  fresh = λ i m. absurd (no_live_port n i m);
  unique = λ i j m k e. absurd (no_live_port n i m);
}

-- `ipc_init` establishes the invariant over a valid capability table.
pub ipc_init-IsValid : (s : Ipc) → Invariant.IsValid s.caps → IsValid (ipc_init s)
unfolding ipc_init
ipc_init-IsValid s v = free_ports-IsValid 1024 s.caps v
