-- ===== src/Ipc/Lifecycle.antt =====
-- kernel/ipc.c: `ipc_port_create` and `ipc_port_destroy`.
use new_os.Base.{
  ℕ, ◌+◌, ◌^◌, ◌<◌, ◌≡◌, ◌≢◌, ◌∙◌, refl, sym, ap, none, some, true, false, arith, length, if-elim,
  [], set, get_or-set, get_or-set_self, get_or-set_ne, length-set, Option-cases, ◌==◌, ◌⊎◌, inl,
  inr, inc32, dec32, if◌then◌else◌, bit_or,
}
use new_os.Secmon.{CapType}
use new_os.Cap.{Caps, cap_create, cap_release, after_id, right_read, right_write, right_grant}
use new_os.Cap.Invariant
use new_os.Cap.Create.{cap_create_lem}
use new_os.Cap.Release.{cap_release_lem}
use new_os.Ipc.{
  Ipc, IpcPort, null_port, port_at, find_port, alloc_port, ipc_port_create, ipc_port_destroy,
}
use new_os.Ipc.Ports.{
  PortOk, IsValid, Open, find_port-Open, find_port-of_Open, alloc_port-free, update-IsValid,
}
use new_os.Ipc.Queue.{contents}

module _ (s : Ipc) (i owner token active : ℕ) (c : Caps) (v : IsValid s)
    (free_range : i < length s.ports) (small : s.port_next_id + 1 < 2 ^ 32)
    (cv : Invariant.IsValid c) where
  abbrev fresh_port : IpcPort
  fresh_port = record (port_at s i) {
    id = s.port_next_id;
    cap_token = token;
    owner_tid = owner;
    q_head = 0;
    q_tail = 0;
    q_count = 0;
    valid = true;
    closed = false;
  }

  abbrev pub with_port : Ipc
  with_port = record s {
    ports = set s.ports i fresh_port;
    port_next_id = after_id s.port_next_id;
    port_active = active;
    caps = c;
  }

  with_port-at :
      (j : ℕ)
      → ((i ≡ j) × (port_at with_port j ≡ fresh_port))
        ⊎ ((i ≢ j) × (port_at with_port j ≡ port_at s j))
  with_port-at j = get_or-set s.ports i j fresh_port null_port free_range

  fresh_port-PortOk : PortOk fresh_port
  fresh_port-PortOk = record {
    size = (v.port_ok i).size;
    head_in = omega arith;
    count_in = omega arith;
    tail_at = refl;
    is_open = λ _. refl;
  }

  pub with_port-IsValid : IsValid with_port
  with_port-IsValid = record {
    caps_ok = cv;
    port_ok = λ j. elim (with_port-at j) [
      | inl (_, f) ↦ rw f fresh_port-PortOk
      | inr (_, f) ↦ rw f (v.port_ok j)
    ];
    next_pos = ground arith;
    next_small = ground arith;
    id_pos = λ j l. elim (with_port-at j) [
      | inl (_, f) ↦ rw f v.next_pos
      | inr (_, f) ↦ rw f (v.id_pos j (rw f at l))
    ];
    fresh = λ j l. elim (with_port-at j) [
      | inl (_, f) ↦ rw f (ground arith)
      | inr (_, f) ↦ rw f (let w = v.fresh j (rw f at l) in ground arith)
    ];
    unique = λ j k l m e. elim (with_port-at j) [
      | inl (x, f) ↦ elim (with_port-at k) [
        | inl (y, g) ↦ sym x ∙ y
        | inr (y, g) ↦ absurd (
            omega (
              arith,
              v.fresh k (rw g at m),
              ap (λ (p : IpcPort). p.id) f,
              ap (λ (p : IpcPort). p.id) g,
              e,
            ))
      ]
      | inr (x, f) ↦ elim (with_port-at k) [
        | inl (y, g) ↦ absurd (
            omega (
              arith,
              v.fresh j (rw f at l),
              ap (λ (p : IpcPort). p.id) f,
              ap (λ (p : IpcPort). p.id) g,
              e,
            ))
        | inr (y, g) ↦ v.unique j k (rw f at l) (rw g at m) (rw (f, g) at e)
      ]
    ];
  }

  with_port-at_self : port_at with_port i ≡ fresh_port
  with_port-at_self = get_or-set_self s.ports i fresh_port null_port free_range

  pub with_port-found : find_port s.port_next_id with_port ≡ some i
  with_port-found = find_port-of_Open s.port_next_id with_port i with_port-IsValid (record {
    in_range = omega (arith, length-set s.ports i fresh_port, free_range);
    is_live = ap (λ (p : IpcPort). p.valid) with_port-at_self;
    same_id = ap (λ (p : IpcPort). p.id) with_port-at_self;
    id_ne_zero = λ z. omega (arith, v.next_pos);
  })

  pub with_port-empty : contents (port_at with_port i) ≡ []
  with_port-empty = ap contents with_port-at_self

-- In a valid state, before the port and token counters reach 2^32, creating a port keeps the
-- invariant. It answers 0, with no change, or the new port has the next number, is found under it
-- and holds no message.
pub ipc_port_create_lem :
    (addr : ℕ → ℕ) (owner : ℕ) (s : Ipc)
    → IsValid s
    → s.port_next_id + 1 < 2 ^ 32
    → s.caps.next_id + 1 < 2 ^ 32
    → let (id, s') = ipc_port_create addr owner s in
      IsValid s'
      × ((id ≡ 0) × (s' ≡ s)
          ⊎ (id ≡ s.port_next_id)
            × ((i : ℕ) × (find_port id s' ≡ some i) × (contents (port_at s' i) ≡ [])))
unfolding ipc_port_create
ipc_port_create_lem addr owner s v small small' = elim (Option-cases (alloc_port s)) [
  | inl e ↦ rw (e, ipc_port_create) (v, inl (refl, refl))
  | inr (i, e) ↦
      let (free_range, free) = alloc_port-free s i e in
      let r =
        cap_create CapType.port (bit_or (bit_or right_read right_write) right_grant) (addr i) owner
          s.caps in
      let cv =
        (cap_create_lem CapType.port 19 (addr i) owner s.caps v.caps_ok (omega arith) small').0 in
      rw (e, ipc_port_create)
        (
          with_port-IsValid s i owner r.0 (inc32 s.port_active) r.1 v free_range small cv,
          inr (
            refl,
            (
              i,
              with_port-found s i owner r.0 (inc32 s.port_active) r.1 v free_range small cv,
              with_port-empty s i owner r.0 (inc32 s.port_active) r.1 v free_range small cv,
            ),
          ),
        )
]

module _ (s : Ipc) (id i active : ℕ) (c : Caps) (v : IsValid s) (h : Open id s i)
    (cv : Invariant.IsValid c) where
  abbrev dead_port : IpcPort
  dead_port = record (port_at s i) { cap_token = 0; valid = false; closed = true }

  abbrev pub without_port : Ipc
  without_port = record s { ports = set s.ports i dead_port; port_active = active; caps = c }

  pub without_port-IsValid : IsValid without_port
  without_port-IsValid =
      let w = v.port_ok i in
      update-IsValid s i dead_port c s.msg_seq active v h.in_range
        (record {
          size = w.size;
          head_in = w.head_in;
          count_in = w.count_in;
          tail_at = w.tail_at;
          is_open = λ l. absurd (cc);
        })
        (λ l. absurd (cc)) cv

  pub without_port-none : find_port id without_port ≡ none
  without_port-none = elim (Option-cases (find_port id without_port)) [
    | inl e ↦ e
    | inr (j, e) ↦
        let o = find_port-Open id without_port j e in
        elim (get_or-set s.ports i j dead_port null_port h.in_range) [
          | inl (_, f) ↦ absurd (cc (ap (λ (p : IpcPort). p.valid) f, o.is_live))
          | inr (ne, f) ↦ absurd (
              ne (
                v.unique i j h.is_live (rw f at o.is_live)
                  (h.same_id ∙ sym o.same_id ∙ ap (λ (p : IpcPort). p.id) f)))
        ]
  ]

  pub without_port-others : (j : ℕ) → (port_at s j).id ≢ id → port_at without_port j ≡ port_at s j
  without_port-others j ne =
      get_or-set_ne s.ports i j dead_port null_port
        (λ e. ne (ap (λ (k : ℕ). (port_at s k).id) (sym e) ∙ h.same_id))

-- In a valid state, destroying a port keeps the invariant, no port is found under its number
-- afterwards, and the slots with other numbers are as they were.
pub ipc_port_destroy_lem :
    (id : ℕ) (s : Ipc)
    → IsValid s
    → IsValid (ipc_port_destroy id s)
      × (find_port id (ipc_port_destroy id s) ≡ none)
      × ((j : ℕ) → (port_at s j).id ≢ id → port_at (ipc_port_destroy id s) j ≡ port_at s j)
unfolding ipc_port_destroy
ipc_port_destroy_lem id s v = elim (Option-cases (find_port id s)) [
  | inl e ↦ rw (e, ipc_port_destroy) (v, e, λ j ne. refl)
  | inr (i, e) ↦
      let h = find_port-Open id s i e in
      let c =
        if (port_at s i).cap_token == 0
        then s.caps
        else cap_release (port_at s i).cap_token s.caps in
      let cv : Invariant.IsValid c =
        if-elim Invariant.IsValid ((port_at s i).cap_token == 0) v.caps_ok
          (cap_release_lem (port_at s i).cap_token s.caps v.caps_ok).2 in
      rw (e, ipc_port_destroy)
        (
          without_port-IsValid s id i (dec32 s.port_active) c v h cv,
          without_port-none s id i (dec32 s.port_active) c v h cv,
          without_port-others s id i (dec32 s.port_active) c v h cv,
        )
]
