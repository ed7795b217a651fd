-- ===== src/Secmon/Log.antt =====
-- kernel/secmon.c: the audit ring buffer as a history of events, and the dump.
use new_os.Base.{
  ℕ, ap, zero, suc, ◌+◌, ◌-◌, ◌%◌, ◌^◌, ◌≤◌, ◌<◌, ◌≡◌, refl, List, [], ◌∷◌, arith, min, length,
  get_or, length-set, get_or-set_self, get_or-set_ne, replicate, length-replicate,
}
use new_os.Secmon.{
  Secmon, AuditEvent, AuditEventType, null_event, record_event, secmon_log_size, secmon_init, boot,
  dump_from, secmon_dump_log, dump_size, dump_start,
}

-- The event that a call of `record_event` writes.
abbrev pub event_of : AuditEventType → ℕ → ℕ → ℕ → ℕ → ℕ → Secmon → AuditEvent
event_of t actor c p d0 d1 s = record {
  seq = s.log_count;
  timestamp = s.ticks;
  type = t;
  actor_tid = actor;
  cap = c;
  port = p;
  detail0 = d0;
  detail1 = d1;
}

-- `h` is the whole history of events, newest first: its last 512 stand in the ring, each in the slot
-- that its number gives.
pub record Holds (s : Secmon) (h : List AuditEvent) : Type 0 where
  pub size : length s.log_buf ≡ secmon_log_size
  pub count : s.log_count ≡ length h
  pub head : s.log_head ≡ length h
  pub kept :
      (k : ℕ)
      → k < length h
      → k < secmon_log_size
      → get_or s.log_buf ((length h - 1 - k) % secmon_log_size) null_event ≡ get_or h k null_event

-- When the ring holds the newest 512 events of a history and the 32-bit counters do not wrap, it
-- holds those of the history with the new event after `_record`.
pub record_event-Holds :
    (t : AuditEventType) (actor c p d0 d1 : ℕ) (s : Secmon) (h : List AuditEvent)
    → Holds s h
    → length h + 1 < 2 ^ 32
    → Holds (record_event t actor c p d0 d1 s) (event_of t actor c p d0 d1 s ∷ h)
unfolding record_event
record_event-Holds t actor c p d0 d1 s h v small =
    let e = event_of t actor c p d0 d1 s in
    record {
      size = omega (arith, v.size, length-set s.log_buf (s.log_head % 512) e);
      count = omega (arith, v.count);
      head = omega (arith, v.head);
      kept = elim [
        | zero ↦ λ l m.
            ground
              (arith, v.size, v.head, get_or-set_self s.log_buf (s.log_head % 512) e null_event)
        | suc k ↦ λ l m. ground (
          arith,
          v.head,
          v.kept k,
          get_or-set_ne s.log_buf (s.log_head % 512) ((length h - 1 - k) % 512) e null_event,
        )
      ];
    }

-- After `secmon_init` the history is the boot event.
pub secmon_init-Holds :
    (s : Secmon) → Holds (secmon_init s) (event_of boot 0 0 0 0 0 (record s { log_count = 0 }) ∷ [])
unfolding secmon_init
secmon_init-Holds s = record {
  size = omega (arith, length-set (replicate 512 null_event) 0 ev, length-replicate 512 null_event);
  count = refl;
  head = refl;
  kept = elim [
    | zero ↦ λ l m.
        get_or-set_self (replicate 512 null_event) 0 ev null_event
          (omega (arith, length-replicate 512 null_event))
    | suc k ↦ λ l m. absurd (omega arith)
  ];
}
  where
    ev : AuditEvent
    ev = event_of boot 0 0 0 0 0 (record s { log_count = 0 })

length-dump_from : (n i : ℕ) (s : Secmon) → length (dump_from n i s) ≡ n
unfolding dump_from
length-dump_from zero i s = refl
length-dump_from (suc n) i s = ap suc (length-dump_from n (i + 1) s)

dump_from-get :
    (s : Secmon) (h : List AuditEvent) (n i j : ℕ)
    → Holds s h
    → j < n
    → i + n ≤ length h
    → length h ≤ i + secmon_log_size
    → get_or (dump_from n i s) j null_event ≡ get_or h (length h - 1 - (i + j)) null_event
unfolding dump_from
dump_from-get s h zero i j v l a b = absurd (omega arith)
dump_from-get s h (suc n) i zero v l a b =
    let e : length h - 1 - (length h - 1 - i) ≡ i = omega arith in
    let e' : i + 0 ≡ i = omega arith in
    rw e' (rw e at (v.kept (length h - 1 - i) (omega arith) (omega arith)))
dump_from-get s h (suc n) i (suc j) v l a b =
    let e : i + 1 + j ≡ i + suc j = omega arith in
    rw e at (dump_from-get s h n (i + 1) j v (omega arith) (omega arith) (omega arith))

-- How many events a dump of `last_n` prints.
abbrev pub shown : ℕ → ℕ → ℕ
shown last_n total = min (dump_size last_n) total

-- Where the dump starts, and that the ring still holds all that it prints.
start_facts :
    (last_n total : ℕ)
    → (dump_start (dump_size last_n) total + shown last_n total ≡ total)
      × (shown last_n total ≤ secmon_log_size)
start_facts last_n total = ground arith

-- When the ring holds the newest 512 events of a history, the dump prints as many as asked for
-- (all that the ring holds, for 0 or too many), oldest first: its entry `k` from the end is the
-- event `k` from the end of the history.
pub secmon_dump_log-newest :
    (last_n : ℕ) (s : Secmon) (h : List AuditEvent)
    → Holds s h
    → (length (secmon_dump_log last_n s) ≡ shown last_n (length h))
      × ((k : ℕ)
          → k < shown last_n (length h)
          → get_or (secmon_dump_log last_n s) (shown last_n (length h) - 1 - k) null_event
            ≡ get_or h k null_event)
unfolding secmon_dump_log
secmon_dump_log-newest last_n s h v =
    let f = start_facts last_n (length h) in
    let m = shown last_n (length h) in
    let start = dump_start (dump_size last_n) (length h) in
    let size : length h - start ≡ m = omega (arith, f) in
    simp (v.count, size)
      (
        length-dump_from m start s,
        λ k l.
            let e : length h - 1 - (start + (m - 1 - k)) ≡ k = omega (arith, f) in
            rw e at (
              dump_from-get s h m start (m - 1 - k) v (omega (arith, f)) (omega (arith, f))
                (omega (arith, f))),
      )
