-- ===== src/Secmon.antt =====
-- kernel/secmon.c and include/kernel/secmon.h: the audit ring buffer and the policy checks.
-- The state is the file's static variables, with the tick counter of drivers/timer.c that
-- `timer_get_ticks` reads. Messages to the console (kinfo, klog_warn) are left out.
pub mod Log
mod Tests
use new_os.Base.{
  ℕ, zero, suc, ◌+◌, ◌-◌, ◌*◌, ◌%◌, ◌^◌, List, [], ◌∷◌, Bool, true, false, not, ◌&&◌, ◌||◌, ◌==◌,
  ltb, if◌then◌else◌, set, get_or, replicate, inc32, bit_and, bit_or,
}
use new_os.Libc.{strlen}

pub data AuditEventType : Type 0 where
  cap_create cap_derive cap_revoke cap_transfer : AuditEventType
  ipc_send ipc_recv : AuditEventType
  svc_register svc_lookup svc_unregister : AuditEventType
  policy_deny boot panic : AuditEventType

pub record AuditEvent : Type 0 where
  pub seq : ℕ
  pub timestamp : ℕ
  pub type : AuditEventType
  pub actor_tid : ℕ
  pub cap : ℕ
  pub port : ℕ
  pub detail0 : ℕ
  pub detail1 : ℕ

pub record Secmon : Type 0 where
  pub log_buf : List AuditEvent
  pub log_head : ℕ
  pub log_count : ℕ
  pub policy : ℕ
  pub ticks : ℕ

abbrev pub secmon_log_size : ℕ
secmon_log_size = 512

abbrev pub secpol_deny_irqcap_userland : ℕ
secpol_deny_irqcap_userland = 0x01

abbrev pub secpol_log_all_ipc : ℕ
secpol_log_all_ipc = 0x02

-- An event of zero bytes. The type's zero is no member of the enumeration, so a cleared slot shows
-- an arbitrary one; no property reads the type of a slot that was never written.
abbrev pub null_event : AuditEvent
null_event = record {
  seq = 0;
  timestamp = 0;
  type = boot;
  actor_tid = 0;
  cap = 0;
  port = 0;
  detail0 = 0;
  detail1 = 0;
}

unfoldable pub record_event : AuditEventType → ℕ → ℕ → ℕ → ℕ → ℕ → Secmon → Secmon
record_event t actor c p d0 d1 s = record s {
  log_buf = set log_buf (log_head % secmon_log_size) event;
  log_head = inc32 log_head;
  log_count = inc32 log_count;
}
  where
    open s use {log_buf, log_head, log_count, ticks}

    event : AuditEvent
    event = record {
      seq = log_count;
      timestamp = ticks;
      type = t;
      actor_tid = actor;
      cap = c;
      port = p;
      detail0 = d0;
      detail1 = d1;
    }

unfoldable pub secmon_init : Secmon → Secmon
unfolding record_event
secmon_init s = record_event boot 0 0 0 0 0 (record s {
  log_buf = replicate secmon_log_size null_event;
  log_head = 0;
  log_count = 0;
  policy = secpol_deny_irqcap_userland;
})

unfoldable pub secmon_audit_cap : AuditEventType → ℕ → ℕ → ℕ → ℕ → Secmon → Secmon
unfolding record_event
secmon_audit_cap t actor c d0 d1 s = record_event t actor c 0 d0 d1 s

abbrev is_ipc_send : AuditEventType → Bool
is_ipc_send ipc_send = true
is_ipc_send _ = false

unfoldable pub secmon_audit_ipc : AuditEventType → ℕ → ℕ → ℕ → Secmon → Secmon
unfolding record_event
secmon_audit_ipc t actor p msg_type s =
    if is_ipc_send t && bit_and s.policy secpol_log_all_ipc == 0
    then s
    else record_event t actor 0 p msg_type 0 s

-- Up to `n` bytes from byte `i` on, the first in the low byte.
pack_bytes : ℕ → ℕ → List ℕ → ℕ
pack_bytes zero i name = 0
pack_bytes (suc n) i name = bit_or (pack_bytes n i name) (get_or name (i + n) 0 * 2 ^ (n * 8))

abbrev at_most_four : ℕ → ℕ
at_most_four n = if ltb 4 n then 4 else n

unfoldable pub secmon_audit_svc : AuditEventType → ℕ → List ℕ → Secmon → Secmon
unfolding record_event strlen pack_bytes
secmon_audit_svc t actor name s =
    record_event t actor 0 0 (pack_bytes (at_most_four (strlen name)) 0 name)
      (if ltb 4 (strlen name) then pack_bytes (at_most_four (strlen name - 4)) 4 name else 0) s

-- cap_type_t
pub data CapType : Type 0 where
  null memory port service device file task display irqline : CapType

abbrev pub cap_type_code : CapType → ℕ
cap_type_code null = 0
cap_type_code memory = 1
cap_type_code CapType.port = 2
cap_type_code service = 3
cap_type_code device = 4
cap_type_code file = 5
cap_type_code task = 6
cap_type_code display = 7
cap_type_code irqline = 8

abbrev is_irqline : CapType → Bool
is_irqline irqline = true
is_irqline _ = false

unfoldable pub secmon_check_cap_create : ℕ → CapType → Secmon → Bool × Secmon
unfolding record_event
secmon_check_cap_create actor t s =
    if is_irqline t && not (bit_and s.policy secpol_deny_irqcap_userland == 0) && not (actor == 0)
    then (false, record_event policy_deny actor 0 0 (cap_type_code t) 0 s)
    else (true, s)

unfoldable pub secmon_check_irq_access : ℕ → Secmon → Bool × Secmon
unfolding secmon_check_cap_create
secmon_check_irq_access actor s = secmon_check_cap_create actor irqline s

unfoldable pub secmon_set_policy : ℕ → Secmon → Secmon
secmon_set_policy flags s = record s { policy = flags }

-- The events that `secmon_dump_log` prints, oldest first. `last_n` is a C int; the code treats a
-- negative one as it treats 0, so 0 stands for those too.
unfoldable pub dump_from : ℕ → ℕ → Secmon → List AuditEvent
dump_from zero i s = []
dump_from (suc n) i s = get_or s.log_buf (i % secmon_log_size) null_event ∷ dump_from n (i + 1) s

-- How many events a dump of `last_n` asks for, and the number of the first.
abbrev pub dump_size : ℕ → ℕ
dump_size last_n = if last_n == 0 || ltb secmon_log_size last_n then secmon_log_size else last_n

abbrev pub dump_start : ℕ → ℕ → ℕ
dump_start n total = if ltb n total then total - n else 0

unfoldable pub secmon_dump_log : ℕ → Secmon → List AuditEvent
secmon_dump_log last_n s =
    let start = dump_start (dump_size last_n) s.log_count in dump_from (s.log_count - start) start s
