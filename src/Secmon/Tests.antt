-- ===== src/Secmon/Tests.antt =====
-- kernel/secmon.c: the audit log after a few events.
use new_os.Base.{ℕ, ◌-◌, ◌<◌, ◌≡◌, refl, arith, length, get_or, List, [], ◌∷◌, map}
use new_os.Secmon.{
  Secmon, AuditEvent, AuditEventType, null_event, secmon_init, secmon_dump_log, dump_from,
  record_event,
}
use new_os.Secmon.Log.{
  Holds, event_of, shown, record_event-Holds, secmon_init-Holds, secmon_dump_log-newest,
}

abbrev before : Secmon
before = record { log_buf = []; log_head = 70; log_count = 70; policy = 0; ticks = 5 }

abbrev booted : Secmon
booted = secmon_init before

abbrev history : List AuditEvent
history = event_of AuditEventType.boot 0 0 0 0 0 (record before { log_count = 0 }) ∷ []

abbrev sent : Secmon
sent = record_event AuditEventType.ipc_send 7 0 3 9 0 booted

abbrev sent_history : List AuditEvent
sent_history = event_of AuditEventType.ipc_send 7 0 3 9 0 booted ∷ history

record_event-Holds_example : Holds sent sent_history
record_event-Holds_example =
    record_event-Holds AuditEventType.ipc_send 7 0 3 9 0 booted history (secmon_init-Holds before)
      (omega arith)

sent-Holds : Holds sent sent_history
sent-Holds =
    record_event-Holds AuditEventType.ipc_send 7 0 3 9 0 booted history (secmon_init-Holds before)
      (omega arith)

dump_run :
    (length (secmon_dump_log 1 sent) ≡ shown 1 (length sent_history))
    × ((k : ℕ)
        → k < shown 1 (length sent_history)
        → get_or (secmon_dump_log 1 sent) (shown 1 (length sent_history) - 1 - k) null_event
          ≡ get_or sent_history k null_event)
dump_run = secmon_dump_log-newest 1 sent sent_history sent-Holds

all_printed : map (λ (e : AuditEvent). e.seq) (secmon_dump_log 0 sent) ≡ 0 ∷ 1 ∷ []
unfolding secmon_init record_event secmon_dump_log dump_from
all_printed = refl
