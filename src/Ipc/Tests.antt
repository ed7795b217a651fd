-- ===== src/Ipc/Tests.antt =====
-- kernel/ipc.c: two ports, a message, and the theorems at them.
use new_os.Base.{◌<◌, ◌^◌, ℕ, ◌+◌, ◌*◌, ◌≡◌, ◌≢◌, ◌⊎◌, refl, arith, none, some, []}
use new_os.Base.Find.{find_index}
use new_os.Cap.Invariant
use new_os.Cap.Invariant.{free_table, free_table-IsValid}
use new_os.Cap.{Caps, cap_create, alloc_slot}
use new_os.Ipc.{
  Ipc, IpcMsg, Received, ok, err_closed, port_at, null_msg, find_port, alloc_port, ipc_init,
  ipc_port_create, ipc_port_destroy, ipc_call, ipc_send, ipc_send_at, all_grantable, ipc_receive,
}
use new_os.Ipc.Ports.{IsValid, free_ports, free_ports-IsValid, ipc_init-IsValid}
use new_os.Ipc.Queue.{contents}
use new_os.Ipc.Send.{Sent, ipc_send-Sent, ipc_send-ne-err_closed}
use new_os.Ipc.Receive.{Taken, ipc_receive-Taken, ipc_receive_ends}
use new_os.Ipc.Call.{KeepsPorts, Cleaned, ipc_call_lem}
use new_os.Ipc.Lifecycle.{ipc_port_create_lem, ipc_port_destroy_lem}

abbrev caps : Caps
caps = free_table 3 (record { log_buf = []; log_head = 0; log_count = 0; policy = 1; ticks = 0 })

caps-IsValid : Invariant.IsValid caps
caps-IsValid = free_table-IsValid 3 caps.log (omega arith)

abbrev slots : ℕ → ℕ
slots i = 4096 + 64 * i

abbrev at_boot : Ipc
at_boot = free_ports 2 caps

at_boot-IsValid : IsValid at_boot
at_boot-IsValid = free_ports-IsValid 2 caps caps-IsValid

boot-IsValid : IsValid (ipc_init at_boot)
boot-IsValid = ipc_init-IsValid at_boot caps-IsValid

-- One port, number 1.
abbrev one : Ipc
one = (ipc_port_create slots 5 at_boot).1

one-IsValid : IsValid one
one-IsValid = (ipc_port_create_lem slots 5 at_boot at_boot-IsValid (omega arith) (omega arith)).0

one_found : find_port 1 one ≡ some 0
unfolding ipc_port_create alloc_port find_index find_port
one_found = refl

ipc_port_create_lem_case :
    let (id, s') = ipc_port_create slots 5 at_boot in
    IsValid s'
    × ((id ≡ 0) × (s' ≡ at_boot)
        ⊎ (id ≡ at_boot.port_next_id)
          × ((i : ℕ) × (find_port id s' ≡ some i) × (contents (port_at s' i) ≡ [])))
ipc_port_create_lem_case =
    ipc_port_create_lem slots 5 at_boot at_boot-IsValid (omega arith) (omega arith)

ipc_port_destroy_lem_case :
    IsValid (ipc_port_destroy 1 one)
    × (find_port 1 (ipc_port_destroy 1 one) ≡ none)
    × ((j : ℕ) → (port_at one j).id ≢ 1 → port_at (ipc_port_destroy 1 one) j ≡ port_at one j)
ipc_port_destroy_lem_case = ipc_port_destroy_lem 1 one one-IsValid

abbrev hello : IpcMsg
hello = record null_msg { type = 9; sender_tid = 5; flags = 0x02 }

abbrev sent : Ipc
sent = (ipc_send 1 (some hello) one).1

ipc_send-Sent_example : Sent 0 hello one (ipc_send 1 (some hello) one)
ipc_send-Sent_example = ipc_send-Sent 1 0 hello one one-IsValid one_found

sent_ok : (ipc_send 1 (some hello) one).0 ≡ ok
unfolding ipc_port_create alloc_port find_index find_port ipc_send ipc_send_at all_grantable
sent_ok = refl

ipc_send-ne-err_closed_example : (ipc_send 1 (some hello) one).0 ≢ err_closed
ipc_send-ne-err_closed_example = ipc_send-ne-err_closed 1 (some hello) one one-IsValid

sent-IsValid : IsValid sent
sent-IsValid = (ipc_send-Sent 1 0 hello one one-IsValid one_found).valid

abbrev idle : ℕ → Ipc → Ipc
idle k s = s

abbrev stamped : IpcMsg
stamped = record hello { msg_id = 1 }

ipc_receive-Taken_example :
    (s' : Ipc) × (ipc_receive idle 1 1 0 sent ≡ some (ok, some stamped, s'))
    × Taken 0 sent stamped s'
unfolding ipc_port_create alloc_port find_index find_port ipc_send ipc_send_at all_grantable
ipc_receive-Taken_example = ipc_receive-Taken idle 0 1 0 0 sent stamped [] sent-IsValid refl refl

ipc_receive_ends_example : (r : Received) × (ipc_receive idle 6 1 10 one ≡ some r)
ipc_receive_ends_example = ipc_receive_ends idle 6 1 10 one (omega arith) (omega arith)

one_ports_small : one.port_next_id + 1 < 2 ^ 32
unfolding ipc_port_create alloc_port find_index
one_ports_small = omega arith

one_tokens_small : one.caps.next_id + 1 < 2 ^ 32
unfolding ipc_port_create alloc_port find_index cap_create alloc_slot
one_tokens_small = omega arith

idle-KeepsPorts : KeepsPorts idle
unfolding KeepsPorts
idle-KeepsPorts k s v = (v, refl)

ipc_call_lem_example :
    Cleaned (ipc_port_create slots 5 one).0 (ipc_call idle slots 6 1 hello 10 one)
ipc_call_lem_example =
    ipc_call_lem idle slots 6 1 hello 10 one idle-KeepsPorts one-IsValid one_ports_small
      one_tokens_small (omega arith) (omega arith)
