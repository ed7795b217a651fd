-- ===== src/Ipc.antt =====
-- kernel/ipc.c and include/kernel/ipc.h: message ports. The state is the file's static variables with
-- the capability table below it. A port pointer is the index of its slot.
pub mod Ports
pub mod Queue
pub mod Send
pub mod Receive
pub mod Lifecycle
pub mod Call
mod Tests
use new_os.Base.{
  ℕ, zero, suc, ◌+◌, ◌-◌, ◌%◌, ◌^◌, List, [], ◌∷◌, Option, none, some, Bool, true, false, not, ◌&&◌,
  ◌==◌, ltb, leb, if◌then◌else◌, set, get_or, replicate, inc32, dec32, bit_or, ◌>>=◌,
}
use new_os.Base.Find.{find_index}
use new_os.Secmon.{AuditEventType, CapType, secmon_audit_ipc}
use new_os.Cap.{
  Caps, cap_create, cap_check, cap_release, after_id, right_read, right_write, right_grant,
}

-- ipc_msg_t
pub record IpcMsg : Type 0 where
  pub msg_id : ℕ
  pub type : ℕ
  pub flags : ℕ
  pub reply_port : ℕ
  pub sender_tid : ℕ
  pub cap_count : ℕ
  pub caps : List ℕ
  pub data_len : ℕ
  pub payload : List ℕ

-- ipc_port_t
pub record IpcPort : Type 0 where
  pub id : ℕ
  pub cap_token : ℕ
  pub owner_tid : ℕ
  pub queue : List IpcMsg
  pub q_head : ℕ
  pub q_tail : ℕ
  pub q_count : ℕ
  pub valid : Bool
  pub closed : Bool

-- ipc_err_t
pub data IpcErr : Type 0 where
  ok err_invalid err_noperm err_full err_closed err_timeout err_again : IpcErr

pub record Ipc : Type 0 where
  pub ports : List IpcPort
  pub port_next_id : ℕ
  pub port_active : ℕ
  pub msg_seq : ℕ
  pub caps : Caps

abbrev pub ipc_port_queue_size : ℕ
ipc_port_queue_size = 64

abbrev pub ipc_max_ports : ℕ
ipc_max_ports = 1024

abbrev pub ipc_msg_caps_max : ℕ
ipc_msg_caps_max = 4

abbrev pub ipc_msg_data_max : ℕ
ipc_msg_data_max = 256

abbrev pub ipc_timeout_forever : ℕ
ipc_timeout_forever = 2 ^ 32 - 1

abbrev pub msg_flag_urgent : ℕ
msg_flag_urgent = 0x02

abbrev pub msg_flag_reply : ℕ
msg_flag_reply = 0x08

-- Slots of zero bytes.
abbrev pub null_msg : IpcMsg
null_msg = record {
  msg_id = 0;
  type = 0;
  flags = 0;
  reply_port = 0;
  sender_tid = 0;
  cap_count = 0;
  caps = replicate ipc_msg_caps_max 0;
  data_len = 0;
  payload = replicate ipc_msg_data_max 0;
}

abbrev pub null_port : IpcPort
null_port = record {
  id = 0;
  cap_token = 0;
  owner_tid = 0;
  queue = replicate ipc_port_queue_size null_msg;
  q_head = 0;
  q_tail = 0;
  q_count = 0;
  valid = false;
  closed = false;
}

abbrev pub port_at : Ipc → ℕ → IpcPort
port_at s i = get_or s.ports i null_port

abbrev pub put_port : Ipc → ℕ → IpcPort → Ipc
put_port s i p = record s { ports = set s.ports i p }

abbrev pub audit_ipc : AuditEventType → ℕ → ℕ → ℕ → Ipc → Ipc
audit_ipc t actor port_id msg_type s = record s {
  caps = record caps { log = secmon_audit_ipc t actor port_id msg_type caps.log };
}
  where
    open s use {caps}

abbrev pub has_port_id : ℕ → IpcPort → Bool
has_port_id id p = p.valid && p.id == id

abbrev pub is_free_port : IpcPort → Bool
is_free_port p = not p.valid

unfoldable pub find_port : ℕ → Ipc → Option ℕ
find_port id s = if id == 0 then none else find_index (has_port_id id) s.ports

unfoldable pub alloc_port : Ipc → Option ℕ
alloc_port s = find_index is_free_port s.ports

unfoldable pub ipc_init : Ipc → Ipc
ipc_init s = record s {
  ports = replicate ipc_max_ports null_port;
  port_next_id = 1;
  port_active = 0;
  msg_seq = 1;
}

-- The capability's object is the address of the port's slot, which `addr` gives.
module _ (addr : ℕ → ℕ) where
  unfoldable pub ipc_port_create : ℕ → Ipc → ℕ × Ipc
  ipc_port_create owner s = elim (alloc_port s) [
    | none ↦ (0, s)
    | some i ↦
        let id = s.port_next_id in
        let (token, caps') =
          cap_create CapType.port (bit_or (bit_or right_read right_write) right_grant) (addr i)
            owner s.caps in
        let p = port_at s i in
        (
          id,
          record s {
            ports = set s.ports i (record p {
              id = id;
              cap_token = token;
              owner_tid = owner;
              q_head = 0;
              q_tail = 0;
              q_count = 0;
              valid = true;
              closed = false;
            });
            port_next_id = after_id id;
            port_active = inc32 s.port_active;
            caps = caps';
          },
        )
  ]

unfoldable pub ipc_port_destroy : ℕ → Ipc → Ipc
ipc_port_destroy id s = elim (find_port id s) [
  | none ↦ s
  | some i ↦
      let p = port_at s i in
      record s {
        ports = set s.ports i (record p { cap_token = 0; valid = false; closed = true });
        port_active = dec32 s.port_active;
        caps = if p.cap_token == 0 then s.caps else cap_release p.cap_token s.caps;
      }
]

unfoldable pub ipc_port_cap : ℕ → Ipc → ℕ
ipc_port_cap id s = elim (find_port id s) [ none ↦ 0 | some i ↦ (port_at s i).cap_token ]

-- The loop that validates the first `n` capabilities of a message, from the last one down: it only
-- asks whether one of them fails.
unfoldable pub all_grantable : ℕ → List ℕ → Caps → Bool
all_grantable zero tokens c = true
all_grantable (suc n) tokens c =
    all_grantable n tokens c && cap_check (get_or tokens n 0) right_grant c

abbrev pub caps_sent : IpcMsg → ℕ
caps_sent m = if ltb m.cap_count ipc_msg_caps_max then m.cap_count else ipc_msg_caps_max

-- The message as it is queued, and the port with it behind its last message.
abbrev pub stamp : ℕ → IpcMsg → IpcMsg
stamp seq m = record m { msg_id = seq }

abbrev pub enqueue : IpcMsg → IpcPort → IpcPort
enqueue m p = record p {
  queue = set p.queue p.q_tail m;
  q_tail = (p.q_tail + 1) % ipc_port_queue_size;
  q_count = inc32 p.q_count;
}

unfoldable pub ipc_send_at : ℕ → ℕ → IpcMsg → Ipc → IpcErr × Ipc
ipc_send_at i id m s =
    let p = port_at s i in
    if p.closed
    then (err_closed, s)
    else if leb ipc_port_queue_size p.q_count
    then (err_full, s)
    else if not (all_grantable (caps_sent m) m.caps s.caps)
    then (err_noperm, s)
    else (
      ok,
      audit_ipc AuditEventType.ipc_send m.sender_tid id m.type (record s {
        ports = set s.ports i (enqueue (stamp s.msg_seq m) p);
        msg_seq = inc32 s.msg_seq;
      }),
    )

-- `none` is a null pointer to the message.
unfoldable pub ipc_send : ℕ → Option IpcMsg → Ipc → IpcErr × Ipc
ipc_send id none s = (err_invalid, s)
ipc_send id (some m) s = elim (find_port id s) [
  | none ↦ (err_invalid, s)
  | some i ↦ ipc_send_at i id m s
]

abbrev pub dequeue : IpcPort → IpcPort
dequeue p = record p { q_head = (p.q_head + 1) % ipc_port_queue_size; q_count = p.q_count - 1 }

-- What `ipc_receive` gives: the result, what it wrote to `*out`, and the state.
abbrev pub Received : Type 0
Received = IpcErr × Option IpcMsg × Ipc

-- A port with a message gives its oldest one.
abbrev pub take_message : ℕ → ℕ → Ipc → Received
take_message i id s =
    let p = port_at s i in
    let m = get_or p.queue p.q_head null_msg in
    (
      ok,
      some m,
      audit_ipc AuditEventType.ipc_recv m.sender_tid id m.type (put_port s i (dequeue p)),
    )

-- The blocking loop on the port in slot `i`. `others k` is what the rest of the system does while the
-- task is away in its `k`-th `scheduler_yield`. `none` means that the fuel ran out.
module _ (others : ℕ → Ipc → Ipc) where
  unfoldable pub receive_loop : ℕ → ℕ → ℕ → ℕ → ℕ → ℕ → Ipc → Option Received
  receive_loop zero i id timeout waited k s = none
  receive_loop (suc fuel) i id timeout waited k s =
      let later = receive_loop fuel i id timeout ((waited + 2) % 2 ^ 32) (k + 1) (others k s) in
      if ltb 0 (port_at s i).q_count
      then some (take_message i id s)
      else if (port_at s i).closed
      then some (err_closed, none, s)
      else if timeout == 0
      then some (err_again, none, s)
      else if not (timeout == ipc_timeout_forever) && leb timeout waited
      then some (err_timeout, none, s)
      else later

  unfoldable pub ipc_receive : ℕ → ℕ → ℕ → Ipc → Option Received
  ipc_receive fuel id timeout s = elim (find_port id s) [
    | none ↦ some (err_invalid, none, s)
    | some i ↦ receive_loop fuel i id timeout 0 0 s
  ]

  -- On success `*msg` holds the reply; otherwise it is the request with its reply port.
  unfoldable pub ipc_call : (ℕ → ℕ) → ℕ → ℕ → IpcMsg → ℕ → Ipc → Option (IpcErr × IpcMsg × Ipc)
  ipc_call addr fuel id m timeout s =
      let (reply, s1) = ipc_port_create addr m.sender_tid s in
      let request = record m { reply_port = reply } in
      let (err, s2) = ipc_send id (some request) s1 in
      if reply == 0 then some (err_invalid, m, s1) else elim err [
        | ok ↦ ipc_receive fuel reply timeout s2 >>= λ r.
            some (r.0, or_request request r.1, ipc_port_destroy reply r.2)
        | e ↦ some (e, request, ipc_port_destroy reply s2)
      ]
    where
      or_request : IpcMsg → Option IpcMsg → IpcMsg
      or_request q none = q
      or_request q (some a) = a

unfoldable pub ipc_reply : IpcMsg → IpcMsg → Ipc → IpcErr × Ipc
ipc_reply request answer s =
    if request.reply_port == 0
    then (err_invalid, s)
    else ipc_send request.reply_port
        (some (record answer { flags = bit_or answer.flags msg_flag_reply; msg_id = s.msg_seq }))
        (record s { msg_seq = inc32 s.msg_seq })

unfoldable pub ipc_pending : ℕ → Ipc → ℕ
ipc_pending id s = elim (find_port id s) [ none ↦ 0 | some i ↦ (port_at s i).q_count ]
