-- ===== src/Ipc/Call.antt =====
-- kernel/ipc.c: `ipc_call` and the port that it makes for the reply.
use new_os.Base.{
  ℕ, zero, suc, ◌+◌, ◌/◌, ◌%◌, ◌^◌, ◌<◌, ◌≡◌, refl, Option, none, some, not, ◌&&◌, arith, length,
  Bool-cases, Option-cases, ◌==◌, inl, inr, ltb, leb, if-elim, ◌>>=◌,
}
use new_os.Ipc.{
  Ipc, IpcMsg, IpcErr, Received, ok, err_invalid, err_noperm, err_full, err_closed, err_timeout,
  err_again, port_at, find_port, ipc_port_create, ipc_port_destroy, ipc_send, ipc_receive,
  receive_loop, ipc_call, ipc_timeout_forever,
}
use new_os.Ipc.Ports.{IsValid, find_port-Open}
use new_os.Ipc.Send.{ipc_send-Sent, ipc_send_invalid}
use new_os.Ipc.Receive.{take_message-Taken, ipc_receive_ends}
use new_os.Ipc.Lifecycle.{ipc_port_create_lem, ipc_port_destroy_lem}

-- What the rest of the system does while a task waits keeps the invariant and the size of the table.
unfoldable pub KeepsPorts : (ℕ → Ipc → Ipc) → Type 0
KeepsPorts others =
    (k : ℕ) (s : Ipc)
    → IsValid s
    → IsValid (others k s) × (length (others k s).ports ≡ length s.ports)

abbrev EndsValid : Option Received → Type 0
EndsValid none = Unit
EndsValid (some r) = IsValid r.2

module _ (others : ℕ → Ipc → Ipc) (keeps : KeepsPorts others) where
  receive_loop-EndsValid :
      (fuel i id timeout waited k : ℕ) (s : Ipc)
      → IsValid s
      → i < length s.ports
      → EndsValid (receive_loop others fuel i id timeout waited k s)
  unfolding receive_loop KeepsPorts
  receive_loop-EndsValid zero i id timeout waited k s v h = tt
  receive_loop-EndsValid (suc fuel) i id timeout waited k s v h =
      elim (Bool-cases (ltb 0 (port_at s i).q_count)) [
        | inl a ↦ rw (a, receive_loop) (take_message-Taken i id s v h (ground (arith, a))).valid
        | inr a ↦
            let (w, l) = keeps k s v in
            let rest =
              receive_loop-EndsValid fuel i id timeout ((waited + 2) % 2 ^ 32) (k + 1) (others k s)
                w (omega (arith, h, l)) in
            rw (a, receive_loop)
              (if-elim EndsValid (port_at s i).closed v (
                if-elim EndsValid (timeout == 0) v (
                  if-elim EndsValid (not (timeout == ipc_timeout_forever) && leb timeout waited) v
                    rest)))
      ]

  ipc_receive-EndsValid :
      (fuel id timeout : ℕ) (s : Ipc) → IsValid s → EndsValid (ipc_receive others fuel id timeout s)
  unfolding ipc_receive
  ipc_receive-EndsValid fuel id timeout s v = elim (Option-cases (find_port id s)) [
    | inl e ↦ rw (e, ipc_receive) v
    | inr (i, e) ↦
        rw (e, ipc_receive)
          (receive_loop-EndsValid fuel i id timeout 0 0 s v (find_port-Open id s i e).in_range)
  ]

ipc_send-IsValid : (id : ℕ) (m : IpcMsg) (s : Ipc) → IsValid s → IsValid (ipc_send id (some m) s).1
ipc_send-IsValid id m s v = elim (Option-cases (find_port id s)) [
  | inl e ↦ rw (ipc_send_invalid id (some m) s (inl e)) v
  | inr (i, e) ↦ (ipc_send-Sent id i m s v e).valid
]

-- A call has a result, the state is valid, and the port for the reply is gone.
abbrev pub Cleaned : ℕ → Option (IpcErr × IpcMsg × Ipc) → Type 0
Cleaned reply none = ⊥
Cleaned reply (some r) = IsValid r.2 × (find_port reply r.2 ≡ none)

destroyed-Cleaned :
    (reply : ℕ) (err : IpcErr) (q : IpcMsg) (s : Ipc)
    → IsValid s
    → Cleaned reply (some (err, q, ipc_port_destroy reply s))
destroyed-Cleaned reply err q s v = let (w, gone, _) = ipc_port_destroy_lem reply s v in (w, gone)

received-Cleaned :
    (reply : ℕ) (answer : Option IpcMsg → IpcMsg) (o : Option Received)
    → EndsValid o
    → (r : Received) × (o ≡ some r)
    → Cleaned reply (o >>= λ r. some (r.0, answer r.1, ipc_port_destroy reply r.2))
received-Cleaned reply answer none v (r, e) = absurd (ground (arith, e))
received-Cleaned reply answer (some r) v ends = destroyed-Cleaned reply r.0 (answer r.1) r.2 v

answered-Cleaned :
    (reply : ℕ) (request : IpcMsg) (err : IpcErr) (s : Ipc) (o : Option (IpcErr × IpcMsg × Ipc))
    → IsValid s
    → Cleaned reply o
    → Cleaned reply (elim err [ ok ↦ o | e ↦ some (e, request, ipc_port_destroy reply s) ])
answered-Cleaned reply request ok s o v c = c
answered-Cleaned reply request err_invalid s o v c = destroyed-Cleaned reply err_invalid request s v
answered-Cleaned reply request err_noperm s o v c = destroyed-Cleaned reply err_noperm request s v
answered-Cleaned reply request err_full s o v c = destroyed-Cleaned reply err_full request s v
answered-Cleaned reply request err_closed s o v c = destroyed-Cleaned reply err_closed request s v
answered-Cleaned reply request err_timeout s o v c = destroyed-Cleaned reply err_timeout request s v
answered-Cleaned reply request err_again s o v c = destroyed-Cleaned reply err_again request s v

zero_missing : (reply : ℕ) (s : Ipc) → reply ≡ 0 → find_port reply s ≡ none
unfolding find_port
zero_missing reply s e = rw e refl

-- In a valid state, before the port and token counters reach 2^32, with other tasks that keep the state
-- valid and the size of the port table, a timeout other than IPC_TIMEOUT_FOREVER and fuel for more than
-- (timeout + 1) / 2 rounds: a call gives a result, and on whatever way out the state is valid and the
-- port made for the reply is gone.
pub ipc_call_lem :
    (others : ℕ → Ipc → Ipc) (addr : ℕ → ℕ) (fuel id : ℕ) (m : IpcMsg) (timeout : ℕ) (s : Ipc)
    → KeepsPorts others
    → IsValid s
    → s.port_next_id + 1 < 2 ^ 32
    → s.caps.next_id + 1 < 2 ^ 32
    → timeout < ipc_timeout_forever
    → (timeout + 1) / 2 < fuel
    → Cleaned (ipc_port_create addr m.sender_tid s).0 (ipc_call others addr fuel id m timeout s)
unfolding ipc_call
ipc_call_lem others addr fuel id m timeout s keeps v small small' finite enough =
    let (reply, s1) = ipc_port_create addr m.sender_tid s in
    let v1 = (ipc_port_create_lem addr m.sender_tid s v small small').0 in
    let request : IpcMsg = record m { reply_port = reply } in
    let (err, s2) = ipc_send id (some request) s1 in
    let v2 = ipc_send-IsValid id request s1 v1 in
    elim (Bool-cases (reply == 0)) [
      | inl z ↦ rw (z, ipc_call) (v1, zero_missing reply s1 (ground (arith, z)))
      | inr nz ↦
          rw (nz, ipc_call)
            (answered-Cleaned reply request err s2 _ v2 (
              received-Cleaned reply _ (ipc_receive others fuel reply timeout s2)
                (ipc_receive-EndsValid others keeps fuel reply timeout s2 v2)
                (ipc_receive_ends others fuel reply timeout s2 finite enough)))
    ]
