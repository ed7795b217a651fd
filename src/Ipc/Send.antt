-- ===== src/Ipc/Send.antt =====
-- kernel/ipc.c: `ipc_send` against the contract of a port.
use new_os.Base.{
  ℕ, ◌<◌, ◌≡◌, ◌≢◌, ◌∙◌, refl, sym, ap, Option, none, some, Bool, true, false, arith, List, [], ◌∷◌,
  ◌++◌, set, get_or-set_self, get_or-set_ne, Bool-cases, Option-cases, ◌⊎◌, inl, inr, inc32, leb,
  if◌then◌else◌,
}
use new_os.Secmon.{Secmon, AuditEventType, secmon_audit_ipc}
use new_os.Cap.{Caps}
use new_os.Cap.Child.{log-IsValid}
use new_os.Ipc.{
  Ipc, IpcPort, IpcMsg, IpcErr, ok, err_full, err_noperm, err_closed, err_invalid, null_port,
  port_at, enqueue, stamp, ipc_send, ipc_send_at, find_port, all_grantable, caps_sent,
}
use new_os.Ipc.Ports.{IsValid, Open, find_port-Open, update-IsValid}
use new_os.Ipc.Queue.{contents, length-contents, queue_send, enqueue-PortOk, contents-enqueue}

-- What a send to the port in slot `i` has done: the contract's answer and queue, the other ports as
-- they were.
pub record Sent (i : ℕ) (m : IpcMsg) (s : Ipc) (r : IpcErr × Ipc) : Type 0 where
  pub valid : IsValid r.1
  pub queued :
      (r.0, contents (port_at r.1 i))
      ≡ queue_send
          (all_grantable (caps_sent m) m.caps s.caps)
          (stamp s.msg_seq m)
          (contents (port_at s i))
  pub others : (j : ℕ) → i ≢ j → port_at r.1 j ≡ port_at s j

module _ (i id : ℕ) (m : IpcMsg) (s : Ipc) (v : IsValid s) (h : Open id s i) where
  abbrev p : IpcPort
  p = port_at s i

  abbrev granted : Bool
  granted = all_grantable (caps_sent m) m.caps s.caps

  spec_full :
      leb 64 p.q_count ≡ true
      → queue_send granted (stamp s.msg_seq m) (contents p) ≡ (err_full, contents p)
  unfolding queue_send
  spec_full e = rw (length-contents p) (rw e refl)

  spec_room :
      leb 64 p.q_count ≡ false
      → queue_send granted (stamp s.msg_seq m) (contents p) ≡ (
          if granted
          then (ok, contents p ++ (stamp s.msg_seq m ∷ []))
          else (err_noperm, contents p))
  unfolding queue_send
  spec_room e = rw (length-contents p) (rw e refl)

  abbrev stored : IpcPort
  stored = enqueue (stamp s.msg_seq m) p

  -- The state that a send which went through leaves, up to the audit log.
  abbrev after_send : Caps → ℕ → Ipc
  after_send c seq = record s { ports = set s.ports i stored; msg_seq = seq; caps = c }

  after_send-Sent :
      (l : Secmon) (seq : ℕ)
      → leb 64 p.q_count ≡ false
      → granted ≡ true
      → Sent i m s (ok, after_send (record (s.caps) { log = l }) seq)
  after_send-Sent l seq room may =
      let few : p.q_count < 64 = ground arith in
      let w = v.port_ok i in
      let at = get_or-set_self s.ports i stored null_port h.in_range in
      record {
        valid =
            update-IsValid s i stored _ seq s.port_active v h.in_range
              (enqueue-PortOk (stamp s.msg_seq m) p w few) (λ l. (h.is_live, refl))
              (log-IsValid s.caps l v.caps_ok);
        queued =
            ap (λ (q : IpcPort). (ok, contents q)) at
            ∙ ap (λ (q : List IpcMsg). (ok, q)) (contents-enqueue (stamp s.msg_seq m) p w few)
            ∙ sym (
                spec_room room
                ∙ ap
                    (λ (g : Bool).
                      if g
                      then (ok, contents p ++ (stamp s.msg_seq m ∷ []))
                      else (err_noperm, contents p))
                    may);
        others = λ j ne. get_or-set_ne s.ports i j stored null_port ne;
      }

  -- The branch of a send that goes through, with the log that the audit leaves.
  abbrev log_after : Secmon
  log_after = secmon_audit_ipc AuditEventType.ipc_send m.sender_tid id m.type s.caps.log

  send_goes_through :
      leb 64 p.q_count ≡ false
      → granted ≡ true
      → ipc_send_at i id m s
        ≡ (ok, after_send (record (s.caps) { log = log_after }) (inc32 s.msg_seq))
  unfolding ipc_send_at
  send_goes_through room may = rw ((v.port_ok i).is_open h.is_live, room, may, ipc_send_at) refl

  pub ipc_send_at-Sent : Sent i m s (ipc_send_at i id m s)
  unfolding ipc_send_at
  ipc_send_at-Sent =
      let is_open = (v.port_ok i).is_open h.is_live in
      elim (Bool-cases (leb 64 p.q_count)) [
        | inl full ↦
            rw (is_open, full, ipc_send_at)
              (record { valid = v; queued = sym (spec_full full); others = λ j ne. refl })
        | inr room ↦ elim (Bool-cases granted) [
          | inr denied ↦
              rw (is_open, room, denied, ipc_send_at)
                (record {
                  valid = v;
                  queued = sym (
                      spec_room room
                      ∙ ap
                          (λ (g : Bool).
                            if g
                            then (ok, contents p ++ (stamp s.msg_seq m ∷ []))
                            else (err_noperm, contents p))
                          denied);
                  others = λ j ne. refl;
                })
          | inl may ↦ rw (send_goes_through room may) (after_send-Sent _ _ room may)
        ]
      ]

-- In a valid state a send to a live port keeps the invariant, answers and queues as the bounded
-- queue of 64 messages does, with the new message behind the others whatever its flags say, and
-- leaves the other ports alone.
pub ipc_send-Sent :
    (id i : ℕ) (m : IpcMsg) (s : Ipc)
    → IsValid s
    → find_port id s ≡ some i
    → Sent i m s (ipc_send id (some m) s)
unfolding ipc_send
ipc_send-Sent id i m s v e =
    rw (e, ipc_send) (ipc_send_at-Sent i id m s v (find_port-Open id s i e))

-- To no port, or with no message, a send is invalid and changes nothing.
pub ipc_send_invalid :
    (id : ℕ) (o : Option IpcMsg) (s : Ipc)
    → (find_port id s ≡ none) ⊎ (o ≡ none)
    → ipc_send id o s ≡ (err_invalid, s)
unfolding ipc_send
ipc_send_invalid id none s h = refl
ipc_send_invalid id (some m) s (inl e) = rw (e, ipc_send) refl
ipc_send_invalid id (some m) s (inr e) = cc

-- In a valid state no send ever answers IPC_ERR_CLOSED.
pub ipc_send-ne-err_closed :
    (id : ℕ) (o : Option IpcMsg) (s : Ipc) → IsValid s → (ipc_send id o s).0 ≢ err_closed
unfolding queue_send
ipc_send-ne-err_closed id none s v e =
    cc (ap (λ (r : IpcErr × Ipc). r.0) (ipc_send_invalid id none s (inr refl)), e)
ipc_send-ne-err_closed id (some m) s v e = elim (Option-cases (find_port id s)) [
  | inl f ↦ cc (ap (λ (r : IpcErr × Ipc). r.0) (ipc_send_invalid id (some m) s (inl f)), e)
  | inr (i, f) ↦
      let q = (ipc_send-Sent id i m s v f).queued in
      queue_send-ne (all_grantable (caps_sent m) m.caps s.caps) (stamp s.msg_seq m)
        (contents (port_at s i)) (sym (ap (λ (r : IpcErr × List IpcMsg). r.0) q) ∙ e)
]
  where
    queue_send-ne : (g : Bool) (m : IpcMsg) (q : List IpcMsg) → (queue_send g m q).0 ≢ err_closed
    queue_send-ne g m q e = ground arith
