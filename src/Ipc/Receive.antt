-- ===== src/Ipc/Receive.antt =====
-- kernel/ipc.c: `ipc_receive` and its polling loop.
use new_os.Base.{
  ℕ, zero, suc, ◌+◌, ◌*◌, ◌/◌, ◌%◌, ◌^◌, ◌<◌, ◌≤◌, ◌≡◌, ◌≢◌, ◌∙◌, refl, sym, ap, subst, none, some,
  true, not, arith, length, List, ◌∷◌, ◌&&◌, get_or, get_or-set_self, get_or-set_ne, Bool-cases,
  Option-cases, ◌==◌, inl, inr, ltb, leb,
}
use new_os.Cap.Child.{log-IsValid}
use new_os.Ipc.{
  Ipc, IpcPort, IpcMsg, Received, ok, err_invalid, err_closed, err_again, err_timeout, null_msg,
  null_port, port_at, dequeue, take_message, ipc_receive, receive_loop, find_port,
  ipc_timeout_forever,
}
use new_os.Ipc.Ports.{IsValid, find_port-Open, update-IsValid}
use new_os.Ipc.Queue.{contents, length-contents, dequeue-PortOk, contents-dequeue}

-- What taking a message from the port in slot `i` has done: `m` was the oldest, the rest is left, and
-- the other ports are as they were.
pub record Taken (i : ℕ) (s : Ipc) (m : IpcMsg) (s' : Ipc) : Type 0 where
  pub valid : IsValid s'
  pub oldest : contents (port_at s i) ≡ m ∷ contents (port_at s' i)
  pub others : (j : ℕ) → i ≢ j → port_at s' j ≡ port_at s j

pub take_message-Taken :
    (i id : ℕ) (s : Ipc)
    → IsValid s
    → i < length s.ports
    → 0 < (port_at s i).q_count
    → Taken i s (get_or (port_at s i).queue (port_at s i).q_head null_msg) (take_message i id s).2
take_message-Taken i id s v h some_left =
    let p = port_at s i in
    let at = get_or-set_self s.ports i (dequeue p) null_port h in
    record {
      valid =
          update-IsValid s i (dequeue p) _ s.msg_seq s.port_active v h
            (dequeue-PortOk p (v.port_ok i) some_left) (λ l. (l, refl))
            (log-IsValid s.caps _ v.caps_ok);
      oldest =
          contents-dequeue p (v.port_ok i) some_left
          ∙ ap (λ (q : IpcPort). get_or p.queue p.q_head null_msg ∷ contents q) (sym at);
      others = λ j ne. get_or-set_ne s.ports i j (dequeue p) null_port ne;
    }

module _ (others : ℕ → Ipc → Ipc) where
  -- In a valid state, with fuel for one round, a receive at a live port where messages wait
  -- returns the oldest at once, whatever the timeout, takes it off the queue, keeps the invariant
  -- and leaves the other ports alone.
  pub ipc_receive-Taken :
      (fuel id timeout i : ℕ) (s : Ipc) (m : IpcMsg) (rest : List IpcMsg)
      → IsValid s
      → find_port id s ≡ some i
      → contents (port_at s i) ≡ m ∷ rest
      → (s' : Ipc) × (ipc_receive others (suc fuel) id timeout s ≡ some (ok, some m, s'))
        × Taken i s m s'
  unfolding ipc_receive receive_loop
  ipc_receive-Taken fuel id timeout i s m rest v e q =
      let p = port_at s i in
      let h = find_port-Open id s i e in
      let n : 0 < p.q_count = omega (arith, length-contents p, ap length q) in
      let test : ltb 0 p.q_count ≡ true = ground arith in
      let t = take_message-Taken i id s v h.in_range n in
      let same : get_or p.queue p.q_head null_msg ≡ m = cc (t.oldest, q) in
      (
        (take_message i id s).2,
        rw (e, ipc_receive)
            (rw (test, receive_loop)
              (ap (λ (x : IpcMsg). some (ok, some x, (take_message i id s).2)) same)),
        subst (λ x. Taken i s x (take_message i id s).2) same t,
      )

  -- The wait ends: with a timeout the loop makes at most one round for each two milliseconds.
  receive_loop_ends :
      (fuel i id timeout waited k : ℕ) (s : Ipc)
      → timeout < ipc_timeout_forever
      → timeout + 2 ≤ waited + 2 * fuel
      → waited ≤ timeout + 1
      → (r : Received) × (receive_loop others fuel i id timeout waited k s ≡ some r)
  unfolding receive_loop
  receive_loop_ends zero i id timeout waited k s small enough w = absurd (omega arith)
  receive_loop_ends (suc fuel) i id timeout waited k s small enough w =
      elim (Bool-cases (ltb 0 (port_at s i).q_count)) [
        | inl a ↦ (take_message i id s, rw (a, receive_loop) refl)
        | inr a ↦ elim (Bool-cases (port_at s i).closed) [
          | inl b ↦ ((err_closed, none, s), rw (a, b, receive_loop) refl)
          | inr b ↦ elim (Bool-cases (timeout == 0)) [
            | inl c ↦ ((err_again, none, s), rw (a, b, c, receive_loop) refl)
            | inr c ↦
                elim (Bool-cases (not (timeout == ipc_timeout_forever) && leb timeout waited)) [
                  | inl d ↦ ((err_timeout, none, s), rw (a, b, c, d, receive_loop) refl)
                  | inr d ↦
                      let (r, run) =
                        receive_loop_ends fuel i id timeout ((waited + 2) % 2 ^ 32) (k + 1)
                          (others k s) small (ground arith) (ground arith) in
                      (r, rw (a, b, c, d, receive_loop) run)
                ]
          ]
        ]
      ]

  -- With any timeout but IPC_TIMEOUT_FOREVER and fuel for more than (timeout + 1) / 2 rounds a
  -- receive gives a result, whatever the other tasks do meanwhile.
  pub ipc_receive_ends :
      (fuel id timeout : ℕ) (s : Ipc)
      → timeout < ipc_timeout_forever
      → (timeout + 1) / 2 < fuel
      → (r : Received) × (ipc_receive others fuel id timeout s ≡ some r)
  unfolding ipc_receive
  ipc_receive_ends fuel id timeout s small enough = elim (Option-cases (find_port id s)) [
    | inl e ↦ ((err_invalid, none, s), rw (e, ipc_receive) refl)
    | inr (i, e) ↦
        let (r, run) =
          receive_loop_ends fuel i id timeout 0 0 s small (omega arith) (omega arith) in
        (r, rw (e, ipc_receive) run)
  ]
