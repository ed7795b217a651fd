-- ===== src/Ipc/Queue.antt =====
-- kernel/ipc.c: the circular queue of a port as the list of its messages, and the contract of a port.
use new_os.Base.{
  ℕ, suc, ◌+◌, ◌-◌, ◌%◌, ◌^◌, ◌<◌, ◌≡◌, ◌∙◌, sym, ap, Bool, arith, length, List, [], ◌∷◌, ◌++◌,
  get_or, set, length-set, leb, if◌then◌else◌,
}
use new_os.Base.Ring.{ring, length-ring, ring-mod, ring-push}
use new_os.Ipc.{
  IpcPort, IpcMsg, IpcErr, ok, err_full, err_noperm, null_msg, enqueue, dequeue,
  ipc_port_queue_size,
}
use new_os.Ipc.Ports.{PortOk}

-- The messages that wait at a port, oldest first.
abbrev pub contents : IpcPort → List IpcMsg
contents p = ring null_msg ipc_port_queue_size p.queue p.q_head p.q_count

pub length-contents : (p : IpcPort) → length (contents p) ≡ p.q_count
length-contents p = length-ring null_msg ipc_port_queue_size p.queue p.q_head p.q_count

-- What a port promises: a bounded queue, first in, first out.
unfoldable pub queue_send : Bool → IpcMsg → List IpcMsg → IpcErr × List IpcMsg
queue_send grantable m q =
    if leb ipc_port_queue_size (length q)
    then (err_full, q)
    else if grantable
    then (ok, q ++ (m ∷ []))
    else (err_noperm, q)

pub enqueue-PortOk : (m : IpcMsg) (p : IpcPort) → PortOk p → p.q_count < 64 → PortOk (enqueue m p)
enqueue-PortOk m p v room = record {
  size = omega (arith, length-set p.queue p.q_tail m, v.size);
  head_in = v.head_in;
  count_in = omega arith;
  tail_at = omega (arith, v.tail_at, v.head_in);
  is_open = v.is_open;
}

pub contents-enqueue :
    (m : IpcMsg) (p : IpcPort)
    → PortOk p
    → p.q_count < 64
    → contents (enqueue m p) ≡ contents p ++ (m ∷ [])
contents-enqueue m p v room =
    let n : (p.q_count + 1) % 2 ^ 32 ≡ suc p.q_count = omega arith in
    ap (ring null_msg 64 (set p.queue p.q_tail m) p.q_head) n
    ∙ ring-push null_msg 64 p.queue m p.q_head p.q_count p.q_tail (omega (arith, v.size)) room
        v.tail_at

pub dequeue-PortOk : (p : IpcPort) → PortOk p → 0 < p.q_count → PortOk (dequeue p)
dequeue-PortOk p v some_left = record {
  size = v.size;
  head_in = omega arith;
  count_in = omega (arith, v.count_in);
  tail_at = omega (arith, v.tail_at, v.head_in);
  is_open = v.is_open;
}

pub contents-dequeue :
    (p : IpcPort)
    → PortOk p
    → 0 < p.q_count
    → contents p ≡ get_or p.queue p.q_head null_msg ∷ contents (dequeue p)
contents-dequeue p v some_left =
    let n : p.q_count ≡ suc (p.q_count - 1) = omega arith in
    let h : p.q_head % 64 ≡ p.q_head = omega (arith, v.head_in) in
    ap (ring null_msg 64 p.queue p.q_head) n
    ∙ ap
        (λ (i : ℕ).
          get_or p.queue i null_msg ∷ ring null_msg 64 p.queue (p.q_head + 1) (p.q_count - 1))
        h
    ∙ ap (λ (q : List IpcMsg). get_or p.queue p.q_head null_msg ∷ q)
        (sym (ring-mod null_msg 64 p.queue (p.q_head + 1) (p.q_count - 1)))
