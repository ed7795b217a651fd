-- ===== src/Tcp/Calls.antt =====
-- net/tcp.c: the calls of the socket layer, and the retransmission timer.
use new_os.Base.{
  ℕ, zero, suc, ◌+◌, ◌-◌, ◌*◌, ◌%◌, ◌^◌, Bool, true, false, not, ◌||◌, if◌then◌else◌, ltb, leb,
  ◌==◌, List, [], ◌∷◌, ◌++◌, map, length, get_or, Option, none, some,
}
use new_os.Base.Find.{find_index}
use new_os.Tcp.Socket.{
  Socket, SentSegment, Env, Tcp, rx_size, tcp_rto_max, tcp_max_retries, is_established, zeroed,
  is_unused, rand_seq, socket, put_socket, tcp_send_segment, tcp_rtx_send, count_seq, listen,
  syn_sent, fin_wait,
}
use new_os.Tcp.Receive.{shut, listens_on, put_opened}

-- The first socket of the table that is not used.
abbrev pub free_socket : Tcp → Option ℕ
free_socket t = find_index is_unused t.sockets

unfoldable pub listen_at : Env → ℕ → Tcp → Option ℕ → Option ℕ → Option ℕ × Tcp
listen_at e port t (some i) free = (some i, t)
listen_at e port t none none = (none, t)
listen_at e port t none (some i) =
    let s = record zeroed { used = true; state = listen; local_ip = e.ip; local_port = port } in
    (some i, put_socket i s t)

-- -1 is none.
unfoldable pub tcp_listen : Env → ℕ → Tcp → Option ℕ × Tcp
unfolding listen_at
tcp_listen e port t = listen_at e port t (find_index (listens_on port) t.sockets) (free_socket t)

-- get_socket; a negative number is out of range as well.
unfoldable pub get_socket : ℕ → Tcp → Option ℕ
get_socket sock t =
    if leb (length t.sockets) sock then none else if (socket t sock).used then some sock else none

-- The retransmission timer of one socket.
unfoldable pub tick_socket : Env → Socket → Socket × List SentSegment
unfolding tcp_rtx_send
tick_socket e s =
    let now = e.ticks % 2 ^ 32 in
    let twice = s.tx_rto * 2 % 2 ^ 32 in
    let again = record s {
      tx_rtx_count = s.tx_rtx_count + 1;
      tx_rto = if ltb twice tcp_rto_max then twice else tcp_rto_max;
      tx_rtx_time = now;
    } in
    if not s.used || s.tx_rtx_time == 0
    then (s, [])
    else if ltb ((now + 2 ^ 32 - s.tx_rtx_time) % 2 ^ 32) s.tx_rto
    then (s, [])
    else if leb tcp_max_retries s.tx_rtx_count
    then (record (shut s) { tx_rtx_time = 0; tx_rtx_buf = []; tx_rtx_count = 0 }, [])
    else (again, tcp_rtx_send e again)

abbrev pub ticks_sent : Env → List Socket → List SentSegment
ticks_sent e [] = []
ticks_sent e (s ∷ ss) = (tick_socket e s).1 ++ ticks_sent e ss

unfoldable pub tcp_tick : Env → Tcp → Tcp
unfolding tick_socket
tcp_tick e t = record t {
  sockets = map (λ s. (tick_socket e s).0) t.sockets;
  out = t.out ++ ticks_sent e t.sockets;
}

-- The waiting loop of tcp_connect; in each round the interface is polled, by whatever it brings.
unfoldable pub connect_wait : List (Env × (Tcp → Tcp)) → ℕ → Tcp → Option ℕ × Tcp
unfolding tcp_tick
connect_wait [] i t = (none, put_socket i (record (socket t i) { used = false }) t)
connect_wait ((e, poll) ∷ rounds) i t =
    let u = tcp_tick e (poll t) in
    let rest = connect_wait rounds i u in
    if is_established (socket u i).state then (some i, u) else rest

-- The SYN; if it cannot be sent the socket is given up.
unfoldable pub open_active : Env → ℕ → ℕ → ℕ → Socket × List SentSegment
unfolding rand_seq tcp_send_segment
open_active e ip port local_port =
    let s = record zeroed {
      used = true;
      state = syn_sent;
      local_ip = e.ip;
      remote_ip = ip;
      local_port = local_port;
      remote_port = port;
      tx_seq = rand_seq e;
    } in
    let (a, out) = tcp_send_segment e 2 [] (s, []) in
    if e.send_ok then (count_seq a, out) else (record s { used = false }, [])

-- The part of tcp_connect before the wait, in slot i: the SYN goes out from the next ephemeral port.
unfoldable pub opened : Env → ℕ → ℕ → ℕ → Tcp → Tcp
unfolding open_active
opened e ip port i t = record (put_opened i (open_active e ip port t.ephemeral_port) t) {
  ephemeral_port = (t.ephemeral_port + 1) % 2 ^ 16;
}

unfoldable pub connect_at : Env → List (Env × (Tcp → Tcp)) → ℕ → ℕ → Tcp → Option ℕ → Option ℕ × Tcp
unfolding opened connect_wait
connect_at e rounds ip port t none = (none, t)
connect_at e rounds ip port t (some i) =
    let u = opened e ip port i t in if e.send_ok then connect_wait rounds i u else (none, u)

unfoldable pub tcp_connect : Env → List (Env × (Tcp → Tcp)) → ℕ → ℕ → Tcp → Option ℕ × Tcp
unfolding connect_at
tcp_connect e rounds ip port t = connect_at e rounds ip port t (free_socket t)

unfoldable pub send_at : Env → List ℕ → Tcp → Option ℕ → Bool × Tcp
unfolding tcp_send_segment
send_at e payload t none = (false, t)
send_at e payload t (some i) =
    if is_established (socket t i).state
    then (e.send_ok, put_opened i (tcp_send_segment e 24 payload (socket t i, [])) t)
    else (false, t)

unfoldable pub tcp_send : Env → ℕ → List ℕ → Tcp → Bool × Tcp
unfolding send_at get_socket
tcp_send e sock payload t = send_at e payload t (get_socket sock t)

-- The loop of tcp_recv: n bytes from the head of the receive buffer.
unfoldable pub rx_take : ℕ → Socket → List ℕ × Socket
rx_take zero s = ([], s)
rx_take (suc n) s =
    let b = get_or s.rx_buf (s.rx_head % rx_size) 0 in
    let (rest, u) = rx_take n (record s { rx_head = (s.rx_head + 1) % 2 ^ 64 }) in (b ∷ rest, u)

abbrev pub available : Socket → ℕ
available s = (s.rx_tail + 2 ^ 64 - s.rx_head + rx_size) % 2 ^ 64 % rx_size

unfoldable pub recv_socket : ℕ → Socket → List ℕ × Socket
unfolding rx_take
recv_socket n s = rx_take (if ltb (available s) n then available s else n) s

unfoldable pub recv_at : ℕ → Tcp → Option ℕ → Option (List ℕ) × Tcp
unfolding recv_socket
recv_at n t none = (none, t)
recv_at n t (some i) = let (bytes, s) = recv_socket n (socket t i) in (some bytes, put_socket i s t)

unfoldable pub tcp_recv : ℕ → ℕ → Tcp → Option (List ℕ) × Tcp
unfolding recv_at get_socket
tcp_recv sock n t = recv_at n t (get_socket sock t)

-- tcp_close of a socket: a FIN if the connection is established, and then the end.
unfoldable pub close_socket : Env → Socket → Socket × List SentSegment
unfolding tcp_send_segment
close_socket e s =
    let (a, out) = tcp_send_segment e 17 [] (s, []) in
    let finished = record (count_seq a) { state = fin_wait } in
    let end = λ (x : Socket). record (shut x) { tx_rtx_time = 0; tx_rtx_buf = [] } in
    if is_established s.state then (end finished, out) else (end s, [])

unfoldable pub close_at : Env → Tcp → Option ℕ → Tcp
unfolding close_socket
close_at e t none = t
close_at e t (some i) = put_opened i (close_socket e (socket t i)) t

unfoldable pub tcp_close : Env → ℕ → Tcp → Tcp
unfolding close_at get_socket
tcp_close e sock t = close_at e t (get_socket sock t)
