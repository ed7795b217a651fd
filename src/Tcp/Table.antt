-- ===== src/Tcp/Table.antt =====
-- net/tcp.c: no operation on the table of sockets breaks the invariant of a socket.
use new_os.Base.{
  ℕ, zero, suc, ◌+◌, ◌-◌, ◌*◌, ◌%◌, ◌^◌, inl, inr, refl, Bool, true, false, not, ◌||◌, ◌==◌, ltb,
  leb, if◌then◌else◌, if-elim, List, [], ◌∷◌, length, map, get_or, set, Option, none, some,
  Bool-cases, Option-cases, differ, arith,
}
use new_os.Base.Find.{find_index}
use new_os.Tcp.Socket.{
  State, closed, listen, syn_rcvd, syn_sent, Socket, Segment, syn, ack_bit, SentSegment, Env, Tcp,
  tcp_rto_max, tcp_max_retries, is_established, is_unused, zeroed, socket, tcp_send_segment,
}
use new_os.Tcp.Receive.{open_passive, receive_new, receive_at, tcp_receive, matches, listens_on}
use new_os.Tcp.Calls.{
  free_socket, listen_at, tcp_listen, get_socket, tick_socket, tcp_tick, open_active, send_at,
  tcp_send, rx_take, recv_socket, recv_at, tcp_recv, close_socket, close_at, tcp_close, available,
}
use new_os.Tcp.Invariant.{
  Fits, Good, Fine-state, Fine-timer, zeroed-Good, shut-Good, tcp_send_segment-Fits,
  tcp_send_segment-Good, receive_in-Good,
}

abbrev pub AllGood : List Socket → Type 0
AllGood [] = Unit
AllGood (s ∷ ss) = Good s × AllGood ss

pub AllGood-at : (ss : List Socket) (i : ℕ) → AllGood ss → Good (get_or ss i zeroed)
AllGood-at [] i g = zeroed-Good
AllGood-at (s ∷ ss) zero (g, gs) = g
AllGood-at (s ∷ ss) (suc i) (g, gs) = AllGood-at ss i gs

pub AllGood-set :
    (ss : List Socket) (i : ℕ) (s : Socket) → AllGood ss → Good s → AllGood (set ss i s)
AllGood-set [] i s gs g = tt
AllGood-set (x ∷ ss) zero s (h, gs) g = (g, gs)
AllGood-set (x ∷ ss) (suc i) s (h, gs) g = (h, AllGood-set ss i s gs g)

pub AllGood-map :
    (f : Socket → Socket) (ss : List Socket)
    → ((s : Socket) → Good s → Good (f s))
    → AllGood ss
    → AllGood (map f ss)
AllGood-map f [] h gs = tt
AllGood-map f (s ∷ ss) h (g, gs) = (h s g, AllGood-map f ss h gs)

abbrev pub IsGood : Tcp → Type 0
IsGood t = AllGood t.sockets

open_passive-Good : (e : Env) (g : Segment) → Good (open_passive e g).0
unfolding open_passive
open_passive-Good e g =
    tcp_send_segment-Good e 18 [] (_, []) (Fine-state syn_rcvd true zeroed-Good refl (λ u. refl))

pub open_active-Good :
    (e : Env) (ip port local_port : ℕ) → Good (open_active e ip port local_port).0
unfolding open_active
open_active-Good e ip port local_port =
    if-elim (λ (x : Socket × List SentSegment). Good x.0) e.send_ok
      (tcp_send_segment-Good e 2 [] (_, []) (Fine-state syn_sent true zeroed-Good refl (λ u. refl)))
      (Fine-state syn_sent false zeroed-Good refl (λ u. refl))

pub tick_socket-Good : (e : Env) (s : Socket) → Good s → Good (tick_socket e s).0
unfolding tick_socket
tick_socket-Good e s g =
    let P = λ (x : Socket × List SentSegment). Good x.0 in
    let twice = s.tx_rto * 2 % 2 ^ 32 in
    if-elim P (not s.used || s.tx_rtx_time == 0) g (
      if-elim P (ltb ((e.ticks % 2 ^ 32 + 2 ^ 32 - s.tx_rtx_time) % 2 ^ 32) s.tx_rto) g
        (elim (Bool-cases (leb tcp_max_retries s.tx_rtx_count)) [
          | inl f ↦ rw f (Fine-timer 0 _ (shut-Good s g) (omega arith) g.soon)
          | inr f ↦ rw f (
              Fine-timer _ _ g (ground (arith, f)) (elim (Bool-cases (ltb twice tcp_rto_max)) [
                | inl small ↦ rw small (ground (arith, small))
                | inr big ↦ rw big (omega arith)
              ]))
        ]))

rx_take-Good : (n : ℕ) (s : Socket) → Good s → Good (rx_take n s).1
unfolding rx_take
rx_take-Good zero s g = g
rx_take-Good (suc n) s g = rx_take-Good n (record s { rx_head = (s.rx_head + 1) % 2 ^ 64 }) g

recv_socket-Good : (n : ℕ) (s : Socket) → Good s → Good (recv_socket n s).1
unfolding recv_socket
recv_socket-Good n s g = rx_take-Good (if ltb (available s) n then available s else n) s g

close_socket-Good : (e : Env) (s : Socket) → Good s → Good (close_socket e s).0
unfolding close_socket
close_socket-Good e s g =
    let down = λ (x : Socket) (k : State) (h : Fits k x).
      Fine-state closed false h refl (λ u. absurd (differ refl u)) in
    if-elim (λ (x : Socket × List SentSegment). Good x.0) (is_established s.state)
      (down (tcp_send_segment e 17 [] (s, [])).0 s.state
        (tcp_send_segment-Fits s.state e 17 [] (s, []) g))
      (down s s.state g)

receive_new-Good : (e : Env) (g : Segment) (t : Tcp) → IsGood t → IsGood (receive_new e g t)
unfolding receive_new
receive_new-Good e g t h = if-elim IsGood (not (syn g.flags)) h (
    if-elim IsGood (ack_bit g.flags) h
      (elim (Option-cases (find_index (listens_on g.dst_port) t.sockets)) [
        | inl n ↦ rw n h
        | inr (l, n) ↦ elim (Option-cases (find_index is_unused t.sockets)) [
          | inl m ↦ rw (n, m) h
          | inr (i, m) ↦
              rw (n, m) (AllGood-set t.sockets i (open_passive e g).0 h (open_passive-Good e g))
        ]
      ]))

receive_at-Good :
    (e : Env) (g : Segment) (t : Tcp) → IsGood t → (o : Option ℕ) → IsGood (receive_at e g t o)
unfolding receive_at
receive_at-Good e g t h none = receive_new-Good e g t h
receive_at-Good e g t h (some i) =
    AllGood-set t.sockets i _ h
      (receive_in-Good (socket t i).state e g (socket t i) refl (AllGood-at t.sockets i h))

pub tcp_receive-Good : (e : Env) (g : Segment) (t : Tcp) → IsGood t → IsGood (tcp_receive e g t)
unfolding tcp_receive
tcp_receive-Good e g t h =
    if-elim IsGood (ltb (length g.bytes) 20) h
      (receive_at-Good e g t h (find_index (matches g) t.sockets))

listen_at-Good :
    (e : Env) (port : ℕ) (t : Tcp)
    → IsGood t
    → (o o' : Option ℕ) → IsGood (listen_at e port t o o').1
unfolding listen_at
listen_at-Good e port t h (some i) o' = h
listen_at-Good e port t h none none = h
listen_at-Good e port t h none (some i) =
    AllGood-set t.sockets i _ h (Fine-state listen true zeroed-Good refl (λ u. refl))

pub tcp_listen-Good : (e : Env) (port : ℕ) (t : Tcp) → IsGood t → IsGood (tcp_listen e port t).1
unfolding tcp_listen
tcp_listen-Good e port t h =
    listen_at-Good e port t h (find_index (listens_on port) t.sockets) (free_socket t)

send_at-Good :
    (e : Env) (payload : List ℕ) (t : Tcp)
    → IsGood t
    → (o : Option ℕ) → IsGood (send_at e payload t o).1
unfolding send_at
send_at-Good e payload t h none = h
send_at-Good e payload t h (some i) =
    if-elim (λ (x : Bool × Tcp). IsGood x.1) (is_established (socket t i).state)
      (AllGood-set t.sockets i _ h
        (tcp_send_segment-Good e 24 payload (socket t i, []) (AllGood-at t.sockets i h)))
      h

pub tcp_send-Good :
    (e : Env) (sock : ℕ) (payload : List ℕ) (t : Tcp)
    → IsGood t
    → IsGood (tcp_send e sock payload t).1
unfolding tcp_send
tcp_send-Good e sock payload t h = send_at-Good e payload t h (get_socket sock t)

recv_at-Good : (n : ℕ) (t : Tcp) → IsGood t → (o : Option ℕ) → IsGood (recv_at n t o).1
unfolding recv_at
recv_at-Good n t h none = h
recv_at-Good n t h (some i) =
    AllGood-set t.sockets i (recv_socket n (socket t i)).1 h
      (recv_socket-Good n (socket t i) (AllGood-at t.sockets i h))

pub tcp_recv-Good : (sock n : ℕ) (t : Tcp) → IsGood t → IsGood (tcp_recv sock n t).1
unfolding tcp_recv
tcp_recv-Good sock n t h = recv_at-Good n t h (get_socket sock t)

close_at-Good : (e : Env) (t : Tcp) → IsGood t → (o : Option ℕ) → IsGood (close_at e t o)
unfolding close_at
close_at-Good e t h none = h
close_at-Good e t h (some i) =
    AllGood-set t.sockets i _ h (close_socket-Good e (socket t i) (AllGood-at t.sockets i h))

pub tcp_close-Good : (e : Env) (sock : ℕ) (t : Tcp) → IsGood t → IsGood (tcp_close e sock t)
unfolding tcp_close
tcp_close-Good e sock t h = close_at-Good e t h (get_socket sock t)

pub tcp_tick-Good : (e : Env) (t : Tcp) → IsGood t → IsGood (tcp_tick e t)
unfolding tcp_tick
tcp_tick-Good e t h = AllGood-map (λ s. (tick_socket e s).0) t.sockets (tick_socket-Good e) h
