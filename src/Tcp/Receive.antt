-- ===== src/Tcp/Receive.antt =====
-- net/tcp.c: tcp_receive. A segment that comes in has its header read already.
use new_os.Base.{
  ℕ, ◌+◌, ◌%◌, ◌^◌, Bool, true, false, not, ◌&&◌, if◌then◌else◌, ltb, leb, ◌==◌, List, [], ◌∷◌,
  ◌++◌, length, set, Option, none, some,
}
use new_os.Base.Find.{find_index}
use new_os.Libc.{drop}
use new_os.Tcp.Socket.{
  State, Socket, Segment, SentSegment, Env, Tcp, rx_size, fin, syn, rst, ack_bit, is_listen, zeroed,
  is_unused, rand_seq, socket, put_socket, tcp_send_segment, count_seq, closed, syn_rcvd, syn_sent,
  established, fin_wait, close_wait, time_wait,
}

unfoldable pub tcp_rtx_clear_if_acked : ℕ → Socket → Socket
tcp_rtx_clear_if_acked ack s =
    if s.tx_rtx_time == 0
    then s
    else if ltb ack s.tx_rtx_end_seq
    then s
    else record s { tx_rtx_time = 0; tx_rtx_buf = []; tx_rtx_count = 0 }

-- The copy into the receive buffer; what does not fit is dropped. The counters have 64 bits.
unfoldable pub rx_put : ℕ → Socket → Socket
rx_put b s =
    let next = (s.rx_tail + 1) % 2 ^ 64 in
    if next % rx_size == s.rx_head % rx_size
    then s
    else record s { rx_buf = set s.rx_buf (s.rx_tail % rx_size) b; rx_tail = next }

unfoldable pub rx_copy : List ℕ → Socket → Socket
unfolding rx_put
rx_copy [] s = s
rx_copy (b ∷ bs) s = rx_copy bs (rx_put b s)

-- The data of a segment, from its offset on.
abbrev pub body : Segment → List ℕ
body g = if leb g.data_off (length g.bytes) then drop g.data_off g.bytes else []

-- What the arrival of a segment leaves: the socket, what it sends, and whether a connection is
-- announced to the socket layer.
pub record Reply : Type 0 where
  pub after : Socket
  pub sends : List SentSegment
  pub announces : Bool

abbrev pub quiet_reply : Socket → Reply
quiet_reply s = record { after = s; sends = []; announces = false }

abbrev pub reply_with : Socket × List SentSegment → Reply
reply_with (s, out) = record { after = s; sends = out; announces = false }

-- FIN in an established connection: an ACK, then our own FIN.
unfoldable pub on_fin : Env → Segment → Socket → Reply
unfolding tcp_send_segment
on_fin e g s =
    let a = record s { rx_seq = (g.seq + 1) % 2 ^ 32; state = close_wait } in
    let (b, out) = tcp_send_segment e 17 [] (tcp_send_segment e 16 [] (a, [])) in
    reply_with (record (count_seq b) { state = time_wait }, out)

unfoldable pub on_data : Env → Segment → Socket → Reply
unfolding tcp_rtx_clear_if_acked rx_copy tcp_send_segment
on_data e g s =
    let a =
      if ack_bit g.flags && not (s.tx_rtx_time == 0) then tcp_rtx_clear_if_acked g.ack s else s in
    let n = length (body g) in
    let b = rx_copy (body g) a in
    if ltb 0 n && g.seq == a.rx_seq
    then reply_with (tcp_send_segment e 16 [] (record b { rx_seq = (b.rx_seq + n) % 2 ^ 32 }, []))
    else quiet_reply a

abbrev pub shut : Socket → Socket
shut s = record s { state = closed; used = false }

-- The switch of tcp_receive on the state of the socket.
unfoldable pub receive_in : State → Env → Segment → Socket → Reply
unfolding tcp_rtx_clear_if_acked tcp_send_segment on_fin on_data
receive_in syn_rcvd e g s =
    if rst g.flags
    then quiet_reply (record (shut s) { tx_rtx_time = 0 })
    else if ack_bit g.flags && g.ack == s.tx_seq
    then record {
      after = record (tcp_rtx_clear_if_acked g.ack s) { state = established };
      sends = [];
      announces = true;
    }
    else quiet_reply s
receive_in syn_sent e g s =
    let a = record (tcp_rtx_clear_if_acked g.ack s) {
      rx_seq = (g.seq + 1) % 2 ^ 32;
      state = established;
    } in
    if syn g.flags && ack_bit g.flags && g.ack == s.tx_seq
    then reply_with (tcp_send_segment e 16 [] (a, []))
    else quiet_reply s
receive_in established e g s =
    if rst g.flags
    then quiet_reply (shut s)
    else if fin g.flags
    then on_fin e g s
    else on_data e g s
receive_in fin_wait e g s =
    quiet_reply (if ack_bit g.flags then record s { state = time_wait } else s)
receive_in time_wait e g s = quiet_reply (shut s)
receive_in _ e g s = quiet_reply s

-- The socket of a connection: both ports and the remote address agree.
abbrev pub matches : Segment → Socket → Bool
matches g s =
    s.used && s.local_port == g.dst_port && s.remote_port == g.src_port && s.remote_ip == g.src_ip

abbrev pub listens_on : ℕ → Socket → Bool
listens_on port s = s.used && is_listen s.state && s.local_port == port

-- The socket that a SYN to a listener opens, and the SYN-ACK.
unfoldable pub open_passive : Env → Segment → Socket × List SentSegment
unfolding rand_seq tcp_send_segment
open_passive e g =
    let ns = record zeroed {
      used = true;
      state = syn_rcvd;
      local_ip = e.ip;
      local_port = g.dst_port;
      remote_ip = g.src_ip;
      remote_port = g.src_port;
      rx_seq = (g.seq + 1) % 2 ^ 32;
      tx_seq = rand_seq e;
    } in
    let (s, out) = tcp_send_segment e 18 [] (ns, []) in (count_seq s, out)

abbrev pub put_opened : ℕ → Socket × List SentSegment → Tcp → Tcp
put_opened i (s, out) t = record (put_socket i s t) { out = t.out ++ out }

abbrev pub put_reply : ℕ → Reply → Tcp → Tcp
put_reply i r t =
    let s = r.after in
    record (put_socket i s t) {
      out = t.out ++ r.sends;
      accepted = if r.announces then (s.local_port, i) ∷ t.accepted else t.accepted;
    }

-- A segment that belongs to no connection.
unfoldable pub receive_new : Env → Segment → Tcp → Tcp
unfolding open_passive
receive_new e g t =
    if not (syn g.flags)
    then t
    else if ack_bit g.flags
    then t
    else elim (find_index (listens_on g.dst_port) t.sockets) [
      | none ↦ t
      | some l ↦ elim (find_index is_unused t.sockets) [
        | none ↦ t
        | some i ↦ put_opened i (open_passive e g) t
      ]
    ]

unfoldable pub receive_at : Env → Segment → Tcp → Option ℕ → Tcp
unfolding receive_in receive_new
receive_at e g t none = receive_new e g t
receive_at e g t (some i) = put_reply i (receive_in (socket t i).state e g (socket t i)) t

unfoldable pub tcp_receive : Env → Segment → Tcp → Tcp
unfolding receive_at
tcp_receive e g t =
    if ltb (length g.bytes) 20 then t else receive_at e g t (find_index (matches g) t.sockets)
