-- ===== src/Tcp/Socket.antt =====
-- net/tcp.c: the table of TCP sockets and the segments they send. What a call finds around it, the
-- clock, the interface's address and whether the layer below accepts a packet, is an argument; the
-- segments that go out and the notices to the socket layer are lists.
use new_os.Base.{
  ℕ, zero, suc, ◌+◌, ◌-◌, ◌*◌, ◌/◌, ◌%◌, ◌^◌, Bool, true, false, not, ◌||◌, if◌then◌else◌, ltb,
  ◌==◌, List, [], ◌∷◌, ◌++◌, map, length, get_or, set, replicate, bit_xor,
}

-- tcp_state_t
pub data State : Type 0 where
  closed listen syn_rcvd syn_sent established fin_wait close_wait time_wait : State

pub record Socket : Type 0 where
  pub used : Bool
  pub state : State
  pub local_ip : ℕ
  pub remote_ip : ℕ
  pub local_port : ℕ
  pub remote_port : ℕ
  pub tx_seq : ℕ
  pub rx_seq : ℕ
  pub rx_buf : List ℕ
  pub rx_head : ℕ
  pub rx_tail : ℕ
  pub tx_rtx_buf : List ℕ
  pub tx_rtx_flags : ℕ
  pub tx_rtx_seq : ℕ
  pub tx_rtx_end_seq : ℕ
  pub tx_rtx_time : ℕ
  pub tx_rto : ℕ
  pub tx_rtx_count : ℕ

-- A segment with its header fields in host order.
pub record Segment : Type 0 where
  pub src_ip : ℕ
  pub src_port : ℕ
  pub dst_port : ℕ
  pub seq : ℕ
  pub ack : ℕ
  pub flags : ℕ
  pub data_off : ℕ
  pub bytes : List ℕ

-- A segment that goes out.
pub record SentSegment : Type 0 where
  pub to_ip : ℕ
  pub from_port : ℕ
  pub to_port : ℕ
  pub seq : ℕ
  pub ack : ℕ
  pub flags : ℕ
  pub payload : List ℕ

-- What a call finds: the clock, the interface's address, and whether sending works.
pub record Env : Type 0 where
  pub ticks : ℕ
  pub ip : ℕ
  pub send_ok : Bool

pub record Tcp : Type 0 where
  pub sockets : List Socket
  pub ephemeral_port : ℕ
  pub out : List SentSegment
  pub accepted : List (ℕ × ℕ)

abbrev pub rx_size : ℕ
rx_size = 4096

abbrev pub tcp_rto_initial : ℕ
tcp_rto_initial = 300

abbrev pub tcp_rto_max : ℕ
tcp_rto_max = 6000

abbrev pub tcp_max_retries : ℕ
tcp_max_retries = 5

abbrev pub tcp_rtx_buf : ℕ
tcp_rtx_buf = 2048

-- The flag bits FIN, SYN, RST, PSH and ACK.
abbrev pub fin : ℕ → Bool
fin flags = flags % 2 == 1

abbrev pub syn : ℕ → Bool
syn flags = flags / 2 % 2 == 1

abbrev pub rst : ℕ → Bool
rst flags = flags / 4 % 2 == 1

abbrev pub ack_bit : ℕ → Bool
ack_bit flags = flags / 16 % 2 == 1

abbrev pub is_listen : State → Bool
is_listen listen = true
is_listen _ = false

abbrev pub is_established : State → Bool
is_established established = true
is_established _ = false

-- A socket that memset has zeroed.
abbrev pub zeroed : Socket
zeroed = record {
  used = false;
  state = closed;
  local_ip = 0;
  remote_ip = 0;
  local_port = 0;
  remote_port = 0;
  tx_seq = 0;
  rx_seq = 0;
  rx_buf = replicate rx_size 0;
  rx_head = 0;
  rx_tail = 0;
  tx_rtx_buf = [];
  tx_rtx_flags = 0;
  tx_rtx_seq = 0;
  tx_rtx_end_seq = 0;
  tx_rtx_time = 0;
  tx_rto = 0;
  tx_rtx_count = 0;
}

abbrev pub is_unused : Socket → Bool
is_unused s = not s.used

unfoldable pub rand_seq : Env → ℕ
rand_seq e = bit_xor (e.ticks * 0xDEADBEEF % 2 ^ 32) 0x12345678

unfoldable pub tcp_init : Tcp → Tcp
tcp_init t = record t { sockets = map (λ s. zeroed) t.sockets; ephemeral_port = 49152 }

abbrev pub socket : Tcp → ℕ → Socket
socket t i = get_or t.sockets i zeroed

abbrev pub put_socket : ℕ → Socket → Tcp → Tcp
put_socket i s t = record t { sockets = set t.sockets i s }

abbrev pub take : ℕ → List ℕ → List ℕ
take zero xs = []
take (suc n) [] = []
take (suc n) (x ∷ xs) = x ∷ take n xs

-- The segment that tcp_send_segment builds.
abbrev pub segment_of : ℕ → List ℕ → Socket → SentSegment
segment_of flags payload s = record {
  to_ip = s.remote_ip;
  from_port = s.local_port;
  to_port = s.remote_port;
  seq = s.tx_seq;
  ack = if ack_bit flags then s.rx_seq else 0;
  flags = flags;
  payload = payload;
}

-- The socket once the segment is sent: the sequence number moves over the data, and a segment that
-- takes up sequence numbers is saved with its payload (tx_rtx_buf and tx_rtx_len as one list).
unfoldable pub sent_socket : Env → ℕ → List ℕ → Socket → Socket
sent_socket e flags payload s =
    let n = length payload in
    let end = (s.tx_seq + n) % 2 ^ 32 in
    let moved = if ltb 0 n then record s { tx_seq = end } else s in
    let extra = (if syn flags then 1 else 0) + (if fin flags then 1 else 0) in
    if syn flags || fin flags || ltb 0 n
    then record moved {
      tx_rtx_seq = (moved.tx_seq + 2 ^ 32 - n % 2 ^ 32) % 2 ^ 32;
      tx_rtx_end_seq = (moved.tx_seq + extra) % 2 ^ 32;
      tx_rtx_flags = flags;
      tx_rtx_buf = take tcp_rtx_buf payload;
      tx_rto = if s.tx_rtx_count == 0 then tcp_rto_initial else s.tx_rto;
      tx_rtx_time = e.ticks % 2 ^ 32;
    }
    else moved

-- A socket and the segments it has sent; tcp_send_segment and tcp_rtx_send.
unfoldable pub tcp_send_segment :
    Env → ℕ → List ℕ → Socket × List SentSegment → Socket × List SentSegment
unfolding sent_socket
tcp_send_segment e flags payload (s, out) =
    if e.send_ok
    then (sent_socket e flags payload s, out ++ (segment_of flags payload s ∷ []))
    else (s, out)

unfoldable pub tcp_rtx_send : Env → Socket → List SentSegment
tcp_rtx_send e s =
    if e.send_ok
    then record (segment_of s.tx_rtx_flags s.tx_rtx_buf s) { seq = s.tx_rtx_seq } ∷ []
    else []

-- s->tx_seq++
abbrev pub count_seq : Socket → Socket
count_seq s = record s { tx_seq = (s.tx_seq + 1) % 2 ^ 32 }
