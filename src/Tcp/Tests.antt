-- ===== src/Tcp/Tests.antt =====
-- net/tcp.c: connections between two tables of sockets, and the theorems at work on them.
use new_os.Base.{
  ℕ, suc, ◌≡◌, ◌≢◌, refl, true, false, List, [], ◌∷◌, ◌++◌, replicate, length-replicate, some,
  arith,
}
use new_os.Base.Find.{find_index}
use new_os.Tcp.Socket.{
  syn_rcvd, established, Socket, Segment, SentSegment, Env, Tcp, rx_size, zeroed, socket,
}
use new_os.Tcp.Receive.{receive_in, tcp_receive}
use new_os.Tcp.Calls.{tick_socket, tcp_listen, tcp_connect, tcp_send, tcp_recv, recv_socket}
use new_os.Tcp.Invariant.{zeroed-Good}
use new_os.Tcp.Moves.{Moves, receive_in-Moves}
use new_os.Tcp.Table.{IsGood}
use new_os.Tcp.Steps.{here, next, arrives, listens, Run-IsGood}
use new_os.Tcp.Timer.{Due, ticked, ticked_ends}
use new_os.Tcp.Data.{Holds, Expects, receive_in-Expects}
use new_os.Tcp.Reading.{recv_socket-Holds}

-- The tables of a server and a client.
abbrev empty_table : Tcp
empty_table = record {
  sockets = zeroed ∷ zeroed ∷ [];
  ephemeral_port = 49152;
  out = [];
  accepted = [];
}

abbrev here_env : Env
here_env = record { ticks = 1000; ip = 1; send_ok = true }

abbrev there_env : Env
there_env = record { ticks = 2000; ip = 2; send_ok = true }

-- A segment that was sent, as it arrives.
abbrev arrival : ℕ → SentSegment → Segment
arrival from x = record {
  src_ip = from;
  src_port = x.from_port;
  dst_port = x.to_port;
  seq = x.seq;
  ack = x.ack;
  flags = x.flags;
  data_off = 20;
  bytes = replicate 20 0 ++ x.payload;
}

abbrev no_segment : SentSegment
no_segment = record {
  to_ip = 0;
  from_port = 0;
  to_port = 0;
  seq = 0;
  ack = 0;
  flags = 0;
  payload = [];
}

abbrev last_sent : List SentSegment → SentSegment
last_sent [] = no_segment
last_sent (x ∷ []) = x
last_sent (x ∷ y ∷ xs) = last_sent (y ∷ xs)

-- The segment that a table has sent last arrives at another.
abbrev deliver : ℕ → Env → Tcp → Tcp → Tcp
deliver from e t u = tcp_receive e (arrival from (last_sent t.out)) u

abbrev server : Tcp
server = (tcp_listen here_env 80 empty_table).1

-- The client's SYN, and the SYN-ACK of the server, that arrives in the first round of the wait.
abbrev client_syn : Tcp
client_syn = (tcp_connect there_env [] 1 80 empty_table).1

abbrev server_syn : Tcp
server_syn = deliver 2 here_env client_syn server

abbrev client_open : Tcp
client_open =
    (tcp_connect there_env ((there_env, λ t. deliver 1 there_env server_syn t) ∷ []) 1 80
      empty_table).1

abbrev server_open : Tcp
server_open = deliver 2 here_env client_open server_syn

abbrev client_sends : Tcp
client_sends = (tcp_send there_env 0 (104 ∷ 105 ∷ []) client_open).1

abbrev server_reads : Tcp
server_reads = deliver 2 here_env client_sends server_open

handshake :
    ((socket server_syn 1).state ≡ syn_rcvd)
    × ((socket client_open 0).state ≡ established)
    × ((socket server_open 1).state ≡ established)
    × (server_open.accepted ≡ (80, 1) ∷ [])
unfolding tcp_listen tcp_connect tcp_receive find_index
handshake = (refl, refl, refl, refl)

transfer : (tcp_recv 1 100 server_reads).0 ≡ some (104 ∷ 105 ∷ [])
unfolding tcp_listen tcp_connect tcp_receive tcp_send tcp_recv find_index
transfer = refl

-- The final ACK of the handshake, and the other moves, on a socket that has sent number 50.
abbrev waiting : Socket
waiting = record zeroed { used = true; state = syn_rcvd; tx_seq = 50; rx_seq = 7 }

abbrev last_ack : Segment
last_ack = arrival 2 (record no_segment { seq = 7; ack = 50; flags = 16 })

receive_in-Moves_example :
    Moves last_ack waiting syn_rcvd (receive_in syn_rcvd here_env last_ack waiting).after.state
receive_in-Moves_example = receive_in-Moves here_env last_ack waiting syn_rcvd refl

-- A SYN, its ACK and a reset at a listening table.
abbrev first_syn : Segment
first_syn = arrival 2 (record no_segment { from_port = 9000; to_port = 80; seq = 6; flags = 2 })

Run-IsGood_example : IsGood (
    tcp_receive here_env last_ack
      (tcp_receive here_env first_syn (tcp_listen here_env 80 empty_table).1))
Run-IsGood_example =
    Run-IsGood (zeroed-Good, (zeroed-Good, tt))
      (next (next (next here (listens here_env 80)) (arrives here_env first_syn))
        (arrives here_env last_ack))

-- A socket on its fifth retry.
abbrev unanswered : Socket
unanswered = record waiting { tx_rtx_time = 100; tx_rto = 300; tx_rtx_count = 4 }

abbrev at : ℕ → Env
at n = record { ticks = n; ip = 1; send_ok = true }

nonzero : {n : ℕ} → suc n ≢ 0
nonzero e = omega (arith, e)

ticks-Due : Due (at 500 ∷ at 1500 ∷ []) unanswered
unfolding tick_socket
ticks-Due = (omega arith, nonzero, (omega arith, nonzero, tt))

ticked_ends_example : (ticked (at 500 ∷ at 1500 ∷ []) unanswered).used ≡ false
ticked_ends_example =
    ticked_ends (at 500 ∷ at 1500 ∷ []) unanswered refl (omega arith) (omega arith) refl ticks-Due

-- A connection that has not received anything.
abbrev idle : Socket
idle = record waiting { state = established }

idle-Holds : Holds idle []
idle-Holds = record {
  size = length-replicate {A = ℕ} rx_size 0;
  room = omega arith;
  low = omega arith;
  end = refl;
  all = refl;
}

abbrev letters : Segment
letters = arrival 2 (record no_segment { seq = 7; flags = 24; payload = 104 ∷ 105 ∷ [] })

receive_in-Expects_example :
    Expects (104 ∷ 105 ∷ []) 9 (receive_in established here_env letters idle).after
receive_in-Expects_example =
    receive_in-Expects here_env letters idle [] 7 refl refl (omega arith) (idle-Holds, refl)

recv_socket-Holds_example :
    ((recv_socket 1 (receive_in established here_env letters idle).after).0 ≡ 104 ∷ [])
    × Holds (recv_socket 1 (receive_in established here_env letters idle).after).1 (105 ∷ [])
recv_socket-Holds_example =
    recv_socket-Holds 1 (receive_in established here_env letters idle).after (104 ∷ 105 ∷ [])
      receive_in-Expects_example.0
