-- ===== src/Tcp/Moves.antt =====
-- net/tcp.c: the moves of a socket from state to state when a segment arrives.
use new_os.Base.{
  ◌≡◌, inl, inr, refl, ◌∙◌, true, false, not, ◌&&◌, ◌==◌, ltb, if◌then◌else◌, if-elim, [], length,
  Bool-cases, arith,
}
use new_os.Tcp.Socket.{
  State, closed, listen, syn_rcvd, syn_sent, established, fin_wait, close_wait, time_wait, Socket,
  Segment, Env, fin, syn, rst, ack_bit,
}
use new_os.Tcp.Receive.{tcp_rtx_clear_if_acked, rx_copy, body, Reply, on_fin, on_data, receive_in}
use new_os.Tcp.Invariant.{tcp_send_segment_state, rx_copy_state, clear_state}

-- The moves that a segment g can make a socket s make.
pub data Moves (g : Segment) (s : Socket) : State → State → Type 0 where
  stays : (k : State) → Moves g s k k
  accepts :
      rst g.flags ≡ false
      → ack_bit g.flags ≡ true
      → g.ack ≡ s.tx_seq
      → Moves g s syn_rcvd established
  refused : rst g.flags ≡ true → Moves g s syn_rcvd closed
  connects :
      syn g.flags ≡ true
      → ack_bit g.flags ≡ true
      → g.ack ≡ s.tx_seq
      → Moves g s syn_sent established
  reset : rst g.flags ≡ true → Moves g s established closed
  finishes : rst g.flags ≡ false → fin g.flags ≡ true → Moves g s established time_wait
  finished : ack_bit g.flags ≡ true → Moves g s fin_wait time_wait
  expires : Moves g s time_wait closed

on_data_state : (e : Env) (g : Segment) (s : Socket) → (on_data e g s).after.state ≡ s.state
unfolding on_data
on_data_state e g s =
    let P = λ (r : Reply). r.after.state ≡ s.state in
    let answered = ack_bit g.flags && not (s.tx_rtx_time == 0) in
    let a = if answered then tcp_rtx_clear_if_acked g.ack s else s in
    let same : a.state ≡ s.state =
      if-elim (λ (x : Socket). x.state ≡ s.state) answered (clear_state g.ack s) refl in
    if-elim P (ltb 0 (length (body g)) && g.seq == a.rx_seq)
      (tcp_send_segment_state e 16 [] (record (rx_copy (body g) a) { rx_seq = _ }, [])
        ∙ rx_copy_state (body g) a
        ∙ same)
      same

on_fin_state : (e : Env) (g : Segment) (s : Socket) → (on_fin e g s).after.state ≡ time_wait
unfolding on_fin
on_fin_state e g s = refl

-- When a segment arrives for a socket, the socket makes one of the moves of the state machine: to
-- ESTABLISHED only from SYN_RCVD by an ACK, or from SYN_SENT by a SYN with an ACK, that
-- acknowledges the sequence number sent; to CLOSED only by a reset or from TIME_WAIT; to TIME_WAIT
-- only by a FIN in ESTABLISHED or from FIN_WAIT.
pub receive_in-Moves :
    (e : Env) (g : Segment) (s : Socket) (k : State)
    → s.state ≡ k
    → Moves g s k (receive_in k e g s).after.state
unfolding receive_in
receive_in-Moves e g s closed at = rw at (stays closed)
receive_in-Moves e g s listen at = rw at (stays listen)
receive_in-Moves e g s close_wait at = rw at (stays close_wait)
receive_in-Moves e g s time_wait at = expires
receive_in-Moves e g s fin_wait at = elim (Bool-cases (ack_bit g.flags)) [
  | inl a ↦ rw a (finished a)
  | inr a ↦ rw (a, at) (stays fin_wait)
]
receive_in-Moves e g s syn_rcvd at = elim (Bool-cases (rst g.flags)) [
  | inl r ↦ rw r (refused r)
  | inr r ↦ elim (Bool-cases (ack_bit g.flags && g.ack == s.tx_seq)) [
    | inl a ↦ rw (r, a) (accepts r (ground arith) (ground arith))
    | inr a ↦ rw (r, a, at) (stays syn_rcvd)
  ]
]
receive_in-Moves e g s syn_sent at =
    elim (Bool-cases (syn g.flags && ack_bit g.flags && g.ack == s.tx_seq)) [
      | inl a ↦
          rw (a, tcp_send_segment_state) (connects (ground arith) (ground arith) (ground arith))
      | inr a ↦ rw (a, at) (stays syn_sent)
    ]
receive_in-Moves e g s established at = elim (Bool-cases (rst g.flags)) [
  | inl r ↦ rw r (reset r)
  | inr r ↦ elim (Bool-cases (fin g.flags)) [
    | inl f ↦ rw (r, f, on_fin_state) (finishes r f)
    | inr f ↦ rw (r, f, on_data_state, at) (stays established)
  ]
]
