-- ===== src/Tcp/Invariant.antt =====
-- net/tcp.c: the invariant of the sockets, and that no operation on a socket breaks it.
use new_os.Base.{
  ℕ, ◌+◌, ◌%◌, ◌^◌, ◌≤◌, ◌≡◌, refl, sym, subst, ◌∙◌, Bool, true, false, not, ◌&&◌, ◌||◌, ◌==◌, ltb,
  if◌then◌else◌, if-elim, List, [], ◌∷◌, length, length-replicate, length-set, differ, arith,
}
use new_os.Tcp.Socket.{
  State, closed, listen, syn_rcvd, syn_sent, established, fin_wait, close_wait, time_wait, Socket,
  Segment, SentSegment, Env, rx_size, tcp_rto_max, tcp_max_retries, fin, syn, rst, ack_bit, zeroed,
  sent_socket, tcp_send_segment,
}
use new_os.Tcp.Receive.{
  tcp_rtx_clear_if_acked, rx_put, rx_copy, body, Reply, on_fin, on_data, shut, receive_in,
}

abbrev pub is_passing : State → Bool
is_passing fin_wait = true
is_passing close_wait = true
is_passing _ = false

abbrev pub is_closed : State → Bool
is_closed closed = true
is_closed _ = false

-- Between two calls no socket is in FIN_WAIT or CLOSE_WAIT, a socket in use is not closed, there
-- are at most five retries, the timeout is at most its maximum, and the buffer has its size.
pub record Fine (state : State) (used : Bool) (count rto : ℕ) (buf : List ℕ) : Type 0 where
  pub settled : is_passing state ≡ false
  pub alive : used ≡ true → is_closed state ≡ false
  pub few : count ≤ tcp_max_retries
  pub soon : rto ≤ tcp_rto_max
  pub size : length buf ≡ rx_size

-- The socket would be fine in the given state.
abbrev pub Fits : State → Socket → Type 0
Fits state s = Fine state s.used s.tx_rtx_count s.tx_rto s.rx_buf

abbrev pub Good : Socket → Type 0
Good s = Fits s.state s

-- A socket that moves to another state, and stays in use or not.
pub Fine-state :
    {state : State} {used : Bool} {count rto : ℕ} {buf : List ℕ} (state' : State) (used' : Bool)
    → Fine state used count rto buf
    → is_passing state' ≡ false
    → (used' ≡ true → is_closed state' ≡ false)
    → Fine state' used' count rto buf
Fine-state state' used' f p q = record {
  settled = p;
  alive = q;
  few = f.few;
  soon = f.soon;
  size = f.size;
}

pub Fine-timer :
    {state : State} {used : Bool} {count rto : ℕ} {buf : List ℕ} (count' rto' : ℕ)
    → Fine state used count rto buf
    → count' ≤ tcp_max_retries
    → rto' ≤ tcp_rto_max
    → Fine state used count' rto' buf
Fine-timer count' rto' f p q = record {
  settled = f.settled;
  alive = f.alive;
  few = p;
  soon = q;
  size = f.size;
}

pub zeroed-Good : Good zeroed
zeroed-Good = record {
  settled = refl;
  alive = λ e. absurd (differ refl e);
  few = omega arith;
  soon = omega arith;
  size = length-replicate {A = ℕ} rx_size 0;
}

pub shut-Good : (s : Socket) → Good s → Good (shut s)
shut-Good s g = Fine-state closed false g refl (λ e. absurd (differ refl e))

sent_socket-Fits :
    (state : State) (e : Env) (flags : ℕ) (payload : List ℕ) (s : Socket)
    → Fits state s
    → Fits state (sent_socket e flags payload s)
unfolding sent_socket
sent_socket-Fits state e flags payload s g =
    let moved = if-elim (Fits state) (ltb 0 (length payload)) g g in
    if-elim (Fits state) (syn flags || fin flags || ltb 0 (length payload))
      (Fine-timer _ _ moved moved.few
        (if-elim (λ r. r ≤ tcp_rto_max) (s.tx_rtx_count == 0) (omega arith) g.soon))
      moved

sent_socket_state :
    (e : Env) (flags : ℕ) (payload : List ℕ) (s : Socket)
    → (sent_socket e flags payload s).state ≡ s.state
unfolding sent_socket
sent_socket_state e flags payload s =
    let P = λ (x : Socket). x.state ≡ s.state in
    let moved = if-elim P (ltb 0 (length payload)) refl refl in
    if-elim P (syn flags || fin flags || ltb 0 (length payload)) moved moved

-- Sending keeps the socket fine, and in its state.
pub tcp_send_segment-Fits :
    (state : State) (e : Env) (flags : ℕ) (payload : List ℕ) (p : Socket × List SentSegment)
    → Fits state p.0
    → Fits state (tcp_send_segment e flags payload p).0
unfolding tcp_send_segment
tcp_send_segment-Fits state e flags payload (s, out) g =
    if-elim (λ (x : Socket × List SentSegment). Fits state x.0) e.send_ok
      (sent_socket-Fits state e flags payload s g) g

pub tcp_send_segment_state :
    (e : Env) (flags : ℕ) (payload : List ℕ) (p : Socket × List SentSegment)
    → (tcp_send_segment e flags payload p).0.state ≡ p.0.state
unfolding tcp_send_segment
tcp_send_segment_state e flags payload (s, out) =
    if-elim (λ (x : Socket × List SentSegment). x.0.state ≡ s.state) e.send_ok
      (sent_socket_state e flags payload s) refl

pub tcp_send_segment-Good :
    (e : Env) (flags : ℕ) (payload : List ℕ) (p : Socket × List SentSegment)
    → Good p.0
    → Good (tcp_send_segment e flags payload p).0
tcp_send_segment-Good e flags payload (s, out) g =
    subst (λ k. Fits k (tcp_send_segment e flags payload (s, out)).0)
      (sym (tcp_send_segment_state e flags payload (s, out)))
      (tcp_send_segment-Fits s.state e flags payload (s, out) g)

pub clear-Fits :
    (state : State) (ack : ℕ) (s : Socket)
    → Fits state s
    → Fits state (tcp_rtx_clear_if_acked ack s)
unfolding tcp_rtx_clear_if_acked
clear-Fits state ack s g =
    if-elim (Fits state) (s.tx_rtx_time == 0) g
      (if-elim (Fits state) (ltb ack s.tx_rtx_end_seq) g (Fine-timer 0 _ g (omega arith) g.soon))

pub clear_state : (ack : ℕ) (s : Socket) → (tcp_rtx_clear_if_acked ack s).state ≡ s.state
unfolding tcp_rtx_clear_if_acked
clear_state ack s =
    let P = λ (x : Socket). x.state ≡ s.state in
    if-elim P (s.tx_rtx_time == 0) refl (if-elim P (ltb ack s.tx_rtx_end_seq) refl refl)

rx_put-Fits : (state : State) (b : ℕ) (s : Socket) → Fits state s → Fits state (rx_put b s)
unfolding rx_put
rx_put-Fits state b s g =
    if-elim (Fits state) ((s.rx_tail + 1) % 2 ^ 64 % rx_size == s.rx_head % rx_size) g (record {
      settled = g.settled;
      alive = g.alive;
      few = g.few;
      soon = g.soon;
      size = length-set s.rx_buf (s.rx_tail % rx_size) b ∙ g.size;
    })

rx_put_state : (b : ℕ) (s : Socket) → (rx_put b s).state ≡ s.state
unfolding rx_put
rx_put_state b s =
    if-elim (λ (x : Socket). x.state ≡ s.state)
      ((s.rx_tail + 1) % 2 ^ 64 % rx_size == s.rx_head % rx_size) refl refl

clear-Good : (ack : ℕ) (s : Socket) → Good s → Good (tcp_rtx_clear_if_acked ack s)
clear-Good ack s g =
    subst (λ k. Fits k (tcp_rtx_clear_if_acked ack s)) (sym (clear_state ack s))
      (clear-Fits s.state ack s g)

pub rx_copy_state : (bs : List ℕ) (s : Socket) → (rx_copy bs s).state ≡ s.state
unfolding rx_copy
rx_copy_state [] s = refl
rx_copy_state (b ∷ bs) s = rx_copy_state bs (rx_put b s) ∙ rx_put_state b s

rx_copy-Fits : (state : State) (bs : List ℕ) (s : Socket) → Fits state s → Fits state (rx_copy bs s)
unfolding rx_copy
rx_copy-Fits state [] s g = g
rx_copy-Fits state (b ∷ bs) s g = rx_copy-Fits state bs (rx_put b s) (rx_put-Fits state b s g)

on_fin-Good : (e : Env) (g : Segment) (s : Socket) → Good s → Good (on_fin e g s).after
unfolding on_fin
on_fin-Good e g s f =
    let open_again = Fine-state time_wait s.used f refl (λ u. refl) in
    let a : Socket = record s { rx_seq = (g.seq + 1) % 2 ^ 32; state = close_wait } in
    tcp_send_segment-Fits time_wait e 17 [] (tcp_send_segment e 16 [] (a, []))
      (tcp_send_segment-Fits time_wait e 16 [] (a, []) open_again)

on_data-Good : (e : Env) (g : Segment) (s : Socket) → Good s → Good (on_data e g s).after
unfolding on_data
on_data-Good e g s f =
    let answered = ack_bit g.flags && not (s.tx_rtx_time == 0) in
    let a = if answered then tcp_rtx_clear_if_acked g.ack s else s in
    let fa : Good a = if-elim Good answered (clear-Good g.ack s f) f in
    let b = rx_copy (body g) a in
    let fb : Good b =
      subst (λ k. Fits k b) (sym (rx_copy_state (body g) a)) (rx_copy-Fits a.state (body g) a fa) in
    let moved : Socket = record b { rx_seq = (b.rx_seq + length (body g)) % 2 ^ 32 } in
    if-elim (λ (r : Reply). Good r.after) (ltb 0 (length (body g)) && g.seq == a.rx_seq)
      (tcp_send_segment-Good e 16 [] (moved, []) fb) fa

-- The arrival of a segment, in each state.
pub receive_in-Good :
    (k : State) (e : Env) (g : Segment) (s : Socket)
    → s.state ≡ k
    → Good s
    → Good (receive_in k e g s).after
unfolding receive_in
receive_in-Good closed e g s at f = f
receive_in-Good listen e g s at f = f
receive_in-Good close_wait e g s at f = f
receive_in-Good time_wait e g s at f = shut-Good s f
receive_in-Good fin_wait e g s at f =
    if-elim Good (ack_bit g.flags) (Fine-state time_wait s.used f refl (λ u. refl)) f
receive_in-Good syn_rcvd e g s at f =
    let P = λ (r : Reply). Good r.after in
    if-elim P (rst g.flags) (shut-Good s f) (
      if-elim P (ack_bit g.flags && g.ack == s.tx_seq)
        (clear-Fits established g.ack s (Fine-state established s.used f refl (λ u. refl))) f)
receive_in-Good syn_sent e g s at f =
    let a : Socket = record (tcp_rtx_clear_if_acked g.ack s) {
      rx_seq = (g.seq + 1) % 2 ^ 32;
      state = established;
    } in
    if-elim (λ (r : Reply). Good r.after) (syn g.flags && ack_bit g.flags && g.ack == s.tx_seq)
      (tcp_send_segment-Good e 16 [] (a, [])
        (clear-Fits established g.ack s (Fine-state established s.used f refl (λ u. refl))))
      f
receive_in-Good established e g s at f =
    let P = λ (r : Reply). Good r.after in
    if-elim P (rst g.flags) (shut-Good s f)
      (if-elim P (fin g.flags) (on_fin-Good e g s f) (on_data-Good e g s f))
