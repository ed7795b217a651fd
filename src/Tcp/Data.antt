-- ===== src/Tcp/Data.antt =====
-- net/tcp.c: the receive buffer, from the segments that fill it to the calls that empty it.
use new_os.Base.{
  ℕ, zero, suc, ◌+◌, ◌-◌, ◌%◌, ◌^◌, ◌<◌, ◌≡◌, inl, inr, refl, ap, sym, subst, ◌∙◌, true, false, not,
  ◌&&◌, ◌||◌, ◌==◌, ltb, if◌then◌else◌, if-elim, List, [], ◌∷◌, ◌++◌, length, set, length-set,
  length-append, append-nil, append_assoc, Bool-cases, arith,
}
use new_os.Base.Ring.{ring, ring-push}
use new_os.Tcp.Socket.{
  Socket, Segment, SentSegment, Env, rx_size, fin, syn, rst, ack_bit, sent_socket, tcp_send_segment,
  take, established,
}
use new_os.Tcp.Receive.{tcp_rtx_clear_if_acked, rx_put, rx_copy, body, on_data, receive_in}

-- A ring buffer between these counters holds these bytes, oldest first.
pub record Stored (buf : List ℕ) (head tail : ℕ) (xs : List ℕ) : Type 0 where
  pub size : length buf ≡ rx_size
  pub room : length xs < rx_size
  pub low : head < 2 ^ 64
  pub end : tail ≡ (head + length xs) % 2 ^ 64
  pub all : ring 0 rx_size buf head (length xs) ≡ xs

abbrev pub Holds : Socket → List ℕ → Type 0
Holds s xs = Stored s.rx_buf s.rx_head s.rx_tail xs

rx_put-Holds :
    (b : ℕ) (s : Socket) (xs : List ℕ)
    → Holds s xs
    → length xs + 1 < rx_size
    → Holds (rx_put b s) (xs ++ (b ∷ []))
unfolding rx_put
rx_put-Holds b s xs h more =
    let n = length xs in
    let grown : length (xs ++ (b ∷ [])) ≡ suc n = omega (arith, length-append xs (b ∷ [])) in
    let open_slot : ((s.rx_tail + 1) % 2 ^ 64 % rx_size == s.rx_head % rx_size) ≡ false =
      ground (arith, h.end, h.low, more) in
    let at : s.rx_tail % rx_size ≡ (s.rx_head + n) % rx_size = omega (arith, h.end, h.low, more) in
    rw open_slot (record {
      size = length-set s.rx_buf (s.rx_tail % rx_size) b ∙ h.size;
      room = omega (arith, grown, more);
      low = h.low;
      end = omega (arith, grown, h.end, h.low, more);
      all =
          ap (λ (k : ℕ). ring 0 rx_size (set s.rx_buf (s.rx_tail % rx_size) b) s.rx_head k) grown
          ∙ ring-push 0 rx_size s.rx_buf b s.rx_head n (s.rx_tail % rx_size) (omega (arith, h.size))
              h.room at
          ∙ ap (λ (ys : List ℕ). ys ++ (b ∷ [])) h.all;
    })

rx_put_full :
    (b : ℕ) (s : Socket) (xs : List ℕ) → Holds s xs → length xs + 1 ≡ rx_size → rx_put b s ≡ s
unfolding rx_put
rx_put_full b s xs h full =
    let closed_slot : ((s.rx_tail + 1) % 2 ^ 64 % rx_size == s.rx_head % rx_size) ≡ true =
      ground (arith, h.end, h.low, full) in
    rw closed_slot refl

rx_copy_full :
    (bs : List ℕ) (s : Socket) (xs : List ℕ)
    → Holds s xs
    → length xs + 1 ≡ rx_size
    → rx_copy bs s ≡ s
unfolding rx_copy
rx_copy_full [] s xs h full = refl
rx_copy_full (b ∷ bs) s xs h full =
    ap (rx_copy bs) (rx_put_full b s xs h full) ∙ rx_copy_full bs s xs h full

-- The bytes that still fit are appended.
rx_copy-Holds :
    (bs : List ℕ) (s : Socket) (xs : List ℕ) (room : ℕ)
    → length xs + 1 + room ≡ rx_size
    → Holds s xs
    → Holds (rx_copy bs s) (xs ++ take room bs)
unfolding rx_copy
rx_copy-Holds [] s xs zero e h = subst (Holds s) (sym (append-nil xs)) h
rx_copy-Holds [] s xs (suc room) e h = subst (Holds s) (sym (append-nil xs)) h
rx_copy-Holds (b ∷ bs) s xs zero e h =
    let full : length xs + 1 ≡ rx_size = omega (arith, e) in
    subst (λ (u : Socket). Holds u (xs ++ [])) (sym (rx_copy_full (b ∷ bs) s xs h full))
      (subst (Holds s) (sym (append-nil xs)) h)
rx_copy-Holds (b ∷ bs) s xs (suc room) e h =
    let more : length xs + 1 < rx_size = omega (arith, e) in
    let rest =
      rx_copy-Holds bs (rx_put b s) (xs ++ (b ∷ [])) room
        (omega (arith, e, length-append xs (b ∷ []))) (rx_put-Holds b s xs h more) in
    subst (Holds (rx_copy bs (rx_put b s))) (append_assoc xs (b ∷ []) (take room bs)) rest

-- The socket holds these bytes and expects this sequence number.
abbrev pub Expects : List ℕ → ℕ → Socket → Type 0
Expects xs seq s = Holds s xs × (s.rx_seq ≡ seq)

clear-Expects :
    (ack : ℕ) (s : Socket) (xs : List ℕ) (seq : ℕ)
    → Expects xs seq s
    → Expects xs seq (tcp_rtx_clear_if_acked ack s)
unfolding tcp_rtx_clear_if_acked
clear-Expects ack s xs seq h =
    if-elim (Expects xs seq) (s.tx_rtx_time == 0) h
      (if-elim (Expects xs seq) (ltb ack s.tx_rtx_end_seq) h h)

sent_socket-Expects :
    (e : Env) (flags : ℕ) (payload : List ℕ) (s : Socket) (xs : List ℕ) (seq : ℕ)
    → Expects xs seq s
    → Expects xs seq (sent_socket e flags payload s)
unfolding sent_socket
sent_socket-Expects e flags payload s xs seq h =
    let moved = if-elim (Expects xs seq) (ltb 0 (length payload)) h h in
    if-elim (Expects xs seq) (syn flags || fin flags || ltb 0 (length payload)) moved moved

tcp_send_segment-Expects :
    (e : Env) (flags : ℕ) (payload : List ℕ) (s : Socket) (out : List SentSegment) (xs : List ℕ)
    (seq : ℕ)
    → Expects xs seq s
    → Expects xs seq (tcp_send_segment e flags payload (s, out)).0
unfolding tcp_send_segment
tcp_send_segment-Expects e flags payload s out xs seq h =
    if-elim (λ (x : Socket × List SentSegment). Expects xs seq x.0) e.send_ok
      (sent_socket-Expects e flags payload s xs seq h) h

rx_put_seq : (b : ℕ) (s : Socket) → (rx_put b s).rx_seq ≡ s.rx_seq
unfolding rx_put
rx_put_seq b s =
    if-elim (λ (x : Socket). x.rx_seq ≡ s.rx_seq)
      ((s.rx_tail + 1) % 2 ^ 64 % rx_size == s.rx_head % rx_size) refl refl

rx_copy_seq : (bs : List ℕ) (s : Socket) → (rx_copy bs s).rx_seq ≡ s.rx_seq
unfolding rx_copy
rx_copy_seq [] s = refl
rx_copy_seq (b ∷ bs) s = rx_copy_seq bs (rx_put b s) ∙ rx_put_seq b s

-- A segment with data that an established connection receives, with neither RST nor FIN: if it
-- starts at the sequence number expected, the bytes for which the receive buffer has room are
-- appended to those it holds, and the number expected moves over the whole segment, whether its
-- bytes fit or not; any other segment leaves the received data and the number expected as they are.
pub receive_in-Expects :
    (e : Env) (g : Segment) (s : Socket) (xs : List ℕ) (seq : ℕ)
    → rst g.flags ≡ false
    → fin g.flags ≡ false
    → 0 < length (body g)
    → Expects xs seq s
    → Expects
        (if g.seq == seq then xs ++ take (rx_size - 1 - length xs) (body g) else xs)
        (if g.seq == seq then (seq + length (body g)) % 2 ^ 32 else seq)
        (receive_in established e g s).after
unfolding receive_in on_data
receive_in-Expects e g s xs seq r f some_data h =
    let n = length (body g) in
    let answered = ack_bit g.flags && not (s.tx_rtx_time == 0) in
    let a = if answered then tcp_rtx_clear_if_acked g.ack s else s in
    let (held, expected) = if-elim (Expects xs seq) answered (clear-Expects g.ack s xs seq h) h in
    let room = rx_size - 1 - length xs in
    let b = rx_copy (body g) a in
    let moved : Socket = record b { rx_seq = (b.rx_seq + n) % 2 ^ 32 } in
    let held' = rx_copy-Holds (body g) a xs room (omega (arith, held.room)) held in
    let seq' : (b.rx_seq + n) % 2 ^ 32 ≡ (seq + n) % 2 ^ 32 =
      ap (λ (k : ℕ). (k + n) % 2 ^ 32) (rx_copy_seq (body g) a ∙ expected) in
    elim (Bool-cases (g.seq == seq)) [
      | inl same ↦
          let taken : (ltb 0 n && g.seq == a.rx_seq) ≡ true =
            ground (arith, same, expected, some_data) in
          rw (r, f, taken, same)
            (tcp_send_segment-Expects e 16 [] moved [] (xs ++ take room (body g))
              ((seq + n) % 2 ^ 32) (held', seq'))
      | inr other ↦
          let left : (ltb 0 n && g.seq == a.rx_seq) ≡ false =
            ground (arith, other, expected, some_data) in
          rw (r, f, left, other) (held, expected)
    ]
