-- ===== src/Tcp/Timer.antt =====
-- net/tcp.c: the retransmission timer of a socket that gets no answer.
use new_os.Base.{
  ◌+◌, ◌-◌, ◌%◌, ◌^◌, ◌≤◌, ◌<◌, ◌≡◌, ◌≢◌, refl, sym, ◌∙◌, true, false, not, ◌||◌, ◌==◌, ltb, leb,
  List, [], ◌∷◌, length, arith,
}
use new_os.Tcp.Socket.{Socket, Env, tcp_max_retries}
use new_os.Tcp.Calls.{tick_socket}

-- Ticks that each come when the timeout of the segment last sent has passed, at a
-- time whose low 32 bits are not all 0.
abbrev pub Due : List Env → Socket → Type 0
Due [] s = Unit
Due (e ∷ es) s =
    (s.tx_rto ≤ (e.ticks % 2 ^ 32 + 2 ^ 32 - s.tx_rtx_time) % 2 ^ 32)
    × (e.ticks % 2 ^ 32 ≢ 0)
    × Due es (tick_socket e s).0

abbrev pub ticked : List Env → Socket → Socket
ticked [] s = s
ticked (e ∷ es) s = ticked es (tick_socket e s).0

module _ (e : Env) (s : Socket) (u : s.used ≡ true) (pending : s.tx_rtx_time ≢ 0) where
  module _ (late : s.tx_rto ≤ (e.ticks % 2 ^ 32 + 2 ^ 32 - s.tx_rtx_time) % 2 ^ 32) where
    waits : (not s.used || s.tx_rtx_time == 0) ≡ false
    waits = ground (arith, u, pending)

    expired : ltb ((e.ticks % 2 ^ 32 + 2 ^ 32 - s.tx_rtx_time) % 2 ^ 32) s.tx_rto ≡ false
    expired = ground (arith, late)

    last_tick : tcp_max_retries ≤ s.tx_rtx_count → (tick_socket e s).0.used ≡ false
    unfolding tick_socket
    last_tick many =
        let f : leb tcp_max_retries s.tx_rtx_count ≡ true = ground (arith, many) in
        rw (waits, expired, f) refl

    -- A retry.
    retry :
        s.tx_rtx_count < tcp_max_retries
        → ((tick_socket e s).0.used ≡ s.used)
          × ((tick_socket e s).0.tx_rtx_time ≡ e.ticks % 2 ^ 32)
          × ((tick_socket e s).0.tx_rtx_count ≡ s.tx_rtx_count + 1)
    unfolding tick_socket
    retry few =
        let f : leb tcp_max_retries s.tx_rtx_count ≡ false = ground (arith, few) in
        rw (waits, expired, f) (refl, refl, refl)

-- A socket in use with a segment outstanding and at most five retries behind it is given up when
-- its timer runs out without an answer: after six ticks less one for each retry behind it, each of
-- which comes when the timeout has passed and at a time whose low 32 bits are not all 0, the socket
-- is no longer in use.
pub ticked_ends :
    (es : List Env) (s : Socket)
    → s.used ≡ true
    → s.tx_rtx_time ≢ 0
    → s.tx_rtx_count ≤ tcp_max_retries
    → s.tx_rtx_count + length es ≡ tcp_max_retries + 1
    → Due es s
    → (ticked es s).used ≡ false
ticked_ends [] s u pending few many d = absurd (omega arith)
ticked_ends (e ∷ []) s u pending few many (late, nz, d) = last_tick e s u pending late (omega arith)
ticked_ends (e ∷ e' ∷ es) s u pending few many (late, nz, d) =
    let (same, now, more) = retry e s u pending late (omega arith) in
    ticked_ends (e' ∷ es) (tick_socket e s).0 (same ∙ u) (λ f. nz (sym now ∙ f))
      (omega (arith, more, many)) (omega (arith, more, many)) d
