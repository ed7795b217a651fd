-- ===== src/Tcp/Steps.antt =====
-- net/tcp.c: runs of the TCP layer, whatever segments arrive, ticks pass and calls are made.
use new_os.Base.{ℕ, ◌≡◌, refl, false, if-elim, List, [], ◌∷◌, Option, none, some, differ}
use new_os.Tcp.Socket.{Segment, Env, Tcp, is_established, zeroed, socket, put_socket, tcp_init}
use new_os.Tcp.Receive.{tcp_receive}
use new_os.Tcp.Calls.{
  connect_wait, connect_at, tcp_connect, free_socket, tcp_listen, tcp_tick, opened, tcp_send,
  tcp_recv, tcp_close,
}
use new_os.Tcp.Invariant.{Fine-state, zeroed-Good}
use new_os.Tcp.Table.{
  IsGood, AllGood-at, AllGood-set, AllGood-map, open_active-Good, tcp_receive-Good, tcp_listen-Good,
  tcp_send-Good, tcp_recv-Good, tcp_close-Good, tcp_tick-Good,
}

-- The steps of the layer. A connect is its SYN, and later its end if no answer comes in time; what
-- happens in between are other steps.
pub data Step (t : Tcp) : Tcp → Type 0 where
  starts : Step t (tcp_init t)
  arrives : (e : Env) (g : Segment) → Step t (tcp_receive e g t)
  ticks : (e : Env) → Step t (tcp_tick e t)
  listens : (e : Env) (port : ℕ) → Step t (tcp_listen e port t).1
  opens : (e : Env) (ip port i : ℕ) → free_socket t ≡ some i → Step t (opened e ip port i t)
  gives_up : (i : ℕ) → Step t (put_socket i (record (socket t i) { used = false }) t)
  sends : (e : Env) (sock : ℕ) (payload : List ℕ) → Step t (tcp_send e sock payload t).1
  takes : (sock n : ℕ) → Step t (tcp_recv sock n t).1
  closes : (e : Env) (sock : ℕ) → Step t (tcp_close e sock t)

pub data Run (t : Tcp) : Tcp → Type 0 where
  here : Run t t
  next : {u v : Tcp} → Run t u → Step u v → Run t v

Run-append : {t u v : Tcp} → Run t u → Run u v → Run t v
Run-append r here = r
Run-append r (next q s) = next (Run-append r q) s

-- What each poll of the interface brings is a run.
abbrev Polls : List (Env × (Tcp → Tcp)) → Type 0
Polls [] = Unit
Polls ((e, poll) ∷ rounds) = ((t : Tcp) → Run t (poll t)) × Polls rounds

connect_wait-Run :
    (rounds : List (Env × (Tcp → Tcp))) (i : ℕ) {t u : Tcp}
    → Polls rounds
    → Run t u
    → Run t (connect_wait rounds i u).1
unfolding connect_wait
connect_wait-Run [] i q r = next r (gives_up i)
connect_wait-Run ((e, poll) ∷ rounds) i {t} {u} (p, q) r =
    let polled = next (Run-append r (p u)) (ticks e) in
    if-elim (λ (x : Option ℕ × Tcp). Run t x.1)
      (is_established (socket (tcp_tick e (poll u)) i).state) polled
      (connect_wait-Run rounds i q polled)

connect_at-Run :
    (e : Env) (rounds : List (Env × (Tcp → Tcp))) (ip port : ℕ) (t : Tcp) (o : Option ℕ)
    → Polls rounds
    → free_socket t ≡ o
    → Run t (connect_at e rounds ip port t o).1
unfolding connect_at
connect_at-Run e rounds ip port t none q f = here
connect_at-Run e rounds ip port t (some i) q f =
    let r = next here (opens e ip port i f) in
    if-elim (λ (x : Option ℕ × Tcp). Run t x.1) e.send_ok (connect_wait-Run rounds i q r) r

-- A whole tcp_connect is a run as well.
tcp_connect-Run :
    (e : Env) (rounds : List (Env × (Tcp → Tcp))) (ip port : ℕ) (t : Tcp)
    → Polls rounds
    → Run t (tcp_connect e rounds ip port t).1
unfolding tcp_connect
tcp_connect-Run e rounds ip port t q = connect_at-Run e rounds ip port t (free_socket t) q refl

Step-IsGood : {t u : Tcp} → Step t u → IsGood t → IsGood u
unfolding tcp_init opened
Step-IsGood {t} starts h = AllGood-map (λ s. zeroed) t.sockets (λ s g. zeroed-Good) h
Step-IsGood {t} (arrives e g) h = tcp_receive-Good e g t h
Step-IsGood {t} (ticks e) h = tcp_tick-Good e t h
Step-IsGood {t} (listens e port) h = tcp_listen-Good e port t h
Step-IsGood {t} (opens e ip port i f) h =
    AllGood-set t.sockets i _ h (open_active-Good e ip port t.ephemeral_port)
Step-IsGood {t} (gives_up i) h =
    let g = AllGood-at t.sockets i h in
    AllGood-set t.sockets i _ h
      (Fine-state (socket t i).state false g g.settled (λ u. absurd (differ refl u)))
Step-IsGood {t} (sends e sock payload) h = tcp_send-Good e sock payload t h
Step-IsGood {t} (takes sock n) h = tcp_recv-Good sock n t h
Step-IsGood {t} (closes e sock) h = tcp_close-Good e sock t h

-- In every state that the layer can reach from one in which all sockets are in order, by arriving
-- segments, ticks of the timer, calls, and the steps of tcp_connect in any order, they are in order again: none is in FIN_WAIT
-- or CLOSE_WAIT, none in use is closed, none has retried more than five times or waits longer than
-- the longest timeout, and each receive buffer has its size.
pub Run-IsGood : {t u : Tcp} → IsGood t → Run t u → IsGood u
Run-IsGood h here = h
Run-IsGood h (next r s) = Step-IsGood s (Run-IsGood h r)
