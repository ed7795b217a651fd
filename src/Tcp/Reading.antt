-- ===== src/Tcp/Reading.antt =====
-- net/tcp.c: tcp_recv, that gives the bytes a receive buffer holds in the order they came in.
use new_os.Base.{
  ℕ, zero, suc, ◌+◌, ◌%◌, ◌^◌, ◌≤◌, ◌≡◌, inl, inr, refl, ap, ap₂, sym, subst, ◌∙◌, ltb, List, [],
  ◌∷◌, length, get_or, Bool-cases, arith,
}
use new_os.Base.Ring.{ring, ring-mod}
use new_os.Libc.{drop}
use new_os.Tcp.Socket.{Socket, rx_size, take}
use new_os.Tcp.Calls.{rx_take, recv_socket, available}
use new_os.Tcp.Data.{Holds}

head_of : {x y : ℕ} {xs ys : List ℕ} → x ∷ xs ≡ y ∷ ys → x ≡ y
head_of {x} e = ap (λ (zs : List ℕ). get_or zs 0 x) e

tail_of : {x y : ℕ} {xs ys : List ℕ} → x ∷ xs ≡ y ∷ ys → xs ≡ ys
tail_of e = ap (drop 1) e

-- The socket once the oldest byte is read.
abbrev moved_on : Socket → Socket
moved_on s = record s { rx_head = (s.rx_head + 1) % 2 ^ 64 }

moved_on-Holds : (s : Socket) (x : ℕ) (xs : List ℕ) → Holds s (x ∷ xs) → Holds (moved_on s) xs
moved_on-Holds s x xs h = record {
  size = h.size;
  room = omega (arith, h.room);
  low = omega arith;
  end = omega (arith, h.end, h.low, h.room);
  all =
      sym (ring-mod 0 rx_size s.rx_buf ((s.rx_head + 1) % 2 ^ 64) (length xs))
      ∙ ap (λ (k : ℕ). ring 0 rx_size s.rx_buf k (length xs)) (omega arith)
      ∙ ring-mod 0 rx_size s.rx_buf (s.rx_head + 1) (length xs)
      ∙ tail_of h.all;
}

rx_take-Holds :
    (n : ℕ) (s : Socket) (xs : List ℕ)
    → n ≤ length xs
    → Holds s xs
    → ((rx_take n s).0 ≡ take n xs) × Holds (rx_take n s).1 (drop n xs)
unfolding rx_take
rx_take-Holds zero s xs l h = (refl, h)
rx_take-Holds (suc n) s [] l h = absurd (omega arith)
rx_take-Holds (suc n) s (x ∷ xs) l h =
    let (got, left) = rx_take-Holds n (moved_on s) xs (omega arith) (moved_on-Holds s x xs h) in
    (ap₂ ◌∷◌ (head_of h.all) got, left)

available-Holds : (s : Socket) (xs : List ℕ) → Holds s xs → available s ≡ length xs
available-Holds s xs h = omega (arith, h.end, h.low, h.room)

take_all : (n : ℕ) (xs : List ℕ) → length xs ≤ n → (take n xs ≡ xs) × (drop n xs ≡ [])
take_all zero [] l = (refl, refl)
take_all zero (x ∷ xs) l = absurd (omega arith)
take_all (suc n) [] l = (refl, refl)
take_all (suc n) (x ∷ xs) l =
    let (p, q) = take_all n xs (omega arith) in (ap (λ (ys : List ℕ). x ∷ ys) p, q)

-- Reading up to n bytes from a socket gives the oldest n of the bytes that its receive buffer
-- holds, or all of them if there are fewer, and the buffer then holds the others.
pub recv_socket-Holds :
    (n : ℕ) (s : Socket) (xs : List ℕ)
    → Holds s xs
    → ((recv_socket n s).0 ≡ take n xs) × Holds (recv_socket n s).1 (drop n xs)
unfolding recv_socket
recv_socket-Holds n s xs h = elim (Bool-cases (ltb (available s) n)) [
  | inl few ↦
      let e = available-Holds s xs h in
      let (t, d) = take_all n xs (ground (arith, few, e)) in
      let (t', d') = take_all (available s) xs (omega (arith, e)) in
      let (got, left) = rx_take-Holds (available s) s xs (omega (arith, e)) h in
      rw few (got ∙ t' ∙ sym t, subst (Holds (rx_take (available s) s).1) (d' ∙ sym d) left)
  | inr enough ↦
      let e = available-Holds s xs h in
      rw enough (rx_take-Holds n s xs (ground (arith, enough, e)) h)
]
