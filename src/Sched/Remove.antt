-- ===== src/Sched/Remove.antt =====
-- scheduler/scheduler.c: `scheduler_remove` searches the circular queue and closes the gap.
use new_os.Base.{
  ℕ, zero, suc, ◌+◌, ◌-◌, ◌%◌, ◌<◌, ◌≤◌, ◌≡◌, ◌≢◌, ◌∙◌, refl, sym, ap, ap₂, arith, length, List, [],
  ◌∷◌, ◌++◌, append-nil, append_assoc, get_or, set, get_or-set_self, get_or-set_ne, length-set,
  Bool-cases, ◌==◌, inl, inr, if◌then◌else◌, if-elim,
}
use new_os.Base.Ring.{ring, ring-set, ring-snoc, ring-append, index_ne}
use new_os.Sched.{Sched, shift, remove_from, scheduler_remove, max_ready}
use new_os.Sched.Queue.{QueueOk, queue}

-- The list without the first entry that is `p`.
unfoldable pub erase : ℕ → List ℕ → List ℕ
erase p [] = []
erase p (x ∷ xs) = if x == p then xs else x ∷ erase p xs

length-shift : (n head j : ℕ) (q : List ℕ) → length (shift n head j q) ≡ length q
unfolding shift
length-shift zero head j q = refl
length-shift (suc n) head j q =
    length-shift n head (j + 1) _ ∙ length-set q ((head + j) % max_ready) _

-- Entries outside of the gap stay.
shift_keeps :
    (n head j i : ℕ) (q : List ℕ)
    → ((k : ℕ) → k < n → (head + (j + k)) % max_ready ≢ i)
    → get_or (shift n head j q) i 0 ≡ get_or q i 0
unfolding shift
shift_keeps zero head j i q ne = refl
shift_keeps (suc n) head j i q ne =
    shift_keeps n head (j + 1) i _
      (λ k l e. ne (k + 1) (omega arith) (ap (λ (x : ℕ). x % 256) (omega arith) ∙ e))
    ∙ get_or-set_ne q ((head + j) % 256) i _ 0
        (λ e. ne 0 (omega arith) (ap (λ (x : ℕ). x % 256) (omega arith) ∙ e))

-- The entries before the gap stay.
ring_before :
    (m n head j h : ℕ) (q : List ℕ)
    → ((a k : ℕ) → a < m → k < n → (head + (j + k)) % max_ready ≢ (h + a) % max_ready)
    → ring 0 max_ready (shift n head j q) h m ≡ ring 0 max_ready q h m
ring_before zero n head j h q ne = refl
ring_before (suc m) n head j h q ne =
    ap₂ ◌∷◌
      (shift_keeps n head j (h % 256) q
        (λ k l e. ne 0 k (omega arith) l (e ∙ ap (λ (x : ℕ). x % 256) (omega arith))))
      (ring_before m n head j (h + 1) q
        (λ a k l l' e. ne (a + 1) k (omega arith) l' (e ∙ ap (λ (x : ℕ). x % 256) (omega arith))))

-- The entries behind the gap move one place down.
ring_behind :
    (n head j : ℕ) (q : List ℕ)
    → length q ≡ max_ready
    → n < max_ready
    → ring 0 max_ready (shift n head j q) (head + j) n ≡ ring 0 max_ready q (head + j + 1) n
unfolding shift
ring_behind zero head j q size room = refl
ring_behind (suc n) head j q size room =
    let at = (head + j) % 256 in
    let v = get_or q ((head + j + 1) % 256) 0 in
    ap₂ ◌∷◌
      (shift_keeps n head (j + 1) at (set q at v) (λ k l e.
          index_ne 256 (head + j) 0 (k + 1) (omega arith) (omega arith)
            (ap (λ (x : ℕ). x % 256) (omega arith) ∙ sym e ∙ ap (λ (x : ℕ). x % 256) (omega arith)))
        ∙ get_or-set_self q at v 0 (omega (arith, size)))
      (ap (λ (h : ℕ). ring 0 256 (shift n head (j + 1) (set q at v)) h n) (omega arith)
        ∙ ring_behind n head (j + 1) (set q at v) (length-set q at v ∙ size) (omega arith)
        ∙ ring-set 0 256 q v n (head + (j + 1) + 1) at (λ k l e.
          index_ne 256 (head + j) 0 (k + 2) (omega arith) (omega arith)
            (ap (λ (x : ℕ). x % 256) (omega arith) ∙ sym e ∙ ap (λ (x : ℕ). x % 256) (omega arith)))
        ∙ ap (λ (h : ℕ). ring 0 256 q h n) (omega arith))

-- One hit: the entry `i` is taken out of `i + 1 + n`.
shift_removes :
    (n head i : ℕ) (q : List ℕ)
    → length q ≡ max_ready
    → i + suc n ≤ max_ready
    → ring 0 max_ready (shift n head i q) head (i + n)
      ≡ ring 0 max_ready q head i ++ ring 0 max_ready q (head + i + 1) n
shift_removes n head i q size fits =
    ring-append 0 256 (shift n head i q) i n head
    ∙ ap₂ ◌++◌
        (ring_before i n head i head q
          (λ a k l m e. index_ne 256 head a (i + k) (omega arith) (omega arith) (sym e)))
        (ring_behind n head i q size (omega arith))

module _ (p : ℕ) (s : Sched) (v : QueueOk s) where
  -- The search from entry `i` on erases the first hit behind it.
  queue-remove_from :
      (n i : ℕ)
      → i + n ≡ s.ready_count
      → queue (remove_from n i p s)
        ≡ ring 0 max_ready s.ready_queue s.ready_head i
          ++ erase p (ring 0 max_ready s.ready_queue (s.ready_head + i) n)
  unfolding remove_from erase
  queue-remove_from zero i e =
      let n : s.ready_count ≡ i = omega arith in
      ap (ring 0 256 s.ready_queue s.ready_head) n ∙ sym (append-nil _)
  queue-remove_from (suc n) i e =
      let q = s.ready_queue in
      let h = s.ready_head in
      let x = get_or q ((h + i) % 256) 0 in
      elim (Bool-cases (x == p)) [
        | inl hit ↦
            let m : s.ready_count - 1 ≡ i + n = omega arith in
            rw hit (
              ap (ring 0 256 (shift n h i q) h) m
              ∙ shift_removes n h i q v.size (omega (arith, v.count_in)))
        | inr miss ↦
            let k : h + (i + 1) ≡ h + i + 1 = omega arith in
            let i' : i + 1 ≡ suc i = omega arith in
            rw miss (
              queue-remove_from n (i + 1) (omega arith)
              ∙ ap₂ ◌++◌ (ap (ring 0 256 q h) i' ∙ ring-snoc 0 256 q i h)
                  (ap (λ (j : ℕ). erase p (ring 0 256 q j n)) k)
              ∙ append_assoc (ring 0 256 q h i) (x ∷ []) (erase p (ring 0 256 q (h + i + 1) n)))
      ]

  remove_from-QueueOk : (n i : ℕ) → i + n ≡ s.ready_count → QueueOk (remove_from n i p s)
  unfolding remove_from
  remove_from-QueueOk zero i e = v
  remove_from-QueueOk (suc n) i e =
      if-elim QueueOk (get_or s.ready_queue ((s.ready_head + i) % 256) 0 == p)
        (record {
          size = length-shift n s.ready_head i s.ready_queue ∙ v.size;
          head_in = v.head_in;
          count_in = omega (arith, v.count_in);
          tail_at = omega (arith, v.tail_at, v.head_in);
        })
        (remove_from-QueueOk n (i + 1) (omega arith))

  -- When the queue's indices fit together, they still do after `scheduler_remove`, which takes the
  -- first entry of the process, if there is one, out of the queue and keeps the order of the
  -- others.
  pub scheduler_remove_lem :
      QueueOk (scheduler_remove p s) × (queue (scheduler_remove p s) ≡ erase p (queue s))
  unfolding scheduler_remove
  scheduler_remove_lem =
      let h : s.ready_head + 0 ≡ s.ready_head = omega arith in
      (
        remove_from-QueueOk s.ready_count 0 (omega arith),
        queue-remove_from s.ready_count 0 (omega arith)
            ∙ ap (λ (j : ℕ). erase p (ring 0 256 s.ready_queue j s.ready_count)) h,
      )

  remove_from_rest :
      (n i : ℕ)
      → ((remove_from n i p s).procs ≡ s.procs)
        × ((remove_from n i p s).current_process ≡ s.current_process)
        × ((remove_from n i p s).idle_proc ≡ s.idle_proc)
  unfolding remove_from
  remove_from_rest zero i = (refl, refl, refl)
  remove_from_rest (suc n) i =
      if-elim
        (λ (t : Sched).
          (t.procs ≡ s.procs)
          × (t.current_process ≡ s.current_process)
          × (t.idle_proc ≡ s.idle_proc))
        (get_or s.ready_queue ((s.ready_head + i) % 256) 0 == p) (refl, refl, refl)
        (remove_from_rest n (i + 1))

  -- `scheduler_remove` only touches the queue.
  pub scheduler_remove_rest :
      ((scheduler_remove p s).procs ≡ s.procs)
      × ((scheduler_remove p s).current_process ≡ s.current_process)
      × ((scheduler_remove p s).idle_proc ≡ s.idle_proc)
  unfolding scheduler_remove
  scheduler_remove_rest = remove_from_rest s.ready_count 0
