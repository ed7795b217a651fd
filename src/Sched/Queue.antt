-- ===== src/Sched/Queue.antt =====
-- scheduler/scheduler.c: the ready queue as a list of processes, first to run first.
use new_os.Base.{
  ℕ, suc, ◌+◌, ◌-◌, ◌%◌, ◌<◌, ◌≤◌, ◌≡◌, ◌∙◌, refl, sym, ap, arith, length, List, [], ◌∷◌, ◌++◌,
  get_or, set, length-set, Bool-cases, ◌==◌, inl, inr, ◌⊎◌, leb, if◌then◌else◌,
}
use new_os.Base.Ring.{ring, length-ring, ring-mod, ring-push}
use new_os.Sched.{Sched, ready_enqueue, ready_dequeue, max_ready}

-- The indices of the queue fit together.
pub record QueueOk (s : Sched) : Type 0 where
  pub size : length s.ready_queue ≡ max_ready
  pub head_in : s.ready_head < max_ready
  pub count_in : s.ready_count ≤ max_ready
  pub tail_at : s.ready_tail ≡ (s.ready_head + s.ready_count) % max_ready

abbrev pub queue : Sched → List ℕ
queue s = ring 0 max_ready s.ready_queue s.ready_head s.ready_count

pub length-queue : (s : Sched) → length (queue s) ≡ s.ready_count
length-queue s = length-ring 0 max_ready s.ready_queue s.ready_head s.ready_count

pub ready_enqueue-QueueOk : (p : ℕ) (s : Sched) → QueueOk s → QueueOk (ready_enqueue p s)
unfolding ready_enqueue
ready_enqueue-QueueOk p s v = elim (Bool-cases (leb max_ready s.ready_count)) [
  | inl full ↦ rw full v
  | inr room ↦ rw room (record {
    size = omega (arith, length-set s.ready_queue s.ready_tail p, v.size);
    head_in = v.head_in;
    count_in = ground arith;
    tail_at = omega (arith, v.tail_at, v.head_in);
  })
]

-- With room the process goes to the end of the queue; without, the call drops it.
pub queue-ready_enqueue :
    (p : ℕ) (s : Sched)
    → QueueOk s
    → queue (ready_enqueue p s)
      ≡ (if leb max_ready s.ready_count then queue s else queue s ++ (p ∷ []))
unfolding ready_enqueue
queue-ready_enqueue p s v = elim (Bool-cases (leb max_ready s.ready_count)) [
  | inl full ↦ rw full refl
  | inr room ↦
      let n : s.ready_count + 1 ≡ suc s.ready_count = omega arith in
      rw room (
        ap (ring 0 256 (set s.ready_queue s.ready_tail p) s.ready_head) n
        ∙ ring-push 0 256 s.ready_queue p s.ready_head s.ready_count s.ready_tail
            (omega (arith, v.size)) (ground arith) v.tail_at)
]

pub ready_dequeue-QueueOk : (s : Sched) → QueueOk s → QueueOk (ready_dequeue s).1
unfolding ready_dequeue
ready_dequeue-QueueOk s v = elim (Bool-cases (s.ready_count == 0)) [
  | inl none_left ↦ rw none_left v
  | inr some_left ↦ rw some_left (record {
    size = v.size;
    head_in = omega arith;
    count_in = omega (arith, v.count_in);
    tail_at = ground (arith, v.tail_at, v.head_in);
  })
]

-- The first of the queue is taken off it; an empty queue gives the idle process.
pub queue-ready_dequeue :
    (s : Sched)
    → QueueOk s
    → ((queue s ≡ []) × (ready_dequeue s ≡ (s.idle_proc, s)))
      ⊎ (queue s ≡ (ready_dequeue s).0 ∷ queue (ready_dequeue s).1)
unfolding ready_dequeue
queue-ready_dequeue s v = elim (Bool-cases (s.ready_count == 0)) [
  | inl none_left ↦
      let z : s.ready_count ≡ 0 = ground arith in
      inl (ap (ring 0 256 s.ready_queue s.ready_head) z, rw none_left refl)
  | inr some_left ↦
      let n : s.ready_count ≡ suc (s.ready_count - 1) = ground arith in
      let h : s.ready_head % 256 ≡ s.ready_head = omega (arith, v.head_in) in
      rw some_left (
        inr (
          ap (ring 0 256 s.ready_queue s.ready_head) n
          ∙ ap
              (λ (i : ℕ).
                get_or s.ready_queue i 0
                ∷ ring 0 256 s.ready_queue (s.ready_head + 1) (s.ready_count - 1))
              h
          ∙ ap (λ (q : List ℕ). get_or s.ready_queue s.ready_head 0 ∷ q)
              (sym (ring-mod 0 256 s.ready_queue (s.ready_head + 1) (s.ready_count - 1)))))
]
