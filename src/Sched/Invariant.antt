-- ===== src/Sched/Invariant.antt =====
-- scheduler/scheduler.c: the invariant of the ready queue and the processes in it, and rescheduling.
use new_os.Base.{
  ℕ, ◌<◌, ◌≡◌, ◌∙◌, refl, sym, ap, subst, true, false, arith, length, Option, some, List, [], ◌∷◌,
  ◌++◌, set, get_or-set_self, length-set, Bool-cases, ◌==◌, inl, inr, if-elim, leb,
}
use new_os.Sched.{
  Sched, Process, ready, null_process, proc_at, put_proc, set_state, is_running, max_ready,
  put_last, ready_enqueue, ready_dequeue, requeue, reschedule, take_cpu, switch_space,
}
use new_os.Sched.Queue.{
  QueueOk, queue, ready_enqueue-QueueOk, queue-ready_enqueue, ready_dequeue-QueueOk,
  queue-ready_dequeue, length-queue,
}
use new_os.Sched.Distinct.{
  Absent, Distinct, AllReady, Distinct-snoc, AllReady-snoc, Absent-of_state, AllReady-set,
}

pub record Sane (s : Sched) : Type 0 where
  pub queue_ok : QueueOk s
  pub distinct : Distinct (queue s)
  pub all_ready : AllReady s.procs (queue s)
  pub current_in : (p : ℕ) → s.current_process ≡ some p → p < length s.procs
  pub idle_in : s.idle_proc < length s.procs

-- The invariant reads the queue, the processes and who is current; the clocks and registers are free.
pub Sane-with :
    (s : Sched) (t : List Process) (ticks : ℕ) (c : Option ℕ) (cr3 tss : ℕ)
    → Sane s
    → AllReady t (queue s)
    → length t ≡ length s.procs
    → ((p : ℕ) → c ≡ some p → p < length s.procs)
    → Sane (record s {
      procs = t;
      sched_ticks = ticks;
      current_process = c;
      cr3 = cr3;
      tss_stack = tss;
    })
Sane-with s t ticks c cr3 tss v r l cur = record {
  queue_ok = record {
    size = v.queue_ok.size;
    head_in = v.queue_ok.head_in;
    count_in = v.queue_ok.count_in;
    tail_at = v.queue_ok.tail_at;
  };
  distinct = v.distinct;
  all_ready = r;
  current_in = λ p e. omega (arith, cur p e, l);
  idle_in = omega (arith, v.idle_in, l);
}

-- A nonempty queue begins with what the call returns.
queue_first :
    (s : Sched)
    → QueueOk s
    → (s.ready_count == 0) ≡ false
    → queue s ≡ (ready_dequeue s).0 ∷ queue (ready_dequeue s).1
queue_first s v e = elim (queue-ready_dequeue s v) [
  | inl (none_left, _) ↦
      absurd (let l = length-queue s in let z = ap length none_left in ground arith)
  | inr q ↦ q
]

-- A change of a process that is not queued.
pub put_proc-Sane :
    (s : Sched) (p : ℕ) (x : Process) → Sane s → Absent p (queue s) → Sane (put_proc s p x)
put_proc-Sane s p x v a =
    Sane-with s (set s.procs p x) s.sched_ticks s.current_process s.cr3 s.tss_stack v
      (AllReady-set s.procs p x (queue s) v.all_ready a) (length-set s.procs p x) v.current_in

procs-ready_enqueue-length : (p : ℕ) (s : Sched) → length (ready_enqueue p s).procs ≡ length s.procs
unfolding ready_enqueue
procs-ready_enqueue-length p s =
    if-elim (λ (t : Sched). length t.procs ≡ length s.procs) (leb max_ready s.ready_count) refl
      (length-set s.procs p _)

current-ready_enqueue :
    (p : ℕ) (s : Sched) → (ready_enqueue p s).current_process ≡ s.current_process
unfolding ready_enqueue
current-ready_enqueue p s =
    if-elim (λ (t : Sched). t.current_process ≡ s.current_process) (leb max_ready s.ready_count)
      refl refl

idle-ready_enqueue : (p : ℕ) (s : Sched) → (ready_enqueue p s).idle_proc ≡ s.idle_proc
unfolding ready_enqueue
idle-ready_enqueue p s =
    if-elim (λ (t : Sched). t.idle_proc ≡ s.idle_proc) (leb max_ready s.ready_count) refl refl

-- Queueing a process that is not queued.
pub ready_enqueue-Sane :
    (p : ℕ) (s : Sched)
    → Sane s
    → Absent p (queue s)
    → p < length s.procs
    → Sane (ready_enqueue p s)
unfolding ready_enqueue
ready_enqueue-Sane p s v a h = elim (Bool-cases (leb max_ready s.ready_count)) [
  | inl full ↦ rw full v
  | inr room ↦
      let x : Process = let y = proc_at s p in record y { state = ready } in
      let q : queue (put_last p s) ≡ queue s ++ (p ∷ []) =
        rw room at (queue-ready_enqueue p s v.queue_ok) in
      let ok : QueueOk (put_last p s) = rw room at (ready_enqueue-QueueOk p s v.queue_ok) in
      let at = ap (λ (y : Process). y.state) (get_or-set_self s.procs p x null_process h) in
      rw room (record {
        queue_ok = ok;
        distinct = subst Distinct (sym q) (Distinct-snoc p (queue s) v.distinct a);
        all_ready = subst (AllReady (set s.procs p x)) (sym q) (
            AllReady-snoc (set s.procs p x) p (queue s)
              (AllReady-set s.procs p x (queue s) v.all_ready a)
              (omega (arith, h, length-set s.procs p x)) at);
        current_in = λ c e. omega (arith, v.current_in c e, length-set s.procs p x);
        idle_in = omega (arith, v.idle_in, length-set s.procs p x);
      })
]

-- The first process off the queue: it exists, and it is not in the rest of the queue.
pub ready_dequeue-Sane :
    (s : Sched)
    → Sane s
    → let (next, s1) = ready_dequeue s in
      Sane s1 × (next < length s1.procs) × Absent next (queue s1)
unfolding ready_dequeue
ready_dequeue-Sane s v = elim (Bool-cases (s.ready_count == 0)) [
  | inl none_left ↦ let z : s.ready_count ≡ 0 = ground arith in rw none_left (v, v.idle_in, rw z tt)
  | inr some_left ↦
      let n : (s.ready_count == 0) ≡ false = some_left in
      let ok = rw some_left at (ready_dequeue-QueueOk s v.queue_ok) in
      let q = rw some_left at (queue_first s v.queue_ok n) in
      let d = subst Distinct q v.distinct in
      let r = subst (AllReady s.procs) q v.all_ready in
      rw some_left (
        record {
          queue_ok = ok;
          distinct = d.1;
          all_ready = r.2;
          current_in = v.current_in;
          idle_in = v.idle_in;
        },
        r.0,
        d.0,
      )
]

-- The process that takes the CPU leaves the ready state, so it must not be queued.
pub take_cpu-Sane :
    (next : ℕ) (s : Sched)
    → Sane s
    → next < length s.procs
    → Absent next (queue s)
    → Sane (take_cpu next s)
take_cpu-Sane next s v h a =
    Sane-with s (set s.procs next _) s.sched_ticks (some next) s.cr3 _ v
      (AllReady-set s.procs next _ (queue s) v.all_ready a) (length-set s.procs next _)
      (λ p e. let g : next ≡ p = cc e in omega (arith, h, g))

pub requeue-Sane : (old : ℕ) (s : Sched) → Sane s → old < length s.procs → Sane (requeue old s)
unfolding requeue
requeue-Sane old s v h = elim (Bool-cases (is_running (proc_at s old).state)) [
  | inl e ↦
      let a = Absent-of_state s.procs old (queue s) v.all_ready (λ r.
        absurd (let w : is_running ready ≡ true = ap is_running (sym r) ∙ e in ground arith)) in
      rw e (
        ready_enqueue-Sane old (set_state ready old s) (put_proc-Sane s old _ v a) a (
          omega (
            arith,
            h,
            length-set s.procs old (let x = proc_at s old in record x { state = ready }),
          )))
  | inr e ↦ rw e v
]

pub switch_space-Sane : (old next : ℕ) (s : Sched) → Sane s → Sane (switch_space old next s)
switch_space-Sane old next s v =
    let a = (proc_at s next).address_space in
    if-elim Sane ((proc_at s old).address_space == a) v (
      Sane-with s s.procs s.sched_ticks s.current_process a s.tss_stack v v.all_ready refl
        v.current_in)

pub reschedule-Sane :
    (old : ℕ) (s : Sched) → Sane s → old < length s.procs → Sane (reschedule old s)
unfolding reschedule
reschedule-Sane old s v h =
    let (v1, h1, a) = ready_dequeue-Sane (requeue old s) (requeue-Sane old s v h) in
    let (next, s1) = ready_dequeue (requeue old s) in
    switch_space-Sane old next (take_cpu next s1) (take_cpu-Sane next s1 v1 h1 a)
