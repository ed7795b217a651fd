-- ===== src/Sched/Steps.antt =====
-- scheduler/scheduler.c: the operations of the scheduler as steps, and runs of them.
use new_os.Base.{
  ℕ, ◌<◌, ◌≡◌, ◌≢◌, ◌∙◌, refl, sym, ap, subst, arith, length, Option, none, some, List, set,
  length-set, Bool-cases, Option-cases, inl, inr, if-elim, ltb, ◌||◌,
}
use new_os.Sched.{
  Sched, Process, ProcState, ready, proc_at, put_proc, is_running, is_ready, max_ready,
  ready_dequeue, reschedule, take_cpu, use_slice, count_tick, tick_current, tick_first,
  scheduler_init, scheduler_add, scheduler_remove, scheduler_tick, scheduler_yield, scheduler_block,
  scheduler_unblock,
}
use new_os.Sched.Queue.{QueueOk, queue}
use new_os.Sched.Remove.{erase, scheduler_remove_lem, scheduler_remove_rest}
use new_os.Sched.Distinct.{
  Absent, Distinct, AllReady, Absent-of_state, AllReady-set_same, Distinct-erase,
  AllReady-set-erase,
}
use new_os.Sched.Invariant.{
  Sane, Sane-with, put_proc-Sane, ready_enqueue-Sane, ready_dequeue-Sane, take_cpu-Sane,
  reschedule-Sane,
}

count_tick-Sane : (s : Sched) → Sane s → Sane (count_tick s)
count_tick-Sane s v =
    Sane-with s s.procs _ s.current_process s.cr3 s.tss_stack v v.all_ready refl v.current_in

tick_first-Sane : (s : Sched) → Sane s → Sane (tick_first s)
unfolding tick_first
tick_first-Sane s v =
    let (v1, h, a) = ready_dequeue-Sane s v in
    let (next, s1) = ready_dequeue s in
    let s2 = take_cpu next s1 in
    let v2 = take_cpu-Sane next s1 v1 h a in
    Sane-with s2 s2.procs s2.sched_ticks s2.current_process _ s2.tss_stack v2 v2.all_ready refl
      v2.current_in

-- Counting a tick on a process leaves its state, and so the invariant.
use_slice-Sane :
    (old : ℕ) (s : Sched)
    → Sane s
    → old < length s.procs
    → Sane (put_proc s old (use_slice (proc_at s old)))
use_slice-Sane old s v h =
    let x = use_slice (proc_at s old) in
    Sane-with s (set s.procs old x) s.sched_ticks s.current_process s.cr3 s.tss_stack v
      (AllReady-set_same s.procs old x (queue s) v.all_ready h refl) (length-set s.procs old x)
      v.current_in

tick_current-Sane :
    (old : ℕ) (s : Sched) → Sane s → old < length s.procs → Sane (tick_current old s)
unfolding tick_current
tick_current-Sane old s v h =
    let x = use_slice (proc_at s old) in
    let v1 = use_slice-Sane old s v h in
    let h1 : old < length (set s.procs old x) = omega (arith, h, length-set s.procs old x) in
    if-elim Sane (ltb 0 (proc_at s old).time_slice)
      (if-elim Sane _ v1 (reschedule-Sane old (put_proc s old x) v1 h1)) (reschedule-Sane old s v h)

-- The step of the tick and of the yield, by who is current.
abbrev tick_by : Sched → Option ℕ → Sched
tick_by s c = elim c [
  | none ↦ tick_first (count_tick s)
  | some old ↦ tick_current old (count_tick s)
]

abbrev yield_by : Sched → Option ℕ → Sched
yield_by s c = elim c [ none ↦ s | some old ↦ reschedule old s ]

-- The timer tick keeps the invariant.
pub scheduler_tick-Sane : (s : Sched) → Sane s → Sane (scheduler_tick s)
unfolding scheduler_tick
scheduler_tick-Sane s v = elim (Option-cases s.current_process) [
  | inl e ↦
      subst Sane (ap (tick_by s) (sym e)) (tick_first-Sane (count_tick s) (count_tick-Sane s v))
  | inr (old, e) ↦
      subst Sane (ap (tick_by s) (sym e))
        (tick_current-Sane old (count_tick s) (count_tick-Sane s v) (v.current_in old e))
]

pub scheduler_yield-some :
    (old : ℕ) (s : Sched) → s.current_process ≡ some old → scheduler_yield s ≡ reschedule old s
unfolding scheduler_yield
scheduler_yield-some old s e = ap (yield_by s) e

-- A yield keeps the invariant.
pub scheduler_yield-Sane : (s : Sched) → Sane s → Sane (scheduler_yield s)
unfolding scheduler_yield
scheduler_yield-Sane s v = elim (Option-cases s.current_process) [
  | inl e ↦ subst Sane (ap (yield_by s) (sym e)) v
  | inr (old, e) ↦
      subst Sane (ap (yield_by s) (sym e)) (reschedule-Sane old s v (v.current_in old e))
]

pub scheduler_add-Sane :
    (p : ℕ) (s : Sched)
    → Sane s
    → p < length s.procs
    → (proc_at s p).state ≢ ready
    → Sane (scheduler_add (some p) s)
unfolding scheduler_add
scheduler_add-Sane p s v h ne =
    ready_enqueue-Sane p s v (Absent-of_state s.procs p (queue s) v.all_ready ne) h

pub scheduler_unblock-Sane :
    (p : ℕ) (s : Sched) → Sane s → p < length s.procs → Sane (scheduler_unblock (some p) s)
unfolding scheduler_unblock
scheduler_unblock-Sane p s v h =
    elim (Bool-cases (is_ready (proc_at s p).state || is_running (proc_at s p).state)) [
      | inl e ↦ rw e v
      | inr e ↦
          let ne : (proc_at s p).state ≢ ready =
            λ r. absurd (let w = rw r at e in ground (arith, w)) in
          rw e (ready_enqueue-Sane p s v (Absent-of_state s.procs p (queue s) v.all_ready ne) h)
    ]

-- Removing the entry of a process whose record may have changed.
pub remove-Sane :
    (p : ℕ) (x : Process) (s : Sched) → Sane s → Sane (scheduler_remove p (put_proc s p x))
remove-Sane p x s v =
    let t = put_proc s p x in
    let u = scheduler_remove p t in
    let ok : QueueOk t = record {
      size = v.queue_ok.size;
      head_in = v.queue_ok.head_in;
      count_in = v.queue_ok.count_in;
      tail_at = v.queue_ok.tail_at;
    } in
    let (queue_ok, q) = scheduler_remove_lem p t ok in
    let (procs, current, idle) = scheduler_remove_rest p t ok in
    let l = length-set s.procs p x in
    let size = ap length procs in
    record {
      queue_ok = queue_ok;
      distinct = subst Distinct (sym q) (Distinct-erase p (queue s) v.distinct);
      all_ready = subst (AllReady u.procs) (sym q) (
          subst (λ (y : List Process). AllReady y (erase p (queue s))) (sym procs)
            (AllReady-set-erase s.procs p x (queue s) v.all_ready v.distinct));
      current_in = λ c e. omega (arith, v.current_in c (sym current ∙ e), l, size);
      idle_in = omega (arith, v.idle_in, l, size, idle);
    }

pub scheduler_block-Sane :
    (p : ℕ) (reason : ProcState) (s : Sched) → Sane s → Sane (scheduler_block (some p) reason s)
unfolding scheduler_block
scheduler_block-Sane p reason s v =
    remove-Sane p (let x = proc_at s p in record x { state = reason }) s v

-- The queue starts empty.
pub scheduler_init-Sane :
    (idle : ℕ) (s : Sched)
    → length s.ready_queue ≡ max_ready
    → idle < length s.procs
    → s.current_process ≡ none
    → Sane (scheduler_init idle s)
unfolding scheduler_init
scheduler_init-Sane idle s size h e = record {
  queue_ok = record {
    size = size;
    head_in = omega arith;
    count_in = omega arith;
    tail_at = omega arith;
  };
  distinct = tt;
  all_ready = tt;
  current_in = λ p f. absurd (let g : none ≡ some p = cc (e, f) in ground (arith, g));
  idle_in = h;
}

-- What the rest of the kernel does to the scheduler: it calls the operations, adds processes that are
-- not ready, and writes processes that are not queued.
pub data Step (s : Sched) : Sched → Type 0 where
  tick : Step s (scheduler_tick s)
  yield : Step s (scheduler_yield s)
  add :
      (p : ℕ) → p < length s.procs → (proc_at s p).state ≢ ready → Step s (scheduler_add (some p) s)
  block : (p : ℕ) (reason : ProcState) → Step s (scheduler_block (some p) reason s)
  unblock : (p : ℕ) → p < length s.procs → Step s (scheduler_unblock (some p) s)
  write : (p : ℕ) (x : Process) → Absent p (queue s) → Step s (put_proc s p x)

pub data Run (s : Sched) : Sched → Type 0 where
  start : Run s s
  then_step : (t u : Sched) → Run s t → Step t u → Run s u

Step-Sane : (s t : Sched) → Step s t → Sane s → Sane t
Step-Sane s _ tick v = scheduler_tick-Sane s v
Step-Sane s _ yield v = scheduler_yield-Sane s v
Step-Sane s _ (add p h ne) v = scheduler_add-Sane p s v h ne
Step-Sane s _ (block p reason) v = scheduler_block-Sane p reason s v
Step-Sane s _ (unblock p h) v = scheduler_unblock-Sane p s v h
Step-Sane s _ (write p x a) v = put_proc-Sane s p x v a

Run-keeps : (s t : Sched) → Run s t → Sane s → Sane t
Run-keeps s _ start v = v
Run-keeps s _ (then_step t u r step) v = Step-Sane t u step (Run-keeps s t r v)

-- From a ready queue of full size, an idle process in range and no current process: however ticks,
-- yields, additions of processes that are not ready, blocks, unblocks and writes to unqueued
-- processes follow each other after scheduler_init, the queue's indices fit together, the queue
-- never holds a process twice, every process in it exists and is ready, and the current and the
-- idle process exist.
pub Run-Sane :
    (idle : ℕ) (s t : Sched)
    → length s.ready_queue ≡ max_ready
    → idle < length s.procs
    → s.current_process ≡ none
    → Run (scheduler_init idle s) t
    → Sane t
Run-Sane idle s t size h e r =
    Run-keeps (scheduler_init idle s) t r (scheduler_init-Sane idle s size h e)
