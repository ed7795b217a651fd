-- ===== src/Sched/Fair.antt =====
-- scheduler/scheduler.c: the processes that run under successive yields.
use new_os.Base.{
  ℕ, zero, suc, ◌<◌, ◌≡◌, ◌≢◌, ◌∙◌, refl, sym, ap, subst, true, false, arith, length, some, List,
  [], ◌∷◌, ◌++◌, get_or, get_or-set_self, length-append, ◌==◌, inl, inr, if-elim, leb,
}
use new_os.Sched.{
  Sched, Process, ready, running, null_process, proc_at, set_state, is_running, max_ready,
  ready_dequeue, requeue, reschedule, take_cpu, switch_space, scheduler_yield,
}
use new_os.Sched.Queue.{queue, queue-ready_enqueue, queue-ready_dequeue, length-queue}
use new_os.Sched.Distinct.{Absent, Absent-of_state}
use new_os.Sched.Invariant.{
  Sane, Sane-with, put_proc-Sane, requeue-Sane, ready_dequeue-Sane, take_cpu-Sane,
}
use new_os.Sched.Steps.{scheduler_yield-some}

-- The process `c` runs, and `q` waits behind it.
pub record Runs (s : Sched) (c : ℕ) (q : List ℕ) : Type 0 where
  pub sane : Sane s
  pub current : s.current_process ≡ some c
  pub runs : (proc_at s c).state ≡ running
  pub waits : queue s ≡ q

-- `n` yields in a row.
unfoldable pub yields : ℕ → Sched → Sched
yields zero s = s
yields (suc n) s = yields n (scheduler_yield s)

-- The process that runs goes to the end of a queue with room.
queue-requeue :
    (s : Sched) (c : ℕ) (q : List ℕ)
    → Runs s c q
    → length q < max_ready
    → queue (requeue c s) ≡ q ++ (c ∷ [])
unfolding requeue
queue-requeue s c q r h =
    let ne : (proc_at s c).state ≢ ready = λ e.
      absurd
        (let w : is_running ready ≡ true = ap is_running (sym e ∙ r.runs) in ground (arith, w)) in
    let v =
      put_proc-Sane s c (let x = proc_at s c in record x { state = ready }) r.sane
        (Absent-of_state s.procs c (queue s) r.sane.all_ready ne) in
    let n : s.ready_count ≡ length q = sym (length-queue s) ∙ ap length r.waits in
    let room : leb max_ready s.ready_count ≡ false = ground (arith, n, h) in
    let e = queue-ready_enqueue c (set_state ready c s) v.queue_ok in
    rw r.runs (rw room at e ∙ ap (λ (y : List ℕ). y ++ (c ∷ [])) r.waits)

abbrev rest_of : List ℕ → List ℕ
rest_of [] = []
rest_of (y ∷ ys) = ys

take_cpu-Runs :
    (next : ℕ) (s : Sched)
    → Sane s
    → next < length s.procs
    → Absent next (queue s)
    → Runs (take_cpu next s) next (queue s)
take_cpu-Runs next s v h a = record {
  sane = take_cpu-Sane next s v h a;
  current = refl;
  runs = ap (λ (y : Process). y.state) (get_or-set_self s.procs next _ null_process h);
  waits = refl;
}

switch_space-Runs :
    (old next : ℕ) (s : Sched)
    → Runs s next (queue s)
    → Runs (switch_space old next s) next (queue s)
switch_space-Runs old next s r =
    let a = (proc_at s next).address_space in
    if-elim (λ (t : Sched). Runs t next (queue s)) ((proc_at s old).address_space == a) r
      (record {
        sane =
            Sane-with s s.procs s.sched_ticks s.current_process a s.tss_stack r.sane
              r.sane.all_ready refl r.sane.current_in;
        current = r.current;
        runs = r.runs;
        waits = refl;
      })

-- A yield turns the line of processes by one: the first that waits runs, the one that ran waits last.
scheduler_yield-Runs :
    (s : Sched) (c x : ℕ) (q rest : List ℕ)
    → Runs s c q
    → length q < max_ready
    → q ++ (c ∷ []) ≡ x ∷ rest
    → Runs (scheduler_yield s) x rest
unfolding reschedule
scheduler_yield-Runs s c x q rest r h e =
    let s0 = requeue c s in
    let v0 = requeue-Sane c s r.sane (r.sane.current_in c r.current) in
    let (next, s1) = ready_dequeue s0 in
    let (v1, h1, a) = ready_dequeue-Sane s0 v0 in
    let q0 = queue-requeue s c q r h ∙ e in
    subst (λ (t : Sched). Runs t x rest) (sym (scheduler_yield-some c s r.current))
      (elim (queue-ready_dequeue s0 v0.queue_ok) [
        | inl (z, _) ↦ absurd (let w = ap length (sym z ∙ q0) in omega (arith, w))
        | inr q1 ↦
            let e1 : next ∷ queue s1 ≡ x ∷ rest = sym q1 ∙ q0 in
            let first : next ≡ x = ap (λ (l : List ℕ). get_or l 0 0) e1 in
            let others : queue s1 ≡ rest = ap rest_of e1 in
            subst (λ (y : ℕ). Runs (reschedule c s) y rest) first
              (subst (Runs (reschedule c s) next) others
                (switch_space-Runs c next (take_cpu next s1) (take_cpu-Runs next s1 v1 h1 a)))
      ])

get_or-snoc : (q : List ℕ) (c k : ℕ) → k < length q → get_or (q ++ (c ∷ [])) k 0 ≡ get_or q k 0
get_or-snoc [] c k h = absurd (omega arith)
get_or-snoc (x ∷ q) c zero h = refl
get_or-snoc (x ∷ q) c (suc k) h = get_or-snoc q c k (omega arith)

yields-rotate :
    (k c : ℕ) (q : List ℕ) (s : Sched)
    → Runs s c q
    → length q < max_ready
    → k < length q
    → (yields (suc k) s).current_process ≡ some (get_or q k 0)
unfolding yields
yields-rotate k c [] s r room h = absurd (omega arith)
yields-rotate zero c (x ∷ q) s r room h =
    (scheduler_yield-Runs s c x (x ∷ q) (q ++ (c ∷ [])) r room refl).current
yields-rotate (suc k) c (x ∷ q) s r room h =
    yields-rotate k x (q ++ (c ∷ [])) (scheduler_yield s)
      (scheduler_yield-Runs s c x (x ∷ q) (q ++ (c ∷ [])) r room refl)
      (omega (arith, length-append q (c ∷ []))) (omega (arith, length-append q (c ∷ [])))
    ∙ ap some (get_or-snoc q c k (omega arith))

-- In a state that keeps the invariant, with a process running and a free place in the queue, the
-- process at place k of the queue is current after k + 1 yields.
pub yields-fair :
    (k c : ℕ) (s : Sched)
    → Sane s
    → s.current_process ≡ some c
    → (proc_at s c).state ≡ running
    → s.ready_count < max_ready
    → k < s.ready_count
    → (yields (suc k) s).current_process ≡ some (get_or (queue s) k 0)
yields-fair k c s v e r room h =
    yields-rotate k c (queue s) s (record { sane = v; current = e; runs = r; waits = refl })
      (omega (arith, length-queue s)) (omega (arith, length-queue s))
