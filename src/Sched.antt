-- ===== src/Sched.antt =====
-- scheduler/scheduler.c: the round-robin scheduler. A `process_t*` is the index of the process in
-- `procs`, which holds the fields of include/process.h that the scheduler reads or writes. `cr3` is the
-- address space that vmm_switch_address_space made current and `tss_stack` the stack that
-- tss_set_kernel_stack set; context_switch is assembly that swaps registers, and is left out.
pub mod Queue
pub mod Remove
pub mod Distinct
pub mod Invariant
pub mod Steps
pub mod Fair
mod Tests
use new_os.Base.{
  ℕ, zero, suc, ◌+◌, ◌-◌, ◌%◌, ◌^◌, List, [], ◌∷◌, Option, none, some, Bool, true, false, not, ◌&&◌,
  ◌||◌, ◌==◌, ltb, leb, if◌then◌else◌, set, get_or,
}

-- proc_state_t
pub data ProcState : Type 0 where
  unused created running ready sleeping waiting zombie dead : ProcState

pub record Process : Type 0 where
  pub state : ProcState
  pub address_space : ℕ
  pub kernel_stack : ℕ
  pub kernel_stack_size : ℕ
  pub time_slice : ℕ
  pub total_ticks : ℕ

pub record Sched : Type 0 where
  pub procs : List Process
  pub ready_queue : List ℕ
  pub ready_head : ℕ
  pub ready_tail : ℕ
  pub ready_count : ℕ
  pub sched_ticks : ℕ
  pub idle_proc : ℕ
  pub current_process : Option ℕ
  pub cr3 : ℕ
  pub tss_stack : ℕ

abbrev pub max_ready : ℕ
max_ready = 256

abbrev pub sched_default_quantum : ℕ
sched_default_quantum = 5

-- What a read through a pointer to no process would give; no property depends on it.
abbrev pub null_process : Process
null_process = record {
  state = unused;
  address_space = 0;
  kernel_stack = 0;
  kernel_stack_size = 0;
  time_slice = 0;
  total_ticks = 0;
}

abbrev pub proc_at : Sched → ℕ → Process
proc_at s p = get_or s.procs p null_process

abbrev pub put_proc : Sched → ℕ → Process → Sched
put_proc s p x = record s { procs = set s.procs p x }

abbrev pub set_state : ProcState → ℕ → Sched → Sched
set_state st p s = put_proc s p (let x = proc_at s p in record x { state = st })

abbrev pub is_running : ProcState → Bool
is_running running = true
is_running _ = false

abbrev pub is_ready : ProcState → Bool
is_ready ready = true
is_ready _ = false

-- `p` behind the last entry of a queue with room, and ready.
abbrev pub put_last : ℕ → Sched → Sched
put_last p s = set_state ready p (record s {
  ready_queue = set s.ready_queue s.ready_tail p;
  ready_tail = (s.ready_tail + 1) % max_ready;
  ready_count = s.ready_count + 1;
})

unfoldable pub ready_enqueue : ℕ → Sched → Sched
ready_enqueue p s = if leb max_ready s.ready_count then s else put_last p s

unfoldable pub ready_dequeue : Sched → ℕ × Sched
ready_dequeue s = if s.ready_count == 0 then (s.idle_proc, s) else (
  get_or s.ready_queue s.ready_head 0,
  record s { ready_head = (s.ready_head + 1) % max_ready; ready_count = s.ready_count - 1 },
)

-- `idle` is what process_create returned for the idle process; the code panics on NULL.
unfoldable pub scheduler_init : ℕ → Sched → Sched
scheduler_init idle s = record s {
  ready_head = 0;
  ready_tail = 0;
  ready_count = 0;
  sched_ticks = 0;
  idle_proc = idle;
}

-- A pointer argument may be NULL.
unfoldable pub scheduler_add : Option ℕ → Sched → Sched
scheduler_add none s = s
scheduler_add (some p) s = ready_enqueue p s

-- for (j = i; j < i + n; j++) ready_queue[(head + j) % N] = ready_queue[(head + j + 1) % N];
unfoldable pub shift : ℕ → ℕ → ℕ → List ℕ → List ℕ
shift zero head j q = q
shift (suc n) head j q =
    shift n head (j + 1) (set q ((head + j) % max_ready) (get_or q ((head + j + 1) % max_ready) 0))

-- The search loop of `scheduler_remove`, over the `n` entries from the `i`-th on.
unfoldable pub remove_from : ℕ → ℕ → ℕ → Sched → Sched
remove_from zero i p s = s
remove_from (suc n) i p s =
    let rest = remove_from n (i + 1) p s in
    if get_or s.ready_queue ((s.ready_head + i) % max_ready) 0 == p
    then record s {
      ready_queue = shift n s.ready_head i s.ready_queue;
      ready_tail = (s.ready_tail + max_ready - 1) % max_ready;
      ready_count = s.ready_count - 1;
    }
    else rest

unfoldable pub scheduler_remove : ℕ → Sched → Sched
scheduler_remove p s = remove_from s.ready_count 0 p s

-- The chosen process takes the CPU.
abbrev pub take_cpu : ℕ → Sched → Sched
take_cpu next s =
    let x = proc_at s next in
    record s {
      current_process = some next;
      procs = set s.procs next (record x { state = running; time_slice = sched_default_quantum });
      tss_stack = (x.kernel_stack + x.kernel_stack_size) % 2 ^ 64;
    }

-- The switch of address spaces, if they differ.
abbrev pub switch_space : ℕ → ℕ → Sched → Sched
switch_space old next s =
    let a = (proc_at s next).address_space in
    if (proc_at s old).address_space == a then s else record s { cr3 = a }

-- A process that still runs goes to the end of the queue.
unfoldable pub requeue : ℕ → Sched → Sched
requeue old s =
    if is_running (proc_at s old).state then ready_enqueue old (set_state ready old s) else s

-- The switch that `scheduler_tick` and `scheduler_yield` share.
unfoldable pub reschedule : ℕ → Sched → Sched
reschedule old s =
    let (next, s1) = ready_dequeue (requeue old s) in switch_space old next (take_cpu next s1)

abbrev pub count_tick : Sched → Sched
count_tick s = record s { sched_ticks = (s.sched_ticks + 1) % 2 ^ 64 }

-- One tick of the time slice of the process that runs.
abbrev pub use_slice : Process → Process
use_slice x = record x { time_slice = x.time_slice - 1; total_ticks = (x.total_ticks + 1) % 2 ^ 64 }

unfoldable pub tick_current : ℕ → Sched → Sched
tick_current old s =
    let x = proc_at s old in
    if ltb 0 x.time_slice
    then (let s1 = put_proc s old (use_slice x) in
        if ltb 0 (x.time_slice - 1) then s1 else reschedule old s1)
    else reschedule old s

unfoldable pub tick_first : Sched → Sched
tick_first s =
    let (next, s1) = ready_dequeue s in
    let s2 = take_cpu next s1 in record s2 { cr3 = (proc_at s2 next).address_space }

unfoldable pub scheduler_tick : Sched → Sched
scheduler_tick s = elim s.current_process [
  | none ↦ tick_first (count_tick s)
  | some old ↦ tick_current old (count_tick s)
]

unfoldable pub scheduler_yield : Sched → Sched
scheduler_yield s = elim s.current_process [ none ↦ s | some old ↦ reschedule old s ]

unfoldable pub scheduler_block : Option ℕ → ProcState → Sched → Sched
scheduler_block none reason s = s
scheduler_block (some p) reason s = scheduler_remove p (set_state reason p s)

unfoldable pub scheduler_unblock : Option ℕ → Sched → Sched
scheduler_unblock none s = s
scheduler_unblock (some p) s =
    if is_ready (proc_at s p).state || is_running (proc_at s p).state then s else ready_enqueue p s

unfoldable pub scheduler_next : Sched → ℕ
scheduler_next s = if s.ready_count == 0 then s.idle_proc else get_or s.ready_queue s.ready_head 0
