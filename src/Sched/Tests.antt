-- ===== src/Sched/Tests.antt =====
-- scheduler/scheduler.c: the scheduler on three processes, the idle process among them.
use new_os.Base.{
  ℕ, ◌≡◌, ◌≢◌, refl, ap, true, arith, length, none, some, [], ◌∷◌, replicate, length-replicate,
  get_or,
}
use new_os.Sched.{
  Sched, Process, created, ready, is_ready, max_ready, scheduler_init, scheduler_add, ready_enqueue,
  ready_dequeue, tick_first, remove_from, shift, requeue, reschedule, scheduler_remove,
  scheduler_tick, scheduler_yield,
}
use new_os.Sched.Queue.{QueueOk, queue}
use new_os.Sched.Remove.{erase, scheduler_remove_lem}
use new_os.Sched.Invariant.{Sane}
use new_os.Sched.Steps.{Run, Run-Sane, add, tick, yield, start, then_step}
use new_os.Sched.Fair.{yields, yields-fair}

abbrev new_process : Process
new_process = record {
  state = created;
  address_space = 7;
  kernel_stack = 4096;
  kernel_stack_size = 8192;
  time_slice = 0;
  total_ticks = 0;
}

abbrev at_boot : Sched
at_boot = record {
  procs = new_process ∷ new_process ∷ new_process ∷ [];
  ready_queue = replicate max_ready 0;
  ready_head = 9;
  ready_tail = 9;
  ready_count = 0;
  sched_ticks = 0;
  idle_proc = 0;
  current_process = none;
  cr3 = 0;
  tss_stack = 0;
}

ready_queue_size : length {A = ℕ} (replicate max_ready 0) ≡ max_ready
ready_queue_size = length-replicate {A = ℕ} max_ready 0

abbrev started : Sched
started = scheduler_init 0 at_boot

abbrev with_two : Sched
with_two = scheduler_add (some 2) (scheduler_add (some 1) started)

created-ne-ready : created ≢ ready
created-ne-ready e = absurd (let w : is_ready created ≡ true = ap is_ready e in ground (arith, w))

two-Run : Run started with_two
unfolding scheduler_init scheduler_add ready_enqueue
two-Run =
    then_step (scheduler_add (some 1) started) with_two
      (then_step started (scheduler_add (some 1) started) start
        (add 1 (omega arith) created-ne-ready))
      (add 2 (omega arith) created-ne-ready)

ticked-Run : Run started (scheduler_tick with_two)
ticked-Run = then_step with_two (scheduler_tick with_two) two-Run tick

Run-Sane_example : Sane (scheduler_yield (scheduler_tick with_two))
Run-Sane_example =
    Run-Sane 0 at_boot (scheduler_yield (scheduler_tick with_two)) ready_queue_size (omega arith)
      refl
      (then_step (scheduler_tick with_two) (scheduler_yield (scheduler_tick with_two)) ticked-Run
        yield)

abbrev ticked : Sched
ticked = scheduler_tick with_two

ticked-Sane : Sane ticked
ticked-Sane = Run-Sane 0 at_boot ticked ready_queue_size (omega arith) refl ticked-Run

-- After the first tick process 1 runs, process 2 waits; a yield gives process 2 the CPU.
yields-fair_example : (yields 1 ticked).current_process ≡ some (get_or (queue ticked) 0 0)
unfolding scheduler_init scheduler_add ready_enqueue scheduler_tick tick_first ready_dequeue
yields-fair_example = yields-fair 0 1 ticked ticked-Sane refl refl (omega arith) (omega arith)

second_runs : (yields 1 ticked).current_process ≡ some 2
unfolding scheduler_init scheduler_add ready_enqueue scheduler_tick tick_first ready_dequeue yields
    scheduler_yield reschedule requeue
second_runs = refl

two_ok : QueueOk with_two
two_ok = (Run-Sane 0 at_boot with_two ready_queue_size (omega arith) refl two-Run).queue_ok

scheduler_remove_lem_example :
    QueueOk (scheduler_remove 1 with_two)
    × (queue (scheduler_remove 1 with_two) ≡ erase 1 (queue with_two))
scheduler_remove_lem_example = scheduler_remove_lem 1 with_two two_ok

one_left : queue (scheduler_remove 1 with_two) ≡ 2 ∷ []
unfolding scheduler_init scheduler_add ready_enqueue scheduler_remove remove_from shift
one_left = refl
