-- ===== src/Scheduler/Examples.antt =====
-- Tests of the scheduler on a list as its ready queue, and its theorems at concrete inputs.
use open_coroutine.Base.{ℕ, ◌+◌, ◌≤◌, ◌≡◌, refl, List, [], ◌∷◌, some, arith}
use open_coroutine.Timer.Queue
use open_coroutine.Coroutine.State.{Syscall, SyscallState, CoroutineState}
use open_coroutine.Timer.Entry.{push_back}
use open_coroutine.Timer.Entry
use open_coroutine.Coroutine.Machine.{perform, apply, Operation, unexpected}
use open_coroutine.Coroutine.Resume.{resume_with, Body}
use open_coroutine.Scheduler.Containers.{ReadyQueue, Table}
use open_coroutine.Scheduler.Instances.{list_queue, sorted_table}
use open_coroutine.Scheduler.Defs.{
  SchedulableCoroutine, Scheduler, Done, fine, fails, suspend_round, drain_ready, syscall_round,
  drain_names, time_out, on_create, on_suspend, on_complete, change_failed, on_resume,
  schedule_loop, schedule_round, repeat, run_coroutine, check_ready, try_timeout_schedule,
}
use open_coroutine.Timer.Order.{events}
use open_coroutine.Scheduler.Loops.{Succeeding}
use open_coroutine.Scheduler.Kept.{held, Keeps}
use open_coroutine.Scheduler.Held.{check_ready-Keeps}
use open_coroutine.Scheduler.Parts.{parts}
use open_coroutine.Scheduler.Finish.{parts_held, try_timeout_schedule_returns}
use open_coroutine.Timer.Map
use open_coroutine.Scheduler.Sound.{CallAt}
use open_coroutine.Scheduler.Whole.{IsWhole, Blameless}
use open_coroutine.Scheduler.Acts.{Act, submits, resumes, schedules, acts, acts-Blameless}
use open_coroutine.Scheduler.Stack.{Unstacked, try_timeout_schedule-Unstacked}

abbrev readings : ℕ → ℕ
readings n = 10 + n

abbrev queue : ReadyQueue SchedulableCoroutine
queue = list_queue

abbrev table : Table SchedulableCoroutine
table = sorted_table

abbrev sleeper : SchedulableCoroutine
sleeper = record {
  name = 1;
  inner = Body.until_with [] tt 20 (Body.returns [] tt);
  state = CoroutineState.ready;
}

abbrev woken : SchedulableCoroutine
woken = record { name = 2; inner = Body.returns [] tt; state = CoroutineState.suspend tt 5 }

-- A coroutine that waits in `nanosleep` until 7, and then goes on.
abbrev caller : SchedulableCoroutine
caller = record {
  name = 3;
  inner = Body.returns (Operation.returns_from_call ∷ []) tt;
  state = CoroutineState.system_call tt Syscall.nanosleep (SyscallState.suspend 7);
}

abbrev start : Scheduler queue table
start = record {
  name = 9;
  ready = sleeper ∷ [];
  suspend = (5, record { timestamp = 5; inner = woken ∷ [] }) ∷ [];
  syscall = ((3, caller) ∷ [], (omega arith, tt));
  syscall_suspend = (7, record { timestamp = 7; inner = 3 ∷ [] }) ∷ [];
  notices = [];
  schedulers = 4 ∷ [];
  locals = record { coroutines = []; suspenders = []; timestamps = [] };
  reads = 0;
}

check_ready-Keeps_example :
    Succeeding queue table readings
      (Keeps queue table readings (λ name b. parts b) 0 start)
      (check_ready queue table readings start)
check_ready-Keeps_example =
    check_ready-Keeps queue table readings (λ name b. parts b) start (omega arith, tt)

try_timeout_schedule_returns_example :
    (d : Done queue table ℕ) × (try_timeout_schedule queue table readings 5 100 start ≡ some d)
unfolding parts_held held events
try_timeout_schedule_returns_example =
    try_timeout_schedule_returns queue table readings 5 100 start (omega arith, tt) (omega arith)

abbrev lost : SchedulableCoroutine
lost = record { name = 8; inner = Body.returns [] tt; state = CoroutineState.suspend tt 50 }

-- A coroutine in the queue of the ready that cannot be resumed yet: an error.
abbrev broken : Scheduler queue table
broken = record start { ready = lost ∷ []; suspend = []; syscall = ([], tt); syscall_suspend = [] }

abbrev reported : Done queue table ℕ
reported =
    fails (record broken { ready = []; notices = on_resume 100 8 ∷ []; reads = 2 })
      (change_failed (unexpected (CoroutineState.suspend tt 50) CoroutineState.running))

try_timeout_schedule-Unstacked_example : Unstacked queue table readings (4 ∷ []) reported
unfolding try_timeout_schedule schedule_loop schedule_round check_ready repeat Queue.entry_len
    run_coroutine resume_with
try_timeout_schedule-Unstacked_example =
    try_timeout_schedule-Unstacked queue table readings 1 100 broken reported refl

-- The readings rise one by one.
rises : (n m : ℕ) → n ≤ m → readings n ≤ readings m
rises n m le = omega arith

one_caller : (k : ℕ) → CallAt queue table readings (table.get k start.syscall)
unfolding Map.get
one_caller k = ground arith

start-IsWhole : IsWhole queue table readings start
start-IsWhole = record {
  prepared = record { runnable = (tt, tt); waiting = ((omega arith, tt), tt) };
  calls = one_caller;
  ordered = (omega arith, tt);
}

-- A nap until 50 is submitted and scheduled beside what is there: all of it comes to an end but the
-- nap, which waits.
abbrev nap : Body (Unit {0}) (Unit {0})
nap = Body.until_with [] tt 50 (Body.returns [] tt)

abbrev calls : List Act
calls = submits 20 nap ∷ schedules 9 40 ∷ resumes 3 ∷ []

abbrev after : Scheduler queue table
after = record {
  name = 9;
  ready = [];
  suspend =
      (
        50,
        record {
          timestamp = 50;
          inner =
              record { name = 20; inner = Body.returns [] tt; state = CoroutineState.suspend tt 50 }
              ∷ [];
        },
      )
      ∷ [];
  syscall = ([], tt);
  syscall_suspend = [];
  notices =
      on_complete 40 1
      ∷ on_resume 40 1
      ∷ on_complete 40 3
      ∷ on_resume 40 3
      ∷ on_complete 40 2
      ∷ on_resume 40 2
      ∷ on_suspend 40 20
      ∷ on_resume 40 20
      ∷ on_suspend 40 1
      ∷ on_resume 40 1
      ∷ on_create 20
      ∷ [];
  schedulers = 4 ∷ [];
  locals = record { coroutines = []; suspenders = []; timestamps = [] };
  reads = 18;
}

calls_run : acts queue table readings calls start ≡ some (fine after tt)
unfolding acts try_timeout_schedule schedule_loop schedule_round check_ready repeat Queue.entry_len
    run_coroutine resume_with suspend_round drain_ready syscall_round drain_names Map.get time_out
    perform Queue.insert Queue.insert_new Map.insert push_back Entry.new apply Map.remove
calls_run = refl

acts-Blameless_example : Blameless queue table readings {A = Unit {0}} (fine after tt)
acts-Blameless_example =
    acts-Blameless queue table readings rises calls start (fine after tt) start-IsWhole calls_run
