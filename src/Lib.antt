-- ===== src/Lib.antt =====
-- A model of open-coroutine, a Rust library of stackful coroutines, and theorems on it.
--
-- How the program fits together. A coroutine is a function that runs on its own stack, and a state
-- that says whether it may be resumed. A scheduler keeps the coroutines of one thread: those that are
-- ready in a queue from which other threads steal, those that are suspended in a timer list, and those
-- that are in a system call in a table by name. A pool submits workers to its scheduler, coroutines
-- that take tasks from a queue. An event loop, one for each thread, is a pool with a selector at which
-- it waits for descriptors. Blocking system calls are replaced by loops that give way: a call enters
-- its state on the current coroutine, tries without blocking, and waits at an event loop in between.
-- A monitor signals the coroutines that have been running for too long.
--
-- Which file models what (paths from the repository's root):
--   Timer       open-coroutine-timer/src/lib.rs: Deadline (get_timeout_time), Entry (TimerEntry), Queue
--               (TimerList, on Map, the BTreeMap it stands on); Order and Removal prove.
--   Coroutine   open-coroutine-core/src/coroutine and constants.rs: State (the enums), Machine
--               (StateMachine for CoroutineImpl), Resume (resume_with, suspender.rs and the thread-local
--               stacks), Local (local.rs); Diagram (what the comments on StateMachine document),
--               History, Balance, Owned, Alive and Store prove.
--   Scheduler   open-coroutine-core/src/scheduler: Containers (the ready queue and the DashMap as
--               interfaces, filled in Instances), Defs (SchedulerImpl: submit, check_ready, try_resume,
--               try_timeout_schedule); Acts puts its operations in any order; Steps,
--               Loops, Kept and Held, Runs, Due, Sound, Prepared, Waiting, Whole and Blameless, Parts and
--               Finish, Fronts and Stack prove.
--   Queue       open-coroutine-queue/src: Rand (rand.rs), Deques (the crates' deques as interfaces,
--               filled in Instances), Steal (WorkStealQueue and LocalQueue); Threads (push and pop
--               of WorkStealQueue access by access, by many threads, with Fifo, the list that they serve
--               where none is interrupted); Moves, Conserve and Counted prove.
--   Pool        open-coroutine-core/src/pool: Task (task.rs), Defs (CoroutinePoolImpl: the queue, try_run,
--               grow and the worker's loop), Size (creator.rs, with the workers that are alive),
--               Lifecycle (try_timeout_schedule and stop), Join (wait_result and join.rs), Consumer (start,
--               and the steps of its thread and of a call of stop); Work, Bounds, Crew, Stopping, Waiting,
--               Winding and Consumed prove.
--   Monitor     open-coroutine-core/src/monitor: Defs (MonitorImpl, TaskNode and the callbacks of
--               creator.rs); Signals and Leaks prove.
--   Net         open-coroutine-core/src/net: Config (config.rs), Loops (core.rs), Selector (selector.rs,
--               the Poller an interface), Waits (what wait_just of event_loop.rs does to the coroutine
--               that waits), EventLoop (EventLoopImpl: wait_event, wait_just, wait_result, stop), Exit (start
--               with its threads, and the wait of EventLoops::stop), Join (the join handle and the
--               tokens), Comes (when a join finds its result), Shared (the selectors of several loops on
--               their shared records), Forgets (EventLoops::del_event, with its proof); Interests,
--               Agreement, Rounds, Skips, Exited and Leaving prove, and Waits itself.
--   Syscall     open-coroutine-core/src/syscall: Nio (the macros impl_nio and impl_nio_buf), Vectored
--               (impl_nio_iovec and impl_nio_msghdr), Sleep, Poll, Select, Blocking
--               (impl_non_blocking and common.rs), Connect, Io (the functions that read, write and
--               accept, each inside impl_non_blocking), Enter (the macro change_state of state.rs), Chain
--               (the default methods of mod.rs, shutdown and close); Gather proves, and each of the others what is its own.
--   Facade      open-coroutine/src and open-coroutine-hooks/src: Init (init and init_config), Task (co, and
--               the joins, with coroutine_crate and coroutine_join, on an event loop); each proves what is its own.
--   Base        Boolean tests, lists, signed integers and lemmas that all parts use.
-- In each part Examples, or Trials, holds tests and the theorems at concrete inputs. The scheduler
-- uses the timer list and resume_with; change_state and wait_just use the state machine of Coroutine;
-- the pool takes its queue from Queue's interface; an event loop has a Pool and a Selector; the monitor
-- is a timer list; the facade joins by the event loop's handle.
--
-- Conventions. A `u64`, a `usize` or a `u32` is a natural number, and where the code saturates or wraps
-- this is written out. Names of coroutines are numbers, since they are only compared. What the clock
-- reads is an argument: a value, or for the scheduler a function of the number of readings so far.
-- An error is a value, and a panic too. What a user's function does between two suspensions is a
-- value of Coroutine.Resume.Body: the operations on its own state, then a yield or the end.
--
-- A descriptor's flags, an error number and what a raw call answers are arguments or lists of answers,
-- since they are the system's. Where one component calls another that is modelled apart, the call is
-- a parameter with what is relied on as a named hypothesis: the pool's scheduler, an event loop's
-- waits, what other threads do while a thread waits, and what the other coroutines of a thread do to
-- its stack of calls while one is in a call.
--
-- Fuel. The loop of try_timeout_schedule runs on fuel; one round more is enough than the parts into
-- which suspensions divide the functions of all its coroutines. The loop of WorkStealQueue::pop, and that
-- of the pool's pop, have fuel for one steal, since a steal by one thread alone is never to be tried
-- again. A worker's turn needs one more than the tasks in the queue; the loops of stop, of wait_result and
-- of the sleeps need one more than the rounds that their time is worth, which the theorems state.
-- connect runs on fuel since it may not end. The loops over what the system answers end with the
-- answers: a list that is too short leaves the call running. All other loops are structural.
--
-- Not modelled: the switch of stacks (the crate corosensei), the trap handlers, the interleaving of
-- several threads within an operation except where Threads, Consumer and Exit say so, the thread of the
-- monitor, facade.rs, which hands a call through the layers of Enter and Io, the memory behind a token,
-- the signal handler, the hooks of system calls and the macros, which hand on to the functions modelled
-- here.
pub mod Base
pub mod Timer
pub mod Coroutine
pub mod Scheduler
pub mod Queue
pub mod Net
pub mod Pool
pub mod Monitor
pub mod Facade
pub mod Syscall
