-- ===== src/Scheduler/Defs.antt =====
-- `SchedulerImpl` of open-coroutine-core/src/scheduler/mod.rs with its listeners. The state includes
-- what the scheduler shares with its thread: the thread-local stacks, the readings of the clock made
-- so far, and what the listeners were told, the latest first.
use Prim.Native.String.{String}
use open_coroutine.Base.{
  ℕ, zero, suc, ◌+◌, ◌-◌, ◌==◌, ltb, leb, if◌then◌else◌, List, [], ◌∷◌, Option, none, some, Bool,
  true, false,
}
use open_coroutine.Timer.Queue.{TimerList}
use open_coroutine.Timer.Queue
use open_coroutine.Coroutine.State.{Syscall, SyscallState, CoroutineState, computing, timeout}
use open_coroutine.Coroutine.Machine.{Unexpected, ready, syscall}
use open_coroutine.Coroutine.Resume.{
  Locals, Body, Coroutine, Outcome, ok, refused, unexpected_state, Resumed, resume_with, drop_front,
}
use open_coroutine.Coroutine.Resume
use open_coroutine.Scheduler.Containers.{ReadyQueue, Table}

-- `CoroutineState<(), ()>` and `CoroutineImpl<'s, (), (), ()>`.
abbrev pub State : Type 0
State = CoroutineState (Unit {0}) (Unit {0})

abbrev pub SchedulableCoroutine : Type 0
SchedulableCoroutine = Coroutine (Unit {0}) (Unit {0})

-- The callbacks of `Listener`, with the name of the coroutine that each is handed.
pub data Notice : Type 0 where
  on_create : ℕ → Notice
  on_resume on_suspend on_complete : ℕ → ℕ → Notice
  on_syscall : ℕ → ℕ → Syscall → SyscallState → Notice
  on_error : ℕ → ℕ → String → Notice

-- The `io::Error`s of the scheduler, and the panic of an `unreachable!`.
pub data Failure : Type 0 where
  change_failed : Unexpected (Unit {0}) (Unit {0}) → Failure
  resumed_in : State → Failure
  never_here : State → Failure
  panic : Failure

-- `ready` and `running` read the clock for a suspended coroutine only.
abbrev pub reads_of : State → ℕ
reads_of (CoroutineState.suspend v ts) = 1
reads_of _ = 0

module _ (queue : ReadyQueue SchedulableCoroutine) (table : Table SchedulableCoroutine) where
  pub record Scheduler : Type 0 where
    pub name : ℕ
    pub ready : queue.Queue
    pub suspend : TimerList SchedulableCoroutine
    pub syscall : table.Map
    pub syscall_suspend : TimerList ℕ
    pub notices : List Notice
    pub schedulers : List ℕ
    pub locals : Locals
    pub reads : ℕ

  -- What a fallible operation leaves: the state, and the error or the value.
  pub data Done (A : Type 0) : Type 0 where
    fine : Scheduler → A → Done A
    fails : Scheduler → Failure → Done A

module _ (queue : ReadyQueue SchedulableCoroutine) (table : Table SchedulableCoroutine)
    (clock : ℕ → ℕ) where
  -- The state behind one more reading of the clock.
  abbrev pub tick : Scheduler queue table → Scheduler queue table
  tick s = record s { reads = suc s.reads }

  abbrev pub tick_for : State → Scheduler queue table → Scheduler queue table
  tick_for state s = record s { reads = s.reads + reads_of state }

  abbrev pub notify : Notice → Scheduler queue table → Scheduler queue table
  notify n s = record s { notices = n ∷ s.notices }

  -- `SchedulerImpl::init_current` and `clean_current`.
  abbrev pub init_current : Scheduler queue table → Scheduler queue table
  init_current s = record s { schedulers = s.name ∷ s.schedulers }

  abbrev pub clean_current : Scheduler queue table → Scheduler queue table
  clean_current s = record s { schedulers = drop_front s.schedulers }

  abbrev pub push_ready : SchedulableCoroutine → Scheduler queue table → Scheduler queue table
  push_ready c s = record s { ready = queue.push_back c s.ready }

  -- `submit`, with the name made of a fresh uuid.
  unfoldable pub submit :
      ℕ → Body (Unit {0}) (Unit {0}) → Scheduler queue table → Done queue table (Unit {0})
  unfolding Resume.new ready
  submit fresh f s =
      let c = Resume.new fresh f in
      let (state, result) = ready (clock s.reads) c.state in
      elim result [
        | none ↦ fine (push_ready (record c { state = state }) (notify (on_create fresh) s)) tt
        | some e ↦ fails s (change_failed e)
      ]

  -- `for _ in 0..n`, where a round tells whether to go on.
  unfoldable pub repeat :
      ℕ
      → (Scheduler queue table → Done queue table Bool)
      → Scheduler queue table
      → Done queue table (Unit {0})
  repeat zero round s = fine s tt
  repeat (suc n) round s = elim (round s) [
    | fine s' go_on ↦ elim go_on [ true ↦ repeat n round s' | false ↦ fine s' tt ]
    | fails s' e ↦ fails s' e
  ]

  abbrev pub going_on : Done queue table (Unit {0}) → Done queue table Bool
  going_on (fine s _) = fine s true
  going_on (fails s e) = fails s e

  -- The inner loop over a popped entry of `suspend`.
  unfoldable pub drain_ready :
      List SchedulableCoroutine → Scheduler queue table → Done queue table (Unit {0})
  drain_ready [] s = fine s tt
  drain_ready (c ∷ cs) s =
      let change = ready (clock s.reads) c.state in
      elim change.1 [
        | none ↦ drain_ready cs (push_ready (record c { state = change.0 }) (tick_for c.state s))
        | some e ↦ fails (clean_current (tick_for c.state s)) (change_failed e)
      ]

  -- One round of the first loop of `check_ready`.
  unfoldable pub suspend_round : Scheduler queue table → Done queue table Bool
  unfolding Queue.front Queue.pop_front
  suspend_round s = elim (Queue.front s.suspend) [
    | none ↦ fine s true
    | some p ↦
        if ltb (clock s.reads) p.0
        then fine (tick s) false
        else elim (Queue.pop_front s.suspend).1 [
          | none ↦ fine (tick s) true
          | some q ↦
              going_on (
                drain_ready q.1.inner (record (tick s) { suspend = (Queue.pop_front s.suspend).0 }))
        ]
  ]

  -- A coroutine taken out of the table because its time has come.
  unfoldable pub time_out : State → State × Option Failure
  unfolding syscall
  time_out (CoroutineState.system_call v call (SyscallState.suspend ts)) =
      let (state, result) =
        syscall v call timeout (CoroutineState.system_call v call (SyscallState.suspend ts)) in
      (state, elim result [ none ↦ none | some e ↦ some (change_failed e) ])
  time_out (CoroutineState.system_call v call st) = (CoroutineState.system_call v call st, none)
  time_out state = (state, some panic)

  -- The inner loop over a popped entry of `syscall_suspend`. A panic leaves `clean_current` out.
  unfoldable pub drain_names : List ℕ → Scheduler queue table → Done queue table (Unit {0})
  drain_names [] s = fine s tt
  drain_names (co_name ∷ names) s = elim (table.get co_name s.syscall) [
    | none ↦ drain_names names s
    | some c ↦
        let left = record s { syscall = table.remove co_name s.syscall } in
        let change = time_out c.state in
        elim change.1 [
          | none ↦ drain_names names (push_ready (record c { state = change.0 }) left)
          | some e ↦ fails (elim e [ panic ↦ left | _ ↦ clean_current left ]) e
        ]
  ]

  -- One round of the second loop of `check_ready`.
  unfoldable pub syscall_round : Scheduler queue table → Done queue table Bool
  unfolding Queue.front Queue.pop_front
  syscall_round s = elim (Queue.front s.syscall_suspend) [
    | none ↦ fine s true
    | some p ↦
        if ltb (clock s.reads) p.0
        then fine (tick s) false
        else elim (Queue.pop_front s.syscall_suspend).1 [
          | none ↦ fine (tick s) true
          | some q ↦ going_on (
              drain_names q.1.inner
                (record (tick s) { syscall_suspend = (Queue.pop_front s.syscall_suspend).0 }))
        ]
  ]

  unfoldable pub check_ready : Scheduler queue table → Done queue table (Unit {0})
  check_ready s = elim (repeat (Queue.entry_len s.suspend) suspend_round s) [
    | fine s' _ ↦ repeat (Queue.entry_len s'.syscall_suspend) syscall_round s'
    | fails s' e ↦ fails s' e
  ]

  -- `try_resume`.
  unfoldable pub compute_again : State → State × Option Failure
  unfolding syscall
  compute_again (CoroutineState.system_call v call st) =
      let (state, result) = syscall v call computing (CoroutineState.system_call v call st) in
      (state, elim result [ none ↦ none | some e ↦ some (change_failed e) ])
  compute_again state = (state, some panic)

  unfoldable pub try_resume : ℕ → Scheduler queue table → Done queue table (Unit {0})
  try_resume co_name s = elim (table.get co_name s.syscall) [
    | none ↦ fine s tt
    | some c ↦
        let left = record s { syscall = table.remove co_name s.syscall } in
        let change = compute_again c.state in
        elim change.1 [
          | none ↦ fine (push_ready (record c { state = change.0 }) left) tt
          | some e ↦ fails left e
        ]
  ]

  -- The match of `try_timeout_schedule` on the state in which a coroutine was left.
  unfoldable pub file :
      ℕ → SchedulableCoroutine → State → Scheduler queue table → Done queue table (Unit {0})
  file timeout_time c (CoroutineState.suspend v ts) s =
      let told = notify (on_suspend timeout_time c.name) s in
      fine
        (if leb ts (clock told.reads)
          then push_ready c (tick told)
          else record (tick told) { suspend = Queue.insert ts c s.suspend })
        tt
  file timeout_time c (CoroutineState.system_call v call (SyscallState.suspend ts)) s =
      fine
        (record (notify (on_syscall timeout_time c.name call (SyscallState.suspend ts)) s) {
          syscall_suspend = Queue.insert ts c.name s.syscall_suspend;
          syscall = table.insert c.name c s.syscall;
        })
        tt
  file timeout_time c (CoroutineState.system_call v call st) s =
      fine
        (record (notify (on_syscall timeout_time c.name call st) s) {
          syscall = table.insert c.name c s.syscall;
        })
        tt
  file timeout_time c (CoroutineState.complete r) s =
      fine (notify (on_complete timeout_time c.name) s) tt
  file timeout_time c (CoroutineState.error m) s =
      fine (notify (on_error timeout_time c.name m) s) tt
  file timeout_time c state s = fails (clean_current s) (never_here state)

  -- The match on the result of `coroutine.resume()`.
  unfoldable pub conclude :
      ℕ
      → Resumed (Unit {0}) (Unit {0})
      → Outcome (Unit {0}) (Unit {0})
      → Scheduler queue table
      → Done queue table (Unit {0})
  unfolding file
  conclude timeout_time r (ok state) s = file timeout_time r.coroutine state s
  conclude timeout_time r (refused e) s = fails (clean_current s) (change_failed e)
  conclude timeout_time r (unexpected_state state) s = fails (clean_current s) (resumed_in state)

  -- A coroutine popped from the ready queue.
  unfoldable pub run_coroutine :
      ℕ → SchedulableCoroutine → Scheduler queue table → Done queue table (Unit {0})
  unfolding conclude
  run_coroutine timeout_time c s =
      let told = notify (on_resume timeout_time c.name) s in
      let r = resume_with (clock told.reads) told.locals c in
      conclude timeout_time r r.outcome (record (tick_for c.state told) { locals = r.locals })

  -- What a round of the loop of `try_timeout_schedule` ends with.
  pub data Turn : Type 0 where
    again : Scheduler queue table → Turn
    stop : Done queue table ℕ → Turn

  unfoldable pub schedule_round : ℕ → Scheduler queue table → Turn
  schedule_round timeout_time s =
      let left_time = timeout_time - clock s.reads in
      if left_time == 0
      then stop (fine (clean_current (tick s)) 0)
      else elim (check_ready (tick s)) [
        | fails s' e ↦ stop (fails s' e)
        | fine s' _ ↦
            let popped = queue.pop_front s'.ready in
            elim popped.1 [
              | none ↦ stop (fine (clean_current (record s' { ready = popped.0 })) left_time)
              | some c ↦ elim (run_coroutine timeout_time c (record s' { ready = popped.0 })) [
                | fine s'' _ ↦ again s''
                | fails s'' e ↦ stop (fails s'' e)
              ]
            ]
      ]

  -- The loop; `none` means that the fuel ran out.
  unfoldable pub schedule_loop : ℕ → ℕ → Scheduler queue table → Option (Done queue table ℕ)
  schedule_loop zero timeout_time s = none
  schedule_loop (suc fuel) timeout_time s = elim (schedule_round timeout_time s) [
    | again s' ↦ schedule_loop fuel timeout_time s'
    | stop d ↦ some d
  ]

  unfoldable pub try_timeout_schedule : ℕ → ℕ → Scheduler queue table → Option (Done queue table ℕ)
  try_timeout_schedule fuel timeout_time s = schedule_loop fuel timeout_time (init_current s)
