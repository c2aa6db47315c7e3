-- ===== src/Monitor/Defs.antt =====
-- `MonitorImpl` of open-coroutine-core/src/monitor/mod.rs with the callbacks of creator.rs, on the
-- timer list. A coroutine and a thread are numbers. What runs on the monitor's thread is seen turn by
-- turn; its pool only carries out what the loop submits.
use open_coroutine.Base.{
  ℕ, suc, ◌==◌, min, ltb, if◌then◌else◌, List, [], ◌∷◌, ◌++◌, Bool, false, ◌||◌, not, Option, none,
  some,
}
use open_coroutine.Timer.Deadline.{get_timeout_time}
use open_coroutine.Timer.Entry.{TimerEntry, SearchResult}
use open_coroutine.Timer.Entry
use open_coroutine.Timer.Map
use open_coroutine.Timer.Queue
use open_coroutine.Timer.Queue.{TimerList}

pub record TaskNode : Type 0 where
  pub timestamp : ℕ
  pub pthread : ℕ
  pub coroutine : ℕ

pub record Monitor : Type 0 where
  pub run : Bool
  pub tasks : TimerList TaskNode
  pub clean_queue : List TaskNode

abbrev pub node : ℕ → ℕ → ℕ → TaskNode
node timestamp pthread coroutine = record {
  timestamp = timestamp;
  pthread = pthread;
  coroutine = coroutine;
}

-- `submit`, once the thread is started; `pthread` is the thread that submits.
unfoldable pub submit : ℕ → ℕ → ℕ → Monitor → Monitor
submit timestamp pthread coroutine m = record m {
  tasks = Queue.insert timestamp (node timestamp pthread coroutine) m.tasks;
}

-- `remove`: the node is put on the queue of the monitor's thread, a `Vec` whose last element is popped
-- first; the list is from the last on.
unfoldable pub remove : ℕ → ℕ → ℕ → Monitor → Monitor
remove timestamp pthread coroutine m = record m {
  clean_queue = node timestamp pthread coroutine ∷ m.clean_queue;
}

abbrev pub stop : Monitor → Monitor
stop m = record m { run = false }

-- The loop over an entry: a signal to the thread of every coroutine that is running.
abbrev pub signals : (ℕ → Bool) → List TaskNode → List TaskNode
signals is_running [] = []
signals is_running (n ∷ nodes) =
    if is_running n.coroutine then n ∷ signals is_running nodes else signals is_running nodes

-- The loop over the list, which ends at the first entry that is not due. The clock is read once for
-- each entry: the n-th reading is `clock n`.
unfoldable pub scan : (ℕ → ℕ) → (ℕ → Bool) → TimerList TaskNode → List TaskNode
scan clock is_running [] = []
scan clock is_running ((exec_time, entry) ∷ tasks) =
    let others = scan (λ n. clock (suc n)) is_running tasks in
    if ltb (clock 0) exec_time
    then []
    else if Entry.is_empty entry
    then others
    else signals is_running entry.inner ++ others

-- One node of the clean queue; `search` is the standard library's.
abbrev pub cleaned :
    (List TaskNode → TaskNode → SearchResult)
    → TaskNode
    → Option (TimerEntry TaskNode)
    → TimerList TaskNode
    → TimerList TaskNode
cleaned search n none tasks = tasks
cleaned search n (some entry) tasks =
    let left = (Entry.remove search n entry).0 in
    let kept = Map.update n.timestamp (λ old. left) tasks in
    if Entry.is_empty left then (Queue.remove n.timestamp kept).0 else kept

unfoldable pub clean :
    (List TaskNode → TaskNode → SearchResult)
    → List TaskNode
    → TimerList TaskNode
    → TimerList TaskNode
clean search [] tasks = tasks
clean search (n ∷ queue) tasks =
    clean search queue (cleaned search n (Queue.get_entry n.timestamp tasks) tasks)

-- One turn of the monitor's loop: the signals that it sends, and what it leaves.
unfoldable pub turn :
    (List TaskNode → TaskNode → SearchResult)
    → (ℕ → ℕ)
    → (ℕ → Bool)
    → Monitor
    → Monitor × List TaskNode
unfolding scan clean
turn search clock is_running m = (
  record m { tasks = clean search m.clean_queue m.tasks; clean_queue = [] },
  scan clock is_running m.tasks,
)

-- Whether the loop goes on.
abbrev pub goes_on : Monitor → Bool
goes_on m = m.run || not (Queue.is_empty m.tasks)

-- `MONITOR_TIMESTAMP` of the coroutines.
abbrev pub Stamps : Type 0
Stamps = ℕ → Option ℕ

-- A callback of the scheduler, with the coroutine that it is about and the thread that it runs on.
pub data Callback : Type 0 where
  on_resume on_suspend on_syscall on_complete on_error : Callback

abbrev pub taken_off : ℕ → ℕ → Option ℕ → Monitor → Monitor
taken_off pthread coroutine none m = m
taken_off pthread coroutine (some timestamp) m = remove timestamp pthread coroutine m

abbrev pub stamp : ℕ → ℕ → ℕ
stamp now timeout_time = min (get_timeout_time 10000000 now) timeout_time

-- `MonitorTaskCreator`, which has no `on_syscall` of its own.
unfoldable pub notify : Callback → ℕ → ℕ → ℕ → ℕ → Stamps × Monitor → Stamps × Monitor
unfolding submit remove
notify on_resume now timeout_time pthread coroutine (stamps, m) =
    let timestamp = stamp now timeout_time in
    (
      (λ c. if coroutine == c then some timestamp else stamps c),
      submit timestamp pthread coroutine m,
    )
notify on_suspend now timeout_time pthread coroutine (stamps, m) =
    (stamps, taken_off pthread coroutine (stamps coroutine) m)
notify on_syscall now timeout_time pthread coroutine (stamps, m) = (stamps, m)
notify on_complete now timeout_time pthread coroutine (stamps, m) =
    (stamps, taken_off pthread coroutine (stamps coroutine) m)
notify on_error now timeout_time pthread coroutine (stamps, m) =
    (stamps, taken_off pthread coroutine (stamps coroutine) m)
