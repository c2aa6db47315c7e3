-- ===== src/Queue/Threads/Defs.antt =====
-- The accesses of `WorkStealQueue::push` and `pop`, and the threads that make them in any order.
use open_coroutine.Base.{
  ℕ, ◌+◌, ◌-◌, ◌==◌, if◌then◌else◌, List, [], ◌∷◌, Option, none, some, get_elem?, set_nth, u64_max,
}
use open_coroutine.Queue.Deques.{Injectors, success, retry, empty}

-- Where a thread stands: outside; in `push`, with the item to push, behind the push, or with the
-- number that it has read; in `pop`, before and behind the test of the number, with the item taken,
-- and with the number that it has read then.
pub data Phase (T : Type 0) : Type 0 where
  idle : Phase T
  pushes : T → Phase T
  pushed : Phase T
  adds : ℕ → Phase T
  pops : Phase T
  steals : Phase T
  took : T → Phase T
  subtracts : T → ℕ → Phase T

-- A thread and what `pop` has returned to it, the latest first.
pub record Thread (T : Type 0) : Type 0 where
  pub phase : Phase T
  pub got : List (Option T)

-- What happens next: a thread calls `push` or `pop`, or makes its next access.
pub data Move (T : Type 0) : Type 0 where
  calls_push : ℕ → T → Move T
  calls_pop : ℕ → Move T
  runs : ℕ → Move T

-- `usize` arithmetic that wraps, as in a release build; a debug build panics instead of wrapping.
abbrev pub incremented : ℕ → ℕ
incremented n = if n == u64_max then 0 else n + 1

abbrev pub decremented : ℕ → ℕ
decremented n = if n == 0 then u64_max else n - 1

module _ {T : Type 0} (injectors : Injectors T) where
  pub record Racing : Type 0 where
    pub shared_queue : injectors.Injector
    pub len : ℕ
    pub threads : List (Thread T)

  -- A thread that is in a call makes no other.
  abbrev pub enter : Phase T → Phase T → Phase T
  enter call idle = call
  enter call p = p

  -- The thread's place with its new phase and what it has got.
  abbrev pub becomes : ℕ → Phase T → List (Option T) → Racing → Racing
  becomes i p got r = record r { threads = set_nth r.threads i (record { phase = p; got = got }) }

  -- The next access of a thread. A steal that is to be tried again leaves the thread in the loop.
  unfoldable pub access : ℕ → Phase T → List (Option T) → Racing → Racing
  access i idle got r = r
  access i (pushes item) got r =
      becomes i pushed got (record r { shared_queue = injectors.push item r.shared_queue })
  access i pushed got r = becomes i (adds r.len) got r
  access i (adds n) got r = becomes i idle got (record r { len = incremented n })
  access i pops got r = if r.len == 0 then becomes i idle (none ∷ got) r else becomes i steals got r
  access i steals got r =
      let stolen = injectors.steal r.shared_queue in
      let left = record r { shared_queue = stolen.0 } in
      elim stolen.1 [
        | success item ↦ becomes i (took item) got left
        | retry ↦ left
        | empty ↦ becomes i idle (none ∷ got) left
      ]
  access i (took item) got r = becomes i (subtracts item r.len) got r
  access i (subtracts item n) got r =
      becomes i idle (some item ∷ got) (record r { len = decremented n })

  -- The thread of a move, and the move; one of a thread that is not there does nothing.
  abbrev pub thread_of : Move T → ℕ
  thread_of (calls_push i item) = i
  thread_of (calls_pop i) = i
  thread_of (runs i) = i

  abbrev pub taken_by : Move T → Thread T → Racing → Racing
  taken_by (calls_push i item) t r = becomes i (enter (pushes item) t.phase) t.got r
  taken_by (calls_pop i) t r = becomes i (enter pops t.phase) t.got r
  taken_by (runs i) t r = access i t.phase t.got r

  unfoldable pub move : Move T → Racing → Racing
  unfolding access
  move m r = elim (get_elem? r.threads (thread_of m)) [ none ↦ r | some t ↦ taken_by m t r ]

  unfoldable pub moves : List (Move T) → Racing → Racing
  unfolding move
  moves [] r = r
  moves (m ∷ ms) r = moves ms (move m r)
