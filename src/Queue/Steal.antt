-- ===== src/Queue/Steal.antt =====
-- `WorkStealQueue` and `LocalQueue` of open-coroutine-queue/src/work_steal.rs, as one thread uses them
-- between the steps of the others. The `VecDeque` of all workers is kept as the workers before and
-- behind the thread's own.
use open_coroutine.Base.{
  ℕ, zero, suc, ◌+◌, ◌-◌, ◌/◌, ◌%◌, ◌^◌, ◌==◌, ltb, min, if◌then◌else◌, List, Option, none, some,
  Bool, true, false, length, get_elem?, set_nth, u64_max, u32_max,
}
use open_coroutine.Queue.Rand.{FastRand, RngSeedGenerator, fastrand_n, next_seed}
use open_coroutine.Queue.Rand
use open_coroutine.Queue.Deques.{Injectors, Workers, success, retry, empty}

module _ {T : Type 0} (injectors : Injectors T) (workers : Workers T) where
  -- `WorkStealQueue` without the workers.
  pub record Shared : Type 0 where
    pub shared_queue : injectors.Injector
    pub len : ℕ
    pub index : ℕ
    pub seed_generator : RngSeedGenerator

  -- The shared queue, the workers of all threads, and the `LocalQueue` of this one.
  pub record LocalQueue : Type 0 where
    pub shared : Shared
    pub before : List workers.Worker
    pub queue : workers.Worker
    pub behind : List workers.Worker
    pub tick : ℕ
    pub stealing : Bool
    pub rand : FastRand

  -- `WorkStealQueue::is_empty`, `push` and `pop`. The loop in `pop` goes round as often as the fuel
  -- says while a steal is to be tried again. The number of items does not overflow here; Threads says
  -- what it does when it would.
  unfoldable pub is_empty : Shared → Bool
  is_empty g = g.len == 0

  unfoldable pub push : T → Shared → Shared
  push item g = record g { shared_queue = injectors.push item g.shared_queue; len = g.len + 1 }

  unfoldable pub steal_shared : ℕ → Shared → Shared × Option T
  steal_shared zero g = (g, none)
  steal_shared (suc fuel) g =
      let stolen = injectors.steal g.shared_queue in
      elim stolen.1 [
        | success item ↦ (record g { shared_queue = stolen.0; len = g.len - 1 }, some item)
        | retry ↦ steal_shared fuel (record g { shared_queue = stolen.0 })
        | empty ↦ (record g { shared_queue = stolen.0 }, none)
      ]

  unfoldable pub pop : Shared → Shared × Option T
  unfolding is_empty steal_shared
  pop g = if is_empty g then (g, none) else steal_shared 1 g

  -- `local_queue`: the number of the worker that is handed out; `none` where the remainder by no
  -- workers panics.
  unfoldable pub local_queue : ℕ → Shared → Shared × Option (ℕ × FastRand)
  unfolding next_seed Rand.new
  local_queue num g =
      let counted = record g { index = (if g.index == u64_max then 0 else g.index + 1) } in
      elim num [
        | zero ↦ (counted, none)
        | suc m ↦
            let (generator, seed) = next_seed g.seed_generator in
            (record counted { seed_generator = generator }, some (g.index % suc m, Rand.new seed))
      ]

  abbrev pub spare_capacity : workers.Worker → ℕ
  spare_capacity w = workers.capacity w - length (workers.items w)

  -- `LocalQueue::is_full` and `len`.
  unfoldable pub is_full : LocalQueue → Bool
  is_full l = spare_capacity l.queue == 0

  unfoldable pub local_len : LocalQueue → ℕ
  local_len l = workers.capacity l.queue - spare_capacity l.queue

  unfoldable pub try_lock : LocalQueue → LocalQueue × Bool
  try_lock l = elim l.stealing [ true ↦ (l, false) | false ↦ (record l { stealing = true }, true) ]

  unfoldable pub release_lock : LocalQueue → LocalQueue
  release_lock l = record l { stealing = false }

  -- The loop of `push_back` that hands items over to the shared queue.
  unfoldable pub hand_over : ℕ → LocalQueue → LocalQueue
  unfolding push
  hand_over zero l = l
  hand_over (suc n) l =
      let popped = workers.pop l.queue in
      hand_over n (elim popped.1 [
        | none ↦ record l { queue = popped.0 }
        | some item ↦ record l { queue = popped.0; shared = push item l.shared }
      ])

  unfoldable pub push_back : T → LocalQueue → LocalQueue
  unfolding hand_over push local_len
  push_back item l = elim (workers.push item l.queue) [
    | some w ↦ record l { queue = w }
    | none ↦ let l' = hand_over (local_len l / 2) l in record l' { shared = push item l'.shared }
  ]

  -- `LocalQueue::tick`.
  unfoldable pub next_tick : LocalQueue → LocalQueue × ℕ
  next_tick l =
      if l.tick == u32_max
      then (record l { tick = 0 }, 0)
      else (record l { tick = l.tick + 1 }, l.tick + 1)

  -- The body of the loop of `pop_front` over another worker, given that and the own: whether to
  -- steal, and how much.
  unfoldable pub steal_from :
      workers.Worker → workers.Worker → Option (workers.Worker × workers.Worker)
  steal_from another queue =
      if length (workers.items another) == 0
      then none
      else if spare_capacity queue == 0
      then none
      else workers.steal
          (λ n.
            min (min n (spare_capacity queue))
              ((workers.capacity another - spare_capacity another + 1) / 2))
          another queue

  unfoldable pub steal_before : ℕ → LocalQueue → Option LocalQueue
  unfolding steal_from
  steal_before i l = elim (get_elem? l.before i) [
    | none ↦ none
    | some w ↦ elim (steal_from w l.queue) [
      | none ↦ none
      | some p ↦ some (record l { before = set_nth l.before i p.0; queue = p.1 })
    ]
  ]

  unfoldable pub steal_behind : ℕ → LocalQueue → Option LocalQueue
  unfolding steal_from
  steal_behind i l = elim (get_elem? l.behind i) [
    | none ↦ none
    | some w ↦ elim (steal_from w l.queue) [
      | none ↦ none
      | some p ↦ some (record l { behind = set_nth l.behind i p.0; queue = p.1 })
    ]
  ]

  -- The i-th worker. The own one is empty when the loop is entered, and passed over.
  unfoldable pub steal_at : ℕ → LocalQueue → Option LocalQueue
  unfolding steal_before steal_behind
  steal_at i l =
      let own = length l.before in
      if ltb i own
      then steal_before i l
      else if i == own
      then none
      else steal_behind (i - own - 1) l

  -- The loop over the workers from number `start + i` on; it ends with the first steal.
  unfoldable pub steal_round : ℕ → ℕ → ℕ → ℕ → LocalQueue → Option LocalQueue
  unfolding steal_at
  steal_round zero i start num l = none
  steal_round (suc n) i start num l =
      let rest = steal_round n (suc i) start num l in
      elim (steal_at ((start + i) % num) l) [ some l' ↦ some l' | none ↦ rest ]

  abbrev pub pop_shared : LocalQueue → LocalQueue × Option T
  pop_shared l = let popped = pop l.shared in (record l { shared = popped.0 }, popped.1)

  abbrev pub pop_own : LocalQueue → LocalQueue × Option T
  pop_own l = let popped = workers.pop l.queue in (record l { queue = popped.0 }, popped.1)

  -- What `pop_front` does under the lock; it begins at a worker drawn at random.
  unfoldable pub steal_locked : LocalQueue → LocalQueue × Option T
  unfolding release_lock steal_round pop fastrand_n
  steal_locked l =
      let num = length l.before + 1 + length l.behind in
      let (rand, start) = fastrand_n (num % 2 ^ 32) l.rand in
      let drawn = record l { rand = rand } in
      elim (steal_round num 0 start num drawn) [
        | some l' ↦ pop_own (release_lock l')
        | none ↦ pop_shared (release_lock drawn)
      ]

  -- The part of `pop_front` behind the local queue, with the result of `try_lock`.
  unfoldable pub if_locked : LocalQueue × Bool → LocalQueue × Option T
  unfolding steal_locked pop
  if_locked (l, true) = steal_locked l
  if_locked (l, false) = pop_shared l

  unfoldable pub steal_or_share : LocalQueue → LocalQueue × Option T
  unfolding try_lock if_locked
  steal_or_share l = if_locked (try_lock l)

  unfoldable pub pop_local : LocalQueue → LocalQueue × Option T
  unfolding steal_or_share
  pop_local l = let own = pop_own l in elim own.1 [ some item ↦ own | none ↦ steal_or_share own.0 ]

  -- `pop_front` behind the tick: every 61st time the shared queue comes first.
  unfoldable pub pop_by : ℕ → LocalQueue → LocalQueue × Option T
  unfolding pop_local pop
  pop_by tick l =
      if tick % 61 == 0
      then (let first = pop_shared l in
          elim first.1 [ some item ↦ first | none ↦ pop_local first.0 ])
      else pop_local l

  unfoldable pub pop_front : LocalQueue → LocalQueue × Option T
  unfolding next_tick pop_by
  pop_front l = pop_by (next_tick l).1 (next_tick l).0
