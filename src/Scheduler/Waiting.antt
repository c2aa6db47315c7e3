-- ===== src/Scheduler/Waiting.antt =====
-- A coroutine put among the suspended waits there as the others do.
use open_coroutine.Base.{ℕ, inl, inr, ltb, List, [], ◌∷◌, ◌++◌, map, All, Bool-cases}
use open_coroutine.Timer.Queue.{TimerList}
use open_coroutine.Timer.Queue
use open_coroutine.Timer.Order.{IsOrdered, events, schedule, insert-schedule}
use open_coroutine.Scheduler.Defs.{SchedulableCoroutine}
use open_coroutine.Scheduler.Due.{Waits, AllWait}

abbrev Due : ℕ × SchedulableCoroutine → Type 0
Due p = Waits p.0 p.1.state

tagged-Due :
    (k : ℕ) (cs : List SchedulableCoroutine) (q : List (ℕ × SchedulableCoroutine))
    → All (λ c. Waits k c.state) cs
    → All Due q
    → All Due (map (λ x. (k, x)) cs ++ q)
tagged-Due k [] q a b = b
tagged-Due k (c ∷ cs) q a b = (a.0, tagged-Due k cs q a.1 b)

Due-tagged :
    (k : ℕ) (cs : List SchedulableCoroutine) (q : List (ℕ × SchedulableCoroutine))
    → All Due (map (λ x. (k, x)) cs ++ q)
    → All (λ c. Waits k c.state) cs × All Due q
Due-tagged k [] q a = (tt, a)
Due-tagged k (c ∷ cs) q a = let (here, rest) = Due-tagged k cs q a.1 in ((a.0, here), rest)

events-Due : (l : TimerList SchedulableCoroutine) → AllWait l → All Due (events l)
unfolding events
events-Due [] a = tt
events-Due ((k, e) ∷ l) a = tagged-Due k e.inner (events l) a.0 (events-Due l a.1)

Due-events : (l : TimerList SchedulableCoroutine) → All Due (events l) → AllWait l
unfolding events
Due-events [] a = tt
Due-events ((k, e) ∷ l) a =
    let (here, rest) = Due-tagged k e.inner (events l) a in (here, Due-events l rest)

schedule-Due :
    (ts : ℕ) (c : SchedulableCoroutine) (q : List (ℕ × SchedulableCoroutine))
    → Waits ts c.state
    → All Due q
    → All Due (schedule ts c q)
unfolding schedule
schedule-Due ts c [] w a = (w, tt)
schedule-Due ts c ((k, d) ∷ q) w a = elim (Bool-cases (ltb ts k)) [
  | inl first ↦ rw first (w, a)
  | inr later ↦ rw later (a.0, schedule-Due ts c q w a.1)
]

pub insert-AllWait :
    (ts : ℕ) (c : SchedulableCoroutine) (l : TimerList SchedulableCoroutine)
    → IsOrdered l
    → Waits ts c.state
    → AllWait l
    → AllWait (Queue.insert ts c l)
insert-AllWait ts c l o w a =
    Due-events (Queue.insert ts c l)
      (rw ((insert-schedule ts c l o).0) (schedule-Due ts c (events l) w (events-Due l a)))
