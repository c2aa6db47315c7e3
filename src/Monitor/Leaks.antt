-- ===== src/Monitor/Leaks.antt =====
-- What the callbacks of open-coroutine-core/src/monitor/creator.rs leave behind.
use open_coroutine.Base.{
  ℕ, ◌<◌, ◌≡◌, refl, ap, ◌∙◌, ltb, ◌==◌, ==_refl, List, [], ◌∷◌, Bool, true, false, none, some,
  arith,
}
use open_coroutine.Timer.Entry.{TimerEntry, SearchResult, found}
use open_coroutine.Timer.Entry
use open_coroutine.Timer.Map
use open_coroutine.Timer.Queue
use open_coroutine.Timer.Queue.{TimerList}
use open_coroutine.Monitor.Defs.{
  TaskNode, Monitor, node, on_resume, on_syscall, on_complete, notify, Stamps, stamp, cleaned,
  clean, turn, submit, remove,
}

abbrev pub alone : ℕ → TaskNode → TimerEntry TaskNode
alone time n = record { timestamp = time; inner = n ∷ [] }

differ : (a b : ℕ) → a < b → (a == b) ≡ false
differ a b h = ground arith

not_before : (a b : ℕ) → a < b → ltb b a ≡ false
not_before a b h = ground arith

first_insert : (t : ℕ) (n : TaskNode) → Queue.insert t n [] ≡ (t, alone t n) ∷ []
unfolding Queue.insert Queue.insert_new Map.get Map.insert Entry.push_back Entry.new
first_insert t n = refl

second_insert :
    (t u : ℕ) (n o : TaskNode)
    → t < u
    → Queue.insert u o ((t, alone t n) ∷ []) ≡ (t, alone t n) ∷ (u, alone u o) ∷ []
unfolding Queue.insert Queue.insert_new Map.get Map.insert Entry.push_back Entry.new
second_insert t u n o h = ground arith

-- Finding the entry, taking the node out, and taking out the entry that is empty then.
get_second :
    (t u : ℕ) (n o : TaskNode)
    → t < u
    → Queue.get_entry u ((t, alone t n) ∷ (u, alone u o) ∷ []) ≡ some (alone u o)
unfolding Queue.get_entry Map.get
get_second t u n o h = ground arith

cleaned_second :
    (search : List TaskNode → TaskNode → SearchResult) (t u p c : ℕ) (n : TaskNode)
    → t < u
    → search (node u p c ∷ []) (node u p c) ≡ found 0
    → cleaned search
        (node u p c)
        (some (alone u (node u p c)))
        ((t, alone t n) ∷ (u, alone u (node u p c)) ∷ [])
      ≡ (t, alone t n) ∷ []
unfolding Queue.remove Map.update Map.remove Entry.remove Entry.is_empty
cleaned_second search t u p c n h finds =
    rw (differ t u h) (rw (==_refl u) (rw (finds) (rw (differ t u h) (rw (==_refl u) refl))))

abbrev pub no_watch : Stamps × Monitor
no_watch = ((λ c. none), record { run = true; tasks = []; clean_queue = [] })

-- A coroutine that is resumed, makes a system call, is resumed again and completes.
unfoldable pub life : ℕ → ℕ → ℕ → ℕ → ℕ → ℕ → Stamps × Monitor
unfolding notify
life now until now' until' p c = notify on_complete now' until' p c (
    notify on_resume now' until' p c
      (notify on_syscall now until p c (notify on_resume now until p c no_watch)))

two_inserts :
    (t u : ℕ) (n o : TaskNode)
    → t < u
    → Queue.insert u o (Queue.insert t n []) ≡ (t, alone t n) ∷ (u, alone u o) ∷ []
two_inserts t u n o h = ap (Queue.insert u o) (first_insert t n) ∙ second_insert t u n o h

cleans_second :
    (search : List TaskNode → TaskNode → SearchResult) (t u p c : ℕ) (n : TaskNode)
    → t < u
    → search (node u p c ∷ []) (node u p c) ≡ found 0
    → clean search (node u p c ∷ []) ((t, alone t n) ∷ (u, alone u (node u p c)) ∷ [])
      ≡ (t, alone t n) ∷ []
unfolding clean
cleans_second search t u p c n h finds =
    ap (λ o. cleaned search (node u p c) o ((t, alone t n) ∷ (u, alone u (node u p c)) ∷ []))
      (get_second t u n (node u p c) h)
    ∙ cleaned_second search t u p c n h finds

-- When a coroutine that made a system call completes, the monitor still has a node for it behind the
-- turn that clears what was put on its queue: the node of the first resumption, if the second one
-- was given a later time. A search in a list with just the node finds it.
pub life-turn :
    (search : List TaskNode → TaskNode → SearchResult) (clock : ℕ → ℕ) (is_running : ℕ → Bool)
    (now until now' until' p c : ℕ)
    → stamp now until < stamp now' until'
    → search (node (stamp now' until') p c ∷ []) (node (stamp now' until') p c) ≡ found 0
    → (turn search clock is_running ((life now until now' until' p c).1)).0.tasks
      ≡ (stamp now until, alone (stamp now until) (node (stamp now until) p c)) ∷ []
unfolding turn life notify submit remove
life-turn search clock is_running now until now' until' p c h finds = rw (==_refl c) (
    rw
      (two_inserts (stamp now until) (stamp now' until') (node (stamp now until) p c)
        (node (stamp now' until') p c) h)
      (cleans_second search (stamp now until) (stamp now' until') p c (node (stamp now until) p c) h
        finds))
