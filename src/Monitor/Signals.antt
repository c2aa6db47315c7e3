-- ===== src/Monitor/Signals.antt =====
-- Which coroutines the monitor of open-coroutine-core/src/monitor signals.
use open_coroutine.Base.{
  ℕ, suc, ◌≤◌, ◌<◌, ◌≡◌, refl, sym, ap, ◌∙◌, inl, inr, ltb, leb, if◌then◌else◌, List, [], ◌∷◌, ◌++◌,
  Bool, false, ◌&&◌, map, Bool-cases, le→leb, ltb→lt, ltb→ge, arith, List-cases,
}
use open_coroutine.Timer.Entry.{TimerEntry, SearchResult}
use open_coroutine.Timer.Entry
use open_coroutine.Timer.Map.{From}
use open_coroutine.Timer.Queue.{TimerList}
use open_coroutine.Timer.Order.{events, IsOrdered, DueAfter, events-DueAfter}
use open_coroutine.Monitor.Defs.{TaskNode, signals, scan}

-- The nodes that are due by the time given and whose coroutines run.
abbrev pub due_running : ℕ → (ℕ → Bool) → List (ℕ × TaskNode) → List TaskNode
due_running now is_running [] = []
due_running now is_running ((time, n) ∷ q) =
    if leb time now && is_running n.coroutine
    then n ∷ due_running now is_running q
    else due_running now is_running q

not_due : (time now : ℕ) → now < time → leb time now ≡ false
not_due time now h = ground arith

none_due :
    (now : ℕ) (is_running : ℕ → Bool) (q : List (ℕ × TaskNode))
    → DueAfter now q
    → due_running now is_running q ≡ []
none_due now is_running [] d = refl
none_due now is_running ((time, n) ∷ q) d =
    rw (not_due time now d.0) (none_due now is_running q d.1)

due_entry :
    (now k : ℕ) (is_running : ℕ → Bool) (nodes : List TaskNode) (q : List (ℕ × TaskNode))
    → k ≤ now
    → due_running now is_running (map (λ n. (k, n)) nodes ++ q)
      ≡ signals is_running nodes ++ due_running now is_running q
due_entry now k is_running [] q h = refl
due_entry now k is_running (n ∷ nodes) q h = elim (Bool-cases (is_running n.coroutine)) [
  | inl runs ↦
      rw (le→leb k now h) (rw (runs) (ap (λ l. n ∷ l) (due_entry now k is_running nodes q h)))
  | inr rests ↦ rw (le→leb k now h) (rw (rests) (due_entry now k is_running nodes q h))
]

entry_signals :
    (is_running : ℕ → Bool) (e : TimerEntry TaskNode) (others : List TaskNode)
    → (if Entry.is_empty e then others else signals is_running e.inner ++ others)
      ≡ signals is_running e.inner ++ others
unfolding Entry.is_empty
entry_signals is_running e others = elim (List-cases e.inner) [
  | inl none_left ↦ rw (none_left) refl
  | inr (x, left, some_left) ↦ rw (some_left) refl
]

scan-From :
    (now n : ℕ) (is_running : ℕ → Bool) (l : TimerList TaskNode)
    → From n l
    → scan (λ i. now) is_running l ≡ due_running now is_running (events l)
unfolding scan events
scan-From now n is_running [] s = refl
scan-From now n is_running ((k, e) ∷ l) s = elim (Bool-cases (ltb now k)) [
  | inl later ↦ rw (later) (
      sym (
        none_due now is_running (events ((k, e) ∷ l))
          (events-DueAfter now k ((k, e) ∷ l) (ltb→lt now k later) (omega arith, s.1))))
  | inr due ↦ rw (due) (
      entry_signals is_running e (scan (λ i. now) is_running l)
      ∙ ap (λ others. signals is_running e.inner ++ others) (scan-From now (suc k) is_running l s.1)
      ∙ sym (due_entry now k is_running e.inner (events l) (ltb→ge now k due)))
]

-- On a list in order, with the clock standing still during the turn, the monitor signals exactly the
-- coroutines whose time is over and that are running, in the order of their times and then of their
-- submission, and none that is suspended or within a system call.
pub scan-due_running :
    (now : ℕ) (is_running : ℕ → Bool) (l : TimerList TaskNode)
    → IsOrdered l
    → scan (λ i. now) is_running l ≡ due_running now is_running (events l)
scan-due_running now is_running l s = scan-From now 0 is_running l s
