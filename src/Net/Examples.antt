-- ===== src/Net/Examples.antt =====
-- Tests of the configuration, the choice of a loop and the selector, and their theorems at concrete
-- inputs.
use open_coroutine.Base.{
  ap, sym, ℕ, ◌≡◌, refl, get_elem?, List, [], ◌∷◌, some, none, true, false, arith,
}
use open_coroutine.Coroutine.State.{Syscall, computing, CoroutineState}
use open_coroutine.Coroutine.Machine.{perform}
use open_coroutine.Syscall.Enter.{change_state}
use open_coroutine.Net.Waits.{
  Wake, deadline, event, wait_states, operations, change_state-operations,
}
use open_coroutine.Net.Config.{Config, IsSound}
use open_coroutine.Net.Loops.{reach}
use open_coroutine.Net.Skips.{reach_others}
use open_coroutine.Net.Selector.{ok, Event, put, Selector, del_read_event, add_read_event, forget}
use open_coroutine.Net.Interests.{AgreesAt}
use open_coroutine.Net.Registry.{take_from, pollers, unwatched}
use open_coroutine.Net.Shared
use open_coroutine.Net.Shared.{put_other}
use open_coroutine.Net.Forgets
use open_coroutine.Net.Agreement.{
  Call, adds_read, adds_write, selects, deletes_read, calls, calls-AgreesAt, IsPanic,
  del_read_event-forget,
}

abbrev four : Config
four = record {
  event_loop_size = 4;
  stack_size = 131072;
  min_size = 2;
  max_size = 8;
  keep_alive_time = 0;
}

abbrev four-IsSound : IsSound four
four-IsSound = record { some_loop = omega arith; some_room = omega arith; in_order = omega arith }

reach_others_example : (k : ℕ) × (get_elem? (reach 4 4 true 6) k ≡ some 1)
reach_others_example = reach_others 4 6 1 (omega arith) (omega arith) (omega arith) (omega arith)

abbrev both_ways : List Call
both_ways = adds_read 3 30 ∷ adds_write 3 30 ∷ selects none ∷ deletes_read 3 ∷ []

calls-AgreesAt_example : AgreesAt pollers 3 (calls pollers both_ways unwatched)
calls-AgreesAt_example = calls-AgreesAt pollers both_ways 3 unwatched refl

abbrev watched : Selector pollers
watched = record {
  poller = put 3 (some (record { key = 30; readable = true; writable = true })) (λ i. none);
  token_fd = put 30 (some 3) (λ i. none);
  readable_records = put 3 true (λ i. false);
  readable_token_records = put 3 (some 30) (λ i. none);
  writable_records = put 3 true (λ i. false);
  writable_token_records = put 3 (some 30) (λ i. none);
}

abbrev arrived : Event
arrived = record { key = 30; readable = true; writable = false }

del_read_event-forget_example :
    IsPanic pollers (del_read_event pollers 3 (forget pollers (arrived ∷ []) watched))
del_read_event-forget_example =
    del_read_event-forget pollers 3 arrived watched refl refl refl refl refl refl

abbrev read_added : Selector pollers
read_added = record unwatched {
  poller = put 3 (some (record { key = 30; readable = true; writable = false })) (λ i. none);
  token_fd = put 30 (some 3) (λ i. none);
  readable_records = put 3 true (λ i. false);
  readable_token_records = put 3 (some 30) (λ i. none);
}

abbrev two_waits : List (ℕ × Wake)
two_waits = (40, deadline) ∷ (90, event) ∷ []

-- Meanwhile another coroutine of the thread has entered accept, and is still in it.
abbrev enters_accept : List Syscall → List Syscall
enters_accept stack = Syscall.accept ∷ stack

change_state-operations_example :
    (wait_states two_waits (CoroutineState.system_call tt Syscall.read computing)
      ≡ some (
          perform
            (operations Syscall.read two_waits)
            (CoroutineState.system_call tt Syscall.read computing)))
    × (change_state Syscall.read
          (operations Syscall.read two_waits)
          enters_accept
          []
          (some CoroutineState.running)
        ≡ some (Syscall.read ∷ [], some CoroutineState.running))
change_state-operations_example = change_state-operations Syscall.read two_waits enters_accept []

-- Two loops that watch nothing.
abbrev two_loops : Shared.Loops pollers
two_loops = record { polls = λ i fd. none; records = unwatched }

abbrev add_at_first : Shared.Loops pollers
add_at_first = Shared.on_loop pollers 1 (add_read_event pollers 3 30) two_loops

add_read_event_elsewhere_example :
    (Shared.result pollers (add_read_event pollers 3 31 (Shared.of pollers 2 add_at_first))
      ≡ some ok)
    × ((Shared.on_loop pollers 2 (add_read_event pollers 3 31) add_at_first).polls 2 ≡ (λ fd. none))
unfolding add_read_event
add_read_event_elsewhere_example =
    Shared.add_read_event_elsewhere pollers 3 30 31 1 2 two_loops (λ e. ground (arith, e)) refl

-- The third of four loops watches the descriptor 3.
abbrev watched_at_third : Shared.Loops pollers
watched_at_third = record { polls = put 2 watched.poller (λ i fd. none); records = watched }

watched_at_third-IsWatchedAt : Forgets.IsWatchedAt pollers 3 2 watched_at_third
watched_at_third-IsWatchedAt = record {
  recorded = refl;
  accepted = refl;
  only =
      λ j other. ap (λ p. p 3) (put_other 2 j watched.poller (λ i fd. none) (λ e. other (sym e)));
}

del_event_everywhere-IsForgotten_example :
    Forgets.IsForgotten pollers 3 (Forgets.del_event_everywhere pollers 3 4 7 watched_at_third)
del_event_everywhere-IsForgotten_example =
    Forgets.del_event_everywhere-IsForgotten pollers 3 4 7 2 watched_at_third
      (λ p e. (2, ap (λ o. (take_from o 3 p).1) e)) (omega arith) (omega arith) (omega arith)
      watched_at_third-IsWatchedAt
