-- ===== src/Syscall/Examples.antt =====
-- Tests of the system-call loops, and their theorems at concrete inputs.
use open_coroutine.Base.{
  if◌then◌else◌, ◌==◌, ℕ, suc, ◌≡◌, ◌*◌, refl, List, [], ◌∷◌, some, none, true, false, arith, ℤ,
  pos, negsuc,
}
use open_coroutine.Timer.Deadline.{get_timeout_time}
use open_coroutine.Syscall.Sleep.{Timespec, nanosleep, EndsAt, nanosleep-EndsAt}
use open_coroutine.Syscall.Poll.{poll, poll_returns, Within}
use open_coroutine.Syscall.Select.{Sets, Timeval, Answer, no_time}
use open_coroutine.Syscall.Vectored.{Iovec}
use open_coroutine.Syscall.Blocking.{Flags, Fcntl, IsOpen, keeping}
use open_coroutine.Syscall.Connect.{Round, connect, Connected, connect-Connected}
use open_coroutine.Syscall.Io.{Io, io_call, io_call-nio, io_call_closed, plain}
use open_coroutine.Syscall.Chain.{raw, asked}
use open_coroutine.Syscall.Nio.{Attempt, answered, would_block, interrupted, moved, nio}

abbrev slow : List Attempt
slow = interrupted ∷ would_block true ∷ answered 3 ∷ answered 5 ∷ []

moved_part : nio slow ≡ some (moved 3)
unfolding nio
moved_part = refl

abbrev vectors : List Iovec
vectors =
    record { iov_base = 100; iov_len = 0 }
    ∷ record { iov_base = 200; iov_len = 4 }
    ∷ record { iov_base = 300; iov_len = 6 }
    ∷ []

abbrev clock : ℕ → ℕ
clock n = 1000 * n

abbrev short_time : Timespec
short_time = record { tv_sec = pos 0; tv_nsec = pos 1500 }

nanosleep-EndsAt_example :
    (waits : List ℕ) × (nanosleep 5 (some short_time) (some short_time) clock
      ≡ some (record {
        result = pos 0;
        errno = 0;
        remaining = some (record { tv_sec = pos 0; tv_nsec = pos 0 });
        waits = waits;
      }))
    × EndsAt (get_timeout_time 1500 0) (λ n. clock (suc n)) waits
unfolding get_timeout_time
nanosleep-EndsAt_example =
    nanosleep-EndsAt 5 short_time (some short_time) clock 1 refl (omega arith) (omega arith)

abbrev ready_late : List ℤ
ready_late = pos 0 ∷ pos 0 ∷ pos 0 ∷ pos 2 ∷ []

poll_returns_example : (e : ℤ × List ℕ) × (poll (pos 3) ready_late ≡ some e) × Within 3 e
poll_returns_example = poll_returns 3 ready_late (omega arith) (omega arith)

abbrev watched : Sets
watched = record { readfds = some 6; writefds = none; errorfds = some 1 }

abbrev nothing : Answer
nothing = record { result = pos 0; left_sets = (0, 0, 0); left_time = no_time }

abbrev ready : Answer
ready = record { result = pos 1; left_sets = (2, 0, 0); left_time = no_time }

abbrev micros : Timeval
micros = record { tv_sec = 0; tv_usec = 2 }

abbrev open_fd : Fcntl
open_fd = record { get = λ f. some f; set = λ new f. some new }

abbrev closed_fd : Fcntl
closed_fd = record { get = λ f. none; set = λ new f. none }

abbrev blocking : Flags
blocking = record { non_blocking = false; others = 2 }

open_fd-IsOpen : IsOpen open_fd
unfolding IsOpen
open_fd-IsOpen = (λ f. refl, λ new f. refl)

abbrev rounds : ℕ → Round
rounds n = record { wait_error = none; getsockopt = (pos 0, 0); err = 0; getpeername = (pos 0, 0) }

connect-Connected_example :
    Connected blocking (negsuc 0, 115) (connect 3 open_fd blocking (negsuc 0, 115) rounds)
connect-Connected_example =
    connect-Connected 3 open_fd blocking (negsuc 0, 115) rounds open_fd-IsOpen

abbrev ready_later : ℕ → Attempt
ready_later i = if i == 2 then answered 3 else interrupted

io_call-nio_example :
    io_call open_fd (Io.read 8) slow blocking ≡ keeping blocking (plain (nio slow))
io_call-nio_example = io_call-nio open_fd (Io.read 8) slow blocking open_fd-IsOpen (omega arith)

io_call_closed_example : io_call closed_fd (Io.read 8) slow blocking ≡ some none
io_call_closed_example = io_call_closed closed_fd (Io.read 8) slow blocking refl

written_part : nio (asked (some ready_later) (λ i. answered 9) 4 0) ≡ some (moved 3)
unfolding nio asked raw
written_part = refl
