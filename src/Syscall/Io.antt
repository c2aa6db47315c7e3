-- ===== src/Syscall/Io.antt =====
-- The functions of open-coroutine-core/src/syscall/nio.rs that read and write: which loop each is, and
-- the name under which each enters the system-call state in open-coroutine-core/src/syscall/state.rs.
use open_coroutine.Base.{
  ℕ, ◌≤◌, ◌<◌, ◌≡◌, refl, ap, ◌∙◌, List, Bool, true, false, Option, none, some, length,
}
use open_coroutine.Coroutine.State.{Syscall}
use open_coroutine.Syscall.Nio.{Attempt, Ret, moved, nio, nio_buf, nio_buf-nio}
use open_coroutine.Syscall.Blocking.{
  Fcntl, Flags, IsOpen, Course, keeping, non_blocking_loop, non_blocking_loop-keeping,
  non_blocking_loop_closed,
}
use open_coroutine.Syscall.Vectored.{
  Iovec, Vectored, Msghdr, messages, size_of, c_int_max, nio_iovec, nio_msghdr,
}
use open_coroutine.Syscall.Gather.{skip_empty, Gathers, nio_iovec-Gathers, loop-Gathers}

-- A call, with the length of its buffer, its vectors or its message.
pub data Io : Type 0 where
  accept accept4 : Io
  recv recvfrom read pread : ℕ → Io
  readv preadv : List Iovec → Io
  recvmsg : Msghdr → Io
  send sendto write pwrite : ℕ → Io
  writev pwritev : List Iovec → Io
  sendmsg : Msghdr → Io

-- How a loop stands: running (none), or ended by a panic (some none) or with a result.
abbrev pub Outcome : Type 0
Outcome = Course Ret

abbrev pub plain : Option Ret → Outcome
plain none = none
plain (some r) = some (some r)

abbrev vectored : Option Vectored → Outcome
vectored none = none
vectored (some e) = some (e.returned)

abbrev of_message : Option (Option Ret × List Msghdr) → Outcome
of_message none = none
of_message (some e) = some (e.0)

-- `impl_read_nio_buf` and its like, inside `impl_non_blocking`, which stands around each: the reads end at a result of 0, the writes do not.
unfoldable pub read_nio : Io → List Attempt → Outcome
read_nio accept attempts = plain (nio attempts)
read_nio accept4 attempts = plain (nio attempts)
read_nio (recv len) attempts = plain (nio_buf true len attempts)
read_nio (recvfrom len) attempts = plain (nio_buf true len attempts)
read_nio (read count) attempts = plain (nio_buf true count attempts)
read_nio (pread count) attempts = plain (nio_buf true count attempts)
read_nio (readv iov) attempts = vectored (nio_iovec true iov attempts)
read_nio (preadv iov) attempts = vectored (nio_iovec true iov attempts)
read_nio (recvmsg msg) attempts = of_message (nio_msghdr true msg attempts)
read_nio io attempts = none

unfoldable pub write_nio : Io → List Attempt → Outcome
write_nio (send len) attempts = plain (nio_buf false len attempts)
write_nio (sendto len) attempts = plain (nio_buf false len attempts)
write_nio (write count) attempts = plain (nio_buf false count attempts)
write_nio (pwrite count) attempts = plain (nio_buf false count attempts)
write_nio (writev iov) attempts = vectored (nio_iovec false iov attempts)
write_nio (pwritev iov) attempts = vectored (nio_iovec false iov attempts)
write_nio (sendmsg msg) attempts = of_message (nio_msghdr false msg attempts)
write_nio io attempts = none

-- Whether a call waits for its descriptor to be readable; the others wait for it to be writable.
abbrev pub is_read : Io → Bool
is_read (send len) = false
is_read (sendto len) = false
is_read (write count) = false
is_read (pwrite count) = false
is_read (writev iov) = false
is_read (pwritev iov) = false
is_read (sendmsg msg) = false
is_read io = true

unfoldable pub io_loop : Io → List Attempt → Outcome
unfolding read_nio write_nio
io_loop io attempts = elim (is_read io) [
  | true ↦ read_nio io attempts
  | false ↦ write_nio io attempts
]

-- The function of `NioLinuxSyscall`, on a descriptor with these flags: the loop inside
-- `impl_non_blocking`, which panics where the flags cannot be read or set.
unfoldable pub io_call : Fcntl → Io → List Attempt → Flags → Course (Ret × Flags)
unfolding io_loop
io_call fcntl io attempts f = non_blocking_loop fcntl (io_loop io attempts) f

-- The name under which `StateLinuxSyscall` enters the call.
abbrev pub name_of : Io → Syscall
name_of accept = Syscall.accept
name_of accept4 = Syscall.accept4
name_of (recv len) = Syscall.recv
name_of (recvfrom len) = Syscall.recvfrom
name_of (read count) = Syscall.read
name_of (pread count) = Syscall.pread
name_of (readv iov) = Syscall.readv
name_of (preadv iov) = Syscall.preadv
name_of (recvmsg msg) = Syscall.recvmsg
name_of (send len) = Syscall.send
name_of (sendto len) = Syscall.sendto
name_of (write count) = Syscall.write
name_of (pwrite count) = Syscall.pwrite
name_of (writev iov) = Syscall.writev
name_of (pwritev iov) = Syscall.pwritev
name_of (sendmsg msg) = Syscall.sendmsg

-- There is room for at least one byte.
abbrev pub HasRoom : Io → Type 0
HasRoom accept = Unit
HasRoom accept4 = Unit
HasRoom (recv len) = 0 < len
HasRoom (recvfrom len) = 0 < len
HasRoom (read count) = 0 < count
HasRoom (pread count) = 0 < count
HasRoom (readv iov) = (0 < size_of iov) × (length iov ≤ c_int_max)
HasRoom (preadv iov) = (0 < size_of iov) × (length iov ≤ c_int_max)
HasRoom (recvmsg msg) = (0 < size_of (msg.msg_iov)) × (length (msg.msg_iov) ≤ c_int_max)
HasRoom (send len) = 0 < len
HasRoom (sendto len) = 0 < len
HasRoom (write count) = 0 < count
HasRoom (pwrite count) = 0 < count
HasRoom (writev iov) = (0 < size_of iov) × (length iov ≤ c_int_max)
HasRoom (pwritev iov) = (0 < size_of iov) × (length iov ≤ c_int_max)
HasRoom (sendmsg msg) = (0 < size_of (msg.msg_iov)) × (length (msg.msg_iov) ≤ c_int_max)

gathered :
    (given : List Iovec) (r : Option Ret) (o : Option Vectored)
    → Gathers given r o
    → vectored o ≡ plain r
gathered given none none h = refl
gathered given none (some e) h = absurd h
gathered given (some r) none h = absurd h
gathered given (some r) (some e) h = ap some (h.0)

of_message-messages :
    (msg : Msghdr) (o : Option Vectored) → of_message (messages msg o) ≡ vectored o
of_message-messages msg none = refl
of_message-messages msg (some e) = refl

buffered :
    (condition : Bool) (len : ℕ) (attempts : List Attempt)
    → 0 < len
    → plain (nio_buf condition len attempts) ≡ plain (nio attempts)
buffered condition len attempts h = ap plain (nio_buf-nio condition len attempts h)

scattered :
    (condition : Bool) (iov : List Iovec) (attempts : List Attempt)
    → (0 < size_of iov) × (length iov ≤ c_int_max)
    → vectored (nio_iovec condition iov attempts) ≡ plain (nio attempts)
scattered condition iov attempts h =
    gathered (skip_empty iov) (nio attempts) (nio_iovec condition iov attempts)
      (nio_iovec-Gathers condition iov attempts (h.0) (h.1))

in_message :
    (condition : Bool) (msg : Msghdr) (attempts : List Attempt)
    → (0 < size_of (msg.msg_iov)) × (length (msg.msg_iov) ≤ c_int_max)
    → of_message (nio_msghdr condition msg attempts) ≡ plain (nio attempts)
unfolding nio_msghdr
in_message condition msg attempts h =
    of_message-messages msg _
    ∙ gathered (skip_empty (msg.msg_iov)) (nio attempts) _ (
        loop-Gathers false condition (size_of (msg.msg_iov)) (msg.msg_iov) (moved 0) attempts (h.0)
          (h.0) (h.1))

io_loop-nio :
    (io : Io) (attempts : List Attempt) → HasRoom io → io_loop io attempts ≡ plain (nio attempts)
unfolding io_loop
io_loop-nio accept attempts h = refl
io_loop-nio accept4 attempts h = refl
io_loop-nio (recv len) attempts h = buffered true len attempts h
io_loop-nio (recvfrom len) attempts h = buffered true len attempts h
io_loop-nio (read count) attempts h = buffered true count attempts h
io_loop-nio (pread count) attempts h = buffered true count attempts h
io_loop-nio (readv iov) attempts h = scattered true iov attempts h
io_loop-nio (preadv iov) attempts h = scattered true iov attempts h
io_loop-nio (recvmsg msg) attempts h = in_message true msg attempts h
io_loop-nio (send len) attempts h = buffered false len attempts h
io_loop-nio (sendto len) attempts h = buffered false len attempts h
io_loop-nio (write count) attempts h = buffered false count attempts h
io_loop-nio (pwrite count) attempts h = buffered false count attempts h
io_loop-nio (writev iov) attempts h = scattered false iov attempts h
io_loop-nio (pwritev iov) attempts h = scattered false iov attempts h
io_loop-nio (sendmsg msg) attempts h = in_message false msg attempts h

-- Each of the sixteen calls that read, write or accept, on an open descriptor, given room for a byte
-- and at most `c_int::MAX` vectors, is still running, or ends without a panic and with the
-- descriptor's flags as before, exactly as the plain loop that calls until a call is answered: with
-- the first answer, or with -1 at the first error that is neither EINTR nor EWOULDBLOCK, or at a wait
-- that fails.
pub io_call-nio :
    (fcntl : Fcntl) (io : Io) (attempts : List Attempt) (f : Flags)
    → IsOpen fcntl
    → HasRoom io
    → io_call fcntl io attempts f ≡ keeping f (plain (nio attempts))
unfolding io_call
io_call-nio fcntl io attempts f opened room =
    ap (λ o. non_blocking_loop fcntl o f) (io_loop-nio io attempts room)
    ∙ non_blocking_loop-keeping fcntl (plain (nio attempts)) f opened

-- On a descriptor whose flags cannot be read, as of one that is closed, each of these calls panics,
-- whatever its raw function would answer, and whatever room it is given.
pub io_call_closed :
    (fcntl : Fcntl) (io : Io) (attempts : List Attempt) (f : Flags)
    → fcntl.get f ≡ none
    → io_call fcntl io attempts f ≡ some none
unfolding io_call
io_call_closed fcntl io attempts f closed =
    non_blocking_loop_closed fcntl (io_loop io attempts) f closed
