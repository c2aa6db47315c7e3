-- ===== src/Coroutine/State.antt =====
-- The enums of open-coroutine-core/src/constants.rs that describe a coroutine, on Linux.
use Prim.Native.String.{String}
use open_coroutine.Base.{ℕ}

pub data Syscall : Type 0 where
  sleep usleep nanosleep poll select accept4 epoll_ctl epoll_wait io_uring_enter : Syscall
  recv recvfrom read pread readv preadv recvmsg connect listen accept shutdown close socket :
      Syscall
  send sendto write pwrite writev pwritev sendmsg fsync renameat renameat2 mkdirat openat : Syscall

unfoldable pub Syscall-discrete : Discrete Syscall
Syscall-discrete = hlevel

pub data SyscallState : Type 0 where
  computing : SyscallState
  suspend : ℕ → SyscallState
  calling : Syscall → SyscallState
  timeout : SyscallState
  finished : SyscallState

-- `Y` is what the coroutine yields and `R` what it returns.
pub data CoroutineState (Y R : Type 0) : Type 0 where
  created : CoroutineState Y R
  ready : CoroutineState Y R
  running : CoroutineState Y R
  suspend : Y → ℕ → CoroutineState Y R
  system_call : Y → Syscall → SyscallState → CoroutineState Y R
  complete : R → CoroutineState Y R
  error : String → CoroutineState Y R
