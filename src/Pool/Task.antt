-- ===== src/Pool/Task.antt =====
-- `TaskImpl` of open-coroutine-core/src/pool/task.rs. A name is a number; `catch_unwind` turns the
-- panic of a task into an error.
use Prim.Native.String.{String}
use open_coroutine.Base.{ℕ, Option, none, some}

-- How a task's function ends: it returns, or it panics with a message that may be a `&'static str`.
pub data Ending : Type 0 where
  returns : Option ℕ → Ending
  panics : Option String → Ending

-- `Result<Option<usize>, &str>`.
pub data Outcome : Type 0 where
  ok : Option ℕ → Outcome
  err : String → Outcome

pub record Task : Type 0 where
  pub name : ℕ
  pub func : Option ℕ → Ending
  pub param : Option ℕ

abbrev pub new : ℕ → (Option ℕ → Ending) → Option ℕ → Task
new name func param = record { name = name; func = func; param = param }

-- `set_param` returns the old one.
abbrev pub set_param : ℕ → Task → Task × Option ℕ
set_param param task = (record task { param = some param }, task.param)

abbrev pub get_param : Task → Option ℕ
get_param task = task.param

abbrev pub message : Option String → String
message none = "task failed without message"
message (some text) = text

abbrev pub caught : Ending → Outcome
caught (returns r) = ok r
caught (panics text) = err (message text)

abbrev pub run : Task → ℕ × Outcome
run task = (task.name, caught (task.func (get_param task)))
