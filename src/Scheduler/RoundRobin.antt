-- ===== src/Scheduler/RoundRobin.antt =====
-- src/thread/schedulers/round_robin.rs: threads run in a fixed circular order.
pub mod Rotation
use molt_os.Prelude.{
  ℕ, ◌+◌, ◌%◌, Option, none, some, List, [], ◌∷◌, ◌++◌, ◌==◌, if◌then◌else◌, length, Checked, ok,
  ◌>>=◌, index,
}
use molt_os.Scheduler.Thread.{Thread, context_ptr}

pub record RoundRobinScheduler : Type 0 where
  pub threads : List Thread
  pub current : Option ℕ

-- `RoundRobinScheduler::new`.
abbrev pub new : RoundRobinScheduler
new = record { threads = []; current = none }

unfoldable pub spawn : RoundRobinScheduler → Thread → RoundRobinScheduler
spawn s t = record s { threads = s.threads ++ (t ∷ []) }

-- The weight is ignored.
unfoldable pub spawn_with_weight : RoundRobinScheduler → Thread → ℕ → RoundRobinScheduler
spawn_with_weight s t weight = record s { threads = s.threads ++ (t ∷ []) }

unfoldable pub len : RoundRobinScheduler → ℕ
len s = length s.threads

-- `next`, with `n` threads. An index is far below the range of `usize`, so `i + 1` cannot wrap.
abbrev pub next_of : Option ℕ → ℕ → ℕ
next_of none n = 0
next_of (some i) n = (i + 1) % n

unfoldable pub from_context : RoundRobinScheduler → ℕ → Option ℕ → Checked ℕ
from_context s bootstrap_ctx none = ok bootstrap_ctx
from_context s bootstrap_ctx (some p) = index s.threads p >>= λ t. ok (context_ptr t)

-- `tick_prepare` with at least one thread.
unfoldable pub rotate : RoundRobinScheduler → ℕ → Checked (RoundRobinScheduler × Option (ℕ × ℕ))
rotate s bootstrap_ctx = do
  let next = next_of s.current (length s.threads)
  from_ctx ← from_context s bootstrap_ctx s.current
  t ← index s.threads next
  ok (record s { current = some next }, some (from_ctx, context_ptr t))

unfoldable pub tick_prepare :
    RoundRobinScheduler → ℕ → ℕ → Checked (RoundRobinScheduler × Option (ℕ × ℕ))
tick_prepare s bootstrap_ctx current_tick =
    if length s.threads == 0 then ok (s, none) else rotate s bootstrap_ctx
