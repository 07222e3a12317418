-- ===== src/Scheduler/Thread.antt =====
-- src/thread/thread.rs: a thread as the schedulers see it. A pointer to a `ThreadContext` is the
-- address of its allocation.
use molt_os.Prelude.{ℕ, ◌+◌, ◌%◌, word}

-- `Thread`: its `ThreadId` and the address of its boxed context.
pub record Thread : Type 0 where
  pub id : ℕ
  pub context : ℕ

-- `Thread::context_ptr`.
abbrev pub context_ptr : Thread → ℕ
context_ptr t = t.context

-- `ThreadId::next`: the atomic counter `NEXT` is read and then advanced, wrapping.
unfoldable pub next_id : ℕ → ℕ × ℕ
next_id counter = (counter, (counter + 1) % word)
