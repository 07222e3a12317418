-- ===== src/Scheduler/Created.antt =====
-- src/thread/thread.rs: how a thread is made, and that it starts at its entry point.
use molt_os.Prelude.{ℕ, Checked, ok, ◌>>=◌}
use molt_os.Cpu.Stack.{
  KernelStack, stack_size, with_size, write_fields, init_context, default_fields,
}
use molt_os.Scheduler.Thread.{Thread, next_id}

-- `Thread::with_stack_size`, given where the heap puts the stack and the context: the thread, its
-- stack, the counter of identifiers and memory.
unfoldable pub with_stack_size :
    ℕ → ℕ → ℕ → ℕ → ℕ → (ℕ → ℕ) → Checked (Thread × KernelStack × ℕ × (ℕ → ℕ))
with_stack_size start ctx entry_point stack_bytes counter m = do
  let (stack, m1) = with_size start stack_bytes m
  let m2 : ℕ → ℕ = write_fields ctx default_fields m1
  m3 ← init_context stack ctx entry_point m2
  let (id, counter') = next_id counter
  ok (record { id = id; context = ctx }, stack, counter', m3)

-- `Thread::new`.
abbrev pub new : ℕ → ℕ → ℕ → ℕ → (ℕ → ℕ) → Checked (Thread × KernelStack × ℕ × (ℕ → ℕ))
new start ctx entry_point counter m = with_stack_size start ctx entry_point stack_size counter m
