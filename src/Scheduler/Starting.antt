-- ===== src/Scheduler/Starting.antt =====
-- src/thread/thread.rs: a new thread starts at its entry point.
use molt_os.Prelude.{
  ℕ, ◌+◌, ◌-◌, ◌%◌, ◌≤◌, ◌<◌, ◌≡◌, refl, sym, ap, subst, ◌∙◌, ◌==◌, true, false, ltb, leb, ok, word,
  arith,
}
use molt_os.Cpu.{rdi, Cpu, exec, set_if}
use molt_os.Cpu.Context.{context_switch_to, offset}
use molt_os.Cpu.Resume.{Outside, HasStack, context_switch_to-Resumed}
use molt_os.Cpu.Yield.{callee_saved-not_rsp, callee_saved-offset}
use molt_os.Cpu.Stack.{KernelStack, canary, with_size, check_canary, init_context}
use molt_os.Scheduler.Thread.{Thread, next_id}
use molt_os.Scheduler.Created.{with_stack_size}
use molt_os.Scheduler.Initial.{
  top-in_storage, initial_fields, created, created-preserved, created-stack, created-flags,
  created-address, created-canary,
}
pub use molt_os.Scheduler.Initial.{IsPlaced, Starts}

intact_check : (v : ℕ) → v ≡ canary → (v == canary) ≡ true
intact_check v e = ground arith

created-Starts :
    (start ctx entry_point bytes t : ℕ) (m : ℕ → ℕ) (u : Cpu)
    → HasStack ctx t
    → Outside ctx t
    → u.registers rdi ≡ ctx
    → ((k : ℕ) → k < 144 → u.memory (ctx + k) ≡ created start ctx entry_point bytes t m (ctx + k))
    → u.memory t ≡ created start ctx entry_point bytes t m t
    → Starts entry_point t (exec context_switch_to u)
created-Starts start ctx entry_point bytes t m u stack out shows words top_word =
    let top : u.memory (u.registers rdi + 0) ≡ t =
      ap (λ a. u.memory (a + 0)) shows
      ∙ words 0 (omega arith)
      ∙ created-stack start ctx entry_point bytes t m in
    let resumed = context_switch_to-Resumed u (
      subst (λ p. HasStack (u.registers rdi) p) (sym top)
        (subst (λ a. HasStack a t) (sym shows) stack)) in
    record {
      address =
          resumed.address
          ∙ ap u.memory top
          ∙ top_word
          ∙ created-address start ctx entry_point bytes t m out;
      stack = resumed.stack ∙ ap (λ a. a + 8) top;
      preserved = λ r c.
          resumed.general r (callee_saved-not_rsp r c)
          ∙ ap (λ a. u.memory (a + offset r)) shows
          ∙ words (offset r) (callee_saved-offset r c)
          ∙ created-preserved start ctx entry_point bytes t m r c;
      flags =
          resumed.flags
          ∙ ap set_if (
              ap (λ a. u.memory (a + 136)) shows
              ∙ words 136 (omega arith)
              ∙ created-flags start ctx entry_point bytes t m out);
    }

-- A thread that is made with at least 48 bytes of stack starts at its entry point: the canary is
-- intact, and in any state `u` that still has the context and the word at the top of its stack,
-- `context_switch_to` of the context jumps to the entry point with the stack empty, its preserved
-- registers zero and interrupts enabled. Above the stack pointer that it starts with, 8 to 24 bytes of
-- its stack are left.
pub with_stack_size-Starts :
    (start ctx entry_point bytes counter : ℕ) (m : ℕ → ℕ)
    → IsPlaced start ctx bytes
    → (t : ℕ) × (thread : Thread) × (stack : KernelStack) × (counter' : ℕ) × (m' : ℕ → ℕ)
      × (with_stack_size start ctx entry_point bytes counter m ≡ ok (thread, stack, counter', m'))
      × (stack.start ≡ start)
      × (stack.size ≡ bytes)
      × (t + 8 + 8 ≤ start + bytes)
      × (start + bytes ≤ t + 8 + 24)
      × (thread.context ≡ ctx)
      × (check_canary stack m' ≡ true)
      × ((u : Cpu)
          → u.registers rdi ≡ thread.context
          → ((k : ℕ) → k < 144 → u.memory (thread.context + k) ≡ m' (thread.context + k))
          → u.memory t ≡ m' t
          → Starts entry_point t (exec context_switch_to u))
unfolding with_stack_size init_context with_size check_canary next_id created initial_fields
with_stack_size-Starts start ctx entry_point bytes counter m p =
    let (t, is_top, low, high, level, near) =
      top-in_storage record { start = start; size = bytes } p.room p.in_word in
    let out : Outside ctx t = p.apart t (omega (arith, low)) (omega (arith, high)) in
    let stack : HasStack ctx t = record {
      room = omega (arith, low);
      in_word = omega (arith, high, p.in_word);
      apart = p.apart (t - 8) (omega (arith, low)) (omega (arith, low, high));
    } in
    let whole : leb 8 bytes ≡ true = ground (arith, p.room) in
    let checked : ltb bytes 8 ≡ false = ground (arith, p.room) in
    let intact = created-canary start ctx entry_point bytes t m p (omega (arith, low)) in
    (
      t,
      record { id = counter; context = ctx },
      record { start = start; size = bytes },
      (counter + 1) % word,
      created start ctx entry_point bytes t m,
      rw is_top,
      refl,
      refl,
      omega (arith, high),
      omega (arith, near),
      refl,
      rw (checked) (intact_check _ intact),
      λ u shows words top_word.
          created-Starts start ctx entry_point bytes t m u stack out shows words top_word,
    )
