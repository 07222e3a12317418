-- ===== src/Cpu/Resume.antt =====
-- context.rs: what a switch to a context leaves in the machine.
use molt_os.Prelude.{ℕ, ◌+◌, ◌-◌, ◌≤◌, ◌<◌, ◌≡◌, ◌≢◌, refl, ap, ◌∙◌, arith, word}
use molt_os.Cpu.{
  Register, rax, rcx, rdx, rbx, rsp, rbp, rsi, rdi, r8, r9, r10, r11, r12, r13, r14, r15, Cpu, step,
  exec, store, add8, sub8, set_if, clear_if,
}
use molt_os.Cpu.Words.{store_self, store_ne, set_if-clear_if}
use molt_os.Cpu.Context.{ThreadContext, context_at, context_switch_to, offset}

-- The machine runs on from the context: its registers and flags are loaded, with interrupts enabled,
-- and the word that its stack pointer shows is popped as the address to go on at. Of the memory only
-- the word below that one has changed.
pub record Resumed (memory : ℕ → ℕ) (c : ThreadContext) (s : Cpu) : Type 0 where
  pub general : (r : Register) → r ≢ rsp → s.registers r ≡ c.registers r
  pub stack : s.registers rsp ≡ c.registers rsp + 8
  pub address : s.rip ≡ memory (c.registers rsp)
  pub flags : s.rflags ≡ set_if c.rflags
  pub others : (a : ℕ) → a ≢ c.registers rsp - 8 → s.memory a ≡ memory a

-- An address that is none of the bytes of the context at `a`.
abbrev pub Outside : ℕ → ℕ → Type 0
Outside a slot = (k : ℕ) → k < 144 → a + k ≢ slot

-- The stack of the context has room, and the word that is pushed on it is not one of the context.
pub record HasStack (a : ℕ) (top : ℕ) : Type 0 where
  pub room : 8 ≤ top
  pub in_word : top + 8 < word
  pub apart : Outside a (top - 8)

-- A word that is pushed and then changed in place, as a later read finds it.
pushed_twice : (m : ℕ → ℕ) (slot v w a : ℕ) → a ≢ slot → store (store m slot v) slot w a ≡ m a
pushed_twice m slot v w a h = store_ne (store m slot v) slot w a h ∙ store_ne m slot v a h

context_switch_to-general :
    (s : Cpu) (r : Register)
    → HasStack (s.registers rdi) (s.memory (s.registers rdi + 0))
    → r ≢ rsp
    → (exec context_switch_to s).registers r ≡ s.memory (s.registers rdi + offset r)
unfolding exec step context_switch_to
context_switch_to-general s rax h ne = refl
context_switch_to-general s rcx h ne = refl
context_switch_to-general s rdx h ne = refl
context_switch_to-general s rbx h ne = refl
context_switch_to-general s rsp h ne = absurd (ne refl)
context_switch_to-general s rbp h ne = refl
context_switch_to-general s rsi h ne = refl
context_switch_to-general s rdi h ne =
    let top : ℕ = s.memory (s.registers rdi + 0) in
    let below : sub8 top ≡ top - 8 = omega (arith, h.room, h.in_word) in
    pushed_twice s.memory (sub8 top) _ _ (s.registers rdi + 96)
      (λ e. h.apart 96 (omega arith) (e ∙ below))
context_switch_to-general s r8 h ne = refl
context_switch_to-general s r9 h ne = refl
context_switch_to-general s r10 h ne = refl
context_switch_to-general s r11 h ne = refl
context_switch_to-general s r12 h ne = refl
context_switch_to-general s r13 h ne = refl
context_switch_to-general s r14 h ne = refl
context_switch_to-general s r15 h ne = refl

-- `context_switch_to` resumes the context that `rdi` shows, where its stack is as it should be.
pub context_switch_to-Resumed :
    (s : Cpu)
    → HasStack (s.registers rdi) (s.memory (s.registers rdi + 0))
    → Resumed s.memory (context_at s.memory (s.registers rdi)) (exec context_switch_to s)
unfolding exec step context_switch_to
context_switch_to-Resumed s h =
    let top : ℕ = s.memory (s.registers rdi + 0) in
    let below : sub8 top ≡ top - 8 = omega (arith, h.room, h.in_word) in
    let back : add8 (sub8 top) ≡ top = omega (arith, h.room, h.in_word) in
    let up : add8 top ≡ top + 8 = omega (arith, h.in_word) in
    let above : add8 (sub8 top) ≢ sub8 top = λ e. omega (arith, e, back, below, h.room) in
    let pushed : ℕ = s.memory (s.registers rdi + 136) in
    record {
      general = λ r ne. context_switch_to-general s r h ne;
      stack = ap add8 back ∙ up;
      address = pushed_twice s.memory (sub8 top) _ _ (add8 (sub8 top)) above ∙ ap s.memory back;
      flags =
          ap set_if (store_self (store s.memory (sub8 top) pushed) (sub8 top) _)
          ∙ ap (λ x. set_if (clear_if x)) (store_self s.memory (sub8 top) pushed)
          ∙ set_if-clear_if pushed;
      others = λ a ne. pushed_twice s.memory (sub8 top) _ _ a (λ e. ne (e ∙ below));
    }
