-- ===== src/Cpu/Entered.antt =====
-- context.rs: the context that `context_switch` goes on with.
use molt_os.Prelude.{ℕ, ◌+◌, ◌-◌, ◌<◌, ◌≡◌, ◌≢◌, sym, ap, subst, ◌∙◌, arith}
use molt_os.Cpu.{
  Register, rax, rcx, rdx, rbx, rsp, rbp, rsi, rdi, r8, r9, r10, r11, r12, r13, r14, r15, Cpu, exec,
  set_if,
}
use molt_os.Cpu.Context.{context_at, context_switch, context_switch_to, offset}
use molt_os.Cpu.Resume.{Outside, HasStack, context_switch_to-Resumed}
use molt_os.Cpu.Halves.{
  CanSwitch, save_half, context_switch-halves, exec-append, save_half-others, save_half-registers,
  save_half-top, Saved, save_half-Saved, switched-others,
}

offset-lt : (r : Register) → offset r < 144
offset-lt rax = omega arith
offset-lt rcx = omega arith
offset-lt rdx = omega arith
offset-lt rbx = omega arith
offset-lt rsp = omega arith
offset-lt rbp = omega arith
offset-lt rsi = omega arith
offset-lt rdi = omega arith
offset-lt r8 = omega arith
offset-lt r9 = omega arith
offset-lt r10 = omega arith
offset-lt r11 = omega arith
offset-lt r12 = omega arith
offset-lt r13 = omega arith
offset-lt r14 = omega arith
offset-lt r15 = omega arith

-- No word of the new context is one of the old context or the word below the stack.
pub record CanEnter (s : Cpu) : Type 0 where
  pub switch : CanSwitch s
  pub contexts_apart : (k : ℕ) → k < 144 → Outside (s.registers rdi) (s.registers rsi + k)
  pub saved_apart : (k : ℕ) → k < 144 → s.registers rsi + k ≢ s.registers rsp - 8
  -- The same of the word that the new stack starts with.
  pub entry_apart : Outside (s.registers rdi) (s.memory (s.registers rsi + 0))
  pub entry_saved_apart : s.memory (s.registers rsi + 0) ≢ s.registers rsp - 8

-- The machine goes on with the context: its registers, the address on its stack, and its flags with
-- interrupts enabled.
pub record Entered (memory : ℕ → ℕ) (new : ℕ) (u : Cpu) : Type 0 where
  pub general : (r : Register) → r ≢ rsp → u.registers r ≡ memory (new + offset r)
  pub stack : u.registers rsp ≡ memory (new + 0) + 8
  pub address : u.rip ≡ memory (memory (new + 0))
  pub flags : u.rflags ≡ set_if (memory (new + 136))

pub context_switch-Entered :
    (s : Cpu) → CanEnter s → Entered s.memory (s.registers rsi) (exec context_switch s)
context_switch-Entered s h =
    let u : Cpu = exec save_half s in
    let new : ℕ = s.registers rsi in
    let kept = λ (k : ℕ) (lt : k < 144).
      ap (λ (a : ℕ). u.memory (a + k)) (save_half-registers s)
      ∙ save_half-others s (new + k) h.switch.yields (h.contexts_apart k lt) (h.saved_apart k lt) in
    let top = save_half-top s h.switch in
    let stack : HasStack (u.registers rdi) (u.memory (u.registers rdi + 0)) =
      subst (λ t. HasStack (u.registers rdi) t) (sym top)
        (subst (λ r. HasStack r (s.memory (new + 0))) (sym (save_half-registers s))
          h.switch.stack) in
    let resumed = context_switch_to-Resumed u stack in
    let whole : exec context_switch s ≡ exec context_switch_to u =
      ap (λ is. exec is s) context_switch-halves ∙ exec-append save_half context_switch_to s in
    let entry =
      save_half-others s (s.memory (new + 0)) h.switch.yields h.entry_apart h.entry_saved_apart in
    subst (λ c. Entered s.memory new c) (sym whole)
      (record {
        general = λ r ne. resumed.general r ne ∙ kept (offset r) (offset-lt r);
        stack = resumed.stack ∙ ap (λ p. p + 8) top;
        address = resumed.address ∙ ap u.memory top ∙ entry;
        flags = resumed.flags ∙ ap set_if (kept 136 (omega arith));
      })

-- The caller's context, as it stands in memory after the whole switch.
pub context_switch-Saved :
    (s : Cpu) → CanSwitch s → Saved s (context_at (exec context_switch s).memory (s.registers rdi))
context_switch-Saved s h =
    let saved = save_half-Saved s h.yields in
    let kept =
      λ (k : ℕ) (lt : k < 144). switched-others s (s.registers rdi + k) h (h.old_apart k lt) in
    record {
      stack = kept 0 (omega arith) ∙ saved.stack;
      address = kept 8 (omega arith) ∙ saved.address;
      flags = kept 136 (omega arith) ∙ saved.flags;
      preserved = λ r c. kept (offset r) (offset-lt r) ∙ saved.preserved r c;
    }
