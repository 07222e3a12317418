-- ===== src/Cpu/Yield.antt =====
-- context.rs: `context_switch` saves what the caller relies on, and a later switch back returns from
-- the call.
use molt_os.Prelude.{ℕ, ◌+◌, ◌<◌, ◌≡◌, ◌≢◌, sym, ap, subst, ◌∙◌, arith}
use molt_os.Cpu.{Register, rbx, rsp, rbp, rdi, r12, r13, r14, r15, Cpu, exec, set_if}
use molt_os.Cpu.Words.{by_number}
use molt_os.Cpu.Context.{context_at, context_switch, context_switch_to, offset}
use molt_os.Cpu.Resume.{HasStack, context_switch_to-Resumed}
use molt_os.Cpu.Halves.{
  IsCalleeSaved, saves_rbx, saves_rbp, saves_r12, saves_r13, saves_r14, saves_r15, save_half, Saved,
  save_half-Saved, save_half-others, CanSwitch, switched-others,
}

-- The call of `context_switch` has returned: the stack pointer is past the return address, the machine
-- goes on there, with the caller's registers, and with its flags but interrupts enabled.
pub record Returned (s u : Cpu) : Type 0 where
  pub stack : u.registers rsp ≡ s.registers rsp + 8
  pub address : u.rip ≡ s.memory (s.registers rsp)
  pub preserved : (r : Register) → IsCalleeSaved r → u.registers r ≡ s.registers r
  pub flags : u.rflags ≡ set_if s.rflags

pub callee_saved-not_rsp : (r : Register) → IsCalleeSaved r → r ≢ rsp
callee_saved-not_rsp _ saves_rbx = by_number rbx rsp (omega arith)
callee_saved-not_rsp _ saves_rbp = by_number rbp rsp (omega arith)
callee_saved-not_rsp _ saves_r12 = by_number r12 rsp (omega arith)
callee_saved-not_rsp _ saves_r13 = by_number r13 rsp (omega arith)
callee_saved-not_rsp _ saves_r14 = by_number r14 rsp (omega arith)
callee_saved-not_rsp _ saves_r15 = by_number r15 rsp (omega arith)

pub callee_saved-offset : (r : Register) → IsCalleeSaved r → offset r < 144
callee_saved-offset _ saves_rbx = omega arith
callee_saved-offset _ saves_rbp = omega arith
callee_saved-offset _ saves_r12 = omega arith
callee_saved-offset _ saves_r13 = omega arith
callee_saved-offset _ saves_r14 = omega arith
callee_saved-offset _ saves_r15 = omega arith

-- A thread yields by `context_switch` in state `s`. In any later state `t` in which its context and
-- its return address are untouched, `context_switch_to` of that context returns from the call.
pub context_switch-returns :
    (s t : Cpu)
    → CanSwitch s
    → t.registers rdi ≡ s.registers rdi
    → ((k : ℕ)
        → k < 144
        → t.memory (s.registers rdi + k) ≡ (exec context_switch s).memory (s.registers rdi + k))
    → t.memory (s.registers rsp) ≡ (exec context_switch s).memory (s.registers rsp)
    → Returned s (exec context_switch_to t)
context_switch-returns s t h same words return =
    let u : Cpu = exec save_half s in
    let old : ℕ = s.registers rdi in
    let saved : Saved s (context_at u.memory old) = save_half-Saved s h.yields in
    let kept = λ (k : ℕ) (lt : k < 144).
      ap (λ r. t.memory (r + k)) same
      ∙ words k lt
      ∙ switched-others s (old + k) h (h.old_apart k lt) in
    let top : t.memory (t.registers rdi + 0) ≡ s.registers rsp =
      kept 0 (omega arith) ∙ saved.stack in
    let stack : HasStack (t.registers rdi) (t.memory (t.registers rdi + 0)) =
      subst (λ p. HasStack (t.registers rdi) p) (sym top)
        (subst (λ r. HasStack r (s.registers rsp)) (sym same)
          record {
            room = h.yields.room;
            in_word = h.yields.in_word;
            apart = h.yields.flags_apart;
          }) in
    let resumed = context_switch_to-Resumed t stack in
    let back : t.memory (s.registers rsp) ≡ s.memory (s.registers rsp) =
      return
      ∙ switched-others s (s.registers rsp) h h.return_apart
      ∙ save_half-others s (s.registers rsp) h.yields h.yields.return_apart
          (omega (arith, h.yields.room)) in
    record {
      stack = resumed.stack ∙ ap (λ p. p + 8) top;
      address = resumed.address ∙ ap t.memory top ∙ back;
      preserved = λ r c.
          resumed.general r (callee_saved-not_rsp r c)
          ∙ kept (offset r) (callee_saved-offset r c)
          ∙ saved.preserved r c;
      flags = resumed.flags ∙ ap set_if (kept 136 (omega arith) ∙ saved.flags);
    }
