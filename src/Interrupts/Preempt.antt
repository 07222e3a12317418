-- ===== src/Interrupts/Preempt.antt =====
-- interrupts.rs: a preempted thread goes on where it was interrupted.
use molt_os.Prelude.{
  ℕ, ◌+◌, ◌-◌, ◌<◌, ◌≡◌, ◌≢◌, inl, inr, refl, sym, ap, subst, ◌∙◌, false, some, ◌∷◌, ◌==◌, arith,
  ok,
}
use molt_os.Cpu.{Register, rsp, rdi, Cpu, set, exec, set_if}
use molt_os.Cpu.Context.{context_switch_to, offset}
use molt_os.Cpu.Resume.{Outside, HasStack, context_switch_to-Resumed}
use molt_os.Cpu.Words.{rsp-cases}
use molt_os.Interrupts.{
  Kernel, switches, InterruptIndex, as_u8, irq_preempt, finish, notify_end_of_interrupt,
}
use molt_os.Interrupts.Frame.{frame_of, IsFrame}
use molt_os.Interrupts.Copied.{CanPreempt, offset-within}
use molt_os.Interrupts.Saved.{
  preempted_memory, IsPreempted, save_frame-ok, save_frame-IsPreempted, preempted_memory-others,
}

-- The machine runs on where it was interrupted, with interrupts enabled.
pub record Continued (s u : Cpu) : Type 0 where
  pub registers : (r : Register) → u.registers r ≡ s.registers r
  pub address : u.rip ≡ s.rip
  pub flags : u.rflags ≡ set_if s.rflags

-- The context at `to` can be switched to from the interrupted state: the word below its stack, and its
-- stack pointer's field, are neither in the context at `ctx` nor the word below the interrupted stack.
pub record CanEnter (s : Cpu) (ctx to : ℕ) (m : ℕ → ℕ) : Type 0 where
  pub stack : HasStack to (m (to + 0))
  pub contexts_apart : Outside ctx (to + 0)
  pub field_apart : to + 0 ≢ s.registers rsp - 8
  pub slot_apart : Outside ctx (m (to + 0) - 8)
  pub return_apart : s.registers rsp - 8 ≢ m (to + 0) - 8

-- The state `t` still has what was saved in the memory `m`.
pub record Keeps (s : Cpu) (ctx : ℕ) (m : ℕ → ℕ) (t : Cpu) : Type 0 where
  pub shows : t.registers rdi ≡ ctx
  pub context : (k : ℕ) → k < 144 → t.memory (ctx + k) ≡ m (ctx + k)
  pub return : t.memory (s.registers rsp - 8) ≡ m (s.registers rsp - 8)

kept-IsPreempted :
    (s : Cpu) (ctx : ℕ) (m : ℕ → ℕ) (t : Cpu)
    → Keeps s ctx m t
    → IsPreempted s ctx m
    → IsPreempted s ctx t.memory
kept-IsPreempted s ctx m t h p = record {
  general = λ r ne. h.context (offset r) (offset-within r) ∙ p.general r ne;
  stack = h.context 0 (omega arith) ∙ p.stack;
  flags = h.context 136 (omega arith) ∙ p.flags;
  address = h.return ∙ p.address;
}

preempted-HasStack : (s : Cpu) (ctx : ℕ) → CanPreempt s ctx → HasStack ctx (s.registers rsp - 8)
preempted-HasStack s ctx h = record {
  room = omega (arith, h.has_frame.room);
  in_word = omega (arith, h.has_frame.room, h.has_frame.in_word);
  apart = h.apart (s.registers rsp - 8 - 8) (omega arith) (omega (arith, h.has_frame.room));
}

switch-Continued :
    (s : Cpu) (ctx : ℕ) (t : Cpu)
    → CanPreempt s ctx
    → t.registers rdi ≡ ctx
    → IsPreempted s ctx t.memory
    → Continued s (exec context_switch_to t)
switch-Continued s ctx t h shows p =
    let top : t.memory (t.registers rdi + 0) ≡ s.registers rsp - 8 =
      ap (λ a. t.memory (a + 0)) shows ∙ p.stack in
    let stack : HasStack (t.registers rdi) (t.memory (t.registers rdi + 0)) =
      subst (λ p. HasStack (t.registers rdi) p) (sym top)
        (subst (λ a. HasStack a (s.registers rsp - 8)) (sym shows) (preempted-HasStack s ctx h)) in
    let resumed = context_switch_to-Resumed t stack in
    let back : s.registers rsp - 8 + 8 ≡ s.registers rsp = omega (arith, h.has_frame.room) in
    record {
      registers = λ r. elim (rsp-cases r) [
        | inl e ↦
            ap (exec context_switch_to t).registers e
            ∙ resumed.stack
            ∙ ap (λ a. a + 8) top
            ∙ back
            ∙ ap s.registers (sym e)
        | inr ne ↦ resumed.general r ne ∙ ap (λ a. t.memory (a + offset r)) shows ∙ p.general r ne
      ];
      address = resumed.address ∙ ap t.memory top ∙ p.address;
      flags = resumed.flags ∙ ap set_if (ap (λ a. t.memory (a + 136)) shows ∙ p.flags);
    }

-- The machine `u` with what is saved of `s`, about to switch.
abbrev pub calling : Cpu → ℕ → ℕ → Cpu → Cpu
calling s from to u = record u {
  memory = preempted_memory s from u.memory;
  registers = set u.registers rdi to;
}

module _ {Q W : Type 0} where
  pub irq_preempt-ok :
      (s : Cpu) (from to : ℕ) (irq : InterruptIndex) (k : Kernel Q W)
      → CanPreempt s from
      → IsFrame s (frame_of s) k.cpu.memory
      → irq_preempt from to (frame_of s) irq k
        ≡ ok (
            notify_end_of_interrupt irq
              (record k { cpu = exec context_switch_to (calling s from to k.cpu) }))
  unfolding irq_preempt
  irq_preempt-ok s from to irq k h f = rw (save_frame-ok s from k.cpu.memory h f)

  -- What the switch leaves of the saved context.
  entered-IsPreempted :
      (s : Cpu) (from to : ℕ) (k : Kernel Q W)
      → CanPreempt s from
      → CanEnter s from to k.cpu.memory
      → IsFrame s (frame_of s) k.cpu.memory
      → IsPreempted s from (exec context_switch_to (calling s from to k.cpu)).memory
  entered-IsPreempted s from to k h c f =
      let u : Cpu = calling s from to k.cpu in
      let saved = save_frame-IsPreempted s from k.cpu.memory h f in
      let top : u.memory (to + 0) ≡ k.cpu.memory (to + 0) =
        preempted_memory-others s from (to + 0) k.cpu.memory c.contexts_apart c.field_apart in
      let stack : HasStack to (u.memory (to + 0)) = subst (λ t. HasStack to t) (sym top) c.stack in
      let resumed = context_switch_to-Resumed u stack in
      let kept = λ (o : ℕ) (lt : o < 144).
        resumed.others (from + o) (λ e. c.slot_apart o lt (e ∙ ap (λ t. t - 8) top)) in
      record {
        general = λ r ne. kept (offset r) (offset-within r) ∙ saved.general r ne;
        stack = kept 0 (omega arith) ∙ saved.stack;
        flags = kept 136 (omega arith) ∙ saved.flags;
        address =
            resumed.others (s.registers rsp - 8) (λ e. c.return_apart (e ∙ ap (λ t. t - 8) top))
            ∙ saved.address;
      }

  -- The interrupt of the state `s` switches from the context `from` to the context `to`: the end of
  -- the interrupt is notified once, and in any later state `t` that still has what was saved,
  -- `context_switch_to` of `from` goes on where `s` was interrupted, with all its registers.
  pub preemption-resumes :
      (s : Cpu) (from to : ℕ) (irq : InterruptIndex) (k : Kernel Q W)
      → CanPreempt s from
      → CanEnter s from to k.cpu.memory
      → IsFrame s (frame_of s) k.cpu.memory
      → (from == to) ≡ false
      → (k' : Kernel Q W) × (finish (frame_of s) irq (some (from, to)) k ≡ ok (switches k'))
        × (k'.sent ≡ as_u8 irq ∷ k.sent)
        × ((t : Cpu) → Keeps s from k'.cpu.memory t → Continued s (exec context_switch_to t))
  unfolding finish
  preemption-resumes s from to irq k h c f ne = (
    notify_end_of_interrupt irq
        (record k { cpu = exec context_switch_to (calling s from to k.cpu) }),
    rw (ne, irq_preempt-ok s from to irq k h f),
    refl,
    λ t keeps.
        switch-Continued s from t h keeps.shows
          (kept-IsPreempted s from _ t keeps (entered-IsPreempted s from to k h c f)),
  )
