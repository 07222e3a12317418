-- ===== src/Interrupts/Popped.antt =====
-- interrupts.rs: the pops and `iretq` of the entries bring the interrupted state back.
use molt_os.Prelude.{ℕ, ◌+◌, ◌<◌, ◌≡◌, ◌≢◌, refl, ap, ◌∙◌, arith, word}
use molt_os.Cpu.{
  Register, rax, rcx, rdx, rbx, rsp, rbp, rsi, rdi, r8, r9, r10, r11, r12, r13, r14, r15, Cpu, step,
  exec,
}
use molt_os.Interrupts.{
  InterruptIndex, timer, keyboard, entry_of, deliver, entry_pushes, entry_pops, frame_offset,
  frame_rip, frame_rflags,
}
use molt_os.Interrupts.Pushed.{climb, climb_lem}
use molt_os.Cpu.Words.{by_number}
use molt_os.Interrupts.Frame.{HasFrame, frame_of, IsFrame, entry-Entered}

pops-general :
    (t : Cpu) (r : Register)
    → t.registers rsp + 160 < word
    → r ≢ rsp
    → (exec entry_pops t).registers r ≡ t.memory (t.registers rsp + frame_offset r)
unfolding exec step entry_pops climb
pops-general t rax h ne = ap t.memory (omega arith)
pops-general t rcx h ne = ap t.memory (climb_lem 1 (t.registers rsp) (omega arith))
pops-general t rdx h ne = ap t.memory (climb_lem 2 (t.registers rsp) (omega arith))
pops-general t rbx h ne = ap t.memory (climb_lem 3 (t.registers rsp) (omega arith))
pops-general t rbp h ne = ap t.memory (climb_lem 4 (t.registers rsp) (omega arith))
pops-general t rsi h ne = ap t.memory (climb_lem 5 (t.registers rsp) (omega arith))
pops-general t rdi h ne = ap t.memory (climb_lem 6 (t.registers rsp) (omega arith))
pops-general t r8 h ne = ap t.memory (climb_lem 7 (t.registers rsp) (omega arith))
pops-general t r9 h ne = ap t.memory (climb_lem 8 (t.registers rsp) (omega arith))
pops-general t r10 h ne = ap t.memory (climb_lem 9 (t.registers rsp) (omega arith))
pops-general t r11 h ne = ap t.memory (climb_lem 10 (t.registers rsp) (omega arith))
pops-general t r12 h ne = ap t.memory (climb_lem 11 (t.registers rsp) (omega arith))
pops-general t r13 h ne = ap t.memory (climb_lem 12 (t.registers rsp) (omega arith))
pops-general t r14 h ne = ap t.memory (climb_lem 13 (t.registers rsp) (omega arith))
pops-general t r15 h ne = ap t.memory (climb_lem 14 (t.registers rsp) (omega arith))
pops-general t rsp h ne = absurd (ne refl)

-- The machine runs on as if there had been no interrupt.
pub record Undisturbed (s u : Cpu) : Type 0 where
  pub registers : (r : Register) → u.registers r ≡ s.registers r
  pub address : u.rip ≡ s.rip
  pub flags : u.rflags ≡ s.rflags

pops-stack :
    (t : Cpu)
    → t.registers rsp + 160 < word
    → (exec entry_pops t).registers rsp ≡ t.memory (t.registers rsp + frame_offset rsp)
unfolding exec step entry_pops climb
pops-stack t h =
    ap t.memory (ap (λ a. a + 24) (climb_lem 15 (t.registers rsp) (omega arith)) ∙ omega arith)

pops-address :
    (t : Cpu)
    → t.registers rsp + 160 < word
    → (exec entry_pops t).rip ≡ t.memory (t.registers rsp + frame_rip)
unfolding exec step entry_pops climb
pops-address t h = ap t.memory (climb_lem 15 (t.registers rsp) (omega arith))

pops-flags :
    (t : Cpu)
    → t.registers rsp + 160 < word
    → (exec entry_pops t).rflags ≡ t.memory (t.registers rsp + frame_rflags)
unfolding exec step entry_pops climb
pops-flags t h =
    ap t.memory (ap (λ a. a + 16) (climb_lem 15 (t.registers rsp) (omega arith)) ∙ omega arith)

pops-registers :
    (s t : Cpu) (r : Register)
    → t.registers rsp + 160 < word
    → IsFrame s (t.registers rsp) t.memory
    → (exec entry_pops t).registers r ≡ s.registers r
pops-registers s t rax h f =
    pops-general t rax h (by_number rax rsp (omega arith))
    ∙ f.general rax (by_number rax rsp (omega arith))
pops-registers s t rcx h f =
    pops-general t rcx h (by_number rcx rsp (omega arith))
    ∙ f.general rcx (by_number rcx rsp (omega arith))
pops-registers s t rdx h f =
    pops-general t rdx h (by_number rdx rsp (omega arith))
    ∙ f.general rdx (by_number rdx rsp (omega arith))
pops-registers s t rbx h f =
    pops-general t rbx h (by_number rbx rsp (omega arith))
    ∙ f.general rbx (by_number rbx rsp (omega arith))
pops-registers s t rbp h f =
    pops-general t rbp h (by_number rbp rsp (omega arith))
    ∙ f.general rbp (by_number rbp rsp (omega arith))
pops-registers s t rsi h f =
    pops-general t rsi h (by_number rsi rsp (omega arith))
    ∙ f.general rsi (by_number rsi rsp (omega arith))
pops-registers s t rdi h f =
    pops-general t rdi h (by_number rdi rsp (omega arith))
    ∙ f.general rdi (by_number rdi rsp (omega arith))
pops-registers s t r8 h f =
    pops-general t r8 h (by_number r8 rsp (omega arith))
    ∙ f.general r8 (by_number r8 rsp (omega arith))
pops-registers s t r9 h f =
    pops-general t r9 h (by_number r9 rsp (omega arith))
    ∙ f.general r9 (by_number r9 rsp (omega arith))
pops-registers s t r10 h f =
    pops-general t r10 h (by_number r10 rsp (omega arith))
    ∙ f.general r10 (by_number r10 rsp (omega arith))
pops-registers s t r11 h f =
    pops-general t r11 h (by_number r11 rsp (omega arith))
    ∙ f.general r11 (by_number r11 rsp (omega arith))
pops-registers s t r12 h f =
    pops-general t r12 h (by_number r12 rsp (omega arith))
    ∙ f.general r12 (by_number r12 rsp (omega arith))
pops-registers s t r13 h f =
    pops-general t r13 h (by_number r13 rsp (omega arith))
    ∙ f.general r13 (by_number r13 rsp (omega arith))
pops-registers s t r14 h f =
    pops-general t r14 h (by_number r14 rsp (omega arith))
    ∙ f.general r14 (by_number r14 rsp (omega arith))
pops-registers s t r15 h f =
    pops-general t r15 h (by_number r15 rsp (omega arith))
    ∙ f.general r15 (by_number r15 rsp (omega arith))
pops-registers s t rsp h f = pops-stack t h ∙ f.stack

pub offset_lt : (r : Register) → frame_offset r < 160
offset_lt rax = omega arith
offset_lt rcx = omega arith
offset_lt rdx = omega arith
offset_lt rbx = omega arith
offset_lt rbp = omega arith
offset_lt rsi = omega arith
offset_lt rdi = omega arith
offset_lt r8 = omega arith
offset_lt r9 = omega arith
offset_lt r10 = omega arith
offset_lt r11 = omega arith
offset_lt r12 = omega arith
offset_lt r13 = omega arith
offset_lt r14 = omega arith
offset_lt r15 = omega arith
offset_lt rsp = omega arith

pops-Undisturbed :
    (cs ss : ℕ) (s t : Cpu)
    → HasFrame s
    → t.registers rsp ≡ (exec entry_pushes (deliver cs ss s)).registers rsp
    → ((o : ℕ)
        → o < 160
        → t.memory (frame_of s + o) ≡ (exec entry_pushes (deliver cs ss s)).memory (frame_of s + o))
    → Undisturbed s (exec entry_pops t)
pops-Undisturbed cs ss s t h stack words =
    let entered = entry-Entered cs ss s h in
    let base : t.registers rsp ≡ frame_of s = stack ∙ entered.stack in
    let room : t.registers rsp + 160 < word = omega (arith, base, h.in_word, h.room) in
    let kept = λ (o : ℕ) (lt : o < 160). ap (λ f. t.memory (f + o)) base ∙ words o lt in
    let frame : IsFrame s (t.registers rsp) t.memory = record {
      general = λ r ne. kept (frame_offset r) (offset_lt r) ∙ entered.frame.general r ne;
      stack = kept 144 (omega arith) ∙ entered.frame.stack;
      address = kept 120 (omega arith) ∙ entered.frame.address;
      flags = kept 136 (omega arith) ∙ entered.frame.flags;
    } in
    record {
      registers = λ r. pops-registers s t r room frame;
      address = pops-address t room ∙ frame.address;
      flags = pops-flags t room ∙ frame.flags;
    }

-- An interrupt whose inner function returns is not noticed: whatever the function does to the
-- registers and to the rest of memory, if it gives back the stack pointer and the frame, the pops and
-- `iretq` leave all the registers, the flags and the address of the interrupted state.
pub interrupt-Undisturbed :
    (irq : InterruptIndex) (cs ss : ℕ) (s t : Cpu)
    → HasFrame s
    → t.registers rsp ≡ (exec (entry_of irq).before (deliver cs ss s)).registers rsp
    → ((o : ℕ)
        → o < 160
        → t.memory (frame_of s + o)
          ≡ (exec (entry_of irq).before (deliver cs ss s)).memory (frame_of s + o))
    → Undisturbed s (exec (entry_of irq).after t)
interrupt-Undisturbed timer cs ss s t = pops-Undisturbed cs ss s t
interrupt-Undisturbed keyboard cs ss s t = pops-Undisturbed cs ss s t
