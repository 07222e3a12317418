-- ===== src/Cpu/Context.antt =====
-- src/thread/context.rs: the saved registers of a thread, and the two switches.
use molt_os.Prelude.{ℕ, ◌+◌, List, [], ◌∷◌}
use molt_os.Cpu.{
  Register, rax, rcx, rdx, rbx, rsp, rbp, rsi, rdi, r8, r9, r10, r11, r12, r13, r14, r15,
  Instruction, mov, load, save, push_at, pop_at, pushfq, popfq, cli, sti, ret, btr_if,
}

-- The fields in order; `registers` names the general ones.
pub record ThreadContext : Type 0 where
  pub rip : ℕ
  pub rflags : ℕ
  pub registers : Register → ℕ

-- `ThreadContext::default`.
abbrev pub default_context : ThreadContext
default_context = record { rip = 0; rflags = 0x202; registers = λ r. 0 }

-- The offset of a register's field.
abbrev pub offset : Register → ℕ
offset rsp = 0
offset rbx = 16
offset rbp = 24
offset r12 = 32
offset r13 = 40
offset r14 = 48
offset r15 = 56
offset rax = 64
offset rcx = 72
offset rdx = 80
offset rsi = 88
offset rdi = 96
offset r8 = 104
offset r9 = 112
offset r10 = 120
offset r11 = 128

-- The context that stands in memory at an address.
abbrev pub context_at : (ℕ → ℕ) → ℕ → ThreadContext
context_at memory a = record {
  rip = memory (a + 8);
  rflags = memory (a + 136);
  registers = λ r. memory (a + offset r);
}

unfoldable pub context_switch : List Instruction
context_switch =
    pushfq
    ∷ pop_at rdi 136
    ∷ cli
    ∷ save rdi 0 rsp
    ∷ load rax rsp 0
    ∷ save rdi 8 rax
    ∷ save rdi 16 rbx
    ∷ save rdi 24 rbp
    ∷ save rdi 32 r12
    ∷ save rdi 40 r13
    ∷ save rdi 48 r14
    ∷ save rdi 56 r15
    ∷ mov rdi rsi
    ∷ load rsp rdi 0
    ∷ load rbx rdi 16
    ∷ load rbp rdi 24
    ∷ load r12 rdi 32
    ∷ load r13 rdi 40
    ∷ load r14 rdi 48
    ∷ load r15 rdi 56
    ∷ load rax rdi 64
    ∷ load rcx rdi 72
    ∷ load rdx rdi 80
    ∷ load rsi rdi 88
    ∷ load r8 rdi 104
    ∷ load r9 rdi 112
    ∷ load r10 rdi 120
    ∷ load r11 rdi 128
    ∷ push_at rdi 136
    ∷ btr_if
    ∷ popfq
    ∷ load rdi rdi 96
    ∷ sti
    ∷ ret
    ∷ []

unfoldable pub context_switch_to : List Instruction
context_switch_to =
    load rsp rdi 0
    ∷ load rbx rdi 16
    ∷ load rbp rdi 24
    ∷ load r12 rdi 32
    ∷ load r13 rdi 40
    ∷ load r14 rdi 48
    ∷ load r15 rdi 56
    ∷ load rax rdi 64
    ∷ load rcx rdi 72
    ∷ load rdx rdi 80
    ∷ load rsi rdi 88
    ∷ load r8 rdi 104
    ∷ load r9 rdi 112
    ∷ load r10 rdi 120
    ∷ load r11 rdi 128
    ∷ push_at rdi 136
    ∷ btr_if
    ∷ popfq
    ∷ load rdi rdi 96
    ∷ sti
    ∷ ret
    ∷ []
