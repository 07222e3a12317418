-- ===== src/Cpu.antt =====
-- The part of an x86-64 that the assembly of src/thread/context.rs and src/interrupts.rs runs on: the
-- general registers, the flags, and memory as the 64-bit word at each address. A word is read and
-- written whole, so words that matter do not overlap in part.
pub mod Words
pub mod Context
pub mod Stack
pub mod Resume
pub mod Halves
pub mod Yield
pub mod Entered
use molt_os.Prelude.{ℕ, ◌+◌, ◌-◌, ◌*◌, ◌/◌, ◌%◌, List, [], ◌∷◌, ◌==◌, if◌then◌else◌, word}

pub data Register : Type 0 where
  rax rcx rdx rbx rsp rbp rsi rdi r8 r9 r10 r11 r12 r13 r14 r15 : Register

-- The number of a register in the machine's encoding.
abbrev pub number : Register → ℕ
number rax = 0
number rcx = 1
number rdx = 2
number rbx = 3
number rsp = 4
number rbp = 5
number rsi = 6
number rdi = 7
number r8 = 8
number r9 = 9
number r10 = 10
number r11 = 11
number r12 = 12
number r13 = 13
number r14 = 14
number r15 = 15

pub record Cpu : Type 0 where
  pub registers : Register → ℕ
  pub rip : ℕ
  pub rflags : ℕ
  pub memory : ℕ → ℕ

abbrev pub set : (Register → ℕ) → Register → ℕ → Register → ℕ
set f r v = λ q. if number q == number r then v else f q

abbrev pub store : (ℕ → ℕ) → ℕ → ℕ → ℕ → ℕ
store memory a v = λ b. if b == a then v else memory b

-- Addresses wrap round.
abbrev pub add8 : ℕ → ℕ
add8 a = (a + 8) % word

abbrev pub sub8 : ℕ → ℕ
sub8 a = (a + (word - 8)) % word

-- The interrupt flag is bit 9.
abbrev pub interrupt_flag : ℕ → ℕ
interrupt_flag flags = flags / 512 % 2

abbrev pub clear_if : ℕ → ℕ
clear_if flags = flags - interrupt_flag flags * 512

abbrev pub set_if : ℕ → ℕ
set_if flags = clear_if flags + 512

-- The instructions that the code uses, with the memory operands `[base + offset]` of its text.
pub data Instruction : Type 0 where
  mov : Register → Register → Instruction
  load : Register → Register → ℕ → Instruction
  save : Register → ℕ → Register → Instruction
  push pop : Register → Instruction
  push_at pop_at : Register → ℕ → Instruction
  pushfq popfq cli sti ret iretq : Instruction
  -- `btr qword ptr [rsp], 9`.
  btr_if : Instruction

abbrev pub push_word : ℕ → Cpu → Cpu
push_word v s = record s {
  registers = set s.registers rsp (sub8 (s.registers rsp));
  memory = store s.memory (sub8 (s.registers rsp)) v;
}

abbrev pub drop_word : Cpu → Cpu
drop_word s = record s { registers = set s.registers rsp (add8 (s.registers rsp)) }

abbrev pub top_word : Cpu → ℕ
top_word s = s.memory (s.registers rsp)

unfoldable pub step : Instruction → Cpu → Cpu
step (mov r q) s = record s { registers = set s.registers r (s.registers q) }
step (load r base offset) s = record s {
  registers = set s.registers r (s.memory (s.registers base + offset));
}
step (save base offset r) s = record s {
  memory = store s.memory (s.registers base + offset) (s.registers r);
}
step (push r) s = push_word (s.registers r) s
step (pop r) s = record s {
  registers = set (set s.registers rsp (add8 (s.registers rsp))) r (top_word s);
}
step (push_at base offset) s = push_word (s.memory (s.registers base + offset)) s
step (pop_at base offset) s = record (drop_word s) {
  memory = store s.memory (s.registers base + offset) (top_word s);
}
step pushfq s = push_word s.rflags s
step popfq s = record (drop_word s) { rflags = top_word s }
step cli s = record s { rflags = clear_if s.rflags }
step sti s = record s { rflags = set_if s.rflags }
step ret s = record (drop_word s) { rip = top_word s }
step iretq s = record s {
  rip = top_word s;
  rflags = s.memory (s.registers rsp + 16);
  registers = set s.registers rsp (s.memory (s.registers rsp + 24));
}
step btr_if s = record s { memory = store s.memory (s.registers rsp) (clear_if (top_word s)) }

unfoldable pub exec : List Instruction → Cpu → Cpu
exec [] s = s
exec (i ∷ is) s = exec is (step i s)
