-- ===== src/Interrupts.antt =====
-- src/interrupts.rs: the timer and keyboard interrupts, from the frame that the processor pushes to
-- the return or the switch. What the compiler pushes below that frame is not modelled.
pub mod Pushed
pub mod Frame
pub mod Popped
pub mod Copied
pub mod Saved
pub mod Preempt
pub mod Ends
use molt_os.Prelude.{
  ℕ, zero, suc, ◌+◌, ◌-◌, ◌*◌, ◌/◌, ◌%◌, ◌==◌, if◌then◌else◌, Option, none, some, List, [], ◌∷◌,
  word, Checked, ok, panic, ◌>>=◌, sub64, div64,
}
use molt_os.Cpu.{
  Register, rax, rcx, rdx, rbx, rsp, rbp, rsi, rdi, r8, r9, r10, r11, r12, r13, r14, r15, Cpu,
  Instruction, mov, push, pop, iretq, exec, set, store, clear_if, push_word,
}
use molt_os.Cpu.Context.{context_switch_to}
use molt_os.Scheduler.Global.{Scheduler, tick_prepare}
use molt_os.Task.Keyboard.{ArrayQueue, AtomicWaker, Scancodes, add_scancode}
use molt_os.Doom.Keys.{Keyboard, feed_scancode}

abbrev pub pic_1_offset : ℕ
pic_1_offset = 32

abbrev pub pic_2_offset : ℕ
pic_2_offset = pic_1_offset + 8

pub data InterruptIndex : Type 0 where
  timer keyboard : InterruptIndex

abbrev pub as_u8 : InterruptIndex → ℕ
as_u8 timer = pic_1_offset
as_u8 keyboard = pic_1_offset + 1

-- The writes of `configure_pit`, as ports with bytes; the division panics for 0.
unfoldable pub configure_pit : ℕ → Checked (List (ℕ × ℕ))
configure_pit frequency = do
  quotient ← div64 1193182 frequency
  let divisor : ℕ = quotient % 65536
  ok ((0x43, 0x34) ∷ (0x40, divisor % 256) ∷ (0x40, divisor / 256) ∷ [])

-- The offset of a register in `IrqFrame`: of the general ones where the entry pushes them, and of the
-- stack pointer where the processor does.
abbrev pub frame_offset : Register → ℕ
frame_offset rax = 0
frame_offset rcx = 8
frame_offset rdx = 16
frame_offset rbx = 24
frame_offset rbp = 32
frame_offset rsi = 40
frame_offset rdi = 48
frame_offset r8 = 56
frame_offset r9 = 64
frame_offset r10 = 72
frame_offset r11 = 80
frame_offset r12 = 88
frame_offset r13 = 96
frame_offset r14 = 104
frame_offset r15 = 112
frame_offset rsp = 144

abbrev pub frame_rip : ℕ
frame_rip = 120

abbrev pub frame_rflags : ℕ
frame_rflags = 136

-- The machine takes an interrupt: the stack is aligned, five words are pushed, and interrupts are off.
unfoldable pub deliver : ℕ → ℕ → Cpu → Cpu
deliver cs ss s =
    let aligned : Cpu = record s {
      registers = set s.registers rsp (s.registers rsp - s.registers rsp % 16);
    } in
    let pushed : Cpu =
      push_word s.rip
        (push_word cs (push_word s.rflags (push_word (s.registers rsp) (push_word ss aligned)))) in
    record pushed { rflags = clear_if s.rflags }

-- `timer_interrupt_entry` and `keyboard_interrupt_entry` up to the call of their inner function.
unfoldable pub entry_pushes : List Instruction
entry_pushes =
    push r15
    ∷ push r14
    ∷ push r13
    ∷ push r12
    ∷ push r11
    ∷ push r10
    ∷ push r9
    ∷ push r8
    ∷ push rdi
    ∷ push rsi
    ∷ push rbp
    ∷ push rbx
    ∷ push rdx
    ∷ push rcx
    ∷ push rax
    ∷ mov rdi rsp
    ∷ []

-- The rest of both, after the call.
unfoldable pub entry_pops : List Instruction
entry_pops =
    pop rax
    ∷ pop rcx
    ∷ pop rdx
    ∷ pop rbx
    ∷ pop rbp
    ∷ pop rsi
    ∷ pop rdi
    ∷ pop r8
    ∷ pop r9
    ∷ pop r10
    ∷ pop r11
    ∷ pop r12
    ∷ pop r13
    ∷ pop r14
    ∷ pop r15
    ∷ iretq
    ∷ []

-- The two entries: what they run before the call of the inner function and after it.
pub record Entry : Type 0 where
  pub before : List Instruction
  pub after : List Instruction

abbrev pub timer_interrupt_entry : Entry
timer_interrupt_entry = record { before = entry_pushes; after = entry_pops }

abbrev pub keyboard_interrupt_entry : Entry
keyboard_interrupt_entry = record { before = entry_pushes; after = entry_pops }

abbrev pub entry_of : InterruptIndex → Entry
entry_of timer = timer_interrupt_entry
entry_of keyboard = keyboard_interrupt_entry

-- What the handlers work on; `sent` lists the interrupts whose end has been notified to `PICS`, the
-- last one first, since the controller's driver is the crate pic8259.
pub record Kernel (Q W : Type 0) : Type 0 where
  pub cpu : Cpu
  pub tick_count : ℕ
  pub scheduler : Scheduler
  pub sent : List ℕ
  pub scancodes : Scancodes Q W
  pub keys : Keyboard

-- A handler returns to the entry, or has switched to another context.
pub data Handled (Q W : Type 0) : Type 0 where
  returns : Kernel Q W → Handled Q W
  switches : Kernel Q W → Handled Q W

-- The assignments to `ctx` of `irq_preempt` in order, as offsets in the context and in the frame.
abbrev pub saved_fields : List (ℕ × ℕ)
saved_fields =
    (8, 120)
    ∷ (64, 0)
    ∷ (72, 8)
    ∷ (80, 16)
    ∷ (16, 24)
    ∷ (24, 32)
    ∷ (88, 40)
    ∷ (96, 48)
    ∷ (104, 56)
    ∷ (112, 64)
    ∷ (120, 72)
    ∷ (128, 80)
    ∷ (32, 88)
    ∷ (40, 96)
    ∷ (48, 104)
    ∷ (56, 112)
    ∷ (136, 136)
    ∷ []

unfoldable pub copy_fields : ℕ → ℕ → List (ℕ × ℕ) → (ℕ → ℕ) → ℕ → ℕ
copy_fields ctx frame [] m = m
copy_fields ctx frame (f ∷ fs) m = copy_fields ctx frame fs (store m (ctx + f.0) (m (frame + f.1)))

-- `irq_preempt` up to the notification: the registers are saved, and the address to go on at is put
-- below the interrupted stack.
unfoldable pub save_frame : ℕ → ℕ → (ℕ → ℕ) → Checked (ℕ → ℕ)
save_frame ctx frame m = do
  let saved : ℕ → ℕ = copy_fields ctx frame saved_fields m
  resume_rsp ← sub64 (saved (frame + frame_offset rsp)) 8
  let resumable : ℕ → ℕ = store saved resume_rsp (saved (frame + frame_rip))
  ok (store resumable (ctx + 0) resume_rsp)

module _ {Q W : Type 0} where
  abbrev pub notify_end_of_interrupt : InterruptIndex → Kernel Q W → Kernel Q W
  notify_end_of_interrupt irq k = record k { sent = as_u8 irq ∷ k.sent }

  unfoldable pub irq_preempt : ℕ → ℕ → ℕ → InterruptIndex → Kernel Q W → Checked (Kernel Q W)
  irq_preempt from_ctx to_ctx frame irq k = do
    memory ← save_frame from_ctx frame k.cpu.memory
    let called : Cpu = record k.cpu { memory = memory; registers = set k.cpu.registers rdi to_ctx }
    ok (notify_end_of_interrupt irq (record k { cpu = exec context_switch_to called }))

  -- The end of both handlers, given the pair of contexts that the scheduler returned.
  unfoldable pub finish : ℕ → InterruptIndex → Option (ℕ × ℕ) → Kernel Q W → Checked (Handled Q W)
  finish frame irq none k = ok (returns (notify_end_of_interrupt irq k))
  finish frame irq (some (from_ctx, to_ctx)) k =
      if from_ctx == to_ctx
      then ok (returns (notify_end_of_interrupt irq k))
      else (do k' ← irq_preempt from_ctx to_ctx frame irq k; ok (switches k'))

  abbrev pub uptime_ticks : Kernel Q W → ℕ
  uptime_ticks k = k.tick_count

  unfoldable pub timer_interrupt_inner : ℕ → Kernel Q W → Checked (Handled Q W)
  timer_interrupt_inner frame k = do
    let tick_count : ℕ = (k.tick_count + 1) % word
    (scheduler, switch) ← tick_prepare k.scheduler tick_count
    finish frame timer switch (record k { tick_count = tick_count; scheduler = scheduler })

  -- `scancode` is the byte that is read from port 0x60.
  unfoldable pub keyboard_interrupt_inner :
      ArrayQueue Q → AtomicWaker W → ℕ → ℕ → Kernel Q W → Checked (Handled Q W)
  keyboard_interrupt_inner a w scancode frame k = do
    let scancodes : Scancodes Q W = add_scancode a w k.scancodes scancode
    keys ← feed_scancode k.keys scancode
    (scheduler, switch) ← tick_prepare k.scheduler (uptime_ticks k)
    finish frame keyboard switch
        (record k { scancodes = scancodes; keys = keys; scheduler = scheduler })
